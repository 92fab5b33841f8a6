-- ===== src/Game/Sessions/GateLoss.antt =====
-- The loss of a gate.
use hardware_server.Prelude.{
  ℕ, ◌≡◌, none, some, List, arith, inl, inr, update, ◌==◌, false, ◌∙◌, Bool-cases, sym,
}
use hardware_server.ObjMap.{find}
use hardware_server.Game.{Session, Game, start_game}
use hardware_server.Game.Sessions.{
  GameEvent, game_run, active_gate, remove_game_gate, release_users,
}
use hardware_server.Game.Sessions.Tied.History.{reached-Sound}
use hardware_server.Game.Sessions.Release.{release_users-Released, own-Found}

remove_active :
    (g g' : Game) (c id : ℕ)
    → g.gate_ids c ≡ id
    → active_gate g id ≡ some c
    → release_users id g.onlines g ≡ some g'
    → remove_game_gate g c ≡ some (record g' { gates = update g'.gates id none })
unfolding remove_game_gate
remove_active g g' c id own active e = rw own (ground (arith, e))

-- In every state that the server reaches from its start, the loss of an active gate is handled without
-- a fault; after it the slot of the gate is free, no player of the gate has a session, and every
-- other player has the session as before.
pub lost_gate_released :
    (es : List GameEvent) (g : Game) (c id : ℕ)
    → game_run start_game es ≡ some g
    → g.gate_ids c ≡ id
    → active_gate g id ≡ some c
    → (g' : Game) × (remove_game_gate g c ≡ some g')
      × (g'.gates id ≡ none)
      × ((t p : ℕ) (s : Session)
          → find t g'.onlines ≡ some p
          → g'.sessions p ≡ some s
          → (s.gate == id) ≡ false)
      × ((t p : ℕ) (s : Session)
          → find t g.onlines ≡ some p
          → g.sessions p ≡ some s
          → (s.gate == id) ≡ false
          → (find t g'.onlines ≡ some p) × (g'.sessions p ≡ some s))
lost_gate_released es g c id reached own active =
    let sound = reached-Sound es g reached in
    let (g', e, r) =
      release_users-Released id g.onlines g sound.ordered (own-Found g.onlines sound.ordered)
        sound.tied in
    (
      record g' { gates = update g'.gates id none },
      remove_active g g' c id own active e,
      ground arith,
      λ t p s f k. elim (Bool-cases (s.gate == id)) [
        | inl m ↦
            let before = r.subset t p f in
            let none_left = r.gone t p s before.0 (sym before.1 ∙ k) m in absurd cc
        | inr other ↦ other
      ],
      λ t p s f k m. let there = r.stay t p s f k m in (there, (r.subset t p there).1 ∙ k),
    )
