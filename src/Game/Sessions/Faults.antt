-- ===== src/Game/Sessions/Faults.antt =====
-- Calls that end the process.
use hardware_server.Prelude.{
  ℕ, ◌≡◌, refl, ◌↔◌, none, some, List, arith, Option-cases, inl, inr, subst,
}
use hardware_server.ObjMap.{find, get_data}
use hardware_server.Game.{Session, HeroLink, Game, start_game}
use hardware_server.Game.Sessions.{remove_user, offline_user, save_hero, GameEvent, game_run}
use hardware_server.Game.Sessions.Tied.{At}
use hardware_server.Game.Sessions.Tied.History.{TiedGame, reached-Sound}

-- When a player is removed whose hero is tied to the player's session, the hero stays tied to the
-- session that is released: if it is saved then, the process reads through a dangling pointer.
pub removed_player_saved :
    (g : Game) (t a p : ℕ) (h : HeroLink)
    → get_data g.onlines t ≡ some p
    → find a g.heroes ≡ some h
    → h.session ≡ some p
    → save_hero (remove_user g t) a ≡ none
unfolding remove_user save_hero get_data
removed_player_saved g t a p h online known tied = ground arith

-- A player whose session has no hero.
abbrev pub WithoutHero : Game → ℕ → Type 0
WithoutHero g t =
    (p : ℕ) × (s : Session) × (get_data g.onlines t ≡ some p)
    × (g.sessions p ≡ some s)
    × (s.hero ≡ none)

WithoutHero-faults : (g : Game) (t : ℕ) → WithoutHero g t → offline_user g t ≡ none
unfolding offline_user
WithoutHero-faults g t (p, s, listed, alive, no_hero) =
    rw (listed, offline_user, alive, no_hero) refl

faults-WithoutHero : (g : Game) (t : ℕ) → TiedGame g → offline_user g t ≡ none → WithoutHero g t
unfolding offline_user
faults-WithoutHero g t tied fault = elim (Option-cases (get_data g.onlines t)) [
  | inl absent ↦ absurd cc
  | inr (p, listed) ↦ elim (Option-cases (g.sessions p)) [
    | inl gone ↦
        let there : At (g.sessions p) t = (unfold get_data in tied t p listed) in
        absurd (subst (λ o. At o t) gone there)
    | inr (s, alive) ↦ elim (Option-cases s.hero) [
      | inl no_hero ↦ (p, s, listed, alive, no_hero)
      | inr (a, hero) ↦ absurd cc
    ]
  ]
]

-- In every state that the server reaches from its start, the message that a player is offline ends
-- the process exactly where the player has a session that has no hero yet.
pub offline_before_hero :
    (es : List GameEvent) (g : Game) (t : ℕ)
    → game_run start_game es ≡ some g
    → (offline_user g t ≡ none) ↔ WithoutHero g t
offline_before_hero es g t reached =
    let sound = reached-Sound es g reached in
    (faults-WithoutHero g t sound.tied, WithoutHero-faults g t)
