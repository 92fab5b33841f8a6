-- ===== src/Game/Sessions/Entry.antt =====
-- A player's way to the hero.
use hardware_server.Prelude.{
  ℕ, ◌≡◌, refl, ◌∙◌, true, Option, none, some, [], ◌∷◌, ◌++◌, arith, update, append_assoc,
}
use hardware_server.ObjMap.{find, get_data, insert, add_data}
use hardware_server.ObjMap.Laws.{find-insert, find-add_data}
use hardware_server.Game.{Session, HeroLink, client_init, ask_hero, save_data, Game}
use hardware_server.Game.Sessions.{
  active_gate, session_send, hero_send, enter_hero, construct, add_user, create_hero, save_hero,
}

-- The player `t` of account `a` plays on the session at `p`, with the hero tied to it.
abbrev pub Plays : Game → ℕ → ℕ → ℕ → ℕ → Type 0
Plays g t a gate p =
    (get_data g.onlines t ≡ some p)
    × (g.sessions p
        ≡ some (record { tranid = t; account = a; gate = gate; online = true; hero = some a }))
    × (find a g.heroes ≡ some (record { session = some p; online = true; saving = true }))

abbrev link_to : ℕ → HeroLink
link_to p = record { session = some p; online = true; saving = true }

abbrev new_player : ℕ → ℕ → ℕ → Option ℕ → Session
new_player t a gate hero = record {
  tranid = t;
  account = a;
  gate = gate;
  online = true;
  hero = hero;
}

-- The server after the hero `a` is tied to the session at `p`, of the transaction `t`, and the
-- connection `c` is told.
abbrev entered : Game → ℕ → ℕ → ℕ → ℕ → Game
entered g a p c t = record g {
  heroes = insert a (link_to p) g.heroes;
  sent = g.sent ++ client_init c t a ∷ [];
}

enter_hero-entered :
    (g : Game) (a p c t b gate : ℕ) (hero : Option ℕ)
    → g.sessions p ≡ some (new_player t b gate hero)
    → active_gate g gate ≡ some c
    → enter_hero g a p ≡ some (entered g a p c t)
unfolding enter_hero hero_send session_send
enter_hero-entered g a p c t b gate hero alive active = rw (alive, active)

abbrev placed : Game → ℕ → Session → Game
placed g p s = record g { sessions = update g.sessions p (some s) }

placed_at : (g : Game) (p : ℕ) (s : Session) → (placed g p s).sessions p ≡ some s
placed_at g p s = ground arith

abbrev online_at : Game → ℕ → ℕ → Game
online_at g t p = record g { onlines = (add_data g.onlines t p).0 }

add_user-known :
    (g : Game) (t a gate p c : ℕ) (h : HeroLink)
    → get_data g.onlines t ≡ none
    → find a g.heroes ≡ some h
    → active_gate g gate ≡ some c
    → add_user g t a gate p
      ≡ some (online_at (entered (placed g p (new_player t a gate (some a))) a p c t) t p)
unfolding add_user construct
add_user-known g t a gate p c h online known active = rw (
  online,
  add_user,
  known,
  construct,
  enter_hero-entered (placed g p (new_player t a gate (some a))) a p c t a gate (some a)
      (placed_at g p (new_player t a gate (some a))) active,
)

add_user-new :
    (g : Game) (t a gate p : ℕ)
    → get_data g.onlines t ≡ none
    → find a g.heroes ≡ none
    → add_user g t a gate p
      ≡ some (
          online_at
            (record (placed g p (new_player t a gate none)) { sent = g.sent ++ ask_hero t a ∷ [] })
            t
            p)
unfolding add_user construct
add_user-new g t a gate p online known = rw (online, add_user, known, construct)

create_hero-entered :
    (g : Game) (t a p c gate : ℕ)
    → get_data g.onlines t ≡ some p
    → g.sessions p ≡ some (new_player t a gate none)
    → active_gate g gate ≡ some c
    → create_hero g t ≡ some (placed (entered g a p c t) p (new_player t a gate (some a)))
unfolding create_hero
create_hero-entered g t a p c gate online alive active =
    rw (online, create_hero, alive, enter_hero-entered g a p c t a gate none alive active)

save_hero-tied :
    (g : Game) (a p : ℕ) (s : Session)
    → find a g.heroes ≡ some (link_to p)
    → g.sessions p ≡ some s
    → save_hero g a ≡ some (record g { sent = g.sent ++ save_data a s.tranid ∷ [] })
unfolding save_hero
save_hero-tied g a p s tied alive = rw (tied, save_hero, alive)

-- For a player who comes from an active gate, has no session and whose hero is not in memory, the
-- database is asked; when the answer comes, the hero is tied to the player's session, the player is
-- told about it by the gate, and the hero is then saved under the player's transaction.
pub new_hero_enters :
    (g : Game) (t a gate p c : ℕ)
    → get_data g.onlines t ≡ none
    → find a g.heroes ≡ none
    → active_gate g gate ≡ some c
    → (g1 g2 g3 : Game) × (add_user g t a gate p ≡ some g1)
      × (create_hero g1 t ≡ some g2)
      × (save_hero g2 a ≡ some g3)
      × Plays g2 t a gate p
      × (g3.sent ≡ g.sent ++ ask_hero t a ∷ client_init c t a ∷ save_data a t ∷ [])
unfolding get_data
new_hero_enters g t a gate p c online known active =
    let g1 : Game =
      online_at
        (record (placed g p (new_player t a gate none)) { sent = g.sent ++ ask_hero t a ∷ [] }) t
        p in
    let g2 : Game = placed (entered g1 a p c t) p (new_player t a gate (some a)) in
    let listed : get_data g1.onlines t ≡ some p = ground (arith, find-add_data t g.onlines t p) in
    let tied : find a g2.heroes ≡ some (link_to p) =
      ground (arith, find-insert a a (link_to p) g1.heroes) in
    let alive = placed_at (entered g1 a p c t) p (new_player t a gate (some a)) in
    (
      g1,
      g2,
      record g2 { sent = g2.sent ++ save_data a t ∷ [] },
      add_user-new g t a gate p online known,
      create_hero-entered g1 t a p c gate listed (placed_at g p (new_player t a gate none)) active,
      save_hero-tied g2 a p (new_player t a gate (some a)) tied alive,
      (listed, alive, tied),
      append_assoc (g.sent ++ ask_hero t a ∷ []) (client_init c t a ∷ []) (save_data a t ∷ [])
          ∙ append_assoc g.sent (ask_hero t a ∷ []) (client_init c t a ∷ save_data a t ∷ []),
    )

-- A player who comes from an active gate, has no session and whose hero is in memory, whatever session
-- it was tied to, plays at once: the hero is tied to the new session and the player is told about it.
pub known_hero_enters :
    (g : Game) (t a gate p c : ℕ) (h : HeroLink)
    → get_data g.onlines t ≡ none
    → find a g.heroes ≡ some h
    → active_gate g gate ≡ some c
    → (g' : Game) × (add_user g t a gate p ≡ some g')
      × Plays g' t a gate p
      × (g'.sent ≡ g.sent ++ client_init c t a ∷ [])
unfolding get_data
known_hero_enters g t a gate p c h online known active = (
  online_at (entered (placed g p (new_player t a gate (some a))) a p c t) t p,
  add_user-known g t a gate p c h online known active,
  (
    ground (arith, find-add_data t g.onlines t p),
    placed_at g p (new_player t a gate (some a)),
    ground (arith, find-insert a a (link_to p) g.heroes),
  ),
  refl,
)
