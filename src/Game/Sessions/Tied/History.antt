-- ===== src/Game/Sessions/Tied/History.antt =====
-- The sessions that the game server finds by their transactions are allocated and have their own
-- heroes, in every state that is reached.
use hardware_server.Game.Sessions.Release.{
  release_users-Released, own-Found, release_users-IsOrdered,
}
use hardware_server.ObjMap.Laws.{IsOrdered, add_data-IsOrdered, erase_data-IsOrdered}
use hardware_server.Prelude.{
  ℕ, ◌≡◌, refl, ◌∙◌, true, false, ◌&&◌, Option, none, some, List, [], ◌∷◌, arith, ◌==◌, update,
  Option-cases, inl, inr, Bool-cases, subst, sym, ap, ltb,
}
use hardware_server.ObjMap.{find, get_data, add_data}
use hardware_server.Game.{Session, Game, start_game}
use hardware_server.Game.Sessions.{
  session_send, hero_send, enter_hero, construct, add_user, remove_user, create_hero, offline_user,
  save_hero, user_request, GameEvent, game_step, game_run, gate_added, user_added, user_removed,
  user_offline, hero_answered, hero_saved, user_asked, add_game_gate, enlist, take_hero, gate_lost,
  remove_game_gate, is_gate_of, release_users,
}
use hardware_server.Game.Sessions.Tied.{Owns, At, Tied, Tied-put, Tied-fresh, Tied-remove}

abbrev pub TiedGame : Game → Type 0
TiedGame g = Tied g.onlines g.sessions

-- What holds after a call, if it does not fault.
abbrev pub After : (Game → Type 0) → Option Game → Type 0
After P none = Unit
After P (some g) = P g

abbrev Same : Game → Game → Type 0
Same g g' = (g'.onlines ≡ g.onlines) × (g'.sessions ≡ g.sessions)

enter_hero-Same : (g : Game) (a p : ℕ) → After (Same g) (enter_hero g a p)
unfolding enter_hero hero_send session_send
enter_hero-Same g a p = ground arith

Tied-Same : (g g' : Game) → Same g g' → TiedGame g → TiedGame g'
Tied-Same g g' same h t p e =
    let found : find t g.onlines ≡ some p = ap (find t) (sym same.0) ∙ e in
    subst (λ x. At (x p) t) (sym same.1) (h t p found)

After-Same : (g : Game) (o : Option Game) → After (Same g) o → TiedGame g → After TiedGame o
After-Same g none same h = tt
After-Same g (some g') same h = Tied-Same g g' same h

enlist-Tied :
    (g : Game) (t p : ℕ) (o : Option Game)
    → After (Same g) o
    → Tied (add_data g.onlines t p).0 g.sessions
    → After TiedGame (enlist t p o)
enlist-Tied g t p none same h = tt
enlist-Tied g t p (some g') same h = λ u q e.
    let found : find u (add_data g.onlines t p).0 ≡ some q =
      ap (λ m. find u (add_data m t p).0) (sym same.0) ∙ e in
    subst (λ x. At (x q) u) (sym same.1) (h u q found)

take_hero-Tied :
    (g : Game) (p : ℕ) (s : Session) (o : Option Game)
    → After (Same g) o
    → TiedGame g
    → g.sessions p ≡ some s
    → After TiedGame (take_hero p s o)
take_hero-Tied g p s none same h alive = tt
take_hero-Tied g p s (some g') same h alive =
    Tied-put g'.onlines g'.sessions p s (record s { hero = some s.account }) (Tied-Same g g' same h)
      (ap (λ x. x p) same.1 ∙ alive) (refl, refl)

construct-Tied :
    (g : Game) (p t a gate : ℕ)
    → TiedGame g
    → get_data g.onlines t ≡ none
    → g.sessions p ≡ none
    → After TiedGame (enlist t p (construct g p t a gate))
unfolding construct get_data
construct-Tied g p t a gate h absent free = elim (Option-cases (find a g.heroes)) [
  | inl e ↦
      rw (e, construct)
        (Tied-fresh g.onlines g.sessions t p
          (record { tranid = t; account = a; gate = gate; online = true; hero = none }) h absent
          free (refl, tt))
  | inr (x, e) ↦
      let s : Session = record {
        tranid = t;
        account = a;
        gate = gate;
        online = true;
        hero = some a;
      } in
      let g1 : Game = record g { sessions = update g.sessions p (some s) } in
      rw (e, construct)
        (enlist-Tied g1 t p (enter_hero g1 a p) (enter_hero-Same g1 a p)
          (Tied-fresh g.onlines g.sessions t p s h absent free (refl, refl)))
]

put_back :
    (g : Game) (t p : ℕ) (s s' : Session)
    → TiedGame g
    → get_data g.onlines t ≡ some p
    → g.sessions p ≡ some s
    → s'.tranid ≡ s.tranid
    → (Owns s.hero s.account → Owns s'.hero s'.account)
    → Tied g.onlines (update g.sessions p (some s'))
unfolding get_data
put_back g t p s s' h listed alive same own =
    let old : At (some s) t = subst (λ o. At o t) alive (h t p listed) in
    Tied-put g.onlines g.sessions p s s' h alive (same, own old.1)

add_user-Tied :
    (g : Game) (t a gate p : ℕ)
    → TiedGame g
    → g.sessions p ≡ none
    → After TiedGame (add_user g t a gate p)
unfolding add_user
add_user-Tied g t a gate p h free = elim (Option-cases (get_data g.onlines t)) [
  | inl absent ↦ rw (absent, add_user) (construct-Tied g p t a gate h absent free)
  | inr (q, listed) ↦ elim (Option-cases (g.sessions q)) [
    | inl gone ↦ rw (listed, add_user, gone) tt
    | inr (s, alive) ↦ elim (Bool-cases ((s.gate == gate) && (s.account == a))) [
      | inl back ↦
          rw (listed, add_user, alive, back)
            (put_back g t q s (record s { online = true }) h listed alive refl (λ o. o))
      | inr other ↦ rw (listed, add_user, alive, other) h
    ]
  ]
]

remove_user-Tied : (g : Game) (t : ℕ) → TiedGame g → TiedGame (remove_user g t)
unfolding remove_user get_data
remove_user-Tied g t h = elim (Option-cases (get_data g.onlines t)) [
  | inl absent ↦ rw (absent, remove_user) h
  | inr (p, listed) ↦ rw (listed, remove_user) (Tied-remove g.onlines g.sessions t p h listed)
]

offline_user-Tied : (g : Game) (t : ℕ) → TiedGame g → After TiedGame (offline_user g t)
unfolding offline_user
offline_user-Tied g t h = elim (Option-cases (get_data g.onlines t)) [
  | inl absent ↦ rw (absent, offline_user) h
  | inr (p, listed) ↦ elim (Option-cases (g.sessions p)) [
    | inl gone ↦ rw (listed, offline_user, gone) tt
    | inr (s, alive) ↦ elim (Option-cases s.hero) [
      | inl no_hero ↦ rw (listed, offline_user, alive, no_hero) tt
      | inr (a, hero) ↦
          rw (listed, offline_user, alive, hero)
            (put_back g t p s (record s { online = false }) h listed alive refl (λ o. o))
    ]
  ]
]

create_hero-Tied : (g : Game) (t : ℕ) → TiedGame g → After TiedGame (create_hero g t)
unfolding create_hero
create_hero-Tied g t h = elim (Option-cases (get_data g.onlines t)) [
  | inl absent ↦ rw (absent, create_hero) h
  | inr (p, listed) ↦ elim (Option-cases (g.sessions p)) [
    | inl gone ↦ rw (listed, create_hero, gone) tt
    | inr (s, alive) ↦
        rw (listed, create_hero, alive)
          (take_hero-Tied g p s (enter_hero g s.account p) (enter_hero-Same g s.account p) h alive)
  ]
]

save_hero-Same : (g : Game) (a : ℕ) → After (Same g) (save_hero g a)
unfolding save_hero
save_hero-Same g a = ground arith

user_request-Same : (g : Game) (t : ℕ) → After (Same g) (user_request g t)
unfolding user_request hero_send session_send
user_request-Same g t = ground arith

remove_game_gate-Tied :
    (g : Game) (c : ℕ) → TiedGame g → IsOrdered g.onlines → After TiedGame (remove_game_gate g c)
unfolding remove_game_gate
remove_game_gate-Tied g c h o =
    let id = g.gate_ids c in
    let (g', e, r) = release_users-Released id g.onlines g o (own-Found g.onlines o) h in
    elim (Bool-cases ((ltb 0 id && ltb id 0xff) && is_gate_of (g.gates id) c)) [
      | inl active ↦ rw (active, e) r.tied
      | inr other ↦ rw other h
    ]

abbrev pub OrderedGame : Game → Type 0
OrderedGame g = IsOrdered g.onlines

add_user-Ordered :
    (g : Game) (t a gate p : ℕ) → OrderedGame g → After OrderedGame (add_user g t a gate p)
unfolding add_user construct enter_hero hero_send session_send
add_user-Ordered g t a gate p o = ground (arith, add_data-IsOrdered g.onlines t p)

create_hero-Ordered : (g : Game) (t : ℕ) → OrderedGame g → After OrderedGame (create_hero g t)
unfolding create_hero enter_hero hero_send session_send
create_hero-Ordered g t o = ground arith

user_request-Ordered : (g : Game) (t : ℕ) → OrderedGame g → After OrderedGame (user_request g t)
unfolding user_request hero_send session_send
user_request-Ordered g t o = ground arith

remove_game_gate-Ordered :
    (g : Game) (c : ℕ) → OrderedGame g → After OrderedGame (remove_game_gate g c)
unfolding remove_game_gate
remove_game_gate-Ordered g c o =
    let id = g.gate_ids c in
    elim (Bool-cases ((ltb 0 id && ltb id 0xff) && is_gate_of (g.gates id) c)) [
      | inl active ↦ elim (Option-cases (release_users id g.onlines g)) [
        | inl fault ↦ rw (active, fault) tt
        | inr (g', e) ↦ rw (active, e) (release_users-IsOrdered id g.onlines g g' o e)
      ]
      | inr other ↦ rw other o
    ]

game_step-Ordered : (g : Game) (e : GameEvent) → OrderedGame g → After OrderedGame (game_step g e)
unfolding game_step
game_step-Ordered g (gate_added c id) o = unfold add_game_gate in ground arith
game_step-Ordered g (user_added t a gate p) o = ground (arith, add_user-Ordered g t a gate p)
game_step-Ordered g (user_removed t) o =
    unfold remove_user in ground (arith, erase_data-IsOrdered g.onlines t)
game_step-Ordered g (user_offline t) o = unfold offline_user in ground arith
game_step-Ordered g (hero_answered t) o = create_hero-Ordered g t o
game_step-Ordered g (hero_saved a) o = unfold save_hero in ground arith
game_step-Ordered g (user_asked t) o = user_request-Ordered g t o
game_step-Ordered g (gate_lost c) o = remove_game_gate-Ordered g c o

game_step-Tied :
    (g : Game) (e : GameEvent) → TiedGame g → IsOrdered g.onlines → After TiedGame (game_step g e)
unfolding game_step
game_step-Tied g (gate_added c id) h o =
    Tied-Same g (add_game_gate g c id)
      (unfold add_game_gate in ground arith, unfold add_game_gate in ground arith) h
game_step-Tied g (user_added t a gate p) h o = elim (Option-cases (g.sessions p)) [
  | inl free ↦ rw free (add_user-Tied g t a gate p h free)
  | inr (s, taken) ↦ rw taken h
]
game_step-Tied g (user_removed t) h o = remove_user-Tied g t h
game_step-Tied g (user_offline t) h o = offline_user-Tied g t h
game_step-Tied g (hero_answered t) h o = create_hero-Tied g t h
game_step-Tied g (hero_saved a) h o = After-Same g (save_hero g a) (save_hero-Same g a) h
game_step-Tied g (user_asked t) h o = After-Same g (user_request g t) (user_request-Same g t) h
game_step-Tied g (gate_lost c) h o = remove_game_gate-Tied g c h o

-- What every reached state has.
pub record Sound (g : Game) : Type 0 where
  pub tied : TiedGame g
  pub ordered : OrderedGame g

pub game_run-Sound : (g : Game) (es : List GameEvent) → Sound g → After Sound (game_run g es)
unfolding game_run
game_run-Sound g [] h = h
game_run-Sound g (e ∷ es) h = elim (Option-cases (game_step g e)) [
  | inl fault ↦ rw (fault, game_run) tt
  | inr (g', done) ↦
      let k : TiedGame g' = subst (After TiedGame) done (game_step-Tied g e h.tied h.ordered) in
      let o : OrderedGame g' = subst (After OrderedGame) done (game_step-Ordered g e h.ordered) in
      rw (done, game_run) (game_run-Sound g' es (record { tied = k; ordered = o }))
]

start_game-Tied : TiedGame start_game
unfolding find
start_game-Tied t p e = absurd cc

pub reached-Sound : (es : List GameEvent) (g : Game) → game_run start_game es ≡ some g → Sound g
reached-Sound es g reached =
    subst (After Sound) reached
      (game_run-Sound start_game es (record { tied = start_game-Tied; ordered = tt }))
