-- ===== src/Game/Sessions/Tied.antt =====
-- The sessions that the game server finds by their transactions are allocated and have their own
-- heroes: the changes of a session.
pub mod History
use hardware_server.Prelude.{
  ℕ, ◌≡◌, refl, ◌∙◌, true, false, ◌&&◌, Option, none, some, List, [], ◌∷◌, arith, ◌==◌, update,
  Option-cases, inl, inr, Bool-cases, ==_iff, subst, sym, ap,
}
use hardware_server.ObjMap.{StdMap, find, get_data, add_data, erase_data}
use hardware_server.ObjMap.Laws.{find-add_data, find-erase_data}
use hardware_server.Game.{Session, Game, start_game}
use hardware_server.Game.Sessions.{
  session_send, hero_send, enter_hero, construct, add_user, remove_user, create_hero, offline_user,
  save_hero, user_request, GameEvent, game_step, game_run, gate_added, user_added, user_removed,
  user_offline, hero_answered, hero_saved, user_asked, add_game_gate, enlist, take_hero,
}

-- What stands at the address of the session of `t`: a session of that transaction, whose hero, if any,
-- is that of its account.
abbrev pub Owns : Option ℕ → ℕ → Type 0
Owns none a = Unit
Owns (some b) a = b ≡ a

abbrev pub At : Option Session → ℕ → Type 0
At none t = ⊥
At (some s) t = (s.tranid ≡ t) × Owns s.hero s.account

abbrev pub Tied : StdMap ℕ → (ℕ → Option Session) → Type 0
Tied onlines sessions = (t p : ℕ) → find t onlines ≡ some p → At (sessions p) t

pub Tied-put :
    (onlines : StdMap ℕ) (sessions : ℕ → Option Session) (p : ℕ) (s s' : Session)
    → Tied onlines sessions
    → sessions p ≡ some s
    → At (some s') s.tranid
    → Tied onlines (update sessions p (some s'))
Tied-put onlines sessions p s s' h alive new t q e = elim (Bool-cases (p == q)) [
  | inl same ↦
      let there : At (sessions p) t =
        subst (λ x. At (sessions x) t) (sym ((==_iff p q).0 same)) (h t q e) in
      let old : At (some s) t = subst (λ o. At o t) alive there in
      rw same (subst (λ x. At (some s') x) old.0 new)
  | inr other ↦ rw other (h t q e)
]

pub At-same : (o : Option Session) (t u : ℕ) → At o t → At o u → t ≡ u
At-same none t u a b = absurd a
At-same (some s) t u a b = sym a.0 ∙ b.0

-- A session that is found at another address than `p` stays where it is.
At-elsewhere :
    (sessions : ℕ → Option Session) (p q u : ℕ) (o : Option Session)
    → At (sessions q) u
    → ¬ At (sessions p) u
    → At (update sessions p o q) u
At-elsewhere sessions p q u o a not_p = elim (Bool-cases (p == q)) [
  | inl same ↦ absurd (not_p (subst (λ x. At (sessions x) u) (sym ((==_iff p q).0 same)) a))
  | inr other ↦ rw other a
]

pub Tied-fresh :
    (onlines : StdMap ℕ) (sessions : ℕ → Option Session) (t p : ℕ) (s : Session)
    → Tied onlines sessions
    → find t onlines ≡ none
    → sessions p ≡ none
    → At (some s) t
    → Tied (add_data onlines t p).0 (update sessions p (some s))
Tied-fresh onlines sessions t p s h absent free new u q e =
    let look = find-add_data u onlines t p absent in
    elim (Bool-cases (t == u)) [
      | inl same ↦
          let found : some p ≡ some q = sym (rw same at look) ∙ e in
          let here : p ≡ q = cc found in
          let hit : (p == q) ≡ true = ground arith in
          rw hit (subst (λ x. At (some s) x) ((==_iff t u).0 same) new)
      | inr other ↦
          let found : find u onlines ≡ some q = sym (rw other at look) ∙ e in
          At-elsewhere sessions p q u (some s) (h u q found) (λ a. subst (λ o. At o u) free a)
    ]

pub Tied-remove :
    (onlines : StdMap ℕ) (sessions : ℕ → Option Session) (t p : ℕ)
    → Tied onlines sessions
    → find t onlines ≡ some p
    → Tied (erase_data onlines t).0 (update sessions p none)
Tied-remove onlines sessions t p h there u q e =
    let look = find-erase_data u onlines t in
    elim (Bool-cases (t == u)) [
      | inl same ↦ let gone : find u (erase_data onlines t).0 ≡ none = rw same at look in absurd cc
      | inr other ↦
          let found : find u onlines ≡ some q = sym (rw other at look) ∙ e in
          At-elsewhere sessions p q u none (h u q found) (λ a.
            let both : t ≡ u = At-same (sessions p) t u (h t p there) a in
            let hit : (t == u) ≡ true = ground arith in absurd cc)
    ]
