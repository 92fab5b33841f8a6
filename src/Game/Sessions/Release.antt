-- ===== src/Game/Sessions/Release.antt =====
-- The removal of the players of a gate.
use hardware_server.Prelude.{
  ℕ, ◌≡◌, refl, ◌∙◌, ap, sym, subst, true, false, Option, none, some, [], ◌∷◌, arith, ◌==◌, update,
  Option-cases, Bool-cases, ==_iff, inl, inr,
}
use hardware_server.ObjMap.{StdMap, find, erase_data}
use hardware_server.ObjMap.Laws.{Above, IsOrdered, Entries, find-erase_data, erase_data-IsOrdered}
use hardware_server.ObjMap.Entries.{find-Entries}
use hardware_server.Game.{Session, Game}
use hardware_server.Game.Sessions.{release_users}
use hardware_server.Game.Sessions.Tied.{At, Tied, Tied-remove, At-same}

-- What the removal of the players of a gate leaves, where `todo` are the players that are looked at.
pub record Released (gate : ℕ) (todo : StdMap ℕ) (g g' : Game) : Type 0 where
  pub tied : Tied g'.onlines g'.sessions
  pub subset :
      (t p : ℕ)
      → find t g'.onlines ≡ some p
      → (find t g.onlines ≡ some p) × (g'.sessions p ≡ g.sessions p)
  pub gone :
      (t p : ℕ) (s : Session)
      → find t todo ≡ some p
      → g.sessions p ≡ some s
      → (s.gate == gate) ≡ true
      → find t g'.onlines ≡ none
  pub stay :
      (t p : ℕ) (s : Session)
      → find t g.onlines ≡ some p
      → g.sessions p ≡ some s
      → (s.gate == gate) ≡ false
      → find t g'.onlines ≡ some p

-- The entries of a map, each of which the map finds.
abbrev Found : StdMap ℕ → StdMap ℕ → Type 0
Found onlines todo = Entries (λ t p. find t onlines ≡ some p) todo

other_address :
    (onlines : StdMap ℕ) (sessions : ℕ → Option Session) (t u p q : ℕ)
    → Tied onlines sessions
    → find t onlines ≡ some p
    → find u onlines ≡ some q
    → (t == u) ≡ false
    → (p == q) ≡ false
other_address onlines sessions t u p q tied a b ne = elim (Bool-cases (p == q)) [
  | inl same ↦
      let there : At (sessions p) u =
        subst (λ x. At (sessions x) u) (sym ((==_iff p q).0 same)) (tied u q b) in
      let one : t ≡ u = At-same (sessions p) t u (tied t p a) there in
      let hit : (t == u) ≡ true = ground arith in absurd cc
  | inr other ↦ other
]

abbrev released : Game → ℕ → ℕ → Game
released g t p = record g {
  onlines = (erase_data g.onlines t).0;
  sessions = update g.sessions p none;
}

Found-released :
    (g : Game) (t p : ℕ) (todo : StdMap ℕ)
    → Above t todo
    → Found g.onlines todo
    → Found (released g t p).onlines todo
Found-released g t p [] a f = tt
Found-released g t p ((u, q) ∷ todo) a f =
    (ground (arith, find-erase_data u g.onlines t), Found-released g t p todo a.1 f.1)

released-find :
    (g : Game) (t p u q : ℕ)
    → find u (released g t p).onlines ≡ some q
    → ((t == u) ≡ false) × (find u g.onlines ≡ some q)
released-find g t p u q e = ground (arith, find-erase_data u g.onlines t)

released_other :
    (g : Game) (t p u q : ℕ)
    → Tied g.onlines g.sessions
    → find t g.onlines ≡ some p
    → find u g.onlines ≡ some q
    → (t == u) ≡ false
    → (find u (released g t p).onlines ≡ some q) × ((released g t p).sessions q ≡ g.sessions q)
released_other g t p u q tied here e ne =
    let elsewhere = other_address g.onlines g.sessions t u p q tied here e ne in
    (ground (arith, find-erase_data u g.onlines t), rw elsewhere)

one_session :
    (g : Game) (gate t p u q : ℕ) (s x : Session)
    → find t g.onlines ≡ some p
    → find u g.onlines ≡ some q
    → g.sessions p ≡ some s
    → g.sessions q ≡ some x
    → (t == u) ≡ true
    → (s.gate == gate) ≡ (x.gate == gate)
one_session g gate t p u q s x here e alive k same =
    let both : some p ≡ some q = sym here ∙ ap (λ v. find v g.onlines) ((==_iff t u).0 same) ∙ e in
    let address : p ≡ q = cc both in
    let sessions : some s ≡ some x = sym alive ∙ ap g.sessions address ∙ k in
    let one : s ≡ x = cc sessions in ap (λ y. y.gate == gate) one

-- One player is removed, and then the others.
Released-cons :
    (gate t p : ℕ) (todo : StdMap ℕ) (g g' : Game) (s : Session)
    → Tied g.onlines g.sessions
    → find t g.onlines ≡ some p
    → Found g.onlines todo
    → g.sessions p ≡ some s
    → (s.gate == gate) ≡ true
    → Released gate todo (released g t p) g'
    → Released gate ((t, p) ∷ todo) g g'
unfolding find
Released-cons gate t p todo g g' s tied here found alive match r = record {
  tied = r.tied;
  subset = λ u q e.
      let (a, b) = r.subset u q e in
      let (ne, f) = released-find g t p u q a in
      (f, b ∙ (released_other g t p u q tied here f ne).1);
  gone = λ u q x e k m. elim (Bool-cases (t == u)) [
    | inl same ↦ elim (Option-cases (find u g'.onlines)) [
      | inl n ↦ n
      | inr (y, e') ↦ let ne = (released-find g t p u y (r.subset u y e').0).0 in absurd cc
    ]
    | inr other ↦
        let later : find u todo ≡ some q = rw other at e in
        let f = find-Entries (λ v w. find v g.onlines ≡ some w) u q todo found later in
        let o = released_other g t p u q tied here f other in r.gone u q x later (o.1 ∙ k) m
  ];
  stay = λ u q x e k m. elim (Bool-cases (t == u)) [
    | inl same ↦ let one = one_session g gate t p u q s x here e alive k same in absurd cc
    | inr other ↦ let o = released_other g t p u q tied here e other in r.stay u q x o.0 (o.1 ∙ k) m
  ];
}

Released-keep :
    (gate t p : ℕ) (todo : StdMap ℕ) (g g' : Game) (s : Session)
    → find t g.onlines ≡ some p
    → g.sessions p ≡ some s
    → (s.gate == gate) ≡ false
    → Released gate todo g g'
    → Released gate ((t, p) ∷ todo) g g'
unfolding find
Released-keep gate t p todo g g' s here alive match r = record {
  tied = r.tied;
  subset = r.subset;
  gone = λ u q x e k m. elim (Bool-cases (t == u)) [
    | inl same ↦
        let at_p : some p ≡ some q = rw same at e in
        let address : p ≡ q = cc at_p in
        let sessions : some s ≡ some x = sym alive ∙ ap g.sessions address ∙ k in
        let one : s ≡ x = cc sessions in
        let gates : (s.gate == gate) ≡ (x.gate == gate) = ap (λ y. y.gate == gate) one in absurd cc
    | inr other ↦ r.gone u q x (rw other at e) k m
  ];
  stay = r.stay;
}

-- The loop ends without a fault, and removes just the players of the gate.
pub release_users-Released :
    (gate : ℕ) (todo : StdMap ℕ) (g : Game)
    → IsOrdered todo
    → Found g.onlines todo
    → Tied g.onlines g.sessions
    → (g' : Game) × (release_users gate todo g ≡ some g') × Released gate todo g g'
unfolding release_users
release_users-Released gate [] g o f tied = (
  g,
  refl,
  record {
    tied = tied;
    subset = λ t p e. (e, refl);
    gone = λ t p s e k m. absurd (nothing t p e);
    stay = λ t p s e k m. e;
  },
)
  where
    nothing : (t p : ℕ) → ¬ (find t [] ≡ some p)
    nothing t p e = unfold find in absurd cc
release_users-Released gate ((t, p) ∷ todo) g o f tied = elim (Option-cases (g.sessions p)) [
  | inl free ↦ absurd (subst (λ x. At x t) free (tied t p f.0))
  | inr (s, alive) ↦ elim (Bool-cases (s.gate == gate)) [
    | inl match ↦
        let (g', e, r) =
          release_users-Released gate todo (released g t p) o.1 (Found-released g t p todo o.0 f.1)
            (Tied-remove g.onlines g.sessions t p tied f.0) in
        (
          g',
          rw (alive, release_users, match) e,
          Released-cons gate t p todo g g' s tied f.0 f.1 alive match r,
        )
    | inr other ↦
        let (g', e, r) = release_users-Released gate todo g o.1 f.1 tied in
        (
          g',
          rw (alive, release_users, other) e,
          Released-keep gate t p todo g g' s f.0 alive other r,
        )
  ]
]

Found-cons : (j v : ℕ) (m todo : StdMap ℕ) → Above j todo → Found m todo → Found ((j, v) ∷ m) todo
unfolding find
Found-cons j v m [] a f = tt
Found-cons j v m ((u, q) ∷ todo) a f = (ground arith, Found-cons j v m todo a.1 f.1)

-- A map finds each of its own entries.
pub own-Found : (m : StdMap ℕ) → IsOrdered m → Found m m
unfolding find
own-Found [] o = tt
own-Found ((j, v) ∷ m) o = (ground arith, Found-cons j v m m o.0 (own-Found m o.1))

pub release_users-IsOrdered :
    (gate : ℕ) (todo : StdMap ℕ) (g g' : Game)
    → IsOrdered g.onlines
    → release_users gate todo g ≡ some g'
    → IsOrdered g'.onlines
unfolding release_users
release_users-IsOrdered gate [] g g' o e =
    let same : g ≡ g' = cc e in subst (λ x. IsOrdered x.onlines) same o
release_users-IsOrdered gate ((t, p) ∷ todo) g g' o e = elim (Option-cases (g.sessions p)) [
  | inl free ↦ absurd cc
  | inr (s, alive) ↦ elim (Bool-cases (s.gate == gate)) [
    | inl match ↦
        let later : release_users gate todo (released g t p) ≡ some g' =
          rw (alive, release_users, match) at e in
        release_users-IsOrdered gate todo (released g t p) g' (erase_data-IsOrdered g.onlines t o)
          later
    | inr other ↦
        let later : release_users gate todo g ≡ some g' = rw (alive, release_users, other) at e in
        release_users-IsOrdered gate todo g g' o later
  ]
]
