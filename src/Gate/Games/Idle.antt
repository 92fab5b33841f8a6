-- ===== src/Gate/Games/Idle.antt =====
-- What `getIdleGameClient` chooses.
use hardware_server.Prelude.{
  ℕ, zero, suc, ◌+◌, ◌≤◌, ◌<◌, ◌≡◌, refl, ◌⊎◌, inl, inr, true, false, Option, none, some, arith,
  ltb, Option-cases, Bool-cases, subst, sym,
}
use hardware_server.Gate.State.{GameInfo, Gate, max_game_id}
use hardware_server.Gate.Games.{takes_over, idle_scan, get_idle_game_client}

module _ (clients : ℕ → GameInfo) (limit : ℕ) (active : ℕ → Option ℕ) where
  abbrev load : ℕ → ℕ
  load c = (clients c).onlines

  -- The client at some slot below `k`
  abbrev Stands : ℕ → ℕ → Type 0
  Stands k c = (i : ℕ) × (i < k) × (active i ≡ some c)

  -- No slot below `k` has a client with fewer players.
  abbrev LeastBelow : ℕ → ℕ → Type 0
  LeastBelow k c = (i d : ℕ) → i < k → active i ≡ some d → load c ≤ load d

  -- The state of the loop at slot `k`.
  abbrev Best : ℕ → Option ℕ → Type 0
  Best k none = (i : ℕ) → i < k → active i ≡ none
  Best k (some c) = Stands k c × LeastBelow k c

  -- The result of the loop when it ends at slot `k`: no client at all, or an active client that is
  -- below the limit or is the least loaded one.
  abbrev pub Chosen : ℕ → Option ℕ → Type 0
  Chosen k none = (i : ℕ) → i < k → active i ≡ none
  Chosen k (some c) =
      ((i : ℕ) × (i < k) × (active i ≡ some c))
      × ((load c < limit) ⊎ ((i d : ℕ) → i < k → active i ≡ some d → load c ≤ load d))

  Best-Chosen : (k : ℕ) (r : Option ℕ) → Best k r → Chosen k r
  Best-Chosen k none b = b
  Best-Chosen k (some c) b = (b.0, inr b.1)

  lt_suc_cases : (i k : ℕ) → i < k + 1 → (i < k) ⊎ (i ≡ k)
  lt_suc_cases i k h = omega arith

  extend : (P : ℕ → Type 0) (k : ℕ) → P k → ((i : ℕ) → i < k → P i) → (i : ℕ) → i < k + 1 → P i
  extend P k here below i h = elim (lt_suc_cases i k h) [
    | inl lt ↦ below i lt
    | inr e ↦ subst P (sym e) here
  ]

  abbrev NoLess : ℕ → ℕ → Type 0
  NoLess c i = (d : ℕ) → active i ≡ some d → load c ≤ load d

  skip_empty : (k : ℕ) (best : Option ℕ) → active k ≡ none → Best k best → Best (k + 1) best
  skip_empty k none e b = extend (λ i. active i ≡ none) k e b
  skip_empty k (some c) e b = (
    (b.0.0, omega arith, b.0.2),
    λ i d h. extend (NoLess c) k (λ d a. cc) (λ i lt d. b.1 i d lt) i h d,
  )

  keep-Best :
      (k : ℕ) (best : Option ℕ) (c : ℕ)
      → active k ≡ some c
      → takes_over clients best c ≡ false
      → Best k best
      → Best (k + 1) best
  keep-Best k none c e t b = cc
  keep-Best k (some a) c e t b = (
    (b.0.0, omega arith, b.0.2),
    λ i d h. extend (NoLess a) k (λ d s. ground arith) (λ i lt d. b.1 i d lt) i h d,
  )

  take_over :
      (k : ℕ) (best : Option ℕ) (c : ℕ)
      → active k ≡ some c
      → takes_over clients best c ≡ true
      → Best k best
      → Best (k + 1) (some c)
  take_over k none c e t b = (
    (k, omega arith, e),
    λ i d h. extend (NoLess c) k (λ d s. ground arith) (λ i lt d s. cc (b i lt)) i h d,
  )
  take_over k (some a) c e t b = (
    (k, omega arith, e),
    λ i d h.
        extend (NoLess c) k (λ d s. ground arith) (λ i lt d s. ground (arith, b.1 i d lt s)) i h d,
  )

  scan-Chosen :
      (n k j : ℕ) (best : Option ℕ)
      → k + n ≡ j
      → Best k best
      → Chosen j (idle_scan clients limit active n k best)
  unfolding idle_scan
  scan-Chosen zero k j best e b =
      subst (λ m. Chosen m best) (let same : k ≡ j = omega arith in same) (Best-Chosen k best b)
  scan-Chosen (suc n) k j best e b = elim (Option-cases (active k)) [
    | inl free ↦
        rw (free, idle_scan) (scan-Chosen n (k + 1) j best (omega arith) (skip_empty k best free b))
    | inr (c, held) ↦ elim (Bool-cases (takes_over clients best c)) [
      | inl over ↦ elim (Bool-cases (ltb (load c) limit)) [
        | inl idle ↦ rw (held, over, idle, idle_scan) ((k, omega arith, held), inl (ground arith))
        | inr busy ↦
            rw (held, over, busy, idle_scan)
              (scan-Chosen n (k + 1) j (some c) (omega arith) (take_over k best c held over b))
      ]
      | inr under ↦
          rw (held, under, idle_scan)
            (scan-Chosen n (k + 1) j best (omega arith) (keep-Best k best c held under b))
    ]
  ]

-- `getIdleGameClient` answers NULL exactly where no game server is active, and otherwise the client
-- of an active one that is below the configured limit of players or has the fewest players of all.
pub get_idle_game_client-Chosen :
    (limit : ℕ) (g : Gate)
    → Chosen g.clients limit g.active_games max_game_id (get_idle_game_client limit g)
unfolding get_idle_game_client
get_idle_game_client-Chosen limit g =
    scan-Chosen g.clients limit g.active_games max_game_id 0 max_game_id none refl
      (λ i h. absurd (omega arith))
