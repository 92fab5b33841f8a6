-- ===== src/Login/Gates/Idle.antt =====
-- Which gate gets the next player.
use hardware_server.Prelude.{
  ℕ, zero, suc, ◌+◌, ◌<◌, ◌≡◌, refl, ◌⊎◌, inl, inr, Option, none, some, arith, Option-cases,
  Bool-cases, subst, sym, if◌then◌else◌,
}
use hardware_server.Prelude.Int.{◌≤ℤ◌}
use hardware_server.Login.{GateInfo, Login, max_gate_id}
use hardware_server.Login.Gates.{get_balence_count, is_better, gate_scan, get_idle_gate}

module _ (infos : ℕ → GateInfo) (gates : ℕ → Option ℕ) where
  -- No slot below `k` has a gate with a lower count than `p`.
  abbrev NoneBelow : ℕ → ℕ → Type 0
  NoneBelow k p =
      (i q : ℕ)
      → i < k
      → gates i ≡ some q
      → get_balence_count (infos p) ≤ℤ get_balence_count (infos q)

  -- The result of the loop at slot `k`: no slot is taken, or the gate is in one and has the lowest
  -- count.
  abbrev pub LeastGate : ℕ → Option ℕ → Type 0
  LeastGate k none = (i : ℕ) → i < k → gates i ≡ none
  LeastGate k (some p) = ((i : ℕ) × (i < k) × (gates i ≡ some p)) × NoneBelow k p

  lt_suc_cases : (i k : ℕ) → i < k + 1 → (i < k) ⊎ (i ≡ k)
  lt_suc_cases i k h = omega arith

  extend : (P : ℕ → Type 0) (k : ℕ) → P k → ((i : ℕ) → i < k → P i) → (i : ℕ) → i < k + 1 → P i
  extend P k here below i h = elim (lt_suc_cases i k h) [
    | inl lt ↦ below i lt
    | inr e ↦ subst P (sym e) here
  ]

  abbrev Weighs : ℕ → ℕ → Type 0
  Weighs p i =
      (q : ℕ) → gates i ≡ some q → get_balence_count (infos p) ≤ℤ get_balence_count (infos q)

  free_slot : (k : ℕ) (best : Option ℕ) → gates k ≡ none → LeastGate k best → LeastGate (k + 1) best
  free_slot k none e b = extend (λ i. gates i ≡ none) k e b
  free_slot k (some p) e b = (
    (b.0.0, omega arith, b.0.2),
    λ i q h. extend (Weighs p) k (λ q a. cc) (λ i lt q. b.1 i q lt) i h q,
  )

  taken_slot :
      (k : ℕ) (best : Option ℕ) (p : ℕ)
      → gates k ≡ some p
      → LeastGate k best
      → LeastGate (k + 1) (if is_better infos best p then some p else best)
  taken_slot k none p e b = (
    (k, omega arith, e),
    λ i q h. extend (Weighs p) k (λ q a. ground arith) (λ i lt q a. cc (b i lt)) i h q,
  )
  taken_slot k (some r) p e b = elim (Bool-cases (is_better infos (some r) p)) [
    | inl better ↦ rw better (
      (k, omega arith, e),
      λ i q h.
          extend (Weighs p) k (λ q a. ground arith) (λ i lt q a. ground (arith, b.1 i q lt a)) i h
            q,
    )
    | inr worse ↦ rw worse (
      (b.0.0, omega arith, b.0.2),
      λ i q h. extend (Weighs r) k (λ q a. ground arith) (λ i lt q. b.1 i q lt) i h q,
    )
  ]

  scan-LeastGate :
      (n k j : ℕ) (best : Option ℕ)
      → k + n ≡ j
      → LeastGate k best
      → LeastGate j (gate_scan infos gates n k best)
  unfolding gate_scan
  scan-LeastGate zero k j best e b =
      subst (λ m. LeastGate m best) (let same : k ≡ j = omega arith in same) b
  scan-LeastGate (suc n) k j best e b = elim (Option-cases (gates k)) [
    | inl free ↦
        rw (free, gate_scan)
          (scan-LeastGate n (k + 1) j best (omega arith) (free_slot k best free b))
    | inr (p, held) ↦
        rw (held, gate_scan)
          (scan-LeastGate n (k + 1) j (if is_better infos best p then some p else best)
            (omega arith) (taken_slot k best p held b))
  ]

-- `getIdleGate` answers NULL exactly where no gate is active, and otherwise an active gate whose
-- count of players and of recent logins is the lowest of all.
pub get_idle_gate-LeastGate :
    (l : Login) → LeastGate l.gate_infos l.gates max_gate_id (get_idle_gate l)
unfolding get_idle_gate
get_idle_gate-LeastGate l =
    scan-LeastGate l.gate_infos l.gates max_gate_id 0 max_gate_id none refl
      (λ i h. absurd (omega arith))
