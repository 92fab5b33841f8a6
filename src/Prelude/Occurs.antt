-- ===== src/Prelude/Occurs.antt =====
-- How often a number stands in a list.
use Prim.Native.Nat.{ℕ, zero, suc, ◌+◌}
use mathlib.Core.Path.{◌≡◌, refl, subst}
use mathlib.Core.Logic.{inl, inr}
use mathlib.Core.Option.{Option, none, some}
use mathlib.Core.List.{List, [], ◌∷◌, ◌++◌}
use native.Mathlib.Omega.{arith}
use hardware_server.Prelude.Tests.{if◌then◌else◌, ◌==◌, Option-cases}
use hardware_server.Prelude.Lists.{pick, length}

abbrev pub one : ℕ → ℕ → ℕ
one p q = if p == q then 1 else 0

abbrev pub occurs : List ℕ → ℕ → ℕ
occurs [] q = 0
occurs (p ∷ ps) q = one p q + occurs ps q

pub occurs-append : (ps qs : List ℕ) (q : ℕ) → occurs (ps ++ qs) q ≡ occurs ps q + occurs qs q
occurs-append [] qs q = omega arith
occurs-append (p ∷ ps) qs q = omega (arith, occurs-append ps qs q)

-- A list from which one item has been taken.
pub record Picked (ps : List ℕ) (p : ℕ) (rest : List ℕ) : Type 0 where
  pub size : length ps ≡ suc (length rest)
  pub same : (q : ℕ) → occurs ps q ≡ one p q + occurs rest q

abbrev pub PickedFrom : List ℕ → Option (ℕ × List ℕ) → Type 0
PickedFrom ps none = Unit
PickedFrom ps (some (p, rest)) = Picked ps p rest

pub pick-Picked : (i : ℕ) (ps : List ℕ) → PickedFrom ps (pick i ps)
pick-Picked i [] = tt
pick-Picked zero (p ∷ ps) = record { size = refl; same = λ q. refl }
pick-Picked (suc i) (p ∷ ps) = elim (Option-cases (pick i ps)) [
  | inl over ↦ rw over tt
  | inr ((q, rest), e) ↦
      let k : Picked ps q rest = subst (PickedFrom ps) e (pick-Picked i ps) in
      rw e (record { size = omega (arith, k.size); same = λ x. omega (arith, k.same x) })
]
