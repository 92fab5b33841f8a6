-- ===== src/ObjMap/Entries.antt =====
-- What holds of all entries of a map, kept by each operation.
use hardware_server.Prelude.{
  ℕ, ◌≡◌, some, [], ◌∷◌, arith, ◌==◌, Bool-cases, ==_iff, false, inl, inr,
}
use mathlib.Core.Path.{subst₂}
use hardware_server.ObjMap.{StdMap, find, insert, erase, add_data, erase_data, erase_value}
use hardware_server.ObjMap.Laws.{Entries}

module _ {ℓ κ} {V : Type ℓ} (P : ℕ → V → Type κ) where
  pub insert-Entries :
      (k : ℕ) (v : V) (m : StdMap V) → P k v → Entries P m → Entries P (insert k v m)
  unfolding insert
  insert-Entries k v [] p e = (p, tt)
  insert-Entries k v ((j, w) ∷ m) p e = ground (arith, insert-Entries k v m)

  pub erase-Entries : (k : ℕ) (m : StdMap V) → Entries P m → Entries P (erase k m)
  unfolding erase
  erase-Entries k [] e = tt
  erase-Entries k ((j, w) ∷ m) e = ground (arith, erase-Entries k m)

  pub add_data-Entries :
      (m : StdMap V) (k : ℕ) (v : V) → P k v → Entries P m → Entries P (add_data m k v).0
  unfolding add_data
  add_data-Entries m k v p e = ground (arith, insert-Entries k v m)

  pub erase_data-Entries : (m : StdMap V) (k : ℕ) → Entries P m → Entries P (erase_data m k).0
  unfolding erase_data
  erase_data-Entries m k e = ground (arith, erase-Entries k m)

  pub find-Entries : (k : ℕ) (v : V) (m : StdMap V) → Entries P m → find k m ≡ some v → P k v
  unfolding find
  find-Entries k v [] e h = cc
  find-Entries k v ((j, w) ∷ m) e h = elim (Bool-cases (j == k)) [
    | inl t ↦
        let same : some w ≡ some v = rw t at h in
        let value : w ≡ v = cc same in subst₂ P ((==_iff j k).0 t) value e.0
    | inr t ↦ find-Entries k v m e.1 (rw t at h)
  ]

module _ {ℓ κ ι} {V : Type ℓ} (P : ℕ → V → Type κ) (Q : ℕ → V → Type ι) where
  pub Entries-mono : (m : StdMap V) → ((j : ℕ) (v : V) → P j v → Q j v) → Entries P m → Entries Q m
  Entries-mono [] f e = tt
  Entries-mono ((j, v) ∷ m) f e = (f j v e.0, Entries-mono m f e.1)

module _ {κ ι} (P : ℕ → ℕ → Type κ) (Q : ℕ → ℕ → Type ι) where
  -- What the entries with another value meet, all entries meet after `eraseValue`.
  pub erase_value-Entries :
      (v : ℕ) (m : StdMap ℕ)
      → ((j a : ℕ) → (a == v) ≡ false → P j a → Q j a)
      → Entries P m
      → Entries Q (erase_value m v)
  unfolding erase_value
  erase_value-Entries v [] f e = tt
  erase_value-Entries v ((j, a) ∷ m) f e = elim (Bool-cases (a == v)) [
    | inl h ↦ rw h (erase_value-Entries v m f e.1)
    | inr h ↦ rw h (f j a h e.0, erase_value-Entries v m f e.1)
  ]
