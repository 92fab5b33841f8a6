-- ===== src/ObjMap/Laws.antt =====
-- What a lookup finds after each operation on a map, and what holds of all entries.
use hardware_server.Prelude.{
  ℕ, ◌≤◌, ◌<◌, ◌≡◌, refl, none, some, [], ◌∷◌, arith, ◌==◌, if◌then◌else◌,
}
use hardware_server.ObjMap.{StdMap, find, insert, erase, add_data, erase_data}

module _ {ℓ} {V : Type ℓ} where
  pub find-insert :
      (j k : ℕ) (v : V) (m : StdMap V)
      → find j (insert k v m) ≡ (if k == j then some v else find j m)
  unfolding find insert
  find-insert j k v [] = refl
  find-insert j k v ((i, w) ∷ m) = ground (arith, find-insert j k v m)

  pub find-erase :
      (j k : ℕ) (m : StdMap V) → find j (erase k m) ≡ (if k == j then none else find j m)
  unfolding find erase
  find-erase j k [] = ground arith
  find-erase j k ((i, w) ∷ m) = ground (arith, find-erase j k m)

module _ {ℓ} {V : Type ℓ} where
  -- All keys of the map are greater than `k`.
  abbrev pub Above : ℕ → StdMap V → Type 0
  Above k [] = Unit
  Above k ((j, v) ∷ m) = (k < j) × Above k m

  -- The keys increase, as those of a `std::map` do.
  abbrev pub IsOrdered : StdMap V → Type 0
  IsOrdered [] = Unit
  IsOrdered ((j, v) ∷ m) = Above j m × IsOrdered m

  -- Every entry meets `P`.
  abbrev pub Entries {κ} : (ℕ → V → Type κ) → StdMap V → Type κ
  Entries P [] = Unit
  Entries P ((j, v) ∷ m) = P j v × Entries P m

module _ {ℓ} {V : Type ℓ} where
  Above-trans : (k j : ℕ) (m : StdMap V) → k < j → Above j m → Above k m
  Above-trans k j [] h a = tt
  Above-trans k j ((i, v) ∷ m) h a = (omega arith, Above-trans k j m h a.1)

  insert-Above : (k j : ℕ) (v : V) (m : StdMap V) → k < j → Above k m → Above k (insert j v m)
  unfolding insert
  insert-Above k j v [] h a = (h, tt)
  insert-Above k j v ((i, w) ∷ m) h a = ground (arith, insert-Above k j v m)

  erase-Above : (k j : ℕ) (m : StdMap V) → Above k m → Above k (erase j m)
  unfolding erase
  erase-Above k j [] a = tt
  erase-Above k j ((i, w) ∷ m) a = ground (arith, erase-Above k j m)

  pub insert-IsOrdered : (k : ℕ) (v : V) (m : StdMap V) → IsOrdered m → IsOrdered (insert k v m)
  unfolding insert
  insert-IsOrdered k v [] o = (tt, tt)
  insert-IsOrdered k v ((j, w) ∷ m) o =
      ground (arith, insert-IsOrdered k v m, insert-Above j k v m, Above-trans k j m)

  pub erase-IsOrdered : (k : ℕ) (m : StdMap V) → IsOrdered m → IsOrdered (erase k m)
  unfolding erase
  erase-IsOrdered k [] o = tt
  erase-IsOrdered k ((j, w) ∷ m) o = ground (arith, erase-IsOrdered k m, erase-Above j k m)

  -- `addData` and `eraseData` keep the keys in order.
  pub add_data-IsOrdered :
      (m : StdMap V) (id : ℕ) (v : V) → IsOrdered m → IsOrdered (add_data m id v).0
  unfolding add_data
  add_data-IsOrdered m id v o = ground (arith, insert-IsOrdered id v m)

  pub erase_data-IsOrdered : (m : StdMap V) (id : ℕ) → IsOrdered m → IsOrdered (erase_data m id).0
  unfolding erase_data
  erase_data-IsOrdered m id o = ground (arith, erase-IsOrdered id m)

  pub find-add_data :
      (j : ℕ) (m : StdMap V) (k : ℕ) (v : V)
      → find k m ≡ none
      → find j (add_data m k v).0 ≡ (if k == j then some v else find j m)
  unfolding add_data
  find-add_data j m k v e = ground (arith, find-insert j k v m)

  pub find-erase_data :
      (j : ℕ) (m : StdMap V) (k : ℕ)
      → find j (erase_data m k).0 ≡ (if k == j then none else find j m)
  unfolding erase_data
  find-erase_data j m k = ground (arith, find-erase j k m)

  pub erase_data_result : (m : StdMap V) (k : ℕ) → (erase_data m k).1 ≡ find k m
  unfolding erase_data
  erase_data_result m k = ground arith

  pub find-Above : (k j : ℕ) (m : StdMap V) → j ≤ k → Above k m → find j m ≡ none
  unfolding find
  find-Above k j [] h a = refl
  find-Above k j ((i, v) ∷ m) h a = ground (arith, find-Above k j m)
