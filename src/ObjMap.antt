-- ===== src/ObjMap.antt =====
-- common/common_template.h: the map wrappers `obj_ptr_map` and `obj_map`, over `std::map`.
-- A `std::map` with numeric keys is an association list; `insert` keeps it in the order of its
-- keys, which is the order of iteration. A pointer is a number, and NULL is `none`.
pub mod Entries
pub mod Laws
pub mod Values
use hardware_server.Prelude.{
  ℕ, Bool, true, false, Option, none, some, List, [], ◌∷◌, length, ltb, ◌==◌, if◌then◌else◌,
  is_some,
}

abbrev pub StdMap {ℓ} : Type ℓ → Type ℓ
StdMap V = List (ℕ × V)

module _ {ℓ} {V : Type ℓ} where
  -- `find`, with `end()` as `none`
  unfoldable pub find : ℕ → StdMap V → Option V
  find k [] = none
  find k ((j, v) ∷ m) = if j == k then some v else find k m

  -- `m[k] = v`
  unfoldable pub insert : ℕ → V → StdMap V → StdMap V
  insert k v [] = (k, v) ∷ []
  insert k v ((j, w) ∷ m) =
      let rest = insert k v m in
      if ltb k j then (k, v) ∷ (j, w) ∷ m else if j == k then (j, v) ∷ m else (j, w) ∷ rest

  -- `erase(k)`
  unfoldable pub erase : ℕ → StdMap V → StdMap V
  erase k [] = []
  erase k ((j, v) ∷ m) = let rest = erase k m in if j == k then rest else (j, v) ∷ rest

  unfoldable pub get_data : StdMap V → ℕ → Option V
  get_data m id = find id m

  unfoldable pub get_size : StdMap V → ℕ
  get_size m = length m

  unfoldable pub has_data : StdMap V → ℕ → Bool
  has_data m id = is_some (find id m)

  -- An entry that is there stays as it is, and the call says false.
  unfoldable pub add_data : StdMap V → ℕ → V → StdMap V × Bool
  add_data m id v = if is_some (find id m) then (m, false) else (insert id v m, true)

  -- The map after the call, and what stood under the key.
  unfoldable pub erase_data : StdMap V → ℕ → StdMap V × Option V
  erase_data m id = if is_some (find id m) then (erase id m, find id m) else (m, none)

-- The first key, in the order of the keys, with the value `t`.
unfoldable pub get_key : StdMap ℕ → ℕ → Option ℕ
get_key [] t = none
get_key ((j, v) ∷ m) t = if v == t then some j else get_key m t

-- The branch for WIN32: the other one advances an iterator that it has just erased.
unfoldable pub erase_value : StdMap ℕ → ℕ → StdMap ℕ
erase_value [] v = []
erase_value ((j, a) ∷ m) v = let rest = erase_value m v in if a == v then rest else (j, a) ∷ rest
