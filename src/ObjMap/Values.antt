-- ===== src/ObjMap/Values.antt =====
-- The operations that go by the value of an entry, `getKey` and `eraseValue`.
use hardware_server.Prelude.{
  ℕ, ◌≤◌, ◌≡◌, ◌≢◌, refl, false, Option, none, some, [], ◌∷◌, arith, ◌==◌, if◌then◌else◌,
  Bool-cases, ==_iff, inl, inr, subst,
}
use hardware_server.ObjMap.{StdMap, find, get_key, erase_value}
use hardware_server.ObjMap.Laws.{Above, IsOrdered, find-Above}

abbrev pub without_value : ℕ → Option ℕ → Option ℕ
without_value v none = none
without_value v (some a) = if a == v then none else some a

erase_value-Above : (k v : ℕ) (m : StdMap ℕ) → Above k m → Above k (erase_value m v)
unfolding erase_value
erase_value-Above k v [] a = tt
erase_value-Above k v ((j, w) ∷ m) a = ground (arith, erase_value-Above k v m)

-- Of the keys in a map, `eraseValue` takes away exactly those whose value it is given, and the keys
-- stay in order.
pub find-erase_value :
    (m : StdMap ℕ) (v : ℕ)
    → IsOrdered m
    → IsOrdered (erase_value m v)
      × ((j : ℕ) → find j (erase_value m v) ≡ without_value v (find j m))
unfolding erase_value find
find-erase_value [] v o = (tt, λ j. refl)
find-erase_value ((i, a) ∷ m) v o = (
  ground (arith, find-erase_value m v, erase_value-Above i v m),
  λ j. ground (
    arith,
    (find-erase_value m v o.1).1 j,
    find-Above i j (erase_value m v),
    find-Above i j m,
    erase_value-Above i v m,
  ),
)

-- What `getKey` answers: a key with the value, and none before it.
abbrev pub GetsKey : StdMap ℕ → ℕ → Option ℕ → Type 0
GetsKey m t none = (j : ℕ) → find j m ≢ some t
GetsKey m t (some k) = (find k m ≡ some t) × ((j : ℕ) → find j m ≡ some t → k ≤ j)

get_key_cons :
    (i a : ℕ) (m : StdMap ℕ) (t : ℕ) (r : Option ℕ)
    → Above i m
    → (a == t) ≡ false
    → GetsKey m t r
    → GetsKey ((i, a) ∷ m) t r
unfolding find
get_key_cons i a m t none above ne g = λ j e. ground (arith, g j)
get_key_cons i a m t (some k) above ne g =
    (ground (arith, find-Above i i m, g.0), λ j e. ground (arith, g.1 j))

get_key_head : (i t : ℕ) (m : StdMap ℕ) → Above i m → GetsKey ((i, t) ∷ m) t (some i)
unfolding find
get_key_head i t m above = (ground arith, λ j e. ground (arith, find-Above i j m))

-- `getKey` answers the least key whose value is the one asked for, and fails only where no key has it.
pub get_key_least : (m : StdMap ℕ) (t : ℕ) → IsOrdered m → GetsKey m t (get_key m t)
unfolding get_key find
get_key_least [] t o = λ j e. cc
get_key_least ((i, a) ∷ m) t o = elim (Bool-cases (a == t)) [
  | inl e ↦ rw e (rw ((==_iff a t).0 e) (get_key_head i t m o.0))
  | inr e ↦ rw e (get_key_cons i a m t (get_key m t) o.0 e (get_key_least m t o.1))
]

not_found_after : (m : StdMap ℕ) (t k : ℕ) → IsOrdered m → find k (erase_value m t) ≢ some t
not_found_after m t k o = λ e. ground (arith, (find-erase_value m t o).1 k)

-- After `eraseValue` no key has the value.
pub get_key-erase_value : (m : StdMap ℕ) (t : ℕ) → IsOrdered m → get_key (erase_value m t) t ≡ none
get_key-erase_value m t o = go (get_key (erase_value m t) t) refl
  where
    go : (r : Option ℕ) → get_key (erase_value m t) t ≡ r → r ≡ none
    go none e = refl
    go (some k) e = absurd (
        not_found_after m t k o
          (subst (GetsKey (erase_value m t) t) e
            (get_key_least (erase_value m t) t (find-erase_value m t o).0)).0)

pub erase_value-IsOrdered : (m : StdMap ℕ) (v : ℕ) → IsOrdered m → IsOrdered (erase_value m v)
erase_value-IsOrdered m v o = (find-erase_value m v o).0
