-- ===== src/Prelude/TextMap.antt =====
-- A `std::map` whose keys are texts: an association list in the order of its keys, byte by byte.
use hardware_server.Prelude.{
  ◌≡◌, refl, Bool, true, false, ◌&&◌, Option, none, some, List, [], ◌∷◌, arith, ltb, ◌==◌,
  if◌then◌else◌, Bool-cases, inl, inr, ap, subst, sym, ◌∙◌,
}
use hardware_server.Prelude.Text.{Text}

abbrev pub same_text : Text → Text → Bool
same_text [] [] = true
same_text [] (y ∷ ys) = false
same_text (x ∷ xs) [] = false
same_text (x ∷ xs) (y ∷ ys) = x == y && same_text xs ys

abbrev pub text_less : Text → Text → Bool
text_less xs [] = false
text_less [] (y ∷ ys) = true
text_less (x ∷ xs) (y ∷ ys) = if ltb x y then true else x == y && text_less xs ys

pub same_text_self : (s : Text) → same_text s s ≡ true
same_text_self [] = refl
same_text_self (x ∷ xs) = ground (arith, same_text_self xs)

pub same_text_eq : (s t : Text) → same_text s t ≡ true → s ≡ t
same_text_eq [] [] h = refl
same_text_eq [] (y ∷ ys) h = absurd cc
same_text_eq (x ∷ xs) [] h = absurd cc
same_text_eq (x ∷ xs) (y ∷ ys) h =
    let first : x ≡ y = ground arith in
    let rest : same_text xs ys ≡ true = ground arith in rw (first, same_text_eq xs ys rest) refl

same_text_apart :
    (i j k : Text) → same_text i j ≡ false → same_text i k ≡ true → same_text j k ≡ false
same_text_apart i j k differ is = elim (Bool-cases (same_text j k)) [
  | inl also ↦
      let e : i ≡ j = same_text_eq i k is ∙ sym (same_text_eq j k also) in
      let self : same_text i j ≡ true = subst (λ t. same_text i t ≡ true) e (same_text_self i) in
      absurd (cc (differ, self))
  | inr other ↦ other
]

module _ {ℓ} {V : Type ℓ} where
  unfoldable pub find_text : Text → List (Text × V) → Option V
  find_text k [] = none
  find_text k ((j, v) ∷ m) = if same_text j k then some v else find_text k m

  -- insert, which leaves an entry that is there as it is.
  unfoldable pub insert_text : Text → V → List (Text × V) → List (Text × V)
  insert_text k v [] = (k, v) ∷ []
  insert_text k v ((j, w) ∷ m) =
      let rest = insert_text k v m in
      if text_less k j
      then (k, v) ∷ (j, w) ∷ m
      else if same_text j k
      then (j, w) ∷ m
      else (j, w) ∷ rest

  -- `m[k] = v`
  unfoldable pub put_text : Text → V → List (Text × V) → List (Text × V)
  put_text k v [] = (k, v) ∷ []
  put_text k v ((j, w) ∷ m) =
      let rest = put_text k v m in
      if text_less k j
      then (k, v) ∷ (j, w) ∷ m
      else if same_text j k
      then (j, v) ∷ m
      else (j, w) ∷ rest

  unfoldable pub erase_text : Text → List (Text × V) → List (Text × V)
  erase_text k [] = []
  erase_text k ((j, v) ∷ m) =
      let rest = erase_text k m in if same_text j k then rest else (j, v) ∷ rest

  pub find_text-erase_text :
      (k j : Text) (m : List (Text × V))
      → find_text k (erase_text j m) ≡ (if same_text j k then none else find_text k m)
  unfolding find_text erase_text
  find_text-erase_text k j [] = ground arith
  find_text-erase_text k j ((i, w) ∷ m) = elim (Bool-cases (same_text i j)) [
    | inl e ↦
        let alike : same_text i k ≡ same_text j k = ap (λ t. same_text t k) (same_text_eq i j e) in
        rw (e, find_text-erase_text k j m, alike) (ground arith)
    | inr differ ↦ elim (Bool-cases (same_text i k)) [
      | inl is ↦ rw (differ, is, same_text_apart i j k differ is) refl
      | inr other ↦ rw (differ, other, find_text-erase_text k j m) refl
    ]
  ]

  pub find_text-insert_text :
      (k j : Text) (v : V) (m : List (Text × V))
      → find_text j m ≡ none
      → find_text k (insert_text j v m) ≡ (if same_text j k then some v else find_text k m)
  unfolding find_text insert_text
  find_text-insert_text k j v [] h = refl
  find_text-insert_text k j v ((i, w) ∷ m) h =
      let differ : same_text i j ≡ false = ground arith in
      let absent : find_text j m ≡ none = ground (arith, h, differ) in
      elim (Bool-cases (text_less j i)) [
        | inl less ↦ rw less refl
        | inr more ↦ elim (Bool-cases (same_text i k)) [
          | inl is ↦ rw (more, differ, is, same_text_apart i j k differ is) refl
          | inr other ↦ rw (more, differ, other, find_text-insert_text k j v m absent) refl
        ]
      ]
