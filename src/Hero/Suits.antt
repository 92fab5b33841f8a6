-- ===== src/Hero/Suits.antt =====
-- gameserver/DreamHero.cpp: ModifySuit, modify_suit and DelSuit, on the hero's list of suits.
use hardware_server.Prelude.Text.{Text}
use hardware_server.Prelude.{
  ◌≡◌, refl, ◌⊎◌, inl, inr, Bool, true, false, not, Option, none, some, List, [], ◌∷◌, ◌++◌, map,
  arith, if◌then◌else◌, All, keep_if, Bool-cases, ap, append-nil, ◌∙◌,
}
use hardware_server.Prelude.Int.{ℤ, eq_ℤ, eq_ℤ_iff}
use hardware_server.Hero.{Suit}

-- The loop of ModifySuit: it writes every suit with the id, and tells whether there was one.
unfoldable pub replace_suits : Suit → List Suit → List Suit × Bool
replace_suits new_suit [] = ([], false)
replace_suits new_suit (s ∷ rest) =
    let (rest', found) = replace_suits new_suit rest in
    if eq_ℤ s.suit_id new_suit.suit_id then (new_suit ∷ rest', true) else (s ∷ rest', found)

-- ModifySuit, which always acknowledges with `no_error`
unfoldable pub modify_suit_data : Suit → List Suit → List Suit
unfolding replace_suits
modify_suit_data d suits =
    let (suits', found) = replace_suits d suits in if found then suits' else suits' ++ d ∷ []

-- modify_suit: the first suit with the id gets the name; `none` is the error no_suit_id
unfoldable pub rename_suit : ℤ → Text → List Suit → Option (List Suit)
rename_suit id name [] = none
rename_suit id name (s ∷ rest) =
    let later = rename_suit id name rest in
    if eq_ℤ s.suit_id id
    then some (record s { suit_name = name } ∷ rest)
    else elim later [ none ↦ none | some rest' ↦ some (s ∷ rest') ]

-- The loop of DelSuit. `erase(it)` moves the later suits down by one, so `it++` steps over the suit
-- after the erased one; after the last suit it steps past the end of the list, which the loop's test
-- does not notice: `none`.
unfoldable pub del_suits : ℤ → List Suit → Option (List Suit × Bool)
del_suits id [] = some ([], false)
del_suits id (s ∷ []) = if eq_ℤ s.suit_id id then none else some (s ∷ [], false)
del_suits id (s ∷ r ∷ rest) =
    let skipped = del_suits id rest in
    let next = del_suits id (r ∷ rest) in
    if eq_ℤ s.suit_id id
    then elim skipped [ none ↦ none | some (rest', found) ↦ some (r ∷ rest', true) ]
    else elim next [ none ↦ none | some (rest', found) ↦ some (s ∷ rest', found) ]

abbrev pub has_id : ℤ → Suit → Bool
has_id id s = eq_ℤ s.suit_id id

abbrev pub other_id : ℤ → Suit → Bool
other_id id s = not (eq_ℤ s.suit_id id)

-- The suits that replace those with the id of `d`.
abbrev pub overwritten : Suit → List Suit → List Suit
overwritten d [] = d ∷ []
overwritten d (s ∷ rest) = d ∷ map (λ r. d) rest

replace_suits_others :
    (d : Suit) (suits : List Suit)
    → keep_if (other_id d.suit_id) (replace_suits d suits).0 ≡ keep_if (other_id d.suit_id) suits
unfolding replace_suits
replace_suits_others d [] = refl
replace_suits_others d (s ∷ rest) =
    ground (arith, replace_suits_others d rest, (eq_ℤ_iff d.suit_id d.suit_id).1 refl)

replace_suits_same :
    (d : Suit) (suits : List Suit)
    → keep_if (has_id d.suit_id) (replace_suits d suits).0
      ≡ map (λ r. d) (keep_if (has_id d.suit_id) suits)
unfolding replace_suits
replace_suits_same d [] = refl
replace_suits_same d (s ∷ rest) =
    ground (arith, replace_suits_same d rest, (eq_ℤ_iff d.suit_id d.suit_id).1 refl)

replace_suits_found :
    (d : Suit) (suits : List Suit)
    → (replace_suits d suits).1 ≡ false
    → keep_if (has_id d.suit_id) suits ≡ []
unfolding replace_suits
replace_suits_found d [] h = refl
replace_suits_found d (s ∷ rest) h = ground (arith, replace_suits_found d rest)

replace_suits_some :
    (d : Suit) (suits : List Suit)
    → (replace_suits d suits).1 ≡ true
    → map (λ r. d) (keep_if (has_id d.suit_id) suits)
      ≡ overwritten d (keep_if (has_id d.suit_id) suits)
unfolding replace_suits
replace_suits_some d [] h = cc
replace_suits_some d (s ∷ rest) h = ground (arith, replace_suits_some d rest)

has_own_id : (d : Suit) → has_id d.suit_id d ≡ true
has_own_id d = (eq_ℤ_iff d.suit_id d.suit_id).1 refl

keep_if-append :
    (p : Suit → Bool) (xs ys : List Suit) → keep_if p (xs ++ ys) ≡ keep_if p xs ++ keep_if p ys
keep_if-append p [] ys = refl
keep_if-append p (x ∷ xs) ys = ground (arith, keep_if-append p xs ys)

-- ModifySuit leaves the suits with another id as they are, in their order, and of the suits with the
-- id of the new one it makes copies of the new one, adding one where there was none.
pub modify_suit_data_lem :
    (d : Suit) (suits : List Suit)
    → (keep_if (other_id d.suit_id) (modify_suit_data d suits) ≡ keep_if (other_id d.suit_id) suits)
      × (keep_if (has_id d.suit_id) (modify_suit_data d suits)
          ≡ overwritten d (keep_if (has_id d.suit_id) suits))
unfolding modify_suit_data
modify_suit_data_lem d suits = elim (Bool-cases (replace_suits d suits).1) [
  | inl found ↦
      rw found (
        replace_suits_others d suits,
        replace_suits_same d suits ∙ replace_suits_some d suits found,
      )
  | inr missing ↦
      rw (missing, keep_if-append, keep_if-append)
        (
          ground (
            arith,
            replace_suits_others d suits,
            has_own_id d,
            append-nil (keep_if (other_id d.suit_id) suits),
          ),
          ground (
            arith,
            replace_suits_same d suits,
            has_own_id d,
            replace_suits_found d suits missing,
          ),
        )
]

abbrev pub NoId : ℤ → List Suit → Type 0
NoId id suits = All (λ (s : Suit). has_id id s ≡ false) suits

rename_suit_missing :
    (id : ℤ) (name : Text) (suits : List Suit) → NoId id suits → rename_suit id name suits ≡ none
unfolding rename_suit
rename_suit_missing id name [] h = refl
rename_suit_missing id name (s ∷ rest) h = ground (arith, rename_suit_missing id name rest)

-- A rename reaches the first suit with the id and no other, and is refused exactly where no suit
-- has the id.
pub rename_suit_first :
    (id : ℤ) (name : Text) (suits : List Suit)
    → (NoId id suits × (rename_suit id name suits ≡ none))
      ⊎ ((before : List Suit) × (s : Suit) × (after : List Suit) × (suits ≡ before ++ s ∷ after)
          × NoId id before
          × (has_id id s ≡ true)
          × (rename_suit id name suits ≡ some (before ++ record s { suit_name = name } ∷ after)))
unfolding rename_suit
rename_suit_first id name [] = inl (tt, refl)
rename_suit_first id name (s ∷ rest) = elim (Bool-cases (has_id id s)) [
  | inl here ↦ inr ([], s, rest, refl, tt, here, rw here)
  | inr other ↦ elim (rename_suit_first id name rest) [
    | inl (none_has, e) ↦ inl ((other, none_has), rw (other, e))
    | inr (before, r, after, e, free, found, renamed) ↦
        inr (s ∷ before, r, after, ap (λ l. s ∷ l) e, (other, free), found, rw (other, renamed))
  ]
]

-- A suit that the loop passes.
abbrev passed : Suit → Option (List Suit × Bool) → Option (List Suit × Bool)
passed s none = none
passed s (some (l, found)) = some (s ∷ l, found)

del_suits_pass :
    (id : ℤ) (s : Suit) (rest : List Suit)
    → has_id id s ≡ false
    → del_suits id (s ∷ rest) ≡ passed s (del_suits id rest)
unfolding del_suits
del_suits_pass id s [] h = rw h
del_suits_pass id s (r ∷ rest) h = rw h (ground arith)

del_suits_missing :
    (id : ℤ) (suits : List Suit) → NoId id suits → del_suits id suits ≡ some (suits, false)
del_suits_missing id [] h = unfold del_suits in refl
del_suits_missing id (s ∷ rest) h = rw (del_suits_pass id s rest h.0, del_suits_missing id rest h.1)

-- What the loop makes of a suit that is erased between `before` and `after`.
abbrev pub erased : List Suit → List Suit → Option (List Suit × Bool)
erased before [] = none
erased before (r ∷ after) = some (before ++ r ∷ after, true)

-- DelSuit, where one suit has the id: it is erased and the others stay in their order, unless it is
-- the last of the list, in which case the loop reads past the end of the list.
pub del_suits_unique :
    (id : ℤ) (before : List Suit) (s : Suit) (after : List Suit)
    → NoId id before
    → has_id id s ≡ true
    → NoId id after
    → del_suits id (before ++ s ∷ after) ≡ erased before after
unfolding del_suits
del_suits_unique id [] s [] b h a = rw h
del_suits_unique id [] s (r ∷ after) b h a = rw (h, del_suits_missing id after a.1)
del_suits_unique id (x ∷ before) s after b h a =
    rw (del_suits_pass id x (before ++ s ∷ after) b.0, del_suits_unique id before s after b.1 h a)
      (erased_cons after)
  where
    erased_cons : (l : List Suit) → passed x (erased before l) ≡ erased (x ∷ before) l
    erased_cons [] = refl
    erased_cons (r ∷ l) = refl
