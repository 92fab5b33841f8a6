-- ===== src/Text/Cipher.antt =====
-- common/utilities.cpp: encrypt_string and decrypt_string, which put other characters for those of a
-- text by one of fifty tables.
pub mod Tables
pub mod RoundTrip
use hardware_server.Prelude.{
  ℕ, zero, suc, ◌+◌, ◌*◌, List, [], ◌∷◌, ◌++◌, Option, none, some, Bool, true, false, ◌==◌, ltb,
  if◌then◌else◌,
}
use hardware_server.Prelude.Text.{Text}

-- std::find and the difference of the pointers; `none` is the end of the table.
unfoldable pub position_of : ℕ → Text → Option ℕ
position_of a [] = none
position_of a (c ∷ s) =
    if c == a then some 0 else elim (position_of a s) [ none ↦ none | some i ↦ some (suc i) ]

abbrev pub char_at : Text → ℕ → ℕ
char_at [] i = 0
char_at (c ∷ s) zero = c
char_at (c ∷ s) (suc i) = char_at s i

-- encrypt_get is `replace` from the original table to a table, decrypt_get the other way.
unfoldable pub replace : Text → Text → ℕ → ℕ
unfolding position_of
replace from to a = elim (position_of a from) [ none ↦ 0 | some i ↦ char_at to i ]

-- The loop of encrypt_string and decrypt_string: a character that is not found clears the text.
unfoldable pub replace_all : Text → Text → Text → Text → Text
unfolding replace
replace_all from to out [] = out
replace_all from to out (a ∷ s) =
    let rest = replace_all from to (out ++ replace from to a ∷ []) s in
    if replace from to a == 0 then [] else rest

abbrev pub table_at : List Text → ℕ → Text
table_at [] i = []
table_at (t ∷ ts) zero = t
table_at (t ∷ ts) (suc i) = table_at ts i

module _ (original : Text) (tables : List Text) where
  -- `out` is left as it is where the table does not exist.
  unfoldable pub encrypt_string : Text → Text → ℕ → Text
  unfolding replace_all
  encrypt_string text out i =
      if ltb i 50 then replace_all original (table_at tables i) [] text else out

  unfoldable pub decrypt_string : Text → Text → ℕ → Text
  unfolding replace_all
  decrypt_string text out i =
      if ltb i 50 then replace_all (table_at tables i) original [] text else out
