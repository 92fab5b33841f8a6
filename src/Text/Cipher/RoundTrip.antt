-- ===== src/Text/Cipher/RoundTrip.antt =====
-- A text that is encrypted and decrypted by the same table.
use hardware_server.Prelude.{
  ℕ, zero, suc, ◌<◌, ◌≡◌, refl, ◌∙◌, ap, sym, List, [], ◌∷◌, ◌++◌, none, Bool, true, false, not,
  ◌&&◌, ◌==◌, ==_iff, ltb, arith, append_assoc, Bool-cases, inl, inr, length, map, append-nil,
  lt→ltb, ◌≤◌,
}
use hardware_server.Prelude.Text.{Text, contains}
use hardware_server.Text.Cipher.{
  position_of, replace, replace_all, table_at, encrypt_string, decrypt_string,
}
use hardware_server.Text.Cipher.Tables.{character_original_table, character_encrypt_tables}

-- Each character of a text passes a test.
abbrev pub all_chars : (ℕ → Bool) → Text → Bool
all_chars p [] = true
all_chars p (c ∷ s) = p c && all_chars p s

abbrev all_tables : (Text → Bool) → List Text → Bool
all_tables p [] = true
all_tables p (t ∷ ts) = p t && all_tables p ts

-- The character `c` is replaced by another one, which is replaced by `c`; none of them is zero.
abbrev turns_back : Text → Text → ℕ → Bool
turns_back from to c =
    not (c == 0) && not (replace from to c == 0) && replace to from (replace from to c) == c

abbrev IsInverse : Text → Text → Type 0
IsInverse from to = all_chars (turns_back from to) from ≡ true

-- Each of the tables is a permutation of the original one.
tables_turn_back :
    all_tables
      (λ t. all_chars (turns_back character_original_table t) character_original_table)
      character_encrypt_tables
    ≡ true
unfolding replace character_original_table character_encrypt_tables
tables_turn_back = refl

tables_count : length character_encrypt_tables ≡ 50
unfolding character_encrypt_tables
tables_count = refl

all_chars-contains :
    (p : ℕ → Bool) (s : Text) (c : ℕ) → all_chars p s ≡ true → contains c s ≡ true → p c ≡ true
all_chars-contains p [] c h m = absurd cc
all_chars-contains p (x ∷ s) c h m = elim (Bool-cases (x == c)) [
  | inl here ↦
      let same : x ≡ c = (==_iff x c).0 here in
      let first : p x ≡ true = ground arith in ap p (sym same) ∙ first
  | inr other ↦ all_chars-contains p s c (ground arith) (ground arith)
]

all_tables-at :
    (p : Text → Bool) (ts : List Text) (i : ℕ)
    → all_tables p ts ≡ true
    → i < length ts
    → p (table_at ts i) ≡ true
all_tables-at p [] i h m = absurd (omega arith)
all_tables-at p (t ∷ ts) zero h m = ground arith
all_tables-at p (t ∷ ts) (suc i) h m = all_tables-at p ts i (ground arith) (omega arith)

module _ (from to : Text) (inverse : IsInverse from to) where
  abbrev Known : Text → Type 0
  Known s = all_chars (λ c. contains c from) s ≡ true

  char_lem :
      (c : ℕ)
      → contains c from ≡ true
      → ((c == 0) ≡ false)
        × ((replace from to c == 0) ≡ false)
        × (replace to from (replace from to c) ≡ c)
  char_lem c m = let h = all_chars-contains (turns_back from to) from c inverse m in ground arith

  replace_all-map :
      (out s : Text) → Known s → replace_all from to out s ≡ out ++ map (replace from to) s
  unfolding replace_all
  replace_all-map out [] k = sym (append-nil out)
  replace_all-map out (c ∷ s) k =
      let visible = (char_lem c (ground arith)).1 in
      rw visible (
        replace_all-map (out ++ replace from to c ∷ []) s (ground arith)
        ∙ append_assoc out (replace from to c ∷ []) (map (replace from to) s))

  replace_all-back :
      (out s : Text) → Known s → replace_all to from out (map (replace from to) s) ≡ out ++ s
  unfolding replace_all
  replace_all-back out [] k = sym (append-nil out)
  replace_all-back out (c ∷ s) k =
      let (visible, _, back) = char_lem c (ground arith) in
      rw (back, visible)
        (replace_all-back (out ++ c ∷ []) s (ground arith) ∙ append_assoc out (c ∷ []) s)

position_of-none : (c : ℕ) (s : Text) → contains c s ≡ false → position_of c s ≡ none
unfolding position_of
position_of-none c [] h = refl
position_of-none c (x ∷ s) h = ground (arith, position_of-none c s)

replace-unknown :
    (from to : Text) (c : ℕ) → contains c from ≡ false → (replace from to c == 0) ≡ true
unfolding replace
replace-unknown from to c h =
    let e : replace from to c ≡ 0 = rw (position_of-none c from h, replace) in rw e

replace_all-unknown :
    (from to out s : Text)
    → all_chars (λ c. contains c from) s ≡ false
    → replace_all from to out s ≡ []
unfolding replace_all
replace_all-unknown from to out [] h = absurd cc
replace_all-unknown from to out (c ∷ s) h = elim (Bool-cases (contains c from)) [
  | inl known ↦ elim (Bool-cases (replace from to c == 0)) [
    | inl zero_char ↦ rw zero_char
    | inr visible ↦
        rw visible (replace_all-unknown from to (out ++ replace from to c ∷ []) s (ground arith))
  ]
  | inr unknown ↦ rw (replace-unknown from to c unknown)
]

abbrev pub encrypted : Text → Text → ℕ → Text
encrypted = encrypt_string character_original_table character_encrypt_tables

abbrev pub decrypted : Text → Text → ℕ → Text
decrypted = decrypt_string character_original_table character_encrypt_tables

-- With each of the fifty tables, a text of letters and digits comes back when it is encrypted and then
-- decrypted, and any other text is encrypted to the empty text. With a number beyond the tables, the
-- text that the caller gave for the result stays in it.
pub decrypt_string-encrypt_string :
    (text out out' : Text) (i : ℕ)
    → (i < 50
        → all_chars (λ c. contains c character_original_table) text ≡ true
        → decrypted (encrypted text out i) out' i ≡ text)
      × (i < 50
          → all_chars (λ c. contains c character_original_table) text ≡ false
          → encrypted text out i ≡ [])
      × (50 ≤ i → (encrypted text out i ≡ out) × (decrypted text out i ≡ out))
unfolding encrypt_string decrypt_string
decrypt_string-encrypt_string text out out' i =
    let original = character_original_table in
    let table = table_at character_encrypt_tables i in
    (
      λ h k.
          let there = lt→ltb i 50 h in
          let inverse : IsInverse original table =
            all_tables-at (λ t. all_chars (turns_back original t) original) character_encrypt_tables
              i tables_turn_back (rw tables_count h) in
          rw (there, replace_all-map original table inverse [] text k)
            (replace_all-back original table inverse [] text k),
      λ h k. rw (lt→ltb i 50 h) (replace_all-unknown original table [] text k),
      λ h. let beyond : ltb i 50 ≡ false = ground arith in rw beyond (refl, refl),
    )
