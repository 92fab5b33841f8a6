-- ===== src/Text/Numbers.antt =====
-- Decimal numbers as the C library prints and reads them: `%d`, `%llu`, atoi, strtol and the `>>` of
-- a stream, and isIntger of common/utilities.cpp.
use hardware_server.Prelude.{
  ℕ, zero, suc, ◌+◌, ◌-◌, ◌*◌, ◌/◌, ◌%◌, ◌≤◌, ◌<◌, ◌≡◌, refl, ◌∙◌, ap, [], ◌∷◌, ◌++◌, Option, none,
  some, Bool, true, false, ◌&&◌, ◌||◌, ◌==◌, ltb, leb, if◌then◌else◌, arith, All, Bool-cases, inl,
  inr,
}
use hardware_server.Prelude.Text.{Text, contains, is_empty_text}
use hardware_server.Prelude.Int.{ℤ, pos, negsuc, InS32}

abbrev pub is_digit : ℕ → Bool
is_digit c = leb 48 c && leb c 57

unfoldable pub print_fuel : ℕ → ℕ → Text
print_fuel zero n = []
print_fuel (suc f) n =
    let front = print_fuel f (n / 10) in
    if ltb n 10 then (48 + n) ∷ [] else front ++ (48 + n % 10) ∷ []

-- A number has at most as many digits as its value and one more.
unfoldable pub print_ℕ : ℕ → Text
unfolding print_fuel
print_ℕ n = print_fuel (suc n) n

abbrev pub print_int : ℤ → Text
print_int (pos n) = print_ℕ n
print_int (negsuc n) = 45 ∷ print_ℕ (suc n)

unfoldable pub scan_digits : ℕ → Text → ℕ
scan_digits acc [] = acc
scan_digits acc (c ∷ s) =
    let rest = scan_digits (acc * 10 + (c - 48)) s in if is_digit c then rest else acc

abbrev pub is_space : ℕ → Bool
is_space c = c == 32 || leb 9 c && leb c 13

unfoldable pub skip_spaces : Text → Text
skip_spaces [] = []
skip_spaces (c ∷ s) = let rest = skip_spaces s in if is_space c then rest else c ∷ s

abbrev pub negated : ℕ → ℤ
negated zero = pos 0
negated (suc n) = negsuc n

abbrev pub opt_negated : Option ℕ → Option ℤ
opt_negated none = none
opt_negated (some n) = some (negated n)

abbrev pub opt_pos : Option ℕ → Option ℤ
opt_pos none = none
opt_pos (some n) = some (pos n)

-- A number needs one digit.
abbrev pub scan_ℕ : Text → Option ℕ
scan_ℕ [] = none
scan_ℕ (c ∷ s) = if is_digit c then some (scan_digits 0 (c ∷ s)) else none

abbrev pub scan_signed : Text → Option ℤ
scan_signed [] = none
scan_signed (c ∷ s) =
    if c == 45
    then opt_negated (scan_ℕ s)
    else if c == 43
    then opt_pos (scan_ℕ s)
    else opt_pos (scan_ℕ (c ∷ s))

-- The number at the front of a text.
unfoldable pub scan_int : Text → Option ℤ
unfolding skip_spaces scan_digits
scan_int s = scan_signed (skip_spaces s)

abbrev pub in_s32 : ℤ → Bool
in_s32 (pos n) = ltb n 2147483648
in_s32 (negsuc n) = ltb n 2147483648

abbrev pub is_number : Option ℤ → Bool
is_number none = false
is_number (some z) = in_s32 z

-- isIntger: the stream fails without a digit and out of the range of an `int`.
unfoldable pub is_intger : Text → Bool
unfolding scan_int
is_intger s = is_number (scan_int s)

abbrev pub or_zero : Option ℤ → ℤ
or_zero none = pos 0
or_zero (some z) = z

-- atoi and strtol, for a text whose number is in range.
unfoldable pub atoi : Text → ℤ
unfolding scan_int
atoi s = or_zero (scan_int s)

-- The conversion of a signed number to 64 bits.
abbrev pub to_u64 : ℤ → ℕ
to_u64 (pos n) = n % 18446744073709551616
to_u64 (negsuc n) = 18446744073709551615 - n % 18446744073709551616

abbrev IsDigit : ℕ → Type 0
IsDigit c = (48 ≤ c) × (c ≤ 57)

All-snoc : (s : Text) (c : ℕ) → All IsDigit s → IsDigit c → All IsDigit (s ++ c ∷ [])
All-snoc [] c a b = (b, tt)
All-snoc (x ∷ s) c a b = (a.0, All-snoc s c a.1 b)

print_fuel-IsDigit : (f n : ℕ) → All IsDigit (print_fuel f n)
unfolding print_fuel
print_fuel-IsDigit zero n = tt
print_fuel-IsDigit (suc f) n = elim (Bool-cases (ltb n 10)) [
  | inl small ↦ rw small (ground arith, tt)
  | inr large ↦
      rw large (
        All-snoc (print_fuel f (n / 10)) (48 + n % 10) (print_fuel-IsDigit f (n / 10))
          (omega arith))
]

contains-digits : (c : ℕ) (s : Text) → All IsDigit s → (is_digit c) ≡ false → contains c s ≡ false
contains-digits c [] a h = refl
contains-digits c (x ∷ s) a h = ground (arith, contains-digits c s a.1 h)

-- Neither a comma nor a colon stands in a number.
pub contains-print_ℕ : (c n : ℕ) → is_digit c ≡ false → contains c (print_ℕ n) ≡ false
unfolding print_ℕ
contains-print_ℕ c n h = contains-digits c (print_fuel (suc n) n) (print_fuel-IsDigit (suc n) n) h

pub contains-print_int :
    (c : ℕ) (z : ℤ) → is_digit c ≡ false → (45 == c) ≡ false → contains c (print_int z) ≡ false
contains-print_int c (pos n) h k = contains-print_ℕ c n h
contains-print_int c (negsuc n) h k = rw k (contains-print_ℕ c (suc n) h)

scan_digits-snoc :
    (acc : ℕ) (s : Text) (d : ℕ)
    → All IsDigit s
    → d < 10
    → scan_digits acc (s ++ (48 + d) ∷ []) ≡ scan_digits acc s * 10 + d
unfolding scan_digits
scan_digits-snoc acc [] d a h = ground arith
scan_digits-snoc acc (x ∷ s) d a h =
    ground (arith, scan_digits-snoc (acc * 10 + (x - 48)) s d a.1 h)

scan_digits-print : (f n : ℕ) → n < f → scan_digits 0 (print_fuel f n) ≡ n
unfolding print_fuel
scan_digits-print zero n h = absurd (omega arith)
scan_digits-print (suc f) n h = elim (Bool-cases (ltb n 10)) [
  | inl small ↦ rw small (unfold scan_digits in ground arith)
  | inr large ↦
      let front = scan_digits-print f (n / 10) (ground arith) in
      rw large (
        omega (
          arith,
          front,
          scan_digits-snoc 0 (print_fuel f (n / 10)) (n % 10) (print_fuel-IsDigit f (n / 10))
              (omega arith),
        ))
]

abbrev Starts : Text → Type 0
Starts [] = ⊥
Starts (c ∷ s) = IsDigit c

Starts-snoc : (s : Text) (c : ℕ) → All IsDigit s → IsDigit c → Starts (s ++ c ∷ [])
Starts-snoc [] c a h = h
Starts-snoc (x ∷ s) c a h = a.0

Starts-print_ℕ : (n : ℕ) → Starts (print_ℕ n)
unfolding print_ℕ
Starts-print_ℕ n = elim (Bool-cases (ltb n 10)) [
  | inl small ↦ rw small (ground arith)
  | inr large ↦ rw large (
      Starts-snoc (print_fuel n (n / 10)) (48 + n % 10) (print_fuel-IsDigit n (n / 10))
        (omega arith))
]

scan_ℕ-start : (s : Text) → Starts s → scan_ℕ s ≡ some (scan_digits 0 s)
scan_ℕ-start [] h = absurd h
scan_ℕ-start (c ∷ s) h = let digit : is_digit c ≡ true = ground arith in rw digit

scan_int-start : (s : Text) → Starts s → scan_int s ≡ some (pos (scan_digits 0 s))
scan_int-start [] h = absurd h
scan_int-start (c ∷ s) h =
    let digit : is_digit c ≡ true = ground arith in
    let visible : is_space c ≡ false = ground arith in
    let no_minus : (c == 45) ≡ false = ground arith in
    let no_plus : (c == 43) ≡ false = ground arith in
    unfold scan_int skip_spaces in rw (visible, no_minus, no_plus, digit)

scan_ℕ-print : (n : ℕ) → scan_digits 0 (print_ℕ n) ≡ n
unfolding print_ℕ
scan_ℕ-print n = scan_digits-print (suc n) n (omega arith)

-- A number is read as it was printed.
pub scan_int-print_int : (z : ℤ) → scan_int (print_int z) ≡ some z
scan_int-print_int (pos n) =
    scan_int-start (print_ℕ n) (Starts-print_ℕ n) ∙ ap (λ m. some (pos m)) (scan_ℕ-print n)
scan_int-print_int (negsuc n) =
    let digits = scan_ℕ-start (print_ℕ (suc n)) (Starts-print_ℕ (suc n)) in
    unfold scan_int skip_spaces in ap opt_negated (digits ∙ ap some (scan_ℕ-print (suc n)))

pub is_intger-print_int : (z : ℤ) → InS32 z → is_intger (print_int z) ≡ true
unfolding is_intger
is_intger-print_int (pos n) h = rw (scan_int-print_int (pos n)) (ground arith)
is_intger-print_int (negsuc n) h = rw (scan_int-print_int (negsuc n)) (ground arith)

pub atoi-print_int : (z : ℤ) → atoi (print_int z) ≡ z
unfolding atoi
atoi-print_int z = rw (scan_int-print_int z)

Starts-filled : (s : Text) → Starts s → is_empty_text s ≡ false
Starts-filled [] h = absurd h
Starts-filled (c ∷ s) h = refl

pub print_ℕ-filled : (n : ℕ) → is_empty_text (print_ℕ n) ≡ false
print_ℕ-filled n = Starts-filled (print_ℕ n) (Starts-print_ℕ n)

pub print_int-filled : (z : ℤ) → is_empty_text (print_int z) ≡ false
print_int-filled (pos n) = print_ℕ-filled n
print_int-filled (negsuc n) = refl
