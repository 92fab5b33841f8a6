-- ===== src/Text/Crypt/Xor.antt =====
-- The laws of the exclusive or of binary digits, from the digits.
use Prim.Native.Nat.{bit_xor, digits, differ, bit_xor-bitwise}
use hardware_server.Prelude.{
  ℕ, zero, suc, ◌+◌, ◌*◌, ◌/◌, ◌%◌, ◌≤◌, ◌<◌, ◌≡◌, refl, ◌∙◌, arith, ap, sym,
}

-- More steps than the first number needs change nothing.
xor_fuel :
    (a b k n : ℕ) → a ≤ k → a ≤ n → digits (λ y. y) differ k a b ≡ digits (λ y. y) differ n a b
xor_fuel zero b zero zero h l = refl
xor_fuel zero b zero (suc n) h l = refl
xor_fuel zero b (suc k) zero h l = refl
xor_fuel zero b (suc k) (suc n) h l = refl
xor_fuel (suc a) b zero n h l = elim h [ ]
xor_fuel (suc a) b (suc k) zero h l = elim l [ ]
xor_fuel (suc a) b (suc k) (suc n) h l =
    let fewer = xor_fuel (suc a / 2) (b / 2) k n (omega arith) (omega arith) in
    ap (λ t. t * 2 + differ (suc a % 2) (b % 2)) fewer

zero-xor : (b : ℕ) → bit_xor 0 b ≡ b
zero-xor b = bit_xor-bitwise 0 b

-- The exclusive or of two digits.
abbrev digit : ℕ → ℕ → ℕ
digit a b = differ (a % 2) (b % 2)

zero-digit : (b : ℕ) → digit 0 b ≡ b % 2
zero-digit b = refl

pub xor_step : (a b : ℕ) → bit_xor a b ≡ bit_xor (a / 2) (b / 2) * 2 + differ (a % 2) (b % 2)
xor_step zero b = omega (arith, zero-xor b, zero-xor (b / 2), zero-digit b)
xor_step (suc a) b = omega (
  arith,
  bit_xor-bitwise (suc a) b,
  bit_xor-bitwise (suc a / 2) (b / 2),
  xor_fuel (suc a / 2) (b / 2) a (suc a / 2) (omega arith) (omega arith),
)

differ_sum : (x y : ℕ) → x < 2 → y < 2 → differ x y ≡ (x + y) % 2
differ_sum zero zero h k = refl
differ_sum zero (suc zero) h k = refl
differ_sum (suc zero) zero h k = refl
differ_sum (suc zero) (suc zero) h k = refl
differ_sum (suc (suc x)) y h k = absurd (omega arith)
differ_sum zero (suc (suc y)) h k = absurd (omega arith)
differ_sum (suc zero) (suc (suc y)) h k = absurd (omega arith)

pub xor_parity : (a b : ℕ) → bit_xor a b % 2 ≡ (a + b) % 2
xor_parity a b = omega (arith, xor_step a b, differ_sum (a % 2) (b % 2) (omega arith) (omega arith))

pub xor_half : (a b : ℕ) → bit_xor a b / 2 ≡ bit_xor (a / 2) (b / 2)
xor_half a b = omega (arith, xor_step a b, differ_sum (a % 2) (b % 2) (omega arith) (omega arith))

assoc_fuel : (n a b c : ℕ) → a ≤ n → bit_xor (bit_xor a b) c ≡ bit_xor a (bit_xor b c)
assoc_fuel n zero b c h = rw (zero-xor b, zero-xor (bit_xor b c))
assoc_fuel zero (suc a) b c h = absurd (omega arith)
assoc_fuel (suc n) (suc a) b c h =
    let half = assoc_fuel n (suc a / 2) (b / 2) (c / 2) (omega arith) in
    let left : bit_xor (bit_xor (suc a) b) c / 2 ≡ bit_xor (bit_xor (suc a / 2) (b / 2)) (c / 2) =
      xor_half (bit_xor (suc a) b) c ∙ ap (λ t. bit_xor t (c / 2)) (xor_half (suc a) b) in
    let right : bit_xor (suc a) (bit_xor b c) / 2 ≡ bit_xor (suc a / 2) (bit_xor (b / 2) (c / 2)) =
      xor_half (suc a) (bit_xor b c) ∙ ap (bit_xor (suc a / 2)) (xor_half b c) in
    omega (
      arith,
      half,
      left,
      right,
      xor_parity (bit_xor (suc a) b) c,
      xor_parity (suc a) b,
      xor_parity (suc a) (bit_xor b c),
      xor_parity b c,
    )

pub xor_assoc : (a b c : ℕ) → bit_xor (bit_xor a b) c ≡ bit_xor a (bit_xor b c)
xor_assoc a b c = assoc_fuel a a b c (omega arith)

pub xor-zero : (a : ℕ) → bit_xor a 0 ≡ a
xor-zero a = go a a (omega arith)
  where
    go : (n a : ℕ) → a ≤ n → bit_xor a 0 ≡ a
    go n zero h = refl
    go zero (suc a) h = absurd (omega arith)
    go (suc n) (suc a) h =
        omega (arith, go n (suc a / 2) (omega arith), xor_half (suc a) 0, xor_parity (suc a) 0)

comm_fuel : (n a b : ℕ) → a ≤ n → bit_xor a b ≡ bit_xor b a
comm_fuel n zero b h = zero-xor b ∙ sym (xor-zero b)
comm_fuel zero (suc a) b h = absurd (omega arith)
comm_fuel (suc n) (suc a) b h = omega (
  arith,
  comm_fuel n (suc a / 2) (b / 2) (omega arith),
  xor_half (suc a) b,
  xor_half b (suc a),
  xor_parity (suc a) b,
  xor_parity b (suc a),
)

pub xor_comm : (a b : ℕ) → bit_xor a b ≡ bit_xor b a
xor_comm a b = comm_fuel a a b (omega arith)

self_fuel : (n a : ℕ) → a ≤ n → bit_xor a a ≡ 0
self_fuel n zero h = refl
self_fuel zero (suc a) h = absurd (omega arith)
self_fuel (suc n) (suc a) h = omega (
  arith,
  self_fuel n (suc a / 2) (omega arith),
  xor_half (suc a) (suc a),
  xor_parity (suc a) (suc a),
)

-- A number that is put over another one twice goes away.
pub xor_twice : (a k : ℕ) → bit_xor (bit_xor a k) k ≡ a
xor_twice a k = xor_assoc a k k ∙ ap (bit_xor a) (self_fuel k k (omega arith)) ∙ xor-zero a

-- The middle two of four change places.
pub xor_swap :
    (a b c d : ℕ) → bit_xor (bit_xor a b) (bit_xor c d) ≡ bit_xor (bit_xor a c) (bit_xor b d)
xor_swap a b c d =
    xor_assoc a b (bit_xor c d)
    ∙ ap (bit_xor a)
        (sym (xor_assoc b c d) ∙ ap (λ t. bit_xor t d) (xor_comm b c) ∙ xor_assoc c b d)
    ∙ sym (xor_assoc a c (bit_xor b d))

-- Digits that do not meet are added.
pub xor_double : (a b : ℕ) → bit_xor (a * 2) b ≡ bit_xor a (b / 2) * 2 + b % 2
xor_double a b =
    let half : a * 2 / 2 ≡ a = omega arith in
    let h : bit_xor (a * 2) b / 2 ≡ bit_xor a (b / 2) =
      xor_half (a * 2) b ∙ ap (λ t. bit_xor t (b / 2)) half in
    omega (arith, h, xor_parity (a * 2) b)
