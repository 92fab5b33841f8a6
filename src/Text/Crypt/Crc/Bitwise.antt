-- ===== src/Text/Crypt/Crc/Bitwise.antt =====
-- The checksum by its polynomial, one bit at a time, and the table that saves seven of eight steps.
use Prim.Native.Nat.{bit_xor}
use hardware_server.Prelude.{
  ℕ, zero, suc, ◌+◌, ◌*◌, ◌/◌, ◌%◌, ◌<◌, ◌≡◌, refl, ◌∙◌, ap, sym, [], ◌∷◌, Bool, true, ◌&&◌, ◌==◌,
  ==_iff, arith, All, Bool-cases, inl, inr,
}
use hardware_server.Prelude.Text.{Text}
use hardware_server.Text.Crypt.Tables.{crc_table}
use hardware_server.Text.Crypt.Xor.{xor_comm, xor-zero, xor_swap, xor_double, xor_half, xor_parity}
use hardware_server.Text.Crypt.Crc.{at, do1, do8, crc_rest, crc_blocks, ssl_crc32}

abbrev polynomial : ℕ → ℕ
polynomial zero = 0
polynomial (suc n) = 3988292384

-- One bit: the polynomial is put over the rest where the bit was set.
shift_bit : ℕ → ℕ
shift_bit x = bit_xor (x / 2) (polynomial (x % 2))

shift_bits : ℕ → ℕ → ℕ
shift_bits zero x = x
shift_bits (suc n) x = shift_bits n (shift_bit x)

-- The checksum without a table.
bitwise_from : ℕ → Text → ℕ
bitwise_from crc [] = crc
bitwise_from crc (b ∷ s) = bitwise_from (shift_bits 8 (bit_xor crc b)) s

pub bitwise_crc32 : Text → ℕ
bitwise_crc32 s = bit_xor (bitwise_from 4294967295 s) 4294967295

-- Whether a test holds for all numbers below a bound.
unfoldable pub holds_below : (ℕ → Bool) → ℕ → Bool
holds_below test zero = true
holds_below test (suc k) = holds_below test k && test k

pub holds_below-lt : (test : ℕ → Bool) (k x : ℕ) → x < k → holds_below test k ≡ true → test x ≡ true
unfolding holds_below
holds_below-lt test zero x small held = elim small [ ]
holds_below-lt test (suc k) x small held = elim (Bool-cases (x == k)) [
  | inl last ↦
      let held_last : test k ≡ true = ground arith in ap test ((==_iff x k).0 last) ∙ held_last
  | inr before ↦ holds_below-lt test k x (ground arith) (ground arith)
]

table_bits : holds_below (λ x. at crc_table x == shift_bits 8 x) 256 ≡ true
unfolding holds_below crc_table shift_bits shift_bit
table_bits = refl

table_lem : (x : ℕ) → x < 256 → at crc_table x ≡ shift_bits 8 x
table_lem x h = (==_iff (at crc_table x) (shift_bits 8 x)).0 (holds_below-lt _ 256 x h table_bits)

polynomial_xor :
    (x y : ℕ) → x < 2 → y < 2 → polynomial ((x + y) % 2) ≡ bit_xor (polynomial x) (polynomial y)
polynomial_xor zero zero h k = refl
polynomial_xor zero (suc zero) h k = refl
polynomial_xor (suc zero) zero h k = refl
polynomial_xor (suc zero) (suc zero) h k = refl
polynomial_xor (suc (suc x)) y h k = absurd (omega arith)
polynomial_xor zero (suc (suc y)) h k = absurd (omega arith)
polynomial_xor (suc zero) (suc (suc y)) h k = absurd (omega arith)

shift_bit-xor : (x y : ℕ) → shift_bit (bit_xor x y) ≡ bit_xor (shift_bit x) (shift_bit y)
unfolding shift_bit
shift_bit-xor x y =
    let parity : bit_xor x y % 2 ≡ (x % 2 + y % 2) % 2 = omega (arith, xor_parity x y) in
    rw (xor_half x y, parity, polynomial_xor (x % 2) (y % 2) (omega arith) (omega arith))
      (xor_swap (x / 2) (y / 2) (polynomial (x % 2)) (polynomial (y % 2)))

shift_bits-xor :
    (n x y : ℕ) → shift_bits n (bit_xor x y) ≡ bit_xor (shift_bits n x) (shift_bits n y)
unfolding shift_bits
shift_bits-xor zero x y = refl
shift_bits-xor (suc n) x y =
    ap (shift_bits n) (shift_bit-xor x y) ∙ shift_bits-xor n (shift_bit x) (shift_bit y)

-- A bit that is not set is only shifted out.
shift_bit-double : (m : ℕ) → shift_bit (m * 2) ≡ m
unfolding shift_bit
shift_bit-double m =
    let half : m * 2 / 2 ≡ m = omega arith in
    let even : m * 2 % 2 ≡ 0 = omega arith in rw (half, even) (xor-zero m)

abbrev doubled : ℕ → ℕ → ℕ
doubled zero m = m
doubled (suc n) m = doubled n m * 2

shift_bits-doubled : (n m : ℕ) → shift_bits n (doubled n m) ≡ m
unfolding shift_bits
shift_bits-doubled zero m = refl
shift_bits-doubled (suc n) m =
    ap (shift_bits n) (shift_bit-double (doubled n m)) ∙ shift_bits-doubled n m

-- The higher digits and the lower ones.
xor-doubled : (n m r : ℕ) → r < doubled n 1 → bit_xor (doubled n m) r ≡ doubled n m + r
xor-doubled zero m r h =
    let none_left : r ≡ 0 = omega arith in rw none_left (xor-zero m ∙ omega arith)
xor-doubled (suc n) m r h =
    omega (arith, xor_double (doubled n m) r, xor-doubled n m (r / 2) (omega arith))

shift_byte : (z : ℕ) → shift_bits 8 z ≡ bit_xor (at crc_table (z % 256)) (z / 256)
shift_byte z =
    let split : z ≡ bit_xor (doubled 8 (z / 256)) (z % 256) =
      omega (arith, xor-doubled 8 (z / 256) (z % 256) (omega arith)) in
    ap (shift_bits 8) split
    ∙ shift_bits-xor 8 (doubled 8 (z / 256)) (z % 256)
    ∙ ap (λ t. bit_xor t (shift_bits 8 (z % 256))) (shift_bits-doubled 8 (z / 256))
    ∙ ap (bit_xor (z / 256)) (sym (table_lem (z % 256) (omega arith)))
    ∙ xor_comm (z / 256) (at crc_table (z % 256))

abbrev halved : ℕ → ℕ → ℕ
halved zero x = x
halved (suc n) x = halved n (x / 2)

halved-xor : (n a b : ℕ) → halved n (bit_xor a b) ≡ bit_xor (halved n a) (halved n b)
halved-xor zero a b = refl
halved-xor (suc n) a b = ap (halved n) (xor_half a b) ∙ halved-xor n (a / 2) (b / 2)

do1_bits : (crc b : ℕ) → b < 256 → do1 crc b ≡ shift_bits 8 (bit_xor crc b)
unfolding do1
do1_bits crc b h =
    let eighth : (x : ℕ) → halved 8 x ≡ x / 256 = λ x. omega arith in
    let gone : b / 256 ≡ 0 = omega arith in
    let high : bit_xor crc b / 256 ≡ crc / 256 =
      sym (eighth (bit_xor crc b))
      ∙ halved-xor 8 crc b
      ∙ ap (λ t. bit_xor t (halved 8 b)) (eighth crc)
      ∙ ap (bit_xor (crc / 256)) (eighth b ∙ gone)
      ∙ xor-zero (crc / 256) in
    sym (shift_byte (bit_xor crc b) ∙ ap (bit_xor (at crc_table (bit_xor crc b % 256))) high)

abbrev pub IsByte : ℕ → Type 0
IsByte b = b < 256

crc_rest-bitwise : (crc : ℕ) (s : Text) → All IsByte s → crc_rest crc s ≡ bitwise_from crc s
unfolding crc_rest bitwise_from
crc_rest-bitwise crc [] h = refl
crc_rest-bitwise crc (b ∷ s) h =
    ap (λ t. crc_rest t s) (do1_bits crc b h.0)
    ∙ crc_rest-bitwise (shift_bits 8 (bit_xor crc b)) s h.1

-- Eight steps in a row are eight rounds of the loop.
crc_blocks-crc_rest : (crc : ℕ) (s : Text) → crc_blocks crc s ≡ crc_rest crc s
unfolding crc_blocks crc_rest
crc_blocks-crc_rest crc [] = refl
crc_blocks-crc_rest crc (a ∷ []) = refl
crc_blocks-crc_rest crc (a ∷ b ∷ []) = refl
crc_blocks-crc_rest crc (a ∷ b ∷ c ∷ []) = refl
crc_blocks-crc_rest crc (a ∷ b ∷ c ∷ d ∷ []) = refl
crc_blocks-crc_rest crc (a ∷ b ∷ c ∷ d ∷ e ∷ []) = refl
crc_blocks-crc_rest crc (a ∷ b ∷ c ∷ d ∷ e ∷ f ∷ []) = refl
crc_blocks-crc_rest crc (a ∷ b ∷ c ∷ d ∷ e ∷ f ∷ g ∷ []) = refl
crc_blocks-crc_rest crc (a ∷ b ∷ c ∷ d ∷ e ∷ f ∷ g ∷ h ∷ s) =
    crc_blocks-crc_rest (do8 crc a b c d e f g h) s

-- The checksum of bytes, which the code computes from its table and in blocks of eight, is that of the
-- polynomial 0xedb88320, one bit at a time from 0xffffffff, with all bits turned at the end.
pub ssl_crc32-bitwise : (s : Text) → All IsByte s → ssl_crc32 s ≡ bitwise_crc32 s
unfolding ssl_crc32 bitwise_crc32
ssl_crc32-bitwise s h =
    ap (λ t. bit_xor t 4294967295)
      (crc_blocks-crc_rest 4294967295 s ∙ crc_rest-bitwise 4294967295 s h)
