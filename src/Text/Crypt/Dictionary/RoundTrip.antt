-- ===== src/Text/Crypt/Dictionary/RoundTrip.antt =====
-- Bytes that are encrypted and decrypted with the same key.
use Prim.Native.Nat.{bit_xor}
use hardware_server.Prelude.{
  ℕ, suc, ◌+◌, ◌-◌, ◌%◌, ◌<◌, ◌≡◌, ◌≢◌, refl, ◌∙◌, ap, [], ◌∷◌, ◌++◌, none, some, true, false, ◌==◌,
  ==_iff, length, length-append, take, arith, All, Bool,
}
use hardware_server.Prelude.Text.{Text}
use hardware_server.Text.Crypt.Tables.{dictionary}
use hardware_server.Text.Crypt.Xor.{xor_twice}
use hardware_server.Text.Crypt.Crc.{at}
use hardware_server.Text.Crypt.Crc.Bitwise.{IsByte, holds_below, holds_below-lt}
use hardware_server.Text.Crypt.Dictionary.{
  row_at, reversed, encrypt_from, ssl_encrypt, decrypt_from, last_byte, ssl_decrypt,
}

abbrev byte_turns_back : ℕ → ℕ → Bool
byte_turns_back i b = reversed i (at (row_at dictionary i) b) == b

-- Each row of the dictionary is a permutation of the bytes.
rows_turn_back : holds_below (λ i. holds_below (byte_turns_back i) 256) 10 ≡ true
unfolding holds_below reversed dictionary
rows_turn_back = refl

reversed_lem : (i b : ℕ) → i < 10 → b < 256 → reversed i (at (row_at dictionary i) b) ≡ b
reversed_lem i b h k =
    let row = holds_below-lt (λ j. holds_below (byte_turns_back j) 256) 10 i h rows_turn_back in
    (==_iff (reversed i (at (row_at dictionary i) b)) b).0
      (holds_below-lt (byte_turns_back i) 256 b k row)

decrypt_from-encrypt_from :
    (key key2 i : ℕ) (s r : Text)
    → All IsByte s
    → take (length s) (decrypt_from key key2 i (encrypt_from key key2 i s ++ r)) ≡ s
unfolding encrypt_from decrypt_from
decrypt_from-encrypt_from key key2 i [] r h = refl
decrypt_from-encrypt_from key key2 i (b ∷ s) r h =
    let row = (key2 + i) % 10 in
    let back : reversed row (bit_xor (bit_xor (at (row_at dictionary row) b) key) key) ≡ b =
      ap (reversed row) (xor_twice (at (row_at dictionary row) b) key)
      ∙ reversed_lem row b (omega arith) h.0 in
    rw back (ap (λ t. b ∷ t) (decrypt_from-encrypt_from key key2 (i + 1) s r h.1))

last_byte-snoc : (s : Text) (b : ℕ) → last_byte (s ++ b ∷ []) ≡ b
last_byte-snoc [] b = refl
last_byte-snoc (c ∷ []) b = refl
last_byte-snoc (c ∷ d ∷ s) b = last_byte-snoc (d ∷ s) b

length-encrypt_from : (key key2 i : ℕ) (s : Text) → length (encrypt_from key key2 i s) ≡ length s
unfolding encrypt_from
length-encrypt_from key key2 i [] = refl
length-encrypt_from key key2 i (b ∷ s) = ap suc (length-encrypt_from key key2 (i + 1) s)

length-decrypt_from : (key key2 i : ℕ) (s : Text) → length (decrypt_from key key2 i s) ≡ length s
unfolding decrypt_from
length-decrypt_from key key2 i [] = refl
length-decrypt_from key key2 i (b ∷ s) = ap suc (length-decrypt_from key key2 (i + 1) s)

-- With a key other than 0 the decryption of what the encryption of bytes wrote returns their number, and
-- as many of the bytes that it writes are the same bytes; but it writes one byte more than that. With
-- the key 0 neither writes anything, so that the bytes have to be in the buffer already.
pub ssl_decrypt-ssl_encrypt :
    (key key2 : ℕ) (s : Text)
    → All IsByte s
    → (key ≢ 0
        → (out back : Text) × (ssl_encrypt key key2 s ≡ (some out, length s + 1))
          × (length out ≡ length s + 1)
          × (ssl_decrypt key out ≡ (some back, length s))
          × (take (length s) back ≡ s)
          × (length back ≡ length s + 1))
      × ((ssl_encrypt 0 key2 s ≡ (none, length s)) × (ssl_decrypt 0 s ≡ (none, length s)))
unfolding ssl_encrypt ssl_decrypt
ssl_decrypt-ssl_encrypt key key2 s h = (
  λ ne.
      let used : (key == 0) ≡ false = ground arith in
      let out = encrypt_from key key2 0 s ++ key2 ∷ [] in
      let size : length out ≡ length s + 1 = omega (
        arith,
        length-append (encrypt_from key key2 0 s) (key2 ∷ []),
        length-encrypt_from key key2 0 s,
      ) in
      let count : length out - 1 ≡ length s = omega arith in
      (
        out,
        decrypt_from key key2 0 out,
        rw used,
        size,
        rw (used, last_byte-snoc (encrypt_from key key2 0 s) key2, count),
        decrypt_from-encrypt_from key key2 0 s (key2 ∷ []) h,
        length-decrypt_from key key2 0 out ∙ size,
      ),
  (refl, refl),
)
