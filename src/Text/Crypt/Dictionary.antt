-- ===== src/Text/Crypt/Dictionary.antt =====
-- common/crypt.cpp: sslInitDictionary, sslEncrypt and sslDecrypt. A buffer is the list of the bytes
-- that are written to it; `none` is a buffer that is left as it was.
pub mod RoundTrip
use Prim.Native.Nat.{bit_xor}
use hardware_server.Prelude.{
  ℕ, zero, suc, ◌+◌, ◌-◌, ◌%◌, List, [], ◌∷◌, ◌++◌, Option, none, some, Bool, ◌==◌, if◌then◌else◌,
  length,
}
use hardware_server.Prelude.Text.{Text}
use hardware_server.Text.Crypt.Tables.{dictionary}
use hardware_server.Text.Crypt.Crc.{at}

abbrev pub row_at : List (List ℕ) → ℕ → List ℕ
row_at [] i = []
row_at (r ∷ rs) zero = r
row_at (r ∷ rs) (suc i) = row_at rs i

-- The loop over `k` of sslInitDictionary: the first place of `j`, or the length of the row.
unfoldable pub search_row : List ℕ → ℕ → ℕ
search_row [] j = 0
search_row (x ∷ xs) j = if x == j then 0 else suc (search_row xs j)

-- reversed_dictionary[i][j], an unsigned char
unfoldable pub reversed : ℕ → ℕ → ℕ
unfolding search_row
reversed i j = search_row (row_at dictionary i) j % 256

-- The loop of sslEncrypt from the index `i` on.
unfoldable pub encrypt_from : ℕ → ℕ → ℕ → Text → Text
encrypt_from key key2 i [] = []
encrypt_from key key2 i (b ∷ s) =
    bit_xor (at (row_at dictionary ((key2 + i) % 10)) b) key ∷ encrypt_from key key2 (i + 1) s

-- sslEncrypt: what is written, and the length that is returned; `key2` is rand() % 256.
unfoldable pub ssl_encrypt : ℕ → ℕ → Text → Option Text × ℕ
unfolding encrypt_from
ssl_encrypt key key2 s =
    if key == 0
    then (none, length s)
    else (some (encrypt_from key key2 0 s ++ key2 ∷ []), length s + 1)

unfoldable pub decrypt_from : ℕ → ℕ → ℕ → Text → Text
unfolding reversed
decrypt_from key key2 i [] = []
decrypt_from key key2 i (b ∷ s) =
    reversed ((key2 + i) % 10) (bit_xor b key) ∷ decrypt_from key key2 (i + 1) s

abbrev pub last_byte : Text → ℕ
last_byte [] = 0
last_byte (b ∷ []) = b
last_byte (b ∷ c ∷ s) = last_byte (c ∷ s)

-- sslDecrypt, whose loop goes over the second key too.
unfoldable pub ssl_decrypt : ℕ → Text → Option Text × ℕ
unfolding decrypt_from
ssl_decrypt key s =
    if key == 0 then (none, length s) else (some (decrypt_from key (last_byte s) 0 s), length s - 1)
