-- ===== src/Text/Crypt/Crc.antt =====
-- common/crypt.cpp: crc32, sslCrc32 and sslChecksum. A `char` is its byte: the sign that the code
-- extends does not reach the eight bits that it takes. The checksum stays below 2^32, so the wider
-- `unsigned long` makes no difference.
pub mod Bitwise
use Prim.Native.Nat.{bit_xor}
use hardware_server.Prelude.{ℕ, zero, suc, ◌/◌, ◌%◌, List, [], ◌∷◌, Bool, ◌==◌}
use hardware_server.Prelude.Text.{Text}
use hardware_server.Text.Crypt.Tables.{crc_table}

abbrev pub at : List ℕ → ℕ → ℕ
at [] i = 0
at (x ∷ xs) zero = x
at (x ∷ xs) (suc i) = at xs i

-- DO1
unfoldable pub do1 : ℕ → ℕ → ℕ
do1 crc b = bit_xor (at crc_table (bit_xor crc b % 256)) (crc / 256)

-- DO8
unfoldable pub do8 : ℕ → ℕ → ℕ → ℕ → ℕ → ℕ → ℕ → ℕ → ℕ → ℕ
do8 crc a b c d e f g h = do1 (do1 (do1 (do1 (do1 (do1 (do1 (do1 crc a) b) c) d) e) f) g) h

-- if (len) do { DO1; } while (--len)
unfoldable pub crc_rest : ℕ → Text → ℕ
crc_rest crc [] = crc
crc_rest crc (b ∷ s) = crc_rest (do1 crc b) s

-- while (len >= 8) { DO8; len -= 8; }
unfoldable pub crc_blocks : ℕ → Text → ℕ
unfolding crc_rest do8
crc_blocks crc (a ∷ b ∷ c ∷ d ∷ e ∷ f ∷ g ∷ h ∷ s) = crc_blocks (do8 crc a b c d e f g h) s
crc_blocks crc s = crc_rest crc s

-- crc32; `crc` is 0 in its only call.
unfoldable pub crc32 : ℕ → Text → ℕ
unfolding crc_blocks
crc32 crc s = bit_xor (crc_blocks (bit_xor crc 4294967295) s) 4294967295

unfoldable pub ssl_crc32 : Text → ℕ
unfolding crc32
ssl_crc32 s = crc32 0 s

unfoldable pub ssl_checksum : Text → ℕ → Bool
unfolding ssl_crc32
ssl_checksum s key = key == ssl_crc32 s
