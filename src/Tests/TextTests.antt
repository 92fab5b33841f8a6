-- ===== src/Tests/TextTests.antt =====
-- Texts: split and joined, encrypted, and their checksums.
use hardware_server.Prelude.{◌≡◌, refl, [], ◌∷◌, arith}
use hardware_server.Prelude.Text.{codes}
use hardware_server.Text.Split.{split_string}
use hardware_server.Text.Split.Join.{split_string-join, filled, join}
use hardware_server.Text.Cipher.{encrypt_string}
use hardware_server.Text.Cipher.Tables.{character_original_table, character_encrypt_tables}
use hardware_server.Text.Cipher.RoundTrip.{encrypted}
use hardware_server.Text.Crypt.Tables.{crc_table}
use hardware_server.Text.Crypt.Crc.{ssl_crc32, do1}
use hardware_server.Text.Crypt.Crc.Bitwise.{bitwise_crc32, ssl_crc32-bitwise}

split_text : split_string (codes "1:2::3") (codes ":") ≡ (codes "1" ∷ codes "2" ∷ codes "3" ∷ [], 3)
unfolding split_string
split_text = refl

split_string-join_example :
    split_string (join 58 (codes "1") (codes "2" ∷ codes "" ∷ [])) (58 ∷ [])
    ≡ (filled (codes "1" ∷ codes "2" ∷ codes "" ∷ []), 2)
split_string-join_example =
    split_string-join 58 (codes "1") (codes "2") (codes "" ∷ []) (refl, (refl, (refl, tt)))

-- The usual check value of this checksum.
check_value : ssl_crc32 (codes "123456789") ≡ 3421780262
unfolding ssl_crc32 do1 crc_table
check_value = refl

ssl_crc32-bitwise_example : ssl_crc32 (codes "123456789") ≡ bitwise_crc32 (codes "123456789")
ssl_crc32-bitwise_example = ssl_crc32-bitwise (codes "123456789") (omega arith)

secret : encrypted (codes "abc") [] 0 ≡ codes "h2O"
unfolding encrypt_string character_original_table character_encrypt_tables
secret = refl
