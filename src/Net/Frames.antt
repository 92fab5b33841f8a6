-- ===== src/Net/Frames.antt =====
-- common/message_interface.cpp: a message as it is sent, and back. The checksum is an argument; the
-- receiver does not look at it.
pub mod RoundTrip
use hardware_server.Prelude.{
  ℕ, ◌+◌, Bool, true, false, Option, none, some, List, [], ◌∷◌, ◌++◌, ltb, leb, if◌then◌else◌,
  length, drop,
}
use hardware_server.Net.{
  message_head_len, message_compress_len, put32, get32, get16, CompressStrategy, Head,
}

abbrev pub head_bytes : Head → List ℕ
head_bytes h = put32 h.len ++ h.mask_low ∷ h.mask_high ∷ put32 h.crc

-- `mask |= COMPRESS_MASK`, on the high byte
abbrev pub set_mask : ℕ → ℕ
set_mask high = if leb 128 high then high else high + 128

-- makeMessage, in memory that held `h`. The mask is never cleared, and a message of one byte gets no
-- head at all.
unfoldable pub make_message : Head → (List ℕ → ℕ) → List ℕ → Bool → List ℕ
make_message h checksum bytes compressed =
    (if ltb 1 (length bytes)
      then head_bytes (record {
        len = length bytes + message_head_len;
        mask_low = h.mask_low;
        mask_high = if compressed then set_mask h.mask_high else h.mask_high;
        crc = checksum bytes;
      })
      else head_bytes h)
    ++ bytes

-- What compress sends, and whether it is compressed.
unfoldable pub pack : Option CompressStrategy → List ℕ → List ℕ × Bool
pack none bytes = (bytes, false)
pack (some s) bytes =
    if ltb message_compress_len (length bytes)
    then elim (s.compress bytes) [
      | none ↦ (bytes, false)
      | some z ↦ if ltb (length z) (length bytes) then (z, true) else (bytes, false)
    ]
    else (bytes, false)

unfoldable pub compress : Option CompressStrategy → Head → (List ℕ → ℕ) → List ℕ → List ℕ
unfolding make_message pack
compress s h checksum bytes =
    let (body, compressed) = pack s bytes in make_message h checksum body compressed

-- The branches of uncompress
abbrev pub unpack : Option CompressStrategy → Bool → List ℕ → Option (List ℕ)
unpack (some s) true body = s.uncompress body
unpack (some s) false body = some body
unpack none compressed body = some body

-- `type & COMPRESS_MASK`
abbrev pub is_compressed : List ℕ → Bool
is_compressed frame = leb 32768 (get16 (drop 4 frame))

-- uncompress, on the bytes that the length covers
unfoldable pub uncompress : Option CompressStrategy → List ℕ → Option (List ℕ)
uncompress s frame =
    if leb (get32 frame) 4
    then none
    else unpack s (is_compressed frame) (drop message_head_len frame)
