-- ===== src/Net/Frames/RoundTrip.antt =====
-- A message that is framed and read back.
use hardware_server.Prelude.{
  ℕ, ◌+◌, ◌*◌, ◌≤◌, ◌<◌, ◌≡◌, refl, ◌∙◌, Bool, true, false, Option, none, some, List, [], ◌++◌,
  arith, ltb, leb, if◌then◌else◌, length, inl, inr, Option-cases,
}
use hardware_server.Net.{
  message_head_len, max_message_len, put32, get32, CompressStrategy, Head, message_compress_len,
}
use hardware_server.Net.Frames.{
  head_bytes, set_mask, make_message, pack, compress, unpack, uncompress,
}

-- What a compression promises: it can be undone, and its result has more than one byte.
pub record Lossless (s : CompressStrategy) : Type 0 where
  pub back : (d z : List ℕ) → s.compress d ≡ some z → s.uncompress z ≡ some d
  pub long : (d z : List ℕ) → s.compress d ≡ some z → 1 < length z

abbrev pub IsLossless : Option CompressStrategy → Type 0
IsLossless none = Unit
IsLossless (some s) = Lossless s

-- New memory that does not have the bit of a compressed message set.
abbrev pub IsClear : Head → Type 0
IsClear h = (h.mask_low < 256) × (h.mask_high < 128)

-- A message of more than one byte that fits into a frame.
abbrev pub Fits : List ℕ → Type 0
Fits bytes = (1 < length bytes) × (length bytes ≤ 64990)

pub get32-put32 : (n : ℕ) (rest : List ℕ) → n < 4294967296 → get32 (put32 n ++ rest) ≡ n
get32-put32 n rest h = omega arith

pack-Fits :
    (s : Option CompressStrategy) (bytes : List ℕ)
    → IsLossless s
    → Fits bytes
    → Fits (pack s bytes).0 × (unpack s (pack s bytes).1 (pack s bytes).0 ≡ some bytes)
unfolding pack
pack-Fits none bytes law fits = (fits, refl)
pack-Fits (some s) bytes law fits = elim (Option-cases (s.compress bytes)) [
  | inl e ↦ rw e (ground arith)
  | inr (z, e) ↦ rw e (ground (arith, law.back bytes z e, law.long bytes z e))
]

-- The frame of a message: its length stands in front, it is one that the receiver takes, and the
-- receiver gets the message from it.
pub record IsFrame (s : Option CompressStrategy) (frame bytes : List ℕ) : Type 0 where
  pub len : get32 frame ≡ length frame
  pub low : message_head_len ≤ length frame
  pub high : length frame ≤ max_message_len
  pub body : uncompress s frame ≡ some bytes

mask_read :
    (h : Head) (c : Bool)
    → IsClear h
    → leb 32768 (h.mask_low + 256 * (if c then set_mask h.mask_high else h.mask_high)) ≡ c
mask_read h true clear = ground arith
mask_read h false clear = ground arith

uncompress_head :
    (s : Option CompressStrategy) (h : Head) (body : List ℕ) (c : Bool)
    → 4 < h.len
    → h.len < 4294967296
    → leb 32768 (h.mask_low + 256 * h.mask_high) ≡ c
    → uncompress s (head_bytes h ++ body) ≡ unpack s c body
unfolding uncompress
uncompress_head s h body c long short mask =
    let valid : leb (get32 (put32 h.len ++ [])) 4 ≡ false =
      rw (get32-put32 h.len [] short) (ground arith) in
    rw (valid, mask)

make_message-IsFrame :
    (s : Option CompressStrategy) (h : Head) (checksum : List ℕ → ℕ) (body bytes : List ℕ)
    (c : Bool)
    → IsClear h
    → Fits body
    → unpack s c body ≡ some bytes
    → IsFrame s (make_message h checksum body c) bytes
unfolding make_message
make_message-IsFrame s h checksum body bytes c clear fits e =
    let long : ltb 1 (length body) ≡ true = ground arith in
    rw long (record {
      len = get32-put32 (length body + 10) [] (omega arith) ∙ omega arith;
      low = omega arith;
      high = omega arith;
      body =
          uncompress_head s
            (record {
              len = length body + 10;
              mask_low = h.mask_low;
              mask_high = if c then set_mask h.mask_high else h.mask_high;
              crc = checksum body;
            })
            body c (omega arith) (omega arith) (mask_read h c clear)
          ∙ e;
    })

-- A message of two to 64990 bytes, made in memory without the bit of a compressed message, is a frame
-- that starts with its own length, is within the bounds of the receiver, and from which the receiver
-- gets the message back, compressed or not.
pub compress-IsFrame :
    (s : Option CompressStrategy) (h : Head) (checksum : List ℕ → ℕ) (bytes : List ℕ)
    → IsLossless s
    → IsClear h
    → Fits bytes
    → IsFrame s (compress s h checksum bytes) bytes
unfolding compress
compress-IsFrame s h checksum bytes law clear fits =
    let (packed, e) = pack-Fits s bytes law fits in
    make_message-IsFrame s h checksum (pack s bytes).0 bytes (pack s bytes).1 clear packed e

-- A short message, sent uncompressed from memory that has the bit of a compressed message set, is
-- taken for a compressed one: where both sides have a compression, the receiver uncompresses bytes
-- that were never compressed.
pub unclear_memory :
    (s : CompressStrategy) (h : Head) (checksum : List ℕ → ℕ) (bytes : List ℕ)
    → 128 ≤ h.mask_high
    → Fits bytes
    → length bytes ≤ message_compress_len
    → uncompress (some s) (compress (some s) h checksum bytes) ≡ s.uncompress bytes
unfolding compress make_message pack
unclear_memory s h checksum bytes bit fits short =
    let plain : ltb message_compress_len (length bytes) ≡ false = ground arith in
    let long : ltb 1 (length bytes) ≡ true = ground arith in
    rw (plain, long)
      (uncompress_head (some s)
        (record {
          len = length bytes + 10;
          mask_low = h.mask_low;
          mask_high = h.mask_high;
          crc = checksum bytes;
        })
        bytes true (omega arith) (omega arith) (ground arith))
