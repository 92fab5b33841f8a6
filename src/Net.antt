-- ===== src/Net.antt =====
-- The transport that all servers share: common/message_interface.cpp and the reading and writing of
-- common/tcpsession.cpp. A byte is a number, and machines are little-endian.
pub mod Frames
pub mod Stream
pub mod Queue
pub mod Inbox
pub mod Server
pub mod Proto
use hardware_server.Prelude.{ℕ, ◌+◌, ◌*◌, ◌/◌, ◌%◌, Option, List, [], ◌∷◌, ◌++◌}

-- MESSAGE_HEAD_LEN, MAX_MESSAGE_LEN and MESSAGE_COMPRESS_LEN
abbrev pub message_head_len : ℕ
message_head_len = 10

abbrev pub max_message_len : ℕ
max_message_len = 65000

abbrev pub message_compress_len : ℕ
message_compress_len = 512

-- The bytes of an `unsigned int`, and the values at the head of a list of bytes.
abbrev pub put32 : ℕ → List ℕ
put32 n = n % 256 ∷ n / 256 % 256 ∷ n / 65536 % 256 ∷ n / 16777216 % 256 ∷ []

abbrev pub get32 : List ℕ → ℕ
get32 (a ∷ b ∷ c ∷ d ∷ rest) = a + 256 * b + 65536 * c + 16777216 * d
get32 _ = 0

abbrev pub get16 : List ℕ → ℕ
get16 (a ∷ b ∷ rest) = a + 256 * b
get16 _ = 0

-- compress_strategy: `none` is the answer false.
pub record CompressStrategy : Type 0 where
  pub compress : List ℕ → Option (List ℕ)
  pub uncompress : List ℕ → Option (List ℕ)

-- The head of a message: the length, the two bytes of the mask and the checksum. What is new in
-- memory holds any values.
pub record Head : Type 0 where
  pub len : ℕ
  pub mask_low : ℕ
  pub mask_high : ℕ
  pub crc : ℕ
