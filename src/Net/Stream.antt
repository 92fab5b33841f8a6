-- ===== src/Net/Stream.antt =====
-- common/tcpsession.cpp: handle_read_some, which cuts the stream of bytes into messages.
pub mod Chunks
pub mod Loop
pub mod RoundTrip
use hardware_server.Prelude.{
  ℕ, zero, suc, ◌+◌, Bool, true, false, ◌||◌, Option, none, some, List, [], ◌∷◌, ◌++◌, ltb, leb,
  if◌then◌else◌, length, take, drop,
}
use hardware_server.Net.{message_head_len, max_message_len, get32, CompressStrategy}
use hardware_server.Net.Frames.{uncompress}

-- Why a session is closed: a length out of range (close_and_ban), or a message that cannot be read
-- (a ban of two minutes).
pub data Fault : Type 0 where
  hack_packet wrong_check_sum : Fault

-- The messages that are pushed, in their order, and then either the bytes that stay in
-- `m_recv_buffer` or the end of the session.
pub data Received : Type 0 where
  keep : List (List ℕ) → List ℕ → Received
  closed : List (List ℕ) → Fault → Received

abbrev pub push : List ℕ → Received → Received
push m (keep ms rest) = keep (m ∷ ms) rest
push m (closed ms fault) = closed (m ∷ ms) fault

-- What the rest of the loop makes of the message at the front, if it could be read.
abbrev pub push_message : Option (List ℕ) → Received → Received
push_message none later = closed [] wrong_check_sum
push_message (some m) later = push m later

-- `len < MESSAGE_HEAD_LEN || len > MAX_MESSAGE_LEN`
abbrev pub is_bad_len : ℕ → Bool
is_bad_len len = ltb len message_head_len || ltb max_message_len len

-- The loop over the bytes in the buffer. The test of the length stands where a length is read: the
-- code has it before the loop and at the end of its body. The first argument is fuel: a pass takes
-- at least MESSAGE_HEAD_LEN bytes.
unfoldable pub read_loop : Option CompressStrategy → ℕ → List ℕ → Received
read_loop s zero buffer = keep [] buffer
read_loop s (suc n) buffer =
    let later = read_loop s n (drop (get32 buffer) buffer) in
    if leb message_head_len (length buffer)
    then if is_bad_len (get32 buffer)
      then closed [] hack_packet
      else if leb (get32 buffer) (length buffer)
      then push_message (uncompress s (take (get32 buffer) buffer)) later
      else keep [] buffer
    else keep [] buffer

unfoldable pub read_buffer : Option CompressStrategy → List ℕ → Received
unfolding read_loop
read_buffer s buffer = read_loop s (suc (length buffer)) buffer

-- handle_read_some without an error, on a buffer and the bytes that have come
unfoldable pub handle_read_some : Option CompressStrategy → List ℕ → List ℕ → Received
unfolding read_buffer
handle_read_some s buffer chunk = read_buffer s (buffer ++ chunk)

-- What has been received goes before what `next` receives from the bytes that stayed.
abbrev pub proceed : Received → (List ℕ → Received) → Received
proceed (keep [] rest) next = next rest
proceed (keep (m ∷ ms) rest) next = push m (proceed (keep ms rest) next)
proceed (closed ms fault) next = closed ms fault

-- The reads of one session, one chunk after the other; the end of the session ends them.
unfoldable pub receive : Option CompressStrategy → List ℕ → List (List ℕ) → Received
unfolding handle_read_some
receive s buffer [] = keep [] buffer
receive s buffer (chunk ∷ chunks) =
    proceed (handle_read_some s buffer chunk) (λ rest. receive s rest chunks)
