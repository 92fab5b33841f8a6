-- ===== src/Net/Queue.antt =====
-- common/tcpsession.cpp: the queue of messages that go out, _send_message, _write_message and
-- handle_write. A message is its bytes. `wire` holds the writes to the socket in their order, and
-- `writing` the number of bytes of the last one, which its completion reports.
pub mod Order
pub mod Progress
use hardware_server.Prelude.{
  ℕ, ◌+◌, ◌-◌, ◌*◌, Bool, true, false, ◌&&◌, not, List, [], ◌∷◌, ◌++◌, leb, if◌then◌else◌, length,
}
use hardware_server.Net.{max_message_len}

-- `limited` tells that the server limits the queue (is_limit_mode), and `closing` that close() has
-- been called.
pub record Sender : Type 0 where
  pub queue : List (List ℕ)
  pub not_sent_size : ℕ
  pub is_sending_data : Bool
  pub connected : Bool
  pub limited : Bool
  pub closing : Bool
  pub writing : ℕ
  pub wire : List (List ℕ)

-- QUEUE_MESSAGE_LIMIT_SIZE
abbrev pub queue_message_limit_size : ℕ
queue_message_limit_size = 65000 * 30

-- The loop of _write_message: the bytes that are copied behind the first `len`, and the messages
-- that stay.
unfoldable pub fill_sending : ℕ → List (List ℕ) → List ℕ × List (List ℕ)
fill_sending len [] = ([], [])
fill_sending len (m ∷ queue) =
    let (bytes, rest) = fill_sending (len + length m) queue in
    if leb (len + length m) max_message_len then (m ++ bytes, rest) else ([], m ∷ queue)

abbrev pub is_idle : Sender → Bool
is_idle t = t.connected && not t.is_sending_data

-- Whether there is a message to write.
abbrev pub has_messages : List (List ℕ) → Bool
has_messages [] = false
has_messages (m ∷ queue) = true

-- `m_not_sent_size` counts the bytes in the queue and in the write that has not completed, so that it
-- is never less than `done`.
unfoldable pub write_message : Sender → ℕ → Sender
unfolding fill_sending
write_message t done =
    let t1 = record t { not_sent_size = t.not_sent_size - done } in
    let (bytes, rest) = fill_sending 0 t.queue in
    if is_idle t && has_messages t.queue
    then record t1 {
      queue = rest;
      is_sending_data = true;
      writing = length bytes;
      wire = t.wire ++ bytes ∷ [];
    }
    else t1

-- _send_message up to the posting of _write_message
unfoldable pub send_message : Sender → List ℕ → Sender
send_message t m =
    if t.connected
    then record t {
      queue = t.queue ++ m ∷ [];
      not_sent_size = t.not_sent_size + length m;
      closing =
          if t.limited && leb queue_message_limit_size (t.not_sent_size + length m)
          then true
          else t.closing;
    }
    else t

-- handle_write without an error
unfoldable pub handle_write : Sender → Sender
unfolding write_message
handle_write t = write_message (record t { is_sending_data = false }) t.writing

-- `posted` is a call of _write_message that _send_message has posted. The socket completes a write
-- only after one was begun.
pub data SenderEvent : Type 0 where
  sent : List ℕ → SenderEvent
  posted written : SenderEvent

unfoldable pub sender_step : Sender → SenderEvent → Sender
unfolding send_message
sender_step t (sent m) = send_message t m
sender_step t posted = write_message t 0
sender_step t written = if t.is_sending_data then handle_write t else t

unfoldable pub sender_run : Sender → List SenderEvent → Sender
sender_run t [] = t
sender_run t (e ∷ es) = sender_run (sender_step t e) es
