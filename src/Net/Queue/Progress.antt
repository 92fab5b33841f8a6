-- ===== src/Net/Queue/Progress.antt =====
-- What becomes of the messages that wait.
use hardware_server.Prelude.{
  ℕ, zero, suc, ◌+◌, ◌≤◌, ◌<◌, ◌≡◌, refl, ◌∙◌, ap, sym, true, false, List, [], ◌∷◌, ◌++◌, arith,
  if◌then◌else◌, length, length-append, All, concat, inl, inr, Bool-cases, append-nil,
}
use hardware_server.Net.{max_message_len}
use hardware_server.Net.Queue.{
  Sender, fill_sending, is_idle, write_message, send_message, handle_write, SenderEvent, sent,
  posted, written, sender_step, sender_run,
}
use hardware_server.Net.Queue.Order.{fill_sending-concat, concat-append}

-- The count of bytes that are not sent is that of the queue and of the write under way.
abbrev pub under_way : Sender → ℕ
under_way t = if t.is_sending_data then t.writing else 0

abbrev pub Counted : Sender → Type 0
Counted t = t.not_sent_size ≡ under_way t + length (concat t.queue)

fill_sending-length :
    (queue : List (List ℕ))
    → length (fill_sending 0 queue).0 + length (concat (fill_sending 0 queue).1)
      ≡ length (concat queue)
fill_sending-length queue =
    sym (length-append (fill_sending 0 queue).0 (concat (fill_sending 0 queue).1))
    ∙ ap length (fill_sending-concat 0 queue)

write_message-Counted :
    (t : Sender) (n : ℕ)
    → t.not_sent_size ≡ n + under_way t + length (concat t.queue)
    → Counted (write_message t n)
unfolding write_message
write_message-Counted t n h = ground (arith, fill_sending-length t.queue)

step-Counted : (t : Sender) (e : SenderEvent) → Counted t → Counted (sender_step t e)
unfolding sender_step send_message handle_write
step-Counted t (sent m) h =
    let more = ap length (concat-append t.queue (m ∷ [])) in
    let size = length-append (concat t.queue) (m ++ []) in
    let one = ap length (append-nil m) in ground arith
step-Counted t posted h = write_message-Counted t 0 (omega arith)
step-Counted t written h = elim (Bool-cases t.is_sending_data) [
  | inl busy ↦
      rw busy
        (write_message-Counted (record t { is_sending_data = false }) t.writing (ground arith))
  | inr idle ↦ rw idle (rw idle at h)
]

-- The count of the bytes that are not sent stays right in every history, so that it never falls
-- below zero.
pub sender_run-Counted :
    (t : Sender) (es : List SenderEvent) → Counted t → Counted (sender_run t es)
unfolding sender_run
sender_run-Counted t [] h = h
sender_run-Counted t (e ∷ es) h = sender_run-Counted (sender_step t e) es (step-Counted t e h)

-- A message that fits into one write.
abbrev pub FitsWrite : List ℕ → Type 0
FitsWrite m = length m ≤ max_message_len

fill_rest :
    (len : ℕ) (queue : List (List ℕ))
    → All FitsWrite queue
    → All FitsWrite (fill_sending len queue).1 × (length (fill_sending len queue).1 ≤ length queue)
unfolding fill_sending
fill_rest len [] h = (tt, omega arith)
fill_rest len (m ∷ queue) h = ground (arith, fill_rest (len + length m) queue h.1)

fill_some :
    (m : List ℕ) (queue : List (List ℕ))
    → All FitsWrite (m ∷ queue)
    → length (fill_sending 0 (m ∷ queue)).1 ≤ length queue
unfolding fill_sending
fill_some m queue h = ground (arith, fill_rest (length m) queue h.1)

abbrev pub completions : ℕ → List SenderEvent
completions zero = []
completions (suc n) = written ∷ completions n

written_queue :
    (t : Sender) (m : List ℕ) (queue : List (List ℕ))
    → t.connected ≡ true
    → t.is_sending_data ≡ true
    → t.queue ≡ m ∷ queue
    → let t' = sender_step t written in
      (t'.queue ≡ (fill_sending 0 (m ∷ queue)).1)
      × (t'.connected ≡ true)
      × (t'.is_sending_data ≡ true)
unfolding sender_step handle_write write_message
written_queue t m queue on busy e = rw (busy, on, e) (refl, refl, refl)

empty_step : (t : Sender) → t.queue ≡ [] → (sender_step t written).queue ≡ []
unfolding sender_step handle_write write_message
empty_step t e = ground arith

empty_queue : (n : ℕ) (t : Sender) → t.queue ≡ [] → (sender_run t (completions n)).queue ≡ []
unfolding sender_run
empty_queue zero t e = e
empty_queue (suc n) t e = empty_queue n (sender_step t written) (empty_step t e)

-- Where every waiting message fits into a write, as many completed writes as there are messages
-- empty the queue.
pub queue_drains :
    (n : ℕ) (t : Sender) (queue : List (List ℕ))
    → t.queue ≡ queue
    → t.connected ≡ true
    → t.is_sending_data ≡ true
    → All FitsWrite queue
    → length queue ≤ n
    → (sender_run t (completions n)).queue ≡ []
unfolding sender_run
queue_drains n t [] e on busy fits few = empty_queue n t e
queue_drains zero t (m ∷ queue) e on busy fits few = absurd (omega arith)
queue_drains (suc n) t (m ∷ queue) e on busy fits few =
    let w = written_queue t m queue on busy e in
    queue_drains n (sender_step t written) (fill_sending 0 (m ∷ queue)).1 w.0 w.1 w.2
      (fill_rest 0 (m ∷ queue) fits).0 (omega (arith, fill_some m queue fits))

abbrev pub Blocked : List ℕ → List ℕ → Sender → Type 0
Blocked m bytes t = ((queue : List (List ℕ)) × (t.queue ≡ m ∷ queue)) × (concat t.wire ≡ bytes)

fill_blocked :
    (m : List ℕ) (queue : List (List ℕ))
    → max_message_len < length m
    → fill_sending 0 (m ∷ queue) ≡ ([], m ∷ queue)
unfolding fill_sending
fill_blocked m queue long = ground arith

write_message-Blocked :
    (m bytes : List ℕ) (t : Sender) (n : ℕ)
    → max_message_len < length m
    → Blocked m bytes t
    → Blocked m bytes (write_message t n)
unfolding write_message
write_message-Blocked m bytes t n long ((queue, e), w) = elim (Bool-cases (is_idle t)) [
  | inl idle ↦
      rw (e, idle, fill_blocked m queue long, write_message)
        ((queue, refl), concat-append t.wire ([] ∷ []) ∙ append-nil (concat t.wire) ∙ w)
  | inr busy ↦ rw busy ((queue, e), w)
]

step-Blocked :
    (m bytes : List ℕ) (t : Sender) (e : SenderEvent)
    → max_message_len < length m
    → Blocked m bytes t
    → Blocked m bytes (sender_step t e)
unfolding sender_step send_message handle_write
step-Blocked m bytes t (sent x) long ((queue, e), w) = elim (Bool-cases t.connected) [
  | inl on ↦ rw on ((queue ++ x ∷ [], ap (λ q. q ++ x ∷ []) e), w)
  | inr off ↦ rw off ((queue, e), w)
]
step-Blocked m bytes t posted long b = write_message-Blocked m bytes t 0 long b
step-Blocked m bytes t written long b = elim (Bool-cases t.is_sending_data) [
  | inl busy ↦
      rw busy
        (write_message-Blocked m bytes (record t { is_sending_data = false }) t.writing long b)
  | inr idle ↦ rw idle b
]

-- A message that is longer than a write, once it is the first of the queue, stays there, and no byte
-- is written any more, whatever happens.
pub long_message_blocks :
    (m bytes : List ℕ) (t : Sender) (es : List SenderEvent)
    → max_message_len < length m
    → Blocked m bytes t
    → Blocked m bytes (sender_run t es)
unfolding sender_run
long_message_blocks m bytes t [] long b = b
long_message_blocks m bytes t (e ∷ es) long b =
    long_message_blocks m bytes (sender_step t e) es long (step-Blocked m bytes t e long b)
