-- ===== src/Net/Queue/Order.antt =====
-- The messages leave in their order, none is lost or doubled, and the queue is emptied.
use hardware_server.Prelude.{
  ℕ, ◌+◌, ◌≡◌, refl, ◌∙◌, ap, sym, true, false, List, [], ◌∷◌, ◌++◌, arith, leb, length, concat,
  inl, inr, Bool-cases, append_assoc, append-nil,
}
use hardware_server.Net.{max_message_len}
use hardware_server.Net.Queue.{
  Sender, fill_sending, write_message, send_message, handle_write, SenderEvent, sent, posted,
  written, sender_step, sender_run,
}

pub fill_sending-concat :
    (len : ℕ) (queue : List (List ℕ))
    → let (bytes, rest) = fill_sending len queue in bytes ++ concat rest ≡ concat queue
unfolding fill_sending
fill_sending-concat len [] = refl
fill_sending-concat len (m ∷ queue) = elim (Bool-cases (leb (len + length m) max_message_len)) [
  | inl fits ↦ rw fits (
      append_assoc m (fill_sending (len + length m) queue).0
        (concat (fill_sending (len + length m) queue).1)
      ∙ ap (λ l. m ++ l) (fill_sending-concat (len + length m) queue))
  | inr large ↦ rw large
]

pub concat-append : (xs ys : List (List ℕ)) → concat (xs ++ ys) ≡ concat xs ++ concat ys
concat-append [] ys = refl
concat-append (x ∷ xs) ys =
    ap (λ l. x ++ l) (concat-append xs ys) ∙ sym (append_assoc x (concat xs) (concat ys))

-- The bytes that are written or wait, in their order.
abbrev pub stream : Sender → List ℕ
stream t = concat t.wire ++ concat t.queue

written-stream :
    (wire queue : List (List ℕ))
    → let (bytes, rest) = fill_sending 0 queue in
      concat (wire ++ bytes ∷ []) ++ concat rest ≡ concat wire ++ concat queue
written-stream wire queue =
    let bytes = (fill_sending 0 queue).0 in
    let rest = (fill_sending 0 queue).1 in
    ap (λ l. l ++ concat rest)
      (concat-append wire (bytes ∷ []) ∙ ap (λ l. concat wire ++ l) (append-nil bytes))
    ∙ append_assoc (concat wire) bytes (concat rest)
    ∙ ap (λ l. concat wire ++ l) (fill_sending-concat 0 queue)

-- The messages that a history hands to a connected sender, in their order.
abbrev pub handed : List SenderEvent → List ℕ
handed [] = []
handed (sent m ∷ es) = m ++ handed es
handed (posted ∷ es) = handed es
handed (written ∷ es) = handed es

write_message-stream :
    (t : Sender) (n : ℕ)
    → (stream (write_message t n) ≡ stream t) × ((write_message t n).connected ≡ t.connected)
unfolding write_message
write_message-stream t n = ground (arith, written-stream t.wire t.queue)

step-stream :
    (t : Sender) (e : SenderEvent)
    → t.connected ≡ true
    → (stream (sender_step t e) ≡ stream t ++ handed (e ∷ []))
      × ((sender_step t e).connected ≡ true)
unfolding sender_step send_message handle_write
step-stream t (sent m) h = rw h (
  ap (λ l. concat t.wire ++ l) (concat-append t.queue (m ∷ []))
      ∙ sym (append_assoc (concat t.wire) (concat t.queue) (m ++ [])),
  refl,
)
step-stream t posted h =
    let w = write_message-stream t 0 in (w.0 ∙ sym (append-nil (stream t)), w.1 ∙ h)
step-stream t written h = elim (Bool-cases t.is_sending_data) [
  | inl busy ↦
      let w = write_message-stream (record t { is_sending_data = false }) t.writing in
      rw busy (w.0 ∙ sym (append-nil (stream t)), w.1 ∙ h)
  | inr idle ↦ rw idle (sym (append-nil (stream t)), h)
]

handed-cons :
    (e : SenderEvent) (es : List SenderEvent) → handed (e ∷ []) ++ handed es ≡ handed (e ∷ es)
handed-cons (sent m) es = ap (λ l. l ++ handed es) (append-nil m)
handed-cons posted es = refl
handed-cons written es = refl

-- On a connected session the bytes that have been written, and after them those of the messages that
-- wait, are at any time exactly those that were there and those of the messages handed over since,
-- in the order of the calls.
pub sender_run-stream :
    (t : Sender) (es : List SenderEvent)
    → t.connected ≡ true
    → stream (sender_run t es) ≡ stream t ++ handed es
unfolding sender_run
sender_run-stream t [] h = sym (append-nil (stream t))
sender_run-stream t (e ∷ es) h =
    let step = step-stream t e h in
    sender_run-stream (sender_step t e) es step.1
    ∙ ap (λ l. l ++ handed es) step.0
    ∙ append_assoc (stream t) (handed (e ∷ [])) (handed es)
    ∙ ap (λ l. stream t ++ l) (handed-cons e es)
