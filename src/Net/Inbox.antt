-- ===== src/Net/Inbox.antt =====
-- The double queues between the threads of the network and the thread of a server: the received
-- messages of common/tcpserver.cpp and common/tcpclient.cpp, and the calls of common/call_back.cpp. The
-- mutexes make each push and each swap of the queues one step; the loop of a poll takes one entry at a
-- time, and pushes may come between its rounds.
pub mod Order
use hardware_server.Prelude.{Bool, true, false, not, List, [], ◌∷◌, ◌++◌, if◌then◌else◌}

-- `polling` tells that the loop is running, and `freed` holds what it has taken out, in its order, with
-- whether it was processed.
pub record Inbox {ℓ} (A : Type ℓ) : Type ℓ where
  pub queue_0 : List A
  pub queue_1 : List A
  pub current_is_1 : Bool
  pub polling : Bool
  pub freed : List (A × Bool)

module _ {ℓ} {A : Type ℓ} where
  abbrev pub no_messages : Inbox A
  no_messages = record {
    queue_0 = [];
    queue_1 = [];
    current_is_1 = false;
    polling = false;
    freed = [];
  }

  -- The queue that is filled, and the one that is emptied.
  abbrev pub filled : Inbox A → List A
  filled q = if q.current_is_1 then q.queue_1 else q.queue_0

  abbrev pub drained : Inbox A → List A
  drained q = if q.current_is_1 then q.queue_0 else q.queue_1

  -- push_message and add_cb
  unfoldable pub push_message : Inbox A → A → Inbox A
  push_message q x =
      if q.current_is_1
      then record q { queue_1 = q.queue_1 ++ x ∷ [] }
      else record q { queue_0 = q.queue_0 ++ x ∷ [] }

  abbrev pub swap_if : List A → Inbox A → Inbox A
  swap_if [] q = q
  swap_if (x ∷ xs) q = record q { current_is_1 = not q.current_is_1; polling = true }

  -- The beginning of a poll: an empty queue is left as it is.
  unfoldable pub begin_poll : Inbox A → Inbox A
  begin_poll q = swap_if (filled q) q

  -- The body of the loop for what is left of the queue.
  abbrev pub pop_front : List A → Bool → Inbox A → Inbox A
  pop_front [] lives q = record q { polling = false }
  pop_front (x ∷ xs) lives q =
      if q.current_is_1
      then record q { queue_0 = xs; freed = q.freed ++ (x, lives) ∷ [] }
      else record q { queue_1 = xs; freed = q.freed ++ (x, lives) ∷ [] }

  -- One test of the loop with its body. A server processes a message if the session is still valid and
  -- connected, which `lives` tells; a client and the calls process each.
  unfoldable pub poll_round : Inbox A → Bool → Inbox A
  poll_round q lives = pop_front (drained q) lives q

pub data InboxEvent {ℓ} (A : Type ℓ) : Type ℓ where
  pushed : A → InboxEvent A
  polled : InboxEvent A
  round : Bool → InboxEvent A

module _ {ℓ} {A : Type ℓ} where
  -- A server polls again only when its loop is over.
  unfoldable pub inbox_step : Inbox A → InboxEvent A → Inbox A
  unfolding push_message begin_poll poll_round
  inbox_step q (pushed x) = push_message q x
  inbox_step q polled = if q.polling then q else begin_poll q
  inbox_step q (round lives) = if q.polling then poll_round q lives else q

  unfoldable pub inbox_run : Inbox A → List (InboxEvent A) → Inbox A
  unfolding inbox_step
  inbox_run q [] = q
  inbox_run q (e ∷ es) = inbox_run (inbox_step q e) es
