-- ===== src/Tests/NetTests.antt =====
-- Short reads of a stream, and a queue of messages.
use hardware_server.Prelude.{
  ap, ℕ, zero, suc, ◌≡◌, refl, true, false, none, List, [], ◌∷◌, ◌++◌, arith, length, concat,
}
use hardware_server.Net.Stream.{keep, receive, read_buffer, handle_read_some, read_loop}
use hardware_server.Net.Stream.Chunks.{receive-concat}
use hardware_server.Net.Queue.{Sender, sent, written, sender_run}
use hardware_server.Net.Queue.Order.{sender_run-stream}
use hardware_server.Net.Queue.Progress.{completions, queue_drains}

receive-concat_example :
    receive none [] ((12 ∷ 0 ∷ []) ∷ (0 ∷ 0 ∷ 0 ∷ []) ∷ [])
    ≡ read_buffer none (12 ∷ 0 ∷ 0 ∷ 0 ∷ 0 ∷ [])
receive-concat_example = receive-concat none ((12 ∷ 0 ∷ []) ∷ (0 ∷ 0 ∷ 0 ∷ []) ∷ [])

abbrev part : List ℕ
part = 12 ∷ 0 ∷ 0 ∷ []

part_read : receive none [] (part ∷ []) ≡ keep [] part
unfolding receive handle_read_some read_buffer read_loop
part_read = refl

abbrev zeros : ℕ → List ℕ
zeros zero = []
zeros (suc n) = 0 ∷ zeros n

length-zeros : (n : ℕ) → length (zeros n) ≡ n
length-zeros zero = refl
length-zeros (suc n) = ap suc (length-zeros n)

abbrev sender : Sender
sender = record {
  queue = (1 ∷ 2 ∷ []) ∷ (3 ∷ []) ∷ [];
  not_sent_size = 8;
  is_sending_data = true;
  connected = true;
  limited = true;
  closing = false;
  writing = 5;
  wire = (0 ∷ 0 ∷ 0 ∷ 0 ∷ 0 ∷ []) ∷ [];
}

sender_run-stream_example :
    concat (sender_run sender (sent (4 ∷ []) ∷ written ∷ [])).wire
      ++ concat (sender_run sender (sent (4 ∷ []) ∷ written ∷ [])).queue
    ≡ 0 ∷ 0 ∷ 0 ∷ 0 ∷ 0 ∷ 1 ∷ 2 ∷ 3 ∷ 4 ∷ []
sender_run-stream_example = sender_run-stream sender (sent (4 ∷ []) ∷ written ∷ []) refl

queue_drains_example : (sender_run sender (completions 2)).queue ≡ []
queue_drains_example =
    queue_drains 2 sender ((1 ∷ 2 ∷ []) ∷ (3 ∷ []) ∷ []) refl refl refl
      (omega arith, (omega arith, tt)) (omega arith)
