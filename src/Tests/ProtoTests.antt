-- ===== src/Tests/ProtoTests.antt =====
-- Messages of one type, "A.B", whose bytes are the message.
use hardware_server.Prelude.{
  ℕ, ◌≤◌, ◌≡◌, refl, none, some, List, [], ◌∷◌, ◌++◌, arith, inl, All, concat, map, length, take,
  drop, if◌then◌else◌,
}
use hardware_server.Prelude.Text.{Text, codes}
use hardware_server.Prelude.TextMap.{same_text}
use hardware_server.Net.{Head}
use hardware_server.Net.Frames.{compress, make_message, pack}
use hardware_server.Net.Stream.{keep, receive}
use hardware_server.Net.Stream.RoundTrip.{frame_of}
use hardware_server.Net.Proto.{
  ProtocolBuffers, pushed, envelope, push_protoc_message, called, parse_protoc_message,
}
use hardware_server.Net.Proto.Threads.{thread_requests, one_thread_buffer}
use hardware_server.Net.Proto.RoundTrip.{Understood, parse-push}
use hardware_server.Net.Proto.Delivery.{pushed_as, Deliverable, calls-delivered}

abbrev checksum : List ℕ → ℕ
checksum bytes = 305419896

abbrev memory : Head
memory = record { len = 7; mask_low = 200; mask_high = 3; crc = 9 }

abbrev name : Text
name = codes "A.B"

abbrev one_type : ProtocolBuffers (List ℕ)
one_type = record {
  type_name = λ m. name;
  serialize = λ m. m;
  find_message_type = λ n. if same_text n name then some (λ bytes. some bytes) else none;
}

abbrev understood : (m : List ℕ) → Understood one_type m
understood m = record { parse_from_array = λ bytes. some bytes; found = refl; parsed = refl }

parse-push_example :
    (bytes : List ℕ) × (push_protoc_message one_type 0 (5 ∷ 6 ∷ []) 77 ≡ pushed bytes)
    × (bytes ≡ envelope 77 name ++ 5 ∷ 6 ∷ [])
    × (parse_protoc_message one_type (1 ∷ 2 ∷ []) bytes ≡ called (5 ∷ 6 ∷ []) 77)
parse-push_example =
    parse-push one_type 0 (1 ∷ 2 ∷ []) 77 (5 ∷ 6 ∷ []) (understood (5 ∷ 6 ∷ [])) (omega arith)
      (omega arith) (omega arith) (inl refl)

one_thread_buffer_example : All (λ i. i ≡ 0) (thread_requests [] (7 ∷ 8 ∷ 9 ∷ []))
one_thread_buffer_example =
    one_thread_buffer (7 ∷ 8 ∷ 9 ∷ []) (omega arith, (omega arith, (omega arith, tt)))

abbrev sent_messages : List (Head × (List ℕ × ℕ))
sent_messages = (memory, ((5 ∷ []), 77)) ∷ (memory, ([], 78)) ∷ []

abbrev stream : List ℕ
stream = concat (map (frame_of none checksum) (map (pushed_as one_type) sent_messages))

abbrev is_deliverable :
    (m : List ℕ) (flag : ℕ) → length m ≤ 100 → flag ≤ 100 → Deliverable one_type (memory, (m, flag))
is_deliverable m flag short small = record {
  clear = (omega arith, omega arith);
  understood = understood m;
  flag = omega arith;
  named = omega arith;
  short = omega arith;
}

calls-delivered_example :
    (ms : List (List ℕ)) × (receive none [] (take 5 stream ∷ drop 5 stream ∷ []) ≡ keep ms [])
    × (map (parse_protoc_message one_type (1 ∷ [])) ms ≡ called (5 ∷ []) 77 ∷ called [] 78 ∷ [])
unfolding compress make_message pack
calls-delivered_example =
    calls-delivered one_type none checksum (1 ∷ []) sent_messages
      (take 5 stream ∷ drop 5 stream ∷ []) tt
      (
        is_deliverable (5 ∷ []) 77 (omega arith) (omega arith),
        (is_deliverable [] 78 (omega arith) (omega arith), tt),
      )
      refl
