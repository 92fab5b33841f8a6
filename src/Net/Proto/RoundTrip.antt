-- ===== src/Net/Proto/RoundTrip.antt =====
-- A message that is pushed is parsed again, and reaches its callback.
use hardware_server.Prelude.{
  ℕ, suc, ◌+◌, ◌-◌, ◌≤◌, ◌<◌, ◌≡◌, refl, ap, ◌∙◌, true, false, Option, some, List, ◌∷◌, ◌++◌, ltb,
  leb, ◌==◌, length, length-append, take, drop, take-length, drop-length, append_assoc, arith, ◌⊎◌,
}
use hardware_server.Net.{put32}
use hardware_server.Net.Frames.RoundTrip.{get32-put32}
use hardware_server.Net.Proto.{
  ProtocolBuffers, get_thread_buffer, pushed, envelope, max_len, push_protoc_message, called,
  parse_name, parse_protoc_message,
}

-- The generated class for the type of a message reads what the message has been written as.
pub record Understood {M : Type 0} (pb : ProtocolBuffers M) (m : M) : Type 0 where
  pub parse_from_array : List ℕ → Option M
  pub found : pb.find_message_type (pb.type_name m) ≡ some parse_from_array
  pub parsed : parse_from_array (pb.serialize m) ≡ some m

get_thread_buffer-room :
    (size maxlen : ℕ)
    → (size ≡ 0) ⊎ (65000 ≤ size)
    → 0 < maxlen
    → maxlen < 65000
    → 65000 ≤ get_thread_buffer size maxlen
unfolding get_thread_buffer
get_thread_buffer-room size maxlen sized some_room small = ground arith

module _ {M : Type 0} (pb : ProtocolBuffers M) where
  parse_name-envelope :
      (stale : List ℕ) (a b c d e f g h : ℕ) (flag : ℕ) (m : M)
      → Understood pb m
      → 0 < length (pb.type_name m)
      → parse_name pb stale
          (a ∷ b ∷ c ∷ d ∷ e ∷ f ∷ g ∷ h ∷ (pb.type_name m ++ pb.serialize m))
          flag
          (length (pb.type_name m))
          8
        ≡ called m flag
  unfolding parse_name
  parse_name-envelope stale a b c d e f g h flag m u named =
      let name = pb.type_name m in
      let body = pb.serialize m in
      let bytes = a ∷ b ∷ c ∷ d ∷ e ∷ f ∷ g ∷ h ∷ (name ++ body) in
      let size : length (name ++ body) ≡ length name + length body = length-append name body in
      let enough : ltb (length bytes) (length name) ≡ false = ground (arith, size) in
      let some_name : (length name == 0) ≡ false = ground (arith, named) in
      let inside : ltb (length bytes) (8 + length name) ≡ false = ground (arith, size) in
      let name_cut : take (length name) ((name ++ body) ++ stale) ≡ name =
        ap (take (length name)) (append_assoc name body stale) ∙ take-length name (body ++ stale) in
      let n = length name in
      let eight : 8 + n ≡ suc (suc (suc (suc (suc (suc (suc (suc n))))))) = omega arith in
      let body_cut : drop (8 + n) bytes ≡ body =
        ap (λ k. drop k bytes) eight ∙ drop-length name body in
      rw (enough, some_name, name_cut, u.found, inside, body_cut, u.parsed) refl

  pub parse-envelope :
      (stale : List ℕ) (flag : ℕ) (m : M)
      → Understood pb m
      → flag < 4294967296
      → 0 < length (pb.type_name m)
      → length (pb.type_name m) < 4294967296
      → parse_protoc_message pb stale (envelope flag (pb.type_name m) ++ pb.serialize m)
        ≡ called m flag
  unfolding parse_protoc_message
  parse-envelope stale flag m u small named short =
      let name = pb.type_name m in
      let rest = name ++ pb.serialize m in
      let bytes = put32 flag ++ (put32 (length name) ++ rest) in
      let size : length rest ≡ length name + length (pb.serialize m) =
        length-append name (pb.serialize m) in
      let first : (4 == length bytes) ≡ false = ground arith in
      let there : (length bytes == 0) ≡ false = ground arith in
      let whole : ltb (length bytes) 8 ≡ false = ground arith in
      let four : ltb (length bytes) 4 ≡ false = ground arith in
      let second : (8 == length bytes) ≡ false = ground (arith, size, named) in
      let flag_read = get32-put32 flag (put32 (length name) ++ rest) small in
      let len_read = get32-put32 (length name) rest short in
      rw (first, there, whole, four, second, flag_read, len_read)
        (parse_name-envelope stale _ _ _ _ _ _ _ _ flag m u named)

  -- A message whose flag, name and serialized bytes take less than 65000 bytes together with the four
  -- bytes for the length of the name is pushed and not refused, while the buffer for sending is not there
  -- yet or has at least 65000 bytes: the flag, the length of the name and the name are pushed in front of
  -- the serialized message. These bytes are parsed as that message with its flag, whatever the buffer for
  -- receiving holds behind them. The flag has 32 bits, the name is not empty, and the receiver has the
  -- generated class for it, which reads what the message is serialized as.
  pub parse-push :
      (size : ℕ) (stale : List ℕ) (flag : ℕ) (m : M)
      → Understood pb m
      → flag < 4294967296
      → 0 < length (pb.type_name m)
      → 8 + length (pb.type_name m) + length (pb.serialize m) < 65000
      → (size ≡ 0) ⊎ (65000 ≤ size)
      → (bytes : List ℕ) × (push_protoc_message pb size m flag ≡ pushed bytes)
        × (bytes ≡ envelope flag (pb.type_name m) ++ pb.serialize m)
        × (parse_protoc_message pb stale bytes ≡ called m flag)
  unfolding push_protoc_message get_thread_buffer
  parse-push size stale flag m u small named fits sized =
      let head = envelope flag (pb.type_name m) in
      let bytes = head ++ pb.serialize m in
      let needed : max_len pb m ≡ 4 + length (pb.type_name m) + length (pb.serialize m) =
        omega arith in
      let room : 65000 ≤ get_thread_buffer size (max_len pb m) =
        get_thread_buffer-room size (max_len pb m) sized (omega (arith, needed))
          (omega (arith, needed)) in
      let writes : leb (get_thread_buffer size (max_len pb m)) (length head) ≡ false =
        ground (arith, room) in
      let serializes : leb (length (pb.serialize m))
            (get_thread_buffer size (max_len pb m) - length head)
          ≡ true =
        ground (arith, room) in
      (
        bytes,
        rw (writes, serializes) refl,
        refl,
        parse-envelope stale flag m u small named (omega arith),
      )
