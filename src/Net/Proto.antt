-- ===== src/Net/Proto.antt =====
-- common/protoc_common.h with the buffers of common/thread_buffer.h: how a protocol buffer message
-- becomes bytes, and how received bytes reach the callback for the type of their message. An exception
-- is a result of its own; the asserts are left out, as in a build with NDEBUG.
pub mod Threads
pub mod RoundTrip
pub mod Delivery
use hardware_server.Prelude.{
  ℕ, ◌+◌, ◌-◌, ◌*◌, ◌/◌, ◌%◌, ◌^◌, Bool, true, false, ◌||◌, Option, none, some, List, [], ◌∷◌, ◌++◌,
  ltb, leb, ◌==◌, if◌then◌else◌, length, take, drop,
}
use hardware_server.Prelude.Text.{Text}
use hardware_server.Prelude.TextMap.{find_text, insert_text}
use hardware_server.Net.{put32, get32}

-- What is used of the library of protocol buffers for messages `M`: GetTypeName, what SerializeToArray
-- writes (ByteSize is its length), and ParseFromArray of the generated class with a name, if there is
-- one; `none` in it is the answer false.
pub record ProtocolBuffers (M : Type 0) : Type 0 where
  pub type_name : M → Text
  pub serialize : M → List ℕ
  pub find_message_type : Text → Option (List ℕ → Option M)

-- thread_packet_buffer::getThreadBuffer: the size of one of the buffers before and after a request for
-- `maxlen` bytes.
unfoldable pub get_thread_buffer : ℕ → ℕ → ℕ
get_thread_buffer size maxlen =
    if ltb size maxlen
    then (if ltb maxlen 65000 then 65000 else maxlen * 150 % 2 ^ 32 / 100)
    else size

pub data Pushed : Type 0 where
  pushed : List ℕ → Pushed
  not_pushed : Pushed
  push_throws : Pushed

-- What is written in front of the message.
abbrev pub envelope : ℕ → Text → List ℕ
envelope flag name = put32 flag ++ (put32 (length name) ++ name)

module _ {M : Type 0} (pb : ProtocolBuffers M) where
  -- max_len of pushProtocMessage, in which the flag is not counted
  abbrev pub max_len : M → ℕ
  max_len m = (4 + length (pb.type_name m) + length (pb.serialize m)) % 2 ^ 32

  -- pushProtocMessage of the message `m`, while the buffer for sending has `size` bytes. The first two
  -- writes always fit, since a buffer has at least 65000 bytes.
  unfoldable pub push_protoc_message : ℕ → M → ℕ → Pushed
  unfolding get_thread_buffer
  push_protoc_message size m flag =
      let room = get_thread_buffer size (max_len m) in
      let head = envelope flag (pb.type_name m) in
      if leb room (length head)
      then push_throws
      else if leb (length (pb.serialize m)) (room - length head)
      then pushed (head ++ pb.serialize m)
      else not_pushed

-- How parseProtocmessage ends: it returns false, throws, hands a size below zero to ParseFromArray, or
-- calls the method of its user.
pub data Parsed (M : Type 0) : Type 0 where
  not_parsed : Parsed M
  parse_throws : Parsed M
  overrun : Parsed M
  called : M → ℕ → Parsed M

-- thread_recv_buffer::read moves back to the start when it reaches the end.
abbrev pub read_end : List ℕ → ℕ → ℕ
read_end bytes pos = if pos == length bytes then 0 else pos

module _ {M : Type 0} (pb : ProtocolBuffers M) where
  abbrev pub parse_body : List ℕ → ℕ → ℕ → Option (List ℕ → Option M) → Parsed M
  parse_body bytes pos flag none = not_parsed
  parse_body bytes pos flag (some parse_from_array) =
      if ltb (length bytes) pos
      then overrun
      else elim (parse_from_array (drop pos bytes)) [ none ↦ not_parsed | some m ↦ called m flag ]

  -- `stale` is what the memory behind the received bytes holds.
  unfoldable pub parse_name : List ℕ → List ℕ → ℕ → ℕ → ℕ → Parsed M
  parse_name stale bytes flag name_len pos =
      if ltb (length bytes) name_len || name_len == 0
      then not_parsed
      else parse_body bytes (pos + name_len) flag
          (pb.find_message_type (take name_len (drop pos (bytes ++ stale))))

  unfoldable pub parse_protoc_message : List ℕ → List ℕ → Parsed M
  unfolding parse_name
  parse_protoc_message stale bytes =
      let pos = read_end bytes 4 in
      if length bytes == 0
      then not_parsed
      else if ltb (length bytes) (pos + 4) || ltb (length bytes) 4
      then parse_throws
      else parse_name stale bytes (get32 bytes) (get32 (drop pos bytes)) (read_end bytes (pos + 4))

-- ProtocMsgBase: the callbacks by the names of their messages, of which the first one stays, and the
-- default one. A callback is a number.
pub record Callbacks : Type 0 where
  pub registered : List (Text × ℕ)
  pub default_function : Option ℕ

unfoldable pub register_cb_fun : Callbacks → Text → ℕ → Callbacks
register_cb_fun c name fun = record c { registered = insert_text name fun c.registered }

-- callPBCBFun: the callback that is called
unfoldable pub call_pb_cb_fun : Callbacks → Text → Option ℕ
call_pb_cb_fun c name = elim (find_text name c.registered) [
  | none ↦ c.default_function
  | some fun ↦ some fun
]
