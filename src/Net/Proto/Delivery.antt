-- ===== src/Net/Proto/Delivery.antt =====
-- Messages from the sender's pushProtocMessage through the stream of bytes to the receiver's callbacks.
use hardware_server.Prelude.{
  ℕ, ◌+◌, ◌≤◌, ◌<◌, ◌≡◌, refl, ◌∙◌, ap, Option, List, [], ◌∷◌, ◌++◌, map, arith, length,
  length-append, All, concat,
}
use hardware_server.Net.{CompressStrategy, Head}
use hardware_server.Net.Frames.RoundTrip.{IsLossless, IsClear}
use hardware_server.Net.Stream.{keep, receive}
use hardware_server.Net.Stream.RoundTrip.{Sendable, frame_of, bytes_of, receive-sent}
use hardware_server.Net.Proto.{ProtocolBuffers, envelope, Parsed, called, parse_protoc_message}
use hardware_server.Net.Proto.RoundTrip.{Understood, parse-envelope}

module _ {M : Type 0} (pb : ProtocolBuffers M) where
  -- A message and its flag as they are pushed, with the memory that the frame is made in.
  abbrev pub pushed_as : Head × (M × ℕ) → Head × List ℕ
  pushed_as (h, (m, flag)) = (h, envelope flag (pb.type_name m) ++ pb.serialize m)

  pub record Deliverable (x : Head × (M × ℕ)) : Type 0 where
    pub clear : IsClear x.0
    pub understood : Understood pb x.1.0
    pub flag : x.1.1 < 4294967296
    pub named : 0 < length (pb.type_name x.1.0)
    pub short : length (pb.type_name x.1.0) + length (pb.serialize x.1.0) ≤ 64982

  abbrev pub call_of : Head × (M × ℕ) → Parsed M
  call_of (h, (m, flag)) = called m flag

  Deliverable-Sendable : (x : Head × (M × ℕ)) → Deliverable x → Sendable (pushed_as x)
  Deliverable-Sendable (h, (m, flag)) d =
      let size = length-append (pb.type_name m) (pb.serialize m) in
      (d.clear, (omega (arith, d.named, size), omega (arith, d.short, size)))

  All-Sendable :
      (out : List (Head × (M × ℕ))) → All Deliverable out → All Sendable (map pushed_as out)
  All-Sendable [] d = tt
  All-Sendable (x ∷ out) d = (Deliverable-Sendable x d.0, All-Sendable out d.1)

  parse_items :
      (stale : List ℕ) (out : List (Head × (M × ℕ)))
      → All Deliverable out
      → map (parse_protoc_message pb stale) (map bytes_of (map pushed_as out)) ≡ map call_of out
  parse_items stale [] d = refl
  parse_items stale ((h, (m, flag)) ∷ out) d =
      let here =
        parse-envelope pb stale flag m d.0.understood d.0.flag d.0.named
          (omega (arith, d.0.short)) in
      ap (λ c. c ∷ map (parse_protoc_message pb stale) (map bytes_of (map pushed_as out))) here
      ∙ ap (λ cs. called m flag ∷ cs) (parse_items stale out d.1)

  -- However the frames of some messages are cut into chunks on their way, each message is handed to the
  -- receiver's callbacks with its flag, in the order in which they were pushed, and nothing else is. The
  -- conditions are: makeMessage gets memory for each frame in which the bit of a compressed message is not
  -- set, which the code neither clears nor checks; a name is not empty and has at most 64982 bytes
  -- together with the serialized message; a flag has 32 bits; the receiver has the generated class for the
  -- name, which reads what the message is serialized as; and a compression, if any, can be undone.
  pub calls-delivered :
      (s : Option CompressStrategy) (checksum : List ℕ → ℕ) (stale : List ℕ)
      (out : List (Head × (M × ℕ))) (chunks : List (List ℕ))
      → IsLossless s
      → All Deliverable out
      → concat chunks ≡ concat (map (frame_of s checksum) (map pushed_as out))
      → (ms : List (List ℕ)) × (receive s [] chunks ≡ keep ms [])
        × (map (parse_protoc_message pb stale) ms ≡ map call_of out)
  calls-delivered s checksum stale out chunks law fine same = (
    map bytes_of (map pushed_as out),
    receive-sent s checksum (map pushed_as out) chunks law (All-Sendable out fine) same,
    parse_items stale out fine,
  )
