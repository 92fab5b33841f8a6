-- ===== src/Net/Stream/RoundTrip.antt =====
-- What one side sends, the other side receives.
use hardware_server.Prelude.{
  ℕ, suc, ◌+◌, ◌≤◌, ◌<◌, ◌≡◌, refl, ◌∙◌, ap, Option, List, [], ◌∷◌, ◌++◌, map, arith, length,
  length-append, take, drop, All, concat, none, ltb, true,
}
use hardware_server.Net.{message_head_len, max_message_len, get32, CompressStrategy, Head}
use hardware_server.Net.Frames.{compress, uncompress, make_message, pack}
use hardware_server.Net.Frames.RoundTrip.{
  IsLossless, IsClear, Fits, IsFrame, compress-IsFrame, get32-put32,
}
use hardware_server.Net.Stream.{
  keep, push, push_message, is_bad_len, read_loop, read_buffer, receive, closed, hack_packet,
}
use hardware_server.Net.Stream.Loop.{read_ready-append, read_loop_fuel, read_short, read_bad}
use hardware_server.Net.Stream.Chunks.{receive-concat}

-- A message with the memory that its frame is made in.
abbrev pub Sendable : Head × List ℕ → Type 0
Sendable (h, bytes) = IsClear h × Fits bytes

abbrev pub frame_of : Option CompressStrategy → (List ℕ → ℕ) → Head × List ℕ → List ℕ
frame_of s checksum (h, bytes) = compress s h checksum bytes

abbrev pub bytes_of : Head × List ℕ → List ℕ
bytes_of (h, bytes) = bytes

take-length : (xs : List ℕ) → take (length xs) xs ≡ xs
take-length [] = refl
take-length (x ∷ xs) = ap (λ l. x ∷ l) (take-length xs)

drop-length : (xs : List ℕ) → drop (length xs) xs ≡ []
drop-length [] = refl
drop-length (x ∷ xs) = drop-length xs

read_buffer-IsFrame :
    (s : Option CompressStrategy) (frame bytes rest : List ℕ)
    → IsFrame s frame bytes
    → read_buffer s (frame ++ rest) ≡ push bytes (read_buffer s rest)
unfolding read_buffer
read_buffer-IsFrame s frame bytes rest f =
    let len : get32 frame ≡ length frame = f.len in
    let cut : take (get32 frame) frame ≡ frame = ap (λ k. take k frame) len ∙ take-length frame in
    let left : drop (get32 frame) frame ≡ [] = ap (λ k. drop k frame) len ∙ drop-length frame in
    let low : message_head_len ≤ length frame = f.low in
    let high : length frame ≤ max_message_len = f.high in
    read_ready-append s (length (frame ++ rest)) frame rest low (ground arith) (omega arith)
    ∙ ap
        (λ l.
          push_message (uncompress s l)
            (read_loop s (length (frame ++ rest)) (drop (get32 frame) frame ++ rest)))
        cut
    ∙ ap (λ l. push_message (uncompress s frame) (read_loop s (length (frame ++ rest)) (l ++ rest)))
        left
    ∙ ap (λ o. push_message o (read_loop s (length (frame ++ rest)) rest)) f.body
    ∙ ap (push bytes) (
        read_loop_fuel s (length (frame ++ rest)) (suc (length rest)) rest
          (omega (arith, length-append frame rest)) (omega arith))

read_buffer-sent :
    (s : Option CompressStrategy) (checksum : List ℕ → ℕ) (out : List (Head × List ℕ))
    → IsLossless s
    → All Sendable out
    → read_buffer s (concat (map (frame_of s checksum) out)) ≡ keep (map bytes_of out) []
read_buffer-sent s checksum [] law fine = unfold read_buffer in read_short s 0 [] (omega arith)
read_buffer-sent s checksum ((h, bytes) ∷ out) law fine =
    read_buffer-IsFrame s (compress s h checksum bytes) bytes
      (concat (map (frame_of s checksum) out))
      (compress-IsFrame s h checksum bytes law fine.0.0 fine.0.1)
    ∙ ap (push bytes) (read_buffer-sent s checksum out law fine.1)

-- However the frames of some messages are cut into chunks on their way, the receiver gets exactly
-- those messages, in their order, and no byte stays behind: for messages of two to 64990 bytes, made
-- in memory without the bit of a compressed message, and a compression, if any, that can be undone.
pub receive-sent :
    (s : Option CompressStrategy) (checksum : List ℕ → ℕ) (out : List (Head × List ℕ))
    (chunks : List (List ℕ))
    → IsLossless s
    → All Sendable out
    → concat chunks ≡ concat (map (frame_of s checksum) out)
    → receive s [] chunks ≡ keep (map bytes_of out) []
receive-sent s checksum out chunks law fine same =
    receive-concat s chunks ∙ ap (read_buffer s) same ∙ read_buffer-sent s checksum out law fine

long_len :
    (h : Head) (checksum : List ℕ → ℕ) (bytes rest : List ℕ)
    → 64990 < length bytes
    → length bytes ≤ 64999
    → let stream = compress none h checksum bytes ++ rest in
      (message_head_len ≤ length stream) × (is_bad_len (get32 stream) ≡ true)
unfolding compress make_message pack
long_len h checksum bytes rest long short =
    let more : ltb 1 (length bytes) ≡ true = ground arith in
    let read = get32-put32 (length bytes + 10) [] (omega arith) in
    rw more (omega arith, rw read (ground arith))

-- An uncompressed message of 64991 to 64999 bytes, the longest that can be sent, makes the receiver
-- close the session for a length out of range, whatever follows.
pub long_message_banned :
    (s : Option CompressStrategy) (h : Head) (checksum : List ℕ → ℕ) (bytes rest : List ℕ)
    → 64990 < length bytes
    → length bytes ≤ 64999
    → read_buffer s (compress none h checksum bytes ++ rest) ≡ closed [] hack_packet
unfolding read_buffer
long_message_banned s h checksum bytes rest long short =
    let (whole, bad) = long_len h checksum bytes rest long short in
    read_bad s (length (compress none h checksum bytes ++ rest)) _ whole bad
