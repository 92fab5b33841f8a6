-- ===== src/Net/Stream/Chunks.antt =====
-- How the bytes are cut into chunks does not matter.
use hardware_server.Prelude.{
  ℕ, zero, suc, ◌*◌, ◌≤◌, ◌<◌, ◌≡◌, refl, ◌∙◌, ap, sym, Option, none, some, List, [], ◌∷◌, ◌++◌,
  arith, ltb, length, length-append, take, drop, inl, inr, Bool-cases, append_assoc, append-nil,
  subst, concat,
}
use hardware_server.Net.{message_head_len, max_message_len, get32, CompressStrategy}
use hardware_server.Net.Frames.{uncompress}
use hardware_server.Net.Stream.{
  Received, keep, closed, push, push_message, is_bad_len, read_loop, read_buffer, proceed, receive,
}
use hardware_server.Net.Stream.Loop.{
  length-drop, read_loop_fuel, proceed-push_message, read_short, read_bad, read_wait, read_ready,
  read_ready-append, good_len, get32-append,
}

-- The loop over more bytes is the loop over the first of them, and then over what stays of them
-- with the others.
read_loop-append :
    (s : Option CompressStrategy) (n : ℕ) (buffer more : List ℕ)
    → length buffer < n
    → read_buffer s (buffer ++ more)
      ≡ proceed (read_loop s n buffer) (λ rest. read_buffer s (rest ++ more))
unfolding read_buffer
read_loop-append s zero buffer more h = absurd (omega arith)
read_loop-append s (suc n) buffer more h =
    elim (Bool-cases (ltb (length buffer) message_head_len)) [
      | inl short ↦ rw (read_short s n buffer (ground arith))
      | inr whole ↦
          let total = length-append buffer more in
          let same = get32-append buffer more (ground arith) in
          elim (Bool-cases (is_bad_len (get32 buffer))) [
            | inl bad ↦ rw (
              read_bad s n buffer (ground arith) bad,
              read_bad s (length (buffer ++ more)) (buffer ++ more) (ground arith) (rw same bad),
            )
            | inr good ↦ elim (Bool-cases (ltb (length buffer) (get32 buffer))) [
              | inl wait ↦ rw (read_wait s n buffer good (ground arith))
              | inr ready ↦
                  let fits : get32 buffer ≤ length buffer = ground arith in
                  let rest = drop (get32 buffer) buffer in
                  let cut = length-drop (get32 buffer) buffer fits in
                  let some_taken = good_len (get32 buffer) good in
                  let read = uncompress s (take (get32 buffer) buffer) in
                  read_ready-append s (length (buffer ++ more)) buffer more (ground arith) good fits
                  ∙ ap (push_message read) (
                      read_loop_fuel s (length (buffer ++ more)) (suc (length (rest ++ more)))
                        (rest ++ more) (omega (arith, total, length-append rest more))
                        (omega arith))
                  ∙ ap (push_message read) (read_loop-append s n rest more (omega arith))
                  ∙ sym (proceed-push_message read (read_loop s n rest) _)
                  ∙ ap (λ r. proceed r (λ rest. read_buffer s (rest ++ more)))
                      (sym (read_ready s n buffer good fits))
            ]
          ]
    ]

-- The bytes that stay hold no whole message, and are fewer than the longest message.
abbrev pub Rests : Option CompressStrategy → List ℕ → Type 0
Rests s rest = (read_buffer s rest ≡ keep [] rest) × (length rest < max_message_len)

abbrev pub Stays : Option CompressStrategy → Received → Type 0
Stays s (keep ms rest) = Rests s rest
Stays s (closed ms fault) = Unit

push_message-Stays :
    (s : Option CompressStrategy) (o : Option (List ℕ)) (r : Received)
    → Stays s r
    → Stays s (push_message o r)
push_message-Stays s none r h = tt
push_message-Stays s (some m) (keep ms rest) h = h
push_message-Stays s (some m) (closed ms fault) h = h

read_loop-Stays :
    (s : Option CompressStrategy) (n : ℕ) (buffer : List ℕ)
    → length buffer < n
    → Stays s (read_loop s n buffer)
unfolding read_buffer
read_loop-Stays s zero buffer h = absurd (omega arith)
read_loop-Stays s (suc n) buffer h = elim (Bool-cases (ltb (length buffer) message_head_len)) [
  | inl short ↦
      let e = read_short s n buffer (ground arith) in
      subst (Stays s) (sym e) (read_short s (length buffer) buffer (ground arith), ground arith)
  | inr whole ↦ elim (Bool-cases (is_bad_len (get32 buffer))) [
    | inl bad ↦ subst (Stays s) (sym (read_bad s n buffer (ground arith) bad)) tt
    | inr good ↦ elim (Bool-cases (ltb (length buffer) (get32 buffer))) [
      | inl wait ↦
          subst (Stays s) (sym (read_wait s n buffer good (ground arith)))
            (read_wait s (length buffer) buffer good (ground arith), ground arith)
      | inr ready ↦
          let cut = length-drop (get32 buffer) buffer (ground arith) in
          let some_taken = good_len (get32 buffer) good in
          subst (Stays s) (sym (read_ready s n buffer good (ground arith))) (
            push_message-Stays s (uncompress s (take (get32 buffer) buffer))
              (read_loop s n (drop (get32 buffer) buffer))
              (read_loop-Stays s n (drop (get32 buffer) buffer) (omega arith)))
    ]
  ]
]

proceed_same :
    (s : Option CompressStrategy) (r : Received) (f g : List ℕ → Received)
    → Stays s r
    → ((rest : List ℕ) → Rests s rest → f rest ≡ g rest)
    → proceed r f ≡ proceed r g
proceed_same s (keep [] rest) f g h e = e rest h
proceed_same s (keep (m ∷ ms) rest) f g h e = ap (push m) (proceed_same s (keep ms rest) f g h e)
proceed_same s (closed ms fault) f g h e = refl

receive_from :
    (s : Option CompressStrategy) (chunks : List (List ℕ)) (buffer : List ℕ)
    → Rests s buffer
    → receive s buffer chunks ≡ read_buffer s (buffer ++ concat chunks)
unfolding receive
receive_from s [] buffer h = rw (append-nil buffer) (sym h.0)
receive_from s (c ∷ cs) buffer h =
    proceed_same s (read_buffer s (buffer ++ c)) (λ rest. receive s rest cs)
      (λ rest. read_buffer s (rest ++ concat cs))
      (unfold read_buffer in
        read_loop-Stays s (suc (length (buffer ++ c))) (buffer ++ c) (omega arith))
      (λ rest k. receive_from s cs rest k)
    ∙ sym (
        unfold read_buffer in
        read_loop-append s (suc (length (buffer ++ c))) (buffer ++ c) (concat cs) (omega arith))
    ∙ ap (read_buffer s) (append_assoc buffer c (concat cs))

-- What a session receives, messages, bytes that stay or the end, depends on the bytes that come and
-- not on how they are cut into chunks.
pub receive-concat :
    (s : Option CompressStrategy) (chunks : List (List ℕ))
    → receive s [] chunks ≡ read_buffer s (concat chunks)
unfolding read_buffer
receive-concat s chunks = receive_from s chunks [] (read_short s 0 [] (omega arith), omega arith)

receive-Stays :
    (s : Option CompressStrategy) (chunks : List (List ℕ)) → Stays s (receive s [] chunks)
receive-Stays s chunks = subst (Stays s) (sym (receive-concat s chunks)) (
    unfold read_buffer in
    read_loop-Stays s (suc (length (concat chunks))) (concat chunks) (omega arith))

-- However many chunks have come, as long as the session is open the buffer of twice the longest
-- message has room for another chunk.
pub receive_room :
    (s : Option CompressStrategy) (chunks ms : List (List ℕ)) (rest chunk : List ℕ)
    → receive s [] chunks ≡ keep ms rest
    → length chunk ≤ max_message_len
    → length (rest ++ chunk) ≤ 2 * max_message_len
receive_room s chunks ms rest chunk e small =
    let stays : Rests s rest = subst (Stays s) e (receive-Stays s chunks) in
    let few : length rest < max_message_len = stays.1 in omega (arith, length-append rest chunk)
