-- ===== src/Net/Stream/Loop.antt =====
-- The passes of the loop of handle_read_some.
use hardware_server.Prelude.{
  ℕ, zero, suc, ◌+◌, ◌≤◌, ◌<◌, ◌≡◌, refl, ◌∙◌, ap, true, false, Option, none, some, List, [], ◌∷◌,
  ◌++◌, arith, length, length-append, take, drop,
}
use hardware_server.Net.{message_head_len, get32, CompressStrategy}
use hardware_server.Net.Frames.{uncompress}
use hardware_server.Net.Stream.{
  hack_packet, Received, keep, closed, push, push_message, is_bad_len, read_loop, proceed,
}

pub get32-append : (xs ys : List ℕ) → 4 ≤ length xs → get32 (xs ++ ys) ≡ get32 xs
get32-append [] ys h = absurd (omega arith)
get32-append (a ∷ []) ys h = absurd (omega arith)
get32-append (a ∷ b ∷ []) ys h = absurd (omega arith)
get32-append (a ∷ b ∷ c ∷ []) ys h = absurd (omega arith)
get32-append (a ∷ b ∷ c ∷ d ∷ xs) ys h = refl

take-append : (n : ℕ) (xs ys : List ℕ) → n ≤ length xs → take n (xs ++ ys) ≡ take n xs
take-append zero xs ys h = refl
take-append (suc n) [] ys h = absurd (omega arith)
take-append (suc n) (x ∷ xs) ys h = ap (λ l. x ∷ l) (take-append n xs ys (omega arith))

drop-append : (n : ℕ) (xs ys : List ℕ) → n ≤ length xs → drop n (xs ++ ys) ≡ drop n xs ++ ys
drop-append zero xs ys h = refl
drop-append (suc n) [] ys h = absurd (omega arith)
drop-append (suc n) (x ∷ xs) ys h = drop-append n xs ys (omega arith)

pub length-drop : (n : ℕ) (xs : List ℕ) → n ≤ length xs → length (drop n xs) + n ≡ length xs
length-drop zero xs h = omega arith
length-drop (suc n) [] h = absurd (omega arith)
length-drop (suc n) (x ∷ xs) h = omega (arith, length-drop n xs)

-- Enough fuel is as good as any.
pub read_loop_fuel :
    (s : Option CompressStrategy) (n m : ℕ) (buffer : List ℕ)
    → length buffer < n
    → length buffer < m
    → read_loop s n buffer ≡ read_loop s m buffer
unfolding read_loop
read_loop_fuel s zero m buffer h k = absurd (omega arith)
read_loop_fuel s (suc n) zero buffer h k = absurd (omega arith)
read_loop_fuel s (suc n) (suc m) buffer h k =
    ground
      (arith, read_loop_fuel s n m (drop (get32 buffer) buffer), length-drop (get32 buffer) buffer)

proceed-push :
    (r : Received) (m : List ℕ) (next : List ℕ → Received)
    → proceed (push m r) next ≡ push m (proceed r next)
proceed-push (keep ms rest) m next = refl
proceed-push (closed ms fault) m next = refl

pub proceed-push_message :
    (o : Option (List ℕ)) (r : Received) (next : List ℕ → Received)
    → proceed (push_message o r) next ≡ push_message o (proceed r next)
proceed-push_message none r next = refl
proceed-push_message (some m) r next = proceed-push r m next

pub read_short :
    (s : Option CompressStrategy) (n : ℕ) (buffer : List ℕ)
    → length buffer < message_head_len
    → read_loop s (suc n) buffer ≡ keep [] buffer
unfolding read_loop
read_short s n buffer h = ground arith

pub read_bad :
    (s : Option CompressStrategy) (n : ℕ) (buffer : List ℕ)
    → message_head_len ≤ length buffer
    → is_bad_len (get32 buffer) ≡ true
    → read_loop s (suc n) buffer ≡ closed [] hack_packet
unfolding read_loop
read_bad s n buffer whole bad = ground arith

pub read_wait :
    (s : Option CompressStrategy) (n : ℕ) (buffer : List ℕ)
    → is_bad_len (get32 buffer) ≡ false
    → length buffer < get32 buffer
    → read_loop s (suc n) buffer ≡ keep [] buffer
unfolding read_loop
read_wait s n buffer good wait = ground arith

pub read_ready :
    (s : Option CompressStrategy) (n : ℕ) (buffer : List ℕ)
    → is_bad_len (get32 buffer) ≡ false
    → get32 buffer ≤ length buffer
    → read_loop s (suc n) buffer
      ≡ push_message
          (uncompress s (take (get32 buffer) buffer))
          (read_loop s n (drop (get32 buffer) buffer))
unfolding read_loop
read_ready s n buffer good ready = ground arith

pub read_ready-append :
    (s : Option CompressStrategy) (n : ℕ) (buffer more : List ℕ)
    → message_head_len ≤ length buffer
    → is_bad_len (get32 buffer) ≡ false
    → get32 buffer ≤ length buffer
    → read_loop s (suc n) (buffer ++ more)
      ≡ push_message
          (uncompress s (take (get32 buffer) buffer))
          (read_loop s n (drop (get32 buffer) buffer ++ more))
read_ready-append s n buffer more whole good ready =
    let same = get32-append buffer more (omega arith) in
    read_ready s n (buffer ++ more) (rw same good)
      (rw same (omega (arith, length-append buffer more)))
    ∙ ap
        (λ k.
          push_message (uncompress s (take k (buffer ++ more)))
            (read_loop s n (drop k (buffer ++ more))))
        same
    ∙ ap (λ l. push_message (uncompress s l) (read_loop s n (drop (get32 buffer) (buffer ++ more))))
        (take-append (get32 buffer) buffer more ready)
    ∙ ap (λ l. push_message (uncompress s (take (get32 buffer) buffer)) (read_loop s n l))
        (drop-append (get32 buffer) buffer more ready)

pub good_len : (len : ℕ) → is_bad_len len ≡ false → message_head_len ≤ len
good_len len good = ground arith
