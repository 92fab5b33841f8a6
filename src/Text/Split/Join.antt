-- ===== src/Text/Split/Join.antt =====
-- SplitStringA on a text that was joined with a delimiter of one byte, as all its callers use it.
use hardware_server.Prelude.{
  ℕ, zero, suc, ◌+◌, ◌-◌, ◌≤◌, ◌<◌, ◌≡◌, refl, ◌∙◌, ap, sym, subst, List, [], ◌∷◌, ◌++◌, none, some,
  true, false, ltb, length, take, drop, arith, length-append, append_assoc, All,
}
use hardware_server.Prelude.Text.{Text, is_empty_text, contains}
use hardware_server.Text.Split.{
  starts_with, shift, index_of, find_at, positions, substr, push_back, pieces_behind, cut,
  split_string,
}

-- The texts with the delimiter between them.
abbrev pub join : ℕ → Text → List Text → Text
join c w [] = w
join c w (v ∷ vs) = w ++ c ∷ join c v vs

-- Those texts of a list that are not empty.
abbrev pub filled : List Text → List Text
filled [] = []
filled (w ∷ ws) = push_back w (filled ws)

abbrev pub Without : ℕ → Text → Type 0
Without c w = contains c w ≡ false

drop-append {ℓ} : {A : Type ℓ} (l r : List A) → drop (length l) (l ++ r) ≡ r
drop-append [] r = refl
drop-append (x ∷ l) r = drop-append l r

take-append {ℓ} : {A : Type ℓ} (l r : List A) → take (length l) (l ++ r) ≡ l
take-append [] r = refl
take-append (x ∷ l) r = ap (λ t. x ∷ t) (take-append l r)

index_of-Without : (c : ℕ) (w : Text) → Without c w → index_of (c ∷ []) w ≡ none
unfolding index_of starts_with
index_of-Without c [] h = refl
index_of-Without c (x ∷ w) h = ground (arith, index_of-Without c w)

index_of-found :
    (c : ℕ) (w r : Text) → Without c w → index_of (c ∷ []) (w ++ c ∷ r) ≡ some (length w)
unfolding index_of starts_with
index_of-found c [] r h = ground arith
index_of-found c (x ∷ w) r h = ground (arith, index_of-found c w r)

find_at-behind :
    (c : ℕ) (l r : Text)
    → find_at (l ++ r) (c ∷ []) (length l) ≡ shift (length l) (index_of (c ∷ []) r)
unfolding find_at
find_at-behind c l r =
    let inside : ltb (length (l ++ r)) (length l) ≡ false = ground (arith, length-append l r) in
    rw (inside, drop-append l r)

-- The places of the delimiters, where the first text begins at `base`.
abbrev places : ℕ → Text → List Text → List ℕ
places base w [] = []
places base w (v ∷ vs) = (base + length w) ∷ places (base + length w + 1) v vs

regroup : (c : ℕ) (l w r : Text) → l ++ (w ++ c ∷ r) ≡ ((l ++ w) ++ c ∷ []) ++ r
regroup c l w r = simp append_assoc

length-regroup : (c : ℕ) (l w : Text) → length ((l ++ w) ++ c ∷ []) ≡ length l + length w + 1
length-regroup c l w = omega (arith, length-append l w, length-append (l ++ w) (c ∷ []))

positions-join :
    (c f : ℕ) (l w : Text) (ws : List Text)
    → length ws < f
    → All (Without c) (w ∷ ws)
    → positions f (l ++ join c w ws) (c ∷ []) (find_at (l ++ join c w ws) (c ∷ []) (length l))
      ≡ places (length l) w ws
unfolding positions
positions-join c zero l w ws h free = absurd (omega arith)
positions-join c (suc f) l w [] h free = rw (find_at-behind c l w, index_of-Without c w free.0)
positions-join c (suc f) l w (v ∷ vs) h free =
    let found : find_at (l ++ (w ++ c ∷ join c v vs)) (c ∷ []) (length l)
        ≡ some (length l + length w) =
      rw (find_at-behind c l (w ++ c ∷ join c v vs), index_of-found c w (join c v vs) free.0) in
    let next = positions-join c f ((l ++ w) ++ c ∷ []) v vs (omega arith) free.1 in
    rw found (
      ap (λ t. (length l + length w) ∷ t)
        (subst
          (λ n.
            positions f (l ++ (w ++ c ∷ join c v vs)) (c ∷ [])
              (find_at (l ++ (w ++ c ∷ join c v vs)) (c ∷ []) n)
            ≡ places n v vs)
          (length-regroup c l w)
          (subst
            (λ t.
              positions f t (c ∷ []) (find_at t (c ∷ []) (length ((l ++ w) ++ c ∷ [])))
              ≡ places (length ((l ++ w) ++ c ∷ [])) v vs)
            (sym (regroup c l w (join c v vs))) next)))

pieces_behind-join :
    (c prev : ℕ) (l w : Text) (ws : List Text)
    → length l ≡ prev + 1
    → pieces_behind (l ++ join c w ws) 1 prev (places (length l) w ws) ≡ filled (w ∷ ws)
unfolding pieces_behind
pieces_behind-join c prev l [] [] h =
    let outside : ltb (prev + 1) (length (l ++ [])) ≡ false = ground (arith, length-append l []) in
    rw outside
pieces_behind-join c prev l (x ∷ w) [] h =
    let inside : ltb (prev + 1) (length (l ++ x ∷ w)) ≡ true =
      ground (arith, length-append l (x ∷ w)) in
    rw (inside, sym h, drop-append l (x ∷ w))
pieces_behind-join c prev l w (v ∷ vs) h =
    let inside : ltb (prev + 1) (length (l ++ (w ++ c ∷ join c v vs))) ≡ true =
      ground (arith, length-append l (w ++ c ∷ join c v vs), length-append w (c ∷ join c v vs)) in
    let width : length l + length w - prev - 1 ≡ length w = omega arith in
    let piece : substr (l ++ (w ++ c ∷ join c v vs)) (prev + 1) (length w) ≡ w =
      rw (sym h, drop-append l (w ++ c ∷ join c v vs)) (take-append w (c ∷ join c v vs)) in
    let next =
      pieces_behind-join c (length l + length w) ((l ++ w) ++ c ∷ []) v vs (length-regroup c l w) in
    let later : pieces_behind (l ++ (w ++ c ∷ join c v vs)) 1 (length l + length w)
          (places (length l + length w + 1) v vs)
        ≡ filled (v ∷ vs) =
      rw (regroup c l w (join c v vs), sym (length-regroup c l w)) next in
    rw (inside, width, piece, later)

length-places : (base : ℕ) (w : Text) (ws : List Text) → length (places base w ws) ≡ length ws
length-places base w [] = refl
length-places base w (v ∷ vs) = ap suc (length-places (base + length w + 1) v vs)

length-le-join : (c : ℕ) (w : Text) (ws : List Text) → length ws ≤ length (join c w ws)
length-le-join c w [] = omega arith
length-le-join c w (v ∷ vs) =
    omega (arith, length-le-join c v vs, length-append {0} w (c ∷ join c v vs))

not-empty : (c : ℕ) (w r : Text) → is_empty_text (w ++ c ∷ r) ≡ false
not-empty c [] r = refl
not-empty c (x ∷ w) r = refl

-- Texts that do not hold the one byte that is the delimiter, two or more, are split as they were joined
-- with that byte between them: the pieces are those that are not empty, in their order, and the number
-- that is returned is that of the delimiters.
pub split_string-join :
    (c : ℕ) (w v : Text) (vs : List Text)
    → All (Without c) (w ∷ v ∷ vs)
    → split_string (join c w (v ∷ vs)) (c ∷ []) ≡ (filled (w ∷ v ∷ vs), suc (length vs))
unfolding split_string
split_string-join c w v vs free =
    let text = w ++ c ∷ join c v vs in
    let start : 0 + length w ≡ length w = omega arith in
    let found : find_at text (c ∷ []) 0 ≡ some (length w) =
      find_at-behind c [] text
      ∙ ap (shift 0) (index_of-found c w (join c v vs) free.0)
      ∙ ap some start in
    let fuel : suc (length vs) < suc (length text) =
      omega (arith, length-append {0} w (c ∷ join c v vs), length-le-join c v vs) in
    let all : positions (suc (length text)) text (c ∷ []) (some (length w))
        ≡ length w ∷ places (length w + 1) v vs =
      ap (positions (suc (length text)) text (c ∷ [])) (sym found)
      ∙ positions-join c (suc (length text)) [] w (v ∷ vs) fuel free
      ∙ ap (λ n. n ∷ places (n + 1) v vs) start in
    let behind = pieces_behind-join c (length w) (w ++ c ∷ []) v vs (length-append w (c ∷ [])) in
    let later : pieces_behind text 1 (length w) (places (length w + 1) v vs) ≡ filled (v ∷ vs) =
      subst (λ n. pieces_behind text 1 (length w) (places n v vs) ≡ filled (v ∷ vs))
        (length-append w (c ∷ []))
        (subst
          (λ t. pieces_behind t 1 (length w) (places (length (w ++ c ∷ [])) v vs) ≡ filled (v ∷ vs))
          (append_assoc w (c ∷ []) (join c v vs)) behind) in
    let count : length (places (length w + 1) v vs) ≡ length vs =
      length-places (length w + 1) v vs in
    let front : cut text 1 (length w ∷ places (length w + 1) v vs) ≡ filled (w ∷ v ∷ vs) =
      rw (take-append w (c ∷ join c v vs), later) in
    rw (not-empty c w (join c v vs), found)
      (ap (λ ps. (cut text 1 ps, length ps)) all
        ∙ ap (λ ps. (ps, suc (length (places (length w + 1) v vs)))) front
        ∙ ap (λ n. (filled (w ∷ v ∷ vs), suc n)) count)

-- A text without the delimiter is its own only piece.
pub split_string-whole :
    (c : ℕ) (w : Text)
    → is_empty_text w ≡ false
    → Without c w
    → split_string w (c ∷ []) ≡ (w ∷ [], 1)
unfolding split_string
split_string-whole c w h free =
    let missing : find_at w (c ∷ []) 0 ≡ none =
      find_at-behind c [] w ∙ ap (shift 0) (index_of-Without c w free) in
    rw (h, missing)
