-- ===== src/Hero/Save.antt =====
-- gameserver/DreamHero.cpp: the loops of SaveHero that write the equips and the toys of a hero into
-- `replace into` statements. A statement is the list of its pieces; the text of a row is not
-- modelled. An empty text is not sent.
use hardware_server.Prelude.{
  ℕ, suc, ◌+◌, ◌≤◌, ◌<◌, ◌≡◌, refl, ◌∙◌, ap, sym, inl, inr, Bool, true, false, List, [], ◌∷◌, ◌++◌,
  map, arith, ◌==◌, leb, ltb, if◌then◌else◌, length, length-append, append_assoc, append-nil,
  Bool-cases, All, concat,
}

-- `head` is the text up to `values`, `comma` the separator of two rows.
pub data Piece {ℓ} (A : Type ℓ) : Type ℓ where
  head : Piece A
  comma : Piece A
  row : A → Piece A

module _ {ℓ} {A : Type ℓ} where
  abbrev pub is_empty : List (Piece A) → Bool
  is_empty [] = true
  is_empty (p ∷ ps) = false

  -- `if (count == 0) sql += head; else sql += ",";` and the row
  abbrev pub append_row : List (Piece A) → ℕ → A → List (Piece A)
  append_row sql count a = sql ++ (if count == 0 then head else comma) ∷ row a ∷ []

  abbrev pub send_rest : List (List (Piece A)) → List (Piece A) → List (List (Piece A))
  send_rest sent sql = if is_empty sql then sent else sent ++ sql ∷ []

  -- The loop over the equips: at 20 rows the text is sent, and goes on growing.
  unfoldable pub save_equips_loop :
      List (List (Piece A)) → List (Piece A) → ℕ → List A → List (List (Piece A))
  save_equips_loop sent sql count [] = send_rest sent sql
  save_equips_loop sent sql count (e ∷ es) =
      let count' = if leb 20 count then 0 else count in
      save_equips_loop (if leb 20 count then sent ++ sql ∷ [] else sent) (append_row sql count' e)
        (count' + 1) es

  unfoldable pub save_equips : List A → List (List (Piece A))
  unfolding save_equips_loop
  save_equips es = save_equips_loop [] [] 0 es

  -- The loop over the toys: over 20 rows the text is sent and cleared.
  unfoldable pub save_toys_loop :
      List (List (Piece A)) → List (Piece A) → ℕ → List A → List (List (Piece A))
  save_toys_loop sent sql count [] = send_rest sent sql
  save_toys_loop sent sql count (t ∷ ts) =
      let count' = if ltb 20 count then 0 else count in
      save_toys_loop (if ltb 20 count then sent ++ sql ∷ [] else sent)
        (append_row (if ltb 20 count then [] else sql) count' t) (count' + 1) ts

  unfoldable pub save_toys : List A → List (List (Piece A))
  unfolding save_toys_loop
  save_toys ts = save_toys_loop [] [] 0 ts

  -- A statement of SQL with the rows of a list.
  abbrev more_rows : List A → List (Piece A)
  more_rows [] = []
  more_rows (a ∷ as') = comma ∷ row a ∷ more_rows as'

  abbrev pub statement : List A → List (Piece A)
  statement [] = []
  statement (a ∷ as') = head ∷ row a ∷ more_rows as'

  more_rows-snoc :
      (l : List A) (a : A) → more_rows (l ++ a ∷ []) ≡ more_rows l ++ comma ∷ row a ∷ []
  more_rows-snoc [] a = refl
  more_rows-snoc (x ∷ l) a = rw (more_rows-snoc l a)

  append_row-statement :
      (l : List A) (a : A) → append_row (statement l) (length l) a ≡ statement (l ++ a ∷ [])
  append_row-statement [] a = refl
  append_row-statement (x ∷ l) a =
      let later : (suc (length l) == 0) ≡ false = ground arith in rw (later, more_rows-snoc l a)

  -- The toys in batches: `cur` is the batch that is being filled.
  abbrev batches : List A → List A → List (List A)
  batches cur [] = if ltb 0 (length cur) then cur ∷ [] else []
  batches cur (t ∷ ts) =
      let full = batches (t ∷ []) ts in
      let room = batches (cur ++ t ∷ []) ts in if ltb 20 (length cur) then cur ∷ full else room

  concat-batches : (cur ts : List A) → concat (batches cur ts) ≡ cur ++ ts
  concat-batches [] [] = refl
  concat-batches (x ∷ cur) [] =
      let some_left : ltb 0 (suc (length cur)) ≡ true = ground arith in rw some_left
  concat-batches cur (t ∷ ts) = elim (Bool-cases (ltb 20 (length cur))) [
    | inl full ↦ rw full (ap (λ l. cur ++ l) (concat-batches (t ∷ []) ts))
    | inr room ↦ rw room (concat-batches (cur ++ t ∷ []) ts ∙ append_assoc cur (t ∷ []) ts)
  ]

  -- A batch that a statement can hold: not empty and of at most 21 rows.
  abbrev pub IsBatch : List A → Type 0
  IsBatch l = (0 < length l) × (length l ≤ 21)

  batches-IsBatch : (cur ts : List A) → length cur ≤ 21 → All IsBatch (batches cur ts)
  batches-IsBatch [] [] h = tt
  batches-IsBatch (x ∷ cur) [] h =
      let some_left : ltb 0 (suc (length cur)) ≡ true = ground arith in
      rw some_left ((omega arith, h), tt)
  batches-IsBatch cur (t ∷ ts) h = elim (Bool-cases (ltb 20 (length cur))) [
    | inl full ↦ rw full ((ground arith, h), batches-IsBatch (t ∷ []) ts (omega arith))
    | inr room ↦
        rw room (batches-IsBatch (cur ++ t ∷ []) ts (ground (arith, length-append cur (t ∷ []))))
  ]

  save_toys_from :
      (sent : List (List (Piece A))) (cur ts : List A)
      → save_toys_loop sent (statement cur) (length cur) ts ≡ sent ++ map statement (batches cur ts)
  unfolding save_toys_loop
  save_toys_from sent [] [] = sym (append-nil sent)
  save_toys_from sent (x ∷ cur) [] =
      let some_left : ltb 0 (suc (length cur)) ≡ true = ground arith in rw some_left
  save_toys_from sent cur (t ∷ ts) = elim (Bool-cases (ltb 20 (length cur))) [
    | inl full ↦ rw full (
        save_toys_from (sent ++ statement cur ∷ []) (t ∷ []) ts
        ∙ append_assoc sent (statement cur ∷ []) (map statement (batches (t ∷ []) ts)))
    | inr room ↦
        let counted : length cur + 1 ≡ length (cur ++ t ∷ []) =
          omega (arith, length-append cur (t ∷ [])) in
        rw (room, append_row-statement cur t, counted) (save_toys_from sent (cur ++ t ∷ []) ts)
  ]

  -- The toys are saved by whole statements, each of one to 21 rows, whose rows are all the toys in
  -- their order.
  pub save_toys_batches :
      (ts : List A)
      → (ls : List (List A)) × (save_toys ts ≡ map statement ls) × (concat ls ≡ ts) × All IsBatch ls
  unfolding save_toys
  save_toys_batches ts = (
    batches [] ts,
    save_toys_from [] [] ts,
    concat-batches [] ts,
    batches-IsBatch [] ts (omega arith),
  )

  save_equips_room :
      (sent : List (List (Piece A))) (sql : List (Piece A)) (count : ℕ) (e : A) (es : List A)
      → count < 20
      → save_equips_loop sent sql count (e ∷ es)
        ≡ save_equips_loop sent (append_row sql count e) (count + 1) es
  unfolding save_equips_loop
  save_equips_room sent sql count e es h =
      let room : leb 20 count ≡ false = ground arith in
      ap
        (λ b.
          save_equips_loop (if b then sent ++ sql ∷ [] else sent)
            (append_row sql (if b then 0 else count) e) ((if b then 0 else count) + 1) es)
        room

  save_equips_full :
      (sent : List (List (Piece A))) (sql : List (Piece A)) (e : A) (es : List A)
      → save_equips_loop sent sql 20 (e ∷ es)
        ≡ save_equips_loop (sent ++ sql ∷ []) (append_row sql 0 e) 1 es
  unfolding save_equips_loop
  save_equips_full sent sql e es = refl

  save_equips_end :
      (sent : List (List (Piece A))) (earlier : List (Piece A)) (b : A) (bs : List A)
      → save_equips_loop sent (earlier ++ statement (b ∷ bs)) (length (b ∷ bs)) []
        ≡ sent ++ (earlier ++ statement (b ∷ bs)) ∷ []
  unfolding save_equips_loop
  save_equips_end sent [] b bs = refl
  save_equips_end sent (p ∷ earlier) b bs = refl

  -- Rows that fit are added to the text, behind what stands there from an earlier flush.
  fill :
      (sent : List (List (Piece A))) (earlier : List (Piece A)) (cur es rest : List A)
      → length cur + length es ≤ 20
      → save_equips_loop sent (earlier ++ statement cur) (length cur) (es ++ rest)
        ≡ save_equips_loop sent (earlier ++ statement (cur ++ es)) (length (cur ++ es)) rest
  fill sent earlier cur [] rest h =
      ap (λ l. save_equips_loop sent (earlier ++ statement l) (length l) rest)
        (sym (append-nil cur))
  fill sent earlier cur (e ∷ es) rest h =
      let counted : length (cur ++ e ∷ []) ≡ length cur + 1 = length-append cur (e ∷ []) in
      let text : append_row (earlier ++ statement cur) (length cur) e
          ≡ earlier ++ statement (cur ++ e ∷ []) =
        append_assoc earlier (statement cur) _
        ∙ ap (λ l. earlier ++ l) (append_row-statement cur e) in
      save_equips_room sent _ (length cur) e (es ++ rest) (omega arith)
      ∙ ap (λ l. save_equips_loop sent l (length cur + 1) (es ++ rest)) text
      ∙ ap (λ n. save_equips_loop sent (earlier ++ statement (cur ++ e ∷ [])) n (es ++ rest))
          (sym counted)
      ∙ fill sent earlier (cur ++ e ∷ []) es rest (omega (arith, counted))
      ∙ ap (λ l. save_equips_loop sent (earlier ++ statement l) (length l) rest)
          (append_assoc cur (e ∷ []) es)

  -- Of 21 to 40 equips, 20 `es` and then `b ∷ bs`, the first statement saves the first 20, and the
  -- second text is that statement once more with a second statement behind it.
  pub save_equips_repeats :
      (es : List A) (b : A) (bs : List A)
      → length es ≡ 20
      → length bs < 20
      → save_equips (es ++ b ∷ bs) ≡ statement es ∷ (statement es ++ statement (b ∷ bs)) ∷ []
  unfolding save_equips
  save_equips_repeats es b bs full few =
      fill [] [] [] es (b ∷ bs) (omega arith)
      ∙ ap (λ n. save_equips_loop [] (statement es) n (b ∷ bs)) full
      ∙ save_equips_full [] (statement es) b bs
      ∙ ap (save_equips_loop (statement es ∷ []) (statement es ++ statement (b ∷ [])) 1)
          (sym (append-nil bs))
      ∙ fill (statement es ∷ []) (statement es) (b ∷ []) bs [] (omega arith)
      ∙ save_equips_end (statement es ∷ []) (statement es) b bs
