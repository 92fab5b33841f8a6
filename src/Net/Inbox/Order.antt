-- ===== src/Net/Inbox/Order.antt =====
-- A double queue seen as one mailbox: which of its queues is which does not matter.
use hardware_server.Prelude.{
  ℕ, suc, ◌≡◌, refl, ap, Bool, true, false, List, [], ◌∷◌, ◌++◌, map, length, append_assoc,
  append-nil, sym, ◌∙◌, arith, if◌then◌else◌,
}
use hardware_server.Net.Inbox.{
  Inbox, no_messages, filled, drained, push_message, begin_poll, poll_round, InboxEvent, pushed,
  polled, round, inbox_step, inbox_run,
}

-- What has been taken out, what the loop still has to take out, and what waits for the next poll.
pub record Mailbox {ℓ} (A : Type ℓ) : Type ℓ where
  pub freed : List (A × Bool)
  pub batch : List A
  pub waiting : List A
  pub polling : Bool

module _ {ℓ} {A : Type ℓ} where
  abbrev pub mailbox : Inbox A → Mailbox A
  mailbox q = record { freed = q.freed; batch = drained q; waiting = filled q; polling = q.polling }

  abbrev begin_batch : List A → Mailbox A → Mailbox A
  begin_batch [] m = m
  begin_batch (x ∷ xs) m = record m { batch = x ∷ xs; waiting = m.batch; polling = true }

  abbrev take_from : List A → Bool → Mailbox A → Mailbox A
  take_from [] lives m = record m { polling = false }
  take_from (x ∷ xs) lives m = record m { batch = xs; freed = m.freed ++ (x, lives) ∷ [] }

  abbrev pub mailbox_step : Mailbox A → InboxEvent A → Mailbox A
  mailbox_step m (pushed x) = record m { waiting = m.waiting ++ x ∷ [] }
  mailbox_step m polled = if m.polling then m else begin_batch m.waiting m
  mailbox_step m (round lives) = if m.polling then take_from m.batch lives m else m

  step_fields :
      (a b : List A) (c p : Bool) (f : List (A × Bool)) (e : InboxEvent A)
      → let q : Inbox A = record {
        queue_0 = a;
        queue_1 = b;
        current_is_1 = c;
        polling = p;
        freed = f;
      } in
        mailbox (inbox_step q e) ≡ mailbox_step (mailbox q) e
  unfolding inbox_step push_message begin_poll poll_round
  step_fields a b false p f (pushed x) = refl
  step_fields a b true p f (pushed x) = refl
  step_fields a b c true f polled = refl
  step_fields [] b false false f polled = refl
  step_fields (x ∷ a) b false false f polled = refl
  step_fields a [] true false f polled = refl
  step_fields a (x ∷ b) true false f polled = refl
  step_fields a b c false f (round lives) = refl
  step_fields a [] false true f (round lives) = refl
  step_fields a (x ∷ b) false true f (round lives) = refl
  step_fields [] b true true f (round lives) = refl
  step_fields (x ∷ a) b true true f (round lives) = refl

  -- Each step of a double queue is the step of the mailbox that it stands for.
  pub inbox_step-mailbox :
      (q : Inbox A) (e : InboxEvent A) → mailbox (inbox_step q e) ≡ mailbox_step (mailbox q) e
  inbox_step-mailbox q e = step_fields q.queue_0 q.queue_1 q.current_is_1 q.polling q.freed e

  abbrev mailbox_run : Mailbox A → List (InboxEvent A) → Mailbox A
  mailbox_run m [] = m
  mailbox_run m (e ∷ es) = mailbox_run (mailbox_step m e) es

  inbox_run-mailbox :
      (q : Inbox A) (es : List (InboxEvent A))
      → mailbox (inbox_run q es) ≡ mailbox_run (mailbox q) es
  unfolding inbox_run
  inbox_run-mailbox q [] = refl
  inbox_run-mailbox q (e ∷ es) =
      inbox_run-mailbox (inbox_step q e) es ∙ ap (λ m. mailbox_run m es) (inbox_step-mailbox q e)

  -- What has been pushed, in its order, and how often the loop has tested its queue.
  abbrev pub pushes : List (InboxEvent A) → List A
  pushes [] = []
  pushes (pushed x ∷ es) = x ∷ pushes es
  pushes (polled ∷ es) = pushes es
  pushes (round lives ∷ es) = pushes es

  abbrev pub rounds : List (InboxEvent A) → ℕ
  rounds [] = 0
  rounds (pushed x ∷ es) = rounds es
  rounds (polled ∷ es) = rounds es
  rounds (round lives ∷ es) = suc (rounds es)

  abbrev pub entries : List (A × Bool) → List A
  entries fs = map (λ p. p.0) fs

  entries-snoc :
      (fs : List (A × Bool)) (x : A) (b : Bool) (ys : List A)
      → entries (fs ++ (x, b) ∷ []) ++ ys ≡ entries fs ++ x ∷ ys
  entries-snoc [] x b ys = refl
  entries-snoc (f ∷ fs) x b ys = ap (λ l. f.0 ∷ l) (entries-snoc fs x b ys)

  append-snoc : (xs : List A) (x : A) (ys : List A) → (xs ++ x ∷ []) ++ ys ≡ xs ++ x ∷ ys
  append-snoc xs x ys = append_assoc xs (x ∷ []) ys

  -- The mailbox holds `past` in its order, and between two polls there is no batch.
  record Keeps (past : List A) (m : Mailbox A) : Type ℓ where
    order : entries m.freed ++ (m.batch ++ m.waiting) ≡ past
    tidy : (if m.polling then [] else m.batch) ≡ []

  run-Keeps :
      (f : List (A × Bool)) (b w : List A) (p : Bool) (es : List (InboxEvent A))
      → (if p then [] else b) ≡ []
      → Keeps
          (entries f ++ (b ++ (w ++ pushes es)))
          (mailbox_run (record { freed = f; batch = b; waiting = w; polling = p }) es)
  run-Keeps f b w p [] t = record {
    order = ap (λ l. entries f ++ (b ++ l)) (sym (append-nil w));
    tidy = t;
  }
  run-Keeps f b w p (pushed x ∷ es) t =
      rw (sym (append-snoc w x (pushes es))) (run-Keeps f b (w ++ x ∷ []) p es t)
  run-Keeps f b w true (polled ∷ es) t = run-Keeps f b w true es t
  run-Keeps f b [] false (polled ∷ es) t = run-Keeps f b [] false es t
  run-Keeps f b (x ∷ w) false (polled ∷ es) t = rw t (run-Keeps f (x ∷ w) [] true es refl)
  run-Keeps f b w false (round lives ∷ es) t = run-Keeps f b w false es t
  run-Keeps f [] w true (round lives ∷ es) t = run-Keeps f [] w false es refl
  run-Keeps f (x ∷ b) w true (round lives ∷ es) t =
      rw (sym (entries-snoc f x lives (b ++ (w ++ pushes es))))
        (run-Keeps (f ++ (x, lives) ∷ []) b w true es refl)

  run_batch :
      (f : List (A × Bool)) (b w : List A) (es : List (InboxEvent A))
      → rounds es ≡ length b
      → let m = mailbox_run (record { freed = f; batch = b; waiting = w; polling = true }) es in
        (m.batch ≡ [])
        × (m.polling ≡ true)
        × (entries m.freed ≡ entries f ++ b)
        × (m.waiting ≡ w ++ pushes es)
  run_batch f [] w [] n = (refl, refl, sym (append-nil (entries f)), sym (append-nil w))
  run_batch f (x ∷ b) w [] n = absurd (omega (arith, n))
  run_batch f b w (pushed x ∷ es) n =
      rw (sym (append-snoc w x (pushes es))) (run_batch f b (w ++ x ∷ []) es n)
  run_batch f b w (polled ∷ es) n = run_batch f b w es n
  run_batch f [] w (round lives ∷ es) n = absurd (omega (arith, n))
  run_batch f (x ∷ b) w (round lives ∷ es) n =
      rw (sym (entries-snoc f x lives b))
        (run_batch (f ++ (x, lives) ∷ []) b w es (omega (arith, n)))

  round_ends :
      (m : Mailbox A) (lives : Bool)
      → m.batch ≡ []
      → m.polling ≡ true
      → mailbox_step m (round lives) ≡ record m { polling = false }
  round_ends m lives empty running = rw (running, empty) refl

  -- Whatever threads push and however the polls of the owner fall between, what has been pushed is, in
  -- its order, what was taken out, then what the loop still has to take, then what waits for the next
  -- poll: nothing is lost, taken twice or overtaken. Between two polls only the queue that is filled
  -- holds anything.
  pub inbox_run-order :
      (es : List (InboxEvent A))
      → let q : Inbox A = inbox_run no_messages es in
        (entries q.freed ++ (drained q ++ filled q) ≡ pushes es)
        × ((if q.polling then [] else drained q) ≡ [])
  inbox_run-order es =
      let k : Keeps (pushes es) (mailbox (inbox_run no_messages es)) =
        rw (inbox_run-mailbox no_messages es) (run-Keeps [] [] [] false es refl) in
      (k.order, k.tidy)

  -- A poll ends with the first test of its loop after as many rounds as its queue had entries when it
  -- began, whatever is pushed meanwhile, also by what it calls. It has then taken exactly those entries,
  -- and what was pushed meanwhile waits for the next poll.
  pub poll_ends :
      (q : Inbox A) (es : List (InboxEvent A)) (lives : Bool)
      → q.polling ≡ true
      → rounds es ≡ length (drained q)
      → let q' = inbox_step (inbox_run q es) (round lives) in
        (q'.polling ≡ false)
        × (entries q'.freed ≡ entries q.freed ++ drained q)
        × (filled q' ≡ filled q ++ pushes es)
  poll_ends q es lives running n =
      let start : mailbox q ≡ record (mailbox q) { polling = true } = rw running refl in
      let k = run_batch q.freed (drained q) (filled q) es n in
      let m = mailbox_run (record (mailbox q) { polling = true }) es in
      let last : mailbox (inbox_step (inbox_run q es) (round lives))
          ≡ record m { polling = false } =
        inbox_step-mailbox (inbox_run q es) (round lives)
        ∙ ap (λ x. mailbox_step x (round lives))
            (inbox_run-mailbox q es ∙ ap (λ x. mailbox_run x es) start)
        ∙ round_ends m lives k.0 k.1 in
      (
        ap (λ x. x.polling) last,
        ap (λ x. entries x.freed) last ∙ k.2,
        ap (λ x. x.waiting) last ∙ k.3,
      )
