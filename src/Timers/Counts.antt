-- ===== src/Timers/Counts.antt =====
-- The counts of references of timed events: what each operation leaves of them.
use hardware_server.Prelude.{
  one, occurs, occurs-append, ℕ, ◌+◌, ◌-◌, ◌<◌, ◌≡◌, refl, ◌∙◌, ap, sym, subst, inl, inr, List, [],
  ◌∷◌, ◌++◌, Option, none, some, Bool, true, ◌==◌, ==_iff, ltb, if◌then◌else◌, update, arith,
  Option-cases, Bool-cases,
}
use hardware_server.Timers.{
  TimedEvent, EventStore, Entry, Timers, dec_ref, event_add_event, to_remove, of_type, drop_entries,
  event_remove_events, change_entries, event_modify, new_event, time_left, period, period_and_left,
  TimerCall, add, remove, destroy, destroy_object, of_object, modify_left, modify_time, modify_both,
  timer_call, timer_calls,
}

-- How often an event stands in a list of entries.
abbrev pub in_entries : List Entry → ℕ → ℕ
in_entries [] q = 0
in_entries (x ∷ xs) q = one x.event q + in_entries xs q

in_entries-append :
    (xs ys : List Entry) (q : ℕ) → in_entries (xs ++ ys) q ≡ in_entries xs q + in_entries ys q
in_entries-append [] ys q = omega arith
in_entries-append (x ∷ xs) ys q = omega (arith, in_entries-append xs ys q)

-- An address is free exactly where nobody points to it; otherwise the event counts the pointers.
abbrev pub Held : Option TimedEvent → ℕ → Type 0
Held none n = n ≡ 0
Held (some e) n = (e.refs ≡ n) × (0 < n)

abbrev pub Counted : EventStore → (ℕ → ℕ) → Type 0
Counted s n = (q : ℕ) → Held (s q) (n q)

pub Counted-same :
    (s : EventStore) (n m : ℕ → ℕ) → ((q : ℕ) → n q ≡ m q) → Counted s n → Counted s m
Counted-same s n m same h q = subst (Held (s q)) (same q) (h q)

dec_ref-Held :
    (e : TimedEvent) (m : ℕ)
    → e.refs ≡ m + 1
    → Held (if ltb 1 e.refs then some (record e { deleted = true; refs = e.refs - 1 }) else none) m
dec_ref-Held e m h = elim (Bool-cases (ltb 1 e.refs)) [
  | inl more ↦ rw more (ground arith, ground arith)
  | inr last ↦ rw last (ground arith)
]

pub dec_ref-Counted :
    (s : EventStore) (p : ℕ) (n m : ℕ → ℕ)
    → ((q : ℕ) → n q ≡ one p q + m q)
    → Counted s n
    → (s' : EventStore) × (dec_ref s p ≡ some s') × Counted s' m
unfolding dec_ref
dec_ref-Counted s p n m less h =
    let self : (p == p) ≡ true = ground arith in
    let count : n p ≡ m p + 1 = less p ∙ ap (λ b. (if b then 1 else 0) + m p) self ∙ omega arith in
    elim (Option-cases (s p)) [
      | inl free ↦
          let none_left : n p ≡ 0 = subst (λ o. Held o (n p)) free (h p) in absurd (omega arith)
      | inr (e, here) ↦
          let held : (e.refs ≡ n p) × (0 < n p) = subst (λ o. Held o (n p)) here (h p) in
          (
            update s p (
                if ltb 1 e.refs
                then some (record e { deleted = true; refs = e.refs - 1 })
                else none),
            rw (here, dec_ref),
            λ q. elim (Bool-cases (p == q)) [
              | inl same ↦
                  let at_p : m p ≡ m q = ap m ((==_iff p q).0 same) in
                  rw same (subst (Held _) at_p (dec_ref-Held e (m p) (held.0 ∙ count)))
              | inr other ↦
                  let unchanged : n q ≡ m q = ground (arith, less q) in
                  rw other (subst (Held (s q)) unchanged (h q))
            ],
          )
    ]

pub drop_entries-Counted :
    (match : Entry → Bool) (s : EventStore) (xs : List Entry) (r : ℕ → ℕ)
    → Counted s (λ q. in_entries xs q + r q)
    → (s' : EventStore) × (ys : List Entry) × (drop_entries match s xs ≡ some (s', ys))
      × Counted s' (λ q. in_entries ys q + r q)
unfolding drop_entries
drop_entries-Counted match s [] r h = (s, [], refl, h)
drop_entries-Counted match s (x ∷ xs) r h = elim (Bool-cases (match x)) [
  | inl removed ↦
      let (s', e, h') =
        dec_ref-Counted s x.event (λ q. one x.event q + in_entries xs q + r q)
          (λ q. in_entries xs q + r q) (λ q. omega arith) h in
      let (t, ys, f, k) = drop_entries-Counted match s' xs r h' in (t, ys, rw (removed, e) f, k)
  | inr kept ↦
      let (t, ys, f, k) =
        drop_entries-Counted match s xs (λ q. one x.event q + r q)
          (Counted-same s _ _ (λ q. omega arith) h) in
      (t, x ∷ ys, rw (kept, f), Counted-same t _ _ (λ q. omega arith) k)
]

-- A change of an event that somebody points to, which keeps its count.
pub change-Counted :
    (s : EventStore) (p : ℕ) (e e' : TimedEvent) (n : ℕ → ℕ)
    → s p ≡ some e
    → e'.refs ≡ e.refs
    → Counted s n
    → Counted (update s p (some e')) n
change-Counted s p e e' n here same h q = elim (Bool-cases (p == q)) [
  | inl at_p ↦
      let held : (e.refs ≡ n q) × (0 < n q) =
        subst (λ o. Held o (n q)) (ap s (sym ((==_iff p q).0 at_p)) ∙ here) (h q) in
      rw at_p (same ∙ held.0, held.1)
  | inr other ↦ rw other (h q)
]

-- An event that somebody points to is there.
pub Counted-there :
    (s : EventStore) (p : ℕ) (n : ℕ → ℕ) → Counted s n → 0 < n p → (e : TimedEvent) × (s p ≡ some e)
Counted-there s p n h some_left = elim (Option-cases (s p)) [
  | inl free ↦ let gone : n p ≡ 0 = subst (λ o. Held o (n p)) free (h p) in absurd (omega arith)
  | inr there ↦ there
]

change_entries-Counted :
    (match : Entry → Bool) (f : TimedEvent → TimedEvent) (s : EventStore) (xs : List Entry)
    (r : ℕ → ℕ)
    → ((e : TimedEvent) → (f e).refs ≡ e.refs)
    → Counted s (λ q. in_entries xs q + r q)
    → (s' : EventStore) × (change_entries match f s xs ≡ some s')
      × Counted s' (λ q. in_entries xs q + r q)
unfolding change_entries
change_entries-Counted match f s [] r keep h = (s, refl, h)
change_entries-Counted match f s (x ∷ xs) r keep h =
    let n : ℕ → ℕ = λ q. in_entries xs q + (one x.event q + r q) in
    let h' : Counted s n = Counted-same s _ n (λ q. omega arith) h in
    let back : (q : ℕ) → n q ≡ one x.event q + in_entries xs q + r q = λ q. omega arith in
    elim (Bool-cases (match x)) [
      | inl matched ↦
          let (e, here) = Counted-there s x.event n h' (ground arith) in
          let changed = change-Counted s x.event e (f e) n here (keep e) h' in
          let (t, g, k) =
            change_entries-Counted match f (update s x.event (some (f e))) xs
              (λ q. one x.event q + r q) keep changed in
          (t, rw (matched, here) g, Counted-same t _ _ back k)
      | inr other ↦
          let (t, g, k) = change_entries-Counted match f s xs (λ q. one x.event q + r q) keep h' in
          (t, rw other g, Counted-same t _ _ back k)
    ]

-- The pointers of the maps, of the list, and `extra` others.
abbrev pub Sound : (ℕ → ℕ) → Timers → Type 0
Sound extra t = Counted t.store (λ q. in_entries t.entries q + (occurs t.queue q + extra q))

modify-Sound :
    (extra : ℕ → ℕ) (t : Timers) (o type : ℕ) (f : TimedEvent → TimedEvent)
    → ((e : TimedEvent) → (f e).refs ≡ e.refs)
    → Sound extra t
    → (t' : Timers) × (event_modify t o type f ≡ some t') × Sound extra t'
unfolding event_modify
modify-Sound extra t o type f keep h =
    let (s, e, k) =
      change_entries-Counted (of_type o type) f t.store t.entries (λ q. occurs t.queue q + extra q)
        keep h in
    (record t { store = s }, rw e, k)

add-Sound :
    (extra : ℕ → ℕ) (t : Timers) (x : Entry) (e : TimedEvent)
    → e.refs ≡ 2
    → Sound extra t
    → Sound extra (event_add_event t x e)
unfolding event_add_event
add-Sound extra t x e two h = elim (Option-cases (t.store x.event)) [
  | inr (old, here) ↦ rw here h
  | inl free ↦ rw free (λ q. elim (Bool-cases (x.event == q)) [
    | inl same ↦
        let before : in_entries t.entries q + (occurs t.queue q + extra q) ≡ 0 =
          subst (λ o. Held o (in_entries t.entries q + (occurs t.queue q + extra q)))
            (ap t.store (sym ((==_iff x.event q).0 same)) ∙ free) (h q) in
        rw same (
          ground (
            arith,
            two,
            in_entries-append t.entries (x ∷ []) q,
            occurs-append t.queue (x.event ∷ []) q,
          ))
    | inr other ↦
        let unchanged : in_entries t.entries q + (occurs t.queue q + extra q)
            ≡ in_entries (t.entries ++ x ∷ []) q + (occurs (t.queue ++ x.event ∷ []) q + extra q) =
          ground (
            arith,
            in_entries-append t.entries (x ∷ []) q,
            occurs-append t.queue (x.event ∷ []) q,
          ) in
        rw other (subst (Held (t.store q)) unchanged (h q))
  ])
]

pub timer_call-Sound :
    (extra : ℕ → ℕ) (t : Timers) (c : TimerCall)
    → Sound extra t
    → (t' : Timers) × (timer_call t c ≡ some t') × Sound extra t'
unfolding timer_call event_remove_events destroy_object
timer_call-Sound extra t (add x cb world deletes time repeats) h = (
  event_add_event t x (new_event cb world deletes time repeats),
  refl,
  add-Sound extra t x (new_event cb world deletes time repeats) refl h,
)
timer_call-Sound extra t (remove o type) h =
    let (s, ys, e, k) =
      drop_entries-Counted (to_remove o type) t.store t.entries (λ q. occurs t.queue q + extra q)
        h in
    (record t { store = s; entries = ys }, rw e, k)
timer_call-Sound extra t (destroy o) h =
    let (s, ys, e, k) =
      drop_entries-Counted (of_object o) t.store t.entries (λ q. occurs t.queue q + extra q) h in
    (record t { store = s; entries = ys }, rw e, k)
timer_call-Sound extra t (modify_left o type time u) h =
    modify-Sound extra t o type (time_left time u) (λ e. refl) h
timer_call-Sound extra t (modify_time o type time) h =
    modify-Sound extra t o type (period time) (λ e. refl) h
timer_call-Sound extra t (modify_both o type time) h =
    modify-Sound extra t o type (period_and_left time) (λ e. refl) h

pub timer_calls-Sound :
    (extra : ℕ → ℕ) (t : Timers) (cs : List TimerCall)
    → Sound extra t
    → (t' : Timers) × (timer_calls t cs ≡ some t') × Sound extra t'
unfolding timer_calls
timer_calls-Sound extra t [] h = (t, refl, h)
timer_calls-Sound extra t (c ∷ cs) h =
    let (t', e, k) = timer_call-Sound extra t c h in
    let (u, f, l) = timer_calls-Sound extra t' cs k in (u, rw (e, timer_calls) f, l)
