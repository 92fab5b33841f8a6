-- ===== src/Timers/Loop.antt =====
-- EventableObjectHolder::update keeps the counts of references, so that it reads no freed event, and
-- ends where no callback adds an event.
use hardware_server.Prelude.{
  one, occurs, occurs-append, ℕ, zero, suc, ◌+◌, ◌-◌, ◌≤◌, ◌≡◌, refl, ◌∙◌, ap, sym, subst, inl, inr,
  List, [], ◌∷◌, ◌++◌, Option, none, some, Bool, true, false, ◌||◌, ◌==◌, leb, update, arith,
  length, Option-cases, Bool-cases, All, append-nil,
}
use hardware_server.Timers.{
  TimedEvent, EventStore, Timers, dec_ref, TimerCall, timer_call, timer_calls, add, remove, destroy,
  destroy_object, modify_left, modify_time, modify_both, event_remove_events, event_modify,
}
use hardware_server.Timers.Update.{
  Outcome, done, fault, busy, count_down, placed, after_callback, visit, staying, update_loop,
}
use hardware_server.Timers.Counts.{
  in_entries, Counted, Counted-same, dec_ref-Counted, change-Counted, Counted-there, Sound,
  timer_calls-Sound,
}

-- The pointers that are left when an event stays in the list or not.
abbrev kept : Bool → ℕ → (ℕ → ℕ) → ℕ → ℕ
kept true p rest q = one p q + rest q
kept false p rest q = rest q

-- A step that does not fail, with sound counts afterwards, and with nothing added under a condition.
abbrev Keeps : Type 0 → ℕ → (ℕ → ℕ) → Timers → Option (Timers × Bool) → Type 0
Keeps C p rest t₀ o =
    (t : Timers) × (stays : Bool) × (o ≡ some (t, stays))
    × Sound (kept stays p rest) t
    × (C → t.queue ≡ t₀.queue)

-- A callback that adds no event.
abbrev pub AddsNone : TimerCall → Type 0
AddsNone (add x cb world deletes time repeats) = ⊥
AddsNone (remove o type) = Unit
AddsNone (destroy o) = Unit
AddsNone (modify_left o type time u) = Unit
AddsNone (modify_time o type time) = Unit
AddsNone (modify_both o type time) = Unit

timer_call-queue :
    (t t' : Timers) (c : TimerCall) → AddsNone c → timer_call t c ≡ some t' → t'.queue ≡ t.queue
unfolding timer_call event_remove_events destroy_object event_modify
timer_call-queue t t' (add x cb world deletes time repeats) h e = absurd h
timer_call-queue t t' (remove o type) h e = ground arith
timer_call-queue t t' (destroy o) h e = ground arith
timer_call-queue t t' (modify_left o type time u) h e = ground arith
timer_call-queue t t' (modify_time o type time) h e = ground arith
timer_call-queue t t' (modify_both o type time) h e = ground arith

timer_calls-queue :
    (t t' : Timers) (cs : List TimerCall)
    → All AddsNone cs
    → timer_calls t cs ≡ some t'
    → t'.queue ≡ t.queue
unfolding timer_calls
timer_calls-queue t t' [] h e = let same : t ≡ t' = cc e in ap (λ (u : Timers). u.queue) (sym same)
timer_calls-queue t t' (c ∷ cs) h e = elim (Option-cases (timer_call t c)) [
  | inl failed ↦ absurd cc
  | inr (u, called) ↦
      let later : timer_calls u cs ≡ some t' = rw (called, timer_calls) at e in
      timer_calls-queue u t' cs h.1 later ∙ timer_call-queue t u c h.0 called
]

module _ (p : ℕ) (rest : ℕ → ℕ) (t : Timers) (h : Sound (λ q. one p q + rest q) t) where
  there : (e : TimedEvent) × (t.store p ≡ some e)
  there = Counted-there t.store p _ h (let self : (p == p) ≡ true = ground arith in ground arith)

  erase-Keeps :
      (s : EventStore)
      → Counted s (λ q. in_entries t.entries q + (occurs t.queue q + (one p q + rest q)))
      → (s' : EventStore) × (dec_ref s p ≡ some s') × Sound rest (record t { store = s' })
  erase-Keeps s k =
      dec_ref-Counted s p _ (λ q. in_entries t.entries q + (occurs t.queue q + rest q))
        (λ q. omega arith) k

  changed :
      (e e' : TimedEvent)
      → t.store p ≡ some e
      → e'.refs ≡ e.refs
      → Counted
          (update t.store p (some e'))
          (λ q. in_entries t.entries q + (occurs t.queue q + (one p q + rest q)))
  changed e e' here same = change-Counted t.store p e e' _ here same h

  after_callback-Keeps : (deletes : Bool) → Keeps Unit p rest t (after_callback deletes t p)
  unfolding after_callback
  after_callback-Keeps true =
      let (s, e, k) = erase-Keeps t.store h in
      (record t { store = s }, false, rw (e, after_callback), k, λ _. refl)
  after_callback-Keeps false =
      let (e, here) = there in
      let r = count_down e.repeats in
      let counted = record e { repeats = r.0 } in
      let again = record e { repeats = r.0; curr_time = e.ms_time } in
      elim (Bool-cases (r.1 || e.deleted)) [
        | inl over ↦
            let (s, f, k) =
              erase-Keeps (update t.store p (some counted)) (changed e counted here refl) in
            (record t { store = s }, false, rw (here, after_callback, over, f), k, λ _. refl)
        | inr stays ↦ (
          record t { store = update t.store p (some again) },
          true,
          rw (here, after_callback, stays),
          changed e again here refl,
          λ _. refl,
        )
      ]

-- What is known of the timers when the loop ends.
abbrev pub Ends : Outcome → Type 0
Ends (done t) = Sound (λ q. 0) t
Ends fault = ⊥
Ends busy = Unit

module _ (script : List ℕ → ℕ → List TimerCall) (diff : ℕ) where
  visit-Keeps :
      (p : ℕ) (rest : ℕ → ℕ) (t : Timers)
      → Sound (λ q. one p q + rest q) t
      → Keeps
          ((fired : List ℕ) (c : ℕ) → All AddsNone (script fired c))
          p
          rest
          t
          (visit script diff t p)
  unfolding visit
  visit-Keeps p rest t h =
      let (e, here) = there p rest t h in
      let (s, f, k) = erase-Keeps p rest t h t.store h in
      elim (Bool-cases (e.deleted || e.not_in_world)) [
        | inl gone ↦ (record t { store = s }, false, rw (here, visit, gone, f), k, λ _. refl)
        | inr live ↦ elim (Bool-cases (leb e.curr_time diff)) [
          | inl due ↦ elim (Option-cases e.cb) [
            | inl no_callback ↦ (
              record t { store = s },
              false,
              rw (here, visit, live, due, no_callback, f),
              k,
              λ _. refl,
            )
            | inr (c, callback) ↦
                let (t', g, l) =
                  timer_calls-Sound (λ q. one p q + rest q) (record t { fired = t.fired ++ p ∷ [] })
                    (script t.fired c) h in
                let (u, stays, a, m, n) = after_callback-Keeps p rest t' l e.deletes_object in
                (
                  u,
                  stays,
                  rw (here, visit, live, due, callback, g) a,
                  m,
                  λ quiet.
                      n tt
                      ∙ timer_calls-queue (record t { fired = t.fired ++ p ∷ [] }) t'
                          (script t.fired c) (quiet t.fired c) g,
                )
          ]
          | inr early ↦
              let later = record e { curr_time = e.curr_time - diff } in
              (
                record t { store = update t.store p (some later) },
                true,
                rw (here, visit, live, early),
                changed p rest t h e later here refl,
                λ _. refl,
              )
        ]
      ]

  in_placed :
      (passed todo added : List ℕ) (q : ℕ)
      → let c = placed passed todo added in
        occurs c.passed q + occurs c.todo q ≡ occurs added q + (occurs passed q + occurs todo q)
  in_placed passed [] added q = omega (arith, occurs-append passed added q)
  in_placed passed (p ∷ todo) added q = omega (arith, occurs-append (p ∷ todo) added q)

  in_staying :
      (stays : Bool) (p : ℕ) (passed todo : List ℕ) (q : ℕ)
      → kept stays p (λ r. occurs passed r + occurs todo r) q
        ≡ occurs (staying stays passed p) q + occurs todo q
  in_staying true p passed todo q = omega (arith, occurs-append passed (p ∷ []) q)
  in_staying false p passed todo q = refl

  pub update_loop-Ends :
      (fuel : ℕ) (t : Timers) (passed todo : List ℕ)
      → Sound (λ q. occurs passed q + occurs todo q) (record t { queue = [] })
      → Ends (update_loop script diff fuel t passed todo)
  unfolding update_loop
  update_loop-Ends fuel t passed [] h = Counted-same t.store _ _ (λ q. omega arith) h
  update_loop-Ends zero t passed (p ∷ todo) h = tt
  update_loop-Ends (suc fuel) t passed (p ∷ todo) h =
      let rest : ℕ → ℕ = λ q. occurs passed q + occurs todo q in
      let (t', stays, e, k, _) =
        visit-Keeps p rest (record t { queue = [] })
          (Counted-same t.store _ _ (λ q. omega arith) h) in
      let c = placed (staying stays passed p) todo t'.queue in
      let next : Sound (λ q. occurs c.passed q + occurs c.todo q) (record t' { queue = [] }) =
        Counted-same t'.store _ _
          (λ q. omega (
            arith,
            in_placed (staying stays passed p) todo t'.queue q,
            in_staying stays p passed todo q,
          ))
          k in
      subst Ends
        (sym (
          ap
            (λ o. elim o as (λ x. Outcome) [
              | none ↦ fault
              | some (u, b) ↦
                  let d = placed (staying b passed p) todo u.queue in
                  update_loop script diff fuel u d.passed d.todo
            ])
            e))
        (update_loop-Ends fuel t' c.passed c.todo next)

  length-placed : (passed todo : List ℕ) → length (placed passed todo []).todo ≡ length todo
  length-placed passed [] = refl
  length-placed passed (p ∷ todo) = rw append-nil

  -- Where no callback adds an event, each round of the loop takes one event.
  pub update_loop-done :
      (fuel : ℕ) (t : Timers) (passed todo : List ℕ)
      → ((fired : List ℕ) (c : ℕ) → All AddsNone (script fired c))
      → length todo ≤ fuel
      → Sound (λ q. occurs passed q + occurs todo q) (record t { queue = [] })
      → (t' : Timers) × (update_loop script diff fuel t passed todo ≡ done t')
  unfolding update_loop
  update_loop-done fuel t passed [] quiet enough h = (record t { queue = passed }, refl)
  update_loop-done zero t passed (p ∷ todo) quiet enough h = absurd (omega arith)
  update_loop-done (suc fuel) t passed (p ∷ todo) quiet enough h =
      let rest : ℕ → ℕ = λ q. occurs passed q + occurs todo q in
      let (t', stays, e, k, added) =
        visit-Keeps p rest (record t { queue = [] })
          (Counted-same t.store _ _ (λ q. omega arith) h) in
      let nothing : t'.queue ≡ [] = added quiet in
      let c = placed (staying stays passed p) todo t'.queue in
      let same : length c.todo ≡ length todo =
        ap (λ l. length (placed (staying stays passed p) todo l).todo) nothing
        ∙ length-placed (staying stays passed p) todo in
      let next : Sound (λ q. occurs c.passed q + occurs c.todo q) (record t' { queue = [] }) =
        Counted-same t'.store _ _
          (λ q. omega (
            arith,
            in_placed (staying stays passed p) todo t'.queue q,
            in_staying stays p passed todo q,
          ))
          k in
      let (u, d) = update_loop-done fuel t' c.passed c.todo quiet (omega arith) next in
      (
        u,
        ap
              (λ o. elim o as (λ x. Outcome) [
                | none ↦ fault
                | some (v, b) ↦
                    let w = placed (staying b passed p) todo v.queue in
                    update_loop script diff fuel v w.passed w.todo
              ])
              e
            ∙ d,
      )
