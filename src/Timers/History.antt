-- ===== src/Timers/History.antt =====
-- The timers of a server through any history.
use hardware_server.Prelude.{ℕ, ◌≡◌, subst, List, [], ◌∷◌, none, some, arith, length, All}
use hardware_server.Timers.{Timers, no_timers, TimerCall, timer_call}
use hardware_server.Timers.Update.{Outcome, done, fault, busy, update_holder}
use hardware_server.Timers.Counts.{Counted-same, Sound, timer_call-Sound}
use hardware_server.Timers.Loop.{Ends, AddsNone, update_loop-Ends, update_loop-done}

-- What happens to the timers of a server: a call, or time that has passed, with the rounds that the loop
-- of the holder is given.
pub data TimerEvent : Type 0 where
  called : TimerCall → TimerEvent
  time_passed : ℕ → ℕ → TimerEvent

-- The history of a server in which `script` tells which calls a callback makes, by the events whose
-- callbacks have run before it.
unfoldable pub timers_run : (List ℕ → ℕ → List TimerCall) → Timers → List TimerEvent → Outcome
timers_run script t [] = done t
timers_run script t (called c ∷ es) = elim (timer_call t c) [
  | none ↦ fault
  | some t' ↦ timers_run script t' es
]
timers_run script t (time_passed diff fuel ∷ es) = elim (update_holder script diff fuel t) [
  | fault ↦ fault
  | busy ↦ busy
  | done t' ↦ timers_run script t' es
]

update_holder-Ends :
    (script : List ℕ → ℕ → List TimerCall) (diff fuel : ℕ) (t : Timers)
    → Sound (λ q. 0) t
    → Ends (update_holder script diff fuel t)
unfolding update_holder
update_holder-Ends script diff fuel t h =
    update_loop-Ends script diff fuel t [] t.queue (Counted-same t.store _ _ (λ q. omega arith) h)

timers_run-Ends :
    (script : List ℕ → ℕ → List TimerCall) (t : Timers) (es : List TimerEvent)
    → Sound (λ q. 0) t
    → Ends (timers_run script t es)
unfolding timers_run
timers_run-Ends script t [] h = h
timers_run-Ends script t (called c ∷ es) h =
    let (t', e, k) = timer_call-Sound (λ q. 0) t c h in
    rw (e, timers_run) (timers_run-Ends script t' es k)
timers_run-Ends script t (time_passed diff fuel ∷ es) h =
    go (update_holder script diff fuel t) (update_holder-Ends script diff fuel t h)
      (λ u k. timers_run-Ends script u es k)
  where
    go :
        (o : Outcome)
        → Ends o
        → ((u : Timers) → Sound (λ q. 0) u → Ends (timers_run script u es))
        → Ends (elim o as (λ x. Outcome) [
          | fault ↦ fault
          | busy ↦ busy
          | done t' ↦ timers_run script t' es
        ])
    go (done u) k later = later u k
    go fault k later = k
    go busy k later = tt

-- Whatever happens to the timers of a server from its start, whatever events its callbacks add, remove
-- and change and whatever objects they destroy, no freed event is read, and when the last update is over,
-- an address is allocated exactly while a map or the list of the holder points to it, and each event
-- counts those pointers.
pub timers_run-no_timers :
    (script : List ℕ → ℕ → List TimerCall) (es : List TimerEvent)
    → Ends (timers_run script no_timers es)
timers_run-no_timers script es = timers_run-Ends script no_timers es (λ q. omega arith)

-- In every state that the timers reach, an update ends after as many rounds as the list of the holder
-- has events, if no callback adds an event.
pub update_holder_ends :
    (script : List ℕ → ℕ → List TimerCall) (es : List TimerEvent) (diff : ℕ) (t : Timers)
    → timers_run script no_timers es ≡ done t
    → ((fired : List ℕ) (c : ℕ) → All AddsNone (script fired c))
    → (t' : Timers) × (update_holder script diff (length t.queue) t ≡ done t')
unfolding update_holder
update_holder_ends script es diff t reached quiet =
    let sound : Sound (λ q. 0) t = subst Ends reached (timers_run-no_timers script es) in
    update_loop-done script diff (length t.queue) t [] t.queue quiet (omega arith)
      (Counted-same t.store _ _ (λ q. omega arith) sound)
