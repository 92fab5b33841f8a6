-- ===== src/Tests/TimerTests.antt =====
-- Two timed events, one of which adds another one when it runs.
use hardware_server.Prelude.{ℕ, zero, suc, ◌≡◌, refl, false, List, [], ◌∷◌, length}
use hardware_server.Prelude.Int.{pos, negsuc}
use hardware_server.Timers.{
  Entry, Timers, no_timers, TimerCall, add, remove, destroy, new_event, event_add_event, timer_call,
}
use hardware_server.Timers.Update.{done, update_holder}
use hardware_server.Timers.Loop.{Ends}
use hardware_server.Timers.History.{
  TimerEvent, called, time_passed, timers_run, timers_run-no_timers, update_holder_ends,
}

abbrev entry : ℕ → Entry
entry p = record { object = 1; event_type = 4; event = p }

-- Callback 0 does nothing; the others add an event at 12, remove those of
-- their object, and destroy another one.
abbrev script : List ℕ → ℕ → List TimerCall
script fired zero = []
script fired (suc n) = add (entry 12) 0 false false 5 (pos 1) ∷ remove 1 4 ∷ destroy 2 ∷ []

abbrev silent : List ℕ → ℕ → List TimerCall
silent fired c = []

abbrev history : List TimerEvent
history =
    called (add (entry 10) 1 false false 5 (pos 1))
    ∷ called (add (entry 11) 0 false false 50 (negsuc 0))
    ∷ time_passed 10 9
    ∷ []

timers_run-no_timers_example : Ends (timers_run script no_timers history)
timers_run-no_timers_example = timers_run-no_timers script history

abbrev waiting : Timers
waiting = event_add_event no_timers (entry 10) (new_event 0 false false 5 (pos 1))

waiting_reached :
    timers_run silent no_timers (called (add (entry 10) 0 false false 5 (pos 1)) ∷ [])
    ≡ done waiting
unfolding timers_run timer_call
waiting_reached = refl

update_holder_ends_example :
    (t' : Timers) × (update_holder silent 7 (length waiting.queue) waiting ≡ done t')
update_holder_ends_example =
    update_holder_ends silent (called (add (entry 10) 0 false false 5 (pos 1)) ∷ []) 7 waiting
      waiting_reached (λ fired c. tt)
