-- ===== src/Timers/Finished.antt =====
-- An event that runs once.
use hardware_server.Prelude.{
  ℕ, ◌≤◌, ◌≡◌, refl, ap, List, [], ◌∷◌, ◌++◌, none, some, true, false, ◌==◌, leb, update, arith,
}
use hardware_server.Prelude.Int.{pos, to_s32, ◌-ℤ◌}
use hardware_server.Timers.{
  TimedEvent, Entry, Timers, new_event, event_add_event, TimerCall, timer_calls, dec_ref,
}
use hardware_server.Timers.Update.{
  Outcome, done, fault, update_holder, update_loop, visit, after_callback, staying, placed,
}

-- The event after it has run: marked as deleted, and held by the map of its object alone.
abbrev pub finished : ℕ → ℕ → TimedEvent
finished cb time = record (new_event cb false false time (pos 1)) {
  repeats = pos 0;
  deleted = true;
  refs = 1;
}

-- The timers after the event at `p` has run.
abbrev after_run : Timers → ℕ → ℕ → ℕ → Timers
after_run t p cb time =
    let counted =
      update t.store p
        (some (record (new_event cb false false time (pos 1)) { repeats = pos 0 })) in
    record t { store = update counted p (some (finished cb time)); fired = t.fired ++ p ∷ [] }

visit_once :
    (script : List ℕ → ℕ → List TimerCall) (t : Timers) (p cb time diff : ℕ)
    → t.store p ≡ some (new_event cb false false time (pos 1))
    → leb time diff ≡ true
    → script t.fired cb ≡ []
    → visit script diff t p ≡ some (after_run t p cb time, false)
unfolding visit timer_calls to_s32 ◌-ℤ◌
visit_once script t p cb time diff here now silent =
    let self : (p == p) ≡ true = ground arith in
    rw (here, visit, now, silent, after_callback, here, dec_ref, self) refl

-- An event that is added while the holder has no other, to run once with a callback that leaves the
-- timers alone, runs in an update by at least its time. It is then out of the holder's list, and stays
-- allocated, as its object's map keeps the entry.
pub finished_event_stays :
    (script : List ℕ → ℕ → List TimerCall) (t : Timers) (x : Entry) (cb time diff : ℕ)
    → t.store x.event ≡ none
    → time ≤ diff
    → script t.fired cb ≡ []
    → (t' : Timers) × (update_holder script diff 1
          (event_add_event (record t { queue = [] }) x (new_event cb false false time (pos 1)))
        ≡ done t')
      × (t'.fired ≡ t.fired ++ x.event ∷ [])
      × (t'.queue ≡ [])
      × (t'.entries ≡ t.entries ++ x ∷ [])
      × (t'.store x.event ≡ some (finished cb time))
unfolding update_holder event_add_event timer_calls
finished_event_stays script t x cb time diff free due silent =
    let self : (x.event == x.event) ≡ true = ground arith in
    let now : leb time diff ≡ true = ground arith in
    let e = new_event cb false false time (pos 1) in
    let added = record t {
      store = update t.store x.event (some e);
      entries = t.entries ++ x ∷ [];
      queue = [];
    } in
    let here : added.store x.event ≡ some e = rw self in
    let run = visit_once script added x.event cb time diff here now silent in
    (
      after_run added x.event cb time,
      rw free (
          ap
            (λ o. elim o as (λ r. Outcome) [
              | none ↦ fault
              | some (u, stays) ↦
                  let c = placed (staying stays [] x.event) [] u.queue in
                  update_loop script diff 0 u c.passed c.todo
            ])
            run),
      refl,
      refl,
      refl,
      rw self,
    )
