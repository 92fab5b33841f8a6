-- ===== src/Timers/Update.antt =====
-- common/event_table_object.cpp: EventableObjectHolder::update.
use hardware_server.Prelude.{
  ℕ, zero, suc, ◌-◌, List, [], ◌∷◌, ◌++◌, Option, none, some, Bool, true, false, ◌||◌, leb,
  if◌then◌else◌, update,
}
use hardware_server.Prelude.Int.{ℤ, pos, ◌-ℤ◌, to_s32, eq_ℤ}
use hardware_server.Timers.{Timers, dec_ref, TimerCall, timer_calls}

-- How a loop ends: by its test, by a read through a dangling pointer, or not within the fuel.
pub data Outcome : Type 0 where
  done : Timers → Outcome
  fault : Outcome
  busy : Outcome

-- `ev->repeats && --ev->repeats == 0`: the count afterwards, and the test.
abbrev pub count_down : ℤ → ℤ × Bool
count_down r =
    if eq_ℤ r (pos 0) then (r, false) else (to_s32 (r -ℤ pos 1), eq_ℤ (to_s32 (r -ℤ pos 1)) (pos 0))

-- The list in front of the iterator, and the list from the iterator on. What a callback adds stands
-- behind both; an iterator that is at the end stays there.
pub record Cursor : Type 0 where
  pub passed : List ℕ
  pub todo : List ℕ

abbrev pub placed : List ℕ → List ℕ → List ℕ → Cursor
placed passed [] added = record { passed = passed ++ added; todo = [] }
placed passed (q ∷ todo) added = record { passed = passed; todo = (q ∷ todo) ++ added }

-- What becomes of the event behind its callback, with the timers that the callback leaves: erased, or
-- kept with a new period.
unfoldable pub after_callback : Bool → Timers → ℕ → Option (Timers × Bool)
unfolding dec_ref
after_callback true t p = elim (dec_ref t.store p) [
  | none ↦ none
  | some s ↦ some (record t { store = s }, false)
]
after_callback false t p = elim (t.store p) [
  | none ↦ none
  | some e ↦
      let (r, over) = count_down e.repeats in
      let counted = update t.store p (some (record e { repeats = r })) in
      if over || e.deleted
      then elim (dec_ref counted p) [ none ↦ none | some s ↦ some (record t { store = s }, false) ]
      else some (
        record t {
          store = update t.store p (some (record e { repeats = r; curr_time = e.ms_time }));
        },
        true,
      )
]

-- The body of the loop for one event: the timers, of which `queue` is what was added meanwhile, and
-- whether the event stays in the list.
unfoldable pub visit : (List ℕ → ℕ → List TimerCall) → ℕ → Timers → ℕ → Option (Timers × Bool)
unfolding after_callback dec_ref
visit script diff t p = elim (t.store p) [
  | none ↦ none
  | some e ↦
      let erased : Option (Timers × Bool) = elim (dec_ref t.store p) [
        | none ↦ none
        | some s ↦ some (record t { store = s }, false)
      ] in
      if e.deleted || e.not_in_world
      then erased
      else if leb e.curr_time diff
      then elim e.cb [
        | none ↦ erased
        | some c ↦ elim (timer_calls (record t { fired = t.fired ++ p ∷ [] }) (script t.fired c)) [
          | none ↦ none
          | some t' ↦ after_callback e.deletes_object t' p
        ]
      ]
      else some (
        record t { store = update t.store p (some (record e { curr_time = e.curr_time - diff })) },
        true,
      )
]

abbrev pub staying : Bool → List ℕ → ℕ → List ℕ
staying true passed p = passed ++ p ∷ []
staying false passed p = passed

-- The loop, with `fuel` rounds at most.
unfoldable pub update_loop :
    (List ℕ → ℕ → List TimerCall) → ℕ → ℕ → Timers → List ℕ → List ℕ → Outcome
unfolding visit
update_loop script diff fuel t passed [] = done (record t { queue = passed })
update_loop script diff zero t passed (p ∷ todo) = busy
update_loop script diff (suc fuel) t passed (p ∷ todo) =
    elim (visit script diff (record t { queue = [] }) p) [
      | none ↦ fault
      | some (t', stays) ↦
          let c = placed (staying stays passed p) todo t'.queue in
          update_loop script diff fuel t' c.passed c.todo
    ]

unfoldable pub update_holder : (List ℕ → ℕ → List TimerCall) → ℕ → ℕ → Timers → Outcome
unfolding update_loop
update_holder script diff fuel t = update_loop script diff fuel t [] t.queue
