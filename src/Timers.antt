-- ===== src/Timers.antt =====
-- common/event_manager.h and common/event_table_object.cpp: the timed events of all objects and the holder
-- that counts them down. Events are named by their addresses; `store` has what stands at an address, and
-- `none` where nothing is allocated, so that a pointer to it dangles. The maps of all objects are one
-- list of entries in the order of insertion, which is the order within a key of a std::multimap. Every
-- object has the instance -1, which none of them redefines, and each server has the one holder of that
-- instance.
pub mod Update
pub mod Counts
pub mod Loop
pub mod History
pub mod Finished
use hardware_server.Prelude.{
  ℕ, ◌+◌, ◌-◌, List, [], ◌∷◌, ◌++◌, Option, none, some, Bool, true, false, not, ◌&&◌, ◌||◌, ◌==◌,
  ltb, if◌then◌else◌, update, is_some,
}
use hardware_server.Prelude.Int.{ℤ, pos, negsuc}

-- TimedEvent; `cb` names what the callback does, `none` is a callback that is NULL. The two flags are
-- EVENT_FLAG_DO_NOT_EXECUTE_IN_WORLD_CONTEXT and EVENT_FLAG_DELETES_OBJECT.
pub record TimedEvent : Type 0 where
  pub cb : Option ℕ
  pub not_in_world : Bool
  pub deletes_object : Bool
  pub ms_time : ℕ
  pub curr_time : ℕ
  pub repeats : ℤ
  pub deleted : Bool
  pub refs : ℕ

abbrev pub EventStore : Type 0
EventStore = ℕ → Option TimedEvent

-- One entry of an object's map.
pub record Entry : Type 0 where
  pub object : ℕ
  pub event_type : ℕ
  pub event : ℕ

-- `queue` is the list of the holder, and `fired` the events whose callbacks have run.
pub record Timers : Type 0 where
  pub store : EventStore
  pub entries : List Entry
  pub queue : List ℕ
  pub fired : List ℕ

abbrev pub no_timers : Timers
no_timers = record { store = λ p. none; entries = []; queue = []; fired = [] }

-- decRef
unfoldable pub dec_ref : EventStore → ℕ → Option EventStore
dec_ref s p = elim (s p) [
  | none ↦ none
  | some e ↦ some (
      update s p
        (if ltb 1 e.refs then some (record e { deleted = true; refs = e.refs - 1 }) else none))
]

abbrev pub new_event : ℕ → Bool → Bool → ℕ → ℤ → TimedEvent
new_event cb world deletes time repeats = record {
  cb = some cb;
  not_in_world = world;
  deletes_object = deletes;
  ms_time = time;
  curr_time = time;
  repeats = repeats;
  deleted = false;
  refs = 2;
}

-- EventMgr::addEvent and eventAddEvent. The address of the entry is the one that `new` returns, which is
-- free; at another one nothing is added.
unfoldable pub event_add_event : Timers → Entry → TimedEvent → Timers
event_add_event t x e = if is_some (t.store x.event) then t else record t {
  store = update t.store x.event (some e);
  entries = t.entries ++ x ∷ [];
  queue = t.queue ++ x.event ∷ [];
}

abbrev pub removal_flag_all : ℕ
removal_flag_all = 4294967295

abbrev pub of_type : ℕ → ℕ → Entry → Bool
of_type o t x = x.object == o && x.event_type == t

-- Which entries eventRemoveEvents takes.
abbrev pub to_remove : ℕ → ℕ → Entry → Bool
to_remove o t x = x.object == o && (t == removal_flag_all || x.event_type == t)

abbrev pub keep_entry : Entry → Option (EventStore × List Entry) → Option (EventStore × List Entry)
keep_entry x none = none
keep_entry x (some (s, xs)) = some (s, x ∷ xs)

-- The loop of eventRemoveEvents over the entries.
unfoldable pub drop_entries :
    (Entry → Bool) → EventStore → List Entry → Option (EventStore × List Entry)
unfolding dec_ref
drop_entries m s [] = some (s, [])
drop_entries m s (x ∷ xs) =
    let removed : Option (EventStore × List Entry) = elim (dec_ref s x.event) [
      | none ↦ none
      | some s' ↦ drop_entries m s' xs
    ] in
    let kept = keep_entry x (drop_entries m s xs) in if m x then removed else kept

abbrev pub with_entries : Timers → Option (EventStore × List Entry) → Option Timers
with_entries t none = none
with_entries t (some (s, xs)) = some (record t { store = s; entries = xs })

unfoldable pub event_remove_events : Timers → ℕ → ℕ → Option Timers
unfolding drop_entries
event_remove_events t o type = with_entries t (drop_entries (to_remove o type) t.store t.entries)

abbrev pub of_object : ℕ → Entry → Bool
of_object o x = x.object == o

-- The destructor of an object
unfoldable pub destroy_object : Timers → ℕ → Option Timers
unfolding drop_entries
destroy_object t o = with_entries t (drop_entries (of_object o) t.store t.entries)

-- The loops that change the events of one object and type.
unfoldable pub change_entries :
    (Entry → Bool) → (TimedEvent → TimedEvent) → EventStore → List Entry → Option EventStore
change_entries m f s [] = some s
change_entries m f s (x ∷ xs) =
    let changed : Option EventStore = elim (s x.event) [
      | none ↦ none
      | some e ↦ change_entries m f (update s x.event (some (f e))) xs
    ] in
    let rest = change_entries m f s xs in if m x then changed else rest

abbrev pub with_store : Timers → Option EventStore → Option Timers
with_store t none = none
with_store t (some s) = some (record t { store = s })

-- eventModifyTimeLeft, eventModifyTime and eventModifyTimeAndTimeLeft. The cast of the comparison with
-- the period makes no difference, as one side of it is unsigned.
abbrev pub time_left : ℕ → Bool → TimedEvent → TimedEvent
time_left time unconditioned e = record e {
  curr_time = if unconditioned then time else if ltb e.ms_time time then e.ms_time else time;
}

abbrev pub period : ℕ → TimedEvent → TimedEvent
period time e = record e { ms_time = time }

abbrev pub period_and_left : ℕ → TimedEvent → TimedEvent
period_and_left time e = record e { ms_time = time; curr_time = time }

unfoldable pub event_modify : Timers → ℕ → ℕ → (TimedEvent → TimedEvent) → Option Timers
unfolding change_entries
event_modify t o type f = with_store t (change_entries (of_type o type) f t.store t.entries)

-- eventHasEvent and eventGetTimeLeft: the first event that is not deleted. `none` is a fault.
unfoldable pub first_live : ℕ → ℕ → EventStore → List Entry → Option (Option TimedEvent)
first_live o type s [] = some none
first_live o type s (x ∷ xs) =
    let rest = first_live o type s xs in
    let here : Option (Option TimedEvent) = elim (s x.event) [
      | none ↦ none
      | some e ↦ if e.deleted then rest else some (some e)
    ] in
    if of_type o type x then here else rest

-- What a callback does to the timers: the calls that it makes, and the objects that it destroys, in their
-- order.
pub data TimerCall : Type 0 where
  add : Entry → ℕ → Bool → Bool → ℕ → ℤ → TimerCall
  remove : ℕ → ℕ → TimerCall
  destroy : ℕ → TimerCall
  modify_left : ℕ → ℕ → ℕ → Bool → TimerCall
  modify_time : ℕ → ℕ → ℕ → TimerCall
  modify_both : ℕ → ℕ → ℕ → TimerCall

unfoldable pub timer_call : Timers → TimerCall → Option Timers
unfolding event_add_event event_remove_events destroy_object event_modify
timer_call t (add x cb world deletes time repeats) =
    some (event_add_event t x (new_event cb world deletes time repeats))
timer_call t (remove o type) = event_remove_events t o type
timer_call t (destroy o) = destroy_object t o
timer_call t (modify_left o type time u) = event_modify t o type (time_left time u)
timer_call t (modify_time o type time) = event_modify t o type (period time)
timer_call t (modify_both o type time) = event_modify t o type (period_and_left time)

unfoldable pub timer_calls : Timers → List TimerCall → Option Timers
unfolding timer_call
timer_calls t [] = some t
timer_calls t (c ∷ cs) = elim (timer_call t c) [ none ↦ none | some t' ↦ timer_calls t' cs ]
