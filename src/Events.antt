-- ===== src/Events.antt =====
-- common/event_table_object.cpp and event_manager.h: hasEvent and modifyEventTimeAndTimeLeft, for the
-- live events of one object and one type, each of which is the time that it has left.
use hardware_server.Prelude.{ℕ, Bool, true, false, List, [], ◌∷◌, map}

abbrev pub has_event : List ℕ → Bool
has_event [] = false
has_event (t ∷ ts) = true

-- modifyEventTimeAndTimeLeft
abbrev pub modify_events : List ℕ → ℕ → List ℕ
modify_events ts time = map (λ t. time) ts
