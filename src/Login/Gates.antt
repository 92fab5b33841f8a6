-- ===== src/Login/Gates.antt =====
-- login/gate_manager.cpp with the balance of gate_session.cpp and the states of a connection of
-- user_session.cpp: which gates are active, which one gets the next player, and the connections that
-- wait for the answer of a gate.
pub mod Idle
use Prim.Native.String.{String}
use hardware_server.Prelude.{
  ℕ, zero, suc, ◌+◌, ◌*◌, ◌%◌, Bool, true, false, ◌&&◌, not, Option, none, some, List, [], ◌∷◌,
  ◌++◌, ltb, ◌==◌, if◌then◌else◌, length, keep_if, update,
}
use hardware_server.Prelude.Int.{ℤ, pos, to_s32, ltb_ℤ}
use hardware_server.ObjMap.{StdMap, get_data, add_data, erase_data, insert}
use hardware_server.Events.{has_event, modify_events}
use hardware_server.Login.{
  Account, LoginState, disable, wait_data, checking_data, wait_gate, wait_close, UserLoginSession,
  GateInfo, Login, tell, unset, max_gate_id, kick_user_at, user_login_at, login_success,
}

-- _SESSION_WAIT_ACCOUNT_, _SESSION_CHECK_ACCOUNT_, _SESSION_WAIT_GATE_ and _SESSION_WAIT_CLOSE
abbrev pub session_wait_account : ℕ
session_wait_account = 30000

abbrev pub session_check_account : ℕ
session_check_account = 60000

abbrev pub session_wait_gate : ℕ
session_wait_gate = 60000

abbrev pub session_wait_close : ℕ
session_wait_close = 5000

-- `if (hasEvent(…)) modifyEventTimeAndTimeLeft(…)`
abbrev pub prolong : List ℕ → ℕ → List ℕ
prolong events time = if has_event events then modify_events events time else events

-- UserLoginSession::setState
unfoldable pub enter_login_state : UserLoginSession → LoginState → UserLoginSession
enter_login_state s disable = record s { state = disable; close_events = [] }
enter_login_state s wait_data = record s {
  state = wait_data;
  close_events = s.close_events ++ session_wait_account ∷ [];
}
enter_login_state s checking_data = record s {
  state = checking_data;
  close_events = prolong s.close_events session_check_account;
}
enter_login_state s wait_gate = record s {
  state = wait_gate;
  close_events = prolong s.close_events session_wait_gate;
}
enter_login_state s wait_close = record s {
  state = wait_close;
  close_events = prolong s.close_events session_wait_close;
}

unfoldable pub set_login_state : Login → ℕ → LoginState → Login
unfolding enter_login_state
set_login_state l s state = record l {
  users = update l.users s (enter_login_state (l.users s) state);
}

-- `nId > INVALID_GATE_ID && nId < MAX_GATE_ID`
abbrev pub is_gate_id : ℕ → Bool
is_gate_id id = ltb unset id && ltb id max_gate_id

-- The pointer is never NULL: the caller passes `this`.
unfoldable pub add_gate : Login → ℕ → ℕ → Login
add_gate l id p = if is_gate_id id then record l { gates = update l.gates id (some p) } else l

-- `m_Gates[nId] == pkGate`
abbrev pub is_slot_of : Option ℕ → ℕ → Bool
is_slot_of none p = false
is_slot_of (some q) p = q == p

unfoldable pub remove_gate : Login → ℕ → Login
remove_gate l p =
    let id = (l.gate_infos p).gate_id in
    if is_gate_id id && is_slot_of (l.gates id) p
    then record l { gates = update l.gates id none }
    else l

-- Here the id 0 is let through; nothing is ever written to that slot.
unfoldable pub kick_user_from_gate : Login → Account → Login
kick_user_from_gate l a =
    if ltb a.gate max_gate_id
    then elim (l.gates a.gate) [ none ↦ l | some p ↦ tell l (kick_user_at p a.id a.tran) ]
    else l

-- GateSession::getBalenceCount
unfoldable pub get_balence_count : GateInfo → ℤ
get_balence_count g = to_s32 (pos (g.onlines + length g.balence_time))

-- GateSession::addBalenceTime
unfoldable pub add_balence_time : GateInfo → ℕ → GateInfo
add_balence_time g now = record g { balence_time = g.balence_time ++ now ∷ [] }

-- `!(g_server_time > _BALENCE_TIME_ * 20 + time_temp)`
abbrev pub is_recent : ℕ → ℕ → Bool
is_recent now time = not (ltb (2 * 1000 * 20 + time) now)

-- GateSession::balenceInfoEvent
unfoldable pub balence_info_event : GateInfo → ℕ → GateInfo
balence_info_event g now = record g { balence_time = keep_if (is_recent now) g.balence_time }

abbrev pub is_better : (ℕ → GateInfo) → Option ℕ → ℕ → Bool
is_better infos none p = true
is_better infos (some q) p = ltb_ℤ (get_balence_count (infos p)) (get_balence_count (infos q))

-- The loop of `getIdleGate`, with `n` slots left from slot `i` on.
unfoldable pub gate_scan : (ℕ → GateInfo) → (ℕ → Option ℕ) → ℕ → ℕ → Option ℕ → Option ℕ
gate_scan infos gates zero i best = best
gate_scan infos gates (suc n) i best = elim (gates i) [
  | none ↦ gate_scan infos gates n (i + 1) best
  | some p ↦ gate_scan infos gates n (i + 1) (if is_better infos best p then some p else best)
]

unfoldable pub get_idle_gate : Login → Option ℕ
get_idle_gate l = gate_scan l.gate_infos l.gates max_gate_id 0 none

-- The account and the session are never NULL where this is called. The account is the one that
-- stands in the map under its id.
unfoldable pub give_user_to_gate : Login → Account → ℕ → Login × Bool
unfolding add_balence_time enter_login_state
give_user_to_gate l a s = elim (get_idle_gate l) [
  | none ↦ (l, false)
  | some p ↦ (
    record l {
      accts = insert a.id (record a { gate = (l.gate_infos p).gate_id }) l.accts;
      users = update l.users s (enter_login_state (record (l.users s) { accid = a.id }) wait_gate);
      gate_infos = update l.gate_infos p (add_balence_time (l.gate_infos p) l.server_time);
      wait_sessions = (add_data l.wait_sessions a.tran s).0;
      sent = l.sent ++ user_login_at p a.id a.tran ∷ [];
    },
    true,
  )
]

-- The keys of `m_WaitSessions` are `u32`.
unfoldable pub get_waite_session : Login → ℕ → Option ℕ
get_waite_session l tran = get_data l.wait_sessions (tran % 4294967296)

unfoldable pub remove_wait_session : Login → ℕ → Login
remove_wait_session l tran = record l {
  wait_sessions = (erase_data l.wait_sessions (tran % 4294967296)).0;
}

unfoldable pub receive_user_prepar : Login → ℕ → String → ℕ → Login
unfolding set_login_state remove_wait_session
receive_user_prepar l tran ip port = elim (get_waite_session l tran) [
  | none ↦ l
  | some s ↦
      remove_wait_session (set_login_state (tell l (login_success s tran ip port)) s wait_close)
        tran
]
