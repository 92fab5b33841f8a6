-- ===== src/Gate/Session.antt =====
-- gateserver/user_session.cpp: the states of a player's connection and its timer for closing.
use hardware_server.Prelude.{ℕ, [], ◌∷◌, ◌++◌, if◌then◌else◌}
pub use hardware_server.Events.{has_event, modify_events}
use hardware_server.Gate.State.{
  SessionState, disable, wait_account, connect, wait_close, UserSession, Gate, invalid_id, update,
}

-- _WAIT_ACCOUNT_DATA_TIME_ and _WAIT_CLOSE_TIME_
abbrev pub wait_account_data_time : ℕ
wait_account_data_time = 20000

abbrev pub wait_close_time : ℕ
wait_close_time = 1000

unfoldable pub enter_state : UserSession → SessionState → UserSession
enter_state s disable = record s {
  tranid = invalid_id;
  gs_id = invalid_id;
  state = disable;
  close_events = [];
}
enter_state s wait_account = record s {
  state = wait_account;
  close_events = s.close_events ++ wait_account_data_time ∷ [];
}
enter_state s connect = record s {
  state = connect;
  close_events = if has_event s.close_events then [] else s.close_events;
}
enter_state s wait_close = record s {
  state = wait_close;
  close_events =
      if has_event s.close_events
      then modify_events s.close_events wait_close_time
      else s.close_events ++ wait_close_time ∷ [];
}

-- UserSession::setState, setGSid and `m_tranid = t` on the session at `p`
unfoldable pub set_state : Gate → ℕ → SessionState → Gate
unfolding enter_state
set_state g p s = record g { sessions = update g.sessions p (enter_state (g.sessions p) s) }

unfoldable pub set_gs_id : Gate → ℕ → ℕ → Gate
set_gs_id g p gs = record g {
  sessions = update g.sessions p (record (g.sessions p) { gs_id = gs });
}

unfoldable pub set_tranid : Gate → ℕ → ℕ → Gate
set_tranid g p t = record g {
  sessions = update g.sessions p (record (g.sessions p) { tranid = t });
}

-- UserSession::reset, which goes with the session back into the pool
unfoldable pub reset : Gate → ℕ → Gate
reset g p = record g {
  sessions =
      update g.sessions p
        (record (g.sessions p) { tranid = invalid_id; state = disable; gs_id = invalid_id });
}
