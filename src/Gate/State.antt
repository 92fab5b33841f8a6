-- ===== src/Gate/State.antt =====
-- The state of the gate server: gateserver/user_manager.h, user_session.h, game_manager.h and
-- game_client.h. Objects are named by numbers (addresses), and a number is mapped to the object's
-- fields. What leaves the process is kept in `sent`, in the order of the calls.
use hardware_server.Prelude.{ℕ, Option, none, List, [], ◌∷◌, ◌++◌}
pub use hardware_server.Prelude.{update}
use hardware_server.ObjMap.{StdMap}

-- INVALID_ACCOUNT, INVALID_GAME_ID and INVALID_TRANS_ID
abbrev pub invalid_id : ℕ
invalid_id = 0

abbrev pub max_game_id : ℕ
max_game_id = 0xff

pub data SessionState : Type 0 where
  disable wait_account connect wait_close : SessionState

-- `close_events` holds the time left of each live EVENT_USER_SESSION_CLOSE event of the session.
pub record UserSession : Type 0 where
  pub tranid : ℕ
  pub gs_id : ℕ
  pub state : SessionState
  pub close_events : List ℕ

pub record GameInfo : Type 0 where
  pub game_id : ℕ
  pub onlines : ℕ

-- One-shot events of the user manager, with their delay in milliseconds.
pub data Timer : Type 0 where
  remove_wait : ℕ → ℕ → Timer
  remove_reconnect : ℕ → ℕ → Timer

-- Messages to the login server, to a game server (by its client) and to a player (by its session),
-- and connections that are asked to close.
pub data Effect : Type 0 where
  tell_prepared : ℕ → Effect
  tell_onlines : ℕ → Effect
  tell_registered : List (ℕ × ℕ) → Effect
  add_user : ℕ → ℕ → ℕ → Effect
  remove_user : ℕ → ℕ → Effect
  offline_user : ℕ → ℕ → Effect
  forward_to_game : ℕ → ℕ → ℕ → Effect
  forward_to_user : ℕ → ℕ → ℕ → Effect
  close_session : ℕ → Effect

pub record Gate : Type 0 where
  pub onlines : StdMap ℕ
  pub onlineaccs : StdMap ℕ
  pub wait_map : StdMap ℕ
  pub recon_map : StdMap ℕ
  pub sessions : ℕ → UserSession
  pub active_games : ℕ → Option ℕ
  pub clients : ℕ → GameInfo
  pub timers : List Timer
  pub sent : List Effect

abbrev pub send : Gate → Effect → Gate
send g e = record g { sent = g.sent ++ e ∷ [] }

-- A new `UserSession`, a new `GateGameClient` and the gate at its start.
abbrev pub new_session : UserSession
new_session = record { tranid = invalid_id; gs_id = invalid_id; state = disable; close_events = [] }

abbrev pub new_game_info : GameInfo
new_game_info = record { game_id = 0; onlines = 0 }

abbrev pub init : Gate
init = record {
  onlines = [];
  onlineaccs = [];
  wait_map = [];
  recon_map = [];
  sessions = λ p. new_session;
  active_games = λ i. none;
  clients = λ c. new_game_info;
  timers = [];
  sent = [];
}
