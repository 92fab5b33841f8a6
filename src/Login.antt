-- ===== src/Login.antt =====
-- The state of the login server: login/account_manager.h, gate_manager.h, gate_session.h and
-- user_session.h. Objects are named by numbers (addresses), and a number is mapped to the object's
-- fields. An account of `m_Accts` stands in the map itself. What leaves the process is kept in
-- `sent`, in the order of the calls; the database tasks that wait for an answer are kept in `tasks`.
pub mod Gates
pub mod Accounts
pub mod Handlers
use Prim.Native.String.{String}
use hardware_server.Prelude.{ℕ, Bool, false, Option, none, List, [], ◌∷◌, ◌++◌}
use hardware_server.ObjMap.{StdMap}

-- INVALID_ACCOUNT, INVALID_GATE_ID, INVALID_GAME_ID and INVALID_TRANS_ID
abbrev pub unset : ℕ
unset = 0

abbrev pub max_gate_id : ℕ
max_gate_id = 0xff

pub data CheckType : Type 0 where
  login_check new_acc_check : CheckType

-- `result` is a `u8`, with _check_pass_ as 0.
pub record CheckAcct : Type 0 where
  pub str : String
  pub pwd : String
  pub result : ℕ
  pub ower : ℕ
  pub acct : ℕ
  pub check_type : CheckType

pub record Account : Type 0 where
  pub gate : ℕ
  pub id : ℕ
  pub tran : ℕ

pub data LoginState : Type 0 where
  disable wait_data checking_data wait_gate wait_close : LoginState

-- `is_valid` is the flag of `tcp_session`, set while the server has a connection on the object;
-- `close_events` holds the time left of each live EVENT_USER_SESSION_CLOSE event.
pub record UserLoginSession : Type 0 where
  pub accid : ℕ
  pub state : LoginState
  pub is_valid : Bool
  pub close_events : List ℕ

-- GateSession with its GateInfo; `balence_time` is `_balence_time`.
pub record GateInfo : Type 0 where
  pub gate_id : ℕ
  pub onlines : ℕ
  pub out_ip : String
  pub out_port : ℕ
  pub balence_time : List ℕ

pub data LoginResult : Type 0 where
  login_fail login_name_fail : LoginResult

-- Messages to a player (by the session) and to a gate (by its session), and a gate that is closed.
pub data Sent : Type 0 where
  login_refused : ℕ → LoginResult → Sent
  login_success : ℕ → ℕ → String → ℕ → Sent
  register_faild : ℕ → Sent
  kick_user_at : ℕ → ℕ → ℕ → Sent
  user_login_at : ℕ → ℕ → ℕ → Sent
  close_gate : ℕ → Sent

pub record Login : Type 0 where
  pub accts : StdMap Account
  pub gates : ℕ → Option ℕ
  pub wait_sessions : StdMap ℕ
  pub gate_infos : ℕ → GateInfo
  pub users : ℕ → UserLoginSession
  pub server_time : ℕ
  pub tasks : List CheckAcct
  pub sent : List Sent

abbrev pub tell : Login → Sent → Login
tell l e = record l { sent = l.sent ++ e ∷ [] }

-- A new `UserLoginSession`, a new `GateSession` and the login server at its start.
abbrev pub new_login_session : UserLoginSession
new_login_session = record { accid = 0; state = disable; is_valid = false; close_events = [] }

abbrev pub new_gate_info : GateInfo
new_gate_info = record {
  gate_id = 0;
  onlines = 0;
  out_ip = "127.0.0.1";
  out_port = 0;
  balence_time = [];
}

abbrev pub start : Login
start = record {
  accts = [];
  gates = λ i. none;
  wait_sessions = [];
  gate_infos = λ p. new_gate_info;
  users = λ s. new_login_session;
  server_time = 0;
  tasks = [];
  sent = [];
}
