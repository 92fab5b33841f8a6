-- ===== src/Login/Handlers.antt =====
-- The handlers of login/gate_session.cpp and user_session.cpp, with the callbacks of the database,
-- and the histories of the login server. An `assert` is compiled out.
pub mod Keys
pub mod Logins
pub mod Register
pub mod Stale
use Prim.Native.String.{String}
use hardware_server.Prelude.{
  ℕ, zero, suc, ◌%◌, Bool, true, false, Option, none, some, List, [], ◌∷◌, ◌++◌, ◌==◌,
  if◌then◌else◌, length, update, ◌+◌,
}
use hardware_server.Login.{
  CheckType, login_check, new_acc_check, CheckAcct, Account, disable, wait_data, UserLoginSession,
  GateInfo, Login, tell, close_gate, start,
}
use hardware_server.Login.Gates.{
  set_login_state, add_gate, remove_gate, kick_user_from_gate, balence_info_event,
  receive_user_prepar,
}
use hardware_server.Login.Accounts.{
  get_account_of, add_account, check_account, batch_query, check_account_call, create_new_account,
}

-- GateSession::parseGateOnlines
unfoldable pub parse_gate_onlines : Login → ℕ → ℕ → Login
parse_gate_onlines l p n = record l {
  gate_infos = update l.gate_infos p (record (l.gate_infos p) { onlines = n });
}

-- GateSession::parseGateUserPrepar
unfoldable pub parse_gate_user_prepar : Login → ℕ → ℕ → Login
parse_gate_user_prepar l p tran =
    receive_user_prepar l tran (l.gate_infos p).out_ip (l.gate_infos p).out_port

-- The body of the loop of parseGateRegister: one account that plays on the gate `id`.
unfoldable pub register_account : Login → ℕ → ℕ → ℕ → Login
register_account l id a tran = elim (get_account_of l a) [
  | none ↦ add_account l a tran id
  | some old ↦ add_account (if old.gate == id then l else kick_user_from_gate l old) a tran id
]

unfoldable pub register_accounts : Login → ℕ → List (ℕ × ℕ) → Login
unfolding register_account
register_accounts l id [] = l
register_accounts l id ((a, tran) ∷ rest) = register_accounts (register_account l id a tran) id rest

-- GateSession::parseGateRegister, with the answer of checkVersion. `gate_id` is a `u8`. A gate of a
-- wrong version is closed and registered all the same.
unfoldable pub parse_gate_register : Login → ℕ → ℕ → Bool → List (ℕ × ℕ) → String → ℕ → Login
unfolding register_accounts
parse_gate_register l p server_id version_ok accounts ip port =
    let id = server_id % 256 in
    let l1 = if version_ok then l else tell l (close_gate p) in
    let l2 : Login = record l1 {
      gate_infos = update l1.gate_infos p (record (l1.gate_infos p) {
        gate_id = id;
        onlines = length accounts;
        out_ip = ip;
        out_port = port;
      });
    } in
    register_accounts (add_gate l2 id p) id accounts

-- GateSession::on_close
unfoldable pub on_gate_close : Login → ℕ → Login
on_gate_close l p = remove_gate l p

-- UserLoginSession::parseLoginGame and parseRegister
unfoldable pub parse_login : Login → ℕ → String → String → Login
parse_login l s name password = check_account l name password s login_check

unfoldable pub parse_register : Login → ℕ → String → String → Login
parse_register l s name password = check_account l name password s new_acc_check

-- UserLoginSession::on_accept; the server has marked the object as valid.
unfoldable pub on_user_accept : Login → ℕ → Login
unfolding set_login_state
on_user_accept l s =
    set_login_state (record l { users = update l.users s (record (l.users s) { is_valid = true }) })
      s wait_data

-- UserLoginSession::reset
unfoldable pub reset_user : Login → ℕ → Login
reset_user l s = record l {
  users = update l.users s (record (l.users s) { state = disable; accid = 0; is_valid = false });
}

-- UserLoginSession::on_close, with the session going back to the pool of the server
unfoldable pub on_user_close : Login → ℕ → Login
unfolding set_login_state reset_user
on_user_close l s = reset_user (set_login_state l s disable) s

-- UserLoginSession::setClose, which the timers call: its body is commented out.
abbrev pub set_close : Login → ℕ → Login
set_close l s = l

abbrev pub task_at : List CheckAcct → ℕ → Option CheckAcct
task_at [] i = none
task_at (c ∷ cs) zero = some c
task_at (c ∷ cs) (suc i) = task_at cs i

abbrev pub tasks_without : List CheckAcct → ℕ → List CheckAcct
tasks_without [] i = []
tasks_without (c ∷ cs) zero = cs
tasks_without (c ∷ cs) (suc i) = c ∷ tasks_without cs i

-- The callback that was given to addBatchTask.
abbrev pub call_back : Login → CheckType → CheckAcct → Bool → ℕ → Login
call_back l login_check c success tran = check_account_call l c success tran
call_back l new_acc_check c success tran = create_new_account l c success

-- The database answers the task at place `i`.
unfoldable pub task_done : Login → ℕ → Bool → Option (ℕ × ℕ) → ℕ → Login
unfolding batch_query
task_done l i success row tran = elim (task_at l.tasks i) [
  | none ↦ l
  | some c ↦
      call_back (record l { tasks = tasks_without l.tasks i }) c.check_type (batch_query c row)
        success tran
]

pub data LoginEvent : Type 0 where
  gate_registered : ℕ → ℕ → Bool → List (ℕ × ℕ) → String → ℕ → LoginEvent
  gate_onlines : ℕ → ℕ → LoginEvent
  gate_prepared : ℕ → ℕ → LoginEvent
  gate_balence : ℕ → LoginEvent
  gate_closed : ℕ → LoginEvent
  user_accepted : ℕ → LoginEvent
  login_asked : ℕ → String → String → LoginEvent
  register_asked : ℕ → String → String → LoginEvent
  user_expired : ℕ → LoginEvent
  user_closed : ℕ → LoginEvent
  answered : ℕ → Bool → Option (ℕ × ℕ) → ℕ → LoginEvent
  time_passed : ℕ → LoginEvent

unfoldable pub login_step : Login → LoginEvent → Login
login_step l (gate_registered p id ok accounts ip port) =
    parse_gate_register l p id ok accounts ip port
login_step l (gate_onlines p n) = parse_gate_onlines l p n
login_step l (gate_prepared p tran) = parse_gate_user_prepar l p tran
login_step l (gate_balence p) = record l {
  gate_infos = update l.gate_infos p (balence_info_event (l.gate_infos p) l.server_time);
}
login_step l (gate_closed p) = on_gate_close l p
login_step l (user_accepted s) = on_user_accept l s
login_step l (login_asked s name password) = parse_login l s name password
login_step l (register_asked s name password) = parse_register l s name password
login_step l (user_expired s) = set_close l s
login_step l (user_closed s) = on_user_close l s
login_step l (answered i success row tran) = task_done l i success row tran
login_step l (time_passed ms) = record l { server_time = l.server_time + ms }

unfoldable pub login_run : Login → List LoginEvent → Login
login_run l [] = l
login_run l (e ∷ es) = login_run (login_step l e) es
