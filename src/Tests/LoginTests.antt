-- ===== src/Tests/LoginTests.antt =====
-- A login server with two gates, on the slots 1 and 2, and the account 5 on the first.
use hardware_server.Prelude.{◌≡◌, refl, true, some, [], ◌∷◌, arith, update}
use hardware_server.Prelude.Int.{to_s32}
use hardware_server.ObjMap.{find, get_data}
use hardware_server.Login.{
  CheckAcct, login_check, Login, start, new_login_session, new_gate_info, login_success,
  max_gate_id,
}
use hardware_server.Login.Gates.{get_idle_gate, gate_scan, get_waite_session, get_balence_count}
use hardware_server.Login.Gates.Idle.{LeastGate, get_idle_gate-LeastGate}
use hardware_server.Login.Accounts.{check_account_call, new_check}
use hardware_server.Login.Handlers.{parse_gate_user_prepar, on_user_close, on_user_accept}
use hardware_server.Login.Handlers.Logins.{WaitsForGate, login_reaches_gate}
use hardware_server.Login.Handlers.Stale.{stale_wait_session}

abbrev lonely : Login
lonely = record start {
  accts = (5, record { gate = 1; id = 5; tran = 70 }) ∷ [];
  users = update start.users 3 (record new_login_session { is_valid = true });
}

abbrev serving : Login
serving = record lonely {
  gates = update (update lonely.gates 1 (some 11)) 2 (some 12);
  gate_infos =
      update (update lonely.gate_infos 11 (record new_gate_info { gate_id = 1; onlines = 8 })) 12
        (record new_gate_info { gate_id = 2; onlines = 4; out_ip = "10.0.0.2"; out_port = 9000 });
}

abbrev checked : CheckAcct
checked = record (new_check "ann" "secret" login_check 3) { acct = 5 }

login_reaches_gate_example :
    WaitsForGate serving (check_account_call serving checked true 77) 5 3 77 12
unfolding get_idle_gate gate_scan get_balence_count get_waite_session get_data find to_s32
login_reaches_gate_example =
    login_reaches_gate serving checked 77 12 refl (λ e. absurd (omega arith)) refl (omega arith)
      refl

abbrev waiting : Login
waiting = record serving { wait_sessions = (77, 3) ∷ [] }

waiting_at : get_waite_session waiting 77 ≡ some 3
unfolding get_waite_session get_data find
waiting_at = refl

stale_wait_session_example :
    (parse_gate_user_prepar (on_user_accept (on_user_close waiting 3) 3) 12 77).sent
    ≡ login_success 3 77 "10.0.0.2" 9000 ∷ []
stale_wait_session_example = (stale_wait_session waiting 12 77 3 waiting_at).0

get_idle_gate-LeastGate_example :
    LeastGate serving.gate_infos serving.gates max_gate_id (get_idle_gate serving)
get_idle_gate-LeastGate_example = get_idle_gate-LeastGate serving
