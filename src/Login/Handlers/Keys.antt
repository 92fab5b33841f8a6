-- ===== src/Login/Handlers/Keys.antt =====
-- The accounts of the login server stand under their own ids, whatever happens.
use hardware_server.Prelude.{ℕ, ◌≡◌, inl, inr, Bool, Option, List, [], ◌∷◌, arith, Option-cases}
use hardware_server.ObjMap.Laws.{
  IsOrdered, Entries, insert-IsOrdered, erase_data-IsOrdered, add_data-IsOrdered,
}
use hardware_server.ObjMap.Entries.{insert-Entries, erase_data-Entries}
use hardware_server.Login.{Account, CheckAcct, login_check, new_acc_check, Login, start, CheckType}
use hardware_server.Login.Gates.{
  kick_user_from_gate, give_user_to_gate, add_gate, remove_gate, receive_user_prepar,
  remove_wait_session,
}
use hardware_server.Login.Accounts.{
  add_account, remove_account, check_account, login_account, check_account_call, create_new_account,
  batch_query,
}
use hardware_server.Login.Handlers.{
  LoginEvent, gate_registered, gate_onlines, gate_prepared, gate_balence, gate_closed,
  user_accepted, login_asked, register_asked, user_expired, user_closed, answered, time_passed,
  parse_gate_onlines, parse_gate_user_prepar, register_account, register_accounts,
  parse_gate_register, on_gate_close, parse_login, parse_register, on_user_accept, on_user_close,
  task_at, task_done, login_step, login_run, call_back, tasks_without,
}

abbrev pub OwnId : ℕ → Account → Type 0
OwnId k a = a.id ≡ k

-- The maps are in the order of their keys, and an account stands under its id.
pub record Keyed (l : Login) : Type 0 where
  pub own : Entries OwnId l.accts
  pub accounts : IsOrdered l.accts
  pub waiting : IsOrdered l.wait_sessions

register_account-Keyed :
    (l : Login) (id a tran : ℕ) → Keyed l → Keyed (register_account l id a tran)
unfolding register_account add_account kick_user_from_gate
register_account-Keyed l id a tran h = record {
  own = grind (arith, insert-Entries OwnId);
  accounts = grind (arith, insert-IsOrdered);
  waiting = ground arith;
}

register_accounts-Keyed :
    (l : Login) (id : ℕ) (accounts : List (ℕ × ℕ))
    → Keyed l
    → Keyed (register_accounts l id accounts)
unfolding register_accounts
register_accounts-Keyed l id [] h = h
register_accounts-Keyed l id ((a, tran) ∷ rest) h =
    register_accounts-Keyed (register_account l id a tran) id rest
      (register_account-Keyed l id a tran h)

login_account-Keyed : (l : Login) (a s tran : ℕ) → Keyed l → Keyed (login_account l a s tran)
unfolding login_account kick_user_from_gate give_user_to_gate remove_account
login_account-Keyed l a s tran h = record {
  own = grind (arith, insert-Entries OwnId, erase_data-Entries OwnId);
  accounts = grind (arith, insert-IsOrdered, erase_data-IsOrdered);
  waiting = grind (arith, add_data-IsOrdered);
}

answer-Keyed :
    (l : Login) (c : CheckAcct) (success : Bool) (tran : ℕ)
    → Keyed l
    → Keyed (check_account_call l c success tran)
unfolding check_account_call
answer-Keyed l c success tran h = ground (arith, login_account-Keyed l c.acct c.ower tran)

prepared-Keyed : (l : Login) (p tran : ℕ) → Keyed l → Keyed (parse_gate_user_prepar l p tran)
unfolding parse_gate_user_prepar receive_user_prepar remove_wait_session
prepared-Keyed l p tran h = record {
  own = ground arith;
  accounts = ground arith;
  waiting = grind (arith, erase_data-IsOrdered);
}

call_back-Keyed :
    (l : Login) (t : CheckType) (c : CheckAcct) (success : Bool) (tran : ℕ)
    → Keyed l
    → Keyed (call_back l t c success tran)
call_back-Keyed l login_check c success tran h = answer-Keyed l c success tran h
call_back-Keyed l new_acc_check c success tran h = unfold create_new_account in ground arith

task_done-Keyed :
    (l : Login) (i : ℕ) (success : Bool) (row : Option (ℕ × ℕ)) (tran : ℕ)
    → Keyed l
    → Keyed (task_done l i success row tran)
unfolding task_done
task_done-Keyed l i success row tran h = elim (Option-cases (task_at l.tasks i)) [
  | inl e ↦ rw (e, task_done) h
  | inr (c, e) ↦
      rw (e, task_done)
        (call_back-Keyed (record l { tasks = tasks_without l.tasks i }) c.check_type
          (batch_query c row) success tran
          (record { own = h.own; accounts = h.accounts; waiting = h.waiting }))
]

login_step-Keyed : (l : Login) (e : LoginEvent) → Keyed l → Keyed (login_step l e)
unfolding login_step
login_step-Keyed l (gate_registered p id ok accounts ip port) h =
    unfold parse_gate_register in
    register_accounts-Keyed _ _ accounts (unfold add_gate in ground arith)
login_step-Keyed l (gate_onlines p n) h = unfold parse_gate_onlines in ground arith
login_step-Keyed l (gate_prepared p tran) h = prepared-Keyed l p tran h
login_step-Keyed l (gate_balence p) h = ground arith
login_step-Keyed l (gate_closed p) h = unfold on_gate_close remove_gate in ground arith
login_step-Keyed l (user_accepted s) h = unfold on_user_accept in ground arith
login_step-Keyed l (login_asked s name password) h =
    unfold parse_login check_account in ground arith
login_step-Keyed l (register_asked s name password) h =
    unfold parse_register check_account in ground arith
login_step-Keyed l (user_expired s) h = h
login_step-Keyed l (user_closed s) h = unfold on_user_close in ground arith
login_step-Keyed l (answered i success row tran) h = task_done-Keyed l i success row tran h
login_step-Keyed l (time_passed ms) h = ground arith

login_run-Keyed : (l : Login) (es : List LoginEvent) → Keyed l → Keyed (login_run l es)
unfolding login_run
login_run-Keyed l [] h = h
login_run-Keyed l (e ∷ es) h = login_run-Keyed (login_step l e) es (login_step-Keyed l e h)

-- After every history of the login server each account stands under its own id, and the accounts
-- and the waiting players are in the order of their keys.
pub login_run-start-Keyed : (es : List LoginEvent) → Keyed (login_run start es)
login_run-start-Keyed es =
    login_run-Keyed start es (record { own = tt; accounts = tt; waiting = tt })
