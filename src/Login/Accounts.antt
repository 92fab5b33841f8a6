-- ===== src/Login/Accounts.antt =====
-- login/account_manager.cpp: the check of a name and a password in the database and what the answer
-- does. The value of `makeTransId`, a CRC of the name, the password, the address and the time, is an
-- argument, as is the row that the stored procedure answers.
use Prim.Native.String.{String}
use hardware_server.Prelude.{ℕ, Bool, Option, none, some, [], ◌∷◌, ◌++◌, ◌==◌, if◌then◌else◌}
use hardware_server.ObjMap.{get_data, insert, erase_data}
use hardware_server.Login.{
  CheckType, login_check, CheckAcct, Account, checking_data, wait_close, login_fail,
  login_name_fail, login_refused, register_faild, Login, tell, unset,
}
use hardware_server.Login.Gates.{set_login_state, kick_user_from_gate, give_user_to_gate}

unfoldable pub get_account_of : Login → ℕ → Option Account
get_account_of l a = get_data l.accts a

-- The entry that is there is overwritten; otherwise there is a new one.
unfoldable pub add_account : Login → ℕ → ℕ → ℕ → Login
add_account l a tran gate = record l {
  accts = insert a (record { gate = gate; id = a; tran = tran }) l.accts;
}

unfoldable pub remove_account : Login → ℕ → Login
remove_account l a = record l { accts = (erase_data l.accts a).0 }

-- The constructor CheckAcct
abbrev pub new_check : String → String → CheckType → ℕ → CheckAcct
new_check name password t s = record {
  str = name;
  pwd = password;
  result = 0;
  ower = s;
  acct = unset;
  check_type = t;
}

-- The two tasks differ in the callback, which `check_type` tells.
unfoldable pub check_account : Login → String → String → ℕ → CheckType → Login
unfolding set_login_state
check_account l name password s t =
    let l1 = set_login_state l s checking_data in
    record l1 { tasks = l1.tasks ++ new_check name password t s ∷ [] }

-- The row holds the account and the result.
unfoldable pub batch_query : CheckAcct → Option (ℕ × ℕ) → CheckAcct
batch_query c none = c
batch_query c (some (acct, result)) = record c { acct = acct; result = result }

abbrev pub refuse : Login → ℕ → Login
refuse l s = set_login_state (tell l (login_refused s login_fail)) s wait_close

-- The entry of the account, which may be a new one, is set to the transaction and to no gate.
abbrev pub put_account : Login → ℕ → ℕ → Login
put_account l a tran = record l {
  accts = insert a (record { gate = unset; id = a; tran = tran }) l.accts;
}

abbrev pub kick_known : Login → Option Account → Login
kick_known l none = l
kick_known l (some a) = kick_user_from_gate l a

-- The branch of checkAccountCall for an account that was found.
unfoldable pub login_account : Login → ℕ → ℕ → ℕ → Login
unfolding set_login_state
login_account l a s tran =
    let l1 = put_account (kick_known l (get_data l.accts a)) a tran in
    let (l2, done) = give_user_to_gate l1 (record { gate = unset; id = a; tran = tran }) s in
    if done then l2 else refuse (remove_account l2 a) s

unfoldable pub check_account_call : Login → CheckAcct → Bool → ℕ → Login
unfolding set_login_state login_account
check_account_call l c success tran =
    if (l.users c.ower).is_valid
    then if success
      then if c.acct == unset
        then tell (set_login_state l c.ower wait_close) (login_refused c.ower login_name_fail)
        else login_account l c.acct c.ower tran
      else refuse l c.ower
    else l

-- CreateNewAccount: a new account is then logged in.
unfoldable pub create_new_account : Login → CheckAcct → Bool → Login
unfolding set_login_state
create_new_account l c success =
    if (l.users c.ower).is_valid
    then if success
      then if c.result == 0
        then record l { tasks = l.tasks ++ new_check c.str c.pwd login_check c.ower ∷ [] }
        else set_login_state (tell l (register_faild c.ower)) c.ower wait_close
      else set_login_state (tell l (register_faild c.ower)) c.ower wait_close
    else l
