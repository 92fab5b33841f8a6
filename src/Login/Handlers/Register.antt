-- ===== src/Login/Handlers/Register.antt =====
-- A gate that registers brings the accounts that play on it.
use Prim.Native.String.{String}
use hardware_server.Prelude.{
  ℕ, ◌%◌, ◌≡◌, ◌≢◌, refl, ◌∙◌, Bool, true, Option, some, List, [], ◌∷◌, arith, ◌==◌, if◌then◌else◌,
  length,
}
use hardware_server.ObjMap.{get_data}
use hardware_server.ObjMap.Laws.{find-insert}
use hardware_server.Login.{Account, Login}
use hardware_server.Login.Gates.{kick_user_from_gate, is_gate_id, add_gate}
use hardware_server.Login.Accounts.{get_account_of, add_account}
use hardware_server.Login.Handlers.{register_account, register_accounts, parse_gate_register}

-- The last transaction that a list of accounts gives an account, or else `before`.
abbrev pub listed : ℕ → List (ℕ × ℕ) → ℕ → Option Account → Option Account
listed id [] a before = before
listed id ((b, tran) ∷ rest) a before =
    listed id rest a (if b == a then some (record { gate = id; id = a; tran = tran }) else before)

register_account_found :
    (l : Login) (id b tran a : ℕ)
    → get_account_of (register_account l id b tran) a
      ≡ (if b == a then some (record { gate = id; id = a; tran = tran }) else get_account_of l a)
unfolding register_account get_account_of get_data add_account kick_user_from_gate
register_account_found l id b tran a =
    ground (arith, find-insert a b (record { gate = id; id = b; tran = tran }) l.accts)

register_account_gates :
    (l : Login) (id b tran : ℕ) → (register_account l id b tran).gates ≡ l.gates
unfolding register_account add_account kick_user_from_gate
register_account_gates l id b tran = ground arith

register_account_infos :
    (l : Login) (id b tran : ℕ) → (register_account l id b tran).gate_infos ≡ l.gate_infos
unfolding register_account add_account kick_user_from_gate
register_account_infos l id b tran = ground arith

register_accounts_found :
    (l : Login) (id : ℕ) (accounts : List (ℕ × ℕ)) (a : ℕ)
    → get_account_of (register_accounts l id accounts) a ≡ listed id accounts a (get_account_of l a)
unfolding register_accounts
register_accounts_found l id [] a = refl
register_accounts_found l id ((b, tran) ∷ rest) a =
    rw (register_accounts_found (register_account l id b tran) id rest a)
      (rw (register_account_found l id b tran a))

register_accounts_gates :
    (l : Login) (id : ℕ) (accounts : List (ℕ × ℕ))
    → (register_accounts l id accounts).gates ≡ l.gates
unfolding register_accounts
register_accounts_gates l id [] = refl
register_accounts_gates l id ((b, tran) ∷ rest) =
    register_accounts_gates (register_account l id b tran) id rest
    ∙ register_account_gates l id b tran

register_accounts_infos :
    (l : Login) (id : ℕ) (accounts : List (ℕ × ℕ))
    → (register_accounts l id accounts).gate_infos ≡ l.gate_infos
unfolding register_accounts
register_accounts_infos l id [] = refl
register_accounts_infos l id ((b, tran) ∷ rest) =
    register_accounts_infos (register_account l id b tran) id rest
    ∙ register_account_infos l id b tran

-- A gate that registers under an id that the server keeps a slot for, whatever its version, is the
-- gate of that slot; other slots stay as they are; its number of players is that of the accounts it
-- lists; and exactly the accounts it lists are changed, each to that gate and to the last
-- transaction listed for it.
pub parse_gate_register_lem :
    (l : Login) (p id : ℕ) (ok : Bool) (accounts : List (ℕ × ℕ)) (ip : String) (port : ℕ)
    → is_gate_id (id % 256) ≡ true
    → let l' = parse_gate_register l p id ok accounts ip port in
      (l'.gates (id % 256) ≡ some p)
      × ((i : ℕ) → i ≢ id % 256 → l'.gates i ≡ l.gates i)
      × ((l'.gate_infos p).onlines ≡ length accounts)
      × ((l'.gate_infos p).gate_id ≡ id % 256)
      × ((a : ℕ) → get_account_of l' a ≡ listed (id % 256) accounts a (get_account_of l a))
unfolding parse_gate_register
parse_gate_register_lem l p id ok accounts ip port valid = (
  rw register_accounts_gates (unfold add_gate in ground arith),
  λ i ne. rw register_accounts_gates (unfold add_gate in ground arith),
  rw register_accounts_infos (unfold add_gate in ground arith),
  rw register_accounts_infos (unfold add_gate in ground arith),
  λ a. rw register_accounts_found (unfold add_gate get_account_of in ground arith),
)
