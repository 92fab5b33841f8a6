-- ===== src/Login/Handlers/Logins.antt =====
-- A login from the answer of the database to the answer of the gate.
use hardware_server.Prelude.{
  ℕ, ◌%◌, ◌<◌, ◌≡◌, ◌≢◌, refl, ap, sym, inl, inr, true, false, Option, none, some, List, [], ◌∷◌,
  ◌++◌, arith, ltb, ◌==◌, if◌then◌else◌, Option-cases, Bool-cases, append-nil, update,
}
use hardware_server.ObjMap.{insert, get_data, add_data, erase_data}
use hardware_server.ObjMap.Laws.{find-insert, find-add_data, find-erase_data}
use hardware_server.Login.{
  CheckAcct, Account, wait_gate, wait_close, Sent, Login, unset, max_gate_id, login_fail,
  login_refused, login_success, kick_user_at, user_login_at,
}
use hardware_server.Login.Gates.{
  enter_login_state, kick_user_from_gate, add_balence_time, get_idle_gate, give_user_to_gate,
  get_waite_session, receive_user_prepar,
}
use hardware_server.Login.Accounts.{
  get_account_of, put_account, kick_known, login_account, check_account_call, remove_account,
}
use hardware_server.Login.Handlers.{parse_gate_user_prepar}

-- The message to the gate `g`, if there is one, that an account has to leave it.
abbrev pub kick_at : Option ℕ → Account → List Sent
kick_at none a = []
kick_at (some p) a = kick_user_at p a.id a.tran ∷ []

-- The messages for an account that the server may know.
abbrev pub kick_messages : (ℕ → Option ℕ) → Option Account → List Sent
kick_messages gates none = []
kick_messages gates (some a) = if ltb a.gate max_gate_id then kick_at (gates a.gate) a else []

kick_known_lem :
    (l : Login) (o : Option Account)
    → kick_known l o ≡ record l { sent = l.sent ++ kick_messages l.gates o }
unfolding kick_user_from_gate
kick_known_lem l none = ap (λ s. record l { sent = s }) (sym (append-nil l.sent))
kick_known_lem l (some a) = elim (Bool-cases (ltb a.gate max_gate_id)) [
  | inl slot ↦ elim (Option-cases (l.gates a.gate)) [
    | inl free ↦
        rw (slot, kick_user_from_gate, free)
          (ap (λ s. record l { sent = s }) (sym (append-nil l.sent)))
    | inr (p, held) ↦ rw (slot, kick_user_from_gate, held)
  ]
  | inr out ↦
      rw (out, kick_user_from_gate) (ap (λ s. record l { sent = s }) (sym (append-nil l.sent)))
]

-- The server after `a` has got the transaction `tran` and the known account was kicked.
abbrev renewed : Login → ℕ → ℕ → Login
renewed l a tran = record l {
  accts = insert a (record { gate = unset; id = a; tran = tran }) l.accts;
  sent = l.sent ++ kick_messages l.gates (get_data l.accts a);
}

renewed_lem :
    (l : Login) (a tran : ℕ)
    → put_account (kick_known l (get_data l.accts a)) a tran ≡ renewed l a tran
renewed_lem l a tran = rw (kick_known_lem l (get_data l.accts a))

-- The server after the account `x` on the session `s` was given to the gate `p`.
abbrev given : Login → Account → ℕ → ℕ → Login
given l x s p = record l {
  accts = insert x.id (record x { gate = (l.gate_infos p).gate_id }) l.accts;
  users = update l.users s (enter_login_state (record (l.users s) { accid = x.id }) wait_gate);
  gate_infos = update l.gate_infos p (add_balence_time (l.gate_infos p) l.server_time);
  wait_sessions = (add_data l.wait_sessions x.tran s).0;
  sent = l.sent ++ user_login_at p x.id x.tran ∷ [];
}

give_user_to_gate-given :
    (l : Login) (x : Account) (s p : ℕ)
    → get_idle_gate l ≡ some p
    → give_user_to_gate l x s ≡ (given l x s p, true)
unfolding give_user_to_gate
give_user_to_gate-given l x s p idle = rw (idle, give_user_to_gate)

login_account-given :
    (l : Login) (a s tran p : ℕ)
    → get_idle_gate l ≡ some p
    → login_account l a s tran
      ≡ given (renewed l a tran) (record { gate = unset; id = a; tran = tran }) s p
unfolding login_account
login_account-given l a s tran p idle = rw (
  renewed_lem l a tran,
  give_user_to_gate-given (renewed l a tran) (record { gate = unset; id = a; tran = tran }) s p
      (unfold get_idle_gate in idle),
)

-- The server after the player of the account `a` on the session `s` was refused.
abbrev turned_away : Login → ℕ → ℕ → Login
turned_away l a s = record l {
  accts = (erase_data l.accts a).0;
  users = update l.users s (enter_login_state (l.users s) wait_close);
  sent = l.sent ++ login_refused s login_fail ∷ [];
}

give_user_to_gate_refused :
    (l : Login) (x : Account) (s : ℕ)
    → get_idle_gate l ≡ none
    → give_user_to_gate l x s ≡ (l, false)
unfolding give_user_to_gate
give_user_to_gate_refused l x s idle = rw (idle, give_user_to_gate)

login_account_refused :
    (l : Login) (a s tran : ℕ)
    → get_idle_gate l ≡ none
    → login_account l a s tran ≡ turned_away (renewed l a tran) a s
unfolding login_account remove_account
login_account_refused l a s tran idle = rw (
  renewed_lem l a tran,
  give_user_to_gate_refused (renewed l a tran) (record { gate = unset; id = a; tran = tran }) s
      (unfold get_idle_gate in idle),
)

check_account_call_found :
    (l : Login) (c : CheckAcct) (tran : ℕ)
    → (l.users c.ower).is_valid ≡ true
    → c.acct ≢ unset
    → check_account_call l c true tran ≡ login_account l c.acct c.ower tran
unfolding check_account_call
check_account_call_found l c tran valid found =
    let is_set : (c.acct == unset) ≡ false = ground arith in rw (valid, is_set)

-- The player of the account `a` on the session `s` waits for the answer of the gate `p`.
abbrev pub WaitsForGate : Login → Login → ℕ → ℕ → ℕ → ℕ → Type 0
WaitsForGate l l' a s tran p =
    (get_account_of l' a ≡ some (record { gate = (l.gate_infos p).gate_id; id = a; tran = tran }))
    × ((b : ℕ) → b ≢ a → get_account_of l' b ≡ get_account_of l b)
    × ((l'.users s).state ≡ wait_gate)
    × (get_waite_session l' tran ≡ some s)
    × (l'.sent
        ≡ l.sent ++ kick_messages l.gates (get_account_of l a) ++ user_login_at p a tran ∷ [])

-- When the database finds the account of a player who is still connected, and a gate is active, the
-- account has to leave the gate that the server knows it on, if any; then the gate that getIdleGate
-- chooses is told, the account stands under that gate with the new transaction, other accounts stay
-- as they are, and the player waits under the transaction: for one of 32 bits that nobody waits under.
pub login_reaches_gate :
    (l : Login) (c : CheckAcct) (tran p : ℕ)
    → (l.users c.ower).is_valid ≡ true
    → c.acct ≢ unset
    → get_idle_gate l ≡ some p
    → tran < 4294967296
    → get_waite_session l tran ≡ none
    → WaitsForGate l (check_account_call l c true tran) c.acct c.ower tran p
unfolding get_account_of get_waite_session get_data enter_login_state
login_reaches_gate l c tran p valid found idle small waits =
    let whole : tran % 4294967296 ≡ tran = omega arith in
    rw
      (
        check_account_call_found l c tran valid found,
        login_account-given l c.acct c.ower tran p idle,
      )
      (rw whole (
        ground (
          arith,
          find-insert c.acct c.acct
              (record { gate = (l.gate_infos p).gate_id; id = c.acct; tran = tran })
              (renewed l c.acct tran).accts,
        ),
        λ b ne. ground (
          arith,
          find-insert b c.acct
              (record { gate = (l.gate_infos p).gate_id; id = c.acct; tran = tran })
              (renewed l c.acct tran).accts,
          find-insert b c.acct (record { gate = unset; id = c.acct; tran = tran }) l.accts,
        ),
        ground arith,
        ground (arith, find-add_data tran l.wait_sessions tran c.ower (rw whole at waits)),
        refl,
      ))

-- A player who waits under a transaction is told the address of the gate that answers for it, no
-- longer waits, and is set to close; accounts, gates and other waiting players stay as they are.
pub receive_user_prepar_lem :
    (l : Login) (p tran s : ℕ)
    → get_waite_session l tran ≡ some s
    → let l' = parse_gate_user_prepar l p tran in
      (l'.sent
        ≡ l.sent ++ login_success s tran (l.gate_infos p).out_ip (l.gate_infos p).out_port ∷ [])
      × (get_waite_session l' tran ≡ none)
      × ((l'.users s).state ≡ wait_close)
      × ((t : ℕ)
          → t % 4294967296 ≢ tran % 4294967296
          → get_waite_session l' t ≡ get_waite_session l t)
      × (l'.accts ≡ l.accts)
      × (l'.gates ≡ l.gates)
unfolding parse_gate_user_prepar receive_user_prepar get_waite_session get_data enter_login_state
receive_user_prepar_lem l p tran s waits =
    rw (waits, receive_user_prepar)
      (
        refl,
        ground (arith, find-erase_data (tran % 4294967296) l.wait_sessions (tran % 4294967296)),
        ground arith,
        λ t ne.
            ground (arith, find-erase_data (t % 4294967296) l.wait_sessions (tran % 4294967296)),
        refl,
        refl,
      )

-- Where no gate is active, a player who is found in the database is refused and set to close, and
-- the account is not known any more; if it was known on a gate, that gate was still told to let the
-- player go.
pub login_without_gate :
    (l : Login) (c : CheckAcct) (tran : ℕ)
    → (l.users c.ower).is_valid ≡ true
    → c.acct ≢ unset
    → get_idle_gate l ≡ none
    → let l' = check_account_call l c true tran in
      (get_account_of l' c.acct ≡ none)
      × ((b : ℕ) → b ≢ c.acct → get_account_of l' b ≡ get_account_of l b)
      × ((l'.users c.ower).state ≡ wait_close)
      × (l'.wait_sessions ≡ l.wait_sessions)
      × (l'.sent
          ≡ l.sent
            ++ kick_messages l.gates (get_account_of l c.acct)
            ++ login_refused c.ower login_fail ∷ [])
unfolding get_account_of get_data enter_login_state
login_without_gate l c tran valid found idle =
    rw
      (
        check_account_call_found l c tran valid found,
        login_account_refused l c.acct c.ower tran idle,
      )
      (
        ground (
          arith,
          find-erase_data c.acct
              (insert c.acct (record { gate = unset; id = c.acct; tran = tran }) l.accts) c.acct,
        ),
        λ b ne. ground (
          arith,
          find-erase_data b
              (insert c.acct (record { gate = unset; id = c.acct; tran = tran }) l.accts) c.acct,
          find-insert b c.acct (record { gate = unset; id = c.acct; tran = tran }) l.accts,
        ),
        ground arith,
        refl,
        refl,
      )
