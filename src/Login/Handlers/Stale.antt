-- ===== src/Login/Handlers/Stale.antt =====
-- What the login server keeps of a connection that is closed.
use hardware_server.Prelude.{ℕ, ◌≡◌, ◌≢◌, true, some, [], ◌∷◌, ◌++◌, arith}
use hardware_server.Login.{wait_close, Login, login_success}
use hardware_server.Login.Gates.{
  get_waite_session, receive_user_prepar, remove_gate, is_gate_id, get_idle_gate,
}
use hardware_server.Login.Gates.Idle.{get_idle_gate-LeastGate}
use hardware_server.Login.Handlers.{
  parse_gate_user_prepar, on_user_close, on_user_accept, on_gate_close,
}

-- A player who waits for a gate and whose connection closes is not forgotten: when the session
-- object has been given to another connection, the answer of the gate sends that connection the
-- transaction of the first player, and sets it to close.
pub stale_wait_session :
    (l : Login) (p tran s : ℕ)
    → get_waite_session l tran ≡ some s
    → let l' = parse_gate_user_prepar (on_user_accept (on_user_close l s) s) p tran in
      (l'.sent
        ≡ l.sent ++ login_success s tran (l.gate_infos p).out_ip (l.gate_infos p).out_port ∷ [])
      × ((l'.users s).state ≡ wait_close)
unfolding parse_gate_user_prepar receive_user_prepar get_waite_session on_user_close on_user_accept
stale_wait_session l p tran s waits = rw (waits, receive_user_prepar) (ground arith, ground arith)

closed_gate_slots :
    (l : Login) (p i : ℕ)
    → ((j : ℕ) → l.gates j ≡ some p → j ≡ (l.gate_infos p).gate_id)
    → is_gate_id (l.gate_infos p).gate_id ≡ true
    → (on_gate_close l p).gates i ≢ some p
unfolding on_gate_close remove_gate
closed_gate_slots l p i own valid e = ground (arith, own i)

-- A gate that stands in no slot but its own gets no player after its connection is closed.
pub closed_gate_idle :
    (l : Login) (p : ℕ)
    → ((i : ℕ) → l.gates i ≡ some p → i ≡ (l.gate_infos p).gate_id)
    → is_gate_id (l.gate_infos p).gate_id ≡ true
    → get_idle_gate (on_gate_close l p) ≢ some p
closed_gate_idle l p own valid e =
    let least = get_idle_gate-LeastGate (on_gate_close l p) in
    let (i, below, held) = (rw e at least).0 in closed_gate_slots l p i own valid held
