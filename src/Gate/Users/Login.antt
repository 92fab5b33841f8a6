-- ===== src/Gate/Users/Login.antt =====
-- A player's way in: announced by the login server, connected, kicked.
use hardware_server.Prelude.{
  ℕ, ◌≡◌, ◌⊎◌, inl, inr, ◌↔◌, true, false, none, some, [], ◌∷◌, ◌++◌, arith, Option-cases,
  append_assoc, ◌∙◌,
}
use hardware_server.ObjMap.{find, get_data, add_data}
use hardware_server.ObjMap.Laws.{find-add_data, find-erase_data}
use hardware_server.Gate.State.{Gate, connect, wait_close, tell_prepared, add_user, remove_wait}
use hardware_server.Gate.Session.{has_event}
use hardware_server.Gate.Games.{get_idle_game_client}
use hardware_server.Gate.Users.{add_to_wait, check_conn, wait_connect_time}

-- What lets a player in: the transaction waits and a game server is idle, or it does not wait and is
-- parked.
abbrev pub MayConnect : ℕ → Gate → ℕ → Type 0
MayConnect limit g t =
    ((a : ℕ) × (c : ℕ) × (get_data g.wait_map t ≡ some a) × (get_idle_game_client limit g ≡ some c))
    ⊎ ((gs : ℕ) × (get_data g.wait_map t ≡ none) × (get_data g.recon_map t ≡ some gs))

-- `checkConn` says yes exactly to a transaction that waits while some game server is idle, or that
-- does not wait and is parked.
pub check_conn_iff :
    (limit : ℕ) (g : Gate) (t p : ℕ) → ((check_conn limit g t p).1 ≡ true) ↔ MayConnect limit g t
unfolding check_conn get_data get_idle_game_client
check_conn_iff limit g t p = elim (Option-cases (find t g.wait_map)) [
  | inl free ↦ rw (free, check_conn) (ground arith, ground arith)
  | inr (a, held) ↦ rw (held, check_conn) (ground arith, ground arith)
]

-- Where `checkConn` says no, the session is about to close under a timer, nothing is sent, and of
-- the maps only the wait map can change, which loses the transaction.
pub check_conn_refused :
    (limit : ℕ) (g : Gate) (t p : ℕ)
    → (check_conn limit g t p).1 ≡ false
    → let g' = (check_conn limit g t p).0 in
      ((g'.sessions p).state ≡ wait_close)
      × (has_event (g'.sessions p).close_events ≡ true)
      × (get_data g'.wait_map t ≡ none)
      × (g'.onlines ≡ g.onlines)
      × (g'.onlineaccs ≡ g.onlineaccs)
      × (g'.recon_map ≡ g.recon_map)
      × (g'.sent ≡ g.sent)
unfolding check_conn get_data
check_conn_refused limit g t p h = elim (Option-cases (find t g.wait_map)) [
  | inl free ↦ rw (free, check_conn) (ground (arith, rw (free, check_conn) at h))
  | inr (a, held) ↦
      rw (held, check_conn)
        (ground (arith, rw (held, check_conn) at h, find-erase_data t g.wait_map t))
]

abbrev announced : Gate → ℕ → ℕ → Gate
announced g t a = record g {
  wait_map = (add_data g.wait_map t a).0;
  timers = g.timers ++ remove_wait t wait_connect_time ∷ [];
  sent = g.sent ++ tell_prepared t ∷ [];
}

add_to_wait_new :
    (g : Gate) (t a : ℕ) → get_data g.onlines t ≡ none → add_to_wait g t a ≡ announced g t a
unfolding add_to_wait
add_to_wait_new g t a h = rw (h, add_to_wait)

-- The session `p` has become the connection of the player `t` of account `a` to the client `c`.
abbrev pub Connected : Gate → ℕ → ℕ → ℕ → ℕ → Type 0
Connected g t a p c =
    (get_data g.onlines t ≡ some p)
    × (get_data g.onlineaccs a ≡ some t)
    × (get_data g.wait_map t ≡ none)
    × ((g.sessions p).state ≡ connect)
    × ((g.sessions p).gs_id ≡ (g.clients c).game_id)

connect_waiting :
    (limit : ℕ) (g : Gate) (t a p c : ℕ)
    → get_data g.wait_map t ≡ some a
    → get_data g.onlines t ≡ none
    → get_data g.onlineaccs a ≡ none
    → get_idle_game_client limit g ≡ some c
    → let (g', done) = check_conn limit g t p in
      (done ≡ true) × Connected g' t a p c × (g'.sent ≡ g.sent ++ add_user c t a ∷ [])
unfolding check_conn get_data get_idle_game_client
connect_waiting limit g t a p c held online known idle =
    rw (held, check_conn)
      (ground (
        arith,
        find-add_data t g.onlines t p,
        find-add_data a g.onlineaccs a t,
        find-erase_data t g.wait_map t,
      ))

-- After the login server announces a player who is neither online nor waiting, the player's
-- connection is accepted if a game server is idle: the session is online and connected to that
-- server, the account is known, the transaction no longer waits, and the login server and the game
-- server are told in that order.
pub login_then_connect :
    (limit : ℕ) (g : Gate) (t a p c : ℕ)
    → get_data g.onlines t ≡ none
    → get_data g.wait_map t ≡ none
    → get_data g.onlineaccs a ≡ none
    → get_idle_game_client limit g ≡ some c
    → let (g', done) = check_conn limit (add_to_wait g t a) t p in
      (done ≡ true)
      × Connected g' t a p c
      × (g'.sent ≡ g.sent ++ tell_prepared t ∷ add_user c t a ∷ [])
login_then_connect limit g t a p c online waits known idle = rw (add_to_wait_new g t a online) (
    let r =
      connect_waiting limit (announced g t a) t a p c
        (unfold get_data in ground (arith, find-add_data t g.wait_map t a)) online known
        (unfold get_idle_game_client in idle) in
    (r.0, r.1, r.2 ∙ append_assoc g.sent (tell_prepared t ∷ []) (add_user c t a ∷ [])))
