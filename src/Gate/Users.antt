-- ===== src/Gate/Users.antt =====
-- gateserver/user_manager.cpp: players by their transaction, from the login server's announcement
-- to the connection, and over a lost connection.
pub mod Login
pub mod Reconnect
pub mod Removal
use hardware_server.Prelude.{
  ℕ, Bool, true, false, Option, none, some, List, [], ◌∷◌, ◌++◌, ◌==◌, if◌then◌else◌, is_some,
}
use hardware_server.ObjMap.{
  StdMap, get_data, get_size, has_data, add_data, erase_data, get_key, erase_value,
}
use hardware_server.Gate.State.{
  SessionState, wait_close, connect, UserSession, Timer, remove_wait, remove_reconnect, Effect,
  tell_prepared, tell_onlines, add_user, remove_user, offline_user, close_session, Gate, invalid_id,
  update, send,
}
use hardware_server.Gate.Session.{enter_state, set_state, set_gs_id}
use hardware_server.Gate.Games.{get_game_client, get_idle_game_client}

-- _WAITE_CONNECT_TIME_ and _WAITE_RECONNECT_TIME_: five minutes
abbrev pub wait_connect_time : ℕ
wait_connect_time = 300000

abbrev pub wait_reconnect_time : ℕ
wait_reconnect_time = 300000

-- `if (client) client->removePlayer(t)` for the client of the game server `gs`
unfoldable pub remove_player_at : Gate → ℕ → ℕ → Gate
remove_player_at g gs t = elim (get_game_client g gs) [
  | none ↦ g
  | some c ↦ send g (remove_user c t)
]

-- The branch of kickUser for a player whose session is `p`
unfoldable pub kick_online : Gate → ℕ → ℕ → ℕ → Gate
unfolding remove_player_at
kick_online g t a p =
    let g1 = remove_player_at g (g.sessions p).gs_id t in
    let g2 = send g1 (close_session p) in
    record g2 { onlines = (erase_data g2.onlines t).0; onlineaccs = (erase_data g2.onlineaccs a).0 }

-- `if (v != INVALID_ACCOUNT) m_onlineaccs.eraseData(v)`, `v` set where the wait map had an entry
abbrev pub forget_waiting_account : Option ℕ → StdMap ℕ → StdMap ℕ
forget_waiting_account none accs = accs
forget_waiting_account (some v) accs = if v == invalid_id then accs else (erase_data accs v).0

abbrev pub remove_parked : Gate → Option ℕ → ℕ → Gate
remove_parked g none t = g
remove_parked g (some gs) t = remove_player_at g gs t

unfoldable pub kick_offline : Gate → ℕ → Gate
unfolding remove_player_at
kick_offline g t =
    let (wait, waiting) = erase_data g.wait_map t in
    let (recon, parked) = erase_data g.recon_map t in
    remove_parked
      (record g {
        wait_map = wait;
        recon_map = recon;
        onlineaccs = forget_waiting_account waiting g.onlineaccs;
      })
      parked t

unfoldable pub kick_user : Gate → ℕ → ℕ → Gate
unfolding kick_online kick_offline
kick_user g t a = elim (get_data g.onlines t) [
  | some p ↦ kick_online g t a p
  | none ↦ kick_offline g t
]

unfoldable pub add_to_wait : Gate → ℕ → ℕ → Gate
unfolding kick_user
add_to_wait g t a =
    let g1 = if is_some (get_data g.onlines t) then kick_user g t a else g in
    send
      (record g1 {
        wait_map = (add_data g1.wait_map t a).0;
        timers = g1.timers ++ remove_wait t wait_connect_time ∷ [];
      })
      (tell_prepared t)

unfoldable pub event_call_remove_wait : Gate → ℕ → Gate
event_call_remove_wait g t = record g { wait_map = (erase_data g.wait_map t).0 }

-- The loop of removeUsers, in the branch for WIN32 (the other one advances an iterator that it has
-- just erased). It erases from a copy of the map, so `m_onlines` stays as it is.
unfoldable pub close_users_of : ℕ → StdMap ℕ → (ℕ → UserSession) → ℕ → UserSession
unfolding enter_state
close_users_of gs [] sessions = sessions
close_users_of gs ((t, p) ∷ m) sessions = close_users_of gs m (
    if (sessions p).gs_id == gs
    then update sessions p (enter_state (sessions p) wait_close)
    else sessions)

unfoldable pub remove_users : Gate → ℕ → Gate
unfolding close_users_of
remove_users g gs = record g {
  sessions = close_users_of gs g.onlines g.sessions;
  recon_map = erase_value g.recon_map gs;
}

unfoldable pub get_account : Gate → ℕ → ℕ
get_account g t = elim (get_key g.onlineaccs t) [ none ↦ invalid_id | some a ↦ a ]

unfoldable pub get_user_session : Gate → ℕ → Option ℕ
get_user_session g t = get_data g.onlines t

-- evevntCall, the periodic report
unfoldable pub report_onlines : Gate → Gate
report_onlines g = send g (tell_onlines (get_size g.onlineaccs))

-- makeRegisterData: the accounts with their transactions, in the order of the accounts
unfoldable pub make_register_data : Gate → List (ℕ × ℕ)
make_register_data g = g.onlineaccs

abbrev pub is_connect : SessionState → Bool
is_connect connect = true
is_connect _ = false

-- The game server's client where the player is parked for a reconnection, and `none` where the
-- player is let go.
abbrev pub park_target : Gate → ℕ → Option ℕ
park_target g p =
    if is_connect (g.sessions p).state then get_game_client g (g.sessions p).gs_id else none

abbrev pub tell_removed : Gate → Option ℕ → ℕ → Gate
tell_removed g none t = g
tell_removed g (some c) t = send g (remove_user c t)

unfoldable pub leave_game : Gate → ℕ → ℕ → Option ℕ → Gate
leave_game g t gs (some c) =
    send (record g { recon_map = (add_data g.recon_map t gs).0 }) (offline_user c t)
leave_game g t gs none =
    tell_removed (record g { onlineaccs = erase_value g.onlineaccs t }) (get_game_client g gs) t

unfoldable pub check_close : Gate → ℕ → Gate
unfolding leave_game
check_close g p =
    let t = (g.sessions p).tranid in
    let gs = (g.sessions p).gs_id in
    let g1 = record g { onlines = (erase_data g.onlines t).0 } in
    let g2 = leave_game g1 t gs (park_target g1 p) in
    record g2 { timers = g2.timers ++ remove_reconnect t wait_reconnect_time ∷ [] }

-- Where the map has no entry, `gsid` stays INVALID_GAME_ID, and an entry with that value is passed
-- over as well.
abbrev pub remove_parked_valid : Gate → Option ℕ → ℕ → Gate
remove_parked_valid g none t = g
remove_parked_valid g (some gs) t = if gs == invalid_id then g else remove_player_at g gs t

unfoldable pub event_call_remove_reconn : Gate → ℕ → Gate
unfolding remove_player_at
event_call_remove_reconn g t =
    let (recon, parked) = erase_data g.recon_map t in
    remove_parked_valid (record g { recon_map = recon; onlineaccs = erase_value g.onlineaccs t })
      parked t

-- The part of checkConn after the wait map had `a` under `t`
unfoldable pub conn_waiting : ℕ → Gate → ℕ → ℕ → ℕ → Gate × Bool
unfolding set_state set_gs_id
conn_waiting limit g t a p =
    let g1 = record g { wait_map = (erase_data g.wait_map t).0 } in
    elim (get_idle_game_client limit g1) [
      | none ↦ (set_state g1 p wait_close, false)
      | some c ↦
          let g2 = send g1 (add_user c t a) in
          let g3 = set_state (set_gs_id g2 p (g2.clients c).game_id) p connect in
          (
            record g3 {
              onlines = (add_data g3.onlines t p).0;
              onlineaccs = (add_data g3.onlineaccs a t).0;
            },
            true,
          )
    ]

-- The part after the wait map had nothing
unfoldable pub conn_parked : Gate → ℕ → ℕ → Gate × Bool
unfolding set_state set_gs_id
conn_parked g t p = elim (get_data g.recon_map t) [
  | none ↦ (set_state g p wait_close, false)
  | some gs ↦
      let g1 = record g { recon_map = (erase_data g.recon_map t).0 } in
      let g2 = set_state (set_gs_id g1 p gs) p connect in
      (record g2 { onlines = (add_data g2.onlines t p).0 }, true)
]

unfoldable pub check_conn : ℕ → Gate → ℕ → ℕ → Gate × Bool
unfolding conn_waiting conn_parked
check_conn limit g t p = elim (get_data g.wait_map t) [
  | some a ↦ conn_waiting limit g t a p
  | none ↦ conn_parked g t p
]
