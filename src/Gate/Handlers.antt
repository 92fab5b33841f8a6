-- ===== src/Gate/Handlers.antt =====
-- The handlers of gateserver/user_session.cpp, game_client.cpp, login_client.cpp and the removal of
-- a game server in game_manager.cpp: what the gate does on each message, on each closed connection
-- and on each timer. An event names the object that handles it.
pub mod Ordered
pub mod Parked
use hardware_server.Prelude.{
  ℕ, zero, suc, ◌+◌, ◌%◌, ◌^◌, Bool, true, false, ◌&&◌, Option, none, some, List, [], ◌∷◌, ◌++◌,
  ◌==◌, if◌then◌else◌,
}
use hardware_server.Gate.State.{
  disable, wait_account, wait_close, Timer, remove_wait, remove_reconnect, add_user, remove_user,
  tell_registered, forward_to_game, forward_to_user, close_session, Gate, invalid_id, update, send,
}
use hardware_server.Gate.Session.{set_state, set_gs_id, set_tranid, reset}
use hardware_server.Gate.Games.{in_range, holds, get_game_client, add_active_game_client}
use hardware_server.Gate.Users.{
  kick_user, add_to_wait, event_call_remove_wait, event_call_remove_reconn, remove_users,
  get_account, get_user_session, report_onlines, make_register_data, is_connect, check_close,
  check_conn,
}

-- UserSession::parseLoginGame
unfoldable pub parse_login_game : ℕ → Gate → ℕ → ℕ → Gate
unfolding set_tranid
parse_login_game limit g p t =
    let (g1, done) = check_conn limit g t p in
    if is_connect (g.sessions p).state then g else if done then set_tranid g1 p t else g1

-- UserSession::parseGameMsg: any other message goes to the player's game server
unfoldable pub parse_user_msg : Gate → ℕ → ℕ → Gate
parse_user_msg g p m = elim (get_game_client g (g.sessions p).gs_id) [
  | none ↦ g
  | some c ↦ send g (forward_to_game c m (g.sessions p).tranid)
]

-- UserSession::on_accept
unfoldable pub on_accept : Gate → ℕ → Gate
unfolding set_state
on_accept g p = set_state g p wait_account

-- UserSession::on_close, with the session going back to the pool
unfoldable pub on_user_close : Gate → ℕ → Gate
unfolding set_state reset
on_user_close g p = reset (set_state (check_close g p) p disable) p

-- GateLoginClient::on_connect
unfoldable pub on_login_connect : Gate → Gate
on_login_connect g = send g (tell_registered (make_register_data g))

-- GateGameClient::parseGameRegister: the id is kept in 8 bits
unfoldable pub parse_game_register : Gate → ℕ → ℕ → Gate
parse_game_register g c serverid =
    let id = serverid % 2 ^ 8 in
    let g1 = record g { clients = update g.clients c (record (g.clients c) { game_id = id }) } in
    add_active_game_client g1 c id

-- GateGameClient::parseGameOnlines
unfoldable pub parse_game_onlines : Gate → ℕ → ℕ → Gate
parse_game_onlines g c n = record g {
  clients = update g.clients c (record (g.clients c) { onlines = n });
}

-- GateGameClient::parseGameMsg
unfoldable pub parse_game_msg : Gate → ℕ → ℕ → Gate
parse_game_msg g flag m = elim (get_user_session g flag) [
  | none ↦ g
  | some p ↦ send g (forward_to_user p flag m)
]

-- The last part of parseChangeGS: the account is known or the session is closed
unfoldable pub move_player : Gate → ℕ → ℕ → ℕ → Gate
unfolding set_gs_id
move_player g p gs c =
    let t = (g.sessions p).tranid in
    let a = get_account g t in
    if a == invalid_id then send g (close_session p) else send (set_gs_id g p gs) (add_user c t a)

unfoldable pub change_session : Gate → ℕ → ℕ → ℕ → Gate
unfolding move_player
change_session g self p gs = elim (get_game_client g gs) [
  | none ↦ send g (close_session p)
  | some c ↦ move_player (send g (remove_user self (g.sessions p).tranid)) p gs c
]

-- GateGameClient::parseChangeGS: the id is passed on in 16 bits
unfoldable pub parse_change_gs : Gate → ℕ → ℕ → ℕ → Gate
unfolding change_session
parse_change_gs g self flag serverid = elim (get_user_session g flag) [
  | none ↦ g
  | some p ↦ change_session g self p (serverid % 2 ^ 16)
]

-- GameManager::removeActiveGameClient
unfoldable pub remove_active_game_client : Gate → ℕ → Gate
unfolding remove_users
remove_active_game_client g c =
    let id = (g.clients c).game_id in
    let g1 = remove_users g id in
    if in_range id && holds (g.active_games id) c
    then record g1 { active_games = update g1.active_games id none }
    else g

unfoldable pub run_timer : Gate → Timer → Gate
run_timer g (remove_wait t time) = event_call_remove_wait g t
run_timer g (remove_reconnect t time) = event_call_remove_reconn g t

abbrev pub timer_at : List Timer → ℕ → Option Timer
timer_at [] i = none
timer_at (x ∷ xs) zero = some x
timer_at (x ∷ xs) (suc i) = timer_at xs i

abbrev pub timers_without : List Timer → ℕ → List Timer
timers_without [] i = []
timers_without (x ∷ xs) zero = xs
timers_without (x ∷ xs) (suc i) = x ∷ timers_without xs i

-- The event manager runs the one-shot timer at place `i` of the pending ones and drops it.
unfoldable pub fire : Gate → ℕ → Gate
unfolding run_timer
fire g i = elim (timer_at g.timers i) [
  | none ↦ g
  | some timer ↦ run_timer (record g { timers = timers_without g.timers i }) timer
]

pub data Event : Type 0 where
  login_connected : Event
  login_user : ℕ → ℕ → Event
  login_kick : ℕ → ℕ → Event
  report : Event
  fired : ℕ → Event
  user_accepted : ℕ → Event
  user_login : ℕ → ℕ → Event
  user_message : ℕ → ℕ → Event
  user_expired : ℕ → Event
  user_closed : ℕ → Event
  game_registered : ℕ → ℕ → Event
  game_onlines : ℕ → ℕ → Event
  game_message : ℕ → ℕ → Event
  game_change : ℕ → ℕ → ℕ → Event
  game_closed : ℕ → Event

unfoldable pub step : ℕ → Gate → Event → Gate
unfolding on_login_connect report_onlines
step limit g login_connected = on_login_connect g
step limit g (login_user t a) = add_to_wait g t a
step limit g (login_kick t a) = kick_user g t a
step limit g report = report_onlines g
step limit g (fired i) = fire g i
step limit g (user_accepted p) = on_accept g p
step limit g (user_login p t) = parse_login_game limit g p t
step limit g (user_message p m) = parse_user_msg g p m
step limit g (user_expired p) = send g (close_session p)
step limit g (user_closed p) = on_user_close g p
step limit g (game_registered c id) = parse_game_register g c id
step limit g (game_onlines c n) = parse_game_onlines g c n
step limit g (game_message flag m) = parse_game_msg g flag m
step limit g (game_change c flag id) = parse_change_gs g c flag id
step limit g (game_closed c) = remove_active_game_client g c

unfoldable pub run : ℕ → Gate → List Event → Gate
run limit g [] = g
run limit g (e ∷ es) = run limit (step limit g e) es
