-- ===== src/Tests/GateTests.antt =====
-- A gate with one game server (id 3, client 9) and the player 77 of account 5 on session 1.
use hardware_server.Prelude.{◌≡◌, refl, some, none, List, [], ◌∷◌, arith}
use hardware_server.ObjMap.{find, insert, erase, get_data, add_data, erase_data}
use hardware_server.Gate.State.{
  max_game_id, Gate, connect, init, update, tell_prepared, add_user, offline_user,
}
use hardware_server.Gate.Games.{get_game_client, get_idle_game_client, idle_scan}
use hardware_server.Gate.Users.{kick_user, add_to_wait, check_close, check_conn}
use hardware_server.Gate.Users.Login.{login_then_connect}
use hardware_server.Gate.Users.Reconnect.{Playing, kicked_may_return, lost_then_reconnect}
use hardware_server.Gate.Users.Removal.{remove_active_game_client_lem}
use hardware_server.Gate.Games.Idle.{Chosen, get_idle_game_client-Chosen}
use hardware_server.Gate.Handlers.{
  Event, game_registered, login_user, user_accepted, user_login, user_closed, step, run,
  on_user_close, parse_login_game, remove_active_game_client, on_accept, parse_game_register,
}
use hardware_server.Gate.Games.{add_active_game_client}
use hardware_server.Gate.Handlers.Parked.{IsActive, run-init-Parked}

abbrev serving : Gate
serving = record init {
  active_games = update init.active_games 3 (some 9);
  clients = update init.clients 9 (record { game_id = 3; onlines = 12 });
}

abbrev playing : Gate
playing = record serving {
  onlines = (77, 1) ∷ [];
  onlineaccs = (5, 77) ∷ [];
  sessions =
      update serving.sessions 1
        (record { tranid = 77; gs_id = 3; state = connect; close_events = [] });
}

abbrev history : List Event
history =
    game_registered 9 3 ∷ login_user 77 5 ∷ user_accepted 1 ∷ user_login 1 77 ∷ user_closed 1 ∷ []

history_parks : get_data (run 100 init history).recon_map 77 ≡ some 3
unfolding run step parse_game_register add_active_game_client add_to_wait on_accept parse_login_game
    check_conn on_user_close get_data find insert erase add_data erase_data get_idle_game_client
    idle_scan check_close get_game_client
history_parks = refl

run-init-Parked_example : IsActive (run 100 init history).active_games 3
run-init-Parked_example = run-init-Parked 100 history 77 3 history_parks

login_then_connect_example :
    (check_conn 100 (add_to_wait serving 77 5) 77 1).0.sent
    ≡ tell_prepared 77 ∷ add_user 9 77 5 ∷ []
unfolding get_data find get_idle_game_client idle_scan
login_then_connect_example = (login_then_connect 100 serving 77 5 1 9 refl refl refl refl).2

playing-Playing : Playing playing 77 1 3 9
unfolding get_game_client
playing-Playing = record { trans = refl; game = refl; connected = refl; active = refl }

kicked_may_return_example : get_data (check_close (kick_user playing 77 5) 1).recon_map 77 ≡ some 3
unfolding get_data find
kicked_may_return_example =
    (kicked_may_return 100 playing 77 5 1 2 3 9 playing-Playing refl refl refl).0

lost_then_reconnect_example :
    (parse_login_game 100 (on_user_close playing 1) 2 77).sent ≡ offline_user 9 77 ∷ []
unfolding get_data find
lost_then_reconnect_example =
    (lost_then_reconnect 100 playing 77 1 2 3 9 playing-Playing refl refl (omega arith) (λ e. cc)).2

remove_active_game_client_lem_example :
    get_game_client (remove_active_game_client playing 9) 3 ≡ none
unfolding get_game_client
remove_active_game_client_lem_example = (remove_active_game_client_lem playing 9 3 tt refl refl).3

get_idle_game_client-Chosen_example :
    Chosen serving.clients 100 serving.active_games max_game_id (get_idle_game_client 100 serving)
get_idle_game_client-Chosen_example = get_idle_game_client-Chosen 100 serving
