-- ===== src/Gate/Users/Reconnect.antt =====
-- A lost connection: the player is parked, comes back or is dropped by a timer.
use hardware_server.Prelude.{ℕ, ◌≡◌, ◌≢◌, true, none, some, [], ◌∷◌, ◌++◌, arith}
use hardware_server.ObjMap.{get_data, add_data, erase_data}
use hardware_server.ObjMap.Laws.{IsOrdered, find-add_data, find-erase_data, erase_data_result}
use hardware_server.ObjMap.Values.{get_key-erase_value}
use hardware_server.Gate.State.{
  Gate, connect, offline_user, remove_user, invalid_id, remove_reconnect, close_session, disable,
}
use hardware_server.Gate.Session.{set_state, reset}
use hardware_server.Gate.Games.{get_game_client}
use hardware_server.Gate.Users.{
  kick_user, check_close, check_conn, get_account, event_call_remove_reconn, wait_reconnect_time,
}
use hardware_server.Gate.Handlers.{on_user_close, parse_login_game}

-- The session `p` is the connection of the player `t` to the active client `c` of the server `gs`.
pub record Playing (g : Gate) (t p gs c : ℕ) : Type 0 where
  pub trans : (g.sessions p).tranid ≡ t
  pub game : (g.sessions p).gs_id ≡ gs
  pub connected : (g.sessions p).state ≡ connect
  pub active : get_game_client g gs ≡ some c

-- The gate after the connection of such a player was lost.
abbrev parked : Gate → ℕ → ℕ → ℕ → ℕ → Gate
parked g t p gs c = record g {
  onlines = (erase_data g.onlines t).0;
  recon_map = (add_data g.recon_map t gs).0;
  timers = g.timers ++ remove_reconnect t wait_reconnect_time ∷ [];
  sent = g.sent ++ offline_user c t ∷ [];
}

check_close-Playing :
    (g : Gate) (t p gs c : ℕ) → Playing g t p gs c → check_close g p ≡ parked g t p gs c
unfolding check_close get_game_client
check_close-Playing g t p gs c h = ground arith

-- The gate after a kick of such a player.
abbrev kicked : Gate → ℕ → ℕ → ℕ → ℕ → Gate
kicked g t a p c = record g {
  onlines = (erase_data g.onlines t).0;
  onlineaccs = (erase_data g.onlineaccs a).0;
  sent = (g.sent ++ remove_user c t ∷ []) ++ close_session p ∷ [];
}

kick-Playing :
    (g : Gate) (t a p gs c : ℕ)
    → Playing g t p gs c
    → get_data g.onlines t ≡ some p
    → kick_user g t a ≡ kicked g t a p c
unfolding kick_user get_game_client
kick-Playing g t a p gs c h online = ground arith

kicked-Playing :
    (g : Gate) (t a p gs c : ℕ) → Playing g t p gs c → Playing (kicked g t a p c) t p gs c
unfolding get_game_client
kicked-Playing g t a p gs c h = record {
  trans = h.trans;
  game = h.game;
  connected = h.connected;
  active = h.active;
}

-- A kicked player whose connection then closes, as the kick asks for, is parked like one who lost
-- the connection: the transaction is let in again without the login server.
pub kicked_may_return :
    (limit : ℕ) (g : Gate) (t a p q gs c : ℕ)
    → Playing g t p gs c
    → get_data g.onlines t ≡ some p
    → get_data g.wait_map t ≡ none
    → get_data g.recon_map t ≡ none
    → let g' = check_close (kick_user g t a) p in
      (get_data g'.recon_map t ≡ some gs) × ((check_conn limit g' t q).1 ≡ true)
unfolding get_data check_conn
kicked_may_return limit g t a p q gs c h online waits lost =
    rw (kick-Playing g t a p gs c h online) (
      rw (check_close-Playing (kicked g t a p c) t p gs c (kicked-Playing g t a p gs c h))
        (ground (arith, find-add_data t g.recon_map t gs)))

-- The timer that a lost connection leaves runs out after the player came back: the player stays
-- online and nothing is sent, but the account is forgotten.
pub stale_reconnect_timer :
    (g : Gate) (t p : ℕ)
    → IsOrdered g.onlineaccs
    → get_data g.onlines t ≡ some p
    → get_data g.recon_map t ≡ none
    → let g' = event_call_remove_reconn g t in
      (get_data g'.onlines t ≡ some p) × (g'.sent ≡ g.sent) × (get_account g' t ≡ invalid_id)
unfolding event_call_remove_reconn get_data get_account
stale_reconnect_timer g t p o online lost = (
  ground (arith, erase_data_result g.recon_map t),
  ground (arith, erase_data_result g.recon_map t),
  ground (arith, erase_data_result g.recon_map t, get_key-erase_value g.onlineaccs t o),
)

-- The session `q` is the online connection of `t` to the game server `gs`, and `t` is not parked.
abbrev pub Back : Gate → ℕ → ℕ → ℕ → Type 0
Back g t q gs =
    (get_data g.onlines t ≡ some q)
    × ((g.sessions q).state ≡ connect)
    × ((g.sessions q).gs_id ≡ gs)
    × ((g.sessions q).tranid ≡ t)
    × (get_data g.recon_map t ≡ none)

return_parked :
    (limit : ℕ) (g : Gate) (t q gs : ℕ)
    → get_data g.wait_map t ≡ none
    → get_data g.onlines t ≡ none
    → get_data g.recon_map t ≡ some gs
    → (g.sessions q).state ≢ connect
    → let g' = parse_login_game limit g q t in
      Back g' t q gs × (g'.onlineaccs ≡ g.onlineaccs) × (g'.sent ≡ g.sent)
unfolding parse_login_game check_conn get_data
return_parked limit g t q gs waits online lost other =
    ground (arith, find-add_data t g.onlines t q, find-erase_data t g.recon_map t)

-- The gate after such a player's session was closed.
abbrev lost_gate : Gate → ℕ → ℕ → ℕ → ℕ → Gate
lost_gate g t p gs c = reset (set_state (parked g t p gs c) p disable) p

on_user_close-Playing :
    (g : Gate) (t p gs c : ℕ) → Playing g t p gs c → on_user_close g p ≡ lost_gate g t p gs c
unfolding on_user_close
on_user_close-Playing g t p gs c h = rw (check_close-Playing g t p gs c h)

-- A player who lost the connection and logs in again from another session is online there, connected
-- to the same game server, which was told only of the loss; the account is still known.
pub lost_then_reconnect :
    (limit : ℕ) (g : Gate) (t p q gs c : ℕ)
    → Playing g t p gs c
    → get_data g.wait_map t ≡ none
    → get_data g.recon_map t ≡ none
    → p ≢ q
    → (g.sessions q).state ≢ connect
    → let g' = parse_login_game limit (on_user_close g p) q t in
      Back g' t q gs × (g'.onlineaccs ≡ g.onlineaccs) × (g'.sent ≡ g.sent ++ offline_user c t ∷ [])
unfolding set_state reset get_data
lost_then_reconnect limit g t p q gs c h waits lost ne other =
    rw (on_user_close-Playing g t p gs c h) (
      return_parked limit (lost_gate g t p gs c) t q gs waits
        (ground (arith, find-erase_data t g.onlines t))
        (ground (arith, find-add_data t g.recon_map t gs)) (ground arith))

-- When the timer of a parked player runs out, the game server is told to remove the player, who is
-- no longer parked and whose account is forgotten.
pub park_expires :
    (g : Gate) (t gs c : ℕ)
    → IsOrdered g.onlineaccs
    → get_data g.recon_map t ≡ some gs
    → get_game_client g gs ≡ some c
    → let g' = event_call_remove_reconn g t in
      (get_data g'.recon_map t ≡ none)
      × (get_account g' t ≡ invalid_id)
      × (g'.sent ≡ g.sent ++ remove_user c t ∷ [])
unfolding event_call_remove_reconn get_data get_account get_game_client
park_expires g t gs c o lost active = (
  ground (arith, erase_data_result g.recon_map t, find-erase_data t g.recon_map t),
  ground (arith, erase_data_result g.recon_map t, get_key-erase_value g.onlineaccs t o),
  ground (arith, erase_data_result g.recon_map t),
)
