-- ===== src/Gate/Handlers/Parked.antt =====
-- A player who lost the connection is parked only on a game server that is active.
use hardware_server.Prelude.{
  ℕ, ◌≡◌, inl, inr, true, Option, some, List, [], ◌∷◌, arith, ◌&&◌, is_some, Option-cases,
  Bool-cases,
}
use hardware_server.ObjMap.{StdMap, get_data, add_data, erase_data}
use hardware_server.ObjMap.Laws.{Entries}
use hardware_server.ObjMap.Entries.{
  add_data-Entries, erase_data-Entries, erase_value-Entries, Entries-mono, find-Entries,
}
use hardware_server.Gate.State.{Gate, init, remove_wait, remove_reconnect}
use hardware_server.Gate.Games.{get_game_client, in_range, holds, add_active_game_client}
use hardware_server.Gate.Users.{
  kick_user, add_to_wait, check_close, check_conn, event_call_remove_reconn, event_call_remove_wait,
}
use hardware_server.Gate.Handlers.{
  Event, login_connected, login_user, login_kick, report, fired, user_accepted, user_login,
  user_message, user_expired, user_closed, game_registered, game_onlines, game_message, game_change,
  game_closed, on_accept, on_user_close, parse_login_game, parse_user_msg, parse_game_register,
  parse_game_onlines, parse_game_msg, parse_change_gs, remove_active_game_client, timer_at, fire,
  step, run,
}

abbrev pub IsActive : (ℕ → Option ℕ) → ℕ → Type 0
IsActive active gs = (in_range gs ≡ true) × (is_some (active gs) ≡ true)

abbrev pub ActiveEntries : (ℕ → Option ℕ) → StdMap ℕ → Type 0
ActiveEntries active m = Entries (λ (t gs : ℕ). IsActive active gs) m

abbrev pub ParkedActive : Gate → Type 0
ParkedActive g = ActiveEntries g.active_games g.recon_map

erase-Active :
    (active : ℕ → Option ℕ) (m : StdMap ℕ) (t : ℕ)
    → ActiveEntries active m
    → ActiveEntries active (erase_data m t).0
erase-Active active m t e = erase_data-Entries (λ (t gs : ℕ). IsActive active gs) m t e

add-Active :
    (active : ℕ → Option ℕ) (m : StdMap ℕ) (t gs : ℕ)
    → IsActive active gs
    → ActiveEntries active m
    → ActiveEntries active (add_data m t gs).0
add-Active active m t gs a e = add_data-Entries (λ (t gs : ℕ). IsActive active gs) m t gs a e

kick-Parked : (g : Gate) (t a : ℕ) → ParkedActive g → ParkedActive (kick_user g t a)
unfolding kick_user get_game_client
kick-Parked g t a h = ground (arith, erase-Active g.active_games g.recon_map t)

conn-Parked :
    (limit : ℕ) (g : Gate) (t p : ℕ) → ParkedActive g → ParkedActive (check_conn limit g t p).0
unfolding check_conn
conn-Parked limit g t p h = ground (arith, erase-Active g.active_games g.recon_map t)

close-Parked : (g : Gate) (p : ℕ) → ParkedActive g → ParkedActive (check_close g p)
unfolding check_close get_game_client
close-Parked g p h =
    ground (arith, add-Active g.active_games g.recon_map (g.sessions p).tranid (g.sessions p).gs_id)

reconn-Parked : (g : Gate) (t : ℕ) → ParkedActive g → ParkedActive (event_call_remove_reconn g t)
unfolding event_call_remove_reconn get_game_client
reconn-Parked g t h = ground (arith, erase-Active g.active_games g.recon_map t)

wait-Parked : (g : Gate) (t a : ℕ) → ParkedActive g → ParkedActive (add_to_wait g t a)
unfolding add_to_wait
wait-Parked g t a h = ground (arith, kick-Parked g t a)

register-Parked :
    (g : Gate) (c id : ℕ) → ParkedActive g → ParkedActive (add_active_game_client g c id)
unfolding add_active_game_client
register-Parked g c id h = elim (Bool-cases (in_range id)) [
  | inl e ↦ rw e (Entries-mono _ _ g.recon_map (λ t gs a. ground arith) h)
  | inr e ↦ rw e h
]

remove-Parked : (g : Gate) (c : ℕ) → ParkedActive g → ParkedActive (remove_active_game_client g c)
unfolding remove_active_game_client
remove-Parked g c h =
    elim (Bool-cases
      (in_range (g.clients c).game_id && holds (g.active_games (g.clients c).game_id) c)) [
        | inl e ↦ rw e (
            erase_value-Entries _ _ (g.clients c).game_id g.recon_map (λ t gs ne a. ground arith) h)
        | inr e ↦ rw e h
      ]

fire-Parked : (g : Gate) (i : ℕ) → ParkedActive g → ParkedActive (fire g i)
unfolding fire event_call_remove_wait
fire-Parked g i h = elim (Option-cases (timer_at g.timers i)) [
  | inl e ↦ rw (e, fire) h
  | inr (remove_wait t time, e) ↦ rw (e, fire) h
  | inr (remove_reconnect t time, e) ↦ rw (e, fire) (reconn-Parked _ t h)
]

-- Whatever happens to the gate, every parked player is parked on a game server that is active.
step-Parked : (limit : ℕ) (g : Gate) (e : Event) → ParkedActive g → ParkedActive (step limit g e)
unfolding step
step-Parked limit g login_connected h = h
step-Parked limit g (login_user t a) h = wait-Parked g t a h
step-Parked limit g (login_kick t a) h = kick-Parked g t a h
step-Parked limit g report h = h
step-Parked limit g (fired i) h = fire-Parked g i h
step-Parked limit g (user_accepted p) h = unfold on_accept in h
step-Parked limit g (user_login p t) h =
    unfold parse_login_game in ground (arith, conn-Parked limit g t p)
step-Parked limit g (user_message p m) h = unfold parse_user_msg in ground arith
step-Parked limit g (user_expired p) h = h
step-Parked limit g (user_closed p) h = unfold on_user_close in close-Parked g p h
step-Parked limit g (game_registered c id) h = unfold parse_game_register in register-Parked _ c _ h
step-Parked limit g (game_onlines c n) h = unfold parse_game_onlines in h
step-Parked limit g (game_message flag m) h = unfold parse_game_msg in ground arith
step-Parked limit g (game_change c flag id) h = unfold parse_change_gs in ground arith
step-Parked limit g (game_closed c) h = remove-Parked g c h

run-Parked :
    (limit : ℕ) (g : Gate) (es : List Event) → ParkedActive g → ParkedActive (run limit g es)
unfolding run
run-Parked limit g [] h = h
run-Parked limit g (e ∷ es) h = run-Parked limit (step limit g e) es (step-Parked limit g e h)

-- After any history of events from the start, each player in the reconnection map is parked on an
-- id in range whose game server is active at that time.
pub run-init-Parked :
    (limit : ℕ) (es : List Event) (t gs : ℕ)
    → get_data (run limit init es).recon_map t ≡ some gs
    → IsActive (run limit init es).active_games gs
unfolding get_data
run-init-Parked limit es t gs e =
    find-Entries (λ (t gs : ℕ). IsActive (run limit init es).active_games gs) t gs
      (run limit init es).recon_map (run-Parked limit init es tt) e
