-- ===== src/Gate/Handlers/Ordered.antt =====
-- The four maps of the user manager keep their keys in order, so they are maps: the lemmas that ask
-- for ordered maps hold after every history.
use hardware_server.Prelude.{ℕ, inl, inr, List, [], ◌∷◌, arith, Option-cases}
use hardware_server.ObjMap.Laws.{IsOrdered, add_data-IsOrdered, erase_data-IsOrdered}
use hardware_server.ObjMap.Values.{erase_value-IsOrdered}
use hardware_server.Gate.State.{Gate, init, remove_wait, remove_reconnect}
use hardware_server.Gate.Games.{get_game_client, add_active_game_client}
use hardware_server.Gate.Users.{
  kick_user, add_to_wait, check_close, check_conn, event_call_remove_wait, event_call_remove_reconn,
}
use hardware_server.Gate.Handlers.{
  Event, login_connected, login_user, login_kick, report, fired, user_accepted, user_login,
  user_message, user_expired, user_closed, game_registered, game_onlines, game_message, game_change,
  game_closed, on_accept, on_user_close, parse_login_game, parse_user_msg, parse_game_register,
  parse_game_onlines, parse_game_msg, parse_change_gs, remove_active_game_client, timer_at, fire,
  step, run,
}

pub record Ordered (g : Gate) : Type 0 where
  pub onlines : IsOrdered g.onlines
  pub accounts : IsOrdered g.onlineaccs
  pub waiting : IsOrdered g.wait_map
  pub parked : IsOrdered g.recon_map

kick-Ordered : (g : Gate) (t a : ℕ) → Ordered g → Ordered (kick_user g t a)
unfolding kick_user get_game_client
kick-Ordered g t a h = record {
  onlines = ground (arith, erase_data-IsOrdered g.onlines t);
  accounts = grind (arith, erase_data-IsOrdered);
  waiting = ground (arith, erase_data-IsOrdered g.wait_map t);
  parked = ground (arith, erase_data-IsOrdered g.recon_map t);
}

wait-Ordered : (g : Gate) (t a : ℕ) → Ordered g → Ordered (add_to_wait g t a)
unfolding add_to_wait
wait-Ordered g t a h = grind (arith, kick-Ordered, add_data-IsOrdered)

conn-Ordered : (limit : ℕ) (g : Gate) (t p : ℕ) → Ordered g → Ordered (check_conn limit g t p).0
unfolding check_conn
conn-Ordered limit g t p h = record {
  onlines = grind (arith, add_data-IsOrdered);
  accounts = grind (arith, add_data-IsOrdered);
  waiting = grind (arith, erase_data-IsOrdered);
  parked = grind (arith, erase_data-IsOrdered);
}

close-Ordered : (g : Gate) (p : ℕ) → Ordered g → Ordered (check_close g p)
unfolding check_close
close-Ordered g p h = record {
  onlines = grind (arith, erase_data-IsOrdered);
  accounts = grind (arith, erase_value-IsOrdered);
  waiting = ground arith;
  parked = grind (arith, add_data-IsOrdered);
}

reconn-Ordered : (g : Gate) (t : ℕ) → Ordered g → Ordered (event_call_remove_reconn g t)
unfolding event_call_remove_reconn
reconn-Ordered g t h = record {
  onlines = ground arith;
  accounts = grind (arith, erase_value-IsOrdered);
  waiting = ground arith;
  parked = grind (arith, erase_data-IsOrdered);
}

fire-Ordered : (g : Gate) (i : ℕ) → Ordered g → Ordered (fire g i)
unfolding fire event_call_remove_wait
fire-Ordered g i h = elim (Option-cases (timer_at g.timers i)) [
  | inl e ↦ rw (e, fire) h
  | inr (remove_wait t time, e) ↦ rw (e, fire) (grind (arith, erase_data-IsOrdered))
  | inr (remove_reconnect t time, e) ↦ rw (e, fire) (grind (arith, reconn-Ordered))
]

step-Ordered : (limit : ℕ) (g : Gate) (e : Event) → Ordered g → Ordered (step limit g e)
unfolding step
step-Ordered limit g login_connected h = ground arith
step-Ordered limit g (login_user t a) h = wait-Ordered g t a h
step-Ordered limit g (login_kick t a) h = kick-Ordered g t a h
step-Ordered limit g report h = ground arith
step-Ordered limit g (fired i) h = fire-Ordered g i h
step-Ordered limit g (user_accepted p) h = unfold on_accept in ground arith
step-Ordered limit g (user_login p t) h =
    unfold parse_login_game in ground (arith, conn-Ordered limit g t p)
step-Ordered limit g (user_message p m) h = unfold parse_user_msg in ground arith
step-Ordered limit g (user_expired p) h = ground arith
step-Ordered limit g (user_closed p) h = unfold on_user_close in ground (arith, close-Ordered g p)
step-Ordered limit g (game_registered c id) h =
    unfold parse_game_register add_active_game_client in ground arith
step-Ordered limit g (game_onlines c n) h = unfold parse_game_onlines in ground arith
step-Ordered limit g (game_message flag m) h = unfold parse_game_msg in ground arith
step-Ordered limit g (game_change c flag id) h = unfold parse_change_gs in ground arith
step-Ordered limit g (game_closed c) h =
    unfold remove_active_game_client in grind (arith, erase_value-IsOrdered)

run-Ordered : (limit : ℕ) (g : Gate) (es : List Event) → Ordered g → Ordered (run limit g es)
unfolding run
run-Ordered limit g [] h = h
run-Ordered limit g (e ∷ es) h = run-Ordered limit (step limit g e) es (step-Ordered limit g e h)

-- After every history of the gate the four maps of the user manager are in the order of their keys.
pub run-init-Ordered : (limit : ℕ) (es : List Event) → Ordered (run limit init es)
run-init-Ordered limit es =
    run-Ordered limit init es (record { onlines = tt; accounts = tt; waiting = tt; parked = tt })
