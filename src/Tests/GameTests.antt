-- ===== src/Tests/GameTests.antt =====
-- A game server with the gate 2 on the connection 20, and the player 77 of account 5.
use hardware_server.Prelude.{
  ◌≡◌, ◌↔◌, refl, true, false, none, some, [], ◌∷◌, update, ◌==◌, ℕ, List,
}
use hardware_server.ObjMap.{find, get_data, insert, add_data}
use hardware_server.Game.{Session, client_init, ask_hero, save_data, Game, start_game}
use hardware_server.Game.Sessions.{
  add_user, construct, create_hero, save_hero, offline_user, user_added, game_step, game_run,
  gate_added, add_game_gate, remove_game_gate, GameEvent,
}
use hardware_server.Game.Sessions.Entry.{Plays, new_hero_enters}
use hardware_server.Game.Sessions.GateLoss.{lost_gate_released}
use hardware_server.Game.Sessions.Faults.{WithoutHero, offline_before_hero}

abbrev with_gate : Game
with_gate = record start_game { gates = update start_game.gates 2 (some 20) }

new_hero_enters_example :
    (g1 g2 g3 : Game) × (add_user with_gate 77 5 2 9 ≡ some g1)
    × (create_hero g1 77 ≡ some g2)
    × (save_hero g2 5 ≡ some g3)
    × Plays g2 77 5 2 9
    × (g3.sent ≡ ask_hero 77 5 ∷ client_init 20 77 5 ∷ save_data 5 77 ∷ [])
unfolding get_data find
new_hero_enters_example = new_hero_enters with_gate 77 5 2 9 20 refl refl refl

abbrev player : Session
player = record { tranid = 77; account = 5; gate = 2; online = true; hero = some 5 }

abbrev asked : Game
asked = record start_game {
  onlines = (77, 9) ∷ [];
  sessions =
      update start_game.sessions 9
        (some (record { tranid = 77; account = 5; gate = 2; online = true; hero = none }));
  sent = ask_hero 77 5 ∷ [];
}

asked_reached : game_run start_game (user_added 77 5 2 9 ∷ []) ≡ some asked
unfolding game_run game_step add_user construct get_data find add_data insert
asked_reached = refl

offline_before_hero_example : (offline_user asked 77 ≡ none) ↔ WithoutHero asked 77
offline_before_hero_example = offline_before_hero (user_added 77 5 2 9 ∷ []) asked 77 asked_reached

abbrev gated : Game
gated = record asked {
  gates = update asked.gates 2 (some 20);
  gate_ids = update asked.gate_ids 20 2;
}

abbrev gated_history : List GameEvent
gated_history = gate_added 20 2 ∷ user_added 77 5 2 9 ∷ []

gated_reached : game_run start_game gated_history ≡ some gated
unfolding game_run game_step add_user construct get_data find add_data insert add_game_gate
gated_reached = refl

lost_gate_released_example :
    (g' : Game) × (remove_game_gate gated 20 ≡ some g')
    × (g'.gates 2 ≡ none)
    × ((t p : ℕ) (s : Session)
        → find t g'.onlines ≡ some p
        → g'.sessions p ≡ some s
        → (s.gate == 2) ≡ false)
    × ((t p : ℕ) (s : Session)
        → find t gated.onlines ≡ some p
        → gated.sessions p ≡ some s
        → (s.gate == 2) ≡ false
        → (find t g'.onlines ≡ some p) × (g'.sessions p ≡ some s))
lost_gate_released_example = lost_gate_released gated_history gated 20 2 gated_reached refl refl
