-- ===== src/Gate/Games.antt =====
-- gateserver/game_manager.cpp: which game servers are active, and which one is idle.
pub mod Idle
use hardware_server.Prelude.{
  ℕ, zero, suc, ◌+◌, Bool, true, false, ◌&&◌, Option, none, some, ltb, ◌==◌, if◌then◌else◌,
}
use hardware_server.Gate.State.{GameInfo, Gate, invalid_id, max_game_id, update}

-- The range of ids that the array of active games is read and written at.
abbrev pub in_range : ℕ → Bool
in_range gs = ltb invalid_id gs && ltb gs max_game_id

unfoldable pub get_game_client : Gate → ℕ → Option ℕ
get_game_client g gs = if in_range gs then g.active_games gs else none

-- The pointer is never NULL: the caller passes `this`.
unfoldable pub add_active_game_client : Gate → ℕ → ℕ → Gate
add_active_game_client g c id =
    if in_range id then record g { active_games = update g.active_games id (some c) } else g

unfoldable pub is_games_stop_from : (ℕ → Option ℕ) → ℕ → ℕ → Bool
is_games_stop_from active zero i = true
is_games_stop_from active (suc n) i = elim (active i) [
  | some c ↦ false
  | none ↦ is_games_stop_from active n (i + 1)
]

unfoldable pub is_games_stop : Gate → Bool
unfolding is_games_stop_from
is_games_stop g = is_games_stop_from g.active_games max_game_id 0

-- Whether the client at slot `i` takes the place of the best one so far.
abbrev pub takes_over : (ℕ → GameInfo) → Option ℕ → ℕ → Bool
takes_over clients none c = true
takes_over clients (some b) c = ltb (clients c).onlines (clients b).onlines

-- The loop of `getIdleGameClient`, with `n` slots left from slot `i` on. A client that takes over
-- and is below the limit ends it.
unfoldable pub idle_scan : (ℕ → GameInfo) → ℕ → (ℕ → Option ℕ) → ℕ → ℕ → Option ℕ → Option ℕ
idle_scan clients limit active zero i best = best
idle_scan clients limit active (suc n) i best = elim (active i) [
  | none ↦ idle_scan clients limit active n (i + 1) best
  | some c ↦ elim (takes_over clients best c) [
    | true ↦ elim (ltb (clients c).onlines limit) [
      | true ↦ some c
      | false ↦ idle_scan clients limit active n (i + 1) (some c)
    ]
    | false ↦ idle_scan clients limit active n (i + 1) best
  ]
]

-- `limit` is the configured getGSIdleMax().
unfoldable pub get_idle_game_client : ℕ → Gate → Option ℕ
get_idle_game_client limit g = idle_scan g.clients limit g.active_games max_game_id 0 none

-- `m_activeGames[id] == conn`
abbrev pub holds : Option ℕ → ℕ → Bool
holds none c = false
holds (some b) c = b == c
