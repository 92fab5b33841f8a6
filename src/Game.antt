-- ===== src/Game.antt =====
-- The players of the game server: gameserver/gate_manager.h, session.h and DreamHeroManager.h. Sessions
-- are named by numbers (addresses); `sessions` has what stands at an address, `none` where no session
-- is allocated, so that a pointer to it dangles. A hero is never freed and is named by its account.
-- What a call does to the process, when it reads through NULL or through a dangling pointer, is `none`.
pub mod Sessions
use hardware_server.Prelude.{ℕ, Bool, false, Option, none, List, [], ◌∷◌, ◌++◌}
use hardware_server.ObjMap.{StdMap}

-- Session; `online` is the state _session_online_, and `hero` the account of `_dream_hero`.
pub record Session : Type 0 where
  pub tranid : ℕ
  pub account : ℕ
  pub gate : ℕ
  pub online : Bool
  pub hero : Option ℕ

-- The members of DreamHero that tie it to a session; `saving` tells that its timer for saving runs.
pub record HeroLink : Type 0 where
  pub session : Option ℕ
  pub online : Bool
  pub saving : Bool

-- What is sent: the messages of a login to a player, by a gate's connection; a hero's answer; the
-- request for a hero; the statements that save a hero.
pub data GameSent : Type 0 where
  client_init : ℕ → ℕ → ℕ → GameSent
  hero_reply : ℕ → ℕ → ℕ → GameSent
  ask_hero : ℕ → ℕ → GameSent
  save_data : ℕ → ℕ → GameSent

pub record Game : Type 0 where
  pub gates : ℕ → Option ℕ
  pub gate_ids : ℕ → ℕ
  pub onlines : StdMap ℕ
  pub sessions : ℕ → Option Session
  pub heroes : StdMap HeroLink
  pub sent : List GameSent

abbrev pub start_game : Game
start_game = record {
  gates = λ i. none;
  gate_ids = λ p. 0;
  onlines = [];
  sessions = λ p. none;
  heroes = [];
  sent = [];
}
