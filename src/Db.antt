-- ===== src/Db.antt =====
-- databaseserver/: the database server. Game servers are named by the addresses of their sessions; a
-- query that waits for the database is a task.
pub mod Quest
pub mod Suits
pub mod Answers
pub mod Close
use hardware_server.Prelude.{ℕ, Bool, false, Option, none, List, []}
use hardware_server.Prelude.Int.{ℤ}
use hardware_server.Prelude.Text.{Text}
use hardware_server.Hero.{HeroInfo, Equip, Toy}

-- A row of the table `character`.
pub record HeroRow : Type 0 where
  pub account_id : ℕ
  pub level : ℕ
  pub name : Text
  pub action_point : ℤ
  pub gold : ℤ
  pub diamand : ℤ
  pub suits_name : Text

-- The result of the query of toys: its rows, and whether it has the column UNIX_TIMESTAMP(`verify_time`)
-- that is read for the time stamp. A row throws an exception for a column that it does not have.
pub record ToyResult : Type 0 where
  pub rows : List Toy
  pub has_timestamp : Bool

-- MsgHeroDataDB2GS; what is not set has the value of an empty message.
pub record HeroAnswer : Type 0 where
  pub account : ℕ
  pub hero : HeroInfo
  pub equips : List Equip
  pub toys : List Toy

-- tgHeroData and tgVerify: what goes with a task.
pub record HeroQuest : Type 0 where
  pub account : ℕ
  pub tranid : ℕ
  pub gsid : ℕ
  pub info : HeroAnswer

pub record VerifyQuest : Type 0 where
  pub account : ℕ
  pub tranid : ℕ
  pub gsid : ℕ
  pub cd_key : Text

-- The statements that are handed to the database: the three queries for a hero, that for a toy, and
-- those whose answer is not used.
pub data Task : Type 0 where
  select_character : ℕ → HeroQuest → Task
  select_equips : ℕ → HeroQuest → Task
  select_toys : ℕ → HeroQuest → Task
  select_toy : Text → VerifyQuest → Task
  update_toy : ℕ → Text → Task
  execute : Text → Task

pub data DbMessage : Type 0 where
  hero_data : HeroAnswer → DbMessage
  need_create_hero : DbMessage
  verify_toy : Toy → ℕ → DbMessage
  save_all_heroes : DbMessage

-- What is sent: to which session, under which flag.
pub record DbSent : Type 0 where
  pub session : ℕ
  pub flag : ℕ
  pub message : DbMessage

-- `failed` is a process that an exception which nobody catches has ended.
pub record DbServer : Type 0 where
  pub games : ℕ → Option ℕ
  pub game_ids : ℕ → ℕ
  pub receive_close_msg : Bool
  pub closing : Bool
  pub wait_stop : Bool
  pub failed : Bool
  pub tasks : List Task
  pub sent : List DbSent

-- GameManager::GameManager, GameSession::GameSession and DBQuestManager::DBQuestManager
abbrev pub start_db : DbServer
start_db = record {
  games = λ i. none;
  game_ids = λ p. 0;
  receive_close_msg = false;
  closing = false;
  wait_stop = false;
  failed = false;
  tasks = [];
  sent = [];
}
