-- ===== src/Db/Quest.antt =====
-- databaseserver/db_quest.cpp, game_manager.cpp and game_session.cpp: the questions of the game
-- servers and the answers of the database.
use hardware_server.Prelude.{
  pick, ℕ, ◌%◌, Option, none, some, List, [], ◌∷◌, ◌++◌, map, Bool, true, false, ◌&&◌, ◌==◌, ltb,
  if◌then◌else◌, update,
}
use hardware_server.Prelude.Int.{pos}
use hardware_server.Prelude.Text.{Text, c_str}
use hardware_server.Text.Split.{split_string}
use hardware_server.Text.Numbers.{is_intger, atoi, to_u64}
use hardware_server.Hero.{Suit, HeroInfo, Equip, Toy}
use hardware_server.Db.{
  HeroRow, ToyResult, HeroAnswer, HeroQuest, VerifyQuest, Task, select_character, select_equips,
  select_toys, select_toy, update_toy, execute, DbMessage, hero_data, need_create_hero, verify_toy,
  save_all_heroes, DbServer,
}

-- One suit of the column `suits_name`: its number, its name and its equips, each of which is read
-- from the text of the number.
unfoldable pub suit_of_pieces : List Text → List Suit
suit_of_pieces [] = []
suit_of_pieces (id ∷ []) = []
suit_of_pieces (id ∷ name ∷ equips) =
    if is_intger id
    then record {
      suit_id = atoi id;
      suit_name = name;
      equip_ids = map (λ e. to_u64 (atoi id)) equips;
    }
      ∷ []
    else []

abbrev pub suits_of_texts : List Text → List Suit
suits_of_texts [] = []
suits_of_texts (t ∷ ts) = suit_of_pieces (split_string t (44 ∷ [])).0 ++ suits_of_texts ts

unfoldable pub load_suits : Text → List Suit
load_suits sql_suits_name = suits_of_texts (split_string sql_suits_name (58 ∷ [])).0

abbrev pub no_hero : HeroInfo
no_hero = record {
  account = 0;
  level = 0;
  name = [];
  action_point = pos 0;
  diamand = pos 0;
  gold = pos 0;
  suits = [];
}

abbrev pub no_answer : HeroAnswer
no_answer = record { account = 0; hero = no_hero; equips = []; toys = [] }

-- GameManager::sendMessage
unfoldable pub send_message : DbServer → DbMessage → ℕ → ℕ → DbServer
send_message d m flag gs =
    if ltb 0 gs && ltb gs 255
    then elim (d.games gs) [
      | none ↦ d
      | some p ↦ record d { sent = d.sent ++ record { session = p; flag = flag; message = m } ∷ [] }
    ]
    else d

abbrev pub add_task : DbServer → Task → DbServer
add_task d t = record d { tasks = d.tasks ++ t ∷ [] }

unfoldable pub query_hero_info : DbServer → ℕ → ℕ → ℕ → DbServer
query_hero_info d a t gs =
    add_task d
      (select_character a (record { account = a; tranid = t; gsid = gs; info = no_answer }))

unfoldable pub verify_toy_cd_key : DbServer → ℕ → ℕ → ℕ → Text → DbServer
verify_toy_cd_key d t gs a key =
    add_task d (select_toy key (record { account = a; tranid = t; gsid = gs; cd_key = key }))

unfoldable pub save_sql_data : DbServer → Text → DbServer
save_sql_data d sql = add_task d (execute sql)

-- saveToClose
unfoldable pub save_to_close : DbServer → ℕ → DbServer
unfolding send_message
save_to_close d gs =
    if d.receive_close_msg
    then d
    else send_message (record d { receive_close_msg = true; closing = true }) save_all_heroes 0 gs

-- onSaveToClose
unfoldable pub on_save_to_close : DbServer → DbServer
on_save_to_close d = record d { wait_stop = true }

abbrev pub hero_of_row : HeroRow → HeroInfo
hero_of_row row = record {
  account = row.account_id;
  level = row.level;
  name = c_str row.name;
  action_point = row.action_point;
  diamand = row.diamand;
  gold = row.gold;
  suits = load_suits (c_str row.suits_name);
}

-- dbDoQueryHeroInfo; `none` is a query that failed.
unfoldable pub db_do_query_hero_info : DbServer → HeroQuest → Option (List HeroRow) → DbServer
unfolding send_message
db_do_query_hero_info d q none = send_message d need_create_hero q.tranid q.gsid
db_do_query_hero_info d q (some []) = send_message d need_create_hero q.tranid q.gsid
db_do_query_hero_info d q (some (row ∷ rows)) = add_task d (
    select_equips row.account_id
      (record q { info = record q.info { account = row.account_id; hero = hero_of_row row } }))

-- dbDoQueryHeroEquips
unfoldable pub db_do_query_hero_equips : DbServer → HeroQuest → Option (List Equip) → DbServer
db_do_query_hero_equips d q none = d
db_do_query_hero_equips d q (some rows) =
    add_task d
      (select_toys q.account (record q { info = record q.info { equips = q.info.equips ++ rows } }))

-- Whether the loop over the rows of a result reads no column that is not there.
abbrev pub is_readable : List Toy → Bool → Bool
is_readable [] has_timestamp = true
is_readable (toy ∷ rows) has_timestamp = has_timestamp

-- dbDoQuerryHeroToys
unfoldable pub db_do_query_hero_toys : DbServer → HeroQuest → Option ToyResult → DbServer
unfolding send_message
db_do_query_hero_toys d q none = d
db_do_query_hero_toys d q (some r) =
    if is_readable r.rows r.has_timestamp
    then send_message d (hero_data (record q.info { toys = q.info.toys ++ r.rows })) q.tranid q.gsid
    else record d { failed = true }

-- dbDoQuerryToyVerify: a row is a toy and the account that it stands under.
unfoldable pub db_do_query_toy_verify :
    ℕ → DbServer → VerifyQuest → Option (List (Toy × ℕ)) → DbServer
unfolding send_message
db_do_query_toy_verify now d q none = d
db_do_query_toy_verify now d q (some []) = d
db_do_query_toy_verify now d q (some ((toy, acc) ∷ rows)) =
    send_message (add_task d (update_toy q.account q.cd_key))
      (verify_toy (record toy { time_stamp = now }) acc) q.tranid q.gsid

-- GameManager::addGame
unfoldable pub add_game : DbServer → ℕ → ℕ → DbServer
add_game d gs p =
    if ltb 0 gs && ltb gs 255 then record d { games = update d.games gs (some p) } else d

abbrev pub is_at : Option ℕ → ℕ → Bool
is_at none p = false
is_at (some q) p = q == p

-- GameManager::removeGame
unfoldable pub remove_game : DbServer → ℕ → DbServer
remove_game d p =
    let gs = d.game_ids p in
    if ltb 0 gs && ltb gs 255 && is_at (d.games gs) p
    then record d { games = update d.games gs none }
    else d

-- parseGameRegister; m_game_id has 16 bits, and the connection of a wrong version is closed and added
-- all the same.
unfoldable pub parse_game_server_register : DbServer → ℕ → ℕ → DbServer
unfolding add_game
parse_game_server_register d p serverid =
    let gs = serverid % 65536 in add_game (record d { game_ids = update d.game_ids p gs }) gs p

-- The answers of the database at one time; `none` is a query that fails.
pub record Tables : Type 0 where
  pub characters : ℕ → Option (List HeroRow)
  pub equips : ℕ → Option (List Equip)
  pub toys : ℕ → Option ToyResult
  pub toy : Text → Option (List (Toy × ℕ))
  pub now : ℕ

-- The callback of a task.
unfoldable pub run_task : Tables → DbServer → Task → DbServer
unfolding db_do_query_hero_info db_do_query_hero_equips db_do_query_hero_toys db_do_query_toy_verify
run_task t d (select_character a q) = db_do_query_hero_info d q (t.characters a)
run_task t d (select_equips a q) = db_do_query_hero_equips d q (t.equips a)
run_task t d (select_toys a q) = db_do_query_hero_toys d q (t.toys a)
run_task t d (select_toy key q) = db_do_query_toy_verify t.now d q (t.toy key)
run_task t d (update_toy a key) = d
run_task t d (execute sql) = d

pub data DbEvent : Type 0 where
  game_registered : ℕ → ℕ → DbEvent
  game_closed : ℕ → DbEvent
  hero_asked : ℕ → ℕ → ℕ → DbEvent
  save_asked : ℕ → Text → DbEvent
  toy_asked : ℕ → ℕ → ℕ → Text → DbEvent
  save_all_asked : ℕ → DbEvent
  save_time_over : DbEvent
  -- The database has carried out a task; tasks of different threads overtake each other.
  task_done : ℕ → Tables → DbEvent

abbrev pub finish_task : DbServer → Tables → Option (Task × List Task) → DbServer
finish_task d t none = d
finish_task d t (some (task, rest)) = run_task t (record d { tasks = rest }) task

-- What a running process does.
unfoldable pub db_handle : DbServer → DbEvent → DbServer
unfolding run_task remove_game parse_game_server_register query_hero_info save_sql_data
    verify_toy_cd_key save_to_close on_save_to_close
db_handle d (game_registered p gs) = parse_game_server_register d p gs
db_handle d (game_closed p) = remove_game d p
db_handle d (hero_asked p a flag) = query_hero_info d a flag (d.game_ids p)
db_handle d (save_asked p sql) = save_sql_data d sql
db_handle d (toy_asked p a flag key) = verify_toy_cd_key d flag (d.game_ids p) a key
db_handle d (save_all_asked p) = save_to_close d (d.game_ids p)
db_handle d save_time_over =
    if d.closing then on_save_to_close (record d { closing = false }) else d
db_handle d (task_done i t) = finish_task d t (pick i d.tasks)

-- Nothing happens in a process that has ended.
unfoldable pub db_step : DbServer → DbEvent → DbServer
unfolding db_handle
db_step d e = if d.failed then d else db_handle d e

unfoldable pub db_run : DbServer → List DbEvent → DbServer
unfolding db_step
db_run d [] = d
db_run d (e ∷ es) = db_run (db_step d e) es
