-- ===== src/Tests/DbTests.antt =====
-- The database server with one game server, and a hero with a toy.
use hardware_server.Prelude.{◌≤◌, true, none, some, [], ◌∷◌, update}
use hardware_server.Prelude.Int.{pos}
use hardware_server.Prelude.Text.{codes}
use hardware_server.Hero.{Toy}
use hardware_server.Db.{HeroRow, DbServer, start_db}
use hardware_server.Db.Quest.{Tables, db_run, game_registered, save_all_asked}
use hardware_server.Db.Close.{releases, one_release}

abbrev serving : DbServer
serving = record start_db {
  games = update start_db.games 3 (some 9);
  game_ids = update start_db.game_ids 9 3;
}

abbrev dreamer : HeroRow
dreamer = record {
  account_id = 5;
  level = 1;
  name = codes "test";
  action_point = pos 0;
  gold = pos 10;
  diamand = pos 0;
  suits_name = codes "1,rain,7";
}

abbrev lamp : Toy
lamp = record {
  toy_cd_key = codes "AB12";
  time_stamp = 700;
  toy_config_id = pos 3;
  toy_config_type = pos 1;
  toy_level = pos 1;
}

abbrev full : Tables
full = record {
  characters = λ a. some (dreamer ∷ []);
  equips = λ a. some [];
  toys = λ a. some (record { rows = lamp ∷ []; has_timestamp = true });
  toy = λ key. none;
  now = 0;
}

abbrev broken : Tables
broken = record full { characters = λ a. none; equips = λ a. none; toys = λ a. none }

one_release_example :
    releases
      (db_run start_db
        (game_registered 9 3 ∷ game_registered 8 4 ∷ save_all_asked 9 ∷ save_all_asked 8 ∷ [])).sent
    ≤ 1
one_release_example =
    one_release
      (game_registered 9 3 ∷ game_registered 8 4 ∷ save_all_asked 9 ∷ save_all_asked 8 ∷ [])
