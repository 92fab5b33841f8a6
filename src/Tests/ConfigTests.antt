-- ===== src/Tests/ConfigTests.antt =====
-- Two configured equips, and a table with two rows for one level.
use hardware_server.Prelude.{◌+◌, ◌≡◌, refl, false, ◌&&◌, some, [], ◌∷◌, is_some, arith, ltb, leb}
use hardware_server.Prelude.Int.{ℤ, pos}
use hardware_server.Prelude.Text.{codes}
use hardware_server.ObjMap.{find}
use hardware_server.Hero.{Hero}
use hardware_server.Hero.Config.{
  HeroEquipConfig, HeroConfig, LevelRow, get_equip_level_up_config, load_levels, load_from_config,
}
use hardware_server.Hero.Config.Levels.{get_equip_level_up_config-load_levels}
use hardware_server.Hero.Config.Ids.{load_from_config_ids}

abbrev equip_config : HeroEquipConfig
equip_config = record { equip_config_id = pos 3; equip_level = pos 1; equip_conut = pos 1 }

abbrev config : HeroConfig
config = record {
  gold = pos 100;
  diamond = pos 5;
  level = 1;
  equips = equip_config ∷ equip_config ∷ [];
  suits_name = (pos 1, codes "fire") ∷ [];
}

abbrev fresh : Hero
fresh = record {
  info = record {
    account = 5;
    level = 1;
    name = codes "test";
    action_point = pos 0;
    diamand = pos 0;
    gold = pos 0;
    suits = [];
  };
  equips = [];
  toys = [];
  account = 5;
  online = false;
}

load_from_config_ids_example :
    ((load_from_config config 40 fresh).0 ≡ 42)
    × (is_some (find 42 (load_from_config config 40 fresh).1.equips) ≡ ltb 40 42 && leb 42 (40 + 2))
load_from_config_ids_example = load_from_config_ids config 40 fresh 42 refl (omega arith)

abbrev level_row : ℤ → LevelRow
level_row gold = record {
  toy_config_id = pos 3;
  toy_config_level = pos 2;
  cost = record { toy_config_count = pos 1; toy_config_diamand = pos 0; toy_config_gold = gold };
}

get_equip_level_up_config-load_levels_example :
    get_equip_level_up_config
      (load_levels [] (level_row (pos 10) ∷ level_row (pos 20) ∷ []))
      (pos 3)
      (pos 2)
    ≡ some (level_row (pos 10)).cost
get_equip_level_up_config-load_levels_example =
    get_equip_level_up_config-load_levels (level_row (pos 10) ∷ level_row (pos 20) ∷ []) (pos 3)
      (pos 2)
