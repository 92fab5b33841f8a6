-- ===== src/Hero/Config.antt =====
-- gameserver/GameConfig.cpp, and LoadFromConfig of gameserver/DreamHero.cpp: what a new hero starts with.
-- The rows of the tables are arguments, in the order of the results. Ids are unsigned with 64 bits.
pub mod Ids
pub mod Levels
use hardware_server.Prelude.{
  ℕ, ◌+◌, ◌%◌, ◌^◌, Bool, true, false, ◌&&◌, Option, none, some, List, [], ◌∷◌, ◌++◌, map, is_some,
  if◌then◌else◌,
}
use hardware_server.Prelude.Int.{ℤ, pos, eq_ℤ}
use hardware_server.Prelude.Text.{Text}
use hardware_server.ObjMap.{StdMap, insert}
use hardware_server.Hero.{Suit, Equip, Hero}
use hardware_server.Hero.LevelUp.{LevelUpConfig}

pub record HeroEquipConfig : Type 0 where
  pub equip_config_id : ℤ
  pub equip_level : ℤ
  pub equip_conut : ℤ

-- `suits_name` is a map from numbers to texts, in the order of the numbers.
pub record HeroConfig : Type 0 where
  pub gold : ℤ
  pub diamond : ℤ
  pub level : ℕ
  pub equips : List HeroEquipConfig
  pub suits_name : List (ℤ × Text)

-- A row of hero_equip_level_config.
pub record LevelRow : Type 0 where
  pub toy_config_id : ℤ
  pub toy_config_level : ℤ
  pub cost : LevelUpConfig

-- _equips_level_up_configs, the map of maps, by both keys.
abbrev pub LevelConfigs : Type 0
LevelConfigs = List LevelRow

abbrev pub is_for : ℤ → ℤ → LevelRow → Bool
is_for id level r = eq_ℤ r.toy_config_id id && eq_ℤ r.toy_config_level level

unfoldable pub get_equip_level_up_config : LevelConfigs → ℤ → ℤ → Option LevelUpConfig
get_equip_level_up_config [] id level = none
get_equip_level_up_config (r ∷ rs) id level =
    let rest = get_equip_level_up_config rs id level in
    if is_for id level r then some r.cost else rest

-- The last loop of Load: a row is taken if there is none for its keys.
unfoldable pub load_levels : LevelConfigs → List LevelRow → LevelConfigs
unfolding get_equip_level_up_config
load_levels configs [] = configs
load_levels configs (r ∷ rows) =
    let known = is_some (get_equip_level_up_config configs r.toy_config_id r.toy_config_level) in
    load_levels (if known then configs else r ∷ configs) rows

-- generateEquipID: the new _generate_id, which is the id as well.
unfoldable pub generate_equip_id : ℕ → ℕ
generate_equip_id generate_id = (generate_id + 1) % 2 ^ 64

abbrev pub new_equip : ℕ → HeroEquipConfig → Equip
new_equip id c = record {
  id = id;
  equip_id = c.equip_config_id;
  level = c.equip_level;
  equipped = true;
  client_save_flag = pos 0;
  count = c.equip_conut;
}

-- The loop of LoadFromConfig over the equips: _generate_id and _hero_equips.
unfoldable pub load_equips : ℕ → StdMap Equip → List HeroEquipConfig → ℕ × StdMap Equip
unfolding generate_equip_id
load_equips generate_id equips [] = (generate_id, equips)
load_equips generate_id equips (c ∷ cs) =
    let id = generate_equip_id generate_id in load_equips id (insert id (new_equip id c) equips) cs

abbrev pub new_suit : ℤ × Text → Suit
new_suit (id, name) = record { suit_id = id; suit_name = name; equip_ids = [] }

-- LoadFromConfig: _generate_id and the hero.
unfoldable pub load_from_config : HeroConfig → ℕ → Hero → ℕ × Hero
unfolding load_equips
load_from_config c generate_id h =
    let (next, equips) = load_equips generate_id h.equips c.equips in
    (
      next,
      record h {
        info = record h.info {
          diamand = c.diamond;
          level = c.level;
          gold = c.gold;
          suits = h.info.suits ++ map new_suit c.suits_name;
        };
        equips = equips;
      },
    )
