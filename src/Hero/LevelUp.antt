-- ===== src/Hero/LevelUp.antt =====
-- gameserver/DreamHero.cpp: EquipLevelUp, and gameserver/GameConfig.cpp: getEquipLevelUpConfig.
pub mod Outcome
use hardware_server.Prelude.{
  ℕ, ◌≡◌, ◌≢◌, refl, inl, inr, Option, none, some, List, [], ◌∷◌, arith, if◌then◌else◌, Bool-cases,
  ◌+◌,
}
use hardware_server.Prelude.Int.{
  ℤ, pos, ◌+ℤ◌, ◌-ℤ◌, ◌≤ℤ◌, ltb_ℤ, to_s32, to_s32_id, InS32, int_laws,
}
use hardware_server.ObjMap.{find, insert}
use hardware_server.ObjMap.Laws.{find-insert}
use hardware_server.Hero.{
  Hero, Equip, HeroError, not_enough_gold, not_enough_diamand, not_found_equip, not_enough_equip,
}

-- HeroEquipLevelUpConfig
pub record LevelUpConfig : Type 0 where
  pub toy_config_count : ℤ
  pub toy_config_diamand : ℤ
  pub toy_config_gold : ℤ

-- What the player is told: S2CEquipLevelUpACK, S2CEquipLevelUpErrorACK. The handler does not set the
-- acknowledgement's `equip_id`.
pub data Reply : Type 0 where
  level_up : (level gold count diamand : ℤ) → Reply
  refused : ℕ → HeroError → Reply

unfoldable pub pay : Hero → ℕ → Equip → LevelUpConfig → ℤ → Hero × List Reply
pay h id e cost level =
    let gold = to_s32 (h.info.gold -ℤ cost.toy_config_gold) in
    let diamand = to_s32 (h.info.diamand -ℤ cost.toy_config_diamand) in
    let count = to_s32 (e.count -ℤ cost.toy_config_count) in
    (
      record h {
        info = record h.info { gold = gold; diamand = diamand };
        equips = insert id (record e { count = count; level = level }) h.equips;
      },
      level_up level gold count diamand ∷ [],
    )

-- The tests in the order of the handler.
unfoldable pub try_level_up : Hero → ℕ → Equip → LevelUpConfig → ℤ → Hero × List Reply
unfolding pay
try_level_up h id e cost level =
    if ltb_ℤ e.count cost.toy_config_count
    then (h, refused id not_enough_equip ∷ [])
    else if ltb_ℤ h.info.gold cost.toy_config_gold
    then (h, refused id not_enough_gold ∷ [])
    else if ltb_ℤ h.info.diamand cost.toy_config_diamand
    then (h, refused id not_enough_diamand ∷ [])
    else pay h id e cost level

-- `config` is getEquipLevelUpConfig(config_id, level). Where it answers NULL the error stays `no_error`.
unfoldable pub equip_level_up : (ℤ → ℤ → Option LevelUpConfig) → Hero → ℕ → Hero × List Reply
unfolding try_level_up
equip_level_up config h id = elim (find id h.equips) [
  | none ↦ (h, refused id not_found_equip ∷ [])
  | some e ↦ elim (config e.equip_id (to_s32 (e.level +ℤ pos 1))) [
    | none ↦ (h, [])
    | some cost ↦ try_level_up h id e cost (to_s32 (e.level +ℤ pos 1))
  ]
]
