-- ===== src/Hero.antt =====
-- gameserver/DreamHero.h with the messages of message/common.proto and message/dream_hero.proto
-- that it keeps: a player's hero. An `int` is a signed integer, an unsigned field a number.
pub mod Suits
pub mod LevelUp
pub mod Equips
pub mod Save
pub mod SuitText
pub mod Toys
pub mod Config
use hardware_server.Prelude.{ℕ, Bool, Option, List}
use hardware_server.Prelude.Int.{ℤ}
use hardware_server.Prelude.Text.{Text}
use hardware_server.ObjMap.{StdMap}

pub record Suit : Type 0 where
  pub suit_id : ℤ
  pub suit_name : Text
  pub equip_ids : List ℕ

pub record Equip : Type 0 where
  pub id : ℕ
  pub equip_id : ℤ
  pub level : ℤ
  pub equipped : Bool
  pub client_save_flag : ℤ
  pub count : ℤ

pub record Toy : Type 0 where
  pub toy_cd_key : Text
  pub time_stamp : ℕ
  pub toy_config_id : ℤ
  pub toy_config_type : ℤ
  pub toy_level : ℤ

-- MsgHeroData
pub record HeroInfo : Type 0 where
  pub account : ℕ
  pub level : ℕ
  pub name : Text
  pub action_point : ℤ
  pub diamand : ℤ
  pub gold : ℤ
  pub suits : List Suit

-- HeroErrorCode
pub data HeroError : Type 0 where
  no_error server_error_no_suit_id toy_cd_key_already_verify toy_cd_key_have_been_in_used :
      HeroError
  not_enough_gold not_enough_diamand not_found_equip not_found_config not_enough_equip : HeroError

-- The members of `DreamHero` that do not point to other objects.
pub record Hero : Type 0 where
  pub info : HeroInfo
  pub equips : StdMap Equip
  pub toys : List (Text × Toy)
  pub account : ℕ
  pub online : Bool
