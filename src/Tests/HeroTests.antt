-- ===== src/Tests/HeroTests.antt =====
-- A hero with one ring, and lists of suits, equips and toys.
use hardware_server.Prelude.Text.{codes}
use hardware_server.Prelude.{
  ℕ, ◌≡◌, refl, true, Option, none, some, List, [], ◌∷◌, ◌++◌, map, arith, if◌then◌else◌, take, All,
  concat,
}
use hardware_server.Prelude.Int.{ℤ, pos, ◌+ℤ◌, eq_ℤ}
use hardware_server.ObjMap.{find}
use hardware_server.Hero.{Equip, Hero}
use hardware_server.Hero.LevelUp.{LevelUpConfig, level_up, equip_level_up}
use hardware_server.Hero.LevelUp.Outcome.{Paid, Sane, equip_level_up_pays}
use hardware_server.Hero.Equips.{send_equips, received, received-send_equips}
use hardware_server.Hero.Save.{
  save_toys, save_equips, statement, IsBatch, save_toys_batches, save_equips_repeats,
}

abbrev ring : Equip
ring = record {
  id = 7;
  equip_id = pos 100;
  level = pos 1;
  equipped = true;
  client_save_flag = pos 0;
  count = pos 3;
}

abbrev rich : Hero
rich = record {
  info = record {
    account = 5;
    level = 1;
    name = codes "dreamer";
    action_point = pos 0;
    diamand = pos 4;
    gold = pos 50;
    suits = [];
  };
  equips = (7, ring) ∷ [];
  toys = [];
  account = 5;
  online = true;
}

abbrev cost : LevelUpConfig
cost = record { toy_config_count = pos 2; toy_config_diamand = pos 4; toy_config_gold = pos 10 }

abbrev cheap_config : ℤ → ℤ → Option LevelUpConfig
cheap_config equip_id level = if eq_ℤ level (pos 2) then some cost else none

cost-Sane : Sane rich ring cost
unfolding ◌+ℤ◌
cost-Sane = record {
  gold = ground arith;
  diamand = ground arith;
  count = ground arith;
  level = ground arith;
  cost_count = ground arith;
  cost_gold = ground arith;
  cost_diamand = ground arith;
}

equip_level_up_pays_example :
    (l g c d : ℤ) × ((equip_level_up cheap_config rich 7).1 ≡ level_up l g c d ∷ [])
    × Paid rich 7 ring cost (equip_level_up cheap_config rich 7).0 l g c d
unfolding find ◌+ℤ◌
equip_level_up_pays_example =
    equip_level_up_pays cheap_config rich 7 ring cost refl refl cost-Sane
      (omega arith, omega arith, omega arith)

abbrev numbers : List ℕ
numbers =
    1 ∷ 2 ∷ 3 ∷ 4 ∷ 5 ∷ 6 ∷ 7 ∷ 8 ∷ 9 ∷ 10 ∷ 11 ∷ 12 ∷ 13 ∷ 14 ∷ 15 ∷ 16 ∷ 17 ∷ 18 ∷ 19 ∷ 20 ∷ []

received-send_equips_example :
    received (send_equips (numbers ++ numbers ++ numbers)) ≡ take 41 (numbers ++ numbers ++ numbers)
received-send_equips_example = received-send_equips (numbers ++ numbers ++ numbers)

save_toys_batches_example :
    (ls : List (List ℕ)) × (save_toys (numbers ++ numbers) ≡ map statement ls)
    × (concat ls ≡ numbers ++ numbers)
    × All IsBatch ls
save_toys_batches_example = save_toys_batches (numbers ++ numbers)

save_equips_repeats_example :
    save_equips (numbers ++ 21 ∷ 22 ∷ [])
    ≡ statement numbers ∷ (statement numbers ++ statement (21 ∷ 22 ∷ [])) ∷ []
save_equips_repeats_example = save_equips_repeats numbers 21 (22 ∷ []) refl (omega arith)
