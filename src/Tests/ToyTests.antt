-- ===== src/Tests/ToyTests.antt =====
-- Two heroes and a toy that the first one has.
use hardware_server.Prelude.{◌≡◌, refl, ◌&&◌, none, some, [], ◌∷◌, ◌==◌, if◌then◌else◌}
use hardware_server.Prelude.Int.{pos}
use hardware_server.Prelude.Text.{codes}
use hardware_server.Prelude.TextMap.{same_text, find_text}
use hardware_server.ObjMap.{find}
use hardware_server.Hero.{Toy}
use hardware_server.Hero.Toys.{ToyHeroes, hero_verify_toy}
use hardware_server.Hero.Toys.Owners.{toy_of, kept, hero_verify_toy_lem}

abbrev sword : Toy
sword = record {
  toy_cd_key = codes "AB12";
  time_stamp = 700;
  toy_config_id = pos 3;
  toy_config_type = pos 1;
  toy_level = pos 1;
}

abbrev realm : ToyHeroes
realm = record {
  heroes = (5, (codes "AB12", sword) ∷ []) ∷ (6, []) ∷ [];
  toy_accounts = [];
  sent = [];
}

hero_verify_toy_lem_example :
    (toy_of (hero_verify_toy realm 6 sword 5) 6 (codes "AB12") ≡ (
      if same_text (codes "AB12") (codes "AB12")
      then some (if 6 == 5 then sword else kept (find_text (codes "AB12") []) sword)
      else find_text (codes "AB12") []))
    × (toy_of (hero_verify_toy realm 6 sword 5) 5 (codes "AB12") ≡ (
        if 5 == 5 && same_text (codes "AB12") (codes "AB12")
        then none
        else toy_of realm 5 (codes "AB12")))
unfolding find
hero_verify_toy_lem_example = hero_verify_toy_lem realm 6 5 5 sword (codes "AB12") [] refl refl
