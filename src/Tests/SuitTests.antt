-- ===== src/Tests/SuitTests.antt =====
-- Two suits on their way through a database that keeps the last literal of a statement.
use hardware_server.Prelude.{◌≡◌, refl, some, List, [], ◌∷◌, ◌++◌, ◌==◌, if◌then◌else◌}
use hardware_server.Prelude.Int.{pos}
use hardware_server.Prelude.Text.{Text, codes}
use hardware_server.Text.Numbers.{print_ℕ}
use hardware_server.Hero.{Suit, HeroInfo}
use hardware_server.Hero.SuitText.{save_suits}
use hardware_server.Db.{HeroRow}

abbrev dreamer : HeroRow
dreamer = record {
  account_id = 5;
  level = 1;
  name = codes "test";
  action_point = pos 0;
  gold = pos 10;
  diamand = pos 0;
  suits_name = codes "1,rain,7";
}

abbrev rain : Suit
rain = record { suit_id = pos 1; suit_name = codes "rain"; equip_ids = 7 ∷ 8 ∷ [] }

abbrev sun : Suit
sun = record { suit_id = pos 2; suit_name = codes "sun"; equip_ids = 9 ∷ [] }

abbrev two_suits : List Suit
two_suits = rain ∷ sun ∷ []

saved_text : save_suits two_suits ≡ some (codes "1,rain,7,8:2,sun,9")
unfolding save_suits print_ℕ
saved_text = refl

abbrev hero : HeroInfo
hero = record {
  account = 5;
  level = 1;
  name = codes "test";
  action_point = pos 0;
  diamand = pos 0;
  gold = pos 10;
  suits = two_suits;
}

-- The text between the last two quotes, with the texts before and behind the last quote so far.
abbrev between : Text → Text → Text → Text
between last open_text [] = last
between last open_text (c ∷ s) =
    let closed_text = between open_text [] s in
    let longer = between last (open_text ++ c ∷ []) s in if c == 39 then closed_text else longer
