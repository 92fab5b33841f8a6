-- ===== src/Db/Suits.antt =====
-- The suits of a hero on their way through the database: SaveHero of gameserver/DreamHero.cpp writes
-- them, dbDoQueryHeroInfo of databaseserver/db_quest.cpp reads them.
use hardware_server.Prelude.{◌≡◌, ◌++◌, map, false, length, ◌<◌}
use hardware_server.Prelude.Int.{InS32}
use hardware_server.Prelude.Text.{Text, is_empty_text, contains, codes}
use hardware_server.Text.Numbers.{to_u64}
use hardware_server.Hero.{Suit, HeroInfo}
use hardware_server.Hero.SuitText.{suit_head, character_head, IsLiteral}

-- A suit that the text keeps: a number of 32 bits, and a name that is not empty, holds no comma, no
-- colon, no quote, no backslash and no byte 0, and fits into the buffer with the number.
pub record IsPlain (s : Suit) : Type 0 where
  pub number : InS32 s.suit_id
  pub named : is_empty_text s.suit_name ≡ false
  pub no_comma : contains 44 s.suit_name ≡ false
  pub no_colon : contains 58 s.suit_name ≡ false
  pub literal : IsLiteral s.suit_name
  pub fits : length (suit_head s) < 256

-- What is read: for each equip the number of the suit.
abbrev pub blurred : Suit → Suit
blurred s = record s { equip_ids = map (λ e. to_u64 s.suit_id) s.equip_ids }

abbrev IsFilled : Text → Type 0
IsFilled w = is_empty_text w ≡ false

-- What the database has in the column `suits_name` after a statement: literals that hold no quote and no
-- backslash are kept as they are, in statements of less than 2048 bytes.
pub record Stores (stored : Text → Text) : Type 0 where
  pub keeps :
      (info : HeroInfo) (t : Text)
      → IsLiteral info.name
      → IsLiteral t
      → length (character_head info ++ t ++ codes "')") < 2048
      → stored (character_head info ++ t ++ codes "')") ≡ t
