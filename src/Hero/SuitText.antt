-- ===== src/Hero/SuitText.antt =====
-- gameserver/DreamHero.cpp: the text that SaveHero writes for the suits of a hero, and the statement that
-- it stands in. `none` is an sprintf that writes past the end of `suit_temp` or of `temp`.
use hardware_server.Prelude.{
  ℕ, ◌<◌, ◌≡◌, refl, ◌∙◌, ap, Option, none, some, List, [], ◌∷◌, ◌++◌, map, Bool, true, false,
  if◌then◌else◌, ltb, length, append_assoc, All, lt→ltb,
}
use hardware_server.Prelude.Text.{Text, codes, c_str, contains, c_str_whole}
use hardware_server.Text.Numbers.{print_ℕ, print_int}
use hardware_server.Text.Split.Join.{join}
use hardware_server.Prelude.Int.{pos, to_s32}
use hardware_server.Hero.{Suit, HeroInfo}

-- sprintf(suit_temp, "%d,%s", suit_id, suit_name)
abbrev pub suit_head : Suit → Text
suit_head s = print_int s.suit_id ++ 44 ∷ c_str s.suit_name

abbrev pub add_equip_ids : Text → List ℕ → Text
add_equip_ids sql [] = sql
add_equip_ids sql (e ∷ es) = add_equip_ids ((sql ++ 44 ∷ []) ++ print_ℕ e) es

unfoldable pub save_suits_loop : Bool → Text → List Suit → Option Text
save_suits_loop first sql [] = some sql
save_suits_loop first sql (s ∷ suits) =
    let sql' = if first then sql else sql ++ 58 ∷ [] in
    let rest = save_suits_loop false (add_equip_ids (sql' ++ suit_head s) s.equip_ids) suits in
    if ltb (length (suit_head s)) 256 then rest else none

unfoldable pub save_suits : List Suit → Option Text
unfolding save_suits_loop
save_suits suits = save_suits_loop true [] suits

-- The statement up to the quote in front of the suits, without and with it, and with the suits.
unfoldable pub character_front : HeroInfo → Text
unfolding print_ℕ to_s32
character_front info =
    codes "replace into `character`(`account_id`, `level`, `name`,`action_point`, "
    ++ codes "`diamand`, `gold`, `suits_name`) values("
    ++ print_ℕ info.account
    ++ codes ", "
    ++ print_int (to_s32 (pos info.level))
    ++ codes ", '"
    ++ c_str info.name
    ++ codes "', "
    ++ print_int info.action_point
    ++ codes ", "
    ++ print_int info.diamand
    ++ codes ", "
    ++ print_int info.gold
    ++ codes ", "

abbrev pub character_head : HeroInfo → Text
character_head info = character_front info ++ 39 ∷ []

abbrev pub character_text : HeroInfo → Text → Text
character_text info suits_sql = character_head info ++ c_str suits_sql ++ codes "')"

-- The first statement of SaveHero.
unfoldable pub save_character : HeroInfo → Option Text
unfolding save_suits
save_character info = elim (save_suits info.suits) [
  | none ↦ none
  | some suits_sql ↦
      let sql = character_text info suits_sql in if ltb (length sql) 2048 then some sql else none
]

-- The text of a suit: its number, its name and its equips, with commas between them.
abbrev pub suit_text : Suit → Text
suit_text s = join 44 (print_int s.suit_id) (s.suit_name ∷ map print_ℕ s.equip_ids)

abbrev pub suits_text : List Suit → Text
suits_text [] = []
suits_text (s ∷ suits) = join 58 (suit_text s) (map suit_text suits)

abbrev pub FitsHead : Suit → Type 0
FitsHead s = (contains 0 s.suit_name ≡ false) × (length (suit_head s) < 256)

add_equip_ids-join :
    (sql w : Text) (es : List ℕ) → add_equip_ids (sql ++ w) es ≡ sql ++ join 44 w (map print_ℕ es)
add_equip_ids-join sql w [] = refl
add_equip_ids-join sql w (e ∷ es) =
    ap (λ t. add_equip_ids (t ++ print_ℕ e) es) (append_assoc sql w (44 ∷ []))
    ∙ add_equip_ids-join (sql ++ (w ++ 44 ∷ [])) (print_ℕ e) es
    ∙ simp append_assoc

add_equip_ids-suit :
    (sql : Text) (s : Suit)
    → contains 0 s.suit_name ≡ false
    → add_equip_ids (sql ++ suit_head s) s.equip_ids ≡ sql ++ suit_text s
add_equip_ids-suit sql s whole =
    let id = print_int s.suit_id in
    let named : c_str s.suit_name ≡ s.suit_name = c_str_whole s.suit_name whole in
    let regroup : sql ++ suit_head s ≡ (sql ++ (id ++ 44 ∷ [])) ++ s.suit_name =
      rw named (simp append_assoc) in
    ap (λ t. add_equip_ids t s.equip_ids) regroup
    ∙ add_equip_ids-join (sql ++ (id ++ 44 ∷ [])) s.suit_name s.equip_ids
    ∙ simp append_assoc

save_suits_loop-join :
    (sql w : Text) (suits : List Suit)
    → All FitsHead suits
    → save_suits_loop false (sql ++ w) suits ≡ some (sql ++ join 58 w (map suit_text suits))
unfolding save_suits_loop
save_suits_loop-join sql w [] h = refl
save_suits_loop-join sql w (s ∷ suits) h =
    let fits = lt→ltb (length (suit_head s)) 256 h.0.1 in
    let regroup : (sql ++ w) ++ 58 ∷ [] ≡ sql ++ (w ++ 58 ∷ []) = append_assoc sql w (58 ∷ []) in
    let next = save_suits_loop-join (sql ++ (w ++ 58 ∷ [])) (suit_text s) suits h.1 in
    rw (fits, regroup, add_equip_ids-suit (sql ++ (w ++ 58 ∷ [])) s h.0.0)
      (next ∙ simp append_assoc)

-- Where each number and name fit into the buffer, the suits are written with colons between them.
pub save_suits-text :
    (suits : List Suit) → All FitsHead suits → save_suits suits ≡ some (suits_text suits)
unfolding save_suits
save_suits-text [] h = refl
save_suits-text (s ∷ suits) h =
    let fits = lt→ltb (length (suit_head s)) 256 h.0.1 in
    rw (fits, add_equip_ids-suit [] s h.0.0) (save_suits_loop-join [] (suit_text s) suits h.1)

-- A text that an sprintf and a literal of a statement keep: no byte 0, no quote and no backslash.
pub record IsLiteral (t : Text) : Type 0 where
  pub no_zero : contains 0 t ≡ false
  pub no_quote : contains 39 t ≡ false
  pub no_backslash : contains 92 t ≡ false

-- Where the statement fits into its buffer, it holds the suits.
pub save_character-text :
    (info : HeroInfo)
    → All FitsHead info.suits
    → contains 0 (suits_text info.suits) ≡ false
    → length (character_head info ++ suits_text info.suits ++ codes "')") < 2048
    → save_character info ≡ some (character_head info ++ suits_text info.suits ++ codes "')")
unfolding save_character
save_character-text info fit whole short =
    let saved = save_suits-text info.suits fit in
    let kept = c_str_whole (suits_text info.suits) whole in
    let room =
      lt→ltb (length (character_head info ++ suits_text info.suits ++ codes "')")) 2048 short in
    rw (saved, save_character, kept, room) refl
