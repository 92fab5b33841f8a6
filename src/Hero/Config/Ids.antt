-- ===== src/Hero/Config/Ids.antt =====
-- The ids of the equips of new heroes.
use hardware_server.Prelude.{
  ℕ, ◌+◌, ◌^◌, ◌<◌, ◌≡◌, refl, ◌∙◌, false, ◌&&◌, ◌||◌, List, [], ◌∷◌, is_some, arith, ltb, leb,
  length,
}
use hardware_server.ObjMap.{StdMap, find, insert}
use hardware_server.ObjMap.Laws.{find-insert}
use hardware_server.Hero.{Equip, Hero}
use hardware_server.Hero.Config.{
  HeroEquipConfig, HeroConfig, generate_equip_id, new_equip, load_equips, load_from_config,
}

load_equips-ids :
    (g : ℕ) (equips : StdMap Equip) (cs : List HeroEquipConfig) (j : ℕ)
    → g + length cs < 2 ^ 64
    → ((load_equips g equips cs).0 ≡ g + length cs)
      × (is_some (find j (load_equips g equips cs).1)
          ≡ (ltb g j && leb j (g + length cs)) || is_some (find j equips))
unfolding load_equips generate_equip_id
load_equips-ids g equips [] j room = (omega arith, ground arith)
load_equips-ids g equips (c ∷ cs) j room =
    let next : generate_equip_id g ≡ g + 1 = omega arith in
    let more = insert (g + 1) (new_equip (g + 1) c) equips in
    let k = load_equips-ids (g + 1) more cs j (omega arith) in
    rw (next, load_equips)
      (omega (arith, k.0), k.1 ∙ ground (arith, find-insert j (g + 1) (new_equip (g + 1) c) equips))

-- The equips of a hero that starts with the configured ones, and with none before, have the ids that
-- follow the last one that was generated, as many as there are equips, and the next ids are above them,
-- while all these ids stay below 2^64.
pub load_from_config_ids :
    (c : HeroConfig) (g : ℕ) (h : Hero) (j : ℕ)
    → h.equips ≡ []
    → g + length c.equips < 2 ^ 64
    → let (next, hero) = load_from_config c g h in
      (next ≡ g + length c.equips)
      × (is_some (find j hero.equips) ≡ ltb g j && leb j (g + length c.equips))
unfolding load_from_config find
load_from_config_ids c g h j none_yet room =
    let empty : is_some (find j h.equips) ≡ false = rw none_yet refl in
    let k = load_equips-ids g h.equips c.equips j room in (k.0, k.1 ∙ rw empty (ground arith))
