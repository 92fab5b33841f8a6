-- ===== src/Hero/LevelUp/Outcome.antt =====
-- What EquipLevelUp of gameserver/DreamHero.cpp leaves of a hero, and what it answers.
use hardware_server.Prelude.{
  ℕ, ◌≡◌, ◌≢◌, refl, inl, inr, Option, none, some, List, [], ◌∷◌, arith, Bool-cases, ◌+◌,
}
use hardware_server.Prelude.Int.{
  ℤ, pos, ◌+ℤ◌, ◌-ℤ◌, ◌≤ℤ◌, ltb_ℤ, to_s32, to_s32_id, InS32, int_laws,
}
use hardware_server.ObjMap.{find, insert}
use hardware_server.ObjMap.Laws.{find-insert}
use hardware_server.Hero.{
  Hero, Equip, HeroError, not_enough_gold, not_enough_diamand, not_enough_equip,
}
use hardware_server.Hero.LevelUp.{
  LevelUpConfig, Reply, level_up, refused, pay, try_level_up, equip_level_up,
}

-- The hero has what the level costs.
abbrev pub Affords : Hero → Equip → LevelUpConfig → Type 0
Affords h e cost =
    (cost.toy_config_count ≤ℤ e.count)
    × (cost.toy_config_gold ≤ℤ h.info.gold)
    × (cost.toy_config_diamand ≤ℤ h.info.diamand)

-- The numbers are those of `int`s, and no cost is negative.
pub record Sane (h : Hero) (e : Equip) (cost : LevelUpConfig) : Type 0 where
  pub gold : InS32 h.info.gold
  pub diamand : InS32 h.info.diamand
  pub count : InS32 e.count
  pub level : InS32 (e.level +ℤ pos 1)
  pub cost_count : pos 0 ≤ℤ cost.toy_config_count
  pub cost_gold : pos 0 ≤ℤ cost.toy_config_gold
  pub cost_diamand : pos 0 ≤ℤ cost.toy_config_diamand

sub_in : (a b : ℤ) → InS32 a → pos 0 ≤ℤ b → b ≤ℤ a → InS32 (a -ℤ b)
unfolding ◌-ℤ◌
sub_in a b h nonneg covered = (ground arith, ground arith)

-- A cost that is covered is paid without wrapping.
paid : (a b : ℤ) → InS32 a → pos 0 ≤ℤ b → b ≤ℤ a → to_s32 (a -ℤ b) ≡ a -ℤ b
paid a b h nonneg covered = to_s32_id (a -ℤ b) (sub_in a b h nonneg covered)

-- What a successful request leaves: the hero `h'` and the level, gold, count and diamonds `l g c d`.
pub record Paid (h : Hero) (id : ℕ) (e : Equip) (cost : LevelUpConfig) (h' : Hero) (l g c d : ℤ)
    : Type 0 where
  pub level : l ≡ e.level +ℤ pos 1
  pub gold : g +ℤ cost.toy_config_gold ≡ h.info.gold
  pub count : c +ℤ cost.toy_config_count ≡ e.count
  pub diamand : d +ℤ cost.toy_config_diamand ≡ h.info.diamand
  pub nonneg : (pos 0 ≤ℤ g) × (pos 0 ≤ℤ c) × (pos 0 ≤ℤ d)
  pub info : h'.info ≡ record h.info { gold = g; diamand = d }
  pub equip : find id h'.equips ≡ some (record e { count = c; level = l })
  pub others : (j : ℕ) → j ≢ id → find j h'.equips ≡ find j h.equips
  pub toys : h'.toys ≡ h.toys

refund : (a b : ℤ) → (a -ℤ b) +ℤ b ≡ a
refund a b = omega int_laws

left_over : (a b : ℤ) → b ≤ℤ a → pos 0 ≤ℤ a -ℤ b
left_over a b h = omega int_laws

equip_level_up_configured :
    (config : ℤ → ℤ → Option LevelUpConfig) (h : Hero) (id : ℕ) (e : Equip) (cost : LevelUpConfig)
    → find id h.equips ≡ some e
    → config e.equip_id (to_s32 (e.level +ℤ pos 1)) ≡ some cost
    → equip_level_up config h id ≡ try_level_up h id e cost (to_s32 (e.level +ℤ pos 1))
unfolding equip_level_up
equip_level_up_configured config h id e cost owned configured =
    rw (owned, equip_level_up) (rw (configured, equip_level_up))

abbrev paid_equip : Equip → LevelUpConfig → Equip
paid_equip e cost = record e { count = e.count -ℤ cost.toy_config_count; level = e.level +ℤ pos 1 }

abbrev paid_hero : Hero → ℕ → Equip → LevelUpConfig → Hero
paid_hero h id e cost = record h {
  info = record h.info {
    gold = h.info.gold -ℤ cost.toy_config_gold;
    diamand = h.info.diamand -ℤ cost.toy_config_diamand;
  };
  equips =
      insert id (record e { count = e.count -ℤ cost.toy_config_count; level = e.level +ℤ pos 1 })
        h.equips;
}

try_level_up_affordable :
    (h : Hero) (id : ℕ) (e : Equip) (cost : LevelUpConfig) (level : ℤ)
    → Affords h e cost
    → try_level_up h id e cost level ≡ pay h id e cost level
unfolding try_level_up
try_level_up_affordable h id e cost level afford = ground arith

pay-Sane :
    (h : Hero) (id : ℕ) (e : Equip) (cost : LevelUpConfig)
    → Sane h e cost
    → Affords h e cost
    → pay h id e cost (e.level +ℤ pos 1) ≡ (
      paid_hero h id e cost,
      level_up
            (e.level +ℤ pos 1)
            (h.info.gold -ℤ cost.toy_config_gold)
            (e.count -ℤ cost.toy_config_count)
            (h.info.diamand -ℤ cost.toy_config_diamand)
          ∷ [],
    )
unfolding pay
pay-Sane h id e cost sane afford = rw (
  paid h.info.gold cost.toy_config_gold sane.gold sane.cost_gold afford.1,
  paid h.info.diamand cost.toy_config_diamand sane.diamand sane.cost_diamand afford.2,
  paid e.count cost.toy_config_count sane.count sane.cost_count afford.0,
)

-- A request for an equip that the hero has, at a level that is configured and that the hero can pay
-- for, is acknowledged with the new numbers: the level is one higher, each cost is taken from its
-- resource, none of which becomes negative, and nothing else of the hero changes. The conditions are that
-- none of the three configured costs is negative, which the code does not check, and that the gold, the
-- diamonds, the count of the equip and its next level are numbers of 32 bits.
pub equip_level_up_pays :
    (config : ℤ → ℤ → Option LevelUpConfig) (h : Hero) (id : ℕ) (e : Equip) (cost : LevelUpConfig)
    → find id h.equips ≡ some e
    → config e.equip_id (e.level +ℤ pos 1) ≡ some cost
    → Sane h e cost
    → Affords h e cost
    → (l g c d : ℤ) × ((equip_level_up config h id).1 ≡ level_up l g c d ∷ [])
      × Paid h id e cost (equip_level_up config h id).0 l g c d
equip_level_up_pays config h id e cost owned configured sane afford =
    rw
      (
        equip_level_up_configured config h id e cost owned
            (rw (to_s32_id (e.level +ℤ pos 1) sane.level) configured),
        to_s32_id (e.level +ℤ pos 1) sane.level,
        try_level_up_affordable h id e cost (e.level +ℤ pos 1) afford,
        pay-Sane h id e cost sane afford,
      )
      (
        e.level +ℤ pos 1,
        h.info.gold -ℤ cost.toy_config_gold,
        e.count -ℤ cost.toy_config_count,
        h.info.diamand -ℤ cost.toy_config_diamand,
        refl,
        record {
          level = refl;
          gold = refund h.info.gold cost.toy_config_gold;
          count = refund e.count cost.toy_config_count;
          diamand = refund h.info.diamand cost.toy_config_diamand;
          nonneg = (
            left_over h.info.gold cost.toy_config_gold afford.1,
            left_over e.count cost.toy_config_count afford.0,
            left_over h.info.diamand cost.toy_config_diamand afford.2,
          );
          info = refl;
          equip = ground (arith, find-insert id id (paid_equip e cost) h.equips);
          others = λ j ne. ground (arith, find-insert j id (paid_equip e cost) h.equips);
          toys = refl;
        },
      )

try_level_up_poor :
    (h : Hero) (id : ℕ) (e : Equip) (cost : LevelUpConfig) (level : ℤ)
    → ¬ Affords h e cost
    → ((try_level_up h id e cost level).0 ≡ h)
      × ((error : HeroError) × ((try_level_up h id e cost level).1 ≡ refused id error ∷ []))
unfolding try_level_up
try_level_up_poor h id e cost level poor = elim (Bool-cases (ltb_ℤ e.count cost.toy_config_count)) [
  | inl t ↦ rw t (refl, (not_enough_equip, refl))
  | inr t ↦ elim (Bool-cases (ltb_ℤ h.info.gold cost.toy_config_gold)) [
    | inl u ↦ rw (t, u) (refl, (not_enough_gold, refl))
    | inr u ↦ elim (Bool-cases (ltb_ℤ h.info.diamand cost.toy_config_diamand)) [
      | inl v ↦ rw (t, u, v) (refl, (not_enough_diamand, refl))
      | inr v ↦ absurd (poor (ground arith, ground arith, ground arith))
    ]
  ]
]

-- A request that the hero cannot pay for changes nothing and gets one refusal.
pub equip_level_up_refuses :
    (config : ℤ → ℤ → Option LevelUpConfig) (h : Hero) (id : ℕ) (e : Equip) (cost : LevelUpConfig)
    → find id h.equips ≡ some e
    → config e.equip_id (to_s32 (e.level +ℤ pos 1)) ≡ some cost
    → ¬ Affords h e cost
    → ((equip_level_up config h id).0 ≡ h)
      × ((error : HeroError) × ((equip_level_up config h id).1 ≡ refused id error ∷ []))
equip_level_up_refuses config h id e cost owned configured poor =
    rw (equip_level_up_configured config h id e cost owned configured)
      (try_level_up_poor h id e cost (to_s32 (e.level +ℤ pos 1)) poor)

abbrev pub count_replies : List Reply → ℕ
count_replies [] = 0
count_replies (r ∷ rs) = 1 + count_replies rs

-- How many replies a request should get, by the code: none where the equip is there and its next
-- level is not configured, and one otherwise.
abbrev pub expected_replies : (ℤ → ℤ → Option LevelUpConfig) → Option Equip → ℕ
expected_replies config none = 1
expected_replies config (some e) = elim (config e.equip_id (to_s32 (e.level +ℤ pos 1))) [
  | none ↦ 0
  | some cost ↦ 1
]

-- A request gets exactly one reply, but for an equip whose next level is not configured, which gets
-- none.
pub equip_level_up_replies :
    (config : ℤ → ℤ → Option LevelUpConfig) (h : Hero) (id : ℕ)
    → count_replies (equip_level_up config h id).1 ≡ expected_replies config (find id h.equips)
unfolding equip_level_up
equip_level_up_replies config h id = ground arith
