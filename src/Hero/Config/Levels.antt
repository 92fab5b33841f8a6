-- ===== src/Hero/Config/Levels.antt =====
-- The costs of levels that a game server works with.
use hardware_server.Prelude.{
  ◌≡◌, refl, ◌∙◌, true, Option, none, some, List, [], ◌∷◌, if◌then◌else◌, arith, Bool-cases,
  Option-cases, inl, inr, ap, sym,
}
use hardware_server.Prelude.Int.{ℤ, eq_ℤ, eq_ℤ_iff}
use hardware_server.Hero.LevelUp.{LevelUpConfig}
use hardware_server.Hero.Config.{
  LevelRow, LevelConfigs, is_for, get_equip_level_up_config, load_levels,
}

-- The first row of the table for an equip and a level.
abbrev pub first_row : ℤ → ℤ → List LevelRow → Option LevelUpConfig
first_row id level [] = none
first_row id level (r ∷ rs) = if is_for id level r then some r.cost else first_row id level rs

abbrev pub or_else : Option LevelUpConfig → Option LevelUpConfig → Option LevelUpConfig
or_else none o = o
or_else (some c) o = some c

-- A row is for the keys that stand in it.
same_keys :
    (configs : LevelConfigs) (r : LevelRow) (id level : ℤ)
    → is_for id level r ≡ true
    → get_equip_level_up_config configs id level
      ≡ get_equip_level_up_config configs r.toy_config_id r.toy_config_level
same_keys configs r id level h =
    let one : eq_ℤ r.toy_config_id id ≡ true = ground arith in
    let other : eq_ℤ r.toy_config_level level ≡ true = ground arith in
    let this : r.toy_config_id ≡ id = (eq_ℤ_iff r.toy_config_id id).0 one in
    let that : r.toy_config_level ≡ level = (eq_ℤ_iff r.toy_config_level level).0 other in
    ap (λ i. get_equip_level_up_config configs i level) (sym this)
    ∙ ap (get_equip_level_up_config configs r.toy_config_id) (sym that)

added :
    (configs : LevelConfigs) (r : LevelRow) (rows : List LevelRow) (id level : ℤ)
    → get_equip_level_up_config configs r.toy_config_id r.toy_config_level ≡ none
    → or_else (get_equip_level_up_config (r ∷ configs) id level) (first_row id level rows)
      ≡ or_else (get_equip_level_up_config configs id level) (first_row id level (r ∷ rows))
unfolding get_equip_level_up_config
added configs r rows id level new = elim (Bool-cases (is_for id level r)) [
  | inl e ↦
      let empty : get_equip_level_up_config configs id level ≡ none =
        same_keys configs r id level e ∙ new in
      rw (e, get_equip_level_up_config, empty) refl
  | inr other ↦ rw (other, get_equip_level_up_config) refl
]

skipped :
    (configs : LevelConfigs) (r : LevelRow) (rows : List LevelRow) (id level : ℤ)
    (c : LevelUpConfig)
    → get_equip_level_up_config configs r.toy_config_id r.toy_config_level ≡ some c
    → or_else (get_equip_level_up_config configs id level) (first_row id level rows)
      ≡ or_else (get_equip_level_up_config configs id level) (first_row id level (r ∷ rows))
skipped configs r rows id level c known = elim (Bool-cases (is_for id level r)) [
  | inl e ↦
      let there : get_equip_level_up_config configs id level ≡ some c =
        same_keys configs r id level e ∙ known in
      rw (e, there) refl
  | inr other ↦ rw other refl
]

load_levels-from :
    (configs : LevelConfigs) (rows : List LevelRow) (id level : ℤ)
    → get_equip_level_up_config (load_levels configs rows) id level
      ≡ or_else (get_equip_level_up_config configs id level) (first_row id level rows)
unfolding load_levels
load_levels-from configs [] id level =
    elim (Option-cases (get_equip_level_up_config configs id level)) [
      | inl e ↦ rw e refl
      | inr (c, e) ↦ rw e refl
    ]
load_levels-from configs (r ∷ rows) id level =
    elim (Option-cases (get_equip_level_up_config configs r.toy_config_id r.toy_config_level)) [
      | inl new ↦
          rw new (load_levels-from (r ∷ configs) rows id level ∙ added configs r rows id level new)
      | inr (c, known) ↦
          rw known
            (load_levels-from configs rows id level ∙ skipped configs r rows id level c known)
    ]

-- After Load, the costs of a level of an equip are those of the first row for them in the table, and
-- there are none if it has no such row.
pub get_equip_level_up_config-load_levels :
    (rows : List LevelRow) (id level : ℤ)
    → get_equip_level_up_config (load_levels [] rows) id level ≡ first_row id level rows
unfolding get_equip_level_up_config
get_equip_level_up_config-load_levels rows id level = load_levels-from [] rows id level
