-- ===== src/Hero/Toys/Owners.antt =====
-- Who has a toy after it is verified.
use hardware_server.Prelude.{
  ℕ, ◌≡◌, refl, Bool, true, false, Option, none, some, List, arith, ◌==◌, if◌then◌else◌,
  Option-cases, Bool-cases, inl, inr, subst, ap, ◌∙◌, ◌&&◌,
}
use hardware_server.Prelude.Text.{Text}
use hardware_server.Prelude.TextMap.{
  same_text, same_text_eq, same_text_self, find_text, erase_text, insert_text, find_text-erase_text,
  find_text-insert_text,
}
use hardware_server.ObjMap.{find, insert}
use hardware_server.ObjMap.Laws.{find-insert}
use hardware_server.Hero.{Toy}
use hardware_server.Hero.Toys.{
  ToyHeroes, take_toy, give_toy, hero_verify_toy, remove_toy_by_cd_key, modify_toy_account,
}

-- The toy with this key that the hero of an account has.
abbrev pub toy_in : Text → Option (List (Text × Toy)) → Option Toy
toy_in key none = none
toy_in key (some toys) = find_text key toys

abbrev pub toy_of : ToyHeroes → ℕ → Text → Option Toy
toy_of r j key = toy_in key (find j r.heroes)

-- The toy that a hero already had, or the new one.
abbrev pub kept : Option Toy → Toy → Toy
kept none toy = toy
kept (some old) toy = old

take_toy_at :
    (r : ToyHeroes) (a acc : ℕ) (key k : Text)
    → toy_of (take_toy r a key acc) acc k ≡ (if same_text key k then none else toy_of r acc k)
unfolding take_toy remove_toy_by_cd_key modify_toy_account
take_toy_at r a acc key k = elim (Option-cases (find acc r.heroes)) [
  | inl gone ↦ rw (gone, take_toy, gone) (ground arith)
  | inr (toys, here) ↦
      let now : find acc (insert acc (erase_text key toys) r.heroes) ≡ some (erase_text key toys) =
        ground (arith, find-insert acc acc (erase_text key toys) r.heroes) in
      rw (here, take_toy, now) (find_text-erase_text k key toys)
]

take_toy_other :
    (r : ToyHeroes) (a acc j : ℕ) (key : Text)
    → (j == acc) ≡ false
    → find j (take_toy r a key acc).heroes ≡ find j r.heroes
unfolding take_toy remove_toy_by_cd_key modify_toy_account
take_toy_other r a acc j key other = elim (Option-cases (find acc r.heroes)) [
  | inl gone ↦ rw (gone, take_toy) refl
  | inr (toys, here) ↦
      rw (here, take_toy) (ground (arith, find-insert j acc (erase_text key toys) r.heroes))
]

give_toy_at :
    (r : ToyHeroes) (a : ℕ) (toy : Toy) (k : Text) (toys : List (Text × Toy))
    → find a r.heroes ≡ some toys
    → toy_of (give_toy r a toy) a k ≡ (
        if same_text toy.toy_cd_key k
        then some (kept (find_text toy.toy_cd_key toys) toy)
        else find_text k toys)
unfolding give_toy
give_toy_at r a toy k toys here = elim (Option-cases (find_text toy.toy_cd_key toys)) [
  | inl new ↦
      let more = insert_text toy.toy_cd_key toy toys in
      let now : find a (insert a more r.heroes) ≡ some more =
        ground (arith, find-insert a a more r.heroes) in
      rw (here, give_toy, new, now) (find_text-insert_text k toy.toy_cd_key toy toys new)
  | inr (old, has) ↦
      rw (here, give_toy, has, here)
        (elim (Bool-cases (same_text toy.toy_cd_key k)) [
          | inl e ↦
              rw e (subst (λ t. find_text t toys ≡ some old) (same_text_eq toy.toy_cd_key k e) has)
          | inr other ↦ rw other refl
        ])
]

give_toy_other :
    (r : ToyHeroes) (a j : ℕ) (toy : Toy)
    → (j == a) ≡ false
    → find j (give_toy r a toy).heroes ≡ find j r.heroes
unfolding give_toy
give_toy_other r a j toy other = elim (Option-cases (find a r.heroes)) [
  | inl gone ↦ rw (gone, give_toy) refl
  | inr (toys, here) ↦ elim (Option-cases (find_text toy.toy_cd_key toys)) [
    | inl new ↦
        rw (here, give_toy, new)
          (ground (arith, find-insert j a (insert_text toy.toy_cd_key toy toys) r.heroes))
    | inr (old, has) ↦ rw (here, give_toy, has) refl
  ]
]

take_toy_own :
    (r : ToyHeroes) (a acc : ℕ) (key : Text) (toys : List (Text × Toy))
    → find a r.heroes ≡ some toys
    → find a (take_toy r a key acc).heroes ≡ some (if a == acc then erase_text key toys else toys)
unfolding take_toy remove_toy_by_cd_key modify_toy_account
take_toy_own r a acc key toys here = elim (Bool-cases (a == acc)) [
  | inl e ↦
      let same : acc ≡ a = ground arith in
      let there : find acc r.heroes ≡ some toys = rw same here in
      rw (there, take_toy, e) (ground (arith, find-insert a acc (erase_text key toys) r.heroes))
  | inr other ↦ rw other (take_toy_other r a acc a key other ∙ here)
]

take_toy_of :
    (r : ToyHeroes) (a acc j : ℕ) (key k : Text)
    → toy_of (take_toy r a key acc) j k
      ≡ (if j == acc && same_text key k then none else toy_of r j k)
take_toy_of r a acc j key k = elim (Bool-cases (j == acc)) [
  | inl e ↦
      let same : acc ≡ j = ground arith in
      rw e (
        subst
          (λ x.
            toy_of (take_toy r a key acc) x k ≡ (if same_text key k then none else toy_of r x k))
          same (take_toy_at r a acc key k))
  | inr other ↦ rw other (ap (toy_in k) (take_toy_other r a acc j key other))
]

-- The toy that is kept, whether the row was that of the hero or not.
kept_of :
    (own : Bool) (key k : Text) (toys : List (Text × Toy)) (toy : Toy)
    → let rest = if own then erase_text key toys else toys in
      (if same_text key k then some (kept (find_text key rest) toy) else find_text k rest) ≡ (
        if same_text key k
        then some (if own then toy else kept (find_text key toys) toy)
        else find_text k toys)
kept_of false key k toys toy = refl
kept_of true key k toys toy = elim (Bool-cases (same_text key k)) [
  | inl e ↦ rw (e, find_text-erase_text key key toys, same_text_self key) refl
  | inr other ↦ rw (other, find_text-erase_text k key toys, other) refl
]

-- A toy that the database has verified for the hero of `a`, with the row of the account `acc`, is then
-- with that hero; a toy with this key that it already had stays, unless the row is its own. Another
-- hero has its toys as before, except that the hero of `acc` has lost this one.
pub hero_verify_toy_lem :
    (r : ToyHeroes) (a acc j : ℕ) (toy : Toy) (k : Text) (toys : List (Text × Toy))
    → find a r.heroes ≡ some toys
    → (j == a) ≡ false
    → (toy_of (hero_verify_toy r a toy acc) a k ≡ (
        if same_text toy.toy_cd_key k
        then some (if a == acc then toy else kept (find_text toy.toy_cd_key toys) toy)
        else find_text k toys))
      × (toy_of (hero_verify_toy r a toy acc) j k
          ≡ (if j == acc && same_text toy.toy_cd_key k then none else toy_of r j k))
unfolding hero_verify_toy
hero_verify_toy_lem r a acc j toy k toys here other =
    let key = toy.toy_cd_key in
    let r' = take_toy r a key acc in
    let rest = if a == acc then erase_text key toys else toys in
    let taken = take_toy_own r a acc key toys here in
    (
      give_toy_at r' a toy k rest taken ∙ kept_of (a == acc) key k toys toy,
      ap (toy_in k) (give_toy_other r' a j toy other) ∙ take_toy_of r a acc j key k,
    )
