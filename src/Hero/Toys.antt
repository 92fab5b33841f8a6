-- ===== src/Hero/Toys.antt =====
-- The toys of the heroes of a game server: VerifyToyCDKey, both VerifyToy and RemoveToyByCDKey of
-- gameserver/DreamHero.cpp, and GetHero, getToyHero and modifyToyAccount of DreamHeroManager.cpp. The key
-- of a toy holds no byte 0, at which c_str() would cut it.
pub mod Owners
use hardware_server.Prelude.{
  ℕ, Bool, true, false, Option, none, some, List, [], ◌∷◌, ◌++◌, is_some, if◌then◌else◌,
}
use hardware_server.Prelude.Text.{Text}
use hardware_server.Prelude.TextMap.{find_text, insert_text, put_text, erase_text}
use hardware_server.ObjMap.{StdMap, find, insert}
use hardware_server.Hero.{Toy, HeroError, toy_cd_key_have_been_in_used}

-- What a hero sends: the question to the database, and the answers to the player.
pub data ToySent : Type 0 where
  ask_toy : ℕ → Text → ToySent
  toy_verified : ℕ → Toy → ToySent
  toy_refused : ℕ → Text → HeroError → ToySent

-- The toys of each hero by its account, _toy_cdkey_account, and what has been sent.
pub record ToyHeroes : Type 0 where
  pub heroes : StdMap (List (Text × Toy))
  pub toy_accounts : List (Text × ℕ)
  pub sent : List ToySent

abbrev pub tell : ToyHeroes → ToySent → ToyHeroes
tell r m = record r { sent = r.sent ++ m ∷ [] }

-- VerifyToyCDKey of the hero of the account `a`
unfoldable pub hero_verify_toy_cd_key : ToyHeroes → ℕ → Text → ToyHeroes
hero_verify_toy_cd_key r a key = elim (find a r.heroes) [
  | none ↦ r
  | some toys ↦
      if is_some (find_text key toys)
      then tell r (toy_refused a key toy_cd_key_have_been_in_used)
      else tell r (ask_toy a key)
]

unfoldable pub remove_toy_by_cd_key : ToyHeroes → ℕ → List (Text × Toy) → Text → ToyHeroes
remove_toy_by_cd_key r acc toys key = record r {
  heroes = insert acc (erase_text key toys) r.heroes;
}

unfoldable pub modify_toy_account : ToyHeroes → ℕ → Text → ToyHeroes
modify_toy_account r acc key = record r { toy_accounts = put_text key acc r.toy_accounts }

unfoldable pub get_toy_hero : ToyHeroes → Text → ℕ
get_toy_hero r key = elim (find_text key r.toy_accounts) [ none ↦ 0 | some acc ↦ acc ]

-- The first part of VerifyToy: the toy is taken from the hero of the account that the database names.
unfoldable pub take_toy : ToyHeroes → ℕ → Text → ℕ → ToyHeroes
unfolding remove_toy_by_cd_key modify_toy_account
take_toy r a key acc = elim (find acc r.heroes) [
  | none ↦ r
  | some toys ↦ modify_toy_account (remove_toy_by_cd_key r acc toys key) a key
]

-- The second part: the toy is given to the hero.
unfoldable pub give_toy : ToyHeroes → ℕ → Toy → ToyHeroes
give_toy r a toy = elim (find a r.heroes) [
  | none ↦ r
  | some toys ↦
      if is_some (find_text toy.toy_cd_key toys)
      then r
      else tell (record r { heroes = insert a (insert_text toy.toy_cd_key toy toys) r.heroes })
          (toy_verified a toy)
]

-- VerifyToy of the hero of the account `a` for a toy that stands under the account `acc`
unfoldable pub hero_verify_toy : ToyHeroes → ℕ → Toy → ℕ → ToyHeroes
unfolding take_toy give_toy
hero_verify_toy r a toy acc = give_toy (take_toy r a toy.toy_cd_key acc) a toy

-- VerifyToy for an error of the database
unfoldable pub hero_verify_toy_error : ToyHeroes → ℕ → Text → HeroError → ToyHeroes
hero_verify_toy_error r a key error = tell r (toy_refused a key error)
