-- ===== src/Tests/MapTests.antt =====
-- The maps at concrete contents.
use hardware_server.Prelude.{ℕ, ◌≡◌, refl, [], ◌∷◌}
use hardware_server.ObjMap.{StdMap, find, insert, add_data}

abbrev accounts : StdMap ℕ
accounts = (3, 70) ∷ (5, 77) ∷ (8, 77) ∷ []

accounts_sorted : insert 5 77 (insert 8 77 (insert 3 70 [])) ≡ accounts
unfolding insert
accounts_sorted = refl

second_add_fails : (add_data accounts 5 1).0 ≡ accounts
unfolding add_data find
second_add_fails = refl
