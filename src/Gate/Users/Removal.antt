-- ===== src/Gate/Users/Removal.antt =====
-- The loss of a game server, and what a kick leaves behind.
use hardware_server.Prelude.{ℕ, ◌≡◌, ◌≢◌, refl, none, some, [], ◌∷◌, arith, ◌==◌, if◌then◌else◌}
use hardware_server.ObjMap.{StdMap, find, get_data}
use hardware_server.ObjMap.Laws.{IsOrdered, find-erase_data}
use hardware_server.ObjMap.Values.{find-erase_value}
use hardware_server.Gate.State.{Gate, UserSession, wait_close, update}
use hardware_server.Gate.Session.{enter_state}
use hardware_server.Gate.Games.{get_game_client}
use hardware_server.Gate.Users.{kick_user, close_users_of}
use hardware_server.Gate.Handlers.{remove_active_game_client}

abbrev Heap : Type 0
Heap = ℕ → UserSession

abbrev visit : ℕ → ℕ → Heap → Heap
visit gs p s = if (s p).gs_id == gs then update s p (enter_state (s p) wait_close) else s

gs_id-close :
    (gs : ℕ) (m : StdMap ℕ) (s : Heap) (q : ℕ) → (close_users_of gs m s q).gs_id ≡ (s q).gs_id
unfolding close_users_of
gs_id-close gs [] s q = refl
gs_id-close gs ((t, p) ∷ m) s q = ground (arith, gs_id-close gs m (visit gs p s) q)

close_elsewhere :
    (gs : ℕ) (m : StdMap ℕ) (s : Heap) (q : ℕ) → (s q).gs_id ≢ gs → close_users_of gs m s q ≡ s q
unfolding close_users_of
close_elsewhere gs [] s q ne = refl
close_elsewhere gs ((t, p) ∷ m) s q ne = ground (arith, close_elsewhere gs m (visit gs p s) q)

close_once :
    (gs : ℕ) (m : StdMap ℕ) (s : Heap) (q : ℕ)
    → (s q).state ≡ wait_close
    → (close_users_of gs m s q).state ≡ wait_close
unfolding close_users_of
close_once gs [] s q h = h
close_once gs ((t, p) ∷ m) s q h = ground (arith, close_once gs m (visit gs p s) q)

close_all :
    (gs t q : ℕ) (m : StdMap ℕ) (s : Heap)
    → find t m ≡ some q
    → (s q).gs_id ≡ gs
    → (close_users_of gs m s q).state ≡ wait_close
unfolding close_users_of find
close_all gs t q [] s e h = cc
close_all gs t q ((u, p) ∷ m) s e h =
    ground (arith, close_once gs m (visit gs p s) q, close_all gs t q m (visit gs p s))

-- When the connection to an active game server is lost, every online player of that server is set
-- to close, sessions of other servers stay as they are, nobody is parked on it any more, and its
-- slot is free.
pub remove_active_game_client_lem :
    (g : Gate) (c id : ℕ)
    → IsOrdered g.recon_map
    → (g.clients c).game_id ≡ id
    → get_game_client g id ≡ some c
    → let g' = remove_active_game_client g c in
      ((t q : ℕ)
        → get_data g.onlines t ≡ some q
        → (g.sessions q).gs_id ≡ id
        → (g'.sessions q).state ≡ wait_close)
      × ((q : ℕ) → (g.sessions q).gs_id ≢ id → g'.sessions q ≡ g.sessions q)
      × ((t : ℕ) → get_data g'.recon_map t ≢ some id)
      × (get_game_client g' id ≡ none)
unfolding remove_active_game_client get_game_client get_data
remove_active_game_client_lem g c id o same active = (
  λ t q e h. ground (arith, close_all id t q g.onlines g.sessions e h),
  λ q ne. ground (arith, close_elsewhere id g.onlines g.sessions q ne),
  λ t e. ground (arith, (find-erase_value g.recon_map id o).1 t),
  ground arith,
)

-- After a kick the transaction is not online; and if it was not online before, it neither waits nor
-- is parked.
pub kick_user_lem :
    (g : Gate) (t a : ℕ)
    → (get_data (kick_user g t a).onlines t ≡ none)
      × (get_data g.onlines t ≡ none
          → (get_data (kick_user g t a).wait_map t ≡ none)
            × (get_data (kick_user g t a).recon_map t ≡ none))
unfolding kick_user get_data get_game_client
kick_user_lem g t a = (
  ground (arith, find-erase_data t g.onlines t),
  λ e. (
    ground (arith, find-erase_data t g.wait_map t),
    ground (arith, find-erase_data t g.recon_map t),
  ),
)
