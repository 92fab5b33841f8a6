-- ===== src/Game/Sessions.antt =====
-- gameserver/gate_manager.cpp, session.cpp, DreamHeroManager.cpp and the handlers of gate_session.cpp
-- and db_client .cpp, on the sessions and the heroes that they are tied to.
pub mod Entry
pub mod Faults
pub mod GateLoss
pub mod Tied
pub mod Release
use hardware_server.Prelude.{
  ℕ, ◌+◌, ◌%◌, Bool, true, false, ◌&&◌, Option, none, some, List, [], ◌∷◌, ◌++◌, ltb, ◌==◌,
  if◌then◌else◌, update,
}
use hardware_server.ObjMap.{StdMap, find, get_data, insert, add_data, erase_data}
use hardware_server.Game.{
  Session, HeroLink, GameSent, client_init, hero_reply, ask_hero, save_data, Game,
}

-- GateManager::sendMessage: the connection of a gate, if it is active
abbrev pub active_gate : Game → ℕ → Option ℕ
active_gate g gate = if ltb 0 gate && ltb gate 0xff then g.gates gate else none

abbrev pub emit : Game → GameSent → Game
emit g m = record g { sent = g.sent ++ m ∷ [] }

abbrev pub post : Game → (ℕ → ℕ → GameSent) → Option ℕ → ℕ → Game
post g m none tran = g
post g m (some c) tran = emit g (m c tran)

-- Session::sendPBMessage through a pointer to the session
unfoldable pub session_send : Game → ℕ → (ℕ → ℕ → GameSent) → Option Game
session_send g p m = elim (g.sessions p) [
  | none ↦ none
  | some s ↦ some (if s.online then post g m (active_gate g s.gate) s.tranid else g)
]

-- DreamHero::sendPBMessage
unfoldable pub hero_send : Game → HeroLink → (ℕ → ℕ → GameSent) → Option Game
unfolding session_send
hero_send g h m = elim h.session [ none ↦ some g | some p ↦ session_send g p m ]

-- set_session and SendClientInit: the timer for saving is started, the player is told everything,
-- and the hero is online.
unfoldable pub enter_hero : Game → ℕ → ℕ → Option Game
unfolding hero_send
enter_hero g a p =
    let h : HeroLink = record { session = some p; online = true; saving = true } in
    hero_send (record g { heroes = insert a h g.heroes }) h (λ c t. client_init c t a)

-- The constructor of Session at the address `p`
unfoldable pub construct : Game → ℕ → ℕ → ℕ → ℕ → Option Game
unfolding enter_hero
construct g p t a gate = elim (find a g.heroes) [
  | none ↦ some (
      emit
        (record g {
          sessions =
              update g.sessions p (
                some (record { tranid = t; account = a; gate = gate; online = true; hero = none }));
        })
        (ask_hero t a))
  | some h ↦
      enter_hero
        (record g {
          sessions = update g.sessions p (
              some (record { tranid = t; account = a; gate = gate; online = true; hero = some a }));
        })
        a p
]

abbrev pub set_hero_online : StdMap HeroLink → ℕ → Bool → StdMap HeroLink
set_hero_online heroes a b = elim (find a heroes) [
  | none ↦ heroes
  | some h ↦ insert a (record h { online = b }) heroes
]

abbrev pub set_link_online : StdMap HeroLink → Option ℕ → Bool → StdMap HeroLink
set_link_online heroes none b = heroes
set_link_online heroes (some a) b = set_hero_online heroes a b

-- Session::setReconnet
abbrev pub set_reconnet : Game → ℕ → Session → Game
set_reconnet g q s = record g {
  sessions = update g.sessions q (some (record s { online = true }));
  heroes = set_link_online g.heroes s.hero true;
}

abbrev pub enlist : ℕ → ℕ → Option Game → Option Game
enlist t p none = none
enlist t p (some g) = some (record g { onlines = (add_data g.onlines t p).0 })

-- GateManager::addUser, with the address that a new session gets
unfoldable pub add_user : Game → ℕ → ℕ → ℕ → ℕ → Option Game
unfolding construct
add_user g t a gate p = elim (get_data g.onlines t) [
  | none ↦ enlist t p (construct g p t a gate)
  | some q ↦ elim (g.sessions q) [
    | none ↦ none
    | some s ↦ some (if (s.gate == gate) && (s.account == a) then set_reconnet g q s else g)
  ]
]

-- GateManager::removeUser
unfoldable pub remove_user : Game → ℕ → Game
remove_user g t = elim (get_data g.onlines t) [
  | none ↦ g
  | some p ↦ record g { onlines = (erase_data g.onlines t).0; sessions = update g.sessions p none }
]

-- GateManager::offlineUser with setWaitReconnet, which does not test `_dream_hero`
unfoldable pub offline_user : Game → ℕ → Option Game
offline_user g t = elim (get_data g.onlines t) [
  | none ↦ some g
  | some p ↦ elim (g.sessions p) [
    | none ↦ none
    | some s ↦ elim s.hero [
      | none ↦ none
      | some a ↦ some (record g {
        sessions = update g.sessions p (some (record s { online = false }));
        heroes = set_hero_online g.heroes a false;
      })
    ]
  ]
]

abbrev pub take_hero : ℕ → Session → Option Game → Option Game
take_hero p s none = none
take_hero p s (some g) =
    some (record g { sessions = update g.sessions p (some (record s { hero = some s.account })) })

-- parseDBQueryNeedCreateHero and praseDBQueryHeroInfo with CreateHero: the hero of the account is the
-- one that there is, or a new one. The two differ in the data of a new hero.
unfoldable pub create_hero : Game → ℕ → Option Game
unfolding enter_hero
create_hero g t = elim (get_data g.onlines t) [
  | none ↦ some g
  | some p ↦ elim (g.sessions p) [ none ↦ none | some s ↦ take_hero p s (enter_hero g s.account p) ]
]

-- SaveHero, which the timer of the hero calls; it reads the transaction of its session.
unfoldable pub save_hero : Game → ℕ → Option Game
save_hero g a = elim (find a g.heroes) [
  | none ↦ some g
  | some h ↦ elim h.session [
    | none ↦ none
    | some p ↦ elim (g.sessions p) [ none ↦ none | some s ↦ some (emit g (save_data a s.tranid)) ]
  ]
]

-- A request of a player that the hero answers (parseUserMsg, parsePBMessage): nothing happens where
-- the session has no hero.
unfoldable pub user_request : Game → ℕ → Option Game
unfolding hero_send
user_request g t = elim (get_data g.onlines t) [
  | none ↦ some g
  | some p ↦ elim (g.sessions p) [
    | none ↦ none
    | some s ↦ elim s.hero [
      | none ↦ some g
      | some a ↦ elim (find a g.heroes) [
        | none ↦ some g
        | some h ↦ hero_send g h (λ c t. hero_reply c t a)
      ]
    ]
  ]
]

-- m_gate_id of the session for what the message has as an id, and GateManager::addGate
unfoldable pub add_game_gate : Game → ℕ → ℕ → Game
add_game_gate g c serverid =
    let id = serverid % 65536 in
    let g1 : Game = record g { gate_ids = update g.gate_ids c id } in
    if ltb 0 id && ltb id 0xff then record g1 { gates = update g1.gates id (some c) } else g1

-- The loop of removeUserByGate over the players that are left. A session of the gate is released and
-- its entry erased.
unfoldable pub release_users : ℕ → StdMap ℕ → Game → Option Game
release_users gate [] g = some g
release_users gate ((t, p) ∷ todo) g = elim (g.sessions p) [
  | none ↦ none
  | some s ↦ elim (s.gate == gate) [
    | true ↦
        release_users gate todo
          (record g { onlines = (erase_data g.onlines t).0; sessions = update g.sessions p none })
    | false ↦ release_users gate todo g
  ]
]

abbrev pub is_gate_of : Option ℕ → ℕ → Bool
is_gate_of none c = false
is_gate_of (some d) c = d == c

abbrev pub free_slot : ℕ → Option Game → Option Game
free_slot id none = none
free_slot id (some g) = some (record g { gates = update g.gates id none })

-- GateManager::removeGate, when the connection `c` of a gate is closed
unfoldable pub remove_game_gate : Game → ℕ → Option Game
unfolding release_users
remove_game_gate g c =
    let id = g.gate_ids c in
    if (ltb 0 id && ltb id 0xff) && is_gate_of (g.gates id) c
    then free_slot id (release_users id g.onlines g)
    else some g

-- The histories of the server; an event that faults ends the process. A new session gets an address
-- where none stands.
pub data GameEvent : Type 0 where
  gate_added : ℕ → ℕ → GameEvent
  user_added : ℕ → ℕ → ℕ → ℕ → GameEvent
  user_removed user_offline hero_answered hero_saved user_asked gate_lost : ℕ → GameEvent

abbrev pub is_free : Option Session → Bool
is_free none = true
is_free (some s) = false

unfoldable pub game_step : Game → GameEvent → Option Game
game_step g (gate_added c id) = some (add_game_gate g c id)
game_step g (user_added t a gate p) =
    if is_free (g.sessions p) then add_user g t a gate p else some g
game_step g (user_removed t) = some (remove_user g t)
game_step g (user_offline t) = offline_user g t
game_step g (hero_answered t) = create_hero g t
game_step g (hero_saved a) = save_hero g a
game_step g (user_asked t) = user_request g t
game_step g (gate_lost c) = remove_game_gate g c

unfoldable pub game_run : Game → List GameEvent → Option Game
game_run g [] = some g
game_run g (e ∷ es) = elim (game_step g e) [ none ↦ none | some g' ↦ game_run g' es ]
