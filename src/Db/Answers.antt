-- ===== src/Db/Answers.antt =====
-- databaseserver/db_quest.cpp: what a game server gets for the request of a hero.
use hardware_server.Prelude.{
  ℕ, ◌<◌, ◌≡◌, ◌∙◌, some, List, [], ◌∷◌, ◌++◌, lt→ltb, ap, false, true, if◌then◌else◌,
}
use hardware_server.Hero.{Equip}
use hardware_server.Db.{ToyResult, HeroRow, HeroQuest, DbMessage, hero_data, DbServer}
use hardware_server.Db.Quest.{
  db_step, db_handle, is_readable, Tables, db_run, task_done, hero_asked, hero_of_row, send_message,
  no_answer, query_hero_info, db_do_query_hero_info, db_do_query_hero_equips, db_do_query_hero_toys,
}

-- The game server with the id `gs` is known by the session `p`.
pub record Registered (d : DbServer) (p gs : ℕ) : Type 0 where
  pub id : d.game_ids p ≡ gs
  pub above : 0 < gs
  pub below : gs < 255
  pub slot : d.games gs ≡ some p

-- A message that has been sent to a session.
abbrev pub told : DbServer → ℕ → ℕ → DbMessage → DbServer
told d p flag m = record d {
  sent = d.sent ++ record { session = p; flag = flag; message = m } ∷ [];
}

send_message-told :
    (d : DbServer) (p gs flag : ℕ) (m : DbMessage)
    → Registered d p gs
    → send_message d m flag gs ≡ told d p flag m
unfolding send_message
send_message-told d p gs flag m r = rw (lt→ltb 0 gs r.above, lt→ltb gs 255 r.below, r.slot)

-- The server while it runs and no task waits.
abbrev pub idle : DbServer → DbServer
idle d = record d { tasks = []; failed = false }

module _ (d : DbServer) (p gs a flag : ℕ) (r : Registered d p gs) where
  abbrev quest : HeroQuest
  quest = record { account = a; tranid = flag; gsid = gs; info = no_answer }

  sends_message : (m : DbMessage) → send_message (idle d) m flag gs ≡ told (idle d) p flag m
  sends_message m =
      send_message-told (idle d) p gs flag m
        (record { id = r.id; above = r.above; below = r.below; slot = r.slot })

  abbrev found : HeroRow → HeroQuest
  found row = record quest {
    info = record no_answer { account = row.account_id; hero = hero_of_row row };
  }

  third_answer :
      (t u v : Tables) (row : HeroRow) (rows : List HeroRow) (es : List Equip)
      → t.characters a ≡ some (row ∷ rows)
      → u.equips row.account_id ≡ some es
      → db_run (idle d) (hero_asked p a flag ∷ task_done 0 t ∷ task_done 0 u ∷ task_done 0 v ∷ [])
        ≡ db_do_query_hero_toys
            (idle d)
            (record (found row) { info = record (found row).info { equips = es } })
            (v.toys a)
  unfolding db_run db_step db_handle query_hero_info db_do_query_hero_info db_do_query_hero_equips
  third_answer t u v row rows es e f = rw (r.id, e, f)

  pub hero_answered :
      (t u v : Tables) (row : HeroRow) (rows : List HeroRow) (es : List Equip) (ts : ToyResult)
      → t.characters a ≡ some (row ∷ rows)
      → u.equips row.account_id ≡ some es
      → v.toys a ≡ some ts
      → db_run (idle d) (hero_asked p a flag ∷ task_done 0 t ∷ task_done 0 u ∷ task_done 0 v ∷ [])
        ≡ (if is_readable ts.rows ts.has_timestamp
            then told (idle d) p flag (
                hero_data (record {
                  account = row.account_id;
                  hero = hero_of_row row;
                  equips = es;
                  toys = ts.rows;
                }))
            else record (idle d) { failed = true })
  unfolding db_do_query_hero_toys
  hero_answered t u v row rows es ts e f g =
      third_answer t u v row rows es e f
      ∙ rw g (
          ap
            (λ s.
              if is_readable ts.rows ts.has_timestamp then s else record (idle d) { failed = true })
            (sends_message (
              hero_data (record {
                account = row.account_id;
                hero = hero_of_row row;
                equips = es;
                toys = ts.rows;
              }))))
