-- ===== src/Db/Close.antt =====
-- databaseserver/db_quest.cpp: saveToClose, the answer to a game server that has saved its heroes and
-- is about to stop.
use hardware_server.Prelude.{
  pick, ℕ, ◌+◌, ◌≤◌, ◌≡◌, refl, List, [], ◌∷◌, ◌++◌, Bool, true, false, arith, length, keep_if,
  if◌then◌else◌, inl, inr, ◌⊎◌, ltb, ◌&&◌, Bool-cases, Option-cases,
}
use hardware_server.Db.{
  Task, DbMessage, save_all_heroes, DbSent, DbServer, start_db, hero_data, need_create_hero,
  verify_toy, select_character, select_equips, select_toys, select_toy, update_toy, execute,
}
use hardware_server.Db.Quest.{
  DbEvent, db_run, db_step, db_handle, is_readable, send_message, Tables, run_task, game_registered,
  game_closed, hero_asked, save_asked, toy_asked, save_all_asked, save_time_over, task_done,
  db_do_query_hero_info, db_do_query_hero_equips, db_do_query_hero_toys, db_do_query_toy_verify,
  save_to_close, parse_game_server_register, remove_game, add_game, query_hero_info, save_sql_data,
  verify_toy_cd_key, on_save_to_close,
}

abbrev pub is_save_all : DbMessage → Bool
is_save_all (hero_data h) = false
is_save_all need_create_hero = false
is_save_all (verify_toy t a) = false
is_save_all save_all_heroes = true

-- How many game servers have been told that all heroes are saved.
abbrev pub releases : List DbSent → ℕ
releases sent = length (keep_if (λ s. is_save_all s.message) sent)

releases-snoc :
    (sent : List DbSent) (m : DbSent)
    → releases (sent ++ m ∷ []) ≡ releases sent + (if is_save_all m.message then 1 else 0)
releases-snoc [] m = ground arith
releases-snoc (x ∷ sent) m = ground (arith, releases-snoc sent m)

send_message-cases :
    (d : DbServer) (m : DbMessage) (flag gs : ℕ)
    → (send_message d m flag gs ≡ d)
      ⊎ ((p : ℕ) × (send_message d m flag gs
            ≡ record d { sent = d.sent ++ record { session = p; flag = flag; message = m } ∷ [] }))
unfolding send_message
send_message-cases d m flag gs = elim (Bool-cases (ltb 0 gs && ltb gs 255)) [
  | inl inside ↦ elim (Option-cases (d.games gs)) [
    | inl free ↦ inl (rw (inside, free))
    | inr (p, here) ↦ inr (p, rw (inside, here))
  ]
  | inr outside ↦ inl (rw outside)
]

-- What is done leaves the flag as it is and releases nobody.
record Quiet (d d' : DbServer) : Type 0 where
  count : releases d'.sent ≡ releases d.sent
  flag : d'.receive_close_msg ≡ d.receive_close_msg

send_message-Quiet :
    (d : DbServer) (m : DbMessage) (flag gs : ℕ)
    → is_save_all m ≡ false
    → Quiet d (send_message d m flag gs)
send_message-Quiet d m flag gs h = elim (send_message-cases d m flag gs) [
  | inl same ↦ rw same (record { count = refl; flag = refl })
  | inr (p, sent) ↦ rw sent (record {
    count = ground (arith, releases-snoc d.sent (record { session = p; flag = flag; message = m }));
    flag = refl;
  })
]

run_task-Quiet : (t : Tables) (d : DbServer) (task : Task) → Quiet d (run_task t d task)
unfolding run_task db_do_query_hero_info db_do_query_hero_equips db_do_query_hero_toys
    db_do_query_toy_verify
run_task-Quiet t d (select_character a q) = elim (Option-cases (t.characters a)) [
  | inl failed ↦ rw failed (send_message-Quiet d need_create_hero q.tranid q.gsid refl)
  | inr ([], e) ↦ rw e (send_message-Quiet d need_create_hero q.tranid q.gsid refl)
  | inr (row ∷ rows, e) ↦ rw e (record { count = refl; flag = refl })
]
run_task-Quiet t d (select_equips a q) = elim (Option-cases (t.equips a)) [
  | inl failed ↦ rw failed (record { count = refl; flag = refl })
  | inr (es, e) ↦ rw e (record { count = refl; flag = refl })
]
run_task-Quiet t d (select_toys a q) = elim (Option-cases (t.toys a)) [
  | inl failed ↦ rw failed (record { count = refl; flag = refl })
  | inr (r, e) ↦ elim (Bool-cases (is_readable r.rows r.has_timestamp)) [
    | inl readable ↦
        rw (e, db_do_query_hero_toys, readable) (send_message-Quiet d _ q.tranid q.gsid refl)
    | inr throws ↦ rw (e, db_do_query_hero_toys, throws) (record { count = refl; flag = refl })
  ]
]
run_task-Quiet t d (select_toy key q) = elim (Option-cases (t.toy key)) [
  | inl failed ↦ rw failed (record { count = refl; flag = refl })
  | inr ([], e) ↦ rw e (record { count = refl; flag = refl })
  | inr ((toy, acc) ∷ rows, e) ↦
      let d' = record d { tasks = d.tasks ++ update_toy q.account q.cd_key ∷ [] } in
      let m = verify_toy (record toy { time_stamp = t.now }) acc in
      let told = send_message-Quiet d' m q.tranid q.gsid refl in
      rw e (record { count = told.count; flag = told.flag })
]
run_task-Quiet t d (update_toy a key) = record { count = refl; flag = refl }
run_task-Quiet t d (execute sql) = record { count = refl; flag = refl }

abbrev TellsOnce : DbServer → Type 0
TellsOnce d = releases d.sent ≤ (if d.receive_close_msg then 1 else 0)

Quiet-TellsOnce : (d d' : DbServer) → Quiet d d' → TellsOnce d → TellsOnce d'
Quiet-TellsOnce d d' q h = ground (arith, q.count, q.flag)

save_to_close-TellsOnce : (d : DbServer) (gs : ℕ) → TellsOnce d → TellsOnce (save_to_close d gs)
unfolding save_to_close
save_to_close-TellsOnce d gs h = elim (Bool-cases d.receive_close_msg) [
  | inl before ↦ rw before (ground arith)
  | inr first ↦
      let d' = record d { receive_close_msg = true; closing = true } in
      elim (send_message-cases d' save_all_heroes 0 gs) [
        | inl same ↦ rw (first, same) (ground arith)
        | inr (p, sent) ↦
            rw (first, sent)
              (ground (
                arith,
                releases-snoc d.sent (record { session = p; flag = 0; message = save_all_heroes }),
              ))
      ]
]

db_handle-TellsOnce : (d : DbServer) (e : DbEvent) → TellsOnce d → TellsOnce (db_handle d e)
unfolding db_handle parse_game_server_register add_game remove_game query_hero_info save_sql_data
    verify_toy_cd_key on_save_to_close save_to_close
db_handle-TellsOnce d (game_registered p gs) h = ground arith
db_handle-TellsOnce d (game_closed p) h = ground arith
db_handle-TellsOnce d (hero_asked p a flag) h = h
db_handle-TellsOnce d (save_asked p sql) h = h
db_handle-TellsOnce d (toy_asked p a flag key) h = h
db_handle-TellsOnce d (save_all_asked p) h = save_to_close-TellsOnce d (d.game_ids p) h
db_handle-TellsOnce d save_time_over h = ground arith
db_handle-TellsOnce d (task_done i t) h = elim (Option-cases (pick i d.tasks)) [
  | inl idle ↦ rw idle h
  | inr ((task, rest), e) ↦ rw e (
      Quiet-TellsOnce (record d { tasks = rest }) (run_task t (record d { tasks = rest }) task)
        (run_task-Quiet t (record d { tasks = rest }) task) h)
]

TellsOnce-if :
    (b : Bool) (d d' : DbServer) → TellsOnce d → TellsOnce d' → TellsOnce (if b then d else d')
TellsOnce-if true d d' h h' = h
TellsOnce-if false d d' h h' = h'

db_step-TellsOnce : (d : DbServer) (e : DbEvent) → TellsOnce d → TellsOnce (db_step d e)
unfolding db_step
db_step-TellsOnce d e h = TellsOnce-if d.failed d (db_handle d e) h (db_handle-TellsOnce d e h)

db_run-TellsOnce : (d : DbServer) (es : List DbEvent) → TellsOnce d → TellsOnce (db_run d es)
unfolding db_run
db_run-TellsOnce d [] h = h
db_run-TellsOnce d (e ∷ es) h = db_run-TellsOnce (db_step d e) es (db_step-TellsOnce d e h)

-- Whatever happens after the start, and however many game servers have saved their heroes and ask
-- whether they may stop, at most one of them is told so.
pub one_release : (es : List DbEvent) → releases (db_run start_db es).sent ≤ 1
one_release es =
    let h = db_run-TellsOnce start_db es (omega arith) in
    ground (arith, Bool-cases (db_run start_db es).receive_close_msg)
