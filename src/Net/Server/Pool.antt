-- ===== src/Net/Server/Pool.antt =====
-- The sessions of a server: none is lost or stands in two places.
use hardware_server.Prelude.{
  ℕ, ◌+◌, ◌-◌, ◌%◌, ◌^◌, ◌≤◌, ◌<◌, ◌≡◌, refl, subst, Bool, List, [], ◌∷◌, ◌++◌, length,
  length-append, pick, occurs, occurs-append, Picked, PickedFrom, pick-Picked, arith, ltb,
  Option-cases, Bool-cases, inl, inr,
}
use hardware_server.ObjMap.{StdMap, find, erase}
use hardware_server.Net.Server.{
  BanReason, Ban, TcpServer, is_ban_ip, add_ban_ip, remove_ban_ip, update_time, listen,
  free_session, generate_thread_index,
}
use hardware_server.Net.Server.History.{
  handle_accept, ServerEvent, ran, accepted, started, closed, banned, unbanned, server_step,
  server_run, create,
}

-- Every session of the pool is in one of the three lists or in `held`, as often as in the pool. The
-- count of the sessions that wait for a connection is right and within its limit, and so is the index of
-- the next of the `n` threads.
pub record Steady (io_once : ℕ) (pool : List ℕ) (n : ℕ) (held : List ℕ) (s : TcpServer)
    : Type 0 where
  pub whole :
      (q : ℕ)
      → occurs held q + (occurs s.sessions q + occurs s.accepting q + occurs s.connected q)
        ≡ occurs pool q
  pub count : s.accepting_count ≡ length s.accepting
  pub limit : s.accepting_count ≤ io_once
  pub index : s.cur_thread_index < n
  pub threads : s.thread_count ≡ n

-- What the steps that do not move sessions leave as it is.
record Unmoved (s s' : TcpServer) : Type 0 where
  sessions : s'.sessions ≡ s.sessions
  accepting : s'.accepting ≡ s.accepting
  connected : s'.connected ≡ s.connected
  count : s'.accepting_count ≡ s.accepting_count
  index : s'.cur_thread_index ≡ s.cur_thread_index
  threads : s'.thread_count ≡ s.thread_count

-- Other bans, and another time.
time_and_bans :
    (s : TcpServer) (t : ℕ) (m : StdMap Ban) → Unmoved s (record s { unix_time = t; ban_ips = m })
time_and_bans s t m = record {
  sessions = refl;
  accepting = refl;
  connected = refl;
  count = refl;
  index = refl;
  threads = refl;
}

is_ban_ip-Unmoved : (s : TcpServer) (addr : ℕ) → Unmoved s (is_ban_ip s addr).0
unfolding is_ban_ip
is_ban_ip-Unmoved s addr = elim (Option-cases (find addr s.ban_ips)) [
  | inl free ↦ rw (free, is_ban_ip) (time_and_bans s s.unix_time s.ban_ips)
  | inr (b, here) ↦ elim (Bool-cases (ltb b.until s.unix_time)) [
    | inl over ↦ rw (here, is_ban_ip, over) (time_and_bans s s.unix_time (erase addr s.ban_ips))
    | inr lasts ↦ rw (here, is_ban_ip, lasts) (time_and_bans s s.unix_time s.ban_ips)
  ]
]

add_ban_ip-Unmoved :
    (s : TcpServer) (addr sec : ℕ) (br : BanReason) → Unmoved s (add_ban_ip s addr sec br)
unfolding add_ban_ip
add_ban_ip-Unmoved s addr sec br = elim (Option-cases (find addr s.ban_ips)) [
  | inl free ↦ rw (free, add_ban_ip) (time_and_bans s s.unix_time _)
  | inr (b, here) ↦ elim (Bool-cases (ltb b.until sec)) [
    | inl more ↦ rw (here, add_ban_ip, more) (time_and_bans s s.unix_time _)
    | inr less ↦ rw (here, add_ban_ip, less) (time_and_bans s s.unix_time s.ban_ips)
  ]
]

module _ (io_once : ℕ) (pool : List ℕ) (n : ℕ) where
  listen-Steady :
      (s : TcpServer) (ps : List ℕ)
      → Steady io_once pool n [] (record s { sessions = ps })
      → Steady io_once pool n [] (listen io_once s ps)
  unfolding listen
  listen-Steady s [] h = h
  listen-Steady s (p ∷ ps) h = elim (Bool-cases (ltb s.accepting_count io_once)) [
    | inl room ↦ rw room (
        listen-Steady _ ps (record {
          whole = λ q. omega (arith, h.whole q, occurs-append s.accepting (p ∷ []) q);
          count = omega (arith, h.count, length-append s.accepting (p ∷ []));
          limit = ground (arith, room);
          index = h.index;
          threads = h.threads;
        }))
    | inr full ↦ rw full h
  ]

  Unmoved-Steady :
      (s s' : TcpServer) (held : List ℕ)
      → Unmoved s s'
      → Steady io_once pool n held s
      → Steady io_once pool n held s'
  Unmoved-Steady s s' held u h = record {
    whole = λ q. rw (u.sessions, u.accepting, u.connected) (h.whole q);
    count = rw (u.count, u.accepting) h.count;
    limit = rw u.count h.limit;
    index = rw u.index h.index;
    threads = rw u.threads h.threads;
  }

  free_session-Steady :
      (s : TcpServer) (p : ℕ)
      → Steady io_once pool n (p ∷ []) s
      → Steady io_once pool n [] (free_session s p)
  unfolding free_session
  free_session-Steady s p h = record {
    whole = λ q. omega (arith, h.whole q, occurs-append s.sessions (p ∷ []) q);
    count = h.count;
    limit = h.limit;
    index = h.index;
    threads = h.threads;
  }

  connected-Steady :
      (s : TcpServer) (p : ℕ)
      → Steady io_once pool n (p ∷ []) s
      → Steady io_once pool n [] (record s { connected = s.connected ++ p ∷ [] })
  connected-Steady s p h = record {
    whole = λ q. omega (arith, h.whole q, occurs-append s.connected (p ∷ []) q);
    count = h.count;
    limit = h.limit;
    index = h.index;
    threads = h.threads;
  }

  handle_accept-Steady :
      (s : TcpServer) (p addr : ℕ) (failed : Bool)
      → Steady io_once pool n (p ∷ []) (record s { accepting_count = s.accepting_count - 1 })
      → Steady io_once pool n [] (handle_accept s p addr failed)
  unfolding handle_accept
  handle_accept-Steady s p addr failed h =
      let s' = record s { accepting_count = s.accepting_count - 1 } in
      let k = Unmoved-Steady s' (is_ban_ip s' addr).0 (p ∷ []) (is_ban_ip-Unmoved s' addr) h in
      elim (Bool-cases (is_ban_ip s' addr).1) [
        | inl refused ↦ rw refused (free_session-Steady _ p k)
        | inr welcome ↦ elim (Bool-cases failed) [
          | inl error ↦ rw (welcome, error) (free_session-Steady _ p k)
          | inr reached ↦ rw (welcome, reached) (connected-Steady _ p k)
        ]
      ]

  server_step-Steady :
      (s : TcpServer) (e : ServerEvent)
      → Steady io_once pool n [] s
      → Steady io_once pool n [] (server_step io_once s e)
  unfolding server_step update_time generate_thread_index add_ban_ip remove_ban_ip
  server_step-Steady s (ran now) h =
      listen-Steady (update_time s now) s.sessions
        (Unmoved-Steady s (update_time s now) [] (time_and_bans s (now % 2 ^ 32) s.ban_ips) h)
  server_step-Steady s (accepted i addr failed) h = elim (Option-cases (pick i s.accepting)) [
    | inl over ↦ rw over h
    | inr ((p, rest), e) ↦
        let k : Picked s.accepting p rest =
          subst (PickedFrom s.accepting) e (pick-Picked i s.accepting) in
        rw e (
          handle_accept-Steady (record s { accepting = rest }) p addr failed
            (record {
              whole = λ q. omega (arith, h.whole q, k.same q);
              count = omega (arith, h.count, k.size);
              limit = omega (arith, h.limit);
              index = h.index;
              threads = h.threads;
            }))
  ]
  server_step-Steady s started h = record {
    whole = h.whole;
    count = h.count;
    limit = h.limit;
    index = ground (arith, h.index, h.threads);
    threads = h.threads;
  }
  server_step-Steady s (closed i) h = elim (Option-cases (pick i s.connected)) [
    | inl over ↦ rw over h
    | inr ((p, rest), e) ↦
        let k : Picked s.connected p rest =
          subst (PickedFrom s.connected) e (pick-Picked i s.connected) in
        rw e (
          free_session-Steady (record s { connected = rest }) p
            (record {
              whole = λ q. omega (arith, h.whole q, k.same q);
              count = h.count;
              limit = h.limit;
              index = h.index;
              threads = h.threads;
            }))
  ]
  server_step-Steady s (banned addr sec br) h =
      Unmoved-Steady s (add_ban_ip s addr sec br) [] (add_ban_ip-Unmoved s addr sec br) h
  server_step-Steady s (unbanned addr) h =
      Unmoved-Steady s (remove_ban_ip s addr) []
        (time_and_bans s s.unix_time (erase addr s.ban_ips)) h

  server_run-Steady :
      (s : TcpServer) (es : List ServerEvent)
      → Steady io_once pool n [] s
      → Steady io_once pool n [] (server_run io_once s es)
  unfolding server_run
  server_run-Steady s [] h = h
  server_run-Steady s (e ∷ es) h =
      server_run-Steady (server_step io_once s e) es (server_step-Steady s e h)

-- Whatever happens to a server that is created with a pool of sessions and at least one thread, each
-- session is in the pool, waits for a connection or belongs to a client, once for each time that it was
-- in the pool at first, m_accepting_count is the number of those that wait and at most
-- s_io_once_listen_session_count, and the next thread index is below the number of threads.
pub server_run-create :
    (io_once now n : ℕ) (pool : List ℕ) (es : List ServerEvent)
    → 0 < n
    → Steady io_once pool n [] (server_run io_once (create now pool n) es)
server_run-create io_once now n pool es threads =
    server_run-Steady io_once pool n (create now pool n) es (record {
      whole = λ q. omega arith;
      count = refl;
      limit = omega arith;
      index = threads;
      threads = refl;
    })
