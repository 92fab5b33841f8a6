-- ===== src/Net/Server/Rebans.antt =====
-- An address that is banned again while its entry stands.
use hardware_server.Prelude.{
  Bool, ◌-◌, All, Bool-cases, List, Option-cases, [], arith, false, inl, inr, leb, ltb, none, pick,
  refl, some, ℕ, ◌==◌, ◌∙◌, ◌∷◌, ◌≡◌, ◌≤◌, ◌⊎◌,
}
use hardware_server.ObjMap.{StdMap, find, insert}
use hardware_server.ObjMap.Laws.{find-insert, find-erase}
use hardware_server.Net.Server.{
  BanReason, Ban, TcpServer, is_ban_ip, add_ban_ip, remove_ban_ip, update_time, listen,
  free_session, generate_thread_index,
}
use hardware_server.Net.Server.History.{
  handle_accept, ServerEvent, ran, accepted, started, closed, banned, unbanned, server_step,
  server_run,
}
use hardware_server.Net.Server.Bans.{ban_end, add_ban_ip-new, is_ban_ip-entry}

-- An event that neither lifts the ban of `addr` nor is a connection of it or a ban for more than `until`
-- seconds.
abbrev pub Spares : ℕ → ℕ → ServerEvent → Type 0
Spares addr until (ran now) = Unit
Spares addr until (accepted i other failed) = (addr == other) ≡ false
Spares addr until started = Unit
Spares addr until (closed i) = Unit
Spares addr until (banned other sec br) = ((addr == other) ≡ false) ⊎ (sec ≤ until)
Spares addr until (unbanned other) = (addr == other) ≡ false

listen-bans :
    (io_once : ℕ) (s : TcpServer) (ps : List ℕ) → (listen io_once s ps).ban_ips ≡ s.ban_ips
unfolding listen
listen-bans io_once s [] = refl
listen-bans io_once s (p ∷ ps) = elim (Bool-cases (ltb s.accepting_count io_once)) [
  | inl more ↦ rw more (listen-bans io_once _ ps)
  | inr full ↦ rw full refl
]

is_ban_ip-other :
    (s : TcpServer) (addr other : ℕ)
    → (addr == other) ≡ false
    → find addr (is_ban_ip s other).0.ban_ips ≡ find addr s.ban_ips
unfolding is_ban_ip
is_ban_ip-other s addr other ne = ground (arith, find-erase addr other s.ban_ips)

insert-other :
    (addr other : ℕ) (v : Ban) (m : StdMap Ban)
    → (addr == other) ≡ false
    → find addr (insert other v m) ≡ find addr m
insert-other addr other v m ne =
    let apart : (other == addr) ≡ false = ground arith in find-insert addr other v m ∙ rw apart refl

add_ban_ip-other :
    (s : TcpServer) (addr other sec : ℕ) (br : BanReason)
    → (addr == other) ≡ false
    → find addr (add_ban_ip s other sec br).ban_ips ≡ find addr s.ban_ips
unfolding add_ban_ip
add_ban_ip-other s addr other sec br ne = elim (Option-cases (find other s.ban_ips)) [
  | inl free ↦ rw (free, add_ban_ip) (insert-other addr other _ s.ban_ips ne)
  | inr (b, here) ↦ elim (Bool-cases (ltb b.until sec)) [
    | inl longer ↦ rw (here, add_ban_ip, longer) (insert-other addr other _ s.ban_ips ne)
    | inr short ↦ rw (here, add_ban_ip, short) refl
  ]
]

add_ban_ip-kept :
    (s : TcpServer) (addr sec : ℕ) (br : BanReason) (b : Ban)
    → find addr s.ban_ips ≡ some b
    → sec ≤ b.until
    → find addr (add_ban_ip s addr sec br).ban_ips ≡ some b
unfolding add_ban_ip
add_ban_ip-kept s addr sec br b here short =
    let same : ltb b.until sec ≡ false = ground arith in rw (here, add_ban_ip, same) here

add_ban_ip-Spares :
    (s : TcpServer) (addr other sec : ℕ) (br : BanReason) (b : Ban)
    → find addr s.ban_ips ≡ some b
    → ((addr == other) ≡ false) ⊎ (sec ≤ b.until)
    → find addr (add_ban_ip s other sec br).ban_ips ≡ some b
add_ban_ip-Spares s addr other sec br b here (inl ne) =
    add_ban_ip-other s addr other sec br ne ∙ here
add_ban_ip-Spares s addr other sec br b here (inr short) = elim (Bool-cases (addr == other)) [
  | inl same ↦
      let it : other ≡ addr = ground arith in rw it (add_ban_ip-kept s addr sec br b here short)
  | inr ne ↦ add_ban_ip-other s addr other sec br ne ∙ here
]

handle_accept-other :
    (s : TcpServer) (addr p other : ℕ) (failed : Bool)
    → (addr == other) ≡ false
    → find addr (handle_accept s p other failed).ban_ips ≡ find addr s.ban_ips
unfolding handle_accept free_session
handle_accept-other s addr p other failed ne =
    let asked = record s { accepting_count = s.accepting_count - 1 } in
    elim (Bool-cases (is_ban_ip asked other).1) [
      | inl refused ↦ rw refused (is_ban_ip-other asked addr other ne)
      | inr free ↦ elim (Bool-cases failed) [
        | inl lost ↦ rw (free, lost) (is_ban_ip-other asked addr other ne)
        | inr made ↦ rw (free, made) (is_ban_ip-other asked addr other ne)
      ]
    ]

server_step-Spares :
    (io_once : ℕ) (s : TcpServer) (addr : ℕ) (b : Ban) (e : ServerEvent)
    → find addr s.ban_ips ≡ some b
    → Spares addr b.until e
    → find addr (server_step io_once s e).ban_ips ≡ some b
unfolding server_step update_time remove_ban_ip generate_thread_index free_session
server_step-Spares io_once s addr b (ran now) here spared =
    rw (listen-bans io_once (update_time s now) s.sessions) here
server_step-Spares io_once s addr b (accepted i other failed) here spared =
    elim (Option-cases (pick i s.accepting)) [
      | inl nobody ↦ rw nobody here
      | inr ((p, rest), chosen) ↦
          rw chosen
            (handle_accept-other (record s { accepting = rest }) addr p other failed spared ∙ here)
    ]
server_step-Spares io_once s addr b started here spared = here
server_step-Spares io_once s addr b (closed i) here spared =
    elim (Option-cases (pick i s.connected)) [
      | inl nobody ↦ rw nobody here
      | inr ((p, rest), chosen) ↦ rw chosen here
    ]
server_step-Spares io_once s addr b (banned other sec br) here spared =
    add_ban_ip-Spares s addr other sec br b here spared
server_step-Spares io_once s addr b (unbanned other) here spared =
    ground (arith, find-erase addr other s.ban_ips)

server_run-Spares :
    (io_once : ℕ) (s : TcpServer) (addr : ℕ) (b : Ban) (es : List ServerEvent)
    → find addr s.ban_ips ≡ some b
    → All (Spares addr b.until) es
    → find addr (server_run io_once s es).ban_ips ≡ some b
unfolding server_run
server_run-Spares io_once s addr b [] here spared = here
server_run-Spares io_once s addr b (e ∷ es) here spared =
    server_run-Spares io_once (server_step io_once s e) addr b es
      (server_step-Spares io_once s addr b e here spared.0) spared.1

-- An address that has no entry is banned for `sec` seconds. After any history of the server that follows,
-- also one in which the address is banned again, its entry is still the first one, and it is refused
-- exactly while the time of the server is not past the end of that first ban. The conditions are that in
-- the history the ban is not lifted, that no connection comes from the address, and that each later ban
-- of it is for no more seconds than the number of the second in which the first one ends, which counts
-- from 1970.
pub ban_not_extended :
    (io_once : ℕ) (s : TcpServer) (addr sec : ℕ) (br : BanReason) (es : List ServerEvent)
    → find addr s.ban_ips ≡ none
    → All (Spares addr (ban_end s sec)) es
    → let s' = server_run io_once (add_ban_ip s addr sec br) es in
      (find addr s'.ban_ips ≡ some (record { until = ban_end s sec; reason = br }))
      × ((is_ban_ip s' addr).1 ≡ leb s'.unix_time (ban_end s sec))
ban_not_extended io_once s addr sec br es free spared =
    let b : Ban = record { until = ban_end s sec; reason = br } in
    let s' = server_run io_once (add_ban_ip s addr sec br) es in
    let first : find addr (add_ban_ip s addr sec br).ban_ips ≡ some b =
      rw (add_ban_ip-new s addr sec br free) (ground (arith, find-insert addr addr b s.ban_ips)) in
    let later = server_run-Spares io_once (add_ban_ip s addr sec br) addr b es first spared in
    (later, rw (is_ban_ip-entry s' addr b later) (ground arith))
