-- ===== src/Net/Server.antt =====
-- common/tcpserver.cpp: the bans of addresses, the sessions that wait to be connected, and the choice
-- of a thread. A session is its address in memory; what reset() clears in it is not part of this state.
pub mod Bans
pub mod History
pub mod Pool
pub mod Rebans
use hardware_server.Prelude.{
  ℕ, suc, ◌+◌, ◌-◌, ◌%◌, ◌^◌, Bool, true, false, Option, none, some, List, [], ◌∷◌, ◌++◌, ltb, leb,
  if◌then◌else◌,
}
use hardware_server.ObjMap.{StdMap, find, insert, erase}

-- ban_reason_t
pub data BanReason : Type 0 where
  wrong_check_sum too_many_auth_fail uncompress_fail hack_packet too_many_packet : BanReason
  too_many_idle_connection shifting_gear : BanReason

-- An entry of m_banip: the last second of the ban, and its reason.
pub record Ban : Type 0 where
  pub until : ℕ
  pub reason : BanReason

-- `accepting` holds the sessions for which async_accept is under way, and `connected` those that have
-- been handed to their clients.
pub record TcpServer : Type 0 where
  pub unix_time : ℕ
  pub ban_ips : StdMap Ban
  pub sessions : List ℕ
  pub accepting_count : ℕ
  pub accepting : List ℕ
  pub connected : List ℕ
  pub thread_count : ℕ
  pub cur_thread_index : ℕ

-- is_ban_ip: the server after the call, as it erases a ban that is over, and the answer.
unfoldable pub is_ban_ip : TcpServer → ℕ → TcpServer × Bool
is_ban_ip s addr = elim (find addr s.ban_ips) [
  | none ↦ (s, false)
  | some b ↦
      if ltb b.until s.unix_time
      then (record s { ban_ips = erase addr s.ban_ips }, false)
      else (s, true)
]

-- add_ban_ip up to its log
unfoldable pub add_ban_ip : TcpServer → ℕ → ℕ → BanReason → TcpServer
add_ban_ip s addr sec br = elim (find addr s.ban_ips) [
  | none ↦
      let b : Ban = record { until = (s.unix_time + sec) % 2 ^ 32; reason = br } in
      record s { ban_ips = insert addr b s.ban_ips }
  | some b ↦
      if ltb b.until sec
      then record s { ban_ips = insert addr (record { until = sec; reason = br }) s.ban_ips }
      else s
]

unfoldable pub remove_ban_ip : TcpServer → ℕ → TcpServer
remove_ban_ip s addr = record s { ban_ips = erase addr s.ban_ips }

-- The first line of _real_run, for what time( NULL ) says.
unfoldable pub update_time : TcpServer → ℕ → TcpServer
update_time s now = record s { unix_time = now % 2 ^ 32 }

-- The loop of _real_run that lets sessions wait for a connection, at most
-- s_io_once_listen_session_count at once.
unfoldable pub listen : ℕ → TcpServer → List ℕ → TcpServer
listen io_once s [] = record s { sessions = [] }
listen io_once s (p ∷ rest) =
    let started = record s {
      accepting_count = suc s.accepting_count;
      accepting = s.accepting ++ p ∷ [];
    } in
    let more = listen io_once started rest in
    if ltb s.accepting_count io_once then more else record s { sessions = p ∷ rest }

unfoldable pub free_session : TcpServer → ℕ → TcpServer
free_session s p = record s { sessions = s.sessions ++ p ∷ [] }

-- generate_thread_index: the server after the call, and the index.
unfoldable pub generate_thread_index : TcpServer → TcpServer × ℕ
generate_thread_index s =
    let next = if leb s.thread_count (suc s.cur_thread_index) then 0 else suc s.cur_thread_index in
    (
      record s { cur_thread_index = next },
      if leb s.thread_count s.cur_thread_index then 0 else s.cur_thread_index,
    )
