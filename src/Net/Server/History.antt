-- ===== src/Net/Server/History.antt =====
-- The sessions of a server from its start on.
use hardware_server.Prelude.{
  ℕ, ◌-◌, ◌%◌, ◌^◌, Bool, Option, none, some, List, [], ◌∷◌, ◌++◌, pick, if◌then◌else◌,
}
use hardware_server.Net.Server.{
  BanReason, TcpServer, is_ban_ip, add_ban_ip, remove_ban_ip, update_time, listen, free_session,
  generate_thread_index,
}

-- handle_accept for the session `p`, which the client at `addr` has reached unless `failed`.
unfoldable pub handle_accept : TcpServer → ℕ → ℕ → Bool → TcpServer
unfolding is_ban_ip free_session
handle_accept s p addr failed =
    let (s', banned) = is_ban_ip (record s { accepting_count = s.accepting_count - 1 }) addr in
    if banned
    then free_session s' p
    else if failed
    then free_session s' p
    else record s' { connected = s'.connected ++ p ∷ [] }

-- What happens to a server: a round of its loop at a time, the end of an async_accept, the start of a
-- session, the end of one, and bans. The numbers choose one of the sessions.
pub data ServerEvent : Type 0 where
  ran : ℕ → ServerEvent
  accepted : ℕ → ℕ → Bool → ServerEvent
  started : ServerEvent
  closed : ℕ → ServerEvent
  banned : ℕ → ℕ → BanReason → ServerEvent
  unbanned : ℕ → ServerEvent

abbrev accept_one : TcpServer → ℕ → Bool → Option (ℕ × List ℕ) → TcpServer
accept_one s addr failed none = s
accept_one s addr failed (some (p, rest)) =
    handle_accept (record s { accepting = rest }) p addr failed

abbrev close_one : TcpServer → Option (ℕ × List ℕ) → TcpServer
close_one s none = s
close_one s (some (p, rest)) = free_session (record s { connected = rest }) p

-- `io_once` is s_io_once_listen_session_count.
unfoldable pub server_step : ℕ → TcpServer → ServerEvent → TcpServer
unfolding update_time listen handle_accept generate_thread_index free_session add_ban_ip
    remove_ban_ip
server_step io_once s (ran now) = listen io_once (update_time s now) s.sessions
server_step io_once s (accepted i addr failed) = accept_one s addr failed (pick i s.accepting)
server_step io_once s started = (generate_thread_index s).0
server_step io_once s (closed i) = close_one s (pick i s.connected)
server_step io_once s (banned addr sec br) = add_ban_ip s addr sec br
server_step io_once s (unbanned addr) = remove_ban_ip s addr

unfoldable pub server_run : ℕ → TcpServer → List ServerEvent → TcpServer
unfolding server_step
server_run io_once s [] = s
server_run io_once s (e ∷ es) = server_run io_once (server_step io_once s e) es

-- create for a pool of sessions.
abbrev pub create : ℕ → List ℕ → ℕ → TcpServer
create now pool threads = record {
  unix_time = now % 2 ^ 32;
  ban_ips = [];
  sessions = pool;
  accepting_count = 0;
  accepting = [];
  connected = [];
  thread_count = threads;
  cur_thread_index = 0;
}
