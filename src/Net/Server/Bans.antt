-- ===== src/Net/Server/Bans.antt =====
-- How long an address is banned.
use hardware_server.Prelude.{
  false, if◌then◌else◌, ltb, none, refl, some, true, ℕ, ◌%◌, ◌+◌, ◌^◌, ◌≡◌,
}
use hardware_server.ObjMap.{find, insert, erase}
use hardware_server.Net.Server.{BanReason, Ban, TcpServer, is_ban_ip, add_ban_ip}

-- The second in which a ban ends, as the server counts seconds in 32 bits.
abbrev pub ban_end : TcpServer → ℕ → ℕ
ban_end s sec = (s.unix_time + sec) % 2 ^ 32

pub add_ban_ip-new :
    (s : TcpServer) (addr sec : ℕ) (br : BanReason)
    → find addr s.ban_ips ≡ none
    → add_ban_ip s addr sec br
      ≡ record s { ban_ips = insert addr (record { until = ban_end s sec; reason = br }) s.ban_ips }
unfolding add_ban_ip
add_ban_ip-new s addr sec br free = rw (free, add_ban_ip) refl

pub is_ban_ip-entry :
    (s : TcpServer) (addr : ℕ) (b : Ban)
    → find addr s.ban_ips ≡ some b
    → is_ban_ip s addr ≡ (
        if ltb b.until s.unix_time
        then (record s { ban_ips = erase addr s.ban_ips }, false)
        else (s, true))
unfolding is_ban_ip
is_ban_ip-entry s addr b here = rw (here, is_ban_ip) refl
