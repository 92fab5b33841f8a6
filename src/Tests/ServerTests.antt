-- ===== src/Tests/ServerTests.antt =====
-- A server with two sessions, and the queue of its received messages.
use hardware_server.Prelude.{
  inl, inr, ℕ, ◌≡◌, refl, true, false, some, List, [], ◌∷◌, ◌++◌, arith, leb, if◌then◌else◌,
}
use hardware_server.ObjMap.{find}
use hardware_server.Net.Inbox.{
  Inbox, no_messages, filled, drained, InboxEvent, pushed, polled, round, inbox_step, inbox_run,
}
use hardware_server.Net.Inbox.Order.{inbox_run-order, poll_ends, entries}
use hardware_server.Net.Server.{TcpServer, hack_packet, wrong_check_sum, is_ban_ip, add_ban_ip}
use hardware_server.Net.Server.Bans.{ban_end}
use hardware_server.Net.Server.History.{
  ServerEvent, ran, accepted, started, closed, banned, server_run, create,
}
use hardware_server.Net.Server.Pool.{Steady, server_run-create}
use hardware_server.Net.Server.Rebans.{ban_not_extended}

abbrev messages : List (InboxEvent ℕ)
messages = pushed 11 ∷ pushed 12 ∷ polled ∷ round true ∷ pushed 13 ∷ round false ∷ []

messages_taken : entries (inbox_run no_messages messages).freed ≡ 11 ∷ 12 ∷ []
unfolding inbox_run
messages_taken = refl

inbox_run-order_example :
    (entries (inbox_run no_messages messages).freed
        ++ (drained (inbox_run no_messages messages) ++ filled (inbox_run no_messages messages))
      ≡ 11 ∷ 12 ∷ 13 ∷ [])
    × ((if (inbox_run no_messages messages).polling
          then []
          else drained (inbox_run no_messages messages))
        ≡ [])
inbox_run-order_example = inbox_run-order messages

abbrev half_way : Inbox ℕ
half_way = record {
  queue_0 = 11 ∷ 12 ∷ [];
  queue_1 = [];
  current_is_1 = true;
  polling = true;
  freed = [];
}

abbrev rest_of_poll : List (InboxEvent ℕ)
rest_of_poll = round true ∷ pushed 13 ∷ round false ∷ []

poll_ends_example :
    ((inbox_step (inbox_run half_way rest_of_poll) (round true)).polling ≡ false)
    × (entries (inbox_step (inbox_run half_way rest_of_poll) (round true)).freed ≡ 11 ∷ 12 ∷ [])
    × (filled (inbox_step (inbox_run half_way rest_of_poll) (round true)) ≡ 13 ∷ [])
poll_ends_example = poll_ends half_way rest_of_poll true refl refl

-- At second 1000 the address 5 is banned for two minutes.
abbrev at_1000 : TcpServer
at_1000 = create 1000 (1 ∷ 2 ∷ []) 4

abbrev day : List ServerEvent
day =
    banned 5 120 hack_packet
    ∷ ran 1001
    ∷ accepted 1 5 false
    ∷ accepted 0 6 false
    ∷ started
    ∷ ran 1002
    ∷ closed 0
    ∷ []

server_run-create_example : Steady 40 (1 ∷ 2 ∷ []) 4 [] (server_run 40 at_1000 day)
server_run-create_example = server_run-create 40 1000 4 (1 ∷ 2 ∷ []) day (omega arith)

-- The address 5 is banned again at second 1110, for a thousand seconds.
abbrev second_ban : List ServerEvent
second_ban =
    ran 1100
    ∷ accepted 0 6 false
    ∷ ran 1110
    ∷ banned 5 1000 hack_packet
    ∷ banned 6 5000 hack_packet
    ∷ ran 1121
    ∷ []

ban_not_extended_example :
    (find 5 (server_run 40 (add_ban_ip at_1000 5 120 wrong_check_sum) second_ban).ban_ips
      ≡ some (record { until = ban_end at_1000 120; reason = wrong_check_sum }))
    × ((is_ban_ip (server_run 40 (add_ban_ip at_1000 5 120 wrong_check_sum) second_ban) 5).1
        ≡ leb
            (server_run 40 (add_ban_ip at_1000 5 120 wrong_check_sum) second_ban).unix_time
            (ban_end at_1000 120))
unfolding find
ban_not_extended_example =
    ban_not_extended 40 at_1000 5 120 wrong_check_sum second_ban refl
      (tt, (refl, (tt, (inr (omega arith), (inl refl, (tt, tt))))))
