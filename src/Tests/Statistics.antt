-- ===== src/Tests/Statistics.antt =====
-- The counters of a packet, of a conversation, and of the statistics socket.
use map.Common.{
  ◌+◌, ◌≡◌, refl, arith, true, false, not, ◌||◌, ◌&&◌, ◌↔◌, none, some, [], ◌∷◌, ◌++◌, ◌≤◌, drop,
}
use map.Common.Text.{codes, c_string, text_eq}
use map.Main.Answers.{IsUnwatched, TakesAnswers, answer_to, sent, serve-show, serve-info}
use map.Main.Events.{Serves, begins, packet, on_packet, new_server, Serves-IsAccounted}
use map.Main.Runs.{Reaches, Reaches-handle}
use map.Main.Socket.{Peers, Server, accept_client, serve}
use map.Mapping.Direction.{sixtofour, fourtosix, sixtosix_gtoi}
use map.Mapping.{dispatch}
use map.Memory.{little, load16, word}
use map.Packet.SixToFour.{analyze6, is_supported}
use map.Stat.Counted.{IsAccounted}
use map.Stat.Order.{in6_addr-order}
use map.Stat.Replies.{num_of, chunk_of, tcp, update-reply}
use map.Stat.Totals.{packets}
use map.Stat.{Stat, lt_in6_addr, gt_in6_addr, eq_in6_addr, lt_in_addr, load32, update, is_short}
use map.Tests.Loop.{begun, begun-Reaches, moment, next, buffer}
use map.Tests.Packets.{header4, segment, server4, server6, remote4, remote6, answer6, echo66}
use map.Tests.Paths.{empty}
use map.Tests.Tables.{one_mapping, one_mapping-IsConsistent, remote_under_zero, translates}

abbrev blank : Stat
blank = record { stat66 = []; stat46 = []; last_flush = 0 }

blank-IsAccounted : IsAccounted little blank
blank-IsAccounted = record { table46 = (tt, tt); table66 = (tt, tt) }

unfoldable loads : Unit {0}
unfolding load32 load16 word analyze6 is_supported is_short lt_in_addr
loads = tt

others : (lt_in_addr little remote4 server4 || lt_in_addr little server4 remote4) ≡ true
unfolding loads
others = refl

answer-tcp : (analyze6 answer6).next_header ≡ 6
unfolding loads
answer-tcp = refl

answer-whole : is_short answer6 60 ≡ false
unfolding loads
answer-whole = refl

update-reply_example :
    (s' : Stat) × (update sixtofour little one_mapping answer6 60
        (update fourtosix little one_mapping (header4 ++ segment) 40 blank)
      ≡ s')
    × (num_of little s' server4 2 ≡ num_of little blank server4 2 + 1)
    × (num_of little s' server4 (2 + 1) ≡ num_of little blank server4 (2 + 1) + 1)
    × (chunk_of little s' remote4 ≡ chunk_of little blank remote4)
    × (s'.stat66 ≡ blank.stat66)
update-reply_example =
    update-reply one_mapping-IsConsistent (header4 ++ segment) answer6 remote_under_zero server6
      remote4 40 60 blank blank-IsAccounted tcp (omega arith) refl (omega arith) refl translates
      refl answer-tcp answer-whole others

in6_addr-order_example :
    (lt_in6_addr little server6 server6 ≡ false)
    × ((lt_in6_addr little server6 remote6 && lt_in6_addr little remote6 server6) ≡ false)
    × ((lt_in6_addr little server6 remote6
          && not (lt_in6_addr little server6 server6 || lt_in6_addr little server6 remote6))
        ≡ false)
    × (gt_in6_addr little server6 remote6 ≡ lt_in6_addr little remote6 server6)
    × (eq_in6_addr little server6 remote6
        ≡ not (lt_in6_addr little server6 remote6 || gt_in6_addr little server6 remote6))
    × ((eq_in6_addr little server6 remote6 ≡ true) ↔ (server6 ≡ remote6))
in6_addr-order_example =
    in6_addr-order little server6 remote6 server6 refl refl (omega arith) (omega arith)

-- The state after the packet of `Loop`, which is counted.
abbrev pub counted : Server
counted = record (new_server 0) {
  stat = update (dispatch little one_mapping buffer) little one_mapping (drop 4 buffer) 44 blank;
}

reads :
    on_packet little one_mapping moment buffer 44 empty begun.rate (new_server 0)
    ≡ some (next, counted)
unfolding on_packet
reads =
    rw ((Reaches-handle moment buffer 44 begun-Reaches (omega arith) (omega arith)).1, on_packet)
      refl

pub after_packet :
    Serves little (record begun { clock = 301; cache = next.cache; rate = next.rate }) counted 1
after_packet =
    packet begun (new_server 0) counted 0 moment buffer 44 next (omega arith) (omega arith) reads
      (begins begun 0 begun-Reaches)

Serves-IsAccounted_example :
    Reaches little (record begun { clock = 301; cache = next.cache; rate = next.rate })
    × IsAccounted little counted.stat
    × (packets counted.stat ≤ 1)
Serves-IsAccounted_example = Serves-IsAccounted after_packet

abbrev peers : Peers
peers = record {
  takes_size = λ fd. true;
  ack = λ fd. 111 ∷ 107 ∷ 0 ∷ [];
  takes_msg = λ fd. true;
  json = λ s. codes "{}";
  ntop4 = λ a. codes "192.0.2.1";
  ntop6 = λ a. codes "2001:db8::1";
  time_text = λ t. codes "201205011200";
  now = 7;
}

all_taken : TakesAnswers peers 9
unfolding c_string text_eq
all_taken = record { size_taken = refl; size_acked = refl; msg_taken = refl }

serve-show_example :
    (v' : Server) × (serve peers 8
        (some (sent (codes "show")))
        (accept_client true 9 (accept_client true 8 counted))
      ≡ some (v', answer_to 9 (peers.json counted.stat)))
    × IsUnwatched 8 v'.watched
    × (v'.stat ≡ counted.stat)
    × (v'.stat_fd ≡ some 9)
serve-show_example = serve-show peers 8 9 true true counted all_taken

echo-supported : is_supported (analyze6 echo66).next_header ≡ true
unfolding loads
echo-supported = refl

echo-whole : is_short echo66 51 ≡ false
unfolding loads
echo-whole = refl

serve-info_example :
    serve peers 8
      (some (sent (codes "info")))
      (record counted { stat = update sixtosix_gtoi little one_mapping echo66 51 counted.stat })
    ≡ none
serve-info_example =
    serve-info peers 8 little one_mapping echo66 51 counted echo-supported echo-whole
