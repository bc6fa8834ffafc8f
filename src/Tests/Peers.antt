-- ===== src/Tests/Peers.antt =====
-- Peers, their pings and the times.
use distributed_games.Base.{
  if◌then◌else◌, ltb, drop, ◌++◌, length, ◌≤◌, ◌≡◌, ◌<◌, refl, some, [], ◌∷◌, arith,
}
use distributed_games.Int32.{to_uint32}
use distributed_games.TimeVal.{TimeVal, sub_msec}
use distributed_games.Peer.{
  Peer, PingInfo, new_peer, get_next_seqno, next_seqno, send_liveness_ping, handle_liveness_pong,
  make_ping,
}
use distributed_games.Peer.Bounds.{Reach, here, next, numbers, send_liveness_ping_seqno}
use distributed_games.Peer.Pings.{pong-ping}
use distributed_games.Tests.Samples.{node, span}
use distributed_games.Tests.Hops.{low}

abbrev start : TimeVal
start = record { sec = 100; usec = 999999 }

abbrev later : TimeVal
later = record { sec = 101; usec = 4000 }

-- The peer after a sample request has taken the number 1.
abbrev asked : Peer
asked = (get_next_seqno (new_peer start node span)).1

asked-Reach : Reach (new_peer start node span) asked
asked-Reach = next here (numbers (new_peer start node span))

sent_one :
    (send_liveness_ping 3 7 node (some span) later asked).1 ≡ some (make_ping 3 7 node span asked)
unfolding send_liveness_ping
sent_one = refl

send_liveness_ping_seqno_example :
    let q = (send_liveness_ping 3 7 node (some span) later asked).0 in
    (length q.sent_pings ≤ 10)
    × (length q.rtt_samples ≤ 21)
    × ((make_ping 3 7 node span asked).seqno ≡ asked.seqno)
    × ((make_ping 3 7 node span asked).seqno < 256)
    × (q.seqno < 255)
send_liveness_ping_seqno_example =
    send_liveness_ping_seqno start node span asked asked-Reach 3 7 node (some span) later
      (make_ping 3 7 node span asked) sent_one

pong-ping_example :
    handle_liveness_pong later later span 1 (send_liveness_ping 3 7 node (some span) start low).0
    ≡ record low {
      range = span;
      last_msg_time = later;
      last_ping_sent = start;
      seqno = next_seqno 1;
      rtt_samples = (if ltb 20 0 then drop 1 [] else []) ++ to_uint32 (sub_msec later start) ∷ [];
      sent_pings = [];
    }
pong-ping_example = pong-ping 3 7 node span span start later later low (omega arith) tt

abbrev old : PingInfo
old = record { time = record { sec = 1; usec = 0 }; seqno = 1 }

abbrev waiting : Peer
waiting = record low { sent_pings = old ∷ [] }
