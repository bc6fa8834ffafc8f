-- ===== src/LinkMaintainer/Arriving.antt =====
-- mercury/LinkMaintainer.cpp: the node that joins: the timer that asks (`JoinRequestTimer`) and the
-- response. Hub.cpp: `OnJoinComplete`, without the timers that it starts.
use distributed_games.Base.{
  ℕ, ◌+◌, ◌*◌, ◌/◌, ◌==◌, Bool, true, false, ltb, if◌then◌else◌, pos, none, some, [], ◌∷◌,
}
use distributed_games.Address.{IpEndPoint}
use distributed_games.Constraint.{NodeRange}
use distributed_games.Message.JoinResponse.{JoinResponse}
use distributed_games.Hub.Member.{
  Outcome, running, exited, fault, ◌>>=◌, joined, unjoined, get_successor, clear_predecessor,
  set_successor_list, set_range,
}
use distributed_games.LinkMaintainer.{Env, time_now, Node, Handled, join_request, new_header}
use distributed_games.LinkMaintainer.Neighbors.{quiet, with_hub, handle_notify_successor}

-- The notice that a node with one successor gives itself in that one's name.
unfoldable pub notice_only : Env → Bool → Node → Outcome Node
notice_only e only n =
    if only
    then elim (get_successor n.hub) [
      | none ↦ fault
      | some s ↦
          handle_notify_successor e s.address
            (record { header = record (new_header e 5 n) { sender = s.address }; range = s.range })
            n
    ]
    else running n

-- `OnJoinComplete`
unfoldable pub on_join_complete : Node → Outcome Handled
on_join_complete n = elim (get_successor n.hub) [
  | none ↦ fault
  | some s ↦ running (quiet (with_hub (record n.hub { status = joined }) n))
]

-- A response that assigns a range to a node without one.
unfoldable pub take_range : Env → JoinResponse → NodeRange → Node → Outcome Handled
unfolding notice_only on_join_complete
take_range e msg r n = do
  m ← notice_only e msg.succ_is_only_node (record n {
    timer_cancelled = true;
    hub = set_successor_list (time_now e) e.successors_to_keep msg.sil (set_range (some r) n.hub).0;
  })
  on_join_complete (if e.do_loadbal then record m { load = msg.load } else m)

-- `HandleJoinResponse`
unfoldable pub handle_join_response : Env → JoinResponse → Node → Outcome Handled
unfolding take_range
handle_join_response e msg n =
    if msg.e_error == 1
    then running (quiet (with_hub (record n.hub { status = unjoined }) n))
    else if msg.e_error == 0
    then elim n.hub.range [
      | some r ↦ running (quiet n)
      | none ↦ elim msg.assigned_range [ none ↦ fault | some r ↦ take_range e msg r n ]
    ]
    else running (quiet n)

pub record JoinTimer : Type 0 where
  pub rep_address : IpEndPoint
  pub leave_join : Bool
  pub n_timeouts : ℕ
  pub timeout : ℕ

-- The constructor; `join_request_timeout` is the setting.
abbrev pub new_join_timer : ℕ → IpEndPoint → Bool → JoinTimer
new_join_timer join_request_timeout rep lj = record {
  rep_address = rep;
  leave_join = lj;
  n_timeouts = 0;
  timeout = join_request_timeout;
}

pub record Fired : Type 0 where
  pub timer : JoinTimer
  pub handled : Handled

-- The timer after a timeout, which is multiplied by the `double` 1.2 and cut off.
abbrev pub next_timer : JoinTimer → JoinTimer
next_timer t = record t { n_timeouts = t.n_timeouts + 1; timeout = t.timeout * 6 / 5 }

-- The request of a timeout.
abbrev pub ask_again : Env → JoinTimer → Node → Handled
ask_again e t n = record {
  node = with_hub (clear_predecessor n.hub) n;
  sent =
      record {
        to = t.rep_address;
        msg = join_request (record {
          header = new_header e 3 n;
          usedesired = false;
          desiredmax = pos 0;
          is_lb_leavejoin = t.leave_join;
        });
      }
      ∷ [];
}

-- `JoinRequestTimer::OnTimeout`, where `Debug::die` ends the process.
unfoldable pub on_join_timeout : ℕ → Env → JoinTimer → Node → Outcome Fired
on_join_timeout max_attempts e t n =
    if ltb max_attempts t.n_timeouts
    then exited
    else running (record { timer = next_timer t; handled = ask_again e t n })
