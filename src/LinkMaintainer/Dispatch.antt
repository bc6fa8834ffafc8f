-- ===== src/LinkMaintainer/Dispatch.antt =====
-- mercury/LinkMaintainer.cpp: `ProcessMessage`, of the messages that are modelled.
use distributed_games.Base.{ℕ, Bool, not, ◌==◌, if◌then◌else◌}
use distributed_games.Address.{IpEndPoint}
use distributed_games.Message.{Message}
use distributed_games.Hub.Member.{Outcome, running, ◌>>=◌}
use distributed_games.LinkMaintainer.{
  Env, Node, Handled, Outgoing, join_request, join_response, notify_successor, get_pred, pred,
  get_succ_list, succ_list, leave, subscription_list, trigger_list, link_break,
}
use distributed_games.LinkMaintainer.Joining.{handle_join_request}
use distributed_games.LinkMaintainer.Arriving.{handle_join_response}
use distributed_games.LinkMaintainer.Neighbors.{
  quiet, handle_get_pred, handle_get_succ_list, handle_pred, handle_succ_list,
  handle_notify_successor,
}
use distributed_games.LinkMaintainer.Leaving.{handle_leave_notification, handle_link_break}

-- What all messages have in common.
abbrev pub base_of : Outgoing → Message
base_of (join_request m) = m.header
base_of (join_response m) = m.header
base_of (notify_successor m) = m.header
base_of (get_pred m) = m
base_of (pred m) = m.header
base_of (get_succ_list m) = m
base_of (succ_list m) = m.header
base_of (leave m) = m.header
base_of (subscription_list m is) = m
base_of (trigger_list m ps) = m
base_of (link_break m) = m

-- What the handlers ask of the network and of the measures of load.
pub record Around : Type 0 where
  pub delivered : Bool
  pub load_sum : ℕ

-- The choice of the handler by the type of a message.
unfoldable pub handle : Env → Around → IpEndPoint → Outgoing → Node → Outcome Handled
handle e o from (join_request m) n = handle_join_request e o.delivered from m n
handle e o from (join_response m) n = handle_join_response e m n
handle e o from (notify_successor m) n =
    handle_notify_successor e from m n >>= (λ k. running (quiet k))
handle e o from (get_pred m) n = handle_get_pred e from n
handle e o from (pred m) n = handle_pred e from m n
handle e o from (get_succ_list m) n = handle_get_succ_list e from n
handle e o from (succ_list m) n = handle_succ_list e from m n
handle e o from (leave m) n = handle_leave_notification e o.load_sum from m n
handle e o from (link_break m) n = handle_link_break from n
handle e o from (subscription_list m is) n = running (quiet n)
handle e o from (trigger_list m ps) n = running (quiet n)

-- `ProcessMessage`
unfoldable pub process_message : Env → Around → IpEndPoint → Outgoing → Node → Outcome Handled
unfolding handle
process_message e o from m n =
    if not ((base_of m).hub_id == e.hub_id) then running (quiet n) else handle e o from m n
