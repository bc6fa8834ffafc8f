-- ===== src/LinkMaintainer/Departing.antt =====
-- What a leaving node tells its neighbours.
use distributed_games.Base.{ℕ, []}
use distributed_games.Constraint.{NodeRange}
use distributed_games.Peer.{Peer}
use distributed_games.PubsubStore.{PubsubStore}
use distributed_games.LinkMaintainer.{Env, Node, Outgoing, leave, new_header}

-- The notification with no publication and no interest in it.
abbrev pub bare_leave : Env → Node → NodeRange → ℕ → Outgoing
bare_leave e n range current_load = leave (record {
  header = new_header e 28 n;
  assigned_range = range;
  addload = current_load;
  triggers = [];
  subscriptions = [];
})
