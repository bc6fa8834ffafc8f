-- ===== src/LinkMaintainer/Attempts.antt =====
-- A node that is never answered.
use distributed_games.Base.{
  Bool, ℕ, zero, suc, ◌+◌, ◌≤◌, ◌<◌, ◌≡◌, refl, ap, ltb, List, [], ◌++◌, length, arith, Bool-cases,
  inl, inr,
}
use distributed_games.Hub.Member.{Outcome, running, exited, ◌>>=◌}
use distributed_games.LinkMaintainer.{Env, Node, Sent}
use distributed_games.LinkMaintainer.Arriving.{
  JoinTimer, on_join_timeout, new_join_timer, next_timer, ask_again,
}
use distributed_games.Address.{IpEndPoint}

-- The timer fires some times in turn; what the node sends. The clock goes on, `clock` says how.
pub keep_asking : ℕ → ℕ → (ℕ → Env) → JoinTimer → Node → Outcome (List Sent)
keep_asking zero max_attempts clock t n = running []
keep_asking (suc k) max_attempts clock t n =
    on_join_timeout max_attempts (clock t.n_timeouts) t n >>= λ f.
    keep_asking k max_attempts clock f.timer f.handled.node >>= λ rest.
    running (f.handled.sent ++ rest)

module _ (max_attempts : ℕ) (clock : ℕ → Env) where
  asked :
      (k : ℕ) (t : JoinTimer) (n : Node)
      → t.n_timeouts + k ≤ max_attempts + 1
      → (l : List Sent) × (keep_asking k max_attempts clock t n ≡ running l) × (length l ≡ k)
  unfolding keep_asking on_join_timeout
  asked zero t n h = ([], refl, refl)
  asked (suc k) t n h =
      let f = ask_again (clock t.n_timeouts) t n in
      let (l, e, m) = asked k (next_timer t) f.node (omega arith) in
      (f.sent ++ l, ground (arith, e), ap suc m)

  given_up :
      (k : ℕ) (t : JoinTimer) (n : Node)
      → t.n_timeouts ≤ max_attempts + 1
      → max_attempts + 1 < t.n_timeouts + k
      → keep_asking k max_attempts clock t n ≡ exited
  unfolding keep_asking on_join_timeout
  given_up zero t n h l = absurd (omega arith)
  given_up (suc k) t n h l = elim (Bool-cases (ltb max_attempts t.n_timeouts)) [
    | inl over ↦ rw over refl
    | inr under ↦
        rw
          (
            under,
            given_up k (next_timer t) (ask_again (clock t.n_timeouts) t n).node (ground arith)
                (omega arith),
          )
          refl
  ]

  -- A node that is never answered asks to join one time more often than the setting says, and at
  -- the next timeout it gives up: the process ends. It does not ask for ever.
  pub keep_asking_lem :
      (k join_request_timeout : ℕ) (rep : IpEndPoint) (lj : Bool) (n : Node)
      → let t = new_join_timer join_request_timeout rep lj in
        ((l : List Sent) × (keep_asking (max_attempts + 1) max_attempts clock t n ≡ running l)
          × (length l ≡ max_attempts + 1))
        × (keep_asking (max_attempts + 2 + k) max_attempts clock t n ≡ exited)
  keep_asking_lem k join_request_timeout rep lj n =
      let t = new_join_timer join_request_timeout rep lj in
      (
        asked (max_attempts + 1) t n (omega arith),
        given_up (max_attempts + 2 + k) t n (omega arith) (omega arith),
      )
