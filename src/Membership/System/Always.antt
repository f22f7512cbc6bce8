-- ===== src/Membership/System/Always.antt =====
-- What holds in every state that the goroutines of a node can reach.
use rain_strom_distributed_s.Prelude.{ℕ, ◌≡◌, ◌≢◌, refl, true, false, List, All, All-Has}
use rain_strom_distributed_s.Prelude.Run.{ok, blocked}
use rain_strom_distributed_s.Config.{Config}
use rain_strom_distributed_s.Membership.Table.{is_suspected}
use rain_strom_distributed_s.Membership.Table.Placed.{Inv}
use rain_strom_distributed_s.Membership.Service.{Service}
use rain_strom_distributed_s.Membership.Detector.{mark_node_failed, mark_node_alive, leaving_node}
use rain_strom_distributed_s.Membership.System.{
  Event, Step, Reach, receive, tick, wake, give_up, time_out, switch, leave, here, next, IsClear,
  IsUnaccused, Keeps, IsFair, IsFairStep, IsFairRun,
}
use rain_strom_distributed_s.Membership.System.Keeping.{
  Keeps-refl, leaving_node-Keeps, suspicion_timeout-Keeps,
}
use rain_strom_distributed_s.Membership.System.Pings.{ping_wakes-Keeps, send_signals-Keeps}
use rain_strom_distributed_s.Membership.System.Rounds.{listen-Keeps, switch_suspicion-Keeps}

Step-Keeps :
    {c : Config} {s t : Service} {e : Event} (n : ℕ) (st : Step c s e t)
    → Keeps (IsFairStep st) c n (IsClear n e) s t
Step-Keeps {c} {s} n (receive sends order now packet addr perm run) =
    listen-Keeps (IsFair c s packet) c n sends order now packet addr s perm (λ o. o) run
Step-Keeps {c} {s} n (tick sends to_set run) = send_signals-Keeps Unit c n Unit sends to_set s run
Step-Keeps {c} {s} n (wake now p found acked run) =
    ping_wakes-Keeps Unit c n Unit now p s found (λ q z. absurd (cc)) run
Step-Keeps {c} {s} n (give_up now p found acked run) =
    ping_wakes-Keeps Unit c n (n ≢ p.node) now p s found (λ q z. q) run
Step-Keeps {c} {s} n (time_out now node there) =
    suspicion_timeout-Keeps Unit c n Unit now node s
      (λ q u. All-Has (λ m. n ≢ m) s.timers node u.timers there)
Step-Keeps {c} {s} n (switch sends sus) = switch_suspicion-Keeps Unit c n Unit sends sus s
Step-Keeps {c} {s} n (leave now run) = leaving_node-Keeps Unit c n Unit now s.server_id s run

Reach-Keeps :
    {c : Config} {s t : Service} {es : List Event} (n : ℕ) (r : Reach c s es t)
    → Keeps (IsFairRun r) c n (All (IsClear n) es) s t
Reach-Keeps {c} {s} n here = Keeps-refl Unit c n s
Reach-Keeps n (next r st) =
    let k = Reach-Keeps n r in
    let l = Step-Keeps n st in
    record {
      well = λ o v. l.well o.1 (k.well o.0 v);
      held = λ h. l.held (k.held h);
      spared = λ q u. l.spared q.0 (k.spared q.1 u);
    }

-- Each join request that comes in, in the state in which it is read, is of a node that is not
-- listed, and each join response brings a well-formed list.
-- Under this condition only well-formed lists are reached from a well-formed one, in whatever order
-- the goroutines of the node run, and whatever signals, timeouts and switches of the suspicion they
-- meet.
pub Reach-Inv :
    {c : Config} {s t : Service} {es : List Event} (r : Reach c s es t)
    → IsFairRun r
    → Inv c s.list
    → Inv c t.list
Reach-Inv r o v = let k = Reach-Keeps 0 r in k.well o v

-- While no ping to a node goes unanswered and no signal brings a FAIL message about it, a node at
-- which nothing says that it has failed never signals its failure: in every state that is reached
-- by other events, in any order, it is not among the failures that were signalled, no timer runs
-- for it, and no FAIL message about it waits to be spread.
pub Reach-IsUnaccused :
    {c : Config} {s t : Service} {es : List Event} (n : ℕ)
    → Reach c s es t
    → All (IsClear n) es
    → IsUnaccused n s
    → IsUnaccused n t
Reach-IsUnaccused n r q u = let k = Reach-Keeps n r in k.spared q u

-- A second suspicion of a node, with suspicion on and the mutex free: `markNodeFailed` returns with
-- the mutex held, and in every state that the goroutines reach from there a call of
-- `markNodeFailed`, `markNodeAlive` or `LeavingNode` for any node waits for ever.
pub second_suspicion-for_ever :
    {c : Config} {es : List Event} (now node : ℕ) (s u : Service)
    → s.locked ≡ false
    → s.suspicion ≡ true
    → is_suspected s.list node ≡ true
    → Reach c (record s { locked = true }) es u
    → (later other : ℕ)
    → (mark_node_failed now node s ≡ ok (record s { locked = true }))
      × (mark_node_failed later other u ≡ blocked)
      × (mark_node_alive later other u ≡ blocked)
      × (leaving_node later other u ≡ blocked)
unfolding mark_node_failed mark_node_alive leaving_node
second_suspicion-for_ever now node s u h on sus r later other =
    let k = Reach-Keeps 0 r in
    let held : u.locked ≡ true = k.held refl in
    (
      rw (h, mark_node_failed, on, sus) refl,
      rw (held, mark_node_failed) refl,
      rw (held, mark_node_alive) refl,
      rw (held, leaving_node) refl,
    )
