-- ===== src/Membership/Detector/Mutex.antt =====
-- The mutex of the membership list in `markNodeFailed`: when it is given back, and what waits for
-- it when it is not.
use rain_strom_distributed_s.Prelude.{ℕ, ◌≡◌, refl, true, false, ◌&&◌, arith}
use rain_strom_distributed_s.Prelude.Run.{ok, blocked}
use rain_strom_distributed_s.Membership.Table.{is_suspected}
use rain_strom_distributed_s.Membership.Service.{Service}
use rain_strom_distributed_s.Membership.Detector.{
  mark_failed_held, mark_node_failed, mark_node_alive, leaving_node,
}

-- Once it has the mutex, `markNodeFailed` returns, and it has given the mutex back in every case
-- but one: while suspicion is on and the node is already suspected it keeps it.
pub mark_node_failed-locked :
    (now node : ℕ) (s : Service)
    → s.locked ≡ false
    → (w : Service) × (mark_node_failed now node s ≡ ok w)
      × (w.locked ≡ (s.suspicion && is_suspected s.list node))
unfolding mark_node_failed
mark_node_failed-locked now node s h =
    (mark_failed_held now node (record s { locked = true }), rw (h, mark_node_failed), ground arith)

-- A second suspicion of a node: `markNodeFailed` returns with the mutex held, and from then on a
-- call of `markNodeFailed`, `markNodeAlive` or `LeavingNode` for any node waits for ever.
pub second_suspicion-blocks :
    (now node : ℕ) (s : Service)
    → s.locked ≡ false
    → s.suspicion ≡ true
    → is_suspected s.list node ≡ true
    → (w : Service) × (mark_node_failed now node s ≡ ok w)
      × ((later other : ℕ)
          → (mark_node_failed later other w ≡ blocked)
            × (mark_node_alive later other w ≡ blocked)
            × (leaving_node later other w ≡ blocked))
unfolding mark_node_failed mark_node_alive leaving_node
second_suspicion-blocks now node s h on sus = (
  record s { locked = true },
  rw (h, mark_node_failed, on, sus) refl,
  λ later other. (refl, refl, refl),
)
