-- ===== src/Membership/Listen/Joining.antt =====
-- The introducer's handling of a join request, from a new node and from one that is still listed.
use rain_strom_distributed_s.Prelude.{
  ℕ, ◌≤◌, leb, ◌≡◌, refl, true, false, some, List, [], ◌∷◌, ◌++◌, String, ◌==◌, ltb, arith,
  Bool-cases, inl, inr, ==_refl,
}
use rain_strom_distributed_s.Prelude.Run.{ok}
use rain_strom_distributed_s.Config.{Config, ring_id}
use rain_strom_distributed_s.Membership.Types.{Tag, Entry, MembershipList, Message}
use rain_strom_distributed_s.Membership.Table.{
  add, membership_entry, insert, contains, remove, get_index_of_node,
}
use rain_strom_distributed_s.Membership.Table.Order.{add-eq-insert}
use rain_strom_distributed_s.Membership.Table.Keys.{Absent, contains-Absent}
use rain_strom_distributed_s.Membership.Table.View.{view, put, view-insert}
use rain_strom_distributed_s.Membership.Table.Placed.{Inv, insert-Inv}
use rain_strom_distributed_s.Membership.Service.{Service, Datagram}
use rain_strom_distributed_s.Membership.Listen.{
  Packet, Delivery, buffer_size, read_buffer, admitted, admit, listen,
}

contains-insert : (e : Entry) (m : MembershipList) → contains (insert e m) e.node_id ≡ true
unfolding contains insert get_index_of_node
contains-insert e [] = ground arith
contains-insert e (x ∷ m) = ground (arith, contains-insert e m)

-- Taking out the first entry of a node that stood in the list before leaves one behind.
remove-insert-contains :
    (e : Entry) (m : MembershipList)
    → contains m e.node_id ≡ true
    → contains (remove e.node_id (insert e m)) e.node_id ≡ true
unfolding contains remove insert get_index_of_node
remove-insert-contains e [] h = cc
remove-insert-contains e (x ∷ m) h = elim (Bool-cases (ltb e.peer_id x.peer_id)) [
  | inl q ↦ rw (q, ==_refl e.node_id) h
  | inr q ↦ rw q (elim (Bool-cases (x.node_id == e.node_id)) [
    | inl z ↦ rw z (contains-insert e m)
    | inr z ↦ rw z (ground (arith, z, h, remove-insert-contains e m))
  ])
]

-- A join request that fits the buffer reaches the introducer while the mutex is free, from a configured node that is
-- not listed: it is answered with a list that is well formed and on which that node is active and
-- every other node has its old status; the join is passed on to the file system.
pub listen-join :
    (c : Config) (sends : String → Delivery) (order : List Message → List Message) (now place : ℕ)
    (p : Packet) (addr : String) (s : Service)
    → p.size ≤ buffer_size
    → p.msg_type ≡ Tag.join_request
    → ring_id c p.node_id ≡ some place
    → s.locked ≡ false
    → contains s.list p.node_id ≡ false
    → Inv c s.list
    → (w : Service) × (listen c sends order now (some p) addr s ≡ ok w)
      × Inv c w.list
      × ((n : ℕ) → view w.list n ≡ put p.node_id Tag.active (view s.list) n)
      × (w.joined_out ≡ s.joined_out ++ p.node_id ∷ [])
      × (w.outbox ≡ s.outbox ++ (addr, Datagram.join_response w.list) ∷ [])
unfolding listen read_buffer
listen-join c sends order now place p addr s fits t h free new v = (
  record (admitted now place p.node_id s) {
    outbox = s.outbox ++ (addr, Datagram.join_response (add e s.list)) ∷ [];
    locked = false;
  },
  rw (fit, listen) (rw (t, listen) (rw (free, listen) (rw (h, listen) refl))),
  rw sorted (insert-Inv c e s.list h absent v),
  λ n. rw sorted (view-insert e s.list n absent),
  refl,
  refl,
)
  where
    fit : leb p.size buffer_size ≡ true
    fit = ground arith

    e : Entry
    e = membership_entry now p.node_id Tag.active place

    absent : Absent p.node_id s.list
    absent = contains-Absent s.list p.node_id new

    sorted : add e s.list ≡ insert e s.list
    sorted = add-eq-insert e s.list v.sorted

-- The same request from a node that is still listed: the list gets a second entry for it, and one
-- `Remove`, for its failure or its leave, does not take the node off the list.
pub admit_again :
    (c : Config) (now place node : ℕ) (s : Service)
    → ring_id c node ≡ some place
    → s.locked ≡ false
    → contains s.list node ≡ true
    → Inv c s.list
    → (w : Service) × (admit c now node s ≡ ok w) × (contains (remove node w.list) node ≡ true)
unfolding admit
admit_again c now place node s h free old v = (
  admitted now place node (record s { locked = false }),
  rw (free, admit) (rw (h, admit) refl),
  let e : Entry = membership_entry now node Tag.active place in
      rw (add-eq-insert e s.list v.sorted) (remove-insert-contains e s.list old),
)
