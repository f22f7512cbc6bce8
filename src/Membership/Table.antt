-- ===== src/Membership/Table.antt =====
-- The operations of GroupMembership/membershipList.go on the list itself. An index that is -1 in
-- the source is `none`; an index expression out of range, which panics there, is `none` too.
pub mod Order
pub mod Keys
pub mod View
pub mod Placed
pub mod Neighbours
use rain_strom_distributed_s.Prelude.{
  ℕ, zero, suc, ◌+◌, ◌%◌, Bool, true, false, ◌&&◌, Option, none, some, List, [], ◌∷◌, ◌++◌, ltb,
  ◌==◌, if◌then◌else◌, ◌>>=◌, length, get_elem?, modify,
}
use rain_strom_distributed_s.Config.{Config, ring_id}
use rain_strom_distributed_s.Membership.Types.{
  Tag, Entry, MembershipList, Message, is_join, is_suspected_tag,
}

abbrev shift : Option ℕ → Option ℕ
shift none = none
shift (some i) = some (suc i)

unfoldable pub get_index_of_node : MembershipList → ℕ → Option ℕ
get_index_of_node [] node = none
get_index_of_node (e ∷ m) node =
    if e.node_id == node then some 0 else shift (get_index_of_node m node)

unfoldable pub get_index_of_peer : MembershipList → ℕ → Option ℕ
get_index_of_peer [] peer = none
get_index_of_peer (e ∷ m) peer =
    if e.peer_id == peer then some 0 else shift (get_index_of_peer m peer)

unfoldable pub contains : MembershipList → ℕ → Bool
contains m node = elim (get_index_of_node m node) [ none ↦ false | some _ ↦ true ]

unfoldable pub contains_peer : MembershipList → ℕ → Bool
contains_peer [] peer = false
contains_peer (e ∷ m) peer = if e.peer_id == peer then true else contains_peer m peer

-- One step of the insertion sort by which `sort.Slice` sorts up to twelve elements: the entry
-- goes behind those that are not greater. A cluster has ten servers.
unfoldable pub insert : Entry → MembershipList → MembershipList
insert x [] = x ∷ []
insert x (y ∷ ys) = if ltb x.peer_id y.peer_id then x ∷ y ∷ ys else y ∷ insert x ys

sort_onto : MembershipList → MembershipList → MembershipList
unfolding insert
sort_onto acc [] = acc
sort_onto acc (x ∷ xs) = sort_onto (insert x acc) xs

unfoldable pub sort_by_peer : MembershipList → MembershipList
unfolding sort_onto
sort_by_peer = sort_onto []

unfoldable pub add : Entry → MembershipList → MembershipList
unfolding sort_by_peer
add e m = sort_by_peer (m ++ e ∷ [])

abbrev pub membership_entry : ℕ → ℕ → Tag → ℕ → Entry
membership_entry now node status peer = record {
  node_id = node;
  time_stamp = now;
  status = status;
  peer_id = peer;
}

update_known : Config → Message → MembershipList → ℕ → Option MembershipList
update_known c msg m i =
    if is_join msg.msg_type
    then (do
      peer ← ring_id c msg.node_id
      some (modify m i (λ e. record e { status = Tag.active; peer_id = peer })))
    else some (modify m i (λ e. record e { status = msg.msg_type; time_stamp = msg.time_stamp }))

unfoldable pub add_or_update : Config → ℕ → Message → MembershipList → Option MembershipList
unfolding update_known
add_or_update c now msg m = elim (get_index_of_node m msg.node_id) [
  | some i ↦ update_known c msg m i
  | none ↦ do
    peer ← ring_id c msg.node_id
    some (add (membership_entry now msg.node_id Tag.active peer) m)
]

-- The list after the call; the source also returns whether it had the node.
unfoldable pub update : ℕ → Tag → MembershipList → MembershipList
update node status [] = []
update node status (e ∷ m) =
    if e.node_id == node then record e { status = status } ∷ m else e ∷ update node status m

unfoldable pub remove : ℕ → MembershipList → MembershipList
remove node [] = []
remove node (e ∷ m) = if e.node_id == node then m else e ∷ remove node m

unfoldable pub is_suspected : MembershipList → ℕ → Bool
is_suspected [] node = false
is_suspected (e ∷ m) node =
    if e.node_id == node && is_suspected_tag e.status then true else is_suspected m node

unfoldable pub rejuvenate : ℕ → ℕ → MembershipList → MembershipList
rejuvenate now node [] = []
rejuvenate now node (e ∷ m) =
    if e.node_id == node && is_suspected_tag e.status
    then record e { status = Tag.active; time_stamp = now } ∷ m
    else e ∷ rejuvenate now node m

-- The loop `for j := 1; j <= k; j++` over `mL[(j+index)%len(mL)]`, with the rounds that are left.
successors : MembershipList → ℕ → ℕ → ℕ → Option MembershipList
successors m index zero j = some []
successors m index (suc k) j = do
  e ← get_elem? m ((j + index) % length m)
  rest ← successors m index k (j + 1)
  some (e ∷ rest)

abbrev node_ids : MembershipList → List ℕ
node_ids [] = []
node_ids (e ∷ m) = e.node_id ∷ node_ids m

abbrev pub peer_ids : MembershipList → List ℕ
peer_ids [] = []
peer_ids (e ∷ m) = e.peer_id ∷ peer_ids m

abbrev pub k_neighbors : ℕ
k_neighbors = 3

unfoldable pub get_neighbours : MembershipList → ℕ → Option (List ℕ)
unfolding successors
get_neighbours m node = elim (get_index_of_node m node) [
  | none ↦ some []
  | some index ↦ do es ← successors m index k_neighbors 1; some (node_ids es)
]

unfoldable pub get_neighbours_peer_id : MembershipList → ℕ → Option (List ℕ)
unfolding successors
get_neighbours_peer_id m peer = elim (get_index_of_peer m peer) [
  | none ↦ some []
  | some index ↦ do es ← successors m index 2 1; some (peer_ids es)
]
