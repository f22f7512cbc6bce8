-- ===== src/Hydfs/Routing.antt =====
-- HyDfs/utils/ring.go: which peers hold a file.
pub mod Primary
use rain_strom_distributed_s.Prelude.{
  ℕ, zero, suc, ◌+◌, ◌%◌, Option, none, some, List, [], ◌∷◌, ltb, if◌then◌else◌, ◌>>=◌, length,
  get_elem?,
}
use rain_strom_distributed_s.Membership.Types.{MembershipList}
use rain_strom_distributed_s.Membership.Table.{get_index_of_peer}

-- The loop over `i` up to its `break`: the first index whose peer id is greater than the hash.
unfoldable pub first_above : MembershipList → ℕ → Option ℕ
first_above [] hash = none
first_above (e ∷ m) hash =
    let rest = first_above m hash in
    if ltb hash e.peer_id then some 0 else elim rest [ none ↦ none | some i ↦ some (suc i) ]

-- `mL[i%len(mL)].PeerId`, where `none` is a panic.
abbrev pub peer_at : MembershipList → ℕ → Option ℕ
peer_at m i = do e ← get_elem? m i; some e.peer_id

abbrev pub three_from : MembershipList → ℕ → Option (List ℕ)
three_from m i = do
  a ← peer_at m i
  b ← peer_at m ((i + 1) % length m)
  c ← peer_at m ((i + 2) % length m)
  some (a ∷ b ∷ c ∷ [])

-- The `if` behind the loop, for a file above every peer.
abbrev pub from_top : MembershipList → Option (List ℕ)
from_top [] = some []
from_top (e ∷ m) = do
  a ← peer_at (e ∷ m) 0
  b ← peer_at (e ∷ m) (1 % length (e ∷ m))
  c ← peer_at (e ∷ m) (2 % length (e ∷ m))
  some (a ∷ b ∷ c ∷ [])

unfoldable pub file_routing : ℕ → MembershipList → Option (List ℕ)
unfolding first_above
file_routing hash m = elim (first_above m hash) [ some i ↦ three_from m i | none ↦ from_top m ]

-- `mL[mL.GetIndexOfPeer(peer)].NodeId`; the index -1 panics.
unfoldable pub node_of_peer : MembershipList → ℕ → Option ℕ
node_of_peer m peer = do i ← get_index_of_peer m peer; e ← get_elem? m i; some e.node_id

unfoldable pub nodes_of_peers : MembershipList → List ℕ → Option (List ℕ)
unfolding node_of_peer
nodes_of_peers m [] = some []
nodes_of_peers m (p ∷ ps) = do n ← node_of_peer m p; ns ← nodes_of_peers m ps; some (n ∷ ns)

unfoldable pub get_node_ids_of_file : ℕ → MembershipList → Option (List ℕ)
unfolding file_routing nodes_of_peers
get_node_ids_of_file hash m = do ps ← file_routing hash m; nodes_of_peers m ps
