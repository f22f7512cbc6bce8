-- ===== src/Membership/Repair.antt =====
-- GroupMembership/repairFailures.go: which files go from whom to whom when a node has failed. The
-- ring that still has the failed node is rebuilt from the list of those that are left.
pub mod Search
pub mod Ring
use mathlib.Core.List.{reverse}
use rain_strom_distributed_s.Prelude.{
  ℕ, zero, suc, ◌+◌, ◌-◌, ◌/◌, ◌%◌, Bool, true, false, Option, none, some, List, [], ◌∷◌, ◌++◌,
  if◌then◌else◌, ◌==◌, ltb, leb, ◌>>=◌, length, get_elem?,
}
use rain_strom_distributed_s.Config.{Config, ring_id}
use rain_strom_distributed_s.Membership.Types.{MembershipList}
use rain_strom_distributed_s.Membership.Table.{peer_ids}

pub record ReplicateFail : Type 0 where
  pub from_file : ℕ
  pub to_file : ℕ
  pub sender : ℕ
  pub receiver : ℕ

-- `none` is an index out of range.
unfoldable pub handle_file_transfer_requests :
    Config → ℕ → List ℕ → List ℕ → Option (List ReplicateFail)
handle_file_transfer_requests c failed prev_peers next_peers = do
  let prev = reverse prev_peers
  p0 ← get_elem? prev 0
  p1 ← get_elem? prev 1
  p2 ← get_elem? prev 2
  n0 ← get_elem? next_peers 0
  n1 ← get_elem? next_peers 1
  n2 ← get_elem? next_peers 2
  place ← ring_id c failed
  some (
      record { from_file = p2; to_file = p1; sender = p0; receiver = n0 }
      ∷ record { from_file = p1; to_file = p0; sender = p0; receiver = n1 }
      ∷ record { from_file = p0; to_file = place; sender = n0; receiver = n2 }
      ∷ [])

unfoldable pub get_own_file_ranges : Config → List ReplicateFail → List ReplicateFail
get_own_file_ranges c [] = []
get_own_file_ranges c (r ∷ rs) =
    if r.sender == c.peer_id then r ∷ get_own_file_ranges c rs else get_own_file_ranges c rs

-- The loop `for left < right` with fuel; `none` is an index out of range, or no fuel.
search : ℕ → List ℕ → ℕ → ℕ → ℕ → Option ℕ
search zero peers peer left right = none
search (suc fuel) peers peer left right =
    let mid = (left + right) / 2 in
    let rest : Option ℕ = do
      p ← get_elem? peers mid
      if ltb p peer then search fuel peers peer (mid + 1) right else search fuel peers peer left mid
    in if ltb left right then rest else some left

unfoldable pub hypothetical_index_for_peer_id : MembershipList → ℕ → Option ℕ
unfolding search
hypothetical_index_for_peer_id m peer = search (length m + 1) (peer_ids m) peer 0 (length m)

-- `hypotheticalList`: the peer goes before the first greater one.
unfoldable pub hypothetical_list : List ℕ → ℕ → List ℕ
hypothetical_list [] peer = peer ∷ []
hypothetical_list (p ∷ ps) peer =
    if ltb peer p then peer ∷ p ∷ ps else p ∷ hypothetical_list ps peer

unfoldable pub index_of : List ℕ → ℕ → ℕ
index_of [] peer = 0
index_of (p ∷ ps) peer = if p == peer then 0 else suc (index_of ps peer)

-- `(peerIndex - i + n) % n` where `%` takes the sign of its left side: `none` is a negative value.
unfoldable pub preceding_index : ℕ → ℕ → ℕ → Option ℕ
preceding_index index i n =
    if leb i (index + n)
    then some ((index + n - i) % n)
    else if (i - (index + n)) % n == 0
    then some 0
    else none

-- The loop `for i := 1; i <= 3; i++` with the rounds that are left. The outer option is a panic,
-- the inner one the early return for an invalid index.
neighbours_from : List ℕ → ℕ → ℕ → ℕ → List ℕ → List ℕ → Option (List ℕ × List ℕ)
neighbours_from ring index zero i preceding succeeding = some (preceding, succeeding)
neighbours_from ring index (suc k) i preceding succeeding =
    elim (preceding_index index i (length ring)) [
      | none ↦ some ([], [])
      | some at ↦ do
        p ← get_elem? ring at
        s ← get_elem? ring ((index + i) % length ring)
        neighbours_from ring index k (i + 1) (p ∷ preceding) (succeeding ++ s ∷ [])
    ]

unfoldable pub hypothetical_neighbors_for_peer_id : MembershipList → ℕ → Option (List ℕ × List ℕ)
unfolding hypothetical_list index_of neighbours_from preceding_index
hypothetical_neighbors_for_peer_id m peer =
    let ring = hypothetical_list (peer_ids m) peer in
    neighbours_from ring (index_of ring peer) 3 1 [] []
