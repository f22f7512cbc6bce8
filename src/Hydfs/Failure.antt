-- ===== src/Hydfs/Failure.antt =====
-- HyDfs/hydfs.go, HyDfs/utils/utils.go, HyDfs/coordinator.go: what a node does about failed nodes.
-- It collects them, and after a silence sends each receiver of the repair plan the files of its
-- range. A Go map that is a set is a list without repetition.
pub mod Range
pub mod Collect
use rain_strom_distributed_s.Prelude.{
  ℕ, Bool, true, false, not, ◌&&◌, ◌||◌, Option, none, some, List, [], ◌∷◌, ◌++◌, String, Map, Eq,
  nat_eq, string_eq, lookup, insert, if◌then◌else◌, ltb, leb, ◌==◌, ◌>>=◌, get_elem?, str_eq,
}
use rain_strom_distributed_s.Prelude.Paths.{ext, base}
use rain_strom_distributed_s.Config.{Config, get_file_hash_id, ring_id}
use rain_strom_distributed_s.Membership.Types.{MembershipList}
use rain_strom_distributed_s.Membership.Table.{get_index_of_peer}
use rain_strom_distributed_s.Membership.Repair.{
  ReplicateFail, handle_file_transfer_requests, get_own_file_ranges,
  hypothetical_neighbors_for_peer_id,
}

-- One entry of the directory of files, with its path.
pub record DirEntry : Type 0 where
  pub path : String
  pub is_dir : Bool

-- The test of `GetFilesInRange`: its `if`, or its `else if`.
unfoldable pub in_range : ℕ → ℕ → ℕ → Bool
in_range start last hash =
    leb start hash && leb hash last
    || (ltb last hash && ltb start hash || leb hash start && ltb hash last)

unfoldable pub get_files_in_range : Config → List DirEntry → ℕ → ℕ → List String
unfolding in_range
get_files_in_range c [] start last = []
get_files_in_range c (d ∷ ds) start last =
    let rest = get_files_in_range c ds start last in
    if not d.is_dir && in_range start last (get_file_hash_id c d.path) then d.path ∷ rest else rest

module _ {A : Type 0} ⦃e : Eq A⦄ where
  unfoldable pub member : A → List A → Bool
  member x [] = false
  member x (y ∷ ys) = e.beq y x || member x ys

  -- `set[x] = struct{}{}`, and an append of what is new.
  unfoldable pub add_new : A → List A → List A
  unfolding member
  add_new x xs = if member x xs then xs else xs ++ x ∷ []

-- `failedNodes` and `processedNodes`.
pub record Collector : Type 0 where
  pub failed_nodes : List ℕ
  pub processed_nodes : List ℕ

-- The first case of the `select`.
unfoldable pub collect_failed : ℕ → Collector → Collector
unfolding member
collect_failed node s = if member node s.processed_nodes then s else record {
  failed_nodes = s.failed_nodes ++ node ∷ [];
  processed_nodes = s.processed_nodes ++ node ∷ [];
}

-- The loop that makes `uniqueNodes`.
unfoldable pub unique_nodes : List ℕ → List ℕ → List ℕ
unfolding add_new
unique_nodes [] unique = unique
unique_nodes (n ∷ ns) unique = unique_nodes ns (add_new n unique)

unfoldable pub add_files : List String → List String → List String
unfolding add_new
add_files [] set = set
add_files (f ∷ fs) set = add_files fs (add_new f set)

-- The loop over `transferRanges`. `dir` is what `ReadDir` answers, none for its error.
unfoldable pub note_transfers :
    Config → Option (List DirEntry) → List ReplicateFail → Map ℕ (List String) → Map ℕ (List String)
unfolding add_files
note_transfers c none rs transfers = transfers
note_transfers c (some dir) [] transfers = transfers
note_transfers c (some dir) (r ∷ rs) transfers =
    let old : List String = elim (lookup r.receiver transfers) [ none ↦ [] | some fs ↦ fs ] in
    note_transfers c (some dir) rs
      (insert r.receiver (add_files (get_files_in_range c dir r.from_file r.to_file) old) transfers)

abbrev pub is_empty : List ℕ → Bool
is_empty [] = true
is_empty (x ∷ xs) = false

-- The loop over the failed nodes; `none` is a panic.
unfoldable pub plan_transfers :
    Config
    → Option (List DirEntry)
    → MembershipList
    → List ℕ
    → Map ℕ (List String)
    → Option (Map ℕ (List String))
unfolding note_transfers
plan_transfers c dir m [] transfers = some transfers
plan_transfers c dir m (n ∷ ns) transfers = do
  peer ← ring_id c n
  (preceding, succeeding) ← hypothetical_neighbors_for_peer_id m peer
  let rest = handle_file_transfer_requests c n preceding succeeding >>= (λ rs.
      plan_transfers c dir m ns (note_transfers c dir (get_own_file_ranges c rs) transfers))
  let skipped = plan_transfers c dir m ns transfers
  if is_empty preceding || is_empty succeeding then skipped else rest

-- A replication request: the file, and the node and the peer that get it.
pub record Replicate : Type 0 where
  pub file : String
  pub dest_node_id : ℕ
  pub dest_peer_id : ℕ

-- The loop of `TransferFilesOnFailure`. A name ends in ".csv" exactly if that is its extension.
unfoldable pub replicate_requests : ℕ → ℕ → List String → List Replicate
replicate_requests node peer [] = []
replicate_requests node peer (f ∷ fs) =
    let rest = replicate_requests node peer fs in
    if str_eq (ext f) ".csv"
    then rest
    else record { file = f; dest_node_id = node; dest_peer_id = peer } ∷ rest

unfoldable pub transfer_files_on_failure : MembershipList → List String → ℕ → List Replicate
unfolding replicate_requests
transfer_files_on_failure m files to_peer = elim (get_index_of_peer m to_peer) [
  | none ↦ []
  | some i ↦ elim (get_elem? m i) [
    | none ↦ []
    | some e ↦ replicate_requests e.node_id to_peer files
  ]
]

-- The loop over `fileTransferMap`, whose order Go does not fix.
unfoldable pub send_transfers : MembershipList → List (ℕ × List String) → List Replicate
unfolding transfer_files_on_failure
send_transfers m [] = []
send_transfers m ((receiver, files) ∷ rest) =
    transfer_files_on_failure m files receiver ++ send_transfers m rest

-- The second case of the `select`, with the order of the loop over the map: the requests that are
-- sent, and the cleared collector.
unfoldable pub process_failed :
    Config
    → Option (List DirEntry)
    → (Map ℕ (List String) → Map ℕ (List String))
    → MembershipList
    → Collector
    → Option (Collector × List Replicate)
unfolding unique_nodes plan_transfers send_transfers
process_failed c dir order m s = do
  transfers ← plan_transfers c dir m (unique_nodes s.failed_nodes []) []
  some (record { failed_nodes = []; processed_nodes = [] }, send_transfers m (order transfers))
