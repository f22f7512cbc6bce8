-- ===== src/Hydfs/Merging.antt =====
-- HyDfs/coordinator.go and HyDfs/fileOperations.go: the merge of the replicas of a file, and appends
-- from several nodes at once. Which calls of the network and of the file system succeed is an
-- argument. The goroutines of `TriggerMerge` run one after the other; those of `Multiappend` work on
-- different nodes each.
pub mod Lost
pub mod Appends
pub mod Replaces
pub mod Agree
use rain_strom_distributed_s.Prelude.{
  ℕ, zero, suc, Bool, true, false, not, ◌&&◌, Option, none, some, List, [], ◌∷◌, String, Map,
  lookup, insert, erase, string_eq, if◌then◌else◌, ◌==◌, ◌>>=◌, length, map,
}
use rain_strom_distributed_s.Config.{Config}
use rain_strom_distributed_s.Membership.Types.{MembershipList}
use rain_strom_distributed_s.Hydfs.Routing.{node_of_peer}
use rain_strom_distributed_s.Hydfs.AppendLog.{Bytes, Env, Node, content, exists, merge_aol_on_read}
use rain_strom_distributed_s.Hydfs.Replication.{set}
use rain_strom_distributed_s.Hydfs.Requests.{
  FileTransferRequest, TransferRequestType, MergePlan, create_file_request, primary, replica_nodes,
  initate_merge,
}
use rain_strom_distributed_s.Hydfs.Requests.TransferRequestType.{append, multi_append}
use rain_strom_distributed_s.Hydfs.Requests.MergePlan.{notify_primary, trigger_merge as at_replicas}

-- What a node's file system does: whether the directory is made, an old file removed, the new one
-- opened and written.
pub record Disk : Type 0 where
  pub makes_dir : Bool
  pub removes : Bool
  pub opens : Bool
  pub writes : Bool

module _ (env : Env) where
  -- The end of `MergeFile`, when the log is merged: the node, and whether it went well.
  unfoldable pub replace_file : Disk → String → Bytes → Node env → Node env × Bool
  replace_file d name bytes n =
      let gone : Node env = record n { files = erase name n.files } in
      let opened : Node env = record gone { files = insert name [] gone.files } in
      let filled : Node env = record gone { files = insert name bytes gone.files } in
      if exists env n.files name && not d.removes
      then (n, false)
      else if d.opens
      then if d.writes then (filled, true) else (opened, false)
      else (gone, false)

  -- `MergeFile`. The option is the fuel.
  unfoldable pub merge_file : ℕ → Disk → String → Bytes → Node env → Option (Node env × Bool)
  unfolding replace_file
  merge_file fuel d name bytes n =
      let merged : Option (Node env × Bool) = do
        w ← merge_aol_on_read env fuel name n
        some (replace_file d name bytes w)
      in if d.makes_dir then merged else some (n, false)

  -- A replica: whether it is reached, what its file system does, and its state.
  pub record Replica : Type 0 where
    pub reached : Bool
    pub disk : Disk
    pub state : Node env

  -- The goroutine of `TriggerMerge` for one replica. It reads the file of the primary as it is.
  unfoldable pub trigger_one : ℕ → String → Node env → Replica → Option (Node env × Bool)
  unfolding merge_file
  trigger_one fuel name main r =
      let asked : Option (Node env × Bool) = elim (lookup name main.files) [
        | none ↦ some (r.state, false)
        | some bytes ↦ merge_file fuel r.disk name bytes r.state
      ] in
      if r.reached then asked else some (r.state, false)

  -- What the calls to a node find: whether they reach it, and what its file system does.
  pub record Link : Type 0 where
    pub reached : Bool
    pub disk : Disk

  -- `TriggerMerge` at the node `main` for the nodes on the list: all nodes after it, and whether there
  -- was no error. The goroutines run one after the other. In a list of less than three members
  -- `FileRouting` names a node twice, so that `main` can be its own replica: it merges its own log then,
  -- and the goroutines behind it read the file that this leaves.
  unfoldable pub trigger_merge :
      ℕ → String → ℕ → (ℕ → Link) → List ℕ → (ℕ → Node env) → Option ((ℕ → Node env) × Bool)
  unfolding trigger_one
  trigger_merge fuel name main links [] nodes = some (nodes, true)
  trigger_merge fuel name main links (d ∷ ds) nodes = do
    let r : Replica = record { reached = (links d).reached; disk = (links d).disk; state = nodes d }
    (n, well) ← trigger_one fuel name (nodes main) r
    (nodes', all_well) ← trigger_merge fuel name main links ds (set env d n nodes)
    some (nodes', well && all_well)

  -- `NotifyPrimaryToMerge` at the primary.
  unfoldable pub notify_primary_to_merge :
      Config
      → MembershipList
      → ℕ
      → String
      → ℕ
      → (ℕ → Link)
      → (ℕ → Node env)
      → Option ((ℕ → Node env) × Bool)
  unfolding replica_nodes trigger_merge
  notify_primary_to_merge c m fuel name main links nodes = do
    ds ← replica_nodes c m name
    trigger_merge fuel name main links ds nodes

  -- `InitateMerge` with its calls, where the primary is reached and has the same list of members.
  unfoldable pub perform_merge :
      Config
      → MembershipList
      → ℕ
      → String
      → (ℕ → Link)
      → (ℕ → Node env)
      → Option ((ℕ → Node env) × Bool)
  unfolding initate_merge notify_primary_to_merge trigger_merge
  perform_merge c m fuel name links nodes = do
    plan ← initate_merge c m name
    elim plan [
      | notify_primary main ↦ notify_primary_to_merge c m fuel name main links nodes
      | at_replicas ds ↦ trigger_merge fuel name c.node_id links ds nodes
    ]

-- The requests of `Multiappend`, one for each node.
unfoldable pub append_requests :
    Config → String → ℕ → ℕ → List ℕ → List String → Option (List (ℕ × FileTransferRequest))
unfolding create_file_request
append_requests c name node peer [] files = some []
append_requests c name node peer (vm ∷ vms) [] = none
append_requests c name node peer (vm ∷ vms) (file ∷ files) = do
  r ← create_file_request c file name node peer [] multi_append
  rest ← append_requests c name node peer vms files
  some ((vm, r) ∷ rest)

-- `Multiappend`, up to the calls: none inside for its error, none outside for a panic.
unfoldable pub multiappend :
    Config
    → MembershipList
    → String
    → List ℕ
    → List String
    → Option (Option (List (ℕ × FileTransferRequest)))
unfolding append_requests
multiappend c m name vms files =
    let sent : Option (Option (List (ℕ × FileTransferRequest))) = do
      peer ← primary c m name
      node ← node_of_peer m peer
      rs ← append_requests c name node peer vms files
      some (some rs)
    in if length vms == length files then sent else some none

-- The request that the node uploads its local file with, in `MultiAppend`.
unfoldable pub multi_append_transfer : Config → FileTransferRequest → FileTransferRequest
multi_append_transfer c r = record r {
  src_node_id = c.node_id;
  src_peer_id = c.peer_id;
  request_type = append;
}
