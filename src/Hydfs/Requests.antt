-- ===== src/Hydfs/Requests.antt =====
-- HyDfs/coordinator.go, HyDfs/fileOperations.go, HyDfs/AOL/replicate-aol.go: which node a client's
-- request goes to, what the node does with it, and which nodes it replicates the entry to.
-- A request is what is sent; `TransferFile` is in Hydfs/Transfer.
pub mod Replicas
use rain_strom_distributed_s.Prelude.{
  ℕ, zero, suc, Bool, true, false, Option, none, some, List, [], ◌∷◌, String, if◌then◌else◌, ◌==◌,
  ◌>>=◌, get_elem?, str_eq, Map, erase, string_eq,
}
use rain_strom_distributed_s.Prelude.Paths.{ext}
use rain_strom_distributed_s.Config.{Config, get_file_hash_id, ring_id, server_of}
use rain_strom_distributed_s.Membership.Types.{MembershipList}
use rain_strom_distributed_s.Hydfs.Routing.{file_routing, node_of_peer, nodes_of_peers}
use rain_strom_distributed_s.Hydfs.AppendLog.{AolEntry, Env, Node, exists, write_log}

pub data TransferRequestType : Type 0 where
  create append aol_transfer replicate read multi_append merge stream_results : TransferRequestType

pub record FileTransferRequest : Type 0 where
  pub src_node_id : ℕ
  pub src_peer_id : ℕ
  pub src_file_name : String
  pub dest_file_name : String
  pub dest_node_id : ℕ
  pub dest_peer_id : ℕ
  pub file_data : List ℕ
  pub request_type : TransferRequestType

pub record CreateCommand : Type 0 where
  pub local_file_name : String
  pub hydfs_file_name : String
  pub is_create : Bool
  pub is_stream_results : Bool
  pub file_data : List ℕ
  pub vm_id : ℕ

-- In this file `none` is a panic: an index out of range.
unfoldable pub create_file_request :
    Config → String → String → ℕ → ℕ → List ℕ → TransferRequestType → Option FileTransferRequest
create_file_request c src dest node peer bytes kind = do
  self ← ring_id c c.node_id
  some (record {
    src_node_id = c.node_id;
    src_peer_id = self;
    src_file_name = src;
    dest_file_name = dest;
    dest_node_id = node;
    dest_peer_id = peer;
    file_data = bytes;
    request_type = kind;
  })

-- `destPeerIds[0]`
abbrev pub primary : Config → MembershipList → String → Option ℕ
primary c m name = do peers ← file_routing (get_file_hash_id c name) m; get_elem? peers 0

-- `DoWriteOperationClient`, up to `TransferFile`.
unfoldable pub do_write_operation_client :
    Config → MembershipList → CreateCommand → Option FileTransferRequest
unfolding create_file_request
do_write_operation_client c m cmd = do
  peer ← primary c m cmd.hydfs_file_name
  node ← node_of_peer m peer
  let kind = if cmd.is_create then create else append
  request ← create_file_request c cmd.local_file_name cmd.hydfs_file_name node peer [] kind
  streamed ←
      create_file_request c cmd.local_file_name cmd.hydfs_file_name node peer cmd.file_data
        stream_results
  some (if cmd.is_stream_results then streamed else request)

-- A read is answered from the node's own file, or by the node that a request goes to.
pub data ReadPlan : Type 0 where
  local : ReadPlan
  remote : FileTransferRequest → ReadPlan

abbrev has_hash : ℕ → List ℕ → Bool
has_hash hash [] = false
has_hash hash (h ∷ hs) = let rest = has_hash hash hs in if hash == h then true else rest

-- `DoReadOperationClient`, up to the reading. `held` has the places of the node's own files.
unfoldable pub do_read_operation_client :
    Config → MembershipList → List ℕ → CreateCommand → Option ReadPlan
unfolding create_file_request
do_read_operation_client c m held cmd =
    let name = cmd.hydfs_file_name in
    let master : Option (ℕ × ℕ) = do
      peer ← primary c m name
      node ← node_of_peer m peer
      some (node, peer)
    in let given : Option (ℕ × ℕ) = do
      e ← (elim cmd.vm_id [ zero ↦ none | suc i ↦ get_elem? m i ])
      some (cmd.vm_id, e.peer_id)
      in let asked : Option ReadPlan = do
        (node, peer) ← (if cmd.vm_id == 0 then master else given)
        request ← create_file_request c cmd.local_file_name name node peer [] read
        some (remote request)
        in let self =
            if has_hash (get_file_hash_id c name) held then str_eq (ext name) ".csv" else false in
          elim (file_routing (get_file_hash_id c name) m) [
            | none ↦ none
            | some peers ↦ if self then some local else asked
          ]

-- The loop of `ReplicateLogEntryToNeighbors` that collects the nodes, and that of `InitateMerge`:
-- all peers of the file but the first.
unfoldable pub replica_nodes : Config → MembershipList → String → Option (List ℕ)
replica_nodes c m name = do
  peers ← file_routing (get_file_hash_id c name) m
  (elim peers [ [] ↦ some [] | p ∷ ps ↦ nodes_of_peers m ps ])

-- `InitateMerge`: the request goes to the primary, or from it to the replicas.
pub data MergePlan : Type 0 where
  notify_primary : ℕ → MergePlan
  trigger_merge : List ℕ → MergePlan

unfoldable pub initate_merge : Config → MembershipList → String → Option MergePlan
unfolding replica_nodes
initate_merge c m name = do
  peer ← primary c m name
  let forward : Option MergePlan = node_of_peer m peer >>= (λ node. some (notify_primary node))
  let own : Option MergePlan = replica_nodes c m name >>= (λ nodes. some (trigger_merge nodes))
  if c.peer_id == peer then own else forward

module _ (env : Env) where
  -- What a node does with a request: nothing, an error, or a new state and an entry that it
  -- replicates, if any.
  pub data Received : Type 0 where
    ignored refused : Received
    accepted : Node env → Option AolEntry → Received

  abbrev pub aol_entry : Config → ℕ → FileTransferRequest → List ℕ → Bool → AolEntry
  aol_entry c now r bytes repair = record {
    file_data = bytes;
    file_name = r.dest_file_name;
    client_peer_id = c.peer_id;
    time_stamp = now;
    is_repair = repair;
  }

  -- `HandleRequestTypeOnReceive`. A file that is there can be removed.
  unfoldable pub handle_request_type_on_receive :
      Config → (String → String) → ℕ → FileTransferRequest → List ℕ → Node env → Received
  handle_request_type_on_receive c join now r bytes n =
      let write =
        accepted (write_log env join (aol_entry c now r bytes false) n)
          (some (aol_entry c now r bytes false)) in
      let removed : Node env =
        if exists env n.files r.dest_file_name
        then record n { files = erase r.dest_file_name n.files }
        else n in
      elim r.request_type [
        | create ↦ if exists env n.files r.dest_file_name then refused else write
        | append ↦ write
        | stream_results ↦ write
        | replicate ↦ accepted (write_log env join (aol_entry c now r bytes true) removed) none
        | _ ↦ ignored
      ]
