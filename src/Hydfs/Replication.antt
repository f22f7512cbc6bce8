-- ===== src/Hydfs/Replication.antt =====
-- HyDfs/AOL/replicate-aol.go and `HandleRequestTypeOnReceive` and `ReplicateLogEntry` of
-- HyDfs/fileOperations.go: an entry that a node has written goes to the other nodes of the file.
-- The nodes of the system are a function of the node id; what becomes of a call to a node is an
-- argument. The deadline of a call is part of that.
pub mod Agree
use rain_strom_distributed_s.Prelude.{
  ℕ, zero, suc, Bool, true, false, Option, none, some, List, [], ◌∷◌, String, if◌then◌else◌, ◌==◌,
  ◌>>=◌,
}
use rain_strom_distributed_s.Config.{Config, server_of}
use rain_strom_distributed_s.Membership.Types.{MembershipList}
use rain_strom_distributed_s.Hydfs.AppendLog.{AolEntry, Env, Node, write_log}
use rain_strom_distributed_s.Hydfs.Requests.{
  FileTransferRequest, Received, replica_nodes, handle_request_type_on_receive,
}
use rain_strom_distributed_s.Hydfs.Requests.Received.{ignored, refused, accepted}

-- Whether `Dial` gives a connection, and whether the call on it reaches the node.
pub record Contact : Type 0 where
  pub dials : Bool
  pub arrives : Bool

-- The loop that collects the addresses; `none` is an index out of range.
unfoldable pub servers_of : Config → List ℕ → Option (List String)
unfolding server_of
servers_of c [] = some []
servers_of c (d ∷ ds) = do addr ← server_of c d; rest ← servers_of c ds; some (addr ∷ rest)

abbrev pub no_entry : AolEntry
no_entry = record {
  file_data = [];
  file_name = "";
  client_peer_id = 0;
  time_stamp = 0;
  is_repair = false;
}

module _ (env : Env) where
  -- `ReplicateLogEntry`. An error of `Unmarshal` is not looked at, and leaves an entry with zero
  -- values.
  unfoldable pub replicate_log_entry : (String → String) → env.Json → Node env → Node env
  unfolding write_log
  replicate_log_entry join j n =
      write_log env join (elim (env.decode j) [ none ↦ no_entry | some e ↦ e ]) n

  abbrev pub set : ℕ → Node env → (ℕ → Node env) → ℕ → Node env
  set d n nodes x = if d == x then n else nodes x

  -- The loop over the servers: a node that cannot be dialled ends it, a call that fails does not.
  unfoldable pub replicate_to :
      (String → String) → (ℕ → Contact) → AolEntry → List ℕ → (ℕ → Node env) → ℕ → Node env
  unfolding replicate_log_entry
  replicate_to join contact e [] nodes = nodes
  replicate_to join contact e (d ∷ ds) nodes =
      let there = replicate_log_entry join (env.encode e) (nodes d) in
      let next = if (contact d).arrives then set d there nodes else nodes in
      let rest = replicate_to join contact e ds next in if (contact d).dials then rest else nodes

  unfoldable pub replicate_log_entry_to_neighbors :
      Config
      → MembershipList
      → (String → String)
      → (ℕ → Contact)
      → AolEntry
      → (ℕ → Node env)
      → Option (ℕ → Node env)
  unfolding replica_nodes servers_of replicate_to
  replicate_log_entry_to_neighbors c m join contact e nodes = do
    ds ← replica_nodes c m e.file_name
    servers ← servers_of c ds
    some (replicate_to join contact e ds nodes)

  -- `HandleRequestTypeOnReceive` with the replication, at the node of the configuration.
  unfoldable pub receive_and_replicate :
      Config
      → MembershipList
      → (String → String)
      → ℕ
      → (ℕ → Contact)
      → FileTransferRequest
      → List ℕ
      → (ℕ → Node env)
      → Option (ℕ → Node env)
  unfolding handle_request_type_on_receive replicate_log_entry_to_neighbors
  receive_and_replicate c m join now contact r bytes nodes =
      elim (handle_request_type_on_receive env c join now r bytes (nodes c.node_id)) [
        | ignored ↦ some nodes
        | refused ↦ some nodes
        | accepted n replicated ↦ elim replicated [
          | none ↦ some (set c.node_id n nodes)
          | some e ↦ replicate_log_entry_to_neighbors c m join contact e (set c.node_id n nodes)
        ]
      ]
