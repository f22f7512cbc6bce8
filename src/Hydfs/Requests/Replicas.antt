-- ===== src/Hydfs/Requests/Replicas.antt =====
-- A write reaches exactly the nodes that hold the file, and what a repeated CREATE does.
use rain_strom_distributed_s.Prelude.{
  lookup, string_eq, ℕ, ◌≡◌, refl, sym, ap, ◌∙◌, false, none, some, List, [], ◌∷◌, String, ◌>>=◌,
  Option-cases, Bool-cases, inl, inr,
}
use rain_strom_distributed_s.Prelude.Paths.{stem}
use rain_strom_distributed_s.Hydfs.Requests.Received.{accepted}
use rain_strom_distributed_s.Config.{Config, get_file_hash_id, ring_id}
use rain_strom_distributed_s.Membership.Types.{MembershipList}
use rain_strom_distributed_s.Hydfs.Routing.{
  file_routing, node_of_peer, nodes_of_peers, get_node_ids_of_file,
}
use rain_strom_distributed_s.Hydfs.AppendLog.{
  AolEntry, Env, Node, exists, write_log, map_to_aol_log, log_at,
}
use rain_strom_distributed_s.Hydfs.Requests.{
  TransferRequestType, FileTransferRequest, CreateCommand, create_file_request, primary,
  do_write_operation_client, replica_nodes, handle_request_type_on_receive, aol_entry,
}

-- The node of the first peer, with those of the other peers, are the nodes that hold the file.
nodes-of-file :
    (c : Config) (m : MembershipList) (name : String) (peer node : ℕ)
    → primary c m name ≡ some peer
    → node_of_peer m peer ≡ some node
    → get_node_ids_of_file (get_file_hash_id c name) m
      ≡ (replica_nodes c m name >>= (λ ns. some (node ∷ ns)))
unfolding get_node_ids_of_file replica_nodes nodes_of_peers
nodes-of-file c m name peer node p q =
    elim (Option-cases (file_routing (get_file_hash_id c name) m)) [
      | inl e ↦ absurd (cc (rw e at p))
      | inr ([], e) ↦ absurd (cc (rw e at p))
      | inr (x ∷ xs, e) ↦
          let z : some x ≡ some peer = rw e at p in
          let w : x ≡ peer = cc in
          rw (e, get_node_ids_of_file, replica_nodes) (rw (w, q, nodes_of_peers) refl)
    ]

some-injective : {A : Type 0} {x y : A} → some x ≡ some y → x ≡ y
some-injective {x = x} h = ap (λ o. elim o [ none ↦ x | some z ↦ z ]) h

write_fields :
    (c : Config) (m : MembershipList) (cmd : CreateCommand) (r : FileTransferRequest) (p n : ℕ)
    → primary c m cmd.hydfs_file_name ≡ some p
    → node_of_peer m p ≡ some n
    → do_write_operation_client c m cmd ≡ some r
    → (cmd.hydfs_file_name ≡ r.dest_file_name) × (n ≡ r.dest_node_id)
unfolding do_write_operation_client create_file_request
write_fields c m cmd r p n e f h = elim (Option-cases (ring_id c c.node_id)) [
  | inl g ↦ absurd (cc (rw (do_write_operation_client, create_file_request, e, f, g) at h))
  | inr (s, g) ↦ elim (Bool-cases cmd.is_stream_results) [
    | inl q ↦
        let w =
          some-injective (rw (do_write_operation_client, create_file_request, e, f, g, q) at h) in
        (ap (λ z. z.dest_file_name) w, ap (λ z. z.dest_node_id) w)
    | inr q ↦
        let w =
          some-injective (rw (do_write_operation_client, create_file_request, e, f, g, q) at h) in
        (ap (λ z. z.dest_file_name) w, ap (λ z. z.dest_node_id) w)
  ]
]

-- The node that a client sends its write to, and the nodes that the entry is then replicated to, are
-- in this order the nodes that `GetNodeIdsOfFile` names, if both sides have the same list of members.
pub write-nodes :
    (c : Config) (m : MembershipList) (cmd : CreateCommand) (r : FileTransferRequest)
    → do_write_operation_client c m cmd ≡ some r
    → get_node_ids_of_file (get_file_hash_id c cmd.hydfs_file_name) m
      ≡ (replica_nodes c m r.dest_file_name >>= (λ ns. some (r.dest_node_id ∷ ns)))
unfolding do_write_operation_client create_file_request
write-nodes c m cmd r h = elim (Option-cases (primary c m cmd.hydfs_file_name)) [
  | inl e ↦ absurd (cc (rw (e, do_write_operation_client) at h))
  | inr (p, e) ↦ elim (Option-cases (node_of_peer m p)) [
    | inl f ↦ absurd (cc (rw (e, f, do_write_operation_client) at h))
    | inr (n, f) ↦
        let (u, v) = write_fields c m cmd r p n e f h in
        nodes-of-file c m cmd.hydfs_file_name p n e f ∙ rw (sym u, sym v) refl
  ]
]

module _ (env : Env) where
  open env use {write, encode, opens_log}

  write_log-files :
      (join : String → String) (e : AolEntry) (n : Node env)
      → (write_log env join e n).files ≡ n.files
  unfolding write_log map_to_aol_log
  write_log-files join e n = elim (Option-cases (lookup (stem e.file_name) n.mapper)) [
    | inl z ↦ elim (Bool-cases (opens_log (stem e.file_name))) [
      | inl o ↦ elim (Option-cases (write (log_at env n.logs (stem e.file_name)) (encode e))) [
        | inl w ↦ rw (write_log, map_to_aol_log, z, o, w, z) refl
        | inr (l, w) ↦ rw (write_log, map_to_aol_log, z, o, w, z) refl
      ]
      | inr o ↦ rw (write_log, map_to_aol_log, z, o) refl
    ]
    | inr (meta, z) ↦ elim (Bool-cases (opens_log (stem e.file_name))) [
      | inl o ↦ elim (Option-cases (write (log_at env n.logs (stem e.file_name)) (encode e))) [
        | inl w ↦ rw (write_log, map_to_aol_log, z, o, w, z) refl
        | inr (l, w) ↦ rw (write_log, map_to_aol_log, z, o, w, z) refl
      ]
      | inr o ↦ rw (write_log, map_to_aol_log, z, o) refl
    ]
  ]

  -- The test for a repeated CREATE looks at the stored files only: two CREATE requests for a file
  -- that is not stored are both accepted, logged and replicated.
  pub create_twice :
      (c : Config) (join : String → String) (now later : ℕ) (r : FileTransferRequest)
      (bytes bytes' : List ℕ) (n : Node env)
      → r.request_type ≡ TransferRequestType.create
      → exists env n.files r.dest_file_name ≡ false
      → (first second : Node env) × (handle_request_type_on_receive env c join now r bytes n
          ≡ accepted first (some (aol_entry env c now r bytes false)))
        × (handle_request_type_on_receive env c join later r bytes' first
            ≡ accepted second (some (aol_entry env c later r bytes' false)))
        × (first.files ≡ n.files)
        × (second.files ≡ n.files)
  unfolding handle_request_type_on_receive
  create_twice c join now later r bytes bytes' n k a =
      let first = write_log env join (aol_entry env c now r bytes false) n in
      let same = write_log-files join (aol_entry env c now r bytes false) n in
      let a' : exists env first.files r.dest_file_name ≡ false =
        ap (λ fs. exists env fs r.dest_file_name) same ∙ a in
      (
        first,
        write_log env join (aol_entry env c later r bytes' false) first,
        rw (k, a, handle_request_type_on_receive) refl,
        rw (k, a', handle_request_type_on_receive) refl,
        same,
        write_log-files join (aol_entry env c later r bytes' false) first ∙ same,
      )
