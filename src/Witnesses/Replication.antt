-- ===== src/Witnesses/Replication.antt =====
-- An append that all nodes of a file get, at a ring of four nodes.
use rain_strom_distributed_s.Prelude.{
  ℕ, inl, IsDistinct, ◌≡◌, ◌≢◌, refl, arith, true, false, some, [], ◌∷◌, ◌++◌, All, lookup,
  string_eq,
}
use rain_strom_distributed_s.Prelude.Paths.{stem}
use rain_strom_distributed_s.Config.{
  Config, get_file_hash_id, ring_id, server_of, get_server_id_in_ring, get_mbits_of_hash,
}
use rain_strom_distributed_s.Hydfs.Routing.{file_routing, first_above, node_of_peer, nodes_of_peers}
use rain_strom_distributed_s.Membership.Table.{get_index_of_peer}
use rain_strom_distributed_s.Hydfs.AppendLog.{Node}
use rain_strom_distributed_s.Hydfs.AppendLog.Pending.{IsPending}
use rain_strom_distributed_s.Hydfs.Requests.{
  FileTransferRequest, TransferRequestType, replica_nodes, aol_entry,
}
use rain_strom_distributed_s.Hydfs.Replication.{servers_of, receive_and_replicate}
use rain_strom_distributed_s.Hydfs.Replication.Agree.{IsCurrent, append-agrees}
use rain_strom_distributed_s.Witnesses.Ring.{ring, four}
use rain_strom_distributed_s.Witnesses.AppendLog.{log_env, empty_node, flat}

-- The configuration of node 4.
abbrev fourth : Config
fourth = record ring { node_id = 4; peer_id = 40 }

abbrev request : FileTransferRequest
request = record {
  src_node_id = 1;
  src_peer_id = 10;
  src_file_name = "in.txt";
  dest_file_name = "c";
  dest_node_id = 4;
  dest_peer_id = 40;
  file_data = [];
  request_type = TransferRequestType.append;
}

replicas : replica_nodes fourth four "c" ≡ some (1 ∷ 2 ∷ [])
unfolding replica_nodes file_routing first_above node_of_peer nodes_of_peers get_index_of_peer
    get_file_hash_id ring_id server_of get_server_id_in_ring get_mbits_of_hash
replicas = refl

addresses : servers_of fourth (1 ∷ 2 ∷ []) ≡ some ("a" ∷ "b" ∷ [])
unfolding servers_of server_of
addresses = refl

all_empty-IsPending : IsPending log_env (stem "c") [] empty_node
unfolding lookup
all_empty-IsPending = (flat [], inl (refl, refl))

distinct : IsDistinct {A = ℕ} (4 ∷ 1 ∷ 2 ∷ [])
distinct = (
  ((λ e. omega (arith, e)), ((λ e. omega (arith, e)), tt)),
  (((λ e. omega (arith, e)), tt), (tt, tt)),
)

append-agrees_example :
    (after : ℕ → Node log_env) × (receive_and_replicate log_env fourth four
        (λ k. k)
        0
        (λ d. record { dials = true; arrives = true })
        request
        (5 ∷ 6 ∷ [])
        (λ d. empty_node)
      ≡ some after)
    × All
        (λ d.
          IsCurrent log_env 3 "c"
            (aol_entry log_env fourth 0 request (5 ∷ 6 ∷ []) false ∷ [])
            empty_node
            (after d))
        (4 ∷ 1 ∷ 2 ∷ [])
    × ((x : ℕ) → All (λ d. x ≢ d) (4 ∷ 1 ∷ 2 ∷ []) → after x ≡ empty_node)
append-agrees_example =
    append-agrees log_env fourth four (λ k. k) 0 3 (λ d. record { dials = true; arrives = true })
      request (5 ∷ 6 ∷ []) (1 ∷ 2 ∷ []) ("a" ∷ "b" ∷ []) [] (λ d. empty_node)
      (λ l j. (l ++ j ∷ [], refl)) refl refl replicas addresses distinct
      ((refl, refl), ((refl, refl), tt)) ((refl, refl), tt) (omega arith)
      (all_empty-IsPending, (all_empty-IsPending, (all_empty-IsPending, tt)))
