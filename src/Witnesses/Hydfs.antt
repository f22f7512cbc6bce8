-- ===== src/Witnesses/Hydfs.antt =====
-- The theorems on requests, failures and the cache at work on a small ring.
use rain_strom_distributed_s.Prelude.{
  ℕ, ◌≡◌, ◌≢◌, ◌↔◌, refl, arith, true, false, some, List, [], ◌∷◌, String, Has, ◌>>=◌, All, str_eq,
}
use rain_strom_distributed_s.Config.{
  get_file_hash_id, ring_id, server_of, get_server_id_in_ring, get_mbits_of_hash,
}
use rain_strom_distributed_s.Membership.Table.{get_index_of_peer}
use rain_strom_distributed_s.Hydfs.Routing.{
  file_routing, first_above, node_of_peer, get_node_ids_of_file,
}
use rain_strom_distributed_s.Hydfs.Requests.{
  CreateCommand, FileTransferRequest, TransferRequestType, do_write_operation_client,
  create_file_request, replica_nodes,
}
use rain_strom_distributed_s.Hydfs.Requests.Replicas.{write-nodes}
use rain_strom_distributed_s.Hydfs.Failure.{DirEntry, get_files_in_range}
use rain_strom_distributed_s.Hydfs.Failure.Range.{IsSelected, get_files_in_range-exact}
use rain_strom_distributed_s.Hydfs.Cache.{CacheEntry, Cache, put}
use rain_strom_distributed_s.Hydfs.Cache.Lru.{AfterPut, put-lru}
use rain_strom_distributed_s.Witnesses.Ring.{ring, four}

abbrev command : CreateCommand
command = record {
  local_file_name = "in.txt";
  hydfs_file_name = "c";
  is_create = true;
  is_stream_results = false;
  file_data = [];
  vm_id = 0;
}

abbrev request : FileTransferRequest
request = record {
  src_node_id = 1;
  src_peer_id = 10;
  src_file_name = "in.txt";
  dest_file_name = "c";
  dest_node_id = 4;
  dest_peer_id = 40;
  file_data = [];
  request_type = TransferRequestType.create;
}

sent : do_write_operation_client ring four command ≡ some request
unfolding do_write_operation_client create_file_request file_routing first_above node_of_peer
    get_index_of_peer get_file_hash_id ring_id server_of get_server_id_in_ring get_mbits_of_hash
sent = refl

write-nodes_example :
    get_node_ids_of_file (get_file_hash_id ring "c") four
    ≡ (replica_nodes ring four "c" >>= (λ ns. some (4 ∷ ns)))
write-nodes_example = write-nodes ring four command request sent

abbrev directory : List DirEntry
directory = record { path = "c"; is_dir = false } ∷ record { path = "e"; is_dir = true } ∷ []

get_files_in_range-exact_example :
    Has "c" (get_files_in_range ring directory 40 10) ↔ IsSelected ring 40 10 "c" directory
get_files_in_range-exact_example = get_files_in_range-exact ring 40 10 "c" directory

abbrev entry : ℕ → CacheEntry
entry t = record { content = t ∷ []; last_access = t }

abbrev full : Cache
full = record { entries = ("a", entry 5) ∷ ("b", entry 3) ∷ []; max_size = 2 }

named : All (λ p. p.0 ≢ "") full.entries
named = (distinct "a" refl, (distinct "b" refl, tt))
  where
    distinct : (s : String) → str_eq s "" ≡ false → s ≢ ""
    distinct s h e = cc

put-lru_example : AfterPut 9 "c" (7 ∷ []) full (put full.entries 9 "c" (7 ∷ []) full)
put-lru_example =
    put-lru full.entries 9 "c" (7 ∷ []) full (omega arith) (omega arith) named (λ p h. h) (λ p h. h)
