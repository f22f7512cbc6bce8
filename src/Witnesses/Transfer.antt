-- ===== src/Witnesses/Transfer.antt =====
-- The theorems on uploads, merges and the command line at small files.
use mathlib.Core.List.{flatten}
use rain_strom_distributed_s.Prelude.{
  length, All, Bool, ◌⊎◌, ◌<◌, ℕ, ◌≡◌, refl, arith, true, false, none, some, List, [], ◌∷◌, ◌++◌,
  lookup, string_eq, inr, ◌≢◌, IsDistinct,
}
use rain_strom_distributed_s.Prelude.Paths.{stem}
use rain_strom_distributed_s.Hydfs.AppendLog.{AolEntry, Node, log_at, content, merge_aol_on_read}
use rain_strom_distributed_s.Hydfs.AppendLog.Pending.{appended, IsPending}
use rain_strom_distributed_s.Hydfs.Requests.{FileTransferRequest, TransferRequestType}
use rain_strom_distributed_s.Hydfs.Requests.Received.{accepted}
use rain_strom_distributed_s.Hydfs.Transfer.{
  FileSendRequest, Transfer, transfer_file, Upload, upload_file, send_file, read_file,
  download_file,
}
use rain_strom_distributed_s.Hydfs.Transfer.Roundtrip.{upload-download}
use rain_strom_distributed_s.Hydfs.Merging.{Link, Replica, trigger_one, perform_merge}
use rain_strom_distributed_s.Hydfs.Merging.Replaces.{HasFuel, all_fine}
use rain_strom_distributed_s.Hydfs.Merging.Agree.{merge-agrees}
use rain_strom_distributed_s.Hydfs.Routing.{
  node_of_peer, get_node_ids_of_file, file_routing, nodes_of_peers, first_above,
}
use rain_strom_distributed_s.Membership.Table.{get_index_of_peer}
use rain_strom_distributed_s.Config.{get_file_hash_id, get_mbits_of_hash}
use rain_strom_distributed_s.Hydfs.Merging.Lost.{trigger_one-loses}
use rain_strom_distributed_s.Cli.{Action, Env, cli_utility, parse_arguments}
use rain_strom_distributed_s.Cli.Parse.{print_arguments, parse_arguments-print}
use rain_strom_distributed_s.Witnesses.Ring.{ring, four}
use rain_strom_distributed_s.Witnesses.AppendLog.{log_env, append_of, empty_node, nothing-IsPending}

abbrev request : FileTransferRequest
request = record {
  src_node_id = 1;
  src_peer_id = 10;
  src_file_name = "local.txt";
  dest_file_name = "d/f.txt";
  dest_node_id = 2;
  dest_peer_id = 20;
  file_data = [];
  request_type = TransferRequestType.append;
}

small :
    length (content log_env empty_node.files "d/f.txt" ++ (appended "d/f.txt" [] ++ 5 ∷ 6 ∷ 7 ∷ []))
    < 9
unfolding lookup
small = omega arith

-- The file comes in reads of one and two bytes.
upload-download_example :
    (ms : List FileSendRequest) × (n' : Node log_env) × (e : AolEntry) × (w : Node log_env)
    × (chunks : List (List ℕ)) × (upload_file true
          (λ j. true)
          9
          (λ i. i)
          request
          (some (5 ∷ 6 ∷ 7 ∷ []))
        ≡ some (Upload.uploaded ms))
    × (send_file log_env ring (λ k. k) 0 true ms empty_node ≡ accepted n' (some e))
    × (read_file log_env 9 9 (λ i. 0) "d/f.txt" n' ≡ some (w, some chunks))
    × (lookup "copy.txt" (download_file "copy.txt" (some chunks) [])
        ≡ some (
            content log_env empty_node.files "d/f.txt"
            ++ (appended "d/f.txt" [] ++ 5 ∷ 6 ∷ 7 ∷ [])))
upload-download_example =
    upload-download log_env ring (λ k. k) 0 9 (λ i. i) (λ i. 0) (λ j. true) request 5 (6 ∷ 7 ∷ [])
      [] empty_node "copy.txt" [] (λ j. refl) (λ l j. (l ++ j ∷ [], refl)) refl refl
      ((refl, refl), tt) nothing-IsPending (omega arith) small

-- Node 2 is reached, and a read asks it for the file under its name there.
asked :
    transfer_file ring true true
      (λ j. true)
      9
      (λ i. i)
      (record request { request_type = TransferRequestType.read })
      none
    ≡ some (Transfer.downloads "d/f.txt" "local.txt")
unfolding transfer_file
asked = refl

abbrev logged : Node log_env
logged = record {
  mapper = ("f", record { log_path = "f"; is_read = false; is_replicated = false }) ∷ [];
  logs = ("f", append_of 1 ∷ append_of 2 ∷ []) ∷ [];
  files = ("d/f.txt", 9 ∷ []) ∷ [];
}

logged-IsPending : IsPending log_env (stem "d/f.txt") (append_of 1 ∷ append_of 2 ∷ []) logged
unfolding lookup flatten stem
logged-IsPending = (refl, inr (_, refl, refl))

old_there : lookup "d/f.txt" logged.files ≡ some (9 ∷ [])
unfolding lookup
old_there = refl

abbrev replica : Replica log_env
replica = record {
  reached = true;
  disk = record { makes_dir = true; removes = true; opens = true; writes = true };
  state = logged;
}

trigger_one-loses_example :
    (w : Node log_env) × (read : Node log_env) × (trigger_one log_env 3 "d/f.txt" logged replica
      ≡ some (w, true))
    × (lookup "d/f.txt" w.files ≡ some (9 ∷ []))
    × (flatten (log_at log_env w.logs (stem "d/f.txt") ∷ []) ≡ [])
    × (merge_aol_on_read log_env 3 "d/f.txt" logged ≡ some read)
    × (content log_env read.files "d/f.txt"
        ≡ (9 ∷ []) ++ appended "d/f.txt" (append_of 1 ∷ append_of 2 ∷ []))
trigger_one-loses_example =
    trigger_one-loses log_env 3 "d/f.txt" (append_of 1 ∷ append_of 2 ∷ []) (9 ∷ []) logged replica
      refl ((refl, refl), ((refl, refl), tt)) (omega arith) old_there logged-IsPending
      logged-IsPending refl refl

merge_nodes : get_node_ids_of_file (get_file_hash_id ring "d/f.txt") four ≡ some (1 ∷ 2 ∷ 3 ∷ [])
unfolding get_node_ids_of_file get_file_hash_id get_mbits_of_hash file_routing first_above
    nodes_of_peers get_index_of_peer
merge_nodes = refl

small_log : HasFuel log_env 3 "d/f.txt" logged
unfolding lookup flatten stem
small_log = omega arith

own_peer : node_of_peer four ring.peer_id ≡ some ring.node_id
unfolding node_of_peer get_index_of_peer
own_peer = refl

abbrev links : ℕ → Link log_env
links = λ d. record {
  reached = true;
  disk = record { makes_dir = true; removes = true; opens = true; writes = true };
}

merge-IsDistinct : IsDistinct {A = ℕ} (1 ∷ 2 ∷ 3 ∷ [])
merge-IsDistinct = ((omega arith, (omega arith, tt)), ((omega arith, tt), (tt, tt)))

merge-agrees_example :
    (nodes' : ℕ → Node log_env) × (well : Bool) × (perform_merge log_env ring four 3 "d/f.txt" links
        (λ d. logged)
      ≡ some (nodes', well))
    × (((well ≡ false) × (all_fine log_env "d/f.txt" logged links (2 ∷ 3 ∷ []) ≡ false))
        ⊎ ((well ≡ true)
            × All
                (λ d. lookup "d/f.txt" (nodes' d).files ≡ lookup "d/f.txt" (nodes' 1).files)
                (2 ∷ 3 ∷ [])))
    × ((x : ℕ) → All (λ d. x ≢ d) (2 ∷ 3 ∷ []) → nodes' x ≡ logged)
merge-agrees_example =
    merge-agrees log_env ring four 3 "d/f.txt" links (λ d. logged) 1 (2 ∷ 3 ∷ []) merge_nodes
      own_peer merge-IsDistinct (small_log, (small_log, tt))

parse_arguments-print_example :
    parse_arguments (print_arguments ("job" ∷ "" ∷ "a b" ∷ [])) ≡ "job" ∷ "a b" ∷ []
parse_arguments-print_example =
    parse_arguments-print ("job" ∷ "" ∷ "a b" ∷ [])
      ((refl, (refl, (refl, tt))), (tt, ((refl, (refl, (refl, tt))), tt)))

abbrev packages : Env
packages = record { atoi = λ s. some 1000; itoa = λ n. "1000"; test_tuple = 1 ∷ [] }

-- `create` asks for the test tuple, whatever local file it is given.
created :
    cli_utility packages 1 false "create a.txt b.txt"
    ≡ some (
        Action.write (record {
          local_file_name = "";
          hydfs_file_name = "HyDfs/Files/HYDFS-Files/b.txt";
          is_create = true;
          is_stream_results = true;
          file_data = 1 ∷ [];
          vm_id = 0;
        }))
unfolding cli_utility
created = refl

job_asked :
    cli_utility packages 2 true
      "job app2-op1 app2-op2 test_1000.csv output.txt \"Punched Telespar\""
    ≡ some (
        Action.job true (record {
          op_1_exe = "./app2-op1";
          op_2_exe = "./app2-op2";
          hydfs_src_file = "HyDfs/Files/HYDFS-Files/test_1000.csv";
          hydfs_dest_file = "HyDfs/Files/HYDFS-Files/output.txt";
          num_tasks = 2;
          line_count = "1000";
          pattern = "Punched Telespar";
        }))
unfolding cli_utility
job_asked = refl
