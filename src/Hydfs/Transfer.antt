-- ===== src/Hydfs/Transfer.antt =====
-- HyDfs/fileOperations.go, the streams in which files go to another node and come back, and
-- `ReadFileFromLocal` of HyDfs/utils/utils.go. How many bytes each call of `Read` gives, and which
-- calls of the network succeed, are arguments.
pub mod Roundtrip
use mathlib.Core.List.{flatten}
use rain_strom_distributed_s.Prelude.{
  ℕ, zero, suc, ◌+◌, ◌%◌, Bool, true, false, Option, none, some, List, [], ◌∷◌, ◌++◌, String, Map,
  lookup, insert, string_eq, if◌then◌else◌, ◌>>=◌, length, take, drop,
}
use rain_strom_distributed_s.Config.{Config, server_of}
use rain_strom_distributed_s.Hydfs.AppendLog.{Bytes, Env, Node, content, exists, merge_aol_on_read}
use rain_strom_distributed_s.Hydfs.Requests.{
  FileTransferRequest, TransferRequestType, Received, handle_request_type_on_receive,
}
use rain_strom_distributed_s.Hydfs.Requests.TransferRequestType.{create, read, stream_results}

abbrev pub file_transfer_chunk_size : ℕ
file_transfer_chunk_size = 4096

-- The number of bytes that the call of `Read` with this number gives, before the end of the file: at
-- least one, and no more than the buffer holds.
abbrev pub read_size : (ℕ → ℕ) → ℕ → ℕ
read_size reads i = suc (reads i % file_transfer_chunk_size)

-- The loops of `uploadFile` and `ReadFile` over the file, which end with EOF. `none` means that the
-- fuel ran out.
unfoldable pub file_chunks : ℕ → (ℕ → ℕ) → ℕ → Bytes → Option (List Bytes)
file_chunks zero reads i bytes = none
file_chunks (suc fuel) reads i [] = some []
file_chunks (suc fuel) reads i (b ∷ bs) = do
  rest ← file_chunks fuel reads (suc i) (drop (read_size reads i) (b ∷ bs))
  some (take (read_size reads i) (b ∷ bs) ∷ rest)

-- `FileSendRequest`
pub record FileSendRequest : Type 0 where
  pub request : FileTransferRequest
  pub chunk : Bytes

-- How `uploadFile` ends: with an error before the stream is closed, or with what it has sent.
pub data Upload : Type 0 where
  failed : Upload
  uploaded : List FileSendRequest → Upload

-- Each chunk is sent with the request; a chunk that cannot be sent ends the upload.
unfoldable pub send_chunks : (ℕ → Bool) → FileTransferRequest → ℕ → List Bytes → Upload
send_chunks sends r i [] = Upload.uploaded []
send_chunks sends r i (chunk ∷ chunks) =
    let rest = send_chunks sends r (suc i) chunks in
    let one : FileSendRequest = record { request = r; chunk = chunk } in
    if sends i
    then elim rest [ failed ↦ Upload.failed | uploaded rs ↦ Upload.uploaded (one ∷ rs) ]
    else Upload.failed

-- `uploadFile`: `source` is the content of the local file, if it can be opened. `none` is no fuel.
unfoldable pub upload_file :
    Bool → (ℕ → Bool) → ℕ → (ℕ → ℕ) → FileTransferRequest → Option Bytes → Option Upload
unfolding file_chunks send_chunks
upload_file opens_stream sends fuel reads r source =
    let sent : Option Upload = elim source [
      | none ↦ some Upload.failed
      | some bytes ↦ do chunks ← file_chunks fuel reads 0 bytes; some (send_chunks sends r 0 chunks)
    ] in
    if opens_stream then sent else some Upload.failed

-- What `TransferFile` does once the address is found: the node cannot be reached, a file is
-- downloaded under a local name, the request goes with its bytes in one call, or an upload.
pub data Transfer : Type 0 where
  unreached : Transfer
  downloads : String → String → Transfer
  streams : FileTransferRequest → Transfer
  uploads : Upload → Transfer

-- `TransferFile`, where `none` is an index out of range, or no fuel.
unfoldable pub transfer_file :
    Config
    → Bool
    → Bool
    → (ℕ → Bool)
    → ℕ
    → (ℕ → ℕ)
    → FileTransferRequest
    → Option Bytes
    → Option Transfer
unfolding server_of upload_file
transfer_file c dials opens_stream sends fuel reads r source = do
  addr ← server_of c r.dest_node_id
  let uploaded : Option Transfer =
      upload_file opens_stream sends fuel reads r source >>= (λ u. some (Transfer.uploads u))
  let transferred : Option Transfer = elim r.request_type [
    | read ↦ some (Transfer.downloads r.dest_file_name r.src_file_name)
    | stream_results ↦ some (Transfer.streams r)
    | _ ↦ uploaded
  ]
  if dials then transferred else some Transfer.unreached

-- The zero value of `FileTransferRequest`.
abbrev pub no_request : FileTransferRequest
no_request = record {
  src_node_id = 0;
  src_peer_id = 0;
  src_file_name = "";
  dest_file_name = "";
  dest_node_id = 0;
  dest_peer_id = 0;
  file_data = [];
  request_type = create;
}

-- The loop of `SendFile`: the request of the last message, and all chunks together.
unfoldable pub receive_chunks :
    List FileSendRequest → FileTransferRequest → Bytes → FileTransferRequest × Bytes
receive_chunks [] r bytes = (r, bytes)
receive_chunks (m ∷ ms) r bytes = receive_chunks ms m.request (bytes ++ m.chunk)

-- `downloadFile`: the file is created before the first chunk comes, and is empty after an error.
unfoldable pub download_file : String → Option (List Bytes) → Map String Bytes → Map String Bytes
download_file name none locals = insert name [] locals
download_file name (some chunks) locals = insert name (flatten chunks) locals

module _ (env : Env) where
  -- `SendFile`, for a stream that ends well. `makes_dir` says whether the directory of the files can
  -- be made.
  unfoldable pub send_file :
      Config → (String → String) → ℕ → Bool → List FileSendRequest → Node env → Received env
  unfolding receive_chunks handle_request_type_on_receive
  send_file c join now makes_dir ms n =
      let (r, bytes) = receive_chunks ms no_request [] in
      let received = handle_request_type_on_receive env c join now r bytes n in
      if makes_dir then received else Received.refused

  -- `ReadFile`: the node after the log was merged, and the chunks, or none where the file cannot be
  -- opened. The outer option is the fuel.
  unfoldable pub read_file :
      ℕ → ℕ → (ℕ → ℕ) → String → Node env → Option (Node env × Option (List Bytes))
  unfolding file_chunks
  read_file fuel size reads name n = do
    w ← merge_aol_on_read env fuel name n
    chunks ← file_chunks size reads 0 (content env w.files name)
    some (if exists env w.files name then (w, some chunks) else (w, none))

-- The bytes of a file that was opened without being truncated, after a write from its start.
unfoldable pub overwrite : Bytes → Bytes → Bytes
overwrite old new = new ++ drop (length new) old

-- `ReadFileFromLocal`, where files can be opened: the local files after it.
unfoldable pub read_file_from_local :
    Map String Bytes → String → String → Map String Bytes → Option (Map String Bytes)
unfolding overwrite
read_file_from_local files hydfs_name local_name locals = do
  bytes ← lookup hydfs_name files
  let old : Bytes = elim (lookup local_name locals) [ none ↦ [] | some o ↦ o ]
  some (insert local_name (overwrite old bytes) locals)
