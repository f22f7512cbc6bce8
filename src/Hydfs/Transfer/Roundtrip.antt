-- ===== src/Hydfs/Transfer/Roundtrip.antt =====
-- A file that is uploaded is the file that is received, and the file that is downloaded.
use mathlib.Core.List.{flatten, cons≢nil}
use native.Mathlib.Nat.{mod-lt}
use rain_strom_distributed_s.Prelude.{
  ℕ, zero, suc, ◌%◌, ◌<◌, ◌≤◌, ◌≡◌, ◌≢◌, refl, sym, ap, ◌∙◌, subst, arith, Bool-cases, beq_self,
  Bool, true, false, some, List, [], ◌∷◌, ◌++◌, map, String, Map, lookup, string_eq, length,
  length-append, take, drop, take-append-drop, length-drop, append_assoc, append_nil, All,
  Option-cases, inl, inr, lookup-insert_self, str_eq,
}
use rain_strom_distributed_s.Prelude.Paths.{stem}
use rain_strom_distributed_s.Config.{Config}
use rain_strom_distributed_s.Hydfs.AppendLog.{
  Bytes, AolEntry, Env, Node, content, exists, write_log,
}
use rain_strom_distributed_s.Hydfs.AppendLog.Pending.{appended, IsAppend, IsPending, writes-read}
use rain_strom_distributed_s.Hydfs.Requests.{
  FileTransferRequest, aol_entry, handle_request_type_on_receive,
}
use rain_strom_distributed_s.Hydfs.Requests.TransferRequestType.{append}
use rain_strom_distributed_s.Hydfs.Requests.Received.{accepted}
use rain_strom_distributed_s.Hydfs.Transfer.{
  file_transfer_chunk_size, file_chunks, FileSendRequest, Upload, send_chunks, upload_file,
  no_request, receive_chunks, send_file, read_file, download_file,
}

length-take : {A : Type 0} (n : ℕ) (xs : List A) → length (take n xs) ≤ n
length-take zero xs = omega arith
length-take (suc n) [] = omega arith
length-take (suc n) (x ∷ xs) = omega (arith, length-take n xs)

-- A chunk is not empty and fits into the buffer.
abbrev pub IsChunk : Bytes → Type 0
IsChunk chunk = (0 < length chunk) × (length chunk ≤ file_transfer_chunk_size)

file_chunks-flatten :
    (fuel : ℕ) (reads : ℕ → ℕ) (i : ℕ) (bytes : Bytes)
    → length bytes < fuel
    → (chunks : List Bytes) × (file_chunks fuel reads i bytes ≡ some chunks)
      × (flatten chunks ≡ bytes)
      × All IsChunk chunks
unfolding file_chunks flatten
file_chunks-flatten zero reads i bytes h = absurd (omega arith)
file_chunks-flatten (suc fuel) reads i [] h = ([], refl, refl, tt)
file_chunks-flatten (suc fuel) reads i (b ∷ bs) h =
    let n = reads i % file_transfer_chunk_size in
    let small : n < file_transfer_chunk_size = mod-lt (reads i) (omega arith) in
    let (chunks, run, whole, fit) =
      file_chunks-flatten fuel reads (suc i) (drop n bs) (omega (arith, length-drop n bs)) in
    (
      take (suc n) (b ∷ bs) ∷ chunks,
      rw run refl,
      ap (λ l. (b ∷ take n bs) ++ l) whole ∙ ap (λ l. b ∷ l) (take-append-drop n bs),
      ((omega arith, omega (arith, length-take n bs, small)), fit),
    )

abbrev pub messages : FileTransferRequest → List Bytes → List FileSendRequest
messages r = map (λ chunk. record { request = r; chunk = chunk })

send_chunks-messages :
    (sends : ℕ → Bool) (r : FileTransferRequest) (i : ℕ) (chunks : List Bytes)
    → ((j : ℕ) → sends j ≡ true)
    → send_chunks sends r i chunks ≡ Upload.uploaded (messages r chunks)
unfolding send_chunks
send_chunks-messages sends r i [] ok = refl
send_chunks-messages sends r i (chunk ∷ chunks) ok =
    rw (send_chunks, ok i, send_chunks-messages sends r (suc i) chunks ok) refl

-- The last request of the messages, or the first value if there are none.
abbrev last_request : FileTransferRequest → FileTransferRequest → List Bytes → FileTransferRequest
last_request r first [] = first
last_request r first (c ∷ cs) = r

receive_chunks-messages :
    (r first : FileTransferRequest) (chunks : List Bytes) (bytes : Bytes)
    → ((receive_chunks (messages r chunks) first bytes).0 ≡ last_request r first chunks)
      × ((receive_chunks (messages r chunks) first bytes).1 ≡ bytes ++ flatten chunks)
unfolding receive_chunks flatten
receive_chunks-messages r first [] bytes = (refl, sym (append_nil bytes))
receive_chunks-messages r first (chunk ∷ chunks) bytes =
    let (e, f) = receive_chunks-messages r r chunks (bytes ++ chunk) in
    (e ∙ same chunks, f ∙ append_assoc bytes chunk (flatten chunks))
  where
    same : (cs : List Bytes) → last_request r r cs ≡ r
    same [] = refl
    same (c ∷ cs) = refl

appended-snoc :
    (name : String) (ps : List AolEntry) (e : AolEntry)
    → e.file_name ≡ name
    → appended name (ps ++ e ∷ []) ≡ appended name ps ++ e.file_data
appended-snoc name [] e h =
    let q : str_eq e.file_name name ≡ true =
      subst (λ x. str_eq e.file_name x ≡ true) h (beq_self e.file_name) in
    rw q (append_nil e.file_data)
appended-snoc name (p ∷ ps) e h = elim (Bool-cases (str_eq p.file_name name)) [
  | inl q ↦ rw q (
      ap (λ l. p.file_data ++ l) (appended-snoc name ps e h)
      ∙ sym (append_assoc p.file_data (appended name ps) e.file_data))
  | inr q ↦ rw q (appended-snoc name ps e h)
]

append-full : (xs : Bytes) (b : ℕ) (bs : Bytes) → (xs ++ (b ∷ bs)) ≢ []
append-full [] b bs e = cons≢nil e
append-full (x ∷ xs) b bs e = cons≢nil e

module _ (env : Env) where
  content-exists :
      (files : Map String Bytes) (name : String)
      → content env files name ≢ []
      → exists env files name ≡ true
  content-exists files name h = elim (Option-cases (lookup name files)) [
    | inl e ↦ absurd (h (rw (content, e) refl))
    | inr (b, e) ↦ rw (exists, e) refl
  ]

  -- Whatever the reads give, a file that is not empty is received as it is, with its request.
  upload-received :
      (c : Config) (join : String → String) (now fuel : ℕ) (reads : ℕ → ℕ) (sends : ℕ → Bool)
      (r : FileTransferRequest) (b : ℕ) (bs : Bytes) (n : Node env)
      → ((j : ℕ) → sends j ≡ true)
      → length (b ∷ bs) < fuel
      → (ms : List FileSendRequest) × (upload_file true sends fuel reads r (some (b ∷ bs))
          ≡ some (Upload.uploaded ms))
        × (send_file env c join now true ms n
            ≡ handle_request_type_on_receive env c join now r (b ∷ bs) n)
  unfolding upload_file send_file flatten
  upload-received c join now fuel reads sends r b bs n ok h =
      let (chunks, run, whole, fit) = file_chunks-flatten fuel reads 0 (b ∷ bs) h in
      (
        messages r chunks,
        rw (upload_file, run, send_chunks-messages sends r 0 chunks ok) refl,
        rw
            (
              send_file,
              (receive_chunks-messages r no_request chunks []).0,
              (receive_chunks-messages r no_request chunks []).1,
            )
            (handled chunks whole),
      )
    where
      handled :
          (chunks : List Bytes)
          → flatten chunks ≡ b ∷ bs
          → handle_request_type_on_receive env c join now
              (last_request r no_request chunks)
              (flatten chunks)
              n
            ≡ handle_request_type_on_receive env c join now r (b ∷ bs) n
      handled [] e = absurd (cons≢nil (sym e))
      handled (x ∷ xs) e = ap (λ l. handle_request_type_on_receive env c join now r l n) e

  -- A client appends a file that is not empty to a file of the system, and another downloads that
  -- file, with no write between. No read has merged the log of the file before, so that it is not
  -- marked as read, and it holds the entries `ps`, of writes by clients to files that can be opened;
  -- everything can be opened, sent and written, and the fuel is more than the lengths. Then whatever the calls of `Read` give at both
  -- nodes: the upload is accepted, the download finds the file, and the local file of the other
  -- client is what the file held, what its log held for it, and the uploaded bytes behind them.
  pub upload-download :
      (c : Config) (join : String → String) (now fuel : ℕ) (reads reads' : ℕ → ℕ) (sends : ℕ → Bool)
      (r : FileTransferRequest) (b : ℕ) (bs : Bytes) (ps : List AolEntry) (n : Node env)
      (local : String) (locals : Map String Bytes)
      → ((j : ℕ) → sends j ≡ true)
      → ((l : env.Log) (j : env.Json) → (l' : env.Log) × (env.write l j ≡ some l'))
      → env.opens_log (stem r.dest_file_name) ≡ true
      → r.request_type ≡ append
      → All (IsAppend env) (ps ++ aol_entry env c now r (b ∷ bs) false ∷ [])
      → IsPending env (stem r.dest_file_name) ps n
      → length (ps ++ aol_entry env c now r (b ∷ bs) false ∷ []) < fuel
      → length (content env n.files r.dest_file_name ++ (appended r.dest_file_name ps ++ b ∷ bs))
        < fuel
      → (ms : List FileSendRequest) × (n' : Node env) × (e : AolEntry) × (w : Node env)
        × (chunks : List Bytes) × (upload_file true sends fuel reads r (some (b ∷ bs))
            ≡ some (Upload.uploaded ms))
        × (send_file env c join now true ms n ≡ accepted n' (some e))
        × (read_file env fuel fuel reads' r.dest_file_name n' ≡ some (w, some chunks))
        × (lookup local (download_file local (some chunks) locals)
            ≡ some
                (content env n.files r.dest_file_name ++ (appended r.dest_file_name ps ++ b ∷ bs)))
  unfolding handle_request_type_on_receive read_file download_file
  upload-download c join now fuel reads reads' sends r b bs ps n local locals ok writes opens k a p
        f g =
      let name = r.dest_file_name in
      let e : AolEntry = aol_entry env c now r (b ∷ bs) false in
      let big : length (b ∷ bs) < fuel = omega (
        arith,
        g,
        length-append (content env n.files name) (appended name ps ++ b ∷ bs),
        length-append (appended name ps) (b ∷ bs),
      ) in
      let (ms, up, received) = upload-received c join now fuel reads sends r b bs n ok big in
      let handled : handle_request_type_on_receive env c join now r (b ∷ bs) n
          ≡ accepted (write_log env join e n) (some e) =
        rw (handle_request_type_on_receive, k) refl in
      let (w, run, log, whole) =
        writes-read env join fuel name (e ∷ []) ps n writes opens (refl, tt) a p f in
      let holds : content env w.files name
          ≡ content env n.files name ++ (appended name ps ++ b ∷ bs) =
        whole name ∙ ap (λ l. content env n.files name ++ l) (appended-snoc name ps e refl) in
      let full : content env w.files name ≢ [] = λ q.
        append-full (content env n.files name ++ appended name ps) b bs
          (append_assoc (content env n.files name) (appended name ps) (b ∷ bs) ∙ sym holds ∙ q) in
      let (chunks, cut, joined, fit) =
        file_chunks-flatten fuel reads' 0 (content env w.files name)
          (subst (λ l. length l < fuel) (sym holds) g) in
      (
        ms,
        write_log env join e n,
        e,
        w,
        chunks,
        up,
        received ∙ handled,
        rw (read_file, run, cut, content-exists w.files name full) refl,
        lookup-insert_self local (flatten chunks) locals ∙ ap (λ l. some l) (joined ∙ holds),
      )
