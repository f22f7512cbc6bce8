-- ===== src/Hydfs/AppendLog.antt =====
-- HyDfs/AOL/aol.go: writes to a file are first appended to a log, and a later read of the log
-- merges them into the file. The log files are those of the package `arriqaaq/aol`, and entries
-- are stored as JSON: both are fields of `Env`, with what the code relies on.
pub mod Merge
pub mod Pending
pub mod Stale
use mathlib.Core.List.{flatten}
use rain_strom_distributed_s.Prelude.{
  ℕ, zero, suc, ◌+◌, ◌≡◌, Bool, true, false, ◌&&◌, Option, none, some, List, [], ◌∷◌, ◌++◌, String,
  Map, lookup, insert, string_eq, if◌then◌else◌, length, get_elem?,
}
use rain_strom_distributed_s.Prelude.Paths.{stem}

abbrev pub Bytes : Type 0
Bytes = List ℕ

-- `FileWMetaData` and `AolEntry`. Of the request types only the one of a repair is looked at.
pub record AolEntry : Type 0 where
  pub file_data : Bytes
  pub file_name : String
  pub client_peer_id : ℕ
  pub time_stamp : ℕ
  pub is_repair : Bool

pub data ReadResult (J : Type 0) : Type 0 where
  entry : J → ReadResult J
  eof fault : ReadResult J

-- What the packages and the operating system do. `Json` is the encoded form of an entry. `segs`
-- shows the entries of a log, segment by segment: `Read` answers with those, and `Write` puts one
-- more behind them.
pub record Env : Type 1 where
  pub Json : Type 0
  pub Log : Type 0
  pub fresh : Log
  pub segs : Log → List (List Json)
  pub write : Log → Json → Option Log
  pub segments : Log → ℕ
  pub read : Log → ℕ → ℕ → ReadResult Json
  pub encode : AolEntry → Json
  pub decode : Json → Option AolEntry
  -- whether `OpenFile` on a file, and `aol.Open` on a log, succeed
  pub opens : String → Bool
  pub opens_log : String → Bool
  pub fresh_lem : flatten (segs fresh) ≡ []
  pub write_lem :
      (l l' : Log) (b : Json) → write l b ≡ some l' → flatten (segs l') ≡ flatten (segs l) ++ b ∷ []
  pub segments_lem : (l : Log) → segments l ≡ length (segs l)
  pub read_lem :
      (l : Log) (s i : ℕ) (xs : List Json)
      → get_elem? (segs l) s ≡ some xs
      → read l (s + 1) i ≡ (elim (get_elem? xs i) [ none ↦ eof | some b ↦ entry b ])
  pub decode_lem : (e : AolEntry) → decode (encode e) ≡ some e

-- `AoLMetaDataMap`; `IsReplicated` is never read.
pub record LogMeta : Type 0 where
  pub log_path : String
  pub is_read : Bool
  pub is_replicated : Bool

abbrev pub aol_path : String
aol_path = "HyDfs/Files/Logs"

-- How a loop of `ReadLog` ends: by its `break`, by a `return`, or without fuel.
pub data Loop : Type 0 where
  done : Map String Bytes → Loop
  returned : Map String Bytes → Loop
  no_fuel : Loop

module _ (env : Env) where
  open env use {Log, fresh, write, segments, read, encode, decode, opens, opens_log}

  pub record Node : Type 0 where
    pub mapper : Map String LogMeta
    -- the log at a key of the mapper: its path is made of the key
    pub logs : Map String Log
    pub files : Map String Bytes

  abbrev pub log_at : Map String Log → String → Log
  log_at logs key = elim (lookup key logs) [ none ↦ fresh | some l ↦ l ]

  abbrev new_meta : (String → String) → String → LogMeta
  new_meta join key = record { log_path = join key; is_read = false; is_replicated = false }

  -- `MapToAOLLog`: the key of the log, which the mapper has from then on. `join` puts the key
  -- behind the directory of the logs.
  unfoldable pub map_to_aol_log : (String → String) → String → Node → Node × String
  map_to_aol_log join name n =
      let key = stem name in
      elim (lookup key n.mapper) [
        | some _ ↦ (n, key)
        | none ↦ (record n { mapper = insert key (new_meta join key) n.mapper }, key)
      ]

  -- `WriteLog`: an error is printed, and the entry is lost.
  unfoldable pub write_log : (String → String) → AolEntry → Node → Node
  unfolding map_to_aol_log
  write_log join e n =
      let (n', key) = map_to_aol_log join e.file_name n in
      if opens_log key
      then elim (write (log_at n'.logs key) (encode e)) [
        | none ↦ n'
        | some l ↦ record n' { logs = insert key l n'.logs }
      ]
      else n'

  abbrev pub content : Map String Bytes → String → Bytes
  content files name = elim (lookup name files) [ none ↦ [] | some b ↦ b ]

  abbrev pub exists : Map String Bytes → String → Bool
  exists files name = elim (lookup name files) [ none ↦ false | some _ ↦ true ]

  -- One entry in the loop of `ReadLog`: the files after it, or none for its `return`.
  unfoldable pub merge_entry : Option AolEntry → Map String Bytes → Option (Map String Bytes)
  merge_entry none files = none
  merge_entry (some e) files =
      if e.is_repair && exists files e.file_name
      then some files
      else if opens e.file_name
      then some (insert e.file_name (content files e.file_name ++ e.file_data) files)
      else none

  -- The inner loop, over the entries of a segment from an index on.
  unfoldable pub read_segment : ℕ → Log → ℕ → ℕ → Map String Bytes → Loop
  unfolding merge_entry
  read_segment zero l seg i files = no_fuel
  read_segment (suc fuel) l seg i files = elim (read l seg i) [
    | eof ↦ done files
    | fault ↦ returned files
    | entry b ↦ elim (merge_entry (decode b) files) [
      | none ↦ returned files
      | some files' ↦ read_segment fuel l seg (i + 1) files'
    ]
  ]

  -- The outer loop, with the segments that are left.
  unfoldable pub read_segments : ℕ → Log → ℕ → ℕ → Map String Bytes → Loop
  unfolding read_segment
  read_segments fuel l zero seg files = done files
  read_segments fuel l (suc k) seg files = elim (read_segment fuel l (seg + 1) 0 files) [
    | done files' ↦ read_segments fuel l k (seg + 1) files'
    | returned files' ↦ returned files'
    | no_fuel ↦ no_fuel
  ]

  -- `ReadLog`. After both loops the log is marked as read, and its files are deleted. `none` means
  -- that the fuel ran out.
  unfoldable pub read_log : ℕ → String → Node → Option Node
  unfolding read_segments
  read_log fuel key n = elim (lookup key n.mapper) [
    | none ↦ some n
    | some meta ↦
        if opens_log key
        then elim (read_segments fuel (log_at n.logs key) (segments (log_at n.logs key)) 0
            n.files) [
              | no_fuel ↦ none
              | returned files ↦ some (record n { files = files })
              | done files ↦ some (record n {
                files = files;
                mapper = insert key (record meta { is_read = true }) n.mapper;
                logs = insert key fresh n.logs;
              })
            ]
        else some n
  ]

  unfoldable pub merge_aol_on_read : ℕ → String → Node → Option Node
  unfolding read_log
  merge_aol_on_read fuel name n = elim (lookup (stem name) n.mapper) [
    | none ↦ some n
    | some meta ↦ if meta.is_read then some n else read_log fuel (stem name) n
  ]

  -- `ReadAllLogs`, over the names in the directory of the logs.
  unfoldable pub read_all_logs : ℕ → List String → Node → Option Node
  unfolding read_log
  read_all_logs fuel [] n = some n
  read_all_logs fuel (key ∷ keys) n = elim (read_log fuel key n) [
    | none ↦ none
    | some n' ↦ read_all_logs fuel keys n'
  ]
