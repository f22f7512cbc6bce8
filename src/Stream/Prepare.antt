-- ===== src/Stream/Prepare.antt =====
-- Stream/utils-tasks.go, `PrepareTask`: a worker that gets a task of stage 2 starts from the two
-- files of an earlier worker, the results in the file system and the ids in the file of the log.
-- The resetting of the map of the sender's acknowledgments is left out.
pub mod Recovers
use rain_strom_distributed_s.Prelude.{
  ℕ, Bool, true, false, Option, none, some, List, [], ◌∷◌, String, Map, insert, string_eq,
  if◌then◌else◌,
}
use rain_strom_distributed_s.Stream.Tuples.{Receiver}

-- What the files are when the task starts. `parse` is `json.Unmarshal`; a scan is the loop over the
-- lines, which may end with an error.
pub record Files : Type 0 where
  pub fetched : Bool
  pub opens : Bool
  pub lines : List String
  pub parse : String → Option (String × ℕ)
  pub scans : Bool
  pub aol_there : Bool
  pub aol_opens : Bool
  pub aol_scans : Bool

-- The loop over the results, up to a line that is no result.
unfoldable pub load_outputs :
    (String → Option (String × ℕ)) → List String → Map String ℕ → Map String ℕ × Bool
load_outputs parse [] m = (m, true)
load_outputs parse (line ∷ rest) m = elim (parse line) [
  | none ↦ (m, false)
  | some (key, value) ↦ load_outputs parse rest (insert key value m)
]

unfoldable pub load_aol : List String → Map String Bool → Map String Bool
load_aol [] m = m
load_aol (id ∷ ids) m = load_aol ids (insert id true m)

-- `PrepareTask`: false for an error.
unfoldable pub prepare_task : Files → Receiver → Receiver × Bool
unfolding load_outputs load_aol
prepare_task f r =
    let base : Receiver = record r { processed_ids = []; output_map = []; aol = [] } in
    let (m, parsed) = load_outputs f.parse f.lines [] in
    let counted : Receiver = record base { output_map = m } in
    let noted : Receiver = record counted { aol = load_aol r.aol_file [] } in
    if f.fetched
    then if f.opens
      then if parsed
        then if f.scans
          then if f.aol_there
            then if f.aol_opens then (noted, f.aol_scans) else (counted, false)
            else (counted, true)
          else (counted, false)
        else (counted, false)
      else (base, false)
    else (base, false)
