-- ===== src/Stream/Tuples.antt =====
-- Stream/utils-tasks.go and Stream/worker.go, the receiving side: what a worker of stage 2 does
-- with a tuple and how it acknowledges it. The operator that is executed, the write to the file
-- system and the files are the environment, which is a parameter.
pub mod Once
use rain_strom_distributed_s.Prelude.{
  ℕ, Bool, true, false, Option, none, some, List, [], ◌∷◌, ◌++◌, String, Map, lookup, insert,
  string_eq, if◌then◌else◌,
}

pub record Tuple : Type 0 where
  pub tuple_id : String
  pub key : String
  pub value : ℕ

-- `execute` is the value that the operator makes of a tuple, none for an error.
pub record World : Type 0 where
  pub opens_aol : Bool
  pub execute : Tuple → Option ℕ
  pub writes_data : String → Bool
  pub writes_aol : String → Bool

-- `aol` and `processed_ids` are the sets of the worker, `queue` the ids of its tasks, `written` the
-- tuples whose results went to the file system.
pub record Receiver : Type 0 where
  pub aol : Map String Bool
  pub queue : List ℕ
  pub output_map : Map String ℕ
  pub written : List String
  pub aol_file : List String
  pub processed_ids : Map String Bool

-- `ResponseType` of the acknowledgment: SUCCESS, COMPLETED for a duplicate, or FAIL.
pub data Response : Type 0 where
  success completed fail : Response

-- What follows an execution: the result is kept, written, and noted in the file of the log.
unfoldable pub store_result : World → Tuple → ℕ → Receiver → Receiver × Response
store_result w t v r =
    let counted = record r { output_map = insert t.key v r.output_map } in
    let stored = record counted { written = counted.written ++ t.tuple_id ∷ [] } in
    let noted = record stored { aol_file = stored.aol_file ++ t.tuple_id ∷ [] } in
    if w.writes_data t.tuple_id
    then if w.writes_aol t.tuple_id then (noted, Response.success) else (stored, Response.fail)
    else (counted, Response.fail)

unfoldable pub process_received_tuples : World → Tuple → Receiver → Receiver × Response
unfolding store_result
process_received_tuples w t r =
    let added = record r { aol = insert t.tuple_id true r.aol } in
    let executed : Receiver × Response = elim (w.execute t) [
      | none ↦ (added, Response.fail)
      | some v ↦ store_result w t v added
    ] in
    let fresh : Receiver × Response = elim r.queue [
      | [] ↦ (added, Response.fail)
      | q ∷ qs ↦ executed
    ] in
    if w.opens_aol
    then elim (lookup t.tuple_id r.aol) [ some _ ↦ (r, Response.completed) | none ↦ fresh ]
    else (r, Response.fail)

-- One round of `ExchangeTuples`: the state after it, and the acknowledgment.
unfoldable pub exchange : World → Tuple → Receiver → Receiver × Response
unfolding process_received_tuples
exchange w t r =
    let (r', response) = process_received_tuples w t r in
    elim response [
      | success ↦
          (record r' { processed_ids = insert t.tuple_id true r'.processed_ids }, Response.success)
      | completed ↦ (r', Response.completed)
      | fail ↦ (r', Response.fail)
    ]
