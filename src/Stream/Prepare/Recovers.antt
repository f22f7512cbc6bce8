-- ===== src/Stream/Prepare/Recovers.antt =====
-- What a worker that starts from the files of an earlier one knows.
use rain_strom_distributed_s.Prelude.{
  ℕ, ◌≡◌, refl, sym, ap, ◌∙◌, subst, Bool, true, Option, none, some, List, [], ◌∷◌, map, String,
  Map, lookup, insert, string_eq, str_eq, if◌then◌else◌, All, All-map, Has, Bool-cases, inl, inr,
  lookup-insert, lookup-insert_self, lookup-insert_ne,
}
use rain_strom_distributed_s.Stream.Tuples.{
  Tuple, World, Receiver, exchange, process_received_tuples,
}
use rain_strom_distributed_s.Stream.Tuples.Response.{completed}
use rain_strom_distributed_s.Stream.Tuples.Once.{IsOnce}
use rain_strom_distributed_s.Stream.Prepare.{Files, load_outputs, load_aol, prepare_task}

-- The last value that a list of results has for a key.
abbrev pub last_value : String → List (String × ℕ) → Option ℕ → Option ℕ
last_value key [] before = before
last_value key ((k, v) ∷ rest) before =
    last_value key rest (if str_eq k key then some v else before)

load_outputs-last_value :
    (parse : String → Option (String × ℕ)) (print : String × ℕ → String) (key : String)
    (results : List (String × ℕ)) (m : Map String ℕ)
    → All (λ e. parse (print e) ≡ some e) results
    → ((load_outputs parse (map print results) m).1 ≡ true)
      × (lookup key (load_outputs parse (map print results) m).0
          ≡ last_value key results (lookup key m))
unfolding load_outputs
load_outputs-last_value parse print key [] m back = (refl, refl)
load_outputs-last_value parse print key ((k, v) ∷ rest) m back =
    let (done, value) = load_outputs-last_value parse print key rest (insert k v m) back.1 in
    rw (load_outputs, back.0) (done, value ∙ ap (last_value key rest) (lookup-insert k key v m))

load_aol-keeps :
    (ids : List String) (id : String) (m : Map String Bool)
    → lookup id m ≡ some true
    → lookup id (load_aol ids m) ≡ some true
unfolding load_aol
load_aol-keeps [] id m h = h
load_aol-keeps (i ∷ ids) id m h =
    load_aol-keeps ids id (insert i true m) (elim (Bool-cases (str_eq i id)) [
      | inl q ↦ rw (lookup-insert i id true m, q) refl
      | inr q ↦ rw (lookup-insert i id true m, q) h
    ])

load_aol-Has :
    (ids : List String) (id : String) (m : Map String Bool)
    → Has id ids
    → lookup id (load_aol ids m) ≡ some true
unfolding load_aol
load_aol-Has [] id m h = absurd h
load_aol-Has (i ∷ ids) id m (inl e) =
    load_aol-keeps ids id (insert i true m)
      (subst (λ x. lookup id (insert x true m) ≡ some true) e (lookup-insert_self id true m))
load_aol-Has (i ∷ ids) id m (inr h) = load_aol-Has ids id (insert i true m) h

load_aol-new :
    (ids : List String) (id : String) (m : Map String Bool)
    → ¬ Has id ids
    → lookup id (load_aol ids m) ≡ lookup id m
unfolding load_aol
load_aol-new [] id m n = refl
load_aol-new (i ∷ ids) id m n =
    load_aol-new ids id (insert i true m) (λ h. n (inr h))
    ∙ lookup-insert_ne i id true m (λ e. n (inl (sym e)))

-- A worker whose written results are written once and were all noted in the file of the log starts
-- a task, and reads both files without an error. The lines of the results are those that JSON prints
-- and parses back. Then each key has the value of the last result for it, the worker's set has
-- exactly the ids in the file of the log, results are still written once, and a tuple with an id in
-- that file, if the file can be opened, is answered with COMPLETED and changes nothing.
pub prepare_task-recovers :
    (f : Files) (print : String × ℕ → String) (results : List (String × ℕ)) (r : Receiver)
    → All (λ e. f.parse (print e) ≡ some e) results
    → f.lines ≡ map print results
    → f.fetched ≡ true
    → f.opens ≡ true
    → f.scans ≡ true
    → f.aol_there ≡ true
    → f.aol_opens ≡ true
    → f.aol_scans ≡ true
    → IsOnce r
    → All (λ id. Has id r.aol_file) r.written
    → (r' : Receiver) × (prepare_task f r ≡ (r', true))
      × ((key : String) → lookup key r'.output_map ≡ last_value key results none)
      × ((id : String) → Has id r.aol_file → lookup id r'.aol ≡ some true)
      × ((id : String) → ¬ Has id r.aol_file → lookup id r'.aol ≡ none)
      × IsOnce r'
      × ((w : World) (t : Tuple)
          → w.opens_aol ≡ true
          → Has t.tuple_id r.aol_file
          → exchange w t r' ≡ (r', completed))
unfolding prepare_task exchange process_received_tuples lookup
prepare_task-recovers f print results r back e a b c d g h once noted =
    let loaded : Map String ℕ × Bool = load_outputs f.parse (map print results) [] in
    let r' : Receiver = record r {
      processed_ids = [];
      output_map = loaded.0;
      aol = load_aol r.aol_file [];
    } in
    let value : (key : String)
        → (loaded.1 ≡ true) × (lookup key loaded.0 ≡ last_value key results (lookup key [])) =
      λ key. load_outputs-last_value f.parse print key results [] back in
    let there : (id : String) → Has id r.aol_file → lookup id r'.aol ≡ some true =
      λ id i. load_aol-Has r.aol_file id [] i in
    (
      r',
      rw (prepare_task, e, (value "").0, a, b, c, d, g, h) refl,
      (λ key. (value key).1),
      there,
      (λ id n. load_aol-new r.aol_file id [] n),
      (All-map _ _ r.written there noted, once.1),
      (λ w t o i. duplicate w t o (there t.tuple_id i)),
    )
  where
    duplicate :
        {s : Receiver} (w : World) (t : Tuple)
        → w.opens_aol ≡ true
        → lookup t.tuple_id s.aol ≡ some true
        → exchange w t s ≡ (s, completed)
    duplicate {s = s} w t o i =
        let one : process_received_tuples w t s ≡ (s, completed) =
          simp (process_received_tuples, o, i) in
        rw (exchange, one) (ap (λ z. (z.0, completed)) one)
