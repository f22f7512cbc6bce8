-- ===== src/Witnesses/AppendLog.antt =====
-- The theorems on the append log at work on a log that is a list of entries in one segment.
use mathlib.Core.List.{flatten}
use rain_strom_distributed_s.Prelude.{
  ℕ, zero, suc, ◌+◌, ◌≡◌, ◌≢◌, refl, sym, ap, ◌∙◌, arith, Bool, true, false, none, some, List, [],
  ◌∷◌, ◌++◌, String, inl, get_elem?, lookup, string_eq,
}
use rain_strom_distributed_s.Prelude.Paths.{stem}
use rain_strom_distributed_s.Hydfs.AppendLog.{
  AolEntry, ReadResult, Env, LogMeta, Node, log_at, content, read_log, merge_aol_on_read,
}
use rain_strom_distributed_s.Hydfs.AppendLog.ReadResult.{eof, fault, entry}
use rain_strom_distributed_s.Hydfs.AppendLog.Merge.{merged, read_result, read_log-merged}
use rain_strom_distributed_s.Hydfs.AppendLog.Pending.{appended, IsPending, write_all, writes-read}
use rain_strom_distributed_s.Hydfs.AppendLog.Stale.{writes_after_read}

abbrev at_index : List AolEntry → ℕ → ReadResult AolEntry
at_index l i = elim (get_elem? l i) [ none ↦ eof | some e ↦ entry e ]

-- Segment 1 has the entries; no other segment is asked for.
abbrev read_one : List AolEntry → ℕ → ℕ → ReadResult AolEntry
read_one l zero i = fault
read_one l (suc s) i = elim s [ zero ↦ at_index l i | suc k ↦ fault ]

pub flat : (l : List AolEntry) → flatten (l ∷ []) ≡ l
unfolding flatten
flat [] = refl
flat (e ∷ l) = ap (λ k. e ∷ k) (flat l)

pub read_one_lem :
    (l : List AolEntry) (s i : ℕ) (xs : List AolEntry)
    → get_elem? (l ∷ []) s ≡ some xs
    → read_one l (s + 1) i ≡ at_index xs i
read_one_lem l zero i xs h = let e : l ≡ xs = cc in ap (λ k. at_index k i) e
read_one_lem l (suc s) i xs h = absurd (cc)

pub some-injective : {A : Type 0} {x y : A} → some x ≡ some y → x ≡ y
some-injective {x = x} h = ap (λ o. elim o [ none ↦ x | some z ↦ z ]) h

abbrev pub log_env : Env
log_env = record {
  Json = AolEntry;
  Log = List AolEntry;
  fresh = [];
  segs = λ l. l ∷ [];
  write = λ l b. some (l ++ b ∷ []);
  segments = λ l. 1;
  read = read_one;
  encode = λ e. e;
  decode = λ e. some e;
  opens = λ name. true;
  opens_log = λ key. true;
  fresh_lem = flat [];
  write_lem = λ l l' b h.
      ap (λ k. flatten (k ∷ [])) (sym (some-injective h))
      ∙ flat (l ++ b ∷ [])
      ∙ ap (λ k. k ++ b ∷ []) (sym (flat l));
  segments_lem = λ l. refl;
  read_lem = read_one_lem;
  decode_lem = λ e. refl;
}

abbrev pub append_of : ℕ → AolEntry
append_of b = record {
  file_data = b ∷ [];
  file_name = "d/f.txt";
  client_peer_id = 10;
  time_stamp = 1;
  is_repair = false;
}

abbrev pub empty_node : Node log_env
empty_node = record { mapper = []; logs = []; files = [] }

pub nothing-IsPending : IsPending log_env (stem "d/f.txt") [] empty_node
unfolding lookup
nothing-IsPending = (flat [], inl (refl, refl))

writes-read_example :
    (w : Node log_env) × (merge_aol_on_read log_env 3 "d/f.txt"
        (write_all log_env (λ k. k) (append_of 1 ∷ append_of 2 ∷ []) empty_node)
      ≡ some w)
    × (flatten (log_at log_env w.logs (stem "d/f.txt") ∷ []) ≡ [])
    × ((f : String)
        → content log_env w.files f
          ≡ content log_env [] f ++ appended f (append_of 1 ∷ append_of 2 ∷ []))
writes-read_example =
    writes-read log_env (λ k. k) 3 "d/f.txt" (append_of 1 ∷ append_of 2 ∷ []) [] empty_node
      (λ l b. (l ++ b ∷ [], refl)) refl (refl, (refl, tt)) ((refl, refl), ((refl, refl), tt))
      nothing-IsPending (omega arith)

abbrev mapped : Bool → LogMeta
mapped r = record { log_path = "f"; is_read = r; is_replicated = false }

abbrev written : Node log_env
written = record {
  mapper = ("f", mapped false) ∷ [];
  logs = ("f", append_of 1 ∷ append_of 2 ∷ []) ∷ [];
  files = [];
}

found : lookup "f" written.mapper ≡ some (mapped false)
unfolding lookup
found = refl

two_entries : flatten (log_at log_env written.logs "f" ∷ []) ≡ append_of 1 ∷ append_of 2 ∷ []
unfolding flatten lookup
two_entries = refl

read_log-merged_example :
    (read_log log_env 3 "f" written
      ≡ read_result log_env "f"
          (mapped false)
          (merged log_env (flatten (log_at log_env written.logs "f" ∷ [])) [])
          written)
    × (read_log log_env 3 "f" written ≢ none)
read_log-merged_example =
    read_log-merged log_env 3 "f" written (mapped false) found refl (rw two_entries (omega arith))

abbrev merged_before : Node log_env
merged_before = record {
  mapper = ("f", mapped true) ∷ [];
  logs = [];
  files = ("d/f.txt", 1 ∷ []) ∷ [];
}

found_read : lookup (stem "d/f.txt") merged_before.mapper ≡ some (mapped true)
unfolding lookup stem
found_read = refl

writes_after_read_example :
    (merge_aol_on_read log_env 9 "d/f.txt"
        (write_all log_env (λ k. k) (append_of 2 ∷ []) merged_before)
      ≡ some (write_all log_env (λ k. k) (append_of 2 ∷ []) merged_before))
    × ((write_all log_env (λ k. k) (append_of 2 ∷ []) merged_before).files
        ≡ ("d/f.txt", 1 ∷ []) ∷ [])
writes_after_read_example =
    writes_after_read log_env (λ k. k) 9 "d/f.txt" (append_of 2 ∷ []) merged_before (mapped true)
      found_read refl
