-- ===== src/Witnesses/Counting.antt =====
-- The theorems on the operator programs, on counting and on both stages together at work, with
-- numbers printed in unary.
use rain_strom_distributed_s.Prelude.{
  All, Has, arith, subst, insert, get_elem?, pos, negsuc, ℕ, zero, suc, ◌≡◌, refl, sym, ap, ◌∙◌,
  true, none, some, [], ◌∷◌, String, lookup, string_eq, ◌==◌, if◌then◌else◌, inl, inr, str_eq, sym,
}
use Prim.Native.Char.{code}
use rain_strom_distributed_s.Prelude.Text.{append, trim_right, AllChars, IsFull}
use rain_strom_distributed_s.Stream.Leader.{TaskType}
use rain_strom_distributed_s.Stream.Tuples.{Tuple, Receiver, Response}
use rain_strom_distributed_s.Stream.Network.{Trip, Env, create_tuple_id, hash_key}
use rain_strom_distributed_s.Stream.Sender.{
  get_tuple, execute_tasks, perform_lines, all_acknowledged,
}
use rain_strom_distributed_s.Stream.Sender.Keys.{IsHash}
use rain_strom_distributed_s.Stream.Sender.Rounds.{IsDistinct}
use rain_strom_distributed_s.Stream.Counting.Lines.{made_of, line_output}
use rain_strom_distributed_s.Stream.Counting.Whole.{
  Share, all_tuples, run_share, after_share, routed, goes_to, count_all-lines,
}
use rain_strom_distributed_s.Stream.Sender.{or_zero}
use rain_strom_distributed_s.Stream.Operators.{Packages, line, app2_op2}
use rain_strom_distributed_s.Stream.Operators.Adds.{Laws, IsKey, is_digit, app2_op2-adds}
use rain_strom_distributed_s.Stream.Counting.{count_all}
use rain_strom_distributed_s.Stream.Counting.Fresh.{ReadsBack}
use rain_strom_distributed_s.Stream.Counting.Once.{total, count_all-total}

-- One digit more than the number.
abbrev unary : ℕ → String
unary zero = "1"
unary (suc n) = String.◌∷◌ "1" (unary n)

abbrev ones : String → ℕ
ones String.[] = 0
ones (String.◌∷◌ c s) = let n = ones s in if code c == b'1' then suc n else n

abbrev less_one : ℕ → ℕ
less_one zero = 0
less_one (suc n) = n

abbrev json : String → ℕ → String
json key n = append "{\"Key\":\"" (append key (append "\",\"Value\":" (append (unary n) "}")))

abbrev packages : Packages
packages = record {
  matches = λ pattern text. some true;
  pattern_error = λ pattern. "";
  marshal = json;
  marshal_tuple = json;
  unmarshal = λ text. some ("Warning", less_one (ones text));
  json_error = λ text. "";
  atoi = λ text. some (less_one (ones text));
  itoa = unary;
}

abbrev IsWarning : String → Type 0
IsWarning key = key ≡ "Warning"

unary-IsFull : (n : ℕ) → IsFull (unary n)
unary-IsFull zero = tt
unary-IsFull (suc n) = tt

unary-AllChars : (n : ℕ) → AllChars is_digit (unary n)
unary-AllChars zero = (refl, tt)
unary-AllChars (suc n) = (refl, unary-AllChars n)

ones-unary : (n : ℕ) → ones (unary n) ≡ suc n
ones-unary zero = refl
ones-unary (suc n) = ap suc (ones-unary n)

ones-json : (n : ℕ) → ones (append (append (unary n) "}") "\n") ≡ suc n
ones-json zero = refl
ones-json (suc n) = ap suc (ones-json n)

packages-Laws : Laws packages IsWarning
packages-Laws = record {
  marshal_lem = λ key n e. refl;
  marshal_tuple_lem = λ key n e k pos. refl;
  itoa_full = unary-IsFull;
  itoa_digits = unary-AllChars;
  atoi_lem = λ n. ap (λ k. some (less_one k)) (ones-unary n);
}

packages-ReadsBack : ReadsBack packages IsWarning
packages-ReadsBack key text n e h =
    ap (λ o. elim o [ none ↦ none | some t ↦ some ("Warning", less_one (ones t)) ]) (sym h)
    ∙ ap (λ k. some ("Warning", less_one (ones (append (json k n) "\n")))) e
    ∙ ap (λ k. some ("Warning", less_one k)) (ones-json n)
    ∙ ap (λ k. some (k, n)) (sym e)

warning-IsKey : IsKey "Warning"
unfolding trim_right
warning-IsKey = record {
  no_comma = (refl, (refl, (refl, (refl, (refl, (refl, (refl, tt)))))));
  no_colon = (refl, (refl, (refl, (refl, (refl, (refl, (refl, tt)))))));
  left = refl;
  right = refl;
}

abbrev tuple_a : Tuple
tuple_a = record { tuple_id = "a"; key = "Warning"; value = 2 }

abbrev tuple_b : Tuple
tuple_b = record { tuple_id = "b"; key = "Warning"; value = 3 }

abbrev counter : Receiver
counter = record {
  aol = [];
  queue = 7 ∷ [];
  output_map = [];
  written = [];
  aol_file = [];
  processed_ids = [];
}

app2_op2-adds_example :
    app2_op2 packages (unary 2 ∷ json "Warning" 3 ∷ []) ≡ line (json "Warning" 5)
app2_op2-adds_example =
    app2_op2-adds packages IsWarning "Warning" 2 3 packages-Laws refl warning-IsKey

-- The tuple `a` comes twice.
count_all-total_example :
    or_zero
      (lookup "Warning" (count_all packages (tuple_a ∷ tuple_b ∷ tuple_a ∷ []) counter).output_map)
    ≡ 5
count_all-total_example =
    count_all-total packages IsWarning (tuple_a ∷ tuple_b ∷ []) (tuple_a ∷ tuple_b ∷ tuple_a ∷ [])
      counter "Warning" 7 [] packages-Laws packages-ReadsBack
      (
        (refl, warning-IsKey, omega arith),
        ((refl, warning-IsKey, omega arith), ((refl, warning-IsKey, omega arith), tt)),
      )
      (((λ e. cc (ap (str_eq "a") e)), tt), (tt, tt)) (inl refl, (inr (inl refl), (inl refl, tt)))
      (λ m h. elim h [ inl p ↦ inl p | inr q ↦ elim q [ inl p ↦ inr (inl p) | inr z ↦ absurd z ] ])
      refl refl refl

-- The ids are unary numbers, the operator gives the key "Warning" with the value 2 for each line,
-- and every tuple is acknowledged.
abbrev counting_env : Env
counting_env = record {
  sha1 = λ key. 0 ∷ 0 ∷ 0 ∷ ones key ∷ [];
  hex = λ bytes. elim (get_elem? bytes 3) [ none ↦ "" | some b ↦ unary b ];
  print_id = λ job task n. elim n [ pos m ↦ unary m | negsuc m ↦ "" ];
  print_key = λ file n. file;
  print_tuple = λ key line. line;
  itoa = unary;
  run = λ command args. some "out";
  unmarshal = λ out. record { key = "Warning"; value = 2 };
  trip = λ calls conn t. Trip.answers (some (t.tuple_id, Response.success) ∷ []);
  notified = λ calls id. true;
}

counting_env-IsHash : IsHash counting_env
counting_env-IsHash key = (0, 0, 0, ones key, [], refl)

abbrev share : Share
share = record {
  task = record {
    task_id = 7;
    partition = 0;
    task_type = TaskType.task_1;
    parent_job = record {
      job_id = "j";
      num_tasks = 2;
      op_1_exe = "./app2-op1";
      op_2_exe = "./app2-op2";
      pattern = "Stop";
      input_partitions = (record { id = 0; file_name = "f.csv"; start = 0; last = pos 1 }) ∷ [];
      output_partitions = (0, pos 1) ∷ (1, pos 2) ∷ [];
    };
  };
  file = "f.csv";
  start = 0;
  end = pos 1;
  lines = "x" ∷ "y" ∷ [];
  worker = record {
    task_queue = [];
    worker_conns = (1, 11) ∷ (2, 12) ∷ [];
    output_map = [];
    output_partition_map = (0, pos 1) ∷ (1, pos 2) ∷ [];
    tuple_ack_map = [];
    unacked_tuples = [];
    retry_counts = [];
    calls = 0;
    notices = [];
  };
}

abbrev made : String → Tuple
made id = record { tuple_id = id; key = "Warning"; value = 2 }

-- The tuples of the two lines, all of them for the receiver 0.
share-routed :
    routed (goes_to counting_env 2 0) (all_tuples counting_env (share ∷ []))
    ≡ made "1" ∷ made "11" ∷ []
unfolding made_of line_output execute_tasks get_tuple create_tuple_id hash_key
share-routed = refl

share-IsDistinct : IsDistinct (all_tuples counting_env (share ∷ []))
unfolding made_of line_output execute_tasks get_tuple create_tuple_id
share-IsDistinct = (((λ e. cc), tt), (tt, tt))

share-acknowledged : all_acknowledged (after_share counting_env share).tuple_ack_map ≡ true
unfolding perform_lines all_acknowledged lookup insert
share-acknowledged = refl

share-goes_to : goes_to counting_env 2 0 "Warning" ≡ true
unfolding hash_key
share-goes_to = refl

count_all-lines_example :
    All (λ p. run_share counting_env p ≡ some (after_share counting_env p)) (share ∷ [])
    × (or_zero (
          lookup "Warning"
            (count_all packages (made "1" ∷ made "11" ∷ made "1" ∷ []) counter).output_map)
        ≡ total "Warning" (all_tuples counting_env (share ∷ [])))
count_all-lines_example =
    count_all-lines counting_env packages IsWarning (share ∷ []) 2 0
      (made "1" ∷ made "11" ∷ made "1" ∷ []) counter "Warning" 7 [] counting_env-IsHash
      packages-Laws packages-ReadsBack
      (
        (refl, warning-IsKey, omega arith),
        ((refl, warning-IsKey, omega arith), ((refl, warning-IsKey, omega arith), tt)),
      )
      (omega arith, tt) share-IsDistinct (share-acknowledged, tt)
      (subst (λ l. All (λ t. Has t l) (made "1" ∷ made "11" ∷ made "1" ∷ [])) (sym share-routed)
        (inl refl, (inr (inl refl), (inl refl, tt))))
      (λ p t h w a. elim (subst (Has t) share-routed w) [
        | inl e ↦ inl e
        | inr z ↦ elim z [ inl e ↦ inr (inl e) | inr y ↦ absurd y ]
      ])
      share-goes_to refl refl refl
