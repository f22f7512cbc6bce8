-- ===== src/Witnesses/Sender.antt =====
-- The theorems on the sending and the starting workers of the stream layer at small inputs.
use text.Mathlib.TextEquality.{eq_iff}
use rain_strom_distributed_s.Prelude.{
  ℕ, zero, suc, ◌+◌, ◌*◌, ◌<◌, ◌≤◌, ◌≡◌, ◌≢◌, refl, arith, true, false, Option, none, some, List,
  [], ◌∷◌, ◌++◌, String, str_eq, insert, erase, lookup, string_eq, nat_eq, length, All, Has, inl, ℤ,
  pos,
}
use rain_strom_distributed_s.Stream.Leader.{TaskType}
use rain_strom_distributed_s.Stream.Tuples.{Tuple, World, Receiver, Response, exchange}
use rain_strom_distributed_s.Stream.Tuples.Once.{IsOnce}
use rain_strom_distributed_s.Stream.Network.{
  Job, JobTask, Trip, Env, Sender, hash_key, conn_of, get_receiver_by_tuple, send_tuple,
}
use rain_strom_distributed_s.Stream.Sender.{
  finish_task, remove_task, resend_round, resend_unacked_tuples, perform_task_1,
}
use rain_strom_distributed_s.Stream.Sender.Keys.{IsHash, HasPlaces, get_receiver-places}
use rain_strom_distributed_s.Stream.Sender.Rounds.{IsDistinct}
use rain_strom_distributed_s.Stream.Sender.Retry.{IsSettled, resend-ends}
use rain_strom_distributed_s.Stream.Sender.GivenUp.{IsSilent, IsUnacked, resend-gives_up}
use rain_strom_distributed_s.Stream.Prepare.{Files, prepare_task}
use rain_strom_distributed_s.Stream.Prepare.Recovers.{last_value, prepare_task-recovers}

-- Every key has the hash 0 * 2^24 + 1, and no receiver ever answers.
abbrev env : Env
env = record {
  sha1 = λ key. 0 ∷ 0 ∷ 0 ∷ 1 ∷ [];
  hex = λ bytes. "id";
  print_id = λ job task n. job;
  print_key = λ file n. file;
  print_tuple = λ key line. line;
  itoa = λ n. "0";
  run = λ command args. some "out";
  unmarshal = λ out. record { key = "word"; value = 1 };
  trip = λ calls conn t. Trip.answers [];
  notified = λ calls id. true;
}

env-IsHash : IsHash env
env-IsHash key = (0, 0, 0, 1, [], refl)

env-IsSilent : IsSilent env
unfolding send_tuple
env-IsSilent calls t none = refl
env-IsSilent calls t (some conn) = refl

abbrev sent_job : Job
sent_job = record {
  job_id = "j";
  num_tasks = 2;
  op_1_exe = "./app1-op1";
  op_2_exe = "./app1-op2";
  pattern = "Stop";
  input_partitions = (record { id = 0; file_name = "f.csv"; start = 0; last = pos 1 }) ∷ [];
  output_partitions = (0, pos 1) ∷ (1, pos 2) ∷ [];
}

abbrev split_task : JobTask
split_task = record {
  task_id = 7;
  partition = 0;
  task_type = TaskType.task_1;
  parent_job = sent_job;
}

abbrev tuple : String → Tuple
tuple id = record { tuple_id = id; key = "word"; value = 1 }

-- Two tuples wait, and the leader is worker 1.
abbrev waiting : Sender
waiting = record {
  task_queue = split_task ∷ [];
  worker_conns = (1, 11) ∷ (2, 12) ∷ [];
  output_map = [];
  output_partition_map = (0, pos 1) ∷ (1, pos 2) ∷ [];
  tuple_ack_map = ("a", false) ∷ ("b", false) ∷ [];
  unacked_tuples = tuple "a" ∷ tuple "b" ∷ [];
  retry_counts = ("a", 0) ∷ ("b", 0) ∷ [];
  calls = 2;
  notices = [];
}

waiting-HasPlaces : HasPlaces 2 waiting
unfolding lookup
waiting-HasPlaces zero h = (pos 1, refl)
waiting-HasPlaces (suc zero) h = (pos 2, refl)
waiting-HasPlaces (suc (suc k)) h = absurd (omega arith)

differ : (s t : String) → str_eq s t ≡ false → s ≢ t
differ s t q e = let z : str_eq s t ≡ true = (eq_iff s t).1 e in absurd (cc)

waiting-IsDistinct : IsDistinct waiting.unacked_tuples
waiting-IsDistinct = ((differ "b" "a" refl, tt), (tt, tt))

get_receiver-places_example :
    (k : ℕ) × (w : ℤ) × (hash_key env "word" 2 ≡ some k)
    × (k < 2)
    × (lookup k waiting.output_partition_map ≡ some w)
    × (get_receiver_by_tuple env (tuple "a") split_task waiting ≡ some (conn_of w waiting))
get_receiver-places_example =
    get_receiver-places env (tuple "a") split_task waiting env-IsHash (omega arith)
      waiting-HasPlaces

resend-ends_example :
    (done : Sender) × (resend_unacked_tuples env 9 waiting ≡ some (finish_task env split_task done))
    × IsSettled waiting done
    × (done.calls ≤ waiting.calls + 9 * length waiting.unacked_tuples)
resend-ends_example =
    resend-ends env split_task waiting env-IsHash (omega arith) refl waiting-IsDistinct

leader_conn : lookup 1 waiting.worker_conns ≡ some 11
unfolding lookup
leader_conn = refl

both-IsUnacked : All (λ t. IsUnacked t.tuple_id waiting) waiting.unacked_tuples
unfolding lookup
both-IsUnacked = (refl, (refl, tt))

resend-gives_up_example :
    (s' : Sender) × (resend_unacked_tuples env 9 waiting ≡ some s')
    × (s'.unacked_tuples ≡ [])
    × (s'.notices ≡ waiting.notices ++ 7 ∷ [])
    × (s'.task_queue ≡ remove_task 7 waiting.task_queue)
    × All (λ t. IsUnacked t.tuple_id s') waiting.unacked_tuples
resend-gives_up_example =
    resend-gives_up env split_task waiting 11 env-IsHash env-IsSilent (λ calls id. refl) leader_conn
      (omega arith) refl waiting-IsDistinct both-IsUnacked

-- A line of the file becomes a tuple that is not acknowledged, is sent again in vain, and is dropped.
abbrev outcome : Option Sender → List ℕ × ℕ
outcome none = ([], 0)
outcome (some s) = (s.notices, s.calls)

performed :
    outcome (
      perform_task_1 env 9 split_task "f.csv"
        (some ("x" ∷ []))
        (record waiting { task_queue = []; tuple_ack_map = [] }))
    ≡ (7 ∷ [], 12)
unfolding perform_task_1 resend_unacked_tuples resend_round finish_task lookup insert erase
performed = refl

abbrev files : Files
files = record {
  fetched = true;
  opens = true;
  lines = "word" ∷ "word" ∷ [];
  parse = λ line. some (line, 3);
  scans = true;
  aol_there = true;
  aol_opens = true;
  aol_scans = true;
}

abbrev noted : Receiver
noted = record {
  aol = ("t", true) ∷ [];
  queue = [];
  output_map = [];
  written = "t" ∷ [];
  aol_file = "t" ∷ [];
  processed_ids = [];
}

noted-IsOnce : IsOnce noted
unfolding lookup
noted-IsOnce = ((refl, tt), (tt, tt))

prepare_task-recovers_example :
    (r' : Receiver) × (prepare_task files noted ≡ (r', true))
    × ((key : String)
        → lookup key r'.output_map ≡ last_value key (("word", 3) ∷ ("word", 3) ∷ []) none)
    × ((id : String) → Has id noted.aol_file → lookup id r'.aol ≡ some true)
    × ((id : String) → ¬ Has id noted.aol_file → lookup id r'.aol ≡ none)
    × IsOnce r'
    × ((w : World) (t : Tuple)
        → w.opens_aol ≡ true
        → Has t.tuple_id noted.aol_file
        → exchange w t r' ≡ (r', Response.completed))
prepare_task-recovers_example =
    prepare_task-recovers files (λ e. e.0) (("word", 3) ∷ ("word", 3) ∷ []) noted (refl, (refl, tt))
      refl refl refl refl refl refl refl noted-IsOnce (inl refl, tt)
