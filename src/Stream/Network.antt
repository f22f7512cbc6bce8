-- ===== src/Stream/Network.antt =====
-- Stream/models/hash.go, Stream/network/transfer.go, and of Stream/helper.go and Stream/utils-tasks.go
-- the id and the receiver of a tuple: the state of a worker that sends, which worker a tuple goes
-- to, and the sending of one tuple. SHA-1, `fmt`, JSON, the operator processes and the network are
-- the environment, which is a parameter.
use rain_strom_distributed_s.Prelude.{
  ℕ, zero, suc, ◌+◌, ◌*◌, ◌%◌, ◌^◌, Bool, true, false, Option, none, some, List, [], ◌∷◌, String,
  str_eq, if◌then◌else◌, ◌>>=◌, get_elem?, Map, lookup, string_eq, nat_eq, ℤ, pos, negsuc,
}
use rain_strom_distributed_s.Stream.Leader.{TaskType}
use rain_strom_distributed_s.Stream.Partition.{Partition}
use rain_strom_distributed_s.Stream.Tuples.{Tuple, Response}
use rain_strom_distributed_s.Stream.Tuples.Response.{success, completed, fail}

-- What a worker reads of a job; `pattern` is `MetaData["pattern"]`.
pub record Job : Type 0 where
  pub job_id : String
  pub num_tasks : ℕ
  pub op_1_exe : String
  pub op_2_exe : String
  pub pattern : String
  pub input_partitions : List Partition
  pub output_partitions : Map ℕ ℤ

pub record JobTask : Type 0 where
  pub task_id : ℕ
  pub partition : ℕ
  pub task_type : TaskType
  pub parent_job : Job

pub record Output : Type 0 where
  pub key : String
  pub value : ℕ

-- What becomes of a stream to another worker: it cannot be opened, the tuple cannot be sent, or
-- these answers come before the time is over, with `none` for an error of `Recv`.
pub data Trip : Type 0 where
  no_stream : Trip
  not_sent : Trip
  answers : List (Option (String × Response)) → Trip

-- `run` is an operator process, none for an error and for no output. `trip` and `notified` may
-- depend on the number of calls made before.
pub record Env : Type 0 where
  pub sha1 : String → List ℕ
  pub hex : List ℕ → String
  pub print_id : String → ℕ → ℤ → String
  pub print_key : String → ℕ → String
  pub print_tuple : String → String → String
  pub itoa : ℕ → String
  pub run : String → List String → Option String
  pub unmarshal : String → Output
  pub trip : ℕ → ℕ → Tuple → Trip
  pub notified : ℕ → ℕ → Bool

-- The fields of `WorkerService`. `calls` counts the tuples sent, `notices` are the ids of the tasks
-- whose end the leader was told.
pub record Sender : Type 0 where
  pub task_queue : List JobTask
  pub worker_conns : Map ℕ ℕ
  pub output_map : Map String ℕ
  pub output_partition_map : Map ℕ ℤ
  pub tuple_ack_map : Map String Bool
  pub unacked_tuples : List Tuple
  pub retry_counts : Map String ℕ
  pub calls : ℕ
  pub notices : List ℕ

abbrev pub max_retry_count : ℕ
max_retry_count = 8

-- `hashBytes[0]<<24 | ...`: bytes are below 256, so no bit is set twice. `none` is the division by
-- zero.
unfoldable pub hash_key : Env → String → ℕ → Option ℕ
hash_key env key zero = none
hash_key env key (suc n) = do
  b0 ← get_elem? (env.sha1 key) 0
  b1 ← get_elem? (env.sha1 key) 1
  b2 ← get_elem? (env.sha1 key) 2
  b3 ← get_elem? (env.sha1 key) 3
  some ((b0 * 2 ^ 24 + b1 * 2 ^ 16 + b2 * 2 ^ 8 + b3) % suc n)

unfoldable pub create_tuple_id : Env → String → ℕ → ℤ → String
create_tuple_id env job_id task_id sequence_number =
    env.hex (env.sha1 (env.print_id job_id task_id sequence_number))

-- A key that is missing in the map gives worker 0, and a missing connection is nil.
unfoldable pub receiver_worker_id : ℕ → Sender → ℤ
receiver_worker_id key_hash s = elim (lookup key_hash s.output_partition_map) [
  | none ↦ pos 0
  | some w ↦ w
]

abbrev pub conn_of : ℤ → Sender → Option ℕ
conn_of (pos w) s = lookup w s.worker_conns
conn_of (negsuc w) s = none

unfoldable pub get_receiver_by_tuple : Env → Tuple → JobTask → Sender → Option (Option ℕ)
unfolding hash_key receiver_worker_id
get_receiver_by_tuple env t task s = do
  key_hash ← hash_key env t.key task.parent_job.num_tasks
  some (conn_of (receiver_worker_id key_hash s) s)

-- The loop of the goroutine in `TransferTuple`, up to the first answer that decides.
unfoldable pub first_answer : String → List (Option (String × Response)) → Option Bool
first_answer id [] = none
first_answer id (none ∷ rest) = some false
first_answer id (some (answered, response) ∷ rest) =
    let later = first_answer id rest in
    if str_eq answered id
    then elim response [ success ↦ some true | completed ↦ some true | fail ↦ some false ]
    else later

-- `(ackReceived, err != nil)`
unfoldable pub transfer_tuple : Trip → String → Bool × Bool
unfolding first_answer
transfer_tuple Trip.no_stream id = (false, true)
transfer_tuple Trip.not_sent id = (false, true)
transfer_tuple (Trip.answers rs) id = elim (first_answer id rs) [
  | none ↦ (false, true)
  | some ack ↦ (ack, false)
]

unfoldable pub send_tuple : Env → ℕ → Tuple → Option ℕ → Bool × Bool
unfolding transfer_tuple
send_tuple env calls t none = (false, false)
send_tuple env calls t (some conn) = transfer_tuple (env.trip calls conn t) t.tuple_id
