-- ===== src/Stream/Sender.antt =====
-- Stream/utils-tasks.go and the functions of Stream/helper.go and Stream/worker.go on the sending
-- side: a worker of stage 1 runs the operator on the lines of its partition, sends the tuples to the
-- workers of stage 2 and sends those again that are not acknowledged. The environment is that of
-- Stream/Network. No other goroutine works on the same fields meanwhile.
pub mod Keys
pub mod Rounds
pub mod Retry
pub mod GivenUp
pub mod Routes
use rain_strom_distributed_s.Prelude.{
  ℕ, zero, suc, ◌+◌, ◌*◌, ◌%◌, ◌^◌, Bool, true, false, not, ◌&&◌, ◌||◌, Option, none, some, List,
  [], ◌∷◌, ◌++◌, last, String, str_eq, if◌then◌else◌, ◌==◌, leb, ltb, ◌>>=◌, get_elem?, Map, lookup,
  insert, erase, string_eq, nat_eq, ℤ, pos, negsuc,
}
use rain_strom_distributed_s.Stream.Leader.{TaskType}
use rain_strom_distributed_s.Stream.Leader.TaskType.{task_1, task_2}
use rain_strom_distributed_s.Stream.Partition.{Partition, minus_one}
use rain_strom_distributed_s.Stream.Tuples.{Tuple, Response}
use rain_strom_distributed_s.Stream.Tuples.Response.{success, completed, fail}
use rain_strom_distributed_s.Stream.Network.{
  Job, JobTask, Output, Trip, Env, Sender, max_retry_count, hash_key, create_tuple_id,
  receiver_worker_id, conn_of, get_receiver_by_tuple, first_answer, transfer_tuple, send_tuple,
}
use rain_strom_distributed_s.Stream.Network.Trip.{no_stream, not_sent, answers}

unfoldable pub execute_tasks : Env → String → String → List String → Option String
execute_tasks env command input arg = env.run command (arg ++ input ∷ [])

unfoldable pub get_arguments : Env → JobTask → String → Sender → List String
get_arguments env task key s =
    let job = task.parent_job in
    elim task.task_type [
      | task_1 ↦
          if str_eq job.op_1_exe "./app1-op1" || str_eq job.op_1_exe "./app2-op1"
          then job.pattern ∷ []
          else []
      | task_2 ↦
          if str_eq job.op_2_exe "./app2-op2"
          then env.itoa (elim (lookup key s.output_map) [ none ↦ 0 | some n ↦ n ]) ∷ []
          else []
    ]

-- `int32(tuple.Value)`, as its 32 bits.
unfoldable pub get_tuple : String → Output → Tuple
get_tuple id o = record { tuple_id = id; key = o.key; value = o.value % 2 ^ 32 }

-- `PerformTask` from the tuple id on, with the receiver's connection.
unfoldable pub send_output : Env → Tuple → Option ℕ → Sender → Sender
unfolding send_tuple
send_output env t conn s =
    let (sent, err) = send_tuple env s.calls t conn in
    let ack = if err && sent then true else if err then false else sent in
    let again : Sender = record s {
      tuple_ack_map = insert t.tuple_id sent s.tuple_ack_map;
      calls = s.calls + 1;
    } in
    let noted : Sender = record s {
      tuple_ack_map = insert t.tuple_id ack s.tuple_ack_map;
      calls = s.calls + 1;
    } in
    let kept : Sender = record noted {
      unacked_tuples = noted.unacked_tuples ++ t ∷ [];
      retry_counts = insert t.tuple_id 0 noted.retry_counts;
    } in
    elim (lookup t.tuple_id s.tuple_ack_map) [
      | some true ↦ s
      | some false ↦ again
      | none ↦ if ack then noted else kept
    ]

-- The body of the loop of `PerformTask` for a line of the partition. The sequence number starts at
-- minus one, so it is one less than the count of tuples made.
unfoldable pub perform_line : Env → JobTask → String → ℕ → String → ℕ → Sender → Option (ℕ × Sender)
unfolding execute_tasks get_arguments create_tuple_id get_tuple get_receiver_by_tuple send_output
perform_line env task file line_number text made s =
    let key = env.print_key file line_number in
    let input = env.print_tuple key text in
    let output = execute_tasks env task.parent_job.op_1_exe input (get_arguments env task "" s) in
    elim output [
      | none ↦ some (made, s)
      | some out ↦
          let o = env.unmarshal out in
          let id = create_tuple_id env task.parent_job.job_id task.task_id (minus_one made) in
          let t = get_tuple id o in
          if str_eq o.key "" then some (made, s) else do
            conn ← get_receiver_by_tuple env t task s
            some (suc made, send_output env t conn s)
    ]

abbrev pub after : ℕ → ℤ → Bool
after n (pos m) = ltb m n
after n (negsuc m) = true

-- The loop over the lines of the file.
unfoldable pub perform_lines :
    Env → JobTask → String → ℕ → ℤ → List String → ℕ → ℕ → Sender → Option Sender
unfolding perform_line
perform_lines env task file start end [] n made s = some s
perform_lines env task file start end (text ∷ rest) n made s =
    let one = if ltb n start then some (made, s) else perform_line env task file n text made s in
    if not (ltb n start) && after n end
    then some s
    else do (made', s') ← one; perform_lines env task file start end rest (suc n) made' s'

unfoldable pub all_true : Map String Bool → Bool
all_true [] = true
all_true ((id, ack) ∷ m) = let rest = all_true m in if ack then rest else false

unfoldable pub all_acknowledged : Map String Bool → Bool
unfolding all_true
all_acknowledged [] = false
all_acknowledged (a ∷ m) = all_true (a ∷ m)

unfoldable pub remove_task : ℕ → List JobTask → List JobTask
remove_task id [] = []
remove_task id (task ∷ tasks) =
    let rest = remove_task id tasks in if task.task_id == id then tasks else task ∷ rest

-- `sendAckToLeader`: false for an error. The leader is worker 1.
unfoldable pub send_ack_to_leader : Env → JobTask → Sender → Bool
send_ack_to_leader env task s = elim (lookup 1 s.worker_conns) [
  | none ↦ false
  | some conn ↦ env.notified s.calls task.task_id
]

unfoldable pub finish_task : Env → JobTask → Sender → Sender
unfolding send_ack_to_leader remove_task
finish_task env task s =
    if send_ack_to_leader env task s
    then record s {
      notices = s.notices ++ task.task_id ∷ [];
      task_queue = remove_task task.task_id s.task_queue;
    }
    else s

-- A key that is missing in a map of numbers gives 0.
abbrev pub or_zero : Option ℕ → ℕ
or_zero none = 0
or_zero (some n) = n

abbrev pub count_of : String → Sender → ℕ
count_of id s = or_zero (lookup id s.retry_counts)

-- The body of the loop of `ResendUnackedTuples` over the tuples: whether the tuple stays.
unfoldable pub retry : Env → Tuple → Option ℕ → Sender → Bool × Sender
unfolding send_tuple
retry env t conn s =
    let id = t.tuple_id in
    let ack = (send_tuple env s.calls t conn).0 in
    let count = count_of id s + 1 in
    let sent : Sender = record s {
      tuple_ack_map = insert id ack s.tuple_ack_map;
      calls = s.calls + 1;
    } in
    let counted : Sender = record sent { retry_counts = insert id count s.retry_counts } in
    if ack
    then (false, record sent { retry_counts = erase id s.retry_counts })
    else if leb (max_retry_count + 1) count
    then (false, record counted { retry_counts = erase id counted.retry_counts })
    else (true, counted)

-- The loop: the tuples that stay, and `allMaxRetriesReached`.
unfoldable pub retry_all : Env → JobTask → List Tuple → Sender → Option (List Tuple × Bool × Sender)
unfolding get_receiver_by_tuple retry
retry_all env task [] s = some ([], true, s)
retry_all env task (t ∷ ts) s = do
  conn ← get_receiver_by_tuple env t task s
  (kept, reached, s') ← retry_all env task ts (retry env t conn s).1
  some (if (retry env t conn s).0 then (t ∷ kept, false, s') else (kept, reached, s'))

-- One pass over the tuples, with `allMaxRetriesReached`.
unfoldable pub resend_round : Env → JobTask → Sender → Option (Bool × Sender)
unfolding retry_all
resend_round env task s = do
  (kept, reached, s') ← retry_all env task s.unacked_tuples s
  some (reached, record s' { unacked_tuples = kept })

-- The rounds of `ResendUnackedTuples`; `none` is a panic, or that the fuel is used up.
unfoldable pub resend_unacked_tuples : Env → ℕ → Sender → Option Sender
resend_unacked_tuples env zero s = none
resend_unacked_tuples env (suc fuel) s = elim (last s.task_queue) [
  | none ↦ some s
  | some task ↦ elim s.unacked_tuples [
    | [] ↦ some (finish_task env task s)
    | t ∷ ts ↦ do
      (reached, tried) ← resend_round env task s
      let rest = resend_unacked_tuples env fuel tried
      if reached then some (finish_task env task tried) else rest
  ]
]

-- The start of `PerformTask`.
unfoldable pub accept_task : JobTask → Sender → Sender
accept_task task s = record s {
  output_map = [];
  unacked_tuples = [];
  retry_counts = [];
  output_partition_map = task.parent_job.output_partitions;
  task_queue = s.task_queue ++ task ∷ [];
}

-- `PerformTask` for a task of stage 1, whose input file has these lines, or could not be fetched.
unfoldable pub perform_task_1 :
    Env → ℕ → JobTask → String → Option (List String) → Sender → Option Sender
unfolding accept_task perform_lines all_acknowledged finish_task resend_unacked_tuples
perform_task_1 env fuel task file input s = elim input [
  | none ↦ some (accept_task task s)
  | some lines ↦ do
    p ← get_elem? task.parent_job.input_partitions task.partition
    s' ← perform_lines env task file p.start p.last lines 0 0 (accept_task task s)
    if all_acknowledged s'.tuple_ack_map
        then some (finish_task env task s')
        else resend_unacked_tuples env fuel s'
]

-- `UpdateTask`: the updated task replaces each one with its id, and the map of the receivers is
-- that of its job.
unfoldable pub replace_task : JobTask → List JobTask → Bool × List JobTask
replace_task updated [] = (false, [])
replace_task updated (task ∷ tasks) =
    let (found, rest) = replace_task updated tasks in
    if task.task_id == updated.task_id then (true, updated ∷ rest) else (found, task ∷ rest)

unfoldable pub update_task : JobTask → Sender → Bool × Sender
unfolding replace_task
update_task updated s =
    let (found, queue) = replace_task updated s.task_queue in
    if found
    then (
      true,
      record s { task_queue = queue; output_partition_map = updated.parent_job.output_partitions },
    )
    else (false, s)
