-- ===== src/Witnesses/Stream.antt =====
-- The theorems on the leader at work on small jobs.
use rain_strom_distributed_s.Prelude.{
  none, string_eq, if◌then◌else◌, ℕ, ◌<◌, ◌≡◌, refl, arith, Bool, true, false, some, [], ◌∷◌,
  length, get_elem?, lookup, nat_eq, pos,
}
use rain_strom_distributed_s.Stream.Partition.{Partition, partition_input_data}
use rain_strom_distributed_s.Stream.Partition.Cover.{HasLine, partitions-cover}
use rain_strom_distributed_s.Stream.Leader.{TaskType, Task, Worker, Leader, Orders, assign_tasks}
use rain_strom_distributed_s.Stream.Tuples.{Tuple, World, Receiver, Response, exchange}
use rain_strom_distributed_s.Stream.Tuples.Once.{
  IsOnce, receive_all, receive_all-IsOnce, failed_tuple-lost,
}
use rain_strom_distributed_s.Stream.Leader.Capacity.{IsBounded, assign_tasks-IsBounded}

partitions-cover_example :
    (length (partition_input_data "f.csv" 10 3) ≡ 3)
    × ((line : ℕ)
        → line < 10
        → (i : ℕ) × (p : Partition) × (get_elem? (partition_input_data "f.csv" 10 3) i ≡ some p)
          × HasLine line p
          × ((j : ℕ) (q : Partition)
              → get_elem? (partition_input_data "f.csv" 10 3) j ≡ some q
              → HasLine line q
              → j ≡ i))
    × ((line j : ℕ) (q : Partition)
        → get_elem? (partition_input_data "f.csv" 10 3) j ≡ some q
        → HasLine line q
        → line < 10)
partitions-cover_example = partitions-cover "f.csv" 10 3 (omega arith)

abbrev worker : ℕ → Bool → Worker
worker id alive = record { id = id; is_alive = alive; task_queue = [] }

abbrev leader : Bool → Leader
leader alive = record {
  workers = (0, worker 0 alive) ∷ (1, worker 1 alive) ∷ [];
  tasks = [];
  task_map = [];
  task_queue = [];
  completed_task = [];
  job_tasks = [];
  assigned_tasks = [];
  output_partitions = [];
  sent = [];
  stage_tasks = [];
  updated = [];
  told = [];
  failed_nodes = [];
}

abbrev orders : ℕ → Orders
orders i = record { preferred = 0 ∷ 1 ∷ []; idle = 1 ∷ 0 ∷ []; room = 0 ∷ 1 ∷ [] }

assign_tasks-IsBounded_example :
    IsBounded (assign_tasks orders orders (2 ∷ []) 2 (leader true)).workers
assign_tasks-IsBounded_example =
    assign_tasks-IsBounded orders orders (2 ∷ []) 2 (leader true) (omega arith, (omega arith, tt))

abbrev task : Task
task = record { task_id = 1; partition = 0; task_type = TaskType.task_1; worker_id = pos 0 }

abbrev busy : Leader
busy = record (leader true) {
  workers = (0, record { id = 0; is_alive = true; task_queue = 0 ∷ [] }) ∷ [];
  tasks = task ∷ [];
  task_map = (1, some 0) ∷ [];
  assigned_tasks = 0 ∷ [];
}

found : lookup 1 busy.task_map ≡ some (some 0)
unfolding lookup
found = refl

abbrev world : Bool → World
world works = record {
  opens_aol = true;
  execute = λ t. if works then some t.value else none;
  writes_data = λ id. true;
  writes_aol = λ id. true;
}

abbrev tuple : Tuple
tuple = record { tuple_id = "j_1_4"; key = "word"; value = 2 }

abbrev receiver : Receiver
receiver = record {
  aol = [];
  queue = 3 ∷ [];
  output_map = [];
  written = [];
  aol_file = [];
  processed_ids = [];
}

receive_all-IsOnce_example :
    IsOnce (receive_all ((world true, tuple) ∷ (world true, tuple) ∷ []) receiver)
receive_all-IsOnce_example =
    receive_all-IsOnce ((world true, tuple) ∷ (world true, tuple) ∷ []) receiver (tt, tt)

not_noted : lookup tuple.tuple_id receiver.aol ≡ none
unfolding lookup
not_noted = refl

failed_tuple-lost_example :
    (s : Receiver) × (exchange (world false) tuple receiver ≡ (s, Response.fail))
    × (exchange (world true) tuple s ≡ (s, Response.completed))
    × (s.written ≡ [])
    × (s.output_map ≡ [])
failed_tuple-lost_example =
    failed_tuple-lost (world false) (world true) tuple receiver 3 [] refl refl not_noted refl refl
