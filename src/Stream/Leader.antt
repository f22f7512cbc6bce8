-- ===== src/Stream/Leader.antt =====
-- Stream/leader.go, Stream/utils-leader.go, Stream/models/models.go: the leader's tasks and
-- workers. Queues and maps hold pointers to tasks, so a task is an address in `tasks`. The order in
-- which Go ranges over `Workers` is an argument. A leader has one job at a time, whose list in
-- `JobTaskMap` is `job_tasks`; locks and the printing are left out.
pub mod Capacity
pub mod Queueing
pub mod Completion
use rain_strom_distributed_s.Prelude.{
  ℕ, zero, suc, ◌+◌, ◌*◌, Bool, true, false, ◌&&◌, Option, none, some, List, [], ◌∷◌, ◌++◌,
  if◌then◌else◌, ◌==◌, ltb, ◌>>=◌, drop, map, length, get_elem?, modify, Map, nat_eq, integer_eq,
  lookup, insert, ℤ, pos, negsuc,
}
use rain_strom_distributed_s.Membership.Types.{MembershipList}
use rain_strom_distributed_s.Hydfs.Routing.{get_node_ids_of_file}

pub data TaskType : Type 0 where
  task_1 task_2 : TaskType

pub record Task : Type 0 where
  pub task_id : ℕ
  pub partition : ℕ
  pub task_type : TaskType
  pub worker_id : ℤ

pub record Worker : Type 0 where
  pub id : ℕ
  pub is_alive : Bool
  pub task_queue : List ℕ

-- `task_map` has an empty entry where `MarkTaskCompleted` put nil. `output_partitions` and
-- `stage_tasks`, the `StageTasksWorkerMap`, are those of the one job. `sent` are the calls of
-- `SendTaskToWorker`: exactly these tasks have the job as their parent. `updated` are the calls of
-- `MulticastUpdatedTask`, and `told` the receivers' tasks whose end was announced.
pub record Leader : Type 0 where
  pub workers : Map ℕ Worker
  pub tasks : List Task
  pub task_map : Map ℕ (Option ℕ)
  pub task_queue : List ℕ
  pub completed_task : List ℕ
  pub job_tasks : List ℕ
  pub assigned_tasks : List ℕ
  pub output_partitions : Map ℤ ℤ
  pub sent : List ℕ
  pub stage_tasks : Map ℕ (List ℤ)
  pub updated : List ℕ
  pub told : List ℕ
  pub failed_nodes : List ℕ

abbrev pub max_task_per_node : ℕ
max_task_per_node = 10

abbrev pub num_of_tasks_per_job : ℕ
num_of_tasks_per_job = 2

unfoldable pub contains_file : List ℕ → ℕ → Bool
contains_file [] item = false
contains_file (v ∷ vs) item =
    let rest = contains_file vs item in if v == item + 1 then true else rest

-- The first worker of the order that passes a test on its key and itself.
unfoldable pub first_worker : (ℕ → Worker → Bool) → List ℕ → Map ℕ Worker → Option ℕ
first_worker test [] workers = none
first_worker test (k ∷ ks) workers =
    let rest = first_worker test ks workers in
    elim (lookup k workers) [ none ↦ rest | some w ↦ if test k w then some k else rest ]

abbrev pub is_idle : Worker → Bool
is_idle w = w.is_alive && length w.task_queue == 0

abbrev pub has_room : Worker → Bool
has_room w = w.is_alive && ltb (length w.task_queue) max_task_per_node

-- The body of the `if` in these loops: the task goes to the worker.
unfoldable pub give : ℕ → ℕ → Leader → Leader
give task key l = elim (lookup key l.workers) [
  | none ↦ l
  | some w ↦ record l {
    workers = insert key (record w { task_queue = w.task_queue ++ task ∷ [] }) l.workers;
    tasks = modify l.tasks task (λ t. record t { worker_id = pos w.id });
  }
]

-- `none` where the Go function returns false.
unfoldable pub assign_to_preferred_worker : List ℕ → List ℕ → ℕ → Leader → Option Leader
unfolding first_worker give contains_file
assign_to_preferred_worker order files task l = do
  key ←
      first_worker (λ k w. w.is_alive && ltb (length w.task_queue) 1 && contains_file files k) order
        l.workers
  some (give task key l)

-- The first loop takes an idle worker, the second one with room. Each has its order.
unfoldable pub assign_to_available_worker : List ℕ → List ℕ → ℕ → Leader → Option Leader
unfolding first_worker give
assign_to_available_worker order order' task l =
    elim (first_worker (λ k w. is_idle w) order l.workers) [
      | some key ↦ some (give task key l)
      | none ↦ do key ← first_worker (λ k w. has_room w) order' l.workers; some (give task key l)
    ]

-- The orders of the three loops.
pub record Orders : Type 0 where
  pub preferred : List ℕ
  pub idle : List ℕ
  pub room : List ℕ

abbrev pub new_task : ℕ → TaskType → Leader → Leader
new_task part kind l = record l {
  tasks =
      l.tasks
      ++ (record {
        task_id = length l.task_map + 1;
        partition = part;
        task_type = kind;
        worker_id = pos 0;
      })
        ∷ [];
}

-- The first loop of `AssignTasks`, for the rounds that are left, with the flag `assigned`. `files`
-- are the nodes of the input file.
unfoldable pub assign_stage_1 : (ℕ → Orders) → List ℕ → ℕ → ℕ → Bool → Leader → Bool × Leader
unfolding assign_to_preferred_worker assign_to_available_worker
assign_stage_1 orders files zero i assigned l = (assigned, l)
assign_stage_1 orders files (suc k) i assigned l =
    let task = length l.tasks in
    let id = length l.task_map + 1 in
    let o = orders i in
    let l' = new_task i TaskType.task_1 l in
    let l'' = record l' { job_tasks = l'.job_tasks ++ task ∷ [] } in
    let queued =
      assign_stage_1 orders files k (suc i) false
        (record l'' { task_queue = l''.task_queue ++ task ∷ [] }) in
    let placed : Leader → Bool × Leader = λ w.
      assign_stage_1 orders files k (suc i) assigned (record w {
        task_map = insert id (some task) w.task_map;
        assigned_tasks = w.assigned_tasks ++ task ∷ [];
      }) in
    elim (assign_to_preferred_worker o.preferred files task l'') [
      | some w ↦ placed w
      | none ↦ elim (assign_to_available_worker o.idle o.room task l'') [
        | some w ↦ placed w
        | none ↦ queued
      ]
    ]

abbrev pub worker_of : List Task → ℕ → ℤ
worker_of tasks r = elim (get_elem? tasks r) [ none ↦ pos 0 | some t ↦ t.worker_id ]

-- `StageTasksWorkerMap[worker].PrevWorkers = prevWorkers`. No worker of stage 2 has a negative id.
abbrev pub note_senders : ℤ → List ℤ → Map ℕ (List ℤ) → Map ℕ (List ℤ)
note_senders (pos w) prev_workers m = insert w prev_workers m
note_senders (negsuc w) prev_workers m = m

-- The second loop of `AssignTasks`, with the workers of the tasks of stage 1.
unfoldable pub assign_stage_2 : (ℕ → Orders) → List ℤ → ℕ → ℕ → Leader → Leader
unfolding assign_to_available_worker
assign_stage_2 orders prev_workers zero i l = l
assign_stage_2 orders prev_workers (suc k) i l =
    let task = length l.tasks in
    let id = length l.task_map + 1 in
    let o = orders i in
    let l' = new_task 0 TaskType.task_2 l in
    let w : Leader = elim (assign_to_available_worker o.idle o.room task l') [
      | some w ↦ w
      | none ↦ record l' { task_queue = l'.task_queue ++ task ∷ [] }
    ] in
    let worker = worker_of w.tasks task in
    assign_stage_2 orders prev_workers k (suc i) (record w {
      task_map = insert id (some task) w.task_map;
      output_partitions = insert (pos i) worker w.output_partitions;
      stage_tasks = note_senders worker prev_workers w.stage_tasks;
      job_tasks = w.job_tasks ++ task ∷ [];
      assigned_tasks = w.assigned_tasks ++ task ∷ [];
    })

abbrev pub is_empty : List ℕ → Bool
is_empty [] = true
is_empty (x ∷ xs) = false

-- `AssignTasks`: the nodes of the file are looked up in each round, on the same list of members.
-- `prevWorkers` are the workers of the tasks that the first loop has put behind the assigned ones.
unfoldable pub assign_tasks : (ℕ → Orders) → (ℕ → Orders) → List ℕ → ℕ → Leader → Leader
unfolding assign_stage_1 assign_stage_2
assign_tasks orders orders' files num_tasks l =
    let (assigned, w) = assign_stage_1 orders files num_tasks 0 true l in
    let placed = drop (length l.assigned_tasks) w.assigned_tasks in
    let done = assign_stage_2 orders' (map (worker_of w.tasks) placed) num_tasks 0 w in
    if is_empty w.assigned_tasks
    then w
    else if assigned
    then record done { sent = done.sent ++ done.assigned_tasks }
    else w

-- `RemoveTaskFromWorkerQueue`: the first task in the worker's queue with the id.
unfoldable pub remove_first : List Task → ℕ → List ℕ → List ℕ
remove_first tasks id [] = []
remove_first tasks id (r ∷ rs) = elim (get_elem? tasks r) [
  | none ↦ r ∷ remove_first tasks id rs
  | some t ↦ if t.task_id == id then rs else r ∷ remove_first tasks id rs
]

unfoldable pub remove_task_from_worker_queue : ℤ → ℕ → Leader → Leader
unfolding remove_first
remove_task_from_worker_queue (negsuc n) id l = l
remove_task_from_worker_queue (pos key) id l = elim (lookup key l.workers) [
  | none ↦ l
  | some w ↦ record l {
    workers = insert key (record w { task_queue = remove_first l.tasks id w.task_queue }) l.workers;
  }
]

unfoldable pub mark_task_completed : ℕ → Leader → Leader
unfolding remove_task_from_worker_queue
mark_task_completed id l =
    let l' = record l { task_map = insert id none l.task_map } in
    elim (lookup id l.task_map) [
      | none ↦ l'
      | some none ↦ l'
      | some (some task) ↦ elim (get_elem? l.tasks task) [
        | none ↦ l'
        | some t ↦
            let w = remove_task_from_worker_queue t.worker_id id l' in
            record w { completed_task = w.completed_task ++ task ∷ [] }
      ]
    ]

abbrev pub id_of : List Task → ℕ → ℕ
id_of tasks r = elim (get_elem? tasks r) [ none ↦ 0 | some t ↦ t.task_id ]

unfoldable pub check_if_task_completed : List Task → List ℕ → ℕ → Bool
check_if_task_completed tasks [] task = false
check_if_task_completed tasks (r ∷ rs) task =
    let rest = check_if_task_completed tasks rs task in
    if id_of tasks r == id_of tasks task then true else rest

-- The loop of `checkIfAllSenderCompleted` over the first assigned tasks.
unfoldable pub all_completed : List Task → List ℕ → List ℕ → ℕ → Bool
unfolding check_if_task_completed
all_completed tasks completed assigned zero = true
all_completed tasks completed [] (suc n) = false
all_completed tasks completed (r ∷ rs) (suc n) =
    let rest = all_completed tasks completed rs n in
    if check_if_task_completed tasks completed r then rest else false

unfoldable pub check_if_all_sender_completed : Leader → Bool
unfolding all_completed
check_if_all_sender_completed l =
    if length l.completed_task == num_of_tasks_per_job
    then if ltb (length l.assigned_tasks) num_of_tasks_per_job
      then false
      else all_completed l.tasks l.completed_task l.assigned_tasks num_of_tasks_per_job
    else false
