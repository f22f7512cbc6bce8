-- ===== src/Stream/Progress.antt =====
-- Stream/leader.go and Stream/utils-leader.go: the start of the leader and of a job, what the
-- leader does when a task is reported as done, and the rounds in which it looks for the end of the
-- job. `none` is a panic. Which workers it is connected to, and which calls succeed, are arguments.
pub mod Complete
pub mod Ends
use rain_strom_distributed_s.Prelude.{
  ℕ, zero, suc, ◌+◌, ◌*◌, Bool, true, false, Option, none, some, List, [], ◌∷◌, ◌++◌, map,
  if◌then◌else◌, ◌==◌, ◌>>=◌, get_elem?, Map, insert, nat_eq, ℤ, pos, negsuc,
}
use rain_strom_distributed_s.Stream.Leader.{
  Task, Worker, Leader, Orders, worker_of, id_of, is_empty, assign_tasks, num_of_tasks_per_job,
  mark_task_completed, check_if_task_completed, check_if_all_sender_completed,
}

abbrev pub worker_count : ℕ
worker_count = 10

-- The workers with the numbers below `n`, none of them alive.
unfoldable pub idle_workers : ℕ → ℕ → Map ℕ Worker
idle_workers zero i = []
idle_workers (suc n) i =
    (i, record { id = i; is_alive = false; task_queue = [] }) ∷ idle_workers n (suc i)

unfoldable pub init_leader_service : Leader
unfolding idle_workers
init_leader_service = record {
  workers = idle_workers worker_count 0;
  tasks = [];
  task_map = [];
  task_queue = [];
  completed_task = [];
  job_tasks = [];
  assigned_tasks = [];
  output_partitions = [];
  sent = [];
  stage_tasks = [];
  updated = [];
  told = [];
  failed_nodes = [];
}

-- `OutputPartitions` as `PartitionInputData` leaves it: no receiver yet for any partition.
unfoldable pub no_receivers : ℕ → ℕ → Map ℤ ℤ
no_receivers zero i = []
no_receivers (suc n) i = (pos i, negsuc 0) ∷ no_receivers n (suc i)

-- The assignments of `CreateJob` before the tasks are assigned, with the maps of the new job.
unfoldable pub start_job : ℕ → Leader → Leader
unfolding no_receivers
start_job num_tasks l = record l {
  task_map = [];
  job_tasks = [];
  assigned_tasks = [];
  completed_task = [];
  workers = map (λ (k, w). (k, record w { task_queue = [] })) l.workers;
  task_queue = [];
  output_partitions = no_receivers num_tasks 0;
  stage_tasks = [];
  sent = [];
}

-- `CreateJob`, up to the start of the monitor; `cleared` says whether the file of the log could be
-- truncated.
unfoldable pub create_job : (ℕ → Orders) → (ℕ → Orders) → List ℕ → Bool → ℕ → Leader → Leader
unfolding start_job assign_tasks
create_job orders orders' files cleared num_tasks l =
    if cleared then assign_tasks orders orders' files num_tasks (start_job num_tasks l) else l

-- The loop of `sendAckToReceiver`, for the rounds that are left.
unfoldable pub send_acks : (ℤ → Bool) → (ℕ → Bool) → ℕ → ℕ → Leader → Option Leader
unfolding mark_task_completed
send_acks connected delivers zero i l = some l
send_acks connected delivers (suc k) i l = do
  r ← get_elem? l.assigned_tasks i
  let id = id_of l.tasks r
  let done = mark_task_completed id l
  let told : Leader = if delivers id then record done { told = done.told ++ id ∷ [] } else done
  let rest = send_acks connected delivers k (suc i) told
  if connected (worker_of l.tasks r) then rest else some done

unfoldable pub send_ack_to_receiver : (ℤ → Bool) → (ℕ → Bool) → Leader → Option Leader
unfolding send_acks
send_ack_to_receiver connected delivers l =
    send_acks connected delivers num_of_tasks_per_job num_of_tasks_per_job l

-- `SendNotification` at the leader.
unfoldable pub send_notification : (ℤ → Bool) → (ℕ → Bool) → ℕ → Leader → Option Leader
unfolding mark_task_completed check_if_all_sender_completed send_ack_to_receiver
send_notification connected delivers id l =
    let done = mark_task_completed id l in
    let told = send_ack_to_receiver connected delivers done in
    if check_if_all_sender_completed done then told else some done

-- The inner loop of `MonitorJobCompletion`: the tasks of the job that are not completed.
unfoldable pub open_tasks : List Task → List ℕ → List ℕ → List ℕ
unfolding check_if_task_completed
open_tasks tasks completed [] = []
open_tasks tasks completed (r ∷ rs) =
    let rest = open_tasks tasks completed rs in
    if check_if_task_completed tasks completed r then rest else r ∷ rest

-- One tick of `MonitorJobCompletion`: whether it ends, and the leader after it.
unfoldable pub monitor_tick : Leader → Bool × Leader
unfolding open_tasks
monitor_tick l =
    let left : Leader = record l { job_tasks = open_tasks l.tasks l.completed_task l.job_tasks } in
    if is_empty l.assigned_tasks
    then (false, l)
    else if is_empty left.job_tasks
    then (true, record left { assigned_tasks = []; completed_task = []; job_tasks = [] })
    else (false, left)
