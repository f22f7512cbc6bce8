-- ===== src/Witnesses/Recovery.antt =====
-- The theorems on failed workers and on the end of a job at a leader of three workers.
use rain_strom_distributed_s.Prelude.{
  ℕ, ◌≡◌, refl, arith, Bool, true, false, none, some, List, [], ◌∷◌, ◌++◌, lookup, insert, nat_eq,
  get_elem?, All, inl, inr, ◌⊎◌, pos, integer_eq,
}
use rain_strom_distributed_s.Membership.Table.{get_index_of_peer}
use rain_strom_distributed_s.Hydfs.Routing.{get_node_ids_of_file}
use rain_strom_distributed_s.Stream.Leader.{
  TaskType, Task, Worker, Leader, give, check_if_task_completed,
}
use rain_strom_distributed_s.Stream.Recovery.{
  worker_at, has_parent, Ranges, place_again, reschedule_split_task, handle_worker_failure,
}
use rain_strom_distributed_s.Stream.Recovery.Reroute.{IsSent, reset}
use rain_strom_distributed_s.Stream.Recovery.Again.{
  reschedule-unannounced, IsKept, handle_worker_failure-one,
}
use rain_strom_distributed_s.Stream.Progress.{send_notification, monitor_tick}
use rain_strom_distributed_s.Stream.Progress.Complete.{AreOpen, reports}
use rain_strom_distributed_s.Stream.Progress.Ends.{reports-end_job, reports-third_sender}
use rain_strom_distributed_s.Witnesses.Ring.{four}

abbrev worker : ℕ → Bool → List ℕ → Worker
worker id alive queue = record { id = id; is_alive = alive; task_queue = queue }

abbrev task : ℕ → TaskType → ℕ → Task
task id kind w = record { task_id = id; partition = 0; task_type = kind; worker_id = pos w }

-- Worker 1 has failed. It received the tuples of the task 0 of worker 0 for the task 1.
abbrev failed : Leader
failed = record {
  workers = (0, worker 0 true (0 ∷ [])) ∷ (1, worker 1 false []) ∷ (2, worker 2 true []) ∷ [];
  tasks = task 1 TaskType.task_1 0 ∷ task 2 TaskType.task_2 1 ∷ [];
  task_map = (1, some 0) ∷ (2, some 1) ∷ [];
  task_queue = [];
  completed_task = [];
  job_tasks = 0 ∷ 1 ∷ [];
  assigned_tasks = 0 ∷ 1 ∷ [];
  output_partitions = (pos 0, pos 1) ∷ [];
  sent = 0 ∷ 1 ∷ [];
  stage_tasks = (1, pos 0 ∷ []) ∷ [];
  updated = [];
  told = [];
  failed_nodes = [];
}

-- The same, when `StageTasksWorkerMap` has no entry for worker 1.
abbrev failed_again : Leader
failed_again = record failed { stage_tasks = (2, pos 0 ∷ []) ∷ [] }

abbrev ranges : Ranges
ranges = record {
  stages = 1 ∷ [];
  hashes = pos 0 ∷ [];
  places = record { preferred = 0 ∷ 1 ∷ 2 ∷ []; idle = 0 ∷ 1 ∷ 2 ∷ []; room = 0 ∷ 1 ∷ 2 ∷ [] };
}

abbrev placed_in : Leader → Leader
placed_in l = record (reset 1 l) {
  workers = (0, worker 0 true (0 ∷ [])) ∷ (1, worker 1 false []) ∷ (2, worker 2 true (1 ∷ [])) ∷ [];
  tasks = task 1 TaskType.task_1 0 ∷ task 2 TaskType.task_2 2 ∷ [];
}

failed_again-placed :
    place_again ranges four 0 1 (reset 1 failed_again) ≡ some (true, placed_in failed_again)
unfolding place_again get_node_ids_of_file get_index_of_peer give lookup insert
failed_again-placed = refl

abbrev Facts : Leader → Type 0
Facts l =
    (has_parent l.sent 1 ≡ true)
    × IsSent l
    × All (λ k. (w : Worker) × (lookup k l.workers ≡ some w)) (1 ∷ [])
    × (worker_at (pos 0) l.workers ≡ some (worker 0 true (0 ∷ [])))

failed_again-Facts : Facts failed_again
unfolding has_parent lookup
failed_again-Facts = (refl, ((refl, tt), (tt, (tt, tt))), ((worker 1 false [], refl), tt), refl)

no_senders : lookup 1 failed_again.stage_tasks ≡ none
unfolding lookup
no_senders = refl

reschedule-unannounced_example :
    (l' : Leader) × (w : Worker) × (reschedule_split_task ranges four 1 failed_again ≡ some l')
    × (w.is_alive ≡ true)
    × (get_elem? l'.tasks 1 ≡ some (record (task 2 TaskType.task_2 1) { worker_id = pos w.id }))
    × (l'.sent ≡ failed_again.sent ++ 1 ∷ [])
    × (l'.output_partitions ≡ failed_again.output_partitions)
    × (l'.updated ≡ failed_again.updated)
reschedule-unannounced_example =
    reschedule-unannounced ranges four 1 1 (task 2 TaskType.task_2 1) failed_again
      (placed_in failed_again) refl refl refl failed_again-Facts.0 no_senders failed_again-Facts.1
      failed_again-Facts.2 failed_again-placed

-- Both tasks are of stage 1 and belong to worker 1.
abbrev two_at_failed : Leader
two_at_failed = record failed {
  tasks = task 1 TaskType.task_1 1 ∷ task 2 TaskType.task_1 1 ∷ [];
  workers = (0, worker 0 false []) ∷ (1, worker 1 false []) ∷ (2, worker 2 true []) ∷ [];
}

abbrev one_moved : Leader
one_moved = record two_at_failed {
  tasks = task 1 TaskType.task_1 2 ∷ task 2 TaskType.task_1 1 ∷ [];
  workers = (0, worker 0 false []) ∷ (1, worker 1 false []) ∷ (2, worker 2 true (0 ∷ [])) ∷ [];
  sent = 0 ∷ 1 ∷ 0 ∷ [];
}

handled : handle_worker_failure ranges (1 ∷ 2 ∷ []) four 2 two_at_failed ≡ some one_moved
unfolding handle_worker_failure place_again get_node_ids_of_file get_index_of_peer give lookup
    insert
handled = refl

handle_worker_failure-one_example :
    IsKept 0 two_at_failed one_moved ⊎ IsKept 1 two_at_failed one_moved
handle_worker_failure-one_example =
    handle_worker_failure-one ranges (1 ∷ 2 ∷ []) four 2 0 1 two_at_failed one_moved
      (λ e. absurd (cc)) handled

-- A job of two tasks per stage.
abbrev running : Leader
running = record failed {
  workers = (0, worker 0 true (0 ∷ 2 ∷ [])) ∷ (1, worker 1 true (1 ∷ 3 ∷ [])) ∷ [];
  tasks =
      task 1 TaskType.task_1 0
      ∷ task 2 TaskType.task_1 1
      ∷ task 3 TaskType.task_2 0
      ∷ task 4 TaskType.task_2 1
      ∷ [];
  task_map = (1, some 0) ∷ (2, some 1) ∷ (3, some 2) ∷ (4, some 3) ∷ [];
  job_tasks = 0 ∷ 1 ∷ 2 ∷ 3 ∷ [];
  assigned_tasks = 0 ∷ 1 ∷ 2 ∷ 3 ∷ [];
}

running-AreOpen : AreOpen running 0 1 2 3
unfolding lookup
running-AreOpen = (
  (task 1 TaskType.task_1 0, refl, refl),
  (task 2 TaskType.task_1 1, refl, refl),
  (task 3 TaskType.task_2 0, refl, refl),
  (task 4 TaskType.task_2 1, refl, refl),
  (λ e. absurd (omega (arith, e))),
  (λ e. absurd (omega (arith, e))),
  (λ e. absurd (omega (arith, e))),
  (λ e. absurd (omega (arith, e))),
  (λ e. absurd (omega (arith, e))),
  (λ e. absurd (omega (arith, e))),
)

reports-end_job_example :
    (m n : Leader) × (send_notification (λ z. true) (λ id. true) 1 running ≡ some m)
    × ((monitor_tick m).0 ≡ false)
    × (send_notification (λ z. true) (λ id. true) 2 m ≡ some n)
    × (n.completed_task ≡ 0 ∷ 1 ∷ 2 ∷ 3 ∷ [])
    × ((monitor_tick n).0 ≡ true)
reports-end_job_example =
    reports-end_job (λ z. true) (λ id. true) 0 1 2 3 running (λ z. refl) refl refl refl
      running-AreOpen

-- A job of three tasks per stage.
abbrev running_three : Leader
running_three = record running {
  tasks =
      task 1 TaskType.task_1 0
      ∷ task 2 TaskType.task_1 1
      ∷ task 3 TaskType.task_1 0
      ∷ task 4 TaskType.task_2 1
      ∷ task 5 TaskType.task_2 0
      ∷ [];
  job_tasks = 0 ∷ 1 ∷ 2 ∷ 3 ∷ 4 ∷ [];
  assigned_tasks = 0 ∷ 1 ∷ 2 ∷ 3 ∷ 4 ∷ [];
}

three-AreOpen : AreOpen running_three 0 1 2 3
unfolding lookup
three-AreOpen = (
  (task 1 TaskType.task_1 0, refl, refl),
  (task 2 TaskType.task_1 1, refl, refl),
  (task 3 TaskType.task_1 0, refl, refl),
  (task 4 TaskType.task_2 1, refl, refl),
  (λ e. absurd (omega (arith, e))),
  (λ e. absurd (omega (arith, e))),
  (λ e. absurd (omega (arith, e))),
  (λ e. absurd (omega (arith, e))),
  (λ e. absurd (omega (arith, e))),
  (λ e. absurd (omega (arith, e))),
)

reports-third_sender_example :
    (n : Leader) × (reports (λ z. true) (λ id. true) 1 2 running_three ≡ some n)
    × ((u : Task) × (get_elem? n.tasks 2 ≡ some u) × (u.task_type ≡ TaskType.task_1))
    × (check_if_task_completed n.tasks n.completed_task 2 ≡ true)
    × ((monitor_tick n).0 ≡ false)
reports-third_sender_example =
    reports-third_sender (λ z. true) (λ id. true) 0 1 2 3 4 (4 ∷ []) (task 3 TaskType.task_1 0)
      running_three (λ z. refl) refl refl refl refl three-AreOpen (inr (inr (inr (inr (inl refl)))))
      (
        (λ e. absurd (omega (arith, e))),
        (
          (λ e. absurd (omega (arith, e))),
          ((λ e. absurd (omega (arith, e))), ((λ e. absurd (omega (arith, e))), tt)),
        ),
      )
