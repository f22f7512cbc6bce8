-- ===== src/Stream/Recovery.antt =====
-- Stream/leader.go and Stream/utils-leader.go, when a worker fails or joins: its task goes to
-- another worker, and the tasks that send to it are updated. `none` is a panic. The order in which
-- Go ranges over a map is an argument, a list of its keys.
pub mod Place
pub mod Updates
pub mod Reroute
pub mod Again
use rain_strom_distributed_s.Prelude.{
  ℕ, zero, suc, ◌+◌, Bool, true, false, Option, none, some, List, [], ◌∷◌, ◌++◌, if◌then◌else◌,
  ◌==◌, ◌>>=◌, get_elem?, modify, Map, lookup, insert, nat_eq, integer_eq, int_eq, ℤ, pos, negsuc,
}
use rain_strom_distributed_s.Membership.Types.{MembershipList}
use rain_strom_distributed_s.Hydfs.Routing.{get_node_ids_of_file}
use rain_strom_distributed_s.Stream.Leader.{
  TaskType, Task, Worker, Leader, Orders, assign_to_preferred_worker, assign_to_available_worker,
}
use rain_strom_distributed_s.Stream.Leader.TaskType.{task_1, task_2}

abbrev pub worker_at : ℤ → Map ℕ Worker → Option Worker
worker_at (pos w) workers = lookup w workers
worker_at (negsuc w) workers = none

unfoldable pub has_parent : List ℕ → ℕ → Bool
has_parent [] task = false
has_parent (r ∷ rs) task = let rest = has_parent rs task in if r == task then true else rest

-- The loop of `getSenderWorkersForFailedNode` over the keys of `StageTasksWorkerMap`; it prints a
-- field of each worker that it meets, which panics for one that is not there.
unfoldable pub get_sender_workers : List ℕ → ℤ → Leader → Option (List ℤ)
unfolding int_eq
get_sender_workers [] failed l = some []
get_sender_workers (k ∷ ks) failed l =
    let rest = get_sender_workers ks failed l in
    elim (lookup k l.workers) [
      | none ↦ none
      | some w ↦ elim (lookup k l.stage_tasks) [
        | none ↦ rest
        | some senders ↦ if int_eq (pos k) failed then some senders else rest
      ]
    ]

-- `getPartitionForFailedNode`, which is -1 where there is none. The caller writes an entry for this
-- key too, and a later search can find that one.
unfoldable pub get_partition : List ℤ → ℤ → Map ℤ ℤ → ℤ
unfolding int_eq
get_partition [] failed parts = negsuc 0
get_partition (hash ∷ hashes) failed parts =
    let rest = get_partition hashes failed parts in
    elim (lookup hash parts) [
      | none ↦ rest
      | some receiver ↦ if int_eq receiver failed then hash else rest
    ]

-- The loop of `updateSenderWorkersForFailedNode` over the queue of a sender.
unfoldable pub update_queue : ℤ → ℤ → List ℕ → Leader → Option Leader
unfolding has_parent
update_queue hash worker [] l = some l
update_queue hash worker (task ∷ tasks) l =
    let rest = update_queue hash worker tasks (record l {
      output_partitions = insert hash worker l.output_partitions;
      updated = l.updated ++ task ∷ [];
    }) in
    if has_parent l.sent task then rest else none

unfoldable pub update_senders : ℤ → ℤ → List ℤ → Leader → Option Leader
unfolding update_queue
update_senders hash worker [] l = some l
update_senders hash worker (sender ∷ senders) l = do
  w ← worker_at sender l.workers
  l' ← update_queue hash worker w.task_queue l
  update_senders hash worker senders l'

-- The orders of the two maps, and of the workers.
pub record Ranges : Type 0 where
  pub stages : List ℕ
  pub hashes : List ℤ
  pub places : Orders

unfoldable pub update_sender_workers_for_failed_node : Ranges → ℤ → ℤ → Leader → Option Leader
unfolding get_sender_workers get_partition update_senders
update_sender_workers_for_failed_node o worker failed l = do
  senders ← get_sender_workers o.stages failed l
  update_senders (get_partition o.hashes failed l.output_partitions) worker senders l

-- The part of `RescheduleSplitTask` that finds a worker: whether it did. The files are looked up
-- with the number of the partition.
unfoldable pub place_again : Ranges → MembershipList → ℕ → ℕ → Leader → Option (Bool × Leader)
unfolding assign_to_preferred_worker assign_to_available_worker
place_again o list partition task l = do
  files ← get_node_ids_of_file partition list
  some (elim (assign_to_preferred_worker o.places.preferred files task l) [
    | some w ↦ (true, w)
    | none ↦ elim (assign_to_available_worker o.places.idle o.places.room task l) [
      | some w ↦ (true, w)
      | none ↦ (false, record l { task_queue = l.task_queue ++ task ∷ [] })
    ]
  ])

abbrev pub send_task : ℕ → Leader → Leader
send_task task l = record l { sent = l.sent ++ task ∷ [] }

-- `RescheduleSplitTask`. It puts the senders that it read from `StageTasksWorkerMap` back to the
-- same entry, which changes nothing, and prints a field of the parent job, which panics for a task
-- that was never sent.
unfoldable pub reschedule_split_task : Ranges → MembershipList → ℕ → Leader → Option Leader
unfolding has_parent place_again
reschedule_split_task o list task l = do
  t ← get_elem? l.tasks task
  let reset : Leader = record l {
    tasks = modify l.tasks task (λ x. record x { worker_id = negsuc 0 });
  }
  (assigned, placed) ← place_again o list t.partition task reset
  t' ← get_elem? placed.tasks task
  let updated : Option Leader = elim t.task_type [
    | task_1 ↦ some placed
    | task_2 ↦ update_sender_workers_for_failed_node o t'.worker_id t.worker_id placed
  ]
  let sent = do l' ← updated; some (send_task task l')
  if has_parent l.sent task then if assigned then sent else some placed else none

-- The loop of `handleWorkerFailure` over the keys of `TaskMap`, which stops at the first task.
unfoldable pub task_of_worker : List ℕ → ℕ → Leader → Option ℕ
unfolding int_eq
task_of_worker [] worker l = none
task_of_worker (id ∷ ids) worker l =
    let rest = task_of_worker ids worker l in
    elim (lookup id l.task_map) [
      | none ↦ rest
      | some none ↦ rest
      | some (some r) ↦ elim (get_elem? l.tasks r) [
        | none ↦ rest
        | some t ↦ if int_eq t.worker_id (pos worker) then some r else rest
      ]
    ]

unfoldable pub handle_worker_failure : Ranges → List ℕ → MembershipList → ℕ → Leader → Option Leader
unfolding task_of_worker reschedule_split_task
handle_worker_failure o ids list zero l = none
handle_worker_failure o ids list (suc worker) l = do
  w ← lookup worker l.workers
  elim (task_of_worker ids worker l) [
    | none ↦ some l
    | some task ↦ reschedule_split_task o list task l
  ]

-- What `getFailedNodeSignal` does when it takes a node from the channel, before the timeout, and
-- `getJoinedNodeSignal`.
unfoldable pub note_failed : ℕ → Leader → Option Leader
note_failed zero l = none
note_failed (suc worker) l = do
  w ← lookup worker l.workers
  some (record l {
    workers = insert worker (record w { is_alive = false; task_queue = [] }) l.workers;
    failed_nodes = l.failed_nodes ++ suc worker ∷ [];
  })

unfoldable pub note_joined : ℕ → Leader → Option Leader
note_joined zero l = none
note_joined (suc worker) l = do
  w ← lookup worker l.workers
  some (record l { workers = insert worker (record w { is_alive = true }) l.workers })

-- After the timeout each failed node is handled by a goroutine of its own; here they run one after
-- the other.
unfoldable pub handle_failures : Ranges → List ℕ → MembershipList → List ℕ → Leader → Option Leader
unfolding handle_worker_failure
handle_failures o ids list [] l = some (record l { failed_nodes = [] })
handle_failures o ids list (node ∷ nodes) l = do
  l' ← handle_worker_failure o ids list node l
  handle_failures o ids list nodes l'
