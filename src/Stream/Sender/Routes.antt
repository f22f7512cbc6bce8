-- ===== src/Stream/Sender/Routes.antt =====
-- What `UpdateTask` does to the routes of the tuples.
use rain_strom_distributed_s.Prelude.{
  ℕ, ◌≡◌, refl, sym, ap, ◌∙◌, arith, true, some, List, [], ◌∷◌, lookup, nat_eq, string_eq,
  if◌then◌else◌, ◌==◌, Has, Bool-cases, inl, inr, ℤ, pos, negsuc, map,
}
use rain_strom_distributed_s.Stream.Tuples.{Tuple}
use rain_strom_distributed_s.Stream.Network.{
  JobTask, Env, Sender, hash_key, receiver_worker_id, conn_of, get_receiver_by_tuple,
}
use rain_strom_distributed_s.Stream.Sender.{replace_task, update_task}

-- The queue with each task of the id replaced.
abbrev pub replaced : JobTask → List JobTask → List JobTask
replaced updated = map (λ task. if task.task_id == updated.task_id then updated else task)

replace_task-found :
    (updated : JobTask) (queue : List JobTask) (task : JobTask)
    → Has task queue
    → task.task_id ≡ updated.task_id
    → (replace_task updated queue).0 ≡ true
unfolding replace_task
replace_task-found updated [] task h e = absurd h
replace_task-found updated (t ∷ ts) task h e = elim (Bool-cases (t.task_id == updated.task_id)) [
  | inl q ↦ rw (replace_task, q) refl
  | inr q ↦
      let more : Has task ts = elim h [
        | inl x ↦
            let same : t.task_id ≡ updated.task_id = ap (λ y. y.task_id) (sym x) ∙ e in
            absurd (ground (arith, q, same))
        | inr x ↦ x
      ] in
      rw (replace_task, q) (replace_task-found updated ts task more e)
]

replace_task-replaced :
    (updated : JobTask) (queue : List JobTask)
    → (replace_task updated queue).1 ≡ replaced updated queue
unfolding replace_task
replace_task-replaced updated [] = refl
replace_task-replaced updated (t ∷ ts) = elim (Bool-cases (t.task_id == updated.task_id)) [
  | inl q ↦ rw (replace_task, q) (ap (λ l. updated ∷ l) (replace_task-replaced updated ts))
  | inr q ↦ rw (replace_task, q) (ap (λ l. t ∷ l) (replace_task-replaced updated ts))
]

-- When a worker has a task with the id of the updated one: `UpdateTask` answers that it was found,
-- puts the updated task in the place of each task with its id, and changes nothing else but the map
-- of the receivers; and from then on a tuple with a key whose hash the updated job's map has, one
-- that waits for an acknowledgment included, goes over the connection to the worker of that entry.
pub update_task-routes :
    (env : Env) (updated task : JobTask) (s : Sender)
    → Has task s.task_queue
    → task.task_id ≡ updated.task_id
    → (s' : Sender) × (update_task updated s ≡ (true, s'))
      × (s' ≡ record s {
        task_queue = replaced updated s.task_queue;
        output_partition_map = updated.parent_job.output_partitions;
      })
      × ((t : Tuple) (any : JobTask) (k : ℕ) (w : ℤ)
          → hash_key env t.key any.parent_job.num_tasks ≡ some k
          → lookup k updated.parent_job.output_partitions ≡ some w
          → get_receiver_by_tuple env t any s' ≡ some (conn_of w s))
unfolding update_task get_receiver_by_tuple receiver_worker_id
update_task-routes env updated task s h e =
    let found = replace_task-found updated s.task_queue task h e in
    let queue = replace_task-replaced updated s.task_queue in
    let s' : Sender = record s {
      task_queue = (replace_task updated s.task_queue).1;
      output_partition_map = updated.parent_job.output_partitions;
    } in
    (
      s',
      rw (update_task, found) refl,
      ap
          (λ q. record s {
            task_queue = q;
            output_partition_map = updated.parent_job.output_partitions;
          })
          queue,
      (λ t any k w hash there.
          rw (get_receiver_by_tuple, hash, receiver_worker_id, there)
            (route (replace_task updated s.task_queue).1 w)),
    )
  where
    route :
        (queue : List JobTask) (w : ℤ)
        → some (
            conn_of w (record s {
              task_queue = queue;
              output_partition_map = updated.parent_job.output_partitions;
            }))
          ≡ some (conn_of w s)
    route queue (pos w) = refl
    route queue (negsuc w) = refl
