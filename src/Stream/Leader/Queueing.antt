-- ===== src/Stream/Leader/Queueing.antt =====
-- What `AssignTasks` does with tasks for which it finds no worker.
use rain_strom_distributed_s.Prelude.{
  append_assoc, append_nil, ℕ, zero, suc, ◌+◌, ◌≡◌, refl, sym, ◌∙◌, arith, Bool, true, false, ◌&&◌,
  none, some, List, [], ◌∷◌, ◌++◌, ◌==◌, ltb, length, length-append, All, Option-cases, Bool-cases,
  inl, inr, Map, nat_eq, lookup, subst,
}
use rain_strom_distributed_s.Stream.Leader.{
  TaskType, Task, Worker, Leader, contains_file, first_worker, is_idle, has_room,
  assign_to_preferred_worker, assign_to_available_worker, Orders, assign_stage_1, assign_tasks,
  new_task, is_empty,
}

abbrev pub NoneAlive : Map ℕ Worker → Type 0
NoneAlive workers = All (λ p. p.1.is_alive ≡ false) workers

lookup-NoneAlive :
    (k : ℕ) (m : Map ℕ Worker) (w : Worker) → NoneAlive m → lookup k m ≡ some w → w.is_alive ≡ false
unfolding lookup
lookup-NoneAlive k [] w a h = absurd (cc)
lookup-NoneAlive k ((j, v) ∷ m) w a h = elim (Bool-cases (j == k)) [
  | inl q ↦
      let z : some v ≡ some w = rw (q, lookup) at h in
      let e : v ≡ w = cc in subst (λ x. x.is_alive ≡ false) e a.0
  | inr q ↦ lookup-NoneAlive k m w a.1 (rw (q, lookup) at h)
]

first_worker-NoneAlive :
    (test : ℕ → Worker → Bool) (order : List ℕ) (m : Map ℕ Worker)
    → ((k : ℕ) (w : Worker) → w.is_alive ≡ false → test k w ≡ false)
    → NoneAlive m
    → first_worker test order m ≡ none
unfolding first_worker
first_worker-NoneAlive test [] m t a = refl
first_worker-NoneAlive test (k ∷ ks) m t a = elim (Option-cases (lookup k m)) [
  | inl e ↦ rw (first_worker, e) (first_worker-NoneAlive test ks m t a)
  | inr (w, e) ↦
      rw (first_worker, e, t k w (lookup-NoneAlive k m w a e))
        (first_worker-NoneAlive test ks m t a)
]

preferred-none :
    (order files : List ℕ) (task : ℕ) (l : Leader)
    → NoneAlive l.workers
    → assign_to_preferred_worker order files task l ≡ none
unfolding assign_to_preferred_worker
preferred-none order files task l a =
    let e =
      first_worker-NoneAlive
        (λ k w. w.is_alive && ltb (length w.task_queue) 1 && contains_file files k) order l.workers
        (λ k w h. rw h refl) a in
    rw (assign_to_preferred_worker, e) refl

available-none :
    (order order' : List ℕ) (task : ℕ) (l : Leader)
    → NoneAlive l.workers
    → assign_to_available_worker order order' task l ≡ none
unfolding assign_to_available_worker
available-none order order' task l a =
    let e = first_worker-NoneAlive (λ k w. is_idle w) order l.workers (λ k w h. rw h refl) a in
    let f = first_worker-NoneAlive (λ k w. has_room w) order' l.workers (λ k w h. rw h refl) a in
    rw (assign_to_available_worker, e, f) refl

-- The tasks that a loop queues: so many are new, all with one id.
abbrev pub IsQueued : ℕ → Leader → Leader → Type 0
IsQueued n l w =
    (new : List Task) × (w.tasks ≡ l.tasks ++ new)
    × (length new ≡ n)
    × All (λ t. t.task_id ≡ length l.task_map + 1) new
    × (length w.task_queue ≡ length l.task_queue + n)
    × (w.task_map ≡ l.task_map)
    × (w.assigned_tasks ≡ l.assigned_tasks)
    × (w.sent ≡ l.sent)

stage_1-IsQueued :
    (orders : ℕ → Orders) (files : List ℕ) (k i : ℕ) (assigned : Bool) (l : Leader)
    → NoneAlive l.workers
    → IsQueued k l (assign_stage_1 orders files k i assigned l).1
unfolding assign_stage_1
stage_1-IsQueued orders files zero i assigned l a =
    ([], sym (append_nil l.tasks), refl, tt, omega arith, refl, refl, refl)
stage_1-IsQueued orders files (suc k) i assigned l a =
    let task = length l.tasks in
    let l' = new_task i TaskType.task_1 l in
    let l'' : Leader = record l' { job_tasks = l'.job_tasks ++ task ∷ [] } in
    let q : Leader = record l'' { task_queue = l''.task_queue ++ task ∷ [] } in
    let (new, e, n, ids, len, m, as', s) = stage_1-IsQueued orders files k (suc i) false q a in
    rw
      (
        assign_stage_1,
        preferred-none (orders i).preferred files task l'' a,
        available-none (orders i).idle (orders i).room task l'' a,
      )
      (
        _ ∷ new,
        e ∙ append_assoc l.tasks (_ ∷ []) new,
        omega (arith, n),
        (refl, ids),
        omega (arith, len, length-append l.task_queue (task ∷ [])),
        m,
        as',
        s,
      )

-- If no worker is alive and no task is assigned, `AssignTasks` makes all tasks of stage 1 with one
-- and the same id, one more than the size of `TaskMap`, and queues as many at the leader; `TaskMap`
-- and the assigned tasks stay as they are, and nothing is sent.
pub assign_tasks-IsQueued :
    (orders orders' : ℕ → Orders) (files : List ℕ) (n : ℕ) (l : Leader)
    → NoneAlive l.workers
    → l.assigned_tasks ≡ []
    → IsQueued n l (assign_tasks orders orders' files n l)
unfolding assign_tasks
assign_tasks-IsQueued orders orders' files n l a e =
    let q = stage_1-IsQueued orders files n 0 true l a in
    let w = (assign_stage_1 orders files n 0 true l).1 in
    let none_assigned : is_empty w.assigned_tasks ≡ true = rw (q.6, e) refl in
    rw (assign_tasks, none_assigned) q
