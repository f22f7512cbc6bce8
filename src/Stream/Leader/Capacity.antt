-- ===== src/Stream/Leader/Capacity.antt =====
-- No worker is given more tasks than `MAX_TASK_PER_NODE`.
use rain_strom_distributed_s.Prelude.{
  ℕ, zero, suc, ◌≤◌, ◌<◌, ◌≡◌, ap, arith, Bool, true, false, ◌&&◌, none, some, List, [], ◌∷◌, ◌++◌,
  ◌==◌, ltb, length, length-append, All, Option-cases, Bool-cases, inl, inr, Map, nat_eq, lookup,
  insert, subst, ℤ,
}
use rain_strom_distributed_s.Stream.Leader.{
  TaskType, Worker, Leader, max_task_per_node, contains_file, first_worker, is_idle, has_room, give,
  assign_to_preferred_worker, assign_to_available_worker, Orders, assign_stage_1, assign_stage_2,
  assign_tasks, new_task, is_empty,
}

abbrev pub IsBounded : Map ℕ Worker → Type 0
IsBounded workers = All (λ p. length p.1.task_queue ≤ max_task_per_node) workers

All-insert :
    (P : ℕ × Worker → Type 0) (k : ℕ) (w : Worker) (m : Map ℕ Worker)
    → ((j : ℕ) → P (j, w))
    → All P m
    → All P (insert k w m)
unfolding insert
All-insert P k w [] p a = (p k, tt)
All-insert P k w ((j, v) ∷ m) p a = elim (Bool-cases (j == k)) [
  | inl q ↦ rw (q, insert) (p j, a.1)
  | inr q ↦ rw (q, insert) (a.0, All-insert P k w m p a.1)
]

pub first_worker-some :
    (test : ℕ → Worker → Bool) (order : List ℕ) (m : Map ℕ Worker) (k : ℕ)
    → first_worker test order m ≡ some k
    → (w : Worker) × (lookup k m ≡ some w) × (test k w ≡ true)
unfolding first_worker
first_worker-some test [] m k h = absurd (cc)
first_worker-some test (j ∷ js) m k h = elim (Option-cases (lookup j m)) [
  | inl e ↦ first_worker-some test js m k (rw (first_worker, e) at h)
  | inr (w, e) ↦ elim (Bool-cases (test j w)) [
    | inl q ↦
        let z : some j ≡ some k = rw (first_worker, e, q) at h in
        let j-k : j ≡ k = cc in
        (w, subst (λ i. lookup i m ≡ some w) j-k e, subst (λ i. test i w ≡ true) j-k q)
    | inr q ↦ first_worker-some test js m k (rw (first_worker, e, q) at h)
  ]
]

give-IsBounded :
    (task key : ℕ) (w : Worker) (l : Leader)
    → lookup key l.workers ≡ some w
    → length w.task_queue < max_task_per_node
    → IsBounded l.workers
    → IsBounded (give task key l).workers
unfolding give
give-IsBounded task key w l e h b =
    rw (e, give)
      (All-insert _ key _ l.workers (λ j. omega (arith, length-append w.task_queue (task ∷ []))) b)

some-IsBounded : (l w : Leader) → some l ≡ some w → IsBounded l.workers → IsBounded w.workers
some-IsBounded l w e b =
    let f : l.workers ≡ w.workers = ap (λ o. elim o [ none ↦ l.workers | some x ↦ x.workers ]) e in
    subst IsBounded f b

preferred-IsBounded :
    (order files : List ℕ) (task : ℕ) (l w : Leader)
    → assign_to_preferred_worker order files task l ≡ some w
    → IsBounded l.workers
    → IsBounded w.workers
unfolding assign_to_preferred_worker
preferred-IsBounded order files task l w h b =
    let test : ℕ → Worker → Bool =
      λ k w. w.is_alive && ltb (length w.task_queue) 1 && contains_file files k in
    elim (Option-cases (first_worker test order l.workers)) [
      | inl e ↦ absurd (cc (rw (assign_to_preferred_worker, e) at h))
      | inr (key, e) ↦
          let z : some (give task key l) ≡ some w = rw (assign_to_preferred_worker, e) at h in
          let (x, f, t) = first_worker-some test order l.workers key e in
          let room : length x.task_queue < max_task_per_node = ground (arith, t) in
          some-IsBounded _ w z (give-IsBounded task key x l f room b)
    ]

available-IsBounded :
    (order order' : List ℕ) (task : ℕ) (l w : Leader)
    → assign_to_available_worker order order' task l ≡ some w
    → IsBounded l.workers
    → IsBounded w.workers
unfolding assign_to_available_worker
available-IsBounded order order' task l w h b =
    elim (Option-cases (first_worker (λ k w. is_idle w) order l.workers)) [
      | inr (key, e) ↦
          let z : some (give task key l) ≡ some w = rw (assign_to_available_worker, e) at h in
          let (x, f, t) = first_worker-some (λ k w. is_idle w) order l.workers key e in
          let room : length x.task_queue < max_task_per_node = ground (arith, t) in
          some-IsBounded _ w z (give-IsBounded task key x l f room b)
      | inl n ↦ elim (Option-cases (first_worker (λ k w. has_room w) order' l.workers)) [
        | inl e ↦ absurd (cc (rw (assign_to_available_worker, n, e) at h))
        | inr (key, e) ↦
            let z : some (give task key l) ≡ some w = rw (assign_to_available_worker, n, e) at h in
            let (x, f, t) = first_worker-some (λ k w. has_room w) order' l.workers key e in
            let room : length x.task_queue < max_task_per_node = ground (arith, t) in
            some-IsBounded _ w z (give-IsBounded task key x l f room b)
      ]
    ]

stage_1-IsBounded :
    (orders : ℕ → Orders) (files : List ℕ) (k i : ℕ) (assigned : Bool) (l : Leader)
    → IsBounded l.workers
    → IsBounded (assign_stage_1 orders files k i assigned l).1.workers
unfolding assign_stage_1
stage_1-IsBounded orders files zero i assigned l b = b
stage_1-IsBounded orders files (suc k) i assigned l b =
    let task = length l.tasks in
    let l' = new_task i TaskType.task_1 l in
    let l'' : Leader = record l' { job_tasks = l'.job_tasks ++ task ∷ [] } in
    elim (Option-cases (assign_to_preferred_worker (orders i).preferred files task l'')) [
      | inr (w, e) ↦
          rw (assign_stage_1, e)
            (stage_1-IsBounded orders files k (suc i) assigned _
              (preferred-IsBounded (orders i).preferred files task l'' w e b))
      | inl n ↦
          elim (Option-cases
            (assign_to_available_worker (orders i).idle (orders i).room task l'')) [
              | inr (w, e) ↦
                  rw (assign_stage_1, n, e)
                    (stage_1-IsBounded orders files k (suc i) assigned _
                      (available-IsBounded (orders i).idle (orders i).room task l'' w e b))
              | inl e ↦
                  rw (assign_stage_1, n, e) (stage_1-IsBounded orders files k (suc i) false _ b)
            ]
    ]

stage_2-IsBounded :
    (orders : ℕ → Orders) (prev : List ℤ) (k i : ℕ) (l : Leader)
    → IsBounded l.workers
    → IsBounded (assign_stage_2 orders prev k i l).workers
unfolding assign_stage_2
stage_2-IsBounded orders prev zero i l b = b
stage_2-IsBounded orders prev (suc k) i l b =
    let task = length l.tasks in
    let l' = new_task 0 TaskType.task_2 l in
    elim (Option-cases (assign_to_available_worker (orders i).idle (orders i).room task l')) [
      | inr (w, e) ↦
          rw (assign_stage_2, e)
            (stage_2-IsBounded orders prev k (suc i) _
              (available-IsBounded (orders i).idle (orders i).room task l' w e b))
      | inl e ↦ rw (assign_stage_2, e) (stage_2-IsBounded orders prev k (suc i) _ b)
    ]

-- `AssignTasks` keeps the bound on the workers' queues, in whatever orders Go ranges over the
-- workers: if no queue is longer than `MAX_TASK_PER_NODE` before, none is after.
pub assign_tasks-IsBounded :
    (orders orders' : ℕ → Orders) (files : List ℕ) (n : ℕ) (l : Leader)
    → IsBounded l.workers
    → IsBounded (assign_tasks orders orders' files n l).workers
unfolding assign_tasks
assign_tasks-IsBounded orders orders' files n l b =
    let one = stage_1-IsBounded orders files n 0 true l b in
    let w = (assign_stage_1 orders files n 0 true l).1 in
    elim (Bool-cases (is_empty w.assigned_tasks)) [
      | inl q ↦ rw (assign_tasks, q) one
      | inr q ↦ elim (Bool-cases (assign_stage_1 orders files n 0 true l).0) [
        | inl a ↦ rw (assign_tasks, q, a) (stage_2-IsBounded orders' _ n 0 w one)
        | inr a ↦ rw (assign_tasks, q, a) one
      ]
    ]
