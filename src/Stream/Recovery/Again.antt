-- ===== src/Stream/Recovery/Again.antt =====
-- What is left undone when workers fail: a second failure of a task of stage 2, and a worker that
-- had two tasks.
use rain_strom_distributed_s.Prelude.{
  OnSome, OnSome-some, OnSome-bind, ℕ, zero, suc, ◌≡◌, ◌≢◌, refl, sym, ap, ◌∙◌, subst, true, Option,
  none, some, List, [], ◌∷◌, ◌++◌, ◌==◌, ◌>>=◌, get_elem?, modify, lookup, insert, nat_eq,
  integer_eq, int_eq, All, All-map, Bool-cases, Option-cases, inl, inr, ◌⊎◌, ℤ, pos, ==→≡,
}
use native.Mathlib.Decide.{ℕ_discrete}
use rain_strom_distributed_s.Membership.Types.{MembershipList}
use rain_strom_distributed_s.Hydfs.Routing.{get_node_ids_of_file}
use rain_strom_distributed_s.Stream.Leader.{
  TaskType, Task, Worker, Leader, assign_to_preferred_worker, assign_to_available_worker,
}
use rain_strom_distributed_s.Stream.Leader.TaskType.{task_1, task_2}
use rain_strom_distributed_s.Stream.Recovery.Place.{
  IsPlaced, place_again-IsPlaced, preferred-IsPlaced, available-IsPlaced,
}
use rain_strom_distributed_s.Stream.Recovery.Reroute.{
  IsSent, placed-worker, get_elem?-modify, reset,
}
use rain_strom_distributed_s.Stream.Recovery.{
  worker_at, has_parent, get_sender_workers, get_partition, update_queue, update_senders, Ranges,
  update_sender_workers_for_failed_node, place_again, send_task, reschedule_split_task,
  task_of_worker, handle_worker_failure,
}

get_sender_workers-none :
    (stages : List ℕ) (failed : ℕ) (l : Leader)
    → All (λ k. (w : Worker) × (lookup k l.workers ≡ some w)) stages
    → lookup failed l.stage_tasks ≡ none
    → get_sender_workers stages (pos failed) l ≡ some []
unfolding get_sender_workers int_eq
get_sender_workers-none [] failed l a e = refl
get_sender_workers-none (k ∷ ks) failed l a e =
    let (w, f) = a.0 in
    let rest = get_sender_workers-none ks failed l a.1 e in
    elim (Option-cases (lookup k l.stage_tasks)) [
      | inl n ↦ rw (get_sender_workers, f, n) rest
      | inr (s, n) ↦ elim (Bool-cases (k == failed)) [
        | inl q ↦
            let there : lookup failed l.stage_tasks ≡ some s =
              subst (λ j. lookup j l.stage_tasks ≡ some s) (==→≡ k failed q) n in
            absurd (cc)
        | inr q ↦ rw (get_sender_workers, f, n, int_eq, q) rest
      ]
    ]

-- The task of stage 2 with the address `r` was sent and is assigned to the worker `f`, which has no
-- entry in `StageTasksWorkerMap`, as a worker that got the task by an earlier rescheduling has none.
-- If a worker is found for the task, it is sent there, but the senders are told nothing: no task is
-- announced, and the tuples still go to the receivers that they went to, `f` among them.
pub reschedule-unannounced :
    (o : Ranges) (list : MembershipList) (r f : ℕ) (t : Task) (l placed : Leader)
    → get_elem? l.tasks r ≡ some t
    → t.task_type ≡ task_2
    → t.worker_id ≡ pos f
    → has_parent l.sent r ≡ true
    → lookup f l.stage_tasks ≡ none
    → IsSent l
    → All (λ k. (w : Worker) × (lookup k l.workers ≡ some w)) o.stages
    → place_again o list t.partition r (reset r l) ≡ some (true, placed)
    → (l' : Leader) × (w : Worker) × (reschedule_split_task o list r l ≡ some l')
      × (w.is_alive ≡ true)
      × (get_elem? l'.tasks r ≡ some (record t { worker_id = pos w.id }))
      × (l'.sent ≡ l.sent ++ r ∷ [])
      × (l'.output_partitions ≡ l.output_partitions)
      × (l'.updated ≡ l.updated)
unfolding reschedule_split_task update_sender_workers_for_failed_node update_senders
reschedule-unannounced o list r f t l placed e k v p m a u n =
    let found = place_again-IsPlaced o list t.partition r (reset r l) placed n in
    let (key, w, there, alive, eq) = found in
    let at : get_elem? placed.tasks r ≡ some (record t { worker_id = pos w.id }) =
      ap (λ x. get_elem? x.tasks r) eq
      ∙ get_elem?-modify (reset r l).tasks r _ _ (get_elem?-modify l.tasks r t _ e) in
    let stay : All (λ k. (w : Worker) × (lookup k placed.workers ≡ some w)) o.stages =
      All-map _ _ o.stages
        (λ k (x, y).
          let (x', y', s', z') = placed-worker r (reset r l) placed (pos k) x found a p y in
          (x', y'))
        u in
    let to =
      get_sender_workers-none o.stages f placed stay (ap (λ x. lookup f x.stage_tasks) eq ∙ m) in
    (
      send_task r placed,
      w,
      simp (reschedule_split_task, e, n, at, k, v, update_sender_workers_for_failed_node, to, p),
      alive,
      at,
      ap (λ x. x.sent ++ r ∷ []) eq,
      ap (λ x. x.output_partitions) eq,
      ap (λ x. x.updated) eq,
    )

modify-other :
    (tasks : List Task) (r j : ℕ) (f : Task → Task)
    → r ≢ j
    → get_elem? (modify tasks r f) j ≡ get_elem? tasks j
modify-other [] r j f n = refl
modify-other (t ∷ ts) zero zero f n = absurd (n refl)
modify-other (t ∷ ts) zero (suc j) f n = refl
modify-other (t ∷ ts) (suc r) zero f n = refl
modify-other (t ∷ ts) (suc r) (suc j) f n = modify-other ts r j f (λ e. n (ap suc e))

update_queue-tasks :
    (hash worker : ℤ) (ts : List ℕ) (l : Leader)
    → OnSome (λ m. m.tasks ≡ l.tasks) (update_queue hash worker ts l)
unfolding update_queue
update_queue-tasks hash worker [] l = refl
update_queue-tasks hash worker (t ∷ ts) l = elim (Bool-cases (has_parent l.sent t)) [
  | inl q ↦
      rw (update_queue, q)
        (update_queue-tasks hash worker ts (record l {
          output_partitions = insert hash worker l.output_partitions;
          updated = l.updated ++ t ∷ [];
        }))
  | inr q ↦ rw (update_queue, q) tt
]

update_senders-tasks :
    (hash worker : ℤ) (zs : List ℤ) (l : Leader)
    → OnSome (λ m. m.tasks ≡ l.tasks) (update_senders hash worker zs l)
unfolding update_senders
update_senders-tasks hash worker [] l = refl
update_senders-tasks hash worker (z ∷ zs) l = elim (Option-cases (worker_at z l.workers)) [
  | inl n ↦ rw (update_senders, n) tt
  | inr (w, e) ↦
      rw (update_senders, e)
        (OnSome-bind (λ m. m.tasks ≡ l.tasks) (λ m. m.tasks ≡ l.tasks)
          (update_queue hash worker w.task_queue l) (update_senders hash worker zs)
          (update_queue-tasks hash worker w.task_queue l)
          (λ m h.
            subst (λ ts. OnSome (λ x. x.tasks ≡ ts) (update_senders hash worker zs m)) h
              (update_senders-tasks hash worker zs m)))
]

-- The task `j` is as it was.
abbrev pub IsKept : ℕ → Leader → Leader → Type 0
IsKept j l m = get_elem? m.tasks j ≡ get_elem? l.tasks j

placed-IsKept : (r j : ℕ) (l placed : Leader) → r ≢ j → IsPlaced r l placed → IsKept j l placed
placed-IsKept r j l placed n (key, w, there, alive, eq) =
    ap (λ x. get_elem? x.tasks j) eq ∙ modify-other l.tasks r j _ n

place_again-IsKept :
    (o : Ranges) (list : MembershipList) (partition r j : ℕ) (l : Leader)
    → r ≢ j
    → OnSome (λ (b, m). IsKept j l m) (place_again o list partition r l)
unfolding place_again
place_again-IsKept o list partition r j l d =
    elim (Option-cases (get_node_ids_of_file partition list)) [
      | inl e ↦ rw (place_again, e) tt
      | inr (files, e) ↦
          elim (Option-cases (assign_to_preferred_worker o.places.preferred files r l)) [
            | inr (w, f) ↦
                rw (place_again, e, f)
                  (placed-IsKept r j l w d (preferred-IsPlaced o.places.preferred files r l w f))
            | inl n ↦
                elim (Option-cases (assign_to_available_worker o.places.idle o.places.room r l)) [
                  | inr (w, f) ↦
                      rw (place_again, e, n, f)
                        (placed-IsKept r j l w d
                          (available-IsPlaced o.places.idle o.places.room r l w f))
                  | inl k ↦ rw (place_again, e, n, k) refl
                ]
          ]
    ]

update-IsKept :
    (o : Ranges) (worker failed : ℤ) (j : ℕ) (l : Leader)
    → OnSome (IsKept j l) (update_sender_workers_for_failed_node o worker failed l)
unfolding update_sender_workers_for_failed_node
update-IsKept o worker failed j l = elim (Option-cases (get_sender_workers o.stages failed l)) [
  | inl n ↦ rw (update_sender_workers_for_failed_node, n) tt
  | inr (senders, e) ↦
      rw (update_sender_workers_for_failed_node, e)
        (go (update_senders (get_partition o.hashes failed l.output_partitions) worker senders l) (
          update_senders-tasks (get_partition o.hashes failed l.output_partitions) worker senders
            l))
]
  where
    go : (u : Option Leader) → OnSome (λ m. m.tasks ≡ l.tasks) u → OnSome (IsKept j l) u
    go none h = tt
    go (some m) h = ap (λ ts. get_elem? ts j) h

reschedule-IsKept :
    (o : Ranges) (list : MembershipList) (r j : ℕ) (l : Leader)
    → r ≢ j
    → OnSome (IsKept j l) (reschedule_split_task o list r l)
unfolding reschedule_split_task
reschedule-IsKept o list r j l d = elim (Option-cases (get_elem? l.tasks r)) [
  | inl n ↦ rw (reschedule_split_task, n) tt
  | inr (t, e) ↦ elim (Option-cases (place_again o list t.partition r (reset r l))) [
    | inl n ↦ rw (reschedule_split_task, e, n) tt
    | inr ((assigned, placed), f) ↦
        let kept : IsKept j l placed =
          OnSome-some (λ (b, m). IsKept j (reset r l) m)
            (place_again o list t.partition r (reset r l)) (assigned, placed)
            (place_again-IsKept o list t.partition r j (reset r l) d) f
          ∙ modify-other l.tasks r j _ d in
        elim (Option-cases (get_elem? placed.tasks r)) [
          | inl n ↦ rw (reschedule_split_task, e, f, n) tt
          | inr (t', g) ↦ elim (Bool-cases (has_parent l.sent r)) [
            | inr q ↦ rw (reschedule_split_task, e, f, g, q) tt
            | inl q ↦ elim (Bool-cases assigned) [
              | inr b ↦ rw (reschedule_split_task, e, f, g, q, b) kept
              | inl b ↦
                  rw (reschedule_split_task, e, f, g, q, b) (sent t t' placed kept t.task_type)
            ]
          ]
        ]
  ]
]
  where
    sent :
        (t t' : Task) (placed : Leader)
        → IsKept j l placed
        → (kind : TaskType)
        → OnSome (IsKept j l) (do
          l' ← (elim kind as (λ _. Option Leader) [
            | task_1 ↦ some placed
            | task_2 ↦ update_sender_workers_for_failed_node o t'.worker_id t.worker_id placed
          ])
          some (send_task r l'))
    sent t t' placed kept task_1 = kept
    sent t t' placed kept task_2 =
        OnSome-bind (IsKept j placed) (IsKept j l)
          (update_sender_workers_for_failed_node o t'.worker_id t.worker_id placed) _
          (update-IsKept o t'.worker_id t.worker_id j placed) (λ m h. h ∙ kept)

-- `handleWorkerFailure` reschedules one task at most: of two tasks, at least one is as it was when
-- it returns, whatever they are. So when both belong to the failed worker, one still does.
pub handle_worker_failure-one :
    (o : Ranges) (ids : List ℕ) (list : MembershipList) (node a b : ℕ) (l l' : Leader)
    → a ≢ b
    → handle_worker_failure o ids list node l ≡ some l'
    → IsKept a l l' ⊎ IsKept b l l'
unfolding handle_worker_failure
handle_worker_failure-one o ids list zero a b l l' d e = absurd (cc)
handle_worker_failure-one o ids list (suc worker) a b l l' d e =
    elim (Option-cases (lookup worker l.workers)) [
      | inl n ↦ absurd (cc (rw (handle_worker_failure, n) at e))
      | inr (w, f) ↦ elim (Option-cases (task_of_worker ids worker l)) [
        | inl n ↦
            let z : some l ≡ some l' = rw (handle_worker_failure, f, n) at e in
            inl (OnSome-some (IsKept a l) (some l) l' refl z)
        | inr (r, g) ↦
            let z : reschedule_split_task o list r l ≡ some l' =
              rw (handle_worker_failure, f, g) at e in
            elim (ℕ_discrete r a) [
              | no n ↦ inl (OnSome-some (IsKept a l) _ l' (reschedule-IsKept o list r a l n) z)
              | yes y ↦ inr (
                  OnSome-some (IsKept b l) _ l'
                    (reschedule-IsKept o list r b l (λ q. d (sym y ∙ q))) z)
            ]
      ]
    ]
