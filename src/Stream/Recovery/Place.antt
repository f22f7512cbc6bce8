-- ===== src/Stream/Recovery/Place.antt =====
-- What finding a worker for a task changes.
use rain_strom_distributed_s.Prelude.{
  subst, ℕ, ◌≡◌, refl, sym, ap, ◌∙◌, arith, Bool, true, false, ◌&&◌, none, some, List, [], ◌∷◌,
  ◌++◌, modify, lookup, insert, nat_eq, length, ltb, Option-cases, inl, inr, pos,
}
use rain_strom_distributed_s.Membership.Types.{MembershipList}
use rain_strom_distributed_s.Hydfs.Routing.{get_node_ids_of_file}
use rain_strom_distributed_s.Stream.Leader.{
  Worker, Leader, give, first_worker, is_idle, has_room, contains_file, assign_to_preferred_worker,
  assign_to_available_worker,
}
use rain_strom_distributed_s.Stream.Leader.Capacity.{first_worker-some}
use rain_strom_distributed_s.Stream.Recovery.{Ranges, place_again}

-- The task goes to the end of the queue of a worker that is alive, and has its id.
abbrev pub IsPlaced : ℕ → Leader → Leader → Type 0
IsPlaced task l placed =
    (key : ℕ) × (w : Worker) × (lookup key l.workers ≡ some w)
    × (w.is_alive ≡ true)
    × (placed ≡ record l {
      workers = insert key (record w { task_queue = w.task_queue ++ task ∷ [] }) l.workers;
      tasks = modify l.tasks task (λ t. record t { worker_id = pos w.id });
    })

IsPlaced-first :
    (test : ℕ → Worker → Bool) (order : List ℕ) (task key : ℕ) (l placed : Leader)
    → ((k : ℕ) (w : Worker) → test k w ≡ true → w.is_alive ≡ true)
    → first_worker test order l.workers ≡ some key
    → some (give task key l) ≡ some placed
    → IsPlaced task l placed
unfolding give
IsPlaced-first test order task key l placed alive e f =
    let (w, there, passed) = first_worker-some test order l.workers key e in
    let same : give task key l ≡ placed = cc in
    (key, w, there, alive key w passed, sym same ∙ rw (give, there) refl)

pub preferred-IsPlaced :
    (order files : List ℕ) (task : ℕ) (l placed : Leader)
    → assign_to_preferred_worker order files task l ≡ some placed
    → IsPlaced task l placed
unfolding assign_to_preferred_worker
preferred-IsPlaced order files task l placed h =
    let test : ℕ → Worker → Bool =
      λ k w. w.is_alive && ltb (length w.task_queue) 1 && contains_file files k in
    elim (Option-cases (first_worker test order l.workers)) [
      | inl e ↦ absurd (cc (rw (assign_to_preferred_worker, e) at h))
      | inr (key, e) ↦
          IsPlaced-first test order task key l placed (λ k w q. ground (arith, q)) e
            (rw (assign_to_preferred_worker, e) at h)
    ]

pub available-IsPlaced :
    (order order' : List ℕ) (task : ℕ) (l placed : Leader)
    → assign_to_available_worker order order' task l ≡ some placed
    → IsPlaced task l placed
unfolding assign_to_available_worker
available-IsPlaced order order' task l placed h =
    elim (Option-cases (first_worker (λ k w. is_idle w) order l.workers)) [
      | inr (key, e) ↦
          IsPlaced-first (λ k w. is_idle w) order task key l placed (λ k w q. ground (arith, q)) e
            (rw (assign_to_available_worker, e) at h)
      | inl n ↦ elim (Option-cases (first_worker (λ k w. has_room w) order' l.workers)) [
        | inl e ↦ absurd (cc (rw (assign_to_available_worker, n, e) at h))
        | inr (key, e) ↦
            IsPlaced-first (λ k w. has_room w) order' task key l placed (λ k w q. ground (arith, q))
              e (rw (assign_to_available_worker, n, e) at h)
      ]
    ]

-- When a worker is found, nothing changes but its queue and the task.
pub place_again-IsPlaced :
    (o : Ranges) (list : MembershipList) (partition task : ℕ) (l placed : Leader)
    → place_again o list partition task l ≡ some (true, placed)
    → IsPlaced task l placed
unfolding place_again
place_again-IsPlaced o list partition task l placed h =
    elim (Option-cases (get_node_ids_of_file partition list)) [
      | inl e ↦ absurd (cc (rw (place_again, e) at h))
      | inr (files, e) ↦
          elim (Option-cases (assign_to_preferred_worker o.places.preferred files task l)) [
            | inr (w, f) ↦
                let z : some (true, w) ≡ some (true, placed) = rw (place_again, e, f) at h in
                let same : w ≡ placed =
                  ap (λ x. elim x as (λ _. Leader) [ none ↦ l | some y ↦ y.1 ]) z in
                preferred-IsPlaced o.places.preferred files task l placed
                  (f ∙ ap (λ x. some x) same)
            | inl n ↦
                elim (Option-cases
                  (assign_to_available_worker o.places.idle o.places.room task l)) [
                    | inr (w, f) ↦
                        let z : some (true, w) ≡ some (true, placed) =
                          rw (place_again, e, n, f) at h in
                        let same : w ≡ placed =
                          ap (λ x. elim x as (λ _. Leader) [ none ↦ l | some y ↦ y.1 ]) z in
                        available-IsPlaced o.places.idle o.places.room task l placed
                          (f ∙ ap (λ x. some x) same)
                    | inl k ↦
                        let z : some (false, record l { task_queue = l.task_queue ++ task ∷ [] })
                            ≡ some (true, placed) =
                          rw (place_again, e, n, k) at h in
                        let no : false ≡ true =
                          ap (λ x. elim x as (λ _. Bool) [ none ↦ true | some y ↦ y.0 ]) z in
                        subst
                          (λ x. elim x as (λ _. Type 0) [
                            | false ↦ Unit
                            | true ↦ IsPlaced task l placed
                          ])
                          no tt
                  ]
          ]
    ]
