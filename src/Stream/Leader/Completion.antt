-- ===== src/Stream/Leader/Completion.antt =====
-- What the leader records when a task is completed.
use rain_strom_distributed_s.Prelude.{
  ℕ, ◌≡◌, refl, ap, ◌∙◌, true, none, some, List, [], ◌∷◌, ◌++◌, ◌==◌, ==_refl, get_elem?,
  Option-cases, Bool-cases, inl, inr, ℤ, pos, negsuc, nat_eq, lookup, insert, lookup-insert_self,
}
use rain_strom_distributed_s.Stream.Leader.{
  Task, Leader, remove_task_from_worker_queue, mark_task_completed, id_of, check_if_task_completed,
}

check-append :
    (tasks : List Task) (rs : List ℕ) (task : ℕ)
    → check_if_task_completed tasks (rs ++ task ∷ []) task ≡ true
unfolding check_if_task_completed
check-append tasks [] task = rw (==_refl (id_of tasks task)) refl
check-append tasks (r ∷ rs) task = elim (Bool-cases (id_of tasks r == id_of tasks task)) [
  | inl q ↦ rw (q, check_if_task_completed) refl
  | inr q ↦ rw (q, check_if_task_completed) (check-append tasks rs task)
]

remove-keeps :
    (z : ℤ) (id : ℕ) (l : Leader)
    → ((remove_task_from_worker_queue z id l).task_map ≡ l.task_map)
      × ((remove_task_from_worker_queue z id l).completed_task ≡ l.completed_task)
      × ((remove_task_from_worker_queue z id l).tasks ≡ l.tasks)
unfolding remove_task_from_worker_queue
remove-keeps (negsuc n) id l = (refl, refl, refl)
remove-keeps (pos key) id l = elim (Option-cases (lookup key l.workers)) [
  | inl e ↦ rw (e, remove_task_from_worker_queue) (refl, refl, refl)
  | inr (w, e) ↦ rw (e, remove_task_from_worker_queue) (refl, refl, refl)
]

-- `MarkTaskCompleted` for the id of a task in the map puts that task behind the completed ones,
-- where `checkIfTaskCompleted` finds it; and a second call for the same id, as a repeated
-- notification makes it, adds nothing and touches no worker.
pub mark_task_completed-once :
    (id task : ℕ) (t : Task) (l : Leader)
    → lookup id l.task_map ≡ some (some task)
    → get_elem? l.tasks task ≡ some t
    → let w = mark_task_completed id l in
      (w.completed_task ≡ l.completed_task ++ task ∷ [])
      × (check_if_task_completed w.tasks w.completed_task task ≡ true)
      × ((mark_task_completed id w).completed_task ≡ w.completed_task)
      × ((mark_task_completed id w).workers ≡ w.workers)
unfolding mark_task_completed
mark_task_completed-once id task t l e g =
    let l' : Leader = record l { task_map = insert id none l.task_map } in
    let (m, d, s) = remove-keeps t.worker_id id l' in
    let step : mark_task_completed id l ≡ (
        let w = remove_task_from_worker_queue t.worker_id id l' in
        record w { completed_task = w.completed_task ++ task ∷ [] }) =
      rw (e, g, mark_task_completed) refl in
    let gone : lookup id (mark_task_completed id l).task_map ≡ some none =
      ap (λ w. lookup id w.task_map) step
      ∙ ap (λ k. lookup id k) m
      ∙ lookup-insert_self id none l.task_map in
    let added : (mark_task_completed id l).completed_task ≡ l.completed_task ++ task ∷ [] =
      ap (λ w. w.completed_task) step ∙ ap (λ k. k ++ task ∷ []) d in
    (
      added,
      ap (λ k. check_if_task_completed (mark_task_completed id l).tasks k task) added
          ∙ check-append (mark_task_completed id l).tasks l.completed_task task,
      again id (mark_task_completed id l) gone,
      again' id (mark_task_completed id l) gone,
    )
  where
    again :
        (id : ℕ) (w : Leader)
        → lookup id w.task_map ≡ some none
        → (mark_task_completed id w).completed_task ≡ w.completed_task
    again id w h = rw (h, mark_task_completed) refl

    again' :
        (id : ℕ) (w : Leader)
        → lookup id w.task_map ≡ some none
        → (mark_task_completed id w).workers ≡ w.workers
    again' id w h = rw (h, mark_task_completed) refl
