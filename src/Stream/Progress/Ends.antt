-- ===== src/Stream/Progress/Ends.antt =====
-- When `MonitorJobCompletion` sees the end of a job, and what the leader takes for it.
use rain_strom_distributed_s.Prelude.{
  ℕ, ◌≡◌, ◌≢◌, refl, sym, ap, ◌∙◌, subst, arith, Bool, true, false, some, List, [], ◌∷◌, ◌==◌,
  get_elem?, All, Has, Bool-cases, List-cases, inl, inr, ℤ,
}
use mathlib.Core.List.{cons≢nil}
use rain_strom_distributed_s.Stream.Leader.{Task, Leader, id_of, is_empty, check_if_task_completed}
use rain_strom_distributed_s.Stream.Leader.TaskType.{task_1}
use rain_strom_distributed_s.Stream.Progress.{send_notification, open_tasks, monitor_tick}
use rain_strom_distributed_s.Stream.Progress.Complete.{reports, Apart, AreOpen, both-done}

check-Has :
    (tasks : List Task) (rs : List ℕ) (r : ℕ) → Has r rs → check_if_task_completed tasks rs r ≡ true
unfolding check_if_task_completed
check-Has tasks [] r h = absurd h
check-Has tasks (s ∷ rs) r h = elim (Bool-cases (id_of tasks s == id_of tasks r)) [
  | inl q ↦ rw (check_if_task_completed, q) refl
  | inr q ↦ elim h [
    | inl e ↦
        let same : id_of tasks s ≡ id_of tasks r = ap (id_of tasks) (sym e) in
        absurd (ground (arith, q, same))
    | inr more ↦ rw (check_if_task_completed, q) (check-Has tasks rs r more)
  ]
]

check-apart :
    (tasks : List Task) (rs : List ℕ) (r : ℕ)
    → All (λ s. id_of tasks s ≢ id_of tasks r) rs
    → check_if_task_completed tasks rs r ≡ false
unfolding check_if_task_completed
check-apart tasks [] r a = refl
check-apart tasks (s ∷ rs) r a =
    let q : (id_of tasks s == id_of tasks r) ≡ false = ground (arith, a.0) in
    rw (check_if_task_completed, q) (check-apart tasks rs r a.1)

open_tasks-All :
    (tasks : List Task) (completed rs : List ℕ)
    → All (λ r. Has r completed) rs
    → open_tasks tasks completed rs ≡ []
unfolding open_tasks
open_tasks-All tasks completed [] a = refl
open_tasks-All tasks completed (r ∷ rs) a =
    rw (open_tasks, check-Has tasks completed r a.0) (open_tasks-All tasks completed rs a.1)

-- A task that is not completed stays on the list.
open_tasks-left :
    (tasks : List Task) (completed rs : List ℕ) (r : ℕ)
    → Has r rs
    → check_if_task_completed tasks completed r ≡ false
    → open_tasks tasks completed rs ≢ []
unfolding open_tasks
open_tasks-left tasks completed [] r h c = absurd h
open_tasks-left tasks completed (s ∷ rs) r (inl e) c =
    let q : check_if_task_completed tasks completed s ≡ false =
      ap (check_if_task_completed tasks completed) (sym e) ∙ c in
    rw (open_tasks, q) (λ n. cons≢nil n)
open_tasks-left tasks completed (s ∷ rs) r (inr h) c =
    elim (Bool-cases (check_if_task_completed tasks completed s)) [
      | inl q ↦ rw (open_tasks, q) (open_tasks-left tasks completed rs r h c)
      | inr q ↦ rw (open_tasks, q) (λ n. cons≢nil n)
    ]

tick-goes_on :
    (l : Leader) (r : ℕ)
    → Has r l.job_tasks
    → check_if_task_completed l.tasks l.completed_task r ≡ false
    → (monitor_tick l).0 ≡ false
unfolding monitor_tick
tick-goes_on l r h c = elim (List-cases (open_tasks l.tasks l.completed_task l.job_tasks)) [
  | inl e ↦ absurd (open_tasks-left l.tasks l.completed_task l.job_tasks r h c e)
  | inr (x, xs, e) ↦ elim (Bool-cases (is_empty l.assigned_tasks)) [
    | inl q ↦ rw (monitor_tick, q) refl
    | inr q ↦ rw (monitor_tick, q, e) refl
  ]
]

-- A job of two tasks per stage whose four tasks are assigned, are those of the job, and are open
-- under different ids, at a leader that is connected to its workers: it runs through the reports of
-- the two senders, in this order. After the first one the monitor does not see the end of the job;
-- after the second one all four tasks are completed, the receivers' without a report of their own,
-- and the next tick of the monitor ends the job.
pub reports-end_job :
    (connected : ℤ → Bool) (delivers : ℕ → Bool) (a b c d : ℕ) (l : Leader)
    → ((z : ℤ) → connected z ≡ true)
    → l.completed_task ≡ []
    → l.assigned_tasks ≡ a ∷ b ∷ c ∷ d ∷ []
    → l.job_tasks ≡ a ∷ b ∷ c ∷ d ∷ []
    → AreOpen l a b c d
    → (m n : Leader) × (send_notification connected delivers (id_of l.tasks a) l ≡ some m)
      × ((monitor_tick m).0 ≡ false)
      × (send_notification connected delivers (id_of l.tasks b) m ≡ some n)
      × (n.completed_task ≡ a ∷ b ∷ c ∷ d ∷ [])
      × ((monitor_tick n).0 ≡ true)
unfolding monitor_tick
reports-end_job connected delivers a b c d l up none_yet all job o =
    let (m, n, run, one, t, g, j, run', four, t', g', j') =
      both-done connected delivers a b c d [] l up none_yet all o in
    let apart : check_if_task_completed m.tasks m.completed_task b ≡ false =
      subst (λ cs. check_if_task_completed m.tasks cs b ≡ false) (sym one)
        (check-apart m.tasks (a ∷ []) b (subst (λ ts. id_of ts a ≢ id_of ts b) (sym t) o.4, tt)) in
    let listed : Has b m.job_tasks = subst (λ js. Has b js) (sym (j ∙ job)) (inr (inl refl)) in
    let closed : open_tasks n.tasks n.completed_task n.job_tasks ≡ [] =
      subst (λ cs. open_tasks n.tasks cs n.job_tasks ≡ []) (sym four)
        (subst (λ js. open_tasks n.tasks (a ∷ b ∷ c ∷ d ∷ []) js ≡ []) (sym (j' ∙ job))
          (open_tasks-All n.tasks (a ∷ b ∷ c ∷ d ∷ []) (a ∷ b ∷ c ∷ d ∷ []) (
            inl refl,
            (inr (inl refl), (inr (inr (inl refl)), (inr (inr (inr (inl refl))), tt))),
          ))) in
    let busy : is_empty n.assigned_tasks ≡ false = ap is_empty (g' ∙ all) in
    (m, n, run, tick-goes_on m b listed apart, run', four, rw (monitor_tick, busy, closed) refl)

-- A job of more than two tasks per stage, so that the third assigned task is one of stage 1, at a
-- leader as above: after the reports of the first two senders the third sender, of which there is no
-- report, counts as completed too; and a task of the job with a further id keeps the monitor from
-- seeing the end of the job.
pub reports-third_sender :
    (connected : ℤ → Bool) (delivers : ℕ → Bool) (a b c d e : ℕ) (rest : List ℕ) (t : Task)
    (l : Leader)
    → ((z : ℤ) → connected z ≡ true)
    → l.completed_task ≡ []
    → l.assigned_tasks ≡ a ∷ b ∷ c ∷ d ∷ rest
    → get_elem? l.tasks c ≡ some t
    → t.task_type ≡ task_1
    → AreOpen l a b c d
    → Has e l.job_tasks
    → All (λ s. Apart l s e) (a ∷ b ∷ c ∷ d ∷ [])
    → (n : Leader) × (reports connected delivers (id_of l.tasks a) (id_of l.tasks b) l ≡ some n)
      × ((u : Task) × (get_elem? n.tasks c ≡ some u) × (u.task_type ≡ task_1))
      × (check_if_task_completed n.tasks n.completed_task c ≡ true)
      × ((monitor_tick n).0 ≡ false)
reports-third_sender connected delivers a b c d e rest t l up none_yet all k first o h apart =
    let (m, n, run, one, t1, g, j, run', four, t', g', j') =
      both-done connected delivers a b c d rest l up none_yet all o in
    let open_e : check_if_task_completed n.tasks n.completed_task e ≡ false =
      subst (λ cs. check_if_task_completed n.tasks cs e ≡ false) (sym four)
        (check-apart n.tasks (a ∷ b ∷ c ∷ d ∷ []) e
          (subst (λ ts. All (λ s. id_of ts s ≢ id_of ts e) (a ∷ b ∷ c ∷ d ∷ [])) (sym t') apart)) in
    (
      n,
      rw run run',
      (t, ap (λ ts. get_elem? ts c) t' ∙ k, first),
      subst (λ cs. check_if_task_completed n.tasks cs c ≡ true) (sym four)
          (check-Has n.tasks (a ∷ b ∷ c ∷ d ∷ []) c (inr (inr (inl refl)))),
      tick-goes_on n e (subst (λ js. Has e js) (sym j') h) open_e,
    )
