-- ===== src/Stream/Progress/Complete.antt =====
-- How the reports of the senders end a job.
use rain_strom_distributed_s.Prelude.{
  ℕ, suc, ◌≡◌, ◌≢◌, refl, sym, ap, ◌∙◌, subst, arith, Bool, true, false, Option, none, some, List,
  [], ◌∷◌, ◌++◌, ltb, ◌>>=◌, get_elem?, length, Map, lookup, insert, nat_eq, lookup-insert_ne,
  Bool-cases, Option-cases, inl, inr, ℤ, pos, negsuc,
}
use rain_strom_distributed_s.Stream.Leader.{
  Task, Worker, Leader, worker_of, id_of, num_of_tasks_per_job, remove_task_from_worker_queue,
  remove_first, mark_task_completed, check_if_task_completed, check_if_all_sender_completed,
  all_completed,
}
use rain_strom_distributed_s.Stream.Progress.{send_acks, send_ack_to_receiver, send_notification}

-- The task with the address `r` is in the map, under its id.
abbrev pub IsOpen : Leader → ℕ → Type 0
IsOpen l r =
    (t : Task) × (get_elem? l.tasks r ≡ some t) × (lookup t.task_id l.task_map ≡ some (some r))

-- What marking the task `r` does besides.
abbrev pub IsMarked : ℕ → Leader → Leader → Type 0
IsMarked r l m =
    (m.completed_task ≡ l.completed_task ++ r ∷ [])
    × (m.tasks ≡ l.tasks)
    × (m.assigned_tasks ≡ l.assigned_tasks)
    × (m.job_tasks ≡ l.job_tasks)
    × ((s : ℕ) → id_of l.tasks r ≢ id_of l.tasks s → IsOpen l s → IsOpen m s)

remove-frame :
    (z : ℤ) (id : ℕ) (l : Leader)
    → (w : Map ℕ Worker) × (remove_task_from_worker_queue z id l ≡ record l { workers = w })
unfolding remove_task_from_worker_queue
remove-frame (negsuc n) id l = (l.workers, refl)
remove-frame (pos key) id l = elim (Option-cases (lookup key l.workers)) [
  | inl e ↦ (l.workers, rw (e, remove_task_from_worker_queue) refl)
  | inr (w, e) ↦ (
    insert key (record w { task_queue = remove_first l.tasks id w.task_queue }) l.workers,
    rw (e, remove_task_from_worker_queue) refl,
  )
]

pub mark-IsMarked :
    (r : ℕ) (l : Leader) → IsOpen l r → IsMarked r l (mark_task_completed (id_of l.tasks r) l)
unfolding mark_task_completed
mark-IsMarked r l (t, e, f) =
    let id : id_of l.tasks r ≡ t.task_id = rw (id_of, e) refl in
    let base : Leader = record l { task_map = insert t.task_id none l.task_map } in
    let (w, q) = remove-frame t.worker_id t.task_id base in
    let add : Leader → Leader = λ x. record x { completed_task = x.completed_task ++ r ∷ [] } in
    let step : mark_task_completed (id_of l.tasks r) l
        ≡ record base { workers = w; completed_task = l.completed_task ++ r ∷ [] } =
      ap (λ i. mark_task_completed i l) id ∙ rw (mark_task_completed, f, e) (ap add q) in
    subst (IsMarked r l) (sym step) (
      refl,
      refl,
      refl,
      refl,
      (λ s d (t', e', f'). (
        t',
        e',
        lookup-insert_ne t.task_id t'.task_id none l.task_map
              (λ x. d (id ∙ x ∙ sym (rw (id_of, e') refl)))
            ∙ f',
      )),
    )

-- A round of `sendAckToReceiver` for a worker that the leader is connected to.
send_acks-step :
    (connected : ℤ → Bool) (delivers : ℕ → Bool) (k i r : ℕ) (l : Leader)
    → ((z : ℤ) → connected z ≡ true)
    → get_elem? l.assigned_tasks i ≡ some r
    → IsOpen l r
    → (m : Leader) × (send_acks connected delivers (suc k) i l
        ≡ send_acks connected delivers k (suc i) m)
      × IsMarked r l m
unfolding send_acks
send_acks-step connected delivers k i r l c e o =
    let done = mark_task_completed (id_of l.tasks r) l in
    let told : Leader = record done { told = done.told ++ id_of l.tasks r ∷ [] } in
    let marked = mark-IsMarked r l o in
    elim (Bool-cases (delivers (id_of l.tasks r))) [
      | inl q ↦ (told, simp (send_acks, e, q, c (worker_of l.tasks r)), marked)
      | inr q ↦ (done, simp (send_acks, e, q, c (worker_of l.tasks r)), marked)
    ]

-- The reports of the first two assigned tasks, one after the other.
abbrev pub reports : (ℤ → Bool) → (ℕ → Bool) → ℕ → ℕ → Leader → Option Leader
reports connected delivers id0 id1 l = do
  m ← send_notification connected delivers id0 l
  send_notification connected delivers id1 m

abbrev pub Apart : Leader → ℕ → ℕ → Type 0
Apart l a b = id_of l.tasks a ≢ id_of l.tasks b

-- Four open tasks with different ids.
abbrev pub AreOpen : Leader → ℕ → ℕ → ℕ → ℕ → Type 0
AreOpen l a b c d =
    IsOpen l a
    × IsOpen l b
    × IsOpen l c
    × IsOpen l d
    × Apart l a b
    × Apart l a c
    × Apart l a d
    × Apart l b c
    × Apart l b d
    × Apart l c d

first-done :
    (connected : ℤ → Bool) (delivers : ℕ → Bool) (a : ℕ) (l : Leader)
    → IsOpen l a
    → l.completed_task ≡ []
    → (m : Leader) × (send_notification connected delivers (id_of l.tasks a) l ≡ some m)
      × IsMarked a l m
unfolding send_notification check_if_all_sender_completed
first-done connected delivers a l o n =
    let m = mark_task_completed (id_of l.tasks a) l in
    let marked = mark-IsMarked a l o in
    let one : m.completed_task ≡ a ∷ [] = marked.0 ∙ ap (λ x. x ++ a ∷ []) n in
    let no : check_if_all_sender_completed m ≡ false =
      rw (check_if_all_sender_completed, ap length one) refl in
    (m, rw (send_notification, no) refl, marked)

check-two :
    (tasks : List Task) (a b : ℕ) (rest : List ℕ)
    → all_completed tasks (a ∷ b ∷ []) (a ∷ b ∷ rest) 2 ≡ true
unfolding all_completed check_if_task_completed
check-two tasks a b rest = ground arith

IsOpen-moved : (r s : ℕ) (l m : Leader) → IsMarked r l m → Apart l r s → IsOpen l s → IsOpen m s
IsOpen-moved r s l m k d o = k.4 s d o

Apart-moved : (r : ℕ) (l m : Leader) (a b : ℕ) → IsMarked r l m → Apart l a b → Apart m a b
Apart-moved r l m a b k d = subst (λ ts. id_of ts a ≢ id_of ts b) (sym k.1) d

second-done :
    (connected : ℤ → Bool) (delivers : ℕ → Bool) (a b c d : ℕ) (rest : List ℕ) (l : Leader)
    → ((z : ℤ) → connected z ≡ true)
    → l.completed_task ≡ a ∷ []
    → l.assigned_tasks ≡ a ∷ b ∷ c ∷ d ∷ rest
    → IsOpen l b
    → IsOpen l c
    → IsOpen l d
    → Apart l b c
    → Apart l b d
    → Apart l c d
    → (n : Leader) × (send_notification connected delivers (id_of l.tasks b) l ≡ some n)
      × (n.completed_task ≡ a ∷ b ∷ c ∷ d ∷ [])
      × (n.tasks ≡ l.tasks)
      × (n.assigned_tasks ≡ l.assigned_tasks)
      × (n.job_tasks ≡ l.job_tasks)
unfolding send_notification check_if_all_sender_completed send_ack_to_receiver send_acks
second-done connected delivers a b c d rest l up one all ob oc od bc bd cd =
    let m1 = mark_task_completed (id_of l.tasks b) l in
    let k1 = mark-IsMarked b l ob in
    let two : m1.completed_task ≡ a ∷ b ∷ [] = k1.0 ∙ ap (λ x. x ++ b ∷ []) one in
    let all1 : m1.assigned_tasks ≡ a ∷ b ∷ c ∷ d ∷ rest = k1.2 ∙ all in
    let long : ltb (length (a ∷ b ∷ c ∷ d ∷ rest)) num_of_tasks_per_job ≡ false = ground arith in
    let yes : check_if_all_sender_completed m1 ≡ true =
      rw (check_if_all_sender_completed, two, all1, long) (check-two m1.tasks a b (c ∷ d ∷ rest)) in
    let oc1 = IsOpen-moved b c l m1 k1 bc oc in
    let od1 = IsOpen-moved b d l m1 k1 bd od in
    let (m2, run2, k2) =
      send_acks-step connected delivers 1 2 c m1 up (ap (λ x. get_elem? x 2) all1) oc1 in
    let od2 = IsOpen-moved c d m1 m2 k2 (Apart-moved b l m1 c d k1 cd) od1 in
    let (m3, run3, k3) =
      send_acks-step connected delivers 0 3 d m2 up (ap (λ x. get_elem? x 3) (k2.2 ∙ all1)) od2 in
    (
      m3,
      rw (send_notification, yes) (run2 ∙ run3),
      k3.0 ∙ ap (λ x. x ++ d ∷ []) (k2.0 ∙ ap (λ x. x ++ c ∷ []) two),
      k3.1 ∙ k2.1 ∙ k1.1,
      k3.2 ∙ k2.2 ∙ k1.2,
      k3.3 ∙ k2.3 ∙ k1.3,
    )

pub both-done :
    (connected : ℤ → Bool) (delivers : ℕ → Bool) (a b c d : ℕ) (rest : List ℕ) (l : Leader)
    → ((z : ℤ) → connected z ≡ true)
    → l.completed_task ≡ []
    → l.assigned_tasks ≡ a ∷ b ∷ c ∷ d ∷ rest
    → AreOpen l a b c d
    → (m n : Leader) × (send_notification connected delivers (id_of l.tasks a) l ≡ some m)
      × (m.completed_task ≡ a ∷ [])
      × (m.tasks ≡ l.tasks)
      × (m.assigned_tasks ≡ l.assigned_tasks)
      × (m.job_tasks ≡ l.job_tasks)
      × (send_notification connected delivers (id_of l.tasks b) m ≡ some n)
      × (n.completed_task ≡ a ∷ b ∷ c ∷ d ∷ [])
      × (n.tasks ≡ l.tasks)
      × (n.assigned_tasks ≡ l.assigned_tasks)
      × (n.job_tasks ≡ l.job_tasks)
both-done connected delivers a b c d rest l up none_yet all
      (oa, ob, oc, od, ab, ac, ad, bc, bd, cd) =
    let (m, run, k) = first-done connected delivers a l oa none_yet in
    let one = k.0 ∙ ap (λ x. x ++ a ∷ []) none_yet in
    let (n, run', e, t, g, j) =
      second-done connected delivers a b c d rest m up one (k.2 ∙ all)
        (IsOpen-moved a b l m k ab ob) (IsOpen-moved a c l m k ac oc) (IsOpen-moved a d l m k ad od)
        (Apart-moved a l m b c k bc) (Apart-moved a l m b d k bd) (Apart-moved a l m c d k cd) in
    (
      m,
      n,
      run,
      one,
      k.1,
      k.2,
      k.3,
      (ap (λ ts. send_notification connected delivers (id_of ts b) m) (sym k.1) ∙ run'),
      e,
      t ∙ k.1,
      g ∙ k.2,
      j ∙ k.3,
    )
