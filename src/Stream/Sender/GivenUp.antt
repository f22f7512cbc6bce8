-- ===== src/Stream/Sender/GivenUp.antt =====
-- What `ResendUnackedTuples` does with tuples that nobody acknowledges.
use rain_strom_distributed_s.Prelude.{
  OnSome, ap, ℕ, zero, suc, ◌+◌, ◌<◌, ◌≡◌, refl, ◌∙◌, subst, Bool, true, false, Option, some, none,
  List, [], ◌∷◌, ◌++◌, String, Map, lookup, insert, string_eq, nat_eq, str_eq, last, All, All-map,
  Bool-cases, Option-cases, List-cases, inl, inr, ◌>>=◌, lookup-insert, leb,
}
use rain_strom_distributed_s.Stream.Tuples.{Tuple}
use rain_strom_distributed_s.Stream.Network.{
  JobTask, Env, Sender, get_receiver_by_tuple, send_tuple, max_retry_count,
}
use rain_strom_distributed_s.Stream.Sender.{
  retry, retry_all, resend_round, resend_unacked_tuples, finish_task, remove_task,
  send_ack_to_leader, count_of,
}
use rain_strom_distributed_s.Stream.Sender.Keys.{IsHash}
use rain_strom_distributed_s.Stream.Sender.Rounds.{IsDistinct}
use rain_strom_distributed_s.Stream.Sender.Retry.{resend-ends}

-- Nothing that is sent is acknowledged.
abbrev pub IsSilent : Env → Type 0
IsSilent env = (calls : ℕ) (t : Tuple) (conn : Option ℕ) → (send_tuple env calls t conn).0 ≡ false

abbrev pub IsUnacked : String → Sender → Type 0
IsUnacked id s = lookup id s.tuple_ack_map ≡ some false

insert-false :
    (i id : String) (m : Map String Bool)
    → lookup id m ≡ some false
    → lookup id (insert i false m) ≡ some false
insert-false i id m h = elim (Bool-cases (str_eq i id)) [
  | inl q ↦ rw (lookup-insert i id false m, q) refl
  | inr q ↦ rw (lookup-insert i id false m, q) h
]

retry-IsUnacked :
    (env : Env) (t : Tuple) (conn : Option ℕ) (s : Sender) (id : String)
    → IsSilent env
    → IsUnacked id s
    → IsUnacked id (retry env t conn s).1
unfolding retry
retry-IsUnacked env t conn s id q h =
    let kept = insert-false t.tuple_id id s.tuple_ack_map h in
    elim (Bool-cases (leb (max_retry_count + 1) (count_of t.tuple_id s + 1))) [
      | inl b ↦ rw (retry, q s.calls t conn, b) kept
      | inr b ↦ rw (retry, q s.calls t conn, b) kept
    ]

retry_all-IsUnacked :
    (env : Env) (task : JobTask) (ts : List Tuple) (s : Sender) (id : String)
    → IsSilent env
    → IsUnacked id s
    → OnSome (λ (kept, reached, s'). IsUnacked id s') (retry_all env task ts s)
unfolding retry_all
retry_all-IsUnacked env task [] s id q h = h
retry_all-IsUnacked env task (t ∷ ts) s id q h =
    elim (Option-cases (get_receiver_by_tuple env t task s)) [
      | inl n ↦ rw (retry_all, n) tt
      | inr (conn, c) ↦
          let s1 = (retry env t conn s).1 in
          let more =
            retry_all-IsUnacked env task ts s1 id q (retry-IsUnacked env t conn s id q h) in
          elim (Option-cases (retry_all env task ts s1)) [
            | inl n ↦ rw (retry_all, c, n) tt
            | inr ((kept, reached, s2), r) ↦
                let done : IsUnacked id s2 =
                  subst (OnSome (λ (kept, reached, s'). IsUnacked id s')) r more in
                elim (Bool-cases (retry env t conn s).0) [
                  | inl b ↦ rw (retry_all, c, r, b) done
                  | inr b ↦ rw (retry_all, c, r, b) done
                ]
          ]
    ]

finish_task-IsUnacked :
    (env : Env) (task : JobTask) (s : Sender) (id : String)
    → IsUnacked id s
    → IsUnacked id (finish_task env task s)
unfolding finish_task
finish_task-IsUnacked env task s id h = elim (Bool-cases (send_ack_to_leader env task s)) [
  | inl b ↦ rw (finish_task, b) h
  | inr b ↦ rw (finish_task, b) h
]

resend_round-IsUnacked :
    (env : Env) (task : JobTask) (s : Sender) (id : String)
    → IsSilent env
    → IsUnacked id s
    → OnSome (λ (reached, s'). IsUnacked id s') (resend_round env task s)
unfolding resend_round
resend_round-IsUnacked env task s id q h =
    go (retry_all env task s.unacked_tuples s)
      (retry_all-IsUnacked env task s.unacked_tuples s id q h)
  where
    go :
        (o : Option (List Tuple × Bool × Sender))
        → OnSome (λ (kept, reached, s'). IsUnacked id s') o
        → OnSome
            (λ (reached, s'). IsUnacked id s')
            (do (kept, reached, s') ← o; some (reached, record s' { unacked_tuples = kept }))
    go none k = tt
    go (some r) k = k

resend-IsUnacked :
    (env : Env) (fuel : ℕ) (s : Sender) (id : String)
    → IsSilent env
    → IsUnacked id s
    → OnSome (IsUnacked id) (resend_unacked_tuples env fuel s)
unfolding resend_unacked_tuples
resend-IsUnacked env zero s id q h = tt
resend-IsUnacked env (suc fuel) s id q h = elim (Option-cases (last s.task_queue)) [
  | inl n ↦ simp (resend_unacked_tuples, n) h
  | inr (task, k) ↦ elim (List-cases s.unacked_tuples) [
    | inl e ↦ simp (resend_unacked_tuples, k, e) (finish_task-IsUnacked env task s id h)
    | inr (t, ts, e) ↦ elim (Option-cases (resend_round env task s)) [
      | inl n ↦ simp (resend_unacked_tuples, k, e, n) tt
      | inr ((reached, tried), r) ↦
          let done : IsUnacked id tried =
            subst (OnSome (λ (reached, s'). IsUnacked id s')) r
              (resend_round-IsUnacked env task s id q h) in
          elim (Bool-cases reached) [
            | inl b ↦
                simp (resend_unacked_tuples, k, e, r, b)
                  (finish_task-IsUnacked env task tried id done)
            | inr b ↦
                simp (resend_unacked_tuples, k, e, r, b) (resend-IsUnacked env fuel tried id q done)
          ]
    ]
  ]
]

-- If nothing that a worker sends is acknowledged, whatever the reason, and the leader can be told:
-- after at most nine rounds `ResendUnackedTuples` drops the tuples that waited, tells the leader
-- that the task is done, and takes the task off its queue, although no one of those tuples has been
-- acknowledged. Each waits with a false entry in the map before, and the ids are different.
pub resend-gives_up :
    (env : Env) (task : JobTask) (s : Sender) (conn : ℕ)
    → IsHash env
    → IsSilent env
    → ((calls id : ℕ) → env.notified calls id ≡ true)
    → lookup 1 s.worker_conns ≡ some conn
    → 0 < task.parent_job.num_tasks
    → last s.task_queue ≡ some task
    → IsDistinct s.unacked_tuples
    → All (λ t. IsUnacked t.tuple_id s) s.unacked_tuples
    → (s' : Sender) × (resend_unacked_tuples env 9 s ≡ some s')
      × (s'.unacked_tuples ≡ [])
      × (s'.notices ≡ s.notices ++ task.task_id ∷ [])
      × (s'.task_queue ≡ remove_task task.task_id s.task_queue)
      × All (λ t. IsUnacked t.tuple_id s') s.unacked_tuples
unfolding finish_task send_ack_to_leader
resend-gives_up env task s conn h q told c p k d w =
    let (done, run, (e, queue, notices, parts, conns), calls) = resend-ends env task s h p k d in
    let there : lookup 1 done.worker_conns ≡ some conn = ap (lookup 1) conns ∙ c in
    let sent : send_ack_to_leader env task done ≡ true =
      rw (send_ack_to_leader, there) (told done.calls task.task_id) in
    let s' : Sender = record done {
      notices = done.notices ++ task.task_id ∷ [];
      task_queue = remove_task task.task_id done.task_queue;
    } in
    let end : resend_unacked_tuples env 9 s ≡ some s' =
      run ∙ ap (λ x. some x) (rw (finish_task, sent) refl) in
    (
      s',
      end,
      e,
      ap (λ l. l ++ task.task_id ∷ []) notices,
      ap (remove_task task.task_id) queue,
      All-map _ _ s.unacked_tuples
          (λ t u.
            subst (OnSome (IsUnacked t.tuple_id)) end (resend-IsUnacked env 9 s t.tuple_id q u))
          w,
    )
