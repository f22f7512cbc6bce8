-- ===== src/Stream/Sender/Rounds.antt =====
-- One round of `ResendUnackedTuples`: what a retry of each waiting tuple leaves.
use rain_strom_distributed_s.Prelude.{
  ℕ, suc, ◌+◌, ◌≤◌, ◌<◌, ◌≡◌, ◌≢◌, refl, sym, ◌∙◌, ap, arith, Bool, true, false, Option, some, List,
  [], ◌∷◌, String, lookup, insert, erase, string_eq, nat_eq, leb, length, All, Bool-cases, inl, inr,
  ◌⊎◌, lookup-insert_self, lookup-insert_ne, lookup-erase, beq_ne,
}
use mathlib.Core.List.{cons≢nil}
use rain_strom_distributed_s.Stream.Tuples.{Tuple}
use rain_strom_distributed_s.Stream.Network.{
  JobTask, Env, Sender, receiver_worker_id, conn_of, get_receiver_by_tuple, send_tuple,
  max_retry_count,
}
use rain_strom_distributed_s.Stream.Sender.{count_of, or_zero, retry, retry_all, resend_round}
use rain_strom_distributed_s.Stream.Sender.Keys.{IsHash, hash_key-lt}

-- No two tuples have one id.
abbrev pub IsApart : String → List Tuple → Type 0
IsApart id ts = All (λ u. u.tuple_id ≢ id) ts

abbrev pub IsDistinct : List Tuple → Type 0
IsDistinct [] = Unit
IsDistinct (t ∷ ts) = IsApart t.tuple_id ts × IsDistinct ts

abbrev pub IsCounted : ℕ → List Tuple → Sender → Type 0
IsCounted r ts s = All (λ t. r ≤ count_of t.tuple_id s) ts

-- The fields that no retry changes, and the number of calls made.
abbrev pub IsFrame : ℕ → Sender → Sender → Type 0
IsFrame n s s' =
    (s'.task_queue ≡ s.task_queue)
    × (s'.worker_conns ≡ s.worker_conns)
    × (s'.notices ≡ s.notices)
    × (s'.output_partition_map ≡ s.output_partition_map)
    × (s'.calls ≡ n + s.calls)

retry-IsFrame :
    (env : Env) (t : Tuple) (conn : Option ℕ) (s : Sender) → IsFrame 1 s (retry env t conn s).1
unfolding retry
retry-IsFrame env t conn s = elim (Bool-cases (send_tuple env s.calls t conn).0) [
  | inl a ↦ rw (retry, a) (refl, refl, refl, refl, omega arith)
  | inr a ↦ elim (Bool-cases (leb (max_retry_count + 1) (count_of t.tuple_id s + 1))) [
    | inl b ↦ rw (retry, a, b) (refl, refl, refl, refl, omega arith)
    | inr b ↦ rw (retry, a, b) (refl, refl, refl, refl, omega arith)
  ]
]

-- A retry changes the count of no other tuple.
retry-count_of_ne :
    (env : Env) (t : Tuple) (conn : Option ℕ) (s : Sender) (id : String)
    → t.tuple_id ≢ id
    → count_of id (retry env t conn s).1 ≡ count_of id s
unfolding retry
retry-count_of_ne env t conn s id h =
    let i = t.tuple_id in
    let count = count_of i s + 1 in
    let one : lookup id (erase i s.retry_counts) ≡ lookup id s.retry_counts =
      rw (lookup-erase i id s.retry_counts, beq_ne i id h) refl in
    let two = lookup-insert_ne i id count s.retry_counts h in
    let three : lookup id (erase i (insert i count s.retry_counts)) ≡ lookup id s.retry_counts =
      rw (lookup-erase i id (insert i count s.retry_counts), beq_ne i id h) two in
    elim (Bool-cases (send_tuple env s.calls t conn).0) [
      | inl a ↦ rw (retry, a) (ap (λ o. or_zero o) one)
      | inr a ↦ elim (Bool-cases (leb (max_retry_count + 1) count)) [
        | inl b ↦ rw (retry, a, b) (ap (λ o. or_zero o) three)
        | inr b ↦ rw (retry, a, b) (ap (λ o. or_zero o) two)
      ]
    ]

-- A tuple that stays has been counted once more, and not too often.
retry-kept :
    (env : Env) (t : Tuple) (conn : Option ℕ) (s : Sender)
    → (retry env t conn s).0 ≡ true
    → (count_of t.tuple_id (retry env t conn s).1 ≡ count_of t.tuple_id s + 1)
      × (count_of t.tuple_id s + 1 ≤ max_retry_count)
unfolding retry
retry-kept env t conn s h =
    let count = count_of t.tuple_id s + 1 in
    elim (Bool-cases (send_tuple env s.calls t conn).0) [
      | inl a ↦ absurd (cc (rw (retry, a) at h))
      | inr a ↦ elim (Bool-cases (leb (max_retry_count + 1) count)) [
        | inl b ↦ absurd (cc (rw (retry, a, b) at h))
        | inr b ↦ (
          rw (retry, a, b)
              (ap (λ o. or_zero o) (lookup-insert_self t.tuple_id count s.retry_counts)),
          ground (arith, b),
        )
      ]
    ]

-- What a round leaves: the tuples that stay are again distinct, were all counted once more, and are
-- none exactly if the flag is set.
abbrev pub IsRound : ℕ → List Tuple → Sender → List Tuple → Bool → Sender → Type 0
IsRound r ts s kept reached s' =
    IsFrame (length ts) s s'
    × ((id : String) → IsApart id ts → count_of id s' ≡ count_of id s)
    × ((id : String) → IsApart id ts → IsApart id kept)
    × IsDistinct kept
    × IsCounted (suc r) kept s'
    × All (λ t. count_of t.tuple_id s' ≤ max_retry_count) kept
    × (((reached ≡ true) × (kept ≡ [])) ⊎ ((reached ≡ false) × (kept ≢ [])))
    × (length kept ≤ length ts)

retry_all-IsRound :
    (env : Env) (task : JobTask) (r : ℕ) (ts : List Tuple) (s : Sender)
    → IsHash env
    → 0 < task.parent_job.num_tasks
    → IsDistinct ts
    → IsCounted r ts s
    → (kept : List Tuple) × (reached : Bool) × (s' : Sender) × (retry_all env task ts s
        ≡ some (kept, reached, s'))
      × IsRound r ts s kept reached s'
unfolding retry_all get_receiver_by_tuple
retry_all-IsRound env task r [] s h p d c = (
  [],
  true,
  s,
  refl,
  (
    (refl, refl, refl, refl, omega arith),
    (λ id a. refl),
    (λ id a. tt),
    tt,
    tt,
    tt,
    inl (refl, refl),
    omega arith,
  ),
)
retry_all-IsRound env task r (t ∷ ts) s h p d c =
    let (k, e, l) = hash_key-lt env t.key task.parent_job.num_tasks h p in
    let conn = conn_of (receiver_worker_id k s) s in
    let s1 = (retry env t conn s).1 in
    let c1 : IsCounted r ts s1 = still env t conn s r ts d.0 c.1 in
    let (kept, reached, s', run, (f, frame, part, d', more, less, flag, few)) =
      retry_all-IsRound env task r ts s1 h p d.1 c1 in
    let f1 = retry-IsFrame env t conn s in
    let same : IsFrame (length (t ∷ ts)) s s' =
      (f.0 ∙ f1.0, f.1 ∙ f1.1, f.2 ∙ f1.2, f.3 ∙ f1.3, omega (arith, f.4, f1.4)) in
    let counts : (id : String) → IsApart id (t ∷ ts) → count_of id s' ≡ count_of id s =
      λ id a. frame id a.1 ∙ retry-count_of_ne env t conn s id a.0 in
    elim (Bool-cases (retry env t conn s).0) [
      | inr q ↦ (
        kept,
        reached,
        s',
        rw (retry_all, e, run, q) refl,
        (same, counts, (λ id a. part id a.1), d', more, less, flag, omega (arith, few)),
      )
      | inl q ↦
          let (up, cap) = retry-kept env t conn s q in
          let here = frame t.tuple_id d.0 in
          (
            t ∷ kept,
            false,
            s',
            rw (retry_all, e, run, q) refl,
            (
              same,
              counts,
              (λ id a. (a.0, part id a.1)),
              (part t.tuple_id d.0, d'),
              (omega (arith, up, here, c.0), more),
              (omega (arith, up, here, cap), less),
              inr (refl, λ e. cons≢nil e),
              omega (arith, few),
            ),
          )
    ]
  where
    still :
        (env : Env) (t : Tuple) (conn : Option ℕ) (s : Sender) (r : ℕ) (us : List Tuple)
        → IsApart t.tuple_id us
        → IsCounted r us s
        → IsCounted r us (retry env t conn s).1
    still env t conn s r [] a c = tt
    still env t conn s r (u ∷ us) a c = (
      omega (arith, retry-count_of_ne env t conn s u.tuple_id (λ e. a.0 (sym e)), c.0),
      still env t conn s r us a.1 c.1,
    )

-- A round runs through, and settles the tuples or leaves some that were counted once more.
pub resend_round-IsRound :
    (env : Env) (task : JobTask) (r : ℕ) (s : Sender)
    → IsHash env
    → 0 < task.parent_job.num_tasks
    → IsDistinct s.unacked_tuples
    → IsCounted r s.unacked_tuples s
    → (reached : Bool) × (tried : Sender) × (resend_round env task s ≡ some (reached, tried))
      × IsRound r s.unacked_tuples s tried.unacked_tuples reached tried
unfolding resend_round
resend_round-IsRound env task r s h p d c =
    let (kept, reached, s', run, round) = retry_all-IsRound env task r s.unacked_tuples s h p d c in
    (reached, record s' { unacked_tuples = kept }, rw run refl, round)
