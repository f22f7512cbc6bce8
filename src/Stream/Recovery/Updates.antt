-- ===== src/Stream/Recovery/Updates.antt =====
-- What the updates of the sending tasks do.
use rain_strom_distributed_s.Prelude.{
  append_assoc, append_nil, ℕ, ◌≡◌, ◌≢◌, refl, sym, ap, ◌∙◌, subst, arith, true, false, none, some,
  List, [], ◌∷◌, ◌++◌, ◌==◌, Map, lookup, insert, nat_eq, integer_eq, int_eq, int_beq_iff,
  lookup-insert_self, lookup-insert_ne, All, All-map, Has, Bool-cases, Option-cases, inl, inr, ◌⊎◌,
  ℤ, pos, ==→≡,
}
use mathlib.Core.List.{cons≢nil}
use rain_strom_distributed_s.Stream.Leader.{Worker, Leader}
use rain_strom_distributed_s.Stream.Recovery.{
  worker_at, has_parent, get_sender_workers, get_partition, update_queue, update_senders,
}

-- The partition that is found goes to the failed worker.
pub get_partition-found :
    (hashes : List ℤ) (failed : ℤ) (parts : Map ℤ ℤ) (h : ℤ)
    → Has h hashes
    → lookup h parts ≡ some failed
    → (g : ℤ) × (get_partition hashes failed parts ≡ g) × (lookup g parts ≡ some failed)
unfolding get_partition
get_partition-found [] failed parts h i e = absurd i
get_partition-found (g ∷ gs) failed parts h i e = elim (Option-cases (lookup g parts)) [
  | inl n ↦
      let more : Has h gs = elim i [ inl q ↦ absurd (cc) | inr q ↦ q ] in
      rw (get_partition, n) (get_partition-found gs failed parts h more e)
  | inr (receiver, k) ↦ elim (Bool-cases (int_eq receiver failed)) [
    | inl q ↦
        rw (get_partition, k, q) (g, refl, k ∙ ap (λ x. some x) ((int_beq_iff receiver failed).0 q))
    | inr q ↦
        let more : Has h gs = elim i [
          | inl x ↦
              let same : receiver ≡ failed = cc in
              absurd (
                cc
                  ((int_beq_iff failed failed).1 refl, subst (λ z. int_eq z failed ≡ false) same q))
          | inr x ↦ x
        ] in
        rw (get_partition, k, q) (get_partition-found gs failed parts h more e)
  ]
]

-- The senders that are found are those of the failed worker.
pub get_sender_workers-found :
    (stages : List ℕ) (failed : ℕ) (l : Leader) (senders : List ℤ)
    → All (λ k. (w : Worker) × (lookup k l.workers ≡ some w)) stages
    → Has failed stages
    → lookup failed l.stage_tasks ≡ some senders
    → get_sender_workers stages (pos failed) l ≡ some senders
unfolding get_sender_workers int_eq
get_sender_workers-found [] failed l senders a i e = absurd i
get_sender_workers-found (k ∷ ks) failed l senders a i e =
    let (w, f) = a.0 in
    elim (Bool-cases (k == failed)) [
      | inl q ↦
          let same : k ≡ failed = ==→≡ k failed q in
          let there : lookup k l.stage_tasks ≡ some senders =
            subst (λ j. lookup j l.stage_tasks ≡ some senders) (sym same) e in
          rw (get_sender_workers, f, there, int_eq, q) refl
      | inr q ↦
          let more : Has failed ks = elim i [ inl x ↦ absurd (ground (arith, q, x)) | inr x ↦ x ] in
          let rest = get_sender_workers-found ks failed l senders a.1 more e in
          elim (Option-cases (lookup k l.stage_tasks)) [
            | inl n ↦ rw (get_sender_workers, f, n) rest
            | inr (s, n) ↦ rw (get_sender_workers, f, n, int_eq, q) rest
          ]
    ]

-- What the updates for these tasks do.
abbrev pub IsUpdate : ℤ → ℤ → List ℕ → Leader → Leader → Type 0
IsUpdate hash worker tasks l l' =
    (l'.updated ≡ l.updated ++ tasks)
    × ((j : ℤ) → hash ≢ j → lookup j l'.output_partitions ≡ lookup j l.output_partitions)
    × ((tasks ≢ []) ⊎ (lookup hash l.output_partitions ≡ some worker)
        → lookup hash l'.output_partitions ≡ some worker)
    × (l'.workers ≡ l.workers)
    × (l'.sent ≡ l.sent)
    × (l'.tasks ≡ l.tasks)
    × (l'.stage_tasks ≡ l.stage_tasks)

update_queue-IsUpdate :
    (hash worker : ℤ) (tasks : List ℕ) (l : Leader)
    → All (λ t. has_parent l.sent t ≡ true) tasks
    → (l' : Leader) × (update_queue hash worker tasks l ≡ some l') × IsUpdate hash worker tasks l l'
unfolding update_queue
update_queue-IsUpdate hash worker [] l a = (
  l,
  refl,
  (
    sym (append_nil l.updated),
    (λ j n. refl),
    (λ h. elim h [ inl n ↦ absurd (n refl) | inr e ↦ e ]),
    refl,
    refl,
    refl,
    refl,
  ),
)
update_queue-IsUpdate hash worker (t ∷ ts) l a =
    let next : Leader = record l {
      output_partitions = insert hash worker l.output_partitions;
      updated = l.updated ++ t ∷ [];
    } in
    let (l', run, (u, other, here, w, s, k, g)) = update_queue-IsUpdate hash worker ts next a.1 in
    (
      l',
      rw (update_queue, a.0) run,
      (
        u ∙ append_assoc l.updated (t ∷ []) ts,
        (λ j n. other j n ∙ lookup-insert_ne hash j worker l.output_partitions n),
        (λ h. here (inr (lookup-insert_self hash worker l.output_partitions))),
        w,
        s,
        k,
        g,
      ),
    )

joined :
    {A B C : Type 0} (xs ys : List ℕ)
    → ((xs ++ ys) ≢ []) ⊎ A
    → ((xs ≢ []) ⊎ A → B)
    → ((ys ≢ []) ⊎ B → C)
    → C
joined [] ys h f g = elim h [ inl n ↦ g (inl n) | inr a ↦ g (inr (f (inr a))) ]
joined (x ∷ xs) ys h f g = g (inr (f (inl (λ e. cons≢nil e))))

-- The queues of the senders.
abbrev pub queues_of : List ℤ → Map ℕ Worker → List ℕ
queues_of [] workers = []
queues_of (z ∷ zs) workers =
    (elim (worker_at z workers) [ none ↦ [] | some w ↦ w.task_queue ]) ++ queues_of zs workers

-- Each sender is a worker whose tasks were sent.
abbrev pub HasSent : Leader → ℤ → Type 0
HasSent l z =
    (w : Worker) × (worker_at z l.workers ≡ some w)
    × All (λ t. has_parent l.sent t ≡ true) w.task_queue

pub update_senders-IsUpdate :
    (hash worker : ℤ) (senders : List ℤ) (l : Leader)
    → All (HasSent l) senders
    → (l' : Leader) × (update_senders hash worker senders l ≡ some l')
      × IsUpdate hash worker (queues_of senders l.workers) l l'
unfolding update_senders
update_senders-IsUpdate hash worker [] l a = (
  l,
  refl,
  (
    sym (append_nil l.updated),
    (λ j n. refl),
    (λ h. elim h [ inl n ↦ absurd (n refl) | inr e ↦ e ]),
    refl,
    refl,
    refl,
    refl,
  ),
)
update_senders-IsUpdate hash worker (z ∷ zs) l a =
    let (v, e, parents) = a.0 in
    let (l1, run1, (u1, other1, here1, w1, s1, k1, g1)) =
      update_queue-IsUpdate hash worker v.task_queue l parents in
    let moved : All (HasSent l1) zs = still l l1 (sym w1) (sym s1) zs a.1 in
    let (l2, run2, (u2, other2, here2, w2, s2, k2, g2)) =
      update_senders-IsUpdate hash worker zs l1 moved in
    let queues : queues_of zs l1.workers ≡ queues_of zs l.workers = ap (queues_of zs) w1 in
    (
      l2,
      rw (update_senders, e, run1) run2,
      rw e (
        u2
            ∙ ap (λ m. m ++ queues_of zs l1.workers) u1
            ∙ append_assoc l.updated v.task_queue (queues_of zs l1.workers)
            ∙ ap (λ m. l.updated ++ (v.task_queue ++ m)) queues,
        (λ j n. other2 j n ∙ other1 j n),
        (λ h. joined v.task_queue (queues_of zs l.workers) h here1 (
            subst
              (λ m.
                (m ≢ []) ⊎ (lookup hash l1.output_partitions ≡ some worker)
                → lookup hash l2.output_partitions ≡ some worker)
              queues here2)),
        w2 ∙ w1,
        s2 ∙ s1,
        k2 ∙ k1,
        g2 ∙ g1,
      ),
    )
  where
    still :
        (l l1 : Leader)
        → l.workers ≡ l1.workers
        → l.sent ≡ l1.sent
        → (zs : List ℤ) → All (HasSent l) zs
        → All (HasSent l1) zs
    still l l1 w s zs a =
        All-map (HasSent l) (HasSent l1) zs
          (λ z (v, e, p). (
            v,
            subst (λ m. worker_at z m ≡ some v) w e,
            subst (λ m. All (λ t. has_parent m t ≡ true) v.task_queue) s p,
          ))
          a
