-- ===== src/Stream/Sender/Retry.antt =====
-- `ResendUnackedTuples` ends: nine rounds settle every tuple.
use rain_strom_distributed_s.Prelude.{
  List-cases, ℕ, zero, suc, ◌+◌, ◌*◌, ◌≤◌, ◌<◌, ◌≡◌, ◌≢◌, refl, ◌∙◌, ap, subst, arith, false, some,
  List, [], ◌∷◌, string_eq, nat_eq, last, length, All, inl, inr, ◌⊎◌,
}
use native.Mathlib.Nat.{mul-le-mul_left, mul-le-mul_right}
use rain_strom_distributed_s.Stream.Tuples.{Tuple}
use rain_strom_distributed_s.Stream.Network.{JobTask, Env, Sender, max_retry_count}
use rain_strom_distributed_s.Stream.Sender.{count_of, resend_unacked_tuples, finish_task}
use rain_strom_distributed_s.Stream.Sender.Keys.{IsHash}
use rain_strom_distributed_s.Stream.Sender.Rounds.{
  IsDistinct, IsCounted, IsRound, resend_round-IsRound,
}

-- The state when the loop tells the leader that the task is done.
abbrev pub IsSettled : Sender → Sender → Type 0
IsSettled s done =
    (done.unacked_tuples ≡ [])
    × (done.task_queue ≡ s.task_queue)
    × (done.notices ≡ s.notices)
    × (done.output_partition_map ≡ s.output_partition_map)
    × (done.worker_conns ≡ s.worker_conns)

over :
    (kept : List Tuple) (s : Sender)
    → IsCounted (max_retry_count + 1) kept s
    → All (λ t. count_of t.tuple_id s ≤ max_retry_count) kept
    → kept ≡ []
over [] s c l = refl
over (t ∷ ts) s c l = absurd (omega (arith, c.0, l.0))

-- One step of the loop: it ends here, or goes on with tuples that were counted once more.
resend-step :
    (env : Env) (task : JobTask) (fuel r : ℕ) (s : Sender)
    → IsHash env
    → 0 < task.parent_job.num_tasks
    → last s.task_queue ≡ some task
    → IsDistinct s.unacked_tuples
    → IsCounted r s.unacked_tuples s
    → ((done : Sender) × (resend_unacked_tuples env (suc fuel) s ≡ some (finish_task env task done))
        × IsSettled s done
        × (done.calls ≤ s.calls + length s.unacked_tuples))
      ⊎ ((tried : Sender) × (resend_unacked_tuples env (suc fuel) s
            ≡ resend_unacked_tuples env fuel tried)
          × IsRound r s.unacked_tuples s tried.unacked_tuples false tried
          × (tried.unacked_tuples ≢ []))
unfolding resend_unacked_tuples
resend-step env task fuel r s h p q d c = elim (List-cases s.unacked_tuples) [
  | inl e ↦ inl (s, simp (resend_unacked_tuples, q, e), (e, refl, refl, refl, refl), omega arith)
  | inr (t, ts, e) ↦
      let (reached, tried, run, (f, frame, part, d', more, less, flag, few)) =
        resend_round-IsRound env task r s h p d c in
      elim flag [
        | inl (y, z) ↦ inl (
          tried,
          simp (resend_unacked_tuples, q, e, run, y),
          (z, f.0, f.2, f.3, f.1),
          omega (arith, f.4),
        )
        | inr (y, z) ↦ inr (
          tried,
          simp (resend_unacked_tuples, q, e, run, y),
          (f, frame, part, d', more, less, inr (refl, z), few),
          z,
        )
      ]
]

resend-ends_from :
    (env : Env) (task : JobTask) (k r : ℕ) (s : Sender)
    → IsHash env
    → 0 < task.parent_job.num_tasks
    → last s.task_queue ≡ some task
    → IsDistinct s.unacked_tuples
    → IsCounted r s.unacked_tuples s
    → r + k ≡ max_retry_count
    → (done : Sender) × (resend_unacked_tuples env (suc k) s ≡ some (finish_task env task done))
      × IsSettled s done
      × (done.calls ≤ s.calls + suc k * length s.unacked_tuples)
resend-ends_from env task zero r s h p q d c m = elim (resend-step env task zero r s h p q d c) [
  | inl (done, run, settled, calls) ↦ (done, run, settled, omega (arith, calls))
  | inr (tried, run, (f, frame, part, d', more, less, flag, few), z) ↦ absurd (
      z (
        over tried.unacked_tuples tried
          (subst (λ n. IsCounted (suc n) tried.unacked_tuples tried) (omega (arith, m)) more) less))
]
resend-ends_from env task (suc k) r s h p q d c m =
    elim (resend-step env task (suc k) r s h p q d c) [
      | inl (done, run, settled, calls) ↦ (
        done,
        run,
        settled,
        omega (
          arith,
          calls,
          mul-le-mul_right {m = 1} {n = suc (suc k)} (length s.unacked_tuples) (omega arith),
        ),
      )
      | inr (tried, run, (f, frame, part, d', more, less, flag, few), z) ↦
          let (done, run', settled, calls) =
            resend-ends_from env task k (suc r) tried h p (ap last f.0 ∙ q) d' more
              (omega (arith, m)) in
          (
            done,
            run ∙ run',
            (settled.0, settled.1 ∙ f.0, settled.2 ∙ f.2, settled.3 ∙ f.3, settled.4 ∙ f.1),
            omega (arith, calls, f.4, mul-le-mul_left (suc k) few),
          )
    ]

-- For a job with at least one task, if the tuples that wait for an acknowledgment have different
-- ids and there is a task in the queue: `ResendUnackedTuples` returns, after at most nine rounds,
-- whatever the receivers answer. Then no tuple waits, at most nine times as many were sent as had
-- waited, and `finishTask` was called once, for the last task of the queue.
pub resend-ends :
    (env : Env) (task : JobTask) (s : Sender)
    → IsHash env
    → 0 < task.parent_job.num_tasks
    → last s.task_queue ≡ some task
    → IsDistinct s.unacked_tuples
    → (done : Sender) × (resend_unacked_tuples env 9 s ≡ some (finish_task env task done))
      × IsSettled s done
      × (done.calls ≤ s.calls + 9 * length s.unacked_tuples)
resend-ends env task s h p q d =
    resend-ends_from env task max_retry_count 0 s h p q d (counted s.unacked_tuples) refl
  where
    counted : (ts : List Tuple) → IsCounted 0 ts s
    counted [] = tt
    counted (t ∷ ts) = (omega arith, counted ts)
