-- ===== src/Stream/Recovery/Reroute.antt =====
-- A task of stage 2 that goes to another worker: the tuples meant for it follow.
use rain_strom_distributed_s.Prelude.{
  ℕ, zero, suc, ◌≡◌, ◌≢◌, sym, ap, ◌∙◌, subst, true, some, List, [], ◌∷◌, ◌++◌, ◌==◌, get_elem?,
  modify, Map, lookup, insert, nat_eq, integer_eq, lookup-insert_self, lookup-insert_ne, All,
  All-append, Bool-cases, inl, inr, ℤ, pos, negsuc,
}
use mathlib.Core.List.{cons≢nil}
use rain_strom_distributed_s.Stream.Leader.{Task, Worker, Leader}
use native.Mathlib.Decide.{ℕ_discrete}
use rain_strom_distributed_s.Stream.Recovery.Place.{IsPlaced}
use rain_strom_distributed_s.Stream.Recovery.{worker_at, has_parent}

-- Every task in a worker's queue was sent.
abbrev pub IsSent : Leader → Type 0
IsSent l = All (λ p. All (λ t. has_parent l.sent t ≡ true) p.1.task_queue) l.workers

lookup-All :
    (P : Worker → Type 0) (k : ℕ) (m : Map ℕ Worker) (w : Worker)
    → All (λ p. P p.1) m
    → lookup k m ≡ some w
    → P w
unfolding lookup
lookup-All P k [] w a e = absurd (cc)
lookup-All P k ((j, v) ∷ m) w a e = elim (Bool-cases (j == k)) [
  | inl q ↦
      let z : some v ≡ some w = rw (lookup, q) at e in let same : v ≡ w = cc in subst P same a.0
  | inr q ↦ lookup-All P k m w a.1 (rw (lookup, q) at e)
]

-- A worker that is there is there after a task was placed, with a queue that has no less in it.
snoc≢nil : (t : ℕ) (xs : List ℕ) → (xs ++ t ∷ []) ≢ []
snoc≢nil t [] e = cons≢nil e
snoc≢nil t (x ∷ xs) e = cons≢nil e

pub placed-worker :
    (task : ℕ) (l placed : Leader) (z : ℤ) (v : Worker)
    → IsPlaced task l placed
    → IsSent l
    → has_parent l.sent task ≡ true
    → worker_at z l.workers ≡ some v
    → (v' : Worker) × (worker_at z placed.workers ≡ some v')
      × All (λ t. has_parent placed.sent t ≡ true) v'.task_queue
      × (v.task_queue ≢ [] → v'.task_queue ≢ [])
placed-worker task l placed (negsuc k) v i a p e = absurd (cc)
placed-worker task l placed (pos k) v (key, w, there, alive, eq) a p e =
    subst
      (λ m.
        (v' : Worker) × (worker_at (pos k) m.workers ≡ some v')
        × All (λ t. has_parent m.sent t ≡ true) v'.task_queue
        × (v.task_queue ≢ [] → v'.task_queue ≢ []))
      (sym eq)
      (elim (ℕ_discrete key k) [
        | no n ↦ (v, lookup-insert_ne key k (full w) l.workers n ∙ e, sent k v e, (λ h. h))
        | yes y ↦ (
          record w { task_queue = w.task_queue ++ task ∷ [] },
          subst (λ j. lookup j (insert key (full w) l.workers) ≡ some (full w)) y
              (lookup-insert_self key (full w) l.workers),
          All-append _ w.task_queue (task ∷ []) (sent key w there) (p, tt),
          (λ h. snoc≢nil task w.task_queue),
        )
      ])
  where
    full : Worker → Worker
    full w = record w { task_queue = w.task_queue ++ task ∷ [] }

    sent :
        (k : ℕ) (v : Worker)
        → lookup k l.workers ≡ some v
        → All (λ t. has_parent l.sent t ≡ true) v.task_queue
    sent k v e =
        lookup-All (λ v. All (λ t. has_parent l.sent t ≡ true) v.task_queue) k l.workers v a e

-- The task is there, with the id of the worker that it was given to.
pub get_elem?-modify :
    (tasks : List Task) (r : ℕ) (t : Task) (f : Task → Task)
    → get_elem? tasks r ≡ some t
    → get_elem? (modify tasks r f) r ≡ some (f t)
get_elem?-modify [] r t f e = absurd (cc)
get_elem?-modify (x ∷ xs) zero t f e = let same : x ≡ t = cc in ap (λ y. some (f y)) same
get_elem?-modify (x ∷ xs) (suc r) t f e = get_elem?-modify xs r t f e

-- The task with no worker, which is what `RescheduleSplitTask` looks for a worker for.
abbrev pub reset : ℕ → Leader → Leader
reset task l = record l { tasks = modify l.tasks task (λ t. record t { worker_id = negsuc 0 }) }
