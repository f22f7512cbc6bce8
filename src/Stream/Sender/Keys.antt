-- ===== src/Stream/Sender/Keys.antt =====
-- Every key has a place among the tasks of stage 2.
use rain_strom_distributed_s.Prelude.{
  ℕ, zero, suc, ◌+◌, ◌*◌, ◌%◌, ◌^◌, ◌<◌, ◌≡◌, refl, arith, some, List, ◌∷◌, String, lookup, nat_eq,
  ℤ,
}
use native.Mathlib.Nat.{mod-lt}
use rain_strom_distributed_s.Stream.Tuples.{Tuple}
use rain_strom_distributed_s.Stream.Network.{
  JobTask, Env, Sender, hash_key, receiver_worker_id, conn_of, get_receiver_by_tuple,
}

-- SHA-1 gives at least four bytes.
abbrev pub IsHash : Env → Type 0
IsHash env =
    (key : String)
    → (b0 : ℕ) × (b1 : ℕ) × (b2 : ℕ) × (b3 : ℕ) × (rest : List ℕ) × (env.sha1 key
        ≡ b0 ∷ b1 ∷ b2 ∷ b3 ∷ rest)

pub hash_key-lt :
    (env : Env) (key : String) (n : ℕ)
    → IsHash env
    → 0 < n
    → (k : ℕ) × (hash_key env key n ≡ some k) × (k < n)
unfolding hash_key
hash_key-lt env key zero h p = absurd (omega arith)
hash_key-lt env key (suc n) h p =
    let (b0, b1, b2, b3, rest, e) = h key in
    let hash = b0 * 2 ^ 24 + b1 * 2 ^ 16 + b2 * 2 ^ 8 + b3 in
    (hash % suc n, rw (hash_key, e) refl, mod-lt hash (omega arith))

-- The places of the map are those below the number of tasks.
abbrev pub HasPlaces : ℕ → Sender → Type 0
HasPlaces n s = (k : ℕ) → k < n → (w : ℤ) × (lookup k s.output_partition_map ≡ some w)

-- For a job with at least one task, whatever the key of a tuple: its hash is the number of one of
-- the job's tasks, and if the worker's map has an entry for each of them, the tuple goes over the
-- connection to the worker of that entry, and never to the worker 0 of a missing entry.
pub get_receiver-places :
    (env : Env) (t : Tuple) (task : JobTask) (s : Sender)
    → IsHash env
    → 0 < task.parent_job.num_tasks
    → HasPlaces task.parent_job.num_tasks s
    → (k : ℕ) × (w : ℤ) × (hash_key env t.key task.parent_job.num_tasks ≡ some k)
      × (k < task.parent_job.num_tasks)
      × (lookup k s.output_partition_map ≡ some w)
      × (get_receiver_by_tuple env t task s ≡ some (conn_of w s))
unfolding get_receiver_by_tuple receiver_worker_id
get_receiver-places env t task s h p m =
    let (k, e, l) = hash_key-lt env t.key task.parent_job.num_tasks h p in
    let (w, f) = m k l in (k, w, e, l, f, rw (get_receiver_by_tuple, e, receiver_worker_id, f) refl)
