-- ===== src/Stream/Counting/Whole.antt =====
-- A job of the two sides together: the lines of a partition at a worker of stage 1, and the counts
-- at a worker of stage 2.
use text.Mathlib.TextEquality.{eq_iff}
use rain_strom_distributed_s.Prelude.{
  ℕ, ◌+◌, ◌≡◌, ◌≢◌, refl, sym, ap, ◌∙◌, subst, arith, Bool, true, false, Option, none, some, List,
  [], ◌∷◌, String, lookup, string_eq, str_eq, if◌then◌else◌, ◌==◌, Has, All, ◌++◌, ◌<◌, Has-append,
  All-map, Has-All, All-Has, Bool-cases, inl, inr, ℤ,
}
use rain_strom_distributed_s.Stream.Tuples.{Tuple, Receiver}
use rain_strom_distributed_s.Stream.Network.{JobTask, Env, Sender, hash_key}
use rain_strom_distributed_s.Stream.Sender.{or_zero, get_arguments, perform_lines, all_acknowledged}
use rain_strom_distributed_s.Stream.Sender.Rounds.{IsApart, IsDistinct}
use rain_strom_distributed_s.Stream.Operators.{Packages}
use rain_strom_distributed_s.Stream.Operators.Adds.{Laws}
use rain_strom_distributed_s.Stream.Counting.{count_all}
use rain_strom_distributed_s.Stream.Counting.Fresh.{ReadsBack, AreCounted, value_for}
use rain_strom_distributed_s.Stream.Counting.Once.{total, count_all-total}
use rain_strom_distributed_s.Stream.Sender.Keys.{IsHash}
use rain_strom_distributed_s.Stream.Counting.Lines.{made_of, perform_lines-acknowledged}
use rain_strom_distributed_s.Stream.Counting.Returns.{perform_lines-returns}

-- The key goes to the receiver with the number `h`, of a job with `num` tasks per stage.
abbrev pub goes_to : Env → ℕ → ℕ → String → Bool
goes_to env num h key = elim (hash_key env key num) [ none ↦ false | some i ↦ i == h ]

-- The tuples whose keys pass the test.
abbrev pub routed : (String → Bool) → List Tuple → List Tuple
routed f [] = []
routed f (t ∷ ts) = let rest = routed f ts in if f t.key then t ∷ rest else rest

module _ (f : String → Bool) where
  routed-Has : (t : Tuple) (ts : List Tuple) → Has t (routed f ts) → Has t ts × (f t.key ≡ true)
  routed-Has t [] h = absurd h
  routed-Has t (u ∷ ts) h = elim (Bool-cases (f u.key)) [
    | inl z ↦
        let h' : Has t (u ∷ routed f ts) = rw z at h in
        elim h' [
          | inl p ↦ (inl p, subst (λ v. f v.key ≡ true) (sym p) z)
          | inr w ↦ let k = routed-Has t ts w in (inr k.0, k.1)
        ]
    | inr z ↦
        let h' : Has t (routed f ts) = rw z at h in let k = routed-Has t ts h' in (inr k.0, k.1)
  ]

  Has-routed : (t : Tuple) (ts : List Tuple) → Has t ts → f t.key ≡ true → Has t (routed f ts)
  Has-routed t [] h e = absurd h
  Has-routed t (u ∷ ts) (inl p) e =
      let z : f u.key ≡ true = subst (λ v. f v.key ≡ true) p e in rw z (inl p)
  Has-routed t (u ∷ ts) (inr h) e = elim (Bool-cases (f u.key)) [
    | inl z ↦ rw z (inr (Has-routed t ts h e))
    | inr z ↦ rw z (Has-routed t ts h e)
  ]

  routed-IsDistinct : (ts : List Tuple) → IsDistinct ts → IsDistinct (routed f ts)
  routed-IsDistinct [] d = tt
  routed-IsDistinct (u ∷ ts) d = elim (Bool-cases (f u.key)) [
    | inl z ↦
        let a : IsApart u.tuple_id (routed f ts) =
          Has-All (λ v. v.tuple_id ≢ u.tuple_id) (routed f ts)
            (λ v h. All-Has (λ w. w.tuple_id ≢ u.tuple_id) ts v d.0 (routed-Has v ts h).0) in
        rw z (a, routed-IsDistinct ts d.1)
    | inr z ↦ rw z (routed-IsDistinct ts d.1)
  ]

  total-routed : (k : String) (ts : List Tuple) → f k ≡ true → total k (routed f ts) ≡ total k ts
  total-routed k [] e = refl
  total-routed k (u ∷ ts) e = elim (Bool-cases (f u.key)) [
    | inl z ↦ rw z (ap (λ n. value_for k u + n) (total-routed k ts e))
    | inr z ↦ elim (Bool-cases (str_eq u.key k)) [
      | inl q ↦
          let p : u.key ≡ k = (eq_iff u.key k).0 q in let y : f u.key ≡ true = ap f p ∙ e in cc
      | inr q ↦ rw (z, q) (omega (arith, total-routed k ts e))
    ]
  ]

-- A task of stage 1 with the lines of its file and the worker that performs it.
pub record Share : Type 0 where
  pub task : JobTask
  pub file : String
  pub start : ℕ
  pub end : ℤ
  pub lines : List String
  pub worker : Sender

abbrev pub share_tuples : Env → Share → List Tuple
share_tuples env p =
    made_of env p.task (get_arguments env p.task "" p.worker) p.file p.start p.end p.lines 0 0

-- The loop of `PerformTask` over the lines, and the worker after it.
abbrev pub run_share : Env → Share → Option Sender
run_share env p = perform_lines env p.task p.file p.start p.end p.lines 0 0 p.worker

abbrev pub after_share : Env → Share → Sender
after_share env p = elim (run_share env p) [ none ↦ p.worker | some s ↦ s ]

abbrev pub all_tuples : Env → List Share → List Tuple
all_tuples env [] = []
all_tuples env (p ∷ ps) = share_tuples env p ++ all_tuples env ps

module _ (env : Env) (hash : IsHash env) where
  run_share-returns :
      (p : Share) → 0 < p.task.parent_job.num_tasks → run_share env p ≡ some (after_share env p)
  run_share-returns p n =
      let (s, e) =
        perform_lines-returns env p.task hash n p.file p.start p.end p.lines 0 0 p.worker in
      let back : after_share env p ≡ s = ap (λ o. elim o [ none ↦ p.worker | some z ↦ z ]) e in
      e ∙ ap (λ z. some z) (sym back)

  acknowledged :
      (ps : List Share) (t : Tuple)
      → All (λ p. 0 < p.task.parent_job.num_tasks) ps
      → All (λ p. all_acknowledged (after_share env p).tuple_ack_map ≡ true) ps
      → Has t (all_tuples env ps)
      → (p : Share) × Has p ps × (lookup t.tuple_id (after_share env p).tuple_ack_map ≡ some true)
  acknowledged [] t n a h = absurd h
  acknowledged (p ∷ ps) t n a h = elim (Has-append t (share_tuples env p) (all_tuples env ps) h) [
    | inl w ↦ (
      p,
      inl refl,
      perform_lines-acknowledged env p.task p.file p.start p.end p.lines p.worker
          (after_share env p) t (run_share-returns p n.0) a.0 w,
    )
    | inr w ↦ let (u, there, e) = acknowledged ps t n.1 a.1 w in (u, inr there, e)
  ]

-- Workers of stage 1 perform tasks, each on the lines of its partition, of a job with at least one
-- task per stage; the ids of the tuples that they make differ, SHA-1 gives at least four bytes, and
-- each sender finds all its entries acknowledged after its loop. A counting worker of stage 2 with a
-- task, no counts yet, and files that can be opened and written gets tuples whose keys go to the
-- receiver `h`, in any order and any number of times, and no others: among them each one that a
-- sender has noted as acknowledged, all of them such that go through the programs unharmed. Then the
-- loops of the senders run through, and the count of every key for `h` is the sum of the values that
-- the operator of stage 1 gives for the key over the lines of all the partitions.
pub count_all-lines :
    (env : Env) (lib : Packages) (IsPlain : String → Type 0) (ps : List Share) (num h : ℕ)
    (ts : List Tuple) (r : Receiver) (k : String) (q : ℕ) (qs : List ℕ)
    → IsHash env
    → Laws lib IsPlain
    → ReadsBack lib IsPlain
    → AreCounted IsPlain ts
    → All (λ p. 0 < p.task.parent_job.num_tasks) ps
    → IsDistinct (all_tuples env ps)
    → All (λ p. all_acknowledged (after_share env p).tuple_ack_map ≡ true) ps
    → All (λ t. Has t (routed (goes_to env num h) (all_tuples env ps))) ts
    → ((p : Share) (t : Tuple)
        → Has p ps
        → Has t (routed (goes_to env num h) (all_tuples env ps))
        → lookup t.tuple_id (after_share env p).tuple_ack_map ≡ some true
        → Has t ts)
    → goes_to env num h k ≡ true
    → r.queue ≡ q ∷ qs
    → r.aol ≡ []
    → r.output_map ≡ []
    → All (λ p. run_share env p ≡ some (after_share env p)) ps
      × (or_zero (lookup k (count_all lib ts r).output_map) ≡ total k (all_tuples env ps))
count_all-lines env lib IsPlain ps num h ts r k q qs hash laws reads plain n d a only arrives e f
      aol out =
    let made = all_tuples env ps in
    let goes = goes_to env num h in
    let arrived : (t : Tuple) → Has t (routed goes made) → Has t ts = λ t w.
      let (p, there, acked) = acknowledged env hash ps t n a (routed-Has goes t made w).0 in
      arrives p t there w acked in
    let counted =
      count_all-total lib IsPlain (routed goes made) ts r k q qs laws reads plain
        (routed-IsDistinct goes made d) only arrived f aol out in
    (
      All-map (λ p. 0 < p.task.parent_job.num_tasks)
          (λ p. run_share env p ≡ some (after_share env p)) ps (run_share-returns env hash) n,
      counted ∙ total-routed goes k made e,
    )
