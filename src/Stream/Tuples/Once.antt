-- ===== src/Stream/Tuples/Once.antt =====
-- A tuple has an effect at most once; and one that fails after it was noted has none, for ever.
use rain_strom_distributed_s.Prelude.{
  IsDistinct, ap, ℕ, ◌≡◌, ◌≢◌, refl, sym, ◌∙◌, subst, Bool, true, none, some, List, [], ◌∷◌, ◌++◌,
  String, Map, lookup, insert, string_eq, str_eq, lookup-insert, lookup-insert_self, Option-cases,
  Bool-cases, inl, inr, All, All-append,
}
use rain_strom_distributed_s.Stream.Tuples.Response.{success, completed, fail}
use rain_strom_distributed_s.Stream.Tuples.{
  Tuple, World, Receiver, Response, store_result, process_received_tuples, exchange,
}

IsDistinct-snoc :
    (x : String) (xs : List String)
    → IsDistinct xs
    → All (λ y. y ≢ x) xs
    → IsDistinct (xs ++ x ∷ [])
IsDistinct-snoc x [] d h = (tt, tt)
IsDistinct-snoc x (y ∷ ys) d h =
    (All-append (λ z. y ≢ z) ys (x ∷ []) d.0 (h.0, tt), IsDistinct-snoc x ys d.1 h.1)

-- What is written was noted before, and is written once.
abbrev pub IsOnce : Receiver → Type 0
IsOnce r = All (λ id. lookup id r.aol ≡ some true) r.written × IsDistinct r.written

noted-insert :
    (id : String) (aol : Map String Bool) (ids : List String)
    → All (λ i. lookup i aol ≡ some true) ids
    → All (λ i. lookup i (insert id true aol) ≡ some true) ids
noted-insert id aol [] h = tt
noted-insert id aol (i ∷ ids) h = (
  (elim (Bool-cases (str_eq id i)) [
    | inl q ↦ rw (lookup-insert id i true aol, q) refl
    | inr q ↦ rw (lookup-insert id i true aol, q) h.0
  ]),
  noted-insert id aol ids h.1,
)

fresh-apart :
    (id : String) (aol : Map String Bool) (ids : List String)
    → lookup id aol ≡ none
    → All (λ i. lookup i aol ≡ some true) ids
    → All (λ i. i ≢ id) ids
fresh-apart id aol [] n h = tt
fresh-apart id aol (i ∷ ids) n h =
    (λ e. cc (sym (subst (λ z. lookup z aol ≡ some true) e h.0) ∙ n), fresh-apart id aol ids n h.1)

store_result-IsOnce :
    (w : World) (t : Tuple) (v : ℕ) (r : Receiver)
    → IsOnce r
    → lookup t.tuple_id r.aol ≡ some true
    → All (λ i. i ≢ t.tuple_id) r.written
    → IsOnce (store_result w t v r).0
unfolding store_result
store_result-IsOnce w t v r o n a =
    let more : IsOnce (record r { written = r.written ++ t.tuple_id ∷ [] }) = (
      All-append (λ id. lookup id r.aol ≡ some true) r.written (t.tuple_id ∷ []) o.0 (n, tt),
      IsDistinct-snoc t.tuple_id r.written o.1 a,
    ) in
    elim (Bool-cases (w.writes_data t.tuple_id)) [
      | inr q ↦ rw (store_result, q) o
      | inl q ↦ elim (Bool-cases (w.writes_aol t.tuple_id)) [
        | inl p ↦ rw (store_result, q, p) more
        | inr p ↦ rw (store_result, q, p) more
      ]
    ]

process-IsOnce :
    (w : World) (t : Tuple) (r : Receiver) → IsOnce r → IsOnce (process_received_tuples w t r).0
unfolding process_received_tuples
process-IsOnce w t r o = elim (Bool-cases w.opens_aol) [
  | inr q ↦ rw (process_received_tuples, q) o
  | inl q ↦ elim (Option-cases (lookup t.tuple_id r.aol)) [
    | inr (b, e) ↦ rw (process_received_tuples, q, e) o
    | inl e ↦ rw (process_received_tuples, q, e) (fresh-IsOnce r.queue e)
  ]
]
  where
    added : Receiver
    added = record r { aol = insert t.tuple_id true r.aol }

    kept : IsOnce added
    kept = (noted-insert t.tuple_id r.aol r.written o.0, o.1)

    fresh-IsOnce :
        (queue : List ℕ)
        → lookup t.tuple_id r.aol ≡ none
        → IsOnce (
            (elim queue as (λ _. Receiver × Response) [
              | [] ↦ (added, fail)
              | q ∷ qs ↦ (elim (w.execute t) as (λ _. Receiver × Response) [
                | none ↦ (added, fail)
                | some v ↦ store_result w t v added
              ])
            ]).0)
    fresh-IsOnce [] e = kept
    fresh-IsOnce (q ∷ qs) e = elim (Option-cases (w.execute t)) [
      | inl x ↦ rw x kept
      | inr (v, x) ↦ rw x (
          store_result-IsOnce w t v added kept (lookup-insert_self t.tuple_id true r.aol)
            (fresh-apart t.tuple_id r.aol r.written e o.0))
    ]

exchange-IsOnce : (w : World) (t : Tuple) (r : Receiver) → IsOnce r → IsOnce (exchange w t r).0
unfolding exchange
exchange-IsOnce w t r o =
    keep (process_received_tuples w t r).0 (process_received_tuples w t r).1
      (process-IsOnce w t r o)
  where
    keep :
        (s : Receiver) (a : Response)
        → IsOnce s
        → IsOnce (
            (elim a as (λ _. Receiver × Response) [
              | success ↦
                  (record s { processed_ids = insert t.tuple_id true s.processed_ids }, success)
              | completed ↦ (s, completed)
              | fail ↦ (s, fail)
            ]).0)
    keep s success h = h
    keep s completed h = h
    keep s fail h = h

-- The tuples of a stream, each with the environment that it meets.
abbrev pub receive_all : List (World × Tuple) → Receiver → Receiver
receive_all [] r = r
receive_all ((w, t) ∷ ts) r = receive_all ts (exchange w t r).0

-- Whatever tuples a worker receives, repeated ones included, and whatever fails: no tuple has its
-- result written twice, and each written one is in the worker's set, if both hold at the start.
pub receive_all-IsOnce :
    (ts : List (World × Tuple)) (r : Receiver) → IsOnce r → IsOnce (receive_all ts r)
receive_all-IsOnce [] r o = o
receive_all-IsOnce ((w, t) ∷ ts) r o =
    receive_all-IsOnce ts (exchange w t r).0 (exchange-IsOnce w t r o)

-- A new tuple whose execution fails is answered with FAIL; when it is sent again, whatever its
-- execution would give, it is answered with COMPLETED, and nothing of it is counted or written.
pub failed_tuple-lost :
    (w later : World) (t : Tuple) (r : Receiver) (q : ℕ) (qs : List ℕ)
    → w.opens_aol ≡ true
    → later.opens_aol ≡ true
    → lookup t.tuple_id r.aol ≡ none
    → r.queue ≡ q ∷ qs
    → w.execute t ≡ none
    → (s : Receiver) × (exchange w t r ≡ (s, fail))
      × (exchange later t s ≡ (s, completed))
      × (s.written ≡ r.written)
      × (s.output_map ≡ r.output_map)
unfolding exchange process_received_tuples
failed_tuple-lost w later t r q qs a b n k x =
    let s : Receiver = record r { aol = insert t.tuple_id true r.aol; queue = q ∷ qs } in
    let there = lookup-insert_self t.tuple_id true r.aol in
    let one : process_received_tuples w t r ≡ (s, fail) =
      rw (a, n, k, x, process_received_tuples)
        (ap (λ l. (record r { aol = insert t.tuple_id true r.aol; queue = l }, fail)) k) in
    let two : process_received_tuples later t s ≡ (s, completed) =
      rw (b, there, process_received_tuples) refl in
    (
      s,
      rw (exchange, one) (ap (λ z. (z.0, fail)) one),
      rw (exchange, two) (ap (λ z. (z.0, completed)) two),
      refl,
      refl,
    )
