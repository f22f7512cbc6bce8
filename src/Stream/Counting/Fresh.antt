-- ===== src/Stream/Counting/Fresh.antt =====
-- What a counting worker adds up: the values of the tuples that it has not seen.
use text.Mathlib.TextEquality.{eq_iff}
use rain_strom_distributed_s.Prelude.{
  ℕ, ◌<◌, ◌+◌, ◌≡◌, refl, ap, ◌∙◌, arith, Bool, true, none, some, List, [], ◌∷◌, String, Map,
  lookup, insert, string_eq, str_eq, if◌then◌else◌, All, Bool-cases, Option-cases, inl, inr,
  lookup-insert,
}
use rain_strom_distributed_s.Stream.Tuples.{
  Tuple, Receiver, exchange, process_received_tuples, store_result,
}
use rain_strom_distributed_s.Stream.Tuples.Response.{success, completed}
use rain_strom_distributed_s.Stream.Sender.{or_zero}
use rain_strom_distributed_s.Stream.Operators.{Packages, line}
use rain_strom_distributed_s.Stream.Operators.Adds.{Laws, IsKey, app2_op2-adds}
use rain_strom_distributed_s.Stream.Counting.{
  convert_output_to_tuple, execute_count, counting, count_all,
}

-- `json.Unmarshal` reads what `Println` made of the JSON text of a tuple.
abbrev pub ReadsBack : Packages → (String → Type 0) → Type 0
ReadsBack lib IsPlain =
    (key text : String) (n : ℕ)
    → IsPlain key
    → line (lib.marshal key n) ≡ some text
    → lib.unmarshal text ≡ some (key, n)

-- The tuples go through the programs unharmed: their keys do, and their values are not zero.
abbrev pub AreCounted : (String → Type 0) → List Tuple → Type 0
AreCounted IsPlain ts = All (λ t. IsPlain t.key × IsKey t.key × (0 < t.value)) ts

-- The value of the tuple, if it is for the key.
abbrev pub value_for : String → Tuple → ℕ
value_for k t = if str_eq t.key k then t.value else 0

-- The values of the tuples for a key whose ids are not in the map, each id once.
unfoldable pub fresh : String → Map String Bool → List Tuple → ℕ
fresh k aol [] = 0
fresh k aol (t ∷ ts) = elim (lookup t.tuple_id aol) [
  | some _ ↦ fresh k aol ts
  | none ↦ value_for k t + fresh k (insert t.tuple_id true aol) ts
]

module _ (lib : Packages) (IsPlain : String → Type 0) (laws : Laws lib IsPlain)
    (reads : ReadsBack lib IsPlain) where
  execute_count-adds :
      (counts : Map String ℕ) (t : Tuple)
      → IsPlain t.key
      → IsKey t.key
      → 0 < t.value
      → execute_count lib counts t ≡ some (or_zero (lookup t.key counts) + t.value)
  unfolding execute_count convert_output_to_tuple
  execute_count-adds counts t p k pos =
      let n = or_zero (lookup t.key counts) + t.value in
      let out = app2_op2-adds lib IsPlain t.key (or_zero (lookup t.key counts)) t.value laws p k in
      rw (execute_count, laws.marshal_tuple_lem t.key t.value p k pos, out)
        (rw (convert_output_to_tuple, reads t.key _ n p refl) refl)

  -- A tuple that was seen before changes nothing.
  exchange-known :
      (t : Tuple) (r : Receiver) (b : Bool)
      → lookup t.tuple_id r.aol ≡ some b
      → (exchange (counting lib r) t r).0 ≡ r
  unfolding exchange process_received_tuples
  exchange-known t r b e =
      let one : process_received_tuples (counting lib r) t r ≡ (r, completed) =
        rw (process_received_tuples, e) refl in
      rw (exchange, one) (ap (λ z. z.0) one)

  -- A new one is noted, and its value is added to the count of its key.
  exchange-fresh :
      (t : Tuple) (r : Receiver) (q : ℕ) (qs : List ℕ)
      → IsPlain t.key
      → IsKey t.key
      → 0 < t.value
      → r.queue ≡ q ∷ qs
      → lookup t.tuple_id r.aol ≡ none
      → (s : Receiver) × ((exchange (counting lib r) t r).0 ≡ s)
        × (s.queue ≡ q ∷ qs)
        × (s.aol ≡ insert t.tuple_id true r.aol)
        × (s.output_map ≡ insert t.key (or_zero (lookup t.key r.output_map) + t.value) r.output_map)
  unfolding exchange process_received_tuples store_result
  exchange-fresh t r q qs p k pos f e =
      let v = or_zero (lookup t.key r.output_map) + t.value in
      let x = execute_count-adds r.output_map t p k pos in
      let added : List ℕ → Receiver =
        λ l. record r { aol = insert t.tuple_id true r.aol; queue = l } in
      let stored : Receiver = (store_result (counting lib r) t v (added (q ∷ qs))).0 in
      let one : process_received_tuples (counting lib r) t r ≡ (stored, success) =
        rw (process_received_tuples, e, f, x)
          (ap (λ l. store_result (counting lib r) t v (added l)) f) in
      (
        record stored { processed_ids = insert t.tuple_id true stored.processed_ids },
        rw (exchange, one)
            (ap (λ z. record z.0 { processed_ids = insert t.tuple_id true z.0.processed_ids }) one),
        refl,
        refl,
        refl,
      )

  or_zero-insert :
      (k key : String) (n : ℕ) (m : Map String ℕ)
      → or_zero (lookup k (insert key (or_zero (lookup key m) + n) m))
        ≡ or_zero (lookup k m) + (if str_eq key k then n else 0)
  or_zero-insert k key n m = elim (Bool-cases (str_eq key k)) [
    | inl z ↦
        let e : key ≡ k = (eq_iff key k).0 z in
        rw (lookup-insert key k (or_zero (lookup key m) + n) m, z)
          (ap (λ x. or_zero (lookup x m) + n) e)
    | inr z ↦ rw (lookup-insert key k (or_zero (lookup key m) + n) m, z) (omega arith)
  ]

  -- Whatever tuples come in, the count of each key grows by the values of the fresh ones.
  pub count_all-fresh :
      (ts : List Tuple) (r : Receiver) (k : String) (q : ℕ) (qs : List ℕ)
      → AreCounted IsPlain ts
      → r.queue ≡ q ∷ qs
      → or_zero (lookup k (count_all lib ts r).output_map)
        ≡ or_zero (lookup k r.output_map) + fresh k r.aol ts
  unfolding count_all fresh
  count_all-fresh [] r k q qs a f = omega arith
  count_all-fresh (t ∷ ts) r k q qs a f = elim (Option-cases (lookup t.tuple_id r.aol)) [
    | inr (b, e) ↦
        ap (λ s. or_zero (lookup k (count_all lib ts s).output_map)) (exchange-known t r b e)
        ∙ count_all-fresh ts r k q qs a.1 f
        ∙ rw (fresh, e) refl
    | inl e ↦
        let (s, run, f', aol, out) = exchange-fresh t r q qs a.0.0 a.0.1 a.0.2 f e in
        let ih = count_all-fresh ts s k q qs a.1 f' in
        let here =
          ap (λ m. or_zero (lookup k m)) out ∙ or_zero-insert k t.key t.value r.output_map in
        ap (λ z. or_zero (lookup k (count_all lib ts z).output_map)) run
        ∙ ih
        ∙ rw (fresh, e) (omega (arith, here, ap (λ m. fresh k m ts) aol))
  ]
