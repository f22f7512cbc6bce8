-- ===== src/Stream/Counting/Once.antt =====
-- However often and in whatever order tuples come in, each counts once.
use rain_strom_distributed_s.Prelude.{
  ℕ, ◌+◌, ◌≡◌, ◌≢◌, refl, sym, ap, subst, arith, Bool, true, none, some, List, [], ◌∷◌, String, Map,
  lookup, insert, string_eq, Has, All, All-Has, Option-cases, inl, inr, lookup-insert_ne,
  lookup-insert_self, lookup-insert, Bool-cases, str_eq,
}
use rain_strom_distributed_s.Stream.Tuples.{Tuple, Receiver}
use rain_strom_distributed_s.Stream.Sender.{or_zero}
use rain_strom_distributed_s.Stream.Sender.Rounds.{IsApart, IsDistinct}
use rain_strom_distributed_s.Stream.Operators.{Packages}
use rain_strom_distributed_s.Stream.Operators.Adds.{Laws}
use rain_strom_distributed_s.Stream.Counting.{count_all}
use rain_strom_distributed_s.Stream.Counting.Fresh.{
  ReadsBack, AreCounted, value_for, fresh, count_all-fresh,
}

-- The values of the tuples for a key.
abbrev pub total : String → List Tuple → ℕ
total k [] = 0
total k (t ∷ ts) = value_for k t + total k ts

-- The same of those whose ids are not in the map.
pending : String → Map String Bool → List Tuple → ℕ
pending k aol [] = 0
pending k aol (t ∷ ts) = elim (lookup t.tuple_id aol) [
  | some _ ↦ pending k aol ts
  | none ↦ value_for k t + pending k aol ts
]

pending-total : (k : String) (made : List Tuple) → pending k [] made ≡ total k made
unfolding pending lookup
pending-total k [] = refl
pending-total k (m ∷ ms) = ap (λ n. value_for k m + n) (pending-total k ms)

pending-done :
    (k : String) (aol : Map String Bool) (made : List Tuple)
    → ((m : Tuple) → Has m made → lookup m.tuple_id aol ≢ none)
    → pending k aol made ≡ 0
unfolding pending
pending-done k aol [] h = refl
pending-done k aol (m ∷ ms) h = elim (Option-cases (lookup m.tuple_id aol)) [
  | inl e ↦ absurd (h m (inl refl) e)
  | inr (b, e) ↦ rw (pending, e) (pending-done k aol ms (λ u w. h u (inr w)))
]

pending-apart :
    (k id : String) (aol : Map String Bool) (made : List Tuple)
    → IsApart id made
    → pending k (insert id true aol) made ≡ pending k aol made
unfolding pending
pending-apart k id aol [] a = refl
pending-apart k id aol (m ∷ ms) a =
    let same = lookup-insert_ne id m.tuple_id true aol (λ e. a.0 (sym e)) in
    elim (Option-cases (lookup m.tuple_id aol)) [
      | inl e ↦ rw (pending, same, e) (ap (λ n. value_for k m + n) (pending-apart k id aol ms a.1))
      | inr (b, e) ↦ rw (pending, same, e) (pending-apart k id aol ms a.1)
    ]

-- A tuple that is noted is pending no more.
pending-insert :
    (k : String) (t : Tuple) (aol : Map String Bool) (made : List Tuple)
    → IsDistinct made
    → Has t made
    → lookup t.tuple_id aol ≡ none
    → pending k aol made ≡ value_for k t + pending k (insert t.tuple_id true aol) made
unfolding pending
pending-insert k t aol [] d h e = absurd h
pending-insert k t aol (m ∷ ms) d (inl p) e =
    let f : lookup m.tuple_id aol ≡ none = subst (λ u. lookup u.tuple_id aol ≡ none) p e in
    let g : lookup m.tuple_id (insert t.tuple_id true aol) ≡ some true =
      subst (λ u. lookup u.tuple_id (insert t.tuple_id true aol) ≡ some true) p
        (lookup-insert_self t.tuple_id true aol) in
    let rest = pending-apart k t.tuple_id aol ms (subst (λ u. IsApart u.tuple_id ms) (sym p) d.0) in
    rw (pending, f, g) (omega (arith, rest, ap (value_for k) p))
pending-insert k t aol (m ∷ ms) d (inr h) e =
    let apart : t.tuple_id ≢ m.tuple_id = All-Has (λ u. u.tuple_id ≢ m.tuple_id) ms t d.0 h in
    let same = lookup-insert_ne t.tuple_id m.tuple_id true aol apart in
    let ih = pending-insert k t aol ms d.1 h e in
    elim (Option-cases (lookup m.tuple_id aol)) [
      | inl z ↦ rw (pending, same, z) (omega (arith, ih))
      | inr (b, z) ↦ rw (pending, same, z) ih
    ]

-- The tuples that come in are some of those that were made, and all that are pending are among them.
fresh-pending :
    (k : String) (made ts : List Tuple) (aol : Map String Bool)
    → IsDistinct made
    → All (λ t. Has t made) ts
    → ((m : Tuple) → Has m made → lookup m.tuple_id aol ≡ none → Has m ts)
    → fresh k aol ts ≡ pending k aol made
unfolding fresh
fresh-pending k made [] aol d a c = sym (pending-done k aol made c)
fresh-pending k made (t ∷ ts) aol d a c = elim (Option-cases (lookup t.tuple_id aol)) [
  | inr (b, e) ↦
      rw (fresh, e)
        (fresh-pending k made ts aol d a.1 (λ m h z. elim (c m h z) [
          | inl p ↦ absurd (cc (subst (λ u. lookup u.tuple_id aol ≡ none) p z))
          | inr w ↦ w
        ]))
  | inl e ↦
      let aol' = insert t.tuple_id true aol in
      let there = lookup-insert_self t.tuple_id true aol in
      let ih = fresh-pending k made ts aol' d a.1 (λ m h z.
        elim (c m h (before t.tuple_id m.tuple_id aol z)) [
          | inl p ↦ absurd (cc (subst (λ u. lookup u.tuple_id aol' ≡ none) p z))
          | inr w ↦ w
        ]) in
      rw (fresh, e) (omega (arith, ih, pending-insert k t aol made d a.0 e))
]
  where
    before :
        (id j : String) (m : Map String Bool)
        → lookup j (insert id true m) ≡ none
        → lookup j m ≡ none
    before id j m z = elim (Bool-cases (str_eq id j)) [
      | inl q ↦ absurd (cc (rw (lookup-insert id j true m, q) at z))
      | inr q ↦ rw (lookup-insert id j true m, q) at z
    ]

-- Tuples with different ids were made, which go through the programs unharmed. A counting worker with
-- a task of stage 2, no counts yet, and files that can be opened and written gets these tuples and no
-- others, each at least once, as often and in whatever order the senders repeat them. Then its count
-- of each key is the sum of the values of the tuples made for the key.
pub count_all-total :
    (lib : Packages) (IsPlain : String → Type 0) (made ts : List Tuple) (r : Receiver) (k : String)
    (q : ℕ) (qs : List ℕ)
    → Laws lib IsPlain
    → ReadsBack lib IsPlain
    → AreCounted IsPlain ts
    → IsDistinct made
    → All (λ t. Has t made) ts
    → ((m : Tuple) → Has m made → Has m ts)
    → r.queue ≡ q ∷ qs
    → r.aol ≡ []
    → r.output_map ≡ []
    → or_zero (lookup k (count_all lib ts r).output_map) ≡ total k made
unfolding lookup
count_all-total lib IsPlain made ts r k q qs laws reads a d all every f aol out =
    let counted = count_all-fresh lib IsPlain laws reads ts r k q qs a f in
    let started : or_zero (lookup k r.output_map) ≡ 0 = ap (λ m. or_zero (lookup k m)) out in
    let sums = fresh-pending k made ts [] d all (λ m h z. every m h) in
    omega (arith, counted, started, ap (λ m. fresh k m ts) aol, sums, pending-total k made)
