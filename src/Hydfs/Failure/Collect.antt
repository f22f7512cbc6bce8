-- ===== src/Hydfs/Failure/Collect.antt =====
-- What a node has collected when the silence comes: each failed node once.
use rain_strom_distributed_s.Prelude.{
  IsDistinct, ℕ, ◌≡◌, ◌≢◌, ◌↔◌, ◌⊎◌, refl, sym, inl, inr, arith, true, List, [], ◌∷◌, ◌++◌, nat_eq,
  Has, Bool-cases, ap, ◌∙◌, subst, All-Has, All-append,
}
use rain_strom_distributed_s.Hydfs.Failure.{
  member, add_new, Collector, collect_failed, unique_nodes,
}

member_iff : (x : ℕ) (xs : List ℕ) → (member x xs ≡ true) ↔ Has x xs
unfolding member
member_iff x [] = (λ h. cc, λ h. absurd h)
member_iff x (y ∷ ys) = ground (arith, member_iff x ys)

IsDistinct-snoc : (x : ℕ) (xs : List ℕ) → IsDistinct xs → ¬ Has x xs → IsDistinct (xs ++ x ∷ [])
IsDistinct-snoc x [] d h = (tt, tt)
IsDistinct-snoc x (y ∷ ys) d h = (
  All-append (λ z. y ≢ z) ys (x ∷ []) d.0 (λ e. h (inl (sym e)), tt),
  IsDistinct-snoc x ys d.1 (λ k. h (inr k)),
)

Has-snoc : (z x : ℕ) (xs : List ℕ) → Has z (xs ++ x ∷ []) ↔ (Has z xs ⊎ (z ≡ x))
Has-snoc z x [] = ground arith
Has-snoc z x (y ∷ ys) = ground (arith, Has-snoc z x ys)

-- The failures of a round, in the order in which they are signalled.
abbrev pub collect_all : List ℕ → Collector → Collector
collect_all [] s = s
collect_all (n ∷ ns) s = collect_all ns (collect_failed n s)

abbrev IsCollected : List ℕ → Collector → Type 0
IsCollected ns s =
    (s.failed_nodes ≡ s.processed_nodes)
    × IsDistinct s.failed_nodes
    × ((n : ℕ) → Has n s.failed_nodes ↔ Has n ns)

collect_failed-IsCollected :
    (n : ℕ) (ns : List ℕ) (s : Collector)
    → IsCollected ns s
    → IsCollected (ns ++ n ∷ []) (collect_failed n s)
unfolding collect_failed
collect_failed-IsCollected n ns s (e, d, h) = elim (Bool-cases (member n s.processed_nodes)) [
  | inl q ↦
      let there : Has n s.failed_nodes =
        subst (Has n) (sym e) ((member_iff n s.processed_nodes).0 q) in
      rw (q, collect_failed)
        (
          e,
          d,
          λ z. (
            λ k. (Has-snoc z n ns).1 (inl ((h z).0 k)),
            λ k. elim ((Has-snoc z n ns).0 k) [
              | inl a ↦ (h z).1 a
              | inr a ↦ subst (λ y. Has y s.failed_nodes) (sym a) there
            ],
          ),
        )
  | inr q ↦
      let fresh : ¬ Has n s.failed_nodes =
        λ k. cc (q, (member_iff n s.processed_nodes).1 (subst (Has n) e k)) in
      rw (q, collect_failed)
        (
          ap (λ l. l ++ n ∷ []) e,
          IsDistinct-snoc n s.failed_nodes d fresh,
          λ z.
              let u = Has-snoc z n s.failed_nodes in
              let v = Has-snoc z n ns in
              let w = h z in
              (
                λ k. elim (u.0 k) [ inl a ↦ v.1 (inl (w.0 a)) | inr a ↦ v.1 (inr a) ],
                λ k. elim (v.0 k) [ inl a ↦ u.1 (inl (w.1 a)) | inr a ↦ u.1 (inr a) ],
              ),
        )
]

append_assoc : (xs ys zs : List ℕ) → (xs ++ ys) ++ zs ≡ xs ++ (ys ++ zs)
append_assoc [] ys zs = refl
append_assoc (x ∷ xs) ys zs = ap (λ l. x ∷ l) (append_assoc xs ys zs)

append_nil : (xs : List ℕ) → xs ++ [] ≡ xs
append_nil [] = refl
append_nil (x ∷ xs) = ap (λ l. x ∷ l) (append_nil xs)

collect_all-IsCollected :
    (ns ms : List ℕ) (s : Collector) → IsCollected ms s → IsCollected (ms ++ ns) (collect_all ns s)
collect_all-IsCollected [] ms s h = subst (λ l. IsCollected l s) (sym (append_nil ms)) h
collect_all-IsCollected (n ∷ ns) ms s h =
    subst (λ l. IsCollected l (collect_all ns (collect_failed n s))) (append_assoc ms (n ∷ []) ns)
      (collect_all-IsCollected ns (ms ++ n ∷ []) (collect_failed n s)
        (collect_failed-IsCollected n ms s h))

distinct-fresh : (n : ℕ) (xs ns : List ℕ) → IsDistinct (xs ++ n ∷ ns) → ¬ Has n xs
distinct-fresh n [] ns d h = absurd h
distinct-fresh n (x ∷ xs) ns d (inl e) =
    All-Has (λ y. x ≢ y) (xs ++ n ∷ ns) n d.0 (middle xs) (sym e)
  where
    middle : (ys : List ℕ) → Has n (ys ++ n ∷ ns)
    middle [] = inl refl
    middle (y ∷ ys) = inr (middle ys)
distinct-fresh n (x ∷ xs) ns d (inr h) = distinct-fresh n xs ns d.1 h

unique_nodes-distinct :
    (ns unique : List ℕ) → IsDistinct (unique ++ ns) → unique_nodes ns unique ≡ unique ++ ns
unfolding unique_nodes add_new
unique_nodes-distinct [] unique d = sym (append_nil unique)
unique_nodes-distinct (n ∷ ns) unique d = elim (Bool-cases (member n unique)) [
  | inl q ↦ absurd (distinct-fresh n unique ns d ((member_iff n unique).0 q))
  | inr q ↦
      let step : unique_nodes (n ∷ ns) unique ≡ unique_nodes ns (unique ++ n ∷ []) =
        rw (q, unique_nodes, add_new) refl in
      let assoc = append_assoc unique (n ∷ []) ns in
      step ∙ unique_nodes-distinct ns (unique ++ n ∷ []) (subst IsDistinct (sym assoc) d) ∙ assoc
]

-- The failures signalled in a round that starts with an empty collector: what is collected is each
-- of these nodes once and no other, and the loop that takes out repetitions leaves it as it is.
pub collected_once :
    (ns : List ℕ)
    → let s = collect_all ns (record { failed_nodes = []; processed_nodes = [] }) in
      IsDistinct s.failed_nodes
      × ((n : ℕ) → Has n s.failed_nodes ↔ Has n ns)
      × (unique_nodes s.failed_nodes [] ≡ s.failed_nodes)
collected_once ns =
    let (e, d, h) =
      collect_all-IsCollected ns [] (record { failed_nodes = []; processed_nodes = [] })
        (refl, tt, λ n. (λ k. k, λ k. k)) in
    (d, h, unique_nodes-distinct _ [] d)
