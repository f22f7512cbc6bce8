-- ===== src/Stream/Partition/Cover.antt =====
-- Each line of the input file lies in exactly one partition.
use native.Mathlib.Nat.{lt-div-mul-add, div-mul-le_self, add-mul, mul_comm, mul-le-mul_right}
use rain_strom_distributed_s.Prelude.{
  get_elem?-past, ℕ, zero, suc, ◌+◌, ◌-◌, ◌*◌, ◌/◌, ◌≤◌, ◌<◌, ◌≡◌, ◌↔◌, ◌⊎◌, inl, inr, refl, sym,
  arith, none, some, String, ltb, ℤ, pos, negsuc, length, get_elem?, Bool-cases, ap, ◌∙◌, subst,
}
use rain_strom_distributed_s.Stream.Partition.{
  Partition, minus_one, lines_per_task, partition, partitions_from, partition_input_data,
}

abbrev pub UpTo : ℕ → ℤ → Type 0
UpTo line (pos e) = line ≤ e
UpTo line (negsuc e) = ⊥

-- A worker reads the lines from the start to the end of a partition, both included.
abbrev pub HasLine : ℕ → Partition → Type 0
HasLine line p = (p.start ≤ line) × UpTo line p.last

UpTo-minus_one : (line n : ℕ) → UpTo line (minus_one n) ↔ (line < n)
UpTo-minus_one line zero = (λ h. absurd h, λ h. absurd (omega arith))
UpTo-minus_one line (suc n) = (λ h. omega arith, λ h. omega arith)

partition-HasLine :
    (file : String) (count lines i line : ℕ)
    → HasLine line (partition file count lines i)
      ↔ ((i * lines ≤ line) × (line < i * lines + lines) × (line < count))
unfolding partition
partition-HasLine file count lines i line = elim (Bool-cases (ltb count (i * lines + lines))) [
  | inl q ↦
      rw (q, partition)
        (
          λ (a, b). (
            a,
            ground (arith, q, (UpTo-minus_one line count).0 b),
            (UpTo-minus_one line count).0 b,
          ),
          λ (a, b, d). (a, (UpTo-minus_one line count).1 d),
        )
  | inr q ↦
      rw (q, partition)
        (
          λ (a, b). (
            a,
            (UpTo-minus_one line (i * lines + lines)).0 b,
            ground (arith, q, (UpTo-minus_one line (i * lines + lines)).0 b),
          ),
          λ (a, b, d). (a, (UpTo-minus_one line (i * lines + lines)).1 b),
        )
]

partitions_from-get :
    (file : String) (count lines k i j : ℕ)
    → j < k
    → get_elem? (partitions_from file count lines k i) j ≡ some (partition file count lines (i + j))
unfolding partitions_from
partitions_from-get file count lines zero i j h = absurd (omega arith)
partitions_from-get file count lines (suc k) i zero h =
    let e : i ≡ i + 0 = omega arith in ap (λ n. some (partition file count lines n)) e
partitions_from-get file count lines (suc k) i (suc j) h =
    let e : suc i + j ≡ i + suc j = omega arith in
    partitions_from-get file count lines k (suc i) j (omega arith)
    ∙ ap (λ n. some (partition file count lines n)) e

length-partitions_from :
    (file : String) (count lines k i : ℕ) → length (partitions_from file count lines k i) ≡ k
unfolding partitions_from
length-partitions_from file count lines zero i = refl
length-partitions_from file count lines (suc k) i =
    omega (arith, length-partitions_from file count lines k (suc i))

-- The blocks of `lines` lines do not overlap.
mul_mono : (i j lines : ℕ) → i < j → i * lines + lines ≤ j * lines
mul_mono i j lines h =
    let m : i + 1 ≤ j = omega arith in omega (arith, mul-le-mul_right lines m, add-mul i 1 lines)

-- All partitions together have room for all lines.
lines_per_task_lem : (count n : ℕ) → 1 ≤ n → count ≤ n * lines_per_task count n
unfolding lines_per_task
lines_per_task_lem count n h =
    let p : 0 < n = omega arith in
    omega
      (arith, lt-div-mul-add {a = count + (n - 1)} {b = n} p, mul_comm ((count + (n - 1)) / n) n)

lines_per_task_pos : (count n line : ℕ) → 1 ≤ n → line < count → 0 < lines_per_task count n
lines_per_task_pos count n line h k = elim (zero_or (lines_per_task count n)) [
  | inl z ↦ absurd (
      let e = lines_per_task_lem count n h in
      let f : n * lines_per_task count n ≡ n * 0 = ap (λ x. n * x) z in omega (arith, e, f))
  | inr p ↦ p
]
  where
    zero_or : (x : ℕ) → (x ≡ 0) ⊎ (0 < x)
    zero_or x = ground arith

-- With at least one task, there are as many partitions as tasks, each line below the line count
-- is in exactly one of them, and no other line is in any.
pub partitions-cover :
    (file : String) (count n : ℕ)
    → 1 ≤ n
    → (length (partition_input_data file count n) ≡ n)
      × ((line : ℕ)
          → line < count
          → (i : ℕ) × (p : Partition) × (get_elem? (partition_input_data file count n) i ≡ some p)
            × HasLine line p
            × ((j : ℕ) (q : Partition)
                → get_elem? (partition_input_data file count n) j ≡ some q
                → HasLine line q
                → j ≡ i))
      × ((line j : ℕ) (q : Partition)
          → get_elem? (partition_input_data file count n) j ≡ some q
          → HasLine line q
          → line < count)
unfolding partition_input_data
partitions-cover file count n h = (
  length-partitions_from file count lines n 0,
  λ line k.
      let i = line / lines in
      let positive = lines_per_task_pos count n line h k in
      let low : i * lines ≤ line = div-mul-le_self line lines in
      let high : line < i * lines + lines = lt-div-mul-add {a = line} {b = lines} positive in
      let small : i < n = below i line low k in
      (
        i,
        partition file count lines i,
        partitions_from-get file count lines n 0 i small
            ∙ ap (λ x. some (partition file count lines x)) (omega arith),
        (partition-HasLine file count lines i line).1 (low, high, k),
        λ j q g b.
            let (c, d, e) = found line j q g b in
            elim (apart i j) [
              | inl z ↦ z
              | inr (inl l) ↦ absurd (omega (arith, mul_mono i j lines l, c, high))
              | inr (inr l) ↦ absurd (omega (arith, mul_mono j i lines l, d, low))
            ],
      ),
  λ line j q g b. (found line j q g b).2,
)
  where
    lines : ℕ
    lines = lines_per_task count n

    lt_or : (i j : ℕ) → (i < j) ⊎ (j ≤ i)
    lt_or i j = ground arith

    some-injective : {x y : Partition} → some x ≡ some y → x ≡ y
    some-injective {x = x} e = ap (λ o. elim o [ none ↦ x | some z ↦ z ]) e

    below : (i line : ℕ) → i * lines ≤ line → line < count → i < n
    below i line a b = elim (lt_or i n) [
      | inl z ↦ z
      | inr z ↦ absurd (omega (arith, mul-le-mul_right lines z, lines_per_task_lem count n h))
    ]

    apart : (i j : ℕ) → (j ≡ i) ⊎ (i < j) ⊎ (j < i)
    apart i j = ground arith

    found :
        (line j : ℕ) (q : Partition)
        → get_elem? (partitions_from file count lines n 0) j ≡ some q
        → HasLine line q
        → (j * lines ≤ line) × (line < j * lines + lines) × (line < count)
    found line j q g b = elim (lt_or j n) [
      | inl z ↦
          let e = sym (partitions_from-get file count lines n 0 j z) ∙ g in
          let f : partition file count lines j ≡ q =
            ap (λ k. partition file count lines k) (omega arith) ∙ some-injective e in
          (partition-HasLine file count lines j line).0 (subst (HasLine line) (sym f) b)
      | inr z ↦
          let past : length (partitions_from file count lines n 0) ≤ j =
            rw (length-partitions_from file count lines n 0) z in
          absurd (cc (g, get_elem?-past j (partitions_from file count lines n 0) past))
    ]
