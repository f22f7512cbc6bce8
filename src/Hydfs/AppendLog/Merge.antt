-- ===== src/Hydfs/AppendLog/Merge.antt =====
-- What `ReadLog` does to the files: both loops together merge the entries of the log in the order
-- they were written.
use mathlib.Core.List.{flatten}
use rain_strom_distributed_s.Prelude.{
  drop, get_elem?-past, ℕ, zero, suc, ◌+◌, ◌<◌, ◌≤◌, ◌≡◌, ◌≢◌, refl, sym, ap, ◌∙◌, arith, true,
  Option, none, some, List, [], ◌∷◌, ◌++◌, String, Map, lookup, insert, string_eq, length,
  get_elem?, length-append, inl, inr, ◌⊎◌, Option-cases,
}
use rain_strom_distributed_s.Hydfs.AppendLog.{
  Bytes, Env, LogMeta, Node, log_at, merge_entry, Loop, read_segment, read_segments, read_log,
}
use rain_strom_distributed_s.Hydfs.AppendLog.Loop.{done, returned, no_fuel}

leb-cases : (n i : ℕ) → (n ≤ i) ⊎ (i < n)
leb-cases n i = ground arith

drop-get :
    {A : Type 0} (i : ℕ) (xs : List A)
    → i < length xs
    → (x : A) × (get_elem? xs i ≡ some x) × (drop i xs ≡ x ∷ drop (suc i) xs)
drop-get i [] h = absurd (omega arith)
drop-get zero (x ∷ xs) h = (x, refl, refl)
drop-get (suc i) (x ∷ xs) h = drop-get i xs (omega arith)

drop-all : {A : Type 0} (i : ℕ) (xs : List A) → length xs ≤ i → drop i xs ≡ []
drop-all zero [] h = refl
drop-all zero (x ∷ xs) h = absurd (omega arith)
drop-all (suc i) [] h = refl
drop-all (suc i) (x ∷ xs) h = drop-all i xs (omega arith)

Loop-cases :
    (r : Loop)
    → ((f : Map String Bytes) × (r ≡ done f))
      ⊎ (((f : Map String Bytes) × (r ≡ returned f)) ⊎ (r ≡ no_fuel))
Loop-cases (done f) = inl (f, refl)
Loop-cases (returned f) = inr (inl (f, refl))
Loop-cases no_fuel = inr (inr refl)

length-segment :
    {J : Type 0} (s : ℕ) (ls : List (List J)) (xs : List J)
    → get_elem? ls s ≡ some xs
    → length xs ≤ length (flatten ls)
unfolding flatten
length-segment s [] xs e = absurd (cc)
length-segment zero (y ∷ ls) xs e =
    let z : y ≡ xs = cc in rw (sym z) (omega (arith, length-append y (flatten ls)))
length-segment (suc s) (y ∷ ls) xs e =
    omega (arith, length-append y (flatten ls), length-segment s ls xs e)

drop-next : {A : Type 0} (i : ℕ) (xs : List A) → drop (i + 1) xs ≡ drop (suc i) xs
drop-next i xs = let e : i + 1 ≡ suc i = omega arith in ap (λ k. drop k xs) e

module _ (env : Env) where
  open env use {
    Json, Log, segs, segments, read, encode, decode, opens, opens_log, segments_lem, read_lem,
  }

  abbrev pub then_do : Loop → (Map String Bytes → Loop) → Loop
  then_do (done files) f = f files
  then_do (returned files) f = returned files
  then_do no_fuel f = no_fuel

  -- The entries of a log merged one after the other, up to the first that fails.
  abbrev pub merged : List Json → Map String Bytes → Loop
  merged [] files = done files
  merged (b ∷ bs) files = elim (merge_entry env (decode b) files) [
    | none ↦ returned files
    | some files' ↦ merged bs files'
  ]

  merged-append :
      (bs cs : List Json) (files : Map String Bytes)
      → merged (bs ++ cs) files ≡ then_do (merged bs files) (merged cs)
  merged-append [] cs files = refl
  merged-append (b ∷ bs) cs files = elim (Option-cases (merge_entry env (decode b) files)) [
    | inl e ↦ rw (e, merged) refl
    | inr (f, e) ↦ rw (e, merged) (merged-append bs cs f)
  ]

  -- With enough fuel the inner loop merges what is left of its segment.
  read_segment-merged :
      (fuel : ℕ) (l : Log) (s i : ℕ) (xs : List Json) (files : Map String Bytes)
      → get_elem? (segs l) s ≡ some xs
      → length xs < i + fuel
      → i ≤ length xs
      → read_segment env fuel l (s + 1) i files ≡ merged (drop i xs) files
  unfolding read_segment
  read_segment-merged zero l s i xs files e h k = absurd (omega arith)
  read_segment-merged (suc fuel) l s i xs files e h k = elim (leb-cases (length xs) i) [
    | inl q ↦ rw (read_lem l s i xs e, get_elem?-past i xs q, drop-all i xs q, read_segment) refl
    | inr q ↦
        let (b, g, d) = drop-get i xs q in
        elim (Option-cases (merge_entry env (decode b) files)) [
          | inl z ↦ rw (read_lem l s i xs e, g, d, z, read_segment, merged) refl
          | inr (f, z) ↦
              let ih : read_segment env fuel l (s + 1) (i + 1) f ≡ merged (drop (suc i) xs) f =
                read_segment-merged fuel l s (i + 1) xs f e (omega arith) (omega arith)
                ∙ ap (λ ys. merged ys f) (drop-next i xs) in
              rw (read_lem l s i xs e, g, d, z, read_segment, merged) ih
        ]
  ]

  -- The outer loop merges the segments that are left.
  read_segments-merged :
      (fuel : ℕ) (l : Log) (k s : ℕ) (files : Map String Bytes)
      → length (flatten (segs l)) < fuel
      → k + s ≡ length (segs l)
      → read_segments env fuel l k s files ≡ merged (flatten (drop s (segs l))) files
  unfolding read_segments flatten
  read_segments-merged fuel l zero s files h e =
      let z : length (segs l) ≤ s = omega arith in rw (drop-all s (segs l) z) refl
  read_segments-merged fuel l (suc k) s files h e =
      let (xs, g, d) = drop-get s (segs l) (omega arith) in
      let bound : length xs < 0 + fuel = omega (arith, length-segment s (segs l) xs g) in
      let seg = read_segment-merged fuel l s 0 xs files g bound (omega arith) in
      let tail = merged-append xs (flatten (drop (suc s) (segs l))) files in
      elim (Loop-cases (merged xs files)) [
        | inl (f, z) ↦
            let ih = read_segments-merged fuel l k (s + 1) f h (omega arith) in
            let ih' : read_segments env fuel l k (s + 1) f
                ≡ merged (flatten (drop (suc s) (segs l))) f =
              ih ∙ ap (λ ys. merged (flatten ys) f) (drop-next s (segs l)) in
            rw (d, seg, z, read_segments, flatten, tail, z) ih'
        | inr (inl (f, z)) ↦ rw (d, seg, z, read_segments, flatten, tail, z) refl
        | inr (inr z) ↦ rw (d, seg, z, read_segments, flatten, tail, z) refl
      ]

  merged-fuel : (bs : List Json) (files : Map String Bytes) → merged bs files ≢ no_fuel
  merged-fuel [] files h = cc
  merged-fuel (b ∷ bs) files h = elim (Option-cases (merge_entry env (decode b) files)) [
    | inl e ↦ cc (rw (e, merged) at h)
    | inr (f, e) ↦ merged-fuel bs f (rw (e, merged) at h)
  ]

  -- The node after `ReadLog` merged as much of the log as it could.
  abbrev pub read_result : String → LogMeta → Loop → Node env → Option (Node env)
  read_result key meta no_fuel n = none
  read_result key meta (returned files) n = some (record n { files = files })
  read_result key meta (done files) n = some (record n {
    files = files;
    mapper = insert key (record meta { is_read = true }) n.mapper;
    logs = insert key env.fresh n.logs;
  })

  -- `ReadLog` on a mapped log that opens, with more fuel than the log has entries: it ends, and
  -- what it leaves is the entries of all segments merged one after the other. If none fails, the
  -- log is marked as read and is empty; at the first that fails it returns, with the files written
  -- so far, and the log stays.
  pub read_log-merged :
      (fuel : ℕ) (key : String) (n : Node env) (meta : LogMeta)
      → lookup key n.mapper ≡ some meta
      → opens_log key ≡ true
      → length (flatten (segs (log_at env n.logs key))) < fuel
      → (read_log env fuel key n
          ≡ read_result key meta (merged (flatten (segs (log_at env n.logs key))) n.files) n)
        × (read_log env fuel key n ≢ none)
  unfolding read_log
  read_log-merged fuel key n meta m o h =
      let l = log_at env n.logs key in
      let e =
        read_segments-merged fuel l (segments l) 0 n.files h (omega (arith, segments_lem l)) in
      elim (Loop-cases (merged (flatten (segs l)) n.files)) [
        | inl (f, z) ↦ (rw (m, o, e, z, read_log) refl, rw (m, o, e, z, read_log) (λ q. cc))
        | inr (inl (f, z)) ↦ (rw (m, o, e, z, read_log) refl, rw (m, o, e, z, read_log) (λ q. cc))
        | inr (inr z) ↦ absurd (merged-fuel (flatten (segs l)) n.files z)
      ]
