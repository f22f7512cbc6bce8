-- ===== src/Hydfs/Merging/Replaces.antt =====
-- What `TriggerMerge` leaves at a replica.
use mathlib.Core.List.{flatten}
use rain_strom_distributed_s.Prelude.{
  ℕ, ◌≢◌, ◌∙◌, IsDistinct, ap, ◌<◌, ◌≡◌, refl, sym, ap, subst, arith, Bool, true, false, not, ◌&&◌,
  Option, none, some, List, [], ◌∷◌, String, lookup, insert, erase, string_eq, length, All,
  Bool-cases, Option-cases, inl, inr, ◌⊎◌, lookup-insert_self,
}
use rain_strom_distributed_s.Prelude.Paths.{stem}
use rain_strom_distributed_s.Hydfs.AppendLog.{
  Bytes, Env, Node, exists, log_at, merge_aol_on_read, read_log,
}
use rain_strom_distributed_s.Hydfs.AppendLog.Merge.{read_log-merged}
use rain_strom_distributed_s.Hydfs.Replication.{set}
use rain_strom_distributed_s.Hydfs.Replication.Agree.{set_self, set_other}
use rain_strom_distributed_s.Hydfs.Merging.{
  Link, Disk, replace_file, merge_file, Replica, trigger_one, trigger_merge,
}

module _ (env : Env) where
  open env use {segs, opens_log}

  -- More fuel than the log of the file has entries.
  abbrev pub HasFuel : ℕ → String → Node env → Type 0
  HasFuel fuel name n = length (flatten (segs (log_at env n.logs (stem name)))) < fuel

  merge_aol-returns :
      (fuel : ℕ) (name : String) (n : Node env)
      → HasFuel fuel name n
      → (w : Node env) × (merge_aol_on_read env fuel name n ≡ some w)
  unfolding merge_aol_on_read read_log
  merge_aol-returns fuel name n h = elim (Option-cases (lookup (stem name) n.mapper)) [
    | inl e ↦ (n, rw (merge_aol_on_read, e) refl)
    | inr (meta, e) ↦ elim (Bool-cases meta.is_read) [
      | inl z ↦ (n, rw (merge_aol_on_read, e, z) refl)
      | inr z ↦ elim (Bool-cases (opens_log (stem name))) [
        | inr o ↦ (n, rw (merge_aol_on_read, e, z) (rw (read_log, e, o) refl))
        | inl o ↦
            let there = (read_log-merged env fuel (stem name) n meta e o h).1 in
            elim (Option-cases (read_log env fuel (stem name) n)) [
              | inl q ↦ absurd (there q)
              | inr (w, q) ↦ (w, rw (merge_aol_on_read, e, z) q)
            ]
      ]
    ]
  ]

  abbrev pub works : Disk → Bool
  works d = d.makes_dir && d.removes && d.opens && d.writes

  -- The call failed where this test does, or the node holds the file with these bytes.
  abbrev IsDone : Bool → String → Option Bytes → Node env × Bool → Type 0
  IsDone fine name bytes r =
      ((r.1 ≡ false) × (fine ≡ false)) ⊎ ((r.1 ≡ true) × (lookup name r.0.files ≡ bytes))

  replace_file-IsDone :
      (d : Disk) (name : String) (bytes : Bytes) (n : Node env)
      → d.makes_dir ≡ true
      → IsDone (works d) name (some bytes) (replace_file env d name bytes n)
  unfolding replace_file
  replace_file-IsDone d name bytes n dir =
      let P = IsDone (works d) name (some bytes) in
      let gone = erase name n.files in
      let kept : exists env n.files name && not d.removes ≡ false
          → P (replace_file env d name bytes n) =
        λ k. elim (Bool-cases d.opens) [
          | inr o ↦
              let q : replace_file env d name bytes n ≡ (record n { files = gone }, false) =
                rw (replace_file, k, o) refl in
              subst P (sym q) (inl (refl, ground arith))
          | inl o ↦ elim (Bool-cases d.writes) [
            | inl w ↦
                let q : replace_file env d name bytes n
                    ≡ (record n { files = insert name bytes gone }, true) =
                  rw (replace_file, k, o, w) refl in
                subst P (sym q) (inr (refl, lookup-insert_self name bytes gone))
            | inr w ↦
                let q : replace_file env d name bytes n
                    ≡ (record n { files = insert name [] gone }, false) =
                  rw (replace_file, k, o, w) refl in
                subst P (sym q) (inl (refl, ground arith))
          ]
        ] in
      elim (Bool-cases (exists env n.files name && not d.removes)) [
        | inl k ↦
            let q : replace_file env d name bytes n ≡ (n, false) = rw (replace_file, k) refl in
            subst P (sym q) (inl (refl, hindered (exists env n.files name) d.removes k))
        | inr k ↦ kept k
      ]
    where
      hindered :
          (there gone : Bool)
          → there && not gone ≡ true
          → d.makes_dir && gone && d.opens && d.writes ≡ false
      hindered there gone k = ground arith

  -- A replica holds what the primary holds, unless there was an error for it.
  -- The node is reached, the primary has the file, and the disk does what it is asked.
  abbrev pub is_fine : String → Node env → Bool → Disk → Bool
  is_fine name main reached disk = reached && exists env main.files name && works disk

  trigger_one-IsDone :
      (fuel : ℕ) (name : String) (main : Node env) (r : Replica env)
      → HasFuel fuel name r.state
      → (res : Node env × Bool) × (trigger_one env fuel name main r ≡ some res)
        × IsDone (is_fine name main r.reached r.disk) name (lookup name main.files) res
  unfolding trigger_one merge_file
  trigger_one-IsDone fuel name main r h = elim (Bool-cases r.reached) [
    | inr z ↦ ((r.state, false), rw (trigger_one, z) refl, inl (refl, rw z refl))
    | inl z ↦ elim (Option-cases (lookup name main.files)) [
      | inl e ↦
          let y : exists env main.files name ≡ false = ap there e in
          ((r.state, false), rw (trigger_one, z, e) refl, inl (refl, rw (z, y) refl))
      | inr (bytes, e) ↦
          let y : exists env main.files name ≡ true = ap there e in
          elim (Bool-cases r.disk.makes_dir) [
            | inr k ↦ (
              (r.state, false),
              rw (trigger_one, z, e, merge_file, k) refl,
              inl (refl, rw (z, y, k) refl),
            )
            | inl k ↦
                let (w, q) = merge_aol-returns fuel name r.state h in
                let done = replace_file-IsDone r.disk name bytes w k in
                let fine : is_fine name main r.reached r.disk ≡ works r.disk = rw (z, y) refl in
                (
                  replace_file env r.disk name bytes w,
                  rw (trigger_one, z, e, merge_file, k, q) refl,
                  subst
                      (λ o.
                        IsDone (is_fine name main r.reached r.disk) name o
                          (replace_file env r.disk name bytes w))
                      (sym e)
                      (subst
                        (λ b. IsDone b name (some bytes) (replace_file env r.disk name bytes w))
                        (sym fine) done),
                )
          ]
    ]
  ]
    where
      there : Option Bytes → Bool
      there none = false
      there (some bytes) = true

  abbrev pub all_fine : String → Node env → (ℕ → Link env) → List ℕ → Bool
  all_fine name main links [] = true
  all_fine name main links (d ∷ ds) =
      let rest = all_fine name main links ds in
      is_fine name main (links d).reached (links d).disk && rest

  -- There was an error where something was not fine, or else all nodes on the list hold what `main`
  -- holds.
  abbrev pub IsMerged : String → Node env → (ℕ → Link env) → List ℕ → (ℕ → Node env) → Bool → Type 0
  IsMerged name main links ds nodes well =
      ((well ≡ false) × (all_fine name main links ds ≡ false))
      ⊎ ((well ≡ true) × All (λ d. lookup name (nodes d).files ≡ lookup name main.files) ds)

  HasFuel-set :
      (fuel : ℕ) (name : String) (d : ℕ) (n : Node env) (nodes : ℕ → Node env) (ds : List ℕ)
      → All (λ x. d ≢ x) ds
      → All (λ x. HasFuel fuel name (nodes x)) ds
      → All (λ x. HasFuel fuel name (set env d n nodes x)) ds
  HasFuel-set fuel name d n nodes [] a h = tt
  HasFuel-set fuel name d n nodes (x ∷ xs) a h = (
    subst (HasFuel fuel name) (sym (set_other env d x n nodes a.0)) h.0,
    HasFuel-set fuel name d n nodes xs a.1 h.1,
  )

  pub trigger_merge-IsMerged :
      (fuel : ℕ) (name : String) (main : ℕ) (links : ℕ → Link env) (ds : List ℕ)
      (nodes : ℕ → Node env)
      → All (λ d. main ≢ d) ds
      → IsDistinct ds
      → All (λ d. HasFuel fuel name (nodes d)) ds
      → (nodes' : ℕ → Node env) × (well : Bool) × (trigger_merge env fuel name main links ds nodes
          ≡ some (nodes', well))
        × IsMerged name (nodes main) links ds nodes' well
        × ((x : ℕ) → All (λ d. x ≢ d) ds → nodes' x ≡ nodes x)
  unfolding trigger_merge
  trigger_merge-IsMerged fuel name main links [] nodes a u h =
      (nodes, true, refl, inr (refl, tt), (λ x f. refl))
  trigger_merge-IsMerged fuel name main links (d ∷ ds) nodes a u h =
      let r : Replica env = record {
        reached = (links d).reached;
        disk = (links d).disk;
        state = nodes d;
      } in
      let ((n, well), q, one) = trigger_one-IsDone fuel name (nodes main) r h.0 in
      let mid : ℕ → Node env = set env d n nodes in
      let fuels : All (λ x. HasFuel fuel name (mid x)) ds =
        HasFuel-set fuel name d n nodes ds u.0 h.1 in
      let (nodes', all_well, q', rest, frame) =
        trigger_merge-IsMerged fuel name main links ds mid a.1 u.1 fuels in
      let same : mid main ≡ nodes main = set_other env d main n nodes (λ e. a.0 (sym e)) in
      let rest' = subst (λ w. IsMerged name w links ds nodes' all_well) same rest in
      let here : nodes' d ≡ n = frame d u.0 ∙ set_self env d n nodes in
      (
        nodes',
        well && all_well,
        rw (trigger_merge, q, q') refl,
        elim one [
          | inl (z, y) ↦ inl (rw z refl, rw y refl)
          | inr (z, e) ↦ elim rest' [
            | inl (y, x) ↦ inl (
              both well all_well y,
              both (is_fine name (nodes main) r.reached r.disk)
                  (all_fine name (nodes main) links ds) x,
            )
            | inr (y, es) ↦ inr (rw (z, y) refl, (ap (λ w. lookup name w.files) here ∙ e, es))
          ]
        ],
        (λ x f. frame x f.1 ∙ set_other env d x n nodes (λ e. f.0 (sym e))),
      )
    where
      both : (a b : Bool) → b ≡ false → a && b ≡ false
      both true b z = z
      both false b z = refl
