-- ===== src/Hydfs/Merging/Lost.antt =====
-- What a merge of the replicas does to writes that the logs still hold.
use mathlib.Core.List.{flatten}
use rain_strom_distributed_s.Prelude.{
  ℕ, ◌<◌, ◌≡◌, refl, ap, ◌∙◌, true, some, List, [], ◌++◌, String, lookup, insert, erase, string_eq,
  length, All, Bool-cases, inl, inr, lookup-insert_self,
}
use rain_strom_distributed_s.Prelude.Paths.{stem}
use rain_strom_distributed_s.Hydfs.AppendLog.{
  AolEntry, Bytes, Env, Node, content, exists, log_at, merge_aol_on_read,
}
use rain_strom_distributed_s.Hydfs.AppendLog.Pending.{
  appended, IsAppend, IsPending, merge-IsPending,
}
use rain_strom_distributed_s.Hydfs.Merging.{Disk, replace_file, merge_file, Replica, trigger_one}

module _ (env : Env) where
  open env use {segs}

  replace_file-content :
      (name : String) (bytes : Bytes) (d : Disk) (n : Node env)
      → d.removes ≡ true
      → d.opens ≡ true
      → d.writes ≡ true
      → (w : Node env) × (replace_file env d name bytes n ≡ (w, true))
        × (lookup name w.files ≡ some bytes)
        × (w.logs ≡ n.logs)
  unfolding replace_file
  replace_file-content name bytes d n a b c = elim (Bool-cases (exists env n.files name)) [
    | inl q ↦ (
      record n { files = insert name bytes (erase name n.files) },
      rw (replace_file, q, a, b, c) refl,
      lookup-insert_self name bytes (erase name n.files),
      refl,
    )
    | inr q ↦ (
      record n { files = insert name bytes (erase name n.files) },
      rw (replace_file, q, b, c) refl,
      lookup-insert_self name bytes (erase name n.files),
      refl,
    )
  ]

  -- The log of the file holds the same appends `es` at the primary, whose file holds `old`, and at a
  -- replica, as after writes that were replicated and that no read has merged; the replica is
  -- reached, everything can be opened and written, and the fuel exceeds the number of entries. Then
  -- the merge goes well, and leaves the replica with `old` and an empty log: the appends are lost
  -- there. The next read of the file at the primary gives `old` with the appends behind it.
  pub trigger_one-loses :
      (fuel : ℕ) (name : String) (es : List AolEntry) (old : Bytes) (main : Node env)
      (r : Replica env)
      → env.opens_log (stem name) ≡ true
      → All (IsAppend env) es
      → length es < fuel
      → lookup name main.files ≡ some old
      → IsPending env (stem name) es main
      → IsPending env (stem name) es r.state
      → r.reached ≡ true
      → r.disk ≡ record { makes_dir = true; removes = true; opens = true; writes = true }
      → (w : Node env) × (read : Node env) × (trigger_one env fuel name main r ≡ some (w, true))
        × (lookup name w.files ≡ some old)
        × (flatten (segs (log_at env w.logs (stem name))) ≡ [])
        × (merge_aol_on_read env fuel name main ≡ some read)
        × (content env read.files name ≡ old ++ appended name es)
  unfolding trigger_one merge_file
  trigger_one-loses fuel name es old main r opens a f there p q reached d =
      let (m, run, empty, whole) = merge-IsPending env fuel name es r.state opens a f q in
      let (read, run', empty', whole') = merge-IsPending env fuel name es main opens a f p in
      let (w, put, holds, logs) =
        replace_file-content name old r.disk m (ap (λ x. x.removes) d) (ap (λ x. x.opens) d)
          (ap (λ x. x.writes) d) in
      let dir : r.disk.makes_dir ≡ true = ap (λ x. x.makes_dir) d in
      let stored : content env main.files name ≡ old = rw (content, there) refl in
      (
        w,
        read,
        simp (trigger_one, reached, there, merge_file, dir, run, put),
        holds,
        ap (λ l. flatten (segs (log_at env l (stem name)))) logs ∙ empty,
        run',
        whole' name ∙ ap (λ l. l ++ appended name es) stored,
      )
