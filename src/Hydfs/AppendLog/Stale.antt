-- ===== src/Hydfs/AppendLog/Stale.antt =====
-- What a log does once it has been merged: `IsRead` is never reset, so later writes stay in it
-- until `ReadAllLogs` comes round.
use text.Mathlib.TextEquality.{eq_iff}
use rain_strom_distributed_s.Prelude.{
  ℕ, ◌≡◌, refl, ◌∙◌, true, none, some, List, [], ◌∷◌, String, Map, lookup, insert, string_eq,
  str_eq, inl, inr, Option-cases, Bool-cases, lookup-insert,
}
use rain_strom_distributed_s.Prelude.Paths.{stem}
use rain_strom_distributed_s.Hydfs.AppendLog.{
  AolEntry, Env, LogMeta, Node, log_at, map_to_aol_log, write_log, merge_aol_on_read, new_meta,
}
use rain_strom_distributed_s.Hydfs.AppendLog.Pending.{write_all}

lookup-insert_absent :
    {V : Type 0} (k j : String) (v w : V) (m : Map String V)
    → lookup k m ≡ none
    → lookup j m ≡ some w
    → lookup j (insert k v m) ≡ some w
lookup-insert_absent k j v w m h e = elim (Bool-cases (str_eq k j)) [
  | inl q ↦ absurd (cc (h, e, (eq_iff k j).0 q))
  | inr q ↦ rw (lookup-insert k j v m, q) e
]

module _ (env : Env) where
  open env use {write, encode, opens_log}

  -- A write touches no file, and the mapper keeps what it has for a key.
  write_log-keeps :
      (join : String → String) (e : AolEntry) (n : Node env) (key : String) (meta : LogMeta)
      → lookup key n.mapper ≡ some meta
      → ((write_log env join e n).files ≡ n.files)
        × (lookup key (write_log env join e n).mapper ≡ some meta)
  unfolding write_log map_to_aol_log
  write_log-keeps join e n key meta m = elim (Option-cases (lookup (stem e.file_name) n.mapper)) [
    | inl z ↦
        let k =
          lookup-insert_absent (stem e.file_name) key (new_meta env join (stem e.file_name)) meta
            n.mapper z m in
        elim (Bool-cases (opens_log (stem e.file_name))) [
          | inl o ↦ elim (Option-cases (write (log_at env n.logs (stem e.file_name)) (encode e))) [
            | inl w ↦ rw (write_log, map_to_aol_log, z, o, w, z) (refl, k)
            | inr (l, w) ↦ rw (write_log, map_to_aol_log, z, o, w, z) (refl, k)
          ]
          | inr o ↦ rw (write_log, map_to_aol_log, z, o) (refl, k)
        ]
    | inr (old, z) ↦ elim (Bool-cases (opens_log (stem e.file_name))) [
      | inl o ↦ elim (Option-cases (write (log_at env n.logs (stem e.file_name)) (encode e))) [
        | inl w ↦ rw (write_log, map_to_aol_log, z, o, w, z) (refl, m)
        | inr (l, w) ↦ rw (write_log, map_to_aol_log, z, o, w, z) (refl, m)
      ]
      | inr o ↦ rw (write_log, map_to_aol_log, z, o) (refl, m)
    ]
  ]

  -- After a log was merged once, no number of writes is seen by a later read: `MergeAoLOnRead`
  -- finds the log marked as read, leaves the node as it is, and every file has the bytes it had.
  pub writes_after_read :
      (join : String → String) (fuel : ℕ) (name : String) (es : List AolEntry) (n : Node env)
      (meta : LogMeta)
      → lookup (stem name) n.mapper ≡ some meta
      → meta.is_read ≡ true
      → (merge_aol_on_read env fuel name (write_all env join es n) ≡ some (write_all env join es n))
        × ((write_all env join es n).files ≡ n.files)
  unfolding merge_aol_on_read
  writes_after_read join fuel name [] n meta m r = (rw (m, r, merge_aol_on_read) refl, refl)
  writes_after_read join fuel name (e ∷ es) n meta m r =
      let (f, m') = write_log-keeps join e n (stem name) meta m in
      let (a, b) = writes_after_read join fuel name es (write_log env join e n) meta m' r in
      (a, b ∙ f)
