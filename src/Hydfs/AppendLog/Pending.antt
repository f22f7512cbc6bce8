-- ===== src/Hydfs/AppendLog/Pending.antt =====
-- The contract of the log: a file is what is stored of it and what is still to be merged, and a
-- read finds both in the order of the writes.
use mathlib.Core.List.{flatten}
use text.Mathlib.TextEquality.{eq_iff}
use rain_strom_distributed_s.Prelude.{
  append_assoc, append_nil, subst, ℕ, ◌<◌, ◌≡◌, refl, sym, ap, ◌∙◌, arith, true, false, none, some,
  List, [], ◌∷◌, ◌++◌, map, String, Map, lookup, insert, string_eq, if◌then◌else◌, length, str_eq,
  inl, inr, All, Bool-cases, lookup-insert, lookup-insert_self, ◌⊎◌, length-map,
}
use rain_strom_distributed_s.Prelude.Paths.{stem}
use rain_strom_distributed_s.Hydfs.AppendLog.{
  Bytes, AolEntry, Env, LogMeta, Node, log_at, content, merge_entry, map_to_aol_log, write_log,
  merge_aol_on_read,
}
use rain_strom_distributed_s.Hydfs.AppendLog.Loop.{done}
use rain_strom_distributed_s.Hydfs.AppendLog.Merge.{merged, read_log-merged, read_result}

-- What a list of entries appends to a file.
abbrev pub appended : String → List AolEntry → Bytes
appended name [] = []
appended name (e ∷ es) =
    let rest = appended name es in if str_eq e.file_name name then e.file_data ++ rest else rest

map-append : {A B : Type 0} (f : A → B) (xs ys : List A) → map f (xs ++ ys) ≡ map f xs ++ map f ys
map-append f [] ys = refl
map-append f (x ∷ xs) ys = ap (λ l. f x ∷ l) (map-append f xs ys)

module _ (env : Env) where
  open env use {Log, segs, write, encode, decode, opens, opens_log, write_lem, decode_lem}

  -- A write of a client, whose file can be opened.
  abbrev pub IsAppend : AolEntry → Type 0
  IsAppend e = (e.is_repair ≡ false) × (opens e.file_name ≡ true)

  content-insert :
      (files : Map String Bytes) (f name : String) (b : Bytes)
      → content env (insert f b files) name ≡ (if str_eq f name then b else content env files name)
  content-insert files f name b = elim (Bool-cases (str_eq f name)) [
    | inl q ↦ rw (content, lookup-insert f name b files, q) refl
    | inr q ↦ rw (content, lookup-insert f name b files, q) refl
  ]

  -- Merging writes appends their data to their files.
  merged-appended :
      (es : List AolEntry) (files : Map String Bytes)
      → All IsAppend es
      → (w : Map String Bytes) × (merged env (map encode es) files ≡ done w)
        × ((name : String) → content env w name ≡ content env files name ++ appended name es)
  unfolding merge_entry
  merged-appended [] files h = (files, refl, λ name. sym (append_nil (content env files name)))
  merged-appended (e ∷ es) files h =
      let files' = insert e.file_name (content env files e.file_name ++ e.file_data) files in
      let (w, z, c) = merged-appended es files' h.1 in
      (
        w,
        rw (decode_lem e, h.0.0, h.0.1, merged, map, merge_entry) z,
        λ name. elim (Bool-cases (str_eq e.file_name name)) [
          | inl q ↦
              c name
              ∙ rw (content-insert files e.file_name name _, q, appended)
                  (append_assoc (content env files e.file_name) e.file_data (appended name es)
                    ∙ ap (λ k. content env files k ++ (e.file_data ++ appended name es))
                        ((eq_iff e.file_name name).0 q))
          | inr q ↦ c name ∙ rw (content-insert files e.file_name name _, q) refl
        ],
      )

  -- The log at a key holds `es`, which no read has merged. Before the first write the mapper does
  -- not have the key.
  abbrev pub IsPending : String → List AolEntry → Node env → Type 0
  IsPending key es n =
      (flatten (segs (log_at env n.logs key)) ≡ map encode es)
      × (((lookup key n.mapper ≡ none) × (es ≡ []))
          ⊎ (meta : LogMeta) × (lookup key n.mapper ≡ some meta) × (meta.is_read ≡ false))

  -- One more segment or not, a log that is written to holds one entry more.
  write-pending :
      (key : String) (es : List AolEntry) (e : AolEntry) (n : Node env) (l : Log)
      → flatten (segs (log_at env n.logs key)) ≡ map encode es
      → write (log_at env n.logs key) (encode e) ≡ some l
      → flatten (segs (log_at env (insert key l n.logs) key)) ≡ map encode (es ++ e ∷ [])
  write-pending key es e n l p w =
      rw
        (
          log_at,
          lookup-insert_self key l n.logs,
          write_lem (log_at env n.logs key) l (encode e) w,
          p,
        )
        (sym (map-append encode es (e ∷ [])))

  pub write_log-IsPending :
      (join : String → String) (es : List AolEntry) (e : AolEntry) (n : Node env)
      → ((l : Log) (b : env.Json) → (l' : Log) × (write l b ≡ some l'))
      → opens_log (stem e.file_name) ≡ true
      → IsPending (stem e.file_name) es n
      → IsPending (stem e.file_name) (es ++ e ∷ []) (write_log env join e n)
        × ((write_log env join e n).files ≡ n.files)
  unfolding write_log map_to_aol_log
  write_log-IsPending join es e n ok o (p, inl (z, q)) =
      let key = stem e.file_name in
      let (l, w) = ok (log_at env n.logs key) (encode e) in
      rw (write_log, map_to_aol_log, z, o, w, z)
        ((write-pending key es e n l p w, inr (_, lookup-insert_self key _ n.mapper, refl)), refl)
  write_log-IsPending join es e n ok o (p, inr (meta, z, q)) =
      let key = stem e.file_name in
      let (l, w) = ok (log_at env n.logs key) (encode e) in
      rw (write_log, map_to_aol_log, z, o, w, z)
        ((write-pending key es e n l p w, inr (meta, z, q)), refl)

  abbrev pub write_all : (String → String) → List AolEntry → Node env → Node env
  write_all join [] n = n
  write_all join (e ∷ es) n = write_all join es (write_log env join e n)

  write_all-IsPending :
      (join : String → String) (key : String) (es ps : List AolEntry) (n : Node env)
      → ((l : Log) (b : env.Json) → (l' : Log) × (write l b ≡ some l'))
      → opens_log key ≡ true
      → All (λ e. stem e.file_name ≡ key) es
      → IsPending key ps n
      → IsPending key (ps ++ es) (write_all join es n) × ((write_all join es n).files ≡ n.files)
  write_all-IsPending join key [] ps n ok o h p =
      (subst (λ l. IsPending key l n) (sym (append_nil ps)) p, refl)
  write_all-IsPending join key (e ∷ es) ps n ok o h p =
      let P : String → Type 0 = λ k.
        IsPending k (ps ++ e ∷ []) (write_log env join e n)
        × ((write_log env join e n).files ≡ n.files) in
      let (q, f) = subst P h.0 (
        write_log-IsPending join ps e n ok (subst (λ k. opens_log k ≡ true) (sym h.0) o)
          (subst (λ k. IsPending k ps n) (sym h.0) p)) in
      let (r, g) =
        write_all-IsPending join key es (ps ++ e ∷ []) (write_log env join e n) ok o h.1 q in
      (
        subst (λ l. IsPending key l (write_all join (e ∷ es) n)) (append_assoc ps (e ∷ []) es) r,
        g ∙ f,
      )

  -- A read of a file whose log holds `es` merges all of them.
  pub merge-IsPending :
      (fuel : ℕ) (name : String) (es : List AolEntry) (n : Node env)
      → opens_log (stem name) ≡ true
      → All IsAppend es
      → length es < fuel
      → IsPending (stem name) es n
      → (w : Node env) × (merge_aol_on_read env fuel name n ≡ some w)
        × (flatten (segs (log_at env w.logs (stem name))) ≡ [])
        × ((f : String) → content env w.files f ≡ content env n.files f ++ appended f es)
  unfolding merge_aol_on_read
  merge-IsPending fuel name es n o a h (p, inl (z, q)) = (
    n,
    rw (z, merge_aol_on_read) refl,
    p ∙ rw q refl,
    λ f. rw (q, appended) (sym (append_nil (content env n.files f))),
  )
  merge-IsPending fuel name es n o a h (p, inr (meta, z, q)) =
      let (w, m, c) = merged-appended es n.files a in
      let bound : length (flatten (segs (log_at env n.logs (stem name)))) < fuel =
        rw p (omega (arith, length-map encode es)) in
      let r = read_log-merged env fuel (stem name) n meta z o bound in
      (
        record n {
          files = w;
          mapper = insert (stem name) (record meta { is_read = true }) n.mapper;
          logs = insert (stem name) env.fresh n.logs;
        },
        rw (z, q, merge_aol_on_read)
            (r.0
              ∙ ap (λ k. read_result env (stem name) meta (merged env k n.files) n) p
              ∙ rw m refl),
        rw (log_at, lookup-insert_self (stem name) env.fresh n.logs) env.fresh_lem,
        c,
      )

  -- Entries of one log, written while nothing of it is merged, are found by the next read of any
  -- file with that log: each file then holds what it held, what the log held for it, and the data
  -- of the new writes to it, in the order of the writes, and the log is empty. Writes and opens
  -- succeed, and the fuel exceeds the number of entries.
  pub writes-read :
      (join : String → String) (fuel : ℕ) (name : String) (es ps : List AolEntry) (n : Node env)
      → ((l : Log) (b : env.Json) → (l' : Log) × (write l b ≡ some l'))
      → opens_log (stem name) ≡ true
      → All (λ e. stem e.file_name ≡ stem name) es
      → All IsAppend (ps ++ es)
      → IsPending (stem name) ps n
      → length (ps ++ es) < fuel
      → (w : Node env) × (merge_aol_on_read env fuel name (write_all join es n) ≡ some w)
        × (flatten (segs (log_at env w.logs (stem name))) ≡ [])
        × ((f : String) → content env w.files f ≡ content env n.files f ++ appended f (ps ++ es))
  writes-read join fuel name es ps n ok o h a p b =
      let (q, e) = write_all-IsPending join (stem name) es ps n ok o h p in
      let (w, r, l, c) = merge-IsPending fuel name (ps ++ es) (write_all join es n) o a b q in
      (w, r, l, λ f. c f ∙ ap (λ k. content env k f ++ appended f (ps ++ es)) e)
