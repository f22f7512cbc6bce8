-- ===== src/Hydfs/Failure/Range.antt =====
-- What `GetFilesInRange` selects.
use rain_strom_distributed_s.Prelude.{
  ℕ, ◌≤◌, ◌<◌, ◌≡◌, ◌↔◌, ◌⊎◌, refl, sym, inl, inr, arith, true, false, not, ◌&&◌, List, [], ◌∷◌,
  String, Has, Bool-cases, ap, subst, ◌∙◌,
}
use rain_strom_distributed_s.Config.{Config, get_file_hash_id}
use rain_strom_distributed_s.Hydfs.Failure.{DirEntry, in_range, get_files_in_range}

in_range_iff :
    (start last hash : ℕ)
    → (in_range start last hash ≡ true) ↔ ((start ≤ last) ⊎ (start < hash) ⊎ (hash < last))
unfolding in_range
in_range_iff start last hash = ground arith

abbrev Beyond : Config → ℕ → ℕ → String → Type 0
Beyond c start last path =
    (start ≤ last) ⊎ (start < get_file_hash_id c path) ⊎ (get_file_hash_id c path < last)

-- A file of the directory that the range takes in, as the code tests it.
abbrev pub IsSelected : Config → ℕ → ℕ → String → List DirEntry → Type 0
IsSelected c start last path ds =
    (d : DirEntry) × Has d ds
    × (d.path ≡ path)
    × (d.is_dir ≡ false)
    × ((start ≤ last) ⊎ (start < get_file_hash_id c path) ⊎ (get_file_hash_id c path < last))

-- `GetFilesInRange` selects the files of the directory whose place lies behind the start or
-- before the end, and, where the start is not greater than the end, every file.
pub get_files_in_range-exact :
    (c : Config) (start last : ℕ) (path : String) (ds : List DirEntry)
    → Has path (get_files_in_range c ds start last) ↔ IsSelected c start last path ds
unfolding get_files_in_range
get_files_in_range-exact c start last path [] = (λ h. absurd h, λ h. absurd h.1)
get_files_in_range-exact c start last path (d ∷ ds) =
    let (f, g) = get_files_in_range-exact c start last path ds in
    let (to, from) = in_range_iff start last (get_file_hash_id c d.path) in
    elim (Bool-cases (not d.is_dir && in_range start last (get_file_hash_id c d.path))) [
      | inl q ↦
          let file : d.is_dir ≡ false = ground (arith, q) in
          let yes : in_range start last (get_file_hash_id c d.path) ≡ true = ground (arith, q) in
          rw (q, get_files_in_range)
            (
              λ h. elim h [
                | inl e ↦ (d, inl refl, sym e, file, subst (Beyond c start last) (sym e) (to yes))
                | inr r ↦ let (x, a, b, k, o) = f r in (x, inr a, b, k, o)
              ],
              λ (x, a, b, k, r). elim a [
                | inl e ↦ inl (sym b ∙ ap (λ z. z.path) e)
                | inr h ↦ inr (g (x, h, b, k, r))
              ],
            )
      | inr q ↦
          rw (q, get_files_in_range)
            (
              λ h. let (x, a, b, k, o) = f h in (x, inr a, b, k, o),
              λ (x, a, b, k, r). elim a [
                | inl e ↦
                    let file : d.is_dir ≡ false = sym (ap (λ z. z.is_dir) e) ∙ k in
                    let yes = from (subst (Beyond c start last) (sym b ∙ ap (λ z. z.path) e) r) in
                    absurd (ground (arith, q, file, yes))
                | inr h ↦ g (x, h, b, k, r)
              ],
            )
    ]
