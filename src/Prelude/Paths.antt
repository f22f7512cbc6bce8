-- ===== src/Prelude/Paths.antt =====
-- `filepath.Base` and `filepath.Ext` on Unix paths, as far as the program uses them.
use Prim.Native.Nat.{ℕ}
use Prim.Native.Char.{code}
use Prim.Native.String.{String}
use mathlib.Core.Path.{◌≡◌, refl}
use mathlib.Core.Bool.{Bool, true, false, ◌&&◌, ◌||◌}
use rain_strom_distributed_s.Prelude.Tests.{◌==◌, if◌then◌else◌}

abbrev is_empty : String → Bool
is_empty String.[] = true
is_empty (String.◌∷◌ c s) = false

pub has_char : ℕ → String → Bool
has_char k String.[] = false
has_char k (String.◌∷◌ c s) = code c == k || has_char k s

trim_slashes : String → String
trim_slashes String.[] = String.[]
trim_slashes (String.◌∷◌ c s) =
    let rest = trim_slashes s in
    if is_empty rest && code c == b'/' then String.[] else String.◌∷◌ c rest

after_last_slash : String → String
unfolding has_char
after_last_slash String.[] = String.[]
after_last_slash (String.◌∷◌ c s) =
    let rest = after_last_slash s in
    if has_char b'/' s then rest else if code c == b'/' then s else String.◌∷◌ c s

-- `filepath.Base`
unfoldable pub base : String → String
unfolding trim_slashes after_last_slash
base path =
    let path' = trim_slashes path in
    if is_empty path then "." else if is_empty path' then "/" else after_last_slash path'

-- `name[:len(name)-len(filepath.Ext(name))]`, for a name without a slash.
unfoldable pub strip_ext : String → String
unfolding has_char
strip_ext String.[] = String.[]
strip_ext (String.◌∷◌ c s) =
    let rest = String.◌∷◌ c (strip_ext s) in
    if has_char b'.' s then rest else if code c == b'.' then String.[] else String.◌∷◌ c s

-- `filepath.Ext`, for a name without a slash.
unfoldable pub ext : String → String
unfolding has_char
ext String.[] = String.[]
ext (String.◌∷◌ c s) =
    let rest = ext s in
    if has_char b'.' s then rest else if code c == b'.' then String.◌∷◌ c s else String.[]

-- The base name without its extension.
unfoldable pub stem : String → String
unfolding base strip_ext
stem path = strip_ext (base path)

stem_runs : stem "HyDfs/Files/HYDFS-Files/a.b.csv" ≡ "a.b"
unfolding stem
stem_runs = refl

ext_runs : ext "a.b.csv" ≡ ".csv"
unfolding ext
ext_runs = refl
