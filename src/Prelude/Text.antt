-- ===== src/Prelude/Text.antt =====
-- Functions of the package `strings`, as far as the program uses them. A text is a list of code
-- points.
use Prim.Native.Nat.{ℕ}
use Prim.Native.Char.{Char, code}
use Prim.Native.String.{String}
use mathlib.Core.Path.{◌≡◌, refl, ap}
use mathlib.Core.Bool.{Bool, true, false, ◌&&◌, ◌||◌}
use mathlib.Core.List.{List, [], ◌∷◌}
use mathlib.Core.Option.{Option, none, some}
use rain_strom_distributed_s.Prelude.Tests.{◌==◌, leb, if◌then◌else◌}

-- `Split` with a separator of one character.
unfoldable pub split : ℕ → String → List String
split k String.[] = String.[] ∷ []
split k (String.◌∷◌ c s) =
    let rest = split k s in
    if code c == k
    then String.[] ∷ rest
    else elim rest [ [] ↦ String.◌∷◌ c String.[] ∷ [] | h ∷ t ↦ String.◌∷◌ c h ∷ t ]

-- `SplitN` with a separator of one character and at most two parts: none if there is only one.
unfoldable pub cut : ℕ → String → Option (String × String)
cut k String.[] = none
cut k (String.◌∷◌ c s) =
    let rest : Option (String × String) = elim (cut k s) [
      | none ↦ none
      | some (before, behind) ↦ some (String.◌∷◌ c before, behind)
    ] in
    if code c == k then some (String.[], s) else rest

unfoldable pub trim_left : (ℕ → Bool) → String → String
trim_left p String.[] = String.[]
trim_left p (String.◌∷◌ c s) =
    let rest = trim_left p s in if p (code c) then rest else String.◌∷◌ c s

unfoldable pub trim_right : (ℕ → Bool) → String → String
trim_right p String.[] = String.[]
trim_right p (String.◌∷◌ c s) = elim (trim_right p s) [
  | String.[] ↦ if p (code c) then String.[] else String.◌∷◌ c String.[]
  | String.◌∷◌ d rest ↦ String.◌∷◌ c (String.◌∷◌ d rest)
]

-- `Trim`, with the cutset as a test.
abbrev pub trim : (ℕ → Bool) → String → String
trim p s = trim_right p (trim_left p s)

-- `unicode.IsSpace`
unfoldable pub is_space : ℕ → Bool
is_space k =
    (leb 9 k && leb k 13)
    || k == 32
    || k == 133
    || k == 160
    || k == 5760
    || (leb 8192 k && leb k 8202)
    || k == 8232
    || k == 8233
    || k == 8239
    || k == 8287
    || k == 12288

abbrev pub trim_space : String → String
trim_space = trim is_space

-- `HasPrefix`
unfoldable pub has_prefix : String → String → Bool
has_prefix s String.[] = true
has_prefix String.[] (String.◌∷◌ d t) = false
has_prefix (String.◌∷◌ c s) (String.◌∷◌ d t) =
    let rest = has_prefix s t in if code c == code d then rest else false

abbrev pub append : String → String → String
append String.[] t = t
append (String.◌∷◌ c s) t = String.◌∷◌ c (append s t)

-- Each character passes the test.
abbrev pub AllChars : (ℕ → Bool) → String → Type 0
AllChars p String.[] = Unit
AllChars p (String.◌∷◌ c s) = (p (code c) ≡ true) × AllChars p s

-- No character passes the test.
abbrev pub NoChars : (ℕ → Bool) → String → Type 0
NoChars p String.[] = Unit
NoChars p (String.◌∷◌ c s) = (p (code c) ≡ false) × NoChars p s

abbrev pub IsFull : String → Type 0
IsFull String.[] = ⊥
IsFull (String.◌∷◌ c s) = Unit

pub NoChars-append :
    (p : ℕ → Bool) (s t : String) → NoChars p s → NoChars p t → NoChars p (append s t)
NoChars-append p String.[] t h k = k
NoChars-append p (String.◌∷◌ c s) t h k = (h.0, NoChars-append p s t h.1 k)

pub append_assoc : (s t u : String) → append (append s t) u ≡ append s (append t u)
append_assoc String.[] t u = refl
append_assoc (String.◌∷◌ c s) t u = ap (λ x. String.◌∷◌ c x) (append_assoc s t u)

pub split-whole : (k : ℕ) (s : String) → NoChars (λ c. c == k) s → split k s ≡ s ∷ []
unfolding split
split-whole k String.[] h = refl
split-whole k (String.◌∷◌ c s) h = rw (split, h.0, split-whole k s h.1) refl

pub split-append :
    (k : ℕ) (s : String) (c : Char) (t : String)
    → NoChars (λ d. d == k) s
    → (code c == k) ≡ true
    → split k (append s (String.◌∷◌ c t)) ≡ s ∷ split k t
unfolding split
split-append k String.[] c t h e = rw (split, e) refl
split-append k (String.◌∷◌ d s) c t h e = rw (split, h.0, split-append k s c t h.1 e) refl

-- A text that does not lose its end keeps it behind any other.
pub trim_right-append :
    (p : ℕ → Bool) (s t : String)
    → IsFull t
    → trim_right p t ≡ t
    → trim_right p (append s t) ≡ append s t
unfolding trim_right
trim_right-append p String.[] t f h = h
trim_right-append p (String.◌∷◌ c s) t f h =
    rw (trim_right, trim_right-append p s t f h) (full (append s t) (append-full s t f))
  where
    append-full : (s t : String) → IsFull t → IsFull (append s t)
    append-full String.[] t f = f
    append-full (String.◌∷◌ d s) t f = tt

    full :
        (x : String)
        → IsFull x
        → (elim x as (λ _. String) [
          | String.[] ↦ if p (code c) then String.[] else String.◌∷◌ c String.[]
          | String.◌∷◌ d rest ↦ String.◌∷◌ c (String.◌∷◌ d rest)
        ])
          ≡ String.◌∷◌ c x
    full String.[] f = absurd f
    full (String.◌∷◌ d rest) f = refl

pub trim_right-NoChars : (p : ℕ → Bool) (s : String) → NoChars p s → trim_right p s ≡ s
unfolding trim_right
trim_right-NoChars p String.[] h = refl
trim_right-NoChars p (String.◌∷◌ c String.[]) h = rw (trim_right, h.0) refl
trim_right-NoChars p (String.◌∷◌ c (String.◌∷◌ d s)) h =
    rw (trim_right, trim_right-NoChars p (String.◌∷◌ d s) h.1) refl

-- A character at the end that passes the test goes.
pub trim_right-last :
    (p : ℕ → Bool) (s : String) (c : Char)
    → p (code c) ≡ true
    → trim_right p (append s (String.◌∷◌ c String.[])) ≡ trim_right p s
unfolding trim_right
trim_right-last p String.[] c h = rw (trim_right, h) refl
trim_right-last p (String.◌∷◌ d s) c h = rw (trim_right, trim_right-last p s c h) refl
