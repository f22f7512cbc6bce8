-- ===== src/Cli/Parse.antt =====
-- How quoted arguments are read back.
use Prim.Native.Char.{Char, code}
use rain_strom_distributed_s.Prelude.{
  ◌≡◌, refl, sym, ap, ◌∙◌, true, false, List, [], ◌∷◌, String, ◌==◌, All, Bool-cases, inl, inr,
}
use rain_strom_distributed_s.Cli.{write_rune, flush, scan_char, parse_from, parse_arguments}

-- The text has no quotation mark.
abbrev pub HasNoQuote : String → Type 0
HasNoQuote String.[] = Unit
HasNoQuote (String.◌∷◌ c s) = ((code c == b'"') ≡ false) × HasNoQuote s

-- The arguments that are not empty.
abbrev pub full_ones : List String → List String
full_ones [] = []
full_ones (String.[] ∷ args) = full_ones args
full_ones (String.◌∷◌ c s ∷ args) = String.◌∷◌ c s ∷ full_ones args

abbrev pub put : String → String → String
put String.[] t = t
put (String.◌∷◌ c s) t = String.◌∷◌ c (put s t)

-- The arguments in quotation marks, each with a space behind it.
abbrev pub print_arguments : List String → String
print_arguments [] = String.[]
print_arguments (a ∷ args) =
    String.◌∷◌ "\"" (put a (String.◌∷◌ "\"" (String.◌∷◌ " " (print_arguments args))))

-- The text with another one written behind it, character by character.
abbrev written : String → String → String
written current String.[] = current
written current (String.◌∷◌ c s) = written (write_rune c current) s

put-write_rune :
    (c : Char) (current s : String) → put (write_rune c current) s ≡ put current (String.◌∷◌ c s)
unfolding write_rune
put-write_rune c String.[] s = refl
put-write_rune c (String.◌∷◌ d current) s = ap (λ t. String.◌∷◌ d t) (put-write_rune c current s)

put_nil : (s : String) → put s String.[] ≡ s
put_nil String.[] = refl
put_nil (String.◌∷◌ c s) = ap (λ t. String.◌∷◌ c t) (put_nil s)

written-put : (current s : String) → written current s ≡ put current s
written-put current String.[] = sym (put_nil current)
written-put current (String.◌∷◌ c s) =
    written-put (write_rune c current) s ∙ put-write_rune c current s

parse_quoted :
    (a t current : String)
    → HasNoQuote a
    → parse_from (put a t) current true ≡ parse_from t (written current a) true
unfolding parse_from scan_char
parse_quoted String.[] t current h = refl
parse_quoted (String.◌∷◌ c s) t current h = elim (Bool-cases (code c == b' ')) [
  | inl q ↦ rw (parse_from, scan_char, h.0, q) (parse_quoted s t (write_rune c current) h.1)
  | inr q ↦ rw (parse_from, scan_char, h.0, q) (parse_quoted s t (write_rune c current) h.1)
]

flush-full_ones :
    (a : String) (args : List String) → flush a (full_ones args) ≡ full_ones (a ∷ args)
unfolding flush
flush-full_ones String.[] args = refl
flush-full_ones (String.◌∷◌ c s) args = refl

-- Any arguments without a quotation mark, spaces or not, each written in quotation marks with a space
-- behind it: `parseArguments` reads those that are not empty back as they are, in their order, and
-- drops the empty ones.
pub parse_arguments-print :
    (args : List String)
    → All HasNoQuote args
    → parse_arguments (print_arguments args) ≡ full_ones args
unfolding parse_arguments parse_from scan_char flush
parse_arguments-print [] q = refl
parse_arguments-print (a ∷ args) q =
    let rest = parse_arguments-print args q.1 in
    parse_quoted a (String.◌∷◌ "\"" (String.◌∷◌ " " (print_arguments args))) String.[] q.0
    ∙ ap (λ x. flush x (parse_from (print_arguments args) String.[] false))
        (written-put String.[] a)
    ∙ ap (flush a) rest
    ∙ flush-full_ones a args
