-- ===== src/Stream/Operators/Adds.antt =====
-- App2_Exec/op2 reads the JSON text of a tuple by hand: what it makes of one.
use Prim.Native.Char.{code}
use rain_strom_distributed_s.Prelude.{
  ℕ, ◌<◌, ◌+◌, ◌≡◌, refl, sym, ap, ◌∙◌, Bool, true, false, some, [], ◌∷◌, String, ◌==◌, get_elem?,
  ◌>>=◌, ◌&&◌, leb, arith,
}
use rain_strom_distributed_s.Prelude.Text.{
  split, trim_left, trim_right, has_prefix, append, AllChars, NoChars, IsFull, NoChars-append,
  append_assoc, split-whole, split-append, trim_right-append, trim_right-NoChars, trim_right-last,
}
use rain_strom_distributed_s.Stream.Operators.{
  Packages, line, brace, padding, field_value, note_part, app2_op2,
}

-- The first character does not pass the test.
abbrev pub StartsOutside : (ℕ → Bool) → String → Type 0
StartsOutside p String.[] = ⊥
StartsOutside p (String.◌∷◌ c s) = p (code c) ≡ false

-- A key that JSON prints as it is, in which the program finds no separator, and which does not
-- start or end with a space.
pub record IsKey (s : String) : Type 0 where
  pub no_comma : NoChars (λ c. c == b',') s
  pub no_colon : NoChars (λ c. c == b':') s
  pub left : StartsOutside padding s
  pub right : trim_right padding s ≡ s

abbrev pub is_digit : ℕ → Bool
is_digit k = leb b'0' k && leb k b'9'

-- What the program relies on: how `encoding/json` prints a key that needs no escapes, in a record and
-- in a tuple without zero values, and that
-- `strconv` prints numbers by digits and reads them back.
pub record Laws (lib : Packages) (IsPlain : String → Type 0) : Type 0 where
  pub marshal_lem :
      (key : String) (n : ℕ)
      → IsPlain key
      → lib.marshal key n
        ≡ append "{\"Key\":\"" (append key (append "\",\"Value\":" (append (lib.itoa n) "}")))
  pub marshal_tuple_lem :
      (key : String) (n : ℕ)
      → IsPlain key
      → IsKey key
      → 0 < n
      → lib.marshal_tuple key n ≡ lib.marshal key n
  pub itoa_full : (n : ℕ) → IsFull (lib.itoa n)
  pub itoa_digits : (n : ℕ) → AllChars is_digit (lib.itoa n)
  pub atoi_lem : (n : ℕ) → lib.atoi (lib.itoa n) ≡ some n

AllChars-NoChars :
    (q : ℕ → Bool) (s : String)
    → ((k : ℕ) → is_digit k ≡ true → q k ≡ false)
    → AllChars is_digit s
    → NoChars q s
AllChars-NoChars q String.[] f h = tt
AllChars-NoChars q (String.◌∷◌ c s) f h = (f (code c) h.0, AllChars-NoChars q s f h.1)

trim_left-append :
    (p : ℕ → Bool) (s t : String) → StartsOutside p s → trim_left p (append s t) ≡ append s t
unfolding trim_left
trim_left-append p String.[] t h = absurd h
trim_left-append p (String.◌∷◌ c s) t h = rw (trim_left, h) refl

starts : (p : ℕ → Bool) (s : String) → IsFull s → NoChars p s → StartsOutside p s
starts p String.[] f h = absurd f
starts p (String.◌∷◌ c s) f h = h.0

-- The text of a number loses nothing.
trim_digits :
    (s : String) → IsFull s → NoChars padding s → trim_right padding (trim_left padding s) ≡ s
unfolding trim_left
trim_digits String.[] f h = absurd f
trim_digits (String.◌∷◌ c s) f h =
    rw (trim_left, h.0) (trim_right-NoChars padding (String.◌∷◌ c s) h)

-- The two parts of the text without its braces.
abbrev key_part : String → String
key_part key = append "\"Key\":\"" (append key "\"")

abbrev value_part : String → String
value_part digits = append "\"Value\":" digits

-- A key in quotation marks is taken out of them.
trim_quoted :
    (key : String)
    → IsKey key
    → trim_right padding (trim_left padding (String.◌∷◌ "\"" (append key "\""))) ≡ key
unfolding trim_left
trim_quoted key k =
    ap (trim_right padding) (trim_left-append padding key "\"" k.left)
    ∙ trim_right-last padding key "\"" refl
    ∙ k.right

field_value-key : (key : String) → IsKey key → field_value (key_part key) ≡ some key
unfolding field_value has_prefix
field_value-key key k =
    let inner : NoChars (λ d. d == b':') (String.◌∷◌ "\"" (append key "\"")) =
      (refl, NoChars-append (λ d. d == b':') key "\"" k.no_colon (refl, tt)) in
    let parts : split b':' (key_part key) ≡ "\"Key\"" ∷ String.◌∷◌ "\"" (append key "\"") ∷ [] =
      split-append b':' "\"Key\"" ":" (String.◌∷◌ "\"" (append key "\""))
        (refl, (refl, (refl, (refl, (refl, tt))))) refl
      ∙ ap (λ l. "\"Key\"" ∷ l) (split-whole b':' _ inner) in
    rw (field_value, parts) (ap (λ x. some x) (trim_quoted key k))

-- The characters that matter are none of a number's.
module _ (s : String) (h : AllChars is_digit s) where
  digits-comma : NoChars (λ c. c == b',') s
  digits-comma = AllChars-NoChars (λ c. c == b',') s (λ k e. ground arith) h

  digits-colon : NoChars (λ c. c == b':') s
  digits-colon = AllChars-NoChars (λ c. c == b':') s (λ k e. ground arith) h

  digits-brace : NoChars brace s
  digits-brace = AllChars-NoChars brace s (λ k e. ground arith) h

  digits-padding : NoChars padding s
  digits-padding = AllChars-NoChars padding s (λ k e. ground arith) h

field_value-value :
    (s : String) → IsFull s → AllChars is_digit s → field_value (value_part s) ≡ some s
unfolding field_value
field_value-value s f h =
    let parts : split b':' (value_part s) ≡ "\"Value\"" ∷ s ∷ [] =
      split-append b':' "\"Value\"" ":" s (refl, (refl, (refl, (refl, (refl, (refl, (refl, tt)))))))
        refl
      ∙ ap (λ l. "\"Value\"" ∷ l) (split-whole b':' s (digits-colon s h)) in
    ap (λ l. get_elem? l 1 >>= (λ t. some (trim_right padding (trim_left padding t)))) parts
    ∙ ap (λ x. some x) (trim_digits s f (digits-padding s h))

note_part-key : (key : String) → IsKey key → note_part (key_part key) ("", "") ≡ some (key, "")
unfolding note_part
note_part-key key k = rw (note_part, field_value-key key k) refl

note_part-value :
    (key s : String)
    → IsFull s
    → AllChars is_digit s
    → note_part (value_part s) (key, "") ≡ some (key, s)
unfolding note_part
note_part-value key s f h = rw (note_part, field_value-value s f h) refl

-- The text of a tuple without its braces, and its two parts.
body : String → String → String
body key s = append (key_part key) (append "," (value_part s))

unbraced :
    (key s : String)
    → IsFull s
    → AllChars is_digit s
    → trim_right brace (trim_left brace (append "{" (append (body key s) "}"))) ≡ body key s
unfolding trim_left body
unbraced key s f h =
    trim_right-last brace (body key s) "}" refl
    ∙ trim_right-append brace (key_part key) (append "," (value_part s)) tt
        (trim_right-append brace ",\"Value\":" s f (trim_right-NoChars brace s (digits-brace s h)))

body-parts :
    (key s : String)
    → IsKey key
    → AllChars is_digit s
    → split b',' (body key s) ≡ key_part key ∷ value_part s ∷ []
unfolding body
body-parts key s k h =
    let quoted : NoChars (λ c. c == b',') (key_part key) = (
      refl,
      (
        refl,
        (
          refl,
          (
            refl,
            (refl, (refl, (refl, NoChars-append (λ c. c == b',') key "\"" k.no_comma (refl, tt)))),
          ),
        ),
      ),
    ) in
    let valued : NoChars (λ c. c == b',') (value_part s) =
      (refl, (refl, (refl, (refl, (refl, (refl, (refl, (refl, digits-comma s h)))))))) in
    split-append b',' (key_part key) "," (value_part s) quoted refl
    ∙ ap (λ l. key_part key ∷ l) (split-whole b',' (value_part s) valued)

-- The text that JSON prints has this body.
body-marshal :
    (key s : String)
    → append "{\"Key\":\"" (append key (append "\",\"Value\":" (append s "}")))
      ≡ append "{" (append (body key s) "}")
unfolding body
body-marshal key s = ap (append "{\"Key\":\"") (
    sym (
      append_assoc (append key "\"") (append "," (value_part s)) "}"
      ∙ append_assoc key "\"" (append (append "," (value_part s)) "}")))

-- Given what the program relies on, and a key that JSON prints as it is and that is free of the
-- separators: App2_Exec/op2 takes the JSON text of a tuple apart, and prints the tuple of the same
-- key with the count of its first argument added to the value.
pub app2_op2-adds :
    (lib : Packages) (IsPlain : String → Type 0) (key : String) (count value : ℕ)
    → Laws lib IsPlain
    → IsPlain key
    → IsKey key
    → app2_op2 lib (lib.itoa count ∷ lib.marshal key value ∷ [])
      ≡ line (lib.marshal key (count + value))
unfolding app2_op2
app2_op2-adds lib IsPlain key count value laws plain k =
    let s = lib.itoa value in
    let f = laws.itoa_full value in
    let h = laws.itoa_digits value in
    let text : lib.marshal key value ≡ append "{" (append (body key s) "}") =
      laws.marshal_lem key value plain ∙ body-marshal key s in
    let parts : split b',' (trim_right brace (trim_left brace (lib.marshal key value)))
        ≡ key_part key ∷ value_part s ∷ [] =
      ap (λ x. split b',' (trim_right brace (trim_left brace x))) text
      ∙ ap (split b',') (unbraced key s f h)
      ∙ body-parts key s k h in
    rw
      (
        app2_op2,
        parts,
        note_part-key key k,
        note_part-value key s f h,
        laws.atoi_lem value,
        laws.atoi_lem count,
      )
      refl
