-- ===== src/Stream/Operators.antt =====
-- Stream/App1_Exec and Stream/App2_Exec: the four operator programs, from their arguments to what
-- they print. `none` is a panic. `regexp`, JSON and `strconv` are the environment, a parameter; of
-- the numbers, those that are not negative are modelled.
pub mod Adds
use rain_strom_distributed_s.Prelude.{
  ℕ, zero, suc, ◌+◌, ◌%◌, ◌^◌, ◌≡◌, Bool, true, false, ◌||◌, Option, none, some, List, [], ◌∷◌,
  String, str_eq, if◌then◌else◌, ◌==◌, ltb, ◌>>=◌, get_elem?, length, lookup, string_eq,
}
use rain_strom_distributed_s.Prelude.Text.{
  append, split, cut, trim, trim_space, has_prefix, trim_left, trim_right, is_space,
}

-- `matches` compiles a pattern and looks for it in a text, none for an invalid pattern. `marshal`
-- is the JSON text of a record with the fields `Key` and `Value`, and `unmarshal` reads one;
-- `marshal_tuple` is that of a `pb.Tuple`, whose generated struct leaves out the zero values. The two
-- errors are the texts of the errors for an invalid pattern and for an invalid JSON text.
pub record Packages : Type 0 where
  pub matches : String → String → Option Bool
  pub pattern_error : String → String
  pub marshal : String → ℕ → String
  pub marshal_tuple : String → ℕ → String
  pub unmarshal : String → Option (String × ℕ)
  pub json_error : String → String
  pub atoi : String → Option ℕ
  pub itoa : ℕ → String

-- `Println`
abbrev pub line : String → Option String
line s = some (append s "\n")

abbrev pub quote : ℕ → Bool
quote k = k == b'\''

abbrev pub brace : ℕ → Bool
brace k = k == b'{' || k == b'}'

abbrev pub padding : ℕ → Bool
padding k = k == b'"' || k == b' ' || k == b','

-- `strings.Trim(strings.Split(part, ":")[1], "\" ,")`
unfoldable pub field_value : String → Option String
unfolding split trim_left trim_right
field_value part = do text ← get_elem? (split b':' part) 1; some (trim padding text)

-- The body of the loop of App2_Exec/op2 over the parts.
unfoldable pub note_part : String → String × String → Option (String × String)
unfolding field_value has_prefix
note_part part (key, value) =
    if has_prefix part "\"Key\":"
    then (do v ← field_value part; some (v, value))
    else if has_prefix part "\"Value\":"
    then (do v ← field_value part; some (key, v))
    else some (key, value)

module _ (lib : Packages) where
  open lib use {matches, marshal, unmarshal, atoi, pattern_error, json_error}

  -- `main` of App1_Exec/op1: a line whose text has the pattern is printed with the count 1.
  unfoldable pub app1_op1 : List String → Option String
  unfolding cut trim_left trim_right
  app1_op1 (pattern ∷ tuple ∷ args) = elim (matches pattern tuple) [
    | none ↦ line (append "Invalid pattern: " (pattern_error pattern))
    | some _ ↦ elim (cut b':' tuple) [
      | none ↦ line (append "Invalid tuple format: " tuple)
      | some (key, rest) ↦
          let value = trim quote rest in
          elim (matches pattern value) [ some true ↦ line (marshal value 1) | _ ↦ line "" ]
    ]
  ]
  app1_op1 args = line "Usage: ./program <pattern> <key:value>"

  -- `main` of App1_Exec/op2: the columns 3 and 4 of the line. The guard asks for four columns, and
  -- five are read.
  unfoldable pub app1_op2 : List String → Option String
  unfolding split trim_left trim_right is_space
  app1_op2 [] = line "Usage: ./program '{\"Key\":\"<csv_line>\", \"Value\":<int>}'"
  app1_op2 (input ∷ args) = elim (unmarshal input) [
    | none ↦ line (append "Error parsing input JSON: " (json_error input))
    | some (csv_line, value) ↦
        let parts = split b',' csv_line in
        let printed : Option String = do
          third ← get_elem? parts 3
          fourth ← get_elem? parts 4
          line (marshal (trim_space (append third (append "," fourth))) 1)
        in if ltb (length parts) 4 then line "Invalid CSV format: not enough commas" else printed
  ]

  -- `main` of App2_Exec/op1: the category of a line with this sign post. The guard asks for nine
  -- fields, and ten are read.
  unfoldable pub app2_op1 : List String → Option String
  unfolding cut split trim_left trim_right is_space
  app2_op1 (x ∷ content ∷ []) =
      let sign_post_type = trim_space x in
      elim (cut b':' (trim_space content)) [
        | none ↦ line "Malformed input, expected a key:value format"
        | some (key, rest) ↦
            let fields = split b',' (trim_space rest) in
            let printed : Option String = do
              sign_post ← get_elem? fields 7
              category ← get_elem? fields 9
              if str_eq (trim_space sign_post) sign_post_type
                  then line (marshal (trim_space category) 1)
                  else some ""
            in if ltb (length fields) 9
              then line "Malformed line content, expected at least 9 fields"
              else printed
      ]
  app2_op1 args = line "Usage: ./app2-op1 <X> <content>"

  -- `main` of App2_Exec/op2: the count in the first argument and the value of the tuple are added.
  unfoldable pub app2_op2 : List String → Option String
  unfolding note_part split trim_left trim_right
  app2_op2 (initial_count ∷ tuple ∷ []) = elim (split b',' (trim brace tuple)) [
    | one ∷ two ∷ [] ↦ do
      first ← note_part one ("", "")
      (key, value_str) ← note_part two first
      elim (atoi value_str) [
        | none ↦ line "Invalid value. It should be an integer."
        | some value ↦ elim (atoi initial_count) [
          | none ↦ line "Invalid initial count. It should be an integer."
          | some count ↦ line (marshal key (count + value))
        ]
      ]
    | _ ↦ line "Invalid format. Expected format: {\"Key\": \"category\", \"Value\": 1}"
  ]
  app2_op2 args = line "Usage: ./app2-op2 <initial_count> <{\"Key\": \"category\", \"Value\": 1}>"
