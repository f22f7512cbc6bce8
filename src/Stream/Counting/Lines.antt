-- ===== src/Stream/Counting/Lines.antt =====
-- The tuples that `PerformTask` makes of the lines of a partition, and what becomes of them in the
-- map of the acknowledgments.
use rain_strom_distributed_s.Prelude.{
  ℕ, suc, ◌≡◌, refl, sym, ap, ◌∙◌, subst, Bool, true, false, none, some, Option, List, [], ◌∷◌,
  String, Map, lookup, string_eq, str_eq, ltb, if◌then◌else◌, Has, Bool-cases, Option-cases, inl,
  inr, ℤ,
}
use rain_strom_distributed_s.Stream.Partition.{minus_one}
use rain_strom_distributed_s.Stream.Tuples.{Tuple}
use rain_strom_distributed_s.Stream.Network.{
  JobTask, Env, Sender, Output, create_tuple_id, get_receiver_by_tuple,
}
use rain_strom_distributed_s.Stream.Counting.Sent.{IsNoted, IsSent, send_output-IsSent}
use rain_strom_distributed_s.Stream.Sender.{
  after, execute_tasks, get_arguments, get_tuple, perform_line, perform_lines, send_output,
  all_true, all_acknowledged,
}

-- What the operator with these arguments gives for a line, unless it fails or gives the empty key.
unfoldable pub line_output : Env → JobTask → List String → String → ℕ → String → Option Output
unfolding execute_tasks
line_output env task args file n text =
    elim (execute_tasks env task.parent_job.op_1_exe (env.print_tuple (env.print_key file n) text)
      args) [
        | none ↦ none
        | some out ↦ if str_eq (env.unmarshal out).key "" then none else some (env.unmarshal out)
      ]

abbrev pub made_id : Env → JobTask → ℕ → String
made_id env task made = create_tuple_id env task.parent_job.job_id task.task_id (minus_one made)

-- The tuples of the lines from `start` to `end`, with their numbers from `made` on.
unfoldable pub made_of :
    Env → JobTask → List String → String → ℕ → ℤ → List String → ℕ → ℕ → List Tuple
unfolding line_output
made_of env task args file start end [] n made = []
made_of env task args file start end (text ∷ rest) n made =
    let skipped = made_of env task args file start end rest (suc n) made in
    let taken = made_of env task args file start end rest (suc n) (suc made) in
    if ltb n start
    then skipped
    else if after n end
    then []
    else elim (line_output env task args file n text) [
      | none ↦ skipped
      | some o ↦ get_tuple (made_id env task made) o ∷ taken
    ]

get_arguments-same :
    (env : Env) (task : JobTask) (s t : Sender)
    → t.output_map ≡ s.output_map
    → get_arguments env task "" t ≡ get_arguments env task "" s
unfolding get_arguments
get_arguments-same env task s t e =
    ap (λ m. get_arguments env task "" (record s { output_map = m })) e

-- What `PerformTask` does with a line: nothing, or it sends the tuple of its output.
abbrev IsLine : Env → JobTask → Option Output → ℕ → ℕ → Sender → Sender → Type 0
IsLine env task none made made' s s' = (made' ≡ made) × (s' ≡ s)
IsLine env task (some o) made made' s s' = (made' ≡ suc made) × IsSent (made_id env task made) s s'

perform_line-IsLine :
    (env : Env) (task : JobTask) (file : String) (n : ℕ) (text : String) (made made' : ℕ)
    (s s' : Sender)
    → perform_line env task file n text made s ≡ some (made', s')
    → IsLine env task
        (line_output env task (get_arguments env task "" s) file n text)
        made
        made'
        s
        s'
unfolding perform_line line_output get_tuple
perform_line-IsLine env task file n text made made' s s' h =
    let args = get_arguments env task "" s in
    let run =
      execute_tasks env task.parent_job.op_1_exe (env.print_tuple (env.print_key file n) text)
        args in
    let idle : line_output env task args file n text ≡ none
        → perform_line env task file n text made s ≡ some (made, s)
        → IsLine env task (line_output env task args file n text) made made' s s' =
      λ o p.
        let (a, b) = pair (sym p ∙ h) in
        subst (λ z. IsLine env task z made made' s s') (sym o) (sym a, sym b) in
    elim (Option-cases run) [
      | inl e ↦ idle (rw (line_output, e) refl) (rw (perform_line, e) refl)
      | inr (out, e) ↦ elim (Bool-cases (str_eq (env.unmarshal out).key "")) [
        | inl z ↦ idle (rw (line_output, e, z) refl) (rw (perform_line, e, z) refl)
        | inr z ↦
            let o = env.unmarshal out in
            let tuple = get_tuple (made_id env task made) o in
            let line : line_output env task args file n text ≡ some o =
              rw (line_output, e, z) refl in
            elim (Option-cases (get_receiver_by_tuple env tuple task s)) [
              | inl g ↦
                  let p : perform_line env task file n text made s ≡ none =
                    rw (perform_line, e, z, g) refl in
                  cc
              | inr (conn, g) ↦
                  let p : perform_line env task file n text made s
                      ≡ some (suc made, send_output env tuple conn s) =
                    rw (perform_line, e, z, g) refl in
                  let (a, b) = pair (sym p ∙ h) in
                  subst (λ z. IsLine env task z made made' s s') (sym line)
                    (
                      sym a,
                      subst (IsSent (made_id env task made) s) b
                          (send_output-IsSent env tuple conn s),
                    )
            ]
      ]
    ]
  where
    pair :
        {x y : ℕ} {u v : Sender}
        → ◌≡◌ {A = Option (ℕ × Sender)} (some (x, u)) (some (y, v))
        → (x ≡ y) × (u ≡ v)
    pair {x = x} {u = u} e = (
      ap (λ o. elim o [ none ↦ x | some z ↦ z.0 ]) e,
      ap (λ o. elim o [ none ↦ u | some z ↦ z.1 ]) e,
    )

-- What `PerformTask` does with the lines: it makes these tuples, and each has an entry.
abbrev AreNoted : List Tuple → Sender → Sender → Type 0
AreNoted made s s' =
    ((id : String) → IsNoted id s → IsNoted id s')
    × ((t : Tuple) → Has t made → IsNoted t.tuple_id s')

AreNoted-sent :
    (j : String) (u : Tuple) (us : List Tuple) (s t s' : Sender)
    → j ≡ u.tuple_id
    → IsSent j s t
    → AreNoted us t s'
    → AreNoted (u ∷ us) s s'
AreNoted-sent j u us s t s' e sent k = (
  (λ id g. k.0 id (sent.0 id (inr g))),
  (λ v w. elim w [
    | inl x ↦ k.0 v.tuple_id (sent.0 v.tuple_id (inl (e ∙ ap (λ z. z.tuple_id) (sym x))))
    | inr w ↦ k.1 v w
  ]),
)

pub perform_lines-AreNoted :
    (env : Env) (task : JobTask) (file : String) (start : ℕ) (end : ℤ) (args lines : List String)
    (n made : ℕ) (s s' : Sender)
    → get_arguments env task "" s ≡ args
    → perform_lines env task file start end lines n made s ≡ some s'
    → AreNoted (made_of env task args file start end lines n made) s s'
unfolding perform_lines made_of get_tuple
perform_lines-AreNoted env task file start end args [] n made s s' a h =
    let e : s ≡ s' = cc in subst (AreNoted [] s) e ((λ id g. g), (λ t w. absurd w))
perform_lines-AreNoted env task file start end args (text ∷ rest) n made s s' a h =
    let all = made_of env task args file start end (text ∷ rest) n made in
    let skip = made_of env task args file start end rest (suc n) made in
    let on : all ≡ skip
        → perform_lines env task file start end rest (suc n) made s ≡ some s'
        → AreNoted all s s' =
      λ m p.
        subst (λ l. AreNoted l s s') (sym m)
          (perform_lines-AreNoted env task file start end args rest (suc n) made s s' a p) in
    elim (Bool-cases (ltb n start)) [
      | inl z ↦ on (rw (made_of, z) refl) (rw (perform_lines, z) at h)
      | inr z ↦ elim (Bool-cases (after n end)) [
        | inl y ↦
            let m : all ≡ [] = rw (made_of, z, y) refl in
            let p : some s ≡ some s' = rw (perform_lines, z, y) at h in
            let e : s ≡ s' = cc in
            subst (λ l. AreNoted l s s') (sym m)
              (subst (AreNoted [] s) e ((λ id g. g), (λ t w. absurd w)))
        | inr y ↦ elim (Option-cases (perform_line env task file n text made s)) [
          | inl p ↦ let q : none ≡ some s' = rw (perform_lines, z, y, p) at h in cc
          | inr ((made', t), p) ↦
              let q : perform_lines env task file start end rest (suc n) made' t ≡ some s' =
                rw (perform_lines, z, y, p) at h in
              let k = perform_line-IsLine env task file n text made made' s t p in
              let k' =
                subst (λ l. IsLine env task (line_output env task l file n text) made made' s t) a
                  k in
              elim (Option-cases (line_output env task args file n text)) [
                | inl o ↦
                    let (b, c) = subst (λ u. IsLine env task u made made' s t) o k' in
                    on (rw (made_of, z, y, o) refl) (
                      subst (λ v. perform_lines env task file start end rest (suc n) v s ≡ some s')
                        b
                        (subst
                          (λ v.
                            perform_lines env task file start end rest (suc n) made' v ≡ some s')
                          c q))
                | inr (o, e) ↦
                    let (b, sent) = subst (λ u. IsLine env task u made made' s t) e k' in
                    let ih =
                      perform_lines-AreNoted env task file start end args rest (suc n) made' t s'
                        (get_arguments-same env task s t sent.1 ∙ a) q in
                    let u = get_tuple (made_id env task made) o in
                    let us : ℕ → List Tuple = made_of env task args file start end rest (suc n) in
                    let m : all ≡ u ∷ us (suc made) = rw (made_of, z, y, e) refl in
                    subst (λ l. AreNoted l s s') (sym m)
                      (AreNoted-sent (made_id env task made) u (us (suc made)) s t s' refl sent
                        (subst (λ v. AreNoted (us v) t s') b ih))
              ]
        ]
      ]
    ]

all_true-lookup :
    (m : Map String Bool) (id : String) (b : Bool)
    → all_true m ≡ true
    → lookup id m ≡ some b
    → b ≡ true
unfolding all_true lookup
all_true-lookup [] id b h e = cc
all_true-lookup ((j, false) ∷ m) id b h e = absurd (cc)
all_true-lookup ((j, true) ∷ m) id b h e = elim (Bool-cases (str_eq j id)) [
  | inl z ↦ let q : some true ≡ some b = rw (lookup, z) at e in cc
  | inr z ↦ all_true-lookup m id b h (rw (lookup, z) at e)
]

-- When `PerformTask` finds all entries true, each of them is.
all_acknowledged-lookup :
    (m : Map String Bool) (id : String) (b : Bool)
    → all_acknowledged m ≡ true
    → lookup id m ≡ some b
    → b ≡ true
unfolding all_acknowledged
all_acknowledged-lookup [] id b h e = absurd (cc)
all_acknowledged-lookup (x ∷ m) id b h e = all_true-lookup (x ∷ m) id b h e

-- After the loop over the lines, when all entries are true, each tuple that was made is acknowledged.
pub perform_lines-acknowledged :
    (env : Env) (task : JobTask) (file : String) (start : ℕ) (end : ℤ) (lines : List String)
    (s s' : Sender) (t : Tuple)
    → perform_lines env task file start end lines 0 0 s ≡ some s'
    → all_acknowledged s'.tuple_ack_map ≡ true
    → Has t (made_of env task (get_arguments env task "" s) file start end lines 0 0)
    → lookup t.tuple_id s'.tuple_ack_map ≡ some true
perform_lines-acknowledged env task file start end lines s s' t h a w =
    let noted =
      perform_lines-AreNoted env task file start end (get_arguments env task "" s) lines 0 0 s s'
        refl h in
    let (b, e) = noted.1 t w in
    e ∙ ap (λ x. some x) (all_acknowledged-lookup s'.tuple_ack_map t.tuple_id b a e)
