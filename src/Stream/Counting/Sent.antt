-- ===== src/Stream/Counting/Sent.antt =====
-- The end of `PerformTask` for a tuple, and the map of the acknowledgments.
use text.Mathlib.TextEquality.{eq_iff}
use rain_strom_distributed_s.Prelude.{
  ℕ, ◌≡◌, ◌≢◌, refl, sym, ap, ◌∙◌, subst, Bool, true, false, some, Option, String, lookup, insert,
  string_eq, str_eq, Bool-cases, Option-cases, inl, inr, lookup-insert, ◌⊎◌,
}
use rain_strom_distributed_s.Stream.Tuples.{Tuple}
use rain_strom_distributed_s.Stream.Network.{Env, Sender, send_tuple}
use rain_strom_distributed_s.Stream.Sender.{send_output}

-- The id has an entry among the acknowledgments.
abbrev pub IsNoted : String → Sender → Type 0
IsNoted id s = (b : Bool) × (lookup id s.tuple_ack_map ≡ some b)

IsNoted-insert :
    (id j : String) (b : Bool) (s t : Sender)
    → t.tuple_ack_map ≡ insert j b s.tuple_ack_map
    → (j ≡ id) ⊎ IsNoted id s
    → IsNoted id t
IsNoted-insert id j b s t e h = elim (Bool-cases (str_eq j id)) [
  | inl z ↦ (b, ap (lookup id) e ∙ rw (lookup-insert j id b s.tuple_ack_map, z) refl)
  | inr z ↦ elim h [
    | inl p ↦ absurd (let y : str_eq j id ≡ true = (eq_iff j id).1 p in cc)
    | inr (c, q) ↦ (c, ap (lookup id) e ∙ rw (lookup-insert j id b s.tuple_ack_map, z) q)
  ]
]

-- What the sending of a tuple with this id does to the acknowledgments.
abbrev pub IsSent : String → Sender → Sender → Type 0
IsSent j s t =
    ((id : String) → (j ≡ id) ⊎ IsNoted id s → IsNoted id t) × (t.output_map ≡ s.output_map)

send_output-insert :
    (env : Env) (t : Tuple) (conn : Option ℕ) (s : Sender)
    → lookup t.tuple_id s.tuple_ack_map ≢ some true
    → (b : Bool) × ((send_output env t conn s).tuple_ack_map ≡ insert t.tuple_id b s.tuple_ack_map)
      × ((send_output env t conn s).output_map ≡ s.output_map)
unfolding send_output
send_output-insert env t conn s h =
    let got = send_tuple env s.calls t conn in
    elim (Option-cases (lookup t.tuple_id s.tuple_ack_map)) [
      | inr (true, e) ↦ absurd (h e)
      | inr (false, e) ↦ (got.0, rw (send_output, e) refl, rw (send_output, e) refl)
      | inl e ↦ elim (Bool-cases got.1) [
        | inl y ↦ elim (Bool-cases got.0) [
          | inl z ↦ (true, rw (send_output, e, y, z) refl, rw (send_output, e, y, z) refl)
          | inr z ↦ (false, rw (send_output, e, y, z) refl, rw (send_output, e, y, z) refl)
        ]
        | inr y ↦ elim (Bool-cases got.0) [
          | inl z ↦ (true, rw (send_output, e, y, z) refl, rw (send_output, e, y, z) refl)
          | inr z ↦ (false, rw (send_output, e, y, z) refl, rw (send_output, e, y, z) refl)
        ]
      ]
    ]

pub send_output-IsSent :
    (env : Env) (t : Tuple) (conn : Option ℕ) (s : Sender)
    → IsSent t.tuple_id s (send_output env t conn s)
unfolding send_output
send_output-IsSent env t conn s =
    let new : lookup t.tuple_id s.tuple_ack_map ≢ some true
        → IsSent t.tuple_id s (send_output env t conn s) =
      λ h.
        let (b, acks, outs) = send_output-insert env t conn s h in
        ((λ id g. IsNoted-insert id t.tuple_id b s (send_output env t conn s) acks g), outs) in
    elim (Option-cases (lookup t.tuple_id s.tuple_ack_map)) [
      | inl e ↦ new (λ q. cc)
      | inr (false, e) ↦ new (λ q. cc)
      | inr (true, e) ↦
          let same : send_output env t conn s ≡ s = rw (send_output, e) refl in
          subst (IsSent t.tuple_id s) (sym same) (
            (λ id g. elim g [
              | inl p ↦ (true, subst (λ j. lookup j s.tuple_ack_map ≡ some true) p e)
              | inr n ↦ n
            ]),
            refl,
          )
    ]
