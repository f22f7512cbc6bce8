-- ===== src/Hydfs/Routing/Primary.antt =====
-- The first peer of `FileRouting` is the owner of the file in the sense of consistent hashing.
use native.Mathlib.Nat.{mod-lt}
use rain_strom_distributed_s.Prelude.{
  ℕ, suc, ◌+◌, ◌%◌, ◌≤◌, ◌<◌, ◌≡◌, refl, ◌⊎◌, none, some, List, [], ◌∷◌, arith, length, get_elem?,
  get_elem?_lt, Option-cases, inl, inr, Has, All, All-Has, Has-All, ltb, Bool-cases, ltb-le, ltb→lt,
}
use rain_strom_distributed_s.Membership.Types.{Entry, MembershipList}
use rain_strom_distributed_s.Membership.Table.{peer_ids}
use rain_strom_distributed_s.Membership.Table.Order.{From, IsSorted}
use rain_strom_distributed_s.Hydfs.Routing.{first_above, file_routing}

-- The owner: the least peer above the hash, or the least of all where none is above it.
abbrev pub IsOwner : ℕ → List ℕ → ℕ → Type 0
IsOwner hash ps p =
    Has p ps
    × ((hash < p) × All (λ q. hash < q → p ≤ q) ps ⊎ All (λ q. q ≤ hash) ps × All (λ q. p ≤ q) ps)

pub IsOwner-unique :
    (hash : ℕ) (ps : List ℕ) (p q : ℕ) → IsOwner hash ps p → IsOwner hash ps q → p ≡ q
IsOwner-unique hash ps p q (hp, inl a) (hq, inl b) =
    let x = All-Has _ ps q a.1 hq b.0 in let y = All-Has _ ps p b.1 hp a.0 in omega arith
IsOwner-unique hash ps p q (hp, inl a) (hq, inr b) =
    let x = All-Has _ ps p b.0 hp in absurd (omega arith)
IsOwner-unique hash ps p q (hp, inr a) (hq, inl b) =
    let x = All-Has _ ps q a.0 hq in absurd (omega arith)
IsOwner-unique hash ps p q (hp, inr a) (hq, inr b) =
    let x = All-Has _ ps q a.1 hq in let y = All-Has _ ps p b.1 hp in omega arith

-- An owner that stays is the owner of what stays with it.
pub IsOwner-subset :
    (hash : ℕ) (ps qs : List ℕ) (p : ℕ)
    → ((q : ℕ) → Has q qs → Has q ps)
    → Has p qs
    → IsOwner hash ps p
    → IsOwner hash qs p
IsOwner-subset hash ps qs p f h (hp, inl a) =
    (h, inl (a.0, Has-All _ qs (λ q k. All-Has _ ps q a.1 (f q k))))
IsOwner-subset hash ps qs p f h (hp, inr a) = (
  h,
  inr (
    Has-All _ qs (λ q k. All-Has _ ps q a.0 (f q k)),
    Has-All _ qs (λ q k. All-Has _ ps q a.1 (f q k)),
  ),
)

first_above-none :
    (hash : ℕ) (m : MembershipList) → first_above m hash ≡ none → All (λ q. q ≤ hash) (peer_ids m)
unfolding first_above
first_above-none hash [] h = tt
first_above-none hash (e ∷ m) h = ground (arith, first_above-none hash m)

-- All from `lo` on, so above any bound below `lo`.
From-All : (lo : ℕ) (m : MembershipList) → From lo m → All (λ q. lo ≤ q) (peer_ids m)
From-All lo [] s = tt
From-All lo (e ∷ m) s = (
  s.0,
  Has-All _ (peer_ids m)
      (λ q h. let z = All-Has _ (peer_ids m) q (From-All e.peer_id m s.1) h in omega arith),
)

first_above-some :
    (hash lo i : ℕ) (m : MembershipList)
    → From lo m
    → first_above m hash ≡ some i
    → (e : Entry) × (get_elem? m i ≡ some e)
      × (hash < e.peer_id)
      × All (λ q. hash < q → e.peer_id ≤ q) (peer_ids m)
      × Has e.peer_id (peer_ids m)
unfolding first_above
first_above-some hash lo i [] s h = absurd (cc)
first_above-some hash lo i (e ∷ m) s h = elim (Bool-cases (ltb hash e.peer_id)) [
  | inl q ↦
      let z : i ≡ 0 = ground arith in
      let a = From-All e.peer_id m s.1 in
      rw z (
        e,
        refl,
        ltb→lt hash e.peer_id q,
        (λ _. omega arith, Has-All _ (peer_ids m) (λ p k _. All-Has _ (peer_ids m) p a k)),
        inl refl,
      )
  | inr q ↦ elim (Option-cases (first_above m hash)) [
    | inl w ↦ absurd (ground arith)
    | inr (j, w) ↦
        let z : i ≡ suc j = ground arith in
        let (x, ex, lt, all, has) = first_above-some hash e.peer_id j m s.1 w in
        let le = ltb-le hash e.peer_id q in rw z (x, ex, lt, ((λ k. omega arith), all), inr has)
  ]
]

first_above-lt : (hash i : ℕ) (m : MembershipList) → first_above m hash ≡ some i → i < length m
unfolding first_above
first_above-lt hash i [] h = absurd (cc)
first_above-lt hash i (e ∷ m) h = elim (Option-cases (first_above m hash)) [
  | inl w ↦ ground (arith, w)
  | inr (j, w) ↦ ground (arith, w, first_above-lt hash j m w)
]

-- On a list that is not empty and sorted by peer id, routing runs through, and names three places
-- of which the first is the owner of the file: the least peer above its hash or, where there is
-- none, the least of all.
pub file_routing-primary :
    (hash : ℕ) (m : MembershipList)
    → IsSorted m
    → 0 < length m
    → (p b c : ℕ) × (file_routing hash m ≡ some (p ∷ b ∷ c ∷ [])) × IsOwner hash (peer_ids m) p
unfolding file_routing
file_routing-primary hash [] s h = absurd (omega arith)
file_routing-primary hash (e ∷ m) s h = elim (Option-cases (first_above (e ∷ m) hash)) [
  | inl z ↦
      let n = length (e ∷ m) in
      let (b, eb) = get_elem?_lt (e ∷ m) (1 % n) (mod-lt _ h) in
      let (c, ec) = get_elem?_lt (e ∷ m) (2 % n) (mod-lt _ h) in
      (
        e.peer_id,
        b.peer_id,
        c.peer_id,
        rw (z, file_routing) (rw (eb, ec) refl),
        (inl refl, inr (first_above-none hash (e ∷ m) z, (omega arith, From-All e.peer_id m s.1))),
      )
  | inr (i, z) ↦
      let n = length (e ∷ m) in
      let (x, ex, lt, all, has) = first_above-some hash 0 i (e ∷ m) s z in
      let (b, eb) = get_elem?_lt (e ∷ m) ((i + 1) % n) (mod-lt _ h) in
      let (c, ec) = get_elem?_lt (e ∷ m) ((i + 2) % n) (mod-lt _ h) in
      (
        x.peer_id,
        b.peer_id,
        c.peer_id,
        rw (z, file_routing) (rw (ex, eb, ec) refl),
        (has, inl (lt, all)),
      )
]

-- Consistent hashing: when peers leave, or seen from the other side when they join, a file whose
-- primary is among those that stay keeps its primary.
pub file_routing_stable :
    (hash : ℕ) (m w : MembershipList) (p b c : ℕ)
    → IsSorted m
    → IsSorted w
    → ((q : ℕ) → Has q (peer_ids w) → Has q (peer_ids m))
    → 0 < length w
    → 0 < length m
    → file_routing hash m ≡ some (p ∷ b ∷ c ∷ [])
    → Has p (peer_ids w)
    → (b' c' : ℕ) × (file_routing hash w ≡ some (p ∷ b' ∷ c' ∷ []))
file_routing_stable hash m w p b c sm sw sub hw hm e stays =
    let (p1, b1, c1, e1, o1) = file_routing-primary hash m sm hm in
    let (p2, b2, c2, e2, o2) = file_routing-primary hash w sw hw in
    let same : p1 ≡ p = cc in
    let o : IsOwner hash (peer_ids w) p =
      IsOwner-subset hash (peer_ids m) (peer_ids w) p sub stays (rw same at o1) in
    let z = IsOwner-unique hash (peer_ids w) p2 p o2 o in (b2, c2, rw z at e2)
