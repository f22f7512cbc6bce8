-- ===== src/Membership/Table/Neighbours.antt =====
-- `GetNeighbours`: the three successors of a node in the list.
use native.Mathlib.Nat.{mod-lt}
use rain_strom_distributed_s.Prelude.{
  ℕ, zero, suc, ◌+◌, ◌%◌, ◌≤◌, ◌≡◌, ◌≢◌, refl, some, [], ◌∷◌, arith, length, get_elem?,
  get_elem?_lt, true, Option-cases, inl, inr, Has, get_elem?-Has, wrap,
}
use rain_strom_distributed_s.Membership.Types.{Entry, MembershipList}
use rain_strom_distributed_s.Membership.Table.{get_index_of_node, contains, get_neighbours}
use rain_strom_distributed_s.Membership.Table.Keys.{Absent, IsUnique, index-get}

Absent-get :
    (n : ℕ) (m : MembershipList) (i : ℕ) (e : Entry)
    → Absent n m
    → get_elem? m i ≡ some e
    → e.node_id ≢ n
Absent-get n [] i e a h = absurd (cc)
Absent-get n (x ∷ m) zero e a h = let z : x ≡ e = cc in ground (arith, a.0)
Absent-get n (x ∷ m) (suc i) e a h = Absent-get n m i e a.1 h

-- Entries at two places are about two nodes.
pub IsUnique-get :
    (m : MembershipList) (i j : ℕ) (a b : Entry)
    → IsUnique m
    → get_elem? m i ≡ some a
    → get_elem? m j ≡ some b
    → i ≢ j
    → a.node_id ≢ b.node_id
IsUnique-get [] i j a b u p q h = absurd (cc)
IsUnique-get (x ∷ m) zero zero a b u p q h = absurd (h refl)
IsUnique-get (x ∷ m) zero (suc j) a b u p q h =
    let z : x ≡ a = cc in let w = Absent-get x.node_id m j b u.0 q in ground (arith, z, w)
IsUnique-get (x ∷ m) (suc i) zero a b u p q h =
    let z : x ≡ b = cc in let w = Absent-get x.node_id m i a u.0 p in ground (arith, z, w)
IsUnique-get (x ∷ m) (suc i) (suc j) a b u p q h =
    IsUnique-get m i j a b u.1 p q (λ e. h (omega arith))

-- In a list of at least four nodes, none of them twice, a listed node pings three different nodes
-- of the list, and never itself; the index expressions stay in range.
pub get_neighbours-three :
    (m : MembershipList) (node : ℕ)
    → IsUnique m
    → 4 ≤ length m
    → contains m node ≡ true
    → (a b c : Entry) × (get_neighbours m node ≡ some (a.node_id ∷ b.node_id ∷ c.node_id ∷ []))
      × (Has a m × Has b m × Has c m)
      × ((a.node_id ≢ b.node_id) × (a.node_id ≢ c.node_id) × (b.node_id ≢ c.node_id))
      × ((a.node_id ≢ node) × (b.node_id ≢ node) × (c.node_id ≢ node))
unfolding contains get_neighbours
get_neighbours-three m node u four h = elim (Option-cases (get_index_of_node m node)) [
  | inl z ↦ absurd (ground arith)
  | inr (i, z) ↦
      let n = length m in
      let (lt, (x, ex, q)) = index-get m node i z in
      let (a, ea) = get_elem?_lt m ((1 + i) % n) (mod-lt _ (omega arith)) in
      let (b, eb) = get_elem?_lt m ((2 + i) % n) (mod-lt _ (omega arith)) in
      let (c, ec) = get_elem?_lt m ((3 + i) % n) (mod-lt _ (omega arith)) in
      let w1 = wrap 1 i n lt (omega arith) in
      let w2 = wrap 2 i n lt (omega arith) in
      let w3 = wrap 3 i n lt (omega arith) in
      let d = IsUnique-get m in
      (
        a,
        b,
        c,
        rw (z, get_neighbours, ea, eb, ec) refl,
        (get_elem?-Has m _ a ea, get_elem?-Has m _ b eb, get_elem?-Has m _ c ec),
        (
          d _ _ a b u ea eb (λ e. omega arith),
          d _ _ a c u ea ec (λ e. omega arith),
          d _ _ b c u eb ec (λ e. omega arith),
        ),
        (
          λ e. d _ _ a x u ea ex (λ e. omega arith) (omega arith),
          λ e. d _ _ b x u eb ex (λ e. omega arith) (omega arith),
          λ e. d _ _ c x u ec ex (λ e. omega arith) (omega arith),
        ),
      )
]
