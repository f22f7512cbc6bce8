-- ===== src/Membership/Table/View.antt =====
-- The list as a finite map: the status of each node.
use rain_strom_distributed_s.Prelude.{
  ℕ, suc, ◌≡◌, refl, true, false, Option, none, some, [], ◌∷◌, arith, ◌==◌, ◌>>=◌, Bool-cases,
  Option-cases, inl, inr, modify, if◌then◌else◌,
}
use rain_strom_distributed_s.Membership.Types.{Tag, Entry, MembershipList, is_suspected_tag}
use rain_strom_distributed_s.Membership.Table.{
  contains, get_index_of_node, insert, update, remove, rejuvenate, is_suspected,
}
use rain_strom_distributed_s.Membership.Table.Keys.{Absent, IsUnique}

unfoldable pub view : MembershipList → ℕ → Option Tag
view [] n = none
view (e ∷ m) n = if e.node_id == n then some e.status else view m n

-- A change of one node's status, where the node is known.
abbrev pub mark : ℕ → Tag → (ℕ → Option Tag) → ℕ → Option Tag
mark node t v n = if node == n then (do _ ← v n; some t) else v n

abbrev pub put : ℕ → Tag → (ℕ → Option Tag) → ℕ → Option Tag
put node t v n = if node == n then some t else v n

abbrev pub drop : ℕ → (ℕ → Option Tag) → ℕ → Option Tag
drop node v n = if node == n then none else v n

pub view-Absent : (m : MembershipList) (n : ℕ) → Absent n m → view m n ≡ none
unfolding view
view-Absent [] n a = refl
view-Absent (e ∷ m) n a = ground (arith, view-Absent m n a.1)

pub view-insert :
    (e : Entry) (m : MembershipList) (n : ℕ)
    → Absent e.node_id m
    → view (insert e m) n ≡ put e.node_id e.status (view m) n
unfolding view insert
view-insert e [] n a = refl
view-insert e (x ∷ m) n a = ground (arith, view-insert e m n a.1)

pub view-update :
    (node : ℕ) (t : Tag) (m : MembershipList) (n : ℕ)
    → view (update node t m) n ≡ mark node t (view m) n
unfolding view update
view-update node t [] n = ground arith
view-update node t (e ∷ m) n = ground (arith, view-update node t m n)

pub view-remove :
    (node : ℕ) (m : MembershipList) (n : ℕ)
    → IsUnique m
    → view (remove node m) n ≡ drop node (view m) n
unfolding view remove
view-remove node [] n u = ground arith
view-remove node (e ∷ m) n u = ground (arith, view-remove node m n u.1, view-Absent m e.node_id u.0)

-- A change at the index of a node is a change of that node's first entry.
pub view-modify :
    (f : Entry → Entry) (t : Tag)
    → ((e : Entry) → ((f e).node_id ≡ e.node_id) × ((f e).status ≡ t))
    → (m : MembershipList) (node i n : ℕ) → get_index_of_node m node ≡ some i
    → view (modify m i f) n ≡ put node t (view m) n
unfolding view get_index_of_node
view-modify f t k [] node i n h = absurd (cc)
view-modify f t k (e ∷ m) node i n h = elim (Bool-cases (e.node_id == node)) [
  | inl q ↦ let z : i ≡ 0 = ground arith in rw z (ground (arith, k e))
  | inr q ↦ elim (Option-cases (get_index_of_node m node)) [
    | inl w ↦ absurd (ground arith)
    | inr (j, w) ↦
        let z : i ≡ suc j = ground arith in rw z (ground (arith, view-modify f t k m node j n w))
  ]
]

pub is_suspected-Absent :
    (m : MembershipList) (node : ℕ) → Absent node m → is_suspected m node ≡ false
unfolding is_suspected
is_suspected-Absent [] node a = refl
is_suspected-Absent (e ∷ m) node a = ground (arith, is_suspected-Absent m node a.1)

-- A node is suspected, as `IsSuspected` sees it, exactly when its status says so.
pub is_suspected-view :
    (m : MembershipList) (node : ℕ)
    → IsUnique m
    → is_suspected m node ≡ true
    → view m node ≡ some Tag.suspected
unfolding view is_suspected
is_suspected-view [] node u h = absurd (cc)
is_suspected-view (e ∷ m) node u h =
    ground (arith, is_suspected-view m node u.1, is_suspected-Absent m e.node_id u.0)

pub view-rejuvenate :
    (now node : ℕ) (m : MembershipList) (n : ℕ)
    → IsUnique m
    → view (rejuvenate now node m) n
      ≡ (if is_suspected m node then put node Tag.active (view m) n else view m n)
unfolding view rejuvenate is_suspected
view-rejuvenate now node [] n u = refl
view-rejuvenate now node (e ∷ m) n u = elim (Bool-cases (e.node_id == node)) [
  | inl q ↦
      let z : e.node_id ≡ node = ground arith in
      elim (Bool-cases (is_suspected_tag e.status)) [
        | inl w ↦ rw (q, w) (ground arith)
        | inr w ↦
            let kept = is_suspected-Absent m node (rw z at (u.0)) in
            rw (q, w, kept) (ground (arith, kept, view-rejuvenate now node m n u.1))
      ]
  | inr q ↦ rw q (ground (arith, view-rejuvenate now node m n u.1))
]

pub view-is_suspected :
    (m : MembershipList) (node : ℕ) → view m node ≡ some Tag.suspected → is_suspected m node ≡ true
unfolding view is_suspected
view-is_suspected [] node h = absurd (cc)
view-is_suspected (e ∷ m) node h = ground (arith, view-is_suspected m node)

-- A listed node is found by `contains`.
pub view-contains :
    (m : MembershipList) (node : ℕ) (t : Tag) → view m node ≡ some t → contains m node ≡ true
unfolding view contains get_index_of_node
view-contains [] node t h = absurd (cc)
view-contains (e ∷ m) node t h = ground (arith, view-contains m node t)
