-- ===== src/Membership/Table/Keys.antt =====
-- Node ids in the list: who is in it, that nobody is in it twice, and where each stands.
use rain_strom_distributed_s.Prelude.{
  ℕ, suc, ◌<◌, ◌≡◌, ◌≢◌, refl, false, none, some, [], ◌∷◌, arith, ◌==◌, Bool-cases, Option-cases,
  inl, inr, length, get_elem?,
}
use rain_strom_distributed_s.Membership.Types.{Tag, Entry, MembershipList}
use rain_strom_distributed_s.Membership.Table.Order.{From}
use rain_strom_distributed_s.Membership.Table.{
  get_index_of_node, contains, insert, update, remove, rejuvenate,
}

abbrev pub Absent : ℕ → MembershipList → Type 0
Absent n [] = Unit {0}
Absent n (e ∷ m) = (e.node_id ≢ n) × Absent n m

abbrev pub IsUnique : MembershipList → Type 0
IsUnique [] = Unit {0}
IsUnique (e ∷ m) = Absent e.node_id m × IsUnique m

pub index-none : (m : MembershipList) (n : ℕ) → get_index_of_node m n ≡ none → Absent n m
unfolding get_index_of_node
index-none [] n h = tt
index-none (e ∷ m) n h = ground (arith, index-none m n)

pub index-Absent : (m : MembershipList) (n : ℕ) → Absent n m → get_index_of_node m n ≡ none
unfolding get_index_of_node
index-Absent [] n h = refl
index-Absent (e ∷ m) n h = ground (arith, index-Absent m n h.1)

pub contains-Absent : (m : MembershipList) (n : ℕ) → contains m n ≡ false → Absent n m
unfolding contains
contains-Absent m n h = index-none m n (ground arith)

pub Absent-contains : (m : MembershipList) (n : ℕ) → Absent n m → contains m n ≡ false
unfolding contains
Absent-contains m n h = ground (arith, index-Absent m n h)

-- The index that is found is the node's.
pub index-get :
    (m : MembershipList) (n i : ℕ)
    → get_index_of_node m n ≡ some i
    → (i < length m) × ((e : Entry) × (get_elem? m i ≡ some e) × (e.node_id ≡ n))
unfolding get_index_of_node
index-get [] n i h = absurd (cc)
index-get (e ∷ m) n i h = elim (Bool-cases (e.node_id == n)) [
  | inl q ↦ let z : i ≡ 0 = ground arith in rw z (omega arith, (e, refl, ground arith))
  | inr q ↦ elim (Option-cases (get_index_of_node m n)) [
    | inl w ↦ absurd (ground arith)
    | inr (k, w) ↦
        let r = index-get m n k w in
        let z : i ≡ suc k = ground arith in rw z (omega (arith, r.0), r.1)
  ]
]

pub insert-Absent :
    (n : ℕ) (e : Entry) (m : MembershipList) → e.node_id ≢ n → Absent n m → Absent n (insert e m)
unfolding insert
insert-Absent n e [] h a = (h, tt)
insert-Absent n e (x ∷ m) h a = ground (arith, insert-Absent n e m h a.1)

pub insert-IsUnique :
    (e : Entry) (m : MembershipList) → Absent e.node_id m → IsUnique m → IsUnique (insert e m)
unfolding insert
insert-IsUnique e [] a u = (tt, tt)
insert-IsUnique e (x ∷ m) a u =
    ground (arith, insert-IsUnique e m a.1 u.1, insert-Absent x.node_id e m)

pub remove-Absent : (n node : ℕ) (m : MembershipList) → Absent n m → Absent n (remove node m)
unfolding remove
remove-Absent n node [] a = tt
remove-Absent n node (e ∷ m) a = ground (arith, remove-Absent n node m a.1)

pub remove-IsUnique : (node : ℕ) (m : MembershipList) → IsUnique m → IsUnique (remove node m)
unfolding remove
remove-IsUnique node [] u = tt
remove-IsUnique node (e ∷ m) u =
    ground (arith, remove-IsUnique node m u.1, remove-Absent e.node_id node m u.0)

-- `Remove` takes out the first entry of a node: all of them, where no node stands twice.
pub Absent-remove : (node : ℕ) (m : MembershipList) → IsUnique m → Absent node (remove node m)
unfolding remove
Absent-remove node [] u = tt
Absent-remove node (e ∷ m) u = elim (Bool-cases (e.node_id == node)) [
  | inl q ↦ let z : e.node_id ≡ node = ground arith in rw q (rw z at (u.0))
  | inr q ↦ rw q (ground arith, Absent-remove node m u.1)
]

-- Two lists with the same nodes at the same places, whatever the statuses and times.
abbrev pub SameKeys : MembershipList → MembershipList → Type 0
SameKeys [] [] = Unit {0}
SameKeys [] (y ∷ ys) = ⊥
SameKeys (x ∷ xs) [] = ⊥
SameKeys (x ∷ xs) (y ∷ ys) = (x.node_id ≡ y.node_id) × (x.peer_id ≡ y.peer_id) × SameKeys xs ys

pub SameKeys-refl : (m : MembershipList) → SameKeys m m
SameKeys-refl [] = tt
SameKeys-refl (e ∷ m) = (refl, refl, SameKeys-refl m)

SameKeys-Absent : (n : ℕ) (m w : MembershipList) → SameKeys m w → Absent n m → Absent n w
SameKeys-Absent n [] [] k a = tt
SameKeys-Absent n [] (y ∷ w) k a = absurd k
SameKeys-Absent n (x ∷ m) [] k a = absurd k
SameKeys-Absent n (x ∷ m) (y ∷ w) k a = (omega arith, SameKeys-Absent n m w k.2 a.1)

pub SameKeys-IsUnique : (m w : MembershipList) → SameKeys m w → IsUnique m → IsUnique w
SameKeys-IsUnique [] [] k u = tt
SameKeys-IsUnique [] (y ∷ w) k u = absurd k
SameKeys-IsUnique (x ∷ m) [] k u = absurd k
SameKeys-IsUnique (x ∷ m) (y ∷ w) k u =
    (rw k.0 at (SameKeys-Absent x.node_id m w k.2 u.0), SameKeys-IsUnique m w k.2 u.1)

pub SameKeys-From : (lo : ℕ) (m w : MembershipList) → SameKeys m w → From lo m → From lo w
SameKeys-From lo [] [] k s = tt
SameKeys-From lo [] (y ∷ w) k s = absurd k
SameKeys-From lo (x ∷ m) [] k s = absurd k
SameKeys-From lo (x ∷ m) (y ∷ w) k s =
    (omega arith, rw k.1 at (SameKeys-From x.peer_id m w k.2 s.1))

pub update-SameKeys : (node : ℕ) (t : Tag) (m : MembershipList) → SameKeys m (update node t m)
unfolding update
update-SameKeys node t [] = tt
update-SameKeys node t (e ∷ m) = ground (arith, update-SameKeys node t m, SameKeys-refl m)

pub rejuvenate-SameKeys : (now node : ℕ) (m : MembershipList) → SameKeys m (rejuvenate now node m)
unfolding rejuvenate
rejuvenate-SameKeys now node [] = tt
rejuvenate-SameKeys now node (e ∷ m) =
    ground (arith, rejuvenate-SameKeys now node m, SameKeys-refl m)
