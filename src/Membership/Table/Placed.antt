-- ===== src/Membership/Table/Placed.antt =====
-- The well-formed lists: sorted, no node twice, and every node at its place on the ring.
use rain_strom_distributed_s.Prelude.{
  get_elem?-Has, ℕ, suc, ◌≡◌, refl, sym, ap, ◌∙◌, some, [], ◌∷◌, arith, ◌==◌, Bool-cases, Has, ◌⊎◌,
  ==→≡, Option-cases, inl, inr, modify,
}
use rain_strom_distributed_s.Config.{Config, ring_id}
use rain_strom_distributed_s.Membership.Types.{Tag, Entry, MembershipList, Message}
use rain_strom_distributed_s.Membership.Table.{
  get_index_of_node, insert, add_or_update, remove, membership_entry,
}
use rain_strom_distributed_s.Membership.Table.Order.{
  IsSorted, insert-From, add-eq-insert, remove-From,
}
use rain_strom_distributed_s.Membership.Table.Keys.{
  Absent, IsUnique, index-none, index-get, insert-IsUnique, remove-IsUnique, SameKeys,
  SameKeys-refl, SameKeys-IsUnique, SameKeys-From,
}
use rain_strom_distributed_s.Membership.Table.View.{view, put, view-insert, view-modify}

-- Every entry stands at the ring place that the configuration gives its node.
abbrev pub IsPlaced : Config → MembershipList → Type 0
IsPlaced c [] = Unit {0}
IsPlaced c (e ∷ m) = (ring_id c e.node_id ≡ some e.peer_id) × IsPlaced c m

-- A well-formed list: sorted by peer id, no node twice, every node at its place on the ring.
pub record Inv (c : Config) (m : MembershipList) : Type 0 where
  pub sorted : IsSorted m
  pub unique : IsUnique m
  pub placed : IsPlaced c m

insert-IsPlaced :
    (c : Config) (e : Entry) (m : MembershipList)
    → ring_id c e.node_id ≡ some e.peer_id
    → IsPlaced c m
    → IsPlaced c (insert e m)
unfolding insert
insert-IsPlaced c e [] h p = (h, tt)
insert-IsPlaced c e (x ∷ m) h p = ground (arith, insert-IsPlaced c e m h p.1)

remove-IsPlaced :
    (c : Config) (node : ℕ) (m : MembershipList) → IsPlaced c m → IsPlaced c (remove node m)
unfolding remove
remove-IsPlaced c node [] p = tt
remove-IsPlaced c node (e ∷ m) p = ground (arith, remove-IsPlaced c node m p.1)

SameKeys-IsPlaced : (c : Config) (m w : MembershipList) → SameKeys m w → IsPlaced c m → IsPlaced c w
SameKeys-IsPlaced c [] [] k p = tt
SameKeys-IsPlaced c [] (y ∷ w) k p = absurd k
SameKeys-IsPlaced c (x ∷ m) [] k p = absurd k
SameKeys-IsPlaced c (x ∷ m) (y ∷ w) k p = (rw (← k.0, ← k.1) p.0, SameKeys-IsPlaced c m w k.2 p.1)

pub SameKeys-Inv : (c : Config) (m w : MembershipList) → SameKeys m w → Inv c m → Inv c w
SameKeys-Inv c m w k v = record {
  sorted = SameKeys-From 0 m w k v.sorted;
  unique = SameKeys-IsUnique m w k v.unique;
  placed = SameKeys-IsPlaced c m w k v.placed;
}

pub insert-Inv :
    (c : Config) (e : Entry) (m : MembershipList)
    → ring_id c e.node_id ≡ some e.peer_id
    → Absent e.node_id m
    → Inv c m
    → Inv c (insert e m)
insert-Inv c e m h a v = record {
  sorted = insert-From 0 e m (omega arith) v.sorted;
  unique = insert-IsUnique e m a v.unique;
  placed = insert-IsPlaced c e m h v.placed;
}

pub remove-Inv : (c : Config) (node : ℕ) (m : MembershipList) → Inv c m → Inv c (remove node m)
remove-Inv c node m v = record {
  sorted = remove-From 0 node m v.sorted;
  unique = remove-IsUnique node m v.unique;
  placed = remove-IsPlaced c node m v.placed;
}

-- A change of the entry at a node's index that keeps its node and its place.
pub modify-SameKeys :
    (f : Entry → Entry) (node : ℕ)
    → (m : MembershipList) (i : ℕ)
    → ((e : Entry)
        → Has e m
        → e.node_id ≡ node
        → (e.node_id ≡ (f e).node_id) × (e.peer_id ≡ (f e).peer_id))
    → get_index_of_node m node ≡ some i
    → SameKeys m (modify m i f)
unfolding get_index_of_node
modify-SameKeys f node [] i k h = tt
modify-SameKeys f node (e ∷ m) i k h = elim (Bool-cases (e.node_id == node)) [
  | inl q ↦
      let z : i ≡ 0 = ground arith in
      let w = k e (inl refl) (==→≡ _ _ q) in rw z (w.0, w.1, SameKeys-refl m)
  | inr q ↦ elim (Option-cases (get_index_of_node m node)) [
    | inl w ↦ absurd (ground arith)
    | inr (j, w) ↦
        let z : i ≡ suc j = ground arith in
        rw z (refl, refl, modify-SameKeys f node m j (λ x b. k x (inr b)) w)
  ]
]

Has-IsPlaced :
    (c : Config) (m : MembershipList) (e : Entry)
    → IsPlaced c m
    → Has e m
    → ring_id c e.node_id ≡ some e.peer_id
Has-IsPlaced c [] e p h = absurd h
Has-IsPlaced c (x ∷ m) e p (inl z) = rw z p.0
Has-IsPlaced c (x ∷ m) e p (inr h) = Has-IsPlaced c m e p.1 h

-- A change of a known node's entry that keeps its place and makes it active.
modify-Inv :
    (c : Config) (f : Entry → Entry) (node p : ℕ) (m : MembershipList) (i : ℕ)
    → ((e : Entry) → e.node_id ≡ (f e).node_id)
    → ((e : Entry) → (f e).status ≡ Tag.active)
    → ((e : Entry) → e.peer_id ≡ p → e.peer_id ≡ (f e).peer_id)
    → ring_id c node ≡ some p
    → get_index_of_node m node ≡ some i
    → Inv c m
    → Inv c (modify m i f) × ((n : ℕ) → view (modify m i f) n ≡ put node Tag.active (view m) n)
modify-Inv c f node p m i fn fs fp h z v = (
  SameKeys-Inv c m (modify m i f)
      (modify-SameKeys f node m i (λ e b q. (fn e, fp e (peer e b q))) z) v,
  λ n. view-modify f Tag.active (λ e. (sym (fn e), fs e)) m node i n z,
)
  where
    peer : (e : Entry) → Has e m → e.node_id ≡ node → e.peer_id ≡ p
    peer e b q =
        let x : some e.peer_id ≡ some p =
          sym (Has-IsPlaced c m e v.placed b) ∙ ap (ring_id c) q ∙ h in
        cc

-- A JOIN or ACTIVE message about a configured server succeeds, keeps the list well formed, and
-- makes the node active.
pub add_or_update-Inv :
    (c : Config) (now p : ℕ) (msg : Message) (m : MembershipList)
    → ring_id c msg.node_id ≡ some p
    → (msg.msg_type ≡ Tag.join) ⊎ (msg.msg_type ≡ Tag.active)
    → Inv c m
    → (w : MembershipList) × (add_or_update c now msg m ≡ some w)
      × Inv c w
      × ((n : ℕ) → view w n ≡ put msg.node_id Tag.active (view m) n)
unfolding add_or_update
add_or_update-Inv c now p msg m h t v = elim (Option-cases (get_index_of_node m msg.node_id)) [
  | inl z ↦
      let e : Entry = membership_entry now msg.node_id Tag.active p in
      let a = index-none m msg.node_id z in
      (
        insert e m,
        rw (z, add_or_update) (rw h (ap some (add-eq-insert e m v.sorted))),
        insert-Inv c e m h a v,
        λ n. view-insert e m n a,
      )
  | inr (i, z) ↦ elim t [
    | inl j ↦
        let r =
          modify-Inv c (λ e. record e { status = Tag.active; peer_id = p }) msg.node_id p m i
            (λ e. refl) (λ e. refl) (λ e q. q) h z v in
        (_, rw (z, add_or_update) (rw j (rw h refl)), r.0, r.1)
    | inr j ↦
        let r =
          modify-Inv c (λ e. record e { status = msg.msg_type; time_stamp = msg.time_stamp })
            msg.node_id p m i (λ e. refl) (λ e. j) (λ e q. refl) h z v in
        (_, rw (z, add_or_update) (rw j refl), r.0, r.1)
  ]
]

-- Where `AddOrUpdate` returns, the node has a place on the ring.
pub add_or_update-ring_id :
    (c : Config) (now : ℕ) (msg : Message) (m w : MembershipList)
    → Inv c m
    → add_or_update c now msg m ≡ some w
    → (p : ℕ) × (ring_id c msg.node_id ≡ some p)
unfolding add_or_update
add_or_update-ring_id c now msg m w v h = elim (Option-cases (ring_id c msg.node_id)) [
  | inr (p, e) ↦ (p, e)
  | inl e ↦ elim (Option-cases (get_index_of_node m msg.node_id)) [
    | inl z ↦ absurd (cc (rw (add_or_update, z, e) at h))
    | inr (i, z) ↦
        let (x, g, q) = (index-get m msg.node_id i z).1 in
        (x.peer_id, ap (ring_id c) (sym q) ∙ Has-IsPlaced c m x v.placed (get_elem?-Has m i x g))
  ]
]
