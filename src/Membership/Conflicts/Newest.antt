-- ===== src/Membership/Conflicts/Newest.antt =====
-- What `RemoveConflictMessages` keeps: the newest message of each node, while suspicion is off.
use rain_strom_distributed_s.Prelude.{
  ℕ, ◌≤◌, ◌≡◌, ◌≢◌, refl, sym, ap, ◌∙◌, Bool, true, false, Option, none, some, List, [], ◌∷◌, arith,
  ==→≡, ==_refl, ◌==◌, ◌↔◌, if◌then◌else◌, Bool-cases, Option-cases, inl, inr, Map, lookup, insert,
  nat_eq, Has, ◌⊎◌, lookup-insert, All,
}
use rain_strom_distributed_s.Membership.Types.{Message}
use rain_strom_distributed_s.Membership.Conflicts.{
  is_conflict, resolve, note_message, latest_messages, values, remove_conflict_messages,
}

-- What the map holds for a node is the messages of that node resolved from left to right.
abbrev pub fold_node : Bool → ℕ → List Message → Option Message → Option Message
fold_node suspicion node [] kept = kept
fold_node suspicion node (msg ∷ msgs) kept = fold_node suspicion node msgs (
    if msg.node_id == node
    then elim kept [ none ↦ some msg | some old ↦ some (resolve suspicion old msg) ]
    else kept)

lookup-note_message :
    (suspicion : Bool) (msg : Message) (latest : Map ℕ Message) (node : ℕ)
    → lookup node (note_message suspicion msg latest) ≡ (
        if msg.node_id == node
        then elim (lookup node latest) [
          | none ↦ some msg
          | some old ↦ some (resolve suspicion old msg)
        ]
        else lookup node latest)
unfolding note_message
lookup-note_message suspicion msg latest node = elim (Option-cases (lookup msg.node_id latest)) [
  | inl z ↦ rw (z, note_message) (ground (arith, z, lookup-insert msg.node_id node msg latest))
  | inr (old, z) ↦
      rw (z, note_message)
        (ground (arith, z, lookup-insert msg.node_id node (resolve suspicion old msg) latest))
]

lookup-latest_messages :
    (suspicion : Bool) (msgs : List Message) (latest : Map ℕ Message) (node : ℕ)
    → lookup node (latest_messages suspicion msgs latest)
      ≡ fold_node suspicion node msgs (lookup node latest)
unfolding latest_messages
lookup-latest_messages suspicion [] latest node = refl
lookup-latest_messages suspicion (msg ∷ msgs) latest node =
    lookup-latest_messages suspicion msgs (note_message suspicion msg latest) node
    ∙ ap (fold_node suspicion node msgs) (lookup-note_message suspicion msg latest node)

-- Without suspicion the newer of two messages is kept, the older one on a tie.
resolve-newest :
    (old new : Message)
    → (old.time_stamp ≤ (resolve false old new).time_stamp)
      × (new.time_stamp ≤ (resolve false old new).time_stamp)
      × ((resolve false old new ≡ old) ⊎ (resolve false old new ≡ new))
unfolding resolve
resolve-newest old new = elim (Bool-cases (is_conflict old new)) [
  | inl c ↦ rw (c, resolve) (ground arith)
  | inr c ↦ rw (c, resolve) (ground arith)
]

fold_node-newest :
    (node : ℕ) (msgs : List Message) (kept : Option Message) (r : Message)
    → fold_node false node msgs kept ≡ some r
    → ((old : Message) → kept ≡ some old → old.time_stamp ≤ r.time_stamp)
      × All (λ m. m.node_id ≡ node → m.time_stamp ≤ r.time_stamp) msgs
fold_node-newest node [] kept r h = (λ old e. ground arith, tt)
fold_node-newest node (m ∷ msgs) none r h = elim (Bool-cases (m.node_id == node)) [
  | inl q ↦
      let ih = fold_node-newest node msgs (some m) r (rw q at h) in
      (λ old e. absurd (cc), (λ _. ih.0 m refl, ih.1))
  | inr q ↦
      let ih = fold_node-newest node msgs none r (rw q at h) in
      (λ old e. absurd (cc), (λ e. absurd (ground arith), ih.1))
]
fold_node-newest node (m ∷ msgs) (some old) r h = elim (Bool-cases (m.node_id == node)) [
  | inl q ↦
      let ih = fold_node-newest node msgs (some (resolve false old m)) r (rw q at h) in
      let w = ih.0 (resolve false old m) refl in
      let z = resolve-newest old m in
      (λ o e. ground (arith, w, z), (λ _. omega (arith, w, z.1), ih.1))
  | inr q ↦
      let ih = fold_node-newest node msgs (some old) r (rw q at h) in
      (ih.0, (λ e. absurd (ground arith), ih.1))
]

fold_node-Has :
    (node : ℕ) (msgs : List Message) (kept : Option Message) (r : Message)
    → fold_node false node msgs kept ≡ some r
    → (kept ≡ some r) ⊎ (Has r msgs × (r.node_id ≡ node))
fold_node-Has node [] kept r h = inl h
fold_node-Has node (m ∷ msgs) none r h = elim (Bool-cases (m.node_id == node)) [
  | inl q ↦ ground (arith, q, fold_node-Has node msgs (some m) r (rw q at h))
  | inr q ↦ ground (arith, fold_node-Has node msgs none r (rw q at h))
]
fold_node-Has node (m ∷ msgs) (some old) r h = elim (Bool-cases (m.node_id == node)) [
  | inl q ↦ ground (
    arith,
    q,
    resolve-newest old m,
    fold_node-Has node msgs (some (resolve false old m)) r (rw q at h),
  )
  | inr q ↦ ground (arith, fold_node-Has node msgs (some old) r (rw q at h))
]

fold_node-none :
    (suspicion : Bool) (node : ℕ) (msgs : List Message) (kept : Option Message)
    → fold_node suspicion node msgs kept ≡ none
    → (kept ≡ none) × All (λ m. m.node_id ≢ node) msgs
fold_node-none suspicion node [] kept h = (h, tt)
fold_node-none suspicion node (m ∷ msgs) none h = elim (Bool-cases (m.node_id == node)) [
  | inl q ↦ absurd (cc (fold_node-none suspicion node msgs (some m) (rw q at h)).0)
  | inr q ↦
      let ih = fold_node-none suspicion node msgs none (rw q at h) in
      (refl, (λ e. ground arith, ih.1))
]
fold_node-none suspicion node (m ∷ msgs) (some old) h = elim (Bool-cases (m.node_id == node)) [
  | inl q ↦
      absurd
        (cc (fold_node-none suspicion node msgs (some (resolve suspicion old m)) (rw q at h)).0)
  | inr q ↦ absurd (cc (fold_node-none suspicion node msgs (some old) (rw q at h)).0)
]

-- `o` is a newest message of the node, or nothing where the node has none.
abbrev pub IsNewest : ℕ → List Message → Option Message → Type 0
IsNewest node msgs none = All (λ m. m.node_id ≢ node) msgs
IsNewest node msgs (some r) =
    Has r msgs × (r.node_id ≡ node) × All (λ m. m.node_id ≡ node → m.time_stamp ≤ r.time_stamp) msgs

fold_node-IsNewest :
    (node : ℕ) (msgs : List Message) (o : Option Message)
    → fold_node false node msgs none ≡ o
    → IsNewest node msgs o
fold_node-IsNewest node msgs none e = (fold_node-none false node msgs none e).1
fold_node-IsNewest node msgs (some r) e = elim (fold_node-Has node msgs none r e) [
  | inl z ↦ absurd (cc)
  | inr z ↦ (z.0, z.1, (fold_node-newest node msgs none r e).1)
]

latest_messages-IsNewest :
    (msgs : List Message) (node : ℕ)
    → IsNewest node msgs (lookup node (latest_messages false msgs []))
unfolding lookup
latest_messages-IsNewest msgs node =
    fold_node-IsNewest node msgs _ (sym (lookup-latest_messages false msgs [] node))

-- Every message is kept under its own node, and no node twice.
abbrev IsKeyed : Map ℕ Message → Type 0
IsKeyed [] = Unit {0}
IsKeyed ((k, v) ∷ m) = (v.node_id ≡ k) × (lookup k m ≡ none) × IsKeyed m

insert-IsKeyed :
    (k : ℕ) (msg : Message) (m : Map ℕ Message)
    → msg.node_id ≡ k
    → IsKeyed m
    → IsKeyed (insert k msg m)
unfolding insert lookup
insert-IsKeyed k msg [] e h = (e, refl, tt)
insert-IsKeyed k msg ((i, v) ∷ m) e h =
    ground (arith, insert-IsKeyed k msg m e h.2, lookup-insert k i msg m)

resolve-node :
    (suspicion : Bool) (old new : Message)
    → old.node_id ≡ new.node_id
    → (resolve suspicion old new).node_id ≡ new.node_id
unfolding resolve
resolve-node suspicion old new e = ground arith

lookup-node :
    (m : Map ℕ Message) (node : ℕ) (r : Message)
    → IsKeyed m
    → lookup node m ≡ some r
    → (r.node_id ≡ node) × Has r (values m)
unfolding lookup
lookup-node [] node r k h = absurd (cc)
lookup-node ((i, v) ∷ m) node r k h = ground (arith, lookup-node m node r k.2)

values-lookup :
    (m : Map ℕ Message) (r : Message) → IsKeyed m → Has r (values m) → lookup r.node_id m ≡ some r
unfolding lookup
values-lookup [] r k h = absurd h
values-lookup ((i, v) ∷ m) r k h = ground (arith, values-lookup m r k.2)

note_message-IsKeyed :
    (suspicion : Bool) (msg : Message) (m : Map ℕ Message)
    → IsKeyed m
    → IsKeyed (note_message suspicion msg m)
unfolding note_message
note_message-IsKeyed suspicion msg m k = elim (Option-cases (lookup msg.node_id m)) [
  | inl z ↦ rw (z, note_message) (insert-IsKeyed msg.node_id msg m refl k)
  | inr (old, z) ↦
      let e = resolve-node suspicion old msg (lookup-node m msg.node_id old k z).0 in
      rw (z, note_message) (insert-IsKeyed msg.node_id (resolve suspicion old msg) m e k)
]

latest_messages-IsKeyed :
    (suspicion : Bool) (msgs : List Message) (m : Map ℕ Message)
    → IsKeyed m
    → IsKeyed (latest_messages suspicion msgs m)
unfolding latest_messages
latest_messages-IsKeyed suspicion [] m k = k
latest_messages-IsKeyed suspicion (msg ∷ msgs) m k =
    latest_messages-IsKeyed suspicion msgs _ (note_message-IsKeyed suspicion msg m k)

-- While suspicion is off, and whatever the order in which the runtime goes through the map: a
-- message is in the result of `RemoveConflictMessages` exactly when the loop kept it for its node,
-- and what it kept for a node is a message of that node that no other one of the node is newer
-- than, or nothing where no message is about the node.
pub remove_conflict_messages-IsNewest :
    (order : List Message → List Message)
    → ((xs : List Message) (x : Message) → Has x (order xs) ↔ Has x xs)
    → (msgs : List Message) (node : ℕ)
    → (kept : Option Message) × IsNewest node msgs kept
      × ((r : Message)
          → (Has r (remove_conflict_messages false order msgs) × (r.node_id ≡ node))
            ↔ (kept ≡ some r))
unfolding remove_conflict_messages
remove_conflict_messages-IsNewest order perm msgs node = (
  lookup node (latest_messages false msgs []),
  latest_messages-IsNewest msgs node,
  λ r. (
    λ h. rw (← h.1) (values-lookup _ r keyed ((perm _ r).0 h.0)),
    λ h. let z = lookup-node _ node r keyed h in ((perm _ r).1 z.1, z.0),
  ),
)
  where
    keyed : IsKeyed (latest_messages false msgs [])
    keyed = latest_messages-IsKeyed false msgs [] tt

-- Two messages of a node that do not contradict one another by failure and join.
abbrev pub Agrees : Message → Message → Type 0
Agrees old new = new.node_id ≡ old.node_id → is_conflict old new ≡ false

resolve-first : (old new : Message) → is_conflict old new ≡ false → resolve true old new ≡ old
unfolding resolve
resolve-first old new c = rw (c, resolve) (ground arith)

fold_node-first :
    (msgs : List Message) (first : Message)
    → All (Agrees first) msgs
    → fold_node true first.node_id msgs (some first) ≡ some first
fold_node-first [] first a = refl
fold_node-first (m ∷ msgs) first a = elim (Bool-cases (m.node_id == first.node_id)) [
  | inl q ↦ rw (q, resolve-first first m (a.0 (==→≡ _ _ q))) (fold_node-first msgs first a.1)
  | inr q ↦ rw q (fold_node-first msgs first a.1)
]

-- While suspicion is on, the first message of a node stays, whatever the times of the later ones,
-- unless a later one contradicts it by a failure against a join.
pub latest_messages-first :
    (first : Message) (msgs : List Message)
    → All (Agrees first) msgs
    → lookup first.node_id (latest_messages true (first ∷ msgs) []) ≡ some first
unfolding lookup
latest_messages-first first msgs a =
    lookup-latest_messages true (first ∷ msgs) [] first.node_id
    ∙ rw (==_refl first.node_id) (fold_node-first msgs first a)
