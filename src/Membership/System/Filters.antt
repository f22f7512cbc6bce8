-- ===== src/Membership/System/Filters.antt =====
-- What the filters of `processSignal` keep of messages and of the list.
use rain_strom_distributed_s.Prelude.{
  ℕ, ◌≡◌, refl, subst, arith, Bool, ◌&&◌, some, List, [], ◌∷◌, Map, lookup, insert, nat_eq, Has,
  All, All-Has, Has-All, Bool-cases, Option-cases, inl, inr, ◌↔◌, ◌==◌,
}
use rain_strom_distributed_s.Config.{Config}
use rain_strom_distributed_s.Membership.Types.{MembershipList, Message, is_join}
use rain_strom_distributed_s.Membership.Table.{contains, get_index_of_node}
use rain_strom_distributed_s.Membership.Table.Placed.{Inv, SameKeys-Inv, modify-SameKeys}
use rain_strom_distributed_s.Membership.Conflicts.{
  resolve, note_message, latest_messages, values, remove_conflict_messages,
}
use rain_strom_distributed_s.Membership.Gossip.{stamp, is_dropped, remove_msg_if_no_action_needed}

stamp-Inv : (c : Config) (m : MembershipList) (node time : ℕ) → Inv c m → Inv c (stamp m node time)
unfolding stamp
stamp-Inv c m node time v = elim (Option-cases (get_index_of_node m node)) [
  | inl z ↦ rw (stamp, z) v
  | inr (i, z) ↦
      rw (stamp, z)
        (SameKeys-Inv c m _
          (modify-SameKeys (λ e. record e { time_stamp = time }) node m i (λ e b q. (refl, refl)) z)
          v)
]

pub remove_msg-Inv :
    (c : Config) (msgs : List Message) (m : MembershipList)
    → Inv c m
    → Inv c (remove_msg_if_no_action_needed msgs m).0
unfolding remove_msg_if_no_action_needed
remove_msg-Inv c [] m v = v
remove_msg-Inv c (msg ∷ msgs) m v =
    elim (Bool-cases (is_join msg.msg_type && contains m msg.node_id)) [
      | inl z ↦ rw z (remove_msg-Inv c msgs _ (stamp-Inv c m msg.node_id msg.time_stamp v))
      | inr z ↦ rw z (remove_msg-Inv c msgs m v)
    ]

module _ (P : Message → Type 0) where
  pub remove_msg-All :
      (msgs : List Message) (m : MembershipList)
      → All P msgs
      → All P (remove_msg_if_no_action_needed msgs m).1
  unfolding remove_msg_if_no_action_needed
  remove_msg-All [] m a = tt
  remove_msg-All (msg ∷ msgs) m a = elim (Bool-cases (is_dropped m msg)) [
    | inl z ↦ rw z (remove_msg-All msgs _ a.1)
    | inr z ↦ rw z (a.0, remove_msg-All msgs _ a.1)
  ]

  lookup-All :
      (node : ℕ) (m : Map ℕ Message) (old : Message)
      → All P (values m)
      → lookup node m ≡ some old
      → P old
  unfolding lookup
  lookup-All node [] old a h = absurd (cc)
  lookup-All node ((k, v) ∷ m) old a h = elim (Bool-cases (k == node)) [
    | inl z ↦ let e : v ≡ old = cc (rw z at h) in subst P e a.0
    | inr z ↦ lookup-All node m old a.1 (rw z at h)
  ]

  insert-All :
      (node : ℕ) (msg : Message) (m : Map ℕ Message)
      → P msg
      → All P (values m)
      → All P (values (insert node msg m))
  unfolding insert
  insert-All node msg [] h a = (h, tt)
  insert-All node msg ((k, v) ∷ m) h a = elim (Bool-cases (k == node)) [
    | inl z ↦ rw z (h, a.1)
    | inr z ↦ rw z (a.0, insert-All node msg m h a.1)
  ]

  -- Of two messages one is kept.
  resolve-one :
      (suspicion : Bool) (old new : Message) → P old → P new → P (resolve suspicion old new)
  unfolding resolve
  resolve-one suspicion old new p q = ground arith

  note_message-All :
      (suspicion : Bool) (msg : Message) (latest : Map ℕ Message)
      → P msg
      → All P (values latest)
      → All P (values (note_message suspicion msg latest))
  unfolding note_message
  note_message-All suspicion msg latest h a = elim (Option-cases (lookup msg.node_id latest)) [
    | inl z ↦ rw (note_message, z) (insert-All msg.node_id msg latest h a)
    | inr (old, z) ↦
        let p = resolve-one suspicion old msg (lookup-All msg.node_id latest old a z) h in
        rw (note_message, z) (insert-All msg.node_id (resolve suspicion old msg) latest p a)
  ]

  latest_messages-All :
      (suspicion : Bool) (msgs : List Message) (latest : Map ℕ Message)
      → All P msgs
      → All P (values latest)
      → All P (values (latest_messages suspicion msgs latest))
  unfolding latest_messages
  latest_messages-All suspicion [] latest h a = a
  latest_messages-All suspicion (msg ∷ msgs) latest h a =
      latest_messages-All suspicion msgs _ h.1 (note_message-All suspicion msg latest h.0 a)

  pub remove_conflict_messages-All :
      (suspicion : Bool) (order : List Message → List Message) (msgs : List Message)
      → ((xs : List Message) (x : Message) → Has x (order xs) ↔ Has x xs)
      → All P msgs
      → All P (remove_conflict_messages suspicion order msgs)
  unfolding remove_conflict_messages
  remove_conflict_messages-All suspicion order msgs perm h =
      let a = latest_messages-All suspicion msgs [] h tt in
      Has-All P _ (λ x b. All-Has P _ x a ((perm _ x).0 b))
