-- ===== src/Membership/Conflicts.antt =====
-- `RemoveConflictMessages` of GroupMembership/messages.go: one message for each node.
pub mod Newest
use rain_strom_distributed_s.Prelude.{
  ℕ, ◌≤◌, ◌<◌, ◌≡◌, ◌≢◌, refl, sym, ap, ◌∙◌, Bool, true, false, not, ◌&&◌, ◌||◌, Option, none, some,
  List, [], ◌∷◌, ◌++◌, map, arith, ltb, ◌==◌, if◌then◌else◌, Bool-cases, Option-cases, inl, inr,
  Map, lookup, insert, nat_eq, Has, ◌⊎◌, lookup-insert, All,
}
use rain_strom_distributed_s.Membership.Types.{Tag, Message, is_failed, is_join}

-- A failure and a join of the same node contradict one another.
abbrev pub is_conflict : Message → Message → Bool
is_conflict old new =
    (is_failed old.msg_type && is_join new.msg_type)
    || (is_join old.msg_type && is_failed new.msg_type)

-- What is kept of a message and an older one for the same node.
unfoldable pub resolve : Bool → Message → Message → Message
resolve suspicion old new =
    if is_conflict old new
    then (if ltb old.time_stamp new.time_stamp then new else old)
    else (if ltb old.time_stamp new.time_stamp && not suspicion then new else old)

-- `latestMessages` after one more round of the loop.
unfoldable pub note_message : Bool → Message → Map ℕ Message → Map ℕ Message
note_message suspicion msg latest = elim (lookup msg.node_id latest) [
  | none ↦ insert msg.node_id msg latest
  | some old ↦ insert msg.node_id (resolve suspicion old msg) latest
]

unfoldable pub latest_messages : Bool → List Message → Map ℕ Message → Map ℕ Message
unfolding note_message
latest_messages suspicion [] latest = latest
latest_messages suspicion (msg ∷ msgs) latest =
    latest_messages suspicion msgs (note_message suspicion msg latest)

abbrev pub values : Map ℕ Message → List Message
values [] = []
values ((k, v) ∷ m) = v ∷ values m

-- `order` is the order in which the runtime goes through the map.
unfoldable pub remove_conflict_messages :
    Bool → (List Message → List Message) → List Message → List Message
unfolding latest_messages
remove_conflict_messages suspicion order msgs = order (values (latest_messages suspicion msgs []))
