-- ===== src/Membership/Types.antt =====
-- The data of GroupMembership/membershipList.go and messages.go. A `Status` and a `MsgType` are
-- strings of the same constants there, and one converts to the other: `Tag` has a constructor for
-- each constant, and `other` for any other text. A time is a number of ticks.
use rain_strom_distributed_s.Prelude.{ℕ, Bool, true, false, List}

pub data Tag : Type 0 where
  failed left suspected active join join_request join_response switch other : Tag

pub record Entry : Type 0 where
  pub node_id : ℕ
  pub time_stamp : ℕ
  pub status : Tag
  pub peer_id : ℕ

abbrev pub MembershipList : Type 0
MembershipList = List Entry

pub record Message : Type 0 where
  pub msg_type : Tag
  pub node_id : ℕ
  pub time_stamp : ℕ

-- `CreateSignal`: the kind is PING, ACK or any other text.
pub data SignalType : Type 0 where
  ping ack unknown : SignalType

pub record Signal : Type 0 where
  pub signal_type : SignalType
  pub target_node_id : ℕ
  pub messages : List Message

-- `MsgType == FAIL` and its like.
abbrev pub is_failed : Tag → Bool
is_failed Tag.failed = true
is_failed _ = false

abbrev pub is_join : Tag → Bool
is_join Tag.join = true
is_join _ = false

-- On these constants `strings.Contains(status, "SUSPECT")` is the same test as `== SUSPECTED`.
abbrev pub is_suspected_tag : Tag → Bool
is_suspected_tag Tag.suspected = true
is_suspected_tag _ = false

-- `MessageEntry`: a message stamped with the present time.
abbrev pub message_entry : ℕ → Tag → ℕ → Message
message_entry now tag node = record { msg_type = tag; node_id = node; time_stamp = now }
