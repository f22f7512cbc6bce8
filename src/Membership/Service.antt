-- ===== src/Membership/Service.antt =====
-- `MembershipService` of GroupMembership/membershipList.go with the globals of process.go, and
-- `PerformActionOnMessage`. What is sent on a channel or a socket is appended to a list.
pub mod Actions
use rain_strom_distributed_s.Prelude.{
  ℕ, Bool, true, false, Option, none, some, List, [], ◌∷◌, ◌++◌, String, Map, if◌then◌else◌,
}
use rain_strom_distributed_s.Prelude.Run.{Run, ok, or_panic, ◌>>=◌}
use rain_strom_distributed_s.Config.{Config}
use rain_strom_distributed_s.Membership.Types.{Tag, MembershipList, Message, Signal}
use rain_strom_distributed_s.Membership.Table.{contains, add_or_update, update, remove}

-- A `pingNode` that waits for its ACK, on a channel of its own.
pub record Ping : Type 0 where
  pub chan : ℕ
  pub node : ℕ
  pub acked : Bool

pub record AckChannelInfo : Type 0 where
  pub chan : ℕ
  pub ping_count : ℕ

pub data Datagram : Type 0 where
  signal : Signal → Datagram
  join_request : ℕ → Datagram
  join_response : MembershipList → Datagram
  switch_suspicion : Bool → Datagram

pub record Service : Type 0 where
  pub list : MembershipList
  pub buffer : List Message
  pub suspicion : Bool
  -- `MemberShipListMutex` is held
  pub locked : Bool
  pub failed_out : List ℕ
  pub joined_out : List ℕ
  -- the nodes for which `markNodeFailed` has started its timer
  pub timers : List ℕ
  pub ack_chan_map : Map ℕ AckChannelInfo
  pub pings : List Ping
  pub next_chan : ℕ
  pub outbox : List (String × Datagram)
  pub servers : List String
  pub server_id : ℕ
  pub response_from_introducer : Bool

-- The FAIL case: the signal goes out only for a node that is still listed.
unfoldable pub fail_node : ℕ → Service → Service
fail_node node s = record s {
  list = remove node s.list;
  failed_out = if contains s.list node then s.failed_out ++ node ∷ [] else s.failed_out;
}

unfoldable pub perform : Tag → Config → ℕ → Message → Service → Run Service
unfolding fail_node
perform Tag.failed c now msg s = ok (fail_node msg.node_id s)
perform Tag.join c now msg s = do
  l ← or_panic (add_or_update c now msg s.list)
  ok (record s { list = l })
perform Tag.left c now msg s = ok (record s { list = remove msg.node_id s.list })
perform Tag.suspected c now msg s = ok (record s { list = update msg.node_id Tag.suspected s.list })
perform Tag.active c now msg s = do
  l ← or_panic (add_or_update c now msg s.list)
  ok (record s { list = l })
perform _ c now msg s = ok s

unfoldable pub perform_action_on_message : Config → ℕ → Message → Service → Run Service
unfolding perform
perform_action_on_message c now msg s = perform msg.msg_type c now msg s

-- The loop over the buffer at the end of `processSignal`.
unfoldable pub perform_all : Config → ℕ → List Message → Service → Run Service
perform_all c now [] s = ok s
perform_all c now (msg ∷ msgs) s = do
  s' ← perform_action_on_message c now msg s
  perform_all c now msgs s'
