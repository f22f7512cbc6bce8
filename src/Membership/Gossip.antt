-- ===== src/Membership/Gossip.antt =====
-- `RemoveMsgIfNoActionNeeded` of GroupMembership/membershipList.go, and `processSignal` with the
-- ACK channels of GroupMembership/process.go.
use rain_strom_distributed_s.Prelude.{
  ℕ, ◌+◌, ◌-◌, Bool, true, false, not, ◌&&◌, Option, none, some, List, [], ◌∷◌, ◌++◌, String,
  lookup, erase, insert, nat_eq, if◌then◌else◌, ◌==◌, get_elem?, modify, str_eq,
}
use rain_strom_distributed_s.Prelude.Run.{Run, ok, blocked, ◌>>=◌}
use rain_strom_distributed_s.Config.{Config}
use rain_strom_distributed_s.Membership.Types.{
  MembershipList, Message, Signal, SignalType, is_failed, is_join, is_suspected_tag,
}
use rain_strom_distributed_s.Membership.Table.{get_index_of_node, contains}
use rain_strom_distributed_s.Membership.Conflicts.{remove_conflict_messages}
use rain_strom_distributed_s.Membership.Service.{Service, Ping, Datagram, perform_all}

-- `mL[mL.getIndexOfNode(node)].Status` holds "SUSPECT".
unfoldable pub first_suspected : MembershipList → ℕ → Bool
first_suspected m node = elim (get_index_of_node m node) [
  | none ↦ false
  | some i ↦ elim (get_elem? m i) [ none ↦ false | some e ↦ is_suspected_tag e.status ]
]

unfoldable pub stamp : MembershipList → ℕ → ℕ → MembershipList
stamp m node time = elim (get_index_of_node m node) [
  | none ↦ m
  | some i ↦ modify m i (λ e. record e { time_stamp = time })
]

-- The three tests by which a message is dropped.
unfoldable pub is_dropped : MembershipList → Message → Bool
unfolding first_suspected
is_dropped m msg =
    if is_failed msg.msg_type && not (contains m msg.node_id)
    then true
    else if is_join msg.msg_type && contains m msg.node_id
    then true
    else is_suspected_tag msg.msg_type && contains m msg.node_id && first_suspected m msg.node_id

unfoldable pub remove_msg_if_no_action_needed :
    List Message → MembershipList → MembershipList × List Message
unfolding is_dropped stamp
remove_msg_if_no_action_needed [] m = (m, [])
remove_msg_if_no_action_needed (msg ∷ msgs) m =
    let m' =
      if is_join msg.msg_type && contains m msg.node_id
      then stamp m msg.node_id msg.time_stamp
      else m in
    let (w, kept) = remove_msg_if_no_action_needed msgs m' in
    (w, if is_dropped m msg then kept else msg ∷ kept)

-- The node id of an address, or nothing (-1 in the source).
unfoldable pub get_index_from_addr : List String → String → ℕ → Option ℕ
get_index_from_addr [] addr i = none
get_index_from_addr (a ∷ servers) addr i =
    if str_eq addr a then some (i + 1) else get_index_from_addr servers addr (i + 1)

-- A `pingNode` that still waits on the channel takes the value; the send waits for one.
unfoldable pub is_waiting : ℕ → List Ping → Bool
is_waiting chan [] = false
is_waiting chan (p ∷ ps) = if p.chan == chan && not p.acked then true else is_waiting chan ps

unfoldable pub deliver : ℕ → List Ping → List Ping
deliver chan [] = []
deliver chan (p ∷ ps) =
    if p.chan == chan && not p.acked then record p { acked = true } ∷ ps else p ∷ deliver chan ps

-- The ACK case: a send on the channel of the newest ping to the node.
unfoldable pub receive_ack : Option ℕ → Service → Run Service
unfolding is_waiting deliver
receive_ack none s = ok s
receive_ack (some node) s = elim (lookup node s.ack_chan_map) [
  | none ↦ ok s
  | some info ↦
      let count = info.ping_count - 1 in
      if is_waiting info.chan s.pings
      then ok (record s {
        pings = deliver info.chan s.pings;
        ack_chan_map =
            if count == 0
            then erase node s.ack_chan_map
            else insert node (record info { ping_count = count }) s.ack_chan_map;
      })
      else blocked
]

unfoldable pub respond : SignalType → String → Service → Run Service
unfolding receive_ack get_index_from_addr
respond SignalType.ping addr s = ok (record s {
  outbox =
      s.outbox
      ++ (
        addr,
        Datagram.signal
            (record { signal_type = SignalType.ack; target_node_id = 0; messages = [] }),
      )
        ∷ [];
})
respond SignalType.ack addr s = receive_ack (get_index_from_addr s.servers addr 0) s
respond SignalType.unknown addr s = ok s

-- What a signal brings goes through the filter into the buffer, and conflicts leave it.
unfoldable pub take_in : (List Message → List Message) → List Message → Service → Service
unfolding remove_msg_if_no_action_needed remove_conflict_messages
take_in order msgs s =
    let (l, kept) = remove_msg_if_no_action_needed msgs s.list in
    record s { list = l; buffer = remove_conflict_messages s.suspicion order (s.buffer ++ kept) }

unfoldable pub process_signal :
    Config → (List Message → List Message) → ℕ → Signal → String → Service → Run Service
unfolding take_in respond perform_all
process_signal c order now signal addr s = do
  s' ← respond signal.signal_type addr (take_in order signal.messages s)
  perform_all c now s'.buffer s'
