-- ===== src/Membership/Listen.antt =====
-- `listenUdpSignals` of GroupMembership/process.go with the handlers of introducer.go and
-- suspicion.go. A datagram is `none` where it is no JSON; otherwise a field that it lacks has its
-- zero value, as `json.Unmarshal` leaves it. A datagram that is longer than the buffer loses its end,
-- and what is left of it is no JSON.
pub mod Joining
use rain_strom_distributed_s.Prelude.{
  ℕ, suc, ◌+◌, Bool, true, false, not, ◌&&◌, Option, none, some, List, [], ◌∷◌, ◌++◌, String,
  if◌then◌else◌, ◌==◌, leb,
}
use rain_strom_distributed_s.Prelude.Run.{Run, ok, or_panic, ◌>>=◌}
use rain_strom_distributed_s.Config.{Config, ring_id}
use rain_strom_distributed_s.Membership.Types.{Tag, MembershipList, Message, Signal}
use rain_strom_distributed_s.Membership.Table.{add, membership_entry}
use rain_strom_distributed_s.Membership.Service.{Service, Datagram}
use rain_strom_distributed_s.Membership.Gossip.{process_signal}
use rain_strom_distributed_s.Membership.Detector.{lock, unlock, say}

-- `size` is the length of the datagram in bytes.
pub record Packet : Type 0 where
  pub size : ℕ
  pub msg_type : Tag
  pub node_id : ℕ
  pub init_membership_list : MembershipList
  pub switch_suspicion : Bool
  pub signal : Signal

abbrev pub is_join_request : Tag → Bool
is_join_request Tag.join_request = true
is_join_request _ = false

abbrev pub is_join_response : Tag → Bool
is_join_response Tag.join_response = true
is_join_response _ = false

abbrev pub is_switch : Tag → Bool
is_switch Tag.switch = true
is_switch _ = false

abbrev pub admitted : ℕ → ℕ → ℕ → Service → Service
admitted now peer node s = record (say now Tag.join node s) {
  list = add (membership_entry now node Tag.active peer) s.list;
  joined_out = s.joined_out ++ node ∷ [];
}

-- The introducer takes the new node in, and tells its other services of it.
unfoldable pub admit : Config → ℕ → ℕ → Service → Run Service
unfolding lock unlock
admit c now node s = do
  held ← lock s
  peer ← or_panic (ring_id c node)
  ok (admitted now peer node (unlock held))

unfoldable pub is_request_to_introducer :
    Config → ℕ → Option Packet → Service → Run (Bool × Service)
unfolding admit
is_request_to_introducer c now none s = ok (false, s)
is_request_to_introducer c now (some p) s =
    if is_join_request p.msg_type
    then (do s' ← admit c now p.node_id s; ok (true, s'))
    else ok (false, s)

unfoldable pub is_response_from_introducer : Option Packet → Service → Service
is_response_from_introducer none s = s
is_response_from_introducer (some p) s =
    if is_join_response p.msg_type
    then record s { list = p.init_membership_list; response_from_introducer = true }
    else s

-- What becomes of a datagram to an address: the address may not resolve, and the socket may fail.
pub data Delivery : Type 0 where
  unresolved unsent sent : Delivery

-- `SendSuspicionSignalToOtherNodes`. An address that does not resolve ends it.
unfoldable pub send_switch :
    (String → Delivery) → Bool → ℕ → ℕ → List String → List (String × Datagram)
send_switch sends sus self i [] = []
send_switch sends sus self i (addr ∷ servers) =
    let rest = send_switch sends sus self (i + 1) servers in
    let tried : List (String × Datagram) = elim (sends addr) [
      | unresolved ↦ []
      | unsent ↦ rest
      | sent ↦ (addr, Datagram.switch_suspicion sus) ∷ rest
    ] in
    if i + 1 == self then rest else tried

abbrev pub bool_eq : Bool → Bool → Bool
bool_eq true b = b
bool_eq false b = not b

-- What `RunProcess` does with a value from `SuspicionChan`.
unfoldable pub switch_suspicion : (String → Delivery) → Bool → Service → Service
unfolding send_switch
switch_suspicion sends sus s = if bool_eq sus s.suspicion then s else record s {
  suspicion = sus;
  outbox = s.outbox ++ send_switch sends sus s.server_id 0 s.servers;
}

unfoldable pub process_switch_suspicion_signal_request :
    (String → Delivery) → Option Packet → Service → Service
unfolding switch_suspicion
process_switch_suspicion_signal_request sends none s = s
process_switch_suspicion_signal_request sends (some p) s =
    if is_switch p.msg_type then switch_suspicion sends p.switch_suspicion s else s

-- The rest of a round, for a datagram that was a join request or was not.
unfoldable pub answer :
    Bool
    → Config
    → (String → Delivery)
    → (List Message → List Message)
    → ℕ
    → Option Packet
    → String
    → Service
    → Run Service
unfolding is_response_from_introducer process_switch_suspicion_signal_request process_signal
answer true c sends order now packet addr s =
    ok (record s { outbox = s.outbox ++ (addr, Datagram.join_response s.list) ∷ [] })
answer false c sends order now none addr s =
    ok (process_switch_suspicion_signal_request sends none (is_response_from_introducer none s))
answer false c sends order now (some p) addr s = process_signal c order now p.signal addr (
    process_switch_suspicion_signal_request sends (some p) (is_response_from_introducer (some p) s))

-- The `buffer` of the loop.
abbrev pub buffer_size : ℕ
buffer_size = 1024

unfoldable pub read_buffer : Option Packet → Option Packet
read_buffer none = none
read_buffer (some p) = if leb p.size buffer_size then some p else none

-- One round of the loop: a join request is answered, and any other datagram is also a signal.
unfoldable pub listen :
    Config
    → (String → Delivery)
    → (List Message → List Message)
    → ℕ
    → Option Packet
    → String
    → Service
    → Run Service
unfolding is_request_to_introducer answer read_buffer
listen c sends order now packet addr s = do
  (request, s') ← is_request_to_introducer c now (read_buffer packet) s
  answer request c sends order now (read_buffer packet) addr s'
