-- ===== src/Membership/Join.antt =====
-- How a node starts and joins: `InitProcess` of GroupMembership/process.go, the request of
-- GroupMembership/introducer.go, and what a datagram is to its receiver, by the structs and the
-- encoders of GroupMembership/messages.go. `json.Unmarshal` leaves the zero value where the JSON
-- text of another struct has no field. The length of the JSON text of a datagram is an argument.
pub mod Handshake
use rain_strom_distributed_s.Prelude.{
  ℕ, zero, suc, Bool, false, List, [], ◌∷◌, ◌++◌, String, if◌then◌else◌, ◌==◌, get_elem?, not,
}
use rain_strom_distributed_s.Prelude.Run.{Run, ok, panic, or_panic, ◌>>=◌}
use rain_strom_distributed_s.Membership.Types.{Tag, MembershipList, SignalType, Signal}
use rain_strom_distributed_s.Membership.Service.{Service, Datagram}
use rain_strom_distributed_s.Membership.Listen.{Packet}

abbrev pub introducer_node_id : ℕ
introducer_node_id = 2

abbrev pub introducer_peer_id : ℕ
introducer_peer_id = 789

-- `InitProcess`, with the zero values of the globals, and what `RunProcess` sets of them.
unfoldable pub init_process : ℕ → List String → ℕ → Service
init_process now servers server_id = record {
  list =
      record {
        node_id = introducer_node_id;
        time_stamp = now;
        status = Tag.active;
        peer_id = introducer_peer_id;
      }
      ∷ [];
  buffer = [];
  suspicion = false;
  locked = false;
  failed_out = [];
  joined_out = [];
  timers = [];
  ack_chan_map = [];
  pings = [];
  next_chan = 0;
  outbox = [];
  servers = servers;
  server_id = server_id;
  response_from_introducer = false;
}

-- `SendRequestToIntroducer`, with the addresses of the file `servers.config`. It gives up where an
-- address does not take the datagram.
unfoldable pub send_request_to_introducer :
    (String → Bool) → List String → ℕ → ℕ → Service → Run Service
send_request_to_introducer sends all_servers new_node zero s = ok s
send_request_to_introducer sends all_servers new_node (suc i) s =
    let sent : Run Service = do
      addr ← or_panic (get_elem? all_servers i)
      ok (
          if sends addr
          then record s { outbox = s.outbox ++ (addr, Datagram.join_request new_node) ∷ [] }
          else s)
    in if suc i == introducer_node_id then sent else ok s

abbrev pub no_signal : Signal
no_signal = record { signal_type = SignalType.unknown; target_node_id = 0; messages = [] }

abbrev pub no_packet : Packet
no_packet = record {
  size = 0;
  msg_type = Tag.other;
  node_id = 0;
  init_membership_list = [];
  switch_suspicion = false;
  signal = no_signal;
}

unfoldable pub packet_of : (Datagram → ℕ) → Datagram → Packet
packet_of size (Datagram.signal sig) = record no_packet {
  size = size (Datagram.signal sig);
  signal = sig;
}
packet_of size (Datagram.join_request node) = record no_packet {
  size = size (Datagram.join_request node);
  msg_type = Tag.join_request;
  node_id = node;
}
packet_of size (Datagram.join_response l) = record no_packet {
  size = size (Datagram.join_response l);
  msg_type = Tag.join_response;
  init_membership_list = l;
}
packet_of size (Datagram.switch_suspicion sus) = record no_packet {
  size = size (Datagram.switch_suspicion sus);
  msg_type = Tag.switch;
  switch_suspicion = sus;
}
