-- ===== src/Membership/Detector.antt =====
-- The failure detector of GroupMembership/process.go: pings, their timeouts, suspicion and its
-- timer. A goroutine's steps are functions of their own, which the environment runs in any order.
pub mod Mutex
pub mod Suspicion
use rain_strom_distributed_s.Prelude.{
  ℕ, zero, suc, ◌+◌, Bool, true, false, not, ◌&&◌, Option, none, some, List, [], ◌∷◌, ◌++◌, String,
  Map, insert, nat_eq, if◌then◌else◌, ◌==◌, get_elem?,
}
use rain_strom_distributed_s.Prelude.Run.{Run, ok, blocked, panic, or_panic, ◌>>=◌}
use rain_strom_distributed_s.Membership.Types.{Tag, Message, Signal, SignalType, message_entry}
use rain_strom_distributed_s.Membership.Table.{
  contains, update, remove, is_suspected, rejuvenate, get_neighbours,
}
use rain_strom_distributed_s.Membership.Service.{Service, Ping, Datagram, fail_node}

-- `MemberShipListMutex.Lock()`
unfoldable pub lock : Service → Run Service
lock s = if s.locked then blocked else ok (record s { locked = true })

unfoldable pub unlock : Service → Service
unlock s = record s { locked = false }

abbrev pub say : ℕ → Tag → ℕ → Service → Service
say now tag node s = record s { buffer = s.buffer ++ message_entry now tag node ∷ [] }

-- The body of `markNodeFailed`, with the mutex held. With suspicion a node that is already
-- suspected makes the source return before its `Unlock`.
unfoldable pub mark_failed_held : ℕ → ℕ → Service → Service
unfolding unlock fail_node
mark_failed_held now node held =
    if held.suspicion
    then if is_suspected held.list node
      then held
      else unlock (
          say now Tag.suspected node (record held {
            list = update node Tag.suspected held.list;
            timers = held.timers ++ node ∷ [];
          }))
    else unlock (say now Tag.failed node (fail_node node held))

unfoldable pub mark_node_failed : ℕ → ℕ → Service → Run Service
unfolding lock mark_failed_held
mark_node_failed now node s = do held ← lock s; ok (mark_failed_held now node held)

-- The goroutine that `markNodeFailed` starts, after its sleep.
unfoldable pub suspicion_timeout : ℕ → ℕ → Service → Service
unfolding fail_node
suspicion_timeout now node s =
    if is_suspected s.list node then fail_node node (say now Tag.failed node s) else s

unfoldable pub mark_node_alive : ℕ → ℕ → Service → Run Service
unfolding lock unlock
mark_node_alive now node s = do
  held ← lock s
  ok (
      unlock (
        if is_suspected held.list node
        then record (say now Tag.active node held) { list = rejuvenate now node held.list }
        else held))

unfoldable pub leaving_node : ℕ → ℕ → Service → Run Service
unfolding lock unlock
leaving_node now node s = do held ← lock s; ok (unlock (say now Tag.left node held))

unfoldable pub find_ping : ℕ → List Ping → Option Ping
find_ping chan [] = none
find_ping chan (p ∷ ps) = if p.chan == chan then some p else find_ping chan ps

unfoldable pub end_ping : ℕ → List Ping → List Ping
end_ping chan [] = []
end_ping chan (p ∷ ps) = if p.chan == chan then ps else p ∷ end_ping chan ps

-- The `select` of `pingNode`: its ACK has come, or its time is over.
unfoldable pub ping_wakes : ℕ → ℕ → Service → Run Service
unfolding find_ping end_ping mark_node_alive mark_node_failed
ping_wakes now chan s = elim (find_ping chan s.pings) [
  | none ↦ ok s
  | some p ↦
      let s' = record s { pings = end_ping chan s.pings } in
      if p.acked then mark_node_alive now p.node s' else mark_node_failed now p.node s'
]

-- `pingNode` up to its `select`; it gives up when the address or the socket fails.
unfoldable pub ping_node : (String → Bool) → ℕ → ℕ → List Message → Service → Run Service
ping_node sends chan zero msgs s = panic
ping_node sends chan (suc i) msgs s = do
  addr ← or_panic (get_elem? s.servers i)
  ok (
      if sends addr
      then record s {
        outbox =
            s.outbox
            ++ (
              addr,
              Datagram.signal (record {
                signal_type = SignalType.ping;
                target_node_id = suc i;
                messages = msgs;
              }),
            )
              ∷ [];
        pings = s.pings ++ record { chan = chan; node = suc i; acked = false } ∷ [];
      }
      else s)

-- A new ACK channel for the neighbour, and the goroutine that pings it.
unfoldable pub start_ping : (String → Bool) → List Message → ℕ → Service → Run Service
unfolding ping_node
start_ping sends msgs node s =
    if node == s.server_id
    then ok s
    else ping_node sends s.next_chan node msgs (record s {
      next_chan = s.next_chan + 1;
      ack_chan_map = insert node (record { chan = s.next_chan; ping_count = 1 }) s.ack_chan_map;
    })

unfoldable pub ping_all : (String → Bool) → List Message → List ℕ → Service → Run Service
unfolding start_ping
ping_all sends msgs [] s = ok s
ping_all sends msgs (n ∷ ns) s = do s' ← start_ping sends msgs n s; ping_all sends msgs ns s'

-- One tick of `sendSignalsToNeighbors`; `to_set` is `ConvertListToSet`, whose order is the map's.
unfoldable pub send_signals : (String → Bool) → (List ℕ → List ℕ) → Service → Run Service
unfolding ping_all
send_signals sends to_set s = do
  ns ← or_panic (get_neighbours s.list s.server_id)
  s' ← ping_all sends s.buffer (to_set ns) s
  ok (record s' { buffer = [] })
