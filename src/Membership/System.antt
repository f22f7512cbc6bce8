-- ===== src/Membership/System.antt =====
-- The goroutines of a node, of GroupMembership/process.go, in any order: `listenUdpSignals`,
-- `sendSignalsToNeighbors`, the goroutines of `pingNode` and `markNodeFailed`, the one of
-- `RunProcess` and a call of `LeavingNode`. A step is one round of a goroutine up to its next wait,
-- as Membership/Detector and Membership/Listen have it; a round that waits for ever, or panics, is
-- no step. Finer interleavings of the code between two locks are not modelled.
pub mod Keeping
pub mod Pings
pub mod Filters
pub mod Rounds
pub mod Always
use rain_strom_distributed_s.Prelude.{
  ℕ, ◌≡◌, ◌≢◌, ◌↔◌, Bool, true, false, Option, none, some, List, [], ◌∷◌, ◌++◌, String, Has, All,
}
use rain_strom_distributed_s.Prelude.Run.{ok}
use rain_strom_distributed_s.Config.{Config}
use rain_strom_distributed_s.Membership.Types.{Tag, Message, is_failed}
use rain_strom_distributed_s.Membership.Table.{contains}
use rain_strom_distributed_s.Membership.Table.Placed.{Inv}
use rain_strom_distributed_s.Membership.Service.{Service, Ping}
use rain_strom_distributed_s.Membership.Detector.{
  find_ping, ping_wakes, suspicion_timeout, leaving_node, send_signals,
}
use rain_strom_distributed_s.Membership.Listen.{Packet, Delivery, listen, switch_suspicion}

-- What happens to a node. `missed` is a ping to this node whose time ran out.
pub data Event : Type 0 where
  received : Option Packet → Event
  ticked : Event
  answered missed : ℕ → Event
  timer_ended : ℕ → Event
  switched : Bool → Event
  left : Event

-- What the other nodes keep to when they send a datagram: a node asks to join while it is not
-- listed, and the introducer answers with a well-formed list.
abbrev pub IsFair : Config → Service → Option Packet → Type 0
IsFair c s none = Unit
IsFair c s (some p) =
    (p.msg_type ≡ Tag.join_request → contains s.list p.node_id ≡ false)
    × (p.msg_type ≡ Tag.join_response → Inv c p.init_membership_list)

pub data Step (c : Config) (s : Service) : Event → Service → Type 0 where
  receive :
      (sends : String → Delivery) (order : List Message → List Message) (now : ℕ)
      (packet : Option Packet) (addr : String) {t : Service}
      → ((xs : List Message) (x : Message) → Has x (order xs) ↔ Has x xs)
      → listen c sends order now packet addr s ≡ ok t
      → Step c s (Event.received packet) t
  tick :
      (sends : String → Bool) (to_set : List ℕ → List ℕ) {t : Service}
      → send_signals sends to_set s ≡ ok t
      → Step c s Event.ticked t
  wake :
      (now : ℕ) (p : Ping) {t : Service}
      → find_ping p.chan s.pings ≡ some p
      → p.acked ≡ true
      → ping_wakes now p.chan s ≡ ok t
      → Step c s (Event.answered p.node) t
  give_up :
      (now : ℕ) (p : Ping) {t : Service}
      → find_ping p.chan s.pings ≡ some p
      → p.acked ≡ false
      → ping_wakes now p.chan s ≡ ok t
      → Step c s (Event.missed p.node) t
  time_out :
      (now node : ℕ)
      → Has node s.timers
      → Step c s (Event.timer_ended node) (suspicion_timeout now node s)
  switch :
      (sends : String → Delivery) (sus : Bool)
      → Step c s (Event.switched sus) (switch_suspicion sends sus s)
  leave : (now : ℕ) {t : Service} → leaving_node now s.server_id s ≡ ok t → Step c s Event.left t

-- The states that a sequence of events leads to.
pub data Reach (c : Config) (s : Service) : List Event → Service → Type 0 where
  here : Reach c s [] s
  next :
      {es : List Event} {e : Event} {t u : Service}
      → Reach c s es t
      → Step c t e u
      → Reach c s (e ∷ es) u

-- The datagrams of a step, and of all steps.
abbrev pub IsFairStep : {c : Config} {s t : Service} {e : Event} → Step c s e t → Type 0
IsFairStep {c} {s} (receive sends order now packet addr perm run) = IsFair c s packet
IsFairStep (tick sends to_set run) = Unit
IsFairStep (wake now p found acked run) = Unit
IsFairStep (give_up now p found acked run) = Unit
IsFairStep (time_out now node there) = Unit
IsFairStep (switch sends sus) = Unit
IsFairStep (leave now run) = Unit

abbrev pub IsFairRun : {c : Config} {s t : Service} {es : List Event} → Reach c s es t → Type 0
IsFairRun here = Unit
IsFairRun (next r st) = IsFairRun r × IsFairStep st

-- The message does not say that the node has failed.
abbrev pub Spares : ℕ → Message → Type 0
Spares n msg = is_failed msg.msg_type ≡ true → n ≢ msg.node_id

-- The event gives no reason to hold that the node has failed.
abbrev pub IsClear : ℕ → Event → Type 0
IsClear n (Event.received none) = Unit
IsClear n (Event.received (some p)) = All (Spares n) p.signal.messages
IsClear n (Event.missed node) = n ≢ node
IsClear n Event.ticked = Unit
IsClear n (Event.answered node) = Unit
IsClear n (Event.timer_ended node) = Unit
IsClear n (Event.switched sus) = Unit
IsClear n Event.left = Unit

-- Nothing at the node says that `n` has failed, and no failure of it was signalled.
pub record IsUnaccused (n : ℕ) (s : Service) : Type 0 where
  pub buffer : All (Spares n) s.buffer
  pub timers : All (λ m. n ≢ m) s.timers
  pub failed_out : All (λ m. n ≢ m) s.failed_out

-- What a step keeps: under the condition `W` a well-formed list, a mutex that is held, and, under the condition `Q`, that
-- nothing says of `n` that it has failed.
pub record Keeps (W : Type 0) (c : Config) (n : ℕ) (Q : Type 0) (s t : Service) : Type 0 where
  pub well : W → Inv c s.list → Inv c t.list
  pub held : s.locked ≡ true → t.locked ≡ true
  pub spared : Q → IsUnaccused n s → IsUnaccused n t
