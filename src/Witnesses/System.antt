-- ===== src/Witnesses/System.antt =====
-- A run of the goroutines of node 1: a signal with a FAIL message about node 3 comes in, suspicion
-- is switched on, and the node says that it leaves.
use rain_strom_distributed_s.Prelude.{
  insert, ◌≡◌, refl, arith, true, false, some, List, [], ◌∷◌, All, lookup, nat_eq,
}
use rain_strom_distributed_s.Prelude.Run.{ok, blocked}
use rain_strom_distributed_s.Membership.Types.{Tag, SignalType}
use rain_strom_distributed_s.Membership.Table.{is_suspected, contains, get_index_of_node}
use rain_strom_distributed_s.Membership.Table.Placed.{Inv}
use rain_strom_distributed_s.Membership.Service.{Service, perform_action_on_message}
use rain_strom_distributed_s.Membership.Detector.{mark_node_failed, mark_node_alive, leaving_node}
use rain_strom_distributed_s.Membership.Listen.{
  Packet, Delivery, listen, read_buffer, switch_suspicion,
}
use rain_strom_distributed_s.Membership.System.{
  Event, Step, Reach, receive, switch, leave, here, next, IsClear, IsUnaccused, IsFairRun,
}
use rain_strom_distributed_s.Membership.System.Always.{
  Reach-Inv, Reach-IsUnaccused, second_suspicion-for_ever,
}
use rain_strom_distributed_s.Witnesses.Ring.{ring, four, one_suspected, four-Inv, service, news}

abbrev news_of_3 : Packet
news_of_3 = record {
  size = 150;
  msg_type = Tag.other;
  node_id = 0;
  init_membership_list = [];
  switch_suspicion = false;
  signal = record {
    signal_type = SignalType.ping;
    target_node_id = 1;
    messages = news Tag.failed 3 5 ∷ [];
  };
}

abbrev start : Service
start = service four false

abbrev events : List Event
events = Event.left ∷ Event.switched true ∷ Event.received (some news_of_3) ∷ []

after_signal : (t : Service) × Step ring start (Event.received (some news_of_3)) t
unfolding listen read_buffer lookup contains get_index_of_node insert perform_action_on_message
after_signal = (
  _,
  receive (λ a. Delivery.sent) (λ l. l) 7 (some news_of_3) "b" (λ xs x. ((λ h. h), (λ h. h))) refl,
)

run : (t : Service) × Reach ring start events t
unfolding after_signal switch_suspicion leaving_node
run = (_, next (next (next here after_signal.1) (switch (λ a. Delivery.sent) true)) (leave 9 refl))

run-IsFairRun : IsFairRun run.1
unfolding after_signal run
run-IsFairRun = (((tt, ((λ h. absurd (cc)), (λ h. absurd (cc)))), tt), tt)

Reach-Inv_example : Inv ring run.0.list
Reach-Inv_example = Reach-Inv run.1 run-IsFairRun four-Inv

spared : All (IsClear 2) events
spared = (tt, (tt, (((λ h e. omega (arith, e)), tt), tt)))

Reach-IsUnaccused_example : IsUnaccused 2 run.0
Reach-IsUnaccused_example =
    Reach-IsUnaccused 2 run.1 spared (record { buffer = tt; timers = tt; failed_out = tt })

abbrev stuck : Service
stuck = service one_suspected true

is_suspected_2 : is_suspected one_suspected 2 ≡ true
unfolding is_suspected
is_suspected_2 = refl

waiting : (u : Service) × Reach ring (record stuck { locked = true }) (Event.switched false ∷ []) u
unfolding switch_suspicion
waiting = (_, next here (switch (λ a. Delivery.sent) false))

second_suspicion-for_ever_example :
    (mark_node_failed 9 2 stuck ≡ ok (record stuck { locked = true }))
    × (mark_node_failed 11 3 waiting.0 ≡ blocked)
    × (mark_node_alive 11 3 waiting.0 ≡ blocked)
    × (leaving_node 11 3 waiting.0 ≡ blocked)
second_suspicion-for_ever_example =
    second_suspicion-for_ever 9 2 stuck waiting.0 refl refl is_suspected_2 waiting.1 11 3
