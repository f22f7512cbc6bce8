-- ===== src/Witnesses/Membership.antt =====
-- The theorems on the list, the messages and the introducer at work on a small ring.
use rain_strom_distributed_s.Prelude.{
  ℕ, ◌≤◌, ◌<◌, ◌⊎◌, ◌+◌, ◌*◌, length, ◌≡◌, ◌≢◌, ◌↔◌, refl, arith, true, false, Option, some, List,
  [], ◌∷◌, Has, nat_eq,
}
use rain_strom_distributed_s.Prelude.Run.{ok}
use rain_strom_distributed_s.Config.{ring_id, server_of, get_server_id_in_ring, get_mbits_of_hash}
use rain_strom_distributed_s.Membership.Types.{Tag, Entry, Message}
use rain_strom_distributed_s.Membership.Table.{contains, get_neighbours, remove, get_index_of_node}
use rain_strom_distributed_s.Membership.Table.Neighbours.{get_neighbours-three}
use rain_strom_distributed_s.Membership.Table.View.{view, put}
use rain_strom_distributed_s.Membership.Table.Placed.{Inv}
use rain_strom_distributed_s.Membership.Conflicts.{remove_conflict_messages}
use rain_strom_distributed_s.Membership.Conflicts.Newest.{
  IsNewest, remove_conflict_messages-IsNewest,
}
use rain_strom_distributed_s.Membership.Service.{Service, Datagram, perform_all}
use rain_strom_distributed_s.Membership.Service.Actions.{effects, perform_all-effects}
use rain_strom_distributed_s.Membership.Listen.{Delivery, buffer_size, listen, admit}
use rain_strom_distributed_s.Membership.Listen.Joining.{admit_again}
use rain_strom_distributed_s.Membership.Join.{
  init_process, send_request_to_introducer, packet_of, introducer_node_id,
}
use rain_strom_distributed_s.Membership.Join.Handshake.{join_introducer}
use rain_strom_distributed_s.Witnesses.Ring.{ring, four, four-Inv, service, news}

listed : contains four 2 ≡ true
unfolding contains get_index_of_node
listed = refl

not_listed : contains four 5 ≡ false
unfolding contains get_index_of_node
not_listed = refl

get_neighbours-three_example :
    (a b c : Entry) × (get_neighbours four 2 ≡ some (a.node_id ∷ b.node_id ∷ c.node_id ∷ []))
    × (Has a four × Has b four × Has c four)
    × ((a.node_id ≢ b.node_id) × (a.node_id ≢ c.node_id) × (b.node_id ≢ c.node_id))
    × ((a.node_id ≢ 2) × (b.node_id ≢ 2) × (c.node_id ≢ 2))
get_neighbours-three_example = get_neighbours-three four 2 four-Inv.unique (omega arith) listed

abbrev gossip : List Message
gossip = news Tag.join 3 1 ∷ news Tag.failed 2 2 ∷ news Tag.failed 3 5 ∷ []

remove_conflict_messages-IsNewest_example :
    (kept : Option Message) × IsNewest 3 gossip kept
    × ((r : Message)
        → (Has r (remove_conflict_messages false (λ xs. xs) gossip) × (r.node_id ≡ 3))
          ↔ (kept ≡ some r))
remove_conflict_messages-IsNewest_example =
    remove_conflict_messages-IsNewest (λ xs. xs) (λ xs x. (λ h. h, λ h. h)) gossip 3

place_of_5 : ring_id ring 5 ≡ some 50
unfolding ring_id server_of get_server_id_in_ring get_mbits_of_hash
place_of_5 = refl

place_of_2 : ring_id ring 2 ≡ some 20
unfolding ring_id server_of get_server_id_in_ring get_mbits_of_hash
place_of_2 = refl

abbrev changes : List Message
changes = news Tag.join 5 1 ∷ news Tag.failed 2 2 ∷ []

perform_all-effects_example :
    (w : Service) × (perform_all ring 7 changes (service four false) ≡ ok w)
    × Inv ring w.list
    × ((n : ℕ) → view w.list n ≡ effects changes (view four) n)
perform_all-effects_example =
    perform_all-effects ring 7 changes (service four false)
      ((50, place_of_5), ((20, place_of_2), tt)) four-Inv

-- The length of the datagrams, with 90 bytes for an entry of a list.
abbrev size : Datagram → ℕ
size (Datagram.signal sig) = 100
size (Datagram.join_request node) = 50
size (Datagram.join_response l) = 60 + 90 * length l
size (Datagram.switch_suspicion sus) = 50

join_introducer_example :
    (asked : Service) × (w : Service) × (u : Service) × (send_request_to_introducer
        (λ a. true)
        ("a" ∷ "b" ∷ [])
        5
        introducer_node_id
        (init_process 0 ("a" ∷ []) 5)
      ≡ ok asked)
    × (asked.outbox ≡ ("b", Datagram.join_request 5) ∷ [])
    × (listen ring
          (λ a. Delivery.sent)
          (λ xs. xs)
          7
          (some (packet_of size (Datagram.join_request 5)))
          "e"
          (service four false)
        ≡ ok w)
    × (w.outbox ≡ ("e", Datagram.join_response w.list) ∷ [])
    × (w.joined_out ≡ 5 ∷ [])
    × Inv ring w.list
    × ((k : ℕ) → view w.list k ≡ put 5 Tag.active (view four) k)
    × (listen ring
          (λ a. Delivery.sent)
          (λ xs. xs)
          9
          (some (packet_of size (Datagram.join_response w.list)))
          "b"
          asked
        ≡ ok u)
    × (((size (Datagram.join_response w.list) ≤ buffer_size)
          × (u.list ≡ w.list)
          × (u.response_from_introducer ≡ true))
        ⊎ ((buffer_size < size (Datagram.join_response w.list)) × (u ≡ asked)))
join_introducer_example =
    join_introducer ring size (λ a. true) (λ a. Delivery.sent) (λ xs. xs) (λ xs. xs) 0 7 9 5 50
      ("a" ∷ []) ("a" ∷ "b" ∷ []) "b" "e" (service four false) refl refl (omega arith)
      (λ xs x. (λ h. h, λ h. h)) place_of_5 refl not_listed four-Inv

admit_again_example :
    (w : Service) × (admit ring 7 2 (service four false) ≡ ok w)
    × (contains (remove 2 w.list) 2 ≡ true)
admit_again_example = admit_again ring 7 20 2 (service four false) place_of_2 refl listed four-Inv
