-- ===== src/Membership/Join/Handshake.antt =====
-- A new node and the introducer together.
use rain_strom_distributed_s.Prelude.{
  ℕ, ◌≤◌, ◌<◌, leb, arith, ◌⊎◌, Bool-cases, inr, ◌≡◌, ◌↔◌, refl, ap, ◌∙◌, Bool, true, false, some,
  List, [], ◌∷◌, ◌++◌, String, Has, get_elem?, inl,
}
use rain_strom_distributed_s.Prelude.Run.{ok}
use rain_strom_distributed_s.Config.{Config, ring_id}
use rain_strom_distributed_s.Membership.Types.{Tag, Message, MembershipList}
use rain_strom_distributed_s.Membership.Table.{contains}
use rain_strom_distributed_s.Membership.Table.View.{view, put}
use rain_strom_distributed_s.Membership.Table.Placed.{Inv}
use rain_strom_distributed_s.Membership.Conflicts.{remove_conflict_messages, latest_messages}
use rain_strom_distributed_s.Membership.Gossip.{
  process_signal, take_in, respond, remove_msg_if_no_action_needed,
}
use rain_strom_distributed_s.Membership.Service.{Service, Datagram, perform_all}
use rain_strom_distributed_s.Membership.Listen.{
  Delivery, buffer_size, read_buffer, listen, answer, is_request_to_introducer,
  is_response_from_introducer, process_switch_suspicion_signal_request,
}
use rain_strom_distributed_s.Membership.Listen.Joining.{listen-join}
use rain_strom_distributed_s.Membership.Join.{
  init_process, send_request_to_introducer, packet_of, introducer_node_id,
}

-- The order of a map: each element once, wherever.
abbrev pub IsOrder : (List Message → List Message) → Type 0
IsOrder order = (xs : List Message) (x : Message) → Has x (order xs) ↔ Has x xs

order-nil : (order : List Message → List Message) → IsOrder order → order [] ≡ []
order-nil order h = go (order []) (λ x w. (h [] x).0 w)
  where
    go : (xs : List Message) → ((x : Message) → Has x xs → ⊥) → xs ≡ []
    go [] f = refl
    go (x ∷ xs) f = absurd (f x (inl refl))

-- A node with nothing to spread takes the list of a response that fits its buffer, and does nothing
-- else.
listen-response :
    (c : Config) (size : Datagram → ℕ) (sends : String → Delivery)
    (order : List Message → List Message) (now : ℕ) (l : MembershipList) (addr : String)
    (s : Service)
    → IsOrder order
    → s.buffer ≡ []
    → leb (size (Datagram.join_response l)) buffer_size ≡ true
    → (u : Service) × (listen c sends order now
          (some (packet_of size (Datagram.join_response l)))
          addr
          s
        ≡ ok u)
      × (u.list ≡ l)
      × (u.response_from_introducer ≡ true)
unfolding listen answer is_request_to_introducer is_response_from_introducer packet_of
    process_signal process_switch_suspicion_signal_request take_in respond perform_all
    remove_conflict_messages latest_messages remove_msg_if_no_action_needed read_buffer
listen-response c size sends order now l addr s h e fits =
    let u = take_in order [] (record s { list = l; response_from_introducer = true }) in
    let none_kept : remove_conflict_messages s.suspicion order (s.buffer ++ []) ≡ [] =
      ap (λ b. remove_conflict_messages s.suspicion order (b ++ [])) e ∙ order-nil order h in
    (u, rw (fits, listen) (ap (λ m. perform_all c now m u) none_kept), refl, refl)

-- A response that is longer is no JSON to it, and changes nothing.
listen-long :
    (c : Config) (size : Datagram → ℕ) (sends : String → Delivery)
    (order : List Message → List Message) (now : ℕ) (l : MembershipList) (addr : String)
    (s : Service)
    → leb (size (Datagram.join_response l)) buffer_size ≡ false
    → listen c sends order now (some (packet_of size (Datagram.join_response l))) addr s ≡ ok s
unfolding listen answer is_request_to_introducer is_response_from_introducer packet_of
    process_switch_suspicion_signal_request read_buffer
listen-long c size sends order now l addr s long = rw (long, listen) refl

-- A configured node `n`, started with nothing to spread, asks the introducer to join; the datagrams
-- arrive, the request fits the buffer, the mutex of the introducer is free, its list is well formed
-- and does not have the node. Then the request goes to the address of the introducer, which answers
-- it and signals the join; its list stays well formed, with the new node as active and every other
-- node as before. If the answer fits the buffer of 1024 bytes, the new node takes it for its list, so
-- that the two lists are the same. A longer answer leaves the new node as it was, though the
-- introducer has it on its list.
pub join_introducer :
    (c : Config) (size : Datagram → ℕ) (tries : String → Bool) (sends : String → Delivery)
    (order order' : List Message → List Message) (start now later n place : ℕ)
    (servers all_servers : List String) (at from : String) (b : Service)
    → get_elem? all_servers 1 ≡ some at
    → tries at ≡ true
    → size (Datagram.join_request n) ≤ buffer_size
    → IsOrder order'
    → ring_id c n ≡ some place
    → b.locked ≡ false
    → contains b.list n ≡ false
    → Inv c b.list
    → (asked : Service) × (w : Service) × (u : Service) × (send_request_to_introducer tries
          all_servers n introducer_node_id
          (init_process start servers n)
        ≡ ok asked)
      × (asked.outbox ≡ (at, Datagram.join_request n) ∷ [])
      × (listen c sends order now (some (packet_of size (Datagram.join_request n))) from b ≡ ok w)
      × (w.outbox ≡ b.outbox ++ (from, Datagram.join_response w.list) ∷ [])
      × (w.joined_out ≡ b.joined_out ++ n ∷ [])
      × Inv c w.list
      × ((k : ℕ) → view w.list k ≡ put n Tag.active (view b.list) k)
      × (listen c sends order' later
            (some (packet_of size (Datagram.join_response w.list)))
            at
            asked
          ≡ ok u)
      × (((size (Datagram.join_response w.list) ≤ buffer_size)
            × (u.list ≡ w.list)
            × (u.response_from_introducer ≡ true))
          ⊎ ((buffer_size < size (Datagram.join_response w.list)) × (u ≡ asked)))
unfolding send_request_to_introducer init_process packet_of
join_introducer c size tries sends order order' start now later n place servers all_servers at from
      b e s r o t h new v =
    let asked = record (init_process start servers n) {
      outbox = (at, Datagram.join_request n) ∷ [];
    } in
    let (w, run, well, views, joined, out) =
      listen-join c sends order now place (packet_of size (Datagram.join_request n)) from b r refl t
        h new v in
    elim (Bool-cases (leb (size (Datagram.join_response w.list)) buffer_size)) [
      | inl z ↦
          let (u, run', lists, got) =
            listen-response c size sends order' later w.list at asked o refl z in
          (
            asked,
            w,
            u,
            rw (send_request_to_introducer, e, s) refl,
            refl,
            run,
            out,
            joined,
            well,
            views,
            run',
            inl (ground arith, lists, got),
          )
      | inr z ↦
          let run' = listen-long c size sends order' later w.list at asked z in
          (
            asked,
            w,
            asked,
            rw (send_request_to_introducer, e, s) refl,
            refl,
            run,
            out,
            joined,
            well,
            views,
            run',
            inr (ground arith, refl),
          )
    ]
