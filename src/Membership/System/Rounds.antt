-- ===== src/Membership/System/Rounds.antt =====
-- A round of `listenUdpSignals` keeps what a step keeps.
use rain_strom_distributed_s.Prelude.{
  leb, ℕ, ◌≡◌, refl, sym, ap, ◌∙◌, subst, Bool, true, false, Option, none, some, List, [], ◌∷◌,
  String, Has, All, All-append, Bool-cases, Option-cases, inl, inr, ◌↔◌, lookup, nat_eq, ◌⊎◌,
}
use rain_strom_distributed_s.Prelude.Run.{◌>>=◌, ok, or_panic, >>=-eq-ok, ok-injective}
use rain_strom_distributed_s.Config.{Config, ring_id}
use rain_strom_distributed_s.Membership.Types.{
  Tag, Entry, Message, Signal, SignalType, message_entry,
}
use rain_strom_distributed_s.Membership.Table.{contains, add_or_update, membership_entry}
use rain_strom_distributed_s.Membership.Table.Order.{add-eq-insert}
use rain_strom_distributed_s.Membership.Table.Keys.{contains-Absent, update-SameKeys}
use rain_strom_distributed_s.Membership.Table.Placed.{
  Inv, insert-Inv, remove-Inv, SameKeys-Inv, add_or_update-Inv, add_or_update-ring_id,
}
use rain_strom_distributed_s.Membership.Service.{
  Service, perform, perform_action_on_message, perform_all,
}
use rain_strom_distributed_s.Membership.Gossip.{
  process_signal, take_in, respond, receive_ack, get_index_from_addr, is_waiting,
}
use rain_strom_distributed_s.Membership.Listen.{
  Packet, Delivery, buffer_size, read_buffer, listen, answer, admit, admitted,
  is_request_to_introducer, is_response_from_introducer, is_join_request, is_join_response,
  is_switch, switch_suspicion, bool_eq, process_switch_suspicion_signal_request,
}
use rain_strom_distributed_s.Membership.System.{Event, IsClear, IsFair, Spares, IsUnaccused, Keeps}
use rain_strom_distributed_s.Membership.System.Keeping.{
  Keeps-refl, Keeps-trans, same-Keeps, fail_node-Keeps,
}
use rain_strom_distributed_s.Membership.System.Filters.{
  remove_msg-Inv, remove_msg-All, remove_conflict_messages-All,
}

module _ (W : Type 0) (c : Config) (n : ℕ) where
  -- A change of the list alone.
  list-Keeps :
      (Q : Type 0) (s t : Service)
      → (Inv c s.list → Inv c t.list)
      → t ≡ record s { list = t.list }
      → Keeps W c n Q s t
  list-Keeps Q s t w e = record {
    well = λ o. w;
    held = λ h. ap (λ z. z.locked) e ∙ h;
    spared = λ q u.
        subst (IsUnaccused n) (sym e)
          (record { buffer = u.buffer; timers = u.timers; failed_out = u.failed_out });
  }

  add_or_update-Keeps :
      (Q : Type 0) (now : ℕ) (msg : Message) (s : Service) {t : Service}
      → (msg.msg_type ≡ Tag.join) ⊎ (msg.msg_type ≡ Tag.active)
      → (or_panic (add_or_update c now msg s.list) >>= (λ l. ok (record s { list = l }))) ≡ ok t
      → Keeps W c n Q s t
  add_or_update-Keeps Q now msg s {t} k e = elim (Option-cases (add_or_update c now msg s.list)) [
    | inl z ↦ absurd (cc (rw z at e))
    | inr (l, z) ↦
        let run : record s { list = l } ≡ t = cc (rw z at e) in
        let well : Inv c s.list → Inv c l = λ v.
          let (p, r) = add_or_update-ring_id c now msg s.list l v z in
          let (w, f, i, views) = add_or_update-Inv c now p msg s.list r k v in
          let same : w ≡ l = cc in subst (Inv c) same i in
        subst (λ w. Keeps W c n Q s w) run (list-Keeps Q s _ well refl)
  ]

  perform-Keeps :
      (k : Tag) (now : ℕ) (msg : Message) (s : Service) {t : Service}
      → msg.msg_type ≡ k
      → perform k c now msg s ≡ ok t
      → Keeps W c n (Spares n msg) s t
  unfolding perform
  perform-Keeps Tag.failed now msg s k e =
      subst (λ w. Keeps W c n (Spares n msg) s w) (ok-injective e)
        (fail_node-Keeps W c n (Spares n msg) msg.node_id s (λ q. q (rw k refl)))
  perform-Keeps Tag.join now msg s k e = add_or_update-Keeps (Spares n msg) now msg s (inl k) e
  perform-Keeps Tag.active now msg s k e = add_or_update-Keeps (Spares n msg) now msg s (inr k) e
  perform-Keeps Tag.left now msg s k e =
      subst (λ w. Keeps W c n (Spares n msg) s w) (ok-injective e)
        (list-Keeps (Spares n msg) s _ (λ v. remove-Inv c msg.node_id s.list v) refl)
  perform-Keeps Tag.suspected now msg s k e =
      subst (λ w. Keeps W c n (Spares n msg) s w) (ok-injective e)
        (list-Keeps (Spares n msg) s _
          (λ v. SameKeys-Inv c s.list _ (update-SameKeys msg.node_id Tag.suspected s.list) v) refl)
  perform-Keeps _ now msg s k e =
      subst (λ w. Keeps W c n (Spares n msg) s w) (ok-injective e) (Keeps-refl W c n s)

  perform_all-Keeps :
      (now : ℕ) (msgs : List Message) (s : Service) {t : Service}
      → perform_all c now msgs s ≡ ok t
      → Keeps W c n (All (Spares n) msgs) s t
  unfolding perform_all perform_action_on_message
  perform_all-Keeps now [] s e =
      subst (λ w. Keeps W c n Unit s w) (ok-injective e) (Keeps-refl W c n s)
  perform_all-Keeps now (msg ∷ msgs) s e =
      let (s', a, run) = >>=-eq-ok (perform msg.msg_type c now msg s) _ e in
      let k = perform-Keeps msg.msg_type now msg s refl a in
      let l = perform_all-Keeps now msgs s' run in
      record {
        well = λ o v. l.well o (k.well o v);
        held = λ h. l.held (k.held h);
        spared = λ q u. l.spared q.1 (k.spared q.0 u);
      }

  take_in-Keeps :
      (order : List Message → List Message) (msgs : List Message) (s : Service)
      → ((xs : List Message) (x : Message) → Has x (order xs) ↔ Has x xs)
      → Keeps W c n (All (Spares n) msgs) s (take_in order msgs s)
  unfolding take_in
  take_in-Keeps order msgs s perm = record {
    well = λ o v. remove_msg-Inv c msgs s.list v;
    held = λ h. h;
    spared = λ q u. record {
      buffer =
          remove_conflict_messages-All (Spares n) s.suspicion order _ perm
            (All-append (Spares n) s.buffer _ u.buffer (remove_msg-All (Spares n) msgs s.list q));
      timers = u.timers;
      failed_out = u.failed_out;
    };
  }

  receive_ack-Keeps :
      (Q : Type 0) (node : Option ℕ) (s : Service) {t : Service}
      → receive_ack node s ≡ ok t
      → Keeps W c n Q s t
  unfolding receive_ack
  receive_ack-Keeps Q none s e =
      subst (λ w. Keeps W c n Q s w) (ok-injective e) (Keeps-refl W c n s)
  receive_ack-Keeps Q (some node) s e = elim (Option-cases (lookup node s.ack_chan_map)) [
    | inl z ↦
        subst (λ w. Keeps W c n Q s w) (ok-injective (rw (receive_ack, z) at e))
          (Keeps-refl W c n s)
    | inr (info, z) ↦ elim (Bool-cases (is_waiting info.chan s.pings)) [
      | inr no_one ↦ absurd (cc (rw (receive_ack, z, no_one) at e))
      | inl there ↦
          subst (λ w. Keeps W c n Q s w) (ok-injective (rw (receive_ack, z, there) at e))
            (same-Keeps W c n Q s _ refl refl refl refl refl)
    ]
  ]

  respond-Keeps :
      (Q : Type 0) (k : SignalType) (addr : String) (s : Service) {t : Service}
      → respond k addr s ≡ ok t
      → Keeps W c n Q s t
  unfolding respond
  respond-Keeps Q SignalType.ping addr s e =
      subst (λ w. Keeps W c n Q s w) (ok-injective e)
        (same-Keeps W c n Q s _ refl refl refl refl refl)
  respond-Keeps Q SignalType.ack addr s e =
      receive_ack-Keeps Q (get_index_from_addr s.servers addr 0) s e
  respond-Keeps Q SignalType.unknown addr s e =
      subst (λ w. Keeps W c n Q s w) (ok-injective e) (Keeps-refl W c n s)

  -- The buffer is performed at the end: what it says of `n` was checked on the way in.
  process_signal-Keeps :
      (order : List Message → List Message) (now : ℕ) (signal : Signal) (addr : String)
      (s : Service) {t : Service}
      → ((xs : List Message) (x : Message) → Has x (order xs) ↔ Has x xs)
      → process_signal c order now signal addr s ≡ ok t
      → Keeps W c n (All (Spares n) signal.messages) s t
  unfolding process_signal
  process_signal-Keeps order now signal addr s perm e =
      let (s', a, run) =
        >>=-eq-ok (respond signal.signal_type addr (take_in order signal.messages s)) _ e in
      let k =
        Keeps-trans W c n (take_in-Keeps order signal.messages s perm)
          (respond-Keeps (All (Spares n) signal.messages) signal.signal_type addr _ a) in
      let l = perform_all-Keeps now s'.buffer s' run in
      record {
        well = λ o v. l.well o (k.well o v);
        held = λ h. l.held (k.held h);
        spared = λ q u. let w = k.spared q u in l.spared w.buffer w;
      }

  -- The introducer lists a node that was not listed.
  admit-Keeps :
      (Q : Type 0) (now node : ℕ) (s : Service) {t : Service}
      → (W → contains s.list node ≡ false)
      → admit c now node s ≡ ok t
      → Keeps W c n Q s t
  unfolding admit
  admit-Keeps Q now node s {t} new e = elim (Bool-cases s.locked) [
    | inl z ↦ absurd (cc (rw (admit, z) at e))
    | inr z ↦ elim (Option-cases (ring_id c node)) [
      | inl r ↦ absurd (cc (rw (admit, z, r) at e))
      | inr (place, r) ↦
          let x : Entry = membership_entry now node Tag.active place in
          let after : Service = admitted now place node (record s { locked = false }) in
          let run : after ≡ t = cc (rw (admit, z, r) at e) in
          let k : Keeps W c n Q s after = record {
            well = λ o v.
                subst (Inv c) (sym (add-eq-insert x s.list v.sorted))
                  (insert-Inv c x s.list r (contains-Absent s.list node (new o)) v);
            held = λ h. absurd (cc);
            spared = λ q u. record {
              buffer =
                  All-append (Spares n) s.buffer (message_entry now Tag.join node ∷ []) u.buffer
                    ((λ y. absurd (cc)), tt);
              timers = u.timers;
              failed_out = u.failed_out;
            };
          } in
          subst (λ w. Keeps W c n Q s w) run k
    ]
  ]

  pub switch_suspicion-Keeps :
      (Q : Type 0) (sends : String → Delivery) (sus : Bool) (s : Service)
      → Keeps W c n Q s (switch_suspicion sends sus s)
  unfolding switch_suspicion
  switch_suspicion-Keeps Q sends sus s = elim (Bool-cases (bool_eq sus s.suspicion)) [
    | inl z ↦ rw (switch_suspicion, z) (Keeps-refl W c n s)
    | inr z ↦ rw (switch_suspicion, z) (same-Keeps W c n Q s _ refl refl refl refl refl)
  ]

  request : (t : Tag) → is_join_request t ≡ true → t ≡ Tag.join_request
  request Tag.join_request h = refl
  request _ h = absurd (cc)

  response : (t : Tag) → is_join_response t ≡ true → t ≡ Tag.join_response
  response Tag.join_response h = refl
  response _ h = absurd (cc)

  response-Keeps :
      (Q : Type 0) (p : Packet) (s : Service)
      → (W → IsFair c s (some p))
      → Keeps W c n Q s (is_response_from_introducer (some p) s)
  unfolding is_response_from_introducer
  response-Keeps Q p s fair = elim (Bool-cases (is_join_response p.msg_type)) [
    | inr z ↦ rw (is_response_from_introducer, z) (Keeps-refl W c n s)
    | inl z ↦
        rw (is_response_from_introducer, z)
          (record {
            well = λ o v. (fair o).1 (response p.msg_type z);
            held = λ h. h;
            spared =
                λ q u. record { buffer = u.buffer; timers = u.timers; failed_out = u.failed_out };
          })
  ]

  switch_request-Keeps :
      (Q : Type 0) (sends : String → Delivery) (packet : Option Packet) (s : Service)
      → Keeps W c n Q s (process_switch_suspicion_signal_request sends packet s)
  unfolding process_switch_suspicion_signal_request
  switch_request-Keeps Q sends none s = Keeps-refl W c n s
  switch_request-Keeps Q sends (some p) s = elim (Bool-cases (is_switch p.msg_type)) [
    | inr z ↦ rw (process_switch_suspicion_signal_request, z) (Keeps-refl W c n s)
    | inl z ↦
        rw (process_switch_suspicion_signal_request, z)
          (switch_suspicion-Keeps Q sends p.switch_suspicion s)
  ]

  answer-none-Keeps :
      (sends : String → Delivery) (order : List Message → List Message) (now : ℕ) (addr : String)
      (s : Service) {t : Service}
      → answer false c sends order now none addr s ≡ ok t
      → (Q : Type 0) → Keeps W c n Q s t
  unfolding answer
  answer-none-Keeps sends order now addr s e Q =
      subst (λ w. Keeps W c n Q s w) (ok-injective e) (switch_request-Keeps Q sends none s)

  -- A datagram that the buffer holds.
  answer-Keeps :
      (sends : String → Delivery) (order : List Message → List Message) (now : ℕ) (p : Packet)
      (addr : String) (s : Service) {t : Service}
      → ((xs : List Message) (x : Message) → Has x (order xs) ↔ Has x xs)
      → (W → IsFair c s (some p))
      → (is_request_to_introducer c now (some p) s
          >>= (λ r. answer r.0 c sends order now (some p) addr r.1))
        ≡ ok t
      → Keeps W c n (All (Spares n) p.signal.messages) s t
  unfolding is_request_to_introducer answer
  answer-Keeps sends order now p addr s {t} perm fair e =
      let Q : Type 0 = All (Spares n) p.signal.messages in
      elim (Bool-cases (is_join_request p.msg_type)) [
        | inl z ↦
            let (r, a, run) =
              >>=-eq-ok (admit c now p.node_id s >>= (λ w. ok (true, w))) _ (rw z at e) in
            let (s', b, got) = >>=-eq-ok (admit c now p.node_id s) _ a in
            let sent : answer true c sends order now (some p) addr s' ≡ ok t =
              subst (λ w. answer w.0 c sends order now (some p) addr w.1 ≡ ok t)
                (sym (ok-injective got)) run in
            Keeps-trans W c n
              (admit-Keeps Q now p.node_id s (λ o. (fair o).0 (request p.msg_type z)) b)
              (subst (λ w. Keeps W c n Q s' w) (ok-injective sent)
                (same-Keeps W c n Q s' _ refl refl refl refl refl))
        | inr z ↦
            let run = rw z at e in
            Keeps-trans W c n (response-Keeps Q p s fair) (
              Keeps-trans W c n (switch_request-Keeps Q sends (some p) _)
                (process_signal-Keeps order now p.signal addr _ perm run))
      ]

  pub listen-Keeps :
      (sends : String → Delivery) (order : List Message → List Message) (now : ℕ)
      (packet : Option Packet) (addr : String) (s : Service) {t : Service}
      → ((xs : List Message) (x : Message) → Has x (order xs) ↔ Has x xs)
      → (W → IsFair c s packet)
      → listen c sends order now packet addr s ≡ ok t
      → Keeps W c n (IsClear n (Event.received packet)) s t
  unfolding listen is_request_to_introducer read_buffer
  listen-Keeps sends order now none addr s perm fair e =
      answer-none-Keeps sends order now addr s e Unit
  listen-Keeps sends order now (some p) addr s perm fair e =
      elim (Bool-cases (leb p.size buffer_size)) [
        | inl z ↦ answer-Keeps sends order now p addr s perm fair (rw (z, listen) at e)
        | inr z ↦
            answer-none-Keeps sends order now addr s (rw (z, listen) at e)
              (All (Spares n) p.signal.messages)
      ]
