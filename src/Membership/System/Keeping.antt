-- ===== src/Membership/System/Keeping.antt =====
-- The functions of the detector keep what a step keeps.
use rain_strom_distributed_s.Prelude.{
  subst, ℕ, ◌≡◌, ◌≢◌, sym, ◌∙◌, arith, true, false, [], ◌∷◌, All, All-append, Bool-cases, inl, inr,
  if◌then◌else◌,
}
use rain_strom_distributed_s.Prelude.Run.{ok}
use rain_strom_distributed_s.Config.{Config}
use rain_strom_distributed_s.Membership.Types.{Tag, message_entry}
use rain_strom_distributed_s.Membership.Table.{contains, is_suspected, rejuvenate}
use rain_strom_distributed_s.Membership.Table.Placed.{Inv, remove-Inv, SameKeys-Inv}
use rain_strom_distributed_s.Membership.Table.Keys.{update-SameKeys, rejuvenate-SameKeys}
use rain_strom_distributed_s.Membership.Service.{Service, fail_node}
use rain_strom_distributed_s.Membership.Detector.{
  suspicion_timeout, leaving_node, mark_node_alive, mark_node_failed, mark_failed_held, unlock, say,
  lock,
}
use rain_strom_distributed_s.Membership.System.{Spares, IsUnaccused, Keeps}

module _ (W : Type 0) (c : Config) (n : ℕ) where
  pub Keeps-refl : {Q : Type 0} (s : Service) → Keeps W c n Q s s
  Keeps-refl s = record { well = λ o v. v; held = λ h. h; spared = λ q u. u }

  pub Keeps-trans :
      {Q : Type 0} {s t u : Service} → Keeps W c n Q s t → Keeps W c n Q t u → Keeps W c n Q s u
  Keeps-trans k l = record {
    well = λ o v. l.well o (k.well o v);
    held = λ h. l.held (k.held h);
    spared = λ q u. l.spared q (k.spared q u);
  }

  -- A call that has the mutex was not made while it is held.
  lock-free : (s held : Service) → lock s ≡ ok held → s.locked ≡ false
  unfolding lock
  lock-free s held e = ground arith

  pub fail_node-Keeps :
      (Q : Type 0) (node : ℕ) (s : Service) → (Q → n ≢ node) → Keeps W c n Q s (fail_node node s)
  unfolding fail_node
  fail_node-Keeps Q node s h = record {
    well = λ o v. remove-Inv c node s.list v;
    held = λ l. l;
    spared = λ q u. record {
      buffer = u.buffer;
      timers = u.timers;
      failed_out = elim (Bool-cases (contains s.list node)) [
        | inr z ↦ rw z u.failed_out
        | inl z ↦ rw z (All-append (λ m. n ≢ m) s.failed_out (node ∷ []) u.failed_out (h q, tt))
      ];
    };
  }

  mark_failed_held-Keeps :
      (Q : Type 0) (now node : ℕ) (s : Service)
      → (Q → n ≢ node)
      → (W → Inv c s.list → Inv c (mark_failed_held now node s).list)
        × (Q → IsUnaccused n s → IsUnaccused n (mark_failed_held now node s))
  unfolding mark_failed_held
  mark_failed_held-Keeps Q now node s h = elim (Bool-cases s.suspicion) [
    | inr off ↦
        let k = fail_node-Keeps Q node s h in
        (
          λ o v. rw (off, mark_failed_held) (k.well o v),
          λ q u.
              let w = k.spared q u in
              rw (off, mark_failed_held)
                (record {
                  buffer = All-append (Spares n) s.buffer (_ ∷ []) w.buffer ((λ _. h q), tt);
                  timers = w.timers;
                  failed_out = w.failed_out;
                }),
        )
    | inl on ↦ elim (Bool-cases (is_suspected s.list node)) [
      | inl sus ↦ (
        λ o v. rw (on, sus, mark_failed_held) v,
        λ q u.
            rw (on, sus, mark_failed_held)
              (record { buffer = u.buffer; timers = u.timers; failed_out = u.failed_out }),
      )
      | inr new ↦ (
        λ o v.
            rw (on, new, mark_failed_held)
              (SameKeys-Inv c s.list _ (update-SameKeys node Tag.suspected s.list) v),
        λ q u.
            rw (on, new, mark_failed_held)
              (record {
                buffer =
                    All-append (Spares n) s.buffer (message_entry now Tag.suspected node ∷ [])
                      u.buffer ((λ e. absurd (cc)), tt);
                timers = All-append (λ m. n ≢ m) s.timers (node ∷ []) u.timers (h q, tt);
                failed_out = u.failed_out;
              }),
      )
    ]
  ]

  pub mark_node_failed-Keeps :
      (Q : Type 0) (now node : ℕ) (s : Service) {t : Service}
      → (Q → n ≢ node)
      → mark_node_failed now node s ≡ ok t
      → Keeps W c n Q s t
  unfolding mark_node_failed
  mark_node_failed-Keeps Q now node s {t} h e = elim (Bool-cases s.locked) [
    | inl z ↦ absurd (cc (rw (mark_node_failed, z) at e))
    | inr z ↦
        let held : Service = record s { locked = true } in
        let k = mark_failed_held-Keeps Q now node held h in
        let run : mark_failed_held now node held ≡ t = cc (rw (mark_node_failed, z) at e) in
        record {
          well = λ o v. rw (← run) (k.0 o v);
          held = λ l. absurd (cc);
          spared = λ q u.
              rw (← run) (
                k.1 q (record { buffer = u.buffer; timers = u.timers; failed_out = u.failed_out }));
        }
  ]

  pub mark_node_alive-Keeps :
      (Q : Type 0) (now node : ℕ) (s : Service) {t : Service}
      → mark_node_alive now node s ≡ ok t
      → Keeps W c n Q s t
  unfolding mark_node_alive
  mark_node_alive-Keeps Q now node s {t} e = elim (Bool-cases s.locked) [
    | inl z ↦ absurd (cc (rw (mark_node_alive, z) at e))
    | inr z ↦
        let held : Service = record s { locked = true } in
        let after : Service = unlock (
          if is_suspected s.list node
          then record (say now Tag.active node held) { list = rejuvenate now node s.list }
          else held) in
        let run : after ≡ t = cc (rw (mark_node_alive, z) at e) in
        let k : Keeps W c n Q s after = elim (Bool-cases (is_suspected s.list node)) [
          | inr no_sus ↦ record {
            well = λ o v. rw no_sus v;
            held = λ l. absurd (cc);
            spared = λ q u. record {
              buffer = rw no_sus u.buffer;
              timers = rw no_sus u.timers;
              failed_out = rw no_sus u.failed_out;
            };
          }
          | inl sus ↦ record {
            well = λ o v. rw sus (SameKeys-Inv c s.list _ (rejuvenate-SameKeys now node s.list) v);
            held = λ l. absurd (cc);
            spared = λ q u. record {
              buffer = rw sus (
                  All-append (Spares n) s.buffer (message_entry now Tag.active node ∷ []) u.buffer
                    ((λ x. absurd (cc)), tt));
              timers = rw sus u.timers;
              failed_out = rw sus u.failed_out;
            };
          }
        ] in
        subst (λ w. Keeps W c n Q s w) run k
  ]

  -- A state with the same list, mutex, buffer, timers and signals.
  pub same-Keeps :
      (Q : Type 0) (s t : Service)
      → t.list ≡ s.list
      → t.locked ≡ s.locked
      → t.buffer ≡ s.buffer
      → t.timers ≡ s.timers
      → t.failed_out ≡ s.failed_out
      → Keeps W c n Q s t
  same-Keeps Q s t l k b m f = record {
    well = λ o v. subst (Inv c) (sym l) v;
    held = λ h. k ∙ h;
    spared = λ q u. record {
      buffer = subst (All (Spares n)) (sym b) u.buffer;
      timers = subst (All (λ j. n ≢ j)) (sym m) u.timers;
      failed_out = subst (All (λ j. n ≢ j)) (sym f) u.failed_out;
    };
  }

  pub leaving_node-Keeps :
      (Q : Type 0) (now node : ℕ) (s : Service) {t : Service}
      → leaving_node now node s ≡ ok t
      → Keeps W c n Q s t
  unfolding leaving_node
  leaving_node-Keeps Q now node s {t} e = elim (Bool-cases s.locked) [
    | inl z ↦ absurd (cc (rw (leaving_node, z) at e))
    | inr z ↦
        let after : Service = unlock (say now Tag.left node (record s { locked = true })) in
        let run : after ≡ t = cc (rw (leaving_node, z) at e) in
        let k : Keeps W c n Q s after = record {
          well = λ o v. v;
          held = λ l. absurd (cc);
          spared = λ q u. record {
            buffer =
                All-append (Spares n) s.buffer (message_entry now Tag.left node ∷ []) u.buffer
                  ((λ x. absurd (cc)), tt);
            timers = u.timers;
            failed_out = u.failed_out;
          };
        } in
        subst (λ w. Keeps W c n Q s w) run k
  ]

  -- The timer fails its node only; with `Q` that is another one.
  pub suspicion_timeout-Keeps :
      (Q : Type 0) (now node : ℕ) (s : Service)
      → (Q → IsUnaccused n s → n ≢ node)
      → Keeps W c n Q s (suspicion_timeout now node s)
  unfolding suspicion_timeout
  suspicion_timeout-Keeps Q now node s h = elim (Bool-cases (is_suspected s.list node)) [
    | inr z ↦ record {
      well = λ o v. rw (suspicion_timeout, z) v;
      held = λ l. rw (suspicion_timeout, z) l;
      spared = λ q u. rw (suspicion_timeout, z) u;
    }
    | inl z ↦
        let said : Service = say now Tag.failed node s in
        let k = fail_node-Keeps (n ≢ node) node said (λ x. x) in
        record {
          well = λ o v. rw (suspicion_timeout, z) (k.well o v);
          held = λ l. rw (suspicion_timeout, z) (k.held l);
          spared = λ q u.
              rw (suspicion_timeout, z)
                (k.spared (h q u) (record {
                  buffer =
                      All-append (Spares n) s.buffer (message_entry now Tag.failed node ∷ [])
                        u.buffer ((λ x. h q u), tt);
                  timers = u.timers;
                  failed_out = u.failed_out;
                }));
        }
  ]
