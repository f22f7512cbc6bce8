-- ===== src/Membership/System/Pings.antt =====
-- The pings of the detector, sent and answered, keep what a step keeps.
use rain_strom_distributed_s.Prelude.{
  subst, ℕ, zero, suc, ◌≡◌, ◌≢◌, refl, Bool, false, some, List, [], ◌∷◌, String, Bool-cases, inl,
  inr, ◌==◌, get_elem?,
}
use rain_strom_distributed_s.Prelude.Run.{ok-injective, >>=-eq-ok, ok, or_panic}
use rain_strom_distributed_s.Config.{Config}
use rain_strom_distributed_s.Membership.Types.{Message}
use rain_strom_distributed_s.Membership.Table.{get_neighbours}
use rain_strom_distributed_s.Membership.Service.{Service, Ping}
use rain_strom_distributed_s.Membership.Detector.{
  find_ping, end_ping, ping_wakes, send_signals, ping_node, start_ping, ping_all,
}
use rain_strom_distributed_s.Membership.System.{Keeps}
use rain_strom_distributed_s.Membership.System.Keeping.{
  Keeps-refl, Keeps-trans, same-Keeps, mark_node_alive-Keeps, mark_node_failed-Keeps,
}

module _ (W : Type 0) (c : Config) (n : ℕ) where
  pub ping_wakes-Keeps :
      (Q : Type 0) (now : ℕ) (p : Ping) (s : Service) {t : Service}
      → find_ping p.chan s.pings ≡ some p
      → (Q → p.acked ≡ false → n ≢ p.node)
      → ping_wakes now p.chan s ≡ ok t
      → Keeps W c n Q s t
  unfolding ping_wakes
  ping_wakes-Keeps Q now p s {t} f h e =
      let s' : Service = record s { pings = end_ping p.chan s.pings } in
      let k = same-Keeps W c n Q s s' refl refl refl refl refl in
      let run = rw (ping_wakes, f) at e in
      elim (Bool-cases p.acked) [
        | inl z ↦ Keeps-trans W c n k (mark_node_alive-Keeps W c n Q now p.node s' (rw z at run))
        | inr z ↦
            Keeps-trans W c n k
              (mark_node_failed-Keeps W c n Q now p.node s' (λ q. h q z) (rw z at run))
      ]

  ping_node-Keeps :
      (Q : Type 0) (sends : String → Bool) (chan node : ℕ) (msgs : List Message) (s : Service)
      {t : Service}
      → ping_node sends chan node msgs s ≡ ok t
      → Keeps W c n Q s t
  unfolding ping_node
  ping_node-Keeps Q sends chan zero msgs s e = absurd (cc)
  ping_node-Keeps Q sends chan (suc i) msgs s {t} e =
      let (addr, a, run) = >>=-eq-ok (or_panic (get_elem? s.servers i)) _ e in
      elim (Bool-cases (sends addr)) [
        | inl z ↦
            subst (λ w. Keeps W c n Q s w) (ok-injective (rw z at run))
              (same-Keeps W c n Q s _ refl refl refl refl refl)
        | inr z ↦ subst (λ w. Keeps W c n Q s w) (ok-injective (rw z at run)) (Keeps-refl W c n s)
      ]

  ping_all-Keeps :
      (Q : Type 0) (sends : String → Bool) (msgs : List Message) (nodes : List ℕ) (s : Service)
      {t : Service}
      → ping_all sends msgs nodes s ≡ ok t
      → Keeps W c n Q s t
  unfolding ping_all start_ping
  ping_all-Keeps Q sends msgs [] s e = subst (λ w. Keeps W c n Q s w) (cc) (Keeps-refl W c n s)
  ping_all-Keeps Q sends msgs (node ∷ nodes) s e =
      let (s', a, run) = >>=-eq-ok (start_ping sends msgs node s) _ e in
      let k : Keeps W c n Q s s' = elim (Bool-cases (node == s.server_id)) [
        | inl z ↦ subst (λ w. Keeps W c n Q s w) (cc (rw (start_ping, z) at a)) (Keeps-refl W c n s)
        | inr z ↦
            Keeps-trans W c n (same-Keeps W c n Q s _ refl refl refl refl refl)
              (ping_node-Keeps Q sends s.next_chan node msgs _ (rw (start_ping, z) at a))
      ] in
      Keeps-trans W c n k (ping_all-Keeps Q sends msgs nodes s' run)

  pub send_signals-Keeps :
      (Q : Type 0) (sends : String → Bool) (to_set : List ℕ → List ℕ) (s : Service) {t : Service}
      → send_signals sends to_set s ≡ ok t
      → Keeps W c n Q s t
  unfolding send_signals
  send_signals-Keeps Q sends to_set s e =
      let (ns, a, run) = >>=-eq-ok (or_panic (get_neighbours s.list s.server_id)) _ e in
      let (s', b, fin) = >>=-eq-ok (ping_all sends s.buffer (to_set ns) s) _ run in
      let k = ping_all-Keeps Q sends s.buffer (to_set ns) s b in
      let last : Keeps W c n Q s' (record s' { buffer = [] }) = record {
        well = λ o v. v;
        held = λ h. h;
        spared = λ q u. record { buffer = tt; timers = u.timers; failed_out = u.failed_out };
      } in
      Keeps-trans W c n k (subst (λ w. Keeps W c n Q s' w) (cc) last)
