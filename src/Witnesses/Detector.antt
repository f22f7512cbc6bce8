-- ===== src/Witnesses/Detector.antt =====
-- The theorems on failure detection at work on a small ring.
use rain_strom_distributed_s.Prelude.{ℕ, ◌≡◌, refl, true, false, some, [], ◌∷◌, if◌then◌else◌}
use rain_strom_distributed_s.Prelude.Run.{ok}
use rain_strom_distributed_s.Membership.Types.{Tag}
use rain_strom_distributed_s.Membership.Table.{contains}
use rain_strom_distributed_s.Membership.Table.View.{view, drop}
use rain_strom_distributed_s.Membership.Table.Placed.{Inv}
use rain_strom_distributed_s.Membership.Service.{Service}
use rain_strom_distributed_s.Membership.Detector.{
  mark_node_failed, mark_node_alive, suspicion_timeout,
}
use rain_strom_distributed_s.Membership.Detector.Suspicion.{mark_node_failed-views, suspicion_round}
use rain_strom_distributed_s.Witnesses.Ring.{
  ring, four, one_suspected, four-Inv, one_suspected-Inv, service,
}

active_3 : view one_suspected 3 ≡ some Tag.active
unfolding view
active_3 = refl

mark_node_failed-views_example :
    (w : Service) × (mark_node_failed 9 2 (service four false) ≡ ok w)
    × Inv ring w.list
    × ((n : ℕ) → view w.list n ≡ drop 2 (view four) n)
    × (w.failed_out ≡ (if contains four 2 then 2 ∷ [] else []))
mark_node_failed-views_example = mark_node_failed-views ring 9 2 (service four false) refl four-Inv

suspicion_round_example :
    (w u : Service) × (mark_node_failed 1 3 (service one_suspected true) ≡ ok w)
    × (view w.list 3 ≡ some Tag.suspected)
    × (mark_node_alive 2 3 w ≡ ok u)
    × ((n : ℕ) → view u.list n ≡ view one_suspected n)
    × (suspicion_timeout 3 3 u ≡ u)
    × ((n : ℕ) → view (suspicion_timeout 3 3 w).list n ≡ drop 3 (view one_suspected) n)
    × ((suspicion_timeout 3 3 w).failed_out ≡ 3 ∷ [])
suspicion_round_example =
    suspicion_round ring 1 2 3 3 (service one_suspected true) refl refl one_suspected-Inv active_3
