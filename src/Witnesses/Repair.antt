-- ===== src/Witnesses/Repair.antt =====
-- The theorems on the repair plan and on the routing of files at work on a small ring.
use rain_strom_distributed_s.Prelude.{ℕ, ◌≡◌, arith, some, [], ◌∷◌, ◌>>=◌}
use rain_strom_distributed_s.Membership.Repair.{hypothetical_index_for_peer_id}
use rain_strom_distributed_s.Membership.Repair.Search.{count_below, hypothetical_index-count_below}
use rain_strom_distributed_s.Hydfs.Routing.{file_routing}
use rain_strom_distributed_s.Hydfs.Routing.Primary.{IsOwner, file_routing-primary}
use rain_strom_distributed_s.Witnesses.Ring.{four, four-Inv}

hypothetical_index-count_below_example :
    hypothetical_index_for_peer_id four 25 ≡ some (count_below 25 (10 ∷ 20 ∷ 30 ∷ 40 ∷ []))
hypothetical_index-count_below_example = hypothetical_index-count_below four 25 four-Inv.sorted

file_routing-primary_example :
    (p b c : ℕ) × (file_routing 25 four ≡ some (p ∷ b ∷ c ∷ []))
    × IsOwner 25 (10 ∷ 20 ∷ 30 ∷ 40 ∷ []) p
file_routing-primary_example = file_routing-primary 25 four four-Inv.sorted (omega arith)
