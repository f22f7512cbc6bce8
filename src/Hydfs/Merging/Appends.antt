-- ===== src/Hydfs/Merging/Appends.antt =====
-- Which requests a multi-append makes.
use rain_strom_distributed_s.Prelude.{
  ℕ, ◌≡◌, ◌≢◌, refl, ap, arith, none, some, List, [], ◌∷◌, map, String, ◌==◌, ==→≡, length, All,
  Bool-cases, inl, inr, ◌⊎◌,
}
use rain_strom_distributed_s.Config.{Config, ring_id}
use rain_strom_distributed_s.Membership.Types.{MembershipList}
use rain_strom_distributed_s.Hydfs.Routing.{node_of_peer}
use rain_strom_distributed_s.Hydfs.Requests.{FileTransferRequest, create_file_request, primary}
use rain_strom_distributed_s.Hydfs.Requests.TransferRequestType.{append, multi_append}
use rain_strom_distributed_s.Hydfs.Merging.{append_requests, multiappend, multi_append_transfer}

-- What the node `vm` is asked to upload: an append of its own local file to `name` at the node.
abbrev pub IsAppendTo : String → ℕ → ℕ → ℕ × FileTransferRequest → Type 0
IsAppendTo name node peer (vm, r) =
    (at : Config)
    → let t = multi_append_transfer at r in
      (t.request_type ≡ append)
      × (t.dest_file_name ≡ name)
      × (t.dest_node_id ≡ node)
      × (t.dest_peer_id ≡ peer)
      × (t.src_file_name ≡ r.src_file_name)
      × (t.src_node_id ≡ at.node_id)

append_requests-IsAppendTo :
    (c : Config) (name : String) (node peer place : ℕ) (vms : List ℕ) (files : List String)
    → ring_id c c.node_id ≡ some place
    → length vms ≡ length files
    → (rs : List (ℕ × FileTransferRequest)) × (append_requests c name node peer vms files ≡ some rs)
      × (map (λ p. p.0) rs ≡ vms)
      × (map (λ p. p.1.src_file_name) rs ≡ files)
      × All (IsAppendTo name node peer) rs
unfolding append_requests create_file_request multi_append_transfer
append_requests-IsAppendTo c name node peer place [] [] h e = ([], refl, refl, refl, tt)
append_requests-IsAppendTo c name node peer place [] (f ∷ fs) h e = absurd (omega (arith, e))
append_requests-IsAppendTo c name node peer place (vm ∷ vms) [] h e = absurd (omega (arith, e))
append_requests-IsAppendTo c name node peer place (vm ∷ vms) (file ∷ files) h e =
    let (rs, run, v, f, a) =
      append_requests-IsAppendTo c name node peer place vms files h (omega (arith, e)) in
    let r : FileTransferRequest = record {
      src_node_id = c.node_id;
      src_peer_id = place;
      src_file_name = file;
      dest_file_name = name;
      dest_node_id = node;
      dest_peer_id = peer;
      file_data = [];
      request_type = multi_append;
    } in
    (
      (vm, r) ∷ rs,
      rw (append_requests, create_file_request, h, run) refl,
      ap (λ l. vm ∷ l) v,
      ap (λ l. file ∷ l) f,
      ((λ at. (refl, refl, refl, refl, refl, refl)), a),
    )

-- On a node with a place, for a file whose primary is listed: a multi-append with as many nodes as
-- local files asks each of these nodes, in their order, to append its file, the one at the same
-- position, to the system's file at its primary; with another number of files it asks nobody.
pub multiappend-requests :
    (c : Config) (m : MembershipList) (name : String) (node peer place : ℕ) (vms : List ℕ)
    (files : List String)
    → ring_id c c.node_id ≡ some place
    → primary c m name ≡ some peer
    → node_of_peer m peer ≡ some node
    → ((rs : List (ℕ × FileTransferRequest)) × (multiappend c m name vms files ≡ some (some rs))
        × (map (λ p. p.0) rs ≡ vms)
        × (map (λ p. p.1.src_file_name) rs ≡ files)
        × All (IsAppendTo name node peer) rs)
      ⊎ ((length vms ≢ length files) × (multiappend c m name vms files ≡ some none))
unfolding multiappend
multiappend-requests c m name node peer place vms files h p n =
    elim (Bool-cases (length vms == length files)) [
      | inl q ↦
          let (rs, run, v, f, a) =
            append_requests-IsAppendTo c name node peer place vms files h
              (==→≡ (length vms) (length files) q) in
          inl (rs, rw (multiappend, q, p, n, run) refl, v, f, a)
      | inr q ↦ inr (ground (arith, q), rw (multiappend, q) refl)
    ]
