-- ===== src/Hydfs/Merging/Agree.antt =====
-- What the nodes of a file hold after a merge.
use rain_strom_distributed_s.Prelude.{
  ℕ, ◌≢◌, ==→≡, sym, subst, IsDistinct, ◌≡◌, refl, ap, ◌∙◌, Bool, true, false, none, some, List, [],
  ◌∷◌, String, lookup, string_eq, All, Bool-cases, Option-cases, inl, inr, ◌⊎◌, ◌==◌,
}
use rain_strom_distributed_s.Config.{Config, get_file_hash_id}
use rain_strom_distributed_s.Membership.Types.{MembershipList}
use rain_strom_distributed_s.Hydfs.Routing.{
  file_routing, node_of_peer, nodes_of_peers, get_node_ids_of_file,
}
use rain_strom_distributed_s.Hydfs.Requests.{primary, replica_nodes, initate_merge}
use rain_strom_distributed_s.Hydfs.AppendLog.{Env, Node}
use rain_strom_distributed_s.Hydfs.Merging.{
  Link, trigger_merge, notify_primary_to_merge, perform_merge,
}
use rain_strom_distributed_s.Hydfs.Merging.Replaces.{HasFuel, all_fine, trigger_merge-IsMerged}

-- The nodes of a file: that of its primary, and the replicas.
file-nodes :
    (c : Config) (m : MembershipList) (name : String) (node : ℕ) (nodes : List ℕ)
    → get_node_ids_of_file (get_file_hash_id c name) m ≡ some (node ∷ nodes)
    → (peer : ℕ) × (primary c m name ≡ some peer)
      × (node_of_peer m peer ≡ some node)
      × (replica_nodes c m name ≡ some nodes)
unfolding get_node_ids_of_file replica_nodes nodes_of_peers
file-nodes c m name node nodes h = elim (Option-cases (file_routing (get_file_hash_id c name) m)) [
  | inl e ↦ let q : none ≡ some (node ∷ nodes) = rw (get_node_ids_of_file, e) at h in absurd (cc)
  | inr ([], e) ↦
      let q : some [] ≡ some (node ∷ nodes) = rw (get_node_ids_of_file, e, nodes_of_peers) at h in
      absurd (cc)
  | inr (p ∷ ps, e) ↦ elim (Option-cases (node_of_peer m p)) [
    | inl f ↦
        let q : none ≡ some (node ∷ nodes) = rw (get_node_ids_of_file, e, nodes_of_peers, f) at h in
        absurd (cc)
    | inr (n, f) ↦ elim (Option-cases (nodes_of_peers m ps)) [
      | inl g ↦
          let q : none ≡ some (node ∷ nodes) =
            rw (get_node_ids_of_file, e, nodes_of_peers, f, g) at h in
          absurd (cc)
      | inr (ns, g) ↦
          let q : some (n ∷ ns) ≡ some (node ∷ nodes) =
            rw (get_node_ids_of_file, e, nodes_of_peers, f, g) at h in
          let a : n ≡ node = cc in
          let b : ns ≡ nodes = cc in
          (p, rw e refl, f ∙ ap (λ x. some x) a, rw (replica_nodes, e) (g ∙ ap (λ x. some x) b))
    ]
  ]
]

module _ (env : Env) where
  -- A merge calls `TriggerMerge` at the primary for the other nodes of the file, wherever it starts.
  perform_merge-triggers :
      (c : Config) (m : MembershipList) (fuel : ℕ) (name : String) (links : ℕ → Link env)
      (nodes : ℕ → Node env) (node : ℕ) (ds : List ℕ)
      → get_node_ids_of_file (get_file_hash_id c name) m ≡ some (node ∷ ds)
      → node_of_peer m c.peer_id ≡ some c.node_id
      → perform_merge env c m fuel name links nodes
        ≡ trigger_merge env fuel name node links ds nodes
  unfolding perform_merge notify_primary_to_merge initate_merge
  perform_merge-triggers c m fuel name links nodes node ds h own =
      let (peer, e, f, g) = file-nodes c m name node ds h in
      elim (Bool-cases (c.peer_id == peer)) [
        | inl z ↦
            let p : c.peer_id ≡ peer = ==→≡ c.peer_id peer z in
            let q : some c.node_id ≡ some node = sym own ∙ ap (node_of_peer m) p ∙ f in
            let k : c.node_id ≡ node = cc in
            rw (perform_merge, initate_merge, e, z, g)
              (ap (λ x. trigger_merge env fuel name x links ds nodes) k)
        | inr z ↦ rw (perform_merge, initate_merge, e, z, f, notify_primary_to_merge, g) refl
      ]

  -- A merge of a file, started at any listed node while the primary is reached and all have the same
  -- list of members; the nodes of the file are different nodes, and the fuel is more than the logs of
  -- the replicas have entries. It ends. If the primary has the file, each replica is reached and its
  -- disk does what it is asked, there is no error. Without an error each replica holds for the file
  -- what the primary holds. No node but the replicas changes.
  pub merge-agrees :
      (c : Config) (m : MembershipList) (fuel : ℕ) (name : String) (links : ℕ → Link env)
      (nodes : ℕ → Node env) (node : ℕ) (ds : List ℕ)
      → get_node_ids_of_file (get_file_hash_id c name) m ≡ some (node ∷ ds)
      → node_of_peer m c.peer_id ≡ some c.node_id
      → IsDistinct (node ∷ ds)
      → All (λ d. HasFuel env fuel name (nodes d)) ds
      → (nodes' : ℕ → Node env) × (well : Bool) × (perform_merge env c m fuel name links nodes
          ≡ some (nodes', well))
        × (((well ≡ false) × (all_fine env name (nodes node) links ds ≡ false))
            ⊎ ((well ≡ true)
                × All (λ d. lookup name (nodes' d).files ≡ lookup name (nodes' node).files) ds))
        × ((x : ℕ) → All (λ d. x ≢ d) ds → nodes' x ≡ nodes x)
  merge-agrees c m fuel name links nodes node ds h own u f =
      let (nodes', well, q, merged, frame) =
        trigger_merge-IsMerged env fuel name node links ds nodes u.0 u.1 f in
      let main : nodes' node ≡ nodes node = frame node u.0 in
      (
        nodes',
        well,
        perform_merge-triggers c m fuel name links nodes node ds h own ∙ q,
        elim merged [
          | inl z ↦ inl z
          | inr (z, a) ↦ inr (
            z,
            subst (λ w. All (λ d. lookup name (nodes' d).files ≡ lookup name w.files) ds) (sym main)
                a,
          )
        ],
        frame,
      )
