-- ===== src/Hydfs/Replication/Agree.antt =====
-- The nodes of a file agree: a write that reaches all of them is found by a read at each.
use rain_strom_distributed_s.Prelude.{
  IsDistinct, All-map, ℕ, ◌<◌, ◌≡◌, ◌≢◌, refl, sym, ap, ◌∙◌, subst, arith, true, false, none, some,
  List, [], ◌∷◌, ◌++◌, String, ◌==◌, All, Bool-cases, inl, inr, length,
}
use rain_strom_distributed_s.Prelude.Paths.{stem}
use rain_strom_distributed_s.Config.{Config}
use rain_strom_distributed_s.Membership.Types.{MembershipList}
use rain_strom_distributed_s.Hydfs.AppendLog.{
  AolEntry, Env, Node, content, write_log, merge_aol_on_read,
}
use rain_strom_distributed_s.Hydfs.AppendLog.Pending.{
  appended, IsAppend, IsPending, write_log-IsPending, merge-IsPending,
}
use rain_strom_distributed_s.Hydfs.Requests.{
  FileTransferRequest, replica_nodes, aol_entry, handle_request_type_on_receive,
}
use rain_strom_distributed_s.Hydfs.Requests.TransferRequestType.{append}
use rain_strom_distributed_s.Hydfs.Replication.{
  Contact, no_entry, servers_of, replicate_log_entry, set, replicate_to,
  replicate_log_entry_to_neighbors, receive_and_replicate,
}

module _ (env : Env) where
  pub set_self : (d : ℕ) (n : Node env) (nodes : ℕ → Node env) → set env d n nodes d ≡ n
  set_self d n nodes = elim (Bool-cases (d == d)) [
    | inl q ↦ rw (set, q) refl
    | inr q ↦ absurd (ground (arith, q))
  ]

  pub set_other :
      (d x : ℕ) (n : Node env) (nodes : ℕ → Node env) → d ≢ x → set env d n nodes x ≡ nodes x
  set_other d x n nodes h = elim (Bool-cases (d == x)) [
    | inl q ↦ absurd (h (ground (arith, q)))
    | inr q ↦ rw (set, q) refl
  ]

  -- Writes at other nodes than the one that was set.
  set_apart :
      (join : String → String) (e : AolEntry) (d : ℕ) (n : Node env) (nodes after : ℕ → Node env)
      (us : List ℕ)
      → All (λ x. d ≢ x) us
      → All (λ x. after x ≡ write_log env join e (set env d n nodes x)) us
      → All (λ x. after x ≡ write_log env join e (nodes x)) us
  set_apart join e d n nodes after [] a q = tt
  set_apart join e d n nodes after (x ∷ us) a q = (
    q.0 ∙ ap (write_log env join e) (set_other d x n nodes a.0),
    set_apart join e d n nodes after us a.1 q.1,
  )

  -- A node that is not on the list of the servers stays as it is.
  replicate_to-outside :
      (join : String → String) (contact : ℕ → Contact) (e : AolEntry) (ds : List ℕ)
      (nodes : ℕ → Node env) (x : ℕ)
      → All (λ d. x ≢ d) ds
      → replicate_to env join contact e ds nodes x ≡ nodes x
  unfolding replicate_to
  replicate_to-outside join contact e [] nodes x h = refl
  replicate_to-outside join contact e (d ∷ ds) nodes x h = elim (Bool-cases (contact d).dials) [
    | inr q ↦ rw (replicate_to, q) refl
    | inl q ↦ elim (Bool-cases (contact d).arrives) [
      | inr p ↦ rw (replicate_to, q, p) (replicate_to-outside join contact e ds nodes x h.1)
      | inl p ↦
          rw (replicate_to, q, p)
            (replicate_to-outside join contact e ds _ x h.1
              ∙ set_other d x _ nodes (λ z. h.0 (sym z)))
    ]
  ]

  -- Each node that every call reaches writes the entry to its log.
  replicate_to-each :
      (join : String → String) (contact : ℕ → Contact) (e : AolEntry) (ds : List ℕ)
      (nodes : ℕ → Node env)
      → All (λ d. ((contact d).dials ≡ true) × ((contact d).arrives ≡ true)) ds
      → IsDistinct ds
      → All (λ d. replicate_to env join contact e ds nodes d ≡ write_log env join e (nodes d)) ds
  unfolding replicate_to replicate_log_entry
  replicate_to-each join contact e [] nodes h p = tt
  replicate_to-each join contact e (d ∷ ds) nodes h p =
      let there = replicate_log_entry env join (env.encode e) (nodes d) in
      let written : there ≡ write_log env join e (nodes d) =
        ap (λ o. write_log env join (elim o [ none ↦ no_entry | some f ↦ f ]) (nodes d))
          (env.decode_lem e) in
      let rest : ℕ → Node env = replicate_to env join contact e ds (set env d there nodes) in
      let run : (x : ℕ) → replicate_to env join contact e (d ∷ ds) nodes x ≡ rest x =
        λ x. rw (replicate_to, h.0.0, h.0.1) refl in
      (
        run d
            ∙ replicate_to-outside join contact e ds (set env d there nodes) d p.0
            ∙ set_self d there nodes
            ∙ written,
        All-map (λ x. rest x ≡ write_log env join e (nodes x))
            (λ x. replicate_to env join contact e (d ∷ ds) nodes x ≡ write_log env join e (nodes x))
            ds (λ x q. run x ∙ q)
            (set_apart join e d there nodes rest ds p.0
              (replicate_to-each join contact e ds (set env d there nodes) h.1 p.1)),
      )

  -- After a write, a node holds the entry behind those it had, and a read finds all of them.
  abbrev pub IsCurrent : ℕ → String → List AolEntry → Node env → Node env → Type 0
  IsCurrent fuel name es old new =
      IsPending env (stem name) es new
      × ((w : Node env) × (merge_aol_on_read env fuel name new ≡ some w)
          × (content env w.files name ≡ content env old.files name ++ appended name es))

  write_log-IsCurrent :
      (join : String → String) (fuel : ℕ) (e : AolEntry) (ps : List AolEntry) (n : Node env)
      → ((l : env.Log) (j : env.Json) → (l' : env.Log) × (env.write l j ≡ some l'))
      → env.opens_log (stem e.file_name) ≡ true
      → All (IsAppend env) (ps ++ e ∷ [])
      → length (ps ++ e ∷ []) < fuel
      → IsPending env (stem e.file_name) ps n
      → IsCurrent fuel e.file_name (ps ++ e ∷ []) n (write_log env join e n)
  write_log-IsCurrent join fuel e ps n ok o a b p =
      let (q, f) = write_log-IsPending env join ps e n ok o p in
      let (w, r, l, c) =
        merge-IsPending env fuel e.file_name (ps ++ e ∷ []) (write_log env join e n) o a b q in
      let whole : content env w.files e.file_name
          ≡ content env n.files e.file_name ++ appended e.file_name (ps ++ e ∷ []) =
        c e.file_name
        ∙ ap (λ k. content env k e.file_name ++ appended e.file_name (ps ++ e ∷ [])) f in
      (q, (w, r, whole))

  each-IsCurrent :
      (join : String → String) (fuel : ℕ) (e : AolEntry) (ps : List AolEntry)
      (nodes after : ℕ → Node env) (ds : List ℕ)
      → ((l : env.Log) (j : env.Json) → (l' : env.Log) × (env.write l j ≡ some l'))
      → env.opens_log (stem e.file_name) ≡ true
      → All (IsAppend env) (ps ++ e ∷ [])
      → length (ps ++ e ∷ []) < fuel
      → All (λ d. IsPending env (stem e.file_name) ps (nodes d)) ds
      → All (λ d. after d ≡ write_log env join e (nodes d)) ds
      → All (λ d. IsCurrent fuel e.file_name (ps ++ e ∷ []) (nodes d) (after d)) ds
  each-IsCurrent join fuel e ps nodes after [] ok o a b p w = tt
  each-IsCurrent join fuel e ps nodes after (d ∷ ds) ok o a b p w = (
    subst (λ n. IsCurrent fuel e.file_name (ps ++ e ∷ []) (nodes d) n) (sym w.0)
        (write_log-IsCurrent join fuel e ps (nodes d) ok o a b p.0),
    each-IsCurrent join fuel e ps nodes after ds ok o a b p.1 w.1,
  )

  -- The node that handles the request writes as its replicas do.
  receive-writes :
      (c : Config) (m : MembershipList) (join : String → String) (now : ℕ) (contact : ℕ → Contact)
      (r : FileTransferRequest) (bytes : List ℕ) (ds : List ℕ) (servers : List String)
      (nodes : ℕ → Node env)
      → r.request_type ≡ append
      → replica_nodes c m r.dest_file_name ≡ some ds
      → servers_of c ds ≡ some servers
      → (receive_and_replicate env c m join now contact r bytes nodes
          ≡ some (
              replicate_to env join contact (aol_entry env c now r bytes false) ds (
                set env c.node_id
                  (write_log env join (aol_entry env c now r bytes false) (nodes c.node_id))
                  nodes)))
  unfolding receive_and_replicate handle_request_type_on_receive replicate_log_entry_to_neighbors
  receive-writes c m join now contact r bytes ds servers nodes k e s =
      rw
        (
          receive_and_replicate, handle_request_type_on_receive, k,
          replicate_log_entry_to_neighbors, e, s,
        )
        refl

  -- An APPEND request comes to a node whose configuration has the addresses of the replicas of the
  -- file, which are different nodes, and different from it. No read has merged the log for the
  -- file at any of them before, so that none is marked as read; all these logs hold the entries `ps`,
  -- of writes by clients to files that can be opened, every call reaches its node, everything can be opened and written,
  -- and the fuel is more than the number of entries.
  -- Then after the replication each of the nodes has the new entry behind `ps`, and a read at any of
  -- them gives what the file held there and the data of all these entries in their order, so that
  -- nodes with one content agree again. No other node changes.
  pub append-agrees :
      (c : Config) (m : MembershipList) (join : String → String) (now fuel : ℕ)
      (contact : ℕ → Contact) (r : FileTransferRequest) (bytes : List ℕ) (ds : List ℕ)
      (servers : List String) (ps : List AolEntry) (nodes : ℕ → Node env)
      → ((l : env.Log) (j : env.Json) → (l' : env.Log) × (env.write l j ≡ some l'))
      → env.opens_log (stem r.dest_file_name) ≡ true
      → r.request_type ≡ append
      → replica_nodes c m r.dest_file_name ≡ some ds
      → servers_of c ds ≡ some servers
      → IsDistinct (c.node_id ∷ ds)
      → All (λ d. ((contact d).dials ≡ true) × ((contact d).arrives ≡ true)) ds
      → All (IsAppend env) (ps ++ aol_entry env c now r bytes false ∷ [])
      → length (ps ++ aol_entry env c now r bytes false ∷ []) < fuel
      → All (λ d. IsPending env (stem r.dest_file_name) ps (nodes d)) (c.node_id ∷ ds)
      → (after : ℕ → Node env) × (receive_and_replicate env c m join now contact r bytes nodes
          ≡ some after)
        × All
            (λ d.
              IsCurrent fuel r.dest_file_name
                (ps ++ aol_entry env c now r bytes false ∷ [])
                (nodes d)
                (after d))
            (c.node_id ∷ ds)
        × ((x : ℕ) → All (λ d. x ≢ d) (c.node_id ∷ ds) → after x ≡ nodes x)
  append-agrees c m join now fuel contact r bytes ds servers ps nodes ok o k e s d h a b p =
      let f : AolEntry = aol_entry env c now r bytes false in
      let own : Node env = write_log env join f (nodes c.node_id) in
      let mid : ℕ → Node env = set env c.node_id own nodes in
      let after : ℕ → Node env = replicate_to env join contact f ds mid in
      let first : after c.node_id ≡ own =
        replicate_to-outside join contact f ds mid c.node_id d.0 ∙ set_self c.node_id own nodes in
      (
        after,
        receive-writes c m join now contact r bytes ds servers nodes k e s,
        each-IsCurrent join fuel f ps nodes after (c.node_id ∷ ds) ok o a b p (
          first,
          set_apart join f c.node_id own nodes after ds d.0
              (replicate_to-each join contact f ds mid h d.1),
        ),
        λ x g.
            replicate_to-outside join contact f ds mid x g.1
            ∙ set_other c.node_id x own nodes (λ z. g.0 (sym z)),
      )
