-- ===== src/Membership/Detector/Suspicion.antt =====
-- What suspicion promises: a node is taken off the list only after it was suspected and the timer
-- found it so, and a node that answers in time stays.
use rain_strom_distributed_s.Prelude.{
  ◌≡◌, refl, true, false, [], ◌∷◌, ◌++◌, arith, Bool-cases, inl, inr, if◌then◌else◌, ◌==◌, ==→≡,
  ◌∙◌, some, ℕ,
}
use rain_strom_distributed_s.Prelude.Run.{ok}
use rain_strom_distributed_s.Config.{Config}
use rain_strom_distributed_s.Membership.Types.{message_entry, Tag, MembershipList}
use rain_strom_distributed_s.Membership.Table.{remove, is_suspected, contains, update, rejuvenate}
use rain_strom_distributed_s.Membership.Table.Keys.{IsUnique, rejuvenate-SameKeys, update-SameKeys}
use rain_strom_distributed_s.Membership.Table.View.{
  view, mark, drop, view-update, view-remove, is_suspected-view, view-is_suspected, view-contains,
  view-rejuvenate,
}
use rain_strom_distributed_s.Membership.Table.Placed.{Inv, remove-Inv, SameKeys-Inv}
use rain_strom_distributed_s.Membership.Service.{Service}
use rain_strom_distributed_s.Membership.Detector.{
  mark_failed_held, mark_node_failed, suspicion_timeout, mark_node_alive, unlock, say,
}

mark-suspected_same :
    (m : MembershipList) (node n : ℕ)
    → IsUnique m
    → is_suspected m node ≡ true
    → view m n ≡ mark node Tag.suspected (view m) n
mark-suspected_same m node n u h = elim (Bool-cases (node == n)) [
  | inl q ↦ rw q (let z = is_suspected-view m node u h in ground (arith, ==→≡ node n q, z))
  | inr q ↦ rw q refl
]

-- `markNodeFailed` with the mutex free and a well-formed list: with suspicion on it takes nobody off
-- the list, signals no failure and only marks a listed neighbour as suspected; with suspicion off it
-- takes the neighbour off, and signals its failure if it was listed. The list stays well formed.
pub mark_node_failed-views :
    (c : Config) (now node : ℕ) (s : Service)
    → s.locked ≡ false
    → Inv c s.list
    → (w : Service) × (mark_node_failed now node s ≡ ok w)
      × Inv c w.list
      × ((n : ℕ)
          → view w.list n ≡ (
              if s.suspicion
              then mark node Tag.suspected (view s.list) n
              else drop node (view s.list) n))
      × (w.failed_out ≡ (
          if s.suspicion
          then s.failed_out
          else if contains s.list node
          then s.failed_out ++ node ∷ []
          else s.failed_out))
unfolding mark_node_failed
mark_node_failed-views c now node s h v = elim (Bool-cases s.suspicion) [
  | inr off ↦ (
    w,
    rw (h, mark_node_failed),
    rw (off, mark_node_failed) (remove-Inv c node s.list v),
    λ n. rw (off, mark_node_failed) (view-remove node s.list n v.unique),
    rw (off, mark_node_failed) refl,
  )
  | inl on ↦ elim (Bool-cases (is_suspected s.list node)) [
    | inl sus ↦ (
      w,
      rw (h, mark_node_failed),
      rw (on, sus, mark_node_failed) v,
      λ n. rw (on, sus, mark_node_failed) (mark-suspected_same s.list node n v.unique sus),
      rw (on, sus, mark_node_failed) refl,
    )
    | inr not_yet ↦ (
      w,
      rw (h, mark_node_failed),
      rw (on, not_yet, mark_node_failed)
          (SameKeys-Inv c s.list _ (update-SameKeys node Tag.suspected s.list) v),
      λ n. rw (on, not_yet, mark_node_failed) (view-update node Tag.suspected s.list n),
      rw (on, not_yet, mark_node_failed) refl,
    )
  ]
]
  where
    w : Service
    w = mark_failed_held now node (record s { locked = true })

-- On a well-formed list, which stays well formed, the timer takes its node off the list exactly when
-- the node is still suspected, and every other node keeps its status; if it is not, nothing changes.
pub suspicion_timeout-views :
    (c : Config) (now node : ℕ) (s : Service)
    → Inv c s.list
    → Inv c (suspicion_timeout now node s).list
      × ((n : ℕ)
          → view (suspicion_timeout now node s).list n
            ≡ (if is_suspected s.list node then drop node (view s.list) n else view s.list n))
      × (is_suspected s.list node ≡ false → suspicion_timeout now node s ≡ s)
unfolding suspicion_timeout
suspicion_timeout-views c now node s v = elim (Bool-cases (is_suspected s.list node)) [
  | inl sus ↦ (
    rw (sus, suspicion_timeout) (remove-Inv c node s.list v),
    λ n. rw (sus, suspicion_timeout) (view-remove node s.list n v.unique),
    λ e. absurd (cc),
  )
  | inr gone ↦ (
    rw (gone, suspicion_timeout) v,
    λ n. rw (gone, suspicion_timeout) refl,
    λ e. rw (gone, suspicion_timeout) refl,
  )
]

not_suspected :
    (m : MembershipList) (node : ℕ)
    → IsUnique m
    → view m node ≡ some Tag.active
    → is_suspected m node ≡ false
not_suspected m node u h = elim (Bool-cases (is_suspected m node)) [
  | inl sus ↦ let z = is_suspected-view m node u sus in absurd (cc)
  | inr e ↦ e
]

-- The list between the suspicion of an active node and the end of its round.
module _ (c : Config) (m : MembershipList) (node : ℕ) (v : Inv c m)
    (act : view m node ≡ some Tag.active) where
  suspect : MembershipList
  suspect = update node Tag.suspected m

  suspect-view : (n : ℕ) → view suspect n ≡ mark node Tag.suspected (view m) n
  unfolding suspect
  suspect-view n = view-update node Tag.suspected m n

  suspect-Inv : Inv c suspect
  unfolding suspect
  suspect-Inv = SameKeys-Inv c m _ (update-SameKeys node Tag.suspected m) v

  suspect_node : view suspect node ≡ some Tag.suspected
  suspect_node = ground (arith, suspect-view node, act)

  suspect-is_suspected : is_suspected suspect node ≡ true
  suspect-is_suspected = view-is_suspected suspect node suspect_node

  rejuvenate-view : (now n : ℕ) → view (rejuvenate now node suspect) n ≡ view m n
  rejuvenate-view now n =
      view-rejuvenate now node suspect n suspect-Inv.unique
      ∙ rw suspect-is_suspected (ground (arith, suspect-view n, act, ==→≡ node n))

  rejuvenate-Inv : (now : ℕ) → Inv c (rejuvenate now node suspect)
  rejuvenate-Inv now = SameKeys-Inv c suspect _ (rejuvenate-SameKeys now node suspect) suspect-Inv

  rejuvenate_calm : (now : ℕ) → is_suspected (rejuvenate now node suspect) node ≡ false
  rejuvenate_calm now =
      not_suspected _ node (rejuvenate-Inv now).unique (rejuvenate-view now node ∙ act)

  remove-view : (n : ℕ) → view (remove node suspect) n ≡ drop node (view m) n
  remove-view n = view-remove node suspect n suspect-Inv.unique ∙ ground (arith, suspect-view n)

-- An active node misses a ping while suspicion is on. If it answers before the timer, every node
-- has its old status again and the timer does nothing; if it stays silent, the timer takes it off
-- the list, leaves the other statuses as they were, and signals its failure.
pub suspicion_round :
    (c : Config) (t0 t1 t2 node : ℕ) (s : Service)
    → s.locked ≡ false
    → s.suspicion ≡ true
    → Inv c s.list
    → view s.list node ≡ some Tag.active
    → (w u : Service) × (mark_node_failed t0 node s ≡ ok w)
      × (view w.list node ≡ some Tag.suspected)
      × (mark_node_alive t1 node w ≡ ok u)
      × ((n : ℕ) → view u.list n ≡ view s.list n)
      × (suspicion_timeout t2 node u ≡ u)
      × ((n : ℕ) → view (suspicion_timeout t2 node w).list n ≡ drop node (view s.list) n)
      × ((suspicion_timeout t2 node w).failed_out ≡ s.failed_out ++ node ∷ [])
unfolding mark_node_failed mark_node_alive suspicion_timeout suspect
suspicion_round c t0 t1 t2 node s h on v act = (
  w,
  u,
  rw (h, mark_node_failed) (rw (on, calm, mark_node_failed) refl),
  suspect_node c s.list node v act,
  rw (suspect-is_suspected c s.list node v act, mark_node_alive) refl,
  rejuvenate-view c s.list node v act t1,
  rw (rejuvenate_calm c s.list node v act t1, suspicion_timeout) refl,
  λ n.
      rw (suspect-is_suspected c s.list node v act, suspicion_timeout)
        (remove-view c s.list node v act n),
  rw (suspect-is_suspected c s.list node v act, suspicion_timeout)
      (rw (view-contains _ node Tag.suspected (suspect_node c s.list node v act)) refl),
)
  where
    calm : is_suspected s.list node ≡ false
    calm = not_suspected s.list node v.unique act

    w : Service
    w = unlock (
        say t0 Tag.suspected node (record s {
          locked = true;
          list = suspect c s.list node v act;
          timers = s.timers ++ node ∷ [];
        }))

    u : Service
    u = record w {
      list = rejuvenate t1 node w.list;
      buffer = w.buffer ++ message_entry t1 Tag.active node ∷ [];
    }
