-- ===== src/Membership/Service/Actions.antt =====
-- An action on a message is the operation on the finite map of statuses that its kind names.
use mathlib.Core.Path.{fun_ext}
use rain_strom_distributed_s.Prelude.{
  All, ℕ, ◌≡◌, refl, ap, ◌∙◌, Option, some, List, [], ◌∷◌, inl, inr,
}
use rain_strom_distributed_s.Prelude.Run.{ok}
use rain_strom_distributed_s.Config.{Config, ring_id}
use rain_strom_distributed_s.Membership.Types.{Tag, Message}
use rain_strom_distributed_s.Membership.Table.Placed.{
  Inv, remove-Inv, SameKeys-Inv, add_or_update-Inv,
}
use rain_strom_distributed_s.Membership.Table.Keys.{update-SameKeys}
use rain_strom_distributed_s.Membership.Table.View.{view, mark, put, drop, view-update, view-remove}
use rain_strom_distributed_s.Membership.Service.{
  Service, perform, perform_action_on_message, perform_all,
}

-- What a message does to the statuses.
unfoldable pub effect : Tag → ℕ → (ℕ → Option Tag) → ℕ → Option Tag
effect Tag.failed node v = drop node v
effect Tag.left node v = drop node v
effect Tag.join node v = put node Tag.active v
effect Tag.active node v = put node Tag.active v
effect Tag.suspected node v = mark node Tag.suspected v
effect _ node v = v

-- What the FAIL, JOIN, LEAVE, SUSPECT and ALIVE messages make of a state.
pub record Refines (c : Config) (t : Tag) (node : ℕ) (s w : Service) : Type 0 where
  pub well : Inv c w.list
  pub views : (n : ℕ) → view w.list n ≡ effect t node (view s.list) n

perform-Refines :
    (t : Tag) (c : Config) (now p : ℕ) (msg : Message) (s : Service)
    → msg.msg_type ≡ t
    → ring_id c msg.node_id ≡ some p
    → Inv c s.list
    → (w : Service) × (perform t c now msg s ≡ ok w) × Refines c t msg.node_id s w
unfolding perform effect
perform-Refines Tag.failed c now p msg s t h v = (
  _,
  refl,
  record {
    well = remove-Inv c msg.node_id s.list v;
    views = λ n. view-remove msg.node_id s.list n v.unique;
  },
)
perform-Refines Tag.left c now p msg s t h v = (
  _,
  refl,
  record {
    well = remove-Inv c msg.node_id s.list v;
    views = λ n. view-remove msg.node_id s.list n v.unique;
  },
)
perform-Refines Tag.suspected c now p msg s t h v = (
  _,
  refl,
  record {
    well = SameKeys-Inv c s.list _ (update-SameKeys msg.node_id Tag.suspected s.list) v;
    views = λ n. view-update msg.node_id Tag.suspected s.list n;
  },
)
perform-Refines Tag.active c now p msg s t h v =
    let (l, e, k, q) = add_or_update-Inv c now p msg s.list h (inr t) v in
    (record s { list = l }, rw e refl, record { well = k; views = q })
perform-Refines Tag.join c now p msg s t h v =
    let (l, e, k, q) = add_or_update-Inv c now p msg s.list h (inl t) v in
    (record s { list = l }, rw e refl, record { well = k; views = q })
perform-Refines _ c now p msg s t h v = (s, refl, record { well = v; views = λ n. refl })

-- The buffered messages, performed one after the other, do to the statuses what their effects do.
abbrev pub effects : List Message → (ℕ → Option Tag) → ℕ → Option Tag
effects [] v = v
effects (msg ∷ msgs) v = effects msgs (effect msg.msg_type msg.node_id v)

-- Each message is about a server of the configuration.
abbrev pub AreKnown : Config → List Message → Type 0
AreKnown c msgs = All (λ msg. (p : ℕ) × (ring_id c msg.node_id ≡ some p)) msgs

-- From a well-formed list, the loop over the buffer that ends `processSignal` runs through without
-- a panic when every message is about a configured server; the list it leaves is well formed, and
-- the status of each node is what the messages, taken in their order, make of it.
pub perform_all-effects :
    (c : Config) (now : ℕ) (msgs : List Message) (s : Service)
    → AreKnown c msgs
    → Inv c s.list
    → (w : Service) × (perform_all c now msgs s ≡ ok w)
      × Inv c w.list
      × ((n : ℕ) → view w.list n ≡ effects msgs (view s.list) n)
unfolding perform_all perform_action_on_message
perform_all-effects c now [] s k v = (s, refl, v, λ n. refl)
perform_all-effects c now (msg ∷ msgs) s k v =
    let (w, e, r) = perform-Refines msg.msg_type c now k.0.0 msg s refl k.0.1 v in
    let (u, f, i, q) = perform_all-effects c now msgs w k.1 r.well in
    (u, rw e f, i, λ n. q n ∙ ap (λ (g : ℕ → Option Tag). effects msgs g n) (fun_ext r.views))
