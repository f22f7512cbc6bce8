-- ===== src/Membership/Repair/Ring.antt =====
-- The ring with the failed peer in it, its neighbours there, and the transfers that follow.
use mathlib.Core.List.{Perm}
use mathlib.Core.List.Perm
use rain_strom_distributed_s.Prelude.{
  ℕ, ◌+◌, ◌-◌, ◌%◌, ◌≤◌, ◌<◌, ◌≡◌, refl, some, List, [], ◌∷◌, arith, ltb, length, get_elem?,
  Bool-cases, inl, inr, ◌>>=◌,
}
use rain_strom_distributed_s.Config.{Config}
use rain_strom_distributed_s.Membership.Types.{MembershipList}
use rain_strom_distributed_s.Membership.Table.{peer_ids}
use rain_strom_distributed_s.Membership.Repair.{hypothetical_list, index_of}
use rain_strom_distributed_s.Membership.Repair.Search.{Up}

hypothetical_list-Up :
    (lo peer : ℕ) (ps : List ℕ) → lo ≤ peer → Up lo ps → Up lo (hypothetical_list ps peer)
unfolding hypothetical_list
hypothetical_list-Up lo peer [] h u = (h, tt)
hypothetical_list-Up lo peer (p ∷ ps) h u = ground (arith, hypothetical_list-Up p peer ps)

hypothetical_list-perm : (peer : ℕ) (ps : List ℕ) → Perm (hypothetical_list ps peer) (peer ∷ ps)
unfolding hypothetical_list
hypothetical_list-perm peer [] = Perm.refl _
hypothetical_list-perm peer (p ∷ ps) = elim (Bool-cases (ltb peer p)) [
  | inl h ↦ rw h (Perm.refl _)
  | inr h ↦ rw h (Perm.trans (Perm.cons p (hypothetical_list-perm peer ps)) (Perm.swap peer p ps))
]

-- The rebuilt ring: the peers that are left and the given one, in the order of the ring.
pub hypothetical_list-sorted :
    (peer : ℕ) (ps : List ℕ)
    → Up 0 ps
    → Up 0 (hypothetical_list ps peer) × Perm (hypothetical_list ps peer) (peer ∷ ps)
hypothetical_list-sorted peer ps u =
    (hypothetical_list-Up 0 peer ps (omega arith) u, hypothetical_list-perm peer ps)

index_of-lt :
    (peer : ℕ) (ps : List ℕ)
    → index_of (hypothetical_list ps peer) peer < length (hypothetical_list ps peer)
unfolding hypothetical_list index_of
index_of-lt peer [] = ground arith
index_of-lt peer (p ∷ ps) = ground (arith, index_of-lt peer ps)

-- The peers at a distance before and behind a place on the ring.
abbrev pub Before : List ℕ → ℕ → ℕ → ℕ → Type 0
Before ring index i p = get_elem? ring ((index + length ring - i) % length ring) ≡ some p

abbrev pub Behind : List ℕ → ℕ → ℕ → ℕ → Type 0
Behind ring index i p = get_elem? ring ((index + i) % length ring) ≡ some p

-- Three peers on each side of a place.
pub record Around (ring : List ℕ) (index : ℕ) : Type 0 where
  pub p1 : ℕ
  pub p2 : ℕ
  pub p3 : ℕ
  pub s1 : ℕ
  pub s2 : ℕ
  pub s3 : ℕ
  pub before1 : Before ring index 1 p1
  pub before2 : Before ring index 2 p2
  pub before3 : Before ring index 3 p3
  pub behind1 : Behind ring index 1 s1
  pub behind2 : Behind ring index 2 s2
  pub behind3 : Behind ring index 3 s3

abbrev pub ring_of : MembershipList → ℕ → List ℕ
ring_of m peer = hypothetical_list (peer_ids m) peer

abbrev pub place_of : MembershipList → ℕ → ℕ
place_of m peer = index_of (ring_of m peer) peer
