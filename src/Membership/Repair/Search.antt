-- ===== src/Membership/Repair/Search.antt =====
-- `HypotheticalIndexForPeerId` is the number of entries below the peer.
use rain_strom_distributed_s.Prelude.{
  ℕ, zero, suc, ◌+◌, ◌-◌, ◌/◌, ◌≤◌, ◌<◌, ◌≡◌, refl, some, List, [], ◌∷◌, arith, ltb, length,
  get_elem?, get_elem?_lt, Bool-cases, inl, inr, ltb→lt, ltb-le, if◌then◌else◌,
}
use rain_strom_distributed_s.Membership.Types.{MembershipList}
use rain_strom_distributed_s.Membership.Table.{peer_ids}
use rain_strom_distributed_s.Membership.Table.Order.{From, IsSorted}
use rain_strom_distributed_s.Membership.Repair.{search, hypothetical_index_for_peer_id}

-- How many entries of the list lie below a peer id.
abbrev pub count_below : ℕ → List ℕ → ℕ
count_below peer [] = 0
count_below peer (p ∷ ps) = if ltb p peer then suc (count_below peer ps) else count_below peer ps

-- A list of numbers that does not fall, from `lo` on.
abbrev pub Up : ℕ → List ℕ → Type 0
Up lo [] = Unit {0}
Up lo (p ∷ ps) = (lo ≤ p) × Up p ps

count_below-zero : (lo peer : ℕ) (ps : List ℕ) → Up lo ps → peer ≤ lo → count_below peer ps ≡ 0
count_below-zero lo peer [] u h = refl
count_below-zero lo peer (p ∷ ps) u h = ground (arith, count_below-zero p peer ps)

count_below-le-length : (peer : ℕ) (ps : List ℕ) → count_below peer ps ≤ length ps
count_below-le-length peer [] = omega arith
count_below-le-length peer (p ∷ ps) = ground (arith, count_below-le-length peer ps)

-- In a sorted list an element is below the peer exactly when its index is below the count.
below_index :
    (lo peer : ℕ) (ps : List ℕ) (i p : ℕ)
    → Up lo ps
    → get_elem? ps i ≡ some p
    → (p < peer → i < count_below peer ps) × (peer ≤ p → count_below peer ps ≤ i)
below_index lo peer [] i p u e = absurd (cc)
below_index lo peer (x ∷ ps) zero p u e =
    let z : x ≡ p = cc in (λ h. ground arith, λ h. ground (arith, count_below-zero x peer ps u.1))
below_index lo peer (x ∷ ps) (suc i) p u e =
    let (a, b) = below_index x peer ps i p u.1 e in
    let z = count_below-zero x peer ps u.1 in
    (λ h. ground (arith, a h, z), λ h. ground (arith, b h, z))

-- The invariant of the loop: the count lies between the bounds, and the fuel exceeds their gap.
search-count :
    (fuel : ℕ) (ps : List ℕ) (peer left right : ℕ)
    → Up 0 ps
    → left ≤ count_below peer ps
    → count_below peer ps ≤ right
    → right ≤ length ps
    → right - left < fuel
    → search fuel ps peer left right ≡ some (count_below peer ps)
unfolding search
search-count zero ps peer left right u a b c f = absurd (omega arith)
search-count (suc fuel) ps peer left right u a b c f = elim (Bool-cases (ltb left right)) [
  | inr stop ↦ rw stop (ground arith)
  | inl go ↦
      let m = (left + right) / 2 in
      let l = ltb→lt left right go in
      let (p, e) = get_elem?_lt ps m (omega arith) in
      let (x, y) = below_index 0 peer ps m p u e in
      rw (go, e)
        (elim (Bool-cases (ltb p peer)) [
          | inl low ↦
              let z = x (ltb→lt p peer low) in
              rw low (search-count fuel ps peer (m + 1) right u (omega arith) b c (omega arith))
          | inr high ↦
              let z = y (ltb-le p peer high) in
              rw high (search-count fuel ps peer left m u a z (omega arith) (omega arith))
        ])
]

Up-peer_ids : (lo : ℕ) (m : MembershipList) → From lo m → Up lo (peer_ids m)
Up-peer_ids lo [] s = tt
Up-peer_ids lo (e ∷ m) s = (s.0, Up-peer_ids e.peer_id m s.1)

pub length-peer_ids : (m : MembershipList) → length (peer_ids m) ≡ length m
length-peer_ids [] = refl
length-peer_ids (e ∷ m) = omega (arith, length-peer_ids m)

-- On a list sorted by peer id the binary search ends, never reads outside the list, and returns
-- the number of entries whose peer id is below the one that is looked for.
pub hypothetical_index-count_below :
    (m : MembershipList) (peer : ℕ)
    → IsSorted m
    → hypothetical_index_for_peer_id m peer ≡ some (count_below peer (peer_ids m))
unfolding hypothetical_index_for_peer_id
hypothetical_index-count_below m peer s =
    let n = length-peer_ids m in
    search-count (length m + 1) (peer_ids m) peer 0 (length m) (Up-peer_ids 0 m s) (omega arith)
      (omega (arith, count_below-le-length peer (peer_ids m))) (omega arith) (omega arith)
