-- ===== src/Membership/Table/Order.antt =====
-- The list stays sorted by peer id, and no operation but `add` and `remove` moves an entry.
use mathlib.Core.List.{Perm, append-nil, append_assoc, perm_middle}
use mathlib.Core.List.Perm
use rain_strom_distributed_s.Prelude.{
  ltb, ℕ, ◌≤◌, ◌≡◌, refl, ap, ◌∙◌, [], ◌∷◌, ◌++◌, arith, Bool-cases, inl, inr,
}
use rain_strom_distributed_s.Membership.Types.{Entry, MembershipList}
use rain_strom_distributed_s.Membership.Table.{insert, sort_onto, add, remove}

-- The peer ids do not fall along the list, and are at least `lo`.
abbrev pub From : ℕ → MembershipList → Type 0
From lo [] = Unit {0}
From lo (e ∷ m) = (lo ≤ e.peer_id) × From e.peer_id m

abbrev pub IsSorted : MembershipList → Type 0
IsSorted m = From 0 m

pub From-mono : {lo hi : ℕ} (m : MembershipList) → lo ≤ hi → From hi m → From lo m
From-mono [] h s = tt
From-mono (e ∷ m) h s = (omega arith, s.1)

pub insert-From :
    (lo : ℕ) (e : Entry) (m : MembershipList) → lo ≤ e.peer_id → From lo m → From lo (insert e m)
unfolding insert
insert-From lo e [] h s = (h, tt)
insert-From lo e (x ∷ m) h s = ground (arith, insert-From x.peer_id e m)

-- Every entry of the front stands at or below the entry behind it.
insert-last :
    (lo : ℕ) (e : Entry) (m xs : MembershipList)
    → From lo (m ++ e ∷ xs)
    → (insert e m ≡ m ++ e ∷ []) × (lo ≤ e.peer_id)
unfolding insert
insert-last lo e [] xs s = (refl, s.0)
insert-last lo e (x ∷ m) xs s = ground (arith, insert-last x.peer_id e m xs s.1)

sort_onto-sorted :
    (lo : ℕ) (acc xs : MembershipList) → From lo (acc ++ xs) → sort_onto acc xs ≡ acc ++ xs
unfolding sort_onto
sort_onto-sorted lo acc [] s = simp append-nil
sort_onto-sorted lo acc (x ∷ xs) s =
    let e = (insert-last lo x acc xs s).0 in
    rw e (sort_onto-sorted lo (acc ++ x ∷ []) xs (rw append_assoc s) ∙ append_assoc acc (x ∷ []) xs)

sort_onto-append :
    (acc xs ys : MembershipList) → sort_onto acc (xs ++ ys) ≡ sort_onto (sort_onto acc xs) ys
unfolding sort_onto
sort_onto-append acc [] ys = refl
sort_onto-append acc (x ∷ xs) ys = sort_onto-append (insert x acc) xs ys

-- On a sorted list the sort only puts the new entry in its place.
pub add-eq-insert : (e : Entry) (m : MembershipList) → IsSorted m → add e m ≡ insert e m
unfolding add sort_onto
add-eq-insert e m s =
    sort_onto-append [] m (e ∷ []) ∙ ap (λ l. sort_onto l (e ∷ [])) (sort_onto-sorted 0 [] m s)

sort_onto-IsSorted : (acc xs : MembershipList) → IsSorted acc → IsSorted (sort_onto acc xs)
unfolding sort_onto
sort_onto-IsSorted acc [] s = s
sort_onto-IsSorted acc (x ∷ xs) s =
    sort_onto-IsSorted (insert x acc) xs (insert-From 0 x acc (omega arith) s)

insert-perm : (e : Entry) (m : MembershipList) → Perm (insert e m) (e ∷ m)
unfolding insert
insert-perm e [] = Perm.refl _
insert-perm e (x ∷ m) = elim (Bool-cases (ltb e.peer_id x.peer_id)) [
  | inl h ↦ rw h (Perm.refl _)
  | inr h ↦ rw h (Perm.trans (Perm.cons x (insert-perm e m)) (Perm.swap e x m))
]

sort_onto-perm : (acc xs : MembershipList) → Perm (sort_onto acc xs) (xs ++ acc)
unfolding sort_onto
sort_onto-perm acc [] = Perm.refl acc
sort_onto-perm acc (x ∷ xs) =
    Perm.trans (sort_onto-perm (insert x acc) xs)
      (Perm.trans (Perm.append (Perm.refl xs) (insert-perm x acc)) (perm_middle xs acc))

-- Whatever list it is given, `Add` leaves it sorted by peer id, with the new entry and every old
-- one in it exactly as often as before.
pub add-IsSorted : (e : Entry) (m : MembershipList) → IsSorted (add e m) × Perm (add e m) (e ∷ m)
unfolding add
add-IsSorted e m = (
  sort_onto-IsSorted [] (m ++ e ∷ []) tt,
  Perm.trans (sort_onto-perm [] (m ++ e ∷ []))
      (rw append-nil (Perm.trans (perm_middle m []) (Perm.cons e (rw append-nil (Perm.refl m))))),
)

pub remove-From : (lo node : ℕ) (m : MembershipList) → From lo m → From lo (remove node m)
unfolding remove
remove-From lo node [] s = tt
remove-From lo node (e ∷ m) s =
    ground (arith, remove-From e.peer_id node m, From-mono {lo = lo} {hi = e.peer_id} m)
