-- ===== src/Store/Sorted.antt =====
-- receivedIndices lists the received indices in ascending order, each as often as it is held.
use mathlib.Core.List.{Perm}
use mathlib.Core.List.Perm
use bitphase_file_share.Prelude.{List, [], ◌∷◌, arith, leb_ℤ, ◌≤ℤ◌, Text, ℤ, Bool-cases, inl, inr}
use bitphase_file_share.Store.Ops.{Store, set_of, insert_sorted, sort_ints, received_indices}

abbrev pub IsBelow : ℤ → List ℤ → Type 0
IsBelow i [] = Unit
IsBelow i (j ∷ l) = (i ≤ℤ j) × IsBelow i l

abbrev pub IsSorted : List ℤ → Type 0
IsSorted [] = Unit
IsSorted (i ∷ l) = IsBelow i l × IsSorted l

IsBelow-trans : (i j : ℤ) (l : List ℤ) → i ≤ℤ j → IsBelow j l → IsBelow i l
IsBelow-trans i j [] h b = tt
IsBelow-trans i j (k ∷ l) h (le, b) = (omega arith, IsBelow-trans i j l h b)

insert_sorted-IsBelow :
    (i j : ℤ) (l : List ℤ) → i ≤ℤ j → IsBelow i l → IsBelow i (insert_sorted j l)
unfolding insert_sorted
insert_sorted-IsBelow i j [] h b = (h, tt)
insert_sorted-IsBelow i j (k ∷ l) h (le, b) = elim (Bool-cases (leb_ℤ j k)) [
  | inl first ↦ rw first (h, (le, b))
  | inr later ↦ rw later (le, insert_sorted-IsBelow i j l h b)
]

insert_sorted-IsSorted : (j : ℤ) (l : List ℤ) → IsSorted l → IsSorted (insert_sorted j l)
unfolding insert_sorted
insert_sorted-IsSorted j [] s = (tt, tt)
insert_sorted-IsSorted j (k ∷ l) (b, s) = elim (Bool-cases (leb_ℤ j k)) [
  | inl first ↦ rw first ((ground arith, IsBelow-trans j k l (ground arith) b), (b, s))
  | inr later ↦
      rw later (insert_sorted-IsBelow k j l (ground arith) b, insert_sorted-IsSorted j l s)
]

insert_sorted-perm : (j : ℤ) (l : List ℤ) → Perm (insert_sorted j l) (j ∷ l)
unfolding insert_sorted
insert_sorted-perm j [] = Perm.refl (j ∷ [])
insert_sorted-perm j (k ∷ l) = elim (Bool-cases (leb_ℤ j k)) [
  | inl first ↦ rw first (Perm.refl (j ∷ k ∷ l))
  | inr later ↦ rw later (Perm.trans (Perm.cons k (insert_sorted-perm j l)) (Perm.swap j k l))
]

sort_ints-IsSorted : (l : List ℤ) → IsSorted (sort_ints l)
unfolding sort_ints
sort_ints-IsSorted [] = tt
sort_ints-IsSorted (i ∷ l) = insert_sorted-IsSorted i _ (sort_ints-IsSorted l)

sort_ints-perm : (l : List ℤ) → Perm (sort_ints l) l
unfolding sort_ints
sort_ints-perm [] = Perm.refl []
sort_ints-perm (i ∷ l) =
    Perm.trans (insert_sorted-perm i (sort_ints l)) (Perm.cons i (sort_ints-perm l))

-- The list that a client gets is sorted, and is a rearrangement of the received set.
pub received_indices-IsSorted :
    (id : Text) (s : Store)
    → IsSorted (received_indices id s) × Perm (received_indices id s) (set_of id s.received)
unfolding received_indices
received_indices-IsSorted id s =
    (sort_ints-IsSorted (set_of id s.received), sort_ints-perm (set_of id s.received))
