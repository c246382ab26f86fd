-- ===== src/Store/Burn/Cover.antt =====
-- A set of distinct indices below a total has as many elements as the total exactly when every index
-- is in it: what lets markLinkChunkServed compare two numbers.
use bitphase_file_share.Prelude.{
  ℕ, zero, suc, ◌≤◌, ◌<◌, ◌≡◌, ◌↔◌, refl, true, false, [], ◌∷◌, arith, if◌then◌else◌, length, ℤ,
  pos, negsuc, IntSet, member, add, ltb, int_eq, Bool-cases, inl, inr,
}

abbrev pub IsIndex : ℕ → ℤ → Type 0
IsIndex n (pos k) = k < n
IsIndex n (negsuc k) = ⊥

-- Distinct indices of a transfer with `n` chunks.
abbrev pub IsIndexSet : ℕ → IntSet → Type 0
IsIndexSet n [] = Unit
IsIndexSet n (i ∷ s) = IsIndex n i × (member i s ≡ false) × IsIndexSet n s

abbrev pub IsCovered : ℕ → IntSet → Type 0
IsCovered n s = (k : ℕ) → k < n → member (pos k) s ≡ true

pub add-IsIndexSet :
    (n : ℕ) (i : ℤ) (s : IntSet) → IsIndex n i → IsIndexSet n s → IsIndexSet n (add i s)
unfolding add
add-IsIndexSet n i s h d = elim (Bool-cases (member i s)) [
  | inl old ↦ rw old d
  | inr new ↦ rw new (h, new, d)
]

-- How many of the indices below `n` the set holds.
count_below : ℕ → IntSet → ℕ
count_below zero s = 0
count_below (suc n) s = if member (pos n) s then suc (count_below n s) else count_below n s

count_below-le : (n : ℕ) (s : IntSet) → count_below n s ≤ n
unfolding count_below
count_below-le zero s = omega arith
count_below-le (suc n) s = ground (arith, count_below-le n s)

count_below-nil : (n : ℕ) → count_below n [] ≡ 0
unfolding count_below member
count_below-nil zero = refl
count_below-nil (suc n) = count_below-nil n

-- A new index counts once, if it is below the bound.
count_below-cons :
    (n k : ℕ) (s : IntSet)
    → member (pos k) s ≡ false
    → count_below n (pos k ∷ s) ≡ (if ltb k n then suc (count_below n s) else count_below n s)
unfolding count_below member int_eq
count_below-cons zero k s h = ground arith
count_below-cons (suc n) k s h = ground (arith, count_below-cons n k s h)

length-count_below : (n : ℕ) (s : IntSet) → IsIndexSet n s → length s ≡ count_below n s
length-count_below n [] d = rw count_below-nil
length-count_below n (pos k ∷ s) (lt, new, d) =
    ground (arith, count_below-cons n k s new, length-count_below n s d)
length-count_below n (negsuc k ∷ s) (lt, new, d) = absurd lt

IsCovered-of_count : (n : ℕ) (s : IntSet) → n ≤ count_below n s → IsCovered n s
unfolding count_below
IsCovered-of_count zero s h k lt = absurd (omega arith)
IsCovered-of_count (suc n) s h k lt = elim (Bool-cases (member (pos n) s)) [
  | inl top ↦ ground (arith, IsCovered-of_count n s (ground arith) k)
  | inr gap ↦ absurd (ground (arith, count_below-le n s))
]

count_of-IsCovered : (n : ℕ) (s : IntSet) → IsCovered n s → n ≤ count_below n s
unfolding count_below
count_of-IsCovered zero s c = omega arith
count_of-IsCovered (suc n) s c =
    ground (arith, c n, count_of-IsCovered n s (λ k lt. c k (omega arith)))

pub covers_iff : (n : ℕ) (s : IntSet) → IsIndexSet n s → (n ≤ length s) ↔ IsCovered n s
covers_iff n s d = (
  λ h. IsCovered-of_count n s (omega (arith, length-count_below n s d)),
  λ c. omega (arith, length-count_below n s d, count_of-IsCovered n s c),
)
