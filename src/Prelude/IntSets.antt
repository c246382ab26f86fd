-- ===== src/Prelude/IntSets.antt =====
-- `map[int]bool` whose values are all true: a set of indices.
use mathlib.Core.Path.{◌≡◌, refl}
use mathlib.Core.Bool.{Bool, true, false}
use mathlib.Core.List.{List, [], ◌∷◌}
use native.Mathlib.Omega.{arith}
use bitphase_file_share.Prelude.Tests.{if◌then◌else◌}
use bitphase_file_share.Prelude.Int.{ℤ, int_eq, int_eq_iff}

abbrev pub IntSet : Type 0
IntSet = List ℤ

unfoldable pub member : ℤ → IntSet → Bool
member i [] = false
member i (j ∷ s) = if int_eq j i then true else member i s

-- set[i] = true
unfoldable pub add : ℤ → IntSet → IntSet
add i s = if member i s then s else i ∷ s

pub member-add :
    (i j : ℤ) (s : IntSet) → member j (add i s) ≡ (if int_eq i j then true else member j s)
unfolding member add
member-add i j s = ground (arith, int_eq_iff i j)

pub member-nil : (i : ℤ) → member i [] ≡ false
unfolding member
member-nil i = refl
