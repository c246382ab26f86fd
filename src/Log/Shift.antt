-- ===== src/Log/Shift.antt =====
-- The backups move up by one.
use bitphase_file_share.Prelude.{
  ℕ, zero, suc, ◌≡◌, ◌≢◌, ◌≤◌, ◌<◌, ◌^◌, refl, ◌∙◌, ap, inl, inr, false, [], ◌∷◌, ◌++◌, none, some,
  arith, Text, bytes, text_eq, text_eq_iff, text_eq_refl, ◌==◌, lookup, delete, lookup-insert,
  lookup-delete, pos, Option-cases, Bool-cases, if◌then◌else◌,
}
use bitphase_file_share.Strconv.{itoa, atoi}
use bitphase_file_share.Strconv.Decimal.{atoi-itoa}
use bitphase_file_share.Log.{Disk, Io, rename, backup, shift}

-- Every call succeeds.
pub record IsCalm (io : Io) : Type 0 where
  pub opens : io.open_error ≡ none
  pub closes : io.close_error ≡ none
  pub removes : (name : Text) → io.remove_error name ≡ none
  pub renames : (name : Text) → io.rename_error name ≡ none
  pub writes : io.write_error ≡ none

append-cancel : (p s t : Text) → p ++ s ≡ p ++ t → s ≡ t
append-cancel [] s t h = h
append-cancel (c ∷ p) s t h = append-cancel p s t (ground (arith, h))

-- Two numbers of Go's `int` make two names.
pub backup-injective :
    (path : Text) (i j : ℕ)
    → i < 2 ^ 63
    → j < 2 ^ 63
    → i ≢ j
    → text_eq (backup path i) (backup path j) ≡ false
backup-injective path i j p q ne = elim (Bool-cases (text_eq (backup path i) (backup path j))) [
  | inr other ↦ other
  | inl same ↦
      let digits =
        append-cancel (path ++ bytes ".") (itoa (pos i)) (itoa (pos j))
          ((text_eq_iff (backup path i) (backup path j)).0 same) in
      absurd (ground (arith, atoi-itoa i p, atoi-itoa j q, ap atoi digits, ne))
]

-- The name is none of the first backups'.
abbrev pub IsAside : Text → Text → ℕ → Type 0
IsAside path name i = (j : ℕ) → 1 ≤ j → j ≤ i → text_eq (backup path j) name ≡ false

module _ (io : Io) (calm : IsCalm io) where
  -- A name that is free is given to what was under the other.
  pub lookup-rename :
      (from to name : Text) (d : Disk)
      → lookup to d ≡ none
      → lookup name (rename io from to d).1 ≡ (
          if text_eq to name
          then lookup from d
          else if text_eq from name
          then none
          else lookup name d)
  unfolding rename
  lookup-rename from to name d free = elim (Option-cases (lookup from d)) [
    | inr (b, here) ↦
        rw (calm.renames from, here, rename)
          (lookup-insert to name b (delete from d)
            ∙ ap (λ o. if text_eq to name then some b else o) (lookup-delete from name d))
    | inl gone ↦
        rw (calm.renames from, gone, rename)
          (ground (arith, free, gone, text_eq_iff to name, text_eq_iff from name))
  ]

  pub shift-IsAside :
      (path name : Text) (i : ℕ) (d : Disk)
      → suc i < 2 ^ 63
      → lookup (backup path (suc i)) d ≡ none
      → IsAside path name (suc i)
      → lookup name (shift io path i d) ≡ lookup name d
  unfolding shift
  shift-IsAside path name zero d small free aside = refl
  shift-IsAside path name (suc i) d small free aside =
      let from = backup path (suc i) in
      let to = backup path (suc (suc i)) in
      let moved = (rename io from to d).1 in
      let apart : text_eq to from ≡ false =
        backup-injective path (suc (suc i)) (suc i) small (omega (arith, small))
          (λ e. omega (arith, e)) in
      let now : lookup from moved ≡ none =
        lookup-rename from to from d free ∙ ground (arith, apart, text_eq_refl from) in
      let same : lookup name moved ≡ lookup name d =
        lookup-rename from to name d free
        ∙ ground (
          arith,
          aside (suc (suc i)) (omega arith) (omega arith),
          aside (suc i) (omega arith) (omega arith),
        ) in
      shift-IsAside path name i moved (omega (arith, small)) now
        (λ j l m. aside j l (omega (arith, m)))
      ∙ same

  -- The name after a number's holds what was under the number's, and the first is free.
  pub lookup-shift :
      (path : Text) (i j : ℕ) (d : Disk)
      → suc i < 2 ^ 63
      → lookup (backup path (suc i)) d ≡ none
      → 1 ≤ j
      → j ≤ i
      → lookup (backup path (suc j)) (shift io path i d) ≡ lookup (backup path j) d
  unfolding shift
  lookup-shift path zero j d small free low high = absurd (omega (arith, low, high))
  lookup-shift path (suc i) j d small free low high =
      let from = backup path (suc i) in
      let to = backup path (suc (suc i)) in
      let moved = (rename io from to d).1 in
      let apart : (k l : ℕ)
          → k ≤ suc (suc i)
          → l ≤ suc (suc i)
          → k ≢ l
          → text_eq (backup path k) (backup path l) ≡ false =
        λ k l p q. backup-injective path k l (omega (arith, p, small)) (omega (arith, q, small)) in
      let now : lookup from moved ≡ none =
        lookup-rename from to from d free
        ∙ ground (
          arith,
          apart (suc (suc i)) (suc i) (omega arith) (omega arith) (λ e. omega (arith, e)),
          text_eq_refl from,
        ) in
      elim (Bool-cases (j == suc i)) [
        | inl top ↦
            let here : j ≡ suc i = ground (arith, top) in
            let landed : lookup to moved ≡ lookup from d =
              lookup-rename from to to d free ∙ ground (arith, text_eq_refl to) in
            rw here (
              shift-IsAside path to i moved (omega (arith, small)) now (λ k l m.
                apart k (suc (suc i)) (omega (arith, m)) (omega arith) (λ e. omega (arith, e, m)))
              ∙ landed)
        | inr lower ↦
            let below : j ≤ i = ground (arith, lower, high) in
            let same : lookup (backup path j) moved ≡ lookup (backup path j) d =
              lookup-rename from to (backup path j) d free
              ∙ ground (
                arith,
                apart (suc (suc i)) j (omega arith) (omega (arith, below))
                    (λ e. omega (arith, e, below)),
                apart (suc i) j (omega arith) (omega (arith, below)) (λ e. omega (arith, e, below)),
              ) in
            lookup-shift path i j moved (omega (arith, small)) now low below ∙ same
      ]

  pub lookup-shift_first :
      (path : Text) (i : ℕ) (d : Disk)
      → suc i < 2 ^ 63
      → lookup (backup path (suc i)) d ≡ none
      → lookup (backup path 1) (shift io path i d) ≡ none
  unfolding shift
  lookup-shift_first path zero d small free = free
  lookup-shift_first path (suc i) d small free =
      let from = backup path (suc i) in
      let to = backup path (suc (suc i)) in
      let moved = (rename io from to d).1 in
      let apart : text_eq to from ≡ false =
        backup-injective path (suc (suc i)) (suc i) small (omega (arith, small))
          (λ e. omega (arith, e)) in
      let now : lookup from moved ≡ none =
        lookup-rename from to from d free ∙ ground (arith, apart, text_eq_refl from) in
      lookup-shift_first path i moved (omega (arith, small)) now
