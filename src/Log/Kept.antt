-- ===== src/Log/Kept.antt =====
-- What the files of the log hold together.
use bitphase_file_share.Prelude.{
  ℕ, zero, suc, ◌≡◌, ◌≤◌, refl, sym, ◌∙◌, ap, true, false, [], ◌++◌, none, arith, length,
  append_assoc, append-nil, Text, bytes, text_eq, lookup, pos,
}
use bitphase_file_share.Strconv.{itoa, digits_of}
use bitphase_file_share.Log.{Disk, Log, content, backup}
use bitphase_file_share.Log.Bounds.Rotation.{text_eq-suffix}

-- The first backups, the oldest first.
unfoldable pub backups : Text → ℕ → Disk → Text
backups path zero d = []
backups path (suc i) d = content (backup path (suc i)) d ++ backups path i d

-- The whole log, the oldest line first, with `n` backups.
abbrev pub log_text : ℕ → Log → Text
log_text n s = backups s.file.path n s.disk ++ content s.file.path s.disk

-- An open log with `n` backups whose size is right.
pub record IsLive (n : ℕ) (s : Log) : Type 0 where
  pub opened : s.file.is_open ≡ true
  pub counted : s.file.max_files ≡ pos n
  pub sized : length (content s.file.path s.disk) ≡ s.file.size

pub backup-first : (path : Text) → backup path 1 ≡ path ++ bytes ".1"
unfolding itoa digits_of
backup-first path = append_assoc path (bytes ".") (bytes "1")

pub backup-aside : (path : Text) (j : ℕ) → text_eq (backup path j) path ≡ false
backup-aside path j =
    rw (append_assoc path (bytes ".") (itoa (pos j))) (text_eq-suffix path _ (itoa (pos j)))

-- The same under every name of a backup that is counted.
pub backups-same :
    (path : Text) (i : ℕ) (d e : Disk)
    → ((j : ℕ) → 1 ≤ j → j ≤ i → lookup (backup path j) e ≡ lookup (backup path j) d)
    → backups path i e ≡ backups path i d
unfolding backups
backups-same path zero d e same = refl
backups-same path (suc i) d e same =
    rw
      (
        same (suc i) (omega arith) (omega arith),
        backups-same path i d e (λ j l m. same j l (omega (arith, m))),
      )
      refl

-- One up, with the first free.
pub backups-up :
    (path : Text) (i : ℕ) (d e : Disk)
    → lookup (backup path 1) e ≡ none
    → ((j : ℕ) → 1 ≤ j → j ≤ i → lookup (backup path (suc j)) e ≡ lookup (backup path j) d)
    → backups path (suc i) e ≡ backups path i d
unfolding backups
backups-up path zero d e free up = rw free refl
backups-up path (suc i) d e free up =
    let rest = backups-up path i d e free (λ j l m. up j l (omega (arith, m))) in
    rw (up (suc i) (omega arith) (omega arith))
      (ap (λ t. content (backup path (suc i)) d ++ t) rest)

-- The first alone is new.
pub backups-first :
    (path : Text) (i : ℕ) (d e : Disk)
    → lookup (backup path 1) d ≡ none
    → ((j : ℕ) → 2 ≤ j → j ≤ suc i → lookup (backup path j) e ≡ lookup (backup path j) d)
    → backups path (suc i) e ≡ backups path (suc i) d ++ content (backup path 1) e
unfolding backups
backups-first path zero d e free same = rw free (append-nil (content (backup path 1) e))
backups-first path (suc i) d e free same =
    let rest = backups-first path i d e free (λ j l m. same j l (omega (arith, m))) in
    let top = content (backup path (suc (suc i))) d in
    rw (same (suc (suc i)) (omega arith) (omega arith)) (
      ap (λ t. top ++ t) rest
      ∙ sym (append_assoc top (backups path (suc i) d) (content (backup path 1) e)))
