-- ===== src/Log/Turn.antt =====
-- One rotation on a disk that refuses nothing.
use bitphase_file_share.Prelude.{
  ℕ, suc, ◌≡◌, ◌≤◌, ◌<◌, ◌-◌, ◌^◌, refl, sym, ◌∙◌, ap, true, false, inl, inr, [], ◌++◌, none, some,
  arith, length, Text, bytes, text_eq, text_eq_iff, text_eq_refl, lookup, lookup-insert,
  lookup-insert_self, lookup-delete, pos, ok, if◌then◌else◌, Option-cases,
}
use bitphase_file_share.Log.{
  Disk, Io, RotatingFile, Log, content, content_of, open_append, rename, remove, backup, shift,
  close, closed, reopen, after_rename, make_room, after_close, rotate, on_disk,
}
use bitphase_file_share.Log.Shift.{
  IsCalm, backup-injective, lookup-rename, shift-IsAside, lookup-shift, lookup-shift_first,
}
use bitphase_file_share.Log.Kept.{
  backups, IsLive, backup-first, backup-aside, backups-up, backups-first,
}

-- What a rotation leaves.
abbrev pub turned : Io → Log → Log
turned io s = record {
  file = record s.file { is_open = true; size = 0 };
  disk =
      open_append s.file.path
        (rename io s.file.path (backup s.file.path 1) (make_room io s.file s.disk)).1;
}

module _ (io : Io) (calm : IsCalm io) (n : ℕ) (small : suc n < 2 ^ 63) where
  after_rename-calm :
      (s : Log) (from to : Text) (d : Disk)
      → after_rename io s (rename io from to d) ≡ reopen io (on_disk s (rename io from to d).1)
  unfolding rename
  after_rename-calm s from to d = elim (Option-cases (lookup from d)) [
    | inl gone ↦ rw (calm.renames from, gone, rename) refl
    | inr (b, here) ↦ rw (calm.renames from, here, rename) refl
  ]

  close-calm : (s : Log) → s.file.is_open ≡ true → close io s ≡ (none, closed s)
  unfolding close
  close-calm s up = simp (up, calm.closes, close) refl

  reopen-calm :
      (s : Log)
      → reopen io s ≡ (
        ok tt,
        record {
          file = record s.file { is_open = true; size = 0 };
          disk = open_append s.file.path s.disk;
        },
      )
  unfolding reopen
  reopen-calm s = rw (calm.opens, reopen) refl

  pub rotate-calm : (s : Log) → s.file.is_open ≡ true → rotate io s ≡ (ok tt, turned io s)
  unfolding rotate make_room
  rotate-calm s up =
      let room = make_room io s.file s.disk in
      let leave : Text → Disk = λ to. (rename io s.file.path to room).1 in
      ap (λ c. after_close io c) (close-calm s up)
      ∙ after_rename-calm (closed s) s.file.path (s.file.path ++ bytes ".1") room
      ∙ ap (λ to. reopen io (on_disk (closed s) (leave to))) (sym (backup-first s.file.path))
      ∙ reopen-calm (on_disk (closed s) (leave (backup s.file.path 1)))

  module _ (r : RotatingFile) (counted : r.max_files ≡ pos (suc n)) (d : Disk) where
    abbrev cleared : Disk
    cleared = remove io (backup r.path (suc n)) d

    make_room-shift : make_room io r d ≡ shift io r.path n cleared
    unfolding make_room
    make_room-shift =
        let start : suc n - 1 ≡ n = omega arith in
        rw (counted, make_room) (ap (λ k. shift io r.path k cleared) start)

    lookup-cleared :
        (name : Text)
        → lookup name cleared
          ≡ (if text_eq (backup r.path (suc n)) name then none else lookup name d)
    unfolding remove
    lookup-cleared name =
        rw (calm.removes (backup r.path (suc n)), remove)
          (lookup-delete (backup r.path (suc n)) name d)

    free : lookup (backup r.path (suc n)) cleared ≡ none
    free =
        ground (arith, lookup-cleared (backup r.path (suc n)), text_eq_refl (backup r.path (suc n)))

    path-make_room : lookup r.path (make_room io r d) ≡ lookup r.path d
    path-make_room =
        ap (λ e. lookup r.path e) make_room-shift
        ∙ shift-IsAside io calm r.path r.path n cleared small free (λ j l m. backup-aside r.path j)
        ∙ ground (arith, lookup-cleared r.path, backup-aside r.path (suc n))

    first-make_room : lookup (backup r.path 1) (make_room io r d) ≡ none
    first-make_room =
        ap (λ e. lookup (backup r.path 1) e) make_room-shift
        ∙ lookup-shift_first io calm r.path n cleared small free

    backups-make_room : backups r.path (suc n) (make_room io r d) ≡ backups r.path n d
    backups-make_room = backups-up r.path n d (make_room io r d) first-make_room λ j low high.
        let apart : text_eq (backup r.path (suc n)) (backup r.path j) ≡ false =
          backup-injective r.path (suc n) j small (omega (arith, high, small))
            (λ e. omega (arith, e, high)) in
        ap (λ e. lookup (backup r.path (suc j)) e) make_room-shift
        ∙ lookup-shift io calm r.path n j cleared small free low high
        ∙ ground (arith, lookup-cleared (backup r.path j), apart)

  pub turned-IsLive :
      (s : Log)
      → IsLive (suc n) s
      → IsLive (suc n) (turned io s)
        × (backups s.file.path (suc n) (turned io s).disk
            ≡ backups s.file.path n s.disk ++ content s.file.path s.disk)
        × (content s.file.path (turned io s).disk ≡ [])
  turned-IsLive s live =
      let path = s.file.path in
      let first = backup path 1 in
      let room = make_room io s.file s.disk in
      let left = (rename io path first room).1 in
      let free = first-make_room s.file live.counted s.disk in
      let gone : lookup path left ≡ none =
        lookup-rename io calm path first path room free
        ∙ ground (arith, backup-aside path 1, text_eq_refl path) in
      let blank : lookup path (open_append path left) ≡ some [] =
        lookup-insert_self path (content path left) left ∙ ap (λ o. some (content_of o)) gone in
      let behind : lookup first (open_append path left) ≡ lookup path s.disk =
        lookup-insert path first (content path left) left
        ∙ ground (
          arith,
          backup-aside path 1,
          text_eq_iff path first,
          text_eq_iff first path,
          text_eq_refl first,
          lookup-rename io calm path first first room free,
          path-make_room s.file live.counted s.disk,
        ) in
      let others : (j : ℕ)
          → 2 ≤ j
          → j ≤ suc n
          → lookup (backup path j) (open_append path left) ≡ lookup (backup path j) room =
        λ j low high.
          let apart : text_eq first (backup path j) ≡ false =
            backup-injective path 1 j (omega (arith, low, high, small)) (omega (arith, high, small))
              (λ e. omega (arith, e, low)) in
          lookup-insert path (backup path j) (content path left) left
          ∙ ground (
            arith,
            backup-aside path j,
            text_eq_iff path (backup path j),
            text_eq_iff (backup path j) path,
            apart,
            lookup-rename io calm path first (backup path j) room free,
          ) in
      (
        record {
          opened = refl;
          counted = live.counted;
          sized = ap (λ o. length (content_of o)) blank;
        },
        backups-first path n room (open_append path left) free others
            ∙ ap (λ o. backups path (suc n) room ++ content_of o) behind
            ∙ ap (λ t. t ++ content path s.disk) (backups-make_room s.file live.counted s.disk),
        ap content_of blank,
      )
