-- ===== src/Log/Bounds.antt =====
-- No call on the directory of the log makes a file longer than the longest.
pub mod Rotation
pub mod Writes
use bitphase_file_share.Prelude.{
  ℕ, zero, suc, ◌≡◌, ◌≤◌, ◌<◌, ◌+◌, refl, ◌∙◌, ap, inl, inr, Bool, true, false, List, [], ◌∷◌, ◌++◌,
  Option, none, some, arith, ltb, length, take, length-append, length-take, Text, bytes, text_eq,
  text_eq_iff, Map, lookup, insert, delete, lookup-insert, lookup-insert_self, lookup-delete,
  lookup-delete_self, ℤ, pos, ltb_ℤ, Result, ok, err, Bool-cases, Option-cases, either_branch,
  if◌then◌else◌,
}
use bitphase_file_share.Strconv.{itoa}
use bitphase_file_share.Log.{
  Disk, Io, RotatingFile, Log, content, content_of, open_append, Renamed, renamed, missing, denied,
  rename, remove, backup, shift, first_shifted, closed, close, reopen, after_rename, make_room,
  after_close, rotate, added, append, after_rotate, append_open, is_full, write, Written, on_disk,
}

-- No file is longer than `limit`.
abbrev pub AreBounded : ℕ → Disk → Type 0
AreBounded limit d = (name : Text) → length (content name d) ≤ limit

module _ (limit : ℕ) where
  pub insert-AreBounded :
      (to b : Text) (d : Disk)
      → length b ≤ limit
      → AreBounded limit d
      → AreBounded limit (insert to b d)
  insert-AreBounded to b d short h name = ground (arith, lookup-insert to name b d, h name)

  pub delete-AreBounded :
      (from : Text) (d : Disk) → AreBounded limit d → AreBounded limit (delete from d)
  delete-AreBounded from d h name = ground (arith, lookup-delete from name d, h name)

  pub rename-AreBounded :
      (io : Io) (from to : Text) (d : Disk)
      → AreBounded limit d
      → AreBounded limit (rename io from to d).1
  unfolding rename
  rename-AreBounded io from to d h = elim (Option-cases (io.rename_error from)) [
    | inr (e, refused) ↦ rw (refused, rename) h
    | inl calm ↦ elim (Option-cases (lookup from d)) [
      | inl gone ↦ rw (calm, gone, rename) h
      | inr (b, here) ↦
          let short : length b ≤ limit = rw here at (h from) in
          rw (calm, here, rename)
            (insert-AreBounded to b (delete from d) short (delete-AreBounded from d h))
    ]
  ]

  pub remove-AreBounded :
      (io : Io) (name : Text) (d : Disk) → AreBounded limit d → AreBounded limit (remove io name d)
  unfolding remove
  remove-AreBounded io name d h = elim (Option-cases (io.remove_error name)) [
    | inr (e, refused) ↦ rw (refused, remove) h
    | inl calm ↦ rw (calm, remove) (delete-AreBounded name d h)
  ]

  pub shift-AreBounded :
      (io : Io) (path : Text) (i : ℕ) (d : Disk)
      → AreBounded limit d
      → AreBounded limit (shift io path i d)
  unfolding shift
  shift-AreBounded io path zero d h = h
  shift-AreBounded io path (suc i) d h =
      shift-AreBounded io path i _
        (rename-AreBounded io (backup path (suc i)) (backup path (suc (suc i))) d h)
