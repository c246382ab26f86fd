-- ===== src/Store/Disk/Keeps.antt =====
-- What each call on the disk leaves in place, whether it succeeds or fails.
use bitphase_file_share.Prelude.{
  ◌≡◌, Bool, true, false, [], Option, none, some, arith, Text, text_eq, text_eq_iff, lookup, insert,
  is_some, lookup-insert, lookup-delete, lookup-insert_self, ok, take, Option-cases, inl, inr,
}
use bitphase_file_share.Store.Disk.{
  Disk, Files, Io, WriteOutcome, mkdir_all, write_file, rename, remove_all, written, refused, torn,
  put_file, write_to,
}

unfoldable pub has_dir : Text → Disk → Bool
has_dir dir d = is_some (lookup dir d)

abbrev pub holds : Text → Option Files → Bool
holds name none = false
holds name (some files) = is_some (lookup name files)

unfoldable pub has_file : Text → Text → Disk → Bool
has_file dir name d = holds name (lookup dir d)

pub has_dir_of_file :
    (dir name : Text) (d : Disk) → has_file dir name d ≡ true → has_dir dir d ≡ true
unfolding has_dir has_file
has_dir_of_file dir name d h = ground arith

module _ (io : Io) (dir : Text) (d : Disk) (other name : Text) where
  pub has_dir-mkdir_all : has_dir other d ≡ true → has_dir other (mkdir_all io dir d).1 ≡ true
  unfolding has_dir mkdir_all
  has_dir-mkdir_all h = ground (arith, lookup-insert dir other [] d)

  pub has_file-mkdir_all :
      has_file other name d ≡ true → has_file other name (mkdir_all io dir d).1 ≡ true
  unfolding has_file mkdir_all
  has_file-mkdir_all h = ground (arith, lookup-insert dir other [] d, text_eq_iff dir other)

  pub has_dir-remove_all :
      text_eq dir other ≡ false → has_dir other (remove_all io dir d).1 ≡ has_dir other d
  unfolding has_dir remove_all
  has_dir-remove_all h = grind (arith, lookup-delete, lookup-insert)

  pub has_file-remove_all :
      text_eq dir other ≡ false
      → has_file other name (remove_all io dir d).1 ≡ has_file other name d
  unfolding has_file remove_all
  has_file-remove_all h = grind (arith, lookup-delete, lookup-insert)

module _ (dir name content : Text) (files : Files) (d : Disk) (other file : Text)
    (at : lookup dir d ≡ some files) where
  has_dir-put_file :
      has_dir other d ≡ true → has_dir other (put_file dir name content files d) ≡ true
  unfolding has_dir
  has_dir-put_file h = ground (arith, lookup-insert dir other (insert name content files) d)

  has_file-put_file :
      has_file other file d ≡ true → has_file other file (put_file dir name content files d) ≡ true
  unfolding has_file
  has_file-put_file h = ground (
    arith,
    lookup-insert dir other (insert name content files) d,
    lookup-insert name file content files,
    text_eq_iff dir other,
  )

module _ (dir name content : Text) (files : Files) (d : Disk) (other file : Text)
    (at : lookup dir d ≡ some files) where
  has_dir-write_to :
      (o : WriteOutcome)
      → has_dir other d ≡ true
      → has_dir other (write_to dir name content files d o).1 ≡ true
  has_dir-write_to written h = has_dir-put_file dir name content files d other file at h
  has_dir-write_to (refused e) h = h
  has_dir-write_to (torn n e) h = has_dir-put_file dir name (take n content) files d other file at h

  has_file-write_to :
      (o : WriteOutcome)
      → has_file other file d ≡ true
      → has_file other file (write_to dir name content files d o).1 ≡ true
  has_file-write_to written h = has_file-put_file dir name content files d other file at h
  has_file-write_to (refused e) h = h
  has_file-write_to (torn n e) h =
      has_file-put_file dir name (take n content) files d other file at h

module _ (io : Io) (dir name content : Text) (d : Disk) (other file : Text) where
  pub has_dir-write_file :
      has_dir other d ≡ true → has_dir other (write_file io dir name content d).1 ≡ true
  unfolding write_file
  has_dir-write_file h = elim (Option-cases (lookup dir d)) [
    | inl e ↦ rw (e, write_file) h
    | inr (files, e) ↦
        rw (e, write_file)
          (has_dir-write_to dir name content files d other file e (io.write_outcome dir name) h)
  ]

  pub has_file-write_file :
      has_file other file d ≡ true → has_file other file (write_file io dir name content d).1 ≡ true
  unfolding write_file
  has_file-write_file h = elim (Option-cases (lookup dir d)) [
    | inl e ↦ rw (e, write_file) h
    | inr (files, e) ↦
        rw (e, write_file)
          (has_file-write_to dir name content files d other file e (io.write_outcome dir name) h)
  ]

-- A call that succeeds leaves the file.
pub has_file-written :
    (io : Io) (dir name content : Text) (d : Disk)
    → (write_file io dir name content d).0 ≡ ok tt
    → has_file dir name (write_file io dir name content d).1 ≡ true
unfolding write_file has_file
has_file-written io dir name content d h = grind (arith, lookup-insert_self)

module _ (io : Io) (dir old new : Text) (d : Disk) (other file : Text) where
  pub has_dir-rename : has_dir other d ≡ true → has_dir other (rename io dir old new d).1 ≡ true
  unfolding has_dir rename
  has_dir-rename h = grind (arith, lookup-insert)

  pub has_file-rename :
      text_eq old file ≡ false
      → has_file other file d ≡ true
      → has_file other file (rename io dir old new d).1 ≡ true
  unfolding has_file rename
  has_file-rename ne h = grind (arith, lookup-insert, lookup-delete, text_eq_iff dir other)

pub mkdir_all-has_dir :
    (io : Io) (dir : Text) (d : Disk)
    → (mkdir_all io dir d).0 ≡ ok tt
    → has_dir dir (mkdir_all io dir d).1 ≡ true
unfolding mkdir_all has_dir
mkdir_all-has_dir io dir d h = grind (arith, lookup-insert_self)
