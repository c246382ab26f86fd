-- ===== src/Store/Disk/Contents.antt =====
-- The content of one file under the calls of store.go.
use bitphase_file_share.Prelude.{
  ◌≡◌, false, ◌&&◌, Option, none, some, arith, Text, text_eq, text_eq_iff, text_eq_refl, lookup,
  lookup-insert, lookup-delete, ok,
}
use bitphase_file_share.Store.Disk.{
  Disk, Files, Io, mkdir_all, write_file, read_file, rename, remove_all, removed,
}

abbrev pub content_in : Text → Option Files → Option Text
content_in name none = none
content_in name (some files) = lookup name files

unfoldable pub content_at : Text → Text → Disk → Option Text
content_at dir name d = content_in name (lookup dir d)

-- A file other than the one that is written stays as it is.
pub content_at-write_file_ne :
    (io : Io) (dir name content other file : Text) (d : Disk)
    → (text_eq dir other && text_eq name file) ≡ false
    → content_at other file (write_file io dir name content d).1 ≡ content_at other file d
unfolding content_at write_file
content_at-write_file_ne io dir name content other file d ne =
    grind (arith, lookup-insert, text_eq_iff dir other)

pub content_at-write_file :
    (io : Io) (dir name content : Text) (d : Disk)
    → (write_file io dir name content d).0 ≡ ok tt
    → content_at dir name (write_file io dir name content d).1 ≡ some content
unfolding content_at write_file
content_at-write_file io dir name content d h = grind (arith, lookup-insert, text_eq_refl)

pub content_at-rename_ne :
    (io : Io) (dir old new other file : Text) (d : Disk)
    → (text_eq dir other && text_eq old file) ≡ false
    → (text_eq dir other && text_eq new file) ≡ false
    → content_at other file (rename io dir old new d).1 ≡ content_at other file d
unfolding content_at rename
content_at-rename_ne io dir old new other file d p q =
    grind (arith, lookup-insert, lookup-delete, text_eq_iff dir other)

pub content_at-rename :
    (io : Io) (dir old new : Text) (d : Disk)
    → (rename io dir old new d).0 ≡ ok tt
    → content_at dir new (rename io dir old new d).1 ≡ content_at dir old d
unfolding content_at rename
content_at-rename io dir old new d h = grind (arith, lookup-insert, text_eq_refl)

pub content_at-mkdir_all :
    (io : Io) (dir other file : Text) (d : Disk)
    → content_at other file (mkdir_all io dir d).1 ≡ content_at other file d
unfolding content_at mkdir_all lookup
content_at-mkdir_all io dir other file d = grind (arith, lookup-insert, text_eq_iff dir other)

pub content_at-remove_all_ne :
    (io : Io) (dir other file : Text) (d : Disk)
    → text_eq dir other ≡ false
    → content_at other file (remove_all io dir d).1 ≡ content_at other file d
unfolding content_at remove_all
content_at-remove_all_ne io dir other file d ne = grind (arith, lookup-insert, lookup-delete)

pub content_at-remove_all :
    (io : Io) (dir file : Text) (d : Disk)
    → io.remove_outcome dir ≡ removed
    → content_at dir file (remove_all io dir d).1 ≡ none
unfolding content_at remove_all
content_at-remove_all io dir file d h = grind (arith, lookup-delete, text_eq_refl)

-- os.ReadFile returns what the file holds.
pub read_file-content_at :
    (io : Io) (dir name content : Text) (d : Disk)
    → io.read_error dir name ≡ none
    → content_at dir name d ≡ some content
    → read_file io dir name d ≡ ok content
unfolding content_at read_file
read_file-content_at io dir name content d fine h = grind arith
