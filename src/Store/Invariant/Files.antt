-- ===== src/Store/Invariant/Files.antt =====
-- The disk calls of store.go take away no directory and no chunk, whether they succeed or fail.
use bitphase_file_share.Prelude.{◌≡◌, refl, true, Text, ok, err}
use bitphase_file_share.Store.Meta.{TransferMeta, MetaJson}
use bitphase_file_share.Store.Disk.{
  Disk, Io, Done, mkdir_all, write_file, rename, chunk_name, meta_name, meta_tmp_name,
}
use bitphase_file_share.Store.Disk.Keeps.{
  has_dir, has_dir-mkdir_all, has_file-mkdir_all, has_dir-write_file, has_file-write_file,
  has_dir-rename, has_file-rename, mkdir_all-has_dir,
}
use bitphase_file_share.Store.Names.{meta_tmp-ne-chunk_name}
use bitphase_file_share.Store.Ops.{then_disk, write_meta}
use bitphase_file_share.Store.Invariant.{IsKept}

IsKept-trans : {c d e : Disk} → IsKept c d → IsKept d e → IsKept c e
IsKept-trans p q = record {
  dirs = λ id h. q.dirs id (p.dirs id h);
  chunks = λ id i h. q.chunks id i (p.chunks id i h);
}

-- A second call on the disk follows a first that did not fail.
IsKept-then_disk :
    (d : Disk) (first : Done × Disk) (second : Disk → Done × Disk)
    → IsKept d first.1
    → ((e : Disk) → IsKept e (second e).1)
    → IsKept d (then_disk first second).1
IsKept-then_disk d (ok _, e) second p q = IsKept-trans p (q e)
IsKept-then_disk d (err x, e) second p q = p

pub IsKept-mkdir_all : (io : Io) (dir : Text) (d : Disk) → IsKept d (mkdir_all io dir d).1
IsKept-mkdir_all io dir d = record {
  dirs = λ id. has_dir-mkdir_all io dir d id id;
  chunks = λ id i. has_file-mkdir_all io dir d id (chunk_name i);
}

pub IsKept-write_file :
    (io : Io) (dir name content : Text) (d : Disk) → IsKept d (write_file io dir name content d).1
IsKept-write_file io dir name content d = record {
  dirs = λ id. has_dir-write_file io dir name content d id id;
  chunks = λ id i. has_file-write_file io dir name content d id (chunk_name i);
}

-- The temporary name is no chunk's.
IsKept-rename_meta :
    (io : Io) (dir : Text) (d : Disk) → IsKept d (rename io dir meta_tmp_name meta_name d).1
IsKept-rename_meta io dir d = record {
  dirs = λ id. has_dir-rename io dir meta_tmp_name meta_name d id id;
  chunks = λ id i.
      has_file-rename io dir meta_tmp_name meta_name d id (chunk_name i) (meta_tmp-ne-chunk_name i);
}

pub IsKept-write_meta :
    (j : MetaJson) (io : Io) (m : TransferMeta) (d : Disk) → IsKept d (write_meta j io m d).1
unfolding write_meta
IsKept-write_meta j io m d =
    IsKept-then_disk d _ _ (IsKept-write_file io m.transfer_id meta_tmp_name (j.marshal m) d)
      (λ e. IsKept-rename_meta io m.transfer_id e)

module _ (j : MetaJson) (io : Io) (m : TransferMeta) (d : Disk) where
  pub IsKept-install : IsKept d (then_disk (mkdir_all io m.transfer_id d) (write_meta j io m)).1
  IsKept-install =
      IsKept-then_disk d _ _ (IsKept-mkdir_all io m.transfer_id d) (IsKept-write_meta j io m)

  -- Once the metadata of a new transfer is on disk, so is its directory.
  pub install-has_dir :
      (then_disk (mkdir_all io m.transfer_id d) (write_meta j io m)).0 ≡ ok tt
      → has_dir m.transfer_id (then_disk (mkdir_all io m.transfer_id d) (write_meta j io m)).1
        ≡ true
  install-has_dir h =
      then_made (mkdir_all io m.transfer_id d) (mkdir_all-has_dir io m.transfer_id d) h
    where
      then_made :
          (made : Done × Disk)
          → (made.0 ≡ ok tt → has_dir m.transfer_id made.1 ≡ true)
          → (then_disk made (write_meta j io m)).0 ≡ ok tt
          → has_dir m.transfer_id (then_disk made (write_meta j io m)).1 ≡ true
      then_made (ok tt, e) p h = (IsKept-write_meta j io m e).dirs m.transfer_id (p refl)
      then_made (err x, e) p h = cc
