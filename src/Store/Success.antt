-- ===== src/Store/Success.antt =====
-- When the disk refuses nothing, an operation that passes its checks succeeds.
use bitphase_file_share.Prelude.{
  ℕ, ◌≡◌, ◌<◌, refl, Bool, true, false, [], none, some, arith, leb, Text, lookup, insert,
  lookup-insert_self, is_some, ℤ, ok, err, Option-cases, inl, inr,
}
use bitphase_file_share.Store.Meta.{TransferMeta, MetaJson, direct_meta, valid_transfer_id}
use bitphase_file_share.Store.Disk.{
  Disk, Files, Io, Done, written, mkdir_all, write_file, rename, write_to, ensure_dir, put_file,
  meta_name, meta_tmp_name, chunk_name,
}
use bitphase_file_share.Store.Disk.Keeps.{has_dir}
use bitphase_file_share.Store.Ops.{
  Store, out_of_range, sender_count, then_disk, write_meta, finish_create, install, create_transfer,
  finish_chunk, write_chunk,
}
use bitphase_file_share.Store.Invariant.{IsWellFormed}

-- The disk refuses nothing in the directory.
pub record IsCalm (io : Io) (id : Text) : Type 0 where
  pub makes : io.mkdir_error id ≡ none
  pub writes : (name : Text) → io.write_outcome id name ≡ written
  pub renames : io.rename_error id ≡ none

module _ (io : Io) (id : Text) (calm : IsCalm io id) where
  write_file-calm :
      (name content : Text) (files : Files) (d : Disk)
      → lookup id d ≡ some files
      → write_file io id name content d ≡ (ok tt, put_file id name content files d)
  unfolding write_file
  write_file-calm name content files d e = rw (e, write_file) (rw (calm.writes name, write_to) refl)

  -- A file that is there is renamed.
  rename-calm :
      (old new content : Text) (files : Files) (d : Disk)
      → lookup id d ≡ some files
      → lookup old files ≡ some content
      → (rename io id old new d).0 ≡ ok tt
  unfolding rename
  rename-calm old new content files d e f =
      rw (calm.renames, rename) (rw (e, rename) (rw (f, rename) refl))

module _ (j : MetaJson) (io : Io) (m : TransferMeta) (calm : IsCalm io m.transfer_id) where
  write_meta-calm :
      (files : Files) (d : Disk)
      → lookup m.transfer_id d ≡ some files
      → (write_meta j io m d).0 ≡ ok tt
  unfolding write_meta
  write_meta-calm files d e =
      rw (write_file-calm io m.transfer_id calm meta_tmp_name (j.marshal m) files d e) (
        rename-calm io m.transfer_id calm meta_tmp_name meta_name (j.marshal m)
          (insert meta_tmp_name (j.marshal m) files)
          (put_file m.transfer_id meta_tmp_name (j.marshal m) files d)
          (lookup-insert_self m.transfer_id (insert meta_tmp_name (j.marshal m) files) d)
          (lookup-insert_self meta_tmp_name (j.marshal m) files))

  ensured :
      (d : Disk)
      → (files : Files) × (lookup m.transfer_id (mkdir_all io m.transfer_id d).1 ≡ some files)
        × ((mkdir_all io m.transfer_id d).0 ≡ ok tt)
  unfolding mkdir_all
  ensured d = elim (Option-cases (lookup m.transfer_id d)) [
    | inl e ↦ (
      [],
      rw (calm.makes, mkdir_all) (rw (e, ensure_dir) (lookup-insert_self m.transfer_id [] d)),
      rw (calm.makes, mkdir_all) refl,
    )
    | inr (files, e) ↦
        (files, rw (calm.makes, mkdir_all) (rw (e, ensure_dir) e), rw (calm.makes, mkdir_all) refl)
  ]

  abbrev IsEntered : Done × Store → Type 0
  IsEntered r = (r.0 ≡ ok tt) × (lookup m.transfer_id r.1.meta ≡ some m)

  finish_create-ok : (s : Store) (r : Done × Disk) → r.0 ≡ ok tt → IsEntered (finish_create m s r)
  finish_create-ok s (ok u, d) h = (refl, lookup-insert_self m.transfer_id m s.meta)
  finish_create-ok s (err e, d) h = cc

  then_disk-ok :
      (first : Done × Disk) (f : Disk → Done × Disk)
      → first.0 ≡ ok tt
      → (f first.1).0 ≡ ok tt
      → (then_disk first f).0 ≡ ok tt
  then_disk-ok (ok u, d) f h k = k
  then_disk-ok (err e, d) f h k = cc

  install-calm : (s : Store) → IsEntered (install j io m s)
  unfolding install
  install-calm s =
      let (files, there, made) = ensured s.disk in
      finish_create-ok s _ (
        then_disk-ok (mkdir_all io m.transfer_id s.disk) (write_meta j io m) made
          (write_meta-calm files _ there))

-- A new transfer with a valid identifier, for a sender below the cap, is created.
pub create_transfer-calm :
    (j : MetaJson) (io : Io) (now : ℕ) (id from to : Text) (total : ℤ) (shareable : Bool)
    (s : Store)
    → IsCalm io id
    → lookup id s.meta ≡ none
    → valid_transfer_id id ≡ true
    → sender_count from s.meta < s.max_transfers_per_sender
    → let (r, s') = create_transfer j io now id from to total shareable s in
      (r ≡ ok tt) × (lookup id s'.meta ≡ some (direct_meta id from to total shareable now))
unfolding create_transfer
create_transfer-calm j io now id from to total shareable s calm free valid room =
    let open_room : leb s.max_transfers_per_sender (sender_count from s.meta) ≡ false =
      ground (arith, room) in
    rw (free, create_transfer)
      (rw (valid, create_transfer)
        (rw (open_room, create_transfer)
          (unfold direct_meta in
            install-calm j io (direct_meta id from to total shareable now) calm s)))

has_dir-some :
    (id : Text) (d : Disk) → has_dir id d ≡ true → (files : Files) × (lookup id d ≡ some files)
unfolding has_dir
has_dir-some id d h = elim (Option-cases (lookup id d)) [
  | inl e ↦ cc (rw (e, is_some) at h)
  | inr found ↦ found
]

-- A chunk within range of a transfer that is there is written.
pub write_chunk-calm :
    (j : MetaJson) (io : Io) (now : ℕ) (id : Text) (i : ℤ) (content : Text) (s : Store)
    (m : TransferMeta)
    → IsWellFormed s
    → IsCalm io id
    → lookup id s.meta ≡ some m
    → out_of_range i m ≡ false
    → (write_chunk j io now id i content s).0 ≡ ok tt
unfolding write_chunk finish_chunk
write_chunk-calm j io now id i content s m wf calm e fits =
    let (files, there) = has_dir-some id s.disk (wf.stored id m e) in
    let key = (wf.known id m e).keyed in
    let calm' : IsCalm io m.transfer_id = rw key calm in
    let d : Disk = put_file id (chunk_name i) content files s.disk in
    let there' : lookup m.transfer_id d ≡ some (insert (chunk_name i) content files) =
      rw key (lookup-insert_self id (insert (chunk_name i) content files) s.disk) in
    rw (e, write_chunk)
      (rw (fits, write_chunk)
        (rw (write_file-calm io id calm (chunk_name i) content files s.disk there) (
          write_meta-calm j io (record m { touched_at = now }) calm'
            (insert (chunk_name i) content files) d there')))
