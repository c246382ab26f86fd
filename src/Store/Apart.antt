-- ===== src/Store/Apart.antt =====
-- An operation on one transfer leaves every other transfer alone, in memory and on disk.
use bitphase_file_share.Prelude.{
  ℕ, ◌≡◌, ◌∙◌, refl, Bool, false, [], some, arith, Text, text_eq, lookup, lookup-insert,
  lookup-delete, ℤ, ok, err, Option-cases, inl, inr,
}
use bitphase_file_share.Store.Meta.{TransferMeta, MetaJson, link_meta, direct_meta}
use bitphase_file_share.Store.Disk.{
  Disk, Done, Io, mkdir_all, write_file, rename, remove_all, chunk_name, WriteOutcome, written,
  refused, torn, write_to, Files, meta_name, meta_tmp_name,
}
use bitphase_file_share.Store.Ops.{
  Store, then_disk, write_meta, finish_create, install, create_transfer, create_link_transfer,
  touch_link_transfer, commit_chunk, finish_chunk, write_chunk, delete_transfer, mark_served,
  mark_link_chunk_served,
}
use bitphase_file_share.Store.Cases.{
  create_transfer_cases, create_link_transfer_cases, write_chunk_cases,
  mark_link_chunk_served_cases,
}

-- The entries of `id` are as they were.
pub record IsApart (id : Text) (s s' : Store) : Type 0 where
  pub meta : lookup id s'.meta ≡ lookup id s.meta
  pub received : lookup id s'.received ≡ lookup id s.received
  pub served : lookup id s'.served ≡ lookup id s.served
  pub files : lookup id s'.disk ≡ lookup id s.disk

pub IsApart-refl : (id : Text) (s : Store) → IsApart id s s
IsApart-refl id s = record { meta = refl; received = refl; served = refl; files = refl }

pub IsApart-trans : {id : Text} {a b c : Store} → IsApart id a b → IsApart id b c → IsApart id a c
IsApart-trans p q = record {
  meta = q.meta ∙ p.meta;
  received = q.received ∙ p.received;
  served = q.served ∙ p.served;
  files = q.files ∙ p.files;
}

module _ (io : Io) (dir id : Text) (d : Disk) (ne : text_eq dir id ≡ false) where
  files-mkdir_all : lookup id (mkdir_all io dir d).1 ≡ lookup id d
  unfolding mkdir_all
  files-mkdir_all = ground (arith, lookup-insert dir id [] d)

  files-write_to :
      (name content : Text) (files : Files) (o : WriteOutcome)
      → lookup id (write_to dir name content files d o).1 ≡ lookup id d
  files-write_to name content files written = grind (arith, lookup-insert)
  files-write_to name content files (refused e) = refl
  files-write_to name content files (torn n e) = grind (arith, lookup-insert)

  files-write_file :
      (name content : Text) → lookup id (write_file io dir name content d).1 ≡ lookup id d
  unfolding write_file
  files-write_file name content = elim (Option-cases (lookup dir d)) [
    | inl e ↦ rw (e, write_file) refl
    | inr (files, e) ↦
        rw (e, write_file) (files-write_to name content files (io.write_outcome dir name))
  ]

  files-rename : (old new : Text) → lookup id (rename io dir old new d).1 ≡ lookup id d
  unfolding rename
  files-rename old new = grind (arith, lookup-insert)

  files-remove_all : lookup id (remove_all io dir d).1 ≡ lookup id d
  unfolding remove_all
  files-remove_all = grind (arith, lookup-insert, lookup-delete)

files-then_disk :
    (id : Text) (d : Disk) (first : Done × Disk) (second : Disk → Done × Disk)
    → lookup id first.1 ≡ lookup id d
    → ((e : Disk) → lookup id (second e).1 ≡ lookup id e)
    → lookup id (then_disk first second).1 ≡ lookup id d
files-then_disk id d (ok _, e) second p q = q e ∙ p
files-then_disk id d (err x, e) second p q = p

module _ (j : MetaJson) (io : Io) (id : Text) (m : TransferMeta)
    (ne : text_eq m.transfer_id id ≡ false) where
  files-write_meta : (d : Disk) → lookup id (write_meta j io m d).1 ≡ lookup id d
  unfolding write_meta
  files-write_meta d =
      files-then_disk id d _ _
        (files-write_file io m.transfer_id id d ne meta_tmp_name (j.marshal m))
        (λ e. files-rename io m.transfer_id id e ne meta_tmp_name meta_name)

  finish_create-IsApart :
      (s : Store) (r : Done × Disk)
      → lookup id r.1 ≡ lookup id s.disk
      → IsApart id s (finish_create m s r).1
  finish_create-IsApart s (err e, d) h = record {
    meta = refl;
    received = refl;
    served = refl;
    files = h;
  }
  finish_create-IsApart s (ok _, d) h = record {
    meta = ground (arith, lookup-insert m.transfer_id id m s.meta);
    received = ground (arith, lookup-insert m.transfer_id id [] s.received);
    served = refl;
    files = h;
  }

  install-IsApart : (s : Store) → IsApart id s (install j io m s).1
  unfolding install
  install-IsApart s = finish_create-IsApart s _ (
      files-then_disk id s.disk _ _ (files-mkdir_all io m.transfer_id id s.disk ne)
        files-write_meta)

module _ (j : MetaJson) (io : Io) (now : ℕ) (other id : Text) (s : Store)
    (ne : text_eq other id ≡ false) where
  pub create_transfer-IsApart :
      (from to : Text) (total : ℤ) (shareable : Bool)
      → IsApart id s (create_transfer j io now other from to total shareable s).1
  create_transfer-IsApart from to total shareable =
      create_transfer_cases j io now s (λ r. IsApart id s r.1) other from to total shareable
        (λ m e. IsApart-refl id s) (λ bad. IsApart-refl id s) (λ full. IsApart-refl id s)
        (λ e good room.
          install-IsApart j io id (direct_meta other from to total shareable now)
            (unfold direct_meta in ne) s)

  pub create_link_transfer-IsApart :
      (token : Text) (total : ℤ) (one_time : Bool)
      → IsApart id s (create_link_transfer j io now other token total one_time s).1
  create_link_transfer-IsApart token total one_time =
      create_link_transfer_cases j io now s (λ r. IsApart id s r.1) other token total one_time
        (λ m e. IsApart-refl id s) (λ bad. IsApart-refl id s)
        (λ e good.
          install-IsApart j io id (link_meta other token total one_time now)
            (unfold link_meta in ne) s)

  pub delete_transfer-IsApart : IsApart id s (delete_transfer io other s).1
  unfolding delete_transfer
  delete_transfer-IsApart = record {
    meta = ground (arith, lookup-delete other id s.meta);
    received = ground (arith, lookup-delete other id s.received);
    served = ground (arith, lookup-delete other id s.served);
    files = files-remove_all io other id s.disk ne;
  }

module _ (j : MetaJson) (io : Io) (now : ℕ) (other id : Text) (s : Store)
    (ne : text_eq other id ≡ false)
    (keyed : (m : TransferMeta) → lookup other s.meta ≡ some m → m.transfer_id ≡ other) where
  apart_key : (m : TransferMeta) → lookup other s.meta ≡ some m → text_eq m.transfer_id id ≡ false
  apart_key m e = rw (keyed m e) ne

  pub touch_link_transfer-IsApart : IsApart id s (touch_link_transfer j io now other s)
  unfolding touch_link_transfer
  touch_link_transfer-IsApart = elim (Option-cases (lookup other s.meta)) [
    | inl e ↦ rw (e, touch_link_transfer) (IsApart-refl id s)
    | inr (m, e) ↦
        rw (e, touch_link_transfer)
          (record {
            meta = ground (arith, lookup-insert other id (record m { touched_at = now }) s.meta);
            received = refl;
            served = refl;
            files = files-write_meta j io id (record m { touched_at = now }) (apart_key m e) s.disk;
          })
  ]

  finish_chunk-IsApart :
      (i : ℤ) (m : TransferMeta) (r : Done × Disk)
      → text_eq m.transfer_id id ≡ false
      → lookup id r.1 ≡ lookup id s.disk
      → IsApart id s (finish_chunk j io now other i m s r).1
  unfolding finish_chunk commit_chunk
  finish_chunk-IsApart i m (err e, d) k h = record {
    meta = refl;
    received = refl;
    served = refl;
    files = h;
  }
  finish_chunk-IsApart i m (ok _, d) k h = record {
    meta = ground (arith, lookup-insert other id (record m { touched_at = now }) s.meta);
    received = grind (arith, lookup-insert);
    served = refl;
    files = files-write_meta j io id (record m { touched_at = now }) k d ∙ h;
  }

  pub write_chunk-IsApart :
      (i : ℤ) (content : Text) → IsApart id s (write_chunk j io now other i content s).1
  write_chunk-IsApart i content =
      write_chunk_cases j io now s (λ r. IsApart id s r.1) other i content (λ e. IsApart-refl id s)
        (λ m e o. IsApart-refl id s)
        (λ m e f.
          finish_chunk-IsApart i m _ (apart_key m e)
            (files-write_file io other id s.disk ne (chunk_name i) content))

mark_served-IsApart :
    (other id : Text) (i : ℤ) (m : TransferMeta) (s : Store)
    → text_eq other id ≡ false
    → IsApart id s (mark_served other i m s).1
unfolding mark_served
mark_served-IsApart other id i m s ne = record {
  meta = refl;
  received = refl;
  served = grind (arith, lookup-insert);
  files = refl;
}

pub mark_link_chunk_served-IsApart :
    (j : MetaJson) (io : Io) (other id : Text) (i : ℤ) (s : Store)
    → text_eq other id ≡ false
    → IsApart id s (mark_link_chunk_served io other i s).1
mark_link_chunk_served-IsApart j io other id i s ne =
    mark_link_chunk_served_cases io s (λ r. IsApart id s r.1) other i (λ e. IsApart-refl id s)
      (λ m e d. IsApart-refl id s) (λ m e l k. mark_served-IsApart other id i m s ne)
      (λ m e l b.
        IsApart-trans (mark_served-IsApart other id i m s ne)
          (delete_transfer-IsApart j io 0 other id (mark_served other i m s).1 ne))
