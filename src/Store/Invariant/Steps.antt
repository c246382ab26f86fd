-- ===== src/Store/Invariant/Steps.antt =====
-- Every operation of the store keeps it well formed, whatever the disk refuses.
use bitphase_file_share.Prelude.{
  ℕ, ◌-◌, ◌≡◌, refl, Bool, true, false, List, [], ◌∷◌, some, arith, Text, lookup, insert, ℤ, add,
  member-add, member-nil, int_eq_iff, ok, err, Option-cases, inl, inr,
}
use bitphase_file_share.Store.Meta.{TransferMeta, MetaJson, direct_meta, link_meta}
use bitphase_file_share.Store.Disk.{Disk, Io, Done, chunk_name}
use bitphase_file_share.Store.Disk.Keeps.{
  has_dir, has_file, has_file-written, has_dir-remove_all, has_file-remove_all,
}
use bitphase_file_share.Store.Ops.{
  Store, set_of, out_of_range, finish_create, install, create_transfer, create_link_transfer,
  touch_link_transfer, commit_chunk, finish_chunk, write_chunk, delete_transfer, mark_served,
  mark_link_chunk_served, delete_all, expired_ids, sweep,
}
use bitphase_file_share.Store.Cases.{
  create_transfer_cases, create_link_transfer_cases, write_chunk_cases,
  mark_link_chunk_served_cases,
}
use bitphase_file_share.Store.Invariant.{
  IsKnown, IsWellFormed, IsKept, disk-IsWellFormed, enter-IsWellFormed, touch-IsWellFormed,
  serve-IsWellFormed, delete-IsWellFormed,
}
use bitphase_file_share.Store.Invariant.Files.{
  IsKept-write_file, IsKept-write_meta, IsKept-install, install-has_dir,
}

-- A new transfer has no chunks.
finish_create-IsWellFormed :
    (m : TransferMeta) (s : Store) (made : Done × Disk)
    → IsWellFormed s
    → IsKnown m.transfer_id m
    → IsKept s.disk made.1
    → (made.0 ≡ ok tt → has_dir m.transfer_id made.1 ≡ true)
    → IsWellFormed (finish_create m s made).1
finish_create-IsWellFormed m s (err e, d) v k kept dir = disk-IsWellFormed s v d kept
finish_create-IsWellFormed m s (ok tt, d) v k kept dir =
    enter-IsWellFormed (record s { disk = d }) (disk-IsWellFormed s v d kept) m.transfer_id m [] k
      (dir refl) (λ i h. cc (member-nil i)) (λ i h. cc (member-nil i))

module _ (j : MetaJson) (io : Io) (now : ℕ) (s : Store) (v : IsWellFormed s) where
  install-IsWellFormed :
      (m : TransferMeta) → IsKnown m.transfer_id m → IsWellFormed (install j io m s).1
  unfolding install
  install-IsWellFormed m k =
      finish_create-IsWellFormed m s _ v k (IsKept-install j io m s.disk)
        (install-has_dir j io m s.disk)

  pub create_transfer-IsWellFormed :
      (id from to : Text) (total : ℤ) (shareable : Bool)
      → IsWellFormed (create_transfer j io now id from to total shareable s).1
  create_transfer-IsWellFormed id from to total shareable =
      create_transfer_cases j io now s (λ r. IsWellFormed r.1) id from to total shareable (λ m e. v)
        (λ bad. v) (λ full. v)
        (λ e good room.
          unfold direct_meta in
          install-IsWellFormed (direct_meta id from to total shareable now)
            (record { valid = good; keyed = refl; moded = inl (refl, refl) }))

  pub create_link_transfer-IsWellFormed :
      (id token : Text) (total : ℤ) (one_time : Bool)
      → IsWellFormed (create_link_transfer j io now id token total one_time s).1
  create_link_transfer-IsWellFormed id token total one_time =
      create_link_transfer_cases j io now s (λ r. IsWellFormed r.1) id token total one_time
        (λ m e. v) (λ bad. v)
        (λ e good.
          unfold link_meta in
          install-IsWellFormed (link_meta id token total one_time now)
            (record { valid = good; keyed = refl; moded = inr (refl, refl, refl) }))

  pub touch_link_transfer-IsWellFormed :
      (id : Text) → IsWellFormed (touch_link_transfer j io now id s)
  touch_link_transfer-IsWellFormed id = elim (Option-cases (lookup id s.meta)) [
    | inl e ↦ unfold touch_link_transfer in rw (e, touch_link_transfer) v
    | inr (m, e) ↦
        unfold touch_link_transfer in
        let k = v.known id m e in
        let m' : TransferMeta = record m { touched_at = now } in
        rw (e, touch_link_transfer)
          (disk-IsWellFormed (record s { meta = insert id m' s.meta })
            (touch-IsWellFormed s v id m' m e
              (record { valid = k.valid; keyed = k.keyed; moded = k.moded }) refl)
            _ (IsKept-write_meta j io m' s.disk))
  ]

  commit_chunk-IsWellFormed :
      (id : Text) (i : ℤ) (m : TransferMeta)
      → lookup id s.meta ≡ some m
      → out_of_range i m ≡ false
      → has_file id (chunk_name i) s.disk ≡ true
      → IsWellFormed (commit_chunk now id i m s)
  unfolding commit_chunk
  commit_chunk-IsWellFormed id i m e fits file =
      let k = v.known id m e in
      enter-IsWellFormed s v id (record m { touched_at = now }) (add i (set_of id s.received))
        (record { valid = k.valid; keyed = k.keyed; moded = k.moded }) (v.stored id m e)
        (λ n h.
          ground
            (arith, member-add i n (set_of id s.received), int_eq_iff i n, v.on_disk id n, file))
        (λ n h.
          ground
            (arith, member-add i n (set_of id s.received), int_eq_iff i n, v.in_range id m n e))

module _ (j : MetaJson) (io : Io) (now : ℕ) (s : Store) (v : IsWellFormed s) where
  finish_chunk-IsWellFormed :
      (id : Text) (i : ℤ) (m : TransferMeta) (written : Done × Disk)
      → lookup id s.meta ≡ some m
      → out_of_range i m ≡ false
      → IsKept s.disk written.1
      → (written.0 ≡ ok tt → has_file id (chunk_name i) written.1 ≡ true)
      → IsWellFormed (finish_chunk j io now id i m s written).1
  unfolding finish_chunk
  finish_chunk-IsWellFormed id i m (err x, d) e fits kept file = disk-IsWellFormed s v d kept
  finish_chunk-IsWellFormed id i m (ok tt, d) e fits kept file =
      disk-IsWellFormed (commit_chunk now id i m (record s { disk = d }))
        (commit_chunk-IsWellFormed j io now (record s { disk = d }) (disk-IsWellFormed s v d kept)
          id i m e fits (file refl))
        _ (unfold commit_chunk in IsKept-write_meta j io (record m { touched_at = now }) d)

  pub write_chunk-IsWellFormed :
      (id : Text) (i : ℤ) (content : Text) → IsWellFormed (write_chunk j io now id i content s).1
  write_chunk-IsWellFormed id i content =
      write_chunk_cases j io now s (λ r. IsWellFormed r.1) id i content (λ e. v) (λ m e out. v)
        (λ m e fits.
          finish_chunk-IsWellFormed id i m _ e fits
            (IsKept-write_file io id (chunk_name i) content s.disk)
            (has_file-written io id (chunk_name i) content s.disk))

module _ (io : Io) where
  pub delete_transfer-IsWellFormed :
      (id : Text) (s : Store) → IsWellFormed s → IsWellFormed (delete_transfer io id s).1
  unfolding delete_transfer
  delete_transfer-IsWellFormed id s v =
      delete-IsWellFormed s v id _ (λ other. has_dir-remove_all io id s.disk other other)
        (λ other name. has_file-remove_all io id s.disk other name)

  mark_served-IsWellFormed :
      (id : Text) (i : ℤ) (m : TransferMeta) (s : Store)
      → IsWellFormed s
      → lookup id s.meta ≡ some m
      → IsWellFormed (mark_served id i m s).1
  unfolding mark_served
  mark_served-IsWellFormed id i m s v e = serve-IsWellFormed s v id m _ e

  pub mark_link_chunk_served-IsWellFormed :
      (id : Text) (i : ℤ) (s : Store)
      → IsWellFormed s
      → IsWellFormed (mark_link_chunk_served io id i s).1
  mark_link_chunk_served-IsWellFormed id i s v =
      mark_link_chunk_served_cases io s (λ r. IsWellFormed r.1) id i (λ e. v) (λ m e d. v)
        (λ m e l k. mark_served-IsWellFormed id i m s v e)
        (λ m e l b. delete_transfer-IsWellFormed id _ (mark_served-IsWellFormed id i m s v e))

  delete_all-IsWellFormed :
      (ids : List Text) (s : Store) → IsWellFormed s → IsWellFormed (delete_all io ids s)
  unfolding delete_all
  delete_all-IsWellFormed [] s v = v
  delete_all-IsWellFormed (id ∷ ids) s v =
      delete_all-IsWellFormed ids _ (delete_transfer-IsWellFormed id s v)

  pub sweep-IsWellFormed : (now : ℕ) (s : Store) → IsWellFormed s → IsWellFormed (sweep io now s)
  unfolding sweep
  sweep-IsWellFormed now s v = delete_all-IsWellFormed (expired_ids (now - s.ttl) s.meta) s v
