-- ===== src/Store/Contract.antt =====
-- What each call may do to the metadata, with the disk and the chunks forgotten.
use bitphase_file_share.Prelude.{
  ℕ, ◌-◌, ◌<◌, ◌≡◌, refl, ◌⊎◌, inl, inr, Bool, true, false, [], none, some, arith, ltb,
  if◌then◌else◌, Text, text_eq_iff, Map, lookup, insert, delete, ℤ, pos, ◌≤ℤ◌, ◌<ℤ◌, ok, err,
  Option-cases, IsDistinct, bytes, List, ◌∷◌,
}
use bitphase_file_share.Store.Meta.{
  TransferMeta, MetaJson, direct_meta, link_meta, link_mode, valid_transfer_id,
}
use bitphase_file_share.Store.Disk.{Disk, Io, Done}
use bitphase_file_share.Store.Ops.{
  Store, out_of_range, sender_count, finish_create, install, create_transfer, create_link_transfer,
  touch_link_transfer, commit_chunk, finish_chunk, write_chunk, delete_transfer, mark_served,
  mark_link_chunk_served, sweep, delete_all, expired_ids,
}
use bitphase_file_share.Store.Cases.{
  create_transfer_cases, create_link_transfer_cases, write_chunk_cases,
  mark_link_chunk_served_cases,
}
use bitphase_file_share.Store.Sweep.{lookup-sweep}
use bitphase_file_share.Store.Run.{
  Call, create, create_link, touch, put_chunk, serve, remove, purge, step_call,
}

-- A new transfer under a free and valid identifier.
abbrev pub Enters : Text → TransferMeta → Map TransferMeta → Map TransferMeta → Type 0
Enters id m meta meta' =
    (lookup id meta ≡ none) × (valid_transfer_id id ≡ true) × (meta' ≡ insert id m meta)

-- `now` is the time of the call.
abbrev pub Follows : ℕ → ℕ → ℕ → Call → Map TransferMeta → Map TransferMeta → Type 0
Follows cap ttl now (create id from to total shareable) meta meta' =
    (meta' ≡ meta)
    ⊎ ((sender_count from meta < cap)
        × Enters id
            (record {
              transfer_id = id;
              from = from;
              to = to;
              total_chunks = total;
              created_at = now;
              touched_at = now;
              shareable = shareable;
              mode = [];
              manage_token = [];
              one_time = false;
            })
            meta meta')
Follows cap ttl now (create_link id token total one_time) meta meta' =
    (meta' ≡ meta)
    ⊎ Enters id
        (record {
          transfer_id = id;
          from = [];
          to = [];
          total_chunks = total;
          created_at = now;
          touched_at = now;
          shareable = false;
          mode = bytes "link";
          manage_token = token;
          one_time = one_time;
        })
        meta meta'
Follows cap ttl now (touch id) meta meta' =
    ((lookup id meta ≡ none) × (meta' ≡ meta))
    ⊎ ((m : TransferMeta) × (lookup id meta ≡ some m)
        × (meta' ≡ insert id (record m { touched_at = now }) meta))
Follows cap ttl now (put_chunk id i content) meta meta' =
    (meta' ≡ meta)
    ⊎ ((m : TransferMeta) × (lookup id meta ≡ some m)
        × (pos 0 ≤ℤ i)
        × (i <ℤ m.total_chunks)
        × (meta' ≡ insert id (record m { touched_at = now }) meta))
Follows cap ttl now (serve id i) meta meta' =
    (meta' ≡ meta)
    ⊎ ((m : TransferMeta) × (lookup id meta ≡ some m)
        × (m.mode ≡ bytes "link")
        × (m.one_time ≡ true)
        × (meta' ≡ delete id meta))
Follows cap ttl now (remove id) meta meta' = meta' ≡ delete id meta
Follows cap ttl now purge meta meta' =
    (id : Text)
    → lookup id meta' ≡ elim (lookup id meta) [
      | none ↦ none
      | some m ↦ if ltb m.touched_at (now - ttl) then none else some m
    ]

-- The cap and the TTL stay.
abbrev pub Refines : ℕ → Call → Store → Store → Type 0
Refines now c s s' =
    Follows s.max_transfers_per_sender s.ttl now c s.meta s'.meta
    × (s'.max_transfers_per_sender ≡ s.max_transfers_per_sender)
    × (s'.ttl ≡ s.ttl)

finish_create-meta :
    (m : TransferMeta) (s : Store) (made : Done × Disk)
    → let s' = (finish_create m s made).1 in
      ((s'.meta ≡ s.meta) ⊎ (s'.meta ≡ insert m.transfer_id m s.meta))
      × (s'.max_transfers_per_sender ≡ s.max_transfers_per_sender)
      × (s'.ttl ≡ s.ttl)
finish_create-meta m s (err e, d) = (inl refl, refl, refl)
finish_create-meta m s (ok tt, d) = (inr refl, refl, refl)

module _ (j : MetaJson) (io : Io) (now : ℕ) (s : Store) where
  pub create_transfer-Refines :
      (id from to : Text) (total : ℤ) (shareable : Bool)
      → Refines now
          (create id from to total shareable)
          s
          (create_transfer j io now id from to total shareable s).1
  unfolding install direct_meta
  create_transfer-Refines id from to total shareable =
      create_transfer_cases j io now s (λ r. Refines now (create id from to total shareable) s r.1)
        id from to total shareable (λ m e. (inl refl, refl, refl)) (λ bad. (inl refl, refl, refl))
        (λ full. (inl refl, refl, refl))
        (λ e good room.
          let (change, cap, ttl) =
            finish_create-meta (direct_meta id from to total shareable now) s _ in
          (elim change [ inl same ↦ inl same | inr new ↦ inr (room, (e, good, new)) ], cap, ttl))

  pub create_link_transfer-Refines :
      (id token : Text) (total : ℤ) (one_time : Bool)
      → Refines now
          (create_link id token total one_time)
          s
          (create_link_transfer j io now id token total one_time s).1
  unfolding install link_meta
  create_link_transfer-Refines id token total one_time =
      create_link_transfer_cases j io now s
        (λ r. Refines now (create_link id token total one_time) s r.1) id token total one_time
        (λ m e. (inl refl, refl, refl)) (λ bad. (inl refl, refl, refl))
        (λ e good.
          let (change, cap, ttl) = finish_create-meta (link_meta id token total one_time now) s _ in
          (elim change [ inl same ↦ inl same | inr new ↦ inr (e, good, new) ], cap, ttl))

  pub touch_link_transfer-Refines :
      (id : Text) → Refines now (touch id) s (touch_link_transfer j io now id s)
  unfolding touch_link_transfer
  touch_link_transfer-Refines id = elim (Option-cases (lookup id s.meta)) [
    | inl e ↦ rw (e, touch_link_transfer) (inl (refl, refl), refl, refl)
    | inr (m, e) ↦ rw (e, touch_link_transfer) (inr (m, refl, refl), refl, refl)
  ]

  finish_chunk-Refines :
      (id : Text) (i : ℤ) (content : Text) (m : TransferMeta) (written : Done × Disk)
      → lookup id s.meta ≡ some m
      → out_of_range i m ≡ false
      → Refines now (put_chunk id i content) s (finish_chunk j io now id i m s written).1
  unfolding finish_chunk commit_chunk
  finish_chunk-Refines id i content m (err x, d) e fits = (inl refl, refl, refl)
  finish_chunk-Refines id i content m (ok tt, d) e fits =
      (inr (m, e, ground (arith, fits), ground (arith, fits), refl), refl, refl)

  pub write_chunk-Refines :
      (id : Text) (i : ℤ) (content : Text)
      → Refines now (put_chunk id i content) s (write_chunk j io now id i content s).1
  write_chunk-Refines id i content =
      write_chunk_cases j io now s (λ r. Refines now (put_chunk id i content) s r.1) id i content
        (λ e. (inl refl, refl, refl)) (λ m e out. (inl refl, refl, refl))
        (λ m e fits. finish_chunk-Refines id i content m _ e fits)

pub mark_link_chunk_served-Refines :
    (now : ℕ) (io : Io) (id : Text) (i : ℤ) (s : Store)
    → Refines now (serve id i) s (mark_link_chunk_served io id i s).1
unfolding delete_transfer mark_served
mark_link_chunk_served-Refines now io id i s =
    mark_link_chunk_served_cases io s (λ r. Refines now (serve id i) s r.1) id i
      (λ e. (inl refl, refl, refl)) (λ m e d. (inl refl, refl, refl))
      (λ m e l k. (inl refl, refl, refl))
      (λ m e l b.
        (inr (m, e, (text_eq_iff m.mode link_mode).0 l, ground (arith, b), refl), refl, refl))

delete_all-constants :
    (io : Io) (ids : List Text) (s : Store)
    → ((delete_all io ids s).max_transfers_per_sender ≡ s.max_transfers_per_sender)
      × ((delete_all io ids s).ttl ≡ s.ttl)
unfolding delete_all delete_transfer
delete_all-constants io [] s = (refl, refl)
delete_all-constants io (id ∷ ids) s = delete_all-constants io ids (delete_transfer io id s).1

-- Each call does to the metadata what is asked for and nothing else. A creation enters the transfer
-- of its arguments, if the identifier is free and valid and the sender below the cap, or nothing; a
-- touch sets the time of its transfer; a chunk sets it too, if its index is within range, or nothing
-- happens; serving a chunk drops the transfer or nothing, and only a one-time link share; a removal
-- drops its transfer; and a sweep drops exactly the transfers that were not touched for longer than
-- the TTL. The cap and the TTL stay. No identifier names two transfers.
pub step_call-Follows :
    (j : MetaJson) (now : ℕ) (io : Io) (c : Call) (s : Store)
    → IsDistinct s.meta
    → Refines now c s (step_call j now io c s)
unfolding step_call
step_call-Follows j now io (create id from to total shareable) s d =
    create_transfer-Refines j io now s id from to total shareable
step_call-Follows j now io (create_link id token total one_time) s d =
    create_link_transfer-Refines j io now s id token total one_time
step_call-Follows j now io (touch id) s d = touch_link_transfer-Refines j io now s id
step_call-Follows j now io (put_chunk id i content) s d =
    write_chunk-Refines j io now s id i content
step_call-Follows j now io (serve id i) s d = mark_link_chunk_served-Refines now io id i s
step_call-Follows j now io (remove id) s d = unfold delete_transfer in (refl, refl, refl)
step_call-Follows j now io purge s d =
    let same = delete_all-constants io (expired_ids (now - s.ttl) s.meta) s in
    ((λ id. swept id), unfold sweep in same.0, unfold sweep in same.1)
  where
    swept :
        (id : Text)
        → lookup id (sweep io now s).meta ≡ elim (lookup id s.meta) [
          | none ↦ none
          | some m ↦ if ltb m.touched_at (now - s.ttl) then none else some m
        ]
    swept id = ground (arith, lookup-sweep io now s d id)
