-- ===== src/Store/Changes/Steps.antt =====
-- Every operation of the store refines a change of the abstract view.
use bitphase_file_share.Prelude.{
  ℕ, ◌-◌, ◌≡◌, refl, ◌∙◌, inl, inr, Bool, List, [], ◌∷◌, Text, Map, ℤ, IsDistinct,
}
use bitphase_file_share.Store.Meta.{TransferMeta, MetaJson}
use bitphase_file_share.Store.Disk.{Io}
use bitphase_file_share.Store.Ops.{
  Store, create_transfer, create_link_transfer, touch_link_transfer, write_chunk, delete_transfer,
  mark_link_chunk_served, delete_all, expired_ids, sweep,
}
use bitphase_file_share.Store.Run.{
  Call, Event, create, create_link, put_chunk, serve, remove, purge, step_call, run,
}
use bitphase_file_share.Store.Changes.{
  Change, same, enter, drop, delete_keys, IsAllowed, IsLimited, Change-IsDistinct, Change-IsLimited,
}
use bitphase_file_share.Store.Changes
use bitphase_file_share.Store.Contract
use bitphase_file_share.Store.Contract.{Follows}

-- The cap stays, and the metadata changes in one of the abstract ways.
abbrev pub Refines : Store → Store → Type 0
Refines s s' =
    Change s.max_transfers_per_sender s.meta s'.meta
    × (s'.max_transfers_per_sender ≡ s.max_transfers_per_sender)

-- What a call is asked to do is one of the abstract ways; a sweep is looked at on its own.
abbrev IsChange : (cap ttl now : ℕ) (c : Call) → Type 0
IsChange cap ttl now c =
    (meta meta' : Map TransferMeta) → Follows cap ttl now c meta meta' → Change cap meta meta'

create-IsChange :
    (cap ttl now : ℕ) (id from to : Text) (total : ℤ) (shareable : Bool)
    → IsChange cap ttl now (create id from to total shareable)
create-IsChange cap ttl now id from to total shareable meta meta' (inl e) = same e
create-IsChange cap ttl now id from to total shareable meta meta' (inr (room, (free, valid, e))) =
    enter id _ free (inr room) e

create_link-IsChange :
    (cap ttl now : ℕ) (id token : Text) (total : ℤ) (one_time : Bool)
    → IsChange cap ttl now (create_link id token total one_time)
create_link-IsChange cap ttl now id token total one_time meta meta' (inl e) = same e
create_link-IsChange cap ttl now id token total one_time meta meta' (inr (free, valid, e)) =
    enter id _ free (inl refl) e

touch-IsChange : (cap ttl now : ℕ) (id : Text) → IsChange cap ttl now (Call.touch id)
touch-IsChange cap ttl now id meta meta' (inl (missing, e)) = same e
touch-IsChange cap ttl now id meta meta' (inr (m, here, e)) = Changes.touch id m now here e

put_chunk-IsChange :
    (cap ttl now : ℕ) (id : Text) (i : ℤ) (content : Text)
    → IsChange cap ttl now (put_chunk id i content)
put_chunk-IsChange cap ttl now id i content meta meta' (inl e) = same e
put_chunk-IsChange cap ttl now id i content meta meta' (inr (m, here, low, high, e)) =
    Changes.touch id m now here e

serve-IsChange : (cap ttl now : ℕ) (id : Text) (i : ℤ) → IsChange cap ttl now (serve id i)
serve-IsChange cap ttl now id i meta meta' (inl e) = same e
serve-IsChange cap ttl now id i meta meta' (inr (m, here, link, once, e)) = drop (id ∷ []) e

Refines-IsChange :
    (now : ℕ) (c : Call) (s s' : Store)
    → IsChange s.max_transfers_per_sender s.ttl now c
    → Contract.Refines now c s s'
    → Refines s s'
Refines-IsChange now c s s' k (follows, cap, ttl) = (k s.meta s'.meta follows, cap)

meta_of-delete_all :
    (io : Io) (ids : List Text) (s : Store)
    → ((delete_all io ids s).meta ≡ delete_keys ids s.meta)
      × ((delete_all io ids s).max_transfers_per_sender ≡ s.max_transfers_per_sender)
unfolding delete_all delete_transfer
meta_of-delete_all io [] s = (refl, refl)
meta_of-delete_all io (id ∷ ids) s = meta_of-delete_all io ids (delete_transfer io id s).1

delete_all-Refines : (io : Io) (ids : List Text) (s : Store) → Refines s (delete_all io ids s)
delete_all-Refines io ids s = let (meta, cap) = meta_of-delete_all io ids s in (drop ids meta, cap)

-- Each operation, whatever it returns, changes the metadata in at most one of the abstract ways:
-- one transfer enters under a fresh name and within the cap, one is touched, or some are dropped.
pub step_call-Refines :
    (j : MetaJson) (now : ℕ) (io : Io) (c : Call) (s : Store) → Refines s (step_call j now io c s)
step_call-Refines j now io (create id from to total shareable) s =
    unfold step_call in
    Refines-IsChange now (create id from to total shareable) s
      (create_transfer j io now id from to total shareable s).1
      (create-IsChange s.max_transfers_per_sender s.ttl now id from to total shareable)
      (Contract.create_transfer-Refines j io now s id from to total shareable)
step_call-Refines j now io (create_link id token total one_time) s =
    unfold step_call in
    Refines-IsChange now (create_link id token total one_time) s
      (create_link_transfer j io now id token total one_time s).1
      (create_link-IsChange s.max_transfers_per_sender s.ttl now id token total one_time)
      (Contract.create_link_transfer-Refines j io now s id token total one_time)
step_call-Refines j now io (Call.touch id) s =
    unfold step_call in
    Refines-IsChange now (Call.touch id) s (touch_link_transfer j io now id s)
      (touch-IsChange s.max_transfers_per_sender s.ttl now id)
      (Contract.touch_link_transfer-Refines j io now s id)
step_call-Refines j now io (put_chunk id i content) s =
    unfold step_call in
    Refines-IsChange now (put_chunk id i content) s (write_chunk j io now id i content s).1
      (put_chunk-IsChange s.max_transfers_per_sender s.ttl now id i content)
      (Contract.write_chunk-Refines j io now s id i content)
step_call-Refines j now io (serve id i) s =
    unfold step_call in
    Refines-IsChange now (serve id i) s (mark_link_chunk_served io id i s).1
      (serve-IsChange s.max_transfers_per_sender s.ttl now id i)
      (Contract.mark_link_chunk_served-Refines now io id i s)
step_call-Refines j now io (remove id) s =
    unfold step_call delete_transfer in (drop (id ∷ []) refl, refl)
step_call-Refines j now io purge s =
    unfold step_call sweep in delete_all-Refines io (expired_ids (now - s.ttl) s.meta) s

run_keeps :
    (P : ℕ → Map TransferMeta → Type 0) (j : MetaJson)
    → ((cap : ℕ) (meta meta' : Map TransferMeta) → Change cap meta meta' → P cap meta → P cap meta')
    → (es : List Event) (s : Store) → P s.max_transfers_per_sender s.meta
    → P (run j es s).max_transfers_per_sender (run j es s).meta
unfolding run
run_keeps P j keep [] s h = h
run_keeps P j keep (e ∷ es) s h =
    let (change, cap) = step_call-Refines j e.now e.io e.call s in
    run_keeps P j keep es _ (rw cap (keep _ _ _ change h))

-- Whatever is asked of the store, and whatever the disk refuses, the number of transfers of a sender
-- does not pass the cap, and no identifier names two transfers.
pub run-IsLimited :
    (j : MetaJson) (es : List Event) (s : Store)
    → IsDistinct s.meta
    → IsLimited s.max_transfers_per_sender s.meta
    → IsDistinct (run j es s).meta
      × IsLimited (run j es s).max_transfers_per_sender (run j es s).meta
      × ((run j es s).max_transfers_per_sender ≡ s.max_transfers_per_sender)
unfolding run
run-IsLimited j es s d l = (
  run_keeps (λ cap meta. IsDistinct meta) j (λ cap meta meta' c. Change-IsDistinct c) es s d,
  run_keeps IsLimited j (λ cap meta meta' c. Change-IsLimited c) es s l,
  cap_stays es s,
)
  where
    cap_stays :
        (es : List Event) (s : Store)
        → (run j es s).max_transfers_per_sender ≡ s.max_transfers_per_sender
    cap_stays [] s = refl
    cap_stays (e ∷ es) s = cap_stays es _ ∙ (step_call-Refines j e.now e.io e.call s).1
