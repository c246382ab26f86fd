-- ===== src/Store/Ops.antt =====
-- The operations of `store` in store.go, each from its first line to its returns. Time and the
-- outcomes of the system's calls are arguments.
use bitphase_file_share.Prelude.{
  ℕ, suc, ◌-◌, Bool, true, false, not, ◌&&◌, ◌||◌, List, [], ◌∷◌, Option, none, some, ltb, leb,
  if◌then◌else◌, length, Text, bytes, text_eq, Map, lookup, insert, delete, is_some, ℤ, pos, ltb_ℤ,
  leb_ℤ, IntSet, add, Result, ok, err,
}
use bitphase_file_share.Store.Meta.{
  TransferMeta, TransferSummary, MetaJson, valid_transfer_id, direct_meta, link_meta, link_mode,
}
use bitphase_file_share.Store.Disk.{
  Disk, Io, Done, not_exist, mkdir_all, write_file, rename, read_file, remove_all, meta_name,
  meta_tmp_name, chunk_name,
}

-- A missing key of `received` or `served` is a nil map, which reads as empty.
pub record Store : Type 0 where
  pub ttl : ℕ
  pub max_transfers_per_sender : ℕ
  pub meta : Map TransferMeta
  pub received : Map IntSet
  pub served : Map IntSet
  pub disk : Disk

abbrev pub invalid_id : Text
invalid_id = bytes "invalid transfer id"

abbrev pub limit_reached : Text
limit_reached = bytes "transfer limit reached for this account"

abbrev pub already_exists : Text
already_exists = bytes "transfer id already exists"

abbrev pub invalid_argument : Text
invalid_argument = bytes "invalid argument"

abbrev pub set_of : Text → Map IntSet → IntSet
set_of id sets = elim (lookup id sets) [ none ↦ [] | some s ↦ s ]

-- Goes on after a call on the disk, unless it failed.
abbrev pub then_disk : Done × Disk → (Disk → Done × Disk) → Done × Disk
then_disk (ok _, d) f = f d
then_disk (err e, d) f = (err e, d)

unfoldable pub write_meta : MetaJson → Io → TransferMeta → Disk → Done × Disk
unfolding write_file rename
write_meta j io m d =
    then_disk (write_file io m.transfer_id meta_tmp_name (j.marshal m) d)
      (λ d'. rename io m.transfer_id meta_tmp_name meta_name d')

-- The entry for a new transfer in memory, once it is on disk.
abbrev pub finish_create : TransferMeta → Store → Done × Disk → Done × Store
finish_create m s (err e, d) = (err e, record s { disk = d })
finish_create m s (ok _, d) = (
  ok tt,
  record s {
    meta = insert m.transfer_id m s.meta;
    received = insert m.transfer_id [] s.received;
    disk = d;
  },
)

-- The last part of createTransfer and createLinkTransfer.
unfoldable pub install : MetaJson → Io → TransferMeta → Store → Done × Store
unfolding mkdir_all write_meta
install j io m s =
    finish_create m s (then_disk (mkdir_all io m.transfer_id s.disk) (write_meta j io m))

unfoldable pub sender_count : Text → Map TransferMeta → ℕ
sender_count from [] = 0
sender_count from ((id, m) ∷ rest) =
    if text_eq m.from from then suc (sender_count from rest) else sender_count from rest

unfoldable pub create_transfer :
    MetaJson → Io → ℕ → Text → Text → Text → ℤ → Bool → Store → Done × Store
unfolding valid_transfer_id sender_count install direct_meta
create_transfer j io now id from to total shareable s =
    if is_some (lookup id s.meta)
    then (ok tt, s)
    else if not (valid_transfer_id id)
    then (err invalid_id, s)
    else if leb s.max_transfers_per_sender (sender_count from s.meta)
    then (err limit_reached, s)
    else install j io (direct_meta id from to total shareable now) s

unfoldable pub create_link_transfer :
    MetaJson → Io → ℕ → Text → Text → ℤ → Bool → Store → Done × Store
unfolding valid_transfer_id install link_meta
create_link_transfer j io now id token total one_time s =
    if is_some (lookup id s.meta)
    then (err already_exists, s)
    else if not (valid_transfer_id id)
    then (err invalid_id, s)
    else install j io (link_meta id token total one_time now) s

unfoldable pub get_meta : Text → Store → Option TransferMeta
get_meta id s = lookup id s.meta

-- The error of writeMeta is dropped.
unfoldable pub touch_link_transfer : MetaJson → Io → ℕ → Text → Store → Store
unfolding write_meta
touch_link_transfer j io now id s = elim (lookup id s.meta) [
  | none ↦ s
  | some m ↦
      let m' : TransferMeta = record m { touched_at = now } in
      record s { meta = insert id m' s.meta; disk = (write_meta j io m' s.disk).1 }
]

-- The second critical section of writeChunk, with the metadata that the first one read.
unfoldable pub commit_chunk : ℕ → Text → ℤ → TransferMeta → Store → Store
unfolding add
commit_chunk now id index m s = record s {
  meta = insert id (record m { touched_at = now }) s.meta;
  received = insert id (add index (set_of id s.received)) s.received;
}

-- `index < 0 || index >= m.TotalChunks`
abbrev pub out_of_range : ℤ → TransferMeta → Bool
out_of_range index m = ltb_ℤ index (pos 0) || leb_ℤ m.total_chunks index

-- What writeChunk does once the chunk's file is written.
unfoldable pub finish_chunk :
    MetaJson → Io → ℕ → Text → ℤ → TransferMeta → Store → Done × Disk → Done × Store
unfolding commit_chunk write_meta
finish_chunk j io now id index m s (err e, d) = (err e, record s { disk = d })
finish_chunk j io now id index m s (ok _, d) =
    let s' = commit_chunk now id index m (record s { disk = d }) in
    let (r, d') = write_meta j io (record m { touched_at = now }) d in (r, record s' { disk = d' })

unfoldable pub write_chunk : MetaJson → Io → ℕ → Text → ℤ → Text → Store → Done × Store
unfolding chunk_name write_file finish_chunk
write_chunk j io now id index content s = elim (lookup id s.meta) [
  | none ↦ (err not_exist, s)
  | some m ↦
      if out_of_range index m
      then (err invalid_argument, s)
      else finish_chunk j io now id index m s (write_file io id (chunk_name index) content s.disk)
]

unfoldable pub read_chunk : Io → Text → ℤ → Store → Result Text
unfolding read_file chunk_name
read_chunk io id index s = read_file io id (chunk_name index) s.disk

-- sort.Ints
unfoldable pub insert_sorted : ℤ → List ℤ → List ℤ
insert_sorted i [] = i ∷ []
insert_sorted i (j ∷ l) = if leb_ℤ i j then i ∷ j ∷ l else j ∷ insert_sorted i l

unfoldable pub sort_ints : List ℤ → List ℤ
unfolding insert_sorted
sort_ints [] = []
sort_ints (i ∷ l) = insert_sorted i (sort_ints l)

unfoldable pub received_indices : Text → Store → List ℤ
unfolding sort_ints
received_indices id s = sort_ints (set_of id s.received)

unfoldable pub summary : TransferMeta → TransferSummary
summary m = record {
  transfer_id = m.transfer_id;
  from = m.from;
  total_chunks = m.total_chunks;
  created_at = m.created_at;
  shareable = m.shareable;
}

unfoldable pub summaries_for : Text → Map TransferMeta → List TransferSummary
unfolding summary
summaries_for pubkey [] = []
summaries_for pubkey ((id, m) ∷ rest) =
    if text_eq m.to pubkey then summary m ∷ summaries_for pubkey rest else summaries_for pubkey rest

unfoldable pub list_for_recipient : Text → Store → List TransferSummary
unfolding summaries_for
list_for_recipient pubkey s = summaries_for pubkey s.meta

unfoldable pub delete_transfer : Io → Text → Store → Done × Store
unfolding remove_all
delete_transfer io id s =
    let (r, d) = remove_all io id s.disk in
    (
      r,
      record s {
        meta = delete id s.meta;
        received = delete id s.received;
        served = delete id s.served;
        disk = d;
      },
    )

-- `len(set) >= total` for a total that may be negative
abbrev pub covers : IntSet → ℤ → Bool
covers set total = leb_ℤ total (pos (length set))

-- What the critical section of markLinkChunkServed leaves, and whether it burns.
unfoldable pub mark_served : Text → ℤ → TransferMeta → Store → Bool × Store
unfolding add
mark_served id index m s =
    let set = add index (set_of id s.served) in
    (m.one_time && covers set m.total_chunks, record s { served = insert id set s.served })

unfoldable pub mark_link_chunk_served : Io → Text → ℤ → Store → Bool × Store
unfolding mark_served delete_transfer
mark_link_chunk_served io id index s = elim (lookup id s.meta) [
  | none ↦ (false, s)
  | some m ↦
      if not (text_eq m.mode link_mode)
      then (false, s)
      else let (burn, s') = mark_served id index m s in
        if burn then (true, (delete_transfer io id s').1) else (false, s')
]

unfoldable pub expired_ids : ℕ → Map TransferMeta → List Text
expired_ids cutoff [] = []
expired_ids cutoff ((id, m) ∷ rest) =
    if ltb m.touched_at cutoff then id ∷ expired_ids cutoff rest else expired_ids cutoff rest

unfoldable pub delete_all : Io → List Text → Store → Store
unfolding delete_transfer
delete_all io [] s = s
delete_all io (id ∷ ids) s = delete_all io ids (delete_transfer io id s).1

-- A cutoff before the epoch is the epoch: no time stamp is earlier than either.
unfoldable pub sweep : Io → ℕ → Store → Store
unfolding expired_ids delete_all
sweep io now s = delete_all io (expired_ids (now - s.ttl) s.meta) s
