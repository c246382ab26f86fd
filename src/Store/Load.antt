-- ===== src/Store/Load.antt =====
-- newStore and loadExisting of store.go: the memory is rebuilt from the directories on disk.
use bitphase_file_share.Prelude.{
  ℕ, [], ◌∷◌, Option, none, some, Text, lookup, insert, ℤ, IntSet, add, Result, ok, err,
}
use bitphase_file_share.Strconv.{atoi, cut_suffix}
use bitphase_file_share.Store.Meta.{TransferMeta, MetaJson}
use bitphase_file_share.Store.Disk.{Disk, Files, Io, Done, meta_name, chunk_suffix}
use bitphase_file_share.Store.Ops.{Store}

-- The index of a chunk's file name, if it is one.
unfoldable pub chunk_index : Text → Option ℤ
unfolding cut_suffix atoi
chunk_index name = elim (cut_suffix name chunk_suffix) [ none ↦ none | some s ↦ atoi s ]

abbrev pub add_index : Option ℤ → IntSet → IntSet
add_index none set = set
add_index (some i) set = add i set

unfoldable pub chunk_set : Files → IntSet
unfolding chunk_index
chunk_set [] = []
chunk_set ((name, content) ∷ files) = add_index (chunk_index name) (chunk_set files)

-- The metadata file of a directory, if it can be read.
unfoldable pub load_meta : MetaJson → Io → Text → Files → Option TransferMeta
load_meta j io id files = elim (io.read_error id meta_name) [
  | some e ↦ none
  | none ↦ elim (lookup meta_name files) [ none ↦ none | some raw ↦ j.unmarshal raw ]
]

-- One round of the loop. What was read replaces what the memory held under the name.
unfoldable pub load_entry : MetaJson → Io → Text → Files → Store → Store
unfolding load_meta chunk_set
load_entry j io id files s = elim (load_meta j io id files) [
  | none ↦ s
  | some m ↦
      let s' : Store = record s { meta = insert id m s.meta } in
      elim (io.list_error id) [
        | some e ↦ s'
        | none ↦ record s' { received = insert id (chunk_set files) s.received }
      ]
]

unfoldable pub load_entries : MetaJson → Io → Disk → Store → Store
unfolding load_entry
load_entries j io [] s = s
load_entries j io ((id, files) ∷ rest) s = load_entries j io rest (load_entry j io id files s)

unfoldable pub load_existing : MetaJson → Io → Store → Done × Store
unfolding load_entries
load_existing j io s = elim io.list_root_error [
  | some e ↦ (err e, s)
  | none ↦ (ok tt, load_entries j io s.disk s)
]

abbrev pub empty_store : ℕ → ℕ → Disk → Store
empty_store ttl cap disk = record {
  ttl = ttl;
  max_transfers_per_sender = cap;
  meta = [];
  received = [];
  served = [];
  disk = disk;
}

abbrev pub opened : Done × Store → Result Store
opened (ok _, s) = ok s
opened (err e, s) = err e

-- `cap` is the package variable maxTransfersPerSender.
unfoldable pub new_store : MetaJson → Io → ℕ → ℕ → Disk → Result Store
unfolding load_existing
new_store j io ttl cap disk = elim io.root_error [
  | some e ↦ err e
  | none ↦ opened (load_existing j io (empty_store ttl cap disk))
]
