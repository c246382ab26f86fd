-- ===== src/Store/Invariant.antt =====
-- What holds of a store between two operations, and the ways in which an operation keeps it.
pub mod Files
pub mod Steps
use bitphase_file_share.Prelude.{
  ℕ, ◌≡◌, refl, ◌⊎◌, ◌≢◌, Bool, true, false, List, [], ◌∷◌, Option, none, some, arith,
  if◌then◌else◌, Text, text_eq, text_eq_iff, Map, lookup, insert, delete, is_some, lookup-insert,
  lookup-delete, ℤ, IntSet, member, Option-cases, inl, inr, member-add, member-nil,
}
use bitphase_file_share.Store.Meta.{TransferMeta, valid_transfer_id, link_mode}
use bitphase_file_share.Store.Disk.{Disk, chunk_name}
use bitphase_file_share.Store.Disk.Keeps.{has_dir, has_file}
use bitphase_file_share.Store.Ops.{Store, set_of, out_of_range}

-- A transfer is direct, or it is a link share and then names no identity.
abbrev pub IsModed : TransferMeta → Type 0
IsModed m =
    ((m.mode ≡ []) × (m.one_time ≡ false)) ⊎ ((m.mode ≡ link_mode) × (m.from ≡ []) × (m.to ≡ []))

pub record IsKnown (id : Text) (m : TransferMeta) : Type 0 where
  pub valid : valid_transfer_id id ≡ true
  pub keyed : m.transfer_id ≡ id
  pub moded : IsModed m

pub record IsWellFormed (s : Store) : Type 0 where
  pub known : (id : Text) (m : TransferMeta) → lookup id s.meta ≡ some m → IsKnown id m
  pub stored : (id : Text) (m : TransferMeta) → lookup id s.meta ≡ some m → has_dir id s.disk ≡ true
  pub on_disk :
      (id : Text) (i : ℤ)
      → member i (set_of id s.received) ≡ true
      → has_file id (chunk_name i) s.disk ≡ true
  pub in_range :
      (id : Text) (m : TransferMeta) (i : ℤ)
      → lookup id s.meta ≡ some m
      → member i (set_of id s.received) ≡ true
      → out_of_range i m ≡ false
  pub no_received : (id : Text) → lookup id s.meta ≡ none → lookup id s.received ≡ none
  pub no_served : (id : Text) → lookup id s.meta ≡ none → lookup id s.served ≡ none

-- A change of the disk that takes away no directory and no chunk.
pub record IsKept (d d' : Disk) : Type 0 where
  pub dirs : (id : Text) → has_dir id d ≡ true → has_dir id d' ≡ true
  pub chunks :
      (id : Text) (i : ℤ)
      → has_file id (chunk_name i) d ≡ true
      → has_file id (chunk_name i) d' ≡ true

pub set_of-insert :
    (id other : Text) (set : IntSet) (sets : Map IntSet)
    → set_of other (insert id set sets) ≡ (if text_eq id other then set else set_of other sets)
set_of-insert id other set sets = ground (arith, lookup-insert id other set sets)

pub set_of-delete :
    (id other : Text) (sets : Map IntSet)
    → set_of other (delete id sets) ≡ (if text_eq id other then [] else set_of other sets)
set_of-delete id other sets = ground (arith, lookup-delete id other sets)

module _ (s : Store) (v : IsWellFormed s) where
  -- Only the disk changes.
  pub disk-IsWellFormed : (d : Disk) → IsKept s.disk d → IsWellFormed (record s { disk = d })
  disk-IsWellFormed d k = record {
    known = v.known;
    stored = λ id m h. k.dirs id (v.stored id m h);
    on_disk = λ id i h. k.chunks id i (v.on_disk id i h);
    in_range = v.in_range;
    no_received = v.no_received;
    no_served = v.no_served;
  }

  -- A transfer is entered, or entered anew, with the chunks of `set`.
  pub enter-IsWellFormed :
      (id : Text) (m : TransferMeta) (set : IntSet)
      → IsKnown id m
      → has_dir id s.disk ≡ true
      → ((i : ℤ) → member i set ≡ true → has_file id (chunk_name i) s.disk ≡ true)
      → ((i : ℤ) → member i set ≡ true → out_of_range i m ≡ false)
      → IsWellFormed (record s { meta = insert id m s.meta; received = insert id set s.received })
  enter-IsWellFormed id m set k dir files range = record {
    known = λ j n h. ground (arith, lookup-insert id j m s.meta, text_eq_iff id j, v.known j n, k);
    stored = λ j n h. ground (arith, lookup-insert id j m s.meta, text_eq_iff id j, v.stored j n);
    on_disk = λ j i h.
        ground (arith, set_of-insert id j set s.received, text_eq_iff id j, v.on_disk j i, files i);
    in_range = λ j n i h g. ground (
      arith,
      lookup-insert id j m s.meta,
      set_of-insert id j set s.received,
      text_eq_iff id j,
      v.in_range j n i,
      range i,
    );
    no_received = λ j h.
        ground
          (arith, lookup-insert id j m s.meta, lookup-insert id j set s.received, v.no_received j);
    no_served = λ j h. ground (arith, lookup-insert id j m s.meta, v.no_served j);
  }

  -- The metadata of a transfer changes, and its chunks do not.
  pub touch-IsWellFormed :
      (id : Text) (m n : TransferMeta)
      → lookup id s.meta ≡ some n
      → IsKnown id m
      → m.total_chunks ≡ n.total_chunks
      → IsWellFormed (record s { meta = insert id m s.meta })
  touch-IsWellFormed id m n was k same = record {
    known = λ j o h. ground (arith, lookup-insert id j m s.meta, text_eq_iff id j, v.known j o, k);
    stored = λ j o h.
        ground
          (arith, lookup-insert id j m s.meta, text_eq_iff id j, v.stored j o, v.stored id n was);
    on_disk = v.on_disk;
    in_range = λ j o i h g. ground (
      arith,
      lookup-insert id j m s.meta,
      text_eq_iff id j,
      v.in_range j o i,
      v.in_range id n i was,
      same,
    );
    no_received = λ j h. ground (arith, lookup-insert id j m s.meta, v.no_received j);
    no_served = λ j h. ground (arith, lookup-insert id j m s.meta, v.no_served j);
  }

  -- The served indices of a known transfer change.
  pub serve-IsWellFormed :
      (id : Text) (m : TransferMeta) (set : IntSet)
      → lookup id s.meta ≡ some m
      → IsWellFormed (record s { served = insert id set s.served })
  serve-IsWellFormed id m set was = record {
    known = v.known;
    stored = v.stored;
    on_disk = v.on_disk;
    in_range = v.in_range;
    no_received = v.no_received;
    no_served = λ j h.
        ground (arith, lookup-insert id j set s.served, text_eq_iff id j, v.no_served j, was);
  }

  -- A transfer leaves the memory, and the disk may change in its directory.
  pub delete-IsWellFormed :
      (id : Text) (d : Disk)
      → ((other : Text) → text_eq id other ≡ false → has_dir other d ≡ has_dir other s.disk)
      → ((other name : Text)
          → text_eq id other ≡ false
          → has_file other name d ≡ has_file other name s.disk)
      → IsWellFormed (record s {
        meta = delete id s.meta;
        received = delete id s.received;
        served = delete id s.served;
        disk = d;
      })
  delete-IsWellFormed id d dirs files = record {
    known = λ j o h. ground (arith, lookup-delete id j s.meta, v.known j o);
    stored = λ j o h. ground (arith, lookup-delete id j s.meta, v.stored j o, dirs j);
    on_disk = λ j i h.
        ground (
          arith,
          set_of-delete id j s.received,
          v.on_disk j i,
          files j (chunk_name i),
          member-nil i,
        );
    in_range = λ j o i h g. ground (
      arith,
      lookup-delete id j s.meta,
      set_of-delete id j s.received,
      v.in_range j o i,
      member-nil i,
    );
    no_received = λ j h.
        ground (arith, lookup-delete id j s.meta, lookup-delete id j s.received, v.no_received j);
    no_served = λ j h.
        ground (arith, lookup-delete id j s.meta, lookup-delete id j s.served, v.no_served j);
  }
