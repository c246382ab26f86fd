-- ===== src/Store/Examples.antt =====
-- The theorems on the store at concrete inputs.
use mathlib.Core.List.{Perm}
use bitphase_file_share.Prelude.{
  ℕ, ◌≤◌, ◌⊎◌, ◌≡◌, ◌↔◌, refl, inr, true, false, List, [], ◌∷◌, none, some, arith, length, All,
  Text, bytes, text_eq, lookup, insert, delete, IsDistinct, pos, member, add, ok, int_eq,
}
use bitphase_file_share.Store.Meta.{TransferMeta, MetaJson, link_mode, valid_transfer_id}
use bitphase_file_share.Store.Disk.{Io, written, removed, chunk_name}
use bitphase_file_share.Store.Disk.Contents.{content_at}
use bitphase_file_share.Store.Ops.{
  Store, set_of, write_chunk, read_chunk, mark_link_chunk_served, sweep, received_indices,
  sender_count,
}
use bitphase_file_share.Store.Load.{empty_store}
use bitphase_file_share.Store.Invariant.{IsWellFormed}
use bitphase_file_share.Store.Run.{
  Event, Call, create, create_link, put_chunk, serve, step_call, run, run-IsWellFormed,
  empty-IsWellFormed,
}
use bitphase_file_share.Store.Changes.{IsLimited}
use bitphase_file_share.Store.Changes.Steps.{run-IsLimited}
use bitphase_file_share.Store.Contract.{Refines, step_call-Follows}
use bitphase_file_share.Store.Chunks.{write_chunk-read_chunk, write_chunk-frame}
use bitphase_file_share.Store.Burn.{
  IsBurned, IsCounted, mark_link_chunk_served_iff, mark_link_chunk_served_effect,
}
use bitphase_file_share.Store.Apart.{IsApart}
use bitphase_file_share.Store.Burn.Cover.{IsCovered}
use bitphase_file_share.Store.Sweep.{lookup-sweep, sweep_files, unexpired, is_expired}
use bitphase_file_share.Store.Ids.{valid_transfer_id_iff, IsIdChar}
use bitphase_file_share.Store.Sorted.{received_indices-IsSorted, IsSorted}

-- A disk on which every call succeeds.
abbrev calm : Io
calm = record {
  mkdir_error = λ dir. none;
  write_outcome = λ dir name. written;
  rename_error = λ dir. none;
  read_error = λ dir name. none;
  list_error = λ dir. none;
  remove_outcome = λ dir. removed;
  root_error = none;
  list_root_error = none;
}

abbrev plain_json : MetaJson
plain_json = record { marshal = λ m. m.transfer_id; unmarshal = λ t. none }

abbrev at : ℕ → Call → Event
at now c = record { now = now; io = calm; call = c }

abbrev t1 : Text
t1 = bytes "t1"

abbrev history : List Event
history =
    at 1 (create_link t1 (bytes "secret") (pos 2) true)
    ∷ at 2 (put_chunk t1 (pos 0) (7 ∷ 8 ∷ []))
    ∷ at 3 (put_chunk t1 (pos 1) (9 ∷ []))
    ∷ at 4 (serve t1 (pos 1))
    ∷ []

abbrev fresh : Store
fresh = empty_store 100 3 []

abbrev shared : Store
shared = run plain_json history fresh

run-IsWellFormed_example : IsWellFormed (run plain_json history fresh)
run-IsWellFormed_example = run-IsWellFormed plain_json history fresh (empty-IsWellFormed 100 3)

run-IsLimited_example :
    IsDistinct (run plain_json history fresh).meta
    × IsLimited
        (run plain_json history fresh).max_transfers_per_sender
        (run plain_json history fresh).meta
    × ((run plain_json history fresh).max_transfers_per_sender ≡ 3)
run-IsLimited_example =
    run-IsLimited plain_json history fresh tt (λ from ne. unfold sender_count in omega arith)

step_call-Follows_example :
    Refines 1
      (create t1 (bytes "al") (bytes "bo") (pos 2) false)
      fresh
      (step_call plain_json 1 calm (create t1 (bytes "al") (bytes "bo") (pos 2) false) fresh)
step_call-Follows_example =
    step_call-Follows plain_json 1 calm (create t1 (bytes "al") (bytes "bo") (pos 2) false) fresh tt

abbrev shared_meta : TransferMeta
shared_meta = record {
  transfer_id = t1;
  from = [];
  to = [];
  total_chunks = pos 2;
  created_at = 1;
  touched_at = 3;
  shareable = false;
  mode = link_mode;
  manage_token = bytes "secret";
  one_time = true;
}

lookup_shared : lookup t1 shared.meta ≡ some shared_meta
unfolding run lookup insert delete text_eq member
lookup_shared = refl

served_shared : set_of t1 shared.served ≡ pos 1 ∷ []
unfolding run lookup insert delete text_eq member add int_eq
served_shared = refl

mark_link_chunk_served_iff_example :
    ((mark_link_chunk_served calm t1 (pos 0) shared).0 ≡ true)
    ↔ ((true ≡ true) × IsCovered 2 (add (pos 0) (set_of t1 shared.served)))
mark_link_chunk_served_iff_example =
    mark_link_chunk_served_iff calm shared t1 0 2 shared_meta lookup_shared refl refl (omega arith)
      (rw served_shared (omega arith, (unfold member in refl), tt))

mark_link_chunk_served_effect_example :
    let (burned, s') = mark_link_chunk_served calm t1 (pos 0) shared in
    (((burned ≡ true) × IsBurned calm t1 s') ⊎ ((burned ≡ false) × IsCounted t1 (pos 0) shared s'))
    × ((other : Text) → (t1 ≡ other) ⊎ IsApart other shared s')
mark_link_chunk_served_effect_example =
    mark_link_chunk_served_effect calm shared t1 (pos 0) shared_meta lookup_shared refl

shared-IsWellFormed : IsWellFormed shared
shared-IsWellFormed = run-IsWellFormed plain_json history fresh (empty-IsWellFormed 100 3)

write_chunk-ok_shared : (write_chunk plain_json calm 5 t1 (pos 1) (4 ∷ []) shared).0 ≡ ok tt
unfolding run write_chunk lookup insert delete text_eq member
write_chunk-ok_shared = refl

write_chunk-read_chunk_example :
    let s' = (write_chunk plain_json calm 5 t1 (pos 1) (4 ∷ []) shared).1 in
    (read_chunk calm t1 (pos 1) s' ≡ ok (4 ∷ []))
    × (member (pos 1) (set_of t1 s'.received) ≡ true)
    × (m : TransferMeta) × (lookup t1 shared.meta ≡ some m)
    × (lookup t1 s'.meta ≡ some (record m { touched_at = 5 }))
write_chunk-read_chunk_example =
    write_chunk-read_chunk plain_json calm calm 5 t1 (pos 1) (4 ∷ []) shared shared-IsWellFormed
      refl write_chunk-ok_shared

write_chunk-frame_example :
    let s' = (write_chunk plain_json calm 5 t1 (pos 1) (4 ∷ []) shared).1 in
    (content_at t1 (chunk_name (pos 0)) s'.disk ≡ content_at t1 (chunk_name (pos 0)) shared.disk)
    × (member (pos 0) (set_of t1 s'.received) ≡ member (pos 0) (set_of t1 shared.received))
write_chunk-frame_example =
    write_chunk-frame plain_json calm 5 t1 t1 1 0 (4 ∷ []) shared (omega arith) (omega arith)
      (inr (omega arith))

shared-IsDistinct : IsDistinct shared.meta
unfolding run lookup insert delete text_eq member
shared-IsDistinct = (refl, tt)

lookup-sweep_example :
    lookup t1 (sweep calm 200 shared).meta ≡ unexpired 200 shared.ttl (lookup t1 shared.meta)
lookup-sweep_example = lookup-sweep calm 200 shared shared-IsDistinct t1

sweep_files_example :
    (is_expired 200 shared.ttl shared_meta ≡ false
      → (lookup t1 (sweep calm 200 shared).received ≡ lookup t1 shared.received)
        × ((file : Text)
            → content_at t1 file (sweep calm 200 shared).disk ≡ content_at t1 file shared.disk))
    × (is_expired 200 shared.ttl shared_meta ≡ true
        → removed ≡ removed
        → (lookup t1 (sweep calm 200 shared).received ≡ none)
          × ((file : Text) → content_at t1 file (sweep calm 200 shared).disk ≡ none))
sweep_files_example = sweep_files calm 200 shared shared-IsDistinct t1 shared_meta lookup_shared

received_indices-IsSorted_example :
    IsSorted (received_indices t1 shared)
    × Perm (received_indices t1 shared) (set_of t1 shared.received)
received_indices-IsSorted_example = received_indices-IsSorted t1 shared

valid_transfer_id_iff_example : (valid_transfer_id (bytes "../etc") ≡ true) ↔ (
    (1 ≤ length (bytes "../etc")) × (length (bytes "../etc") ≤ 128) × All IsIdChar (bytes "../etc"))
valid_transfer_id_iff_example = valid_transfer_id_iff (bytes "../etc")

received_shared : received_indices t1 shared ≡ pos 0 ∷ pos 1 ∷ []
unfolding run lookup insert delete text_eq member add int_eq received_indices
received_shared = refl
