-- ===== src/Store/Run.antt =====
-- A history of a store: the operations that change it, each with its time and with what the disk
-- refuses while it runs.
use bitphase_file_share.Prelude.{ℕ, refl, Bool, List, [], ◌∷◌, Text, ℤ, lookup, member}
use bitphase_file_share.Store.Meta.{MetaJson}
use bitphase_file_share.Store.Disk.{Io}
use bitphase_file_share.Store.Ops.{
  Store, create_transfer, create_link_transfer, touch_link_transfer, write_chunk,
  mark_link_chunk_served, delete_transfer, sweep,
}
use bitphase_file_share.Store.Load.{empty_store}
use bitphase_file_share.Store.Invariant.{IsWellFormed}
use bitphase_file_share.Store.Invariant.Steps.{
  create_transfer-IsWellFormed, create_link_transfer-IsWellFormed, touch_link_transfer-IsWellFormed,
  write_chunk-IsWellFormed, mark_link_chunk_served-IsWellFormed, delete_transfer-IsWellFormed,
  sweep-IsWellFormed,
}

pub data Call : Type 0 where
  create : Text → Text → Text → ℤ → Bool → Call
  create_link : Text → Text → ℤ → Bool → Call
  touch : Text → Call
  put_chunk : Text → ℤ → Text → Call
  serve : Text → ℤ → Call
  remove : Text → Call
  purge : Call

pub record Event : Type 0 where
  pub now : ℕ
  pub io : Io
  pub call : Call

unfoldable pub step_call : MetaJson → ℕ → Io → Call → Store → Store
unfolding create_transfer create_link_transfer touch_link_transfer write_chunk
    mark_link_chunk_served delete_transfer sweep
step_call j now io (create id from to total shareable) s =
    (create_transfer j io now id from to total shareable s).1
step_call j now io (create_link id token total one_time) s =
    (create_link_transfer j io now id token total one_time s).1
step_call j now io (touch id) s = touch_link_transfer j io now id s
step_call j now io (put_chunk id index content) s = (write_chunk j io now id index content s).1
step_call j now io (serve id index) s = (mark_link_chunk_served io id index s).1
step_call j now io (remove id) s = (delete_transfer io id s).1
step_call j now io purge s = sweep io now s

unfoldable pub run : MetaJson → List Event → Store → Store
unfolding step_call
run j [] s = s
run j (e ∷ es) s = run j es (step_call j e.now e.io e.call s)

module _ (j : MetaJson) where
  pub step_call-IsWellFormed :
      (now : ℕ) (io : Io) (c : Call) (s : Store)
      → IsWellFormed s
      → IsWellFormed (step_call j now io c s)
  step_call-IsWellFormed now io (create id from to total shareable) s v =
      unfold step_call in create_transfer-IsWellFormed j io now s v id from to total shareable
  step_call-IsWellFormed now io (create_link id token total one_time) s v =
      unfold step_call in create_link_transfer-IsWellFormed j io now s v id token total one_time
  step_call-IsWellFormed now io (touch id) s v =
      unfold step_call in touch_link_transfer-IsWellFormed j io now s v id
  step_call-IsWellFormed now io (put_chunk id i content) s v =
      unfold step_call in write_chunk-IsWellFormed j io now s v id i content
  step_call-IsWellFormed now io (serve id i) s v =
      unfold step_call in mark_link_chunk_served-IsWellFormed io id i s v
  step_call-IsWellFormed now io (remove id) s v =
      unfold step_call in delete_transfer-IsWellFormed io id s v
  step_call-IsWellFormed now io purge s v = unfold step_call in sweep-IsWellFormed io now s v

  pub run-IsWellFormed : (es : List Event) (s : Store) → IsWellFormed s → IsWellFormed (run j es s)
  unfolding run
  run-IsWellFormed [] s v = v
  run-IsWellFormed (e ∷ es) s v =
      run-IsWellFormed es _ (step_call-IsWellFormed e.now e.io e.call s v)

pub empty-IsWellFormed : (ttl cap : ℕ) → IsWellFormed (empty_store ttl cap [])
unfolding lookup member
empty-IsWellFormed ttl cap = record {
  known = λ id m h. cc;
  stored = λ id m h. cc;
  on_disk = λ id i h. cc;
  in_range = λ id m i h g. cc;
  no_received = λ id h. refl;
  no_served = λ id h. refl;
}
