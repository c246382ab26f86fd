-- ===== src/Store/Chunks/WriteMeta.antt =====
-- Writing the metadata changes no chunk, in any directory.
use bitphase_file_share.Prelude.{◌≡◌, ◌∙◌, arith, Text, ok, err, ℤ}
use bitphase_file_share.Store.Meta.{TransferMeta, MetaJson}
use bitphase_file_share.Store.Disk.{Disk, Io, Done, chunk_name, meta_name, meta_tmp_name}
use bitphase_file_share.Store.Disk.Contents.{
  content_at, content_at-write_file_ne, content_at-rename_ne,
}
use bitphase_file_share.Store.Names.{meta-ne-chunk_name, meta_tmp-ne-chunk_name}
use bitphase_file_share.Store.Ops.{then_disk, write_meta}

content_at-then_disk :
    (other name : Text) (d : Disk) (first : Done × Disk) (second : Disk → Done × Disk)
    → content_at other name first.1 ≡ content_at other name d
    → ((e : Disk) → content_at other name (second e).1 ≡ content_at other name e)
    → content_at other name (then_disk first second).1 ≡ content_at other name d
content_at-then_disk other name d (ok _, e) second p q = q e ∙ p
content_at-then_disk other name d (err x, e) second p q = p

pub content_at-write_meta :
    (j : MetaJson) (io : Io) (m : TransferMeta) (d : Disk) (other : Text) (i : ℤ)
    → content_at other (chunk_name i) (write_meta j io m d).1 ≡ content_at other (chunk_name i) d
unfolding write_meta
content_at-write_meta j io m d other i =
    content_at-then_disk other (chunk_name i) d _ _
      (content_at-write_file_ne io m.transfer_id meta_tmp_name (j.marshal m) other (chunk_name i) d
        (ground (arith, meta_tmp-ne-chunk_name i)))
      (λ e.
        content_at-rename_ne io m.transfer_id meta_tmp_name meta_name other (chunk_name i) e
          (ground (arith, meta_tmp-ne-chunk_name i)) (ground (arith, meta-ne-chunk_name i)))
