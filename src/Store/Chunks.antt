-- ===== src/Store/Chunks.antt =====
-- What writeChunk stores, and what it leaves alone.
pub mod WriteMeta
use bitphase_file_share.Prelude.{
  ℕ, ◌+◌, ◌<◌, ◌^◌, ◌≡◌, ◌≢◌, ap, sym, ◌∙◌, refl, ◌⊎◌, Bool, true, false, ◌&&◌, Option, none, some,
  arith, if◌then◌else◌, Text, text_eq, text_eq_iff, text_eq_refl, lookup, insert, lookup-insert,
  lookup-insert_self, ℤ, pos, negsuc, member, add, member-add, int_eq, int_eq_iff, ok, err,
  Option-cases, Result-cases, Bool-cases, inl, inr,
}
use bitphase_file_share.Store.Meta.{TransferMeta, MetaJson}
use bitphase_file_share.Store.Disk.{Disk, Io, Done, chunk_name, write_file, not_exist}
use bitphase_file_share.Store.Disk.Contents.{
  content_at, content_at-write_file_ne, content_at-write_file, read_file-content_at,
}
use bitphase_file_share.Store.Names.{chunk_name-injective}
use bitphase_file_share.Store.Ops.{
  Store, set_of, out_of_range, commit_chunk, finish_chunk, write_chunk, read_chunk, write_meta,
  invalid_argument,
}
use bitphase_file_share.Store.Cases.{write_chunk_cases}
use bitphase_file_share.Store.Invariant.{IsWellFormed, set_of-insert}
use WriteMeta.{content_at-write_meta}

module _ (j : MetaJson) (io : Io) (now : ℕ) (id : Text) (i : ℤ) (content : Text) (s : Store) where
  -- A chunk of a transfer that is not there is refused, and so is an index out of range; neither
  -- changes anything.
  pub write_chunk_refuses :
      ((lookup id s.meta ≡ none) → write_chunk j io now id i content s ≡ (err not_exist, s))
      × ((m : TransferMeta)
          → lookup id s.meta ≡ some m
          → out_of_range i m ≡ true
          → write_chunk j io now id i content s ≡ (err invalid_argument, s))
  unfolding write_chunk
  write_chunk_refuses = (λ e. rw (e, write_chunk), λ m e out. ground arith)

  -- What a success means.
  pub write_chunk-ok :
      (write_chunk j io now id i content s).0 ≡ ok tt
      → (m : TransferMeta) × (lookup id s.meta ≡ some m)
        × (out_of_range i m ≡ false)
        × (write_chunk j io now id i content s
            ≡ finish_chunk j io now id i m s (write_file io id (chunk_name i) content s.disk))
  write_chunk-ok h = elim (Option-cases (lookup id s.meta)) [
    | inl e ↦ cc (h, write_chunk_refuses.0 e)
    | inr (m, e) ↦ elim (Bool-cases (out_of_range i m)) [
      | inl out ↦ cc (h, write_chunk_refuses.1 m e out)
      | inr fits ↦ (m, e, fits, unfold write_chunk in rw (e, write_chunk) (rw (fits, write_chunk)))
    ]
  ]

  finish_chunk_stores :
      (m : TransferMeta) (written : Done × Disk)
      → m.transfer_id ≡ id
      → (written.0 ≡ ok tt → content_at id (chunk_name i) written.1 ≡ some content)
      → (finish_chunk j io now id i m s written).0 ≡ ok tt
      → let s' = (finish_chunk j io now id i m s written).1 in
        (content_at id (chunk_name i) s'.disk ≡ some content)
        × (set_of id s'.received ≡ add i (set_of id s.received))
        × (lookup id s'.meta ≡ some (record m { touched_at = now }))
  unfolding finish_chunk commit_chunk
  finish_chunk_stores m (err x, d) k c h = cc
  finish_chunk_stores m (ok tt, d) k c h = (
    content_at-write_meta j io (record m { touched_at = now }) d id i ∙ c refl,
    ground (arith, set_of-insert id id (add i (set_of id s.received)) s.received, text_eq_refl id),
    lookup-insert_self id _ s.meta,
  )

-- After a success the chunk reads back as it was written, its index is among the received ones, and
-- the transfer was touched now; a read that the system refuses is left out.
pub write_chunk-read_chunk :
    (j : MetaJson) (io later : Io) (now : ℕ) (id : Text) (i : ℤ) (content : Text) (s : Store)
    → IsWellFormed s
    → later.read_error id (chunk_name i) ≡ none
    → (write_chunk j io now id i content s).0 ≡ ok tt
    → let s' = (write_chunk j io now id i content s).1 in
      (read_chunk later id i s' ≡ ok content)
      × (member i (set_of id s'.received) ≡ true)
      × (m : TransferMeta) × (lookup id s.meta ≡ some m)
      × (lookup id s'.meta ≡ some (record m { touched_at = now }))
write_chunk-read_chunk j io later now id i content s v fine h =
    let (m, e, fits, run) = write_chunk-ok j io now id i content s h in
    let (there, added, met) =
      finish_chunk_stores j io now id i content s m _ (v.known id m e).keyed
        (content_at-write_file io id (chunk_name i) content s.disk) (ap (λ p. p.0) (sym run) ∙ h) in
    rw run (
      unfold read_chunk in read_file-content_at later id (chunk_name i) content _ fine there,
      rw added (ground (arith, member-add i i (set_of id s.received), int_eq_iff i i)),
      m,
      e,
      met,
    )

module _ (j : MetaJson) (io : Io) (now : ℕ) (id : Text) (i : ℤ) (content : Text) (s : Store)
    (other : Text) (k : ℤ) where
  abbrev IsLeft : Store → Type 0
  IsLeft s' =
      (content_at other (chunk_name k) s'.disk ≡ content_at other (chunk_name k) s.disk)
      × (member k (set_of other s'.received) ≡ member k (set_of other s.received))

  finish_chunk_leaves :
      (m : TransferMeta) (written : Done × Disk)
      → (text_eq id other && int_eq i k) ≡ false
      → content_at other (chunk_name k) written.1 ≡ content_at other (chunk_name k) s.disk
      → IsLeft (finish_chunk j io now id i m s written).1
  unfolding finish_chunk commit_chunk
  finish_chunk_leaves m (err x, d) ne c = (c, refl)
  finish_chunk_leaves m (ok tt, d) ne c = (
    content_at-write_meta j io (record m { touched_at = now }) d other k ∙ c,
    ground (
      arith,
      set_of-insert id other (add i (set_of id s.received)) s.received,
      text_eq_iff id other,
      member-add i k (set_of id s.received),
    ),
  )

  write_chunk_leaves :
      (text_eq id other && text_eq (chunk_name i) (chunk_name k)) ≡ false
      → (text_eq id other && int_eq i k) ≡ false
      → IsLeft (write_chunk j io now id i content s).1
  write_chunk_leaves names ne =
      write_chunk_cases j io now s (λ r. IsLeft r.1) id i content (λ e. (refl, refl))
        (λ m e out. (refl, refl))
        (λ m e fits.
          finish_chunk_leaves m _ ne (
            content_at-write_file_ne io id (chunk_name i) content other (chunk_name k) s.disk
              names))

-- Whether it succeeds or fails, writeChunk changes no other chunk: neither its content nor whether
-- it counts as received.
pub write_chunk-frame :
    (j : MetaJson) (io : Io) (now : ℕ) (id other : Text) (n k : ℕ) (content : Text) (s : Store)
    → n < 2 ^ 63
    → k < 2 ^ 63
    → ((id ≢ other) ⊎ (n ≢ k))
    → let s' = (write_chunk j io now id (pos n) content s).1 in
      (content_at other (chunk_name (pos k)) s'.disk ≡ content_at other (chunk_name (pos k)) s.disk)
      × (member (pos k) (set_of other s'.received) ≡ member (pos k) (set_of other s.received))
write_chunk-frame j io now id other n k content s hn hk ne =
    write_chunk_leaves j io now id (pos n) content s other (pos k) names indices
  where
    names : (text_eq id other && text_eq (chunk_name (pos n)) (chunk_name (pos k))) ≡ false
    names = ground (arith, text_eq_iff id other, chunk_name-injective n k hn hk)

    indices : (text_eq id other && int_eq (pos n) (pos k)) ≡ false
    indices = ground (arith, text_eq_iff id other, int_eq_iff (pos n) (pos k))
