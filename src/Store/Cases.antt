-- ===== src/Store/Cases.antt =====
-- The branches of each operation of store.go, as rules for a property of its result.
use bitphase_file_share.Prelude.{
  ℕ, ◌<◌, ◌≤◌, ◌≡◌, Bool, true, false, none, some, arith, leb, Text, text_eq, lookup, ℤ, ok, err,
  Option-cases, Bool-cases, inl, inr,
}
use bitphase_file_share.Store.Meta.{
  TransferMeta, MetaJson, direct_meta, link_meta, link_mode, valid_transfer_id,
}
use bitphase_file_share.Store.Disk.{Io, Done, write_file, chunk_name, not_exist}
use bitphase_file_share.Store.Ops.{
  Store, out_of_range, sender_count, install, create_transfer, create_link_transfer, finish_chunk,
  write_chunk, delete_transfer, mark_served, mark_link_chunk_served, invalid_id, limit_reached,
  already_exists, invalid_argument,
}

lt_of_leb : (a b : ℕ) → leb a b ≡ false → b < a
lt_of_leb a b h = ground arith

module _ {ℓ} (j : MetaJson) (io : Io) (now : ℕ) (s : Store) (P : Done × Store → Type ℓ) where
  pub create_transfer_cases :
      (id from to : Text) (total : ℤ) (shareable : Bool)
      → ((m : TransferMeta) → lookup id s.meta ≡ some m → P (ok tt, s))
      → (valid_transfer_id id ≡ false → P (err invalid_id, s))
      → (s.max_transfers_per_sender ≤ sender_count from s.meta → P (err limit_reached, s))
      → (lookup id s.meta ≡ none
          → valid_transfer_id id ≡ true
          → sender_count from s.meta < s.max_transfers_per_sender
          → P (install j io (direct_meta id from to total shareable now) s))
      → P (create_transfer j io now id from to total shareable s)
  create_transfer_cases id from to total shareable exists invalid full room =
      elim (Option-cases (lookup id s.meta)) [
        | inr (m, e) ↦ unfold create_transfer in rw (e, create_transfer) (exists m e)
        | inl e ↦ elim (Bool-cases (valid_transfer_id id)) [
          | inr bad ↦
              unfold create_transfer in
              rw (e, create_transfer) (rw (bad, create_transfer) (invalid bad))
          | inl good ↦
              elim (Bool-cases (leb s.max_transfers_per_sender (sender_count from s.meta))) [
                | inl f ↦
                    unfold create_transfer in
                    rw (e, create_transfer)
                      (rw (good, create_transfer) (rw (f, create_transfer) (full (ground arith))))
                | inr r ↦
                    unfold create_transfer in
                    rw (e, create_transfer)
                      (rw (good, create_transfer)
                        (rw (r, create_transfer) (room e good (lt_of_leb _ _ r))))
              ]
        ]
      ]

  pub create_link_transfer_cases :
      (id token : Text) (total : ℤ) (one_time : Bool)
      → ((m : TransferMeta) → lookup id s.meta ≡ some m → P (err already_exists, s))
      → (valid_transfer_id id ≡ false → P (err invalid_id, s))
      → (lookup id s.meta ≡ none
          → valid_transfer_id id ≡ true
          → P (install j io (link_meta id token total one_time now) s))
      → P (create_link_transfer j io now id token total one_time s)
  create_link_transfer_cases id token total one_time exists invalid room =
      elim (Option-cases (lookup id s.meta)) [
        | inr (m, e) ↦ unfold create_link_transfer in rw (e, create_link_transfer) (exists m e)
        | inl e ↦ elim (Bool-cases (valid_transfer_id id)) [
          | inr bad ↦
              unfold create_link_transfer in
              rw (e, create_link_transfer) (rw (bad, create_link_transfer) (invalid bad))
          | inl good ↦
              unfold create_link_transfer in
              rw (e, create_link_transfer) (rw (good, create_link_transfer) (room e good))
        ]
      ]

  pub write_chunk_cases :
      (id : Text) (i : ℤ) (content : Text)
      → (lookup id s.meta ≡ none → P (err not_exist, s))
      → ((m : TransferMeta)
          → lookup id s.meta ≡ some m
          → out_of_range i m ≡ true
          → P (err invalid_argument, s))
      → ((m : TransferMeta)
          → lookup id s.meta ≡ some m
          → out_of_range i m ≡ false
          → P (finish_chunk j io now id i m s (write_file io id (chunk_name i) content s.disk)))
      → P (write_chunk j io now id i content s)
  write_chunk_cases id i content missing out fits = elim (Option-cases (lookup id s.meta)) [
    | inl e ↦ unfold write_chunk in rw (e, write_chunk) (missing e)
    | inr (m, e) ↦ elim (Bool-cases (out_of_range i m)) [
      | inl o ↦ unfold write_chunk in rw (e, write_chunk) (rw (o, write_chunk) (out m e o))
      | inr f ↦ unfold write_chunk in rw (e, write_chunk) (rw (f, write_chunk) (fits m e f))
    ]
  ]

-- The branch of markLinkChunkServed for a link share that is there: the index is recorded, and the
-- transfer is deleted if that burns it.
pub mark_link_chunk_served_cases {ℓ} :
    (io : Io) (s : Store) (P : Bool × Store → Type ℓ) (id : Text) (i : ℤ)
    → (lookup id s.meta ≡ none → P (false, s))
    → ((m : TransferMeta)
        → lookup id s.meta ≡ some m
        → text_eq m.mode link_mode ≡ false
        → P (false, s))
    → ((m : TransferMeta)
        → lookup id s.meta ≡ some m
        → text_eq m.mode link_mode ≡ true
        → (mark_served id i m s).0 ≡ false
        → P (false, (mark_served id i m s).1))
    → ((m : TransferMeta)
        → lookup id s.meta ≡ some m
        → text_eq m.mode link_mode ≡ true
        → (mark_served id i m s).0 ≡ true
        → P (true, (delete_transfer io id (mark_served id i m s).1).1))
    → P (mark_link_chunk_served io id i s)
mark_link_chunk_served_cases io s P id i missing direct kept burned =
    elim (Option-cases (lookup id s.meta)) [
      | inl e ↦ unfold mark_link_chunk_served in rw (e, mark_link_chunk_served) (missing e)
      | inr (m, e) ↦ elim (Bool-cases (text_eq m.mode link_mode)) [
        | inr d ↦
            unfold mark_link_chunk_served in
            rw (e, mark_link_chunk_served) (rw (d, mark_link_chunk_served) (direct m e d))
        | inl l ↦ elim (Bool-cases (mark_served id i m s).0) [
          | inr k ↦
              unfold mark_link_chunk_served in
              rw (e, mark_link_chunk_served)
                (rw (l, mark_link_chunk_served) (rw (k, mark_link_chunk_served) (kept m e l k)))
          | inl b ↦
              unfold mark_link_chunk_served in
              rw (e, mark_link_chunk_served)
                (rw (l, mark_link_chunk_served) (rw (b, mark_link_chunk_served) (burned m e l b)))
        ]
      ]
    ]
