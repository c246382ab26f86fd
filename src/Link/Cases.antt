-- ===== src/Link/Cases.antt =====
-- Each handler of the share links as a rule for a property of its answer: it refuses and leaves the
pub mod Start
-- store alone, or it has passed every check.
use bitphase_file_share.Prelude.{
  ℕ, ◌+◌, ◌≤◌, ◌≡◌, ◌≢◌, ◌⊎◌, refl, Bool, true, false, not, ◌||◌, [], ◌∷◌, ◌++◌, Option, none, some,
  arith, ltb, if◌then◌else◌, length, Text, bytes, text_eq, text_eq_iff, lookup, ℤ, pos, ltb_ℤ,
  leb_ℤ, Result, ok, err, Option-cases, Bool-cases, Result-cases, inl, inr,
}
use bitphase_file_share.Strconv.{atoi}
use bitphase_file_share.Token.{ClientToken, verify_token}
use bitphase_file_share.KeySource.{current}
use bitphase_file_share.Store.Meta.{TransferMeta, MetaJson, link_mode}
use bitphase_file_share.Store.Disk.{Io, Done}
use bitphase_file_share.Store.Ops.{
  Store, get_meta, create_link_transfer, touch_link_transfer, write_chunk, read_chunk,
  delete_transfer, out_of_range,
}
use bitphase_file_share.Server.{FileShareServer, unix, gen_random_token, limit_reader, read_all}
use bitphase_file_share.Link.{
  Answer, LinkResponse, LinkCodec, LinkStartRequest, Request, Managed, denied, granted,
  answer_start, answer_upload, answer_delete, mint, start_link, handle_link_start, link_transfer,
  link_transfer_for_manage, upload_chunk, handle_link_chunk_upload, handle_link_meta, index_of,
  after_sending, handle_link_chunk_download, handle_link_delete, no_such_transfer,
  max_link_chunk_bytes, octets, json, meta_json, http_error, rejected,
}

-- What a share link's lookup finds.
pub link_transfer-some :
    (id : Text) (s : Store) (m : TransferMeta)
    → link_transfer id s ≡ some m
    → (lookup id s.meta ≡ some m) × (m.mode ≡ link_mode)
unfolding get_meta link_transfer
link_transfer-some id s m h = elim (Option-cases (lookup id s.meta)) [
  | inl e ↦ cc (rw (e, link_transfer) at h)
  | inr (m', e) ↦ elim (Bool-cases (text_eq m'.mode link_mode)) [
    | inl l ↦
        let found : some m' ≡ some m = rw (l, link_transfer) at (rw (e, link_transfer) at h) in
        ground (arith, e, found, l, text_eq_iff m'.mode link_mode)
    | inr d ↦ cc (rw (d, link_transfer) at (rw (e, link_transfer) at h))
  ]
]

Managed-cases :
    (x : Managed) → ((p : LinkResponse) × (x ≡ denied p)) ⊎ ((m : TransferMeta) × (x ≡ granted m))
Managed-cases (denied p) = inl (p, refl)
Managed-cases (granted m) = inr (m, refl)

-- The caller has the token of this share link.
pub record IsManaged (r : Request) (s : Store) (m : TransferMeta) : Type 0 where
  pub found : lookup r.id s.meta ≡ some m
  pub mode : m.mode ≡ link_mode
  pub given : r.manage_token ≢ []
  pub token : r.manage_token ≡ m.manage_token

-- Access is granted to exactly the holder of the token.
pub manage_cases :
    (r : Request) (s : Store)
    → ((p : LinkResponse) × (link_transfer_for_manage r s ≡ denied p) × (400 ≤ p.status))
      ⊎ ((m : TransferMeta) × (link_transfer_for_manage r s ≡ granted m) × IsManaged r s m)
manage_cases r s = elim (Option-cases (link_transfer r.id s)) [
  | inl e ↦ inl (
    no_such_transfer,
    unfold link_transfer_for_manage in rw (e, link_transfer_for_manage) refl,
    omega arith,
  )
  | inr (m, e) ↦
      elim (Bool-cases (text_eq r.manage_token [] || not (text_eq r.manage_token m.manage_token))) [
        | inl bad ↦ inl (
          http_error 403 (bytes "invalid manage token"),
          unfold link_transfer_for_manage in
              rw (e, link_transfer_for_manage) (rw (bad, link_transfer_for_manage) refl),
          omega arith,
        )
        | inr good ↦
            let found = link_transfer-some r.id s m e in
            inr (
              m,
              unfold link_transfer_for_manage in
                  rw (e, link_transfer_for_manage) (rw (good, link_transfer_for_manage) refl),
              record {
                found = found.0;
                mode = found.1;
                given = ground (arith, good, text_eq_iff r.manage_token []);
                token = ground (arith, good, text_eq_iff r.manage_token m.manage_token);
              },
            )
      ]
]

module _ {ℓ} (P : Answer → Type ℓ) (s : Store)
    (refuse : (p : LinkResponse) → 400 ≤ p.status → P (p, s)) where
  pub upload_cases :
      (j : MetaJson) (now : ℕ) (io : Io) (r : Request)
      → ((m : TransferMeta) (i : ℤ) (content : Text)
          → IsManaged r s m
          → atoi r.index ≡ some i
          → read_all (limit_reader (max_link_chunk_bytes + 1) r.body) ≡ ok content
          → length content ≤ max_link_chunk_bytes
          → P (answer_upload (write_chunk j io now m.transfer_id i content s)))
      → P (handle_link_chunk_upload j now io r s)
  upload_cases j now io r accept = elim (manage_cases r s) [
    | inl (p, e, status) ↦
        unfold handle_link_chunk_upload in rw (e, handle_link_chunk_upload) (refuse p status)
    | inr (m, e, managed) ↦
        unfold handle_link_chunk_upload in
        rw (e, handle_link_chunk_upload)
          (elim (Option-cases (atoi r.index)) [
            | inl f ↦ unfold upload_chunk in rw (f, upload_chunk) (refuse _ (omega arith))
            | inr (i, f) ↦
                elim (Result-cases (read_all (limit_reader (max_link_chunk_bytes + 1) r.body))) [
                  | inr (x, g) ↦
                      unfold upload_chunk in
                      rw (f, upload_chunk) (rw (g, upload_chunk) (refuse _ (omega arith)))
                  | inl (content, g) ↦
                      elim (Bool-cases (ltb max_link_chunk_bytes (length content))) [
                        | inl large ↦
                            unfold upload_chunk in
                            rw (f, upload_chunk)
                              (rw (g, upload_chunk)
                                (rw (large, upload_chunk) (refuse _ (omega arith))))
                        | inr fits ↦
                            unfold upload_chunk in
                            rw (f, upload_chunk)
                              (rw (g, upload_chunk)
                                (rw (fits, upload_chunk)
                                  (accept m i content managed f g (ground (arith, fits)))))
                      ]
                ]
          ])
  ]

  pub delete_cases :
      (io : Io) (r : Request)
      → ((m : TransferMeta)
          → IsManaged r s m
          → P (answer_delete (delete_transfer io m.transfer_id s)))
      → P (handle_link_delete io r s)
  delete_cases io r accept = elim (manage_cases r s) [
    | inl (p, e, status) ↦ unfold handle_link_delete in rw (e, handle_link_delete) (refuse p status)
    | inr (m, e, managed) ↦
        unfold handle_link_delete in rw (e, handle_link_delete) (accept m managed)
  ]

  pub meta_cases :
      (r : Request)
      → ((m : TransferMeta)
          → link_transfer r.id s ≡ some m
          → P (json (meta_json m.total_chunks m.one_time), s))
      → P (handle_link_meta r s)
  meta_cases r accept = elim (Option-cases (link_transfer r.id s)) [
    | inl e ↦ unfold handle_link_meta in rw (e, handle_link_meta) (refuse _ (omega arith))
    | inr (m, e) ↦ unfold handle_link_meta in rw (e, handle_link_meta) (accept m e)
  ]

  pub download_cases :
      (j : MetaJson) (now : ℕ) (io : Io) (sent : Bool) (r : Request)
      → ((m : TransferMeta) (i : ℤ) (content : Text)
          → link_transfer r.id s ≡ some m
          → index_of r.index m ≡ some i
          → read_chunk io r.id i s ≡ ok content
          → P (octets content, after_sending io sent r.id i (touch_link_transfer j io now r.id s)))
      → P (handle_link_chunk_download j now io sent r s)
  download_cases j now io sent r accept = elim (Option-cases (link_transfer r.id s)) [
    | inl e ↦
        unfold handle_link_chunk_download in
        rw (e, handle_link_chunk_download) (refuse _ (omega arith))
    | inr (m, e) ↦ elim (Option-cases (index_of r.index m)) [
      | inl f ↦
          unfold handle_link_chunk_download in
          rw (e, handle_link_chunk_download)
            (rw (f, handle_link_chunk_download) (refuse _ (omega arith)))
      | inr (i, f) ↦ elim (Result-cases (read_chunk io r.id i s)) [
        | inr (x, g) ↦
            unfold handle_link_chunk_download in
            rw (e, handle_link_chunk_download)
              (rw (f, handle_link_chunk_download)
                (rw (g, handle_link_chunk_download) (refuse _ (omega arith))))
        | inl (content, g) ↦
            unfold handle_link_chunk_download in
            rw (e, handle_link_chunk_download)
              (rw (f, handle_link_chunk_download)
                (rw (g, handle_link_chunk_download) (accept m i content e f g)))
      ]
    ]
  ]
