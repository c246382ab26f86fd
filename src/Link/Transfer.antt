-- ===== src/Link/Transfer.antt =====
-- What is uploaded to a share link is what is downloaded from it.
use bitphase_file_share.Prelude.{
  ℕ, ◌+◌, ◌≡◌, ◌≤◌, refl, Bool, true, false, none, some, arith, Text, [], ◌∙◌, sym, length-take,
  text_eq_refl, text_eq, length, leb, take, Bool-cases, inl, inr, lookup, ℤ, Option, ok, err, ap,
}
use bitphase_file_share.Strconv.{atoi}
use bitphase_file_share.Store.Meta.{TransferMeta, MetaJson, link_mode}
use bitphase_file_share.Store.Disk.{Io, Done, chunk_name}
use bitphase_file_share.Store.Ops.{Store, get_meta, read_chunk, write_chunk, out_of_range}
use bitphase_file_share.Store.Invariant.{IsWellFormed}
use bitphase_file_share.Store.Chunks.{write_chunk-ok, write_chunk-read_chunk}
use bitphase_file_share.Server.{Body, limit_reader, read_all}
use bitphase_file_share.Link.{
  Request, answer_upload, octets, handle_link_chunk_upload, handle_link_chunk_download,
  link_transfer, index_of, max_link_chunk_bytes,
}
use bitphase_file_share.Link.Cases.{upload_cases}

answer_upload-ok :
    (a : Done × Store)
    → (answer_upload a).0.status ≡ 204
    → (a.0 ≡ ok tt) × ((answer_upload a).1 ≡ a.1)
answer_upload-ok (ok _, s) h = (refl, refl)
answer_upload-ok (err e, s) h = absurd (omega (arith, h))

-- A body within the limit is read whole.
read_all-limited :
    (n : ℕ) (b : Body) (content : Text)
    → read_all (limit_reader (n + 1) b) ≡ ok content
    → length content ≤ n
    → content ≡ b.content
unfolding limit_reader
read_all-limited n b content h fits = elim (Bool-cases (leb (n + 1) (length b.content))) [
  | inl large ↦
      let whole : ok (take (n + 1) b.content) ≡ ok content = rw (large, limit_reader) at h in
      absurd (ground (arith, whole, fits, large, length-take (n + 1) b.content))
  | inr small ↦ let same = rw (small, limit_reader) at h in content_of b.error same
]
  where
    content_of :
        (o : Option Text)
        → elim o [ some e ↦ err e | none ↦ ok b.content ] ≡ ok content
        → content ≡ b.content
    content_of none k = ground (arith, k)
    content_of (some e) k = cc

module _ (j : MetaJson) (now : ℕ) (io : Io) (sent : Bool) (r : Request) (i : ℤ)
    (number : atoi r.index ≡ some i) where
  downloads :
      (s : Store) (m : TransferMeta) (content : Text)
      → lookup r.id s.meta ≡ some m
      → m.mode ≡ link_mode
      → out_of_range i m ≡ false
      → read_chunk io r.id i s ≡ ok content
      → (handle_link_chunk_download j now io sent r s).0 ≡ octets content
  unfolding handle_link_chunk_download
  downloads s m content e mode fits read =
      let link : text_eq m.mode link_mode ≡ true = rw mode (text_eq_refl link_mode) in
      let found : link_transfer r.id s ≡ some m =
        unfold link_transfer get_meta in rw (e, link_transfer) (rw (link, link_transfer) refl) in
      let index : index_of r.index m ≡ some i =
        unfold index_of in rw (number, index_of) (rw (fits, index_of) refl) in
      rw (found, handle_link_chunk_download)
        (rw (index, handle_link_chunk_download) (rw (read, handle_link_chunk_download) refl))

module _ (j : MetaJson) (now again : ℕ) (io later : Io) (sent : Bool) (r : Request) (s : Store)
    (wf : IsWellFormed s) (readable : (i : ℤ) → later.read_error r.id (chunk_name i) ≡ none) where
  written-downloads :
      (m : TransferMeta) (i : ℤ) (content : Text)
      → lookup r.id s.meta ≡ some m
      → m.mode ≡ link_mode
      → atoi r.index ≡ some i
      → (write_chunk j io now r.id i content s).0 ≡ ok tt
      → (handle_link_chunk_download j again later sent r
          (write_chunk j io now r.id i content s).1).0
        ≡ octets content
  written-downloads m i content found mode number h =
      let (read, member, m₁, e₁, after) =
        write_chunk-read_chunk j io later now r.id i content s wf (readable i) h in
      let (m₂, e₂, fits, run) = write_chunk-ok j io now r.id i content s h in
      let same₁ : m ≡ m₁ = ground (arith, found, e₁) in
      let same₂ : m₁ ≡ m₂ = ground (arith, e₁, e₂) in
      downloads j again later sent r i number _ (record m₁ { touched_at = now }) content after
        (rw same₁ at mode) (rw (sym same₂) at fits) read

-- A chunk whose upload was answered 204 is downloaded as it was sent, by anyone who names its share
-- and index, with no token; the store was well formed, and the system lets the file be read.
pub handle_link_chunk_upload-download :
    (j : MetaJson) (now again : ℕ) (io later : Io) (sent : Bool) (r : Request) (b : Body)
    (s : Store)
    → IsWellFormed s
    → ((i : ℤ) → later.read_error r.id (chunk_name i) ≡ none)
    → (handle_link_chunk_upload j now io r s).0.status ≡ 204
    → (handle_link_chunk_download j again later sent
        (record r { manage_token = []; body = b })
        (handle_link_chunk_upload j now io r s).1).0
      ≡ octets r.body.content
handle_link_chunk_upload-download j now again io later sent r b s wf readable =
    upload_cases
      (λ a.
        a.0.status ≡ 204
        → (handle_link_chunk_download j again later sent (record r { manage_token = []; body = b })
            a.1).0
          ≡ octets r.body.content)
      s (λ p high h. absurd (omega (arith, high, h))) j now io r
      (λ m i content managed number read fits h.
        let key : m.transfer_id ≡ r.id = (wf.known r.id m managed.found).keyed in
        let (good, same) = answer_upload-ok _ h in
        let whole = read_all-limited max_link_chunk_bytes r.body content read fits in
        rw (same, key)
          (written-downloads j now again io later sent (record r { manage_token = []; body = b }) s
              wf readable m i content managed.found managed.mode number (rw key at good)
            ∙ ap octets whole))
