-- ===== src/Link/Once.antt =====
-- A one-time share link is gone once it was downloaded.
use bitphase_file_share.Prelude.{
  ℕ, ◌⊎◌, inl, inr, Bool, ◌≡◌, ◌<◌, refl, true, false, none, some, arith, Text, text_eq,
  text_eq_refl, lookup, lookup-insert_self, add, pos, ok,
}
use bitphase_file_share.Strconv.{atoi}
use bitphase_file_share.Store.Meta.{TransferMeta, MetaJson, link_mode}
use bitphase_file_share.Store.Disk.{Io}
use bitphase_file_share.Store.Ops.{
  Store, mark_link_chunk_served, set_of, get_meta, read_chunk, touch_link_transfer, out_of_range,
}
use bitphase_file_share.Store.Burn.{
  IsServing, mark_link_chunk_served_iff, mark_link_chunk_served_effect, IsBurned, IsCounted,
}
use bitphase_file_share.Store.Burn.Cover.{IsCovered}
use bitphase_file_share.Link.{Request, octets, handle_link_chunk_download, link_transfer, index_of}

module _ (j : MetaJson) (io : Io) (now : ℕ) (id : Text) (m : TransferMeta) (s : Store)
    (e : lookup id s.meta ≡ some m) where
  touched-lookup :
      lookup id (touch_link_transfer j io now id s).meta ≡ some (record m { touched_at = now })
  unfolding touch_link_transfer
  touched-lookup =
      rw (e, touch_link_transfer) (lookup-insert_self id (record m { touched_at = now }) s.meta)

  touched-served : (touch_link_transfer j io now id s).served ≡ s.served
  unfolding touch_link_transfer
  touched-served = rw (e, touch_link_transfer) refl

burned-unknown :
    (io : Io) (id : Text) (s : Store) (i : ℕ) (r : Bool × Store)
    → r.0 ≡ true
    → ((r.0 ≡ true) × IsBurned io id r.1) ⊎ ((r.0 ≡ false) × IsCounted id (pos i) s r.1)
    → lookup id r.1.meta ≡ none
burned-unknown io id s i r h (inl (e, gone)) = gone.unknown
burned-unknown io id s i r h (inr (other, counted)) = cc

-- The download that serves the last missing chunk of a one-time share link is answered with the
-- chunk, and when it was sent the share is not known any more. The served indices are those of
-- chunks of the share, each once.
pub handle_link_chunk_download-burns :
    (j : MetaJson) (now : ℕ) (io : Io) (r : Request) (s : Store) (m : TransferMeta) (i n : ℕ)
    (content : Text)
    → lookup r.id s.meta ≡ some m
    → m.mode ≡ link_mode
    → m.one_time ≡ true
    → m.total_chunks ≡ pos n
    → atoi r.index ≡ some (pos i)
    → i < n
    → IsServing r.id n s
    → IsCovered n (add (pos i) (set_of r.id s.served))
    → read_chunk io r.id (pos i) s ≡ ok content
    → let (response, s') = handle_link_chunk_download j now io true r s in
      (response ≡ octets content) × (lookup r.id s'.meta ≡ none)
unfolding handle_link_chunk_download
handle_link_chunk_download-burns j now io r s m i n content e mode once total number lt serving
      covered read =
    let link : text_eq m.mode link_mode ≡ true = rw mode (text_eq_refl link_mode) in
    let found : link_transfer r.id s ≡ some m =
      unfold link_transfer get_meta in rw (e, link_transfer) (rw (link, link_transfer) refl) in
    let fits : out_of_range (pos i) m ≡ false = rw total (ground arith) in
    let index : index_of r.index m ≡ some (pos i) =
      unfold index_of in rw (number, index_of) (rw (fits, index_of) refl) in
    let m' : TransferMeta = record m { touched_at = now } in
    let s₁ = touch_link_transfer j io now r.id s in
    let here = touched-lookup j io now r.id m s e in
    let same = touched-served j io now r.id m s e in
    let burned =
      (mark_link_chunk_served_iff io s₁ r.id i n m' here mode total lt (rw same serving)).1
        (once, rw same covered) in
    let gone =
      burned-unknown io r.id s₁ i (mark_link_chunk_served io r.id (pos i) s₁) burned
        (mark_link_chunk_served_effect io s₁ r.id (pos i) m' here mode).0 in
    rw (found, handle_link_chunk_download)
      (rw (index, handle_link_chunk_download) (rw (read, handle_link_chunk_download) (refl, gone)))
