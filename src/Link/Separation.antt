-- ===== src/Link/Separation.antt =====
-- The share-link surface does not read, write or delete a direct transfer.
use bitphase_file_share.Prelude.{
  ℕ, ◌≡◌, ◌≢◌, ◌⊎◌, refl, bytes, Bool, true, false, none, some, arith, Text, text_eq, text_eq_iff,
  lookup, ℤ, ok, err, Option-cases, Bool-cases, inl, inr,
}
use bitphase_file_share.Store.Meta.{TransferMeta, MetaJson, link_mode}
use bitphase_file_share.Store.Disk.{Io, Done}
use bitphase_file_share.Store.Ops.{Store, create_link_transfer, touch_link_transfer}
use bitphase_file_share.Store.Invariant.{IsWellFormed}
use bitphase_file_share.Store.Apart.{
  IsApart, IsApart-refl, IsApart-trans, create_link_transfer-IsApart, touch_link_transfer-IsApart,
  write_chunk-IsApart, delete_transfer-IsApart, mark_link_chunk_served-IsApart,
}
use bitphase_file_share.Server.{FileShareServer}
use bitphase_file_share.Link.{
  Answer, LinkResponse, LinkCodec, Request, denied, answer_start, answer_upload, answer_delete,
  link_transfer, link_transfer_for_manage, after_sending, handle_link_chunk_upload,
  handle_link_meta, handle_link_chunk_download, handle_link_delete, with_link_cors,
  no_such_transfer,
}
use bitphase_file_share.Link.Cases.{
  link_transfer-some, IsManaged, upload_cases, delete_cases, meta_cases, download_cases,
}
use bitphase_file_share.Link.Cases.Start.{start_cases}
use bitphase_file_share.Link.Routes.{
  Route, start, upload, share_meta, download, remove, Visit, handle, is_registered, serve,
}

answer_start-IsApart :
    (id : Text) (s : Store) (a b : Text) (r : Done × Store)
    → IsApart id s r.1
    → IsApart id s (answer_start a b r).1
answer_start-IsApart id s a b (ok _, s') h = h
answer_start-IsApart id s a b (err e, s') h = h

answer_upload-IsApart :
    (id : Text) (s : Store) (r : Done × Store) → IsApart id s r.1 → IsApart id s (answer_upload r).1
answer_upload-IsApart id s (ok _, s') h = h
answer_upload-IsApart id s (err e, s') h = h

answer_delete-IsApart :
    (id : Text) (s : Store) (r : Done × Store) → IsApart id s r.1 → IsApart id s (answer_delete r).1
answer_delete-IsApart id s (ok _, s') h = h
answer_delete-IsApart id s (err e, s') h = h

module _ (id : Text) (direct : TransferMeta) (s : Store) (wf : IsWellFormed s)
    (known : lookup id s.meta ≡ some direct) (mode : direct.mode ≢ link_mode) where
  abbrev IsSafe : Answer → Type 0
  IsSafe a = IsApart id s a.1

  apart_link :
      (other : Text) (m : TransferMeta)
      → lookup other s.meta ≡ some m
      → m.mode ≡ link_mode
      → text_eq other id ≡ false
  apart_link other m e l = elim (Bool-cases (text_eq other id)) [
    | inr ne ↦ ne
    | inl h ↦
        let same : other ≡ id = (text_eq_iff other id).0 h in
        absurd (mode (ground (arith, e, l, same, known)))
  ]

  abbrev keyed :
      (other : Text) (m : TransferMeta) → lookup other s.meta ≡ some m → m.transfer_id ≡ other
  keyed other m h = (wf.known other m h).keyed

  apart_managed :
      (r : Request) (m : TransferMeta) → IsManaged r s m → text_eq m.transfer_id id ≡ false
  apart_managed r m h = rw (keyed r.id m h.found) (apart_link r.id m h.found h.mode)

  -- A new link whose identifier is drawn as the one of a direct transfer is refused.
  create_link-IsApart :
      (j : MetaJson) (io : Io) (now : ℕ) (other token : Text) (total : ℤ) (one_time : Bool)
      → IsApart id s (create_link_transfer j io now other token total one_time s).1
  create_link-IsApart j io now other token total one_time = elim (Bool-cases (text_eq other id)) [
    | inr ne ↦ create_link_transfer-IsApart j io now other id s ne token total one_time
    | inl e ↦
        let same : other ≡ id = (text_eq_iff other id).0 e in
        let taken : lookup other s.meta ≡ some direct = rw same known in
        unfold create_link_transfer in rw (taken, create_link_transfer) (IsApart-refl id s)
  ]

  after_sending-IsApart :
      (j : MetaJson) (io : Io) (now : ℕ) (sent : Bool) (other : Text) (i : ℤ)
      → text_eq other id ≡ false
      → IsApart id s (after_sending io sent other i (touch_link_transfer j io now other s))
  after_sending-IsApart j io now false other i ne =
      touch_link_transfer-IsApart j io now other id s ne (keyed other)
  after_sending-IsApart j io now true other i ne =
      IsApart-trans (touch_link_transfer-IsApart j io now other id s ne (keyed other))
        (mark_link_chunk_served-IsApart j io other id i (touch_link_transfer j io now other s) ne)

  handle-IsApart :
      (codec : LinkCodec) (fs : FileShareServer) (now : ℕ) (io : Io) (method : Text)
      (other : LinkResponse) (route : Route) (r : Request)
      → IsApart id s
          (handle codec fs
            (record {
              now = now;
              io = io;
              method = method;
              route = route;
              request = r;
              unrouted = other;
            })
            s).1
  handle-IsApart codec fs now io method unrouted (start first second) r =
      unfold handle in
      start_cases IsSafe codec now io first second (record fs { store = s })
        (λ p h. IsApart-refl id s) r
        (λ req new token h.
          answer_start-IsApart id s new token _
            (create_link-IsApart codec.meta io now new token req.total_chunks req.one_time))
  handle-IsApart codec fs now io method unrouted upload r =
      unfold handle in
      upload_cases IsSafe s (λ p h. IsApart-refl id s) codec.meta now io r
        (λ m i content h e f fits. answer_upload-IsApart id s _ (
          write_chunk-IsApart codec.meta io now m.transfer_id id s (apart_managed r m h)
            (keyed m.transfer_id) i content))
  handle-IsApart codec fs now io method unrouted share_meta r =
      unfold handle in meta_cases IsSafe s (λ p h. IsApart-refl id s) r (λ m e. IsApart-refl id s)
  handle-IsApart codec fs now io method unrouted (download sent) r =
      unfold handle in
      download_cases IsSafe s (λ p h. IsApart-refl id s) codec.meta now io sent r
        (λ m i content e f g.
          let found = link_transfer-some r.id s m e in
          after_sending-IsApart codec.meta io now sent r.id i (apart_link r.id m found.0 found.1))
  handle-IsApart codec fs now io method unrouted remove r =
      unfold handle in
      delete_cases IsSafe s (λ p h. IsApart-refl id s) io r
        (λ m h.
          answer_delete-IsApart id s _
            (delete_transfer-IsApart codec.meta io now m.transfer_id id s (apart_managed r m h)))

serve-state :
    (codec : LinkCodec) (fs : FileShareServer) (v : Visit)
    → ((serve codec fs v).1 ≡ fs.store) ⊎ ((serve codec fs v).1 ≡ (handle codec fs v fs.store).1)
unfolding serve with_link_cors
serve-state codec fs v = elim (Bool-cases (is_registered v.route v.method)) [
  | inr r ↦ inl (rw r refl)
  | inl r ↦ elim (Bool-cases (text_eq v.method (bytes "OPTIONS"))) [
    | inl e ↦ inl (rw (r, e, with_link_cors) refl)
    | inr e ↦ inr (rw (r, e, with_link_cors) refl)
  ]
]

-- A request to the share-link surface, on any route, by any method and with any failures of the disk, leaves the
-- metadata, the indices and the files of every transfer that is no share link as they are. The store
-- is well formed.
pub serve-IsApart :
    (codec : LinkCodec) (fs : FileShareServer) (v : Visit) (id : Text) (direct : TransferMeta)
    → IsWellFormed fs.store
    → lookup id fs.store.meta ≡ some direct
    → direct.mode ≢ link_mode
    → IsApart id fs.store (serve codec fs v).1
serve-IsApart codec fs v id direct wf known mode = elim (serve-state codec fs v) [
  | inl e ↦ rw e (IsApart-refl id fs.store)
  | inr e ↦ rw e (
      handle-IsApart id direct fs.store wf known mode codec fs v.now v.io v.method v.unrouted
        v.route v.request)
]

-- The routes that name a transfer.
abbrev pub IsNamed : Route → Type 0
IsNamed (start first second) = ⊥
IsNamed upload = Unit
IsNamed share_meta = Unit
IsNamed (download sent) = Unit
IsNamed remove = Unit

link_transfer-none :
    (id : Text) (s : Store)
    → ((m : TransferMeta) → lookup id s.meta ≡ some m → m.mode ≢ link_mode)
    → link_transfer id s ≡ none
link_transfer-none id s h = elim (Option-cases (link_transfer id s)) [
  | inl e ↦ e
  | inr (m, e) ↦ let found = link_transfer-some id s m e in absurd (h m found.0 found.1)
]

-- Under the identifier of a transfer that is no share link, or of none at all, every such route
-- answers 404 in the same words and changes nothing.
pub handle_hides :
    (codec : LinkCodec) (fs : FileShareServer) (v : Visit)
    → IsNamed v.route
    → ((m : TransferMeta) → lookup v.request.id fs.store.meta ≡ some m → m.mode ≢ link_mode)
    → handle codec fs v fs.store ≡ (no_such_transfer, fs.store)
handle_hides codec fs v named hidden = hides v.route named
  where
    gone : link_transfer v.request.id fs.store ≡ none
    gone = link_transfer-none v.request.id fs.store hidden

    denied_all : link_transfer_for_manage v.request fs.store ≡ denied no_such_transfer
    denied_all = unfold link_transfer_for_manage in rw (gone, link_transfer_for_manage) refl

    hides :
        (route : Route)
        → IsNamed route
        → handle codec fs (record v { route = route }) fs.store ≡ (no_such_transfer, fs.store)
    hides (start first second) n = absurd n
    hides upload n =
        unfold handle handle_link_chunk_upload in rw (denied_all, handle_link_chunk_upload) refl
    hides share_meta n = unfold handle handle_link_meta in rw (gone, handle_link_meta) refl
    hides (download sent) n =
        unfold handle handle_link_chunk_download in rw (gone, handle_link_chunk_download) refl
    hides remove n = unfold handle handle_link_delete in rw (denied_all, handle_link_delete) refl
