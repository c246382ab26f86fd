-- ===== src/Session/Hidden.antt =====
-- What two runs of a handler of server.go have alike, with a transfer and without it.
pub mod Answer
use bitphase_file_share.Prelude.{
  ℕ, ◌≡◌, ◌≢◌, ◌⊎◌, inl, inr, refl, ◌∙◌, ap, false, [], ◌∷◌, Option, none, some, arith, Text, bytes,
  text_eq, text_eq_iff, Map, lookup, delete, lookup-delete_self, Result, Result-cases, Option-cases,
  Bool-cases, if◌then◌else◌, IsDistinct,
}
use bitphase_file_share.Store.Meta.{TransferMeta}
use bitphase_file_share.Store.Disk.{Io}
use bitphase_file_share.Store.Ops.{
  Store, get_meta, delete_transfer, list_for_recipient, summaries_for, summary,
}
use bitphase_file_share.Session.Envelope.{Envelope}
use bitphase_file_share.Session.Action.{Peer, Action, done}
use bitphase_file_share.Session.Dispatch.{
  SessionCodec, reply, refuse, Request, start_upload, chunk, status, list, download, complete,
  unknown, request_of, is_sender, is_recipient, no_sender, no_party, no_recipient, on_chunk,
  on_status, on_list, on_download, on_complete, on_request, dispatch,
}
use bitphase_file_share.Session.Relates.{reply-Spares}
use bitphase_file_share.Session.Hidden.Answer.{
  IsForeign, IsForeign-none, IsAlike, IsNaming, answer, reply-IsAlike, on_request-answer,
  answer-IsAlike, answer-Spares, summaries_for-delete,
}

-- Two runs that look alike to the client, and change no store.
abbrev pub AreAlike : Action (Unit {0}) → Peer → Store → Type 0
AreAlike m p s =
    IsAlike (m p) (m (record p { store = s }))
    × ((m p).1.store ≡ p.store)
    × ((m (record p { store = s })).1.store ≡ s)

-- The peer without the transfer.
abbrev pub store_without : Io → Text → Store → Store
store_without io id s = (delete_transfer io id s).1

module _ (codec : SessionCodec) (now : ℕ) (io gone : Io) (pubkey id : Text) (env : Envelope)
    (p : Peer) (d : IsDistinct p.store.meta)
    (foreign : IsForeign pubkey (lookup id p.store.meta)) where
  named-AreAlike :
      (r : Request)
      → IsNaming r
      → env.transfer_id ≡ id
      → AreAlike (on_request codec now io pubkey env r) p (store_without gone id p.store)
  unfolding delete_transfer
  named-AreAlike r n same =
      let s' = store_without gone id p.store in
      let without : IsForeign pubkey (lookup id s'.meta) =
        IsForeign-none pubkey (lookup id s'.meta) (lookup-delete_self id p.store.meta) in
      let here = on_request-answer codec now io pubkey env r p n (rw same foreign) in
      let there =
        on_request-answer codec now io pubkey env r (record p { store = s' }) n (rw same without) in
      rw (here, there)
        (
          answer-IsAlike codec env r p s',
          answer-Spares codec env r p,
          answer-Spares codec env r (record p { store = s' }),
        )

  list-AreAlike :
      AreAlike (on_request codec now io pubkey env list) p (store_without gone id p.store)
  unfolding on_request on_list list_for_recipient delete_transfer
  list-AreAlike =
      let s' = store_without gone id p.store in
      let same = summaries_for-delete pubkey id p.store.meta d foreign in
      rw same (
        reply-IsAlike codec _ p s',
        reply-Spares codec _ p,
        reply-Spares codec _ (record p { store = s' }),
      )

  on_request-AreAlike :
      (r : Request)
      → r ≢ start_upload
      → (env.transfer_id ≡ id) ⊎ (r ≡ list)
      → AreAlike (on_request codec now io pubkey env r) p (store_without gone id p.store)
  on_request-AreAlike start_upload other h = absurd (other refl)
  on_request-AreAlike list other h = list-AreAlike
  on_request-AreAlike chunk other (inl same) = named-AreAlike chunk tt same
  on_request-AreAlike chunk other (inr e) = cc
  on_request-AreAlike status other (inl same) = named-AreAlike status tt same
  on_request-AreAlike status other (inr e) = cc
  on_request-AreAlike download other (inl same) = named-AreAlike download tt same
  on_request-AreAlike download other (inr e) = cc
  on_request-AreAlike complete other (inl same) = named-AreAlike complete tt same
  on_request-AreAlike complete other (inr e) = cc
  on_request-AreAlike unknown other (inl same) = named-AreAlike unknown tt same
  on_request-AreAlike unknown other (inr e) = cc

request_of-start : (type : Text) → request_of type ≡ start_upload → type ≡ bytes "start_upload"
unfolding request_of
request_of-start type h = ground (arith, h, text_eq_iff type (bytes "start_upload"))

request_of-list : request_of (bytes "list") ≡ list
unfolding request_of text_eq
request_of-list = refl

-- Whether there is a transfer that is neither from a client nor to it makes no difference to what the
-- client gets: a message that names it and is not the start of an upload, and a list, have the same
-- result and write the same bytes as when the transfer has been deleted, and neither changes the
-- store. No identifier names two transfers.
pub dispatch-AreAlike :
    (codec : SessionCodec) (now : ℕ) (io gone : Io) (pubkey id : Text) (env : Envelope) (p : Peer)
    → IsDistinct p.store.meta
    → IsForeign pubkey (lookup id p.store.meta)
    → env.type ≢ bytes "start_upload"
    → (env.transfer_id ≡ id) ⊎ (env.type ≡ bytes "list")
    → AreAlike (dispatch codec now io pubkey env) p (store_without gone id p.store)
unfolding dispatch
dispatch-AreAlike codec now io gone pubkey id env p d foreign other asks =
    on_request-AreAlike codec now io gone pubkey id env p d foreign (request_of env.type)
      (λ h. other (request_of-start env.type h))
      (elim asks [ inl same ↦ inl same | inr e ↦ inr (ap request_of e ∙ request_of-list) ])
