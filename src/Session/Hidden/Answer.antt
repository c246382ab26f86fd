-- ===== src/Session/Hidden/Answer.antt =====
-- How the handlers of server.go answer a client on a transfer that is neither from it nor to it.
use bitphase_file_share.Prelude.{
  ℕ, ◌≡◌, ◌≢◌, inl, inr, refl, ap, false, [], ◌∷◌, Option, none, some, arith, Text, bytes, text_eq,
  text_eq_iff, Map, lookup, delete, Result, Result-cases, Option-cases, Bool-cases, if◌then◌else◌,
  IsDistinct,
}
use bitphase_file_share.Store.Meta.{TransferMeta}
use bitphase_file_share.Store.Disk.{Io}
use bitphase_file_share.Store.Ops.{Store, get_meta, summaries_for, summary}
use bitphase_file_share.Session.Envelope.{Envelope}
use bitphase_file_share.Session.Action.{Peer, Action, done}
use bitphase_file_share.Session.Dispatch.{
  SessionCodec, reply, refuse, Request, start_upload, chunk, status, list, download, complete,
  unknown, is_sender, is_recipient, no_sender, no_party, no_recipient, on_chunk, on_status,
  on_download, on_complete, on_request,
}
use bitphase_file_share.Session.Relates.{reply-Spares}

-- What the store knows under an identifier is neither from the client nor to it.
abbrev pub IsForeign : Text → Option TransferMeta → Type 0
IsForeign pubkey none = Unit
IsForeign pubkey (some m) = (m.from ≢ pubkey) × (m.to ≢ pubkey)

-- The same on the connection.
abbrev pub IsAlike : {A : Type 0} → Result A × Peer → Result A × Peer → Type 0
IsAlike r r' = (r'.0 ≡ r.0) × (r'.1.ws ≡ r.1.ws)

pub reply-IsAlike :
    (codec : SessionCodec) (env : Envelope) (p : Peer) (s : Store)
    → IsAlike (reply codec env p) (reply codec env (record p { store = s }))
unfolding reply
reply-IsAlike codec env p s = elim (Result-cases (codec.envelope.marshal env)) [
  | inl (b, e) ↦ rw e (refl, refl)
  | inr (m, e) ↦ rw e (refl, refl)
]

is_sender-foreign :
    (pubkey id : Text) (s : Store)
    → IsForeign pubkey (lookup id s.meta)
    → is_sender pubkey id s ≡ false
unfolding is_sender get_meta
is_sender-foreign pubkey id s h = elim (Option-cases (lookup id s.meta)) [
  | inl e ↦ rw (e, is_sender) refl
  | inr (m, e) ↦
      let (from, to) = rw e at h in
      rw (e, is_sender) (ground (arith, from, text_eq_iff m.from pubkey))
]

is_recipient-foreign :
    (pubkey id : Text) (s : Store)
    → IsForeign pubkey (lookup id s.meta)
    → is_recipient pubkey id s ≡ false
unfolding is_recipient get_meta
is_recipient-foreign pubkey id s h = elim (Option-cases (lookup id s.meta)) [
  | inl e ↦ rw (e, is_recipient) refl
  | inr (m, e) ↦
      let (from, to) = rw e at h in
      rw (e, is_recipient) (ground (arith, to, text_eq_iff m.to pubkey))
]

pub IsForeign-none : (pubkey : Text) (o : Option TransferMeta) → o ≡ none → IsForeign pubkey o
IsForeign-none pubkey none h = tt
IsForeign-none pubkey (some m) h = cc

-- A transfer that is not to the client is not on its list.
pub summaries_for-delete :
    (pubkey id : Text) (meta : Map TransferMeta)
    → IsDistinct meta
    → IsForeign pubkey (lookup id meta)
    → summaries_for pubkey (delete id meta) ≡ summaries_for pubkey meta
unfolding summaries_for delete lookup
summaries_for-delete pubkey id [] d h = refl
summaries_for-delete pubkey id ((j, m) ∷ meta) (fresh, d) h = elim (Bool-cases (text_eq j id)) [
  | inl here ↦
      let same : j ≡ id = (text_eq_iff j id).0 here in
      let gone : lookup id meta ≡ none = rw same at fresh in
      let (from, to) = rw here at h in
      let rest =
        summaries_for-delete pubkey id meta d (IsForeign-none pubkey (lookup id meta) gone) in
      let skipped : text_eq m.to pubkey ≡ false = ground (arith, to, text_eq_iff m.to pubkey) in
      rw (here, skipped) rest
  | inr other ↦
      let rest = summaries_for-delete pubkey id meta d (rw other at h) in
      rw other (ap (λ t. if text_eq m.to pubkey then summary m ∷ t else t) rest)
]

-- How a request that names a foreign transfer is answered.
abbrev pub answer : SessionCodec → Envelope → Request → Action (Unit {0})
answer codec env start_upload = done
answer codec env chunk =
    if text_eq env.transfer_id []
    then refuse codec (bytes "chunk requires transfer_id")
    else refuse codec no_sender
answer codec env status =
    if text_eq env.transfer_id []
    then refuse codec (bytes "status requires transfer_id")
    else refuse codec no_party
answer codec env list = done
answer codec env download = refuse codec no_recipient
answer codec env complete = refuse codec no_recipient
answer codec env unknown = done

-- A request that names its transfer, other than the start of an upload.
abbrev pub IsNaming : Request → Type 0
IsNaming start_upload = ⊥
IsNaming list = ⊥
IsNaming r = Unit

module _ (codec : SessionCodec) (now : ℕ) (io : Io) (pubkey : Text) (env : Envelope) where
  pub on_request-answer :
      (r : Request) (p : Peer)
      → IsNaming r
      → IsForeign pubkey (lookup env.transfer_id p.store.meta)
      → on_request codec now io pubkey env r p ≡ answer codec env r p
  unfolding on_request on_chunk on_status on_download on_complete
  on_request-answer start_upload p n h = absurd n
  on_request-answer list p n h = absurd n
  on_request-answer unknown p n h = refl
  on_request-answer chunk p n h =
      rw (is_sender-foreign pubkey env.transfer_id p.store h) (ground arith)
  on_request-answer status p n h =
      rw
        (
          is_sender-foreign pubkey env.transfer_id p.store h,
          is_recipient-foreign pubkey env.transfer_id p.store h,
        )
        (ground arith)
  on_request-answer download p n h = rw (is_recipient-foreign pubkey env.transfer_id p.store h) refl
  on_request-answer complete p n h = rw (is_recipient-foreign pubkey env.transfer_id p.store h) refl

pub answer-IsAlike :
    (codec : SessionCodec) (env : Envelope) (r : Request) (p : Peer) (s : Store)
    → IsAlike (answer codec env r p) (answer codec env r (record p { store = s }))
answer-IsAlike codec env start_upload p s = (refl, refl)
answer-IsAlike codec env list p s = (refl, refl)
answer-IsAlike codec env unknown p s = (refl, refl)
answer-IsAlike codec env download p s = reply-IsAlike codec _ p s
answer-IsAlike codec env complete p s = reply-IsAlike codec _ p s
answer-IsAlike codec env chunk p s = elim (Bool-cases (text_eq env.transfer_id [])) [
  | inl e ↦ rw e (reply-IsAlike codec _ p s)
  | inr e ↦ rw e (reply-IsAlike codec _ p s)
]
answer-IsAlike codec env status p s = elim (Bool-cases (text_eq env.transfer_id [])) [
  | inl e ↦ rw e (reply-IsAlike codec _ p s)
  | inr e ↦ rw e (reply-IsAlike codec _ p s)
]

pub answer-Spares :
    (codec : SessionCodec) (env : Envelope) (r : Request) (p : Peer)
    → (answer codec env r p).1.store ≡ p.store
answer-Spares codec env start_upload p = refl
answer-Spares codec env list p = refl
answer-Spares codec env unknown p = refl
answer-Spares codec env download p = reply-Spares codec _ p
answer-Spares codec env complete p = reply-Spares codec _ p
answer-Spares codec env chunk p = elim (Bool-cases (text_eq env.transfer_id [])) [
  | inl e ↦ rw e (reply-Spares codec _ p)
  | inr e ↦ rw e (reply-Spares codec _ p)
]
answer-Spares codec env status p = elim (Bool-cases (text_eq env.transfer_id [])) [
  | inl e ↦ rw e (reply-Spares codec _ p)
  | inr e ↦ rw e (reply-Spares codec _ p)
]
