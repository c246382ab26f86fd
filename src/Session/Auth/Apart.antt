-- ===== src/Session/Auth/Apart.antt =====
-- What a connection can do to a share link.
use bitphase_file_share.Prelude.{
  ℕ, ◌≡◌, refl, ap, false, some, arith, Text, ℤ, lookup, Result, ok, err,
}
use bitphase_file_share.Ws.Upgrade.{HandshakeLib, UpgradeRequest, upgrade_web_socket}
use bitphase_file_share.Ws.Message.{WsConn, write_message, receive}
use bitphase_file_share.Token.{ClientToken, verify_token}
use bitphase_file_share.KeySource.{current}
use bitphase_file_share.Store.Meta.{TransferMeta, link_mode}
use bitphase_file_share.Store.Ops.{Store}
use bitphase_file_share.Store.Invariant.{IsWellFormed}
use bitphase_file_share.Store.Apart.{IsApart, IsApart-refl}
use bitphase_file_share.Server.{FileShareServer, unix}
use bitphase_file_share.Session.Envelope.{Envelope}
use bitphase_file_share.Session.Action.{Peer, Action, lift, on_ws, ◌>>=◌}
use bitphase_file_share.Session.Dispatch.{SessionCodec}
use bitphase_file_share.Session.Loop.{Tick}
use bitphase_file_share.Session.History.{serve_session-Evolves}
use bitphase_file_share.Session.Separation.{serve_session-IsApart}
use bitphase_file_share.Session.Relates.{Relates, bind-Relates, Spares, Spares-refl, Spares-trans}
use bitphase_file_share.Session.Handshake.{
  AuthCodec, Draws, parse_hello, make_challenge, parse_response,
}
use bitphase_file_share.Session.Auth.{
  or_reject, check_hello, compare_response, prove_identity, authenticate, after_auth, handle_ws,
  serve_peer, store_of, after_upgrade, auth_ok,
}
use bitphase_file_share.Session.Auth.Proved.{authenticate-named}

then-Spares :
    {A B : Type 0} (m : Action A) (f : A → Action B)
    → Relates Spares m
    → ((a : A) → Relates Spares (f a))
    → Relates Spares (m >>= f)
then-Spares m f h k = bind-Relates Spares Spares-refl Spares-trans m f h k

or_reject-Spares :
    {A : Type 0} (codec : SessionCodec) (r : Result A) → Relates Spares (or_reject codec r)
or_reject-Spares codec (ok a) p = refl
or_reject-Spares codec (err e) p = refl

compare_response-Spares :
    (codec : SessionCodec) (challenge : Text) (resp : Envelope)
    → Relates Spares (compare_response codec challenge resp)
unfolding compare_response
compare_response-Spares codec challenge resp p = ground arith

prove_identity-Spares :
    (codec : AuthCodec) (draws : Draws) (hello : Envelope)
    → Relates Spares (prove_identity codec draws hello)
unfolding prove_identity
prove_identity-Spares codec draws hello =
    then-Spares (lift (make_challenge codec draws hello)) _ (λ p. refl)
      λ (challenge, message).
        then-Spares (on_ws (write_message message)) _ (λ p. refl)
          λ u.
            then-Spares (on_ws (receive codec.session.max_message_size)) _ (λ p. refl)
              λ answer.
                then-Spares (lift (parse_response codec.session answer)) _ (λ p. refl)
                  λ resp.
                    then-Spares (compare_response codec.session challenge resp) _
                      (compare_response-Spares codec.session challenge resp)
                      λ u'.
                        then-Spares (lift (codec.session.envelope.marshal auth_ok)) _ (λ p. refl)
                          λ b. λ p. refl

check_hello-Spares :
    (codec : AuthCodec) (now : ℤ) (fs : FileShareServer) (hello : Envelope)
    → Relates Spares (check_hello codec now fs hello)
unfolding check_hello
check_hello-Spares codec now fs hello =
    then-Spares (or_reject codec.session (current now fs.broker_pub)) _
      (or_reject-Spares codec.session (current now fs.broker_pub))
      λ broker_pub.
        or_reject-Spares codec.session
          (verify_token codec.token broker_pub now hello.token fs.min_tier false)

authenticate-Spares :
    (codec : AuthCodec) (now : ℕ) (draws : Draws) (fs : FileShareServer)
    → Relates Spares (authenticate codec now draws fs)
unfolding authenticate
authenticate-Spares codec now draws fs =
    then-Spares (on_ws (receive codec.session.max_message_size)) _ (λ p. refl)
      λ first.
        then-Spares (lift (parse_hello codec.session first)) _ (λ p. refl)
          λ hello.
            then-Spares (check_hello codec (unix now) fs hello) _
              (check_hello-Spares codec (unix now) fs hello)
              λ tok.
                then-Spares (prove_identity codec draws hello) _
                  (prove_identity-Spares codec draws hello) λ u. λ p. refl

IsApart-from : (id : Text) (s s' t : Store) → s ≡ s' → IsApart id s t → IsApart id s' t
IsApart-from id s s' t same h = rw same at h

serve_peer-IsApart :
    (codec : AuthCodec) (now : ℕ) (draws : Draws) (world : ℕ → Tick) (fs : FileShareServer)
    (p : Peer) (id : Text) (link : TransferMeta)
    → IsWellFormed p.store
    → lookup id p.store.meta ≡ some link
    → link.mode ≡ link_mode
    → (q : Peer) × (serve_peer codec now draws world fs p ≡ some q)
      × IsApart id p.store q.store
      × IsWellFormed q.store
unfolding serve_peer
serve_peer-IsApart codec now draws world fs p id link wf e mode =
    after (authenticate codec now draws fs p) refl (authenticate-Spares codec now draws fs p)
  where
    after :
        (r : Result (Text × ClientToken) × Peer)
        → authenticate codec now draws fs p ≡ r
        → r.1.store ≡ p.store
        → (q : Peer) × (after_auth codec world r ≡ some q)
          × IsApart id p.store q.store
          × IsWellFormed q.store
    after (err m, p') h same = (_, refl, rw same (IsApart-refl id p.store), rw same wf)
    after (ok (pubkey, tok), p') h same =
        let named = authenticate-named codec now draws fs p p' pubkey tok h in
        let (q, served, evolves) =
          serve_session-Evolves codec.session pubkey world tok.expires_at p' in
        let wf' : IsWellFormed p'.store = rw same wf in
        let found : lookup id p'.store.meta ≡ some link = rw same e in
        let (apart, kept) =
          serve_session-IsApart codec.session pubkey world tok.expires_at p' q id link named wf'
            found mode served in
        (q, served, IsApart-from id p'.store p.store q.store same apart, kept)

-- Whatever a request is and whatever bytes then arrive on its connection, upgraded or not, and
-- authenticated or not, the connection ends, every share link has kept its metadata, its indices and
-- its files, and the store is well formed as it was before.
pub handle_ws-IsApart :
    (lib : HandshakeLib) (codec : AuthCodec) (now : ℕ) (draws : Draws) (world : ℕ → Tick)
    (fs : FileShareServer) (req : UpgradeRequest) (id : Text) (link : TransferMeta)
    → IsWellFormed fs.store
    → lookup id fs.store.meta ≡ some link
    → link.mode ≡ link_mode
    → (s : Store) × (handle_ws lib codec now draws world fs req ≡ some s)
      × IsApart id fs.store s
      × IsWellFormed s
unfolding handle_ws
handle_ws-IsApart lib codec now draws world fs req id link wf e mode =
    after (upgrade_web_socket lib req)
  where
    after :
        (r : Result WsConn)
        → (s : Store) × (after_upgrade codec now draws world fs r ≡ some s)
          × IsApart id fs.store s
          × IsWellFormed s
    after (err m) = (fs.store, refl, IsApart-refl id fs.store, wf)
    after (ok c) =
        let (q, served, apart, kept) =
          serve_peer-IsApart codec now draws world fs (record { ws = c; store = fs.store }) id link
            wf e mode in
        (q.store, ap store_of served, apart, kept)
