-- ===== src/Link/Opened.antt =====
-- Who can open a share link, and what is created.
use bitphase_file_share.Prelude.{
  ℕ, ◌≡◌, refl, true, none, some, arith, Text, lookup, lookup-insert_self, Result, ok, err,
}
use bitphase_file_share.Token.{ClientToken}
use bitphase_file_share.Token.Accepted.{IsSigned, IsEntitled, verify_token_iff}
use bitphase_file_share.KeySource.{current}
use bitphase_file_share.Store.Meta.{TransferMeta, MetaJson, link_meta, valid_transfer_id}
use bitphase_file_share.Store.Disk.{Io, Done, Disk}
use bitphase_file_share.Store.Ops.{Store, finish_create, install, create_link_transfer}
use bitphase_file_share.Store.Cases.{create_link_transfer_cases}
use bitphase_file_share.Server.{FileShareServer, unix, gen_random_token, limit_reader}
use bitphase_file_share.Link.{
  Answer, LinkCodec, LinkStartRequest, Request, answer_start, json, start_json, handle_link_start,
}
use bitphase_file_share.Link.Cases.Start.{IsStarted, start_cases}

-- The new entry, under an identifier that was free.
pub record IsOpened (now : ℕ) (id token : Text) (req : LinkStartRequest) (s s' : Store)
    : Type 0 where
  pub free : lookup id s.meta ≡ none
  pub valid : valid_transfer_id id ≡ true
  pub opened : lookup id s'.meta ≡ some (link_meta id token req.total_chunks req.one_time now)

finish_create-lookup :
    (m : TransferMeta) (s : Store) (r : Done × Disk)
    → (finish_create m s r).0 ≡ ok tt
    → lookup m.transfer_id (finish_create m s r).1.meta ≡ some m
finish_create-lookup m s (ok _, d) h = lookup-insert_self m.transfer_id m s.meta
finish_create-lookup m s (err e, d) h = cc

create_link_transfer-IsOpened :
    (j : MetaJson) (io : Io) (now : ℕ) (id token : Text) (req : LinkStartRequest) (s : Store)
    → (create_link_transfer j io now id token req.total_chunks req.one_time s).0 ≡ ok tt
    → IsOpened now id token req s
        (create_link_transfer j io now id token req.total_chunks req.one_time s).1
create_link_transfer-IsOpened j io now id token req s =
    create_link_transfer_cases j io now s (λ r. r.0 ≡ ok tt → IsOpened now id token req s r.1) id
      token req.total_chunks req.one_time (λ m e h. cc) (λ bad h. cc)
      (λ e good h. record {
        free = e;
        valid = good;
        opened =
            unfold install link_meta in
            finish_create-lookup (link_meta id token req.total_chunks req.one_time now) s _
              (unfold install in h);
      })

-- An opened share link: the request, the claims of its token, the values drawn, and the new entry.
abbrev pub Opens :
    LinkCodec → ℕ → Result Text → Result Text → Request → FileShareServer → Answer → Type 0
Opens codec now first second r fs (response, s') =
    (req : LinkStartRequest) × (id : Text) × (token : Text) × (key : Text) × (claims : ClientToken)
    × (codec.decode_start (limit_reader 4096 r.body) ≡ some req)
    × (current (unix now) fs.broker_pub ≡ ok key)
    × IsSigned codec.token key req.token claims
    × IsEntitled (unix now) fs.min_tier req.secret_only claims
    × (gen_random_token first ≡ ok id)
    × (gen_random_token second ≡ ok token)
    × (response ≡ json (start_json id token))
    × IsOpened now id token req fs.store s'

module _ (codec : LinkCodec) (now : ℕ) (first second : Result Text) (r : Request)
    (fs : FileShareServer) where
  answer_start-Opens :
      (req : LinkStartRequest) (id token : Text)
      → IsStarted codec now first second fs r req id token
      → (a : Done × Store) → (a.0 ≡ ok tt → IsOpened now id token req fs.store a.1)
      → (answer_start id token a).0.status ≡ 200
      → Opens codec now first second r fs (answer_start id token a)
  answer_start-Opens req id token st (err e, s') h = λ status. absurd (omega (arith, status))
  answer_start-Opens req id token st (ok _, s') h = λ status.
      let (signed, entitled) =
        (verify_token_iff codec.token st.key (unix now) req.token fs.min_tier req.secret_only
            st.claims).0
          st.accepted in
      (
        req,
        id,
        token,
        st.key,
        st.claims,
        st.decoded,
        st.live,
        signed,
        entitled,
        st.drawn_id,
        st.drawn_token,
        refl,
        h refl,
      )

  -- A request that is answered 200 had a token that the current broker key signed and that entitles
  -- to what is asked. The response names the two random values, and a link share with that manage
  -- token, touched now, is known under the first, which was free and is valid.
  pub handle_link_start-Opens :
      (io : Io)
      → (handle_link_start codec now io (first, second) r fs).0.status ≡ 200
      → Opens codec now first second r fs (handle_link_start codec now io (first, second) r fs)
  handle_link_start-Opens io =
      start_cases (λ a. a.0.status ≡ 200 → Opens codec now first second r fs a) codec now io first
        second fs (λ p high status. absurd (omega (arith, high, status))) r
        (λ req id token st.
          answer_start-Opens req id token st _
            (create_link_transfer-IsOpened codec.meta io now id token req fs.store))
