-- ===== src/Link/Cases/Start.antt =====
-- The same for POST /link/start.
use bitphase_file_share.Prelude.{
  ℕ, ◌≤◌, ◌≡◌, some, arith, Text, pos, leb_ℤ, ◌≤ℤ◌, Result, ok, Option-cases, Bool-cases,
  Result-cases, inl, inr,
}
use bitphase_file_share.Token.{ClientToken, verify_token}
use bitphase_file_share.KeySource.{current}
use bitphase_file_share.Store.Disk.{Io}
use bitphase_file_share.Store.Ops.{create_link_transfer}
use bitphase_file_share.Server.{FileShareServer, unix, gen_random_token, limit_reader}
use bitphase_file_share.Link.{
  Answer, LinkResponse, LinkCodec, LinkStartRequest, Request, answer_start, mint, start_link,
  handle_link_start,
}

-- The request has passed every check, and `id` and `token` were drawn.
pub record IsStarted (codec : LinkCodec) (now : ℕ) (first second : Result Text)
    (fs : FileShareServer) (r : Request) (req : LinkStartRequest) (id token : Text) : Type 0 where
  pub decoded : codec.decode_start (limit_reader 4096 r.body) ≡ some req
  pub total : pos 1 ≤ℤ req.total_chunks
  pub key : Text
  pub claims : ClientToken
  pub live : current (unix now) fs.broker_pub ≡ ok key
  pub accepted :
      verify_token codec.token key (unix now) req.token fs.min_tier req.secret_only ≡ ok claims
  pub drawn_id : gen_random_token first ≡ ok id
  pub drawn_token : gen_random_token second ≡ ok token

module _ {ℓ} (P : Answer → Type ℓ) (codec : LinkCodec) (now : ℕ) (io : Io)
    (first second : Result Text) (fs : FileShareServer)
    (refuse : (p : LinkResponse) → 400 ≤ p.status → P (p, fs.store)) where
  mint_cases :
      (req : LinkStartRequest)
      → ((id token : Text)
          → gen_random_token first ≡ ok id
          → gen_random_token second ≡ ok token
          → P (
              answer_start id token (
                create_link_transfer codec.meta io now id token req.total_chunks req.one_time
                  fs.store)))
      → P (mint codec now io (first, second) req fs.store)
  mint_cases req accept = elim (Result-cases (gen_random_token first)) [
    | inr (e, f) ↦ unfold mint in rw (f, mint) (refuse _ (omega arith))
    | inl (id, f) ↦ elim (Result-cases (gen_random_token second)) [
      | inr (e, g) ↦ unfold mint in rw (f, mint) (rw (g, mint) (refuse _ (omega arith)))
      | inl (token, g) ↦ unfold mint in rw (f, mint) (rw (g, mint) (accept id token f g))
    ]
  ]

  pub start_cases :
      (r : Request)
      → ((req : LinkStartRequest) (id token : Text)
          → IsStarted codec now first second fs r req id token
          → P (
              answer_start id token (
                create_link_transfer codec.meta io now id token req.total_chunks req.one_time
                  fs.store)))
      → P (handle_link_start codec now io (first, second) r fs)
  start_cases r accept = elim (Option-cases (codec.decode_start (limit_reader 4096 r.body))) [
    | inl e ↦ unfold handle_link_start in rw (e, handle_link_start) (refuse _ (omega arith))
    | inr (req, e) ↦
        unfold handle_link_start in
        rw (e, handle_link_start)
          (elim (Bool-cases (leb_ℤ req.total_chunks (pos 0))) [
            | inl low ↦ unfold start_link in rw (low, start_link) (refuse _ (omega arith))
            | inr high ↦ elim (Result-cases (current (unix now) fs.broker_pub)) [
              | inr (x, f) ↦
                  unfold start_link in
                  rw (high, start_link) (rw (f, start_link) (refuse _ (omega arith)))
              | inl (key, f) ↦
                  elim (Result-cases (
                    verify_token codec.token key (unix now) req.token fs.min_tier
                      req.secret_only)) [
                        | inr (x, g) ↦
                            unfold start_link in
                            rw (high, start_link)
                              (rw (f, start_link) (rw (g, start_link) (refuse _ (omega arith))))
                        | inl (claims, g) ↦
                            unfold start_link in
                            rw (high, start_link)
                              (rw (f, start_link)
                                (rw (g, start_link)
                                  (mint_cases req (λ id token k l. accept req id token (record {
                                    decoded = e;
                                    total = ground (arith, high);
                                    key = key;
                                    claims = claims;
                                    live = f;
                                    accepted = g;
                                    drawn_id = k;
                                    drawn_token = l;
                                  })))))
                      ]
            ]
          ])
  ]
