-- ===== src/Link.antt =====
-- server.go: the HTTP surface for share links. Every handler returns its response and the store.
pub mod Routes
pub mod Cases
mod Examples
pub mod Once
pub mod Separation
pub mod Opened
pub mod Transfer
pub mod Manage
use bitphase_file_share.Prelude.{
  ℕ, suc, ◌+◌, ◌*◌, Bool, true, false, not, ◌||◌, [], ◌∷◌, ◌++◌, Option, none, some, ltb,
  if◌then◌else◌, length, Text, bytes, text_eq, Map, insert, ℤ, pos, ltb_ℤ, leb_ℤ, Result, ok, err,
}
use bitphase_file_share.Strconv.{atoi}
use bitphase_file_share.Token.{ClientToken, TokenCodec, verify_token}
use bitphase_file_share.KeySource.{current}
use bitphase_file_share.Store.Meta.{TransferMeta, MetaJson, link_mode}
use bitphase_file_share.Store.Disk.{Io, Done}
use bitphase_file_share.Store.Ops.{
  Store, get_meta, create_link_transfer, touch_link_transfer, write_chunk, read_chunk,
  delete_transfer, mark_link_chunk_served, out_of_range,
}
use bitphase_file_share.Server.{
  FileShareServer, Body, unix, gen_random_token, limit_reader, read_all,
}

abbrev pub max_link_chunk_bytes : ℕ
max_link_chunk_bytes = 5 * 1024 * 1024

pub record LinkStartRequest : Type 0 where
  pub token : Text
  pub total_chunks : ℤ
  pub one_time : Bool
  pub secret_only : Bool

-- The path values, the header X-Manage-Token and the body of a request. A missing header is empty.
pub record Request : Type 0 where
  pub id : Text
  pub index : Text
  pub manage_token : Text
  pub body : Body

-- Bytes, or a value that is encoded as JSON.
pub data LinkBody : Type 0 where
  raw : Text → LinkBody
  start_json : Text → Text → LinkBody
  meta_json : ℤ → Bool → LinkBody

pub record LinkResponse : Type 0 where
  pub status : ℕ
  pub headers : Map Text
  pub body : LinkBody

-- encoding/json on the files and on the body of POST /link/start, and what verifyToken calls.
pub record LinkCodec : Type 0 where
  pub meta : MetaJson
  pub token : TokenCodec
  pub decode_start : Body → Option LinkStartRequest

abbrev pub content_type : Text → Map Text
content_type kind = insert (bytes "Content-Type") kind []

-- http.Error
abbrev pub http_error : ℕ → Text → LinkResponse
http_error status message = record {
  status = status;
  headers =
      insert (bytes "X-Content-Type-Options") (bytes "nosniff")
        (content_type (bytes "text/plain; charset=utf-8"));
  body = raw (message ++ 10 ∷ []);
}

abbrev pub no_content : LinkResponse
no_content = record { status = 204; headers = []; body = raw [] }

abbrev pub json : LinkBody → LinkResponse
json body = record { status = 200; headers = content_type (bytes "application/json"); body = body }

abbrev pub octets : Text → LinkResponse
octets content = record {
  status = 200;
  headers = content_type (bytes "application/octet-stream");
  body = raw content;
}

abbrev pub Answer : Type 0
Answer = LinkResponse × Store

abbrev pub answer_start : Text → Text → Done × Store → Answer
answer_start id token (err e, s) = (http_error 500 (bytes "could not create transfer: " ++ e), s)
answer_start id token (ok _, s) = (json (start_json id token), s)

-- The two draws of genRandomToken, and the new transfer.
unfoldable pub mint :
    LinkCodec → ℕ → Io → Result Text × Result Text → LinkStartRequest → Store → Answer
mint codec now io (first, second) req s = elim (gen_random_token first) [
  | err e ↦ (http_error 500 (bytes "internal error"), s)
  | ok id ↦ elim (gen_random_token second) [
    | err e ↦ (http_error 500 (bytes "internal error"), s)
    | ok token ↦
        answer_start id token
          (create_link_transfer codec.meta io now id token req.total_chunks req.one_time s)
  ]
]

abbrev pub rejected : Text → Text
rejected e = bytes "access token rejected: " ++ e

-- What follows a body that decodes.
unfoldable pub start_link :
    LinkCodec → ℕ → Io → Result Text × Result Text → LinkStartRequest → FileShareServer → Answer
start_link codec now io drawn req fs =
    if leb_ℤ req.total_chunks (pos 0)
    then (http_error 400 (bytes "total_chunks must be positive"), fs.store)
    else elim (current (unix now) fs.broker_pub) [
      | err e ↦ (http_error 503 (rejected e), fs.store)
      | ok broker_pub ↦
          elim (verify_token codec.token broker_pub (unix now) req.token fs.min_tier
            req.secret_only) [
              | err e ↦ (http_error 401 (rejected e), fs.store)
              | ok tok ↦ mint codec now io drawn req fs.store
            ]
    ]

unfoldable pub handle_link_start :
    LinkCodec → ℕ → Io → Result Text × Result Text → Request → FileShareServer → Answer
handle_link_start codec now io drawn r fs = elim (codec.decode_start (limit_reader 4096 r.body)) [
  | none ↦ (http_error 400 (bytes "invalid JSON body"), fs.store)
  | some req ↦ start_link codec now io drawn req fs
]

-- `!ok || m.Mode != "link"`
unfoldable pub link_transfer : Text → Store → Option TransferMeta
link_transfer id s = elim (get_meta id s) [
  | none ↦ none
  | some m ↦ if text_eq m.mode link_mode then some m else none
]

abbrev pub no_such_transfer : LinkResponse
no_such_transfer = http_error 404 (bytes "no such transfer")

pub data Managed : Type 0 where
  denied : LinkResponse → Managed
  granted : TransferMeta → Managed

unfoldable pub link_transfer_for_manage : Request → Store → Managed
link_transfer_for_manage r s = elim (link_transfer r.id s) [
  | none ↦ denied no_such_transfer
  | some m ↦
      if text_eq r.manage_token [] || not (text_eq r.manage_token m.manage_token)
      then denied (http_error 403 (bytes "invalid manage token"))
      else granted m
]

abbrev pub answer_upload : Done × Store → Answer
answer_upload (err e, s) = (http_error 400 (bytes "chunk rejected: " ++ e), s)
answer_upload (ok _, s) = (no_content, s)

-- An upload by the one who holds the manage token.
unfoldable pub upload_chunk : MetaJson → ℕ → Io → Request → TransferMeta → Store → Answer
upload_chunk j now io r m s = elim (atoi r.index) [
  | none ↦ (http_error 400 (bytes "invalid chunk index"), s)
  | some i ↦ elim (read_all (limit_reader (max_link_chunk_bytes + 1) r.body)) [
    | err e ↦ (http_error 500 (bytes "read error"), s)
    | ok content ↦
        if ltb max_link_chunk_bytes (length content)
        then (http_error 413 (bytes "chunk too large"), s)
        else answer_upload (write_chunk j io now m.transfer_id i content s)
  ]
]

unfoldable pub handle_link_chunk_upload : MetaJson → ℕ → Io → Request → Store → Answer
handle_link_chunk_upload j now io r s = elim (link_transfer_for_manage r s) [
  | denied response ↦ (response, s)
  | granted m ↦ upload_chunk j now io r m s
]

unfoldable pub handle_link_meta : Request → Store → Answer
handle_link_meta r s = elim (link_transfer r.id s) [
  | none ↦ (no_such_transfer, s)
  | some m ↦ (json (meta_json m.total_chunks m.one_time), s)
]

-- An index that is no number, or out of range, is `none`.
unfoldable pub index_of : Text → TransferMeta → Option ℤ
index_of index m = elim (atoi index) [
  | none ↦ none
  | some i ↦ if out_of_range i m then none else some i
]

-- A chunk counts as served if the whole of it was sent.
abbrev pub after_sending : Io → Bool → Text → ℤ → Store → Store
after_sending io false id i s = s
after_sending io true id i s = (mark_link_chunk_served io id i s).1

unfoldable pub handle_link_chunk_download : MetaJson → ℕ → Io → Bool → Request → Store → Answer
handle_link_chunk_download j now io sent r s = elim (link_transfer r.id s) [
  | none ↦ (no_such_transfer, s)
  | some m ↦ elim (index_of r.index m) [
    | none ↦ (http_error 400 (bytes "invalid chunk index"), s)
    | some i ↦ elim (read_chunk io r.id i s) [
      | err e ↦ (http_error 404 (bytes "chunk not found"), s)
      | ok content ↦
          (octets content, after_sending io sent r.id i (touch_link_transfer j io now r.id s))
    ]
  ]
]

abbrev pub answer_delete : Done × Store → Answer
answer_delete (err e, s) = (http_error 500 (bytes "delete failed"), s)
answer_delete (ok _, s) = (no_content, s)

unfoldable pub handle_link_delete : Io → Request → Store → Answer
handle_link_delete io r s = elim (link_transfer_for_manage r s) [
  | denied response ↦ (response, s)
  | granted m ↦ answer_delete (delete_transfer io m.transfer_id s)
]

abbrev pub cors_headers : Map Text → Map Text
cors_headers headers = insert (bytes "Access-Control-Allow-Origin") (bytes "*") (
    insert (bytes "Access-Control-Allow-Methods") (bytes "GET, PUT, POST, DELETE, OPTIONS") (
      insert (bytes "Access-Control-Allow-Headers") (bytes "Content-Type, X-Manage-Token") headers))

-- `h` is the handler, which a preflight does not run.
unfoldable pub with_link_cors : Text → (Store → Answer) → Store → Answer
with_link_cors method h s =
    let (response, s') = if text_eq method (bytes "OPTIONS") then (no_content, s) else h s in
    (record response { headers = cors_headers response.headers }, s')
