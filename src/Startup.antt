-- ===== src/Startup.antt =====
-- main.go: how the flags become the server.
pub mod Anchored
mod Examples
use bitphase_file_share.Prelude.{
  ℕ, not, ◌&&◌, [], ◌++◌, Option, none, some, ◌==◌, if◌then◌else◌, length, List, Text, bytes,
  text_eq, ℤ, Result, ok, err, ◌>>=◌, fail_if,
}
use bitphase_file_share.Store.Meta.{MetaJson}
use bitphase_file_share.Store.Disk.{Disk, Io}
use bitphase_file_share.Store.Load.{new_store}
use bitphase_file_share.KeySource.{
  KeySource, CertCodec, Response, public_key_size, em_dash, new_static_key_source,
  new_delegate_key_source, refresh_all,
}
use bitphase_file_share.Server.{FileShareServer}

-- The flags that the server depends on, after the environment's defaults. `ttl` is in nanoseconds.
pub record Flags : Type 0 where
  pub ttl : ℕ
  pub broker_pub_key : Text
  pub broker_root_pub_key : Text
  pub broker_url : Text
  pub min_tier : Text

-- A key of a flag; `message` ends the program.
unfoldable pub flag_key : CertCodec → Text → Text → Result Text
flag_key codec message s = elim (codec.decode_base64 s) [
  | none ↦ err message
  | some raw ↦ fail_if (not (length raw == public_key_size)) message (ok raw)
]

abbrev pub fatal_resolving : Result KeySource → Result KeySource
fatal_resolving (ok src) = ok src
fatal_resolving (err e) = err (bytes "resolving broker's delegate key against pinned root: " ++ e)

abbrev pub no_url : Text
no_url =
    bytes "-broker-url (or BROKER_URL) is required when -broker-root-pubkey is set "
    ++ (em_dash ++ bytes " file-share needs it to fetch the delegate certificate")

abbrev pub no_key : Text
no_key =
    bytes "-broker-pubkey (or BROKER_PUBKEY) is required "
    ++ (em_dash ++ bytes " file-share needs it to verify access tokens")

-- `fetched` is what the broker answers to the first request.
unfoldable pub key_source : CertCodec → ℤ → Flags → Result Response → Result KeySource
key_source codec now flags fetched =
    if not (text_eq flags.broker_root_pub_key [])
    then (do
      root ←
          flag_key codec (bytes "-broker-root-pubkey is not a valid base64 Ed25519 public key")
            flags.broker_root_pub_key
      fail_if (text_eq flags.broker_url []) no_url
          (fatal_resolving (new_delegate_key_source codec now root fetched)))
    else fail_if (text_eq flags.broker_pub_key []) no_key (do
      key ←
          flag_key codec (bytes "-broker-pubkey is not a valid base64 Ed25519 public key")
            flags.broker_pub_key
      ok (new_static_key_source key))

-- The server that main serves, or the message with which it ends. `cap` is maxTransfersPerSender, and
-- `quote` is the verb %q.
unfoldable pub start :
    (Text → Text)
    → CertCodec
    → MetaJson
    → ℤ
    → Io
    → ℕ
    → Flags
    → Result Response
    → Disk
    → Result FileShareServer
start quote codec j now io cap flags fetched disk =
    fail_if
      (not (text_eq flags.min_tier (bytes "free")) && not (text_eq flags.min_tier (bytes "paid")))
      (bytes "-min-tier must be free or paid, got " ++ quote flags.min_tier)
      (do
        src ← key_source codec now flags fetched
        store ← new_store j io flags.ttl cap disk
        ok (record { store = store; broker_pub = src; min_tier = flags.min_tier }))

-- The source after some rounds of the background loop, which only a pinned root starts.
unfoldable pub running : CertCodec → Flags → KeySource → List (ℤ × Result Response) → KeySource
running codec flags src ticks =
    if text_eq flags.broker_root_pub_key []
    then src
    else elim (codec.decode_base64 flags.broker_root_pub_key) [
      | none ↦ src
      | some root ↦ refresh_all codec root src ticks
    ]
