-- ===== src/Startup/Examples.antt =====
-- The theorem on the start of the server with a pinned root.
use bitphase_file_share.Prelude.{
  ◌≡◌, ◌⊎◌, refl, arith, [], ◌∷◌, List, some, Text, bytes, text_eq, int_eq, ℤ, pos, Result, ok, err,
  none,
}
use bitphase_file_share.Store.Meta.{MetaJson}
use bitphase_file_share.Store.Disk.{Io, written, removed}
use bitphase_file_share.Store.Load.{new_store, empty_store, load_existing, load_entries}
use bitphase_file_share.KeySource.{
  CertCodec, Response, current, resolve_delegate_key, new_delegate_key_source, refresh_all, refresh,
  check_body, check_cert, checked_key, set_key,
}
use bitphase_file_share.Server.{FileShareServer}
use bitphase_file_share.Startup.{Flags, flag_key, key_source, start, running}
use bitphase_file_share.Startup.Anchored.{IsAnchored, start-IsAnchored}

abbrev root_key : Text
root_key = bytes "rootrootrootrootrootrootrootroot"

abbrev delegate_key : Text
delegate_key = bytes "0123456789abcdef0123456789abcdef"

-- A signature is the key that signed.
abbrev plain : CertCodec
plain = record {
  decode_base64 = λ s. some s;
  encode_base64 = λ s. s;
  verify = λ root body sig. text_eq sig root;
  unmarshal_cert = λ body. ok (record {
    delegate_pub_key = body;
    root_pub_key = root_key;
    issued_at = pos 10;
    expires_at = pos 90;
  });
}

abbrev flags : Flags
flags = record {
  ttl = 7;
  broker_pub_key = [];
  broker_root_pub_key = root_key;
  broker_url = bytes "https://broker";
  min_tier = bytes "paid";
}

abbrev certificate : Result Response
certificate = ok (record {
  status_code = 200;
  status = bytes "200 OK";
  signature = root_key;
  body = ok delegate_key;
})

abbrev calm : Io
calm = record {
  mkdir_error = λ dir. none;
  write_outcome = λ dir name. written;
  rename_error = λ dir. none;
  read_error = λ dir name. none;
  list_error = λ dir. none;
  remove_outcome = λ dir. removed;
  root_error = none;
  list_root_error = none;
}

abbrev no_json : MetaJson
no_json = record { marshal = λ m. []; unmarshal = λ t. none }

abbrev server : FileShareServer
server = record {
  store = empty_store 7 200 [];
  broker_pub = record { key = delegate_key; expires_at = pos 90 };
  min_tier = bytes "paid";
}

-- A refresh that fails, and one that brings the key again.
abbrev rounds : List (ℤ × Result Response)
rounds = (pos 20, err (bytes "timeout")) ∷ (pos 30, certificate) ∷ []

server_started : start (λ t. t) plain no_json (pos 15) calm 200 flags certificate [] ≡ ok server
unfolding start key_source flag_key new_delegate_key_source resolve_delegate_key check_body
    check_cert checked_key text_eq new_store load_existing load_entries
server_started = refl

key_in_use : current (pos 90) (running plain flags server.broker_pub rounds) ≡ ok delegate_key
unfolding running current refresh_all refresh resolve_delegate_key check_body check_cert checked_key
    set_key text_eq int_eq
key_in_use = refl

start-IsAnchored_example :
    ((server.min_tier ≡ bytes "free") ⊎ (server.min_tier ≡ bytes "paid"))
    × IsAnchored plain flags (pos 90) delegate_key
start-IsAnchored_example =
    start-IsAnchored (λ t. t) plain no_json (pos 15) (pos 90) calm 200 flags certificate [] rounds
      server delegate_key (ground arith) (ground arith, (ground arith, tt)) server_started
      key_in_use
