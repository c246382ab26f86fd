-- ===== src/Server.antt =====
-- server.go: the state of the server, the random tokens, and the bodies of requests.
use bitphase_file_share.Prelude.{
  ℕ, ◌/◌, ◌^◌, Option, none, some, leb, if◌then◌else◌, length, take, Text, ℤ, pos, Result, ok, err,
  ◌>>=◌,
}
use bitphase_file_share.Base64.{encode_url}
use bitphase_file_share.KeySource.{KeySource}
use bitphase_file_share.Store.Ops.{Store}

pub record FileShareServer : Type 0 where
  pub store : Store
  pub broker_pub : KeySource
  pub min_tier : Text

-- time.Now().Unix() of a time in nanoseconds
abbrev pub unix : ℕ → ℤ
unix now = pos (now / 10 ^ 9)

-- `drawn` is what rand.Read filled the buffer with.
unfoldable pub gen_random_token : Result Text → Result Text
gen_random_token drawn = do b ← drawn; ok (encode_url b)

-- What a reader yields: its bytes, and then an error, if any, in place of the end.
pub record Body : Type 0 where
  pub content : Text
  pub error : Option Text

-- io.LimitReader
unfoldable pub limit_reader : ℕ → Body → Body
limit_reader n b =
    if leb n (length b.content) then record { content = take n b.content; error = none } else b

-- io.ReadAll
abbrev pub read_all : Body → Result Text
read_all b = elim b.error [ some e ↦ err e | none ↦ ok b.content ]
