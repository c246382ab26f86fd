-- ===== src/Startup/Anchored.antt =====
-- Whom the server trusts.
use bitphase_file_share.Prelude.{
  ℕ, ◌≡◌, refl, sym, ◌∙◌, ap, inl, inr, ◌⊎◌, false, not, ◌&&◌, List, [], some, arith, ◌==◌, length,
  All, Text, bytes, text_eq, text_eq_iff, ℤ, int_eq, ◌≤ℤ◌, Result, ok, err, >>=-eq-ok, fail_if-ok,
  Bool-cases, Option-cases,
}
use bitphase_file_share.Store.Meta.{MetaJson}
use bitphase_file_share.Store.Disk.{Disk, Io}
use bitphase_file_share.Store.Load.{new_store}
use bitphase_file_share.KeySource.{
  KeySource, CertCodec, Response, public_key_size, current, new_static_key_source,
  new_delegate_key_source,
}
use bitphase_file_share.KeySource.Certified.{IsCertified, IsClock, current-IsCurrent}
use bitphase_file_share.Server.{FileShareServer}
use bitphase_file_share.Startup.{
  Flags, flag_key, fatal_resolving, no_url, no_key, key_source, start, running,
}

-- Where a key comes from: the pinned root certified it until a time that has not come, or no root is
-- pinned and it is the flag's.
abbrev pub IsAnchored : CertCodec → Flags → ℤ → Text → Type 0
IsAnchored codec flags now key =
    ((root : Text) × (expires_at : ℤ) × (codec.decode_base64 flags.broker_root_pub_key ≡ some root)
      × (length root ≡ public_key_size)
      × IsCertified codec root key expires_at
      × (now ≤ℤ expires_at))
    ⊎ ((flags.broker_root_pub_key ≡ [])
        × (codec.decode_base64 flags.broker_pub_key ≡ some key)
        × (length key ≡ public_key_size))

flag_key-ok :
    (codec : CertCodec) (message s key : Text)
    → flag_key codec message s ≡ ok key
    → (codec.decode_base64 s ≡ some key) × (length key ≡ public_key_size)
unfolding flag_key
flag_key-ok codec message s key h = elim (Option-cases (codec.decode_base64 s)) [
  | inl bad ↦ cc (rw (bad, flag_key) at h)
  | inr (raw, good) ↦
      let (size, same) =
        fail_if-ok (not (length raw == public_key_size)) message (ok raw) key
          (rw (good, flag_key) at h) in
      let one : raw ≡ key = ground (arith, same) in
      let sized : length raw ≡ public_key_size = ground (arith, size) in
      (good ∙ ap some one, rw one at sized)
]

fatal_resolving-ok :
    (r : Result KeySource) (src : KeySource) → fatal_resolving r ≡ ok src → r ≡ ok src
fatal_resolving-ok (ok s) src h = h
fatal_resolving-ok (err e) src h = cc

current-new_static_key_source :
    (key : Text) (now : ℤ) → current now (new_static_key_source key) ≡ ok key
unfolding current new_static_key_source int_eq
current-new_static_key_source key now = refl

static-current :
    (key k : Text) (src : KeySource) (now : ℤ)
    → ok (new_static_key_source key) ≡ ok src
    → current now src ≡ ok k
    → key ≡ k
static-current key k src now same h =
    let one : new_static_key_source key ≡ src = ground (arith, same) in
    let both : ok key ≡ ok k =
      sym (current-new_static_key_source key now) ∙ ap (current now) one ∙ h in
    ground (arith, both)

module _ (codec : CertCodec) (flags : Flags) (begin now : ℤ) (fetched : Result Response)
    (ticks : List (ℤ × Result Response)) (src : KeySource) (key : Text) where
  key_source-IsAnchored :
      IsClock (begin, fetched)
      → All IsClock ticks
      → key_source codec begin flags fetched ≡ ok src
      → current now (running codec flags src ticks) ≡ ok key
      → IsAnchored codec flags now key
  unfolding key_source running
  key_source-IsAnchored clock clocks h k =
      elim (Bool-cases (text_eq flags.broker_root_pub_key [])) [
        | inr pinned ↦
            let (root, e, h₁) =
              >>=-eq-ok (flag_key codec _ flags.broker_root_pub_key) _
                (rw (pinned, key_source) at h) in
            let (good, sized) = flag_key-ok codec _ flags.broker_root_pub_key root e in
            let (url, h₂) = fail_if-ok (text_eq flags.broker_url []) no_url _ src h₁ in
            let made =
              fatal_resolving-ok (new_delegate_key_source codec begin root fetched) src h₂ in
            let (expires_at, certified, time) =
              current-IsCurrent codec root key begin now fetched ticks src clock clocks made
                (rw (pinned, good, running) at k) in
            inl (root, expires_at, good, sized, certified, time)
        | inl unpinned ↦
            let (given, h₁) =
              fail_if-ok (text_eq flags.broker_pub_key []) no_key _ src
                (rw (unpinned, key_source) at h) in
            let (raw, e, h₂) = >>=-eq-ok (flag_key codec _ flags.broker_pub_key) _ h₁ in
            let (good, sized) = flag_key-ok codec _ flags.broker_pub_key raw e in
            let one = static-current raw key src now h₂ (rw (unpinned, running) at k) in
            inr (
              (text_eq_iff flags.broker_root_pub_key []).0 unpinned,
              good ∙ ap some one,
              rw one at sized,
            )
      ]

-- A server that starts asks for the tier free or paid, and from then on, whatever the broker answers
-- at each refresh, each key that it hands out was certified by the root that a flag pins, by a
-- certificate that has not expired, or is the flag's if no root is pinned. The clock is past 1970 at
-- every fetch.
pub start-IsAnchored :
    (quote : Text → Text) (codec : CertCodec) (j : MetaJson) (begin now : ℤ) (io : Io) (cap : ℕ)
    (flags : Flags) (fetched : Result Response) (disk : Disk) (ticks : List (ℤ × Result Response))
    (fs : FileShareServer) (key : Text)
    → IsClock (begin, fetched)
    → All IsClock ticks
    → start quote codec j begin io cap flags fetched disk ≡ ok fs
    → current now (running codec flags fs.broker_pub ticks) ≡ ok key
    → ((fs.min_tier ≡ bytes "free") ⊎ (fs.min_tier ≡ bytes "paid")) × IsAnchored codec flags now key
unfolding start
start-IsAnchored quote codec j begin now io cap flags fetched disk ticks fs key clock clocks h k =
    let (tier, h₁) =
      fail_if-ok
        (not (text_eq flags.min_tier (bytes "free")) && not (text_eq flags.min_tier (bytes "paid")))
        _ _ fs h in
    let (src, e, h₂) = >>=-eq-ok (key_source codec begin flags fetched) _ h₁ in
    let (store, f, h₃) = >>=-eq-ok (new_store j io flags.ttl cap disk) _ h₂ in
    let one : record { store = store; broker_pub = src; min_tier = flags.min_tier } ≡ fs =
      ground (arith, h₃) in
    let source : src ≡ fs.broker_pub = ap (λ (x : FileShareServer). x.broker_pub) one in
    let asked : flags.min_tier ≡ fs.min_tier = ap (λ (x : FileShareServer). x.min_tier) one in
    let allowed : (flags.min_tier ≡ bytes "free") ⊎ (flags.min_tier ≡ bytes "paid") =
      tier_allowed flags.min_tier tier in
    (
      rw asked at allowed,
      key_source-IsAnchored codec flags begin now fetched ticks src key clock clocks e
          (rw (sym source) at k),
    )
  where
    tier_allowed :
        (t : Text)
        → (not (text_eq t (bytes "free")) && not (text_eq t (bytes "paid"))) ≡ false
        → (t ≡ bytes "free") ⊎ (t ≡ bytes "paid")
    tier_allowed t h = elim (Bool-cases (text_eq t (bytes "free"))) [
      | inl free ↦ inl ((text_eq_iff t (bytes "free")).0 free)
      | inr other ↦ inr ((text_eq_iff t (bytes "paid")).0 (ground (arith, h, other)))
    ]
