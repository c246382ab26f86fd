-- ===== src/KeySource/Certified.antt =====
-- A key that is used was certified by the pinned root, and its certificate has not expired.
use bitphase_file_share.Prelude.{
  ◌≡◌, ◌≢◌, refl, true, not, ◌||◌, ◌&&◌, List, [], ◌∷◌, Option, none, some, arith, ◌==◌, length,
  All, Text, text_eq, text_eq_iff, ℤ, pos, int_eq, int_eq_iff, ltb_ℤ, ◌≤ℤ◌, Result, ok, err, ◌>>=◌,
  >>=-eq-ok, or_error, fail_if-ok,
}
use bitphase_file_share.KeySource.{
  DelegateCert, KeySource, CertCodec, Response, current, set_key, cert_expired, not_json, fetching,
  resolving, wrap_error, public_key_size, checked_key, check_cert, check_body, resolve_delegate_key,
  new_delegate_key_source, after_refresh, refresh, refresh_all,
}

-- A body that the root signed says that the key may be used until `expires_at`.
pub record IsCertified (codec : CertCodec) (root key : Text) (expires_at : ℤ) : Type 0 where
  pub body : Text
  pub sig : Text
  pub cert : DelegateCert
  pub signed : codec.verify root body sig ≡ true
  pub parsed : codec.unmarshal_cert body ≡ ok cert
  pub for_root : cert.root_pub_key ≡ codec.encode_base64 root
  pub names_key : codec.decode_base64 cert.delegate_pub_key ≡ some key
  pub sized : length key ≡ public_key_size
  pub until : cert.expires_at ≡ expires_at

wrap_error-ok {ℓ} :
    {A : Type ℓ} (e : Text) (r : Result A) (a : A) → wrap_error e r ≡ ok a → r ≡ ok a
wrap_error-ok e (ok b) a h = h
wrap_error-ok e (err x) a h = cc

checked_key-ok :
    (o : Option Text) (key : Text)
    → checked_key o ≡ ok key
    → (o ≡ some key) × (length key ≡ public_key_size)
unfolding checked_key
checked_key-ok none key h = cc
checked_key-ok (some k) key h =
    let (size, same) = fail_if-ok (not (length k == public_key_size)) _ (ok k) key h in
    ground (arith, size, same)

module _ (codec : CertCodec) (now : ℤ) (root : Text) (key : Text) (expires_at : ℤ) where
  check_cert-ok :
      (cert : DelegateCert)
      → check_cert codec now root cert ≡ ok (key, expires_at)
      → (cert.root_pub_key ≡ codec.encode_base64 root)
        × (codec.decode_base64 cert.delegate_pub_key ≡ some key)
        × (length key ≡ public_key_size)
        × (cert.expires_at ≡ expires_at)
        × (cert.issued_at ≤ℤ now)
        × (now ≤ℤ cert.expires_at)
  unfolding check_cert
  check_cert-ok cert h =
      let (root_ok, h₁) =
        fail_if-ok (not (text_eq cert.root_pub_key (codec.encode_base64 root))) _ _
          (key, expires_at) h in
      let (time, h₂) =
        fail_if-ok (ltb_ℤ now cert.issued_at || ltb_ℤ cert.expires_at now) _ _ (key, expires_at)
          h₁ in
      let (k, e, same) = >>=-eq-ok (checked_key (codec.decode_base64 cert.delegate_pub_key)) _ h₂ in
      let (named, size) = checked_key-ok (codec.decode_base64 cert.delegate_pub_key) k e in
      (
        (text_eq_iff cert.root_pub_key (codec.encode_base64 root)).0 (ground (arith, root_ok)),
        ground (arith, named, same),
        ground (arith, size, same),
        ground (arith, same),
        ground (arith, time),
        ground (arith, time),
      )

  -- A certified key, within its time.
  abbrev pub IsCurrent : Type 0
  IsCurrent = IsCertified codec root key expires_at × (now ≤ℤ expires_at)

  check_body-ok :
      (resp : Response) (body : Text)
      → check_body codec now root resp body ≡ ok (key, expires_at)
      → IsCurrent
  unfolding check_body
  check_body-ok resp body h =
      let (status, h₁) = fail_if-ok (not (resp.status_code == 200)) _ _ (key, expires_at) h in
      let (sig, e, h₂) = >>=-eq-ok (or_error (codec.decode_base64 resp.signature) _) _ h₁ in
      let (signed, h₃) = fail_if-ok (not (codec.verify root body sig)) _ _ (key, expires_at) h₂ in
      let (cert, parsed, h₄) =
        >>=-eq-ok (wrap_error not_json (codec.unmarshal_cert body)) (check_cert codec now root)
          h₃ in
      let (for_root, names_key, sized, until, from, to) = check_cert-ok cert h₄ in
      (
        record {
          body = body;
          sig = sig;
          cert = cert;
          signed = ground (arith, signed);
          parsed = wrap_error-ok not_json (codec.unmarshal_cert body) cert parsed;
          for_root = for_root;
          names_key = names_key;
          sized = sized;
          until = until;
        },
        rw until at to,
      )

  -- A key that is resolved was certified by the root for 32 bytes, and its certificate holds now.
  pub resolve_delegate_key-IsCurrent :
      (fetched : Result Response)
      → resolve_delegate_key codec now root fetched ≡ ok (key, expires_at)
      → IsCurrent
  unfolding resolve_delegate_key
  resolve_delegate_key-IsCurrent fetched h =
      let rest : Response → Result (Text × ℤ) =
        λ resp. resp.body >>= check_body codec now root resp in
      let (resp, e, h₁) = >>=-eq-ok (wrap_error fetching fetched) rest h in
      let (body, f, h₂) = >>=-eq-ok resp.body (check_body codec now root resp) h₁ in
      check_body-ok resp body h₂

-- The clock is past 1970 whenever a certificate is fetched.
abbrev pub IsClock : ℤ × Result Response → Type 0
IsClock (now, fetched) = pos 1 ≤ℤ now

-- The source holds a certified key with a real expiry.
abbrev pub IsTrusted : CertCodec → Text → KeySource → Type 0
IsTrusted codec root src = IsCertified codec root src.key src.expires_at × (src.expires_at ≢ pos 0)

after_refresh-IsTrusted :
    (codec : CertCodec) (root : Text) (now : ℤ) (src : KeySource) (r : Result (Text × ℤ))
    → pos 1 ≤ℤ now
    → ((key : Text) (e : ℤ) → r ≡ ok (key, e) → IsCertified codec root key e × (now ≤ℤ e))
    → IsTrusted codec root src
    → IsTrusted codec root (after_refresh src r)
unfolding set_key
after_refresh-IsTrusted codec root now src (err e) clock new t = t
after_refresh-IsTrusted codec root now src (ok (key, e)) clock new t =
    let (certified, time) = new key e refl in
    (certified, λ zero_e. ground (arith, time, clock, zero_e))

refresh_all-IsTrusted :
    (codec : CertCodec) (root : Text) (src : KeySource) (ticks : List (ℤ × Result Response))
    → All IsClock ticks
    → IsTrusted codec root src
    → IsTrusted codec root (refresh_all codec root src ticks)
unfolding refresh_all refresh
refresh_all-IsTrusted codec root src [] c t = t
refresh_all-IsTrusted codec root src ((now, fetched) ∷ ticks) (clock, c) t =
    refresh_all-IsTrusted codec root (refresh codec root src (now, fetched)) ticks c (
      after_refresh-IsTrusted codec root now src (resolve_delegate_key codec now root fetched) clock
        (λ key e h. resolve_delegate_key-IsCurrent codec now root key e fetched h) t)

ok-IsTrusted :
    (codec : CertCodec) (root : Text) (a b : KeySource)
    → ok a ≡ ok b
    → IsTrusted codec root a
    → IsTrusted codec root b
ok-IsTrusted codec root a b e t = let same : a ≡ b = ground (arith, e) in rw same at t

key-IsCertified :
    (codec : CertCodec) (root a b : Text) (e : ℤ)
    → ok a ≡ ok b
    → IsCertified codec root a e
    → IsCertified codec root b e
key-IsCertified codec root a b e same c = let equal : a ≡ b = ground (arith, same) in rw equal at c

-- From startup on, whatever the broker answers at each refresh, a key that is handed out was
-- certified by the pinned root, and the certificate has not expired when it is handed out. The clock
-- is past 1970 at every fetch.
pub current-IsCurrent :
    (codec : CertCodec) (root key : Text) (start now : ℤ) (fetched : Result Response)
    (ticks : List (ℤ × Result Response)) (src : KeySource)
    → IsClock (start, fetched)
    → All IsClock ticks
    → new_delegate_key_source codec start root fetched ≡ ok src
    → current now (refresh_all codec root src ticks) ≡ ok key
    → (expires_at : ℤ) × IsCertified codec root key expires_at × (now ≤ℤ expires_at)
unfolding current new_delegate_key_source
current-IsCurrent codec root key start now fetched ticks src clock clocks started h =
    let source : Text × ℤ → Result KeySource = λ p. ok (record { key = p.0; expires_at = p.1 }) in
    let resolved = resolve_delegate_key codec start root fetched in
    let ((k, e), f, same) = >>=-eq-ok (wrap_error resolving resolved) source started in
    let g = wrap_error-ok resolving resolved (k, e) f in
    let (certified, time) = resolve_delegate_key-IsCurrent codec start root k e fetched g in
    let first : IsTrusted codec root (record { key = k; expires_at = e }) =
      (certified, λ zero_e. ground (arith, time, clock, zero_e)) in
    let first' : IsTrusted codec root src = ok-IsTrusted codec root _ src same first in
    let later = refresh_all codec root src ticks in
    let (held, real) = refresh_all-IsTrusted codec root src ticks clocks first' in
    let test = not (int_eq later.expires_at (pos 0)) && ltb_ℤ later.expires_at now in
    let (live, is_key) = fail_if-ok test cert_expired (ok later.key) key h in
    (
      later.expires_at,
      key-IsCertified codec root later.key key later.expires_at is_key held,
      ground (arith, live, real, int_eq_iff later.expires_at (pos 0)),
    )
