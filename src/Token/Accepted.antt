-- ===== src/Token/Accepted.antt =====
-- Which tokens are accepted.
use bitphase_file_share.Prelude.{
  ◌≡◌, ◌≢◌, ◌↔◌, ◌∙◌, ◌⊎◌, inl, inr, refl, ap, Bool, true, false, not, [], ◌∷◌, ◌++◌, ◌==◌, ==_iff,
  All, none, some, Bool-cases, text_eq_iff, arith, ltb, Text, bytes, ℤ, ◌≤ℤ◌, ltb_ℤ, ok, fail_if-ok,
  Option-cases,
}
use bitphase_file_share.Token.{
  ClientToken, TokenCodec, cut_dot, tier_rank, plan_refused, check_claims, verify_token,
}

-- No plan is "full"; "vpn" is admitted where the caller says so.
abbrev pub IsPlanAllowed : Bool → Text → Type 0
IsPlanAllowed allow_vpn plan =
    (plan ≡ []) ⊎ (plan ≡ bytes "full") ⊎ ((allow_vpn ≡ true) × (plan ≡ bytes "vpn"))

-- Only a paid token will do where paid is asked for; any will where it is not.
abbrev pub IsTierEnough : Text → Text → Type 0
IsTierEnough min_tier tier = (min_tier ≢ bytes "paid") ⊎ (tier ≡ bytes "paid")

abbrev pub IsEntitled : ℤ → Text → Bool → ClientToken → Type 0
IsEntitled now min_tier allow_vpn tok =
    IsTierEnough min_tier tok.tier × IsPlanAllowed allow_vpn tok.plan × (now ≤ℤ tok.expires_at)

-- A text of two parts joined by the first dot.
abbrev pub IsSigned : TokenCodec → Text → Text → ClientToken → Type 0
IsSigned codec broker_pub token tok =
    (first : Text) × (second : Text) × (payload : Text) × (sig : Text) × (token
      ≡ first ++ b'.' ∷ second)
    × All (λ c. c ≢ b'.') first
    × (codec.decode_base64 first ≡ some payload)
    × (codec.decode_base64 second ≡ some sig)
    × (codec.verify broker_pub payload sig ≡ true)
    × (codec.unmarshal_token payload ≡ some tok)

IsTierEnough-iff :
    (min_tier tier : Text)
    → (ltb (tier_rank tier) (tier_rank min_tier) ≡ false) ↔ IsTierEnough min_tier tier
unfolding tier_rank
IsTierEnough-iff min_tier tier =
    ground (arith, text_eq_iff min_tier (bytes "paid"), text_eq_iff tier (bytes "paid"))

-- The cut is at the first dot.
cut_dot-some :
    (token first second : Text)
    → cut_dot token ≡ some (first, second)
    → (token ≡ first ++ b'.' ∷ second) × All (λ c. c ≢ b'.') first
unfolding cut_dot
cut_dot-some [] first second h = cc
cut_dot-some (c ∷ s) first second h = elim (Bool-cases (c == b'.')) [
  | inl dot ↦
      let here : c ≡ b'.' = (==_iff c b'.').0 dot in
      let cut : some ([], s) ≡ some (first, second) = rw dot at h in
      let front : [] ≡ first = ap (λ o. elim o [ none ↦ first | some x ↦ x.0 ]) cut in
      let back : s ≡ second = ap (λ o. elim o [ none ↦ second | some x ↦ x.1 ]) cut in
      rw⁻¹ (front, back) (ap (λ x. x ∷ s) here, tt)
  | inr other ↦ elim (Option-cases (cut_dot s)) [
    | inl none_left ↦ cc (rw (other, none_left) at h)
    | inr ((before, after), e) ↦
        let here : c ≢ b'.' = ground (arith, other) in
        let cut : some (c ∷ before, after) ≡ some (first, second) = rw (other, e) at h in
        let front : c ∷ before ≡ first = ap (λ o. elim o [ none ↦ first | some x ↦ x.0 ]) cut in
        let back : after ≡ second = ap (λ o. elim o [ none ↦ second | some x ↦ x.1 ]) cut in
        let (rest, clean) = cut_dot-some s before after e in
        rw⁻¹ (front, back) (ap (λ t. c ∷ t) rest, (here, clean))
  ]
]

cut_dot-append :
    (first second : Text)
    → All (λ c. c ≢ b'.') first
    → cut_dot (first ++ b'.' ∷ second) ≡ some (first, second)
unfolding cut_dot
cut_dot-append [] second h = refl
cut_dot-append (c ∷ s) second (ne, h) =
    let test : (c == b'.') ≡ false = ground (arith, ne) in rw (test, cut_dot-append s second h) refl

plan_refused_iff :
    (allow_vpn : Bool) (plan : Text)
    → (plan_refused allow_vpn plan ≡ false) ↔ IsPlanAllowed allow_vpn plan
unfolding plan_refused
plan_refused_iff allow_vpn plan =
    ground
      (arith, text_eq_iff plan [], text_eq_iff plan (bytes "full"), text_eq_iff plan (bytes "vpn"))

plan_refused-false :
    (allow_vpn : Bool) (plan : Text)
    → IsPlanAllowed allow_vpn plan
    → plan_refused allow_vpn plan ≡ false
plan_refused-false allow_vpn plan h = (plan_refused_iff allow_vpn plan).1 h

check_claims_iff :
    (now : ℤ) (min_tier : Text) (allow_vpn : Bool) (tok out : ClientToken)
    → (check_claims now min_tier allow_vpn tok ≡ ok out)
      ↔ ((tok ≡ out) × IsEntitled now min_tier allow_vpn tok)
unfolding check_claims
check_claims_iff now min_tier allow_vpn tok out = (
  λ h.
      let (tier, rest) = fail_if-ok (ltb (tier_rank tok.tier) (tier_rank min_tier)) _ _ out h in
      let (plan, rest') = fail_if-ok (plan_refused allow_vpn tok.plan) _ _ out rest in
      let (time, same) = fail_if-ok (ltb_ℤ tok.expires_at now) _ _ out rest' in
      (
        ground (arith, same),
        (
          (IsTierEnough-iff min_tier tok.tier).0 tier,
          (plan_refused_iff allow_vpn tok.plan).0 plan,
          (ground (arith, time)),
        ),
      ),
  λ (same, (tier, plan, time)).
      let low : ltb (tier_rank tok.tier) (tier_rank min_tier) ≡ false =
        (IsTierEnough-iff min_tier tok.tier).1 tier in
      let late : ltb_ℤ tok.expires_at now ≡ false = ground (arith, time) in
      rw (low, plan_refused-false allow_vpn tok.plan plan, late) (ap ok same),
)

module _ (codec : TokenCodec) (broker_pub : Text) (now : ℤ) (token min_tier : Text)
    (allow_vpn : Bool) (tok : ClientToken) where
  abbrev Accepts : Type 0
  Accepts = verify_token codec broker_pub now token min_tier allow_vpn ≡ ok tok

  -- The steps that succeeded, from the result.
  verify_token-IsSigned :
      Accepts → IsSigned codec broker_pub token tok × IsEntitled now min_tier allow_vpn tok
  unfolding verify_token
  verify_token-IsSigned h = elim (Option-cases (cut_dot token)) [
    | inl e ↦ cc (rw e at h)
    | inr ((first, second), e) ↦ elim (Option-cases (codec.decode_base64 first)) [
      | inl f ↦ cc (rw (e, f) at h)
      | inr (payload, f) ↦ elim (Option-cases (codec.decode_base64 second)) [
        | inl g ↦ cc (rw (e, f, g) at h)
        | inr (sig, g) ↦
            let (k, h') =
              fail_if-ok (not (codec.verify broker_pub payload sig)) _ _ tok (rw (e, f, g) at h) in
            elim (Option-cases (codec.unmarshal_token payload)) [
              | inl l ↦ cc (rw l at h')
              | inr (claims, l) ↦
                  let (same, entitled) =
                    (check_claims_iff now min_tier allow_vpn claims tok).0 (rw l at h') in
                  (
                    (
                      first,
                      second,
                      payload,
                      sig,
                      (cut_dot-some token first second e).0,
                      (cut_dot-some token first second e).1,
                      f,
                      g,
                      ground (arith, k),
                      rw l (ap some same),
                    ),
                    rw same at entitled,
                  )
            ]
      ]
    ]
  ]

  IsSigned-verify_token :
      IsSigned codec broker_pub token tok → IsEntitled now min_tier allow_vpn tok → Accepts
  unfolding verify_token
  IsSigned-verify_token (first, second, payload, sig, joined, clean, f, g, k, l) entitled =
      let e : cut_dot token ≡ some (first, second) =
        ap cut_dot joined ∙ cut_dot-append first second clean in
      rw (e, f, g, k, l) ((check_claims_iff now min_tier allow_vpn tok tok).1 (refl, entitled))

-- A token is accepted exactly when it is two parts around the first dot that decode to a payload and
-- the broker's signature of it, and the payload's claims meet the tier and the plan that the caller
-- asks for and have not expired. The claims are what is returned.
pub verify_token_iff :
    (codec : TokenCodec) (broker_pub : Text) (now : ℤ) (token min_tier : Text) (allow_vpn : Bool)
    (tok : ClientToken)
    → (verify_token codec broker_pub now token min_tier allow_vpn ≡ ok tok)
      ↔ (IsSigned codec broker_pub token tok × IsEntitled now min_tier allow_vpn tok)
verify_token_iff codec broker_pub now token min_tier allow_vpn tok = (
  verify_token-IsSigned codec broker_pub now token min_tier allow_vpn tok,
  λ (signed, entitled).
      IsSigned-verify_token codec broker_pub now token min_tier allow_vpn tok signed entitled,
)
