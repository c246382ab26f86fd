-- ===== src/Crypto/Hkdf.antt =====
-- hkdf computes the HKDF of RFC 5869.
use bitphase_file_share.Prelude.{
  ℕ, zero, suc, ◌+◌, ◌*◌, ◌/◌, ◌%◌, ◌^◌, ◌≡◌, ◌≤◌, ◌<◌, refl, ap, ◌∙◌, true, false, [], ◌∷◌, ◌++◌,
  some, arith, ltb, length, length-append, length-take, take, Text, Bool-cases, inl, inr,
}
use bitphase_file_share.Crypto.{CryptoLib, expand, zeros, hkdf}

-- T(i) of the RFC.
pub block : CryptoLib → Text → Text → ℕ → Text
block lib prk info zero = []
block lib prk info (suc i) = lib.hmac_sha256 prk (block lib prk info i ++ info ++ suc i ∷ [])

-- T(1) | T(2) | ... | T(n)
pub blocks : CryptoLib → Text → Text → ℕ → Text
blocks lib prk info zero = []
blocks lib prk info (suc n) = blocks lib prk info n ++ block lib prk info (suc n)

-- The first `size` bytes of enough blocks, with a salt of zeros.
abbrev pub reference : CryptoLib → Text → Text → ℕ → Text
reference lib secret info size =
    take size (blocks lib (lib.hmac_sha256 (zeros 32) secret) info ((size + 31) / 32))

module _ (lib : CryptoLib) (mac : (key message : Text) → length (lib.hmac_sha256 key message) ≡ 32)
    (prk info : Text) where
  length-blocks : (n : ℕ) → length (blocks lib prk info n) ≡ n * 32
  unfolding blocks block
  length-blocks zero = refl
  length-blocks (suc n) = omega (
    arith,
    length-append (blocks lib prk info n)
        (lib.hmac_sha256 prk (block lib prk info n ++ info ++ suc n ∷ [])),
    length-blocks n,
    mac prk (block lib prk info n ++ info ++ suc n ∷ []),
  )

  expand-more :
      (fuel n size : ℕ)
      → ltb (length (blocks lib prk info n)) size ≡ true
      → n + 1 < 2 ^ 8
      → expand lib
          (suc fuel)
          prk
          info
          size
          ((n + 1) % 2 ^ 8)
          (block lib prk info n)
          (blocks lib prk info n)
        ≡ expand lib fuel prk info size
            ((suc n + 1) % 2 ^ 8)
            (block lib prk info (suc n))
            (blocks lib prk info (suc n))
  unfolding expand block blocks
  expand-more fuel n size short byte =
      let counter : (n + 1) % 2 ^ 8 ≡ suc n = omega (arith, byte) in
      rw (short, expand) (rw counter refl)

  expand-last :
      (fuel n size counter : ℕ)
      → ltb (length (blocks lib prk info n)) size ≡ false
      → expand lib (suc fuel) prk info size counter (block lib prk info n) (blocks lib prk info n)
        ≡ some (take size (blocks lib prk info n))
  unfolding expand
  expand-last fuel n size counter full = rw (full, expand) refl

  -- After `n` rounds.
  expand-blocks :
      (fuel n size : ℕ)
      → size ≤ 255 * 32
      → n * 32 < size + 32
      → size + 32 ≤ n * 32 + 32 * fuel
      → expand lib fuel prk info size
          ((n + 1) % 2 ^ 8)
          (block lib prk info n)
          (blocks lib prk info n)
        ≡ some (take size (blocks lib prk info ((size + 31) / 32)))
  expand-blocks zero n size most under fuel_left = absurd (omega (arith, under, fuel_left))
  expand-blocks (suc fuel) n size most under fuel_left =
      elim (Bool-cases (ltb (length (blocks lib prk info n)) size)) [
        | inl short ↦
            let more : n * 32 < size = ground (arith, short, length-blocks n) in
            expand-more fuel n size short (omega (arith, more, most))
            ∙ expand-blocks fuel (suc n) size most (omega (arith, more)) (omega (arith, fuel_left))
        | inr full ↦
            let last : n ≡ (size + 31) / 32 = ground (arith, full, length-blocks n, under) in
            expand-last fuel n size ((n + 1) % 2 ^ 8) full
            ∙ ap (λ k. some (take size (blocks lib prk info k))) last
      ]

-- For up to 255 blocks of output hkdf ends with exactly the bytes of the HKDF of RFC 5869 with a salt
-- of zeros, of the length asked for. The MAC gives 32 bytes.
pub hkdf-reference :
    (lib : CryptoLib) (secret info : Text) (size : ℕ)
    → ((key message : Text) → length (lib.hmac_sha256 key message) ≡ 32)
    → size ≤ 255 * 32
    → (hkdf lib secret info size ≡ some (reference lib secret info size))
      × (length (reference lib secret info size) ≡ size)
unfolding hkdf block blocks
hkdf-reference lib secret info size mac most =
    let prk = lib.hmac_sha256 (zeros 32) secret in
    (
      expand-blocks lib mac prk info (suc size) 0 size most (omega arith) (omega arith),
      omega (
        arith,
        length-take size (blocks lib prk info ((size + 31) / 32)),
        length-blocks lib mac prk info ((size + 31) / 32),
      ),
    )
