-- ===== src/Prelude/Results.antt =====
-- Go's `(value, error)` pairs.
use mathlib.Core.Path.{◌≡◌, refl}
use mathlib.Core.Bool.{Bool, true, false}
use mathlib.Core.Option.{Option, none, some}
use mathlib.Core.Logic.{◌⊎◌, inl, inr}
use bitphase_file_share.Prelude.Texts.{Text}

-- An error is its message, `err.Error()`.
pub data Result {ℓ} (A : Type ℓ) : Type ℓ where
  ok : A → Result A
  err : Text → Result A

infixl 5 ◌>>=◌
abbrev pub ◌>>=◌ {ℓ κ} : {A : Type ℓ} {B : Type κ} → Result A → (A → Result B) → Result B
err message >>= next = err message
ok value >>= next = next value

pub Result-cases {ℓ} :
    {A : Type ℓ} (r : Result A) → ((a : A) × (r ≡ ok a)) ⊎ ((e : Text) × (r ≡ err e))
Result-cases (ok a) = inl (a, refl)
Result-cases (err e) = inr (e, refl)

-- Both steps of a successful chain succeeded.
pub >>=-eq-ok {ℓ κ} :
    {A : Type ℓ} {B : Type κ} {out : B} (first : Result A) (next : A → Result B)
    → (first >>= next) ≡ ok out
    → (value : A) × (first ≡ ok value) × (next value ≡ ok out)
>>=-eq-ok (err message) next failed = cc
>>=-eq-ok (ok value) next done = (value, refl, done)

abbrev pub or_error {ℓ} : {A : Type ℓ} → Option A → Text → Result A
or_error none e = err e
or_error (some a) e = ok a

-- `if test { return error }`
abbrev pub fail_if {ℓ} : {A : Type ℓ} → Bool → Text → Result A → Result A
fail_if true e r = err e
fail_if false e r = r

pub or_error-ok {ℓ} :
    {A : Type ℓ} (o : Option A) (e : Text) (a : A) → or_error o e ≡ ok a → o ≡ some a
or_error-ok none e a h = cc
or_error-ok (some b) e a h = cc

pub fail_if-ok {ℓ} :
    {A : Type ℓ} (b : Bool) (e : Text) (r : Result A) (a : A)
    → fail_if b e r ≡ ok a
    → (b ≡ false) × (r ≡ ok a)
fail_if-ok true e r a h = cc
fail_if-ok false e r a h = (refl, h)
