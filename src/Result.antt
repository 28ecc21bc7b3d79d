-- ===== src/Result.antt =====
-- Go's (value, error) results, and run-time panics.
use sarc.Prelude.{◌≡◌, refl, ◌≢◌, Bool, true, false, String}

-- An error by its sentinel (`ErrMalformedAttributes`, ...) and its text, less the numbers that
-- the source formats into it. `failed` is an error that wraps no sentinel.
pub data Error : Type 0 where
  malformed_attributes : String → Error
  malformed_volume_header : String → Error
  malformed_directory : String → Error
  malformed_index : String → Error
  malformed_checkpoint : String → Error
  malformed_solid_stream : String → Error
  malformed_recipient_block : String → Error
  failed : String → Error

-- `panic` is a run-time panic, such as a slice index out of range.
pub data Result {ℓ} (A : Type ℓ) : Type ℓ where
  panic : Result A
  err : Error → Result A
  ok : A → Result A

-- if bad { return e }
abbrev pub fail_if : Bool → Error → Result (Unit {0})
fail_if true e = err e
fail_if false e = ok tt

module _ {ℓ κ} {A : Type ℓ} {B : Type κ} where
  infixl 5 ◌>>=◌
  -- the code that follows a call, which an error or a panic of the call leaves out
  abbrev pub ◌>>=◌ : Result A → (A → Result B) → Result B
  panic >>= next = panic
  err e >>= next = err e
  ok a >>= next = next a

module _ {ℓ} {B : Type ℓ} where
  infixl 5 ◌>>◌
  abbrev pub ◌>>◌ : Result (Unit {0}) → Result B → Result B
  check >> next = check >>= λ _. next

module _ {ℓ κ} {A : Type ℓ} {B : Type κ} where
  -- the value that a call returned, if the code after it was reached and returned
  pub >>=-eq-ok :
      (call : Result A) (next : A → Result B) {r : B}
      → (call >>= next) ≡ ok r
      → (v : A) × (call ≡ ok v) × (next v ≡ ok r)
  >>=-eq-ok panic next done = cc
  >>=-eq-ok (err e) next done = cc
  >>=-eq-ok (ok v) next done = (v, refl, done)

  pub >>=-ne-panic :
      (m : Result A) (f : A → Result B)
      → m ≢ panic
      → ((a : A) → m ≡ ok a → f a ≢ panic)
      → (m >>= f) ≢ panic
  >>=-ne-panic (ok a) f h k = k a refl
  >>=-ne-panic (err e) f h k = λ p. cc
  >>=-ne-panic panic f h k = absurd (h refl)

pub fail_if-eq-ok : (b : Bool) (e : Error) → fail_if b e ≡ ok tt → b ≡ false
fail_if-eq-ok true e h = cc
fail_if-eq-ok false e h = refl

pub fail_if-ne-panic : (b : Bool) (e : Error) → fail_if b e ≢ panic
fail_if-ne-panic true e h = cc
fail_if-ne-panic false e h = cc

module _ {ℓ} {B : Type ℓ} where
  -- A block that went past a check found it false.
  pub on_fail_if {κ} :
      (bad : Bool) (e : Error) (m : Result B) {r : B} {C : Type κ}
      → (fail_if bad e >> m) ≡ ok r
      → (bad ≡ false → m ≡ ok r → C)
      → C
  on_fail_if true e m h c = cc
  on_fail_if false e m h c = c refl h

  -- A block that begins with a check panics only if the rest of it does.
  pub fail_if_then :
      (bad : Bool) (e : Error) (m : Result B)
      → (bad ≡ false → m ≢ panic)
      → (fail_if bad e >> m) ≢ panic
  fail_if_then true e m k = λ p. cc
  fail_if_then false e m k = k refl

pub ok-ne-panic {ℓ} : {A : Type ℓ} (a : A) → ok a ≢ panic
ok-ne-panic a p = cc
