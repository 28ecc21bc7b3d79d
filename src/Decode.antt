-- ===== src/Decode.antt =====
-- Reading from a decoder that the code passes by pointer: an action takes the decoder's state and
-- returns a value with the new state, or the error or panic that leaves the calling function.
use sarc.Prelude.{◌≡◌, refl, ◌≢◌, Bool, true, false}
use sarc.Result
use sarc.Result.{Result, Error, ok, err, panic, fail_if, >>=-eq-ok, >>=-ne-panic}

abbrev pub Decode {ℓ} : Type ℓ → Type ℓ → Type ℓ
Decode S A = S → Result (A × S)

module _ {ℓ} {S A : Type ℓ} where
  abbrev pub pure : A → Decode S A
  pure a s = ok (a, s)

module _ {ℓ} {S A B : Type ℓ} where
  infixl 5 ◌>>=◌
  abbrev pub ◌>>=◌ : Decode S A → (A → Decode S B) → Decode S B
  ◌>>=◌ m f s = Result.◌>>=◌ (m s) (λ (a, t). f a t)

  -- A successful block ran its first action and then the rest.
  pub on_bind {κ} :
      (m : Decode S A) (f : A → Decode S B) (s : S) {r : B × S} {C : Type κ}
      → (m >>= f) s ≡ ok r
      → ((a : A) (t : S) → m s ≡ ok (a, t) → f a t ≡ ok r → C)
      → C
  on_bind m f s h k = let ((a, t), e, e') = >>=-eq-ok (m s) _ h in k a t e e'

-- if bad { return e }
abbrev pub reject_if {ℓ} : {S A : Type ℓ} → Bool → Error → Decode S A → Decode S A
reject_if bad e k s = Result.◌>>◌ (fail_if bad e) (k s)

module _ {ℓ} {S A : Type ℓ} where
  -- A block that went past a check found it false.
  pub on_reject_if {κ} :
      (bad : Bool) (e : Error) (m : Result (A × S)) {r : A × S} {C : Type κ}
      → Result.◌>>◌ (fail_if bad e) m ≡ ok r
      → (bad ≡ false → m ≡ ok r → C)
      → C
  on_reject_if true e m h c = cc
  on_reject_if false e m h c = c refl h

-- An action that never panics, whatever the decoder's state.
pub record IsSafe {ℓ} {S A : Type ℓ} (m : Decode S A) : Type ℓ where
  pub at : (s : S) → m s ≢ panic

module _ {ℓ} {S A : Type ℓ} where
  pub IsSafe-pure : (a : A) → IsSafe {S = S} (pure a)
  IsSafe-pure a = record { at = λ s p. cc }

  pub IsSafe-reject_if :
      (bad : Bool) (e : Error) (m : Decode S A) → IsSafe m → IsSafe (reject_if bad e m)
  IsSafe-reject_if true e m h = record { at = λ s p. cc }
  IsSafe-reject_if false e m h = record { at = λ s. h.at s }

module _ {ℓ} {S A B : Type ℓ} where
  pub IsSafe-bind :
      (m : Decode S A) (f : A → Decode S B) → IsSafe m → ((a : A) → IsSafe (f a)) → IsSafe (m >>= f)
  IsSafe-bind m f hm hf = record {
    at = λ s. >>=-ne-panic (m s) _ (hm.at s) (λ (a, t) _. (hf a).at t);
  }
