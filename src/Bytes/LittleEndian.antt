-- ===== src/Bytes/LittleEndian.antt =====
-- binary.LittleEndian: PutUint16/32/64 and AppendUint16/32/64 are `le 2`, `le 4` and `le 8`,
-- Uint16/32/64 are `from_le` of as many bytes.
use sarc.Prelude.{
  ℕ, zero, suc, ◌+◌, ◌*◌, ◌/◌, ◌%◌, ◌^◌, ◌<◌, ◌≤◌, ◌≡◌, refl, ap, [], ◌∷◌, arith, ◌++◌, length,
}
use sarc.Prelude.{append-nil, length-append, take, drop, length-drop, All-append, subst, ◌≢◌}
use sarc.Result.{Result, ok, panic, ◌>>=◌, >>=-eq-ok}
use sarc.Bytes.{Bytes, IsByte, AreBytes}
use sarc.Bytes.Slice.{cut, cut-append_eq, cut_total, cut_sound}
use mathlib.Core.Path.{ap₂, ◌∙◌}
use native.Mathlib.Nat.{pow-suc}

-- The `k` low bytes of a number, lowest first.
unfoldable pub le : ℕ → ℕ → Bytes
le zero v = []
le (suc k) v = (v % 256) ∷ le k (v / 256)

unfoldable pub from_le : Bytes → ℕ
from_le [] = 0
from_le (b ∷ bs) = b + 256 * from_le bs

pub length-le : (k v : ℕ) → length (le k v) ≡ k
unfolding le
length-le zero v = refl
length-le (suc k) v = ap suc (length-le k (v / 256))

pub le-AreBytes : (k v : ℕ) → AreBytes (le k v)
unfolding le
le-AreBytes zero v = tt
le-AreBytes (suc k) v = (omega arith, le-AreBytes k (v / 256))

pub from_le-le : (k v : ℕ) → v < 256 ^ k → from_le (le k v) ≡ v
unfolding le from_le
from_le-le zero v h = omega arith
from_le-le (suc k) v h =
    omega (arith, from_le-le k (v / 256) (omega (arith, pow-suc 256 k)), pow-suc 256 k)

pub from_le-lt : (b : Bytes) → AreBytes b → from_le b < 256 ^ length b
unfolding from_le
from_le-lt [] h = omega arith
from_le-lt (b ∷ bs) (hb, hbs) = omega (arith, from_le-lt bs hbs, pow-suc 256 (length bs))

pub le-from_le : (b : Bytes) → AreBytes b → le (length b) (from_le b) ≡ b
unfolding le from_le
le-from_le [] h = refl
le-from_le (b ∷ bs) (hb, hbs) =
    ap₂ (λ x r. x ∷ r) (omega arith) (ap (le (length bs)) (omega arith) ∙ le-from_le bs hbs)

-- Reading a field: the number in the first `k` bytes, and the rest.
unfoldable pub read_le : ℕ → Bytes → Result (ℕ × Bytes)
read_le k b = do (x, rest) ← cut k b; ok (from_le x, rest)

pub read_le-le : (k v : ℕ) (rest : Bytes) → v < 256 ^ k → read_le k (le k v ++ rest) ≡ ok (v, rest)
unfolding read_le
read_le-le k v rest h = rw (cut-append_eq k (le k v) rest (length-le k v)) (rw (from_le-le k v h))

-- The same where nothing follows.
pub read_le-le_end : (k v : ℕ) → v < 256 ^ k → read_le k (le k v) ≡ ok (v, [])
read_le-le_end k v h = rw append-nil at (read_le-le k v [] h)

module _ {ℓ} {B : Type ℓ} (f : ℕ × Bytes → Result B) where
  -- A block that begins with a field within bounds panics only if the rest of it does.
  pub read_le_then :
      (k : ℕ) (b : Bytes)
      → k ≤ length b
      → ((v : ℕ) (rest : Bytes) → length rest + k ≡ length b → f (v, rest) ≢ panic)
      → (read_le k b >>= f) ≢ panic
  unfolding read_le
  read_le_then k b h next =
      rw (cut_total k b h) (next (from_le (take k b)) (drop k b) (omega (arith, length-drop k b)))

  -- A successful block read a number that fits `k` bytes off the front.
  pub on_read_le {κ} :
      (k : ℕ) (b : Bytes) {r : B} {C : Type κ}
      → AreBytes b
      → (read_le k b >>= f) ≡ ok r
      → ((v : ℕ) (rest : Bytes)
          → b ≡ le k v ++ rest
          → v < 256 ^ k
          → length rest + k ≡ length b
          → AreBytes rest
          → f (v, rest) ≡ ok r
          → C)
      → C
  unfolding read_le
  on_read_le k b hb h next =
      let ((v, rest), e, e') = >>=-eq-ok (read_le k b) f h in
      let ((x, u), ex, eu) = >>=-eq-ok (cut k b) (λ (y, w). ok (from_le y, w)) e in
      let (split, size) = cut_sound k b ex in
      let (hx, hu) = All-append IsByte x u (subst AreBytes split hb) in
      let same : u ≡ rest = cc eu in
      let value : from_le x ≡ v = cc eu in
      let field : le k v ≡ x = cc (value, size, le-from_le x hx) in
      next v rest (cc (split, field, same))
        (omega (arith, from_le-lt x hx, value, ap (λ (n : ℕ). 256 ^ n) size))
        (omega
          (arith, ap (length {A = ℕ}) split, length-append x u, size, ap (length {A = ℕ}) same))
        (subst AreBytes same hu) e'
