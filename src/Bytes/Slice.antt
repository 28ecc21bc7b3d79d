-- ===== src/Bytes/Slice.antt =====
-- Slicing: `b[:n]` and `b[n:]` panic where `n` is past the end.
use sarc.Prelude.{ℕ, ◌+◌, ◌≤◌, ◌≡◌, refl, ap, ◌++◌, arith, length, take, drop}
use sarc.Prelude.{ltb, if◌then◌else◌, le→ltb, Bool-cases, inl, inr, ltb→le}
use sarc.Prelude.{
  take-append, drop-append, length-append, subst, ◌≢◌, take-append-drop, length-take,
}
use sarc.Prelude.{All-append}
use sarc.Bytes.{Bytes, IsByte, AreBytes}
use sarc.Prelude.{length-drop, Bool, true, false, [], ◌∷◌, ◌==◌, ◌&&◌}
use sarc.Result.{Result, ok, panic, ◌>>=◌, >>=-eq-ok}

-- (b[:n], b[n:])
unfoldable pub cut : ℕ → Bytes → Result (Bytes × Bytes)
cut n b = if ltb (length b) n then panic else ok (take n b, drop n b)

pub cut-append : (xs rest : Bytes) → cut (length xs) (xs ++ rest) ≡ ok (xs, rest)
unfolding cut
cut-append xs rest =
    rw (le→ltb (length (xs ++ rest)) (length xs) (omega (arith, length-append xs rest)))
      (rw (take-append, drop-append))

pub cut-append_eq : (n : ℕ) (xs rest : Bytes) → length xs ≡ n → cut n (xs ++ rest) ≡ ok (xs, rest)
cut-append_eq n xs rest h = subst (λ m. cut m (xs ++ rest) ≡ ok (xs, rest)) h (cut-append xs rest)

pub cut_total : (n : ℕ) (b : Bytes) → n ≤ length b → cut n b ≡ ok (take n b, drop n b)
unfolding cut
cut_total n b h = rw (le→ltb _ _ h)

pub cut_sound :
    (n : ℕ) (b : Bytes) {u v : Bytes} → cut n b ≡ ok (u, v) → (b ≡ u ++ v) × (length u ≡ n)
unfolding cut
cut_sound n b {u} {v} h = elim (Bool-cases (ltb (length b) n)) [
  | inl short ↦ absurd (cc (short, h))
  | inr long ↦
      let e : ok (take n b, drop n b) ≡ ok (u, v) = rw long at h in
      (cc (e, take-append-drop n b), cc (e, length-take n b (ltb→le _ _ long)))
]

-- A cut within bounds does not panic.
pub cut-ne-panic : (n : ℕ) (b : Bytes) → n ≤ length b → cut n b ≢ panic
cut-ne-panic n b h = rw (cut_total n b h) (λ p. cc)

module _ {ℓ} {B : Type ℓ} (f : Bytes × Bytes → Result B) where
  -- A block that begins with a cut within bounds panics only if the rest of it does.
  pub cut_then :
      (n : ℕ) (b : Bytes)
      → n ≤ length b
      → ((u v : Bytes) → length u ≡ n → length v + n ≡ length b → f (u, v) ≢ panic)
      → (cut n b >>= f) ≢ panic
  cut_then n b h k =
      rw (cut_total n b h)
        (k (take n b) (drop n b) (length-take n b h) (omega (arith, length-drop n b)))

  -- A successful block cut the slice in two.
  pub on_cut {κ} :
      (n : ℕ) (b : Bytes) {r : B} {C : Type κ}
      → AreBytes b
      → (cut n b >>= f) ≡ ok r
      → ((u v : Bytes)
          → b ≡ u ++ v
          → length u ≡ n
          → length v + n ≡ length b
          → AreBytes u × AreBytes v
          → f (u, v) ≡ ok r
          → C)
      → C
  on_cut n b hb h k =
      let ((u, v), e, e') = >>=-eq-ok (cut n b) f h in
      let (split, size) = cut_sound n b e in
      k u v split size (omega (arith, ap (length {A = ℕ}) split, length-append u v, size))
        (All-append IsByte u v (subst AreBytes split hb)) e'

pub nil_of_length : (b : Bytes) → length b ≡ 0 → b ≡ []
nil_of_length [] h = refl
nil_of_length (x ∷ b) h = absurd (omega arith)

-- bytes.HasPrefix(b, p)
unfoldable pub has_prefix : Bytes → Bytes → Bool
has_prefix [] b = true
has_prefix (x ∷ p) [] = false
has_prefix (x ∷ p) (y ∷ b) = x == y && has_prefix p b

pub has_prefix-append : (p rest : Bytes) → has_prefix p (p ++ rest) ≡ true
unfolding has_prefix
has_prefix-append [] rest = refl
has_prefix-append (x ∷ p) rest = ground (arith, has_prefix-append p rest)

-- What is cut off behind a prefix of the same length is that prefix.
pub has_prefix_sound : (p u v : Bytes) → has_prefix p (u ++ v) ≡ true → length u ≡ length p → u ≡ p
unfolding has_prefix
has_prefix_sound [] [] v h e = refl
has_prefix_sound [] (y ∷ u) v h e = absurd (omega arith)
has_prefix_sound (x ∷ p) [] v h e = absurd (omega arith)
has_prefix_sound (x ∷ p) (y ∷ u) v h e = ground (arith, has_prefix_sound p u v)

-- string(a) == string(b)
unfoldable pub bytes_eq : Bytes → Bytes → Bool
bytes_eq [] [] = true
bytes_eq [] (y ∷ b) = false
bytes_eq (x ∷ a) [] = false
bytes_eq (x ∷ a) (y ∷ b) = x == y && bytes_eq a b

pub bytes_eq_refl : (a : Bytes) → bytes_eq a a ≡ true
unfolding bytes_eq
bytes_eq_refl [] = refl
bytes_eq_refl (x ∷ a) = ground (arith, bytes_eq_refl a)

pub bytes_eq→eq : (a b : Bytes) → bytes_eq a b ≡ true → a ≡ b
unfolding bytes_eq
bytes_eq→eq [] [] h = refl
bytes_eq→eq [] (y ∷ b) h = cc
bytes_eq→eq (x ∷ a) [] h = cc
bytes_eq→eq (x ∷ a) (y ∷ b) h = ground (arith, bytes_eq→eq a b)

pub take-append_eq : (n : ℕ) (xs rest : Bytes) → length xs ≡ n → take n (xs ++ rest) ≡ xs
take-append_eq n xs rest h = subst (λ m. take m (xs ++ rest) ≡ xs) h (take-append xs rest)

pub drop-append_eq : (n : ℕ) (xs rest : Bytes) → length xs ≡ n → drop n (xs ++ rest) ≡ rest
drop-append_eq n xs rest h = subst (λ m. drop m (xs ++ rest) ≡ rest) h (drop-append xs rest)
