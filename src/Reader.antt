-- ===== src/Reader.antt =====
-- io/errors.go, and reading from an io.Reader whose only failure is to end: its state is the bytes
-- that it still holds.
use sarc.Prelude.{ℕ, ◌+◌, ◌≡◌, refl, Bool, true, false, String, ◌++◌, []}
use sarc.Prelude.{ltb, if◌then◌else◌, length, take, drop, length-append, le→ltb, arith}
use sarc.Prelude.{◌≢◌, Bool-cases, inl, inr, ltb→le, length-drop, length-take}
use sarc.Bytes.{Bytes}
use sarc.Bytes.Slice.{take-append_eq, drop-append_eq}

-- `ErrorKind`
pub data ErrorKind : Type 0 where
  err_kind_fatal err_kind_recoverable : ErrorKind

-- the error codes that this library's functions return
pub data ErrorCode : Type 0 where
  bad_magic bad_version auth_failed truncated integrity_fail write_failed read_failed : ErrorCode
  invalid_option : ErrorCode

-- `ArchiveError`, less its cause
pub record ArchiveError : Type 0 where
  pub kind : ErrorKind
  pub code : ErrorCode
  pub message : String

-- `fatal`, `recoverable`, `IsFatal`
abbrev pub fatal : ErrorCode → String → ArchiveError
fatal code message = record { kind = err_kind_fatal; code = code; message = message }

abbrev pub recoverable : ErrorCode → String → ArchiveError
recoverable code message = record { kind = err_kind_recoverable; code = code; message = message }

abbrev pub kind_is_fatal : ErrorKind → Bool
kind_is_fatal err_kind_fatal = true
kind_is_fatal err_kind_recoverable = false

abbrev pub is_fatal : ArchiveError → Bool
is_fatal e = kind_is_fatal e.kind

-- What a function that may fail returns; `panics` is a run-time panic, or a loop of the model that ran
-- out of fuel.
pub data Fallible (A : Type 0) : Type 0 where
  panics : Fallible A
  fails : ArchiveError → Fallible A
  got : A → Fallible A

-- A function that reads.
abbrev pub Reading : Type 0 → Type 0
Reading A = Bytes → Fallible A × Bytes

module _ {A : Type 0} where
  abbrev pub pure : A → Reading A
  pure a b = (got a, b)

  abbrev pub fail : ArchiveError → Reading A
  fail e b = (fails e, b)

  -- a value that is computed with no reading
  abbrev pub lift : Fallible A → Reading A
  lift r b = (r, b)

module _ {A B : Type 0} where
  abbrev pub after : Fallible A × Bytes → (A → Reading B) → Fallible B × Bytes
  after (panics, b) f = (panics, b)
  after (fails e, b) f = (fails e, b)
  after (got a, b) f = f a b

  infixl 5 ◌>>=◌
  abbrev pub ◌>>=◌ : Reading A → (A → Reading B) → Reading B
  ◌>>=◌ m f b = after (m b) f

-- if bad { return e }
abbrev pub reject_if : {A : Type 0} → Bool → ArchiveError → Reading A → Reading A
reject_if bad e k b = if bad then (fails e, b) else k b

-- `io.ReadFull` of `n` bytes, whose error makes the caller return `e`; what is left of too short a
-- reader is consumed.
unfoldable pub read_full : ℕ → ArchiveError → Reading Bytes
read_full n e b = if ltb (length b) n then (fails e, []) else (got (take n b), drop n b)

-- `io.CopyN` of `n` bytes to io.Discard
unfoldable pub discard : ℕ → ArchiveError → Reading (Unit {0})
discard n e b = if ltb (length b) n then (fails e, []) else (got tt, drop n b)

pub read_full-append :
    (n : ℕ) (e : ArchiveError) (xs rest : Bytes)
    → length xs ≡ n
    → read_full n e (xs ++ rest) ≡ (got xs, rest)
unfolding read_full
read_full-append n e xs rest h =
    rw (le→ltb (length (xs ++ rest)) n (omega (arith, h, length-append xs rest)))
      (rw (take-append_eq n xs rest h, drop-append_eq n xs rest h) refl)

pub discard-append :
    (n : ℕ) (e : ArchiveError) (xs rest : Bytes)
    → length xs ≡ n
    → discard n e (xs ++ rest) ≡ (got tt, rest)
unfolding discard
discard-append n e xs rest h =
    rw (le→ltb (length (xs ++ rest)) n (omega (arith, h, length-append xs rest)))
      (rw (drop-append_eq n xs rest h) refl)

-- What follows a read, if it does not panic, panics only where it does itself.
module _ {A B : Type 0} where
  pub after_then :
      (r : Fallible A × Bytes) (f : A → Reading B)
      → r.0 ≢ panics
      → ((a : A) (rest : Bytes) → (f a rest).0 ≢ panics)
      → (after r f).0 ≢ panics
  after_then (panics, b) f h k = absurd (h refl)
  after_then (fails e, b) f h k = λ p. cc
  after_then (got a, b) f h k = k a b

module _ {B : Type 0} where
  pub read_full_then :
      (n : ℕ) (e : ArchiveError) (b : Bytes) (f : Bytes → Reading B)
      → ((xs rest : Bytes) → length rest + n ≡ length b → (f xs rest).0 ≢ panics)
      → (after (read_full n e b) f).0 ≢ panics
  unfolding read_full
  read_full_then n e b f k = elim (Bool-cases (ltb (length b) n)) [
    | inl short ↦ rw short (λ p. cc)
    | inr long ↦
        rw long (k (take n b) (drop n b) (omega (arith, length-drop n b, ltb→le (length b) n long)))
  ]

  pub discard_then :
      (n : ℕ) (e : ArchiveError) (b : Bytes) (f : Unit {0} → Reading B)
      → ((rest : Bytes) → length rest + n ≡ length b → (f tt rest).0 ≢ panics)
      → (after (discard n e b) f).0 ≢ panics
  unfolding discard
  discard_then n e b f k = elim (Bool-cases (ltb (length b) n)) [
    | inl short ↦ rw short (λ p. cc)
    | inr long ↦ rw long (k (drop n b) (omega (arith, length-drop n b, ltb→le (length b) n long)))
  ]

  pub if_then :
      (t : Bool) (x y : Fallible B × Bytes)
      → (t ≡ true → x.0 ≢ panics)
      → (t ≡ false → y.0 ≢ panics)
      → (if t then x else y).0 ≢ panics
  if_then true x y hx hy = hx refl
  if_then false x y hx hy = hy refl

  -- The same where the branches are functions that read.
  pub if_then_at :
      (t : Bool) (m k : Reading B) (b : Bytes)
      → (t ≡ true → (m b).0 ≢ panics)
      → (t ≡ false → (k b).0 ≢ panics)
      → ((if t then m else k) b).0 ≢ panics
  if_then_at true m k b hm hk = hm refl
  if_then_at false m k b hm hk = hk refl

pub discard-ne-panics : (n : ℕ) (e : ArchiveError) (b : Bytes) → (discard n e b).0 ≢ panics
unfolding discard
discard-ne-panics n e b = elim (Bool-cases (ltb (length b) n)) [
  | inl short ↦ rw short (λ p. cc)
  | inr long ↦ rw long (λ p. cc)
]

pub got-ne-panics : {A : Type 0} (a : A) → got a ≢ panics
got-ne-panics a p = cc

pub fails-ne-panics : {A : Type 0} (e : ArchiveError) → ◌≢◌ {A = Fallible A} (fails e) panics
fails-ne-panics e p = cc

-- A block that succeeded ran its first part and then the rest.
module _ {A B : Type 0} where
  pub on_bind {κ} :
      (r : Fallible A × Bytes) (f : A → Reading B) {x : B} {end : Bytes} {C : Type κ}
      → after r f ≡ (got x, end)
      → ((a : A) (b : Bytes) → r ≡ (got a, b) → f a b ≡ (got x, end) → C)
      → C
  on_bind (panics, b) f h k = cc h
  on_bind (fails e, b) f h k = cc h
  on_bind (got a, b) f h k = k a b refl h

module _ {B : Type 0} where
  -- The same where the first part reads some bytes.
  pub on_read_full {κ} :
      (n : ℕ) (e : ArchiveError) (b : Bytes) (f : Bytes → Reading B) {x : B} {end : Bytes}
      {C : Type κ}
      → after (read_full n e b) f ≡ (got x, end)
      → ((xs rest : Bytes) → length xs ≡ n → f xs rest ≡ (got x, end) → C)
      → C
  unfolding read_full
  on_read_full n e b f h k = elim (Bool-cases (ltb (length b) n)) [
    | inl short ↦
        absurd
          (let h' : ◌≡◌ {A = Fallible B × Bytes} (fails e, []) (got _, _) = rw short at h in cc h')
    | inr long ↦ k (take n b) (drop n b) (length-take n b (ltb→le (length b) n long)) (rw long at h)
  ]

pub read_full_sound :
    (n : ℕ) (e : ArchiveError) (b : Bytes) {xs rest : Bytes}
    → read_full n e b ≡ (got xs, rest)
    → length xs ≡ n
unfolding read_full
read_full_sound n e b {xs} {rest} h = elim (Bool-cases (ltb (length b) n)) [
  | inl short ↦ absurd (
      let h' : ◌≡◌ {A = Fallible Bytes × Bytes} (fails e, []) (got xs, rest) = rw short at h in
      cc h')
  | inr long ↦
      let h' : ◌≡◌ {A = Fallible Bytes × Bytes} (got (take n b), drop n b) (got xs, rest) =
        rw long at h in
      cc (h', length-take n b (ltb→le (length b) n long))
]
