-- ===== src/Bytes/Varint.antt =====
-- binary.AppendUvarint, Uvarint, AppendVarint and Varint: seven bits a byte, lowest first, with
-- the top bit set on every byte but the last.
use sarc.Prelude.{ℕ, zero, suc, ◌+◌, ◌*◌, ◌/◌, ◌%◌, ◌^◌, ◌≤◌, ◌<◌}
use sarc.Prelude.{◌≡◌, refl, ap, inl, inr}
use sarc.Prelude.{false, Option, none, some}
use sarc.Prelude.{[], ◌∷◌, ◌++◌, arith}
use sarc.Prelude.{ltb, ◌==◌, if◌then◌else◌, Bool-cases, ltb→lt, le→ltb}
use sarc.Prelude.{length}
use sarc.Prelude.Int.{ℤ, pos, negsuc, IsU64, IsI64}
use sarc.Bytes.{Bytes}
use mathlib.Core.Option
use native.Mathlib.Nat.{pow-suc}

-- The loop of AppendUvarint; `k` bytes may follow this one, and `byte(v) | 0x80` is the low seven
-- bits with the top bit set.
unfoldable pub put_uvarint : ℕ → ℕ → Bytes
put_uvarint zero v = v ∷ []
put_uvarint (suc k) v =
    let rest = put_uvarint k (v / 128) in if ltb v 128 then v ∷ [] else (v % 128 + 128) ∷ rest

-- A uint64 takes ten bytes at most.
unfoldable pub uvarint : ℕ → Bytes
uvarint v = put_uvarint 9 v

-- The loop of Uvarint, with `none` for its results n <= 0: the bytes ended or the number does not
-- fit 64 bits. The tenth byte may be 0 or 1.
unfoldable pub get_uvarint : ℕ → Bytes → Option (ℕ × Bytes)
get_uvarint k [] = none
get_uvarint zero (b ∷ rest) = if ltb 1 b then none else some (b, rest)
get_uvarint (suc k) (b ∷ rest) =
    let more = get_uvarint k rest in
    if ltb b 128 then some (b, rest) else Option.map (λ (v, r). (b % 128 + 128 * v, r)) more

unfoldable pub read_uvarint : Bytes → Option (ℕ × Bytes)
read_uvarint b = get_uvarint 9 b

-- the number that AppendVarint appends for a signed one, and back
unfoldable pub zigzag : ℤ → ℕ
zigzag (pos n) = 2 * n
zigzag (negsuc n) = 2 * n + 1

unfoldable pub unzigzag : ℕ → ℤ
unzigzag u = if u % 2 == 0 then pos (u / 2) else negsuc (u / 2)

pub unzigzag-zigzag : (z : ℤ) → unzigzag (zigzag z) ≡ z
unfolding unzigzag zigzag
unzigzag-zigzag (pos n) = ground arith
unzigzag-zigzag (negsuc n) = ground arith

pub zigzag-IsU64 : (z : ℤ) → IsI64 z → IsU64 (zigzag z)
unfolding zigzag
zigzag-IsU64 (pos n) h = omega arith
zigzag-IsU64 (negsuc n) h = omega arith

get-put_uvarint :
    (k v : ℕ) (rest : Bytes)
    → v < 128 ^ k * 2
    → get_uvarint k (put_uvarint k v ++ rest) ≡ some (v, rest)
unfolding get_uvarint put_uvarint
get-put_uvarint zero v rest h = ground arith
get-put_uvarint (suc k) v rest h = elim (Bool-cases (ltb v 128)) [
  | inl small ↦ rw small (rw small)
  | inr big ↦
      let less : v / 128 < 128 ^ k * 2 = omega (arith, pow-suc 128 k) in
      let top : ltb (v % 128 + 128) 128 ≡ false = le→ltb (v % 128 + 128) 128 (omega arith) in
      rw big (rw top (rw (get-put_uvarint k (v / 128) rest less) (ground arith)))
]

-- Uvarint reads back the uint64 that AppendUvarint wrote, and leaves what follows it.
pub read-uvarint :
    (v : ℕ) (rest : Bytes) → IsU64 v → read_uvarint (uvarint v ++ rest) ≡ some (v, rest)
unfolding read_uvarint uvarint
read-uvarint v rest h = get-put_uvarint 9 v rest (omega arith)

map-eq-some :
    (f : ℕ × Bytes → ℕ × Bytes) (o : Option (ℕ × Bytes)) {y : ℕ × Bytes}
    → Option.map f o ≡ some y
    → (x : ℕ × Bytes) × (o ≡ some x) × (f x ≡ y)
map-eq-some f none h = cc
map-eq-some f (some x) h = (x, refl, cc h)

first_byte :
    (x v : ℕ) (b rest : Bytes) (p q : ℕ)
    → ◌≡◌ {A = Option (ℕ × Bytes)} (some (x, b)) (some (v, rest))
    → x < 128
    → 1 ≤ p
    → q ≡ p * 128
    → (length rest < suc (length b)) × (v < q * 2)
first_byte x v b rest p q e small power step =
    let same : b ≡ rest = cc e in
    let value : x ≡ v = cc e in (omega (arith, ap (length {A = ℕ}) same), omega arith)

length-get_uvarint :
    (k : ℕ) (b : Bytes) (v : ℕ) (rest : Bytes)
    → get_uvarint k b ≡ some (v, rest)
    → (length rest < length b) × (v < 128 ^ k * 2)
unfolding get_uvarint
length-get_uvarint k [] v rest h = cc
length-get_uvarint zero (x ∷ b) v rest h = ground arith
length-get_uvarint (suc k) (x ∷ b) v rest h = elim (Bool-cases (ltb x 128)) [
  | inl small ↦
      first_byte x v b rest (128 ^ k) (128 ^ suc k) (rw small at h) (ltb→lt x 128 small) (pow_pos k)
        (pow-suc 128 k)
  | inr big ↦
      let ((w, r), e, e') =
        map-eq-some (λ (u, r). (x % 128 + 128 * u, r)) (get_uvarint k b) (rw big at h) in
      let (short, fits) = length-get_uvarint k b w r e in
      let same : r ≡ rest = cc e' in
      let value : x % 128 + 128 * w ≡ v = cc e' in
      (omega (arith, ap (length {A = ℕ}) same), omega (arith, pow-suc 128 k))
]
  where
    pow_pos : (j : ℕ) → 1 ≤ 128 ^ j
    pow_pos zero = omega arith
    pow_pos (suc j) = omega (arith, pow_pos j, pow-suc 128 j)

-- A number that Uvarint returns fits 64 bits, and takes at least a byte.
pub length-read_uvarint :
    (b : Bytes) (v : ℕ) (rest : Bytes)
    → read_uvarint b ≡ some (v, rest)
    → (length rest < length b) × IsU64 v
unfolding read_uvarint
length-read_uvarint b v rest h =
    let (short, fits) = length-get_uvarint 9 b v rest h in (short, omega arith)

pub length-uvarint : (v : ℕ) → 1 ≤ length (uvarint v)
unfolding uvarint put_uvarint
length-uvarint v = ground arith
