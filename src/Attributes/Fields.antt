-- ===== src/Attributes/Fields.antt =====
-- Reading a field that was written, and what a read that succeeds has consumed.
use sarc.Prelude.{ℕ, ◌^◌, ◌<◌, ◌≡◌, subst, ap, false, none}
use sarc.Prelude.{◌++◌, length, ltb, arith, All-append}
use sarc.Prelude.{le→ltb, length-append, take-append-drop, length-take}
use sarc.Result.{ok}
use sarc.Bytes.{Bytes, AreBytes}
use sarc.Bytes.Slice.{cut-append, cut_total}
use sarc.Bytes.LittleEndian.{from_le, le, length-le, from_le-le, le-from_le, from_le-lt}
use sarc.Decode.{Decode, on_bind, pure}
use sarc.Attributes.Decoder.{AttrDecoder, reader, bytes, fixed, unless_fault}

pub bytes-append :
    (n : ℕ) (xs rest : Bytes) → length xs ≡ n → bytes n (reader (xs ++ rest)) ≡ ok (xs, reader rest)
bytes-append n xs rest h = subst (λ m. bytes m (reader (xs ++ rest)) ≡ ok (xs, reader rest)) h whole
  where
    fits : ltb (length (xs ++ rest)) (length xs) ≡ false
    fits = le→ltb (length (xs ++ rest)) (length xs) (omega (arith, length-append xs rest))

    whole : bytes (length xs) (reader (xs ++ rest)) ≡ ok (xs, reader rest)
    whole = unfold bytes in rw fits (rw (cut-append xs rest))

pub fixed-le :
    (k v : ℕ) (rest : Bytes) → v < 256 ^ k → fixed k (reader (le k v ++ rest)) ≡ ok (v, reader rest)
unfolding fixed
fixed-le k v rest h = rw (bytes-append k (le k v) rest (length-le k v)) (rw (from_le-le k v h))

-- A read that leaves no fault met none, and took its `n` bytes off the front.
pub bytes_sound :
    (n : ℕ) (d t : AttrDecoder) (x : Bytes)
    → bytes n d ≡ ok (x, t)
    → t.fault ≡ none
    → (d.fault ≡ none) × (d.b ≡ x ++ t.b) × (length x ≡ n)
unfolding bytes
bytes_sound n d t x h clean =
    ground (arith, cut_total n d.b, take-append-drop n d.b, length-take n d.b)

pub fixed_sound :
    (k : ℕ) (d t : AttrDecoder) (v : ℕ)
    → AreBytes d.b
    → fixed k d ≡ ok (v, t)
    → t.fault ≡ none
    → (d.fault ≡ none) × (d.b ≡ le k v ++ t.b) × (v < 256 ^ k) × AreBytes t.b
unfolding fixed
fixed_sound k d t v hb h clean =
    on_bind (bytes k) (λ y. pure (from_le y)) d h
      λ x u e e'.
        let same : u ≡ t = cc e' in
        let (clean', split, size) = bytes_sound k d u x e (cc (same, clean)) in
        let (hx, hu) = All-append _ x u.b (subst AreBytes split hb) in
        let field : le k v ≡ x = cc (le-from_le x hx, size, e') in
        (
          clean',
          cc (split, field, same),
          omega (
            arith,
            from_le-lt x hx,
            (let q : from_le x ≡ v = cc e' in q),
            ap (λ (n : ℕ). 256 ^ n) size,
          ),
          subst (λ w. AreBytes (w.b)) same hu,
        )

module _ {A : Type 0} (z : A) (m : Decode AttrDecoder A) (d : AttrDecoder) where
  -- A loop that ends with no fault began with none, and took its turn.
  pub unless_fault_sound :
      (x : A) (t : AttrDecoder) → unless_fault z m d ≡ ok (x, t) → t.fault ≡ none → m d ≡ ok (x, t)
  unfolding unless_fault
  unless_fault_sound x t h clean = ground arith
