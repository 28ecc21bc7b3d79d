-- ===== src/IndexDecoder/Reads.antt =====
-- Reading back what was written, from a decoder with no fault; and a length that is negative as
-- an int.
use sarc.Prelude.{ℕ, ◌/◌, ◌^◌, ◌≤◌, ◌<◌, min}
use sarc.Prelude.{String, ◌≡◌, refl}
use sarc.Prelude.{true, none}
use sarc.Prelude.{[], ◌++◌, arith}
use sarc.Prelude.{lt→ltb, le→ltb}
use sarc.Prelude.{length, length-append}
use sarc.Prelude.Int.{ℤ, pos, to_i64, to_i64-pos, IsU64, IsI64}
use sarc.Result.{Error, ok, panic}
use sarc.Bytes.{Bytes}
use sarc.Bytes.LittleEndian.{le, length-le}
use sarc.Bytes.Slice.{take-append_eq, drop-append_eq}
use sarc.Bytes.Varint
use sarc.Bytes.Varint.{zigzag, unzigzag-zigzag, zigzag-IsU64, read-uvarint}
use sarc.Names.{split, valid_entry_name, max_entry_name_len}
use sarc.Names.Containment.{valid_entry_name-contained}
use sarc.Attributes.{Attributes, max_attributes_size, append_attributes}
use sarc.Attributes.RoundTrip.{InRange, parse_attributes-append}
use sarc.Attributes.Size.{append_attributes-size}
use sarc.IndexDecoder.{
  IndexDecoder, fail_with, fail_when, uvarint, varint, count, bytes, read_byte, name, attributes,
}

module _ (k : String → Error) where
  -- a decoder that has met no fault
  abbrev pub fresh : Bytes → IndexDecoder
  fresh b = record { b = b; fault = none; kind = k }

  pub uvarint-append :
      (v : ℕ) (rest : Bytes)
      → IsU64 v
      → uvarint (fresh (Varint.uvarint v ++ rest)) ≡ ok (v, fresh rest)
  unfolding uvarint
  uvarint-append v rest h = rw (read-uvarint v rest h, uvarint)

  pub varint-append :
      (z : ℤ) (rest : Bytes)
      → IsI64 z
      → varint (fresh (Varint.uvarint (zigzag z) ++ rest)) ≡ ok (z, fresh rest)
  unfolding varint
  varint-append z rest h =
      rw (read-uvarint (zigzag z) rest (zigzag-IsU64 z h), varint) (rw unzigzag-zigzag)

  pub bytes-append :
      (n : ℕ) (xs rest : Bytes)
      → length xs ≡ n
      → bytes (pos n) (fresh (xs ++ rest)) ≡ ok (xs, fresh rest)
  unfolding bytes
  bytes-append n xs rest h =
      rw (le→ltb (length (xs ++ rest)) n (omega (arith, length-append xs rest)))
        (rw (take-append_eq n xs rest h, drop-append_eq n xs rest h))

  pub read_byte-append :
      (c : ℕ) (rest : Bytes) → c < 256 → read_byte (fresh (le 1 c ++ rest)) ≡ ok (c, fresh rest)
  unfolding read_byte
  read_byte-append c rest h =
      rw (bytes-append 1 (le 1 c) rest (length-le 1 c)) (unfold le in ground arith)

  pub count-append :
      (min n : ℕ) (rest : Bytes)
      → IsU64 n
      → n ≤ length rest / min
      → count min (fresh (Varint.uvarint n ++ rest)) ≡ ok (n, fresh rest)
  unfolding count
  count-append min n rest h fits =
      rw (uvarint-append n rest h) (rw (le→ltb (length rest / min) n fits))

  pub name-append :
      (s rest : Bytes)
      → valid_entry_name s ≡ true
      → name (fresh (Varint.uvarint (length s) ++ (s ++ rest))) ≡ ok (s, fresh rest)
  unfolding name fail_when
  name-append s rest valid =
      let (short, _, _, _) = valid_entry_name-contained s [] [] (split s) valid refl in
      rw (uvarint-append (length s) (s ++ rest) (omega (arith, short))) (
        rw (le→ltb max_entry_name_len (length s) short) (
          rw (to_i64-pos (length s) (omega (arith, short)))
            (rw (bytes-append (length s) s rest refl) (rw valid))))

  pub attributes-append :
      (a : Attributes) (attrs rest : Bytes)
      → InRange a
      → append_attributes [] a ≡ ok attrs
      → attributes (fresh (Varint.uvarint (length attrs) ++ (attrs ++ rest))) ≡ ok (a, fresh rest)
  unfolding attributes fail_when
  attributes-append a attrs rest r e =
      let small = append_attributes-size [] attrs a e in
      rw (uvarint-append (length attrs) (attrs ++ rest) (omega (arith, small))) (
        rw (le→ltb max_attributes_size (length attrs) small) (
          rw (to_i64-pos (length attrs) (omega (arith, small))) (
            rw (bytes-append (length attrs) attrs rest refl)
              (rw (parse_attributes-append a attrs r e)))))

  -- From 2^63 on the length is recorded as too large, and is still used: it is negative as an int,
  -- passes `n > len(d.b)`, and the slice panics.
  pub attributes_overflow :
      (n : ℕ) (rest : Bytes)
      → 2 ^ 63 ≤ n
      → IsU64 n
      → attributes (fresh (Varint.uvarint n ++ rest)) ≡ panic
  unfolding attributes fail_when fail_with to_i64 bytes
  attributes_overflow n rest h fits =
      rw (uvarint-append n rest fits)
        (rw (lt→ltb max_attributes_size n (omega arith)) (ground arith))
