-- ===== src/Metadata/RoundTrip.antt =====
-- unmarshalMetadata reads back what marshalMetadata wrote, and what Version1 wrote.
use sarc.Prelude.{ℕ, ◌+◌, ◌^◌, ◌≤◌, ◌<◌}
use sarc.Prelude.{◌≡◌, refl}
use sarc.Prelude.{true, false, not, Option, none, some}
use sarc.Prelude.{[], ◌++◌, arith}
use sarc.Prelude.{ltb, ◌!=◌, ltb→le, lt→ltb, le→ltb}
use sarc.Prelude.{length, length-append}
use sarc.Bytes.{Bytes}
use sarc.Bytes.LittleEndian.{le, length-le}
use sarc.Bytes.LittleEndian.{read_le-le}
use sarc.Bytes.Slice.{cut-append_eq}
use sarc.Result.{ok}
use sarc.Result.{>>=-eq-ok, on_fail_if}
use sarc.Attributes.{Attributes, append_attributes}
use sarc.Attributes.RoundTrip as AttributesRoundTrip
use sarc.Attributes.RoundTrip.{parse_attributes-append}
use sarc.Attributes.Size.{append_attributes-size}
use sarc.Metadata.{
  PlaintextMetadata, known_codec, attributes_part, marshal_metadata, read_codec, read_attributes,
  unmarshal_metadata,
}

abbrev pub AttributesInRange : Option Attributes → Type 0
AttributesInRange none = Unit
AttributesInRange (some a) = AttributesRoundTrip.InRange a

-- The ranges of the Go types: a bucket byte, a 32-byte hash, 32-bit permissions.
pub record InRange (pm : PlaintextMetadata) : Type 0 where
  pub size_bucket : pm.size_bucket < 256
  pub timestamp_hash : length pm.timestamp_hash ≡ 32
  pub permissions : pm.permissions < 2 ^ 32
  pub attributes : AttributesInRange pm.attributes

read_attributes-part :
    (o : Option Attributes) (out : Bytes)
    → AttributesInRange o
    → attributes_part o ≡ ok out
    → read_attributes out ≡ ok o
unfolding attributes_part read_attributes
read_attributes-part none out r h = let nil : [] ≡ out = cc h in rw (← nil)
read_attributes-part (some a) out r h =
    let (attrs, e, e') = >>=-eq-ok (append_attributes [] a) _ h in
    let encoded : le 4 (length attrs) ++ attrs ≡ out = cc e' in
    let small = append_attributes-size [] attrs a e in
    let size : length (le 4 (length attrs) ++ attrs) ≡ 4 + length attrs =
      rw (length-append, length-le) in
    rw (← encoded) (
      rw
        (
          lt→ltb 0 (length (le 4 (length attrs) ++ attrs)) (omega arith),
          le→ltb (length (le 4 (length attrs) ++ attrs)) 4 (omega arith),
        )
        (rw (read_le-le 4 (length attrs) attrs (omega arith))
          (rw (neq_self (length attrs)) (rw (parse_attributes-append a attrs r e)))))
  where
    neq_self : (n : ℕ) → n != n ≡ false
    neq_self n = ground arith

read_codec-le :
    (c : ℕ) (rest : Bytes) → known_codec c ≡ true → read_codec (le 1 c ++ rest) ≡ ok (c, rest)
unfolding read_codec
read_codec-le c rest h =
    rw
      (lt→ltb 0 (length (le 1 c ++ rest))
        (omega (arith, length-append (le 1 c) rest, length-le 1 c)))
      (rw (read_le-le 1 c rest (ground arith)) (rw h))

-- Metadata that fits its Go types is read back: what marshalMetadata returns, unmarshalMetadata
-- decodes to the same metadata, with and without attributes.
pub unmarshal-marshal_metadata :
    (pm : PlaintextMetadata) (out : Bytes)
    → InRange pm
    → marshal_metadata pm ≡ ok out
    → unmarshal_metadata out ≡ ok pm
unfolding marshal_metadata unmarshal_metadata
unmarshal-marshal_metadata pm out r h =
    on_fail_if (ltb 0xffff (length pm.encrypted_filename)) _ _ h λ short h1.
      on_fail_if (not (known_codec pm.codec)) _ _ h1 λ known h2.
        let (attrs, e, e') = >>=-eq-ok (attributes_part pm.attributes) _ h2 in
        let n = length pm.encrypted_filename in
        let n_fits : n ≤ 0xffff = ltb→le 0xffff n short in
        let layout : Bytes =
          le 2 n
          ++ (pm.encrypted_filename
              ++ (le 1 pm.size_bucket
                  ++ (pm.timestamp_hash ++ (le 4 pm.permissions ++ (le 1 pm.codec ++ attrs))))) in
        let encoded : layout ≡ out = cc e' in
        let size : length layout ≡ 2 + (n + (1 + (32 + (4 + (1 + length attrs))))) =
          simp (length-append, length-le, r.timestamp_hash) in
        rw (← encoded) (
          rw (le→ltb (length layout) 2 (omega arith)) (
            rw (read_le-le 2 n _ (omega arith)) (
              rw (le→ltb (length layout) (2 + n + 1 + 32 + 4) (omega arith)) (
                rw (cut-append_eq n pm.encrypted_filename _ refl) (
                  rw (read_le-le 1 pm.size_bucket _ r.size_bucket) (
                    rw (cut-append_eq 32 pm.timestamp_hash _ r.timestamp_hash) (
                      rw (read_le-le 4 pm.permissions _ r.permissions) (
                        rw (read_codec-le pm.codec attrs (ground arith))
                          (rw (read_attributes-part pm.attributes attrs r.attributes e))))))))))
