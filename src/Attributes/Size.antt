-- ===== src/Attributes/Size.antt =====
-- Encoded attributes fit the limit that readers put on them.
use sarc.Prelude.{
  ◌+◌, ◌≤◌, ◌≡◌, Option, none, some, List, [], ◌∷◌, ◌++◌, length, arith, length-append,
}
use sarc.Result.{ok, >>=-eq-ok}
use sarc.Bytes.{Bytes}
use sarc.Bytes.LittleEndian.{le, length-le}
use sarc.Attributes.{Owner, Xattr, Attributes, validate, xattrs_size, max_attributes_size}
use sarc.Attributes.{
  encode_owner, encode_xattr, encode_xattrs, encode_attributes, append_attributes,
}
use sarc.Attributes.RoundTrip.{validate-IsValid}

length-encode_owner : (o : Option Owner) → length (encode_owner o) ≤ 8
unfolding encode_owner
length-encode_owner none = omega arith
length-encode_owner (some o) =
    omega (arith, length-append (le 4 o.uid) (le 4 o.gid), length-le 4 o.uid, length-le 4 o.gid)

-- `XattrsSize` is the number of bytes that the extended attributes take.
pub length-encode_xattrs : (xs : List Xattr) → length (encode_xattrs xs) ≡ xattrs_size xs
unfolding encode_xattrs encode_xattr xattrs_size
length-encode_xattrs [] = omega arith
length-encode_xattrs (x ∷ xs) =
    simp (length-append, length-le) (omega (arith, length-encode_xattrs xs))

-- What AppendAttributes appends is at most MaxAttributesSize bytes.
pub append_attributes-size :
    (dst out : Bytes) (a : Attributes)
    → append_attributes dst a ≡ ok out
    → length out ≤ length dst + max_attributes_size
unfolding append_attributes encode_attributes
append_attributes-size dst out a h =
    let (_, checked, e) = >>=-eq-ok (validate a) _ h in
    let v = validate-IsValid a checked in
    let encoded : dst ++ encode_attributes a ≡ out = cc e in
    rw (← encoded) (
      simp (length-append, length-le, length-encode_xattrs)
        (omega (arith, length-encode_owner a.owner, v.target, v.size)))
