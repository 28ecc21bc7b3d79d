-- ===== src/Attributes/Safety.antt =====
-- ParseAttributes returns attributes or an error on every input: it never panics.
use sarc.Prelude.{ℕ, zero, suc}
use sarc.Prelude.{◌≢◌}
use sarc.Prelude.{Bool, true, false, none}
use sarc.Prelude.{List, [], ◌∷◌, arith}
use sarc.Result.{panic}
use sarc.Result.{>>=-ne-panic, fail_if_then}
use sarc.Decode.{Decode, IsSafe, IsSafe-pure, IsSafe-bind, IsSafe-reject_if}
use sarc.Bytes.{Bytes}
use sarc.Bytes.Slice.{cut_total}
use sarc.Attributes.{Attributes, Xattr, validate, check_xattr_names}
use sarc.Attributes.Decoder.{AttrDecoder, reader, bytes, fixed, unless_fault}
use sarc.Attributes.Decoder.{parse_owner, parse_xattrs, parse_fields, finish, parse_attributes}

bytes-IsSafe : (n : ℕ) → IsSafe (bytes n)
unfolding bytes
bytes-IsSafe n = record { at = λ d p. ground (arith, cut_total n d.b) }

fixed-IsSafe : (k : ℕ) → IsSafe (fixed k)
unfolding fixed
fixed-IsSafe k = record {
  at = λ d. >>=-ne-panic (bytes k d) _ ((bytes-IsSafe k).at d) (λ x _ p. cc);
}

unless_fault-IsSafe :
    {A : Type 0} (z : A) (m : Decode AttrDecoder A) → IsSafe m → IsSafe (unless_fault z m)
unfolding unless_fault
unless_fault-IsSafe z m h = record { at = λ d p. ground (arith, h.at d) }

parse_owner-IsSafe : (b : Bool) → IsSafe (parse_owner b)
unfolding parse_owner
parse_owner-IsSafe true =
    IsSafe-bind (fixed 4) _ (fixed-IsSafe 4)
      λ uid. IsSafe-bind (fixed 4) _ (fixed-IsSafe 4) λ gid. IsSafe-pure _
parse_owner-IsSafe false = IsSafe-pure none

parse_xattrs-IsSafe : (n : ℕ) → IsSafe (parse_xattrs n)
unfolding parse_xattrs
parse_xattrs-IsSafe zero = IsSafe-pure []
parse_xattrs-IsSafe (suc n) = unless_fault-IsSafe [] _ (
    IsSafe-bind (fixed 1) _ (fixed-IsSafe 1) λ name_len.
      IsSafe-bind (bytes name_len) _ (bytes-IsSafe name_len) λ name.
        IsSafe-bind (fixed 4) _ (fixed-IsSafe 4) λ size. IsSafe-reject_if _ _ _ (
          IsSafe-bind (bytes size) _ (bytes-IsSafe size)
            λ value. IsSafe-bind (parse_xattrs n) _ (parse_xattrs-IsSafe n) λ rest. IsSafe-pure _))

parse_fields-IsSafe : IsSafe parse_fields
unfolding parse_fields
parse_fields-IsSafe = IsSafe-bind (fixed 1) _ (fixed-IsSafe 1) λ kind.
    IsSafe-bind (fixed 4) _ (fixed-IsSafe 4) λ mode.
      IsSafe-bind (fixed 8) _ (fixed-IsSafe 8) λ mod_time.
        IsSafe-bind (fixed 1) _ (fixed-IsSafe 1) λ flags. IsSafe-reject_if _ _ _ (
          IsSafe-bind (parse_owner _) _ (parse_owner-IsSafe _) λ owner.
            IsSafe-bind (fixed 2) _ (fixed-IsSafe 2) λ target_len.
              IsSafe-bind (bytes target_len) _ (bytes-IsSafe target_len) λ link_target.
                IsSafe-bind (fixed 2) _ (fixed-IsSafe 2) λ count. IsSafe-reject_if _ _ _ (
                  IsSafe-bind (parse_xattrs count) _ (parse_xattrs-IsSafe count)
                    λ xattrs. IsSafe-pure _))

check_xattr_names-ne-panic : (xs : List Xattr) → check_xattr_names xs ≢ panic
unfolding check_xattr_names
check_xattr_names-ne-panic [] = λ p. cc
check_xattr_names-ne-panic (x ∷ xs) = fail_if_then _ _ _ λ _. check_xattr_names-ne-panic xs

pub validate-ne-panic : (a : Attributes) → validate a ≢ panic
unfolding validate
validate-ne-panic a p = ground (arith, check_xattr_names-ne-panic a.xattrs)

finish-ne-panic : (a : Attributes) (d : AttrDecoder) → finish a d ≢ panic
unfolding finish
finish-ne-panic a d p = ground (arith, validate-ne-panic a)

-- ParseAttributes never panics.
pub parse_attributes-ne-panic : (b : Bytes) → parse_attributes b ≢ panic
unfolding parse_attributes
parse_attributes-ne-panic b =
    >>=-ne-panic (parse_fields (reader b)) _ (parse_fields-IsSafe.at (reader b))
      λ (a, d) _. finish-ne-panic a d
