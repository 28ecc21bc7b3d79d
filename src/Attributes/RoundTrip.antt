-- ===== src/Attributes/RoundTrip.antt =====
-- ParseAttributes reads back what AppendAttributes wrote.
use sarc.Prelude.{ℕ, ◌%◌, ◌^◌, ◌<◌, ◌≤◌, ◌≡◌, refl, false, Option, none, some}
use sarc.Prelude.{List, [], ◌∷◌, ◌++◌, length, ◌!=◌, arith, append_assoc, append-nil}
use sarc.Prelude.{le→ltb}
use sarc.Prelude.Int.{to_u64, to_i64-to_u64, to_u64-IsU64, IsI64}
use sarc.Result.{ok, >>=-eq-ok}
use sarc.Bytes.{Bytes}
use sarc.Attributes.{
  Owner, Xattr, Attributes, validate, check_xattr_names, xattrs_size, max_xattrs, max_xattrs_size,
  max_link_target_len,
}
use sarc.Attributes.{
  owner_flags, encode_owner, encode_xattr, encode_xattrs, encode_attributes, append_attributes,
  clear_low,
}
use sarc.Attributes.Decoder.{
  reader, parse_owner, parse_xattrs, parse_fields, finish, parse_attributes,
}
use sarc.Attributes.Fields.{bytes-append, fixed-le}

-- The ranges of the Go types that `validate` does not check.
abbrev pub OwnerInRange : Option Owner → Type 0
OwnerInRange none = Unit
OwnerInRange (some o) = (o.uid < 2 ^ 32) × (o.gid < 2 ^ 32)

pub record InRange (a : Attributes) : Type 0 where
  pub mode : a.mode < 2 ^ 32
  pub mod_time : IsI64 a.mod_time
  pub owner : OwnerInRange a.owner

parse_owner-encode :
    (o : Option Owner) (rest : Bytes)
    → OwnerInRange o
    → parse_owner (owner_flags o % 2 != 0) (reader (encode_owner o ++ rest)) ≡ ok (o, reader rest)
unfolding parse_owner owner_flags encode_owner
parse_owner-encode none rest h = refl
parse_owner-encode (some o) rest (hu, hg) =
    rw append_assoc (rw (fixed-le 4 o.uid _ hu) (rw (fixed-le 4 o.gid _ hg)))

check_xattr_names-head :
    (x : Xattr) (xs : List Xattr)
    → check_xattr_names (x ∷ xs) ≡ ok tt
    → (length x.name ≤ 255) × (check_xattr_names xs ≡ ok tt)
unfolding check_xattr_names
check_xattr_names-head x xs h = ground arith

parse_xattrs-encode :
    (xs : List Xattr) (rest : Bytes)
    → check_xattr_names xs ≡ ok tt
    → xattrs_size xs ≤ max_xattrs_size
    → parse_xattrs (length xs) (reader (encode_xattrs xs ++ rest)) ≡ ok (xs, reader rest)
unfolding parse_xattrs encode_xattrs encode_xattr xattrs_size
parse_xattrs-encode [] rest named fits = refl
parse_xattrs-encode (x ∷ xs) rest named fits =
    let (short, named') = check_xattr_names-head x xs named in
    simp append_assoc (
      rw (fixed-le 1 (length x.name) _ (omega arith)) (
        rw (bytes-append (length x.name) x.name _ refl) (
          rw (fixed-le 4 (length x.value) _ (omega arith)) (
            rw (le→ltb max_xattrs_size (length x.value) (omega arith)) (
              rw (bytes-append (length x.value) x.value _ refl)
                (rw (parse_xattrs-encode xs rest named' (omega arith))))))))

-- What `validate` guarantees.
pub record IsValid (a : Attributes) : Type 0 where
  pub kind : a.kind ≤ 3
  pub mode : a.mode < 4096
  pub target : length a.link_target ≤ max_link_target_len
  pub count : length a.xattrs ≤ max_xattrs
  pub size : xattrs_size a.xattrs ≤ max_xattrs_size
  pub names : check_xattr_names a.xattrs ≡ ok tt

clear_low-eq-zero : (m : ℕ) → clear_low m 12 != 0 ≡ false → m < 4096
clear_low-eq-zero m h = ground arith

pub validate-IsValid : (a : Attributes) → validate a ≡ ok tt → IsValid a
unfolding validate
validate-IsValid a h = ground (arith, clear_low-eq-zero a.mode)

parse_xattrs-encode_nil :
    (xs : List Xattr)
    → check_xattr_names xs ≡ ok tt
    → xattrs_size xs ≤ max_xattrs_size
    → parse_xattrs (length xs) (reader (encode_xattrs xs)) ≡ ok (xs, reader [])
parse_xattrs-encode_nil xs named fits = rw append-nil at (parse_xattrs-encode xs [] named fits)

owner_flags_known :
    (o : Option Owner) → (clear_low (owner_flags o) 1 != 0 ≡ false) × (owner_flags o < 256)
unfolding owner_flags
owner_flags_known none = (refl, omega arith)
owner_flags_known (some o) = (refl, omega arith)

parse_fields-encode :
    (a : Attributes)
    → InRange a
    → IsValid a
    → parse_fields (reader (encode_attributes a)) ≡ ok (a, reader [])
unfolding parse_fields encode_attributes
parse_fields-encode a r v =
    let (known, small) = owner_flags_known a.owner in
    rw (fixed-le 1 a.kind _ (omega arith)) (
      rw (fixed-le 4 a.mode _ (omega arith)) (
        rw (fixed-le 8 (to_u64 a.mod_time) _ (to_u64-IsU64 a.mod_time)) (
          rw (fixed-le 1 (owner_flags a.owner) _ small) (
            rw known (
              rw (parse_owner-encode a.owner _ r.owner) (
                rw (fixed-le 2 (length a.link_target) _ (omega arith)) (
                  rw (bytes-append (length a.link_target) a.link_target _ refl) (
                    rw (fixed-le 2 (length a.xattrs) _ (omega arith)) (
                      rw (le→ltb max_xattrs (length a.xattrs) (omega arith)) (
                        rw (parse_xattrs-encode_nil a.xattrs v.names v.size)
                          (rw (to_i64-to_u64 a.mod_time r.mod_time))))))))))))

-- Attributes that AppendAttributes accepts, with a 32-bit mode, uid and gid and a 64-bit time, are read
-- back: what AppendAttributes appends to an empty slice, ParseAttributes decodes to the same
-- attributes.
pub parse_attributes-append :
    (a : Attributes) (out : Bytes)
    → InRange a
    → append_attributes [] a ≡ ok out
    → parse_attributes out ≡ ok a
unfolding append_attributes parse_attributes finish
parse_attributes-append a out r h =
    let (u, checked, e) = >>=-eq-ok (validate a) _ h in
    let encoded : encode_attributes a ≡ out = cc e in
    rw (← encoded) (rw (parse_fields-encode a r (validate-IsValid a checked)) (rw checked))
