-- ===== src/Tests/Names.antt =====
-- Examples of names and attributes.
use mathlib.Core.Bool.{xor}
use mathlib.Core.List.{reverse}
use sarc.Bytes.LittleEndian.{le}
use sarc.Prelude.Int.{to_u64}
use sarc.Prelude.{ℕ, ◌≡◌, refl, ◌≢◌, ◌≤◌, ◌+◌, List, [], ◌∷◌, ◌++◌, length, All, true, arith}
use sarc.Result.{ok, panic}
use sarc.Bytes.{Bytes, AreBytes}
use sarc.Names.{split, valid_entry_name, max_entry_name_len}
use sarc.Names.Containment.{join, walk, IsPlain, valid_entry_name-contained}
use sarc.Attributes.{
  append_attributes, validate, xattrs_size, check_xattr_names, encode_attributes, encode_owner,
  encode_xattrs, encode_xattr, owner_flags, max_attributes_size,
}
use sarc.Attributes.Decoder.{parse_attributes}
use sarc.Attributes.RoundTrip.{InRange, parse_attributes-append}
use sarc.Attributes.Canonical.{append-parse_attributes}
use sarc.Attributes.Size.{append_attributes-size}
use sarc.Attributes.Safety.{parse_attributes-ne-panic}
use sarc.Tests.{a_name, some_attributes}

pub some_attributes-InRange : InRange some_attributes
some_attributes-InRange = record { mode = omega arith; mod_time = omega arith; owner = omega arith }

abbrev pub encoded : Bytes
encoded =
    0 ∷ 164 ∷ 1 ∷ 0 ∷ 0 ∷ 255 ∷ 255 ∷ 255 ∷ 255 ∷ 255 ∷ 255 ∷ 255 ∷ 255 ∷ 1 ∷ 245 ∷ 1 ∷ 0 ∷ 0 ∷ 20
    ∷ 0 ∷ 0 ∷ 0 ∷ 0 ∷ 0 ∷ 1 ∷ 0 ∷ 1 ∷ 117 ∷ 1 ∷ 0 ∷ 0 ∷ 0 ∷ 7 ∷ []

pub encoded_is : append_attributes [] some_attributes ≡ ok encoded
unfolding append_attributes validate xattrs_size check_xattr_names xor encode_attributes
    encode_owner encode_xattrs encode_xattr owner_flags le to_u64
encoded_is = refl

parse_attributes-append_example : parse_attributes encoded ≡ ok some_attributes
parse_attributes-append_example =
    parse_attributes-append some_attributes encoded some_attributes-InRange encoded_is

encoded_read : parse_attributes encoded ≡ ok some_attributes
encoded_read = parse_attributes-append some_attributes encoded some_attributes-InRange encoded_is

encoded-AreBytes : AreBytes encoded
encoded-AreBytes = omega arith

append-parse_attributes_example :
    InRange some_attributes × (append_attributes [] some_attributes ≡ ok encoded)
append-parse_attributes_example =
    append-parse_attributes encoded some_attributes encoded-AreBytes encoded_read

append_attributes-size_example : length encoded ≤ length {A = ℕ} [] + max_attributes_size
append_attributes-size_example = append_attributes-size [] encoded some_attributes encoded_is

parse_attributes-ne-panic_example : parse_attributes (0 ∷ 1 ∷ []) ≢ panic
parse_attributes-ne-panic_example = parse_attributes-ne-panic (0 ∷ 1 ∷ [])

-- "docs/a" under a directory that is two levels deep, one element in
abbrev d_name : Bytes
d_name = b'd' ∷ b'o' ∷ b'c' ∷ b's' ∷ []

abbrev a_dir : List Bytes
a_dir = (2 ∷ []) ∷ (1 ∷ []) ∷ []

a_name_valid : valid_entry_name a_name ≡ true
unfolding valid_entry_name
a_name_valid = refl

a_name_split : split a_name ≡ (d_name ∷ []) ++ ((b'a' ∷ []) ∷ [])
unfolding split
a_name_split = refl

valid_entry_name-contained_example :
    (length a_name ≤ max_entry_name_len)
    × (join (split a_name) ≡ a_name)
    × All IsPlain (split a_name)
    × (walk a_dir (d_name ∷ []) ≡ reverse (d_name ∷ []) ++ a_dir)
valid_entry_name-contained_example =
    valid_entry_name-contained a_name a_dir (d_name ∷ []) ((b'a' ∷ []) ∷ []) a_name_valid
      a_name_split
