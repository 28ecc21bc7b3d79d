-- ===== src/Attributes.antt =====
-- archive/attributes.go: the filesystem metadata of an entry, its limits and its encoding.
-- Strings and byte slices are lists of bytes; `Kind` is its number, as the source's uint8 is.
pub mod Decoder
pub mod Fields
pub mod RoundTrip
pub mod Canonical
pub mod Size
pub mod Safety
use sarc.Prelude.{
  ℕ, ◌+◌, ◌-◌, ◌*◌, ◌/◌, ◌%◌, ◌^◌, Bool, true, false, ◌||◌, ◌&&◌, not, Option, none, some,
}
use sarc.Prelude.{List, [], ◌∷◌, ◌++◌, length, ltb, ◌==◌, ◌!=◌, if◌then◌else◌}
use sarc.Prelude.Int.{ℤ, to_u64}
use sarc.Result.{Result, Error, malformed_attributes, ok, fail_if, ◌>>=◌, ◌>>◌}
use sarc.Bytes.{Bytes}
use sarc.Bytes.LittleEndian.{le}
use sarc.Names.{valid_entry_name, is_empty}
use mathlib.Core.Bool.{xor}

-- `FileKind`
abbrev pub kind_regular : ℕ
kind_regular = 0

abbrev pub kind_directory : ℕ
kind_directory = 1

abbrev pub kind_symlink : ℕ
kind_symlink = 2

abbrev pub kind_hardlink : ℕ
kind_hardlink = 3

-- `MaxLinkTargetLen`, `MaxXattrs`, `MaxXattrNameLen`, `MaxXattrsSize`, `MaxAttributesSize`
abbrev pub max_link_target_len : ℕ
max_link_target_len = 4096

abbrev pub max_xattrs : ℕ
max_xattrs = 1024

abbrev pub max_xattr_name_len : ℕ
max_xattr_name_len = 255

abbrev pub max_xattrs_size : ℕ
max_xattrs_size = 2 ^ 20

abbrev pub max_attributes_size : ℕ
max_attributes_size = max_xattrs_size + max_link_target_len + 64

pub record Owner : Type 0 where
  pub uid : ℕ
  pub gid : ℕ

pub record Xattr : Type 0 where
  pub name : Bytes
  pub value : Bytes

pub record Attributes : Type 0 where
  pub kind : ℕ
  pub mode : ℕ
  pub mod_time : ℤ
  pub link_target : Bytes
  pub owner : Option Owner
  pub xattrs : List Xattr

-- x &^ (2 ^ k - 1)
abbrev pub clear_low : ℕ → ℕ → ℕ
clear_low x k = x - x % 2 ^ k

-- `XattrsSize`
unfoldable pub xattrs_size : List Xattr → ℕ
xattrs_size [] = 0
xattrs_size (x ∷ xs) = 1 + length x.name + 4 + length x.value + xattrs_size xs

-- the loop at the end of `validate`
unfoldable pub check_xattr_names : List Xattr → Result (Unit {0})
check_xattr_names [] = ok tt
check_xattr_names (x ∷ xs) =
    fail_if (is_empty x.name || ltb max_xattr_name_len (length x.name))
      (malformed_attributes "bad extended attribute name")
    >> check_xattr_names xs

abbrev pub is_link : Attributes → Bool
is_link a = a.kind == kind_symlink || a.kind == kind_hardlink

-- `Attributes.validate`; `ModeMask` is the low 12 bits.
unfoldable pub validate : Attributes → Result (Unit {0})
validate a = do
  fail_if (ltb kind_hardlink a.kind) (malformed_attributes "unknown kind")
  fail_if (clear_low a.mode 12 != 0) (malformed_attributes "mode has bits outside")
  fail_if (ltb max_link_target_len (length a.link_target))
      (malformed_attributes "link target too long")
  fail_if (xor (is_link a) (not (is_empty a.link_target)))
      (malformed_attributes "only links have a non-empty target")
  fail_if (a.kind == kind_hardlink && not (valid_entry_name a.link_target))
      (malformed_attributes "hard link target is not a safe name")
  fail_if (ltb max_xattrs (length a.xattrs) || ltb max_xattrs_size (xattrs_size a.xattrs))
      (malformed_attributes "extended attributes too large")
  check_xattr_names a.xattrs

unfoldable pub owner_flags : Option Owner → ℕ
owner_flags none = 0
owner_flags (some o) = 1

unfoldable pub encode_owner : Option Owner → Bytes
encode_owner none = []
encode_owner (some o) = le 4 o.uid ++ le 4 o.gid

unfoldable pub encode_xattr : Xattr → Bytes
encode_xattr x = le 1 (length x.name) ++ (x.name ++ (le 4 (length x.value) ++ x.value))

unfoldable pub encode_xattrs : List Xattr → Bytes
encode_xattrs [] = []
encode_xattrs (x ∷ xs) = encode_xattr x ++ encode_xattrs xs

-- what `AppendAttributes` appends; `byte(n)` is `le 1 n`
unfoldable pub encode_attributes : Attributes → Bytes
encode_attributes a =
    le 1 a.kind
    ++ (le 4 a.mode
        ++ (le 8 (to_u64 a.mod_time)
            ++ (le 1 (owner_flags a.owner)
                ++ (encode_owner a.owner
                    ++ (le 2 (length a.link_target)
                        ++ (a.link_target
                            ++ (le 2 (length a.xattrs) ++ encode_xattrs a.xattrs)))))))

-- `AppendAttributes`
unfoldable pub append_attributes : Bytes → Attributes → Result Bytes
append_attributes dst a = do validate a; ok (dst ++ encode_attributes a)
