-- ===== src/Tests.antt =====
-- Values that the examples share, and the examples of each component's theorems.
mod Names
mod Entries
mod Archive
mod Chunking
mod Incremental
mod Sealing
mod Archives
use sarc.Prelude.{ℕ, Option, none, some, List, [], ◌∷◌, replicate}
use sarc.Prelude.Int.{ℤ, pos, negsuc}
use sarc.Result.{Result, ok, err, panic}
use sarc.Bytes.{Bytes}
use sarc.Attributes.{Attributes, Owner, Xattr}

-- the bytes of a result that is not an error
abbrev pub bytes_of : Result Bytes → Bytes
bytes_of (ok b) = b
bytes_of (err e) = []
bytes_of panic = []

-- "docs/a"
abbrev pub a_name : Bytes
a_name = b'd' ∷ b'o' ∷ b'c' ∷ b's' ∷ b'/' ∷ b'a' ∷ []

abbrev pub an_owner : Owner
an_owner = record { uid = 501; gid = 20 }

abbrev pub an_xattr : Xattr
an_xattr = record { name = b'u' ∷ []; value = 7 ∷ [] }

-- a regular file's attributes, with an owner and an extended attribute
abbrev pub some_attributes : Attributes
some_attributes = record {
  kind = 0;
  mode = 420;
  mod_time = negsuc 0;
  link_target = [];
  owner = some an_owner;
  xattrs = an_xattr ∷ [];
}
