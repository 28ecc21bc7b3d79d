-- ===== src/Attributes/Decoder.antt =====
-- `attrDecoder` and `ParseAttributes` of archive/attributes.go.
use sarc.Prelude.{ℕ, zero, suc, ◌%◌, Bool, true, false, Option, none, some}
use sarc.Prelude.{List, [], ◌∷◌, length, ltb, ◌!=◌, if◌then◌else◌}
use sarc.Prelude.Int.{to_i64}
use sarc.Result
use sarc.Result.{Result, Error, malformed_attributes, ok, err, panic, fail_if}
use sarc.Bytes.{Bytes}
use sarc.Bytes.Slice.{cut}
use sarc.Bytes.LittleEndian.{from_le}
use sarc.Decode.{Decode, pure, ◌>>=◌, reject_if}
use sarc.Attributes.{Owner, Xattr, Attributes, max_xattrs, max_xattrs_size, clear_low, validate}

pub record AttrDecoder : Type 0 where
  pub b : Bytes
  pub fault : Option Error

-- the decoder that a parser starts with
abbrev pub reader : Bytes → AttrDecoder
reader b = record { b = b; fault = none }

-- A failed read gives nil, and every read after it too. The slices `d.b[:n:n]` and `d.b[n:]` panic
-- out of bounds.
unfoldable pub bytes : ℕ → Decode AttrDecoder Bytes
bytes n d = elim d.fault [
  | some e ↦ ok ([], d)
  | none ↦
      if ltb (length d.b) n
      then ok ([], record d { fault = some (malformed_attributes "truncated") })
      else Result.◌>>=◌ (cut n d.b) λ (x, rest). ok (x, record d { b = rest })
]

-- `byte`, `u16`, `u32` and `u64` are `fixed` of 1, 2, 4 and 8 bytes; nil gives 0, as `from_le` does.
unfoldable pub fixed : ℕ → Decode AttrDecoder ℕ
unfolding bytes
fixed k = do x ← bytes k; pure (from_le x)

unfoldable pub parse_owner : Bool → Decode AttrDecoder (Option Owner)
parse_owner true = do uid ← fixed 4; gid ← fixed 4; pure (some (record { uid = uid; gid = gid }))
parse_owner false = pure none

-- The loop condition `d.err == nil`: with a fault the loop ends, and `z` is what it returns.
unfoldable pub unless_fault : {A : Type 0} → A → Decode AttrDecoder A → Decode AttrDecoder A
unless_fault z m d = elim d.fault [ some e ↦ ok (z, d) | none ↦ m d ]

-- One turn of the loop over extended attributes, then the turns that are left.
unfoldable pub xattr_turn : Decode AttrDecoder (List Xattr) → Decode AttrDecoder (List Xattr)
xattr_turn others = do
  name_len ← fixed 1
  name ← bytes name_len
  size ← fixed 4
  reject_if (ltb max_xattrs_size size) (malformed_attributes "extended attribute too large")
      (do value ← bytes size; rest ← others; pure (record { name = name; value = value } ∷ rest))

-- The loop stops at its count or at the first failed read.
unfoldable pub parse_xattrs : ℕ → Decode AttrDecoder (List Xattr)
unfolding xattr_turn unless_fault
parse_xattrs zero = pure []
parse_xattrs (suc n) = unless_fault [] (xattr_turn (parse_xattrs n))

-- `ParseAttributes` up to its last checks
unfoldable pub parse_fields : Decode AttrDecoder Attributes
parse_fields = do
  kind ← fixed 1
  mode ← fixed 4
  mod_time ← fixed 8
  flags ← fixed 1
  reject_if (clear_low flags 1 != 0) (malformed_attributes "unknown flags") (do
    owner ← parse_owner (flags % 2 != 0)
    target_len ← fixed 2
    link_target ← bytes target_len
    count ← fixed 2
    reject_if (ltb max_xattrs count) (malformed_attributes "too many extended attributes") (do
      xattrs ← parse_xattrs count
      pure (record {
        kind = kind;
        mode = mode;
        mod_time = to_i64 mod_time;
        link_target = link_target;
        owner = owner;
        xattrs = xattrs;
      })))

unfoldable pub finish : Attributes → AttrDecoder → Result Attributes
finish a d = elim d.fault [
  | some e ↦ err e
  | none ↦
      Result.◌>>◌ (fail_if (length d.b != 0) (malformed_attributes "trailing bytes"))
        (Result.◌>>◌ (validate a) (ok a))
]

-- `ParseAttributes`
unfoldable pub parse_attributes : Bytes → Result Attributes
parse_attributes b = Result.◌>>=◌ (parse_fields (reader b)) (λ (a, d). finish a d)
