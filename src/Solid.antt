-- ===== src/Solid.antt =====
-- archive/solid.go: the record stream of a solid group, many small files in one entry.
pub mod RoundTrip
pub mod Safety
use sarc.Prelude.{ℕ, zero, suc, ◌+◌, ◌-◌, ◌*◌, ◌/◌, ◌%◌, ◌^◌, ◌≤◌, ◌<◌, min}
use sarc.Prelude.{String, ◌≡◌, refl, sym, ap, ◌∙◌, subst, ◌≢◌, ◌⊎◌, inl, inr}
use sarc.Prelude.{Bool, true, false, ◌&&◌, ◌||◌, not, Option, none, some}
use sarc.Prelude.{List, [], ◌∷◌, ◌++◌, append-nil, append_assoc, arith}
use sarc.Prelude.{
  ltb, leb, ◌==◌, ◌!=◌, if◌then◌else◌, Bool-cases, ltb→lt, ltb→le, lt→ltb, le→ltb, ==→eq, eq→==,
}
use sarc.Prelude.{
  length, take, drop, replicate, All, length-append, length-replicate, All-append, append-All,
}
use sarc.Prelude.{take-append, drop-append, take-append-drop, length-take, length-drop}
use sarc.Bytes.{Bytes, IsByte, AreBytes}
use sarc.Bytes.LittleEndian.{
  le, from_le, read_le, length-le, le-AreBytes, from_le-le, from_le-lt, le-from_le,
}
use sarc.Bytes.LittleEndian.{read_le-le, read_le-le_end, read_le_then, on_read_le}
use sarc.Bytes.Slice.{cut, cut-append_eq, cut_total, cut_sound, cut-ne-panic, cut_then, on_cut}
use sarc.Bytes.Slice.{has_prefix, has_prefix-append, has_prefix_sound, nil_of_length}
use sarc.Bytes.Slice.{bytes_eq, bytes_eq_refl, bytes_eq→eq, take-append_eq, drop-append_eq}
use sarc.Result.{Result, Error, ok, err, panic, fail_if, ◌>>=◌, ◌>>◌}
use sarc.Result.{
  >>=-eq-ok, >>=-ne-panic, fail_if-eq-ok, fail_if-ne-panic, on_fail_if, fail_if_then, ok-ne-panic,
}
use sarc.Names.{valid_entry_name}
use sarc.Attributes.{Attributes, append_attributes, kind_regular, max_attributes_size}
use sarc.Attributes.Decoder.{parse_attributes}

pub record SolidMember : Type 0 where
  pub name : Bytes
  pub attributes : Attributes
  pub contents : Bytes

-- `SolidMemberMaxSize`, `MaxSolidStreamSize`
abbrev pub solid_member_max_size : ℕ
solid_member_max_size = 2 ^ 20

abbrev pub max_solid_stream_size : ℕ
max_solid_stream_size = 8 * 2 ^ 20

-- `SolidRecordSize`
unfoldable pub solid_record_size : ℕ → ℕ → ℕ → ℕ
solid_record_size name_len attrs_len data_len = 2 + 4 + 8 + name_len + attrs_len + data_len

-- the bytes of one record, around its encoded attributes
unfoldable pub encode_record : SolidMember → Bytes → Bytes
encode_record m attrs =
    le 2 (length m.name)
    ++ (m.name ++ (le 4 (length attrs) ++ (attrs ++ (le 8 (length m.contents) ++ m.contents))))

-- `AppendSolidRecord`
unfoldable pub append_solid_record : Bytes → SolidMember → Result Bytes
append_solid_record dst m = do
  fail_if (not (valid_entry_name m.name)) (Error.failed "invalid member name")
  fail_if (m.attributes.kind != kind_regular) (Error.failed "only regular files join solid groups")
  attrs ← append_attributes [] m.attributes
  ok (dst ++ encode_record m attrs)

-- the stream that a writer builds, record by record
unfoldable pub append_members : Bytes → List SolidMember → Result Bytes
append_members dst [] = ok dst
append_members dst (m ∷ ms) = do out ← append_solid_record dst m; append_members out ms

abbrev malformed : String → Error
malformed what = Error.malformed_solid_stream what

-- `err != nil || attrs.Kind != KindRegular`
unfoldable pub member_attributes : Bytes → Result Attributes
member_attributes raw = elim (parse_attributes raw) [
  | ok a ↦ if a.kind != kind_regular then err (malformed "bad member attributes") else ok a
  | err e ↦ err (malformed "bad member attributes")
  | panic ↦ panic
]

-- One turn of `ParseSolidStream`'s loop; the offset is the part of the stream that is left. At the
-- attributes' length at least 8 bytes are left, so `len(stream)-off-8` is not negative.
unfoldable pub parse_member : Bytes → Result (SolidMember × Bytes)
parse_member s = do
  fail_if (ltb (length s) 2) (malformed "truncated name length")
  (name_len, s1) ← read_le 2 s
  fail_if (ltb (length s1) (name_len + 4 + 8)) (malformed "truncated record header")
  (name, s2) ← cut name_len s1
  fail_if (not (valid_entry_name name)) (malformed "invalid member name")
  (attrs_len, s3) ← read_le 4 s2
  fail_if (ltb max_attributes_size attrs_len || ltb (length s3 - 8) attrs_len)
      (malformed "attributes run past stream")
  (raw, s4) ← cut attrs_len s3
  attributes ← member_attributes raw
  (data_len, s5) ← read_le 8 s4
  fail_if (ltb (length s5) data_len) (malformed "member data runs past stream")
  (contents, rest) ← cut data_len s5
  ok (record { name = name; attributes = attributes; contents = contents }, rest)

-- The loop on fuel: each turn takes 14 bytes at least, so the stream's length is enough. Running
-- out of fuel is a `panic` here, which the theorems exclude.
unfoldable pub parse_members : ℕ → Bytes → Result (List SolidMember)
parse_members fuel [] = ok []
parse_members zero (x ∷ s) = panic
parse_members (suc fuel) (x ∷ s) = do
  (m, rest) ← parse_member (x ∷ s)
  ms ← parse_members fuel rest
  ok (m ∷ ms)

unfoldable pub some_members : List SolidMember → Result (List SolidMember)
some_members [] = err (malformed "no members")
some_members (m ∷ ms) = ok (m ∷ ms)

-- `ParseSolidStream`
unfoldable pub parse_solid_stream : Bytes → Result (List SolidMember)
parse_solid_stream stream = do ms ← parse_members (length stream) stream; some_members ms
