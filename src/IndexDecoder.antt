-- ===== src/IndexDecoder.antt =====
-- `indexDecoder` of archive/incremental.go: the reads that session indexes and directories are
-- decoded with. A failed read records the first error and returns a zero value, and all reads
-- after it fail too. `int(n)` of a uint64 is Go's conversion, negative from 2^63 on.
pub mod Reads
use sarc.Prelude.{ℕ, zero, suc, ◌+◌, ◌-◌, ◌*◌, ◌/◌, ◌%◌, ◌^◌, ◌≤◌, ◌<◌, min}
use sarc.Prelude.{String, ◌≡◌, refl, sym, ap, ◌∙◌, subst, ◌≢◌, ◌⊎◌, inl, inr}
use sarc.Prelude.{Bool, true, false, ◌&&◌, ◌||◌, not, Option, none, some}
use sarc.Prelude.{List, [], ◌∷◌, ◌++◌, append-nil, append_assoc, arith}
use sarc.Prelude.{
  ltb, leb, ◌==◌, ◌!=◌, if◌then◌else◌, Bool-cases, ltb→lt, ltb→le, lt→ltb, le→ltb, ==→eq, eq→==,
}
use sarc.Prelude.{
  length, take, drop, replicate, All, length-append, length-replicate, All-append, append-All,
}
use sarc.Prelude.{take-append, drop-append, take-append-drop, length-take, length-drop}
use sarc.Prelude.Int.{ℤ, pos, negsuc, to_i64}
use sarc.Result.{Result, Error, ok, err, panic}
use sarc.Bytes.{Bytes}
use sarc.Bytes.Varint
use sarc.Bytes.Varint.{read_uvarint, unzigzag}
use sarc.Decode.{Decode, pure, ◌>>=◌}
use sarc.Names.{valid_entry_name, max_entry_name_len}
use sarc.Attributes.{Attributes, max_attributes_size}
use sarc.Attributes.Decoder.{parse_attributes}

-- `kind` makes the error that wraps the decoder's sentinel.
pub record IndexDecoder : Type 0 where
  pub b : Bytes
  pub fault : Option Error
  pub kind : String → Error

abbrev pub Read : Type 0 → Type 0
Read A = Decode IndexDecoder A

abbrev pub first_fault : Option Error → Error → Option Error
first_fault none e = some e
first_fault (some f) e = some f

-- `appendString`, what `name` reads
unfoldable pub encode_string : Bytes → Bytes
encode_string s = Varint.uvarint (length s) ++ s

-- `fail`, then a return of `z`
unfoldable pub fail_with : {A : Type 0} → A → String → Read A
fail_with z what d = ok (z, record d { b = []; fault = first_fault d.fault (d.kind what) })

unfoldable pub uvarint : Read ℕ
unfolding fail_with
uvarint d = elim (read_uvarint d.b) [
  | none ↦ fail_with 0 "bad varint" d
  | some (v, rest) ↦ ok (v, record d { b = rest })
]

unfoldable pub varint : Read ℤ
unfolding fail_with
varint d = elim (read_uvarint d.b) [
  | none ↦ fail_with (pos 0) "bad varint" d
  | some (u, rest) ↦ ok (unzigzag u, record d { b = rest })
]

-- d.fail(what) if `bad`; either way the function goes on with `z`
unfoldable pub fail_when : {A : Type 0} → Bool → String → A → Read A
unfolding fail_with
fail_when true what z d = fail_with z what d
fail_when false what z d = ok (z, d)

-- `count`: 0 for a count that the bytes left cannot hold
unfoldable pub count : ℕ → Read ℕ
unfolding fail_with
count min_size = do
  n ← uvarint
  (λ d.
      if ltb (length d.b / min_size) n
      then fail_with 0 "count exceeds remaining data" d
      else ok (n, d))

-- `bytes`: a negative length passes the test against the length and then is out of range.
unfoldable pub bytes : ℤ → Read Bytes
unfolding fail_with
bytes (pos n) d =
    if ltb (length d.b) n
    then fail_with [] "truncated" d
    else ok (take n d.b, record d { b = drop n d.b })
bytes (negsuc n) d = panic

abbrev head_or_zero : Bytes → ℕ
head_or_zero [] = 0
head_or_zero (x ∷ xs) = x

-- `readByte`
unfoldable pub read_byte : Read ℕ
read_byte = do b ← bytes (pos 1); pure (head_or_zero b)

-- `d.err == nil`
abbrev pub no_fault : IndexDecoder → Bool
no_fault d = elim d.fault [ none ↦ true | some e ↦ false ]

-- `name`
unfoldable pub name : Read Bytes
unfolding fail_with fail_when
name = do
  n ← uvarint
  (if ltb max_entry_name_len n then fail_with [] "name too long" else (do
    s ← bytes (to_i64 n)
    (λ d. fail_when (no_fault d && not (valid_entry_name s)) "invalid name" s d)))

abbrev pub zero_attributes : Attributes
zero_attributes = record {
  kind = 0;
  mode = 0;
  mod_time = pos 0;
  link_target = [];
  owner = none;
  xattrs = [];
}

-- The attributes of an entry, as `file` and `directoryRecord` read them.
unfoldable pub parsed_attributes : Bytes → Read Attributes
unfolding fail_with
parsed_attributes raw d =
    if no_fault d
    then (elim (parse_attributes raw) [
      | ok a ↦ ok (a, d)
      | err e ↦ fail_with zero_attributes "bad attributes" d
      | panic ↦ panic
    ])
    else ok (zero_attributes, d)

unfoldable pub attributes : Read Attributes
unfolding fail_when parsed_attributes
attributes = do
  attrs_len ← uvarint
  n ← fail_when (ltb max_attributes_size attrs_len) "attributes too large" attrs_len
  raw ← bytes (to_i64 n)
  parsed_attributes raw
