-- ===== src/Directory/RoundTrip.antt =====
-- ParseDirectory reads back the records that AppendDirectoryRecord wrote.
use sarc.Prelude.{ℕ, zero, suc, ◌%◌, ◌≤◌, ◌<◌}
use sarc.Prelude.{String, ◌≡◌, refl, ap, ◌∙◌}
use sarc.Prelude.{Bool, true, false, ◌&&◌, not}
use sarc.Prelude.{List, [], ◌∷◌, ◌++◌, append-nil, append_assoc, arith}
use sarc.Prelude.{◌!=◌, lt→ltb, le→ltb}
use sarc.Prelude.{length, All, length-append}
use sarc.Result.{Error, ok, ◌>>=◌}
use sarc.Result.{>>=-eq-ok, on_fail_if}
use sarc.Prelude.Int.{IsU64}
use sarc.Bytes.{Bytes}
use sarc.Bytes.Slice.{has_prefix-append, drop-append_eq}
use sarc.Bytes.Varint.{length-uvarint}
use sarc.Names.{valid_entry_name}
use sarc.Attributes.{append_attributes, clear_low}
use sarc.Attributes.RoundTrip as AttributesRoundTrip
use sarc.Metadata.{codec_none, codec_zstd}
use sarc.IndexDecoder.{encode_string}
use sarc.IndexDecoder.Reads.{
  fresh, uvarint-append, read_byte-append, name-append, attributes-append,
}
use sarc.Directory.{
  DirectoryRecord, directory_magic, max_directory_size, bucket_huge, solid_flag, encode_record,
  sized_link, append_directory_record, append_records, check_record, directory_record,
  parse_records, parse_directory,
}

-- The ranges of the Go types, a known size bucket and a known codec.
pub record InRange (r : DirectoryRecord) : Type 0 where
  pub offset : IsU64 r.offset
  pub attributes : AttributesRoundTrip.InRange r.attributes
  pub size_bucket : r.size_bucket ≤ bucket_huge
  pub codec : r.codec ≤ codec_zstd
  pub original_size : IsU64 r.original_size
  pub stored_size : IsU64 r.stored_size

abbrev Record : DirectoryRecord → Bytes → Type 0
Record r enc =
    (attrs : Bytes) × (append_attributes [] r.attributes ≡ ok attrs)
    × (valid_entry_name r.name ≡ true)
    × (sized_link r ≡ false)
    × (enc ≡ encode_record r attrs)

append_directory_record_sound :
    (dir out : Bytes) (r : DirectoryRecord)
    → append_directory_record dir r ≡ ok out
    → (enc : Bytes) × (out ≡ dir ++ enc) × Record r enc
unfolding append_directory_record
append_directory_record_sound dir out r h =
    on_fail_if (not (valid_entry_name r.name)) _ _ h λ valid h1.
      on_fail_if (sized_link r) _ _ h1 λ plain h2.
        let (attrs, e, e') = >>=-eq-ok (append_attributes [] r.attributes) _ h2 in
        (encode_record r attrs, cc e', (attrs, e, ground arith, plain, refl))

flag_known :
    (b : Bool)
    → (solid_flag b < 256)
      × ((clear_low (solid_flag b) 1 != 0) ≡ false)
      × ((solid_flag b % 2 != 0) ≡ b)
unfolding solid_flag
flag_known true = (omega arith, refl, refl)
flag_known false = (omega arith, refl, refl)

module _ (k : String → Error) where
  check_record-ok :
      (r : DirectoryRecord) (rest : Bytes)
      → InRange r
      → sized_link r ≡ false
      → check_record (solid_flag r.solid) r (fresh k rest) ≡ ok (r, fresh k rest)
  unfolding check_record
  check_record-ok r rest i plain =
      let (_, known, _) = flag_known r.solid in
      rw (known, le→ltb bucket_huge r.size_bucket i.size_bucket)
        (rw (codec_known r.codec i.codec) (rw plain))
    where
      codec_known : (c : ℕ) → c ≤ 1 → (c != codec_none && c != codec_zstd) ≡ false
      codec_known c h = ground arith

  directory_record-encode :
      (r : DirectoryRecord) (enc rest : Bytes)
      → InRange r
      → Record r enc
      → directory_record (fresh k (enc ++ rest)) ≡ ok (r, fresh k rest)
  unfolding directory_record
  directory_record-encode r enc rest i (attrs, e, valid, plain, is) =
      let (small, _, bit) = flag_known r.solid in
      rw is (
        unfold encode_record encode_string in
        simp append_assoc (
          rw (uvarint-append k r.offset _ i.offset) (
            rw (name-append k r.name _ valid) (
              rw (read_byte-append k (solid_flag r.solid) _ small) (
                rw (read_byte-append k r.size_bucket _ (omega (arith, i.size_bucket))) (
                  rw (read_byte-append k r.codec _ (omega (arith, i.codec))) (
                    rw (attributes-append k r.attributes attrs _ i.attributes e) (
                      rw (uvarint-append k r.original_size _ i.original_size) (
                        rw (uvarint-append k r.stored_size rest i.stored_size)
                          (rw bit (check_record-ok r rest i plain)))))))))))

-- Records one after the other.
data Records : List DirectoryRecord → Bytes → Type 0 where
  end : Records [] []
  record_of :
      {r : DirectoryRecord} {rs : List DirectoryRecord} {enc rest : Bytes}
      → InRange r
      → Record r enc
      → Records rs rest
      → Records (r ∷ rs) (enc ++ rest)

length-Record : (r : DirectoryRecord) (enc : Bytes) → Record r enc → 1 ≤ length enc
length-Record r enc (attrs, e, valid, plain, is) =
    rw is (unfold encode_record in rw length-append (omega (arith, length-uvarint r.offset)))

module _ (k : String → Error) where
  parse_records_turn :
      (fuel : ℕ) (b rest : Bytes) (r : DirectoryRecord)
      → 0 < length b
      → directory_record (fresh k b) ≡ ok (r, fresh k rest)
      → parse_records (suc fuel) (fresh k b)
        ≡ (parse_records fuel (fresh k rest) >>= λ (rs, d). ok (r ∷ rs, d))
  unfolding parse_records
  parse_records_turn fuel b rest r h e = rw (lt→ltb 0 (length b) h) (rw e)

  parse_records-Records :
      (fuel : ℕ) (rs : List DirectoryRecord) (b : Bytes)
      → Records rs b
      → length b ≤ fuel
      → parse_records fuel (fresh k b) ≡ ok (rs, fresh k [])
  parse_records-Records zero [] b end h = unfold parse_records in refl
  parse_records-Records (suc fuel) [] b end h = unfold parse_records in refl
  parse_records-Records zero (r ∷ rs) b (record_of {enc = enc} {rest = rest} i is others) h =
      absurd (omega (arith, length-Record r enc is, length-append enc rest))
  parse_records-Records (suc fuel) (r ∷ rs) b (record_of {enc = enc} {rest = rest} i is others) h =
      let long = length-Record r enc is in
      let size = length-append enc rest in
      parse_records_turn fuel (enc ++ rest) rest r (omega arith)
        (directory_record-encode k r enc rest i is)
      ∙ rw (parse_records-Records fuel rs rest others (omega arith))

append_records-Records :
    (dir out : Bytes) (rs : List DirectoryRecord)
    → All InRange rs
    → append_records dir rs ≡ ok out
    → (b : Bytes) × (out ≡ dir ++ b) × Records rs b
unfolding append_records
append_records-Records dir out [] i h = ([], cc (h, append-nil dir), end)
append_records-Records dir out (r ∷ rs) (i, is) h =
    let (next, e, e') = >>=-eq-ok (append_directory_record dir r) _ h in
    let (enc, split, one) = append_directory_record_sound dir next r e in
    let (b, split', others) = append_records-Records next out rs is e' in
    (enc ++ b, cc (split, split', append_assoc dir enc b), record_of i one others)

-- Records whose fields fit their Go types, with known buckets and codecs, appended one by one to
-- a new directory with no error, are exactly what ParseDirectory decodes, if the directory is no
-- longer than MaxDirectorySize.
pub parse_directory-append :
    (rs : List DirectoryRecord) (dir : Bytes)
    → All InRange rs
    → append_records directory_magic rs ≡ ok dir
    → length dir ≤ max_directory_size
    → parse_directory dir ≡ ok rs
unfolding parse_directory
parse_directory-append rs dir i h fits =
    let (b, split, records) = append_records-Records directory_magic dir rs i h in
    let size = length-append directory_magic b in
    let whole : length dir ≡ length (directory_magic ++ b) = ap (length {A = ℕ}) split in
    rw split (
      rw
        (
          le→ltb max_directory_size (length (directory_magic ++ b)) (omega arith),
          has_prefix-append directory_magic b,
          drop-append_eq 8 directory_magic b refl,
        )
        (rw (
          parse_records-Records Error.malformed_directory (length (directory_magic ++ b)) rs b
            records (omega arith))))
