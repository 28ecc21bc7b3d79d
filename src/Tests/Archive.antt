-- ===== src/Tests/Archive.antt =====
-- Examples of volume headers, signature blocks and recipient blocks.
use sarc.Prelude.{
  ◌-◌, ◌≡◌, refl, List, [], ◌∷◌, ◌++◌, length, take, drop, replicate, true, some, arith,
}
use sarc.Result.{ok}
use sarc.Bytes.{Bytes, AreBytes}
use sarc.Bytes.LittleEndian.{le, from_le}
use sarc.Bytes.Slice.{bytes_eq}
use sarc.Volume.{VolumeHeader, marshal, parse_volume_header}
use sarc.Volume.RoundTrip.{InRange, parse_volume_header-marshal, marshal-parse_volume_header}
use sarc.Signature.{
  signature_magic, signature_trailer_size, append_signature_block, parse_signature_trailer,
}
use sarc.Signature.Locate.{parse_signature_trailer-append}
use sarc.Recipients.{
  Stanza, encode_block, encode_stanzas, encode_stanza, of_kind, parse_recipient_block,
}
use sarc.Recipients.Block.{IsBlock, parse_recipient_block-encode, encode-parse_recipient_block}

abbrev some_header : VolumeHeader
some_header = record { archive_id = replicate 16 3; index = 2; last = true; payload_len = 1000 }

some_header-InRange : InRange some_header
unfolding replicate
some_header-InRange = record {
  archive_id = refl;
  index = omega arith;
  first = omega arith;
  payload_len = omega arith;
}

parse_volume_header-marshal_example : parse_volume_header (marshal some_header) ≡ ok some_header
parse_volume_header-marshal_example = parse_volume_header-marshal some_header some_header-InRange

header_bytes : AreBytes (marshal some_header)
unfolding marshal le replicate
header_bytes = omega arith

header_read : parse_volume_header (marshal some_header) ≡ ok some_header
header_read = parse_volume_header-marshal some_header some_header-InRange

marshal-parse_volume_header_example :
    InRange some_header × (marshal some_header ≡ marshal some_header)
marshal-parse_volume_header_example =
    marshal-parse_volume_header (marshal some_header) some_header header_bytes header_read

abbrev some_archive : Bytes
some_archive = 1 ∷ 2 ∷ 3 ∷ []

abbrev some_signature : Bytes
some_signature = 8 ∷ 9 ∷ []

abbrev signed : Bytes
signed = some_archive ++ (some_signature ++ (2 ∷ 0 ∷ 0 ∷ 0 ∷ signature_magic))

signed_is : append_signature_block some_archive some_signature ≡ ok signed
unfolding append_signature_block le
signed_is = refl

parse_signature_trailer-append_example :
    (body trailer : Bytes) × (signed ≡ body ++ trailer)
    × (length trailer ≡ signature_trailer_size)
    × (parse_signature_trailer trailer ≡ some 2)
    × (take (length body - 2) body ≡ some_archive)
    × (drop (length body - 2) body ≡ some_signature)
parse_signature_trailer-append_example =
    parse_signature_trailer-append some_archive some_signature signed signed_is

trailer_is : parse_signature_trailer (2 ∷ 0 ∷ 0 ∷ 0 ∷ signature_magic) ≡ some 2
unfolding parse_signature_trailer take drop from_le bytes_eq
trailer_is = refl

-- an age stanza and a password stanza
abbrev some_stanzas : List Stanza
some_stanzas = record { kind = 2; body = 5 ∷ [] } ∷ record { kind = 1; body = replicate 96 4 } ∷ []

some_stanzas-IsBlock : IsBlock some_stanzas
unfolding of_kind replicate
some_stanzas-IsBlock =
    (omega arith, omega arith, (refl, refl, omega arith, (refl, refl, omega arith, tt)))

parse_recipient_block-encode_example :
    parse_recipient_block (encode_block some_stanzas) ≡ ok some_stanzas
parse_recipient_block-encode_example =
    parse_recipient_block-encode some_stanzas some_stanzas-IsBlock

block_read : parse_recipient_block (encode_block some_stanzas) ≡ ok some_stanzas
block_read = parse_recipient_block-encode some_stanzas some_stanzas-IsBlock

block_bytes : AreBytes (encode_block some_stanzas)
unfolding encode_block encode_stanzas encode_stanza le replicate
block_bytes = omega arith

encode-parse_recipient_block_example :
    IsBlock some_stanzas × (encode_block some_stanzas ≡ encode_block some_stanzas)
encode-parse_recipient_block_example =
    encode-parse_recipient_block (encode_block some_stanzas) some_stanzas block_bytes block_read
