-- ===== src/Signature.antt =====
-- archive/signature.go: the block that a signed archive carries behind its footer.
pub mod Locate
use sarc.Prelude.{ℕ, zero, suc, ◌+◌, ◌-◌, ◌*◌, ◌/◌, ◌%◌, ◌^◌, ◌≤◌, ◌<◌, min}
use sarc.Prelude.{String, ◌≡◌, refl, sym, ap, ◌∙◌, subst, ◌≢◌, ◌⊎◌, inl, inr}
use sarc.Prelude.{Bool, true, false, ◌&&◌, ◌||◌, not, Option, none, some}
use sarc.Prelude.{List, [], ◌∷◌, ◌++◌, append-nil, append_assoc, arith}
use sarc.Prelude.{
  ltb, leb, ◌==◌, ◌!=◌, if◌then◌else◌, Bool-cases, ltb→lt, ltb→le, lt→ltb, le→ltb, ==→eq, eq→==,
}
use sarc.Prelude.{
  length, take, drop, replicate, All, length-append, length-replicate, All-append, append-All,
}
use sarc.Prelude.{take-append, drop-append, take-append-drop, length-take, length-drop}
use sarc.Bytes.{Bytes, IsByte, AreBytes}
use sarc.Bytes.LittleEndian.{
  le, from_le, read_le, length-le, le-AreBytes, from_le-le, from_le-lt, le-from_le,
}
use sarc.Bytes.LittleEndian.{read_le-le, read_le-le_end, read_le_then, on_read_le}
use sarc.Bytes.Slice.{cut, cut-append_eq, cut_total, cut_sound, cut-ne-panic, cut_then, on_cut}
use sarc.Bytes.Slice.{has_prefix, has_prefix-append, has_prefix_sound, nil_of_length}
use sarc.Bytes.Slice.{bytes_eq, bytes_eq_refl, bytes_eq→eq, take-append_eq, drop-append_eq}
use sarc.Result.{Result, Error, ok, err, panic, fail_if, ◌>>=◌, ◌>>◌}
use sarc.Result.{>>=-eq-ok, >>=-ne-panic, fail_if-eq-ok, fail_if-ne-panic, on_fail_if, fail_if_then}

abbrev pub signature_magic : Bytes
signature_magic = b'S' ∷ b'A' ∷ b'R' ∷ b'C' ∷ b'S' ∷ b'I' ∷ b'G' ∷ b'1' ∷ []

-- `SignatureTrailerSize`, `MaxSignatureSize`
abbrev pub signature_trailer_size : ℕ
signature_trailer_size = 4 + 8

abbrev pub max_signature_size : ℕ
max_signature_size = 16 * 1024

abbrev pub signature_trailer : Bytes → Bytes
signature_trailer signature = le 4 (length signature) ++ signature_magic

-- `AppendSignatureBlock`
unfoldable pub append_signature_block : Bytes → Bytes → Result Bytes
append_signature_block dst signature = do
  fail_if (length signature == 0 || ltb max_signature_size (length signature))
      (Error.failed "signature size")
  ok (dst ++ (signature ++ signature_trailer signature))

-- `ParseSignatureTrailer`; none is the source's (0, false).
unfoldable pub parse_signature_trailer : Bytes → Option ℕ
parse_signature_trailer tail =
    if length tail != signature_trailer_size || not (bytes_eq (drop 4 tail) signature_magic)
    then none
    else (let n = from_le (take 4 tail) in
        if n == 0 || ltb max_signature_size n then none else some n)
