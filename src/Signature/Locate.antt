-- ===== src/Signature/Locate.antt =====
-- A signature block is found again from the end of the file, and only where there is one.
use sarc.Prelude.{ℕ, ◌+◌, ◌-◌, ◌≤◌, ◌<◌}
use sarc.Prelude.{◌≡◌, refl, sym, ap, ◌∙◌}
use sarc.Prelude.{◌||◌, none, some}
use sarc.Prelude.{◌++◌, append_assoc, arith}
use sarc.Prelude.{ltb, ◌==◌}
use sarc.Prelude.{length, take, drop, replicate, length-append}
use sarc.Prelude.{drop-append_add}
use sarc.Bytes.{Bytes}
use sarc.Bytes.LittleEndian.{le, from_le, length-le, from_le-le}
use sarc.Bytes.Slice.{bytes_eq, bytes_eq_refl, bytes_eq→eq, take-append_eq, drop-append_eq}
use sarc.Result.{ok}
use sarc.Result.{on_fail_if}
use sarc.Signature.{signature_magic, signature_trailer_size, max_signature_size, signature_trailer}
use sarc.Signature.{append_signature_block, parse_signature_trailer}

trailer_found :
    (signature : Bytes)
    → 0 < length signature
    → length signature ≤ max_signature_size
    → parse_signature_trailer (signature_trailer signature) ≡ some (length signature)
unfolding parse_signature_trailer
trailer_found signature some_bytes fits =
    let n = length signature in
    let front = take-append_eq 4 (le 4 n) signature_magic (length-le 4 n) in
    let back = drop-append_eq 4 (le 4 n) signature_magic (length-le 4 n) in
    let value = from_le-le 4 n (omega arith) in
    rw (length-append (le 4 n) signature_magic, length-le 4 n, back, front, value)
      (rw (bytes_eq_refl signature_magic) (ground arith))

-- The last 12 bytes of what AppendSignatureBlock wrote give the signature's length; the
-- signature stands that far before them, behind all of the archive that it was appended to.
pub parse_signature_trailer-append :
    (archive signature out : Bytes)
    → append_signature_block archive signature ≡ ok out
    → (body trailer : Bytes) × (out ≡ body ++ trailer)
      × (length trailer ≡ signature_trailer_size)
      × (parse_signature_trailer trailer ≡ some (length signature))
      × (take (length body - length signature) body ≡ archive)
      × (drop (length body - length signature) body ≡ signature)
unfolding append_signature_block
parse_signature_trailer-append archive signature out h =
    on_fail_if (length signature == 0 || ltb max_signature_size (length signature)) _ _ h λ sized e.
      let whole : archive ++ (signature ++ signature_trailer signature) ≡ out = cc e in
      let size : length archive ≡ length (archive ++ signature) - length signature =
        omega (arith, length-append archive signature) in
      (
        archive ++ signature,
        signature_trailer signature,
        sym whole ∙ sym (append_assoc archive signature (signature_trailer signature)),
        rw (length-append (le 4 (length signature)) signature_magic, length-le) refl,
        trailer_found signature (ground arith) (ground arith),
        take-append_eq _ archive signature size,
        drop-append_eq _ archive signature size,
      )

-- A trailer that is accepted holds the magic and a length of 1 to 16384.
pub parse_signature_trailer_sound :
    (tail : Bytes) (n : ℕ)
    → parse_signature_trailer tail ≡ some n
    → (length tail ≡ signature_trailer_size)
      × (drop 4 tail ≡ signature_magic)
      × (from_le (take 4 tail) ≡ n)
      × (0 < n)
      × (n ≤ max_signature_size)
unfolding parse_signature_trailer
parse_signature_trailer_sound tail n h = (
  ground arith,
  bytes_eq→eq (drop 4 tail) signature_magic (ground arith),
  ground arith,
  ground arith,
  ground arith,
)

-- An unsigned archive ends with the zero reserved bytes of its footer, which are no trailer.
pub parse_signature_trailer_unsigned :
    (archive : Bytes)
    → parse_signature_trailer (drop (length archive + 20) (archive ++ replicate 32 0)) ≡ none
unfolding parse_signature_trailer replicate drop take bytes_eq
parse_signature_trailer_unsigned archive =
    ap parse_signature_trailer (drop-append_add archive (replicate 32 0) 20)
