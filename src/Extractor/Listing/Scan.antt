-- ===== src/Extractor/Listing/Scan.antt =====
-- Listing a whole archive: one result for each file, whatever entries are damaged.
use sarc.Prelude.{
  ℕ, zero, suc, ◌^◌, ◌<◌, ◌≡◌, ◌≢◌, refl, sym, ap, ◌∙◌, ◌⊎◌, inl, inr, true, false, ◌||◌, none,
  some, List, [], ◌∷◌, ◌++◌, append-nil, append_assoc, arith,
}
use sarc.Prelude.{◌==◌, length, length-append}
use sarc.Bytes.{Bytes}
use sarc.Bytes.LittleEndian.{from_le}
use sarc.Result
use sarc.Result.{ok}
use sarc.Crypto.{Primitives}
use sarc.Keys.{KeySchedule, version1, file_key}
use sarc.Metadata.{PlaintextMetadata}
use sarc.Solid.{SolidMember, parse_solid_stream}
use sarc.Format.{FileEntry, entry_type_file, entry_type_solid, entry_type_end}
use sarc.Writer.Layout
use sarc.Reader.{recoverable, auth_failed, got, read_full-append}
use sarc.Extractor.Framing.Skips.{IsBody}
use sarc.Extractor.Entries.{
  open_metadata, entry_turn, version2_entry_type, next_entry_type, decrypt_filename,
}
use sarc.Extractor.Entries.Sealed.{IsHead, IsSealed, head_bytes}
use sarc.Extractor.Listing.{
  ListResult, Decoders, Scanned, complete, solid_stream, list_members, file_result, decrypt_error,
  list_entry, listed, scan_turn, scan, scan_list,
}
use sarc.Extractor.Listing.Sealed.{
  IsReadable, sized_trailer, list_entry-solid, list_entry-file, list_entry-damaged,
}

from_le-one : (n : ℕ) → from_le (n ∷ []) ≡ n
unfolding from_le
from_le-one n = omega arith

entry_not_empty : (e : FileEntry) → 0 < length (Layout.entry e)
unfolding Layout.entry_head
entry_not_empty e = omega arith

-- the entries, one after the other
unfoldable pub entries_bytes : List FileEntry → Bytes
entries_bytes [] = []
entries_bytes (e ∷ es) = Layout.entry e ++ entries_bytes es

module _ (p : Primitives) (decs : Decoders) (keys : KeySchedule) where
  -- What an entry is listed as: a file, the members of a solid group, or an error where the metadata
  -- does not open.
  pub data Lists : FileEntry → List ListResult → Type 0 where
    a_file :
        {e : FileEntry} {rs : List ListResult} (pm : PlaintextMetadata)
        (payload plaintext name : Bytes)
        → e.entry_type ≡ entry_type_file
        → IsSealed p keys e pm payload plaintext
        → length plaintext < 2 ^ 64
        → decrypt_filename p pm.encrypted_filename (file_key p keys e.entry_salt) ≡ some name
        → rs
          ≡ file_result p decs keys pm name
              (length payload)
              (sized_trailer p (file_key p keys e.entry_salt) plaintext)
            ∷ []
        → Lists e rs
    a_group :
        {e : FileEntry} {rs : List ListResult} (pm : PlaintextMetadata) (payload stream : Bytes)
        (ms : List SolidMember)
        → e.entry_type ≡ entry_type_solid
        → IsSealed p keys e pm payload stream
        → length stream < 2 ^ 64
        → solid_stream decs pm.codec payload ≡ got stream
        → parse_solid_stream stream ≡ ok ms
        → rs ≡ list_members pm.codec (length payload) (length stream) ms
        → Lists e rs
    a_damaged :
        {e : FileEntry} {rs : List ListResult} (why : Result.Error)
        → (e.entry_type ≡ entry_type_file) ⊎ (e.entry_type ≡ entry_type_solid)
        → IsHead e
        → IsBody e
        → open_metadata p (file_key p keys e.entry_salt) e.metadata ≡ Result.err why
        → rs ≡ decrypt_error (recoverable auth_failed "decrypt metadata") ∷ []
        → Lists e rs

  -- some entries with what each is listed as
  pub data AllList : List FileEntry → List ListResult → Type 0 where
    lists_none : AllList [] []
    lists_more :
        {e : FileEntry} {es : List FileEntry} {rs rest all : List ListResult}
        → Lists e rs
        → AllList es rest
        → all ≡ rs ++ rest
        → AllList (e ∷ es) all

  entry_type_of :
      {e : FileEntry} {rs : List ListResult}
      → Lists e rs
      → (e.entry_type ≡ entry_type_file) ⊎ (e.entry_type ≡ entry_type_solid)
  entry_type_of (a_file pm payload plaintext name t s fits opens is) = inl t
  entry_type_of (a_group pm payload stream ms t s fits decodes parses is) = inr t
  entry_type_of (a_damaged why t head body refused is) = t

  -- A turn of the scan on such an entry adds its results, and goes on behind it.
  listed-Lists :
      IsReadable p keys
      → {e : FileEntry} {rs : List ListResult} → Lists e rs
      → (results : List ListResult) (b : Bytes) (k : List ListResult → Bytes → Scanned × Bytes)
      → listed p decs keys results
          (list_entry p decs keys e.entry_type (head_bytes e ++ (Layout.entry_body e ++ b)))
          k
        ≡ k (results ++ rs) b
  unfolding listed
  listed-Lists good {e} (a_file pm payload plaintext name t s fits opens is) results b k =
      let other : e.entry_type ≢ entry_type_solid = λ q. omega (arith, t, q) in
      rw
        (list_entry-file p keys good decs e pm payload plaintext b name e.entry_type other s fits
          opens)
        (ap (λ rs. k (results ++ rs) b) (sym is))
  listed-Lists good {e} (a_group pm payload stream ms t s fits decodes parses is) results b k =
      ap
        (λ t'.
          listed p decs keys results
            (list_entry p decs keys t' (head_bytes e ++ (Layout.entry_body e ++ b))) k)
        t
      ∙ rw (list_entry-solid p keys good decs e pm payload stream b ms s fits decodes parses)
          (ap (λ rs. k (results ++ rs) b) (sym is))
  listed-Lists good {e} (a_damaged why t head body refused is) results b k =
      rw (list_entry-damaged p keys good decs e why b e.entry_type head body refused)
        (ap (λ rs. k (results ++ rs) b) (sym is))

  -- The type byte of a file or a solid entry is returned.
  next_entry_type-entry :
      (t : ℕ) (b : Bytes)
      → keys.version ≢ version1
      → (t ≡ entry_type_file) ⊎ (t ≡ entry_type_solid)
      → next_entry_type p keys (t ∷ b) ≡ (got (some t), b)
  unfolding next_entry_type version2_entry_type entry_turn
  next_entry_type-entry t b later is =
      rw (not_first keys.version later)
        (rw (read_full-append 1 _ (t ∷ []) b refl) (rw (from_le-one t) (rw (known t is) refl)))
    where
      not_first : (v : ℕ) → v ≢ version1 → v == version1 ≡ false
      not_first v q = ground arith

      known :
          (n : ℕ)
          → (n ≡ entry_type_file) ⊎ (n ≡ entry_type_solid)
          → (n == entry_type_file || n == entry_type_solid) ≡ true
      known n (inl q) = ground arith
      known n (inr q) = ground arith

  -- The end marker ends the entries.
  next_entry_type-end :
      (b : Bytes)
      → keys.version ≢ version1
      → next_entry_type p keys (entry_type_end ∷ b) ≡ (got none, b)
  unfolding next_entry_type version2_entry_type entry_turn
  next_entry_type-end b later =
      rw (not_first keys.version later)
        (rw (read_full-append 1 _ (entry_type_end ∷ []) b refl) (unfold from_le in refl))
    where
      not_first : (v : ℕ) → v ≢ version1 → v == version1 ≡ false
      not_first v q = ground arith

  scan-entries :
      IsReadable p keys
      → (fuel : ℕ) (es : List FileEntry) (results rs : List ListResult) (b : Bytes) → AllList es rs
      → length (entries_bytes es) < fuel
      → scan p decs keys fuel results (entries_bytes es ++ (entry_type_end ∷ b))
        ≡ (complete (results ++ rs), b)
  unfolding scan entries_bytes scan_turn
  scan-entries good zero es results rs b all enough = absurd (omega arith)
  scan-entries good (suc fuel) [] results [] b lists_none enough =
      rw (next_entry_type-end b good.later) (rw (append-nil results) refl)
  scan-entries good (suc fuel) [] results (r ∷ rs) b all enough = elim all [ ]
  scan-entries good (suc fuel) (e ∷ es) results rs b (lists_more {rs = mine} {rest = rest} l all is)
        enough =
      let left = entries_bytes es ++ (entry_type_end ∷ b) in
      let shape : (Layout.entry e ++ entries_bytes es) ++ (entry_type_end ∷ b)
          ≡ e.entry_type ∷ (head_bytes e ++ (Layout.entry_body e ++ left)) =
        unfold Layout.entry_head in simp append_assoc in
      ap (λ s. scan_turn p decs keys results (next_entry_type p keys s) (scan p decs keys fuel))
        shape
      ∙ rw (next_entry_type-entry e.entry_type _ good.later (entry_type_of l)) (
          listed-Lists good l results left (scan p decs keys fuel)
          ∙ scan-entries good fuel es (results ++ mine) rest b all
              (omega (arith, length-append (Layout.entry e) (entries_bytes es), entry_not_empty e))
          ∙ ap (λ rs'. (complete rs', b))
              (append_assoc results mine rest ∙ ap (λ s. results ++ s) (sym is)))

  -- Where the keys are of a later version than Version1, opening a sealed text gives it back and HMACs
  -- have 32 bytes: entries that the writer wrote one after the
  -- other, each a sealed file, a sealed solid group, or one whose metadata does not open with the keys,
  -- are all listed, in their order, each group by its members and each entry that does not open by one
  -- error; the scan is complete, and the reader stands behind the end marker.
  pub scan_list-entries :
      (es : List FileEntry) (rs : List ListResult) (b : Bytes)
      → IsReadable p keys
      → AllList es rs
      → scan_list p decs keys (entries_bytes es ++ (entry_type_end ∷ b)) ≡ (complete rs, b)
  unfolding scan_list
  scan_list-entries es rs b good all =
      scan-entries good _ es [] rs b all
        (omega (arith, length-append (entries_bytes es) (entry_type_end ∷ b)))
