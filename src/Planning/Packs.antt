-- ===== src/Planning/Packs.antt =====
-- Packing a group and sealing it: the entry lists as the members that could be packed.
use sarc.Prelude.{
  take, subst, ℕ, ◌+◌, ◌%◌, ◌^◌, ◌≤◌, ◌≡◌, refl, sym, ap, ◌∙◌, ◌⊎◌, inl, inr, Bool, true, false,
  ◌||◌, Option, some, none, List, [], ◌∷◌, ◌++◌, All, arith, length, ltb, Bool-cases,
}
use sarc.Result.{ok, err, panic}
use sarc.Result
use sarc.Bytes.{Bytes}
use sarc.Attributes.RoundTrip as AttributesRoundTrip
use sarc.Metadata.{codec_none, codec_zstd}
use sarc.Solid.{
  SolidMember, append_solid_record, append_members, solid_record_size, max_solid_stream_size,
  solid_member_max_size,
}
use sarc.Solid.RoundTrip as SolidRoundTrip
use sarc.Solid.RoundTrip.{append_solid_record_sound, append_solid_record-size}
use sarc.Crypto.{Primitives, salt_size, nonce_size}
use sarc.Keys.{KeySchedule}
use sarc.Format.{FileEntry, entry_type_solid}
use sarc.Writer.Layout
use sarc.Writer.Progress.{stored_size}
use sarc.Reader.{ArchiveError, Fallible, got, on_bind}
use sarc.Extractor.Entries.Sealed.{head_bytes}
use sarc.Extractor.Listing.{Decoders, ListResult, list_members, list_entry}
use sarc.Extractor.Listing.Sealed.{IsReadable}
use sarc.EndToEnd.{IsEncoded, list_entry-seal_payload_entry}
use sarc.Planning.Listed.{AreListed, list_members-AreListed}
use sarc.Planning.{
  MemberFile, SolidMemberResult, member_of, attributes_size, appended_member, append_read_member,
  append_solid_member, pack_members, CompressionPolicy, codec_with, solid_codec_for,
  compressed_with, solid_payload, any_packed, with_stored, seal_solid_entry, built_entry,
  build_solid_entry, CompressionMode, never, automatic, always, codec_for, compression_probe_size,
}

-- Files, what packing them reported, and the members that it packed.
pub data Packs : List MemberFile → List SolidMemberResult → List SolidMember → Type 0 where
  packs_none : Packs [] [] []
  packed :
      {f : MemberFile} {fs : List MemberFile} {r : SolidMemberResult} {rs : List SolidMemberResult}
      {ms : List SolidMember} (contents : Bytes)
      → f.contents ≡ some contents
      → r.failed ≡ none
      → r.size ≡ length contents
      → length contents ≤ solid_member_max_size
      → Packs fs rs ms
      → Packs (f ∷ fs) (r ∷ rs) (member_of f contents ∷ ms)
  left_out :
      {f : MemberFile} {fs : List MemberFile} {r : SolidMemberResult} {rs : List SolidMemberResult}
      {ms : List SolidMember} (e : ArchiveError)
      → r.failed ≡ some e
      → Packs fs rs ms
      → Packs (f ∷ fs) (r ∷ rs) ms

-- All results report this codec.
abbrev pub ReportCodec : ℕ → List SolidMemberResult → Type 0
ReportCodec codec rs = All (λ (r : SolidMemberResult). r.codec ≡ codec) rs

with_stored-ReportCodec :
    (codec stored n : ℕ) (rs : List SolidMemberResult)
    → ReportCodec codec (with_stored codec stored n rs)
unfolding with_stored
with_stored-ReportCodec codec stored n [] = tt
with_stored-ReportCodec codec stored n (r ∷ rs) = (refl, with_stored-ReportCodec codec stored n rs)

-- What a turn of the loop does: it appends a record that fits, or leaves the stream alone.
abbrev Turn : Bytes → MemberFile → Bytes × SolidMemberResult → Type 0
Turn stream f (out, r) =
    ((contents : Bytes) × (f.contents ≡ some contents)
      × (r.failed ≡ none)
      × (r.size ≡ length contents)
      × (length contents ≤ solid_member_max_size)
      × (append_solid_record stream (member_of f contents) ≡ ok out)
      × (length out ≤ max_solid_stream_size))
    ⊎ ((e : ArchiveError) × (r.failed ≡ some e) × (out ≡ stream))

-- A record that is appended is as long as the test counts.
length-appended :
    (stream out : Bytes) (m : SolidMember)
    → append_solid_record stream m ≡ ok out
    → length out
      ≡ length stream
        + solid_record_size (length m.name) (attributes_size m.attributes) (length m.contents)
unfolding attributes_size
length-appended stream out m h =
    let (enc, _, (attrs, e, _, _, _)) = append_solid_record_sound stream out m h in
    append_solid_record-size stream out attrs m e h
    ∙ ap (λ n. length stream + solid_record_size (length m.name) n (length m.contents))
        (sym (rw (e, attributes_size) refl))

appended_member-Turn :
    (stream : Bytes) (f : MemberFile) (contents : Bytes) (r : Result.Result Bytes)
    → f.contents ≡ some contents
    → append_solid_record stream (member_of f contents) ≡ r
    → length contents ≤ solid_member_max_size
    → length stream
        + solid_record_size (length f.name) (attributes_size f.attributes) (length contents)
      ≤ max_solid_stream_size
    → Turn stream f (appended_member stream f contents r)
unfolding appended_member
appended_member-Turn stream f contents (ok out) read is small fits = inl (
  contents,
  read,
  refl,
  refl,
  small,
  is,
  omega (arith, length-appended stream out (member_of f contents) is, fits),
)
appended_member-Turn stream f contents (err e) read is small fits = inr (_, refl, refl)
appended_member-Turn stream f contents panic read is small fits = inr (_, refl, refl)

both_within : (a b c d : ℕ) → (ltb a b || ltb c d) ≡ false → (b ≤ a) × (d ≤ c)
both_within a b c d h = ground arith

append_read_member-Turn :
    (stream : Bytes) (f : MemberFile) (read : Option Bytes)
    → f.contents ≡ read
    → Turn stream f (append_read_member stream f read)
unfolding append_read_member
append_read_member-Turn stream f none read = inr (_, refl, refl)
append_read_member-Turn stream f (some contents) read =
    let size =
      length stream
      + solid_record_size (length f.name) (attributes_size f.attributes) (length contents) in
    elim (Bool-cases
      (ltb solid_member_max_size (length contents) || ltb max_solid_stream_size size)) [
        | inl over ↦ rw over (inr (_, refl, refl))
        | inr within ↦
            let (small, fits) =
              both_within solid_member_max_size (length contents) max_solid_stream_size size
                within in
            rw within (appended_member-Turn stream f contents _ read refl small fits)
      ]

pack_members-Packs :
    (stream : Bytes) (files : List MemberFile)
    → length stream ≤ max_solid_stream_size
    → (ms : List SolidMember) × Packs files (pack_members stream files).1 ms
      × (append_members stream ms ≡ ok (pack_members stream files).0)
      × (length (pack_members stream files).0 ≤ max_solid_stream_size)
unfolding pack_members append_members
pack_members-Packs stream [] small = ([], packs_none, refl, small)
pack_members-Packs stream (f ∷ fs) small = elim (append_read_member-Turn stream f f.contents refl) [
  | inl (contents, read, passed, size, most, is, fits) ↦
      let (ms, packs, appended, less) =
        pack_members-Packs (append_solid_member stream f).0 fs fits in
      (member_of f contents ∷ ms, packed contents read passed size most packs, rw is appended, less)
  | inr (e, failed, same) ↦
      let (ms, packs, appended, less) =
        pack_members-Packs (append_solid_member stream f).0 fs
          (omega (arith, ap (length {A = ℕ}) same, small)) in
      (ms, left_out e failed packs, ap (λ s. append_members s ms) (sym same) ∙ appended, less)
]

-- A group in which something was packed has a member.
any_packed-member :
    (files : List MemberFile) (rs : List SolidMemberResult) (ms : List SolidMember)
    → Packs files rs ms
    → any_packed rs ≡ true
    → (m : SolidMember) × (rest : List SolidMember) × (ms ≡ m ∷ rest)
unfolding any_packed
any_packed-member files rs ms packs_none h = absurd (cc h)
any_packed-member files (r ∷ rs) ms (packed contents read passed size most packs) h = (_, _, refl)
any_packed-member (f ∷ fs) (r ∷ rs) ms (left_out e failed packs) h =
    any_packed-member fs rs ms packs (rw failed at h)

with_stored-Packs :
    (codec stored n : ℕ) {files : List MemberFile} {rs : List SolidMemberResult}
    {ms : List SolidMember}
    → Packs files rs ms
    → Packs files (with_stored codec stored n rs) ms
unfolding with_stored
with_stored-Packs codec stored n packs_none = packs_none
with_stored-Packs codec stored n (packed contents read passed size most packs) =
    packed contents read passed size most (with_stored-Packs codec stored n packs)
with_stored-Packs codec stored n (left_out e failed packs) =
    left_out e failed (with_stored-Packs codec stored n packs)

-- The members have the ranges of the files.
Packs-InRange :
    {files : List MemberFile} {rs : List SolidMemberResult} {ms : List SolidMember}
    → Packs files rs ms
    → All (λ (f : MemberFile). AttributesRoundTrip.InRange f.attributes) files
    → All SolidRoundTrip.InRange ms
Packs-InRange packs_none h = tt
Packs-InRange (packed contents read passed size most packs) (r, h) =
    (record { attributes = r; contents = omega (arith, most) }, Packs-InRange packs h)
Packs-InRange (left_out e failed packs) (r, h) = Packs-InRange packs h

-- What the solid compressor makes of a stream, the solid decompressor decodes.
abbrev pub IsDecoded : Option (Bytes → Bytes) → Decoders → Type 0
IsDecoded none decs = Unit
IsDecoded (some compress) decs = (b : Bytes) → decs.solid (compress b) ≡ some b

codec_for_cases :
    (policy : CompressionPolicy) (mode : CompressionMode) (skip : Bool) (probe : Bytes)
    → (codec_for policy mode skip probe ≡ codec_none)
      ⊎ (codec_for policy mode skip probe ≡ codec_zstd)
unfolding codec_for
codec_for_cases policy always skip probe = inr refl
codec_for_cases policy never skip probe = inl refl
codec_for_cases policy automatic skip probe = ground arith

solid_payload-IsEncoded :
    (policy : CompressionPolicy) (decs : Decoders) (stream : Bytes)
    → (compressor : Option (Bytes → Bytes)) → IsDecoded compressor decs
    → IsEncoded decs
        (codec_with policy compressor stream)
        (compressed_with compressor (codec_with policy compressor stream) stream)
        stream
unfolding codec_with compressed_with
solid_payload-IsEncoded policy decs stream none h = inl (refl, refl)
solid_payload-IsEncoded policy decs stream (some compress) h =
    elim (codec_for_cases policy policy.mode false (take compression_probe_size stream)) [
      | inl plain ↦ inl (plain, rw plain refl)
      | inr zstd ↦ inr (zstd, rw zstd (h stream))
    ]

-- The entry that was built, if one was, is the sealed stream.
on_built_entry :
    (p : Primitives) (keys : KeySchedule) (policy : CompressionPolicy) (salt nonce stream : Bytes)
    (results rs : List SolidMemberResult) (random left : Bytes) (e : FileEntry)
    → built_entry p keys policy salt nonce stream results random ≡ (got (some e, rs), left)
    → (any_packed results ≡ true)
      × (seal_solid_entry p keys policy salt nonce stream random ≡ (got e, left))
      × (stored : ℕ) × (with_stored (solid_codec_for policy stream) stored (length stream) results
          ≡ rs)
unfolding built_entry
on_built_entry p keys policy salt nonce stream results rs random left e h =
    elim (Bool-cases (any_packed results)) [
      | inl some_packed ↦
          on_bind (seal_solid_entry p keys policy salt nonce stream random) _ (rw some_packed at h)
            λ e1 b sealed h1.
              let same : e1 ≡ e = cc h1 in
              let at_end : b ≡ left = cc h1 in
              (some_packed, cc (sealed, same, at_end), stored_size e1.data_blocks % 2 ^ 64, cc h1)
      | inr nothing ↦
          let h' : ◌≡◌ {A = Fallible (Option FileEntry × List SolidMemberResult) × Bytes}
              (got (none, results), random) (got (some e, rs), left) =
            rw nothing at h in
          absurd (cc h')
    ]

module _ (p : Primitives) (keys : KeySchedule) (good : IsReadable p keys) (decs : Decoders)
    (policy : CompressionPolicy) (decodes : IsDecoded policy.solid_compressor decs) where
  -- An entry that buildSolidEntry returned lists, whatever follows it, as the members that it reports as
  -- packed, in their order: a member's listing has its name, the size of the contents that were read,
  -- its kind, mode, link target and time, the group's codec, which is the one that is reported, and no
  -- error; the reader stands behind the entry.
  -- The keys are of a later version than Version1, opening a sealed text gives it back and HMACs have 32
  -- bytes, the solid decompressor decodes what the solid compressor makes, the attributes of the files
  -- fit their Go types, and the salt and the nonce have their sizes.
  pub list_entry-build_solid_entry :
      (salt meta_nonce : Bytes) (files : List MemberFile) (random left rest : Bytes) (e : FileEntry)
      (rs : List SolidMemberResult)
      → length salt ≡ salt_size
      → length meta_nonce ≡ nonce_size
      → All (λ (f : MemberFile). AttributesRoundTrip.InRange f.attributes) files
      → build_solid_entry p keys policy salt meta_nonce files random ≡ (got (some e, rs), left)
      → (codec : ℕ) × (ms : List SolidMember) × (ls : List ListResult) × Packs files rs ms
        × ReportCodec codec rs
        × AreListed codec ms ls
        × (list_entry p decs keys entry_type_solid (head_bytes e ++ (Layout.entry_body e ++ rest))
            ≡ (got ls, rest))
  unfolding build_solid_entry seal_solid_entry
  list_entry-build_solid_entry salt meta_nonce files random left rest e rs hs hn ranges h =
      let (ms, packs, appended, small) = pack_members-Packs [] files (omega arith) in
      let stream = (pack_members [] files).0 in
      let (some_packed, sealed, stored, reported) =
        on_built_entry p keys policy salt meta_nonce stream (pack_members [] files).1 rs random left
          e h in
      let (m, others, is) =
        any_packed-member files (pack_members [] files).1 ms packs some_packed in
      let listed =
        list_entry-seal_payload_entry p keys good decs salt meta_nonce
          (solid_codec_for policy stream) (solid_payload policy stream) stream random left rest m
          others e hs hn
          (subst (λ ms. All SolidRoundTrip.InRange ms) is (Packs-InRange packs ranges))
          (ap (append_members []) (sym is) ∙ appended) small
          (solid_payload-IsEncoded policy decs stream policy.solid_compressor decodes) sealed in
      (
        solid_codec_for policy stream,
        ms,
        list_members (solid_codec_for policy stream) (length (solid_payload policy stream))
            (length stream) ms,
        subst (λ rs. Packs files rs ms) reported
            (with_stored-Packs (solid_codec_for policy stream) stored (length stream) packs),
        subst (λ rs. ReportCodec (solid_codec_for policy stream) rs) reported
            (with_stored-ReportCodec (solid_codec_for policy stream) stored (length stream)
              (pack_members [] files).1),
        list_members-AreListed _ _ _ ms,
        listed
            ∙ ap
                (λ ms. (
                  got (
                      list_members (solid_codec_for policy stream)
                        (length (solid_payload policy stream)) (length stream) ms),
                  rest,
                ))
                (sym is),
      )
