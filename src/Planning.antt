-- ===== src/Planning.antt =====
-- io/solid.go: which files share solid groups (planSolid), and how a group is packed and sealed.
pub mod Plan
pub mod Packs
pub mod Listed
pub mod Candidates
use sarc.Prelude.{
  ℕ, ◌+◌, ◌-◌, ◌*◌, ◌^◌, ◌≡◌, Bool, true, false, Option, some, none, List, [], ◌∷◌, ◌++◌, not, ◌||◌,
  ◌&&◌, String, ltb, ◌==◌, ◌!=◌, leb, take, ◌%◌, ◌/◌, if◌then◌else◌, length,
}
use sarc.Prelude.Int.{ℤ, pos}
use sarc.Result.{ok, err}
use sarc.Result
use sarc.Bytes.{Bytes}
use sarc.Attributes.{Attributes, append_attributes, kind_regular}
use sarc.Solid.{
  SolidMember, solid_member_max_size, max_solid_stream_size, solid_record_size, append_solid_record,
}
use sarc.Reader.{ArchiveError, recoverable, read_failed, Reading, pure, ◌>>=◌}
use sarc.Metadata.{codec_none, codec_zstd}
use sarc.Crypto.{Primitives}
use sarc.Keys.{KeySchedule}
use sarc.Format.{FileEntry, entry_type_solid}
use sarc.Writer.Progress.{stored_size}
use sarc.Frames.{seal_payload_entry}

-- `compressionProbeSize`, `compressionMinSavingsPercent`
abbrev pub compression_probe_size : ℕ
compression_probe_size = 64 * 1024

abbrev pub compression_min_savings_percent : ℕ
compression_min_savings_percent = 5

-- What os.Stat of a path returns.
pub record FileStat : Type 0 where
  pub is_regular : Bool
  pub size : ℕ

-- `inputFile`; its path is what os.Stat of it returned when the archive was planned: none is an error.
pub record PlanFile : Type 0 where
  pub name : Bytes
  pub attributes : Attributes
  pub stat : Option FileStat

-- `solidPlan`
pub record SolidPlan : Type 0 where
  pub individual : List PlanFile
  pub groups : List (List PlanFile)

-- `attributesSize`
unfoldable pub attributes_size : Attributes → ℕ
attributes_size a = elim (append_attributes [] a) [ ok b ↦ length b | _ ↦ 0 ]

unfoldable pub candidate_with : PlanFile → Option FileStat → Option ℕ
candidate_with file none = none
candidate_with file (some info) =
    if (file.attributes.kind != kind_regular)
      || (not info.is_regular || ltb solid_member_max_size info.size)
    then none
    else some (solid_record_size (length file.name) (attributes_size file.attributes) info.size)

-- `solidCandidate`
unfoldable pub solid_candidate : PlanFile → Option ℕ
solid_candidate file = candidate_with file file.stat

-- path.Ext of Go's library: from the last dot behind the last slash. `found` starts at the last dot so far.
unfoldable pub ext_from : Bytes → Bytes → Bytes
ext_from found [] = found
ext_from found (c ∷ cs) =
    ext_from (if c == b'/' then [] else if c == b'.' then c ∷ cs else found) cs

-- Go's `<` on strings
unfoldable pub string_less : Bytes → Bytes → Bool
string_less xs [] = false
string_less [] (y ∷ ys) = true
string_less (x ∷ xs) (y ∷ ys) =
    let rest = string_less xs ys in if ltb x y then true else if ltb y x then false else rest

-- `candidate`
pub record Candidate : Type 0 where
  pub file : PlanFile
  pub ext : Bytes
  pub record_size : ℕ

-- the stable sort by `ext` that sort.SliceStable returns
unfoldable pub insert : Candidate → List Candidate → List Candidate
insert c [] = c ∷ []
insert c (d ∷ ds) =
    let rest = insert c ds in if string_less d.ext c.ext then d ∷ rest else c ∷ d ∷ ds

unfoldable pub sort_by_ext : List Candidate → List Candidate
sort_by_ext [] = []
sort_by_ext (c ∷ cs) = insert c (sort_by_ext cs)

-- The state of the last loop of `planSolid`.
pub record Packing : Type 0 where
  pub plan : SolidPlan
  pub group : List PlanFile
  pub group_size : ℕ

unfoldable pub flushed : SolidPlan → List PlanFile → SolidPlan
flushed plan [] = plan
flushed plan (f ∷ []) = record plan { individual = plan.individual ++ f ∷ [] }
flushed plan (f ∷ g ∷ fs) = record plan { groups = plan.groups ++ (f ∷ g ∷ fs) ∷ [] }

-- `flush`
unfoldable pub flush : Packing → Packing
flush s = record { plan = flushed s.plan s.group; group = []; group_size = 0 }

unfoldable pub join_group : Packing → Candidate → Packing
join_group s c = record s {
  group = s.group ++ c.file ∷ [];
  group_size = s.group_size + c.record_size;
}

-- a turn of the loop
unfoldable pub pack : Packing → Candidate → Packing
pack s c =
    join_group (if ltb max_solid_stream_size (s.group_size + c.record_size) then flush s else s) c

unfoldable pub pack_all : Packing → List Candidate → Packing
pack_all s [] = s
pack_all s (c ∷ cs) = pack_all (pack s c) cs

-- `lower` is strings.ToLower.
module _ (lower : Bytes → Bytes) where
  -- the first loop of `planSolid`: the files that stay individual, and the candidates
  unfoldable pub sorted_out :
      PlanFile → Option ℕ → List PlanFile × List Candidate → List PlanFile × List Candidate
  sorted_out f none (individual, candidates) = (f ∷ individual, candidates)
  sorted_out f (some size) (individual, candidates) = (
    individual,
    record { file = f; ext = lower (ext_from [] f.name); record_size = size } ∷ candidates,
  )

  unfoldable pub sort_out : List PlanFile → List PlanFile × List Candidate
  sort_out [] = ([], [])
  sort_out (f ∷ fs) = sorted_out f (solid_candidate f) (sort_out fs)

  -- `planSolid`
  unfoldable pub plan_solid : List PlanFile → SolidPlan
  plan_solid files =
      let (individual, candidates) = sort_out files in
      (flush (
        pack_all
          (record {
            plan = record { individual = individual; groups = [] };
            group = [];
            group_size = 0;
          })
          (sort_by_ext candidates))).plan

-- `solidMemberResult`, less its path
pub record SolidMemberResult : Type 0 where
  pub name : Bytes
  pub attributes : Attributes
  pub size : ℕ
  pub failed : Option ArchiveError
  pub codec : ℕ
  pub stored : ℕ

-- A file when it is packed: what opening and reading it delivers, or none on an error.
pub record MemberFile : Type 0 where
  pub name : Bytes
  pub attributes : Attributes
  pub contents : Option Bytes

abbrev failure : MemberFile → String → SolidMemberResult
failure file what = record {
  name = file.name;
  attributes = file.attributes;
  size = 0;
  failed = some (recoverable read_failed what);
  codec = 0;
  stored = 0;
}

abbrev pub member_of : MemberFile → Bytes → SolidMember
member_of file contents = record {
  name = file.name;
  attributes = file.attributes;
  contents = contents;
}

-- the rest of `appendSolidMember` after AppendSolidRecord
unfoldable pub appended_member :
    Bytes → MemberFile → Bytes → Result.Result Bytes → Bytes × SolidMemberResult
appended_member stream file contents (ok out) = (
  out,
  record {
    name = file.name;
    attributes = file.attributes;
    size = length contents;
    failed = none;
    codec = 0;
    stored = 0;
  },
)
appended_member stream file contents _ = (stream, failure file "unsupported file name")

unfoldable pub append_read_member : Bytes → MemberFile → Option Bytes → Bytes × SolidMemberResult
append_read_member stream file none = (stream, failure file "open, stat or read file")
append_read_member stream file (some contents) =
    if ltb solid_member_max_size (length contents)
      || ltb max_solid_stream_size (
          length stream
          + solid_record_size (length file.name) (attributes_size file.attributes)
              (length contents))
    then (stream, failure file "file changed size during archive")
    else appended_member stream file contents (append_solid_record stream (member_of file contents))

-- `appendSolidMember`
abbrev pub append_solid_member : Bytes → MemberFile → Bytes × SolidMemberResult
append_solid_member stream file = append_read_member stream file file.contents

-- the loop of `buildSolidEntry`
unfoldable pub pack_members : Bytes → List MemberFile → Bytes × List SolidMemberResult
pack_members stream [] = (stream, [])
pack_members stream (f ∷ fs) =
    let (next, r) = append_solid_member stream f in
    let (end, rs) = pack_members next fs in (end, r ∷ rs)

-- `CompressionMode`, and `compressionPolicy` as far as solid groups need it; a compressor that is nil is
-- none.
pub data CompressionMode : Type 0 where
  never : CompressionMode
  automatic : CompressionMode
  always : CompressionMode

pub record CompressionPolicy : Type 0 where
  pub mode : CompressionMode
  pub solid_compressor : Option (Bytes → Bytes)
  pub probe_compress : Bytes → Bytes

-- `codecFor`; `skip` is whether the name's extension is among incompressibleExtensions
unfoldable pub codec_for : CompressionPolicy → CompressionMode → Bool → Bytes → ℕ
codec_for policy always skip probe = codec_zstd
codec_for policy automatic skip probe =
    if skip || length probe == 0
    then codec_none
    else if leb (length (policy.probe_compress probe) * 100)
        (length probe * (100 - compression_min_savings_percent))
    then codec_zstd
    else codec_none
codec_for policy never skip probe = codec_none

unfoldable pub codec_with : CompressionPolicy → Option (Bytes → Bytes) → Bytes → ℕ
codec_with policy none stream = codec_none
codec_with policy (some compress) stream =
    codec_for policy policy.mode false (take compression_probe_size stream)

-- `solidCodecFor`, whose name "" has no extension
abbrev pub solid_codec_for : CompressionPolicy → Bytes → ℕ
solid_codec_for policy stream = codec_with policy policy.solid_compressor stream

-- the payload of `sealSolidEntry`
unfoldable pub compressed_with : Option (Bytes → Bytes) → ℕ → Bytes → Bytes
compressed_with none codec stream = stream
compressed_with (some compress) codec stream =
    if codec == codec_zstd then compress stream else stream

abbrev pub solid_payload : CompressionPolicy → Bytes → Bytes
solid_payload policy stream =
    compressed_with policy.solid_compressor (solid_codec_for policy stream) stream

-- whether `packed` is not 0
unfoldable pub any_packed : List SolidMemberResult → Bool
any_packed [] = false
any_packed (r ∷ rs) = elim r.failed [ none ↦ true | some e ↦ any_packed rs ]

-- the last loop of `buildSolidEntry`
unfoldable pub with_stored : ℕ → ℕ → ℕ → List SolidMemberResult → List SolidMemberResult
with_stored codec stored stream_len [] = []
with_stored codec stored stream_len (r ∷ rs) =
    record r { codec = codec; stored = (r.size * stored) % 2 ^ 64 / stream_len }
    ∷ with_stored codec stored stream_len rs

module _ (p : Primitives) (keys : KeySchedule) (policy : CompressionPolicy) where
  -- `sealSolidEntry`, less the codec that it returns
  unfoldable pub seal_solid_entry : Bytes → Bytes → Bytes → Reading FileEntry
  seal_solid_entry salt nonce stream =
      seal_payload_entry p keys salt nonce entry_type_solid (solid_codec_for policy stream)
        (solid_payload policy stream) stream

  unfoldable pub built_entry :
      Bytes
      → Bytes
      → Bytes
      → List SolidMemberResult
      → Reading (Option FileEntry × List SolidMemberResult)
  built_entry salt nonce stream results =
      if any_packed results
      then (do
        entry ← seal_solid_entry salt nonce stream
        pure (
          some entry,
          with_stored (solid_codec_for policy stream) (stored_size entry.data_blocks % 2 ^ 64)
              (length stream) results,
        ))
      else pure (none, results)

  -- `buildSolidEntry`, with the salt and the nonce of the metadata that are drawn
  unfoldable pub build_solid_entry :
      Bytes → Bytes → List MemberFile → Reading (Option FileEntry × List SolidMemberResult)
  build_solid_entry salt nonce files =
      let (stream, results) = pack_members [] files in built_entry salt nonce stream results
