-- ===== src/SessionIndex/RoundTrip.antt =====
-- ParseSessionIndex reads back the index that Marshal wrote.
use sarc.Prelude.{ℕ, ◌+◌, ◌*◌, ◌%◌, ◌^◌, ◌≤◌}
use sarc.Prelude.{String, ◌≡◌, refl, sym, ap, ◌∙◌, ◌≢◌}
use sarc.Prelude.{true, false, not}
use sarc.Prelude.{List, [], ◌∷◌, ◌++◌, append-nil, append_assoc, arith}
use sarc.Prelude.{ltb, ◌==◌, ltb→le, le→ltb}
use sarc.Prelude.{length, All, length-append}
use sarc.Prelude.Int.{IsU64, IsI64}
use sarc.Result.{Error, ok}
use sarc.Result.{>>=-eq-ok, on_fail_if}
use sarc.Bytes.{Bytes}
use sarc.Bytes.Slice.{has_prefix-append, drop-append_eq}
use sarc.Bytes.Varint
use sarc.Bytes.Varint.{zigzag, length-uvarint}
use sarc.Names.{valid_entry_name}
use sarc.Attributes.{append_attributes}
use sarc.IndexDecoder.{encode_string, uvarint, name}
use sarc.IndexDecoder.Reads.{fresh, uvarint-append, varint-append, count-append, name-append}
use sarc.SessionIndex.{
  ChunkRecord, FileVersion, SessionIndex, index_magic, max_index_size, encode_packs, encode_chunks,
  encode_file, encode_head, link_with_data, append_file, append_files, append_deleted, marshal,
  chunk, file, repeat, session_index, parse_session_index,
}
use sarc.SessionIndex.Lists.{Encoded, end, next, repeat-Encoded, length-Encoded}
use sarc.SessionIndex.Records.{
  IsChunk, EncodesChunk, chunk-encode, length-chunk, IsFile, EncodesFile, file-encode, length-file,
  named,
}

-- the number that a session's files must stay below
abbrev pub chunk_limit : SessionIndex → ℕ
chunk_limit si = (si.first_chunk + length si.chunks) % 2 ^ 64

-- The ranges of the Go types, and what ParseSessionIndex asks of sessions, chunks and files.
pub record InRange (si : SessionIndex) : Type 0 where
  pub session : IsU64 si.session
  pub some_session : si.session ≢ 0
  pub time : IsI64 si.time
  pub prev_index : IsU64 si.prev_index
  pub first_chunk : IsU64 si.first_chunk
  pub packs : All IsU64 si.packs
  pub chunks : All (IsChunk (length si.packs)) si.chunks
  pub files : All (IsFile (chunk_limit si)) si.files

abbrev EncodesPack : ℕ → Bytes → Type 0
EncodesPack off enc = IsU64 off × (enc ≡ Varint.uvarint off)

abbrev EncodesName : Bytes → Bytes → Type 0
EncodesName n enc = (valid_entry_name n ≡ true) × (enc ≡ encode_string n)

packs-Encoded : (packs : List ℕ) → All IsU64 packs → Encoded EncodesPack packs (encode_packs packs)
unfolding encode_packs
packs-Encoded [] h = end
packs-Encoded (off ∷ packs) (h, hs) = next (h, refl) (packs-Encoded packs hs)

chunks-Encoded :
    (packs : ℕ) (cs : List ChunkRecord)
    → All (IsChunk packs) cs
    → Encoded (EncodesChunk packs) cs (encode_chunks cs)
unfolding encode_chunks
chunks-Encoded packs [] h = end
chunks-Encoded packs (c ∷ cs) (h, hs) = next (h, refl) (chunks-Encoded packs cs hs)

append_files-Encoded :
    (limit : ℕ) (b out : Bytes) (fs : List FileVersion)
    → All (IsFile limit) fs
    → append_files b fs ≡ ok out
    → (enc : Bytes) × (out ≡ b ++ enc) × Encoded (EncodesFile limit) fs enc
unfolding append_files append_file
append_files-Encoded limit b out [] is h = ([], cc (h, append-nil b), end)
append_files-Encoded limit b out (f ∷ fs) (is, others) h =
    let (mid, e, e') = >>=-eq-ok (append_file b f) _ h in
    let (enc, split, more) = append_files-Encoded limit mid out fs others e' in
    on_fail_if (not (valid_entry_name f.name)) _ _ e λ valid h1.
      on_fail_if (link_with_data f) _ _ h1 λ plain h2.
        let (attrs, ea, ef) = >>=-eq-ok (append_attributes [] f.attributes) _ h2 in
        (
          encode_file f attrs ++ enc,
          cc (split, ef, append_assoc b (encode_file f attrs) enc),
          next (attrs, is, ea, ground arith, plain, refl) more,
        )

append_deleted-Encoded :
    (b out : Bytes) (ns : List Bytes)
    → append_deleted b ns ≡ ok out
    → (enc : Bytes) × (out ≡ b ++ enc) × Encoded EncodesName ns enc
unfolding append_deleted
append_deleted-Encoded b out [] h = ([], cc (h, append-nil b), end)
append_deleted-Encoded b out (n ∷ ns) h = on_fail_if (not (valid_entry_name n)) _ _ h λ valid h1.
    let (enc, split, more) = append_deleted-Encoded (b ++ encode_string n) out ns h1 in
    (
      encode_string n ++ enc,
      cc (split, append_assoc b (encode_string n) enc),
      next (ground arith, refl) more,
    )

length-pack : (off : ℕ) (enc : Bytes) → EncodesPack off enc → 1 ≤ length enc
length-pack off enc (h, e) = rw e (length-uvarint off)

length-name : (n enc : Bytes) → EncodesName n enc → 2 ≤ length enc
unfolding encode_string
length-name n enc (valid, e) =
    rw (e, length-append) (omega (arith, length-uvarint (length n), named n valid))

-- An index as it is written, up to its magic.
abbrev body : SessionIndex → Bytes → Bytes → Bytes
body si files deleted =
    encode_head si
    ++ (Varint.uvarint (length si.files)
        ++ (files ++ (Varint.uvarint (length si.deleted) ++ deleted)))

module _ (si : SessionIndex) (files deleted : Bytes) (i : InRange si)
    (of_files : Encoded (EncodesFile (chunk_limit si)) si.files files)
    (of_deleted : Encoded EncodesName si.deleted deleted)
    (fits : length (body si files deleted) ≤ max_index_size) where
  many_packs : length si.packs * 1 ≤ length (encode_packs si.packs)
  many_packs =
      length-Encoded EncodesPack 1 length-pack si.packs (encode_packs si.packs)
        (packs-Encoded si.packs i.packs)

  many_chunks : length si.chunks * 37 ≤ length (encode_chunks si.chunks)
  many_chunks =
      length-Encoded (EncodesChunk (length si.packs)) 37 (length-chunk (length si.packs)) si.chunks
        (encode_chunks si.chunks) (chunks-Encoded (length si.packs) si.chunks i.chunks)

  many_files : length si.files * 5 ≤ length files
  many_files =
      length-Encoded (EncodesFile (chunk_limit si)) 5 (length-file (chunk_limit si)) si.files files
        of_files

  many_deleted : length si.deleted * 2 ≤ length deleted
  many_deleted = length-Encoded EncodesName 2 length-name si.deleted deleted of_deleted

  sizes :
      length (encode_packs si.packs)
        + length (encode_chunks si.chunks)
        + length files
        + length deleted
      ≤ max_index_size
  unfolding encode_head
  sizes = omega (arith, simp length-append at fits)

  -- What follows the packs, the chunks and the files.
  after_files : Bytes
  after_files = Varint.uvarint (length si.deleted) ++ deleted

  after_chunks : Bytes
  after_chunks = Varint.uvarint (length si.files) ++ (files ++ after_files)

  after_packs : Bytes
  after_packs = Varint.uvarint (length si.chunks) ++ (encode_chunks si.chunks ++ after_chunks)

  read_deleted :
      (k : String → Error)
      → repeat (length si.deleted) name (fresh k deleted) ≡ ok (si.deleted, fresh k [])
  unfolding encode_string
  read_deleted k = rw append-nil at (
      repeat-Encoded EncodesName k name
        (λ n enc rest (valid, e). rw (e, append_assoc) (name-append k n rest valid)) si.deleted
        deleted [] of_deleted)

  session_index-body :
      (k : String → Error) → session_index (fresh k (body si files deleted)) ≡ ok (si, fresh k [])
  unfolding session_index encode_head after_packs after_chunks after_files
  session_index-body k = simp append_assoc (
      rw (uvarint-append k si.session _ i.session) (
        rw (varint-append k si.time _ i.time) (
          rw (uvarint-append k si.prev_index _ i.prev_index) (
            rw (uvarint-append k si.first_chunk _ i.first_chunk) (
              rw
                (count-append k 1 (length si.packs) (encode_packs si.packs ++ after_packs)
                  (omega (arith, many_packs, sizes))
                  (omega (arith, many_packs, length-append (encode_packs si.packs) after_packs)))
                (rw
                  (repeat-Encoded EncodesPack k uvarint
                    (λ off enc rest (h, e). rw e (uvarint-append k off rest h)) si.packs
                    (encode_packs si.packs) after_packs (packs-Encoded si.packs i.packs))
                  (rw
                    (count-append k 37 (length si.chunks) (encode_chunks si.chunks ++ after_chunks)
                      (omega (arith, many_chunks, sizes))
                      (omega
                        (arith, many_chunks, length-append (encode_chunks si.chunks) after_chunks)))
                    (rw
                      (repeat-Encoded (EncodesChunk (length si.packs)) k (chunk (length si.packs))
                        (chunk-encode k (length si.packs)) si.chunks (encode_chunks si.chunks)
                        after_chunks (chunks-Encoded (length si.packs) si.chunks i.chunks))
                      (rw
                        (count-append k 5 (length si.files) (files ++ after_files)
                          (omega (arith, many_files, sizes))
                          (omega (arith, many_files, length-append files after_files)))
                        (rw
                          (repeat-Encoded (EncodesFile (chunk_limit si)) k (file (chunk_limit si))
                            (λ f enc rest. file-encode k (chunk_limit si) f enc rest (omega arith))
                            si.files files after_files of_files)
                          (rw
                            (count-append k 2 (length si.deleted) deleted
                              (omega (arith, many_deleted, sizes)) (omega (arith, many_deleted)))
                            (rw (read_deleted k)))))))))))))

-- A valid index, marshalled with no error, is what ParseSessionIndex decodes. Valid: the fields fit
-- their Go types, the session is not 0, each chunk record has an ID of HMACSize bytes and lies in a
-- listed pack with sizes and a codec that the parser accepts, and each file's attributes fit their
-- types, its chunks are fewer than 2^64 and their numbers are below FirstChunk + len(Chunks) as
-- the code computes it on 64 bits.
pub parse_session_index-marshal :
    (si : SessionIndex) (b : Bytes) → InRange si → marshal si ≡ ok b → parse_session_index b ≡ ok si
unfolding marshal parse_session_index
parse_session_index-marshal si b i h =
    let start = index_magic ++ (encode_head si ++ Varint.uvarint (length si.files)) in
    let (mid, e1, h1) = >>=-eq-ok (append_files start si.files) _ h in
    let (out, e2, h2) =
      >>=-eq-ok (append_deleted (mid ++ Varint.uvarint (length si.deleted)) si.deleted) _ h1 in
    on_fail_if (ltb max_index_size (length out)) _ _ h2 λ small is.
      let (files, s1, of_files) =
        append_files-Encoded (chunk_limit si) start mid si.files i.files e1 in
      let (deleted, s2, of_deleted) = append_deleted-Encoded _ out si.deleted e2 in
      let same : out ≡ b = cc is in
      let split : b ≡ index_magic ++ body si files deleted =
        sym same
        ∙ s2
        ∙ ap (λ m. (m ++ Varint.uvarint (length si.deleted)) ++ deleted) s1
        ∙ simp append_assoc refl in
      let size : length b ≤ max_index_size =
        omega (arith, ltb→le _ _ small, ap (length {A = ℕ}) same) in
      let whole : length b ≡ length (index_magic ++ body si files deleted) =
        ap (length {A = ℕ}) split in
      let fits = length-append index_magic (body si files deleted) in
      let some_session : (si.session == 0) ≡ false = ground (arith, i.some_session) in
      rw split (
        rw
          (
            le→ltb max_index_size (length (index_magic ++ body si files deleted)) (omega arith),
            has_prefix-append index_magic (body si files deleted),
            drop-append_eq 8 index_magic (body si files deleted) refl,
          )
          (rw
            (session_index-body si files deleted i of_files of_deleted (omega arith)
              Error.malformed_index)
            (rw some_session)))
