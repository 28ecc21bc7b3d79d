-- ===== src/SessionIndex/Records.antt =====
-- Reading back a chunk record, a file's chunk numbers and a file.
use sarc.Prelude.{ℕ, ◌+◌, ◌-◌, ◌%◌, ◌^◌, ◌≤◌, ◌<◌}
use sarc.Prelude.{String, ◌≡◌, refl, ap}
use sarc.Prelude.{true, false, none}
use sarc.Prelude.{List, [], ◌∷◌, ◌++◌, append-nil, append_assoc, arith}
use sarc.Prelude.{leb}
use sarc.Prelude.{length, replicate, All, length-append}
use sarc.Prelude.Int.{to_i64, to_u64, to_i64-IsI64, IsU64}
use sarc.Result.{Error, ok}
use sarc.Bytes.{Bytes}
use sarc.Bytes.LittleEndian.{length-le}
use sarc.Bytes.Varint.{zigzag, length-uvarint}
use sarc.Names.{valid_entry_name}
use sarc.Attributes.{append_attributes}
use sarc.Attributes.RoundTrip as AttributesRoundTrip
use sarc.IndexDecoder.{encode_string, fail_when}
use sarc.IndexDecoder.Reads.{
  fresh, uvarint-append, varint-append, bytes-append, read_byte-append, count-append, name-append,
  attributes-append,
}
use sarc.SessionIndex.{
  ChunkRecord, FileVersion, hmac_size, encode_chunk, encode_numbers, encode_file, link_with_data,
  chunk_fault, narrow, copied, chunk, numbers, file,
}

-- What a chunk record must be for a session with this many packs.
pub record IsChunk (packs : ℕ) (c : ChunkRecord) : Type 0 where
  pub id : length c.id ≡ hmac_size
  pub pack : c.pack < 2 ^ 32
  pub no_fault : chunk_fault packs c ≡ none

abbrev pub EncodesChunk : ℕ → ChunkRecord → Bytes → Type 0
EncodesChunk packs c enc = IsChunk packs c × (enc ≡ encode_chunk c)

-- The sizes that `chunk` accepts.
chunk_sizes :
    (packs : ℕ) (c : ChunkRecord)
    → chunk_fault packs c ≡ none
    → (c.offset ≤ 2 ^ 26) × (c.stored_len < 2 ^ 32) × (c.raw_len < 2 ^ 32) × (c.codec < 256)
chunk_sizes packs c e = ground arith

copied_all : (b : Bytes) → length b ≡ hmac_size → copied hmac_size b ≡ b
unfolding replicate
copied_all b h = rw h (append-nil b)

narrow_all :
    (c : ChunkRecord) → c.pack < 2 ^ 32 → c.stored_len < 2 ^ 32 → c.raw_len < 2 ^ 32 → narrow c ≡ c
narrow_all c hp hs hr = rw (fits c.pack hp, fits c.stored_len hs, fits c.raw_len hr) refl
  where
    fits : (n : ℕ) → n < 2 ^ 32 → n % 2 ^ 32 ≡ n
    fits n h = omega arith

pub chunk-encode :
    (k : String → Error) (packs : ℕ) (c : ChunkRecord) (enc rest : Bytes)
    → EncodesChunk packs c enc
    → chunk packs (fresh k (enc ++ rest)) ≡ ok (c, fresh k rest)
unfolding chunk encode_chunk fail_when
chunk-encode k packs c enc rest (is, e) =
    let (offset, stored, raw, codec) = chunk_sizes packs c is.no_fault in
    rw e (
      simp append_assoc (
        rw (bytes-append k hmac_size c.id _ is.id) (
          rw (uvarint-append k c.pack _ (omega (arith, is.pack))) (
            rw (uvarint-append k c.offset _ (omega (arith, offset))) (
              rw (uvarint-append k c.stored_len _ (omega (arith, stored))) (
                rw (uvarint-append k c.raw_len _ (omega (arith, raw))) (
                  rw (read_byte-append k c.codec rest codec) (
                    rw (copied_all c.id is.id) (
                      rw is.no_fault
                        (ap (λ r. ok (r, fresh k rest)) (narrow_all c is.pack stored raw)))))))))))

pub length-chunk :
    (packs : ℕ) (c : ChunkRecord) (enc : Bytes)
    → EncodesChunk packs c enc
    → hmac_size + 5 ≤ length enc
unfolding encode_chunk
length-chunk packs c enc (is, e) = rw e (
    simp length-append (
      omega (
        arith,
        is.id,
        length-uvarint c.pack,
        length-uvarint c.offset,
        length-uvarint c.stored_len,
        length-uvarint c.raw_len,
        length-le 1 c.codec,
      )))

to_u64-to_i64_mod : (m : ℕ) → to_u64 (to_i64 m) ≡ m % 2 ^ 64
unfolding to_u64 to_i64
to_u64-to_i64_mod m = ground arith

-- Chunk numbers below a limit, from this previous number on.
pub numbers-encode :
    (k : String → Error) (limit prev : ℕ) (ns : List ℕ) (rest : Bytes)
    → IsU64 limit
    → IsU64 prev
    → All (λ n. n < limit) ns
    → numbers limit (length ns) prev (fresh k (encode_numbers prev ns ++ rest))
      ≡ ok (ns, fresh k rest)
unfolding numbers encode_numbers fail_when
numbers-encode k limit prev [] rest hl hp below = refl
numbers-encode k limit prev (n ∷ ns) rest hl hp (h, below) =
    let there : (prev + to_u64 (to_i64 (n + 2 ^ 64 - prev))) % 2 ^ 64 ≡ n =
      sum_of (to_u64 (to_i64 (n + 2 ^ 64 - prev))) (to_u64-to_i64_mod (n + 2 ^ 64 - prev)) in
    rw append_assoc (
      rw (varint-append k (to_i64 (n + 2 ^ 64 - prev)) _ (to_i64-IsI64 (n + 2 ^ 64 - prev))) (
        rw there
          (rw (below_limit n h) (rw (numbers-encode k limit n ns rest hl (omega arith) below)))))
  where
    below_limit : (n : ℕ) → n < limit → leb limit n ≡ false
    below_limit n q = ground arith

    sum_of : (x : ℕ) → x ≡ (n + 2 ^ 64 - prev) % 2 ^ 64 → (prev + x) % 2 ^ 64 ≡ n
    sum_of x e = omega arith

pub length-encode_numbers : (prev : ℕ) (ns : List ℕ) → length ns ≤ length (encode_numbers prev ns)
unfolding encode_numbers
length-encode_numbers prev [] = omega arith
length-encode_numbers prev (n ∷ ns) = rw length-append (
    omega (arith, length-uvarint (zigzag (to_i64 (n + 2 ^ 64 - prev))), length-encode_numbers n ns))

-- What a file must be for a session whose chunks are numbered below this limit.
pub record IsFile (limit : ℕ) (f : FileVersion) : Type 0 where
  pub attributes : AttributesRoundTrip.InRange f.attributes
  pub size : IsU64 f.size
  pub count : IsU64 (length f.chunks)
  pub below : All (λ n. n < limit) f.chunks

abbrev pub EncodesFile : ℕ → FileVersion → Bytes → Type 0
EncodesFile limit f enc =
    (attrs : Bytes) × IsFile limit f
    × (append_attributes [] f.attributes ≡ ok attrs)
    × (valid_entry_name f.name ≡ true)
    × (link_with_data f ≡ false)
    × (enc ≡ encode_file f attrs)

pub file-encode :
    (k : String → Error) (limit : ℕ) (f : FileVersion) (enc rest : Bytes)
    → IsU64 limit
    → EncodesFile limit f enc
    → file limit (fresh k (enc ++ rest)) ≡ ok (f, fresh k rest)
unfolding file encode_file encode_string fail_when
file-encode k limit f enc rest hl (attrs, is, e, valid, plain, split) = rw split (
    simp append_assoc (
      rw (name-append k f.name _ valid) (
        rw (attributes-append k f.attributes attrs _ is.attributes e) (
          rw (uvarint-append k f.size _ is.size) (
            rw
              (count-append k 1 (length f.chunks) (encode_numbers 0 f.chunks ++ rest) is.count (
                omega (
                  arith,
                  length-append (encode_numbers 0 f.chunks) rest,
                  length-encode_numbers 0 f.chunks,
                )))
              (rw (numbers-encode k limit 0 f.chunks rest hl (omega arith) is.below)
                (rw plain)))))))

-- A valid name is not empty.
pub named : (n : Bytes) → valid_entry_name n ≡ true → 1 ≤ length n
unfolding valid_entry_name
named [] h = cc h
named (c ∷ n) h = omega arith

pub length-file :
    (limit : ℕ) (f : FileVersion) (enc : Bytes) → EncodesFile limit f enc → 5 ≤ length enc
unfolding encode_file encode_string
length-file limit f enc (attrs, is, e, valid, plain, split) = rw split (
    simp length-append (
      omega (
        arith,
        length-uvarint (length f.name),
        named f.name valid,
        length-uvarint (length attrs),
        length-uvarint f.size,
        length-uvarint (length f.chunks),
      )))
