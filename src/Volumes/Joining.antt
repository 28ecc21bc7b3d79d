-- ===== src/Volumes/Joining.antt =====
-- Joining the volumes of an archive gives the archive back.
use sarc.Prelude.{
  ℕ, zero, suc, ◌+◌, ◌-◌, ◌%◌, ◌^◌, ◌≤◌, ◌<◌, ◌≡◌, refl, sym, ap, ◌∙◌, Bool, true, false, none,
  List, [], ◌∷◌, ◌++◌, append-nil, append_assoc, All, arith,
}
use sarc.Prelude.{ltb, ◌==◌, ◌!=◌, if◌then◌else◌, length, length-append}
use sarc.Bytes.{Bytes, concat}
use sarc.Bytes.Slice.{take-append_eq, drop-append_eq, bytes_eq_refl}
use sarc.Volume.{
  VolumeHeader, marshal, volume_id_size, volume_header_size, volume_checksum_size, volume_overhead,
}
use sarc.Volume.RoundTrip.{InRange, length-marshal, parse_volume_header-marshal}
use sarc.Reader.{got}
use sarc.Volumes.{
  VolumeWriter, whole, create_volumes, check_volume_header, verify_volume, read_payload,
  checked_payload, archive_of, parsed_volume, read_volume, append_joined, after_volume, join_stream,
  writes, close,
}
use sarc.Volumes.Holding.{volume_header, volume, volumes}
use sarc.Volumes.Writing.{close-writes}

module _ (sha256 : Bytes → Bytes) (hashes : (b : Bytes) → length (sha256 b) ≡ volume_checksum_size)
    (id : Bytes) (sized : length id ≡ volume_id_size) where
  header_InRange :
      (index : ℕ) (last : Bool) (payload : Bytes)
      → 0 < index
      → index < 2 ^ 32
      → length payload < 2 ^ 64
      → InRange (volume_header id index last payload)
  header_InRange index last payload first fits small = record {
    archive_id = sized;
    index = omega arith;
    first = omega arith;
    payload_len = small;
  }

  length-header :
      (index : ℕ) (last : Bool) (payload : Bytes)
      → length (marshal (volume_header id index last payload)) ≡ volume_header_size
  length-header index last payload = length-marshal (volume_header id index last payload) sized

  same_header :
      (index : ℕ) (last : Bool) (payload : Bytes)
      → check_volume_header (volume_header id index last payload) id index ≡ none
  unfolding check_volume_header
  same_header index last payload = rw (bytes_eq_refl id) (rw (same (index % 2 ^ 32)) refl)
    where
      same : (n : ℕ) → n != n ≡ false
      same n = ground arith

  -- The ID that the reader compares: of the first volume its own.
  same_archive :
      (index : ℕ) (last : Bool) (payload known : Bytes)
      → (if index == 1 then id else known) ≡ id
      → archive_of sha256 index known (volume_header id index last payload) ≡ id
  same_archive index last payload known h = h

  -- A volume as it was written is read whole, whatever follows it.
  read_volume-volume :
      (index : ℕ) (last : Bool) (payload known rest : Bytes)
      → 0 < index
      → index < 2 ^ 32
      → length payload < 2 ^ 64
      → (if index == 1 then id else known) ≡ id
      → read_volume sha256 index known (volume sha256 id index last payload ++ rest)
        ≡ whole payload (volume_header id index last payload) rest
  unfolding read_volume parsed_volume checked_payload read_payload verify_volume volume
  read_volume-volume index last payload known rest first fits small same =
      let h = volume_header id index last payload in
      let header = marshal h in
      let sum = sha256 (payload ++ header) in
      let size = length-header index last payload in
      let shape : ((header ++ payload) ++ sum) ++ rest ≡ header ++ (payload ++ (sum ++ rest)) =
        simp append_assoc in
      ap (read_volume sha256 index known) shape
      ∙ rw (short header (payload ++ (sum ++ rest)) volume_header_size size) (
          rw
            (
              take-append_eq volume_header_size header (payload ++ (sum ++ rest)) size,
              drop-append_eq volume_header_size header (payload ++ (sum ++ rest)) size,
            )
            (rw (parse_volume_header-marshal h (header_InRange index last payload first fits small))
              (rw same (
                rw (same_header index last payload) (
                  rw (short payload (sum ++ rest) (length payload) refl) (
                    rw
                      (
                        take-append_eq (length payload) payload (sum ++ rest) refl,
                        drop-append_eq (length payload) payload (sum ++ rest) refl,
                      )
                      (rw (short sum rest volume_checksum_size (hashes (payload ++ header))) (
                        rw
                          (
                            take-append_eq volume_checksum_size sum rest
                                (hashes (payload ++ header)),
                            drop-append_eq volume_checksum_size sum rest
                                (hashes (payload ++ header)),
                          )
                          (rw (bytes_eq_refl sum) refl)))))))))
    where
      short : (xs ys : Bytes) (n : ℕ) → length xs ≡ n → ltb (length (xs ++ ys)) n ≡ false
      short xs ys n h = ge (length (xs ++ ys)) n (omega (arith, h, length-append xs ys))
        where
          ge : (a b : ℕ) → b ≤ a → ltb a b ≡ false
          ge a b q = ground arith

  -- the bytes of the volumes of an archive, back to back
  abbrev stream_of : ℕ → List Bytes → Bytes → Bytes
  stream_of index cs c =
      concat (volumes sha256 id index cs ++ volume sha256 id (index + length cs) true c ∷ [])

  join_stream-volumes :
      (fuel index : ℕ) (cs : List Bytes) (c known rest : Bytes)
      → 0 < index
      → index + length cs < 2 ^ 32
      → All (λ x. length x < 2 ^ 64) cs
      → length c < 2 ^ 64
      → (if index == 1 then id else known) ≡ id
      → length cs < fuel
      → join_stream sha256 fuel index known (stream_of index cs c ++ rest) ≡ (concat cs ++ c, none)
  unfolding join_stream volumes
  join_stream-volumes zero index cs c known rest first fits small last same enough =
      absurd (omega arith)
  join_stream-volumes (suc fuel) index [] c known rest first fits small last same enough =
      let go = λ (h : VolumeHeader) (b : Bytes).
        join_stream sha256 fuel (index + 1) (archive_of sha256 index known h) b in
      let at : index + 0 ≡ index = omega arith in
      ap
        (λ n.
          after_volume sha256
            (read_volume sha256 index known ((volume sha256 id n true c ++ []) ++ rest)) go)
        at
      ∙ ap (λ s. after_volume sha256 (read_volume sha256 index known (s ++ rest)) go)
          (append-nil (volume sha256 id index true c))
      ∙ rw (read_volume-volume index true c known rest first (omega (arith, fits)) last same) refl
  join_stream-volumes (suc fuel) index (d ∷ cs) c known rest first fits (sd, small) last same
        enough =
      let go = λ (h : VolumeHeader) (b : Bytes).
        join_stream sha256 fuel (index + 1) (archive_of sha256 index known h) b in
      let left = λ (n : ℕ).
        concat (volumes sha256 id (index + 1) cs ++ volume sha256 id n true c ∷ []) ++ rest in
      let known' = if index == 1 then id else known in
      let at : index + suc (length cs) ≡ index + 1 + length cs = omega arith in
      ap (λ s. after_volume sha256 (read_volume sha256 index known s) go)
        (append_assoc (volume sha256 id index false d)
          (concat (
            volumes sha256 id (index + 1) cs
            ++ volume sha256 id (index + suc (length cs)) true c ∷ []))
          rest)
      ∙ rw
          (read_volume-volume index false d known (left (index + suc (length cs))) first
            (omega (arith, fits)) sd same)
          (ap (λ n. append_joined sha256 d (join_stream sha256 fuel (index + 1) known' (left n))) at
            ∙ ap (append_joined sha256 d) (
                join_stream-volumes fuel (index + 1) cs c known' rest (omega arith)
                  (omega (arith, fits)) small last
                  (ap (λ k. if index + 1 == 1 then id else k) same ∙ either (index + 1 == 1))
                  (omega arith))
            ∙ ap (λ s. (s, none)) (sym (append_assoc d (concat cs) c)))
    where
      either : (t : Bool) → (if t then id else id) ≡ id
      either true = refl
      either false = refl

length-volumes :
    (sha256 : Bytes → Bytes) (id : Bytes) (index : ℕ) (cs : List Bytes)
    → length (volumes sha256 id index cs) ≡ length cs
unfolding volumes
length-volumes sha256 id index [] = refl
length-volumes sha256 id index (c ∷ cs) = ap suc (length-volumes sha256 id (index + 1) cs)

payloads_small :
    (n : ℕ) (cs : List Bytes)
    → n < 2 ^ 64
    → All (λ x. length x ≡ n) cs
    → All (λ x. length x < 2 ^ 64) cs
payloads_small n [] h full = tt
payloads_small n (c ∷ cs) h (is, full) = (omega (arith, h, is), payloads_small n cs h full)

-- The volumes of a split archive, back to back in one stream, are joined to the bytes that were written
-- to it, with no error, whatever follows the stream: where SHA-256 has 32 bytes, the archive's ID has
-- VolumeIDSize, the volume size is below 2^63, and the volumes are fewer than 2^32.
pub join_stream-close :
    (sha256 : Bytes → Bytes) (id : Bytes) (volume_size : ℕ) (ps : List Bytes) (v w : VolumeWriter)
    (known rest : Bytes)
    → ((b : Bytes) → length (sha256 b) ≡ volume_checksum_size)
    → length id ≡ volume_id_size
    → volume_size < 2 ^ 63
    → create_volumes id volume_size ≡ got v
    → writes sha256 v ps ≡ got w
    → length (close sha256 w).finished < 2 ^ 32
    → join_stream sha256
        (length (close sha256 w).finished)
        1
        known
        (concat (close sha256 w).finished ++ rest)
      ≡ (concat ps, none)
join_stream-close sha256 id volume_size ps v w known rest hashes sized small created wrote few =
    let (w', ran, (cs, c, fin', joined, full, most)) =
      close-writes sha256 id volume_size ps v sized created in
    let same : w' ≡ w = cc (ran, wrote) in
    let fin : (close sha256 w).finished
        ≡ volumes sha256 id 1 cs ++ volume sha256 id (suc (length cs)) true c ∷ [] =
      ap (λ (z : VolumeWriter). (close sha256 z).finished) (sym same) ∙ fin' in
    let count : length (close sha256 w).finished ≡ suc (length cs) =
      ap (length {A = Bytes}) fin
      ∙ omega (
        arith,
        length-append (volumes sha256 id 1 cs) (volume sha256 id (suc (length cs)) true c ∷ []),
        length-volumes sha256 id 1 cs,
      ) in
    let at : suc (length cs) ≡ 1 + length cs = omega arith in
    ap (λ n. join_stream sha256 n 1 known (concat (close sha256 w).finished ++ rest)) count
    ∙ ap (λ fs. join_stream sha256 (suc (length cs)) 1 known (concat fs ++ rest)) fin
    ∙ ap
        (λ n.
          join_stream sha256 (suc (length cs)) 1 known
            (concat (volumes sha256 id 1 cs ++ volume sha256 id n true c ∷ []) ++ rest))
        at
    ∙ join_stream-volumes sha256 hashes id sized (suc (length cs)) 1 cs c known rest (omega arith)
        (omega (arith, few, count))
        (payloads_small (volume_size - volume_overhead) cs (omega (arith, small)) full)
        (omega (arith, most, small)) refl (omega arith)
    ∙ ap (λ s. (s, none)) joined
