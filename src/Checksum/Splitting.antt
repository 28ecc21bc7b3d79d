-- ===== src/Checksum/Splitting.antt =====
-- The checksum does not depend on how the archive was divided into writes.
use sarc.Prelude.{ℕ, ◌+◌, ◌%◌, ◌≤◌, ◌<◌, ◌≡◌, refl, sym, ap, ◌∙◌, ◌⊎◌, inl, inr, arith}
use sarc.Prelude.{Bool, true, false, List, [], ◌∷◌, ◌++◌, append-nil, append_assoc, Bool-cases}
use sarc.Prelude.{ltb, leb, ◌!=◌, if◌then◌else◌, length, take, drop, replicate}
use sarc.Bytes.Slice.{take-append_eq, drop-append_eq}
use sarc.Prelude.{length-append, length-drop, drop-append_add, take-append_le, drop-append_le}
use sarc.Bytes.{Bytes, concat}
use sarc.Bytes.LittleEndian.{from_le}
use sarc.Checksum.{
  ArchiveChecksum, header_prefix_len, file_count_sealed_size, new_archive_checksum, has_layout,
  count_off, flag_off, clear_count, masked, must_wait, flush_header, write, writes, sum,
}

-- Bytes within a prefix do not depend on what follows it.
window :
    (i k : ℕ) (w more : Bytes) → i + k ≤ length w → take k (drop i (w ++ more)) ≡ take k (drop i w)
window i k w more h =
    ap (λ s. take k s) (drop-append_le i w more (omega arith))
    ∙ take-append_le k (drop i w) more (omega (arith, length-drop i w))

has_layout-append :
    (w more : Bytes)
    → header_prefix_len ≤ length w
    → (has_layout (w ++ more) ≡ has_layout w) × (count_off (w ++ more) ≡ count_off w)
unfolding has_layout count_off
has_layout-append w more h = (
  rw
      (
        long (length w) h,
        long (length (w ++ more)) (omega (arith, length-append w more)),
        take-append_le 4 w more (omega arith),
        window 4 2 w more (omega arith),
        window 6 4 w more (omega arith),
      )
      refl,
  ap (λ s. header_prefix_len + from_le s) (window 6 4 w more (omega arith)),
)
  where
    long : (n : ℕ) → header_prefix_len ≤ n → leb header_prefix_len n ≡ true
    long n q = ground arith

-- Of a header whose flag is there, the masking is decided.
with_layout :
    (w more : Bytes)
    → has_layout (w ++ more) ≡ has_layout w
    → count_off (w ++ more) ≡ count_off w
    → has_layout w ≡ true
    → flag_off w < length w
    → masked (w ++ more) ≡ masked w ++ more
unfolding masked clear_count
with_layout w more same at layout inside =
    rw
      (
        same,
        layout,
        at,
        there (length w) inside,
        there (length (w ++ more)) (omega (arith, inside, length-append w more)),
        window (flag_off w) 1 w more (omega arith),
        take-append_le (count_off w) w more (omega arith),
        drop-append_le (flag_off w) w more (omega arith),
      )
      (either (from_le (take 1 (drop (flag_off w) w)) % 2 != 0))
  where
    there : (n : ℕ) → flag_off w < n → ltb (flag_off w) n ≡ true
    there n q = ground arith

    either :
        (b : Bool)
        → (if b
            then take (count_off w) w
              ++ (replicate file_count_sealed_size 0 ++ (drop (flag_off w) w ++ more))
            else w ++ more)
          ≡ (if b
              then take (count_off w) w
                ++ (replicate file_count_sealed_size 0 ++ drop (flag_off w) w)
              else w)
            ++ more
    either true = sym (
        append_assoc (take (count_off w) w) _ more
        ∙ ap (λ s. take (count_off w) w ++ s)
            (append_assoc (replicate file_count_sealed_size 0) _ more))
    either false = refl

-- Once the header need not wait, later bytes are hashed as they are.
masked-append : (w more : Bytes) → must_wait w ≡ false → masked (w ++ more) ≡ masked w ++ more
unfolding must_wait
masked-append w more settled =
    let long : header_prefix_len ≤ length w = ground arith in
    let (same, at) = has_layout-append w more long in
    elim (Bool-cases (has_layout w)) [
      | inr other ↦ unfold masked in rw (same, other) refl
      | inl layout ↦ with_layout w more same at layout (ground arith)
    ]

-- What a checksum holds after these bytes: all of them, or what is hashed of them so far.
abbrev Holds : ArchiveChecksum → Bytes → Type 0
Holds c w =
    (c ≡ record { hashed = []; head = w; done = false })
    ⊎ ((c.done ≡ true) × ((more : Bytes) → masked (w ++ more) ≡ c.hashed ++ more))

write-Holds : (c : ArchiveChecksum) (w p : Bytes) → Holds c w → Holds (write c p) (w ++ p)
unfolding write flush_header
write-Holds c w p (inl waiting) = rw waiting (elim (Bool-cases (must_wait (w ++ p))) [
  | inl wait ↦ rw wait (inl refl)
  | inr settled ↦ rw settled (inr (refl, λ more. masked-append (w ++ p) more settled))
])
write-Holds c w p (inr (done, so_far)) = rw done (
    inr (
      refl,
      λ more.
          ap masked (append_assoc w p more)
          ∙ so_far (p ++ more)
          ∙ sym (append_assoc c.hashed p more),
    ))

writes-Holds :
    (c : ArchiveChecksum) (w : Bytes) (ps : List Bytes)
    → Holds c w
    → Holds (writes c ps) (w ++ concat ps)
unfolding writes
writes-Holds c w [] h = rw append-nil h
writes-Holds c w (p ∷ ps) h =
    rw⁻¹ (append_assoc w p (concat ps)) (writes-Holds (write c p) (w ++ p) ps (write-Holds c w p h))

sum-Holds :
    (sha256 : Bytes → Bytes) (c : ArchiveChecksum) (w b : Bytes)
    → Holds c w
    → (sum sha256 c b).0 ≡ b ++ sha256 (masked w)
unfolding sum flush_header
sum-Holds sha256 c w b (inl waiting) =
    rw waiting
      (elim (Bool-cases (must_wait w)) [ inl wait ↦ rw wait refl | inr settled ↦ rw settled refl ])
sum-Holds sha256 c w b (inr (done, so_far)) = rw done (
    ap (λ s. b ++ sha256 s)
      (sym (append-nil c.hashed) ∙ sym (so_far []) ∙ ap masked (append-nil w)))

-- Whatever pieces an archive is written in, the sum that a new checksum appends to `b` is the hash of
-- the whole archive with its sealed count masked.
pub sum-writes :
    (sha256 : Bytes → Bytes) (ps : List Bytes) (b : Bytes)
    → (sum sha256 (writes new_archive_checksum ps) b).0 ≡ b ++ sha256 (masked (concat ps))
sum-writes sha256 ps b =
    sum-Holds sha256 (writes new_archive_checksum ps) (concat ps) b
      (writes-Holds new_archive_checksum [] ps (inl refl))

-- The header up to the sealed count, with its flag still to come: what follows is masked.
masked-count :
    (front count rest : Bytes)
    → has_layout front ≡ true
    → length front ≡ count_off front
    → length count ≡ file_count_sealed_size
    → 0 < length rest
    → (from_le (take 1 rest) % 2 != 0) ≡ true
    → masked (front ++ (count ++ rest)) ≡ front ++ (replicate file_count_sealed_size 0 ++ rest)
unfolding masked clear_count
masked-count front count rest layout ends size some_rest flag =
    let long : header_prefix_len ≤ length front = unfold count_off in omega arith in
    let (same, at) = has_layout-append front (count ++ rest) long in
    let behind : drop (count_off front + file_count_sealed_size) (front ++ (count ++ rest)) ≡ rest =
      ap (λ n. drop n (front ++ (count ++ rest))) (ap (λ n. n + file_count_sealed_size) (sym ends))
      ∙ drop-append_add front (count ++ rest) file_count_sealed_size
      ∙ drop-append_eq file_count_sealed_size count rest size in
    let inside : ltb (count_off front + file_count_sealed_size) (length (front ++ (count ++ rest)))
        ≡ true =
      there (count_off front + file_count_sealed_size) _ (
        omega (
          arith,
          ends,
          size,
          some_rest,
          length-append front (count ++ rest),
          length-append count rest,
        )) in
    rw (same, layout, at, inside, behind, flag)
      (ap (λ s. s ++ (replicate file_count_sealed_size 0 ++ rest))
        (take-append_eq (count_off front) front (count ++ rest) ends))
  where
    there : (m n : ℕ) → m < n → ltb m n ≡ true
    there m n q = ground arith

-- The sum does not depend on the sealed count of an incremental archive: with the same Version2
-- header before the count, whose recipient block is not too large, and the same bytes after it, of
-- which the first has the incremental flag, any two counts of FileCountSealedSize bytes, written in
-- any pieces, give the same sum.
pub sum-count :
    (sha256 : Bytes → Bytes) (front count count' rest b : Bytes) (ps ps' : List Bytes)
    → has_layout front ≡ true
    → length front ≡ count_off front
    → length count ≡ file_count_sealed_size
    → length count' ≡ file_count_sealed_size
    → 0 < length rest
    → (from_le (take 1 rest) % 2 != 0) ≡ true
    → concat ps ≡ front ++ (count ++ rest)
    → concat ps' ≡ front ++ (count' ++ rest)
    → (sum sha256 (writes new_archive_checksum ps) b).0
      ≡ (sum sha256 (writes new_archive_checksum ps') b).0
sum-count sha256 front count count' rest b ps ps' layout ends size size' some_rest flag is is' =
    sum-writes sha256 ps b
    ∙ ap (λ s. b ++ sha256 s)
        (ap masked is
          ∙ masked-count front count rest layout ends size some_rest flag
          ∙ sym (ap masked is' ∙ masked-count front count' rest layout ends size' some_rest flag))
    ∙ sym (sum-writes sha256 ps' b)
