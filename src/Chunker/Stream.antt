-- ===== src/Chunker/Stream.antt =====
-- The chunks of a stream.
use sarc.Prelude.{ℕ, zero, suc, ◌+◌, ◌-◌, ◌≤◌}
use sarc.Prelude.{◌≡◌, refl, sym, ap, ◌∙◌, inl, inr}
use sarc.Prelude.{Bool, true, Option, none, some}
use sarc.Prelude.{List, [], ◌∷◌, ◌++◌, append-nil, append_assoc, arith}
use sarc.Prelude.{leb, ◌==◌, if◌then◌else◌, Bool-cases}
use sarc.Prelude.{length, take, drop, length-append}
use sarc.Prelude.{take-append-drop, length-drop, drop-append_le}
use sarc.Prelude.{take-append_le}
use sarc.Bytes.{Bytes, concat}
use sarc.Chunker.{
  cut_point, prepend, Reader, Chunker, fill, refill, first_chunk, next, chunks, max_cdc_chunk_size,
}
use sarc.Chunker.CutPoint.{cut_point_bounds}

-- A fill takes as many bytes as there is room for, and reports io.EOF only when none are left.
abbrev Filled : ℕ → Bytes → Bytes × Reader × Bool → Type 0
Filled room stream (got, r, eof) =
    (got ≡ take room stream) × (concat r ≡ drop room stream) × (eof ≡ true → concat r ≡ [])

take-append_more :
    (n k : ℕ) (xs ys : Bytes) → n ≡ length xs + k → take n (xs ++ ys) ≡ xs ++ take k ys
unfolding take
take-append_more n k [] ys h = ap (λ j. take j ys) (omega arith)
take-append_more zero k (x ∷ xs) ys h = absurd (omega arith)
take-append_more (suc n) k (x ∷ xs) ys h =
    ap (λ r. x ∷ r) (take-append_more n k xs ys (omega arith))

drop-append_more : (n k : ℕ) (xs ys : Bytes) → n ≡ length xs + k → drop n (xs ++ ys) ≡ drop k ys
unfolding drop
drop-append_more n k [] ys h = ap (λ j. drop j ys) (omega arith)
drop-append_more zero k (x ∷ xs) ys h = absurd (omega arith)
drop-append_more (suc n) k (x ∷ xs) ys h = drop-append_more n k xs ys (omega arith)

pub length-take_le : (n : ℕ) (xs : Bytes) → length (take n xs) ≤ n
unfolding take
length-take_le zero xs = omega arith
length-take_le (suc n) [] = omega arith
length-take_le (suc n) (x ∷ xs) = omega (arith, length-take_le n xs)

fill-Filled : (room : ℕ) (ps : Reader) → Filled room (concat ps) (fill room ps)
unfolding fill take drop
fill-Filled zero ps = (refl, refl, λ e. cc e)
fill-Filled (suc room) [] = (refl, refl, λ e. refl)
fill-Filled (suc room) (p ∷ ps) = elim (Bool-cases (leb (length p) (suc room))) [
  | inl fits ↦
      let (got, rest, eof) = fill-Filled (suc room - length p) ps in
      let h : length p ≤ suc room = ground arith in
      rw fits (
        ap (λ m. p ++ m) got
            ∙ sym (take-append_more (suc room) (suc room - length p) p (concat ps) (omega arith)),
        rest ∙ sym (drop-append_more (suc room) (suc room - length p) p (concat ps) (omega arith)),
        eof,
      )
  | inr over ↦
      let h : suc room ≤ length p = ground arith in
      rw over (
        sym (take-append_le (suc room) p (concat ps) h),
        sym (drop-append_le (suc room) p (concat ps) h),
        λ e. cc e,
      )
]

-- the bytes a chunker has yet to return
abbrev pub stream : Chunker → Bytes
stream c = c.held ++ concat c.r

-- What holds of a chunker between calls of `Next`.
abbrev pub IsValid : Chunker → Type 0
IsValid c = (length c.held ≤ max_cdc_chunk_size) × (c.eof ≡ true → concat c.r ≡ [])

take_nil : (k : ℕ) → take {A = ℕ} k [] ≡ []
unfolding take
take_nil zero = refl
take_nil (suc k) = refl

pub take_all : (n : ℕ) (xs : Bytes) → length xs ≤ n → take n xs ≡ xs
take_all n xs h =
    ap (λ s. take n s) (sym (append-nil xs))
    ∙ take-append_more n (n - length xs) xs [] (omega arith)
    ∙ ap (λ s. xs ++ s) (take_nil (n - length xs))
    ∙ append-nil xs

-- After the reads the buffer holds all that is left, or as much as it can.
refill-held :
    (c : Chunker)
    → IsValid c
    → ((refill c).held ≡ take max_cdc_chunk_size (stream c))
      × (stream (refill c) ≡ stream c)
      × IsValid (refill c)
unfolding refill
refill-held c (fits, at_end) = elim (Bool-cases c.eof) [
  | inl eof ↦
      let all : stream c ≡ c.held = ap (λ s. c.held ++ s) (at_end eof) ∙ append-nil c.held in
      rw eof (
        sym (ap (λ s. take max_cdc_chunk_size s) all ∙ take_all max_cdc_chunk_size c.held fits),
        refl,
        (fits, λ _. at_end eof),
      )
  | inr more ↦
      let (got, rest, eof) = fill-Filled (max_cdc_chunk_size - length c.held) c.r in
      let joined =
        take-append_more max_cdc_chunk_size (max_cdc_chunk_size - length c.held) c.held (concat c.r)
          (omega arith) in
      rw more (
        ap (λ g. c.held ++ g) got ∙ sym joined,
        append_assoc c.held _ _
            ∙ ap (λ s. c.held ++ s)
                (rw (got, rest)
                  (take-append-drop (max_cdc_chunk_size - length c.held) (concat c.r))),
        (room_for got, eof),
      )
]
  where
    room_for :
        {g : Bytes}
        → g ≡ take (max_cdc_chunk_size - length c.held) (concat c.r)
        → length (c.held ++ g) ≤ max_cdc_chunk_size
    room_for e =
        rw (e, length-append)
          (omega (arith, fits, length-take_le (max_cdc_chunk_size - length c.held) (concat c.r)))

module _ (gear : ℕ → ℕ) where
  -- The cutting of bytes that are all at hand: a cut looks at MaxCDCChunkSize bytes at most.
  abbrev pub pieces : ℕ → Bytes → Option (List Bytes)
  pieces zero contents = none
  pieces (suc fuel) contents =
      let n = cut_point gear (take max_cdc_chunk_size contents) in
      let rest = pieces fuel (drop n contents) in
      if length contents == 0 then some [] else prepend (take n contents) rest

  -- One call of `Next` on a full buffer.
  module _ (fuel : ℕ) (d : Chunker) (full : d.held ≡ take max_cdc_chunk_size (stream d))
      (valid : IsValid d)
      (rest : (c : Chunker) → IsValid c → chunks gear fuel c ≡ pieces fuel (stream c)) where
    n : ℕ
    n = cut_point gear d.held

    some_held : (length d.held == 0) ≡ (length (stream d) == 0)
    unfolding take
    some_held = held_of 4194303 d.held (concat d.r) full
      where
        held_of :
            (m : ℕ) (h r : Bytes)
            → h ≡ take (suc m) (h ++ r)
            → (length h == 0) ≡ (length (h ++ r) == 0)
        held_of m [] [] e = refl
        held_of m [] (b ∷ r) e = cc e
        held_of m (b ∷ h) r e = ground arith

    first_piece :
        elim (first_chunk gear d) [
          | none ↦ some []
          | some (chunk, c') ↦ prepend chunk (chunks gear fuel c')
        ]
        ≡ pieces (suc fuel) (stream d)
    unfolding n
    first_piece =
        let bound : n ≤ length d.held = (cut_point_bounds gear d.held).0 in
        let later =
          rest (record d { held = drop n d.held })
            (omega (arith, valid, length-drop n d.held), valid.1) in
        let same = take-append_le n d.held (concat d.r) bound in
        let left = drop-append_le n d.held (concat d.r) bound in
        elim (Bool-cases (length d.held == 0)) [
          | inl empty ↦ rw (empty, sym some_held ∙ empty) refl
          | inr more ↦
              rw (more, sym some_held ∙ more)
                (ap (λ p. prepend p (chunks gear fuel (record d { held = drop n d.held })))
                    (sym same)
                  ∙ ap (λ o. prepend (take n (stream d)) o)
                      (later ∙ ap (λ s. pieces fuel s) (sym left))
                  ∙ ap
                      (λ h.
                        prepend (take (cut_point gear h) (stream d))
                          (pieces fuel (drop (cut_point gear h) (stream d))))
                      full)
        ]

  -- With any fuel, a chunker that holds at most MaxCDCChunkSize bytes, and has seen io.EOF only when
  -- its reader has no more, returns the chunks that its bytes are cut into, however the reader's
  -- reads divide them.
  pub chunks-pieces :
      (fuel : ℕ) (c : Chunker) → IsValid c → chunks gear fuel c ≡ pieces fuel (stream c)
  unfolding chunks next
  chunks-pieces zero c v = refl
  chunks-pieces (suc fuel) c v =
      let (full, same, valid) = refill-held c v in
      first_piece fuel (refill c) (rw same full) valid (chunks-pieces fuel)
      ∙ ap (λ s. pieces (suc fuel) s) same
