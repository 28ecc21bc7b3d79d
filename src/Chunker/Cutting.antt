-- ===== src/Chunker/Cutting.antt =====
-- Cutting a stream loses nothing and ends.
use sarc.Prelude.{ℕ, zero, suc, ◌≤◌, ◌<◌}
use sarc.Prelude.{◌≡◌, refl, sym, ap, ◌∙◌, ◌⊎◌, inl, inr}
use sarc.Prelude.{Option, some}
use sarc.Prelude.{List, [], ◌∷◌, ◌++◌, arith}
use sarc.Prelude.{leb, ◌==◌, Bool-cases, ==→eq}
use sarc.Prelude.{length, take, drop, length-append}
use sarc.Prelude.{take-append-drop, length-take, length-drop}
use sarc.Bytes.{Bytes, concat}
use sarc.Bytes.Slice.{nil_of_length}
use sarc.Chunker.{cut_point, prepend, Chunker, chunks, min_cdc_chunk_size, max_cdc_chunk_size}
use sarc.Chunker.CutPoint.{cut_point_bounds}
use sarc.Chunker.Stream.{stream, IsValid, take_all, length-take_le, pieces, chunks-pieces}

-- Every chunk has a byte and at most MaxCDCChunkSize bytes, and all but the last have more than
-- MinCDCChunkSize.
abbrev pub AreSized : List Bytes → Type 0
AreSized [] = Unit
AreSized (p ∷ []) = (0 < length p) × (length p ≤ max_cdc_chunk_size)
AreSized (p ∷ q ∷ ps) =
    (min_cdc_chunk_size < length p) × (length p ≤ max_cdc_chunk_size) × AreSized (q ∷ ps)

AreSized-cons :
    (p : Bytes) (ps : List Bytes)
    → 0 < length p
    → length p ≤ max_cdc_chunk_size
    → (min_cdc_chunk_size < length p) ⊎ (concat ps ≡ [])
    → AreSized ps
    → AreSized (p ∷ ps)
AreSized-cons p [] some_byte fits long sized = (some_byte, fits)
AreSized-cons p (q ∷ ps) some_byte fits (inl long) sized = (long, fits, sized)
AreSized-cons p (q ∷ ps) some_byte fits (inr empty) sized = absurd (full q ps sized empty)
  where
    full : (q : Bytes) (ps : List Bytes) → AreSized (q ∷ ps) → concat (q ∷ ps) ≡ [] → ⊥
    full [] [] (h, h') e = omega arith
    full [] (r ∷ ps) (h, h', rest) e = omega arith
    full (b ∷ q) ps h e = cc e

module _ (gear : ℕ → ℕ) where
  -- A way to cut some bytes into chunks.
  abbrev pub IsCut : Bytes → Option (List Bytes) → Type 0
  IsCut contents o = (cs : List Bytes) × (o ≡ some cs) × (concat cs ≡ contents) × AreSized cs

  -- the first cut of some bytes
  first_cut :
      (contents : Bytes)
      → 0 < length contents
      → (0 < cut_point gear (take max_cdc_chunk_size contents))
        × (cut_point gear (take max_cdc_chunk_size contents) ≤ max_cdc_chunk_size)
        × (cut_point gear (take max_cdc_chunk_size contents) ≤ length contents)
        × ((min_cdc_chunk_size < cut_point gear (take max_cdc_chunk_size contents))
            ⊎ (cut_point gear (take max_cdc_chunk_size contents) ≡ length contents))
  first_cut contents some_byte =
      let (le, small, big) = cut_point_bounds gear window in
      let short = length-take_le max_cdc_chunk_size contents in
      elim (Bool-cases (leb (length contents) min_cdc_chunk_size)) [
        | inl fits ↦
            let h : length contents ≤ min_cdc_chunk_size = ground arith in
            let all : length window ≡ length contents =
              ap (λ w. length w) (take_all max_cdc_chunk_size contents (omega arith)) in
            let at = small (omega arith) in
            (omega arith, omega arith, omega arith, inr (omega arith))
        | inr over ↦
            let h : min_cdc_chunk_size < length contents = ground arith in
            let at = big (long_window h) in (omega arith, omega arith, omega (arith, part), inl at)
      ]
    where
      window : Bytes
      window = take max_cdc_chunk_size contents

      part : length window ≤ length contents
      part = omega (
        arith,
        length-append window (drop max_cdc_chunk_size contents),
        ap (λ w. length w) (take-append-drop max_cdc_chunk_size contents),
      )

      long_window : min_cdc_chunk_size < length contents → min_cdc_chunk_size < length window
      long_window h = omega (
        arith,
        length-append window (drop max_cdc_chunk_size contents),
        ap (λ w. length w) (take-append-drop max_cdc_chunk_size contents),
        length-drop max_cdc_chunk_size contents,
      )

  IsCut-prepend :
      (n : ℕ) (contents : Bytes) {o : Option (List Bytes)}
      → 0 < n
      → n ≤ max_cdc_chunk_size
      → n ≤ length contents
      → (min_cdc_chunk_size < n) ⊎ (n ≡ length contents)
      → IsCut (drop n contents) o
      → IsCut contents (prepend (take n contents) o)
  IsCut-prepend n contents lo fits le long (cs, e, joined, sized) = rw e (
    take n contents ∷ cs,
    refl,
    ap (λ r. take n contents ++ r) joined ∙ take-append-drop n contents,
    AreSized-cons (take n contents) cs (omega (arith, at)) (omega (arith, at)) (last long) sized,
  )
    where
      at : length (take n contents) ≡ n
      at = length-take n contents le

      last :
          (min_cdc_chunk_size < n) ⊎ (n ≡ length contents)
          → (min_cdc_chunk_size < length (take n contents)) ⊎ (concat cs ≡ [])
      last (inl q) = inl (omega (arith, at))
      last (inr q) =
          inr (joined ∙ nil_of_length (drop n contents) (omega (arith, length-drop n contents)))

  pieces-IsCut :
      (fuel : ℕ) (contents : Bytes)
      → length contents < fuel
      → IsCut contents (pieces gear fuel contents)
  pieces-IsCut zero contents h = absurd (omega arith)
  pieces-IsCut (suc fuel) contents h = elim (Bool-cases (length contents == 0)) [
    | inl empty ↦ rw empty ([], refl, sym (nil_of_length contents (==→eq _ _ empty)), tt)
    | inr more ↦
        let some_byte : 0 < length contents = ground arith in
        let (lo, fits, le, long) = first_cut contents some_byte in
        rw more (
          IsCut-prepend (cut_point gear (take max_cdc_chunk_size contents)) contents lo fits le long
            (pieces-IsCut fuel (drop (cut_point gear (take max_cdc_chunk_size contents)) contents) (
              omega
                (arith, length-drop (cut_point gear (take max_cdc_chunk_size contents)) contents))))
  ]

  -- With fuel for one call of `Next` more than there are bytes, a chunker that holds at most
  -- MaxCDCChunkSize bytes, and has seen io.EOF only when its reader has no more, returns chunks that
  -- join to the bytes it held and its reader delivers; each has between 1 and MaxCDCChunkSize bytes, and each
  -- but the last more than MinCDCChunkSize.
  pub chunks_complete :
      (fuel : ℕ) (c : Chunker)
      → IsValid c
      → length (stream c) < fuel
      → (cs : List Bytes) × (chunks gear fuel c ≡ some cs) × (concat cs ≡ stream c) × AreSized cs
  chunks_complete fuel c valid h =
      rw (chunks-pieces gear fuel c valid) (pieces-IsCut fuel (stream c) h)
