-- ===== src/Chunker/CutPoint.antt =====
-- Where the first chunk of some bytes ends.
use sarc.Prelude.{ℕ, zero, suc, ◌+◌, ◌-◌, ◌≤◌, ◌<◌, min}
use sarc.Prelude.{◌≡◌, refl, sym, subst, inl, inr}
use sarc.Prelude.{Bool, true, false}
use sarc.Prelude.{[], ◌∷◌, arith}
use sarc.Prelude.{leb, Bool-cases}
use sarc.Prelude.{length, drop}
use sarc.Prelude.{length-drop}
use sarc.Prelude.{◌⊎◌}
use sarc.Bytes.{Bytes}
use sarc.Chunker.{Scan, cut_at, ran_out, roll, scan, cut_or, second_loop, cut_point, mask_s, mask_l}
use sarc.Chunker.{min_cdc_chunk_size, avg_cdc_chunk_size}

module _ (gear : ℕ → ℕ) where
  -- A scan of at most as many rounds as there are bytes ends in one of two ways.
  abbrev pub ScanBounds : ℕ → ℕ → Bytes → Scan → Type 0
  ScanBounds rounds i rest (cut_at c) = (i < c) × (c ≤ i + rounds)
  ScanBounds rounds i rest (ran_out h j left) = (j ≡ i + rounds) × (left ≡ drop rounds rest)

  pub scan_bounds :
      (mask : ℕ → Bool) (rounds h i : ℕ) (rest : Bytes)
      → rounds ≤ length rest
      → ScanBounds rounds i rest (scan gear mask rounds h i rest)
  unfolding scan drop
  scan_bounds mask zero h i rest fits = (omega arith, refl)
  scan_bounds mask (suc rounds) h i [] fits = absurd (omega arith)
  scan_bounds mask (suc rounds) h i (b ∷ rest) fits = elim (Bool-cases (mask (roll gear h b))) [
    | inl hit ↦ rw hit (omega arith)
    | inr miss ↦ rw miss (
        shift (scan gear mask rounds (roll gear h b) (i + 1) rest)
          (scan_bounds mask rounds (roll gear h b) (i + 1) rest (omega arith)))
  ]
    where
      shift : (s : Scan) → ScanBounds rounds (i + 1) rest s → ScanBounds (suc rounds) i (b ∷ rest) s
      shift (cut_at c) q = omega arith
      shift (ran_out g j left) (q, e) = (omega arith, e)

  pub cut_point_bounds :
      (contents : Bytes)
      → (cut_point gear contents ≤ length contents)
        × (length contents ≤ min_cdc_chunk_size → cut_point gear contents ≡ length contents)
        × (min_cdc_chunk_size < length contents → min_cdc_chunk_size < cut_point gear contents)
  unfolding cut_point
  cut_point_bounds contents = elim (Bool-cases (leb n min_cdc_chunk_size)) [
    | inl small ↦ rw small (omega arith, λ _. refl, λ big. absurd (short_of small big))
    | inr large ↦
        let big : min_cdc_chunk_size < n = long_of large in
        let first =
          scan_bounds mask_s (normal - min_cdc_chunk_size) 0 min_cdc_chunk_size tail
            (omega (arith, length-drop min_cdc_chunk_size contents)) in
        let (lo, hi) =
          after big (scan gear mask_s (normal - min_cdc_chunk_size) 0 min_cdc_chunk_size tail)
            first in
        rw large (hi, (λ q. absurd (omega arith)), λ _. lo)
  ]
    where
      n : ℕ
      n = length contents

      normal : ℕ
      normal = min n avg_cdc_chunk_size

      tail : Bytes
      tail = drop min_cdc_chunk_size contents

      short_of : leb n min_cdc_chunk_size ≡ true → min_cdc_chunk_size < n → ⊥
      short_of e q = ground arith

      long_of : leb n min_cdc_chunk_size ≡ false → min_cdc_chunk_size < n
      long_of e = ground arith

      last :
          (j : ℕ)
          → min_cdc_chunk_size < n
          → min_cdc_chunk_size ≤ j
          → j ≤ n
          → (left : Bytes) (t : Scan) → ScanBounds (n - j) j left t
          → (min_cdc_chunk_size < cut_or gear n t) × (cut_or gear n t ≤ n)
      last j big lo hi left (cut_at c) q = omega arith
      last j big lo hi left (ran_out h k rest) q = omega arith

      after :
          min_cdc_chunk_size < n
          → (t : Scan) → ScanBounds (normal - min_cdc_chunk_size) min_cdc_chunk_size tail t
          → (min_cdc_chunk_size < second_loop gear n normal t) × (second_loop gear n normal t ≤ n)
      after big (cut_at c) q = omega arith
      after big (ran_out h j left) (at, e) =
          let normal_is : j ≡ normal = omega arith in
          let size : length left ≡ n - normal = rw e (
            omega (
              arith,
              length-drop (normal - min_cdc_chunk_size) tail,
              length-drop min_cdc_chunk_size contents,
            )) in
          last normal big (omega arith) (omega arith) left (scan gear mask_l (n - normal) h j left)
            (subst
              (λ k. ScanBounds (n - normal) normal left (scan gear mask_l (n - normal) h k left))
              (sym normal_is) (scan_bounds mask_l (n - normal) h normal left (omega arith)))

  -- The first chunk is all of at most MinCDCChunkSize bytes; of more, it is longer than
  -- MinCDCChunkSize and no longer than what there is.
  pub cut_point_cases :
      (contents : Bytes)
      → ((length contents ≤ min_cdc_chunk_size) × (cut_point gear contents ≡ length contents))
        ⊎ ((min_cdc_chunk_size < cut_point gear contents)
            × (cut_point gear contents ≤ length contents))
  cut_point_cases contents =
      let (le, small, big) = cut_point_bounds contents in
      elim (Bool-cases (leb (length contents) min_cdc_chunk_size)) [
        | inl fits ↦
            (let h : length contents ≤ min_cdc_chunk_size = ground arith in inl (h, small h))
        | inr over ↦
            (let h : min_cdc_chunk_size < length contents = ground arith in inr (big h, le))
      ]
