-- ===== src/Chunker.antt =====
-- archive/chunker.go: content-defined chunking with a keyed gear table, a function from a byte to a
-- 64-bit number here.
pub mod CutPoint
pub mod Stream
pub mod Cutting
use sarc.Prelude.{ℕ, zero, suc, ◌+◌, ◌-◌, ◌*◌, ◌/◌, ◌%◌, ◌^◌, ◌≤◌, ◌<◌, min}
use sarc.Prelude.{String, ◌≡◌, refl, sym, ap, ◌∙◌, subst, ◌≢◌, ◌⊎◌, inl, inr}
use sarc.Prelude.{Bool, true, false, ◌&&◌, ◌||◌, not, Option, none, some}
use sarc.Prelude.{List, [], ◌∷◌, ◌++◌, append-nil, append_assoc, arith}
use sarc.Prelude.{
  ltb, leb, ◌==◌, ◌!=◌, if◌then◌else◌, Bool-cases, ltb→lt, ltb→le, lt→ltb, le→ltb, ==→eq, eq→==,
}
use sarc.Prelude.{
  length, take, drop, replicate, All, length-append, length-replicate, All-append, append-All,
}
use sarc.Prelude.{take-append, drop-append, take-append-drop, length-take, length-drop}
use sarc.Bytes.{Bytes}

-- `MinCDCChunkSize`, `AvgCDCChunkSize`, `MaxCDCChunkSize`
abbrev pub min_cdc_chunk_size : ℕ
min_cdc_chunk_size = 256 * 2 ^ 10

abbrev pub avg_cdc_chunk_size : ℕ
avg_cdc_chunk_size = 2 ^ 20

abbrev pub max_cdc_chunk_size : ℕ
max_cdc_chunk_size = 4 * 2 ^ 20

-- h&cdcMaskS == 0 and h&cdcMaskL == 0 of a 64-bit h: its top 22 bits, or top 18 bits, are zero.
abbrev pub mask_s : ℕ → Bool
mask_s h = h / 2 ^ 42 == 0

abbrev pub mask_l : ℕ → Bool
mask_l h = h / 2 ^ 46 == 0

-- How a scanning loop ends: at a cut, or with the hash, the position and the bytes it is left with.
pub data Scan : Type 0 where
  cut_at : ℕ → Scan
  ran_out : ℕ → ℕ → Bytes → Scan

module _ (gear : ℕ → ℕ) where
  -- h<<1 + gear[b] on uint64
  abbrev pub roll : ℕ → ℕ → ℕ
  roll h b = (h * 2 + gear b) % 2 ^ 64

  -- One of the two loops of `cutPoint`, for `rounds` positions from `i` on.
  unfoldable pub scan : (ℕ → Bool) → ℕ → ℕ → ℕ → Bytes → Scan
  scan mask zero h i rest = ran_out h i rest
  scan mask (suc rounds) h i [] = ran_out h i []
  scan mask (suc rounds) h i (b ∷ rest) =
      let more = scan mask rounds (roll h b) (i + 1) rest in
      if mask (roll h b) then cut_at (i + 1) else more

  -- what follows the second loop
  abbrev pub cut_or : ℕ → Scan → ℕ
  cut_or n (cut_at c) = c
  cut_or n (ran_out h i rest) = n

  -- what follows the first loop
  abbrev pub second_loop : ℕ → ℕ → Scan → ℕ
  second_loop n normal (cut_at c) = c
  second_loop n normal (ran_out h i rest) = cut_or n (scan mask_l (n - normal) h i rest)

  -- `cutPoint`
  unfoldable pub cut_point : Bytes → ℕ
  cut_point contents =
      let n = length contents in
      let normal = min n avg_cdc_chunk_size in
      if leb n min_cdc_chunk_size
      then n
      else second_loop n normal (
          scan mask_s (normal - min_cdc_chunk_size) 0 min_cdc_chunk_size
            (drop min_cdc_chunk_size contents))

-- The reader behind a Chunker: what successive reads can deliver, each part of it in as many reads
-- as the buffer's room makes necessary, then io.EOF.
abbrev pub Reader : Type 0
Reader = List Bytes

-- `Chunker`: `held` is buf[cut:n], the bytes read and not yet returned.
pub record Chunker : Type 0 where
  pub held : Bytes
  pub r : Reader
  pub eof : Bool

-- The reads of one call of `Next`, into a buffer with this much room: the bytes, the reader, and
-- whether it reported io.EOF.
unfoldable pub fill : ℕ → Reader → Bytes × Reader × Bool
fill zero ps = ([], ps, false)
fill (suc room) [] = ([], [], true)
fill (suc room) (p ∷ ps) =
    let (more, ps', eof) = fill (suc room - length p) ps in
    if leb (length p) (suc room)
    then (p ++ more, ps', eof)
    else (take (suc room) p, drop (suc room) p ∷ ps, false)

-- the buffer after the reads of `Next`
unfoldable pub refill : Chunker → Chunker
refill c =
    let (got, r, eof) = fill (max_cdc_chunk_size - length c.held) c.r in
    if c.eof then c else record { held = c.held ++ got; r = r; eof = eof }

abbrev pub prepend : Bytes → Option (List Bytes) → Option (List Bytes)
prepend chunk none = none
prepend chunk (some rest) = some (chunk ∷ rest)

module _ (gear : ℕ → ℕ) where
  abbrev pub first_chunk : Chunker → Option (Bytes × Chunker)
  first_chunk c =
      if length c.held == 0
      then none
      else some (
        take (cut_point gear c.held) c.held,
        record c { held = drop (cut_point gear c.held) c.held },
      )

  -- `Next`; none is io.EOF.
  unfoldable pub next : Chunker → Option (Bytes × Chunker)
  unfolding refill
  next c = first_chunk (refill c)

  -- Calls of `Next` until io.EOF; none is that the fuel ran out.
  unfoldable pub chunks : ℕ → Chunker → Option (List Bytes)
  chunks zero c = none
  chunks (suc fuel) c = elim (next c) [
    | none ↦ some []
    | some (chunk, c') ↦ prepend chunk (chunks fuel c')
  ]
