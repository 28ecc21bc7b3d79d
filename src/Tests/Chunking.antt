-- ===== src/Tests/Chunking.antt =====
-- Examples of chunking, on a stream that two reads deliver.
use sarc.Prelude.{
  ℕ, ◌*◌, ◌≤◌, ◌<◌, ◌≡◌, List, [], ◌∷◌, length, replicate, length-append, length-replicate, false,
  some, arith,
}
use sarc.Prelude.{◌⊎◌}
use sarc.Bytes.{Bytes, concat}
use sarc.Chunker.{Chunker, cut_point, chunks, min_cdc_chunk_size}
use sarc.Chunker.CutPoint.{cut_point_cases}
use sarc.Chunker.Stream.{stream, IsValid, pieces, chunks-pieces}
use sarc.Chunker.Cutting.{AreSized, chunks_complete}

abbrev some_gear : ℕ → ℕ
some_gear b = b * 2654435761

abbrev some_chunker : Chunker
some_chunker = record { held = []; r = replicate 300000 1 ∷ replicate 400000 2 ∷ []; eof = false }

some_chunker-IsValid : IsValid some_chunker
some_chunker-IsValid = (omega arith, λ e. cc e)

stream_short : length (stream some_chunker) < 700001
stream_short = simp (length-append, length-replicate) (omega arith)

chunks-pieces_example :
    chunks some_gear 700001 some_chunker ≡ pieces some_gear 700001 (stream some_chunker)
chunks-pieces_example = chunks-pieces some_gear 700001 some_chunker some_chunker-IsValid

chunks_complete_example :
    (cs : List Bytes) × (chunks some_gear 700001 some_chunker ≡ some cs)
    × (concat cs ≡ stream some_chunker)
    × AreSized cs
chunks_complete_example =
    chunks_complete some_gear 700001 some_chunker some_chunker-IsValid stream_short

cut_point_cases_example :
    ((length (replicate {A = ℕ} 300000 1) ≤ min_cdc_chunk_size)
      × (cut_point some_gear (replicate 300000 1) ≡ length (replicate {A = ℕ} 300000 1)))
    ⊎ ((min_cdc_chunk_size < cut_point some_gear (replicate 300000 1))
        × (cut_point some_gear (replicate 300000 1) ≤ length (replicate {A = ℕ} 300000 1)))
cut_point_cases_example = cut_point_cases some_gear (replicate 300000 1)
