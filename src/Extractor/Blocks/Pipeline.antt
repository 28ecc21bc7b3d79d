-- ===== src/Extractor/Blocks/Pipeline.antt =====
-- The parallel pipeline does what the sequential one does.
use sarc.Prelude.{
  ℕ, zero, suc, ◌≡◌, refl, ap, Option, none, some, ltb, length, Bool-cases, inl, inr,
}
use sarc.Bytes.{Bytes}
use sarc.Crypto.{EncryptedBlock}
use sarc.Reader.{Fallible, panics, fails, got}
use sarc.Extractor.Blocks.{
  BlockError, Opened, Held, Drained, take_block, next_block, sequential_turn, sequential, consume,
  dispatch_turn, dispatch, error_of_block, sequential_error, parallel_error, stream_error,
  stream_result, parallel, stream_data_blocks,
}

module _ {S : Type 0} (open_with : EncryptedBlock → Opened) (sink : S → Bytes → Option S) where
  parallel_turn :
      (r : Fallible (Option EncryptedBlock) × Bytes) (fuel : ℕ) (st : Held S)
      → ((st' : Held S) (b : Bytes)
          → parallel open_with sink fuel st' b ≡ sequential open_with sink fuel st' b)
      → (let (blocks, ended, rest) = dispatch_turn r (dispatch fuel) in
          (record { state = consume open_with sink st blocks; ended = ended }, rest))
        ≡ sequential_turn open_with sink r st (sequential open_with sink fuel)
  unfolding parallel consume
  parallel_turn (panics, b) fuel st ih = refl
  parallel_turn (fails e, b) fuel st ih = refl
  parallel_turn (got none, b) fuel st ih = refl
  parallel_turn (got (some block), b) fuel st ih = ih (take_block open_with sink st block) b

  -- Dispatching and consuming leave the state, the end and the rest that the one loop leaves.
  pub parallel-eq-sequential :
      (fuel : ℕ) (st : Held S) (b : Bytes)
      → parallel open_with sink fuel st b ≡ sequential open_with sink fuel st b
  unfolding parallel sequential dispatch consume
  parallel-eq-sequential zero st b = refl
  parallel-eq-sequential (suc fuel) st b =
      parallel_turn (next_block b) fuel st (parallel-eq-sequential fuel)

  -- The two pipelines' errors differ only where `streamDataBlocks` takes neither.
  pub same_error :
      (ended : Fallible (Unit {0})) (first_err : Option BlockError) (d : Drained S)
      → stream_result (stream_error (parallel_error ended first_err) ended) d
        ≡ stream_result (stream_error (sequential_error ended first_err) ended) d
  unfolding stream_error parallel_error sequential_error error_of_block
  same_error panics first_err d = refl
  same_error (fails e) none d = refl
  same_error (fails e) (some e') d = refl
  same_error (got tt) none d = refl
  same_error (got tt) (some e) d = refl

  -- Whatever the number of workers, the data blocks of an entry are streamed with the same result: the
  -- same state of the sink or the same error, and the reader is left at the same place.
  pub stream_data_blocks-workers :
      (workers : ℕ) (s : S) (b : Bytes)
      → stream_data_blocks open_with sink workers s b ≡ stream_data_blocks open_with sink 1 s b
  unfolding stream_data_blocks
  stream_data_blocks-workers workers s b =
      let start : Held S = record { held = s; first_err = none } in
      let fuel = suc (length b) in
      elim (Bool-cases (ltb workers 2)) [
        | inl one ↦ rw one refl
        | inr more ↦ rw more (
            rw (parallel-eq-sequential fuel start b) (
              ap (λ (r : Fallible S). (r, (sequential open_with sink fuel start b).1))
                (same_error (sequential open_with sink fuel start b).0.ended
                  (sequential open_with sink fuel start b).0.state.first_err
                  (sequential open_with sink fuel start b).0)))
      ]
