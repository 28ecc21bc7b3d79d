-- ===== src/Tests/Archives/Workers.antt =====
-- A run of the parallel pipeline over one block.
use sarc.Prelude.{
  ℕ, zero, suc, ◌+◌, ◌-◌, ◌*◌, ◌≤◌, ◌<◌, ◌≡◌, refl, ◌⊎◌, Bool, true, false, Option, some, none,
  List, [], ◌∷◌, ◌++◌, arith, length, replicate,
}
use sarc.Bytes.{Bytes}
use sarc.Metadata.{codec_none}
use sarc.Crypto.{EncryptedBlock}
use sarc.Reader.{Fallible, got}
use sarc.Extractor.Blocks.{Opened, next_block, open_block, finish_parallel, stream_data_blocks}
use sarc.Extractor.Blocks.Pool.{
  Slot, unsent, queued, running, done, Dispatcher, reading, offering, sending, stopped, Pool, begin,
  take_result, Step, reads, stops, offers, sends, takes, finishes, receives, consumes, Reach,
  at_start, later, IsFinished,
}
use sarc.Extractor.Blocks.Progress.{Reach-stream_data_blocks}
use sarc.Tests.Archives.{toy}

abbrev the_block : EncryptedBlock
the_block = record { nonce = replicate 12 9; ciphertext = 1 ∷ 2 ∷ replicate 16 0 }

abbrev behind : Bytes
behind = replicate 16 0 ++ (5 ∷ [])

abbrev some_input : Bytes
some_input = replicate 12 9 ++ ((18 ∷ 0 ∷ 0 ∷ 0 ∷ []) ++ ((1 ∷ 2 ∷ replicate 16 0) ++ behind))

block_read : next_block some_input ≡ (got (some the_block), behind)
unfolding next_block sarc.Extractor.Blocks.behind_nonce replicate sarc.Reader.read_full
    sarc.Prelude.drop sarc.Extractor.Blocks.sized_block sarc.Bytes.LittleEndian.from_le
    sarc.Prelude.take
block_read = refl

end_read : next_block behind ≡ (got none, 5 ∷ [])
unfolding next_block sarc.Extractor.Blocks.behind_nonce replicate sarc.Reader.read_full
    sarc.Prelude.drop sarc.Extractor.Blocks.sized_block sarc.Bytes.LittleEndian.from_le
    sarc.Prelude.take
end_read = refl

abbrev opens : EncryptedBlock → Opened
opens = open_block toy some (replicate 32 1) codec_none

abbrev collects : Bytes → Bytes → Option Bytes
collects out b = some (out ++ b)

-- the pipeline with its block in flight
abbrev in_flight : Dispatcher → List Slot → Bool → Pool Bytes
in_flight d ss w = record {
  input = behind;
  dispatcher = d;
  slots = ss;
  waits = w;
  state = record { held = []; first_err = none };
}

abbrev with_result : Pool Bytes
with_result = in_flight reading (done (opens the_block) ∷ []) true

abbrev consumed : Pool Bytes
consumed = record with_result {
  waits = false;
  slots = [];
  state = take_result opens collects 2 with_result.state (opens the_block);
}

abbrev finished : Pool Bytes
finished = record consumed { input = 5 ∷ []; dispatcher = stopped (got tt) }

abbrev Runs : ℕ → Pool Bytes → Type 0
Runs n t = Reach opens collects 2 (begin [] some_input) n t

run_offering : Runs 1 (in_flight (offering the_block) [] false)
run_offering = later at_start (reads the_block behind refl block_read)

run_sending : Runs 2 (in_flight sending (unsent the_block ∷ []) false)
run_sending = later run_offering (offers the_block refl (omega arith))

run_queued : Runs 3 (in_flight reading (queued the_block ∷ []) false)
unfolding sarc.Extractor.Blocks.Pool.total
run_queued = later run_sending (sends [] [] the_block refl refl (omega arith))

run_taken : Runs 4 (in_flight reading (running the_block ∷ []) false)
unfolding sarc.Extractor.Blocks.Pool.total
run_taken = later run_queued (takes [] [] the_block refl refl (omega arith))

run_done : Runs 5 (in_flight reading (done (opens the_block) ∷ []) false)
run_done = later run_taken (finishes [] [] the_block refl)

run_waits : Runs 6 with_result
run_waits = later run_done (receives (done (opens the_block)) [] refl refl)

run_consumed : Runs 7 consumed
run_consumed = later run_waits (consumes (opens the_block) [] refl refl)

run_finished : Runs 8 finished
run_finished = later run_consumed (stops (got none) (5 ∷ []) (got tt) refl end_read refl)

Reach-stream_data_blocks_example :
    (8 ≤ 7 * length some_input + 2)
    × (((ended : Fallible (Unit {0})) × IsFinished ended finished
          × (finish_parallel opens collects
                (record { state = finished.state; ended = ended }, finished.input)
              ≡ stream_data_blocks opens collects 1 [] some_input)
          × (stream_data_blocks opens collects 2 [] some_input
              ≡ stream_data_blocks opens collects 1 [] some_input))
        ⊎ ((t : Pool Bytes) × Step opens collects 2 finished t))
Reach-stream_data_blocks_example =
    Reach-stream_data_blocks opens collects 2 [] some_input 8 finished (omega arith) run_finished
