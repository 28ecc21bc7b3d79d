-- ===== src/Extractor/Blocks/Pool.antt =====
-- The goroutines of `decryptBlocksParallel` of io/decrypt_pipeline.go, interleaved in any order: the
-- dispatcher, which calls `next` and sends on the channels `ordered` and `jobs`, the workers, and the
-- consumer, which calls the sink.
use sarc.Prelude.{
  ℕ, suc, ◌+◌, ◌-◌, ◌*◌, ◌<◌, ◌≡◌, Bool, true, false, Option, none, some, List, [], ◌∷◌, ◌++◌,
  length,
}
use sarc.Bytes.{Bytes}
use sarc.Crypto.{EncryptedBlock}
use sarc.Reader.{Fallible, panics, fails, got}
use sarc.Extractor.Blocks.{BlockError, Opened, Held, take_opened, next_block}

-- `decryptPipelineDepth`
abbrev pub decrypt_pipeline_depth : ℕ
decrypt_pipeline_depth = 4

-- A block in flight and its result channel: the job is not yet sent, waits in `jobs`, is with a worker,
-- or its result is in the channel.
pub data Slot : Type 0 where
  unsent : EncryptedBlock → Slot
  queued : EncryptedBlock → Slot
  running : EncryptedBlock → Slot
  done : Opened → Slot

-- Where the dispatcher stands: before `next`, at `ordered <- resCh`, at `jobs <- job`, or at its end,
-- with both channels closed, for the error that `next` returned.
pub data Dispatcher : Type 0 where
  reading : Dispatcher
  offering : EncryptedBlock → Dispatcher
  sending : Dispatcher
  stopped : Fallible (Unit {0}) → Dispatcher

-- The pipeline between two steps. `slots` are the blocks in flight in the order of `ordered`; where
-- `waits` holds, the consumer has received the first of them from that channel, and waits for its result.
pub record Pool (S : Type 0) : Type 0 where
  pub input : Bytes
  pub dispatcher : Dispatcher
  pub slots : List Slot
  pub waits : Bool
  pub state : Held S

-- the pipeline before its first step
abbrev pub begin : {S : Type 0} → S → Bytes → Pool S
begin s b = record {
  input = b;
  dispatcher = reading;
  slots = [];
  waits = false;
  state = record { held = s; first_err = none };
}

abbrev pub is_queued : Slot → ℕ
is_queued (unsent b) = 0
is_queued (queued b) = 1
is_queued (running b) = 0
is_queued (done r) = 0

abbrev pub is_running : Slot → ℕ
is_running (unsent b) = 0
is_running (queued b) = 0
is_running (running b) = 1
is_running (done r) = 0

unfoldable pub total : (Slot → ℕ) → List Slot → ℕ
total f [] = 0
total f (s ∷ ss) = f s + total f ss

-- the slots in the channel `ordered`
abbrev pub in_channel : Bool → List Slot → ℕ
in_channel true ss = length ss - 1
in_channel false ss = length ss

-- How the dispatcher ends for what `next` returned; it goes on with a block.
abbrev pub ended_of : Fallible (Option EncryptedBlock) → Option (Fallible (Unit {0}))
ended_of panics = some panics
ended_of (fails e) = some (fails e)
ended_of (got none) = some (got tt)
ended_of (got (some block)) = none

module _ {S : Type 0} (open_with : EncryptedBlock → Opened) (sink : S → Bytes → Option S)
    (workers : ℕ) where
  -- The turn of the consumer for a result: after an error it only receives.
  abbrev pub take_result_unless : Option BlockError → Held S → Opened → Held S
  take_result_unless (some e) st r = st
  take_result_unless none st r = take_opened open_with sink st r

  abbrev pub take_result : Held S → Opened → Held S
  take_result st r = take_result_unless st.first_err st r

  pub data Step (s : Pool S) : Pool S → Type 0 where
    -- `next` returns a block
    reads :
        (block : EncryptedBlock) (rest : Bytes)
        → s.dispatcher ≡ reading
        → next_block s.input ≡ (got (some block), rest)
        → Step s (record s { input = rest; dispatcher = offering block })
    -- `next` returns no block: the dispatcher ends
    stops :
        (r : Fallible (Option EncryptedBlock)) (rest : Bytes) (ended : Fallible (Unit {0}))
        → s.dispatcher ≡ reading
        → next_block s.input ≡ (r, rest)
        → ended_of r ≡ some ended
        → Step s (record s { input = rest; dispatcher = stopped ended })
    -- `ordered <- resCh`, where the channel has room
    offers :
        (block : EncryptedBlock)
        → s.dispatcher ≡ offering block
        → in_channel s.waits s.slots < workers * decrypt_pipeline_depth
        → Step s (record s { slots = s.slots ++ unsent block ∷ []; dispatcher = sending })
    -- `jobs <- job`, where the channel has room
    sends :
        (front back : List Slot) (block : EncryptedBlock)
        → s.dispatcher ≡ sending
        → s.slots ≡ front ++ unsent block ∷ back
        → total is_queued s.slots < workers * decrypt_pipeline_depth
        → Step s (record s { slots = front ++ queued block ∷ back; dispatcher = reading })
    -- an idle worker receives the first job of the channel
    takes :
        (front back : List Slot) (block : EncryptedBlock)
        → s.slots ≡ front ++ queued block ∷ back
        → total is_queued front ≡ 0
        → total is_running s.slots < workers
        → Step s (record s { slots = front ++ running block ∷ back })
    -- a worker, whichever, sends the result of its job
    finishes :
        (front back : List Slot) (block : EncryptedBlock)
        → s.slots ≡ front ++ running block ∷ back
        → Step s (record s { slots = front ++ done (open_with block) ∷ back })
    -- the consumer receives from `ordered`
    receives :
        (slot : Slot) (rest : List Slot)
        → s.waits ≡ false
        → s.slots ≡ slot ∷ rest
        → Step s (record s { waits = true })
    -- the consumer receives the result that it waits for
    consumes :
        (r : Opened) (rest : List Slot)
        → s.waits ≡ true
        → s.slots ≡ done r ∷ rest
        → Step s (record s { waits = false; slots = rest; state = take_result s.state r })

  -- The states after `n` steps.
  pub data Reach (start : Pool S) : ℕ → Pool S → Type 0 where
    at_start : Reach start 0 start
    later : {n : ℕ} {s t : Pool S} → Reach start n s → Step s t → Reach start (suc n) t

-- The dispatcher has ended, and no block is in flight: the loop of the consumer ends.
abbrev pub IsFinished : {S : Type 0} → Fallible (Unit {0}) → Pool S → Type 0
IsFinished ended s = (s.dispatcher ≡ stopped ended) × (s.slots ≡ [])
