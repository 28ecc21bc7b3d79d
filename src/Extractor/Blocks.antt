-- ===== src/Extractor/Blocks.antt =====
-- io/extractor.go and io/decrypt_pipeline.go: reading, opening and handing on the data blocks of an
-- entry. Pool has the goroutines of the parallel pipeline, step by step; `parallel` here is only what
-- they come to: all that the dispatcher sends, taken by the consumer in the order it was sent.
pub mod Pipeline
pub mod Reads
pub mod Rest
pub mod Pool
pub mod Schedules
pub mod Steps
pub mod Progress
use sarc.Prelude.{
  ℕ, zero, suc, ◌+◌, ◌-◌, ◌≡◌, Bool, true, false, Option, none, some, List, [], ◌∷◌, ◌++◌,
}
use sarc.Prelude.{ltb, leb, ◌==◌, if◌then◌else◌, length, take, drop}
use sarc.Bytes.{Bytes}
use sarc.Bytes.LittleEndian.{from_le}
use sarc.Crypto.{Primitives, EncryptedBlock, decrypt_block, nonce_size}
use sarc.Metadata.{codec_none, codec_zstd}
use sarc.Reader.{
  ArchiveError, fatal, recoverable, truncated, integrity_fail, auth_failed, write_failed, Fallible,
  panics, fails, got, Reading, pure, fail, after, ◌>>=◌, reject_if, read_full,
}
use sarc.Extractor.Framing.{max_block_ciphertext, max_chunk_size}

-- The end of `next`, for a block of `size` bytes.
unfoldable pub sized_block : Bytes → ℕ → Reading (Option EncryptedBlock)
sized_block nonce size =
    if size == 0
    then pure none
    else reject_if (ltb max_block_ciphertext size)
        (fatal integrity_fail "block size exceeds maximum")
        (do
          ct ← read_full size (recoverable truncated "read block ciphertext")
          pure (some (record { nonce = nonce; ciphertext = ct })))

unfoldable pub behind_nonce : Bytes → Reading (Option EncryptedBlock)
behind_nonce nonce = do
  size_buf ← read_full 4 (recoverable truncated "read block size")
  sized_block nonce (from_le size_buf)

-- `next` of `streamDataBlocks`: none at a block of no bytes, and where a nonce is cut short
unfoldable pub next_block : Reading (Option EncryptedBlock)
next_block b =
    if ltb (length b) nonce_size
    then (got none, [])
    else behind_nonce (take nonce_size b) (drop nonce_size b)

-- Why a block was not handed on: the tag, the codec, or the sink.
pub data BlockError : Type 0 where
  open_error decompress_error sink_error : BlockError

pub data Opened : Type 0 where
  plain : Bytes → Opened
  refused : BlockError → Opened

-- `Decompress` of a BlockDecompressor for at most `limit` bytes, over DecodeAll of zstd
unfoldable pub within_limit : ℕ → Option Bytes → Option Bytes
within_limit limit none = none
within_limit limit (some out) = if ltb limit (length out) then none else some out

unfoldable pub decompress : (Bytes → Option Bytes) → ℕ → Bytes → Option Bytes
decompress decode_all limit src = within_limit limit (decode_all src)

unfoldable pub decoded : Option Bytes → Opened
decoded none = refused decompress_error
decoded (some pt) = plain pt

-- the `DecryptBlock` of an opener, for the text that the cipher opened
unfoldable pub opened_payload : (Bytes → Option Bytes) → ℕ → Option Bytes → Opened
opened_payload decode_all codec none = refused open_error
opened_payload decode_all codec (some payload) =
    if codec == codec_zstd
    then decoded (decompress decode_all max_chunk_size payload)
    else plain payload

unfoldable pub open_block :
    Primitives → (Bytes → Option Bytes) → Bytes → ℕ → EncryptedBlock → Opened
open_block p decode_all key codec block =
    opened_payload decode_all codec (decrypt_block p key block)

-- What a blockSink holds, and the `firstErr` of a pipeline.
pub record Held (S : Type 0) : Type 0 where
  pub held : S
  pub first_err : Option BlockError

-- A pipeline at its end; `ended` is what the last call of `next` returned: its error if it failed.
pub record Drained (S : Type 0) : Type 0 where
  pub state : Held S
  pub ended : Fallible (Unit {0})

-- The error that a pipeline returns.
pub data Failure : Type 0 where
  of_block : BlockError → Failure
  of_read : ArchiveError → Failure

module _ {S : Type 0} (open_with : EncryptedBlock → Opened) (sink : S → Bytes → Option S) where
  unfoldable pub sunk : Held S → Option S → Held S
  sunk st none = record st { first_err = some sink_error }
  sunk st (some s) = record st { held = s }

  unfoldable pub take_opened : Held S → Opened → Held S
  take_opened st (refused e) = record st { first_err = some e }
  take_opened st (plain pt) = sunk st (sink st.held pt)

  -- what the loop does with a block after an error, and without
  unfoldable pub take_unless : Option BlockError → Held S → EncryptedBlock → Held S
  take_unless (some e) st block = st
  take_unless none st block = take_opened st (open_with block)

  abbrev pub take_block : Held S → EncryptedBlock → Held S
  take_block st block = take_unless st.first_err st block

  -- the loop of `decryptBlocksSequential`, after a call of `next` and with the turns that are left
  abbrev pub sequential_turn :
      Fallible (Option EncryptedBlock) × Bytes
      → Held S
      → (Held S → Bytes → Drained S × Bytes)
      → Drained S × Bytes
  sequential_turn (panics, b) st rest = (record { state = st; ended = panics }, b)
  sequential_turn (fails e, b) st rest = (record { state = st; ended = fails e }, b)
  sequential_turn (got none, b) st rest = (record { state = st; ended = got tt }, b)
  sequential_turn (got (some block), b) st rest = rest (take_block st block) b

  unfoldable pub sequential : ℕ → Held S → Bytes → Drained S × Bytes
  sequential zero st b = (record { state = st; ended = panics }, b)
  sequential (suc fuel) st b = sequential_turn (next_block b) st (sequential fuel)

  -- the consumer of `decryptBlocksParallel`
  unfoldable pub consume : Held S → List EncryptedBlock → Held S
  consume st [] = st
  consume st (block ∷ blocks) = consume (take_block st block) blocks

-- The dispatcher of `decryptBlocksParallel`: the blocks that it sends, and how it ends.
abbrev pub Dispatched : Type 0
Dispatched = List EncryptedBlock × Fallible (Unit {0}) × Bytes

abbrev pub dispatch_turn :
    Fallible (Option EncryptedBlock) × Bytes → (Bytes → Dispatched) → Dispatched
dispatch_turn (panics, b) rest = ([], panics, b)
dispatch_turn (fails e, b) rest = ([], fails e, b)
dispatch_turn (got none, b) rest = ([], got tt, b)
dispatch_turn (got (some block), b) rest =
    let (blocks, ended, b') = rest b in (block ∷ blocks, ended, b')

unfoldable pub dispatch : ℕ → Bytes → Dispatched
dispatch zero b = ([], panics, b)
dispatch (suc fuel) b = dispatch_turn (next_block b) (dispatch fuel)

-- What the sequential and the parallel pipeline return: both failed, one returns the error of `next`
-- and the other the first of the blocks'.
unfoldable pub error_of_block : Option BlockError → Option Failure
error_of_block none = none
error_of_block (some e) = some (of_block e)

unfoldable pub sequential_error : Fallible (Unit {0}) → Option BlockError → Option Failure
sequential_error (fails e) first_err = some (of_read e)
sequential_error (got tt) first_err = error_of_block first_err
sequential_error panics first_err = none

unfoldable pub parallel_error : Fallible (Unit {0}) → Option BlockError → Option Failure
parallel_error panics first_err = none
parallel_error (fails e) (some e') = some (of_block e')
parallel_error (fails e) none = some (of_read e)
parallel_error (got tt) (some e) = some (of_block e)
parallel_error (got tt) none = none

-- The end of `streamDataBlocks`: `readErr` is the error that `next` left.
unfoldable pub failure_error : Failure → ArchiveError
failure_error (of_read e) = e
failure_error (of_block sink_error) = recoverable write_failed "write file"
failure_error (of_block decompress_error) = recoverable integrity_fail "decompress block"
failure_error (of_block open_error) = recoverable auth_failed "decrypt block"

unfoldable pub stream_error : Option Failure → Fallible (Unit {0}) → Option ArchiveError
stream_error none ended = none
stream_error (some failure) (fails read_err) = some read_err
stream_error (some failure) (got tt) = some (failure_error failure)
stream_error (some failure) panics = some (failure_error failure)

unfoldable pub stream_result : {S : Type 0} → Option ArchiveError → Drained S → Fallible S
stream_result (some e) d = fails e
stream_result none d = elim d.ended [ panics ↦ panics | _ ↦ got d.state.held ]

module _ {S : Type 0} (open_with : EncryptedBlock → Opened) (sink : S → Bytes → Option S) where
  -- What the goroutines of `decryptBlocksParallel` come to, for two workers or more.
  unfoldable pub parallel : ℕ → Held S → Bytes → Drained S × Bytes
  parallel fuel st b =
      let (blocks, ended, rest) = dispatch fuel b in
      (record { state = consume open_with sink st blocks; ended = ended }, rest)

  abbrev pub finish_sequential : Drained S × Bytes → Fallible S × Bytes
  finish_sequential (d, rest) =
      (stream_result (stream_error (sequential_error d.ended d.state.first_err) d.ended) d, rest)

  abbrev pub finish_parallel : Drained S × Bytes → Fallible S × Bytes
  finish_parallel (d, rest) =
      (stream_result (stream_error (parallel_error d.ended d.state.first_err) d.ended) d, rest)

  -- `streamDataBlocks` with a number of workers; the fuel is for each block that can be read and one
  -- more turn
  unfoldable pub stream_data_blocks : ℕ → S → Reading S
  stream_data_blocks workers s b =
      let start : Held S = record { held = s; first_err = none } in
      if ltb workers 2
      then finish_sequential (sequential open_with sink (suc (length b)) start b)
      else finish_parallel (parallel (suc (length b)) start b)

-- `decryptDataBlocks`, which collects the plaintext
unfoldable pub decrypt_data_blocks :
    Primitives → (Bytes → Option Bytes) → ℕ → Bytes → ℕ → Reading Bytes
decrypt_data_blocks p decode_all workers key codec =
    stream_data_blocks (open_block p decode_all key codec) (λ out pt. some (out ++ pt)) workers []
