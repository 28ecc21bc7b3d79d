-- ===== src/Checkpoint.antt =====
-- archive/incremental.go: the checkpoint before the end marker of an incremental archive.
pub mod RoundTrip
use sarc.Prelude.{ℕ, zero, suc, ◌+◌, ◌-◌, ◌*◌, ◌^◌, ◌≤◌, ◌<◌}
use sarc.Prelude.{Bool, true, false, ◌||◌, not, List, [], ◌∷◌, ◌++◌}
use sarc.Prelude.{ltb, ◌!=◌, length, take, drop, replicate}
use sarc.Bytes.{Bytes}
use sarc.Bytes.LittleEndian.{le, from_le, read_le}
use sarc.Bytes.Slice.{cut, bytes_eq}
use sarc.Result.{Result, Error, ok, fail_if, ◌>>=◌, ◌>>◌}

-- `EntryTypeCheckpoint`, `checkpointMagic`, `checkpointStateSize`, `CheckpointSize`
abbrev pub entry_type_checkpoint : ℕ
entry_type_checkpoint = 5

abbrev pub checkpoint_magic : Bytes
checkpoint_magic = b'S' ∷ b'A' ∷ b'R' ∷ b'C' ∷ b'C' ∷ b'K' ∷ b'P' ∷ b'1' ∷ []

abbrev pub checkpoint_state_size : ℕ
checkpoint_state_size = 128

abbrev pub checkpoint_size : ℕ
checkpoint_size = 1 + 8 + 8 + 2 + checkpoint_state_size

pub record Checkpoint : Type 0 where
  pub last_index : ℕ
  pub hash_state : Bytes

-- the bytes of a checkpoint, less its padding
unfoldable pub encode_checkpoint : Checkpoint → Bytes
encode_checkpoint c =
    le 1 entry_type_checkpoint
    ++ (checkpoint_magic ++ (le 8 c.last_index ++ (le 2 (length c.hash_state) ++ c.hash_state)))

-- `Checkpoint.Marshal`
unfoldable pub marshal_checkpoint : Checkpoint → Result Bytes
marshal_checkpoint c = do
  fail_if (ltb checkpoint_state_size (length c.hash_state)) (Error.failed "hash state size")
  ok (encode_checkpoint c ++ replicate (checkpoint_size - length (encode_checkpoint c)) 0)

-- `ParseCheckpoint`
unfoldable pub parse_checkpoint : Bytes → Result Checkpoint
parse_checkpoint b = do
  fail_if
      (length b != checkpoint_size
        || from_le (take 1 b) != entry_type_checkpoint
        || not (bytes_eq (take 8 (drop 1 b)) checkpoint_magic))
      (Error.malformed_checkpoint "bad type or magic")
  (_, b1) ← cut 9 b
  (last_index, b2) ← read_le 8 b1
  (n, b3) ← read_le 2 b2
  fail_if (ltb checkpoint_state_size n) (Error.malformed_checkpoint "hash state too long")
  (state, _) ← cut n b3
  ok (record { last_index = last_index; hash_state = state })
