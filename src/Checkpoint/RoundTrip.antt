-- ===== src/Checkpoint/RoundTrip.antt =====
-- Checkpoints are read back, and no bytes make their parser panic.
use sarc.Prelude.{◌+◌, ◌-◌, ◌≤◌, ◌≡◌, ◌≢◌, refl, sym, ap, ◌∙◌, arith}
use sarc.Prelude.{false, ◌||◌, not, [], ◌++◌, append_assoc}
use sarc.Prelude.{ltb, ◌!=◌, le→ltb, length, take, drop, replicate, length-append, length-replicate}
use sarc.Prelude.Int.{IsU64}
use sarc.Bytes.{Bytes}
use sarc.Bytes.LittleEndian.{le, from_le, length-le, read_le-le, read_le_then}
use sarc.Bytes.Slice.{cut, bytes_eq, cut-append_eq, cut_then}
use sarc.Result.{ok, panic, on_fail_if, fail_if_then}
use sarc.Checkpoint.{
  Checkpoint, checkpoint_size, checkpoint_state_size, checkpoint_magic, entry_type_checkpoint,
  encode_checkpoint, marshal_checkpoint, parse_checkpoint,
}

length-encode_checkpoint :
    (c : Checkpoint) → length (encode_checkpoint c) ≡ 19 + length c.hash_state
unfolding encode_checkpoint
length-encode_checkpoint c = simp length-append (
    omega (
      arith,
      length-le 1 entry_type_checkpoint,
      length-le 8 c.last_index,
      length-le 2 (length c.hash_state),
    ))

-- the type and magic that a checkpoint starts with
started : Bytes → Bytes
started t = le 1 entry_type_checkpoint ++ (checkpoint_magic ++ t)

started_checks :
    (t : Bytes)
    → (from_le (take 1 (started t)) != entry_type_checkpoint
        || not (bytes_eq (take 8 (drop 1 (started t))) checkpoint_magic))
      ≡ false
unfolding started le from_le take drop bytes_eq
started_checks t = refl

cut-started : (t : Bytes) → cut 9 (started t) ≡ ok (started [], t)
unfolding started
cut-started t =
    ap (λ s. cut 9 s) (sym (append_assoc (le 1 entry_type_checkpoint) checkpoint_magic t))
    ∙ cut-append_eq 9 (le 1 entry_type_checkpoint ++ checkpoint_magic) t (unfold le in refl)

read_checkpoint :
    (c : Checkpoint) (pad : Bytes)
    → IsU64 c.last_index
    → length c.hash_state ≤ checkpoint_state_size
    → length (encode_checkpoint c ++ pad) ≡ checkpoint_size
    → parse_checkpoint (encode_checkpoint c ++ pad) ≡ ok c
unfolding parse_checkpoint
read_checkpoint c pad h small size =
    let tail : Bytes = le 8 c.last_index ++ (le 2 (length c.hash_state) ++ (c.hash_state ++ pad)) in
    let split : encode_checkpoint c ++ pad ≡ started tail =
      unfold encode_checkpoint started in simp append_assoc refl in
    let full : length (started tail) ≡ checkpoint_size = ap (λ s. length s) (sym split) ∙ size in
    rw split (
      rw (full, started_checks tail)
        (rw (cut-started tail) (
          rw (read_le-le 8 c.last_index _ (omega arith)) (
            rw (read_le-le 2 (length c.hash_state) _ (omega arith)) (
              rw (le→ltb checkpoint_state_size (length c.hash_state) small)
                (rw (cut-append_eq (length c.hash_state) c.hash_state pad refl)))))))

-- A checkpoint whose index offset fits 64 bits, marshalled with no error, takes CheckpointSize bytes
-- and is what ParseCheckpoint decodes.
pub parse_checkpoint-marshal :
    (c : Checkpoint) (b : Bytes)
    → IsU64 c.last_index
    → marshal_checkpoint c ≡ ok b
    → (length b ≡ checkpoint_size) × (parse_checkpoint b ≡ ok c)
unfolding marshal_checkpoint
parse_checkpoint-marshal c b h e =
    on_fail_if (ltb checkpoint_state_size (length c.hash_state)) _ _ e λ short is.
      let same : encode_checkpoint c ++ replicate (checkpoint_size - length (encode_checkpoint c)) 0
          ≡ b =
        cc is in
      let small : length c.hash_state ≤ checkpoint_state_size = ground arith in
      let size : length
            (encode_checkpoint c ++ replicate (checkpoint_size - length (encode_checkpoint c)) 0)
          ≡ checkpoint_size =
        simp (length-append, length-replicate) (omega (arith, length-encode_checkpoint c, small)) in
      rw⁻¹ same (
        size,
        read_checkpoint c (replicate (checkpoint_size - length (encode_checkpoint c)) 0) h small
            size,
      )

-- ParseCheckpoint never panics, whatever the bytes.
pub parse_checkpoint-ne-panic : (b : Bytes) → parse_checkpoint b ≢ panic
unfolding parse_checkpoint
parse_checkpoint-ne-panic b =
    fail_if_then
      (length b != checkpoint_size
        || from_le (take 1 b) != entry_type_checkpoint
        || not (bytes_eq (take 8 (drop 1 b)) checkpoint_magic))
      _ _
      λ sized.
        let size : length b ≡ checkpoint_size = ground arith in
        cut_then _ 9 b (omega arith) λ _ b1 _ n1. read_le_then _ 8 b1 (omega arith) λ last b2 n2.
          read_le_then _ 2 b2 (omega arith) λ n b3 n3.
            fail_if_then (ltb checkpoint_state_size n) _ _
              λ fits. cut_then _ n b3 (ground arith) λ _ _ _ _. λ p. cc
