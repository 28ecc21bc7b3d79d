-- ===== src/Tests/Sealing.antt =====
-- Examples of the checkpoint, the checksum and the opening of a recipient block.
use sarc.Prelude.{
  ℕ, ◌%◌, ◌≡◌, refl, List, [], ◌∷◌, ◌++◌, length, take, drop, replicate, append-nil, ap, true,
  arith, ◌!=◌,
}
use sarc.Result.{ok}
use sarc.Bytes.{Bytes}
use sarc.Bytes.LittleEndian.{from_le}
use sarc.Bytes.Slice.{bytes_eq}
use sarc.Checkpoint.{Checkpoint, checkpoint_size, marshal_checkpoint, parse_checkpoint}
use sarc.Checkpoint.RoundTrip.{parse_checkpoint-marshal}
use sarc.Checksum.{
  new_archive_checksum, has_layout, count_off, file_count_sealed_size, masked, writes, sum, magic,
}
use sarc.Checksum.Splitting.{sum-writes, sum-count}
use sarc.Recipients.{Stanza, encode_block, parse_recipient_block, of_kind}
use sarc.Recipients.Block.{parse_recipient_block-encode, IsBlock}
use sarc.Recipients.Unlock.{
  Unwrapping, Unlockers, opened, wrong_credential, key, no_matching_credential,
  open_recipient_block,
}
use sarc.Recipients.Credentials.{not_fitting, by_age, by_password}
use sarc.Recipients.Kinds.{first_kinds}
use sarc.Recipients.Opening.{
  IsOpenedBy, open_recipient_block-opened, open_recipient_block_key, open_recipient_block_empty,
}
use sarc.Tests.{bytes_of}

abbrev some_checkpoint : Checkpoint
some_checkpoint = record { last_index = 5000; hash_state = 7 ∷ 8 ∷ [] }

checkpoint_is :
    marshal_checkpoint some_checkpoint ≡ ok (bytes_of (marshal_checkpoint some_checkpoint))
unfolding marshal_checkpoint
checkpoint_is = refl

parse_checkpoint-marshal_example :
    (length (bytes_of (marshal_checkpoint some_checkpoint)) ≡ checkpoint_size)
    × (parse_checkpoint (bytes_of (marshal_checkpoint some_checkpoint)) ≡ ok some_checkpoint)
parse_checkpoint-marshal_example =
    parse_checkpoint-marshal some_checkpoint (bytes_of (marshal_checkpoint some_checkpoint))
      (omega arith) checkpoint_is

-- a hash that a test can compute
abbrev some_hash : Bytes → Bytes
some_hash b = length b ∷ []

-- a Version2 header with a recipient block of two bytes
abbrev some_front : Bytes
some_front = magic ++ (2 ∷ 0 ∷ 2 ∷ 0 ∷ 0 ∷ 0 ∷ 11 ∷ 12 ∷ [])

sum-writes_example :
    (sum some_hash (writes new_archive_checksum (some_front ∷ (1 ∷ []) ∷ [])) []).0
    ≡ some_hash (masked (some_front ++ (1 ∷ [])))
sum-writes_example = sum-writes some_hash (some_front ∷ (1 ∷ []) ∷ []) []

front_layout : has_layout some_front ≡ true
unfolding has_layout bytes_eq take drop from_le
front_layout = refl

front_ends : length some_front ≡ count_off some_front
unfolding count_off take drop from_le
front_ends = refl

count_size : (b : ℕ) → length {A = ℕ} (replicate 36 b) ≡ file_count_sealed_size
unfolding replicate
count_size b = refl

flag_set : (from_le (take 1 (1 ∷ 9 ∷ [])) % 2 != 0) ≡ true
unfolding from_le take
flag_set = refl

sum-count_example :
    (sum some_hash
      (writes new_archive_checksum (some_front ∷ (replicate 36 4 ++ (1 ∷ 9 ∷ [])) ∷ []))
      []).0
    ≡ (sum some_hash
        (writes new_archive_checksum ((some_front ++ (replicate 36 5 ++ (1 ∷ 9 ∷ []))) ∷ []))
        []).0
sum-count_example =
    sum-count some_hash some_front (replicate 36 4) (replicate 36 5) (1 ∷ 9 ∷ []) []
      (some_front ∷ (replicate 36 4 ++ (1 ∷ 9 ∷ [])) ∷ [])
      ((some_front ++ (replicate 36 5 ++ (1 ∷ 9 ∷ []))) ∷ []) front_layout front_ends (count_size 4)
      (count_size 5) (omega arith) flag_set
      (ap (λ s. some_front ++ s) (append-nil (replicate 36 4 ++ (1 ∷ 9 ∷ []))))
      (append-nil (some_front ++ (replicate 36 5 ++ (1 ∷ 9 ∷ []))))

-- Passwords open password stanzas, and every age stanza answers a wrong credential.
abbrev pub some_crypto : Unwrapping ℕ
some_crypto = record {
  with_password = λ w p. opened p;
  with_age = λ b ids. wrong_credential;
  with_key_file = λ w fs. wrong_credential;
  with_key_file_and_password = λ w fs p. wrong_credential;
}

abbrev pub some_unlockers : Unlockers ℕ
some_unlockers = record { password = 42 ∷ []; key_files = []; identities = 1 ∷ [] }

abbrev pub an_age_stanza : Stanza
an_age_stanza = record { kind = 2; body = 5 ∷ [] }

abbrev pub a_password_stanza : Stanza
a_password_stanza = record { kind = 1; body = replicate 96 4 }

two_stanzas : IsBlock (an_age_stanza ∷ a_password_stanza ∷ [])
unfolding of_kind replicate
two_stanzas = (omega arith, omega arith, (refl, refl, omega arith, (refl, refl, omega arith, tt)))

two_parsed :
    parse_recipient_block (encode_block (an_age_stanza ∷ a_password_stanza ∷ []))
    ≡ ok (an_age_stanza ∷ a_password_stanza ∷ [])
two_parsed = parse_recipient_block-encode (an_age_stanza ∷ a_password_stanza ∷ []) two_stanzas

opened_by : IsOpenedBy some_crypto some_unlockers (an_age_stanza ∷ a_password_stanza ∷ []) (42 ∷ [])
opened_by = (
  an_age_stanza ∷ [],
  a_password_stanza,
  [],
  refl,
  (not_fitting (by_age refl (omega arith)), tt),
  by_password refl (omega arith),
)

open_recipient_block-opened_example :
    open_recipient_block some_crypto some_unlockers
      (encode_block (an_age_stanza ∷ a_password_stanza ∷ []))
    ≡ ok (key (42 ∷ []))
open_recipient_block-opened_example =
    open_recipient_block-opened some_crypto some_unlockers
      (encode_block (an_age_stanza ∷ a_password_stanza ∷ []))
      (an_age_stanza ∷ a_password_stanza ∷ []) (42 ∷ []) two_parsed opened_by

pub opens_to_key :
    open_recipient_block some_crypto some_unlockers
      (encode_block (an_age_stanza ∷ a_password_stanza ∷ []))
    ≡ ok (key (42 ∷ []))
opens_to_key =
    open_recipient_block-opened some_crypto some_unlockers
      (encode_block (an_age_stanza ∷ a_password_stanza ∷ []))
      (an_age_stanza ∷ a_password_stanza ∷ []) (42 ∷ []) two_parsed opened_by

open_recipient_block_key_example :
    (ss : List Stanza) × (parse_recipient_block
        (encode_block (an_age_stanza ∷ a_password_stanza ∷ []))
      ≡ ok ss)
    × IsOpenedBy some_crypto some_unlockers ss (42 ∷ [])
open_recipient_block_key_example =
    open_recipient_block_key some_crypto some_unlockers
      (encode_block (an_age_stanza ∷ a_password_stanza ∷ [])) (42 ∷ []) opens_to_key

open_recipient_block_empty_example :
    open_recipient_block some_crypto
      (record { password = []; key_files = []; identities = [] })
      (encode_block (an_age_stanza ∷ a_password_stanza ∷ []))
    ≡ ok (no_matching_credential (first_kinds (an_age_stanza ∷ a_password_stanza ∷ [])))
open_recipient_block_empty_example =
    open_recipient_block_empty some_crypto (encode_block (an_age_stanza ∷ a_password_stanza ∷ []))
      (an_age_stanza ∷ a_password_stanza ∷ []) two_parsed
