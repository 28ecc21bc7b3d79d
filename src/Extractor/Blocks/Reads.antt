-- ===== src/Extractor/Blocks/Reads.antt =====
-- The data blocks that a writer wrote are opened again.
use sarc.Prelude.{
  ℕ, zero, suc, ◌^◌, ◌≤◌, ◌<◌, ◌≡◌, refl, ap, ◌∙◌, false, Option, none, some, List, [], ◌∷◌, ◌++◌,
  append-nil, append_assoc, All, arith,
}
use sarc.Prelude.{ltb, length, replicate, length-append, le→ltb}
use sarc.Bytes.{Bytes}
use sarc.Bytes.LittleEndian.{le, length-le, from_le-le}
use sarc.Bytes.Slice.{drop-append_eq, take-append_eq}
use sarc.Crypto.{Primitives, IsAead, EncryptedBlock, encrypt_block, decrypt_block, nonce_size}
use sarc.Metadata.{codec_none}
use sarc.Format.{DataBlock}
use sarc.Writer.Layout
use sarc.Writer.{sentinel}
use sarc.Reader.{got, read_full-append}
use sarc.Extractor.Framing.{max_block_ciphertext, max_payload_size}
use sarc.Extractor.Framing.Skips.{IsFramed, size_tests}
use sarc.Extractor.Blocks.{
  Opened, Held, sized_block, behind_nonce, next_block, opened_payload, open_block, sunk,
  take_opened, take_unless, take_block, sequential, sequential_turn, sequential_error,
  error_of_block, stream_error, stream_result, stream_data_blocks, decrypt_data_blocks,
}
use sarc.Extractor.Blocks.Pipeline.{stream_data_blocks-workers}

-- the block that a DataBlock is to the crypto package
abbrev pub encrypted : DataBlock → EncryptedBlock
encrypted db = record { nonce = db.nonce; ciphertext = db.ciphertext }

next_block-sized :
    (nonce : Bytes) (n : ℕ) (rest : Bytes)
    → length nonce ≡ nonce_size
    → n < 2 ^ 32
    → next_block (nonce ++ (le 4 n ++ rest)) ≡ sized_block nonce n rest
unfolding next_block behind_nonce
next_block-sized nonce n rest h small =
    rw
      (le→ltb (length (nonce ++ (le 4 n ++ rest))) nonce_size
        (omega (arith, h, length-append nonce (le 4 n ++ rest))))
      (rw
        (
          take-append_eq nonce_size nonce (le 4 n ++ rest) h,
          drop-append_eq nonce_size nonce (le 4 n ++ rest) h,
        )
        (rw (read_full-append 4 _ (le 4 n) rest (length-le 4 n))
          (rw (from_le-le 4 n (omega (arith, small))) refl)))

next_block-data_block :
    (db : DataBlock) (rest : Bytes)
    → IsFramed db
    → next_block (db.nonce ++ (le 4 (length db.ciphertext) ++ (db.ciphertext ++ rest)))
      ≡ (got (some (encrypted db)), rest)
unfolding sized_block
next_block-data_block db rest f =
    let (some_bytes, in_range) = size_tests (length db.ciphertext) f.least f.most in
    next_block-sized db.nonce (length db.ciphertext) (db.ciphertext ++ rest) f.nonce
      (omega (arith, f.most))
    ∙ rw some_bytes (
        rw (not_more (length db.ciphertext) f.most)
          (rw (read_full-append (length db.ciphertext) _ db.ciphertext rest refl) refl))
  where
    not_more : (n : ℕ) → n ≤ max_block_ciphertext → ltb max_block_ciphertext n ≡ false
    not_more n q = ground arith

next_block-sentinel : (rest : Bytes) → next_block (sentinel ++ rest) ≡ (got none, rest)
unfolding sized_block replicate le
next_block-sentinel rest = next_block-sized (replicate nonce_size 0) 0 rest refl (omega arith)

module _ {S : Type 0} (open_with : EncryptedBlock → Opened) (sink : S → Bytes → Option S) where
  -- the pipeline's state after these blocks
  unfoldable pub taken : Held S → List DataBlock → Held S
  taken st [] = st
  taken st (db ∷ dbs) = taken (take_block open_with sink st (encrypted db)) dbs

  -- The reader takes each block of the writer, in order, and stops behind the block of no bytes.
  pub sequential-append :
      (fuel : ℕ) (st : Held S) (dbs : List DataBlock) (rest : Bytes)
      → All IsFramed dbs
      → length (Layout.data_blocks dbs) < fuel
      → sequential open_with sink fuel st (Layout.data_blocks dbs ++ (sentinel ++ rest))
        ≡ (record { state = taken st dbs; ended = got tt }, rest)
  unfolding sequential Layout.data_blocks Layout.data_block taken
  sequential-append zero st dbs rest framed enough = absurd (omega arith)
  sequential-append (suc fuel) st [] rest framed enough = rw (next_block-sentinel rest) refl
  sequential-append (suc fuel) st (db ∷ dbs) rest (f, framed) enough =
      let left = Layout.data_blocks dbs ++ (sentinel ++ rest) in
      let shape : (db.nonce
              ++ (le 4 (length db.ciphertext) ++ db.ciphertext)
              ++ Layout.data_blocks dbs)
            ++ (sentinel ++ rest)
          ≡ db.nonce ++ (le 4 (length db.ciphertext) ++ (db.ciphertext ++ left)) =
        simp append_assoc in
      ap
        (λ (b : Bytes).
          sequential_turn open_with sink (next_block b) st (sequential open_with sink fuel))
        shape
      ∙ rw (next_block-data_block db left f) (
          sequential-append fuel (take_block open_with sink st (encrypted db)) dbs rest framed (
            omega (
              arith,
              length-append (db.nonce ++ (le 4 (length db.ciphertext) ++ db.ciphertext))
                  (Layout.data_blocks dbs),
              length-append db.nonce (le 4 (length db.ciphertext) ++ db.ciphertext),
              f.nonce,
            )))

-- `DataBlock`s that an EncryptionManager for `key` makes of payloads, each with its nonce
unfoldable pub seal_payloads : Primitives → Bytes → List (Bytes × Bytes) → List DataBlock
seal_payloads p key [] = []
seal_payloads p key ((nonce, payload) ∷ chunks) =
    let b = encrypt_block p key nonce payload in
    record { nonce = b.nonce; ciphertext = b.ciphertext } ∷ seal_payloads p key chunks

unfoldable pub payloads : List (Bytes × Bytes) → Bytes
payloads [] = []
payloads ((nonce, payload) ∷ chunks) = payload ++ payloads chunks

-- What the writer sees to: nonces of NonceSize bytes, payloads of at most MaxPayloadSize.
abbrev pub IsChunk : Bytes × Bytes → Type 0
IsChunk (nonce, payload) = (length nonce ≡ nonce_size) × (length payload ≤ max_payload_size)

module _ (p : Primitives) (aead : IsAead p) (key : Bytes) where
  pub seal_payloads-IsFramed :
      (chunks : List (Bytes × Bytes))
      → All IsChunk chunks
      → All IsFramed (seal_payloads p key chunks)
  unfolding seal_payloads encrypt_block
  seal_payloads-IsFramed [] h = tt
  seal_payloads-IsFramed ((nonce, payload) ∷ chunks) ((hn, hp), h) = (
    record {
      nonce = hn;
      least = omega (arith, aead.length-seal key nonce payload);
      most = omega (arith, hp, aead.length-seal key nonce payload);
    },
    seal_payloads-IsFramed chunks h,
  )

  module _ (decode_all : Bytes → Option Bytes) where
    take_block-sealed :
        (out nonce payload : Bytes)
        → take_block
            (open_block p decode_all key codec_none)
            (λ out pt. some (out ++ pt))
            (record { held = out; first_err = none })
            (encrypt_block p key nonce payload)
          ≡ record { held = out ++ payload; first_err = none }
    unfolding take_unless open_block decrypt_block encrypt_block opened_payload take_opened sunk
    take_block-sealed out nonce payload = rw (aead.open-seal key nonce payload) refl

    taken-sealed :
        (out : Bytes) (chunks : List (Bytes × Bytes))
        → taken
            (open_block p decode_all key codec_none)
            (λ out pt. some (out ++ pt))
            (record { held = out; first_err = none })
            (seal_payloads p key chunks)
          ≡ record { held = out ++ payloads chunks; first_err = none }
    unfolding taken seal_payloads payloads
    taken-sealed out [] = rw (append-nil out) refl
    taken-sealed out ((nonce, payload) ∷ chunks) =
        ap
          (λ (st : Held Bytes).
            taken (open_block p decode_all key codec_none) (λ out pt. some (out ++ pt)) st
              (seal_payloads p key chunks))
          (take_block-sealed out nonce payload)
        ∙ (taken-sealed (out ++ payload) chunks
            ∙ ap (λ (s : Bytes). record { held = s; first_err = none })
                (append_assoc out payload (payloads chunks)))

    -- With no codec, blocks that were sealed with a key from payloads of at most MaxPayloadSize, each
    -- with a nonce of NonceSize bytes, are opened with that key to the payloads joined, whatever the
    -- number of workers, if opening a sealed text gives it back; the reader stands behind the block of no bytes.
    pub decrypt_data_blocks-sealed :
        (workers : ℕ) (chunks : List (Bytes × Bytes)) (rest : Bytes)
        → All IsChunk chunks
        → decrypt_data_blocks p decode_all workers key codec_none
            (Layout.data_blocks (seal_payloads p key chunks) ++ (sentinel ++ rest))
          ≡ (got (payloads chunks), rest)
    unfolding decrypt_data_blocks stream_data_blocks sequential_error error_of_block stream_error
        stream_result
    decrypt_data_blocks-sealed workers chunks rest h =
        let opener = open_block p decode_all key codec_none in
        let b = Layout.data_blocks (seal_payloads p key chunks) ++ (sentinel ++ rest) in
        stream_data_blocks-workers opener (λ out pt. some (out ++ pt)) workers [] b
        ∙ rw
            (sequential-append opener (λ out pt. some (out ++ pt)) (suc (length b))
              (record { held = []; first_err = none }) (seal_payloads p key chunks) rest
              (seal_payloads-IsFramed chunks h)
              (omega (
                arith,
                length-append (Layout.data_blocks (seal_payloads p key chunks)) (sentinel ++ rest),
              )))
            (rw (taken-sealed [] chunks) refl)
