-- ===== src/Extractor/Framing/Skips.antt =====
-- Skipping an entry consumes exactly what the writer wrote of it, and skipping always ends.
use sarc.Prelude.{
  ℕ, zero, suc, ◌+◌, ◌-◌, ◌^◌, ◌≤◌, ◌<◌, ◌≡◌, ◌≢◌, refl, ap, ◌∙◌, false, ◌||◌, Option, none, some,
  List, [], ◌∷◌, ◌++◌, append_assoc, All,
}
use sarc.Prelude.{ltb, ◌==◌, length, drop, replicate, length-append, arith}
use sarc.Prelude.{length-replicate}
use sarc.Bytes.{Bytes}
use sarc.Bytes.LittleEndian.{le, from_le, length-le, from_le-le}
use sarc.Bytes.Slice.{drop-append_eq}
use sarc.Crypto.{nonce_size, gcm_tag_size}
use sarc.Format.{DataBlock, FileTrailer, FileEntry}
use sarc.Writer.Layout
use sarc.Writer.{sentinel}
use sarc.Reader.{
  ArchiveError, panics, got, Reading, read_full, read_full-append, discard-append, read_full_then,
  discard_then, if_then, if_then_at, after_then, pure, discard-ne-panics, got-ne-panics,
  fails-ne-panics,
}
use sarc.Extractor.Framing.{
  skip_padding, skip_block, skip_blocks, skip_data_blocks, return_cause, skip_trailer,
  skip_entry_body, max_block_ciphertext, trailer_payload_size,
}

-- What the writer of an entry sees to: the sizes that the reader accepts.
pub record IsFramed (db : DataBlock) : Type 0 where
  pub nonce : length db.nonce ≡ nonce_size
  pub least : gcm_tag_size ≤ length db.ciphertext
  pub most : length db.ciphertext ≤ max_block_ciphertext

pub record IsSealedTrailer (t : FileTrailer) : Type 0 where
  pub padding : length t.random_padding < 2 ^ 32
  pub nonce : length t.plaintext_hmac_nonce ≡ nonce_size
  pub sealed : length t.plaintext_hmac_sealed ≤ trailer_payload_size + gcm_tag_size
  pub checksum : length t.entry_checksum ≡ 8

pub record IsBody (e : FileEntry) : Type 0 where
  pub padding : length e.inter_block_pad < 2 ^ 32
  pub blocks : All IsFramed e.data_blocks
  pub trailer : IsSealedTrailer e.trailer

-- the payload bytes of some blocks, less their tags
unfoldable pub payload_size : List DataBlock → ℕ
payload_size [] = 0
payload_size (db ∷ dbs) = (length db.ciphertext - gcm_tag_size) + payload_size dbs

fits4 : (n : ℕ) → n < 2 ^ 32 → n < 256 ^ 4
fits4 n h = omega arith

-- A size that is written before its bytes is read back.
pub skip_padding-sized :
    (e : ArchiveError) (pad rest : Bytes)
    → length pad < 2 ^ 32
    → skip_padding e (Layout.sized pad ++ rest) ≡ (got tt, rest)
unfolding skip_padding
skip_padding-sized e pad rest h = rw (append_assoc (le 4 (length pad)) pad rest) (
    rw (read_full-append 4 e (le 4 (length pad)) (pad ++ rest) (length-le 4 (length pad))) (
      rw (from_le-le 4 (length pad) (fits4 (length pad) h))
        (discard-append (length pad) e pad rest refl)))

-- The header of a block: a nonce, and the size behind it.
pub read_full-sized_header :
    (e : ArchiveError) (nonce : Bytes) (n : ℕ) (rest : Bytes)
    → length nonce ≡ nonce_size
    → read_full (nonce_size + 4) e (nonce ++ (le 4 n ++ rest)) ≡ (got (nonce ++ le 4 n), rest)
read_full-sized_header e nonce n rest h = rw⁻¹ (append_assoc nonce (le 4 n) rest) (
    read_full-append (nonce_size + 4) e (nonce ++ le 4 n) rest
      (omega (arith, h, length-append nonce (le 4 n), length-le 4 n)))

pub size_in_header :
    (nonce : Bytes) (n : ℕ)
    → length nonce ≡ nonce_size
    → n < 2 ^ 32
    → from_le (drop nonce_size (nonce ++ le 4 n)) ≡ n
size_in_header nonce n h small =
    ap from_le (drop-append_eq nonce_size nonce (le 4 n) h) ∙ from_le-le 4 n (fits4 n small)

pub size_tests :
    (n : ℕ)
    → gcm_tag_size ≤ n
    → n ≤ max_block_ciphertext
    → (n == 0 ≡ false) × ((ltb max_block_ciphertext n || ltb n gcm_tag_size) ≡ false)
size_tests n lo hi = ground arith

skip_block-append :
    (stored : ℕ) (next : ℕ → Reading ℕ) (ct rest : Bytes)
    → gcm_tag_size ≤ length ct
    → length ct ≤ max_block_ciphertext
    → skip_block (length ct) stored next (ct ++ rest)
      ≡ next (stored + (length ct - gcm_tag_size)) rest
unfolding skip_block
skip_block-append stored next ct rest lo hi =
    let (some_bytes, in_range) = size_tests (length ct) lo hi in
    rw some_bytes (rw in_range (rw (discard-append (length ct) _ ct rest refl) refl))

-- Blocks of the writer, and the block of no bytes behind them.
skip_blocks-append :
    (fuel stored : ℕ) (dbs : List DataBlock) (rest : Bytes)
    → All IsFramed dbs
    → length (Layout.data_blocks dbs) < fuel
    → skip_blocks fuel stored (Layout.data_blocks dbs ++ (sentinel ++ rest))
      ≡ (got (stored + payload_size dbs), rest)
unfolding skip_blocks Layout.data_blocks payload_size Layout.data_block
skip_blocks-append zero stored dbs rest framed fuel = absurd (omega arith)
skip_blocks-append (suc fuel) stored [] rest framed enough =
    rw (read_full-append (nonce_size + 4) _ sentinel rest (length-replicate (nonce_size + 4) 0))
      (unfold skip_block replicate drop from_le in ap (λ n. (got n, rest)) (omega arith))
skip_blocks-append (suc fuel) stored (db ∷ dbs) rest (f, framed) enough =
    let left = Layout.data_blocks dbs ++ (sentinel ++ rest) in
    let shape : (db.nonce
            ++ (le 4 (length db.ciphertext) ++ db.ciphertext)
            ++ Layout.data_blocks dbs)
          ++ (sentinel ++ rest)
        ≡ db.nonce ++ (le 4 (length db.ciphertext) ++ (db.ciphertext ++ left)) =
      simp append_assoc in
    rw shape (
      rw (read_full-sized_header _ db.nonce (length db.ciphertext) (db.ciphertext ++ left) f.nonce)
        (rw (size_in_header db.nonce (length db.ciphertext) f.nonce (omega (arith, f.most))) (
          rw (skip_block-append stored (skip_blocks fuel) db.ciphertext left f.least f.most) (
            rw
              (skip_blocks-append fuel (stored + (length db.ciphertext - gcm_tag_size)) dbs rest
                framed
                (omega (
                  arith,
                  length-append (db.nonce ++ (le 4 (length db.ciphertext) ++ db.ciphertext))
                      (Layout.data_blocks dbs),
                  length-append db.nonce (le 4 (length db.ciphertext) ++ db.ciphertext),
                  f.nonce,
                )))
              (ap (λ n. (got n, rest)) (omega arith))))))

pub skip_data_blocks-append :
    (dbs : List DataBlock) (rest : Bytes)
    → All IsFramed dbs
    → skip_data_blocks (Layout.data_blocks dbs ++ (sentinel ++ rest))
      ≡ (got (payload_size dbs), rest)
unfolding skip_data_blocks
skip_data_blocks-append dbs rest framed =
    skip_blocks-append _ 0 dbs rest framed
      (omega (arith, length-append (Layout.data_blocks dbs) (sentinel ++ rest)))
    ∙ ap (λ n. (got n, rest)) (omega arith)

trailer_tests :
    (n : ℕ)
    → n ≤ trailer_payload_size + gcm_tag_size
    → ltb (trailer_payload_size + gcm_tag_size) n ≡ false
trailer_tests n h = ground arith

pub skip_trailer-append :
    (cause : Option ArchiveError) (t : FileTrailer) (rest : Bytes)
    → IsSealedTrailer t
    → skip_trailer cause (Layout.trailer t ++ rest) ≡ return_cause cause rest
unfolding skip_trailer Layout.trailer
skip_trailer-append cause t rest ok =
    let sealed = t.plaintext_hmac_sealed in
    let shape : (Layout.sized t.random_padding
            ++ (t.plaintext_hmac_nonce ++ (Layout.sized sealed ++ t.entry_checksum)))
          ++ rest
        ≡ Layout.sized t.random_padding
          ++ (t.plaintext_hmac_nonce
              ++ (le 4 (length sealed) ++ ((sealed ++ t.entry_checksum) ++ rest))) =
      simp append_assoc in
    rw shape (
      rw (skip_padding-sized _ t.random_padding _ ok.padding) (
        rw (read_full-sized_header _ t.plaintext_hmac_nonce (length sealed) _ ok.nonce) (
          rw
            (size_in_header t.plaintext_hmac_nonce (length sealed) ok.nonce
              (omega (arith, ok.sealed)))
            (rw (trailer_tests (length sealed) ok.sealed) (
              rw
                (discard-append (length sealed + 8) _ (sealed ++ t.entry_checksum) rest
                  (omega (arith, length-append sealed t.entry_checksum, ok.checksum)))
                refl)))))

-- Whatever the entry's keys, skipping the body of an entry consumes exactly the body as the writer lays
-- it out, and returns the cause that it was given: with padding below 4 GiB, blocks of at least a tag
-- and at most maxBlockCiphertext, and a sealed trailer of at most the reader's limit.
pub skip_entry_body-append :
    (cause : Option ArchiveError) (e : FileEntry) (rest : Bytes)
    → IsBody e
    → skip_entry_body cause (Layout.entry_body e ++ rest) ≡ return_cause cause rest
unfolding skip_entry_body Layout.entry_body
skip_entry_body-append cause e rest h =
    let shape : (Layout.sized e.inter_block_pad
            ++ (Layout.data_blocks e.data_blocks ++ (sentinel ++ Layout.trailer e.trailer)))
          ++ rest
        ≡ Layout.sized e.inter_block_pad
          ++ (Layout.data_blocks e.data_blocks
              ++ (sentinel ++ (Layout.trailer e.trailer ++ rest))) =
      simp append_assoc in
    rw shape (
      rw (skip_padding-sized _ e.inter_block_pad _ h.padding) (
        rw (skip_data_blocks-append e.data_blocks (Layout.trailer e.trailer ++ rest) h.blocks)
          (skip_trailer-append cause e.trailer rest h.trailer)))

-- Each turn of the loop takes a block's header off the reader, so its fuel does not run out.
skip_blocks-ne-panics :
    (fuel stored : ℕ) (b : Bytes) → length b < fuel → (skip_blocks fuel stored b).0 ≢ panics
unfolding skip_blocks skip_block
skip_blocks-ne-panics zero stored b h = absurd (omega arith)
skip_blocks-ne-panics (suc fuel) stored b h = read_full_then (nonce_size + 4) _ b _ λ header rest n.
    let size = from_le (drop nonce_size header) in
    if_then_at (size == 0) (pure stored) _ rest (λ _. got-ne-panics stored)
      λ _.
        if_then (ltb max_block_ciphertext size || ltb size gcm_tag_size) _ _
          (λ _. fails-ne-panics _)
          λ _. discard_then size _ rest _ λ rest' n'.
            skip_blocks-ne-panics fuel (stored + (size - gcm_tag_size)) rest'
              (omega (arith, h, n, n'))

skip_padding-ne-panics : (e : ArchiveError) (b : Bytes) → (skip_padding e b).0 ≢ panics
unfolding skip_padding
skip_padding-ne-panics e b =
    read_full_then 4 _ b _ λ size_buf rest _. discard-ne-panics (from_le size_buf) e rest

skip_trailer-ne-panics :
    (cause : Option ArchiveError) (b : Bytes) → (skip_trailer cause b).0 ≢ panics
unfolding skip_trailer return_cause
skip_trailer-ne-panics cause b =
    after_then (skip_padding _ b) _ (skip_padding-ne-panics _ b) λ _ b1.
      read_full_then (nonce_size + 4) _ b1 _ λ header b2 _.
        if_then (ltb (trailer_payload_size + gcm_tag_size) (from_le (drop nonce_size header))) _ _
          (λ _ p. cc)
          λ _.
            discard_then (from_le (drop nonce_size header) + 8) _ b2 (λ _. return_cause cause)
              λ b3 _. returns cause b3
  where
    returns : (c : Option ArchiveError) (r : Bytes) → (return_cause c r).0 ≢ panics
    returns none r = λ p. cc
    returns (some e) r = λ p. cc

-- Whatever the bytes, skipping the body of an entry ends: its loop over data blocks runs at most once
-- for each byte left, and one turn more.
pub skip_entry_body-ne-panics :
    (cause : Option ArchiveError) (b : Bytes) → (skip_entry_body cause b).0 ≢ panics
unfolding skip_entry_body skip_data_blocks
skip_entry_body-ne-panics cause b =
    after_then (skip_padding _ b) _ (skip_padding-ne-panics _ b) λ _ b1.
      after_then (skip_blocks (suc (length b1)) 0 b1) _
        (skip_blocks-ne-panics (suc (length b1)) 0 b1 (omega arith))
        λ _ b2. skip_trailer-ne-panics cause b2
