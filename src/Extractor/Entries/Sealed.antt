-- ===== src/Extractor/Entries/Sealed.antt =====
-- The head and the trailer of an entry that was sealed with the keys are opened with them.
use sarc.Prelude.{
  ℕ, ◌+◌, ◌^◌, ◌≤◌, ◌<◌, ◌≡◌, ◌≢◌, refl, sym, ap, ◌∙◌, true, false, some, List, [], ◌++◌,
  append-nil, append_assoc, All, arith,
}
use sarc.Prelude.{ltb, ◌==◌, ◌!=◌, length, take, length-append}
use sarc.Bytes.{Bytes}
use sarc.Bytes.LittleEndian.{le, from_le, length-le, from_le-le}
use sarc.Bytes.Slice.{drop-append_eq, take-append_eq}
use sarc.Result.{ok}
use sarc.Crypto.{
  Primitives, decrypt_block, compute_hmac, nonce_size, gcm_tag_size, salt_size, hmac_size,
}
use sarc.Keys.{KeySchedule, version1, file_key}
use sarc.Metadata.{PlaintextMetadata}
use sarc.Format.{MetadataBlock, FileTrailer, FileEntry, frame_header_size}
use sarc.Writer.Layout
use sarc.Reader.{got, read_full-append}
use sarc.Extractor.Framing.{read_metadata_block, max_metadata_ciphertext, trailer_payload_size}
use sarc.Extractor.Framing.Skips.{IsSealedTrailer, skip_padding-sized}
use sarc.Extractor.Entries.{open_metadata, head_of, read_entry_head, trailer_of, read_trailer}
use sarc.Extractor.Blocks.Reads.{seal_payloads, payloads, IsChunk}

-- The lengths of what precedes an entry's body.
pub record IsHead (e : FileEntry) : Type 0 where
  pub salt : length e.entry_salt ≡ salt_size
  pub frame : length e.frame_hdr ≡ frame_header_size
  pub nonce : length e.metadata.nonce ≡ nonce_size
  pub most : length e.metadata.ciphertext ≤ max_metadata_ciphertext

-- An entry that was sealed with its file key: its metadata opens to `pm`, its blocks hold `payload` in
-- chunks, and its trailer holds the HMAC and the size of `plaintext`.
pub record IsSealed (p : Primitives) (keys : KeySchedule) (e : FileEntry) (pm : PlaintextMetadata)
    (payload plaintext : Bytes) : Type 0 where
  pub head : IsHead e
  pub metadata : open_metadata p (file_key p keys e.entry_salt) e.metadata ≡ ok pm
  pub padding : length e.inter_block_pad < 2 ^ 32
  pub chunks : List (Bytes × Bytes)
  pub are_chunks : All IsChunk chunks
  pub blocks : e.data_blocks ≡ seal_payloads p (file_key p keys e.entry_salt) chunks
  pub joined : payloads chunks ≡ payload
  pub trailer : IsSealedTrailer e.trailer
  pub opens :
      p.gcm_open
        (file_key p keys e.entry_salt)
        e.trailer.plaintext_hmac_nonce
        e.trailer.plaintext_hmac_sealed
      ≡ some (compute_hmac p (file_key p keys e.entry_salt) plaintext ++ le 8 (length plaintext))

-- What follows an entry's type byte.
abbrev pub head_bytes : FileEntry → Bytes
head_bytes e =
    e.entry_salt ++ (e.frame_hdr ++ (e.metadata.nonce ++ Layout.sized e.metadata.ciphertext))

read_metadata_block-append :
    (mb : MetadataBlock) (rest : Bytes)
    → length mb.nonce ≡ nonce_size
    → length mb.ciphertext ≤ max_metadata_ciphertext
    → read_metadata_block (mb.nonce ++ (le 4 (length mb.ciphertext) ++ (mb.ciphertext ++ rest)))
      ≡ (got mb, rest)
unfolding read_metadata_block
read_metadata_block-append mb rest h most =
    let n = length mb.ciphertext in
    rw (read_full-append nonce_size _ mb.nonce _ h) (
      rw (read_full-append 4 _ (le 4 n) _ (length-le 4 n)) (
        rw (from_le-le 4 n (omega (arith, most)))
          (rw (not_more n most) (rw (read_full-append n _ mb.ciphertext rest refl) refl))))
  where
    not_more : (n : ℕ) → n ≤ max_metadata_ciphertext → ltb max_metadata_ciphertext n ≡ false
    not_more n q = ground arith

module _ (p : Primitives) (keys : KeySchedule) where
  -- The head of an entry is read up to its metadata, whatever opens it.
  pub read_entry_head-append :
      (e : FileEntry) (rest : Bytes)
      → IsHead e
      → read_entry_head p keys (head_bytes e ++ rest)
        ≡ head_of p
            (file_key p keys e.entry_salt)
            (open_metadata p (file_key p keys e.entry_salt) e.metadata)
            rest
  unfolding read_entry_head
  read_entry_head-append e rest h =
      let shape : head_bytes e ++ rest
          ≡ e.entry_salt
            ++ (e.frame_hdr
                ++ (e.metadata.nonce
                    ++ (le 4 (length e.metadata.ciphertext) ++ (e.metadata.ciphertext ++ rest)))) =
        simp append_assoc in
      rw shape (
        rw (read_full-append salt_size _ e.entry_salt _ h.salt) (
          rw (read_full-append frame_header_size _ e.frame_hdr _ h.frame)
            (rw (read_metadata_block-append e.metadata rest h.nonce h.most) refl)))

  -- The trailer is read up to what opens it.
  pub read_trailer-append :
      (key : Bytes) (version : ℕ) (t : FileTrailer) (rest : Bytes)
      → IsSealedTrailer t
      → read_trailer p key version (Layout.trailer t ++ rest)
        ≡ (trailer_of version (p.gcm_open key t.plaintext_hmac_nonce t.plaintext_hmac_sealed), rest)
  unfolding read_trailer Layout.trailer decrypt_block
  read_trailer-append key version t rest h =
      let sealed = t.plaintext_hmac_sealed in
      let shape : (Layout.sized t.random_padding
              ++ (t.plaintext_hmac_nonce ++ (Layout.sized sealed ++ t.entry_checksum)))
            ++ rest
          ≡ Layout.sized t.random_padding
            ++ (t.plaintext_hmac_nonce
                ++ (le 4 (length sealed) ++ (sealed ++ (t.entry_checksum ++ rest)))) =
        simp append_assoc in
      rw shape (
        rw (skip_padding-sized _ t.random_padding _ h.padding) (
          rw (read_full-append nonce_size _ t.plaintext_hmac_nonce _ h.nonce) (
            rw (read_full-append 4 _ (le 4 (length sealed)) _ (length-le 4 (length sealed))) (
              rw (from_le-le 4 (length sealed) (omega (arith, h.sealed))) (
                rw (not_more (length sealed) h.sealed) (
                  rw (read_full-append (length sealed) _ sealed _ refl)
                    (rw (read_full-append 8 _ t.entry_checksum rest h.checksum) refl)))))))
    where
      not_more :
          (n : ℕ)
          → n ≤ trailer_payload_size + gcm_tag_size
          → ltb (trailer_payload_size + gcm_tag_size) n ≡ false
      not_more n q = ground arith

-- The trailer of a later version: an HMAC of HMACSize bytes and a size of 64 bits.
pub trailer_of-sized :
    (version : ℕ) (mac : Bytes) (size : ℕ)
    → version ≢ version1
    → length mac ≡ hmac_size
    → size < 2 ^ 64
    → trailer_of version (some (mac ++ le 8 size))
      ≡ got (record { hmac = mac; plaintext_size = size; has_size = true })
unfolding trailer_of
trailer_of-sized version mac size later h fits =
    let total : length (mac ++ le 8 size) ≡ trailer_payload_size =
      omega (arith, h, length-append mac (le 8 size), length-le 8 size) in
    let (not_first, second) = tests version later in
    let all8 : from_le (take 8 (le 8 size)) ≡ size =
      ap (λ (s : Bytes). from_le (take 8 s)) (sym (append-nil (le 8 size)))
      ∙ ap from_le (take-append_eq 8 (le 8 size) [] (length-le 8 size))
      ∙ from_le-le 8 size (omega arith) in
    rw
      (
        not_first,
        second,
        total,
        take-append_eq hmac_size mac (le 8 size) h,
        drop-append_eq hmac_size mac (le 8 size) h,
      )
      (rw all8 refl)
  where
    tests : (v : ℕ) → v ≢ version1 → (v == version1 ≡ false) × (v != version1 ≡ true)
    tests v q = ground arith
