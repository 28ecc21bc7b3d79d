-- ===== src/Extractor/Listing/Sealed.antt =====
-- Listing entries that were sealed with the archive's keys, and entries that were not.
use sarc.Prelude.{
  ℕ, ◌^◌, ◌<◌, ◌≡◌, ◌≢◌, refl, sym, ap, ◌∙◌, true, false, some, List, [], ◌∷◌, ◌++◌, append_assoc,
  All, arith, subst,
}
use sarc.Prelude.{◌==◌, ◌!=◌, length, length-append, length-take}
use sarc.Bytes.{Bytes}
use sarc.Bytes.Slice.{bytes_eq_refl}
use sarc.Result
use sarc.Result.{Result, ok}
use sarc.Crypto.{Primitives, IsAead, IsMac, compute_hmac, verify_hmac, hmac_size, encrypt_block}
use sarc.Keys.{KeySchedule, version1, file_key}
use sarc.Metadata.{PlaintextMetadata, codec_none}
use sarc.Solid.{SolidMember, parse_solid_stream}
use sarc.Format.{FileEntry, entry_type_solid}
use sarc.Writer.Layout
use sarc.Writer.{sentinel}
use sarc.Reader.{recoverable, auth_failed, Fallible, got, fails}
use sarc.Extractor.Framing.{return_cause}
use sarc.Extractor.Framing.Skips.{
  IsFramed, IsBody, payload_size, skip_padding-sized, skip_data_blocks-append,
  skip_entry_body-append,
}
use sarc.Extractor.Blocks.{decrypt_data_blocks}
use sarc.Extractor.Blocks.Reads.{
  seal_payloads, payloads, seal_payloads-IsFramed, decrypt_data_blocks-sealed,
}
use sarc.Extractor.Entries.{
  EntryHead, TrailerInfo, open_metadata, head_of, read_entry_head, read_trailer, trailer_of,
  verify_plaintext, skip_entry_with, decrypt_filename,
}
use sarc.Extractor.Entries.Sealed.{
  IsHead, IsSealed, head_bytes, read_entry_head-append, read_trailer-append, trailer_of-sized,
}
use sarc.Extractor.Listing.{
  Decoders, solid_stream, or_skip_trailer, list_members, read_solid_stream, parsed_members,
  list_solid_body, file_result, list_named_body, list_file_body, list_body, list_entry,
}

-- The two conditions on the keys and the hash that every reading of a trailer has.
pub record IsReadable (p : Primitives) (keys : KeySchedule) : Type 0 where
  pub aead : IsAead p
  pub mac : IsMac p
  pub later : keys.version ≢ version1

abbrev pub sized_trailer : Primitives → Bytes → Bytes → TrailerInfo
sized_trailer p key plaintext = record {
  hmac = compute_hmac p key plaintext;
  plaintext_size = length plaintext;
  has_size = true;
}

module _ (p : Primitives) (keys : KeySchedule) (good : IsReadable p keys) where
  length-compute_hmac : (key contents : Bytes) → length (compute_hmac p key contents) ≡ hmac_size
  unfolding compute_hmac
  length-compute_hmac key contents =
      length-take hmac_size (p.hmac key contents) (omega (arith, good.mac.length-hmac key contents))

  -- What the trailer of a sealed entry is read as.
  read_trailer-sealed :
      (e : FileEntry) (pm : PlaintextMetadata) (payload plaintext rest : Bytes)
      → IsSealed p keys e pm payload plaintext
      → length plaintext < 2 ^ 64
      → read_trailer p
          (file_key p keys e.entry_salt)
          keys.version
          (Layout.trailer e.trailer ++ rest)
        ≡ (got (sized_trailer p (file_key p keys e.entry_salt) plaintext), rest)
  read_trailer-sealed e pm payload plaintext rest s fits =
      let key = file_key p keys e.entry_salt in
      read_trailer-append p keys key keys.version e.trailer rest s.trailer
      ∙ ap (λ (r : Fallible TrailerInfo). (r, rest))
          (ap (trailer_of keys.version) s.opens
            ∙ trailer_of-sized keys.version (compute_hmac p key plaintext) (length plaintext)
                good.later (length-compute_hmac key plaintext) fits)

  verify_plaintext-sealed :
      (key plaintext : Bytes)
      → verify_plaintext p key plaintext (sized_trailer p key plaintext) ≡ got tt
  unfolding verify_plaintext verify_hmac
  verify_plaintext-sealed key plaintext =
      rw (bytes_eq_refl (compute_hmac p key plaintext)) (rw (same (length plaintext)) refl)
    where
      same : (n : ℕ) → n != n ≡ false
      same n = ground arith

  sealed-IsBody :
      (e : FileEntry) (pm : PlaintextMetadata) (payload plaintext : Bytes)
      → IsSealed p keys e pm payload plaintext
      → IsBody e
  sealed-IsBody e pm payload plaintext s = record {
    padding = s.padding;
    blocks =
        subst (λ dbs. All IsFramed dbs) (sym s.blocks)
          (seal_payloads-IsFramed p good.aead (file_key p keys e.entry_salt) s.chunks s.are_chunks);
    trailer = s.trailer;
  }

  -- The head of a sealed entry opens.
  pub read_entry_head-sealed :
      (e : FileEntry) (pm : PlaintextMetadata) (payload plaintext rest : Bytes)
      → IsSealed p keys e pm payload plaintext
      → read_entry_head p keys (head_bytes e ++ rest)
        ≡ (got (record { file_key = file_key p keys e.entry_salt; pm = pm }), rest)
  unfolding head_of
  read_entry_head-sealed e pm payload plaintext rest s =
      read_entry_head-append p keys e rest s.head
      ∙ ap (λ (r : Result PlaintextMetadata). head_of p (file_key p keys e.entry_salt) r rest)
          s.metadata

  body_shape :
      (e : FileEntry) (rest : Bytes)
      → (Layout.sized e.inter_block_pad
            ++ (Layout.data_blocks e.data_blocks ++ (sentinel ++ Layout.trailer e.trailer)))
          ++ rest
        ≡ Layout.sized e.inter_block_pad
          ++ (Layout.data_blocks e.data_blocks ++ (sentinel ++ (Layout.trailer e.trailer ++ rest)))
  body_shape e rest = simp append_assoc

  -- The payload of sealed blocks, and its size.
  payload_size-sealed :
      (key : Bytes) (chunks : List (Bytes × Bytes))
      → payload_size (seal_payloads p key chunks) ≡ length (payloads chunks)
  unfolding payload_size seal_payloads payloads encrypt_block
  payload_size-sealed key [] = refl
  payload_size-sealed key ((nonce, payload) ∷ chunks) = omega (
    arith,
    payload_size-sealed key chunks,
    good.aead.length-seal key nonce payload,
    length-append payload (payloads chunks),
  )

  module _ (decs : Decoders) where
    abbrev opened_head : FileEntry → PlaintextMetadata → EntryHead
    opened_head e pm = record { file_key = file_key p keys e.entry_salt; pm = pm }

    -- The stream of a sealed solid group is read, decoded and verified.
    pub read_solid_stream-sealed :
        (e : FileEntry) (pm : PlaintextMetadata) (payload stream rest : Bytes)
        → IsSealed p keys e pm payload stream
        → length stream < 2 ^ 64
        → solid_stream decs pm.codec payload ≡ got stream
        → read_solid_stream p decs keys (opened_head e pm) (Layout.entry_body e ++ rest)
          ≡ (got (stream, length payload), rest)
    unfolding read_solid_stream Layout.entry_body or_skip_trailer
    read_solid_stream-sealed e pm payload stream rest s fits decodes =
        let key = file_key p keys e.entry_salt in
        let tail = Layout.trailer e.trailer ++ rest in
        let read : decrypt_data_blocks p decs.block decs.workers key codec_none
              (Layout.data_blocks e.data_blocks ++ (sentinel ++ tail))
            ≡ (got payload, tail) =
          ap
            (λ dbs.
              decrypt_data_blocks p decs.block decs.workers key codec_none
                (Layout.data_blocks dbs ++ (sentinel ++ tail)))
            s.blocks
          ∙ decrypt_data_blocks-sealed p good.aead key decs.block decs.workers s.chunks tail
              s.are_chunks
          ∙ ap (λ (r : Bytes). (got r, tail)) s.joined in
        rw (body_shape e rest) (
          rw (skip_padding-sized _ e.inter_block_pad _ s.padding) (
            rw read (
              rw (read_trailer-sealed e pm payload stream rest s fits)
                (rw decodes (rw (verify_plaintext-sealed key stream) refl)))))

    -- A solid entry that was sealed with the archive's keys is listed by its members, and the reader
    -- stands behind the entry: the payload in its blocks decodes to a stream that parses to them.
    pub list_entry-solid :
        (e : FileEntry) (pm : PlaintextMetadata) (payload stream rest : Bytes)
        (ms : List SolidMember)
        → IsSealed p keys e pm payload stream
        → length stream < 2 ^ 64
        → solid_stream decs pm.codec payload ≡ got stream
        → parse_solid_stream stream ≡ ok ms
        → list_entry p decs keys entry_type_solid (head_bytes e ++ (Layout.entry_body e ++ rest))
          ≡ (got (list_members pm.codec (length payload) (length stream) ms), rest)
    unfolding list_entry list_body list_solid_body parsed_members
    list_entry-solid e pm payload stream rest ms s fits decodes parses =
        rw (read_entry_head-sealed e pm payload stream (Layout.entry_body e ++ rest) s)
          (rw (read_solid_stream-sealed e pm payload stream rest s fits decodes) (rw parses refl))

    -- A file entry that was sealed with the archive's keys is listed by its name, its metadata, the
    -- size of its plaintext and the size of its payload, and the reader stands behind the entry.
    pub list_entry-file :
        (e : FileEntry) (pm : PlaintextMetadata) (payload plaintext rest name : Bytes) (t : ℕ)
        → t ≢ entry_type_solid
        → IsSealed p keys e pm payload plaintext
        → length plaintext < 2 ^ 64
        → decrypt_filename p pm.encrypted_filename (file_key p keys e.entry_salt) ≡ some name
        → list_entry p decs keys t (head_bytes e ++ (Layout.entry_body e ++ rest)) ≡ (
          got (
              file_result p decs keys pm name
                (length payload)
                (sized_trailer p (file_key p keys e.entry_salt) plaintext)
              ∷ []),
          rest,
        )
    unfolding list_entry list_body list_file_body list_named_body Layout.entry_body
    list_entry-file e pm payload plaintext rest name t other s fits opens =
        let body = sealed-IsBody e pm payload plaintext s in
        let stored : payload_size e.data_blocks ≡ length payload =
          ap payload_size s.blocks
          ∙ payload_size-sealed (file_key p keys e.entry_salt) s.chunks
          ∙ ap (length {A = ℕ}) s.joined in
        rw (read_entry_head-sealed e pm payload plaintext (Layout.entry_body e ++ rest) s) (
          rw (not_solid t other) (
            rw opens (
              rw (body_shape e rest) (
                rw (skip_padding-sized _ e.inter_block_pad _ body.padding) (
                  rw
                    (skip_data_blocks-append e.data_blocks (Layout.trailer e.trailer ++ rest)
                      body.blocks)
                    (rw (read_trailer-sealed e pm payload plaintext rest s fits)
                      (rw stored refl)))))))
      where
        not_solid : (n : ℕ) → n ≢ entry_type_solid → n == entry_type_solid ≡ false
        not_solid n q = ground arith

    -- Where the keys are of a later version than Version1, opening a sealed text gives it back and HMACs
    -- have 32 bytes: an entry whose metadata does not open with the archive's keys is skipped: a recoverable error is
    -- returned, and the reader stands behind the entry.
    pub list_entry-damaged :
        (e : FileEntry) (why : Result.Error) (rest : Bytes) (t : ℕ)
        → IsHead e
        → IsBody e
        → open_metadata p (file_key p keys e.entry_salt) e.metadata ≡ Result.err why
        → list_entry p decs keys t (head_bytes e ++ (Layout.entry_body e ++ rest))
          ≡ (fails (recoverable auth_failed "decrypt metadata"), rest)
    unfolding list_entry head_of skip_entry_with return_cause
    list_entry-damaged e why rest t head body refused =
        rw (read_entry_head-append p keys e (Layout.entry_body e ++ rest) head) (
          rw refused (
            rw
              (skip_entry_body-append (some (recoverable auth_failed "decrypt metadata")) e rest
                body)
              refl))
