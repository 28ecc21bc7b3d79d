-- ===== src/Tests/Archives/Reading.antt =====
-- Examples of what the extractor reads of an archive.
use sarc.Prelude.{
  ℕ, ◌≤◌, ◌+◌, ◌-◌, ◌^◌, ◌≡◌, ◌≢◌, refl, Option, some, none, List, [], ◌∷◌, ◌++◌, All, arith, inl,
  inr, length, replicate, length-replicate,
}
use sarc.Bytes.{Bytes}
use sarc.Metadata.{codec_none}
use sarc.Crypto.{encrypt_block}
use sarc.Format.{entry_type_end}
use sarc.Keys.{new_version2_key_schedule, file_key}
use sarc.Recipients.{encode_block, max_recipient_block_size}
use sarc.Reader.{recoverable, auth_failed, panics, got}
use sarc.Result
use sarc.Writer.{sentinel}
use sarc.Writer.Layout
use sarc.Writer.Archive.{header_of}
use sarc.Extractor.Framing.{skip_entry_body, return_cause}
use sarc.Extractor.Framing.Skips.{IsBody, skip_entry_body-append, skip_entry_body-ne-panics}
use sarc.Extractor.Header.{HeaderInfo, end, read_header}
use sarc.Extractor.Header.Opens.{read_header-written}
use sarc.Extractor.Blocks.{decrypt_data_blocks}
use sarc.Extractor.Blocks.Reads.{seal_payloads, payloads, decrypt_data_blocks-sealed}
use sarc.Extractor.Entries.{open_metadata}
use sarc.Extractor.Entries.Sealed.{IsHead}
use sarc.Extractor.Listing.{Decoders, scan_list, complete, decrypt_error}
use sarc.Extractor.Listing.Sealed.{IsReadable}
use sarc.Extractor.Listing.Scan.{
  AllList, lists_none, lists_more, a_damaged, entries_bytes, scan_list-entries,
}
use sarc.Tests.Archives.{toy, toy-IsAead, toy-IsMac, toy_keys, an_entry}
use sarc.Tests.Sealing.{some_crypto, some_unlockers, an_age_stanza, a_password_stanza, opens_to_key}

an_entry-IsBody : IsBody an_entry
unfolding replicate
an_entry-IsBody = record {
  padding = omega arith;
  blocks = (record { nonce = refl; least = omega arith; most = omega arith }, tt);
  trailer = record { padding = omega arith; nonce = refl; sealed = omega arith; checksum = refl };
}

an_entry-IsHead : IsHead an_entry
unfolding replicate
an_entry-IsHead = record { salt = refl; frame = refl; nonce = refl; most = omega arith }

skip_entry_body-append_example :
    skip_entry_body none (Layout.entry_body an_entry ++ (0 ∷ [])) ≡ return_cause none (0 ∷ [])
skip_entry_body-append_example = skip_entry_body-append none an_entry (0 ∷ []) an_entry-IsBody

skip_entry_body-ne-panics_example : (skip_entry_body none (1 ∷ 0 ∷ 0 ∷ 0 ∷ 9 ∷ 3 ∷ [])).0 ≢ panics
skip_entry_body-ne-panics_example = skip_entry_body-ne-panics none (1 ∷ 0 ∷ 0 ∷ 0 ∷ 9 ∷ 3 ∷ [])

abbrev a_block : Bytes
a_block = encode_block (an_age_stanza ∷ a_password_stanza ∷ [])

block_size : length a_block ≡ 109
unfolding encode_block sarc.Bytes.LittleEndian.le sarc.Recipients.encode_stanzas
    sarc.Recipients.encode_stanza replicate
block_size = refl

block_small : length a_block ≤ max_recipient_block_size
block_small = omega (arith, block_size)

read_header-written_example :
    (info : HeaderInfo) × (read_header toy some_crypto some_unlockers
        (Layout.header (header_of toy (42 ∷ []) a_block (replicate 12 7) 3 1) ++ (0 ∷ []))
      ≡ (got (new_version2_key_schedule (42 ∷ []), info), 0 ∷ []))
    × (info ≡ record { flags = 1; sealed_count = 3; recipient_block_len = length a_block })
    × (length (Layout.header (header_of toy (42 ∷ []) a_block (replicate 12 7) 3 1)) ≡ end info)
read_header-written_example =
    read_header-written toy some_crypto some_unlockers toy-IsAead (42 ∷ []) a_block (replicate 12 7)
      3 1 (0 ∷ []) (length-replicate {A = ℕ} 12 7) (omega arith) (omega arith) block_small
      opens_to_key

abbrev two_chunks : List (Bytes × Bytes)
two_chunks = (replicate 12 1, 8 ∷ 9 ∷ []) ∷ (replicate 12 2, 10 ∷ []) ∷ []

decrypt_data_blocks-sealed_example :
    decrypt_data_blocks toy some 2
      (replicate 32 1)
      codec_none
      (Layout.data_blocks (seal_payloads toy (replicate 32 1) two_chunks) ++ (sentinel ++ (5 ∷ [])))
    ≡ (got (payloads two_chunks), 5 ∷ [])
decrypt_data_blocks-sealed_example =
    decrypt_data_blocks-sealed toy toy-IsAead (replicate 32 1) some 2 two_chunks (5 ∷ [])
      ((length-replicate 12 1, omega arith), ((length-replicate 12 2, omega arith), tt))

abbrev pub some_decoders : Decoders
some_decoders = record { block = some; solid = some; workers = 2 }

pub toy-IsReadable : IsReadable toy toy_keys
toy-IsReadable = record { aead = toy-IsAead; mac = toy-IsMac; later = λ q. omega (arith, q) }

abbrev why_of : {A : Type 0} → Result.Result A → Result.Error
why_of (Result.ok a) = Result.Error.failed ""
why_of (Result.err e) = e
why_of Result.panic = Result.Error.failed ""

refused :
    open_metadata toy (file_key toy toy_keys an_entry.entry_salt) an_entry.metadata
    ≡ Result.err
        (why_of (open_metadata toy (file_key toy toy_keys an_entry.entry_salt) an_entry.metadata))
unfolding open_metadata sarc.Extractor.Entries.opened_metadata sarc.Crypto.decrypt_block
    sarc.Metadata.unmarshal_metadata sarc.Prelude.take replicate
refused = refl

two_damaged : AllList toy some_decoders toy_keys (an_entry ∷ an_entry ∷ []) (
    decrypt_error (recoverable auth_failed "decrypt metadata")
    ∷ decrypt_error (recoverable auth_failed "decrypt metadata")
    ∷ [])
two_damaged =
    lists_more (a_damaged _ (inl refl) an_entry-IsHead an_entry-IsBody refused refl)
      (lists_more (a_damaged _ (inl refl) an_entry-IsHead an_entry-IsBody refused refl) lists_none
        refl)
      refl

scan_list-entries_example :
    scan_list toy some_decoders toy_keys
      (entries_bytes (an_entry ∷ an_entry ∷ []) ++ (entry_type_end ∷ []))
    ≡ (
      complete (
          decrypt_error (recoverable auth_failed "decrypt metadata")
          ∷ decrypt_error (recoverable auth_failed "decrypt metadata")
          ∷ []),
      [],
    )
scan_list-entries_example =
    scan_list-entries toy some_decoders toy_keys (an_entry ∷ an_entry ∷ [])
      (decrypt_error (recoverable auth_failed "decrypt metadata")
        ∷ decrypt_error (recoverable auth_failed "decrypt metadata")
        ∷ [])
      [] toy-IsReadable two_damaged
