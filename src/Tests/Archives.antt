-- ===== src/Tests/Archives.antt =====
-- Examples of written and read archives, with a cipher that only appends a tag of zeros.
mod Reading
mod Sealed
mod Grouped
mod Splitting
mod Workers
use sarc.Prelude.{
  ℕ, ◌+◌, ◌-◌, ◌%◌, ◌^◌, ◌≡◌, refl, sym, ap, ◌∙◌, Option, some, none, List, [], ◌∷◌, ◌++◌, arith,
  length, replicate, take, length-append, length-replicate, subst,
}
use sarc.Bytes.{Bytes}
use sarc.Bytes.Slice.{take-append_eq}
use sarc.Crypto.{Primitives, IsAead, IsMac}
use sarc.Format.{MetadataBlock, DataBlock, FileTrailer, FileEntry, reserved_size, entry_type_end}
use sarc.Keys.{KeySchedule, new_version2_key_schedule}
use sarc.Result.{Result, ok, err, panic}
use sarc.Checksum.{masked}
use sarc.Writer.{
  ArchiveWriter, StreamHash, new_archive_writer, last_entry, write_file_entry, write_footer,
  marshal_binary, resume_archive_writer,
}
use sarc.Writer.Layout
use sarc.Writer.Progress.{Wrote, stored_size, write_file_entry-Wrote}
use sarc.Writer.Archive.{Call, header, file_entry, locator, run, calls_bytes, run-write_footer}
use sarc.Writer.Resume.{IsResumable, resume_archive_writer-continues}

abbrev pub toy_tag : Bytes
toy_tag = replicate 16 0

abbrev pub toy : Primitives
toy = record {
  gcm_seal = λ key nonce plaintext. plaintext ++ toy_tag;
  gcm_open = λ key nonce ciphertext. some (take (length ciphertext - 16) ciphertext);
  hkdf_expand = λ key info n. replicate n 1;
  pbkdf2 = λ password salt iterations n. replicate n 2;
  hmac = λ key contents. replicate 32 (length contents % 256);
  sha256 = λ b. replicate 32 (length b % 256);
}

behind_tag : (plaintext : Bytes) → length (plaintext ++ toy_tag) - 16 ≡ length plaintext
behind_tag plaintext = omega (arith, length-append plaintext toy_tag, length-replicate {A = ℕ} 16 0)

pub toy-IsAead : IsAead toy
toy-IsAead = record {
  length-seal = λ key nonce plaintext.
      omega (arith, length-append plaintext toy_tag, length-replicate {A = ℕ} 16 0);
  open-seal = λ key nonce plaintext. ap some (
      take-append_eq (length (plaintext ++ toy_tag) - 16) plaintext toy_tag
        (sym (behind_tag plaintext)));
}

pub toy-IsMac : IsMac toy
toy-IsMac = record { length-hmac = λ key contents. length-replicate 32 (length contents % 256) }

abbrev pub toy_keys : KeySchedule
toy_keys = new_version2_key_schedule (42 ∷ [])

-- an entry of one data block, whose metadata does not parse
abbrev pub an_entry : FileEntry
an_entry = record {
  entry_type = 1;
  entry_salt = replicate 32 3;
  frame_hdr = replicate 32 9;
  metadata = record { nonce = replicate 12 4; ciphertext = replicate 16 0 };
  inter_block_pad = 5 ∷ [];
  data_blocks = record { nonce = replicate 12 6; ciphertext = replicate 17 7 } ∷ [];
  trailer = record {
    random_padding = 8 ∷ [];
    plaintext_hmac_nonce = replicate 12 1;
    plaintext_hmac_sealed = replicate 56 2;
    entry_checksum = replicate 8 3;
  };
}

abbrev a_writer : ArchiveWriter
a_writer = new_archive_writer (42 ∷ []) (11 ∷ 12 ∷ [])

write_file_entry-Wrote_example :
    Wrote
      (record a_writer { entry_offset = a_writer.offset; entry_stored = 0 })
      (Layout.entry an_entry)
      (stored_size an_entry.data_blocks)
      (write_file_entry a_writer an_entry)
    × ((last_entry (write_file_entry a_writer an_entry)).0 ≡ a_writer.offset)
    × ((last_entry (write_file_entry a_writer an_entry)).1 % 2 ^ 64
        ≡ stored_size an_entry.data_blocks % 2 ^ 64)
write_file_entry-Wrote_example = write_file_entry-Wrote a_writer an_entry

abbrev some_calls : List Call
some_calls = header (replicate 12 0) 1 0 ∷ file_entry an_entry ∷ locator 77 ∷ []

run-write_footer_example :
    (aw : ArchiveWriter) × (run toy (new_archive_writer (42 ∷ []) (11 ∷ 12 ∷ [])) some_calls
      ≡ ok aw)
    × ((write_footer toy.sha256 aw).out
        ≡ (calls_bytes toy (42 ∷ []) (11 ∷ 12 ∷ []) some_calls ++ (entry_type_end ∷ []))
          ++ (toy.sha256 (
                masked
                  (calls_bytes toy (42 ∷ []) (11 ∷ 12 ∷ []) some_calls ++ (entry_type_end ∷ [])))
              ++ replicate reserved_size 0))
    × ((write_footer toy.sha256 aw).checksum
        ≡ toy.sha256
            (masked (calls_bytes toy (42 ∷ []) (11 ∷ 12 ∷ []) some_calls ++ (entry_type_end ∷ []))))
    × ((write_footer toy.sha256 aw).offset
        ≡ (length (calls_bytes toy (42 ∷ []) (11 ∷ 12 ∷ []) some_calls) + 1) % 2 ^ 64)
run-write_footer_example = run-write_footer toy (42 ∷ []) (11 ∷ 12 ∷ []) some_calls

-- the writer behind a header
abbrev begun : List Call
begun = header (replicate 12 0) 1 0 ∷ []

abbrev writer_of : Result ArchiveWriter → ArchiveWriter
writer_of (ok aw) = aw
writer_of (err e) = a_writer
writer_of panic = a_writer

abbrev begun_writer : ArchiveWriter
begun_writer = writer_of (run toy a_writer begun)

abbrev saved_of : Result Bytes → Bytes
saved_of (ok b) = b
saved_of (err e) = []
saved_of panic = []

begun_ran : run toy (new_archive_writer (42 ∷ []) (11 ∷ 12 ∷ [])) begun ≡ ok begun_writer
unfolding run sarc.Writer.Archive.run_call sarc.Writer.write_header_with_flags
    sarc.Writer.seal_file_count sarc.Keys.header_key new_archive_writer sarc.Writer.new_writer
begun_ran = refl

-- the state of `toy.sha256`: the length of what was hashed, modulo 256
abbrev loaded_of : Bytes → Option ℕ
loaded_of [] = none
loaded_of (n ∷ b) = some n

abbrev some_hash : StreamHash ℕ
some_hash = record {
  after = λ h. length h % 256;
  marshal = λ n. n ∷ [];
  unmarshal = loaded_of;
  text = λ n. replicate n 0;
}

some_hash-IsResumable : IsResumable toy.sha256 some_hash
some_hash-IsResumable = record {
  small = λ n. omega arith;
  loads = λ n. refl;
  leads = λ h. omega (arith, length-replicate {A = ℕ} (length h % 256) 0);
  sums = λ h h' more same.
      ap (λ n. replicate 32 n) (omega (arith, length-append h more, length-append h' more, same));
}

abbrev saved_state : Bytes
saved_state = (length begun_writer.hasher.hashed % 256) ∷ []

begun_saved : marshal_binary some_hash begun_writer.hasher ≡ ok saved_state
unfolding marshal_binary run sarc.Writer.Archive.run_call sarc.Writer.write_header_with_flags
    sarc.Writer.seal_file_count sarc.Keys.header_key new_archive_writer sarc.Writer.new_writer
    sarc.Writer.write_header_bytes sarc.Writer.tee_write sarc.Checksum.write
    sarc.Checksum.flush_header sarc.Checksum.must_wait sarc.Bytes.LittleEndian.le
    sarc.Crypto.encrypt_block replicate sarc.Checksum.has_layout sarc.Bytes.LittleEndian.from_le
    sarc.Bytes.Slice.bytes_eq sarc.Checksum.clear_count sarc.Checksum.count_off masked
    sarc.Crypto.derive_header_subkey sarc.Crypto.expand_subkey sarc.Prelude.drop take
begun_saved = refl

abbrev more_calls : List Call
more_calls = file_entry an_entry ∷ []

resume_archive_writer-continues_example :
    (resumed : ArchiveWriter) × (resume_archive_writer some_hash begun_writer.out begun_writer.keys
        begun_writer.offset saved_state
      ≡ ok resumed)
    × (end : ArchiveWriter) × (run toy resumed more_calls ≡ ok end)
    × ((write_footer toy.sha256 end).out
        ≡ (calls_bytes toy (42 ∷ []) (11 ∷ 12 ∷ []) begun
            ++ (calls_bytes toy (42 ∷ []) [] more_calls ++ (entry_type_end ∷ [])))
          ++ (toy.sha256 (
                masked (
                  calls_bytes toy (42 ∷ []) (11 ∷ 12 ∷ []) begun
                  ++ (calls_bytes toy (42 ∷ []) [] more_calls ++ (entry_type_end ∷ []))))
              ++ replicate reserved_size 0))
resume_archive_writer-continues_example =
    resume_archive_writer-continues toy (42 ∷ []) (11 ∷ 12 ∷ []) some_hash begun more_calls
      begun_writer saved_state some_hash-IsResumable begun_ran begun_saved
