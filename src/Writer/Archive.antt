-- ===== src/Writer/Archive.antt =====
-- Whole archives: any calls of the writer in sequence, and the footer that ends them.
use sarc.Prelude.{
  ℕ, ◌+◌, ◌-◌, ◌%◌, ◌^◌, ◌≡◌, refl, sym, ap, ◌∙◌, List, [], ◌∷◌, ◌++◌, append-nil, append_assoc,
}
use sarc.Prelude.{length, length-append, arith, replicate}
use sarc.Result.{Result, ok, ◌>>=◌}
use sarc.Bytes.{Bytes, concat}
use sarc.Bytes.LittleEndian.{le}
use sarc.Crypto.{Primitives, encrypt_block, derive_header_subkey}
use sarc.Keys.{header_key, new_version2_key_schedule}
use sarc.Checksum.{new_archive_checksum, writes, sum, masked, magic, version2}
use sarc.Checksum.Splitting.{sum-writes}
use sarc.Directory.{append_directory_locator}
use sarc.Format.{
  ArchiveHeader, MetadataBlock, DataBlock, FileTrailer, FileEntry, reserved_size, entry_type_end,
}
use sarc.Writer.{
  ArchiveWriter, new_writer, new_archive_writer, tee_write, seal_file_count,
  write_header_with_flags, write_header_bytes, write_file_entry, begin_file_entry,
  append_data_block, end_file_entry, write_directory_locator, write_footer, finish_footer,
  start_entry, sentinel,
}
use sarc.Writer.Layout
use sarc.Writer.Progress.{
  Wrote, Wrote-tee, Wrote-trans, Wrote-head, Wrote-padding, Wrote-data_block, Wrote-trailer,
  write_file_entry-Wrote, concat-append, writes-append,
}

-- A call of the writer before the footer, with its arguments.
pub data Call : Type 0 where
  header : Bytes → ℕ → ℕ → Call
  file_entry : FileEntry → Call
  begin_entry : ℕ → Bytes → Bytes → MetadataBlock → Bytes → Call
  data_block : DataBlock → Call
  end_entry : FileTrailer → Call
  locator : ℕ → Call

module _ (p : Primitives) where
  unfoldable pub run_call : ArchiveWriter → Call → Result ArchiveWriter
  run_call aw (header nonce count flags) = write_header_with_flags p aw nonce count flags
  run_call aw (file_entry e) = ok (write_file_entry aw e)
  run_call aw (begin_entry t salt frame_hdr meta pad) =
      ok (begin_file_entry aw t salt frame_hdr meta pad)
  run_call aw (data_block db) = ok (append_data_block aw db)
  run_call aw (end_entry t) = ok (end_file_entry aw t)
  run_call aw (locator offset) = ok (write_directory_locator aw offset)

  unfoldable pub run : ArchiveWriter → List Call → Result ArchiveWriter
  run aw [] = ok aw
  run aw (c ∷ cs) = run_call aw c >>= λ aw'. run aw' cs

  -- The header that a Version2 writer with this key and recipient block writes.
  abbrev pub header_of : Bytes → Bytes → Bytes → ℕ → ℕ → ArchiveHeader
  header_of cek recipients nonce count flags =
      let sealed = encrypt_block p (derive_header_subkey p cek) nonce (le 8 count) in
      record {
        magic = magic;
        version = version2;
        recipient_block = recipients;
        file_count_encrypted = sealed.nonce ++ sealed.ciphertext;
        reserved = flags ∷ replicate (reserved_size - 1) 0;
      }

  -- What a call adds to an archive.
  unfoldable pub call_bytes : Bytes → Bytes → Call → Bytes
  call_bytes cek recipients (header nonce count flags) =
      Layout.header (header_of cek recipients nonce count flags)
  call_bytes cek recipients (file_entry e) = Layout.entry e
  call_bytes cek recipients (begin_entry t salt frame_hdr meta pad) =
      Layout.entry_head t salt frame_hdr meta ++ Layout.sized pad
  call_bytes cek recipients (data_block db) = Layout.data_block db
  call_bytes cek recipients (end_entry t) = sentinel ++ Layout.trailer t
  call_bytes cek recipients (locator offset) = append_directory_locator [] offset

  unfoldable pub calls_bytes : Bytes → Bytes → List Call → Bytes
  calls_bytes cek recipients [] = []
  calls_bytes cek recipients (c ∷ cs) = call_bytes cek recipients c ++ calls_bytes cek recipients cs

-- The part of `Wrote` that an entry's start leaves alone.
pub record Grew (aw : ArchiveWriter) (bs : Bytes) (aw' : ArchiveWriter) : Type 0 where
  pub pieces : List Bytes
  pub bytes : concat pieces ≡ bs
  pub hasher : aw'.hasher ≡ writes aw.hasher pieces
  pub out : aw'.out ≡ aw.out ++ bs
  pub offset : aw'.offset % 2 ^ 64 ≡ (aw.offset + length bs) % 2 ^ 64
  pub keys : aw'.keys ≡ aw.keys
  pub recipients : aw'.recipients ≡ aw.recipients

pub Wrote-Grew : {a b : ArchiveWriter} {x : Bytes} {n : ℕ} → Wrote a x n b → Grew a x b
Wrote-Grew u = record {
  pieces = u.pieces;
  bytes = u.bytes;
  hasher = u.hasher;
  out = u.out;
  offset = u.offset;
  keys = u.keys;
  recipients = u.recipients;
}

-- An entry's start writes nothing.
Grew-start :
    {a b : ArchiveWriter} {x : Bytes} {n : ℕ}
    → Wrote (record a { entry_offset = a.offset; entry_stored = 0 }) x n b
    → Grew a x b
Grew-start u = record {
  pieces = u.pieces;
  bytes = u.bytes;
  hasher = u.hasher;
  out = u.out;
  offset = u.offset;
  keys = u.keys;
  recipients = u.recipients;
}

Grew-none : (a : ArchiveWriter) → Grew a [] a
unfolding writes
Grew-none a = record {
  pieces = [];
  bytes = refl;
  hasher = refl;
  out = sym (append-nil a.out);
  offset = omega arith;
  keys = refl;
  recipients = refl;
}

pub Grew-trans : {a b c : ArchiveWriter} {x y : Bytes} → Grew a x b → Grew b y c → Grew a (x ++ y) c
Grew-trans {a} {b} {c} {x} {y} u v = record {
  pieces = u.pieces ++ v.pieces;
  bytes = rw (concat-append u.pieces v.pieces) (cc (u.bytes, v.bytes));
  hasher =
      v.hasher
      ∙ ap (λ h. writes h v.pieces) u.hasher
      ∙ sym (writes-append a.hasher u.pieces v.pieces);
  out = v.out ∙ ap (λ s. s ++ y) u.out ∙ append_assoc a.out x y;
  offset = omega (arith, u.offset, v.offset, length-append x y);
  keys = v.keys ∙ u.keys;
  recipients = v.recipients ∙ u.recipients;
}

-- A writer with these keys and recipient block.
abbrev pub Has : Bytes → Bytes → ArchiveWriter → Type 0
Has cek recipients aw = (aw.keys ≡ new_version2_key_schedule cek) × (aw.recipients ≡ recipients)

module _ (p : Primitives) (cek recipients : Bytes) where
  -- The writer after a call that returned.
  abbrev pub Next : ArchiveWriter → Result ArchiveWriter → Bytes → Type 0
  Next aw r bs = (aw' : ArchiveWriter) × (r ≡ ok aw') × Grew aw bs aw'

  header-Next :
      (aw : ArchiveWriter) (nonce : Bytes) (count flags : ℕ)
      → Has cek recipients aw
      → Next aw
          (write_header_with_flags p aw nonce count flags)
          (Layout.header (header_of p cek recipients nonce count flags))
  unfolding write_header_with_flags seal_file_count header_key write_header_bytes Layout.header le
      encrypt_block
  header-Next aw nonce count flags (keys, same) =
      let h = header_of p cek recipients nonce count flags in
      (
        tee_write aw (Layout.header h),
        rw (keys, same) refl,
        Wrote-Grew (Wrote-tee aw (Layout.header h)),
      )

  run_call-Next :
      (aw : ArchiveWriter) (c : Call)
      → Has cek recipients aw
      → Next aw (run_call p aw c) (call_bytes p cek recipients c)
  unfolding run_call call_bytes begin_file_entry append_data_block end_file_entry
      write_directory_locator start_entry
  run_call-Next aw (header nonce count flags) has = header-Next aw nonce count flags has
  run_call-Next aw (file_entry e) has = (_, refl, Grew-start (write_file_entry-Wrote aw e).0)
  run_call-Next aw (begin_entry t salt frame_hdr meta pad) has = (
    _,
    refl,
    Grew-start
        (Wrote-trans (Wrote-head (start_entry aw) t salt frame_hdr meta) (Wrote-padding _ pad)),
  )
  run_call-Next aw (data_block db) has = (_, refl, Wrote-Grew (Wrote-data_block aw db))
  run_call-Next aw (end_entry t) has =
      (_, refl, Wrote-Grew (Wrote-trans (Wrote-tee aw sentinel) (Wrote-trailer _ t)))
  run_call-Next aw (locator offset) has = (_, refl, Wrote-Grew (Wrote-tee aw _))

  pub run-Next :
      (aw : ArchiveWriter) (cs : List Call)
      → Has cek recipients aw
      → Next aw (run p aw cs) (calls_bytes p cek recipients cs)
  unfolding run calls_bytes
  run-Next aw [] has = (aw, refl, Grew-none aw)
  run-Next aw (c ∷ cs) (keys, same) =
      let (next, is, u) = run_call-Next aw c (keys, same) in
      let (end, is', v) = run-Next next cs (u.keys ∙ keys, u.recipients ∙ same) in
      (end, rw is is', Grew-trans u v)

-- The footer of a writer that began an archive and wrote these bytes.
pub write_footer-Grew :
    (sha256 : Bytes → Bytes) (aw : ArchiveWriter) (bs : Bytes)
    → aw.hasher ≡ new_archive_checksum
    → (aw' : ArchiveWriter) → Grew aw bs aw'
    → ((write_footer sha256 aw').out
        ≡ aw.out
          ++ ((bs ++ (entry_type_end ∷ []))
              ++ (sha256 (masked (bs ++ (entry_type_end ∷ []))) ++ replicate reserved_size 0)))
      × ((write_footer sha256 aw').checksum ≡ sha256 (masked (bs ++ (entry_type_end ∷ []))))
      × ((write_footer sha256 aw').offset ≡ (aw.offset + (length bs + 1)) % 2 ^ 64)
unfolding write_footer finish_footer tee_write
write_footer-Grew sha256 aw bs new aw' u =
    let v = Grew-trans u (Wrote-Grew (Wrote-tee aw' (entry_type_end ∷ []))) in
    let summed : (sum sha256 (tee_write aw' (entry_type_end ∷ [])).hasher []).0
        ≡ sha256 (masked (bs ++ (entry_type_end ∷ []))) =
      ap (λ h. (sum sha256 h []).0) (v.hasher ∙ ap (λ h. writes h v.pieces) new)
      ∙ sum-writes sha256 v.pieces []
      ∙ ap (λ s. sha256 (masked s)) v.bytes in
    (
      rw summed (
          ap
            (λ (s : Bytes).
              s ++ (sha256 (masked (bs ++ (entry_type_end ∷ []))) ++ replicate reserved_size 0))
            v.out
          ∙ append_assoc aw.out _ _),
      summed,
      omega (arith, u.offset),
    )

-- Whatever calls of a new writer precede WriteFooter, none of them fails, and the archive is the bytes
-- of the calls in their order, the end marker, the SHA-256 of all that with the sealed count masked,
-- and the reserved zeros; Checksum returns the same SHA-256, and Offset then the number of bytes up to
-- the footer, the end marker included, on 64 bits.
pub run-write_footer :
    (p : Primitives) (cek recipients : Bytes) (cs : List Call)
    → (aw : ArchiveWriter) × (run p (new_archive_writer cek recipients) cs ≡ ok aw)
      × ((write_footer p.sha256 aw).out
          ≡ (calls_bytes p cek recipients cs ++ (entry_type_end ∷ []))
            ++ (p.sha256 (masked (calls_bytes p cek recipients cs ++ (entry_type_end ∷ [])))
                ++ replicate reserved_size 0))
      × ((write_footer p.sha256 aw).checksum
          ≡ p.sha256 (masked (calls_bytes p cek recipients cs ++ (entry_type_end ∷ []))))
      × ((write_footer p.sha256 aw).offset
          ≡ (length (calls_bytes p cek recipients cs) + 1) % 2 ^ 64)
unfolding new_archive_writer new_writer
run-write_footer p cek recipients cs =
    let (aw, is, grew) =
      run-Next p cek recipients (new_archive_writer cek recipients) cs (refl, refl) in
    let (out, checksum, offset) =
      write_footer-Grew p.sha256 (new_archive_writer cek recipients) _ refl aw grew in
    (aw, is, out, checksum, omega (arith, offset))
