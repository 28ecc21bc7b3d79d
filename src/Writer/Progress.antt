-- ===== src/Writer/Progress.antt =====
-- What each step of the writer does to the sink, the checksum and the counters: it adds some bytes.
use sarc.Prelude.{
  ℕ, ◌+◌, ◌-◌, ◌%◌, ◌^◌, ◌≡◌, refl, sym, ap, ◌∙◌, List, [], ◌∷◌, ◌++◌, append-nil, append_assoc,
}
use sarc.Prelude.{length, length-append, subst, arith}
use sarc.Bytes.{Bytes, concat}
use sarc.Bytes.LittleEndian.{le}
use sarc.Checksum
use sarc.Checksum.{ArchiveChecksum, writes}
use sarc.Crypto.{gcm_tag_size}
use sarc.Format.{MetadataBlock, DataBlock, FileTrailer, FileEntry}
use sarc.Writer.{
  ArchiveWriter, tee_write, write_metadata_block, write_padding, start_entry, count_stored,
  write_data_block, write_data_blocks, write_trailer, write_file_entry, sentinel, last_entry,
}
use sarc.Writer.Layout

-- From one state of a writer to a later one, `bs` was written: the checksum saw exactly these bytes,
-- in some pieces, and `stored` was added to the count of stored bytes.
pub record Wrote (aw : ArchiveWriter) (bs : Bytes) (stored : ℕ) (aw' : ArchiveWriter) : Type 0 where
  pub pieces : List Bytes
  pub bytes : concat pieces ≡ bs
  pub hasher : aw'.hasher ≡ writes aw.hasher pieces
  pub out : aw'.out ≡ aw.out ++ bs
  pub offset : aw'.offset % 2 ^ 64 ≡ (aw.offset + length bs) % 2 ^ 64
  pub keys : aw'.keys ≡ aw.keys
  pub recipients : aw'.recipients ≡ aw.recipients
  pub entry_offset : aw'.entry_offset ≡ aw.entry_offset
  pub entry_stored : aw'.entry_stored % 2 ^ 64 ≡ (aw.entry_stored + stored) % 2 ^ 64

pub concat-append : (ps qs : List Bytes) → concat (ps ++ qs) ≡ concat ps ++ concat qs
concat-append [] qs = refl
concat-append (p ∷ ps) qs = ap (λ s. p ++ s) (concat-append ps qs) ∙ sym (append_assoc p _ _)

pub writes-append :
    (c : ArchiveChecksum) (ps qs : List Bytes) → writes c (ps ++ qs) ≡ writes (writes c ps) qs
unfolding writes
writes-append c [] qs = refl
writes-append c (p ∷ ps) qs = writes-append (Checksum.write c p) ps qs

pub Wrote-none : (aw : ArchiveWriter) → Wrote aw [] 0 aw
unfolding writes
Wrote-none aw = record {
  pieces = [];
  bytes = refl;
  hasher = refl;
  out = sym (append-nil aw.out);
  offset = omega arith;
  keys = refl;
  recipients = refl;
  entry_offset = refl;
  entry_stored = omega arith;
}

pub Wrote-tee : (aw : ArchiveWriter) (p : Bytes) → Wrote aw p 0 (tee_write aw p)
unfolding tee_write writes
Wrote-tee aw p = record {
  pieces = p ∷ [];
  bytes = append-nil p;
  hasher = refl;
  out = refl;
  offset = omega arith;
  keys = refl;
  recipients = refl;
  entry_offset = refl;
  entry_stored = omega arith;
}

pub Wrote-count :
    (aw : ArchiveWriter) (db : DataBlock)
    → Wrote aw [] (length db.ciphertext + (2 ^ 64 - gcm_tag_size)) (count_stored aw db)
unfolding count_stored writes
Wrote-count aw db = record {
  pieces = [];
  bytes = refl;
  hasher = refl;
  out = sym (append-nil aw.out);
  offset = omega arith;
  keys = refl;
  recipients = refl;
  entry_offset = refl;
  entry_stored = omega arith;
}

module _ {a b c : ArchiveWriter} {x y : Bytes} {n m : ℕ} where
  pub Wrote-trans : Wrote a x n b → Wrote b y m c → Wrote a (x ++ y) (n + m) c
  Wrote-trans u v = record {
    pieces = u.pieces ++ v.pieces;
    bytes = rw (concat-append u.pieces v.pieces) (cc (u.bytes, v.bytes));
    hasher =
        v.hasher
        ∙ ap (λ h. writes h v.pieces) u.hasher
        ∙ sym (writes-append a.hasher u.pieces v.pieces);
    out = v.out ∙ ap (λ s. s ++ y) u.out ∙ append_assoc a.out x y;
    offset = omega (arith, u.offset, v.offset, length-append x y);
    keys = v.keys ∙ u.keys;
    recipients = v.recipients ∙ u.recipients;
    entry_offset = v.entry_offset ∙ u.entry_offset;
    entry_stored = omega (arith, u.entry_stored, v.entry_stored);
  }

-- The same for one more write.
module _ {a b : ArchiveWriter} {x : Bytes} {n : ℕ} where
  pub Wrote-then : (p : Bytes) → Wrote a x n b → Wrote a (x ++ p) n (tee_write b p)
  Wrote-then p u =
      subst (λ k. Wrote a (x ++ p) k (tee_write b p)) (omega arith) (Wrote-trans u (Wrote-tee b p))

-- Up to equal bytes.
pub Wrote-eq : {a b : ArchiveWriter} {x y : Bytes} {n : ℕ} → x ≡ y → Wrote a x n b → Wrote a y n b
Wrote-eq {a} {b} {n = n} e u = subst (λ z. Wrote a z n b) e u

-- `storedSize` of io/solid.go, also the count of a writer's entry, as 64 bits
unfoldable pub stored_size : List DataBlock → ℕ
stored_size [] = 0
stored_size (db ∷ dbs) = (length db.ciphertext + (2 ^ 64 - gcm_tag_size)) + stored_size dbs

pub Wrote-padding :
    (aw : ArchiveWriter) (pad : Bytes) → Wrote aw (Layout.sized pad) 0 (write_padding aw pad)
unfolding write_padding
Wrote-padding aw pad = Wrote-then pad (Wrote-tee aw (le 4 (length pad)))

pub Wrote-metadata_block :
    (aw : ArchiveWriter) (mb : MetadataBlock)
    → Wrote aw (mb.nonce ++ Layout.sized mb.ciphertext) 0 (write_metadata_block aw mb)
unfolding write_metadata_block
Wrote-metadata_block aw mb =
    Wrote-eq (append_assoc mb.nonce _ _)
      (Wrote-then mb.ciphertext (Wrote-then (le 4 (length mb.ciphertext)) (Wrote-tee aw mb.nonce)))

pub Wrote-data_block :
    (aw : ArchiveWriter) (db : DataBlock)
    → Wrote aw
        (Layout.data_block db)
        (length db.ciphertext + (2 ^ 64 - gcm_tag_size))
        (write_data_block aw db)
unfolding write_data_block Layout.data_block
Wrote-data_block aw db = Wrote-eq (append_assoc db.nonce _ _) (
    Wrote-then db.ciphertext
      (Wrote-then (le 4 (length db.ciphertext)) (Wrote-then db.nonce (Wrote-count aw db))))

pub Wrote-data_blocks :
    (aw : ArchiveWriter) (dbs : List DataBlock)
    → Wrote aw (Layout.data_blocks dbs) (stored_size dbs) (write_data_blocks aw dbs)
unfolding write_data_blocks Layout.data_blocks stored_size
Wrote-data_blocks aw [] = Wrote-none aw
Wrote-data_blocks aw (db ∷ dbs) =
    Wrote-trans (Wrote-data_block aw db) (Wrote-data_blocks (write_data_block aw db) dbs)

pub Wrote-trailer :
    (aw : ArchiveWriter) (t : FileTrailer) → Wrote aw (Layout.trailer t) 0 (write_trailer aw t)
unfolding write_trailer Layout.trailer
Wrote-trailer aw t = Wrote-eq (simp append_assoc) (
    Wrote-then t.entry_checksum (
      Wrote-then t.plaintext_hmac_sealed (
        Wrote-then (le 4 (length t.plaintext_hmac_sealed))
          (Wrote-then t.plaintext_hmac_nonce (Wrote-padding aw t.random_padding)))))

pub Wrote-head :
    (aw : ArchiveWriter) (entry_type : ℕ) (salt frame_hdr : Bytes) (meta : MetadataBlock)
    → Wrote aw (Layout.entry_head entry_type salt frame_hdr meta) 0 (
        write_metadata_block
          (tee_write (tee_write (tee_write aw (entry_type ∷ [])) salt) frame_hdr)
          meta)
unfolding Layout.entry_head
Wrote-head aw entry_type salt frame_hdr meta = Wrote-eq (simp append_assoc) (
    Wrote-trans (Wrote-then frame_hdr (Wrote-then salt (Wrote-tee aw (entry_type ∷ []))))
      (Wrote-metadata_block _ meta))

-- The steps from the entry's start on.
started-Wrote :
    (aw : ArchiveWriter) (e : FileEntry)
    → Wrote (start_entry aw) (Layout.entry e) (stored_size e.data_blocks) (write_file_entry aw e)
unfolding write_file_entry Layout.entry_body
started-Wrote aw e =
    subst (λ k. Wrote (start_entry aw) (Layout.entry e) k (write_file_entry aw e)) (omega arith)
      (Wrote-trans (Wrote-head (start_entry aw) e.entry_type e.entry_salt e.frame_hdr e.metadata) (
        Wrote-trans (Wrote-padding _ e.inter_block_pad) (
          Wrote-trans (Wrote-data_blocks _ e.data_blocks)
            (Wrote-trans (Wrote-tee _ sentinel) (Wrote-trailer _ e.trailer)))))

-- WriteFileEntry adds the entry's layout to the sink, to what the checksum saw and to the offset,
-- and sets the entry's offset and count anew; LastEntry then returns the offset that the writer had
-- before it, and the entry's storedSize, on 64 bits.
pub write_file_entry-Wrote :
    (aw : ArchiveWriter) (e : FileEntry)
    → Wrote
        (record aw { entry_offset = aw.offset; entry_stored = 0 })
        (Layout.entry e)
        (stored_size e.data_blocks)
        (write_file_entry aw e)
      × ((last_entry (write_file_entry aw e)).0 ≡ aw.offset)
      × ((last_entry (write_file_entry aw e)).1 % 2 ^ 64 ≡ stored_size e.data_blocks % 2 ^ 64)
unfolding start_entry last_entry
write_file_entry-Wrote aw e =
    let w = started-Wrote aw e in (w, w.entry_offset, omega (arith, w.entry_stored))
