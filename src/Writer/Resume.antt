-- ===== src/Writer/Resume.antt =====
-- Appending to an archive: a writer that is resumed from the checksum's saved state ends the archive
-- as one that was never stopped.
use sarc.Prelude.{
  ℕ, ◌≤◌, length, ◌≡◌, refl, sym, ap, ◌∙◌, subst, List, [], ◌∷◌, ◌++◌, append-nil, append_assoc,
  replicate, true, some, Bool-cases, inl, inr,
}
use sarc.Result.{ok}
use sarc.Bytes.{Bytes, concat}
use sarc.Crypto.{Primitives}
use sarc.Checksum
use sarc.Checksum.{ArchiveChecksum, new_archive_checksum, writes, sum, masked}
use sarc.Checksum.Splitting.{sum-writes}
use sarc.Format.{reserved_size, entry_type_end}
use sarc.Writer.{
  ArchiveWriter, StreamHash, new_writer, new_archive_writer, marshal_binary,
  resume_archive_checksum, resume_archive_writer, tee_write, write_footer, finish_footer,
}
use sarc.Writer.Progress.{Wrote-tee, writes-append, concat-append}
use sarc.Writer.Archive.{Call, run, calls_bytes, Grew, Grew-trans, Wrote-Grew, run-Next}

-- The state of Go's SHA-256 marshals to fewer bytes than this.
abbrev pub hash_state_size : ℕ
hash_state_size = 128

-- What Go documents of the hash: its state is small, UnmarshalBinary loads what MarshalBinary saved, and
-- the sum is that of the state and of what is written from there on.
pub record IsResumable {State : Type 0} (sha256 : Bytes → Bytes) (hash : StreamHash State)
    : Type 0 where
  pub small : (state : State) → length (hash.marshal state) ≤ hash_state_size
  pub loads : (state : State) → hash.unmarshal (hash.marshal state) ≡ some state
  pub leads : (h : Bytes) → hash.after (hash.text (hash.after h)) ≡ hash.after h
  pub sums :
      (h h' more : Bytes) → hash.after h ≡ hash.after h' → sha256 (h ++ more) ≡ sha256 (h' ++ more)

-- A checksum whose header is hashed, as ResumeArchiveChecksum restores it.
abbrev past_header : Bytes → ArchiveChecksum
past_header hashed = record { hashed = hashed; head = []; done = true }

-- Past the header, the sum is the hash of what was hashed and of all that is written since.
sum_done :
    (sha256 : Bytes → Bytes) (c : ArchiveChecksum) (ps : List Bytes)
    → c.done ≡ true
    → (sum sha256 (writes c ps) []).0 ≡ sha256 (c.hashed ++ concat ps)
unfolding sum writes Checksum.write
sum_done sha256 c [] done = rw (done, append-nil) refl
sum_done sha256 c (p ∷ ps) done =
    sum_done sha256 (Checksum.write c p) ps (rw done refl)
    ∙ rw done (ap sha256 (append_assoc c.hashed p (concat ps)))

-- So a restored checksum goes on as the one that was saved.
sum-restored :
    (sha256 : Bytes → Bytes) (h : Bytes) (ps qs : List Bytes)
    → (writes new_archive_checksum ps).done ≡ true
    → ((more : Bytes)
        → sha256 (h ++ more) ≡ sha256 ((writes new_archive_checksum ps).hashed ++ more))
    → (sum sha256 (writes (past_header h) qs) []).0 ≡ sha256 (masked (concat ps ++ concat qs))
sum-restored sha256 h ps qs done same =
    let c = writes new_archive_checksum ps in
    sum_done sha256 (past_header h) qs refl
    ∙ same (concat qs)
    ∙ sym (sum_done sha256 c qs done)
    ∙ ap (λ h. (sum sha256 h []).0) (sym (writes-append new_archive_checksum ps qs))
    ∙ sum-writes sha256 (ps ++ qs) []
    ∙ ap (λ s. sha256 (masked s)) (concat-append ps qs)

-- A state that was saved is of a checksum past its header.
marshal_binary_done :
    {State : Type 0} (hash : StreamHash State) (c : ArchiveChecksum) (state : Bytes)
    → marshal_binary hash c ≡ ok state
    → (c.done ≡ true) × (hash.marshal (hash.after c.hashed) ≡ state)
unfolding marshal_binary
marshal_binary_done hash c state h = elim (Bool-cases c.done) [
  | inl done ↦ (done, cc (rw done at h))
  | inr waits ↦ absurd (cc (rw waits at h))
]

-- Where the hash's state has at most 128 bytes, UnmarshalBinary loads what MarshalBinary saved, and a sum
-- is that of the state and of what is written from there on: an archive that was begun with any calls,
-- cut off where the checksum was saved, and resumed there with any further calls and a footer, is the
-- bytes of all the calls, the end marker, the SHA-256 of all that with the sealed count masked, and the
-- reserved zeros; no call fails.
pub resume_archive_writer-continues :
    {State : Type 0} (p : Primitives) (cek recipients : Bytes) (hash : StreamHash State)
    (cs more : List Call) (aw : ArchiveWriter) (state : Bytes)
    → IsResumable p.sha256 hash
    → run p (new_archive_writer cek recipients) cs ≡ ok aw
    → marshal_binary hash aw.hasher ≡ ok state
    → (resumed : ArchiveWriter) × (resume_archive_writer hash aw.out aw.keys aw.offset state
        ≡ ok resumed)
      × (end : ArchiveWriter) × (run p resumed more ≡ ok end)
      × ((write_footer p.sha256 end).out
          ≡ (calls_bytes p cek recipients cs
              ++ (calls_bytes p cek [] more ++ (entry_type_end ∷ [])))
            ++ (p.sha256 (
                  masked (
                    calls_bytes p cek recipients cs
                    ++ (calls_bytes p cek [] more ++ (entry_type_end ∷ []))))
                ++ replicate reserved_size 0))
unfolding resume_archive_writer resume_archive_checksum new_archive_writer new_writer write_footer
    finish_footer
resume_archive_writer-continues p cek recipients hash cs more aw state saved ran marshalled =
    let (aw', is, begun) =
      run-Next p cek recipients (new_archive_writer cek recipients) cs (refl, refl) in
    let same : aw' ≡ aw = cc (is, ran) in
    let u : Grew (new_archive_writer cek recipients) (calls_bytes p cek recipients cs) aw =
      subst (λ z. Grew (new_archive_writer cek recipients) (calls_bytes p cek recipients cs) z) same
        begun in
    let (done, hashed) = marshal_binary_done hash aw.hasher state marshalled in
    let h = hash.text (hash.after aw.hasher.hashed) in
    let resumed = new_writer aw.out aw.keys [] (past_header h) aw.offset in
    let (end, ran', v) = run-Next p cek [] resumed more (u.keys, refl) in
    let w = Grew-trans v (Wrote-Grew (Wrote-tee end (entry_type_end ∷ []))) in
    let summed : (sum p.sha256 (tee_write end (entry_type_end ∷ [])).hasher []).0
        ≡ p.sha256 (
            masked (
              calls_bytes p cek recipients cs
              ++ (calls_bytes p cek [] more ++ (entry_type_end ∷ [])))) =
      ap (λ h. (sum p.sha256 h []).0) w.hasher
      ∙ sum-restored p.sha256 h u.pieces w.pieces
          (ap (λ (h : ArchiveChecksum). h.done) (sym u.hasher) ∙ done)
          (λ s.
            saved.sums h aw.hasher.hashed s (saved.leads aw.hasher.hashed)
            ∙ ap (λ (c : ArchiveChecksum). p.sha256 (c.hashed ++ s)) u.hasher)
      ∙ ap (λ s. p.sha256 (masked s)) (cc (u.bytes, w.bytes)) in
    (
      resumed,
      rw (← hashed) (rw (saved.loads (hash.after aw.hasher.hashed), resume_archive_checksum) refl),
      end,
      ran',
      rw summed (
          ap
            (λ (s : Bytes).
              s
              ++ (p.sha256 (
                    masked (
                      calls_bytes p cek recipients cs
                      ++ (calls_bytes p cek [] more ++ (entry_type_end ∷ []))))
                  ++ replicate reserved_size 0))
            (w.out
              ∙ ap (λ (s : Bytes). s ++ (calls_bytes p cek [] more ++ (entry_type_end ∷ [])))
                  u.out)),
    )
