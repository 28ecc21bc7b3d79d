-- ===== src/Frames/Parts.antt =====
-- The parts of a sealed entry: its metadata, name, padding and trailer are what the reader opens.
use sarc.Prelude.{
  ℕ, ◌+◌, ◌-◌, ◌%◌, ◌≤◌, ◌<◌, ◌≡◌, refl, ap, false, not, Option, none, some, [], ◌++◌, arith, subst,
}
use sarc.Prelude.{ltb, length, length-append, ltb→le}
use sarc.Bytes.{Bytes}
use sarc.Bytes.LittleEndian.{le, length-le}
use sarc.Bytes.Slice.{take-append_eq, drop-append_eq}
use sarc.Result.{Result, ok, >>=-eq-ok, on_fail_if}
use sarc.Attributes.{Attributes, max_attributes_size, append_attributes}
use sarc.Attributes.Size.{append_attributes-size}
use sarc.Crypto.{Primitives, IsAead, encrypt_block, decrypt_block, nonce_size, hmac_size}
use sarc.Metadata.{
  PlaintextMetadata, marshal_metadata, attributes_part, known_codec, bucket_number, SizeBucket,
  tiny, small, medium, large, huge,
}
use sarc.Metadata.RoundTrip.{InRange, unmarshal-marshal_metadata}
use sarc.Format.{MetadataBlock, FileTrailer}
use sarc.Reader.{ArchiveError, got, Reading, after, on_bind, on_read_full, read_full_sound}
use sarc.Extractor.Framing.{max_metadata_ciphertext, max_metadata_size}
use sarc.Extractor.Framing.Skips.{IsSealedTrailer}
use sarc.Extractor.Entries.{open_metadata, opened_metadata, decrypt_filename}
use sarc.Frames.{
  FrameBuilder, two_bytes, random_range, trailer_pad_min, trailer_pad_max, build_trailer,
  seal_metadata, or_fatal, encrypt_filename,
}

module _ {B : Type 0} where
  pub on_random_range :
      (least most : ℕ) (e : ArchiveError) (b : Bytes) (f : Bytes → Reading B) {x : B} {end : Bytes}
      {C : Type 0}
      → least ≤ most
      → after (random_range least most e b) f ≡ (got x, end)
      → ((pad b' : Bytes) → length pad ≤ most → f pad b' ≡ (got x, end) → C)
      → C
  unfolding random_range
  on_random_range least most e b f order h k =
      on_bind (random_range least most e b) f h λ pad b' e1 h1.
        on_read_full 2 e b _ e1 λ two b2 _ e2.
          k pad b'
            (below (two_bytes two) pad
              (read_full_sound (least + two_bytes two % (most - least + 1)) e b2 e2))
            h1
    where
      below :
          (r : ℕ) (pad : Bytes) → length pad ≡ least + r % (most - least + 1) → length pad ≤ most
      below r pad q = grind arith

-- Metadata takes at most MaxMetadataSize.
pub length-marshal_metadata :
    (pm : PlaintextMetadata) (raw : Bytes)
    → length pm.timestamp_hash ≡ 32
    → marshal_metadata pm ≡ ok raw
    → length raw ≤ max_metadata_size
unfolding marshal_metadata attributes_part
length-marshal_metadata pm raw hash h =
    on_fail_if (ltb 0xffff (length pm.encrypted_filename)) _ _ h λ short h1.
      on_fail_if (not (known_codec pm.codec)) _ _ h1 λ known h2.
        let (attrs, e, e') = >>=-eq-ok (attributes_part pm.attributes) _ h2 in
        let layout : Bytes =
          le 2 (length pm.encrypted_filename)
          ++ (pm.encrypted_filename
              ++ (le 1 pm.size_bucket
                  ++ (pm.timestamp_hash ++ (le 4 pm.permissions ++ (le 1 pm.codec ++ attrs))))) in
        let is : layout ≡ raw = cc e' in
        let size : length layout
            ≡ 2 + (length pm.encrypted_filename + (1 + (32 + (4 + (1 + length attrs))))) =
          simp (length-append, length-le, hash) in
        omega (
          arith,
          ap (length {A = ℕ}) is,
          size,
          ltb→le 0xffff (length pm.encrypted_filename) short,
          small pm.attributes attrs e,
        )
  where
    small :
        (o : Option Attributes) (out : Bytes)
        → attributes_part o ≡ ok out
        → length out ≤ 4 + max_attributes_size
    small none out q = let nil : [] ≡ out = cc q in omega (arith, ap (length {A = ℕ}) nil)
    small (some a) out q =
        let (attrs, e, e') = >>=-eq-ok (append_attributes [] a) _ q in
        let is : le 4 (length attrs) ++ attrs ≡ out = cc e' in
        omega (
          arith,
          ap (length {A = ℕ}) is,
          length-append (le 4 (length attrs)) attrs,
          length-le 4 (length attrs),
          append_attributes-size [] attrs a e,
        )

-- A bucket's number fits its byte.
pub bucket_number-lt : (b : SizeBucket) → bucket_number b < 256
unfolding bucket_number
bucket_number-lt tiny = omega arith
bucket_number-lt small = omega arith
bucket_number-lt medium = omega arith
bucket_number-lt large = omega arith
bucket_number-lt huge = omega arith

-- A call whose error is replaced returned a value if the whole did.
pub or_fatal_sound :
    (p : Primitives) {A B : Type 0} (e : ArchiveError) (r : Result A) (b : Bytes)
    (f : A → Reading B) {x : B} {end : Bytes} {C : Type 0}
    → after (or_fatal p e r, b) f ≡ (got x, end)
    → ((a : A) → r ≡ ok a → f a b ≡ (got x, end) → C)
    → C
unfolding or_fatal
or_fatal_sound p e Result.panic b f h k = cc h
or_fatal_sound p e (Result.err cause) b f h k = cc h
or_fatal_sound p e (ok a) b f h k = k a refl h

module _ (p : Primitives) (aead : IsAead p) (key nonce : Bytes) where
  -- Sealed metadata opens, and is as long as the reader accepts.
  pub seal_metadata_sound :
      (pm : PlaintextMetadata) (mb : MetadataBlock)
      → InRange pm
      → seal_metadata p key nonce pm ≡ ok mb
      → (mb.nonce ≡ nonce)
        × (length mb.ciphertext ≤ max_metadata_ciphertext)
        × (open_metadata p key mb ≡ ok pm)
  unfolding seal_metadata encrypt_block open_metadata opened_metadata decrypt_block
  seal_metadata_sound pm mb fits h =
      let (raw, e, e') = >>=-eq-ok (marshal_metadata pm) _ h in
      let sealed : record { nonce = nonce; ciphertext = p.gcm_seal key nonce raw } ≡ mb = cc e' in
      subst
        (λ (z : MetadataBlock).
          (z.nonce ≡ nonce)
          × (length z.ciphertext ≤ max_metadata_ciphertext)
          × (open_metadata p key z ≡ ok pm))
        sealed
        (
          refl,
          omega (
            arith,
            aead.length-seal key nonce raw,
            length-marshal_metadata pm raw fits.timestamp_hash e,
          ),
          rw (aead.open-seal key nonce raw) (unmarshal-marshal_metadata pm raw fits e),
        )

  -- A sealed filename opens.
  pub decrypt-encrypt_filename :
      (name : Bytes)
      → length nonce ≡ nonce_size
      → decrypt_filename p (encrypt_filename p key nonce name) key ≡ some name
  unfolding decrypt_filename encrypt_filename encrypt_block decrypt_block
  decrypt-encrypt_filename name h =
      let ct = p.gcm_seal key nonce name in
      rw (not_short (length (nonce ++ ct)) (omega (arith, h, length-append nonce ct))) (
        rw (take-append_eq nonce_size nonce ct h, drop-append_eq nonce_size nonce ct h)
          (aead.open-seal key nonce name))
    where
      not_short : (n : ℕ) → nonce_size ≤ n → ltb n nonce_size ≡ false
      not_short n q = ground arith

module _ (p : Primitives) (aead : IsAead p) where
  -- A trailer that BuildTrailer returned is as the reader accepts it, and opens to what it sealed.
  pub build_trailer_sound :
      {B : Type 0} (fb : FrameBuilder) (mac : Bytes) (size : ℕ) (b : Bytes)
      (f : FileTrailer → Reading B) {x : B} {end : Bytes} {C : Type 0}
      → length mac ≡ hmac_size
      → after (build_trailer p fb mac size b) f ≡ (got x, end)
      → ((t : FileTrailer) (b' : Bytes)
          → IsSealedTrailer t
          → p.gcm_open fb.key t.plaintext_hmac_nonce t.plaintext_hmac_sealed
            ≡ some (mac ++ le 8 size)
          → f t b' ≡ (got x, end)
          → C)
      → C
  unfolding build_trailer encrypt_block
  build_trailer_sound fb mac size b f hm h k =
      on_bind (build_trailer p fb mac size b) f h λ t b' e h'.
        on_random_range trailer_pad_min trailer_pad_max _ b _ (omega arith) e λ pad b1 small e1.
          on_read_full nonce_size _ b1 _ e1 λ n b2 is e2. on_read_full 8 _ b2 _ e2 λ cs b3 eight e3.
            let sealed = p.gcm_seal fb.key n (mac ++ le 8 size) in
            let same : record {
              random_padding = pad;
              plaintext_hmac_nonce = n;
              plaintext_hmac_sealed = sealed;
              entry_checksum = cs;
            }
                ≡ t =
              cc e3 in
            let good : IsSealedTrailer (record {
              random_padding = pad;
              plaintext_hmac_nonce = n;
              plaintext_hmac_sealed = sealed;
              entry_checksum = cs;
            }) =
              record {
                padding = omega (arith, small);
                nonce = is;
                sealed = omega (
                  arith,
                  aead.length-seal fb.key n (mac ++ le 8 size),
                  length-append mac (le 8 size),
                  length-le 8 size,
                  hm,
                );
                checksum = eight;
              } in
            k t b' (subst IsSealedTrailer same good)
              (subst
                (λ (z : FileTrailer).
                  p.gcm_open fb.key z.plaintext_hmac_nonce z.plaintext_hmac_sealed
                  ≡ some (mac ++ le 8 size))
                same (aead.open-seal fb.key n (mac ++ le 8 size)))
              h'
