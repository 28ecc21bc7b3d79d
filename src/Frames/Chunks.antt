-- ===== src/Frames/Chunks.antt =====
-- The data blocks that a FrameBuilder makes of some bytes hold those bytes, piece by piece.
use sarc.Prelude.{
  ℕ, zero, suc, ◌+◌, ◌≤◌, ◌<◌, ◌≡◌, refl, sym, ap, true, false, Option, none, List, [], ◌∷◌, ◌++◌,
  append-nil, All, arith, min, subst, inl, inr,
}
use sarc.Prelude.{
  ltb, ◌==◌, if◌then◌else◌, length, take, drop, length-take, take-append-drop, Bool-cases, ltb→le,
  ltb→lt, ==→eq,
}
use sarc.Bytes.{Bytes}
use sarc.Bytes.Slice.{nil_of_length}
use sarc.Crypto.{Primitives, encrypt_block, nonce_size}
use sarc.Format.{DataBlock}
use sarc.Reader.{Fallible, panics, got, Reading, after, on_bind, on_read_full}
use sarc.Extractor.Framing.{max_chunk_size}
use sarc.Extractor.Blocks.Reads.{seal_payloads, payloads, IsChunk}
use sarc.Frames.{
  FrameBuilder, varied_size, next_chunk_size, encode_into, encrypt_chunk, encrypt_read,
  encrypt_stream, seal_chunks, base_block_size,
}

-- Pieces of plaintext, each with the nonce that its block is sealed with, as they are sealed.
unfoldable pub encoded : Option (Bytes → Bytes) → List (Bytes × Bytes) → List (Bytes × Bytes)
encoded compressor [] = []
encoded compressor ((nonce, piece) ∷ pieces) =
    (nonce, encode_into compressor piece) ∷ encoded compressor pieces

abbrev pub IsPiece : Bytes × Bytes → Type 0
IsPiece (nonce, piece) =
    (length nonce ≡ nonce_size) × (0 < length piece) × (length piece ≤ max_chunk_size)

-- Blocks that hold `plaintext` in pieces of at most MaxChunkSize bytes, none empty.
pub record IsChunked (p : Primitives) (fb : FrameBuilder) (plaintext : Bytes) (dbs : List DataBlock)
    : Type 0 where
  pub pieces : List (Bytes × Bytes)
  pub joined : payloads pieces ≡ plaintext
  pub blocks : dbs ≡ seal_payloads p fb.key (encoded fb.compressor pieces)
  pub are_pieces : All IsPiece pieces

-- A chunk's size is between 1 and MaxChunkSize, whatever the random source delivers.
next_chunk_size_bounds :
    (b b' : Bytes) (size : ℕ)
    → next_chunk_size b ≡ (got size, b')
    → (0 < size) × (size ≤ max_chunk_size)
unfolding next_chunk_size varied_size
next_chunk_size_bounds b b' size h = elim (Bool-cases (ltb (length b) 2)) [
  | inl short ↦
      let h' : ◌≡◌ {A = Fallible ℕ × Bytes} (got base_block_size, []) (got size, b') =
        rw short at h in
      let e : base_block_size ≡ size = cc h' in (omega (arith, e), omega (arith, e))
  | inr long ↦
      let h' : ◌≡◌ {A = Fallible ℕ × Bytes}
          (got (if ltb (varied_size b) 1 then 1 else varied_size b), drop 2 b) (got size, b') =
        rw long at h in
      let e : (if ltb (varied_size b) 1 then 1 else varied_size b) ≡ size = cc h' in
      let (lo, hi) = clipped (varied_size b) (omega arith) in
      (omega (arith, e, lo), omega (arith, e, hi))
]
  where
    clipped :
        (n : ℕ)
        → n ≤ max_chunk_size
        → (0 < (if ltb n 1 then 1 else n)) × ((if ltb n 1 then 1 else n) ≤ max_chunk_size)
    clipped n q = ground arith

module _ (p : Primitives) (fb : FrameBuilder) where
  encrypt_chunk_sound :
      {B : Type 0} (plaintext b : Bytes) (f : DataBlock → Reading B) {x : B} {end : Bytes}
      {C : Type 0}
      → after (encrypt_chunk p fb plaintext b) f ≡ (got x, end)
      → ((nonce b' : Bytes)
          → length nonce ≡ nonce_size
          → f
              (record {
                nonce = nonce;
                ciphertext = p.gcm_seal fb.key nonce (encode_into fb.compressor plaintext);
              })
              b'
            ≡ (got x, end)
          → C)
      → C
  unfolding encrypt_chunk encrypt_block
  encrypt_chunk_sound plaintext b f h k = on_bind (encrypt_chunk p fb plaintext b) f h λ db b' e e'.
      on_read_full nonce_size _ b _ e λ nonce rest size e2. k nonce rest size (cc (e2, e'))

  -- No bytes, and a piece in front of the others.
  chunked-nil : IsChunked p fb [] []
  unfolding seal_payloads encoded payloads
  chunked-nil = record { pieces = []; joined = refl; blocks = refl; are_pieces = tt }

  chunked-cons :
      (nonce piece rest : Bytes) (dbs : List DataBlock)
      → IsPiece (nonce, piece)
      → IsChunked p fb rest dbs
      → IsChunked p fb (piece ++ rest) (
          record {
            nonce = nonce;
            ciphertext = p.gcm_seal fb.key nonce (encode_into fb.compressor piece);
          }
          ∷ dbs)
  unfolding seal_payloads encoded payloads encrypt_block
  chunked-cons nonce piece rest dbs is c = record {
    pieces = (nonce, piece) ∷ c.pieces;
    joined = ap (λ s. piece ++ s) c.joined;
    blocks =
        ap
          (λ (r : List DataBlock).
            record {
              nonce = nonce;
              ciphertext = p.gcm_seal fb.key nonce (encode_into fb.compressor piece);
            }
            ∷ r)
          c.blocks;
    are_pieces = (is, c.are_pieces);
  }

  -- A loop that ended with no bytes left.
  chunked_end :
      (payload b b' : Bytes) (dbs : List DataBlock)
      → length payload == 0 ≡ true
      → ◌≡◌ {A = Fallible (List DataBlock) × Bytes} (got [], b) (got dbs, b')
      → IsChunked p fb payload dbs
  chunked_end payload b b' dbs empty e =
      subst (λ s. IsChunked p fb s dbs) (sym (nil_of_length payload (==→eq _ _ empty)))
        (subst (λ r. IsChunked p fb [] r) (cc e) chunked-nil)

  -- One piece.
  whole :
      (nonce plaintext : Bytes)
      → length nonce ≡ nonce_size
      → 0 < length plaintext
      → length plaintext ≤ max_chunk_size
      → IsChunked p fb plaintext (
          record {
            nonce = nonce;
            ciphertext = p.gcm_seal fb.key nonce (encode_into fb.compressor plaintext);
          }
          ∷ [])
  whole nonce plaintext size lo hi =
      subst
        (λ s. IsChunked p fb s (
          record {
            nonce = nonce;
            ciphertext = p.gcm_seal fb.key nonce (encode_into fb.compressor plaintext);
          }
          ∷ []))
        (append-nil plaintext) (chunked-cons nonce plaintext [] [] (size, lo, hi) chunked-nil)

  -- The turn of a loop that seals the first `n` bytes.
  chunked_turn :
      (nonce payload : Bytes) (n : ℕ) (dbs : List DataBlock)
      → length nonce ≡ nonce_size
      → 0 < n
      → n ≤ max_chunk_size
      → n ≤ length payload
      → IsChunked p fb (drop n payload) dbs
      → IsChunked p fb payload (
          record {
            nonce = nonce;
            ciphertext = p.gcm_seal fb.key nonce (encode_into fb.compressor (take n payload));
          }
          ∷ dbs)
  chunked_turn nonce payload n dbs size lo hi inside c =
      let taken = length-take n payload inside in
      subst
        (λ s. IsChunked p fb s (
          record {
            nonce = nonce;
            ciphertext = p.gcm_seal fb.key nonce (encode_into fb.compressor (take n payload));
          }
          ∷ dbs))
        (take-append-drop n payload)
        (chunked-cons nonce (take n payload) (drop n payload) dbs
          (size, omega (arith, taken, lo), omega (arith, taken, hi)) c)

  -- The blocks of `sealPayloadEntry` hold its payload.
  pub seal_chunks-IsChunked :
      (fuel : ℕ) (payload b b' : Bytes) (dbs : List DataBlock)
      → seal_chunks p fuel fb payload b ≡ (got dbs, b')
      → IsChunked p fb payload dbs
  unfolding seal_chunks
  seal_chunks-IsChunked zero payload b b' dbs h = elim (Bool-cases (length payload == 0)) [
    | inl empty ↦ chunked_end payload b b' dbs empty (rw empty at h)
    | inr more ↦ absurd (
        let h' : ◌≡◌ {A = Fallible (List DataBlock) × Bytes} (panics, b) (got dbs, b') =
          rw more at h in
        cc h')
  ]
  seal_chunks-IsChunked (suc fuel) payload b b' dbs h = elim (Bool-cases (length payload == 0)) [
    | inl empty ↦ chunked_end payload b b' dbs empty (rw empty at h)
    | inr more ↦ on_bind (next_chunk_size b) _ (rw more at h) λ size b1 e1 h1.
        let (lo, hi) = next_chunk_size_bounds b b1 size e1 in
        let n = min size (length payload) in
        encrypt_chunk_sound (take n payload) b1 _ h1 λ nonce b2 is h2.
          on_bind (seal_chunks p fuel fb (drop n payload) b2) _ h2 λ rest b3 e3 h3.
            subst (λ r. IsChunked p fb payload r) (cc h3)
              (chunked_turn nonce payload n rest is (positive size (length payload) lo more)
                (omega (arith, hi)) (omega arith)
                (seal_chunks-IsChunked fuel (drop n payload) b2 b3 rest e3))
  ]
    where
      positive : (s l : ℕ) → 0 < s → l == 0 ≡ false → 0 < min s l
      positive s l q r = let some_left : 0 < l = ground arith in omega arith

  -- The blocks of `EncryptStream` hold what it reads.
  pub encrypt_stream-IsChunked :
      (fuel : ℕ) (plaintext b b' : Bytes) (dbs : List DataBlock)
      → encrypt_stream p fuel fb plaintext b ≡ (got dbs, b')
      → IsChunked p fb plaintext dbs
  unfolding encrypt_stream encrypt_read
  encrypt_stream-IsChunked zero plaintext b b' dbs h = cc h
  encrypt_stream-IsChunked (suc fuel) plaintext b b' dbs h =
      on_bind (next_chunk_size b) _ h λ size b1 e1 h1.
        let (lo, hi) = next_chunk_size_bounds b b1 size e1 in
        elim (Bool-cases (ltb (length plaintext) size)) [
          | inl short ↦ elim (Bool-cases (length plaintext == 0)) [
            | inl empty ↦ chunked_end plaintext b1 b' dbs empty (rw empty at (rw short at h1))
            | inr more ↦
                encrypt_chunk_sound plaintext b1 _ (rw more at (rw short at h1)) λ nonce b2 is h2.
                  subst (λ r. IsChunked p fb plaintext r) (cc h2)
                    (whole nonce plaintext is (not_empty (length plaintext) more)
                      (omega (arith, hi, ltb→lt (length plaintext) size short)))
          ]
          | inr long ↦
              encrypt_chunk_sound (take size plaintext) b1 _ (rw long at h1) λ nonce b2 is h2.
                on_bind (encrypt_stream p fuel fb (drop size plaintext) b2) _ h2 λ rest b3 e3 h3.
                  subst (λ r. IsChunked p fb plaintext r) (cc h3)
                    (chunked_turn nonce plaintext size rest is lo hi
                      (ltb→le (length plaintext) size long)
                      (encrypt_stream-IsChunked fuel (drop size plaintext) b2 b3 rest e3))
        ]
    where
      not_empty : (n : ℕ) → n == 0 ≡ false → 0 < n
      not_empty n q = ground arith

-- What `zstdMaxOverhead` promises of the compressor, for inputs of at most MaxChunkSize.
abbrev pub IsCompressor : (Bytes → Bytes) → Type 0
IsCompressor compress =
    (b : Bytes) → length b ≤ max_chunk_size → length (compress b) ≤ length b + 256

-- With no compressor, or with one that adds at most zstdMaxOverhead bytes, the pieces are chunks that
-- the reader accepts.
encoded-IsChunk :
    (compressor : Option (Bytes → Bytes)) (pieces : List (Bytes × Bytes))
    → All IsPiece pieces
    → IsCompressor (encode_into compressor)
    → All IsChunk (encoded compressor pieces)
unfolding encoded
encoded-IsChunk compressor [] h bound = tt
encoded-IsChunk compressor ((nonce, piece) ∷ pieces) ((hn, lo, hi), h) bound =
    ((hn, omega (arith, hi, bound piece hi)), encoded-IsChunk compressor pieces h bound)

pub chunked-IsChunk :
    (p : Primitives) (fb : FrameBuilder) (plaintext : Bytes) (dbs : List DataBlock)
    → (c : IsChunked p fb plaintext dbs) → IsCompressor (encode_into fb.compressor)
    → All IsChunk (encoded fb.compressor c.pieces)
chunked-IsChunk p fb plaintext dbs c bound =
    encoded-IsChunk fb.compressor c.pieces c.are_pieces bound

-- With no compressor the payload is the plaintext.
pub payloads-plain :
    (pieces : List (Bytes × Bytes)) → payloads (encoded none pieces) ≡ payloads pieces
unfolding payloads encoded encode_into
payloads-plain [] = refl
payloads-plain ((nonce, piece) ∷ pieces) = ap (λ s. piece ++ s) (payloads-plain pieces)
