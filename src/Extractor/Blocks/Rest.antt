-- ===== src/Extractor/Blocks/Rest.antt =====
-- What `next` of streamDataBlocks leaves of its input: never more than there was, and less once it
-- returned a block.
use sarc.Prelude.{
  ℕ, ◌≤◌, ◌<◌, ◌≡◌, refl, ◌⊎◌, none, [], arith, length, take, drop, ltb, length-drop, Bool-cases,
  inl, inr, ltb→le, ◌==◌,
}
use sarc.Bytes.{Bytes}
use sarc.Bytes.LittleEndian.{from_le}
use sarc.Crypto.{nonce_size}
use sarc.Reader.{
  ArchiveError, recoverable, truncated, Fallible, panics, fails, got, Reading, after, read_full,
}
use sarc.Extractor.Framing.{max_block_ciphertext}
use sarc.Extractor.Blocks.{sized_block, behind_nonce, next_block}

module _ {A B : Type 0} (f : A → Reading B) (n : ℕ) where
  after_rest :
      (r : Fallible A × Bytes)
      → length r.1 ≤ n
      → ((x : A) (b : Bytes) → length b ≤ n → length (f x b).1 ≤ n)
      → length (after r f).1 ≤ n
  after_rest (panics, b) h k = h
  after_rest (fails e, b) h k = h
  after_rest (got x, b) h k = k x b h

read_full_rest : (n : ℕ) (e : ArchiveError) (b : Bytes) → length (read_full n e b).1 ≤ length b
unfolding read_full
read_full_rest n e b = ground (arith, length-drop n b)

sized_block_rest :
    (nonce : Bytes) (size : ℕ) (b : Bytes) → length (sized_block nonce size b).1 ≤ length b
unfolding sized_block
sized_block_rest nonce size b = elim (Bool-cases (size == 0)) [
  | inl ends ↦ rw ends (omega arith)
  | inr more ↦ rw more (elim (Bool-cases (ltb max_block_ciphertext size)) [
    | inl over ↦ rw over (omega arith)
    | inr within ↦ rw within (after_rest _ (length b) _ (read_full_rest _ _ b) (λ ct b' h. h))
  ])
]

-- Where `next` leaves as much as there was, it returned no block and left nothing.
pub next_block_rest :
    (b : Bytes)
    → (((next_block b).0 ≡ got none) × ((next_block b).1 ≡ []))
      ⊎ (length (next_block b).1 < length b)
unfolding next_block behind_nonce
next_block_rest b = elim (Bool-cases (ltb (length b) nonce_size)) [
  | inl short ↦ rw short (inl (refl, refl))
  | inr long ↦ rw long (
      inr (
        omega (
          arith,
          ltb→le (length b) nonce_size long,
          length-drop nonce_size b,
          after_rest (λ buf. sized_block (take nonce_size b) (from_le buf))
              (length (drop nonce_size b))
              (read_full 4 (recoverable truncated "read block size") (drop nonce_size b))
              (read_full_rest 4 _ _)
              (λ buf b' h. omega (arith, h, sized_block_rest (take nonce_size b) (from_le buf) b')),
        )))
]
