-- ===== src/SessionIndex/Lists.antt =====
-- Lists that are written one element after the other and read back by a counted loop.
use sarc.Prelude.{ℕ, ◌*◌, ◌≤◌}
use sarc.Prelude.{String, ◌≡◌, refl}
use sarc.Prelude.{List, [], ◌∷◌, ◌++◌, append_assoc, arith}
use sarc.Prelude.{length, length-append}
use sarc.Result.{Error, ok}
use sarc.Bytes.{Bytes}
use sarc.IndexDecoder.{Read}
use sarc.IndexDecoder.Reads.{fresh}
use sarc.SessionIndex.{repeat}

-- Elements with their encodings, in order.
pub data Encoded {A : Type 0} (IsEncoding : A → Bytes → Type 0) : List A → Bytes → Type 0 where
  end : Encoded IsEncoding [] []
  next :
      {x : A} {xs : List A} {enc rest : Bytes}
      → IsEncoding x enc
      → Encoded IsEncoding xs rest
      → Encoded IsEncoding (x ∷ xs) (enc ++ rest)

module _ {A : Type 0} (IsEncoding : A → Bytes → Type 0) where
  -- A loop over as many elements as were written reads them, if one read reads one element.
  pub repeat-Encoded :
      (k : String → Error) (read : Read A)
      → ((x : A) (enc rest : Bytes)
          → IsEncoding x enc
          → read (fresh k (enc ++ rest)) ≡ ok (x, fresh k rest))
      → (xs : List A) (b rest : Bytes) → Encoded IsEncoding xs b
      → repeat (length xs) read (fresh k (b ++ rest)) ≡ ok (xs, fresh k rest)
  unfolding repeat
  repeat-Encoded k read one [] b rest end = refl
  repeat-Encoded k read one (x ∷ xs) b rest (next {enc = enc} {rest = more} is others) =
      rw append_assoc
        (rw (one x enc (more ++ rest) is) (rw (repeat-Encoded k read one xs more rest others)))

  -- Elements of at least `m` bytes take at least `m` bytes each.
  pub length-Encoded :
      (m : ℕ)
      → ((x : A) (enc : Bytes) → IsEncoding x enc → m ≤ length enc)
      → (xs : List A) (b : Bytes) → Encoded IsEncoding xs b
      → length xs * m ≤ length b
  length-Encoded m one [] b end = omega arith
  length-Encoded m one (x ∷ xs) b (next {enc = enc} {rest = rest} is others) =
      grind (arith, one x enc is, length-append enc rest, length-Encoded m one xs rest others)
