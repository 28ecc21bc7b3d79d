-- ===== src/Recipients/Block.antt =====
-- The stanzas of a recipient block.
use sarc.Prelude.{ℕ, zero, suc, ◌+◌, ◌^◌, ◌≤◌, ◌<◌}
use sarc.Prelude.{◌≡◌, refl, ap, ◌∙◌, subst, ◌≢◌}
use sarc.Prelude.{Bool, true, false, ◌||◌, not}
use sarc.Prelude.{List, [], ◌∷◌, ◌++◌, append-nil, append_assoc, arith}
use sarc.Prelude.{ltb, ◌==◌, ◌!=◌, le→ltb}
use sarc.Prelude.{length, length-append}
use sarc.Bytes.{Bytes, AreBytes}
use sarc.Bytes.LittleEndian.{le, length-le, read_le-le, read_le_then, on_read_le}
use sarc.Bytes.Slice.{cut-append_eq, cut_then, on_cut, nil_of_length}
use sarc.Result.{Result, Error, ok, panic, fail_if, ◌>>◌}
use sarc.Result.{>>=-eq-ok, >>=-ne-panic, on_fail_if, fail_if_then}
use sarc.Recipients.{
  Stanza, max_stanzas, stanza_header_size, known_kind, stanza_ok, encode_stanza, encode_stanzas,
  encode_block, of_kind, validate_stanza, parse_stanzas, parse_recipient_block,
}

-- Each stanza has a known type, a body of its type's size, and is within its type's limit, counting
-- the stanzas seen before it.
abbrev pub AreStanzas : List Stanza → List Stanza → Type 0
AreStanzas seen [] = Unit
AreStanzas seen (s ∷ ss) =
    (known_kind s.kind ≡ true)
    × (stanza_ok s.kind (length s.body) (suc (of_kind s.kind seen)) ≡ true)
    × (length s.body < 2 ^ 32)
    × AreStanzas (seen ++ (s ∷ [])) ss

-- What a block of stanzas must be.
abbrev pub IsBlock : List Stanza → Type 0
IsBlock ss = (1 ≤ length ss) × (length ss ≤ max_stanzas) × AreStanzas [] ss

length-encode_stanza : (s : Stanza) → length (encode_stanza s) ≡ stanza_header_size + length s.body
unfolding encode_stanza
length-encode_stanza s =
    rw length-append
      (rw length-append (omega (arith, length-le 1 s.kind, length-le 4 (length s.body))))

-- One turn of the loop.
stanza_turn :
    (count : ℕ) (seen : List Stanza) (s : Stanza) (rest : Bytes)
    → known_kind s.kind ≡ true
    → stanza_ok s.kind (length s.body) (suc (of_kind s.kind seen)) ≡ true
    → length s.body < 2 ^ 32
    → parse_stanzas (suc count) seen (encode_stanza s ++ rest)
      ≡ parse_stanzas count (seen ++ (s ∷ [])) rest
unfolding parse_stanzas validate_stanza
stanza_turn count seen s rest known fine small =
    let byte : s.kind < 256 ^ 1 = ground arith in
    rw
      (le→ltb (length (encode_stanza s ++ rest)) stanza_header_size
        (omega (arith, length-append (encode_stanza s) rest, length-encode_stanza s)))
      (unfold encode_stanza in
        simp append_assoc (
          rw (read_le-le 1 s.kind _ byte) (
            rw (read_le-le 4 (length s.body) _ (omega arith)) (
              rw
                (le→ltb (length (s.body ++ rest)) (length s.body)
                  (omega (arith, length-append s.body rest)))
                (rw (cut-append_eq (length s.body) s.body rest refl) (rw (known, fine)))))))

encode_stanzas-cons :
    (s : Stanza) (ss : List Stanza) (rest : Bytes)
    → encode_stanzas (s ∷ ss) ++ rest ≡ encode_stanza s ++ (encode_stanzas ss ++ rest)
unfolding encode_stanzas
encode_stanzas-cons s ss rest = append_assoc (encode_stanza s) (encode_stanzas ss) rest

parse_stanzas-encode :
    (seen ss : List Stanza) (rest : Bytes)
    → AreStanzas seen ss
    → parse_stanzas (length ss) seen (encode_stanzas ss ++ rest) ≡ ok (seen ++ ss, rest)
parse_stanzas-encode seen [] rest is = unfold parse_stanzas encode_stanzas in rw append-nil refl
parse_stanzas-encode seen (s ∷ ss) rest (known, fine, small, others) =
    ap (λ b. parse_stanzas (suc (length ss)) seen b) (encode_stanzas-cons s ss rest)
    ∙ stanza_turn (length ss) seen s (encode_stanzas ss ++ rest) known fine small
    ∙ parse_stanzas-encode (seen ++ (s ∷ [])) ss rest others
    ∙ ap (λ all. ok (all, rest)) (append_assoc seen (s ∷ []) ss)

-- A block of at least one and at most maxStanzas stanzas, each of a known type with a body of the
-- right size, below 4 GiB, and within its type's limit, is parsed back to its stanzas.
pub parse_recipient_block-encode :
    (ss : List Stanza) → IsBlock ss → parse_recipient_block (encode_block ss) ≡ ok ss
unfolding parse_recipient_block encode_block
parse_recipient_block-encode ss (some_stanza, few, are) =
    rw
      (le→ltb (length (le 2 (length ss) ++ encode_stanzas ss)) 2 (
        omega
          (arith, length-append (le 2 (length ss)) (encode_stanzas ss), length-le 2 (length ss))))
      (rw (read_le-le 2 (length ss) (encode_stanzas ss) (omega arith))
        (rw (counted (length ss) some_stanza few) (rw (read_all))))
  where
    read_all : parse_stanzas (length ss) [] (encode_stanzas ss) ≡ ok (ss, [])
    read_all = rw append-nil at (parse_stanzas-encode [] ss [] are)

    counted : (n : ℕ) → 1 ≤ n → n ≤ max_stanzas → (n == 0 || ltb max_stanzas n) ≡ false
    counted n lo hi = ground arith

passed : (b : Bool) (e : Error) {u : Unit {0}} → fail_if (not b) e ≡ ok u → b ≡ true
passed true e h = refl
passed false e h = cc h

validate_stanza_sound :
    (kind n m : ℕ) {u : Unit {0}}
    → validate_stanza kind n m ≡ ok u
    → (known_kind kind ≡ true) × (stanza_ok kind n m ≡ true)
unfolding validate_stanza
validate_stanza_sound kind n m e =
    on_fail_if (not (known_kind kind)) _ _ e
      λ known e'. (ground arith, passed (stanza_ok kind n m) _ e')

grouped : (x y z w r : Bytes) → x ++ (y ++ (z ++ (w ++ r))) ≡ ((x ++ (y ++ z)) ++ w) ++ r
grouped x y z w r = simp append_assoc refl

parse_stanzas_sound :
    (count : ℕ) (seen : List Stanza) (b rest : Bytes) {ss : List Stanza}
    → AreBytes b
    → parse_stanzas count seen b ≡ ok (ss, rest)
    → (more : List Stanza) × (ss ≡ seen ++ more)
      × (length more ≡ count)
      × (b ≡ encode_stanzas more ++ rest)
      × AreStanzas seen more
unfolding parse_stanzas encode_stanzas encode_stanza validate_stanza
parse_stanzas_sound zero seen b rest hb h = ([], cc (h, append-nil seen), refl, cc h, tt)
parse_stanzas_sound (suc count) seen b rest hb h =
    on_fail_if (ltb (length b) stanza_header_size) _ _ h λ long h1.
      on_read_le _ 1 b hb h1 λ kind b1 s1 l1 n1 h1' e1.
        on_read_le _ 4 b1 h1' e1 λ body_len b2 s2 l2 n2 h2 e2.
          on_fail_if (ltb (length b2) body_len) _ _ e2 λ inside e3.
            on_cut _ body_len b2 h2 e3 λ body b3 s3 l3 n3 h3 e4.
              let (t, ev, e5) =
                >>=-eq-ok (validate_stanza kind (length body) (suc (of_kind kind seen))) _ e4 in
              let (more, all, size, split, are) = parse_stanzas_sound count _ b3 rest h3.1 e5 in
              let (known, fine) =
                validate_stanza_sound kind (length body) (suc (of_kind kind seen)) ev in
              (
                record { kind = kind; body = body } ∷ more,
                all ∙ append_assoc seen _ more,
                ap suc size,
                cc (
                  s1,
                  s2,
                  s3,
                  l3,
                  split,
                  grouped (le 1 kind) (le 4 body_len) body (encode_stanzas more) rest,
                ),
                (known, fine, omega (arith, l2, l3), are),
              )

-- Bytes that are accepted as a recipient block are the encoding of the stanzas they parse to: at
-- least one and at most maxStanzas, each of a known type with a body of the right size, below 4 GiB,
-- and within its type's limit.
pub encode-parse_recipient_block :
    (block : Bytes) (ss : List Stanza)
    → AreBytes block
    → parse_recipient_block block ≡ ok ss
    → IsBlock ss × (encode_block ss ≡ block)
unfolding parse_recipient_block encode_block
encode-parse_recipient_block block ss hb h = on_fail_if (ltb (length block) 2) _ _ h λ long h1.
    on_read_le _ 2 block hb h1 λ count b s1 l1 n1 h1' e1.
      on_fail_if (count == 0 || ltb max_stanzas count) _ _ e1 λ few e2.
        let ((read, rest), e3, e4) = >>=-eq-ok (parse_stanzas count [] b) _ e2 in
        on_fail_if (length rest != 0) _ _ e4 λ ended e5.
          let (more, all, size, split, are) = parse_stanzas_sound count [] b rest h1' e3 in
          let same : more ≡ ss = cc (all, e5) in
          let done = nil_of_length rest (ground arith) in
          let (lo, hi) = in_limits count few in
          subst (λ z. IsBlock z × (encode_block z ≡ block)) same
            (
              (omega arith, omega arith, are),
              cc (s1, split, done, size, append-nil (encode_stanzas more)),
            )
  where
    in_limits : (n : ℕ) → (n == 0 || ltb max_stanzas n) ≡ false → (1 ≤ n) × (n ≤ max_stanzas)
    in_limits n q = (ground arith, ground arith)

after_validation :
    (kind n m : ℕ) (r : Result (List Stanza × Bytes))
    → r ≢ panic
    → (validate_stanza kind n m >> r) ≢ panic
unfolding validate_stanza
after_validation kind n m r h = last (not (known_kind kind)) (not (stanza_ok kind n m)) _ _
  where
    last : (a b : Bool) (e f : Error) → ((fail_if a e >> fail_if b f) >> r) ≢ panic
    last true b e f p = cc p
    last false true e f p = cc p
    last false false e f p = h p

parse_stanzas-ne-panic :
    (count : ℕ) (seen : List Stanza) (b : Bytes) → parse_stanzas count seen b ≢ panic
unfolding parse_stanzas validate_stanza
parse_stanzas-ne-panic zero seen b = λ p. cc
parse_stanzas-ne-panic (suc count) seen b =
    fail_if_then (ltb (length b) stanza_header_size) _ _ λ long.
      read_le_then _ 1 b (ground arith) λ kind b1 n1.
        read_le_then _ 4 b1 (ground arith) λ body_len b2 n2.
          fail_if_then (ltb (length b2) body_len) _ _ λ inside.
            cut_then _ body_len b2 (ground arith) λ body b3 _ n3.
              after_validation kind (length body) (suc (of_kind kind seen)) _ (
                parse_stanzas-ne-panic count (seen ++ (record { kind = kind; body = body } ∷ []))
                  b3)

-- parseRecipientBlock never panics, whatever the bytes.
pub parse_recipient_block-ne-panic : (block : Bytes) → parse_recipient_block block ≢ panic
unfolding parse_recipient_block
parse_recipient_block-ne-panic block = fail_if_then (ltb (length block) 2) _ _ λ long.
    read_le_then _ 2 block (ground arith) λ count b n1.
      fail_if_then (count == 0 || ltb max_stanzas count) _ _ λ few.
        >>=-ne-panic (parse_stanzas count [] b) _ (parse_stanzas-ne-panic count [] b)
          λ (read, rest) _. fail_if_then (length rest != 0) _ _ λ ended. λ p. cc
