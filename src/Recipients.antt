-- ===== src/Recipients.antt =====
-- archive/recipients.go: the layout of the recipient block, every wrapped copy of an archive's key.
pub mod Block
pub mod Unlock
pub mod Credentials
pub mod Kinds
pub mod Opening
use sarc.Prelude.{ℕ, zero, suc, ◌+◌, ◌-◌, ◌*◌, ◌/◌, ◌%◌, ◌^◌, ◌≤◌, ◌<◌, min}
use sarc.Prelude.{String, ◌≡◌, refl, sym, ap, ◌∙◌, subst, ◌≢◌, ◌⊎◌, inl, inr}
use sarc.Prelude.{Bool, true, false, ◌&&◌, ◌||◌, not, Option, none, some}
use sarc.Prelude.{List, [], ◌∷◌, ◌++◌, append-nil, append_assoc, arith}
use sarc.Prelude.{
  ltb, leb, ◌==◌, ◌!=◌, if◌then◌else◌, Bool-cases, ltb→lt, ltb→le, lt→ltb, le→ltb, ==→eq, eq→==,
}
use sarc.Prelude.{
  length, take, drop, replicate, All, length-append, length-replicate, All-append, append-All,
}
use sarc.Bytes.{Bytes}
use sarc.Bytes.LittleEndian.{le, from_le, read_le}
use sarc.Bytes.Slice.{cut}
use sarc.Result.{Result, Error, ok, err, panic, fail_if, ◌>>=◌, ◌>>◌}

-- the stanza types
abbrev pub stanza_type_password : ℕ
stanza_type_password = 1

abbrev pub stanza_type_age : ℕ
stanza_type_age = 2

abbrev pub stanza_type_key_file : ℕ
stanza_type_key_file = 3

abbrev pub stanza_type_key_file_password : ℕ
stanza_type_key_file_password = 4

abbrev pub max_recipient_block_size : ℕ
max_recipient_block_size = 2 ^ 20

abbrev pub max_password_recipients : ℕ
max_password_recipients = 8

abbrev pub max_key_file_recipients : ℕ
max_key_file_recipients = 8

abbrev pub password_stanza_size : ℕ
password_stanza_size = 4 + 32 + 12 + 32 + 16

abbrev pub key_file_stanza_size : ℕ
key_file_stanza_size = 32 + 12 + 32 + 16

abbrev pub stanza_header_size : ℕ
stanza_header_size = 1 + 4

abbrev pub max_stanzas : ℕ
max_stanzas = max_password_recipients + 2 * max_key_file_recipients + 1

-- `stanza`
pub record Stanza : Type 0 where
  pub kind : ℕ
  pub body : Bytes

-- `appendStanza`
unfoldable pub encode_stanza : Stanza → Bytes
encode_stanza s = le 1 s.kind ++ (le 4 (length s.body) ++ s.body)

unfoldable pub encode_stanzas : List Stanza → Bytes
encode_stanzas [] = []
encode_stanzas (s ∷ ss) = encode_stanza s ++ encode_stanzas ss

-- the count and the stanzas, as `SealRecipientBlock` writes them
unfoldable pub encode_block : List Stanza → Bytes
encode_block ss = le 2 (length ss) ++ encode_stanzas ss

-- `perKind[kind]`, for the stanzas read so far
unfoldable pub of_kind : ℕ → List Stanza → ℕ
of_kind kind [] = 0
of_kind kind (s ∷ ss) = let more = of_kind kind ss in if s.kind == kind then suc more else more

-- `ok` of `validateStanza`
abbrev pub stanza_ok : ℕ → ℕ → ℕ → Bool
stanza_ok kind body_len n =
    if kind == stanza_type_password
    then body_len == password_stanza_size && leb n max_password_recipients
    else if kind == stanza_type_age
    then ltb 0 body_len && n == 1
    else if kind == stanza_type_key_file
    then body_len == key_file_stanza_size && leb n max_key_file_recipients
    else body_len == password_stanza_size && leb n max_key_file_recipients

abbrev pub known_kind : ℕ → Bool
known_kind kind = ltb 0 kind && leb kind stanza_type_key_file_password

-- `validateStanza`
unfoldable pub validate_stanza : ℕ → ℕ → ℕ → Result (Unit {0})
validate_stanza kind body_len n = do
  fail_if (not (known_kind kind)) (Error.malformed_recipient_block "unknown stanza type")
  fail_if (not (stanza_ok kind body_len n)) (Error.malformed_recipient_block "bad stanza")

-- The loop of `parseRecipientBlock`, with the stanzas read so far and the bytes left.
unfoldable pub parse_stanzas : ℕ → List Stanza → Bytes → Result (List Stanza × Bytes)
parse_stanzas zero seen b = ok (seen, b)
parse_stanzas (suc count) seen b = do
  fail_if (ltb (length b) stanza_header_size)
      (Error.malformed_recipient_block "truncated stanza header")
  (kind, b1) ← read_le 1 b
  (body_len, b2) ← read_le 4 b1
  fail_if (ltb (length b2) body_len) (Error.malformed_recipient_block "stanza runs past block")
  (body, rest) ← cut body_len b2
  validate_stanza kind (length body) (suc (of_kind kind seen))
  parse_stanzas count (seen ++ (record { kind = kind; body = body } ∷ [])) rest

-- `parseRecipientBlock`
unfoldable pub parse_recipient_block : Bytes → Result (List Stanza)
parse_recipient_block block = do
  fail_if (ltb (length block) 2) (Error.malformed_recipient_block "truncated count")
  (count, b) ← read_le 2 block
  fail_if (count == 0 || ltb max_stanzas count) (Error.malformed_recipient_block "stanzas")
  (stanzas, rest) ← parse_stanzas count [] b
  fail_if (length rest != 0) (Error.malformed_recipient_block "trailing bytes")
  ok stanzas
