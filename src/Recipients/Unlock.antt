-- ===== src/Recipients/Unlock.antt =====
-- archive/recipients.go: opening a recipient block with the secrets that a reader has. What the
-- crypto package makes of a wrapped key is a parameter, `Unwrapping`.
use sarc.Prelude.{ℕ}
use sarc.Prelude.{Bool, true, false, ◌||◌, ◌&&◌, List, [], ◌∷◌, ◌++◌, String, Option, none, some}
use sarc.Prelude.{◌==◌, if◌then◌else◌, take, drop}
use sarc.Bytes.{Bytes}
use sarc.Bytes.LittleEndian.{from_le}
use sarc.Result.{Result, ok, ◌>>=◌}
use sarc.Recipients.{
  Stanza, stanza_type_password, stanza_type_age, stanza_type_key_file,
  stanza_type_key_file_password, parse_recipient_block,
}

-- crypto.PasswordWrap and crypto.KeyFileWrap
pub record PasswordWrap : Type 0 where
  pub iterations : ℕ
  pub salt : Bytes
  pub nonce : Bytes
  pub sealed : Bytes

pub record KeyFileWrap : Type 0 where
  pub salt : Bytes
  pub nonce : Bytes
  pub sealed : Bytes

unfoldable pub decode_password_wrap : Bytes → PasswordWrap
decode_password_wrap b = record {
  iterations = from_le (take 4 b);
  salt = take 32 (drop 4 b);
  nonce = take 12 (drop 36 b);
  sealed = take 48 (drop 48 b);
}

unfoldable pub decode_key_file_wrap : Bytes → KeyFileWrap
decode_key_file_wrap b = record {
  salt = take 32 b;
  nonce = take 12 (drop 32 b);
  sealed = take 48 (drop 44 b);
}

-- What unwrapping returns: the key, crypto.ErrWrongCredential, a crypto.IdentityError with its text,
-- or another error.
pub data Unwrapped : Type 0 where
  opened : Bytes → Unwrapped
  wrong_credential : Unwrapped
  unusable_identity : String → Unwrapped
  failed_otherwise : Unwrapped

-- the Unwrap functions of the crypto package; `Identity` is age.Identity
pub record Unwrapping (Identity : Type 0) : Type 0 where
  pub with_password : PasswordWrap → Bytes → Unwrapped
  pub with_age : Bytes → List Identity → Unwrapped
  pub with_key_file : KeyFileWrap → List Bytes → Unwrapped
  pub with_key_file_and_password : PasswordWrap → List Bytes → Bytes → Unwrapped

-- `Unlockers`
pub record Unlockers (Identity : Type 0) : Type 0 where
  pub password : Bytes
  pub key_files : List Bytes
  pub identities : List Identity

abbrev pub has_any {ℓ} : {A : Type ℓ} → List A → Bool
has_any [] = false
has_any (x ∷ xs) = true

-- The outcome of the loop: a key, an identity that could not be used, a credential that fits none of
-- these kinds of stanza, or an error of a stanza.
pub data Outcome : Type 0 where
  key : Bytes → Outcome
  identity_error : String → Outcome
  no_matching_credential : List ℕ → Outcome
  malformed_stanza : Outcome

unfoldable pub seen_kind : ℕ → List ℕ → Bool
seen_kind kind [] = false
seen_kind kind (k ∷ ks) = k == kind || seen_kind kind ks

-- The loop of `acceptedKinds`, with the kinds so far; a kind stands for its name.
unfoldable pub kinds_from : List ℕ → List Stanza → List ℕ
kinds_from kinds [] = kinds
kinds_from kinds (s ∷ ss) = elim (seen_kind s.kind kinds) [
  | true ↦ kinds_from kinds ss
  | false ↦ kinds_from (kinds ++ (s.kind ∷ [])) ss
]

abbrev pub accepted_kinds : List Stanza → List ℕ
accepted_kinds ss = kinds_from [] ss

-- The second switch of the loop, with the turns that are left.
abbrev pub after_try : Option Unwrapped → (Option String → Outcome) → Option String → Outcome
after_try none rest e = rest e
after_try (some (opened cek)) rest e = key cek
after_try (some wrong_credential) rest e = rest e
after_try (some (unusable_identity what)) rest e = rest (some what)
after_try (some failed_otherwise) rest e = malformed_stanza

module _ {Identity : Type 0} (crypto : Unwrapping Identity) (u : Unlockers Identity) where
  -- The first switch of the loop; none is `continue`.
  unfoldable pub try_stanza : Stanza → Option Unwrapped
  try_stanza s =
      if s.kind == stanza_type_password && has_any u.password
      then some (crypto.with_password (decode_password_wrap s.body) u.password)
      else if s.kind == stanza_type_age && has_any u.identities
      then some (crypto.with_age s.body u.identities)
      else if s.kind == stanza_type_key_file && has_any u.key_files
      then some (crypto.with_key_file (decode_key_file_wrap s.body) u.key_files)
      else if s.kind == stanza_type_key_file_password && has_any u.key_files && has_any u.password
      then some
          (crypto.with_key_file_and_password (decode_password_wrap s.body) u.key_files u.password)
      else none

  -- what follows the loop
  abbrev pub no_key : List Stanza → Option String → Outcome
  no_key all (some e) = identity_error e
  no_key all none = no_matching_credential (accepted_kinds all)

  -- The loop over the stanzas of a block, with the last identity error.
  unfoldable pub open_stanzas : List Stanza → List Stanza → Option String → Outcome
  open_stanzas all [] e = no_key all e
  open_stanzas all (s ∷ ss) e = after_try (try_stanza s) (open_stanzas all ss) e

  -- `OpenRecipientBlock`
  unfoldable pub open_recipient_block : Bytes → Result Outcome
  open_recipient_block block = do
    stanzas ← parse_recipient_block block
    ok (open_stanzas stanzas stanzas none)
