-- ===== src/Recipients/Credentials.antt =====
-- What the credentials of a reader can do with a stanza of each kind, and that the first switch of the
-- loop of OpenRecipientBlock does it.
use sarc.Prelude.{
  ℕ, ◌<◌, ◌≡◌, ◌≢◌, refl, ◌⊎◌, inl, inr, Bool, true, false, ◌&&◌, List, [], ◌∷◌, String, none, some,
  length, arith, ◌==◌, Bool-cases, ==→eq,
}
use sarc.Recipients.{
  Stanza, stanza_type_password, stanza_type_age, stanza_type_key_file,
  stanza_type_key_file_password,
}
use sarc.Recipients.Unlock.{
  Unwrapping, Unlockers, Unwrapped, wrong_credential, unusable_identity, has_any, try_stanza,
  decode_password_wrap, decode_key_file_wrap,
}

module _ {Identity : Type 0} (crypto : Unwrapping Identity) (u : Unlockers Identity) where
  -- What unwrapping a stanza with the credentials of its kind returns.
  pub data Unwraps : Stanza → Unwrapped → Type 0 where
    by_password :
        {s : Stanza}
        → s.kind ≡ stanza_type_password
        → 0 < length u.password
        → Unwraps s (crypto.with_password (decode_password_wrap s.body) u.password)
    by_age :
        {s : Stanza}
        → s.kind ≡ stanza_type_age
        → 0 < length u.identities
        → Unwraps s (crypto.with_age s.body u.identities)
    by_key_file :
        {s : Stanza}
        → s.kind ≡ stanza_type_key_file
        → 0 < length u.key_files
        → Unwraps s (crypto.with_key_file (decode_key_file_wrap s.body) u.key_files)
    by_key_file_and_password :
        {s : Stanza}
        → s.kind ≡ stanza_type_key_file_password
        → 0 < length u.key_files
        → 0 < length u.password
        → Unwraps s
            (crypto.with_key_file_and_password (decode_password_wrap s.body) u.key_files u.password)

  -- A stanza of a kind whose credentials are missing, or of no kind.
  pub data Lacks : Stanza → Type 0 where
    no_password : {s : Stanza} → s.kind ≡ stanza_type_password → u.password ≡ [] → Lacks s
    no_identity : {s : Stanza} → s.kind ≡ stanza_type_age → u.identities ≡ [] → Lacks s
    no_key_file : {s : Stanza} → s.kind ≡ stanza_type_key_file → u.key_files ≡ [] → Lacks s
    no_key_file_of_both :
        {s : Stanza} → s.kind ≡ stanza_type_key_file_password → u.key_files ≡ [] → Lacks s
    no_password_of_both :
        {s : Stanza} → s.kind ≡ stanza_type_key_file_password → u.password ≡ [] → Lacks s
    no_kind :
        {s : Stanza}
        → s.kind ≢ stanza_type_password
        → s.kind ≢ stanza_type_age
        → s.kind ≢ stanza_type_key_file
        → s.kind ≢ stanza_type_key_file_password
        → Lacks s

  -- A stanza that the loop passes by: its credentials are missing, do not fit, or cannot be used.
  pub data IsPassed : Stanza → Type 0 where
    lacking : {s : Stanza} → Lacks s → IsPassed s
    not_fitting : {s : Stanza} → Unwraps s wrong_credential → IsPassed s
    not_usable : {s : Stanza} (what : String) → Unwraps s (unusable_identity what) → IsPassed s

some_has_any : {A : Type 0} (xs : List A) → 0 < length xs → has_any xs ≡ true
some_has_any [] h = absurd (omega arith)
some_has_any (x ∷ xs) h = refl

nil_or_some : {A : Type 0} (xs : List A) → (xs ≡ []) ⊎ (0 < length xs)
nil_or_some [] = inl refl
nil_or_some (x ∷ xs) = inr (omega arith)

not_equal : (a b : ℕ) → a ≢ b → (a == b) ≡ false
not_equal a b h = elim (Bool-cases (a == b)) [
  | inl same ↦ absurd (h (==→eq a b same))
  | inr other ↦ other
]

differs : (a b : ℕ) → (a == b) ≡ false → a ≢ b
differs a b h q = ground arith

and_false : (a : Bool) → (a && false) ≡ false
and_false true = refl
and_false false = refl

module _ {Identity : Type 0} (crypto : Unwrapping Identity) (u : Unlockers Identity) where
  pub try_stanza-Unwraps :
      {s : Stanza} {t : Unwrapped} → Unwraps crypto u s t → try_stanza crypto u s ≡ some t
  unfolding try_stanza
  try_stanza-Unwraps (by_password kind has) = rw (kind, some_has_any u.password has) refl
  try_stanza-Unwraps (by_age kind has) = rw (kind, some_has_any u.identities has) refl
  try_stanza-Unwraps (by_key_file kind has) = rw (kind, some_has_any u.key_files has) refl
  try_stanza-Unwraps (by_key_file_and_password kind has has') =
      rw (kind, some_has_any u.key_files has, some_has_any u.password has') refl

  pub try_stanza-Lacks : {s : Stanza} → Lacks crypto u s → try_stanza crypto u s ≡ none
  unfolding try_stanza
  try_stanza-Lacks (no_password kind none_of) = rw (kind, none_of) refl
  try_stanza-Lacks (no_identity kind none_of) = rw (kind, none_of) refl
  try_stanza-Lacks (no_key_file kind none_of) = rw (kind, none_of) refl
  try_stanza-Lacks (no_key_file_of_both kind none_of) = rw (kind, none_of) refl
  try_stanza-Lacks (no_password_of_both kind none_of) =
      rw (kind, none_of) (rw (and_false (has_any u.key_files)) refl)
  try_stanza-Lacks {s} (no_kind a b c d) =
      rw (not_equal s.kind 1 a, not_equal s.kind 2 b, not_equal s.kind 3 c, not_equal s.kind 4 d)
        refl

  -- Every stanza is of a kind whose credentials are missing, or unwraps to something.
  pub stanza_cases : (s : Stanza) → Lacks crypto u s ⊎ ((t : Unwrapped) × Unwraps crypto u s t)
  stanza_cases s = elim (Bool-cases (s.kind == stanza_type_password)) [
    | inl kind ↦ elim (nil_or_some u.password) [
      | inl nothing ↦ inl (no_password (==→eq _ _ kind) nothing)
      | inr has ↦ inr (_, by_password (==→eq _ _ kind) has)
    ]
    | inr not_password ↦ elim (Bool-cases (s.kind == stanza_type_age)) [
      | inl kind ↦ elim (nil_or_some u.identities) [
        | inl nothing ↦ inl (no_identity (==→eq _ _ kind) nothing)
        | inr has ↦ inr (_, by_age (==→eq _ _ kind) has)
      ]
      | inr not_age ↦ elim (Bool-cases (s.kind == stanza_type_key_file)) [
        | inl kind ↦ elim (nil_or_some u.key_files) [
          | inl nothing ↦ inl (no_key_file (==→eq _ _ kind) nothing)
          | inr has ↦ inr (_, by_key_file (==→eq _ _ kind) has)
        ]
        | inr not_key_file ↦ elim (Bool-cases (s.kind == stanza_type_key_file_password)) [
          | inl kind ↦ elim (nil_or_some u.key_files) [
            | inl nothing ↦ inl (no_key_file_of_both (==→eq _ _ kind) nothing)
            | inr has ↦ elim (nil_or_some u.password) [
              | inl nothing ↦ inl (no_password_of_both (==→eq _ _ kind) nothing)
              | inr has' ↦ inr (_, by_key_file_and_password (==→eq _ _ kind) has has')
            ]
          ]
          | inr not_both ↦ inl (
              no_kind (differs _ _ not_password) (differs _ _ not_age) (differs _ _ not_key_file)
                (differs _ _ not_both))
        ]
      ]
    ]
  ]
