-- ===== src/Recipients/Opening.antt =====
-- Which stanza opens a recipient block.
use sarc.Prelude.{
  ◌⊎◌, inl, inr, ◌≡◌, refl, ap, ◌∙◌, Bool, true, false, List, [], ◌∷◌, ◌++◌, String, Option, none,
  some, All, subst, arith,
}
use sarc.Bytes.{Bytes}
use sarc.Result.{ok, >>=-eq-ok}
use sarc.Recipients.{Stanza, parse_recipient_block}
use sarc.Recipients.Credentials.{
  Unwraps, Lacks, IsPassed, lacking, not_fitting, not_usable, by_password, by_age, by_key_file,
  by_key_file_and_password, try_stanza-Unwraps, try_stanza-Lacks, stanza_cases,
}
use sarc.Recipients.Kinds.{first_kinds, accepted_kinds-first_kinds}
use sarc.Recipients.Unlock.{
  Unwrapping, Unlockers, Unwrapped, opened, wrong_credential, unusable_identity, failed_otherwise,
  Outcome, key, no_matching_credential, accepted_kinds, after_try, try_stanza, open_stanzas,
  open_recipient_block,
}

-- The loop goes on past a stanza that it skips, or that the credential does not open.
abbrev pub passes : Option Unwrapped → Bool
passes none = true
passes (some (opened cek)) = false
passes (some wrong_credential) = true
passes (some (unusable_identity what)) = true
passes (some failed_otherwise) = false

after_try-passed :
    (t : Option Unwrapped) (rest : Option String → Outcome) (e : Option String) (cek : Bytes)
    → passes t ≡ true
    → ((e' : Option String) → rest e' ≡ key cek)
    → after_try t rest e ≡ key cek
after_try-passed none rest e cek h k = k e
after_try-passed (some (opened c)) rest e cek h k = cc h
after_try-passed (some wrong_credential) rest e cek h k = k e
after_try-passed (some (unusable_identity what)) rest e cek h k = k (some what)
after_try-passed (some failed_otherwise) rest e cek h k = cc h

-- A key comes from this stanza or from the turns that are left.
after_try_key :
    (t : Option Unwrapped) (rest : Option String → Outcome) (e : Option String) (cek : Bytes)
    → after_try t rest e ≡ key cek
    → (t ≡ some (opened cek)) ⊎ ((passes t ≡ true) × ((e' : Option String) × (rest e' ≡ key cek)))
after_try_key none rest e cek h = inr (refl, (e, h))
after_try_key (some (opened c)) rest e cek h = inl (cc h)
after_try_key (some wrong_credential) rest e cek h = inr (refl, (e, h))
after_try_key (some (unusable_identity what)) rest e cek h = inr (refl, (some what, h))
after_try_key (some failed_otherwise) rest e cek h = cc h

passes_of_some :
    (t : Unwrapped)
    → passes (some t) ≡ true
    → (t ≡ wrong_credential) ⊎ ((what : String) × (t ≡ unusable_identity what))
passes_of_some (opened cek) h = cc h
passes_of_some wrong_credential h = inl refl
passes_of_some (unusable_identity what) h = inr (what, refl)
passes_of_some failed_otherwise h = cc h

module _ {Identity : Type 0} (crypto : Unwrapping Identity) (u : Unlockers Identity) where
  -- The stanzas up to and with the first that unwraps to this key.
  abbrev pub IsOpenedBy : List Stanza → Bytes → Type 0
  IsOpenedBy ss cek =
      (front : List Stanza) × (s : Stanza) × (back : List Stanza) × (ss ≡ front ++ (s ∷ back))
      × All (IsPassed crypto u) front
      × Unwraps crypto u s (opened cek)

  passes-IsPassed : (s : Stanza) → IsPassed crypto u s → passes (try_stanza crypto u s) ≡ true
  passes-IsPassed s (lacking h) = rw (try_stanza-Lacks crypto u h) refl
  passes-IsPassed s (not_fitting h) = rw (try_stanza-Unwraps crypto u h) refl
  passes-IsPassed s (not_usable what h) = rw (try_stanza-Unwraps crypto u h) refl

  IsPassed-passes : (s : Stanza) → passes (try_stanza crypto u s) ≡ true → IsPassed crypto u s
  IsPassed-passes s h = elim (stanza_cases crypto u s) [
    | inl lacks ↦ lacking lacks
    | inr (t, unwraps) ↦
        let h' : passes (some t) ≡ true = rw (try_stanza-Unwraps crypto u unwraps) at h in
        elim (passes_of_some t h') [
          | inl wrong ↦ not_fitting (subst (λ t. Unwraps crypto u s t) wrong unwraps)
          | inr (what, unusable) ↦
              not_usable what (subst (λ t. Unwraps crypto u s t) unusable unwraps)
        ]
  ]

  Unwraps-opened :
      (s : Stanza) (cek : Bytes)
      → try_stanza crypto u s ≡ some (opened cek)
      → Unwraps crypto u s (opened cek)
  Unwraps-opened s cek h = elim (stanza_cases crypto u s) [
    | inl lacks ↦
        let none_of : none ≡ some (opened cek) = rw (try_stanza-Lacks crypto u lacks) at h in
        absurd (cc none_of)
    | inr (t, unwraps) ↦
        let same : some t ≡ some (opened cek) = rw (try_stanza-Unwraps crypto u unwraps) at h in
        subst (λ t. Unwraps crypto u s t) (cc same) unwraps
  ]

  open_stanzas-opened :
      (all front back : List Stanza) (s : Stanza) (cek : Bytes)
      → All (IsPassed crypto u) front
      → Unwraps crypto u s (opened cek)
      → (e : Option String) → open_stanzas crypto u all (front ++ (s ∷ back)) e ≡ key cek
  unfolding open_stanzas
  open_stanzas-opened all [] back s cek passed is e =
      ap (λ t. after_try t (open_stanzas crypto u all back) e) (try_stanza-Unwraps crypto u is)
  open_stanzas-opened all (f ∷ front) back s cek (pass, passed) is e =
      after_try-passed (try_stanza crypto u f) (open_stanzas crypto u all (front ++ (s ∷ back))) e
        cek (passes-IsPassed f pass) (open_stanzas-opened all front back s cek passed is)

  open_stanzas_key :
      (all ss : List Stanza) (cek : Bytes) (e : Option String)
      → open_stanzas crypto u all ss e ≡ key cek
      → IsOpenedBy ss cek
  unfolding open_stanzas
  open_stanzas_key all [] cek none h = cc h
  open_stanzas_key all [] cek (some what) h = cc h
  open_stanzas_key all (s ∷ ss) cek e h =
      elim (after_try_key (try_stanza crypto u s) (open_stanzas crypto u all ss) e cek h) [
        | inl is ↦ ([], s, ss, refl, tt, Unwraps-opened s cek is)
        | inr (pass, (e', h')) ↦
            let (front, t, back, split, passed, is) = open_stanzas_key all ss cek e' h' in
            (s ∷ front, t, back, ap (λ r. s ∷ r) split, (IsPassed-passes s pass, passed), is)
      ]

  -- A block that parses opens to a key if its stanzas have one that the credentials open to that key,
  -- and every stanza before it is of a kind whose credentials are missing, or answers a wrong
  -- credential or an unusable identity.
  pub open_recipient_block-opened :
      (block : Bytes) (ss : List Stanza) (cek : Bytes)
      → parse_recipient_block block ≡ ok ss
      → IsOpenedBy ss cek
      → open_recipient_block crypto u block ≡ ok (key cek)
  unfolding open_recipient_block
  open_recipient_block-opened block ss cek parsed (front, s, back, split, passed, is) = rw parsed (
      ap ok (
        ap (λ r. open_stanzas crypto u ss r none) split
        ∙ open_stanzas-opened ss front back s cek passed is none))

  -- A block that opens to a key parses, and its stanzas have one that the credentials open to that
  -- key; every stanza before it is of a kind whose credentials are missing, or answers a wrong
  -- credential or an unusable identity.
  pub open_recipient_block_key :
      (block : Bytes) (cek : Bytes)
      → open_recipient_block crypto u block ≡ ok (key cek)
      → (ss : List Stanza) × (parse_recipient_block block ≡ ok ss) × IsOpenedBy ss cek
  unfolding open_recipient_block
  open_recipient_block_key block cek h =
      let (ss, parsed, e) = >>=-eq-ok (parse_recipient_block block) _ h in
      (ss, parsed, open_stanzas_key ss ss cek none (cc e))

-- With no credentials, every stanza lacks them.
untried :
    {Identity : Type 0} (crypto : Unwrapping Identity) (s : Stanza)
    → Lacks crypto (record { password = []; key_files = []; identities = [] }) s
untried crypto s =
    elim (stanza_cases crypto (record { password = []; key_files = []; identities = [] }) s) [
      | inl lacks ↦ lacks
      | inr (t, unwraps) ↦ absurd (no_unwraps t unwraps)
    ]
  where
    no_unwraps :
        (t : Unwrapped)
        → Unwraps crypto (record { password = []; key_files = []; identities = [] }) s t
        → ⊥
    no_unwraps t (by_password kind has) = omega (arith, has)
    no_unwraps t (by_age kind has) = omega (arith, has)
    no_unwraps t (by_key_file kind has) = omega (arith, has)
    no_unwraps t (by_key_file_and_password kind has has') = omega (arith, has)

-- With no password, key file or identity, every block that parses answers that no credential fits,
-- and names the kinds of its stanzas, each once and in the order in which they come
-- first.
pub open_recipient_block_empty :
    {Identity : Type 0} (crypto : Unwrapping Identity) (block : Bytes) (ss : List Stanza)
    → parse_recipient_block block ≡ ok ss
    → open_recipient_block crypto (record { password = []; key_files = []; identities = [] }) block
      ≡ ok (no_matching_credential (first_kinds ss))
unfolding open_recipient_block open_stanzas
open_recipient_block_empty crypto block ss parsed =
    rw parsed (ap ok (skipped ss ss ∙ ap no_matching_credential (accepted_kinds-first_kinds ss)))
  where
    skipped :
        (all ss : List Stanza)
        → open_stanzas crypto
            (record { password = []; key_files = []; identities = [] })
            all
            ss
            none
          ≡ no_matching_credential (accepted_kinds all)
    skipped all [] = refl
    skipped all (s ∷ ss) =
        ap
          (λ t.
            after_try t
              (open_stanzas crypto (record { password = []; key_files = []; identities = [] }) all
                ss)
              none)
          (try_stanza-Lacks crypto _ (untried crypto s))
        ∙ skipped all ss
