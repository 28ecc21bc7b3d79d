-- ===== src/Recipients/Kinds.antt =====
-- `acceptedKinds` of archive/recipients.go: the kinds of a block's stanzas, each where it comes first.
use sarc.Prelude.{
  ℕ, ◌≡◌, refl, sym, ap, ◌∙◌, true, ◌||◌, List, [], ◌∷◌, ◌++◌, append-nil, append_assoc, arith,
  ◌==◌, Bool-cases, ==→eq, inl, inr, if◌then◌else◌,
}
use sarc.Recipients.{Stanza}
use sarc.Recipients.Unlock.{seen_kind, kinds_from, accepted_kinds}

-- the kinds other than `k`
unfoldable pub without : ℕ → List ℕ → List ℕ
without k [] = []
without k (x ∷ xs) = let rest = without k xs in if x == k then rest else x ∷ rest

-- Each kind where it comes first, in the order of the stanzas.
unfoldable pub first_kinds : List Stanza → List ℕ
first_kinds [] = []
first_kinds (s ∷ ss) = s.kind ∷ without s.kind (first_kinds ss)

-- the kinds that are not in `ks`
unfoldable unseen : List ℕ → List ℕ → List ℕ
unseen ks [] = []
unseen ks (x ∷ xs) = let rest = unseen ks xs in if seen_kind x ks then rest else x ∷ rest

seen_kind-append : (y x : ℕ) (ks : List ℕ) → seen_kind y (ks ++ x ∷ []) ≡ (seen_kind y ks || x == y)
unfolding seen_kind
seen_kind-append y x [] = ground arith
seen_kind-append y x (k ∷ ks) = ground (arith, seen_kind-append y x ks)

unseen-nil : (xs : List ℕ) → unseen [] xs ≡ xs
unfolding unseen seen_kind
unseen-nil [] = refl
unseen-nil (x ∷ xs) = ap (λ r. x ∷ r) (unseen-nil xs)

unseen-without :
    (x : ℕ) (ks xs : List ℕ) → seen_kind x ks ≡ true → unseen ks (without x xs) ≡ unseen ks xs
unfolding unseen without
unseen-without x ks [] seen = refl
unseen-without x ks (y ∷ xs) seen = elim (Bool-cases (y == x)) [
  | inl same ↦
      rw (same, ap (λ k. seen_kind k ks) (==→eq y x same) ∙ seen) (unseen-without x ks xs seen)
  | inr other ↦
      rw other (ap (λ r. if seen_kind y ks then r else y ∷ r) (unseen-without x ks xs seen))
]

unseen-last : (x : ℕ) (ks xs : List ℕ) → unseen (ks ++ x ∷ []) xs ≡ unseen ks (without x xs)
unfolding unseen without
unseen-last x ks [] = refl
unseen-last x ks (y ∷ xs) = ground (arith, seen_kind-append y x ks, unseen-last x ks xs)

kinds_from-unseen :
    (ks : List ℕ) (ss : List Stanza) → kinds_from ks ss ≡ ks ++ unseen ks (first_kinds ss)
unfolding kinds_from unseen first_kinds
kinds_from-unseen ks [] = sym (append-nil ks)
kinds_from-unseen ks (s ∷ ss) = elim (Bool-cases (seen_kind s.kind ks)) [
  | inl seen ↦
      rw (kinds_from, seen)
        (kinds_from-unseen ks ss
          ∙ ap (λ r. ks ++ r) (sym (unseen-without s.kind ks (first_kinds ss) seen)))
  | inr new ↦
      rw (kinds_from, new)
        (kinds_from-unseen (ks ++ s.kind ∷ []) ss
          ∙ append_assoc ks (s.kind ∷ []) _
          ∙ ap (λ r. ks ++ s.kind ∷ r) (unseen-last s.kind ks (first_kinds ss)))
]

pub accepted_kinds-first_kinds : (ss : List Stanza) → accepted_kinds ss ≡ first_kinds ss
accepted_kinds-first_kinds ss = kinds_from-unseen [] ss ∙ unseen-nil (first_kinds ss)
