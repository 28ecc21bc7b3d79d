-- ===== src/Names/Containment.antt =====
-- Where a valid name leads: resolving it under a directory goes down at every element.
use sarc.Prelude.{ℕ, ◌≤◌, ◌≡◌, ◌≢◌, refl, Bool, true, false, ◌||◌}
use sarc.Prelude.{
  List, [], ◌∷◌, ◌++◌, length, ◌==◌, if◌then◌else◌, arith, append_assoc, All, sym, ◌∙◌,
}
use sarc.Prelude.{Bool-cases, inl, inr, ap}
use sarc.Bytes.{Bytes}
use sarc.Names.{
  max_entry_name_len, has_forbidden, split, is_dot, is_dot_dot, is_empty, bad_element, any_bad,
  valid_entry_name, push_first,
}
use mathlib.Core.Path.{ap₂}
use sarc.Prelude.{==→eq}
use mathlib.Core.List.{reverse, reverse-cons}

-- What the operating system does with one path element, in a directory given by its names,
-- innermost first: an empty element and "." stay, ".." goes up, any other goes down.
abbrev parent : List Bytes → List Bytes
parent [] = []
parent (d ∷ ds) = ds

unfoldable pub enter : List Bytes → Bytes → List Bytes
unfolding is_dot is_dot_dot
enter dir elem =
    if is_empty elem || is_dot elem then dir else if is_dot_dot elem then parent dir else elem ∷ dir

unfoldable pub walk : List Bytes → List Bytes → List Bytes
walk dir [] = dir
walk dir (e ∷ es) = walk (enter dir e) es

-- An element holds no separator and none of the bytes that a file system treats specially.
abbrev pub IsPlain : Bytes → Type 0
IsPlain elem = All (λ c. (c ≢ b'/') × (c ≢ 0) × (c ≢ b'\\')) elem

enter_good : (dir : List Bytes) (e : Bytes) → bad_element e ≡ false → enter dir e ≡ e ∷ dir
unfolding enter bad_element
enter_good dir e h = ground arith

walk_good :
    (dir es rest : List Bytes) → any_bad (es ++ rest) ≡ false → walk dir es ≡ reverse es ++ dir
unfolding walk any_bad
walk_good dir [] rest h = refl
walk_good dir (e ∷ es) rest h =
    rw (enter_good dir e (ground arith))
      (simp (reverse-cons, append_assoc) (walk_good (e ∷ dir) es rest (ground arith)))

-- strings.Join(elems, "/")
unfoldable pub join : List Bytes → Bytes
join [] = []
join (e ∷ []) = e
join (e ∷ f ∷ es) = e ++ (b'/' ∷ join (f ∷ es))

join-push_first : (c : ℕ) (es : List Bytes) → es ≢ [] → join (push_first c es) ≡ c ∷ join es
unfolding join
join-push_first c [] h = absurd (h refl)
join-push_first c (e ∷ []) h = refl
join-push_first c (e ∷ f ∷ es) h = refl

join-cons_nil : (es : List Bytes) → es ≢ [] → join ([] ∷ es) ≡ b'/' ∷ join es
unfolding join
join-cons_nil [] h = absurd (h refl)
join-cons_nil (e ∷ es) h = refl

split-ne-nil : (s : Bytes) → split s ≢ []
unfolding split
split-ne-nil [] = λ p. cc
split-ne-nil (c ∷ cs) = cons_ne (c == b'/') (split cs)
  where
    cons_ne : (b : Bool) (es : List Bytes) → (if b then [] ∷ es else push_first c es) ≢ []
    cons_ne true es = λ p. cc
    cons_ne false [] = λ p. cc
    cons_ne false (e ∷ es) = λ p. cc

join-split : (s : Bytes) → join (split s) ≡ s
unfolding split
join-split [] = unfold join in refl
join-split (c ∷ cs) = elim (Bool-cases (c == b'/')) [
  | inl slash ↦ rw slash (
      join-cons_nil (split cs) (split-ne-nil cs)
      ∙ ap₂ (λ x r. x ∷ r) (sym (==→eq c b'/' slash)) (join-split cs))
  | inr other ↦
      rw other (join-push_first c (split cs) (split-ne-nil cs) ∙ ap (λ r. c ∷ r) (join-split cs))
]

push_first-IsPlain :
    (c : ℕ) (es : List Bytes)
    → (c ≢ b'/') × (c ≢ 0) × (c ≢ b'\\')
    → All IsPlain es
    → All IsPlain (push_first c es)
push_first-IsPlain c [] h k = ((h, tt), tt)
push_first-IsPlain c (e ∷ es) h (k, ks) = ((h, k), ks)

split-IsPlain : (s : Bytes) → has_forbidden s ≡ false → All IsPlain (split s)
unfolding split has_forbidden
split-IsPlain [] h = (tt, tt)
split-IsPlain (c ∷ cs) h =
    let rest = split-IsPlain cs (ground arith) in
    elim (Bool-cases (c == b'/')) [
      | inl slash ↦ rw slash (tt, rest)
      | inr other ↦ rw other (
          push_first-IsPlain c (split cs)
            ((λ p. ground arith), (λ p. ground arith), (λ p. ground arith)) rest)
    ]

-- Every valid name is at most 65535 bytes, is the "/"-join of its elements, whose bytes are no
-- separator, NUL or backslash, and resolving any leading elements of it under any directory
-- enters exactly those elements below that directory, never going up.
pub valid_entry_name-contained :
    (name : Bytes) (dir front back : List Bytes)
    → valid_entry_name name ≡ true
    → split name ≡ front ++ back
    → (length name ≤ max_entry_name_len)
      × (join (split name) ≡ name)
      × All IsPlain (split name)
      × (walk dir front ≡ reverse front ++ dir)
unfolding valid_entry_name
valid_entry_name-contained name dir front back h e = (
  ground arith,
  join-split name,
  split-IsPlain name (ground arith),
  walk_good dir front back (ground arith),
)
