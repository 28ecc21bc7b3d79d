-- ===== src/Planning/Plan.antt =====
-- What planSolid returns: every file once, and groups that fit a record stream.
use sarc.Prelude.{
  ℕ, ◌+◌, ◌≤◌, ◌≡◌, refl, sym, ap, ◌∙◌, subst, ◌⊎◌, inl, inr, Option, some, none, List, [], ◌∷◌,
  ◌++◌, append-nil, append_assoc, All, append-All, arith, length, length-append, ltb, ltb→le,
  Bool-cases,
}
use mathlib.Core.List.{Perm}
use mathlib.Core.List.Perm
use mathlib.Core.List.Permᴰ
use sarc.Bytes.{Bytes}
use sarc.Solid.{max_solid_stream_size}
use sarc.Planning.Candidates.{record_length, IsCandidate, candidate_with-IsCandidate}
use sarc.Planning.{
  PlanFile, SolidPlan, solid_candidate, Candidate, string_less, insert, sort_by_ext, Packing,
  flushed, flush, join_group, pack, pack_all, sorted_out, sort_out, plan_solid,
}

unfoldable pub concat_groups : List (List PlanFile) → List PlanFile
concat_groups [] = []
concat_groups (g ∷ gs) = g ++ concat_groups gs

-- all files of a plan
abbrev pub files_of : SolidPlan → List PlanFile
files_of plan = plan.individual ++ concat_groups plan.groups

-- the record stream of some files of these sizes
unfoldable pub stream_size : List PlanFile → ℕ
stream_size [] = 0
stream_size (f ∷ fs) = record_length f + stream_size fs

-- A group: at least two candidates, whose record stream fits MaxSolidStreamSize.
pub record IsGroup (g : List PlanFile) : Type 0 where
  pub several : 2 ≤ length g
  pub candidates : All IsCandidate g
  pub fits : stream_size g ≤ max_solid_stream_size

concat_groups-append :
    (gs : List (List PlanFile)) (g : List PlanFile)
    → concat_groups (gs ++ g ∷ []) ≡ concat_groups gs ++ g
unfolding concat_groups
concat_groups-append [] g = append-nil g
concat_groups-append (h ∷ gs) g =
    ap (λ r. h ++ r) (concat_groups-append gs g) ∙ sym (append_assoc h (concat_groups gs) g)

stream_size-append :
    (fs : List PlanFile) (f : PlanFile)
    → stream_size (fs ++ f ∷ []) ≡ stream_size fs + record_length f
unfolding stream_size
stream_size-append [] f = omega arith
stream_size-append (g ∷ fs) f = omega (arith, stream_size-append fs f)

perm_eq : {xs ys : List PlanFile} → xs ≡ ys → Perm xs ys
perm_eq {xs} e = subst (λ ys. Perm xs ys) e (Perm.refl xs)

flushed-Perm :
    (plan : SolidPlan) (g : List PlanFile)
    → Perm (files_of (flushed plan g)) (plan.individual ++ (concat_groups plan.groups ++ g))
unfolding flushed
flushed-Perm plan [] =
    perm_eq (ap (λ r. plan.individual ++ r) (sym (append-nil (concat_groups plan.groups))))
flushed-Perm plan (f ∷ []) =
    Perm.trans (perm_eq (append_assoc plan.individual (f ∷ []) (concat_groups plan.groups)))
      (Perm.append_left plan.individual ∣ Permᴰ.append_comm (f ∷ []) (concat_groups plan.groups) ∣₁)
flushed-Perm plan (f ∷ g ∷ fs) =
    perm_eq (ap (λ r. plan.individual ++ r) (concat_groups-append plan.groups (f ∷ g ∷ fs)))

-- all files of a packing
abbrev held : Packing → List PlanFile
held s = s.plan.individual ++ (concat_groups s.plan.groups ++ s.group)

join_group-held : (s : Packing) (c : Candidate) → held (join_group s c) ≡ held s ++ c.file ∷ []
unfolding join_group
join_group-held s c =
    ap (λ r. s.plan.individual ++ r)
      (sym (append_assoc (concat_groups s.plan.groups) s.group (c.file ∷ [])))
    ∙ sym (append_assoc s.plan.individual _ (c.file ∷ []))

flush-held : (s : Packing) → Perm (held (flush s)) (held s)
unfolding flush
flush-held s =
    Perm.trans
      (perm_eq (
        ap (λ r. (flushed s.plan s.group).individual ++ r)
          (append-nil (concat_groups (flushed s.plan s.group).groups))))
      (flushed-Perm s.plan s.group)

-- What a packing keeps.
record Fits (s : Packing) : Type 0 where
  size : s.group_size ≡ stream_size s.group
  candidates : All IsCandidate s.group
  small : (s.group_size ≤ max_solid_stream_size) ⊎ (length s.group ≤ 1)
  groups : All IsGroup s.plan.groups

abbrev Sized : Candidate → Type 0
Sized c = IsCandidate c.file × (c.record_size ≡ record_length c.file)

flushed-IsGroup :
    (s : Packing) (g : List PlanFile) → s.group ≡ g → Fits s → All IsGroup (flushed s.plan g).groups
unfolding flushed
flushed-IsGroup s [] e h = h.groups
flushed-IsGroup s (f ∷ []) e h = h.groups
flushed-IsGroup s (f ∷ g ∷ fs) e h = append-All IsGroup s.plan.groups ((f ∷ g ∷ fs) ∷ []) h.groups (
  record {
    several = omega arith;
    candidates = subst (λ g. All IsCandidate g) e h.candidates;
    fits =
        small (subst (λ g. (s.group_size ≤ max_solid_stream_size) ⊎ (length g ≤ 1)) e h.small)
          (h.size ∙ ap stream_size e);
  },
  tt,
)
  where
    small :
        (s.group_size ≤ max_solid_stream_size) ⊎ (length (f ∷ g ∷ fs) ≤ 1)
        → s.group_size ≡ stream_size (f ∷ g ∷ fs)
        → stream_size (f ∷ g ∷ fs) ≤ max_solid_stream_size
    small (inl le) q = omega (arith, le, q)
    small (inr le) q = omega (arith, le)

flush-Fits : (s : Packing) → Fits s → Fits (flush s)
unfolding flush stream_size
flush-Fits s h = record {
  size = refl;
  candidates = tt;
  small = inr (omega arith);
  groups = flushed-IsGroup s s.group refl h;
}

join_group-Fits :
    (s : Packing) (c : Candidate)
    → Sized c
    → Fits s
    → (s.group_size + c.record_size ≤ max_solid_stream_size) ⊎ (s.group ≡ [])
    → Fits (join_group s c)
unfolding join_group
join_group-Fits s c is h room = record {
  size = omega (arith, h.size, stream_size-append s.group c.file, is.1);
  candidates = append-All IsCandidate s.group (c.file ∷ []) h.candidates (is.0, tt);
  small = fits room;
  groups = h.groups;
}
  where
    fits :
        (s.group_size + c.record_size ≤ max_solid_stream_size) ⊎ (s.group ≡ [])
        → (s.group_size + c.record_size ≤ max_solid_stream_size)
          ⊎ (length (s.group ++ c.file ∷ []) ≤ 1)
    fits (inl le) = inl le
    fits (inr empty) =
        inr (omega (arith, length-append s.group (c.file ∷ []), ap (length {A = PlanFile}) empty))

pack-Fits : (s : Packing) (c : Candidate) → Sized c → Fits s → Fits (pack s c)
unfolding pack
pack-Fits s c is h = elim (Bool-cases (ltb max_solid_stream_size (s.group_size + c.record_size))) [
  | inl over ↦
      rw over (join_group-Fits (flush s) c is (flush-Fits s h) (inr (unfold flush in refl)))
  | inr room ↦ rw room (join_group-Fits s c is h (inl (ltb→le _ _ room)))
]

pack-held : (s : Packing) (c : Candidate) → Perm (held (pack s c)) (held s ++ c.file ∷ [])
unfolding pack
pack-held s c = elim (Bool-cases (ltb max_solid_stream_size (s.group_size + c.record_size))) [
  | inl over ↦ rw over (
      Perm.trans (perm_eq (join_group-held (flush s) c))
        (Perm.append_right (c.file ∷ []) (flush-held s)))
  | inr room ↦ rw room (perm_eq (join_group-held s c))
]

unfoldable candidate_files : List Candidate → List PlanFile
candidate_files [] = []
candidate_files (c ∷ cs) = c.file ∷ candidate_files cs

pack_all-Plan :
    (s : Packing) (cs : List Candidate)
    → All Sized cs
    → Fits s
    → Fits (pack_all s cs) × Perm (held (pack_all s cs)) (held s ++ candidate_files cs)
unfolding pack_all candidate_files
pack_all-Plan s [] sized h = (h, perm_eq (sym (append-nil (held s))))
pack_all-Plan s (c ∷ cs) (is, sized) h =
    let (fits, same) = pack_all-Plan (pack s c) cs sized (pack-Fits s c is h) in
    (
      fits,
      Perm.trans same (
          Perm.trans (Perm.append_right (candidate_files cs) (pack-held s c))
            (perm_eq (append_assoc (held s) (c.file ∷ []) (candidate_files cs)))),
    )

-- The sort keeps the candidates.
insert-Perm :
    (c : Candidate) (ds : List Candidate)
    → All Sized (c ∷ ds)
    → All Sized (insert c ds) × Perm (candidate_files (insert c ds)) (c.file ∷ candidate_files ds)
unfolding insert candidate_files
insert-Perm c [] sized = (sized, Perm.refl _)
insert-Perm c (d ∷ ds) (is, (of_d, sized)) = elim (Bool-cases (string_less d.ext c.ext)) [
  | inl before ↦
      let (all, same) = insert-Perm c ds (is, sized) in
      rw before ((of_d, all), Perm.trans (Perm.cons d.file same) (Perm.swap c.file d.file _))
  | inr behind ↦ rw behind ((is, (of_d, sized)), Perm.refl _)
]

sort_by_ext-Perm :
    (cs : List Candidate)
    → All Sized cs
    → All Sized (sort_by_ext cs) × Perm (candidate_files (sort_by_ext cs)) (candidate_files cs)
unfolding sort_by_ext candidate_files
sort_by_ext-Perm [] sized = (tt, Perm.refl _)
sort_by_ext-Perm (c ∷ cs) (is, sized) =
    let (all, same) = sort_by_ext-Perm cs sized in
    let (all', same') = insert-Perm c (sort_by_ext cs) (is, all) in
    (all', Perm.trans same' (Perm.cons c.file same))

-- The plan that the last flush leaves.
flush-Plan :
    (s : Packing)
    → Fits s
    → Perm (files_of (flush s).plan) (held s) × All IsGroup (flush s).plan.groups
unfolding flush
flush-Plan s h = (flushed-Perm s.plan s.group, flushed-IsGroup s s.group refl h)

-- the packing that planSolid starts with
abbrev start_of : List PlanFile → Packing
start_of individual = record {
  plan = record { individual = individual; groups = [] };
  group = [];
  group_size = 0;
}

start_of-Fits : (individual : List PlanFile) → Fits (start_of individual)
unfolding stream_size
start_of-Fits individual = record {
  size = refl;
  candidates = tt;
  small = inr (omega arith);
  groups = tt;
}

start_of-held : (individual : List PlanFile) → held (start_of individual) ≡ individual
unfolding concat_groups
start_of-held individual = append-nil individual

module _ (lower : Bytes → Bytes) where
  sorted_out-Perm :
      (f : PlanFile) (size : Option ℕ) (r : List PlanFile × List Candidate) (fs : List PlanFile)
      → solid_candidate f ≡ size
      → All Sized r.1
      → Perm (r.0 ++ candidate_files r.1) fs
      → All Sized (sorted_out lower f size r).1
        × Perm
            ((sorted_out lower f size r).0 ++ candidate_files (sorted_out lower f size r).1)
            (f ∷ fs)
  unfolding sorted_out candidate_files solid_candidate
  sorted_out-Perm f none (individual, candidates) fs is sized same = (sized, Perm.cons f same)
  sorted_out-Perm f (some n) (individual, candidates) fs is sized same = (
    (candidate_with-IsCandidate f f.stat n refl is, sized),
    Perm.trans ∣ Permᴰ.middle f individual (candidate_files candidates) ∣₁ (Perm.cons f same),
  )

  sort_out-Perm :
      (files : List PlanFile)
      → All Sized (sort_out lower files).1
        × Perm ((sort_out lower files).0 ++ candidate_files (sort_out lower files).1) files
  unfolding sort_out candidate_files
  sort_out-Perm [] = (tt, Perm.refl _)
  sort_out-Perm (f ∷ fs) =
      let (sized, same) = sort_out-Perm fs in
      sorted_out-Perm f (solid_candidate f) (sort_out lower fs) fs refl sized same

  -- planSolid plans every file exactly once, individually or in one group; a group has at least two
  -- files, each of which is regular in its attributes, could be stat'ed, and then was a regular file
  -- of at most SolidMemberMaxSize; the records of the group, with the sizes that os.Stat returned, fit
  -- MaxSolidStreamSize.
  pub plan_solid-IsGroup :
      (files : List PlanFile)
      → Perm (files_of (plan_solid lower files)) files × All IsGroup (plan_solid lower files).groups
  unfolding plan_solid
  plan_solid-IsGroup files =
      let (sized, split) = sort_out-Perm files in
      let (sorted, kept) = sort_by_ext-Perm (sort_out lower files).1 sized in
      let start = start_of (sort_out lower files).0 in
      let (fits, packed) =
        pack_all-Plan start (sort_by_ext (sort_out lower files).1) sorted
          (start_of-Fits (sort_out lower files).0) in
      let (whole, groups) =
        flush-Plan (pack_all start (sort_by_ext (sort_out lower files).1)) fits in
      (
        Perm.trans whole (
            Perm.trans packed (
              Perm.trans
                (perm_eq (
                  ap (λ r. r ++ candidate_files (sort_by_ext (sort_out lower files).1))
                    (start_of-held (sort_out lower files).0)))
                (Perm.trans (Perm.append_left (sort_out lower files).0 kept) split))),
        groups,
      )
