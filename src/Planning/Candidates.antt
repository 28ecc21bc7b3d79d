-- ===== src/Planning/Candidates.antt =====
-- Which files may share a solid group, and how long their records are.
use sarc.Prelude.{
  ℕ, ◌+◌, ◌≤◌, ◌≡◌, refl, ap, inl, inr, Option, some, none, [], arith, length, ltb, Bool-cases,
  Bool, true, false, not, ◌||◌, ◌!=◌,
}
use sarc.Bytes.{Bytes}
use sarc.Result.{Result, ok, err, panic}
use sarc.Attributes.{Attributes, append_attributes, kind_regular}
use sarc.Solid.{solid_member_max_size, solid_record_size}
use sarc.Planning.{FileStat, PlanFile, attributes_size, candidate_with}

abbrev encoded_size : Result Bytes → ℕ
encoded_size (ok b) = length b
encoded_size (err e) = 0
encoded_size panic = 0

abbrev stat_size : Option FileStat → ℕ
stat_size none = 0
stat_size (some info) = info.size

-- The bytes of a file's record if the file still has the size that os.Stat returned: the name behind
-- its 2-byte length, the attributes behind their 4-byte length, the contents behind their 8-byte length.
abbrev pub record_length : PlanFile → ℕ
record_length f =
    (2 + length f.name)
    + ((4 + encoded_size (append_attributes [] f.attributes)) + (8 + stat_size f.stat))

-- A regular file of at most SolidMemberMaxSize, in its attributes and in what os.Stat returned.
pub record IsCandidate (f : PlanFile) : Type 0 where
  pub info : FileStat
  pub found : f.stat ≡ some info
  pub regular : info.is_regular ≡ true
  pub kind : f.attributes.kind ≡ kind_regular
  pub small : info.size ≤ solid_member_max_size

-- What the test of solidCandidate lets through.
admitted :
    (kind size : ℕ) (regular : Bool)
    → ((kind != kind_regular) || (not regular || ltb solid_member_max_size size)) ≡ false
    → (kind ≡ kind_regular) × (regular ≡ true) × (size ≤ solid_member_max_size)
admitted kind size regular h = ground arith

attributes_size-encoded :
    (a : Attributes) → attributes_size a ≡ encoded_size (append_attributes [] a)
unfolding attributes_size
attributes_size-encoded a = by_result (append_attributes [] a)
  where
    by_result : (r : Result Bytes) → (elim r [ ok b ↦ length b | _ ↦ 0 ]) ≡ encoded_size r
    by_result (ok b) = refl
    by_result (err e) = refl
    by_result panic = refl

-- A candidate of planSolid is one, and has the size of its record.
pub candidate_with-IsCandidate :
    (f : PlanFile) (s : Option FileStat) (n : ℕ)
    → f.stat ≡ s
    → candidate_with f s ≡ some n
    → IsCandidate f × (n ≡ record_length f)
unfolding candidate_with solid_record_size
candidate_with-IsCandidate f none n is h = cc h
candidate_with-IsCandidate f (some info) n is h =
    elim (Bool-cases (
      (f.attributes.kind != kind_regular)
      || (not info.is_regular || ltb solid_member_max_size info.size))) [
        | inl refused ↦
            let h' : ◌≡◌ {A = Option ℕ} none (some n) = rw refused at h in absurd (cc h')
        | inr let_in ↦
            let (kind, regular, small) =
              admitted f.attributes.kind info.size info.is_regular let_in in
            let h' : ◌≡◌ {A = Option ℕ}
                (some (2 + 4 + 8 + length f.name + attributes_size f.attributes + info.size))
                (some n) =
              rw let_in at h in
            let size : 2 + 4 + 8 + length f.name + attributes_size f.attributes + info.size ≡ n =
              cc h' in
            (
              record { info = info; found = is; regular = regular; kind = kind; small = small },
              omega (arith, size, attributes_size-encoded f.attributes, ap stat_size is),
            )
      ]
