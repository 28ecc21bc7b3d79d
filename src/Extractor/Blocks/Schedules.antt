-- ===== src/Extractor/Blocks/Schedules.antt =====
-- Every schedule of the parallel pipeline keeps what the sequential loop still has to do.
use sarc.Prelude.{
  ℕ, zero, suc, ◌+◌, ◌≤◌, ◌<◌, ◌≡◌, refl, sym, ap, ◌∙◌, subst, inl, inr, Bool, true, false, Option,
  none, some, List, [], ◌∷◌, ◌++◌, arith, length,
}
use sarc.Bytes.{Bytes}
use sarc.Crypto.{EncryptedBlock}
use sarc.Reader.{Fallible, panics, fails, got}
use sarc.Extractor.Blocks.{
  BlockError, Opened, Held, Drained, take_unless, next_block, sequential_turn, sequential,
}
use sarc.Extractor.Blocks.Rest.{next_block_rest}
use sarc.Extractor.Blocks.Pool.{
  Slot, unsent, queued, running, done, Dispatcher, reading, offering, sending, stopped, Pool, total,
  ended_of, take_result_unless, take_result,
}

abbrev pub is_unsent : Slot → ℕ
is_unsent (unsent b) = 1
is_unsent (queued b) = 0
is_unsent (running b) = 0
is_unsent (done r) = 0

-- the jobs that the dispatcher still has to send
abbrev pub to_send : Dispatcher → ℕ
to_send reading = 0
to_send (offering block) = 0
to_send sending = 1
to_send (stopped ended) = 0

abbrev pub held_slots : Bool → ℕ
held_slots true = 1
held_slots false = 0

pub total-append : (f : Slot → ℕ) (ss ts : List Slot) → total f (ss ++ ts) ≡ total f ss + total f ts
unfolding total
total-append f [] ts = omega arith
total-append f (s ∷ ss) ts = omega (arith, total-append f ss ts)

-- A slot among others.
pub total_at :
    (f : Slot → ℕ) (front back : List Slot) (s : Slot)
    → total f (front ++ s ∷ back) ≡ total f front + (f s + total f back)
unfolding total
total_at f front back s = total-append f front (s ∷ back)

-- `next` returned a block: there was more input before.
pub rest_lt :
    (b rest : Bytes) (block : EncryptedBlock)
    → next_block b ≡ (got (some block), rest)
    → length rest < length b
rest_lt b rest block h = elim (next_block_rest b) [
  | inl (ends, nothing) ↦
      let h' : ◌≡◌ {A = Fallible (Option EncryptedBlock)} (got none) (got (some block)) =
        sym ends ∙ ap (λ (r : Fallible (Option EncryptedBlock) × Bytes). r.0) h in
      absurd (cc h')
  | inr less ↦
      subst (λ (r : Fallible (Option EncryptedBlock) × Bytes). length r.1 < length b) h less
]

module _ {S : Type 0} (open_with : EncryptedBlock → Opened) (sink : S → Bytes → Option S)
    (workers : ℕ) where
  -- the result that a slot has or will have
  abbrev pub result_of : Slot → Opened
  result_of (unsent block) = open_with block
  result_of (queued block) = open_with block
  result_of (running block) = open_with block
  result_of (done r) = r

  unfoldable pub take_all : Held S → List Slot → Held S
  take_all st [] = st
  take_all st (s ∷ ss) = take_all (take_result open_with sink workers st (result_of s)) ss

  pub take_all-last :
      (st : Held S) (ss : List Slot) (s : Slot)
      → take_all st (ss ++ s ∷ [])
        ≡ take_result open_with sink workers (take_all st ss) (result_of s)
  unfolding take_all
  take_all-last st [] s = refl
  take_all-last st (t ∷ ss) s =
      take_all-last (take_result open_with sink workers st (result_of t)) ss s

  -- A slot whose result is the same may stand in a slot's place.
  pub take_all_at :
      (st : Held S) (front back : List Slot) (s t : Slot)
      → result_of s ≡ result_of t
      → take_all st (front ++ s ∷ back) ≡ take_all st (front ++ t ∷ back)
  unfolding take_all
  take_all_at st [] back s t h = ap (λ r. take_all (take_result open_with sink workers st r) back) h
  take_all_at st (x ∷ front) back s t h =
      take_all_at (take_result open_with sink workers st (result_of x)) front back s t h

  take_block-take_result :
      (e : Option BlockError) (st : Held S) (block : EncryptedBlock)
      → take_unless open_with sink e st block
        ≡ take_result_unless open_with sink workers e st (open_with block)
  unfolding take_unless
  take_block-take_result none st block = refl
  take_block-take_result (some e) st block = refl

  -- What the sequential loop makes of what is left, once the blocks in flight are taken.
  abbrev pub remaining : ℕ → Bytes → Held S → Dispatcher → Drained S × Bytes
  remaining fuel b st reading = sequential open_with sink fuel st b
  remaining fuel b st (offering block) =
      sequential open_with sink fuel (take_result open_with sink workers st (open_with block)) b
  remaining fuel b st sending = sequential open_with sink fuel st b
  remaining fuel b st (stopped ended) = (record { state = st; ended = ended }, b)

  -- What every step keeps.
  pub record Inv (target : Drained S × Bytes) (s : Pool S) : Type 0 where
    pub fuel : ℕ
    pub enough : length s.input < fuel
    pub same : remaining fuel s.input (take_all s.state s.slots) s.dispatcher ≡ target
    pub unsent_slots : total is_unsent s.slots ≡ to_send s.dispatcher
    pub held : held_slots s.waits ≤ length s.slots

  pub sequential-block :
      (fuel : ℕ) (st : Held S) (b rest : Bytes) (block : EncryptedBlock)
      → length b < fuel
      → next_block b ≡ (got (some block), rest)
      → (f : ℕ) × (length rest < f)
        × (sequential open_with sink fuel st b
            ≡ sequential open_with sink f
                (take_result open_with sink workers st (open_with block))
                rest)
  unfolding sequential
  sequential-block zero st b rest block enough h = absurd (omega (arith, enough))
  sequential-block (suc f) st b rest block enough h = (
    f,
    omega (arith, enough, rest_lt b rest block h),
    ap (λ r. sequential_turn open_with sink r st (sequential open_with sink f)) h
        ∙ ap (λ t. sequential open_with sink f t rest)
            (take_block-take_result st.first_err st block),
  )

  pub sequential-end :
      (fuel : ℕ) (st : Held S) (b rest : Bytes) (r : Fallible (Option EncryptedBlock))
      (ended : Fallible (Unit {0}))
      → length b < fuel
      → next_block b ≡ (r, rest)
      → ended_of r ≡ some ended
      → sequential open_with sink fuel st b ≡ (record { state = st; ended = ended }, rest)
  unfolding sequential
  sequential-end zero st b rest r ended enough h is = absurd (omega (arith, enough))
  sequential-end (suc f) st b rest r ended enough h is =
      ap (λ r. sequential_turn open_with sink r st (sequential open_with sink f)) h ∙ turn r is
    where
      turn :
          (r : Fallible (Option EncryptedBlock))
          → ended_of r ≡ some ended
          → sequential_turn open_with sink (r, rest) st (sequential open_with sink f)
            ≡ (record { state = st; ended = ended }, rest)
      turn panics is = ap (λ e. (record { state = st; ended = e }, rest)) (cc is)
      turn (fails e) is = ap (λ e. (record { state = st; ended = e }, rest)) (cc is)
      turn (got none) is = ap (λ e. (record { state = st; ended = e }, rest)) (cc is)
      turn (got (some block)) is = cc is
