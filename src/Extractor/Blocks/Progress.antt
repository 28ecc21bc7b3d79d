-- ===== src/Extractor/Blocks/Progress.antt =====
-- The parallel pipeline under every schedule: it ends, and with what the sequential loop gives.
use sarc.Prelude.{
  ℕ, zero, suc, ◌+◌, ◌*◌, ◌≤◌, ◌<◌, ◌≡◌, refl, sym, ap, ◌∙◌, ◌⊎◌, inl, inr, Bool, true, false,
  Option, none, some, List, [], ◌∷◌, ◌++◌, arith, length,
}
use sarc.Bytes.{Bytes}
use sarc.Crypto.{EncryptedBlock}
use sarc.Reader.{Fallible, panics, fails, got}
use sarc.Extractor.Blocks.{
  Opened, Drained, next_block, sequential, finish_sequential, finish_parallel, stream_data_blocks,
}
use sarc.Extractor.Blocks.Pipeline.{same_error, stream_data_blocks-workers}
use sarc.Extractor.Blocks.Pool.{
  Slot, unsent, queued, running, done, Dispatcher, reading, offering, sending, stopped, Pool, begin,
  total, is_queued, is_running, in_channel, Step, reads, stops, offers, sends, takes, finishes,
  receives, consumes, Reach, at_start, later, IsFinished,
}
use sarc.Extractor.Blocks.Schedules.{is_unsent, to_send, take_all, remaining, Inv}
use sarc.Extractor.Blocks.Steps.{steps_left, Step-steps_left, Step-Inv}

-- The first queued slot, and a slot with a worker.
first_queued :
    (ss : List Slot)
    → (total is_queued ss ≡ 0)
      ⊎ ((front : List Slot) × (block : EncryptedBlock) × (back : List Slot) × (ss
            ≡ front ++ queued block ∷ back)
          × (total is_queued front ≡ 0))
unfolding total
first_queued [] = inl refl
first_queued (queued block ∷ ss) = inr ([], block, ss, refl, refl)
first_queued (unsent b ∷ ss) = elim (first_queued ss) [
  | inl nothing ↦ inl (omega (arith, nothing))
  | inr (front, block, back, is, first) ↦
      inr (unsent b ∷ front, block, back, ap (λ r. unsent b ∷ r) is, omega (arith, first))
]
first_queued (running b ∷ ss) = elim (first_queued ss) [
  | inl nothing ↦ inl (omega (arith, nothing))
  | inr (front, block, back, is, first) ↦
      inr (running b ∷ front, block, back, ap (λ r. running b ∷ r) is, omega (arith, first))
]
first_queued (done r ∷ ss) = elim (first_queued ss) [
  | inl nothing ↦ inl (omega (arith, nothing))
  | inr (front, block, back, is, first) ↦
      inr (done r ∷ front, block, back, ap (λ q. done r ∷ q) is, omega (arith, first))
]

some_running :
    (ss : List Slot)
    → (total is_running ss ≡ 0)
      ⊎ ((front : List Slot) × (block : EncryptedBlock) × (back : List Slot) × (ss
            ≡ front ++ running block ∷ back))
unfolding total
some_running [] = inl refl
some_running (running block ∷ ss) = inr ([], block, ss, refl)
some_running (unsent b ∷ ss) = elim (some_running ss) [
  | inl nothing ↦ inl (omega (arith, nothing))
  | inr (front, block, back, is) ↦ inr (unsent b ∷ front, block, back, ap (λ r. unsent b ∷ r) is)
]
some_running (queued b ∷ ss) = elim (some_running ss) [
  | inl nothing ↦ inl (omega (arith, nothing))
  | inr (front, block, back, is) ↦ inr (queued b ∷ front, block, back, ap (λ r. queued b ∷ r) is)
]
some_running (done r ∷ ss) = elim (some_running ss) [
  | inl nothing ↦ inl (omega (arith, nothing))
  | inr (front, block, back, is) ↦ inr (done r ∷ front, block, back, ap (λ q. done r ∷ q) is)
]

in_channel_le : (w : Bool) (ss : List Slot) → in_channel w ss ≤ length ss
in_channel_le true ss = omega arith
in_channel_le false ss = omega arith

is_sending : (d : Dispatcher) → 0 < to_send d → d ≡ sending
is_sending reading h = absurd (omega (arith, h))
is_sending (offering block) h = absurd (omega (arith, h))
is_sending sending h = refl
is_sending (stopped ended) h = absurd (omega (arith, h))

module _ {S : Type 0} (open_with : EncryptedBlock → Opened) (sink : S → Bytes → Option S)
    (workers : ℕ) where
  -- Ended, or with a step to take.
  abbrev pub Goes : Pool S → Type 0
  Goes s =
      ((ended : Fallible (Unit {0})) × IsFinished ended s)
      ⊎ ((t : Pool S) × Step open_with sink workers s t)

  module _ (s : Pool S) (some_workers : 2 ≤ workers) where
    calls_next :
        (q : Fallible (Option EncryptedBlock) × Bytes)
        → s.dispatcher ≡ reading
        → next_block s.input ≡ q
        → Goes s
    calls_next (panics, rest) at h = inr (_, stops panics rest panics at h refl)
    calls_next (fails e, rest) at h = inr (_, stops (fails e) rest (fails e) at h refl)
    calls_next (got none, rest) at h = inr (_, stops (got none) rest (got tt) at h refl)
    calls_next (got (some block), rest) at h = inr (_, reads block rest at h)

    -- With no block in flight the dispatcher goes on.
    empty-Goes :
        (d : Dispatcher)
        → s.dispatcher ≡ d
        → s.slots ≡ []
        → total is_unsent s.slots ≡ to_send s.dispatcher
        → Goes s
    unfolding total
    empty-Goes reading at is h = calls_next (next_block s.input) at refl
    empty-Goes (offering block) at is h = inr (
      _,
      offers block at
          (omega (arith, in_channel_le s.waits s.slots, ap (length {A = Slot}) is, some_workers)),
    )
    empty-Goes sending at is h = absurd (omega (arith, h, ap (total is_unsent) is, ap to_send at))
    empty-Goes (stopped ended) at is h = inl (ended, (at, is))

    -- While the first block waits for a worker or for its job to be sent, some worker goes on, or the
    -- dispatcher sends.
    busy-Goes :
        (slot : Slot) (rest : List Slot)
        → s.slots ≡ slot ∷ rest
        → total is_unsent s.slots ≡ to_send s.dispatcher
        → s.waits ≡ true
        → Goes s
    unfolding total
    busy-Goes (done r) rest is h waits = inr (_, consumes r rest waits is)
    busy-Goes (running block) rest is h waits = inr (_, finishes [] rest block is)
    busy-Goes (queued block) rest is h waits = elim (some_running s.slots) [
      | inr (front, other, back, at) ↦ inr (_, finishes front back other at)
      | inl idle ↦ inr (_, takes [] rest block is refl (omega (arith, idle, some_workers)))
    ]
    busy-Goes (unsent block) rest is h waits = elim (some_running s.slots) [
      | inr (front, other, back, at) ↦ inr (_, finishes front back other at)
      | inl idle ↦ elim (first_queued s.slots) [
        | inr (front, other, back, at, first) ↦
            inr (_, takes front back other at first (omega (arith, idle, some_workers)))
        | inl nothing ↦ inr (
          _,
          sends [] rest block (is_sending s.dispatcher (omega (arith, h, ap (total is_unsent) is)))
              is (omega (arith, nothing, some_workers)),
        )
      ]
    ]

    Inv-Goes :
        (ss : List Slot) (w : Bool)
        → s.slots ≡ ss
        → s.waits ≡ w
        → total is_unsent s.slots ≡ to_send s.dispatcher
        → Goes s
    Inv-Goes [] w is waits h = empty-Goes s.dispatcher refl is h
    Inv-Goes (slot ∷ rest) false is waits h = inr (_, receives slot rest waits is)
    Inv-Goes (slot ∷ rest) true is waits h = busy-Goes slot rest is h waits

  Reach-Inv :
      (s : S) (b : Bytes) (n : ℕ) (t : Pool S)
      → Reach open_with sink workers (begin s b) n t
      → Inv open_with sink workers
          (sequential open_with sink (suc (length b)) (record { held = s; first_err = none }) b)
          t
  unfolding take_all total
  Reach-Inv s b zero t at_start = record {
    fuel = suc (length b);
    enough = omega arith;
    same = refl;
    unsent_slots = refl;
    held = omega arith;
  }
  Reach-Inv s b (suc n) t (later r step) =
      Step-Inv open_with sink workers (Reach-Inv s b n _ r) step

  Reach-steps_left :
      (s : S) (b : Bytes) (n : ℕ) (t : Pool S)
      → Reach open_with sink workers (begin s b) n t
      → n + steps_left t ≤ 7 * length b + 2
  unfolding total
  Reach-steps_left s b zero t at_start = omega arith
  Reach-steps_left s b (suc n) t (later r step) =
      omega (arith, Reach-steps_left s b n _ r, Step-steps_left open_with sink workers step)

  finish_same :
      (d : Drained S × Bytes)
      → finish_parallel open_with sink d ≡ finish_sequential open_with sink d
  finish_same (d, rest) =
      ap (λ (r : Fallible S). (r, rest)) (same_error open_with sink d.ended d.state.first_err d)

  -- What a finished run leaves is what the sequential loop leaves.
  finished-sequential :
      (s : S) (b : Bytes) (n : ℕ) (t : Pool S) (ended : Fallible (Unit {0}))
      → Reach open_with sink workers (begin s b) n t
      → IsFinished ended t
      → ◌≡◌ {A = Drained S × Bytes}
          (record { state = t.state; ended = ended }, t.input)
          (sequential open_with sink (suc (length b)) (record { held = s; first_err = none }) b)
  unfolding take_all
  finished-sequential s b n t ended r (at, is) =
      let inv = Reach-Inv s b n t r in
      ap
        (λ ss.
          remaining open_with sink workers inv.fuel t.input
            (take_all open_with sink workers t.state ss) (stopped ended))
        (sym is)
      ∙ ap
          (λ d.
            remaining open_with sink workers inv.fuel t.input
              (take_all open_with sink workers t.state t.slots) d)
          (sym at)
      ∙ inv.same

  -- With two workers or more, whatever order the dispatcher, the workers and the consumer step in: a run
  -- of the pipeline on an input has at most 7 steps for each byte and 2 more; after them, either some step
  -- can be taken, or the dispatcher has ended with no block in flight, and the state of the sink or the
  -- error, and the reader's place, are those that streamDataBlocks returns, with one worker and with
  -- these.
  pub Reach-stream_data_blocks :
      (s : S) (b : Bytes) (n : ℕ) (t : Pool S)
      → 2 ≤ workers
      → Reach open_with sink workers (begin s b) n t
      → (n ≤ 7 * length b + 2)
        × (((ended : Fallible (Unit {0})) × IsFinished ended t
              × (finish_parallel open_with sink (record { state = t.state; ended = ended }, t.input)
                  ≡ stream_data_blocks open_with sink 1 s b)
              × (stream_data_blocks open_with sink workers s b
                  ≡ stream_data_blocks open_with sink 1 s b))
            ⊎ ((t' : Pool S) × Step open_with sink workers t t'))
  unfolding stream_data_blocks
  Reach-stream_data_blocks s b n t some_workers r = (
    omega (arith, Reach-steps_left s b n t r),
    elim (Inv-Goes t some_workers t.slots t.waits refl refl (Reach-Inv s b n t r).unsent_slots) [
      | inr goes ↦ inr goes
      | inl (ended, is) ↦ inl (
        ended,
        is,
        finish_same (record { state = t.state; ended = ended }, t.input)
            ∙ ap (finish_sequential open_with sink) (finished-sequential s b n t ended r is),
        stream_data_blocks-workers open_with sink workers s b,
      )
    ],
  )
