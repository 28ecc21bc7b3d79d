-- ===== src/Extractor/Blocks/Steps.antt =====
-- What each step of the parallel pipeline keeps, and that it brings the pipeline nearer its end.
use sarc.Prelude.{
  ℕ, suc, ◌+◌, ◌*◌, ◌-◌, ◌≤◌, ◌≡◌, refl, sym, ap, ◌∙◌, inl, inr, Option, List, [], ◌∷◌, ◌++◌, arith,
  length,
}
use sarc.Prelude.{length-append}
use sarc.Bytes.{Bytes}
use sarc.Crypto.{EncryptedBlock}
use sarc.Reader.{Fallible}
use sarc.Extractor.Blocks.{Opened, Drained, next_block, sequential}
use sarc.Extractor.Blocks.Rest.{next_block_rest}
use sarc.Extractor.Blocks.Pool.{
  Slot, unsent, queued, running, done, Dispatcher, reading, offering, sending, stopped, Pool, total,
  Step, reads, stops, offers, sends, takes, finishes, receives, consumes,
}
use sarc.Extractor.Blocks.Schedules.{
  is_unsent, to_send, held_slots, total-append, total_at, rest_lt, result_of, take_all,
  take_all-last, take_all_at, remaining, Inv, sequential-block, sequential-end,
}

-- The steps that a slot still needs.
abbrev slot_steps : Slot → ℕ
slot_steps (unsent b) = 5
slot_steps (queued b) = 4
slot_steps (running b) = 3
slot_steps (done r) = 2

abbrev dispatcher_steps : Dispatcher → ℕ
dispatcher_steps reading = 1
dispatcher_steps (offering block) = 7
dispatcher_steps sending = 1
dispatcher_steps (stopped ended) = 0

-- A bound of the steps that are left.
abbrev pub steps_left : {S : Type 0} → Pool S → ℕ
steps_left s =
    7 * length s.input
    + (dispatcher_steps s.dispatcher + (total slot_steps s.slots + (1 - held_slots s.waits)))

rest_le :
    (b rest : Bytes) (r : Fallible (Option EncryptedBlock))
    → next_block b ≡ (r, rest)
    → length rest ≤ length b
rest_le b rest r h = elim (next_block_rest b) [
  | inl (ends, nothing) ↦ omega (
    arith,
    ap (λ (q : Fallible (Option EncryptedBlock) × Bytes). length {A = ℕ} q.1) h,
    ap (length {A = ℕ}) nothing,
  )
  | inr less ↦
      omega
        (arith, ap (λ (q : Fallible (Option EncryptedBlock) × Bytes). length {A = ℕ} q.1) h, less)
]

length_at :
    (front back : List Slot) (s t : Slot) → length (front ++ s ∷ back) ≡ length (front ++ t ∷ back)
length_at front back s t =
    omega (arith, length-append front (s ∷ back), length-append front (t ∷ back))

module _ {S : Type 0} (open_with : EncryptedBlock → Opened) (sink : S → Bytes → Option S)
    (workers : ℕ) where
  -- Each step leaves less to do.
  pub Step-steps_left :
      {s t : Pool S} → Step open_with sink workers s t → suc (steps_left t) ≤ steps_left s
  unfolding total
  Step-steps_left {s} (reads block rest at h) =
      omega (arith, ap dispatcher_steps at, rest_lt s.input rest block h)
  Step-steps_left {s} (stops r rest ended at h is) =
      omega (arith, ap dispatcher_steps at, rest_le s.input rest r h)
  Step-steps_left {s} (offers block at room) =
      omega (arith, ap dispatcher_steps at, total-append slot_steps s.slots (unsent block ∷ []))
  Step-steps_left {s} (sends front back block at is room) = omega (
    arith,
    ap dispatcher_steps at,
    ap (total slot_steps) is,
    total_at slot_steps front back (unsent block),
    total_at slot_steps front back (queued block),
  )
  Step-steps_left {s} (takes front back block is first idle) = omega (
    arith,
    ap (total slot_steps) is,
    total_at slot_steps front back (queued block),
    total_at slot_steps front back (running block),
  )
  Step-steps_left {s} (finishes front back block is) = omega (
    arith,
    ap (total slot_steps) is,
    total_at slot_steps front back (running block),
    total_at slot_steps front back (done (open_with block)),
  )
  Step-steps_left {s} (receives slot rest at is) = omega (arith, ap held_slots at)
  Step-steps_left {s} (consumes r rest at is) =
      omega (arith, ap held_slots at, ap (total slot_steps) is)

  -- A slot went on to its next phase.
  moved :
      (target : Drained S × Bytes) (s : Pool S) (front back : List Slot) (x y : Slot)
      → s.slots ≡ front ++ x ∷ back
      → result_of open_with sink workers x ≡ result_of open_with sink workers y
      → take_all open_with sink workers s.state (front ++ y ∷ back)
        ≡ take_all open_with sink workers s.state s.slots
  moved target s front back x y is same =
      sym (take_all_at open_with sink workers s.state front back x y same)
      ∙ ap (take_all open_with sink workers s.state) (sym is)

  pub Step-Inv :
      {target : Drained S × Bytes} {s t : Pool S}
      → Inv open_with sink workers target s
      → Step open_with sink workers s t
      → Inv open_with sink workers target t
  unfolding total take_all
  Step-Inv {target} {s} inv (reads block rest at h) =
      let all = take_all open_with sink workers s.state s.slots in
      let here : sequential open_with sink inv.fuel all s.input ≡ target =
        ap (λ d. remaining open_with sink workers inv.fuel s.input all d) (sym at) ∙ inv.same in
      let (f, enough, e) =
        sequential-block open_with sink workers inv.fuel all s.input rest block inv.enough h in
      record {
        fuel = f;
        enough = enough;
        same = sym e ∙ here;
        unsent_slots = inv.unsent_slots ∙ ap to_send at;
        held = inv.held;
      }
  Step-Inv {target} {s} inv (stops r rest ended at h is) =
      let all = take_all open_with sink workers s.state s.slots in
      let here : sequential open_with sink inv.fuel all s.input ≡ target =
        ap (λ d. remaining open_with sink workers inv.fuel s.input all d) (sym at) ∙ inv.same in
      record {
        fuel = suc (length s.input);
        enough = omega (arith, rest_le s.input rest r h);
        same =
            sym (
              sequential-end open_with sink workers inv.fuel all s.input rest r ended inv.enough h
                is)
            ∙ here;
        unsent_slots = inv.unsent_slots ∙ ap to_send at;
        held = inv.held;
      }
  Step-Inv {target} {s} inv (offers block at room) =
      let all = take_all open_with sink workers s.state s.slots in
      record {
        fuel = inv.fuel;
        enough = inv.enough;
        same =
            ap (λ st. sequential open_with sink inv.fuel st s.input)
              (take_all-last open_with sink workers s.state s.slots (unsent block))
            ∙ ap (λ d. remaining open_with sink workers inv.fuel s.input all d) (sym at)
            ∙ inv.same;
        unsent_slots = omega (
          arith,
          total-append is_unsent s.slots (unsent block ∷ []),
          inv.unsent_slots,
          ap to_send at,
        );
        held = omega (arith, inv.held, length-append s.slots (unsent block ∷ []));
      }
  Step-Inv {target} {s} inv (sends front back block at is room) =
      let all = take_all open_with sink workers s.state s.slots in
      record {
        fuel = inv.fuel;
        enough = inv.enough;
        same =
            ap (λ st. sequential open_with sink inv.fuel st s.input)
              (moved target s front back (unsent block) (queued block) is refl)
            ∙ ap (λ d. remaining open_with sink workers inv.fuel s.input all d) (sym at)
            ∙ inv.same;
        unsent_slots = omega (
          arith,
          inv.unsent_slots,
          ap to_send at,
          ap (total is_unsent) is,
          total_at is_unsent front back (unsent block),
          total_at is_unsent front back (queued block),
        );
        held = omega (
          arith,
          inv.held,
          ap (length {A = Slot}) is,
          length_at front back (unsent block) (queued block),
        );
      }
  Step-Inv {target} {s} inv (takes front back block is first idle) = record {
    fuel = inv.fuel;
    enough = inv.enough;
    same =
        ap (λ st. remaining open_with sink workers inv.fuel s.input st s.dispatcher)
          (moved target s front back (queued block) (running block) is refl)
        ∙ inv.same;
    unsent_slots = omega (
      arith,
      inv.unsent_slots,
      ap (total is_unsent) is,
      total_at is_unsent front back (queued block),
      total_at is_unsent front back (running block),
    );
    held = omega (
      arith,
      inv.held,
      ap (length {A = Slot}) is,
      length_at front back (queued block) (running block),
    );
  }
  Step-Inv {target} {s} inv (finishes front back block is) = record {
    fuel = inv.fuel;
    enough = inv.enough;
    same =
        ap (λ st. remaining open_with sink workers inv.fuel s.input st s.dispatcher)
          (moved target s front back (running block) (done (open_with block)) is refl)
        ∙ inv.same;
    unsent_slots = omega (
      arith,
      inv.unsent_slots,
      ap (total is_unsent) is,
      total_at is_unsent front back (running block),
      total_at is_unsent front back (done (open_with block)),
    );
    held = omega (
      arith,
      inv.held,
      ap (length {A = Slot}) is,
      length_at front back (running block) (done (open_with block)),
    );
  }
  Step-Inv {target} {s} inv (receives slot rest at is) = record {
    fuel = inv.fuel;
    enough = inv.enough;
    same = inv.same;
    unsent_slots = inv.unsent_slots;
    held = omega (arith, ap (length {A = Slot}) is);
  }
  Step-Inv {target} {s} inv (consumes r rest at is) = record {
    fuel = inv.fuel;
    enough = inv.enough;
    same =
        ap
          (λ ss.
            remaining open_with sink workers inv.fuel s.input
              (take_all open_with sink workers s.state ss) s.dispatcher)
          (sym is)
        ∙ inv.same;
    unsent_slots = omega (arith, inv.unsent_slots, ap (total is_unsent) is);
    held = omega arith;
  }
