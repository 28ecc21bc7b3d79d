-- ===== src/Volumes/Writing.antt =====
-- What a VolumeWriter leaves: volumes of the bytes that were written to it, in order.
use sarc.Prelude.{
  ℕ, suc, ◌-◌, ◌≡◌, refl, ap, ◌∙◌, Bool, true, false, Option, none, some, List, [], append-nil,
  arith, subst, inl, inr,
}
use sarc.Prelude.{ltb, if◌then◌else◌, length, Bool-cases, ltb→le}
use sarc.Bytes.{Bytes, concat}
use sarc.Volume.{volume_id_size, volume_overhead}
use sarc.Reader.{Fallible, fails, got}
use sarc.Volumes.{
  OpenVolume, VolumeWriter, create_volumes, min_volume_size, open_volume, ready_volume, close_with,
  close, writes,
}
use sarc.Volumes.Holding.{volumes, Holds, held, open_of, open_volume-Holds}
use sarc.Volumes.Filling.{writes-Written, Closed, close_ready}

module _ (sha256 : Bytes → Bytes) (id : Bytes) (cap : ℕ) where
  closed_Holds :
      (v : VolumeWriter) (cs : List Bytes) (cur : Option Bytes)
      → Holds sha256 id cap false v cs cur
      → Holds sha256 id cap true (record v { closed = true }) cs cur
  closed_Holds v cs none h = record {
    capacity = h.capacity;
    named = h.named;
    is_closed = refl;
    full = h.full;
    finished = h.finished;
    stands = h.stands;
  }
  closed_Holds v cs (some c) h = record {
    capacity = h.capacity;
    named = h.named;
    is_closed = refl;
    full = h.full;
    finished = h.finished;
    stands = h.stands;
  }

  abbrev finish_ready : VolumeWriter → VolumeWriter
  finish_ready ready = close_with sha256 ready ready.current

  close_is :
      (v : VolumeWriter) (o : Option OpenVolume)
      → v.closed ≡ false
      → v.current ≡ o
      → close sha256 v ≡ finish_ready (ready_volume sha256 (record v { closed = true }) o)
  unfolding close
  close_is v o not_closed is =
      ap
        (λ (b : Bool).
          if b
          then v
          else finish_ready (ready_volume sha256 (record v { closed = true }) v.current))
        not_closed
      ∙ ap (λ o'. finish_ready (ready_volume sha256 (record v { closed = true }) o')) is

  close-Closed :
      (v : VolumeWriter) (cs : List Bytes) (cur : Option Bytes)
      → length id ≡ volume_id_size
      → Holds sha256 id cap false v cs cur
      → Closed sha256 id cap true (close sha256 v) (held sha256 id cap true cs cur)
  unfolding ready_volume
  close-Closed v cs none sized h =
      let w = record v { closed = true } in
      let shut = closed_Holds v cs none h in
      let (nothing, _) = h.stands in
      let (cs', c', fin, all, full, most) =
        close_ready sha256 id cap true (open_volume w) cs [] sized
          (open_volume-Holds sha256 id cap true w cs shut) in
      (
        cs',
        c',
        ap (λ (z : VolumeWriter). z.finished) (close_is v none h.is_closed nothing) ∙ fin,
        all ∙ append-nil (concat cs),
        full,
        most,
      )
  close-Closed v cs (some c) sized h =
      let w = record v { closed = true } in
      let shut = closed_Holds v cs (some c) h in
      let (opened, _, _) = h.stands in
      let (cs', c', fin, all, full, most) = close_ready sha256 id cap true w cs c sized shut in
      (
        cs',
        c',
        ap (λ (z : VolumeWriter). z.finished)
              (close_is v (some (open_of sha256 id cap false (suc (length cs)) c)) h.is_closed
                opened)
            ∙ fin,
        all,
        full,
        most,
      )

-- A writer that CreateVolumes returned, with an ID of VolumeIDSize bytes, takes any writes, and Close
-- leaves volumes numbered from 1: each but the last has as many payload bytes as fit the volume size,
-- the last at most as many, each has the header and the checksum of its payload, and the payloads
-- joined are the bytes that were written.
pub close-writes :
    (sha256 : Bytes → Bytes) (id : Bytes) (volume_size : ℕ) (ps : List Bytes) (v : VolumeWriter)
    → length id ≡ volume_id_size
    → create_volumes id volume_size ≡ got v
    → (w : VolumeWriter) × (writes sha256 v ps ≡ got w)
      × Closed sha256 id (volume_size - volume_overhead) true (close sha256 w) (concat ps)
unfolding create_volumes volumes
close-writes sha256 id volume_size ps v sized created =
    elim (Bool-cases (ltb volume_size min_volume_size)) [
      | inl small ↦
          absurd (
            let h : ◌≡◌ {A = Fallible VolumeWriter} (fails _) (got v) = rw small at created in cc h)
      | inr large ↦
          let cap = volume_size - volume_overhead in
          let fresh : VolumeWriter = record {
            capacity = cap;
            id = id;
            index = 0;
            current = none;
            finished = [];
            closed = false;
          } in
          let is : ◌≡◌ {A = Fallible VolumeWriter} (got fresh) (got v) = rw large at created in
          let same : fresh ≡ v = cc is in
          let start : Holds sha256 id cap false fresh [] none = record {
            capacity = refl;
            named = refl;
            is_closed = refl;
            full = tt;
            finished = refl;
            stands = (refl, refl);
          } in
          let (w, cs, cur, ran, h, all) =
            writes-Written sha256 id cap false v [] none ps sized
              (omega (arith, ltb→le volume_size min_volume_size large))
              (subst (λ z. Holds sha256 id cap false z [] none) same start) in
          let (cs', c', fin, joined, full, most) = close-Closed sha256 id cap w cs cur sized h in
          (w, ran, (cs', c', fin, joined ∙ held_same cs cur ∙ all, full, most))
    ]
  where
    held_same :
        (cs : List Bytes) (cur : Option Bytes)
        → held sha256 id (volume_size - volume_overhead) true cs cur
          ≡ held sha256 id (volume_size - volume_overhead) false cs cur
    held_same cs none = refl
    held_same cs (some c) = refl
