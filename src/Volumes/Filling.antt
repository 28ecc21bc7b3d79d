-- ===== src/Volumes/Filling.antt =====
-- The loop of VolumeWriter.Write: it ends, and writes all it is given.
use sarc.Prelude.{
  ℕ, zero, suc, ◌+◌, ◌-◌, ◌*◌, ◌≤◌, ◌<◌, ◌≡◌, refl, sym, ap, ◌∙◌, Bool, true, false, Option, none,
  some, List, [], ◌∷◌, ◌++◌, append-nil, append_assoc, All, arith, min, inl, inr,
}
use sarc.Prelude.{
  ◌==◌, if◌then◌else◌, length, take, drop, length-drop, take-append-drop, Bool-cases, ==→eq,
}
use sarc.Bytes.{Bytes, concat}
use sarc.Volume.{volume_id_size}
use sarc.Writer.Progress.{concat-append}
use sarc.Reader.{Fallible, got}
use sarc.Volumes.{
  OpenVolume, VolumeWriter, open_volume, finish_volume, fill_volume, write_turn, go_on, write_loop,
  write, close_with, and_then, writes,
}
use sarc.Volumes.Holding.{
  volume, volumes, Holds, held, open_of, open_volume-Holds, finish_volume-Holds, finish_volume_lem,
  fill_volume-Holds,
}

-- `shut` is whether the writer is closed.
module _ (sha256 : Bytes → Bytes) (id : Bytes) (cap : ℕ) (shut : Bool) where
  -- Turns that may be left until these bytes are written.
  unfoldable pub cost : Option Bytes → Bytes → ℕ
  cost none p = 3 * length p - 1
  cost (some c) p = if length c == cap then 3 * length p else 3 * length p - 2

  abbrev pub Written : Fallible VolumeWriter → List Bytes → Option Bytes → Bytes → Type 0
  Written r cs cur p =
      (v : VolumeWriter) × (cs' : List Bytes) × (cur' : Option Bytes) × (r ≡ got v)
      × Holds sha256 id cap shut v cs' cur'
      × (held sha256 id cap shut cs' cur' ≡ held sha256 id cap shut cs cur ++ p)

  abbrev pub turn : ℕ → VolumeWriter → Bytes → Option OpenVolume → Fallible VolumeWriter
  turn fuel v p o = go_on sha256 (write_turn sha256 v o p) (write_loop sha256 fuel)

  pub cost_open :
      (fuel : ℕ) (x : ℕ) (p : Bytes)
      → 0 < cap
      → cost none (x ∷ p) ≤ suc fuel
      → cost (some []) (x ∷ p) ≤ fuel
  unfolding cost
  cost_open fuel x p room h = ground arith

  pub cost_finish :
      (fuel : ℕ) (c : Bytes) (x : ℕ) (p : Bytes)
      → length c == cap ≡ true
      → cost (some c) (x ∷ p) ≤ suc fuel
      → cost none (x ∷ p) ≤ fuel
  unfolding cost
  cost_finish fuel c x p full h = ground arith

  pub cost_fill :
      (fuel : ℕ) (c c' : Bytes) (x : ℕ) (p p' : Bytes)
      → length c == cap ≡ false
      → length p' + 1 ≤ length (x ∷ p)
      → cost (some c) (x ∷ p) ≤ suc fuel
      → cost (some c') p' ≤ fuel
  unfolding cost
  cost_fill fuel c c' x p p' more less h = ground arith

  pub not_full : (c : Bytes) → length c == cap ≡ false → length c ≤ cap → length c < cap
  not_full c more most = ground arith

  -- The turn, with the capacity that the test and the room are computed from.
  abbrev pub turn_at : ℕ → VolumeWriter → Bytes → OpenVolume → ℕ → Fallible VolumeWriter
  turn_at fuel v p o k =
      go_on sha256
        (if o.written == k then (finish_volume sha256 v o false, p) else (
          fill_volume sha256 v o (min (length p) (k - o.written)) p,
          drop (min (length p) (k - o.written)) p,
        ))
        (write_loop sha256 fuel)

  pub turn_full :
      (fuel : ℕ) (v : VolumeWriter) (i : ℕ) (c p : Bytes)
      → v.capacity ≡ cap
      → length c == cap ≡ true
      → turn fuel v p (some (open_of sha256 id cap shut i c))
        ≡ write_loop sha256 fuel (finish_volume sha256 v (open_of sha256 id cap shut i c) false) p
  unfolding write_turn
  turn_full fuel v i c p same filled =
      ap (turn_at fuel v p (open_of sha256 id cap shut i c)) same ∙ rw filled refl

  pub turn_room :
      (fuel : ℕ) (v : VolumeWriter) (i : ℕ) (c p : Bytes)
      → v.capacity ≡ cap
      → length c == cap ≡ false
      → turn fuel v p (some (open_of sha256 id cap shut i c))
        ≡ write_loop sha256 fuel
            (fill_volume sha256 v
              (open_of sha256 id cap shut i c)
              (min (length p) (cap - length c))
              p)
            (drop (min (length p) (cap - length c)) p)
  unfolding write_turn
  turn_room fuel v i c p same more =
      ap (turn_at fuel v p (open_of sha256 id cap shut i c)) same ∙ rw more refl

  pub write_loop-Written :
      (fuel : ℕ) (v : VolumeWriter) (cs : List Bytes) (cur : Option Bytes) (p : Bytes)
      → length id ≡ volume_id_size
      → 0 < cap
      → Holds sha256 id cap shut v cs cur
      → cost cur p ≤ fuel
      → Written (write_loop sha256 fuel v p) cs cur p
  unfolding write_loop write_turn cost
  write_loop-Written zero v cs cur [] sized room h enough =
      (v, cs, cur, refl, h, sym (append-nil _))
  write_loop-Written (suc fuel) v cs cur [] sized room h enough =
      (v, cs, cur, refl, h, sym (append-nil _))
  write_loop-Written zero v cs none (x ∷ p) sized room h enough = absurd (omega arith)
  write_loop-Written zero v cs (some c) (x ∷ p) sized room h enough = absurd (ground arith)
  write_loop-Written (suc fuel) v cs none (x ∷ p) sized room h enough =
      let (closed, at) = h.stands in
      let (v', cs', cur', is, h', all) =
        write_loop-Written fuel (open_volume v) cs (some []) (x ∷ p) sized room
          (open_volume-Holds sha256 id cap shut v cs h) (cost_open fuel x p room enough) in
      (
        v',
        cs',
        cur',
        ap (turn fuel v (x ∷ p)) closed ∙ is,
        h',
        all ∙ ap (λ s. s ++ (x ∷ p)) (append-nil (concat cs)),
      )
  write_loop-Written (suc fuel) v cs (some c) (x ∷ p) sized room h enough =
      let (opened, at, most) = h.stands in
      let o = open_of sha256 id cap shut (suc (length cs)) c in
      elim (Bool-cases (length c == cap)) [
        | inl filled ↦
            let (v', cs', cur', is, h', all) =
              write_loop-Written fuel (finish_volume sha256 v o false) (cs ++ c ∷ []) none (x ∷ p)
                sized room
                (finish_volume-Holds sha256 id cap shut v cs c sized (==→eq _ _ filled) h)
                (cost_finish fuel c x p filled enough) in
            (
              v',
              cs',
              cur',
              ap (turn fuel v (x ∷ p)) opened
                  ∙ (turn_full fuel v (suc (length cs)) c (x ∷ p) h.capacity filled ∙ is),
              h',
              all
                  ∙ ap (λ s. s ++ (x ∷ p))
                      (concat-append cs (c ∷ []) ∙ ap (λ s. concat cs ++ s) (append-nil c)),
            )
        | inr more ↦
            let n = min (length (x ∷ p)) (cap - length c) in
            let (v', cs', cur', is, h', all) =
              write_loop-Written fuel (fill_volume sha256 v o n (x ∷ p)) cs
                (some (c ++ take n (x ∷ p))) (drop n (x ∷ p)) sized room
                (fill_volume-Holds sha256 id cap shut v cs c (x ∷ p) n (omega arith)
                  (omega (arith, most)) h)
                (cost_fill fuel c (c ++ take n (x ∷ p)) x p (drop n (x ∷ p)) more
                  (omega (arith, length-drop n (x ∷ p), not_full c more most)) enough) in
            (
              v',
              cs',
              cur',
              ap (turn fuel v (x ∷ p)) opened
                  ∙ (turn_room fuel v (suc (length cs)) c (x ∷ p) h.capacity more ∙ is),
              h',
              all
                  ∙ (append_assoc (concat cs) (c ++ take n (x ∷ p)) (drop n (x ∷ p))
                      ∙ ap (λ s. concat cs ++ s)
                          (append_assoc c (take n (x ∷ p)) (drop n (x ∷ p))
                            ∙ ap (λ s. c ++ s) (take-append-drop n (x ∷ p)))
                      ∙ sym (append_assoc (concat cs) c (x ∷ p))),
            )
      ]

  pub write-Written :
      (v : VolumeWriter) (cs : List Bytes) (cur : Option Bytes) (p : Bytes)
      → length id ≡ volume_id_size
      → 0 < cap
      → Holds sha256 id cap shut v cs cur
      → Written (write sha256 v p) cs cur p
  unfolding write cost
  write-Written v cs none p sized room h =
      write_loop-Written (3 * length p) v cs none p sized room h (omega arith)
  write-Written v cs (some c) p sized room h =
      write_loop-Written (3 * length p) v cs (some c) p sized room h (ground arith)

  pub writes-Written :
      (v : VolumeWriter) (cs : List Bytes) (cur : Option Bytes) (ps : List Bytes)
      → length id ≡ volume_id_size
      → 0 < cap
      → Holds sha256 id cap shut v cs cur
      → Written (writes sha256 v ps) cs cur (concat ps)
  unfolding writes
  writes-Written v cs cur [] sized room h = (v, cs, cur, refl, h, sym (append-nil _))
  writes-Written v cs cur (p ∷ ps) sized room h =
      let (w, cs1, cur1, is, h1, all) = write-Written v cs cur p sized room h in
      let (end, cs2, cur2, is2, h2, all2) = writes-Written w cs1 cur1 ps sized room h1 in
      (
        end,
        cs2,
        cur2,
        ap (λ r. and_then sha256 r (λ w. writes sha256 w ps)) is ∙ is2,
        h2,
        all2
            ∙ ap (λ s. s ++ concat ps) all
            ∙ append_assoc (held sha256 id cap shut cs cur) p (concat ps),
      )

  -- Closing leaves the volumes that are full and a last one with the rest.
  abbrev pub Closed : VolumeWriter → Bytes → Type 0
  Closed v total =
      (cs : List Bytes) × (c : Bytes) × (v.finished
        ≡ volumes sha256 id 1 cs ++ volume sha256 id (suc (length cs)) true c ∷ [])
      × (concat cs ++ c ≡ total)
      × All (λ x. length x ≡ cap) cs
      × (length c ≤ cap)

  pub close_ready :
      (v : VolumeWriter) (cs : List Bytes) (c : Bytes)
      → length id ≡ volume_id_size
      → Holds sha256 id cap shut v cs (some c)
      → Closed (close_with sha256 v v.current) (concat cs ++ c)
  unfolding close_with
  close_ready v cs c sized h =
      let (opened, at, most) = h.stands in
      (
        cs,
        c,
        ap (λ o. (close_with sha256 v o).finished) opened
            ∙ finish_volume_lem sha256 id cap shut v cs c true sized h,
        refl,
        h.full,
        most,
      )
