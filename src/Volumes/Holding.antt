-- ===== src/Volumes/Holding.antt =====
-- What a VolumeWriter holds, and that opening, filling and finishing a volume keep it.
use sarc.Prelude.{
  ℕ, suc, ◌+◌, ◌%◌, ◌^◌, ◌≤◌, ◌≡◌, refl, sym, ap, ◌∙◌, Bool, false, Option, none, some, List, [],
  ◌∷◌, ◌++◌, append-nil, append_assoc, All, append-All, arith,
}
use sarc.Prelude.{length, take, drop, length-append, length-take}
use sarc.Bytes.{Bytes, concat}
use sarc.Bytes.Slice.{drop-append_eq}
use sarc.Volume.{VolumeHeader, marshal, volume_id_size}
use sarc.Volume.RoundTrip.{length-marshal}
use sarc.Volumes.{OpenVolume, VolumeWriter, header_of, open_volume, finish_volume, fill_volume}

-- A volume as archive/volume.go lays it out: header, payload, checksum.
abbrev pub volume_header : Bytes → ℕ → Bool → Bytes → VolumeHeader
volume_header id index last payload = record {
  archive_id = id;
  index = index % 2 ^ 32;
  last = last;
  payload_len = length payload;
}

unfoldable pub volume : (Bytes → Bytes) → Bytes → ℕ → Bool → Bytes → Bytes
volume sha256 id index last payload =
    let header = marshal (volume_header id index last payload) in
    (header ++ payload) ++ sha256 (payload ++ header)

-- volumes that are not the last, numbered from `index`
unfoldable pub volumes : (Bytes → Bytes) → Bytes → ℕ → List Bytes → List Bytes
volumes sha256 id index [] = []
volumes sha256 id index (c ∷ cs) = volume sha256 id index false c ∷ volumes sha256 id (index + 1) cs

-- `shut` is whether the writer is closed.
module _ (sha256 : Bytes → Bytes) (id : Bytes) (cap : ℕ) (shut : Bool) where
  pub volumes-append :
      (index : ℕ) (cs : List Bytes) (c : Bytes)
      → volumes sha256 id index (cs ++ c ∷ [])
        ≡ volumes sha256 id index cs ++ volume sha256 id (index + length cs) false c ∷ []
  unfolding volumes
  volumes-append index [] c = ap (λ n. volume sha256 id n false c ∷ []) (omega arith)
  volumes-append index (d ∷ cs) c =
      ap (λ r. volume sha256 id index false d ∷ r)
        (volumes-append (index + 1) cs c
          ∙ ap (λ n. volumes sha256 id (index + 1) cs ++ volume sha256 id n false c ∷ [])
              (omega arith))

  -- The open volume that has `c` so far, in a writer that stands at `index`.
  abbrev pub open_of : ℕ → Bytes → OpenVolume
  open_of index c = record {
    f =
        marshal
          (record { archive_id = id; index = index % 2 ^ 32; last = false; payload_len = cap })
        ++ c;
    written = length c;
    sum = c;
  }

  abbrev pub header_of_cap : ℕ → VolumeHeader
  header_of_cap index = record {
    archive_id = id;
    index = index % 2 ^ 32;
    last = false;
    payload_len = cap;
  }

  abbrev pub Stands : VolumeWriter → List Bytes → Option Bytes → Type 0
  Stands v cs none = (v.current ≡ none) × (v.index ≡ length cs)
  Stands v cs (some c) =
      (v.current ≡ some (open_of (suc (length cs)) c))
      × (v.index ≡ suc (length cs))
      × (length c ≤ cap)

  -- The finished volumes hold `cs`, each full, and the open one, if there is one, holds `cur`.
  pub record Holds (v : VolumeWriter) (cs : List Bytes) (cur : Option Bytes) : Type 0 where
    pub capacity : v.capacity ≡ cap
    pub named : v.id ≡ id
    pub is_closed : v.closed ≡ shut
    pub full : All (λ c. length c ≡ cap) cs
    pub finished : v.finished ≡ volumes sha256 id 1 cs
    pub stands : Stands v cs cur

  abbrev pub held : List Bytes → Option Bytes → Bytes
  held cs none = concat cs
  held cs (some c) = concat cs ++ c

  pub header_eq :
      (a b : Bytes) (i j m n : ℕ) (last : Bool)
      → a ≡ b
      → i ≡ j
      → m ≡ n
      → ◌≡◌ {A = VolumeHeader}
          (record { archive_id = a; index = i % 2 ^ 32; last = last; payload_len = m })
          (record { archive_id = b; index = j % 2 ^ 32; last = last; payload_len = n })
  header_eq a b i j m n last ea ei em = cc (ea, ei, em)

  pub open_volume-Holds :
      (v : VolumeWriter) (cs : List Bytes) → Holds v cs none → Holds (open_volume v) cs (some [])
  unfolding open_volume
  open_volume-Holds v cs h =
      let (closed, at) = h.stands in
      let index : v.index + 1 ≡ suc (length cs) = omega (arith, at) in
      record {
        capacity = h.capacity;
        named = h.named;
        is_closed = h.is_closed;
        full = h.full;
        finished = h.finished;
        stands = (
          ap (λ (x : Bytes). some (record { f = x; written = 0; sum = [] }))
              (ap marshal (
                  header_eq v.id id (v.index + 1) (suc (length cs)) v.capacity cap false h.named
                    index h.capacity)
                ∙ sym (append-nil _)),
          index,
          omega arith,
        );
      }

  -- Finishing the open volume writes its header over the one that it was opened with.
  pub finish_volume_lem :
      (v : VolumeWriter) (cs : List Bytes) (c : Bytes) (last : Bool)
      → length id ≡ volume_id_size
      → Holds v cs (some c)
      → (finish_volume sha256 v (open_of (suc (length cs)) c) last).finished
        ≡ volumes sha256 id 1 cs ++ volume sha256 id (suc (length cs)) last c ∷ []
  unfolding finish_volume volume
  finish_volume_lem v cs c last sized h =
      let (_, at, _) = h.stands in
      let header = marshal (volume_header id (suc (length cs)) last c) in
      let opening = marshal (header_of_cap (suc (length cs))) in
      let is : marshal (header_of v last (length c)) ≡ header =
        ap marshal (
          header_eq v.id id v.index (suc (length cs)) (length c) (length c) last h.named at refl) in
      let same : length opening ≡ length header =
        length-marshal (header_of_cap (suc (length cs))) sized
        ∙ sym (length-marshal (volume_header id (suc (length cs)) last c) sized) in
      ap
        (λ fs.
          fs
          ++ ((marshal (header_of v last (length c))
                ++ drop (length (marshal (header_of v last (length c)))) (opening ++ c))
              ++ sha256 (c ++ marshal (header_of v last (length c))))
            ∷ [])
        h.finished
      ∙ ap
          (λ x.
            volumes sha256 id 1 cs
            ++ ((x ++ drop (length x) (opening ++ c)) ++ sha256 (c ++ x)) ∷ [])
          is
      ∙ ap (λ x. volumes sha256 id 1 cs ++ ((header ++ x) ++ sha256 (c ++ header)) ∷ [])
          (drop-append_eq (length header) opening c same)

  pub finish_volume-Holds :
      (v : VolumeWriter) (cs : List Bytes) (c : Bytes)
      → length id ≡ volume_id_size
      → length c ≡ cap
      → Holds v cs (some c)
      → Holds (finish_volume sha256 v (open_of (suc (length cs)) c) false) (cs ++ c ∷ []) none
  finish_volume-Holds v cs c sized filled h =
      let (_, at, _) = h.stands in
      record {
        capacity = unfold finish_volume in h.capacity;
        named = unfold finish_volume in h.named;
        is_closed = unfold finish_volume in h.is_closed;
        full = append-All (λ c. length c ≡ cap) cs (c ∷ []) h.full (filled, tt);
        finished =
            finish_volume_lem v cs c false sized h
            ∙ ap (λ n. volumes sha256 id 1 cs ++ volume sha256 id n false c ∷ []) (omega arith)
            ∙ sym (volumes-append 1 cs c);
        stands = unfold finish_volume in (refl, omega (arith, at, length-append cs (c ∷ [])));
      }

  pub fill_volume-Holds :
      (v : VolumeWriter) (cs : List Bytes) (c p : Bytes) (n : ℕ)
      → n ≤ length p
      → length c + n ≤ cap
      → Holds v cs (some c)
      → Holds (fill_volume sha256 v (open_of (suc (length cs)) c) n p) cs (some (c ++ take n p))
  unfolding fill_volume
  fill_volume-Holds v cs c p n inside room h =
      let (_, at, _) = h.stands in
      let size : length (c ++ take n p) ≡ length c + n =
        omega (arith, length-append c (take n p), length-take n p inside) in
      record {
        capacity = h.capacity;
        named = h.named;
        is_closed = h.is_closed;
        full = h.full;
        finished = h.finished;
        stands = (
          ap (λ (x : OpenVolume). some x) (filled c (take n p) n size),
          at,
          omega (arith, size, room),
        );
      }
    where
      filled :
          (c t : Bytes) (n : ℕ)
          → length (c ++ t) ≡ length c + n
          → ◌≡◌ {A = OpenVolume}
              (record {
                f = (open_of (suc (length cs)) c).f ++ t;
                written = length c + n;
                sum = c ++ t;
              })
              (open_of (suc (length cs)) (c ++ t))
      filled c t n e = cc (e, append_assoc (marshal (header_of_cap (suc (length cs)))) c t)
