-- ===== src/Volume/RoundTrip.antt =====
-- Volume headers: what is written is read back, what is read is what was written, no panic.
use sarc.Prelude.{ℕ, ◌%◌, ◌^◌, ◌<◌}
use sarc.Prelude.{◌≡◌, refl, subst, ◌≢◌}
use sarc.Prelude.{Bool, true, false, ◌||◌, not}
use sarc.Prelude.{◌++◌, append-nil, arith}
use sarc.Prelude.{◌==◌, ◌!=◌}
use sarc.Prelude.{length, length-append}
use sarc.Bytes.{Bytes, AreBytes}
use sarc.Bytes.LittleEndian.{le, length-le}
use sarc.Bytes.LittleEndian.{read_le-le, read_le-le_end, read_le_then, on_read_le}
use sarc.Bytes.Slice.{cut-append_eq, cut_then, on_cut}
use sarc.Bytes.Slice.{has_prefix, has_prefix-append, has_prefix_sound, nil_of_length}
use sarc.Result.{ok, panic}
use sarc.Result.{on_fail_if, fail_if_then}
use sarc.Attributes.{clear_low}
use sarc.Volume.{VolumeHeader, volume_magic, volume_id_size, volume_header_size, marshal, last_flag}
use sarc.Volume.{is_volume_header, parse_volume_header}

-- The ranges of the Go types, and a header that CreateVolumes can write: volumes count from 1.
pub record InRange (h : VolumeHeader) : Type 0 where
  pub archive_id : length h.archive_id ≡ volume_id_size
  pub index : h.index < 2 ^ 32
  pub first : 0 < h.index
  pub payload_len : h.payload_len < 2 ^ 64

pub length-marshal :
    (h : VolumeHeader) → length h.archive_id ≡ 16 → length (marshal h) ≡ volume_header_size
unfolding marshal
length-marshal h e = simp (length-append, length-le) (omega arith)

last_flag_known :
    (b : Bool)
    → (last_flag b < 256)
      × ((clear_low (last_flag b) 1 != 0 || 0 != 0 || 0 != 0 || 0 != 0) ≡ false)
      × ((last_flag b % 2 != 0) ≡ b)
unfolding last_flag
last_flag_known true = (omega arith, refl, refl)
last_flag_known false = (omega arith, refl, refl)

magic_marshal : (h : VolumeHeader) → is_volume_header (marshal h) ≡ true
unfolding is_volume_header marshal
magic_marshal h = has_prefix-append volume_magic _

-- A volume header that fits its Go types and counts from 1 is read back from its 40 bytes.
pub parse_volume_header-marshal :
    (h : VolumeHeader) → InRange h → parse_volume_header (marshal h) ≡ ok h
unfolding parse_volume_header
parse_volume_header-marshal h r =
    let (flag, known, bit) = last_flag_known h.last in
    rw (length-marshal h r.archive_id, magic_marshal h)
      (unfold marshal in
        rw (cut-append_eq 8 volume_magic _ refl) (
          rw (cut-append_eq volume_id_size h.archive_id _ r.archive_id) (
            rw (read_le-le 4 h.index _ r.index) (
              rw (read_le-le 1 (last_flag h.last) _ flag) (
                rw (read_le-le 1 0 _ (omega arith)) (
                  rw (read_le-le 1 0 _ (omega arith)) (
                    rw (read_le-le 1 0 _ (omega arith)) (
                      rw known (
                        rw (read_le-le_end 8 h.payload_len r.payload_len)
                          (rw (le_ne_zero h.index r.first) (rw bit)))))))))))
  where
    le_ne_zero : (n : ℕ) → 0 < n → n == 0 ≡ false
    le_ne_zero n q = ground arith

-- What the flags byte and the reserved bytes of an accepted header are.
flags_known :
    (flags r1 r2 r3 : ℕ)
    → (clear_low flags 1 != 0 || r1 != 0 || r2 != 0 || r3 != 0) ≡ false
    → (flags ≡ last_flag (flags % 2 != 0)) × (r1 ≡ 0) × (r2 ≡ 0) × (r3 ≡ 0)
unfolding last_flag
flags_known flags r1 r2 r3 h = ground arith

not_zero : (n : ℕ) → n == 0 ≡ false → 0 < n
not_zero n h = ground arith

-- A byte string that is accepted as a volume header is the encoding of the header that it
-- decodes to, and that header fits its Go types and counts from 1.
pub marshal-parse_volume_header :
    (b : Bytes) (h : VolumeHeader)
    → AreBytes b
    → parse_volume_header b ≡ ok h
    → InRange h × (marshal h ≡ b)
unfolding parse_volume_header is_volume_header marshal
marshal-parse_volume_header b h hb e =
    on_fail_if (length b != volume_header_size || not (has_prefix volume_magic b)) _ _ e λ sized e0.
      let size : length b ≡ volume_header_size = ground arith in
      on_cut _ 8 b hb e0 λ magic b1 s1 l1 n1 h1 e1.
        on_cut _ volume_id_size b1 h1.1 e1 λ archive_id b2 s2 l2 n2 h2 e2.
          on_read_le _ 4 b2 h2.1 e2 λ index b3 s3 l3 n3 h3 e3.
            on_read_le _ 1 b3 h3 e3 λ flags b4 s4 l4 n4 h4 e4.
              on_read_le _ 1 b4 h4 e4 λ r1 b5 s5 l5 n5 h5 e5.
                on_read_le _ 1 b5 h5 e5 λ r2 b6 s6 l6 n6 h6 e6.
                  on_read_le _ 1 b6 h6 e6 λ r3 b7 s7 l7 n7 h7 e7.
                    on_fail_if (clear_low flags 1 != 0 || r1 != 0 || r2 != 0 || r3 != 0) _ _ e7
                      λ known e8. on_read_le _ 8 b7 h7 e8 λ payload_len b8 s8 l8 n8 h8 e9.
                        on_fail_if (index == 0) _ _ e9 λ first e10.
                          let (flag, z1, z2, z3) = flags_known flags r1 r2 r3 known in
                          let prefix : has_prefix volume_magic (magic ++ b1) ≡ true =
                            rw (← s1) (ground arith) in
                          let is_magic = has_prefix_sound volume_magic magic b1 prefix l1 in
                          let done = nil_of_length b8 (omega arith) in
                          let same : record {
                            archive_id = archive_id;
                            index = index;
                            last = flags % 2 != 0;
                            payload_len = payload_len;
                          }
                              ≡ h =
                            cc e10 in
                          subst (λ z. InRange z × (marshal z ≡ b)) same
                            (
                              record {
                                archive_id = l2;
                                index = l3;
                                first = not_zero index first;
                                payload_len = l8;
                              },
                              cc (
                                s1,
                                s2,
                                s3,
                                s4,
                                s5,
                                s6,
                                s7,
                                s8,
                                is_magic,
                                done,
                                flag,
                                z1,
                                z2,
                                z3,
                                append-nil (le 8 payload_len),
                              ),
                            )

-- ParseVolumeHeader never panics, whatever the bytes.
pub parse_volume_header-ne-panic : (b : Bytes) → parse_volume_header b ≢ panic
unfolding parse_volume_header
parse_volume_header-ne-panic b =
    fail_if_then (length b != volume_header_size || not (is_volume_header b)) _ _ λ sized.
      let size : length b ≡ 40 = ground arith in
      cut_then _ 8 b (omega arith) λ _ b1 _ n1.
        cut_then _ volume_id_size b1 (omega arith) λ _ b2 _ n2.
          read_le_then _ 4 b2 (omega arith) λ index b3 n3.
            read_le_then _ 1 b3 (omega arith) λ flags b4 n4.
              read_le_then _ 1 b4 (omega arith) λ r1 b5 n5.
                read_le_then _ 1 b5 (omega arith) λ r2 b6 n6.
                  read_le_then _ 1 b6 (omega arith) λ r3 b7 n7.
                    fail_if_then (clear_low flags 1 != 0 || r1 != 0 || r2 != 0 || r3 != 0) _ _ λ _.
                      read_le_then _ 8 b7 (omega arith)
                        λ _ b8 n8. fail_if_then (index == 0) _ _ λ _. λ p. cc
