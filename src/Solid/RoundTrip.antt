-- ===== src/Solid/RoundTrip.antt =====
-- ParseSolidStream reads back the records that AppendSolidRecord wrote.
use sarc.Prelude.{ℕ, zero, suc, ◌+◌, ◌-◌, ◌^◌, ◌≤◌, ◌<◌}
use sarc.Prelude.{◌≡◌, refl, ◌∙◌}
use sarc.Prelude.{true, not}
use sarc.Prelude.{List, [], ◌∷◌, ◌++◌, append-nil, append_assoc, arith}
use sarc.Prelude.{◌!=◌, le→ltb}
use sarc.Prelude.{length, All, length-append}
use sarc.Bytes.{Bytes}
use sarc.Bytes.LittleEndian.{le, length-le}
use sarc.Bytes.LittleEndian.{read_le-le}
use sarc.Bytes.Slice.{cut-append_eq}
use sarc.Result.{ok, ◌>>=◌}
use sarc.Result.{>>=-eq-ok, on_fail_if}
use sarc.Names.{split, valid_entry_name}
use sarc.Names.Containment.{valid_entry_name-contained}
use sarc.Attributes.{Attributes, append_attributes, kind_regular, max_attributes_size}
use sarc.Attributes.RoundTrip as AttributesRoundTrip
use sarc.Attributes.RoundTrip.{parse_attributes-append}
use sarc.Attributes.Size.{append_attributes-size}
use sarc.Solid.{
  SolidMember, encode_record, append_solid_record, append_members, member_attributes, parse_member,
  parse_members, some_members, parse_solid_stream, solid_record_size,
}

-- The ranges of the Go types: attribute fields, and data no longer than a 64-bit length.
pub record InRange (m : SolidMember) : Type 0 where
  pub attributes : AttributesRoundTrip.InRange m.attributes
  pub contents : length m.contents < 2 ^ 64

abbrev pub Record : SolidMember → Bytes → Type 0
Record m enc =
    (attrs : Bytes) × (append_attributes [] m.attributes ≡ ok attrs)
    × (valid_entry_name m.name ≡ true)
    × (m.attributes.kind ≡ kind_regular)
    × (enc ≡ encode_record m attrs)

pub append_solid_record_sound :
    (dst out : Bytes) (m : SolidMember)
    → append_solid_record dst m ≡ ok out
    → (enc : Bytes) × (out ≡ dst ++ enc) × Record m enc
unfolding append_solid_record
append_solid_record_sound dst out m h = on_fail_if (not (valid_entry_name m.name)) _ _ h λ valid h1.
    on_fail_if (m.attributes.kind != kind_regular) _ _ h1 λ regular h2.
      let (attrs, e, e') = >>=-eq-ok (append_attributes [] m.attributes) _ h2 in
      (encode_record m attrs, cc e', (attrs, e, ground arith, ground arith, refl))

member_attributes-append :
    (a : Attributes) (attrs : Bytes)
    → AttributesRoundTrip.InRange a
    → append_attributes [] a ≡ ok attrs
    → a.kind ≡ kind_regular
    → member_attributes attrs ≡ ok a
unfolding member_attributes
member_attributes-append a attrs r e k =
    rw (parse_attributes-append a attrs r e, member_attributes) (ground arith)

-- One record is read back, whatever follows it.
pub parse_member-Record :
    (m : SolidMember) (enc rest : Bytes)
    → InRange m
    → Record m enc
    → parse_member (enc ++ rest) ≡ ok (m, rest)
unfolding parse_member
parse_member-Record m enc rest r (attrs, e, valid, regular, is) =
    let (short, _, _, _) = valid_entry_name-contained m.name [] [] (split m.name) valid refl in
    let small = append_attributes-size [] attrs m.attributes e in
    let t5 : Bytes = m.contents ++ rest in
    let t4 : Bytes = le 8 (length m.contents) ++ t5 in
    let t3 : Bytes = attrs ++ t4 in
    let t2 : Bytes = le 4 (length attrs) ++ t3 in
    let t1 : Bytes = m.name ++ t2 in
    let n5 : length t5 ≡ length m.contents + length rest = length-append m.contents rest in
    let n4 : length t4 ≡ 8 + length t5 = simp (length-append, length-le) in
    let n3 : length t3 ≡ length attrs + length t4 = length-append attrs t4 in
    let n2 : length t2 ≡ 4 + length t3 = simp (length-append, length-le) in
    let n1 : length t1 ≡ length m.name + length t2 = length-append m.name t2 in
    let n0 : length (le 2 (length m.name) ++ t1) ≡ 2 + length t1 =
      simp (length-append, length-le) in
    let layout : enc ++ rest ≡ le 2 (length m.name) ++ t1 =
      rw is (unfold encode_record in simp append_assoc) in
    rw layout (
      rw (le→ltb (length (le 2 (length m.name) ++ t1)) 2 (omega (arith, n0))) (
        rw (read_le-le 2 (length m.name) t1 (omega (arith, short))) (
          rw (le→ltb (length t1) (length m.name + 4 + 8) (omega (arith, n1, n2, n3, n4))) (
            rw (cut-append_eq (length m.name) m.name t2 refl) (
              rw valid (
                rw (read_le-le 4 (length attrs) t3 (omega (arith, small))) (
                  rw
                    (
                      le→ltb max_attributes_size (length attrs) small,
                      le→ltb (length t3 - 8) (length attrs) (omega (arith, n3, n4)),
                    )
                    (rw (cut-append_eq (length attrs) attrs t4 refl) (
                      rw (member_attributes-append m.attributes attrs r.attributes e regular) (
                        rw (read_le-le 8 (length m.contents) t5 r.contents) (
                          rw (le→ltb (length t5) (length m.contents) (omega (arith, n5)))
                            (rw (cut-append_eq (length m.contents) m.contents rest refl)))))))))))))

-- Records one after the other.
data Records : List SolidMember → Bytes → Type 0 where
  end : Records [] []
  record_of :
      {m : SolidMember} {ms : List SolidMember} {enc rest : Bytes}
      → InRange m
      → Record m enc
      → Records ms rest
      → Records (m ∷ ms) (enc ++ rest)

length-Record : (m : SolidMember) (enc : Bytes) → Record m enc → 14 ≤ length enc
length-Record m enc (attrs, e, valid, regular, is) =
    rw is (unfold encode_record in simp (length-append, length-le) (omega arith))

parse_members_turn :
    (fuel : ℕ) (s rest : Bytes) (m : SolidMember)
    → 0 < length s
    → parse_member s ≡ ok (m, rest)
    → parse_members (suc fuel) s ≡ (parse_members fuel rest >>= λ ms. ok (m ∷ ms))
unfolding parse_members
parse_members_turn fuel [] rest m h e = absurd (omega arith)
parse_members_turn fuel (x ∷ s) rest m h e = rw e

parse_members-Records :
    (fuel : ℕ) (ms : List SolidMember) (s : Bytes)
    → Records ms s
    → length s ≤ fuel
    → parse_members fuel s ≡ ok ms
parse_members-Records fuel [] s end h = unfold parse_members in refl
parse_members-Records zero (m ∷ ms) s (record_of {enc = enc} {rest = rest} r is others) h =
    absurd (omega (arith, length-Record m enc is, length-append enc rest))
parse_members-Records (suc fuel) (m ∷ ms) s (record_of {enc = enc} {rest = rest} r is others) h =
    let long = length-Record m enc is in
    let size = length-append enc rest in
    parse_members_turn fuel (enc ++ rest) rest m (omega arith) (parse_member-Record m enc rest r is)
    ∙ rw (parse_members-Records fuel ms rest others (omega arith))

append_members-Records :
    (dst out : Bytes) (ms : List SolidMember)
    → All InRange ms
    → append_members dst ms ≡ ok out
    → (s : Bytes) × (out ≡ dst ++ s) × Records ms s
unfolding append_members
append_members-Records dst out [] r h = ([], cc (h, append-nil dst), end)
append_members-Records dst out (m ∷ ms) (r, rs) h =
    let (next, e, e') = >>=-eq-ok (append_solid_record dst m) _ h in
    let (enc, split, is) = append_solid_record_sound dst next m e in
    let (s, split', others) = append_members-Records next out ms rs e' in
    (enc ++ s, cc (split, split', append_assoc dst enc s), record_of r is others)

-- Members whose attributes and data fit their Go types, appended one by one to an empty stream
-- with no error, are exactly what ParseSolidStream decodes from that stream, if there is one.
pub parse_solid_stream-append :
    (m : SolidMember) (ms : List SolidMember) (stream : Bytes)
    → All InRange (m ∷ ms)
    → append_members [] (m ∷ ms) ≡ ok stream
    → parse_solid_stream stream ≡ ok (m ∷ ms)
unfolding parse_solid_stream some_members
parse_solid_stream-append m ms stream r h =
    let (s, split, records) = append_members-Records [] stream (m ∷ ms) r h in
    rw split (rw (parse_members-Records (length s) (m ∷ ms) s records (omega arith)))

-- A record takes the bytes that SolidRecordSize counts for it.
pub append_solid_record-size :
    (dst out attrs : Bytes) (m : SolidMember)
    → append_attributes [] m.attributes ≡ ok attrs
    → append_solid_record dst m ≡ ok out
    → length out ≡ length dst + solid_record_size (length m.name) (length attrs) (length m.contents)
append_solid_record-size dst out attrs m ea h =
    let (enc, split, (attrs', e, _, _, is)) = append_solid_record_sound dst out m h in
    let same : attrs' ≡ attrs = cc (e, ea) in
    let size : length (encode_record m attrs)
        ≡ solid_record_size (length m.name) (length attrs) (length m.contents) =
      unfold encode_record solid_record_size in simp (length-append, length-le) (omega arith) in
    rw (split, is, same) (rw length-append (omega (arith, size)))
