-- ===== src/Solid/Safety.antt =====
-- ParseSolidStream ends on every input, with members or an error.
use sarc.Prelude.{ℕ, zero, suc, ◌+◌, ◌-◌, ◌≤◌}
use sarc.Prelude.{◌≡◌, ap, subst, ◌≢◌}
use sarc.Prelude.{◌||◌, not}
use sarc.Prelude.{List, [], ◌∷◌, arith}
use sarc.Prelude.{ltb, ltb→le}
use sarc.Prelude.{length}
use sarc.Bytes.{Bytes, AreBytes}
use sarc.Bytes.LittleEndian.{read_le_then, on_read_le}
use sarc.Bytes.Slice.{cut_then, on_cut}
use sarc.Result.{ok, panic}
use sarc.Result.{>>=-eq-ok, >>=-ne-panic, on_fail_if, fail_if_then, ok-ne-panic}
use sarc.Names.{valid_entry_name}
use sarc.Attributes.{max_attributes_size}
use sarc.Attributes.Safety.{parse_attributes-ne-panic}
use sarc.Solid.{
  SolidMember, member_attributes, parse_member, parse_members, some_members, parse_solid_stream,
}

member_attributes-ne-panic : (raw : Bytes) → member_attributes raw ≢ panic
unfolding member_attributes
member_attributes-ne-panic raw p = ground (arith, parse_attributes-ne-panic raw)

parse_member-ne-panic : (s : Bytes) → parse_member s ≢ panic
unfolding parse_member
parse_member-ne-panic s = fail_if_then (ltb (length s) 2) _ _ λ two.
    read_le_then _ 2 s (ltb→le (length s) 2 two) λ name_len s1 n1.
      fail_if_then (ltb (length s1) (name_len + 4 + 8)) _ _ λ header.
        let room : name_len + 4 + 8 ≤ length s1 = ltb→le (length s1) (name_len + 4 + 8) header in
        cut_then _ name_len s1 (omega arith) λ name s2 _ n2.
          fail_if_then (not (valid_entry_name name)) _ _ λ _.
            read_le_then _ 4 s2 (omega arith) λ attrs_len s3 n3.
              fail_if_then (ltb max_attributes_size attrs_len || ltb (length s3 - 8) attrs_len) _ _
                λ fits.
                  let inside : attrs_len ≤ length s3 - 8 = ground arith in
                  cut_then _ attrs_len s3 (omega arith) λ raw s4 _ n4.
                    >>=-ne-panic (member_attributes raw) _ (member_attributes-ne-panic raw) λ _ _.
                      read_le_then _ 8 s4 (omega arith) λ data_len s5 n5.
                        fail_if_then (ltb (length s5) data_len) _ _ λ whole.
                          cut_then _ data_len s5 (ltb→le (length s5) data_len whole)
                            λ _ rest _ _. ok-ne-panic _

-- A turn of the loop takes at least the 14 bytes of a record's fixed part.
pub length-parse_member :
    (s : Bytes) (m : SolidMember) (rest : Bytes)
    → AreBytes s
    → parse_member s ≡ ok (m, rest)
    → (length rest + 14 ≤ length s) × AreBytes rest
unfolding parse_member
length-parse_member s m rest hb h = on_fail_if (ltb (length s) 2) _ _ h λ _ e0.
    on_read_le _ 2 s hb e0 λ name_len s1 _ _ n1 h1 e1.
      on_fail_if (ltb (length s1) (name_len + 4 + 8)) _ _ e1 λ _ e2.
        on_cut _ name_len s1 h1 e2 λ name s2 _ _ n2 h2 e3.
          on_fail_if (not (valid_entry_name name)) _ _ e3 λ _ e4.
            on_read_le _ 4 s2 h2.1 e4 λ attrs_len s3 _ _ n3 h3 e5.
              on_fail_if (ltb max_attributes_size attrs_len || ltb (length s3 - 8) attrs_len) _ _ e5
                λ _ e6. on_cut _ attrs_len s3 h3 e6 λ raw s4 _ _ n4 h4 e7.
                  let (a, _, e8) = >>=-eq-ok (member_attributes raw) _ e7 in
                  on_read_le _ 8 s4 h4.1 e8 λ data_len s5 _ _ n5 h5 e9.
                    on_fail_if (ltb (length s5) data_len) _ _ e9 λ _ e10.
                      on_cut _ data_len s5 h5 e10 λ contents s6 _ _ n6 h6 e11.
                        let same : s6 ≡ rest = cc e11 in
                        (omega (arith, ap (length {A = ℕ}) same), subst AreBytes same h6.1)

parse_members-ne-panic :
    (fuel : ℕ) (s : Bytes) → AreBytes s → length s ≤ fuel → parse_members fuel s ≢ panic
unfolding parse_members
parse_members-ne-panic fuel [] hb h = ok-ne-panic []
parse_members-ne-panic zero (x ∷ s) hb h = absurd (omega arith)
parse_members-ne-panic (suc fuel) (x ∷ s) hb h =
    >>=-ne-panic (parse_member (x ∷ s)) _ (parse_member-ne-panic (x ∷ s)) λ (m, rest) e.
      let (shorter, hr) = length-parse_member (x ∷ s) m rest hb e in
      >>=-ne-panic (parse_members fuel rest) _ (parse_members-ne-panic fuel rest hr (omega arith))
        λ _ _. ok-ne-panic _

some_members-ne-panic : (ms : List SolidMember) → some_members ms ≢ panic
unfolding some_members
some_members-ne-panic [] = λ p. cc
some_members-ne-panic (m ∷ ms) = λ p. cc

-- ParseSolidStream never panics and its loop ends within the stream's length.
pub parse_solid_stream-ne-panic : (s : Bytes) → AreBytes s → parse_solid_stream s ≢ panic
unfolding parse_solid_stream
parse_solid_stream-ne-panic s hb =
    >>=-ne-panic (parse_members (length s) s) _
      (parse_members-ne-panic (length s) s hb (omega arith)) λ ms _. some_members-ne-panic ms
