-- ===== src/Attributes/Canonical.antt =====
-- What ParseAttributes accepts is exactly what AppendAttributes writes.
use sarc.Prelude.{
  ℕ, zero, suc, ◌%◌, ◌^◌, ◌<◌, ◌≡◌, refl, sym, ◌∙◌, subst, ap, Bool, true, false, Option, none,
  some, ◌⊎◌,
}
use sarc.Prelude.{
  List, [], ◌∷◌, ◌++◌, length, ltb, ◌!=◌, if◌then◌else◌, arith, append_assoc, append-nil,
  All-append,
}
use sarc.Prelude.{inl, inr}
use sarc.Prelude.Int.{to_i64, to_u64-to_i64, to_i64-IsI64}
use mathlib.Core.Path.{subst₂}
use sarc.Result
use sarc.Result.{
  Result, Error, malformed_attributes, ok, err, panic, fail_if, fail_if-eq-ok, >>=-eq-ok,
}
use sarc.Bytes.{Bytes, AreBytes}
use sarc.Bytes.LittleEndian.{le, from_le}
use sarc.Decode.{pure, on_bind, on_reject_if}
use sarc.Attributes.{Owner, Xattr, Attributes, validate, max_xattrs, max_xattrs_size}
use sarc.Attributes.{
  owner_flags, encode_owner, encode_xattr, encode_xattrs, encode_attributes, append_attributes,
  clear_low,
}
use sarc.Attributes.Decoder.{
  AttrDecoder, reader, bytes, fixed, parse_owner, parse_xattrs, xattr_turn, parse_fields, finish,
  parse_attributes,
}
use sarc.Attributes.Fields.{unless_fault_sound, bytes_sound, fixed_sound}
use sarc.Attributes.RoundTrip.{InRange, OwnerInRange}

-- `d` met no fault, and its bytes are `enc` before those of `t`; `P` is what the values satisfy.
pub record Read (d : AttrDecoder) (enc : Bytes) (t : AttrDecoder) (P : Type 0) : Type 0 where
  pub clean : d.fault ≡ none
  pub split : AreBytes d.b → (d.b ≡ enc ++ t.b) × AreBytes t.b × P

Read-trans :
    {d t u : AttrDecoder} {x y : Bytes} {P Q : Type 0}
    → Read d x t P
    → Read t y u Q
    → Read d (x ++ y) u (P × Q)
Read-trans {d} {t} {u} {x} {y} p q = record {
  clean = p.clean;
  split = λ h.
      let (e, ht, hp) = p.split h in
      let (e', hu, hq) = q.split ht in
      (e ∙ ap (λ r. x ++ r) e' ∙ sym (append_assoc x y u.b), hu, (hp, hq));
}

Read-map : {d t : AttrDecoder} {x : Bytes} {P Q : Type 0} → (P → Q) → Read d x t P → Read d x t Q
Read-map f p = record { clean = p.clean; split = λ h. let (e, ht, hp) = p.split h in (e, ht, f hp) }

-- What the values satisfy may say that `x` and `y` are the same bytes.
Read-recode :
    {d t : AttrDecoder} {x y : Bytes} {P : Type 0} → (P → x ≡ y) → Read d x t P → Read d y t P
Read-recode {d} {t} f p = record {
  clean = p.clean;
  split = λ h. let (e, ht, hp) = p.split h in (e ∙ ap (λ r. r ++ t.b) (f hp), ht, hp);
}

fixed-Read :
    (k : ℕ) (d t : AttrDecoder) (v : ℕ)
    → fixed k d ≡ ok (v, t)
    → t.fault ≡ none
    → Read d (le k v) t (v < 256 ^ k)
unfolding fixed
fixed-Read k d t v h clean =
    on_bind (bytes k) (λ y. pure (from_le y)) d h
      λ x u e e'.
        let same : u ≡ t = cc e' in
        let (clean', _, _) = bytes_sound k d u x e (cc (same, clean)) in
        record {
          clean = clean';
          split = λ hb. let (_, q, r, s) = fixed_sound k d t v hb h clean in (q, s, r);
        }

bytes-Read :
    (n : ℕ) (d t : AttrDecoder) (x : Bytes)
    → bytes n d ≡ ok (x, t)
    → t.fault ≡ none
    → Read d x t (length x ≡ n)
bytes-Read n d t x h clean =
    let (p, q, r) = bytes_sound n d t x h clean in
    record { clean = p; split = λ hb. (q, (All-append _ x t.b (subst AreBytes q hb)).1, r) }

parse_owner-Read :
    (b : Bool) (d t : AttrDecoder) (o : Option Owner)
    → parse_owner b d ≡ ok (o, t)
    → t.fault ≡ none
    → Read d (encode_owner o) t (OwnerInRange o × (owner_flags o ≡ (if b then 1 else 0)))
unfolding parse_owner encode_owner owner_flags
parse_owner-Read true d t o h clean = on_bind (fixed 4) _ d h λ uid u e h'.
    on_bind (fixed 4) _ u h' λ gid w e' h''.
      let last : w ≡ t = cc h'' in
      let value : some (record { uid = uid; gid = gid }) ≡ o = cc h'' in
      let p = fixed-Read 4 u w gid e' (cc (last, clean)) in
      let q = fixed-Read 4 d u uid e p.clean in
      subst₂ (λ z v. Read d (encode_owner z) v (OwnerInRange z × (owner_flags z ≡ 1))) value last
        (Read-map (λ r. (r, refl)) (Read-trans q p))
parse_owner-Read false d t o h clean =
    let last : d ≡ t = cc h in
    let value : none ≡ o = cc h in
    subst₂ (λ z v. Read d (encode_owner z) v (OwnerInRange z × (owner_flags z ≡ 0))) value last
      (record { clean = cc (last, clean); split = λ hb. (refl, hb, (tt, refl)) })

parse_xattrs-Read :
    (n : ℕ) (d t : AttrDecoder) (xs : List Xattr)
    → parse_xattrs n d ≡ ok (xs, t)
    → t.fault ≡ none
    → Read d (encode_xattrs xs) t (length xs ≡ n)
unfolding encode_xattrs encode_xattr parse_xattrs
parse_xattrs-Read zero d t xs h clean =
    let last : d ≡ t = cc h in
    let value : [] ≡ xs = cc h in
    subst₂ (λ z v. Read d (encode_xattrs z) v (length z ≡ 0)) value last
      (record { clean = cc (last, clean); split = λ hb. (refl, hb, refl) })
parse_xattrs-Read (suc n) d t xs h clean =
    let turn = unless_fault_sound [] (xattr_turn (parse_xattrs n)) d xs t h clean in
    on_bind (fixed 1) _ d turn λ name_len d1 e1 h1.
      on_bind (bytes name_len) _ d1 h1 λ name d2 e2 h2. on_bind (fixed 4) _ d2 h2 λ size d3 e3 h3.
        on_reject_if (ltb max_xattrs_size size) _ _ h3 λ _ h4.
          on_bind (bytes size) _ d3 h4 λ value d4 e4 h5.
            on_bind (parse_xattrs n) _ d4 h5 λ rest d5 e5 h6.
              let last : d5 ≡ t = cc h6 in
              let all : record { name = name; value = value } ∷ rest ≡ xs = cc h6 in
              let r5 = parse_xattrs-Read n d4 d5 rest e5 (cc (last, clean)) in
              let r4 = bytes-Read size d3 d4 value e4 r5.clean in
              let r3 = fixed-Read 4 d2 d3 size e3 r4.clean in
              let r2 = bytes-Read name_len d1 d2 name e2 r3.clean in
              let r1 = fixed-Read 1 d d1 name_len e1 r2.clean in
              subst₂ (λ z v. Read d (encode_xattrs z) v (length z ≡ suc n)) all last
                (Read-map (λ p. ap suc p.1.1.1.1)
                  (Read-recode (λ p. simp append_assoc (cc (p.1.0, p.1.1.1.0)))
                    (Read-trans r1 (Read-trans r2 (Read-trans r3 (Read-trans r4 r5))))))

-- `flags &^ 0x01 == 0` leaves 0 and 1, and `flags & 0x01` tells them apart.
flags_known : (f : ℕ) → clear_low f 1 != 0 ≡ false → f ≡ (if f % 2 != 0 then 1 else 0)
flags_known f h = ground arith

parse_fields-Read :
    (d t : AttrDecoder) (a : Attributes)
    → parse_fields d ≡ ok (a, t)
    → t.fault ≡ none
    → Read d (encode_attributes a) t (InRange a)
unfolding parse_fields encode_attributes
parse_fields-Read d t a h clean = on_bind (fixed 1) _ d h λ kind d1 e1 h1.
    on_bind (fixed 4) _ d1 h1 λ mode d2 e2 h2. on_bind (fixed 8) _ d2 h2 λ mod_time d3 e3 h3.
      on_bind (fixed 1) _ d3 h3 λ flags d4 e4 h4.
        on_reject_if (clear_low flags 1 != 0) _ _ h4 λ known h5.
          on_bind (parse_owner (flags % 2 != 0)) _ d4 h5 λ owner d5 e5 h6.
            on_bind (fixed 2) _ d5 h6 λ target_len d6 e6 h7.
              on_bind (bytes target_len) _ d6 h7 λ link_target d7 e7 h8.
                on_bind (fixed 2) _ d7 h8 λ count d8 e8 h9.
                  on_reject_if (ltb max_xattrs count) _ _ h9 λ _ h10.
                    on_bind (parse_xattrs count) _ d8 h10 λ xattrs d9 e9 h11.
                      let last : d9 ≡ t = cc h11 in
                      let all : record {
                        kind = kind;
                        mode = mode;
                        mod_time = to_i64 mod_time;
                        link_target = link_target;
                        owner = owner;
                        xattrs = xattrs;
                      }
                          ≡ a =
                        cc h11 in
                      let r9 = parse_xattrs-Read count d8 d9 xattrs e9 (cc (last, clean)) in
                      let r8 = fixed-Read 2 d7 d8 count e8 r9.clean in
                      let r7 = bytes-Read target_len d6 d7 link_target e7 r8.clean in
                      let r6 = fixed-Read 2 d5 d6 target_len e6 r7.clean in
                      let r5 = parse_owner-Read (flags % 2 != 0) d4 d5 owner e5 r6.clean in
                      let r4 = fixed-Read 1 d3 d4 flags e4 r5.clean in
                      let r3 = fixed-Read 8 d2 d3 mod_time e3 r4.clean in
                      let r2 = fixed-Read 4 d1 d2 mode e2 r3.clean in
                      let r1 = fixed-Read 1 d d1 kind e1 r2.clean in
                      let whole = Read-trans r1 (
                        Read-trans r2 (
                          Read-trans r3 (
                            Read-trans r4 (
                              Read-trans r5
                                (Read-trans r6 (Read-trans r7 (Read-trans r8 r9))))))) in
                      subst₂ (λ z v. Read d (encode_attributes z) v (InRange z)) all last
                        (Read-map
                          (λ p. record {
                            mode = p.1.0;
                            mod_time = to_i64-IsI64 mod_time;
                            owner = p.1.1.1.1.0.0;
                          })
                          (Read-recode
                            (λ p. cc (
                              to_u64-to_i64 mod_time p.1.1.0,
                              flags_known flags known,
                              p.1.1.1.1.0.1,
                              p.1.1.1.1.1.1.0,
                              p.1.1.1.1.1.1.1.1,
                            ))
                            whole))

finish_sound :
    (x : Attributes) (d : AttrDecoder) (a : Attributes)
    → finish x d ≡ ok a
    → (x ≡ a) × (d.fault ≡ none) × (d.b ≡ []) × (validate x ≡ ok tt)
unfolding finish
finish_sound x d a h = ground (arith, Unit_cases (validate x), nil_cases d.b)
  where
    Unit_cases : (m : Result (Unit {0})) → (m ≡ ok tt) ⊎ ((m ≡ ok tt) → ⊥)
    Unit_cases (ok tt) = inl refl
    Unit_cases (err e) = inr (λ p. cc)
    Unit_cases panic = inr (λ p. cc)

    nil_cases : (l : Bytes) → (l ≡ []) ⊎ (0 < length l)
    nil_cases [] = inl refl
    nil_cases (x ∷ l) = inr (omega arith)

-- Of bytes that ParseAttributes accepts, the result passes `validate`, lies in the ranges of its
-- Go types, and AppendAttributes encodes it to the very same bytes: no two byte strings decode to
-- the same attributes.
pub append-parse_attributes :
    (b : Bytes) (a : Attributes)
    → AreBytes b
    → parse_attributes b ≡ ok a
    → InRange a × (append_attributes [] a ≡ ok b)
unfolding parse_attributes append_attributes
append-parse_attributes b a hb h =
    let ((x, d), e, e') = >>=-eq-ok (parse_fields (reader b)) _ h in
    let (same, clean, done, checked) = finish_sound x d a e' in
    let (split, _, range) = (parse_fields-Read (reader b) d x e clean).split hb in
    let encoded : encode_attributes x ≡ b =
      sym (split ∙ ap (λ r. encode_attributes x ++ r) done ∙ append-nil _) in
    subst (λ z. InRange z × (Result.◌>>=◌ (validate z) (λ _. ok (encode_attributes z)) ≡ ok b)) same
      (range, rw checked (ap ok encoded))
