-- ===== src/Metadata/Safety.antt =====
-- unmarshalMetadata never panics.
use sarc.Prelude.{◌+◌, ◌≤◌}
use sarc.Prelude.{◌≢◌, inl, inr}
use sarc.Prelude.{not}
use sarc.Prelude.{arith}
use sarc.Prelude.{ltb, ◌!=◌, Bool-cases, ltb→lt, ltb→le}
use sarc.Prelude.{length}
use sarc.Bytes.{Bytes}
use sarc.Bytes.LittleEndian.{read_le_then}
use sarc.Bytes.Slice.{cut_then}
use sarc.Result.{panic}
use sarc.Result.{>>=-ne-panic, fail_if_then, ok-ne-panic}
use sarc.Attributes.Safety.{parse_attributes-ne-panic}
use sarc.Attributes.Decoder.{parse_attributes}
use sarc.Metadata.{known_codec, read_codec, read_attributes, unmarshal_metadata}

read_codec-ne-panic : (b : Bytes) → read_codec b ≢ panic
unfolding read_codec
read_codec-ne-panic b = elim (Bool-cases (ltb 0 (length b))) [
  | inr none_left ↦ rw none_left (ok-ne-panic _)
  | inl left ↦ rw left (
      read_le_then _ 1 b (ltb→lt 0 (length b) left)
        λ c rest _. fail_if_then (not (known_codec c)) _ _ λ _. ok-ne-panic _)
]

read_attributes-ne-panic : (b : Bytes) → read_attributes b ≢ panic
unfolding read_attributes
read_attributes-ne-panic b = elim (Bool-cases (ltb 0 (length b))) [
  | inr none_left ↦ rw none_left (ok-ne-panic _)
  | inl left ↦ rw left (
      fail_if_then (ltb (length b) 4) _ _ λ long.
        read_le_then _ 4 b (ltb→le (length b) 4 long) λ n rest _.
          fail_if_then (n != length rest) _ _ λ _.
            >>=-ne-panic (parse_attributes rest) _ (parse_attributes-ne-panic rest)
              λ _ _. ok-ne-panic _)
]

-- unmarshalMetadata never panics, whatever the bytes: each index that it uses is in bounds.
pub unmarshal_metadata-ne-panic : (b : Bytes) → unmarshal_metadata b ≢ panic
unfolding unmarshal_metadata
unmarshal_metadata-ne-panic b = fail_if_then (ltb (length b) 2) _ _ λ two.
    read_le_then _ 2 b (ltb→le (length b) 2 two) λ fn_len b1 n1.
      fail_if_then (ltb (length b) (2 + fn_len + 1 + 32 + 4)) _ _ λ enough.
        let size : 2 + fn_len + 1 + 32 + 4 ≤ length b =
          ltb→le (length b) (2 + fn_len + 1 + 32 + 4) enough in
        cut_then _ fn_len b1 (omega arith) λ _ b2 _ n2. read_le_then _ 1 b2 (omega arith) λ _ b3 n3.
          cut_then _ 32 b3 (omega arith) λ _ b4 _ n4. read_le_then _ 4 b4 (omega arith) λ _ b5 n5.
            >>=-ne-panic (read_codec b5) _ (read_codec-ne-panic b5) λ (_, b6) _.
              >>=-ne-panic (read_attributes b6) _ (read_attributes-ne-panic b6) λ _ _. ok-ne-panic _
