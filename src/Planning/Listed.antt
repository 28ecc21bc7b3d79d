-- ===== src/Planning/Listed.antt =====
-- What a listing shows of the members of a solid group.
use sarc.Prelude.{ℕ, ◌≡◌, refl, true, none, List, [], ◌∷◌, length}
use sarc.Prelude.Int.{pos}
use sarc.Solid.{SolidMember}
use sarc.Extractor.Listing.{ListResult, codec_name, with_attributes, list_member, list_members}

-- What a listing shows of a member of a group that was packed with this codec.
pub record IsListed (codec : ℕ) (m : SolidMember) (l : ListResult) : Type 0 where
  pub filename : l.filename ≡ m.name
  pub original_bytes : l.original_bytes ≡ pos (length m.contents)
  pub solid : l.solid ≡ true
  pub codec_is : l.codec ≡ codec_name codec
  pub kind : l.kind ≡ m.attributes.kind
  pub mode : l.mode ≡ m.attributes.mode
  pub link_target : l.link_target ≡ m.attributes.link_target
  pub mod_time : l.mod_time ≡ m.attributes.mod_time
  pub succeeded : l.err ≡ none

-- One listing for each member, in their order.
pub data AreListed (codec : ℕ) : List SolidMember → List ListResult → Type 0 where
  listed_none : AreListed codec [] []
  listed_next :
      {m : SolidMember} {ms : List SolidMember} {l : ListResult} {ls : List ListResult}
      → IsListed codec m l
      → AreListed codec ms ls
      → AreListed codec (m ∷ ms) (l ∷ ls)

pub list_members-AreListed :
    (codec stored size : ℕ) (ms : List SolidMember)
    → AreListed codec ms (list_members codec stored size ms)
unfolding list_members list_member with_attributes
list_members-AreListed codec stored size [] = listed_none
list_members-AreListed codec stored size (m ∷ ms) =
    listed_next
      (record {
        filename = refl;
        original_bytes = refl;
        solid = refl;
        codec_is = refl;
        kind = refl;
        mode = refl;
        link_target = refl;
        mod_time = refl;
        succeeded = refl;
      })
      (list_members-AreListed codec stored size ms)
