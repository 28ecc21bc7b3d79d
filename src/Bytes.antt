-- ===== src/Bytes.antt =====
-- Byte strings and slices, and the parts of encoding/binary that the archive format uses.
pub mod LittleEndian
pub mod Slice
pub mod Varint
use sarc.Prelude.{ℕ, ◌<◌, List, [], ◌∷◌, ◌++◌, All}

abbrev pub Bytes : Type 0
Bytes = List ℕ

abbrev pub IsByte : ℕ → Type 0
IsByte b = b < 256

abbrev pub AreBytes : Bytes → Type 0
AreBytes b = All IsByte b

-- the bytes of some pieces, in order
abbrev pub concat : List Bytes → Bytes
concat [] = []
concat (p ∷ ps) = p ++ concat ps
