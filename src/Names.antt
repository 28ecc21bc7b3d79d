-- ===== src/Names.antt =====
-- archive/names.go: which stored file names are safe.
pub mod Containment
use sarc.Prelude.{ℕ, zero, suc, ◌+◌, ◌<◌, ◌≤◌, ◌≡◌, refl, Bool, true, false, ◌&&◌, ◌||◌, not}
use sarc.Prelude.{List, [], ◌∷◌, length, ltb, ◌==◌, if◌then◌else◌, arith}
use sarc.Bytes.{Bytes}

-- `MaxEntryNameLen`
abbrev pub max_entry_name_len : ℕ
max_entry_name_len = 0xffff

-- strings.ContainsAny(name, "\x00\\")
pub has_forbidden : Bytes → Bool
has_forbidden [] = false
has_forbidden (c ∷ cs) = c == 0 || c == b'\\' || has_forbidden cs

abbrev push_first : ℕ → List Bytes → List Bytes
push_first c [] = (c ∷ []) ∷ []
push_first c (e ∷ es) = (c ∷ e) ∷ es

-- strings.Split(name, "/"): never empty
unfoldable pub split : Bytes → List Bytes
split [] = [] ∷ []
split (c ∷ cs) = let parts = split cs in if c == b'/' then [] ∷ parts else push_first c parts

pub is_dot : Bytes → Bool
is_dot (c ∷ []) = c == b'.'
is_dot _ = false

pub is_dot_dot : Bytes → Bool
is_dot_dot (c ∷ d ∷ []) = c == b'.' && d == b'.'
is_dot_dot _ = false

abbrev pub is_empty : Bytes → Bool
is_empty [] = true
is_empty (c ∷ cs) = false

pub bad_element : Bytes → Bool
unfolding is_dot is_dot_dot
bad_element elem = is_empty elem || is_dot elem || is_dot_dot elem

pub any_bad : List Bytes → Bool
any_bad [] = false
any_bad (e ∷ es) = bad_element e || any_bad es

-- `ValidEntryName`
unfoldable pub valid_entry_name : Bytes → Bool
unfolding has_forbidden split any_bad bad_element
valid_entry_name name =
    if is_empty name || ltb max_entry_name_len (length name) || has_forbidden name
    then false
    else not (any_bad (split name))
