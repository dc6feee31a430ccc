-- ===== src/Context/Validation/Guid.antt =====
-- crates/voya-core/src/context/validation.rs: texts that look like a GUID.
use voya_vpn.Base.{
  ℕ, Bool, true, false, ◌&&◌, ◌||◌, List, [], ◌∷◌, ◌==◌, leb, if◌then◌else◌, length, all, Text,
  trim, split_at, utf8_bytes,
}
use mathlib.Core.List.{reverse}

abbrev is_ascii_hexdigit : ℕ → Bool
is_ascii_hexdigit c = (leb 48 c && leb c 57) || ((leb 65 c && leb c 70) || (leb 97 c && leb c 102))

-- `trim_start_matches` of two characters.
abbrev trim_start_of : ℕ → ℕ → Text → Text
trim_start_of a b [] = []
trim_start_of a b (c ∷ s) =
    let rest = trim_start_of a b s in if c == a || c == b then rest else c ∷ s

-- `len`, which counts bytes.
byte_length : Text → ℕ
unfolding utf8_bytes
byte_length s = length (utf8_bytes s)

has_shape : List ℕ → List Text → Bool
unfolding byte_length
has_shape [] [] = true
has_shape (n ∷ ns) (chunk ∷ chunks) =
    (byte_length chunk == n && all is_ascii_hexdigit chunk) && has_shape ns chunks
has_shape [] (chunk ∷ chunks) = false
has_shape (n ∷ ns) [] = false

unfoldable pub is_guid_like : Text → Bool
unfolding trim byte_length has_shape split_at
is_guid_like value =
    let bare = reverse (trim_start_of b'}' b')' (reverse (trim_start_of b'{' b'(' (trim value)))) in
    if byte_length bare == 32
    then all is_ascii_hexdigit bare
    else has_shape (8 ∷ 4 ∷ 4 ∷ 4 ∷ 12 ∷ []) (split_at b'-' [] bare)
