-- ===== src/Base/Texts.antt =====
-- Texts as lists of code points, with the methods of Rust's `str` that the program calls.
use Prim.Native.Char.{code}
use Prim.Native.Nat.{ℕ, zero, suc, ◌+◌, ◌-◌, ◌*◌, ◌/◌, ◌%◌, ◌≤◌}
use Prim.Native.String.{String}
use mathlib.Core.Path.{◌≡◌, refl}
use mathlib.Core.Logic.{◌≢◌}
use mathlib.Core.Bool.{Bool, true, false, not, ◌&&◌, ◌||◌}
use mathlib.Core.List.{List, [], ◌∷◌, ◌++◌, reverse, map}
use mathlib.Core.Option.{Option, none, some}
use native.Mathlib.Omega.{arith}
use voya_vpn.Base.Tests.{ltb, leb, ◌==◌, if◌then◌else◌}

abbrev pub Text : Type 0
Text = List ℕ

-- The code points of a literal.
abbrev pub codes : String → Text
codes String.[] = []
codes (String.◌∷◌ c s) = code c ∷ codes s

abbrev pub text_eq : Text → Text → Bool
text_eq [] [] = true
text_eq (a ∷ s) (b ∷ t) = a == b && text_eq s t
text_eq [] (b ∷ t) = false
text_eq (a ∷ s) [] = false

pub text_eq_refl : (s : Text) → text_eq s s ≡ true
text_eq_refl [] = refl
text_eq_refl (a ∷ s) = ground (arith, text_eq_refl s)

pub eq_of_text_eq : (s t : Text) → text_eq s t ≡ true → s ≡ t
eq_of_text_eq [] [] h = refl
eq_of_text_eq (a ∷ s) (b ∷ t) h = ground (arith, eq_of_text_eq s t)
eq_of_text_eq [] (b ∷ t) h = cc
eq_of_text_eq (a ∷ s) [] h = cc

abbrev pub is_empty : Text → Bool
is_empty [] = true
is_empty (c ∷ s) = false

-- Unicode's White_Space.
unfoldable pub is_whitespace : ℕ → Bool
is_whitespace c =
    (leb 9 c && leb c 13)
    || (c == 0x20
        || (c == 0x85
            || (c == 0xA0
                || (c == 0x1680
                    || ((leb 0x2000 c && leb c 0x200A)
                        || (c == 0x2028
                            || (c == 0x2029 || (c == 0x202F || (c == 0x205F || c == 0x3000)))))))))

unfoldable pub trim_start : Text → Text
unfolding is_whitespace
trim_start [] = []
trim_start (c ∷ s) = if is_whitespace c then trim_start s else c ∷ s

unfoldable pub trim : Text → Text
unfolding trim_start
trim s = reverse (trim_start (reverse (trim_start s)))

unfoldable pub to_ascii_lowercase : Text → Text
to_ascii_lowercase = map λ c. if leb 65 c && leb c 90 then c + 32 else c

-- `split_once` at a character: before and after its first place.
unfoldable pub split_once : ℕ → Text → Option (Text × Text)
split_once d [] = none
split_once d (c ∷ s) =
    let rest = split_once d s in
    if c == d then some ([], s) else elim rest [ none ↦ none | some (a, b) ↦ some (c ∷ a, b) ]

-- `rsplit_once`: before and after its last place.
unfoldable pub rsplit_once : ℕ → Text → Option (Text × Text)
rsplit_once d [] = none
rsplit_once d (c ∷ s) = elim (rsplit_once d s) [
  | none ↦ if c == d then some ([], s) else none
  | some (a, b) ↦ some (c ∷ a, b)
]

-- Decimal digits, from an accumulator on.
unfoldable pub parse_digits : ℕ → Text → Option ℕ
parse_digits acc [] = some acc
parse_digits acc (c ∷ s) =
    let rest = parse_digits (acc * 10 + (c - 48)) s in if leb 48 c && leb c 57 then rest else none

abbrev unsigned_digits : Text → Text
unsigned_digits [] = []
unsigned_digits (c ∷ s) = if c == 43 then s else c ∷ s

-- `str::parse::<u16>`: an optional plus sign and at least one digit, at most 65535.
unfoldable pub parse_u16 : Text → Option ℕ
unfolding parse_digits
parse_u16 s =
    let digits = unsigned_digits s in
    if is_empty digits then none else elim (parse_digits 0 digits) [
      | none ↦ none
      | some n ↦ if leb n 65535 then some n else none
    ]

-- The UTF-8 bytes of a character and of a text.
abbrev char_bytes : ℕ → List ℕ
char_bytes c =
    if ltb c 0x80
    then c ∷ []
    else if ltb c 0x800
    then (0xC0 + c / 64) ∷ (0x80 + c % 64) ∷ []
    else if ltb c 0x10000
    then (0xE0 + c / 4096) ∷ (0x80 + c / 64 % 64) ∷ (0x80 + c % 64) ∷ []
    else (0xF0 + c / 262144) ∷ (0x80 + c / 4096 % 64) ∷ (0x80 + c / 64 % 64) ∷ (0x80 + c % 64) ∷ []

unfoldable pub utf8_bytes : Text → List ℕ
utf8_bytes [] = []
utf8_bytes (c ∷ s) = char_bytes c ++ utf8_bytes s

-- The character does not occur.
abbrev pub Free : ℕ → Text → Type 0
Free d [] = Unit
Free d (c ∷ s) = (c ≢ d) × Free d s

abbrev pub is_free : ℕ → Text → Bool
is_free d [] = true
is_free d (c ∷ s) = not (c == d) && is_free d s

pub Free-of_is_free : (d : ℕ) (s : Text) → is_free d s ≡ true → Free d s
Free-of_is_free d [] h = tt
Free-of_is_free d (c ∷ s) h = (ground arith, Free-of_is_free d s (ground arith))

pub split_once-append : (d : ℕ) (s t : Text) → Free d s → split_once d (s ++ d ∷ t) ≡ some (s, t)
unfolding split_once
split_once-append d [] t h = ground arith
split_once-append d (c ∷ s) t (h, hs) = ground (arith, split_once-append d s t hs)

rsplit_once-none : (d : ℕ) (t : Text) → Free d t → rsplit_once d t ≡ none
unfolding rsplit_once
rsplit_once-none d [] h = refl
rsplit_once-none d (c ∷ t) (h, hs) = ground (arith, rsplit_once-none d t hs)

pub rsplit_once-append : (d : ℕ) (s t : Text) → Free d t → rsplit_once d (s ++ d ∷ t) ≡ some (s, t)
unfolding rsplit_once
rsplit_once-append d [] t h = ground (arith, rsplit_once-none d t h)
rsplit_once-append d (c ∷ s) t h = ground (arith, rsplit_once-append d s t h)

pub parse_u16-le : (s : Text) (n : ℕ) → parse_u16 s ≡ some n → n ≤ 65535
unfolding parse_u16
parse_u16-le s n h = ground arith

-- The pieces between the places of a character.
unfoldable pub split_at : ℕ → Text → Text → List Text
split_at d piece [] = piece ∷ []
split_at d piece (c ∷ s) =
    let closed = piece ∷ split_at d [] s in
    let longer = split_at d (piece ++ c ∷ []) s in if c == d then closed else longer

show_digits : ℕ → ℕ → Text → Text
show_digits zero n later = later
show_digits (suc fuel) n later =
    let digits = (48 + n % 10) ∷ later in
    let more = show_digits fuel (n / 10) digits in if ltb n 10 then digits else more

-- `to_string` of an unsigned number. One round of fuel for each digit: a number has no more digits
-- than its value and one.
unfoldable pub show_number : ℕ → Text
unfolding show_digits
show_number n = show_digits (suc n) n []
