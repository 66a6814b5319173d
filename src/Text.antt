-- ===== src/Text.antt =====
-- What the program uses of Go's package strings, over code points; `byte_len` is Go's len.
pub mod Trim
use Prim.Native.Char.{Char, code}
use Prim.Native.String.{[], ◌∷◌}
use mathlib.Core.List
use unified_account_center.Prelude.{
  ℕ, zero, suc, ◌+◌, String, Bool, true, false, ◌&&◌, ◌||◌, if◌then◌else◌, ltb, leb, nat_eq,
  is_empty, List,
}

-- unicode.IsSpace: what TrimSpace cuts off.
unfoldable pub is_space_code : ℕ → Bool
is_space_code c =
    leb 9 c && leb c 13
    || nat_eq c 32
    || nat_eq c 0x85
    || nat_eq c 0xa0
    || nat_eq c 0x1680
    || leb 0x2000 c && leb c 0x200a
    || nat_eq c 0x2028
    || nat_eq c 0x2029
    || nat_eq c 0x202f
    || nat_eq c 0x205f
    || nat_eq c 0x3000

abbrev pub is_space : Char → Bool
is_space c = is_space_code (code c)

unfoldable pub trim_left : String → String
trim_left [] = []
trim_left (c ∷ s) = let rest = trim_left s in if is_space c then rest else c ∷ s

unfoldable pub trim_right : String → String
trim_right [] = []
trim_right (c ∷ s) = let rest = trim_right s in if is_space c && is_empty rest then [] else c ∷ rest

-- strings.TrimSpace.
unfoldable pub trim_space : String → String
unfolding trim_left trim_right is_space_code
trim_space s = trim_right (trim_left s)

-- strings.ReplaceAll(s, d, "") for a one-character d.
unfoldable pub remove_char : ℕ → String → String
remove_char d [] = []
remove_char d (c ∷ s) = let rest = remove_char d s in if nat_eq (code c) d then rest else c ∷ rest

-- strings.HasPrefix.
unfoldable pub has_prefix : String → String → Bool
has_prefix s [] = true
has_prefix [] (d ∷ p) = false
has_prefix (c ∷ s) (d ∷ p) = nat_eq (code c) (code d) && has_prefix s p

unfoldable pub drop_chars : ℕ → String → String
drop_chars zero s = s
drop_chars (suc n) [] = []
drop_chars (suc n) (c ∷ s) = drop_chars n s

unfoldable pub take_chars : ℕ → String → String
take_chars zero s = []
take_chars (suc n) [] = []
take_chars (suc n) (c ∷ s) = c ∷ take_chars n s

unfoldable pub char_count : String → ℕ
char_count [] = 0
char_count (c ∷ s) = suc (char_count s)

-- strings.TrimPrefix.
unfoldable pub trim_prefix : String → String → String
unfolding has_prefix drop_chars char_count
trim_prefix s p = if has_prefix s p then drop_chars (char_count p) s else s

-- How many bytes a code point takes in UTF-8.
abbrev utf8_width : ℕ → ℕ
utf8_width c = if ltb c 0x80 then 1 else if ltb c 0x800 then 2 else if ltb c 0x10000 then 3 else 4

unfoldable pub byte_len : String → ℕ
byte_len [] = 0
byte_len (c ∷ s) = utf8_width (code c) + byte_len s

-- strings.Split at a one-character separator.
abbrev add_char : Char → List String → List String
add_char c List.[] = List.◌∷◌ (c ∷ []) List.[]
add_char c (List.◌∷◌ part parts) = List.◌∷◌ (c ∷ part) parts

unfoldable pub split_char : ℕ → String → List String
split_char d [] = List.◌∷◌ [] List.[]
split_char d (c ∷ s) =
    let rest = split_char d s in if nat_eq (code c) d then List.◌∷◌ [] rest else add_char c rest

-- Whether a condition holds at some, and at every, character of a text.
unfoldable pub any_char : (ℕ → Bool) → String → Bool
any_char p [] = false
any_char p (c ∷ s) = p (code c) || any_char p s

unfoldable pub all_chars : (ℕ → Bool) → String → Bool
all_chars p [] = true
all_chars p (c ∷ s) = p (code c) && all_chars p s
