-- ===== src/Identity.antt =====
-- internal/pkg/identity/normalize.go: the canonical form of phone numbers and e-mail addresses, and
-- the masks under which they are shown. `none` is an error. The masks count characters where the code
-- counts bytes: the two agree on ASCII, which every canonical phone number is.
pub mod Phone
use Prim.Native.Char.{code}
use Prim.Native.String.{[], ◌∷◌, ◌++◌}
use mathlib.Core.List
use unified_account_center.Prelude.{
  ℕ, ◌-◌, String, Bool, true, false, not, ◌&&◌, ◌||◌, ◌==◌, Option, none, some, List, if◌then◌else◌,
  leb, ltb, nat_eq, is_empty,
}
use unified_account_center.Text.{
  trim_space, remove_char, has_prefix, drop_chars, take_chars, char_count, byte_len, split_char,
  any_char, all_chars,
}

abbrev pub is_digit : ℕ → Bool
is_digit c = leb b'0' c && leb c b'9'

-- `phoneLoose`, ^\+?[0-9]{7,15}$.
abbrev pub digits_7_15 : String → Bool
digits_7_15 s = all_chars is_digit s && leb 7 (char_count s) && leb (char_count s) 15

unfoldable pub phone_loose : String → Bool
phone_loose [] = false
phone_loose (c ∷ s) = if nat_eq (code c) b'+' then digits_7_15 s else digits_7_15 (c ∷ s)

abbrev international : String → String
international s = if has_prefix s "00" then "+" ∷ drop_chars 2 s else s

abbrev matched : String → Option String
matched s = if phone_loose s then some s else none

-- `NormalizePhone`.
unfoldable pub normalize_phone : String → Option String
normalize_phone raw =
    let s = remove_char b'-' (remove_char b' ' (trim_space raw)) in
    let t = international s in
    if is_empty s
    then none
    else if has_prefix t "+"
    then matched t
    else if nat_eq (byte_len t) 11 && has_prefix t "1"
    then matched ("+" ∷ "8" ∷ "6" ∷ t)
    else none

-- `emailLoose`, ^[^@\s]+@[^@\s]+\.[^@\s]+$: one @, no blank, something before it, and after it a dot
-- that has something on both sides.
abbrev is_blank : ℕ → Bool
is_blank c = leb 9 c && leb c 10 || leb 12 c && leb c 13 || nat_eq c 32

unfoldable pub inner_dot : String → Bool
inner_dot [] = false
inner_dot (c ∷ s) = nat_eq (code c) b'.' && not (is_empty s) || inner_dot s

abbrev host_ok : String → Bool
host_ok [] = false
host_ok (c ∷ s) = inner_dot s

abbrev parts_ok : List String → Bool
parts_ok (List.◌∷◌ name (List.◌∷◌ host List.[])) = not (is_empty name) && host_ok host
parts_ok _ = false

unfoldable pub email_loose : String → Bool
email_loose s = not (any_char is_blank s) && parts_ok (split_char b'@' s)

-- `NormalizeEmail`, over Go's ToLower.
unfoldable pub normalize_email : (String → String) → String → Option String
normalize_email to_lower raw =
    let s = to_lower (trim_space raw) in if is_empty s || not (email_loose s) then none else some s

-- `MaskPhone`.
unfoldable pub mask_phone : String → String
mask_phone phone =
    if ltb (char_count phone) 7
    then "****"
    else let local =
        if has_prefix phone "+86" && nat_eq (char_count phone) 14
        then drop_chars 3 phone
        else phone in
      if leb 7 (char_count local)
      then take_chars 3 local ++ "****" ++ drop_chars (char_count local - 4) local
      else "****"

abbrev mask_parts : List String → String
mask_parts (List.◌∷◌ name (List.◌∷◌ host List.[])) =
    if leb (char_count name) 2
    then "**@" ++ host
    else take_chars 1 name ++ "***" ++ drop_chars (char_count name - 1) name ++ "@" ++ host
mask_parts _ = "****"

-- `MaskEmail`.
unfoldable pub mask_email : String → String
mask_email email = mask_parts (split_char b'@' email)
