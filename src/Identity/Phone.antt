-- ===== src/Identity/Phone.antt =====
-- Canonical phone numbers.
use Prim.Native.Char.{Char, code}
use Prim.Native.String.{[], ◌∷◌}
use unified_account_center.Prelude.{
  ℕ, ◌≤◌, ◌<◌, String, ◌≡◌, refl, Bool, true, false, arith, ◌||◌, ◌⊎◌, inl, inr, nat_eq, some,
}
use unified_account_center.Text.{
  is_space_code, trim_left, trim_space, remove_char, all_chars, has_prefix, char_count,
}
use unified_account_center.Text.Trim.{
  trim_right-all_chars, remove_char-all_chars, all_chars_mono, is_empty-cons,
}
use unified_account_center.Identity.{is_digit, phone_loose, international, normalize_phone}

-- E.164: a plus sign and 7 to 15 digits.
pub record IsE164 (s : String) : Type 0 where
  pub first : Char
  pub rest : String
  pub shape : s ≡ first ∷ rest
  pub plus : code first ≡ b'+'
  pub digits : all_chars is_digit rest ≡ true
  pub at_least : 7 ≤ char_count rest
  pub at_most : char_count rest ≤ 15

digit_solid : (c : ℕ) → is_digit c ≡ true → is_space_code c ≡ false
unfolding is_space_code
digit_solid c h = ground arith

loose-IsE164 : (s : String) → phone_loose s ≡ true → has_prefix s "+" ≡ true → IsE164 s
unfolding phone_loose has_prefix
loose-IsE164 [] h k = absurd (cc)
loose-IsE164 (c ∷ s) h k = record {
  first = c;
  rest = s;
  shape = refl;
  plus = ground arith;
  digits = ground arith;
  at_least = ground arith;
  at_most = ground arith;
}

cn_plus : (t : String) → has_prefix ("+" ∷ "8" ∷ "6" ∷ t) "+" ≡ true
unfolding has_prefix
cn_plus t = refl

normalize_phone_plus : (raw s : String) → normalize_phone raw ≡ some s → has_prefix s "+" ≡ true
unfolding normalize_phone
normalize_phone_plus raw s h =
    let t = international (remove_char b'-' (remove_char b' ' (trim_space raw))) in
    ground (arith, cn_plus t)

normalize_phone_loose : (raw s : String) → normalize_phone raw ≡ some s → phone_loose s ≡ true
unfolding normalize_phone
normalize_phone_loose raw s h = ground arith

-- Whatever the input, an accepted phone number is in E.164: a plus sign and 7 to 15 digits.
pub normalize_phone-IsE164 : (raw s : String) → normalize_phone raw ≡ some s → IsE164 s
normalize_phone-IsE164 raw s h =
    loose-IsE164 s (normalize_phone_loose raw s h) (normalize_phone_plus raw s h)

plus_solid : (c : ℕ) → c ≡ b'+' → is_space_code c ≡ false
unfolding is_space_code
plus_solid c h = ground arith

trim_left_plus : (c : Char) (s : String) → code c ≡ b'+' → trim_left (c ∷ s) ≡ c ∷ s
unfolding trim_left
trim_left_plus c s h = ground (arith, plus_solid (code c) h)

phone_char : ℕ → Bool
phone_char c = is_digit c || nat_eq c b'+'

phone_char_solid : (c : ℕ) → phone_char c ≡ true → is_space_code c ≡ false
unfolding phone_char is_space_code
phone_char_solid c h = ground arith

phone_char_kept : (d c : ℕ) → d < b'+' ⊎ (d ≡ b'-') → phone_char c ≡ true → nat_eq c d ≡ false
unfolding phone_char
phone_char_kept d c o h = ground arith

module _ (c : Char) (s : String) (plus : code c ≡ b'+') (ds : all_chars is_digit s ≡ true) where
  all_phone : all_chars phone_char (c ∷ s) ≡ true
  unfolding all_chars phone_char
  all_phone = ground (arith, all_chars_mono is_digit phone_char s (λ d h. ground arith))

  cleaned : remove_char b'-' (remove_char b' ' (trim_space (c ∷ s))) ≡ c ∷ s
  unfolding trim_space
  cleaned = rw (
    trim_left_plus c s plus,
    trim_right-all_chars phone_char (c ∷ s) phone_char_solid all_phone,
    remove_char-all_chars phone_char b' ' (c ∷ s) (λ d. phone_char_kept b' ' d (inl (omega arith)))
        all_phone,
    remove_char-all_chars phone_char b'-' (c ∷ s) (λ d. phone_char_kept b'-' d (inr refl))
        all_phone,
  )

  loose : 7 ≤ char_count s → char_count s ≤ 15 → phone_loose (c ∷ s) ≡ true
  unfolding phone_loose
  loose lo hi = ground arith

  plus_prefix : has_prefix (c ∷ s) "+" ≡ true
  unfolding has_prefix
  plus_prefix = ground arith

  not_00 : has_prefix (c ∷ s) "00" ≡ false
  unfolding has_prefix
  not_00 = ground arith

canonical_fixed :
    (c : Char) (s : String)
    → code c ≡ b'+'
    → all_chars is_digit s ≡ true
    → 7 ≤ char_count s
    → char_count s ≤ 15
    → normalize_phone (c ∷ s) ≡ some (c ∷ s)
unfolding normalize_phone
canonical_fixed c s plus ds lo hi = rw (cleaned c s plus ds) (
    ground (
      arith,
      is_empty-cons c s,
      loose c s plus ds lo hi,
      plus_prefix c s plus ds,
      not_00 c s plus ds,
    ))

-- The canonical form is a fixed point: to normalize an accepted phone number again changes nothing.
pub normalize_phone_idempotent :
    (raw s : String) → normalize_phone raw ≡ some s → normalize_phone s ≡ some s
normalize_phone_idempotent raw s h =
    let e = normalize_phone-IsE164 raw s h in
    rw e.shape (canonical_fixed e.first e.rest e.plus e.digits e.at_least e.at_most)
