-- ===== src/Examples/Rules.antt =====
-- The limiter and phone numbers.
use unified_account_center.Prelude.{◌≡◌, refl, some, [], ◌∷◌, arith}
use unified_account_center.Text.{
  trim_space, trim_left, trim_right, is_space_code, remove_char, has_prefix, char_count, byte_len,
  all_chars,
}
use unified_account_center.Identity.{normalize_phone, phone_loose}
use unified_account_center.Identity.Phone.{
  IsE164, normalize_phone-IsE164, normalize_phone_idempotent,
}
use unified_account_center.Cache.{get, lookup}
use unified_account_center.Cache.Window.{let_through, let_through_window}

let_through_window_example : let_through "k" 2 60 [] (1000 ∷ 1001 ∷ 1002 ∷ []) ≡ 2
unfolding get lookup
let_through_window_example =
    let_through_window "k" 2 60 [] 1000 (1001 ∷ 1002 ∷ []) refl (omega arith, (omega arith, tt))

canonical : normalize_phone " 138-0013-8000" ≡ some "+8613800138000"
unfolding normalize_phone phone_loose trim_space trim_left trim_right is_space_code remove_char
    has_prefix byte_len all_chars char_count
canonical = refl

normalize_phone-IsE164_example : IsE164 "+8613800138000"
normalize_phone-IsE164_example = normalize_phone-IsE164 " 138-0013-8000" "+8613800138000" canonical

normalize_phone_idempotent_example : normalize_phone "+8613800138000" ≡ some "+8613800138000"
normalize_phone_idempotent_example =
    normalize_phone_idempotent " 138-0013-8000" "+8613800138000" canonical
