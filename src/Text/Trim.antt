-- ===== src/Text/Trim.antt =====
-- Texts that trimming and removing leave as they are.
use Prim.Native.Char.{Char, code}
use Prim.Native.String.{[], ◌∷◌}
use unified_account_center.Prelude.{
  is_empty, ap, inl, inr, eq_iff, Bool-cases, false, ℕ, String, ◌≡◌, refl, Bool, true, false, arith,
  nat_eq,
}
use unified_account_center.Text.{char_count, is_space_code, trim_right, remove_char, all_chars}

pub trim_right-all_chars :
    (p : ℕ → Bool) (s : String)
    → ((c : ℕ) → p c ≡ true → is_space_code c ≡ false)
    → all_chars p s ≡ true
    → trim_right s ≡ s
unfolding trim_right all_chars
trim_right-all_chars p [] solid h = refl
trim_right-all_chars p (c ∷ s) solid h =
    ground (arith, solid (code c), trim_right-all_chars p s solid)

pub remove_char-all_chars :
    (p : ℕ → Bool) (d : ℕ) (s : String)
    → ((c : ℕ) → p c ≡ true → nat_eq c d ≡ false)
    → all_chars p s ≡ true
    → remove_char d s ≡ s
unfolding remove_char all_chars
remove_char-all_chars p d [] other h = refl
remove_char-all_chars p d (c ∷ s) other h =
    ground (arith, other (code c), remove_char-all_chars p d s other)

pub all_chars_mono :
    (p q : ℕ → Bool) (s : String)
    → ((c : ℕ) → p c ≡ true → q c ≡ true)
    → all_chars p s ≡ true
    → all_chars q s ≡ true
unfolding all_chars
all_chars_mono p q [] h a = refl
all_chars_mono p q (c ∷ s) h a = ground (arith, h (code c), all_chars_mono p q s h)

pub is_empty-cons : (c : Char) (s : String) → is_empty (c ∷ s) ≡ false
unfolding char_count
is_empty-cons c s = elim (Bool-cases (is_empty (c ∷ s))) [
  | inl e ↦ absurd (omega (arith, ap char_count ((eq_iff (c ∷ s) "").0 e)))
  | inr e ↦ e
]
