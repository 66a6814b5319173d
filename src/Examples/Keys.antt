-- ===== src/Examples/Keys.antt =====
-- A ring of keys that is rotated.
use unified_account_center.Prelude.{ℕ, suc, ◌≡◌, refl, some, ◌==◌}
use unified_account_center.Prelude.Rows.{find_by}
use mathlib.Core.Option.{map}
use unified_account_center.KeyRing.{Manager, by_rsa, new_rsa, rotate, sign_claims, key_func, jwks}
use unified_account_center.KeyRing.Rotation.{IsRing, new_rsa-IsRing, key_func-rotate, find_by-jwks}

-- The private key n with the public key suc n.
abbrev small_ring : Manager ℕ ℕ
small_ring = new_rsa (λ n. suc n) 4 "k1"

abbrev rotated : Manager ℕ ℕ
rotated = record small_ring {
  prev_private = some 4;
  prev_public = some 5;
  prev_kid = "k1";
  private_key = some 8;
  public_key = some 9;
  kid = "k2";
}

rotates_to : rotate (λ n. suc n) "1000" (some 8) "k2" small_ring ≡ some rotated
unfolding rotate new_rsa
rotates_to = refl

signs : sign_claims small_ring ≡ some (by_rsa "k1" 4)
unfolding sign_claims new_rsa
signs = refl

small_ring-IsRing : IsRing (λ n. suc n) small_ring
small_ring-IsRing = new_rsa-IsRing (λ n. suc n) 4 "k1"

key_func-rotate_example : key_func "k1" rotated ≡ some 5
key_func-rotate_example =
    key_func-rotate (λ n. suc n) "1000" (some 8) "k2" small_ring rotated "k1" 4 small_ring-IsRing
      signs rotates_to

find_by-jwks_example :
    map (λ j. j.material) (find_by (λ j. "k1" == j.kid) (jwks (λ n. "k") small_ring))
    ≡ map (λ n. "k") (key_func "k1" small_ring)
find_by-jwks_example = find_by-jwks (λ n. suc n) (λ n. "k") small_ring "k1" small_ring-IsRing refl
