-- ===== src/Cache/Window.antt =====
-- The fixed-window limiter `Allow` of internal/pkg/redisx/redisx.go over sequences of calls.
use Prim.Native.Nat.{min}
use unified_account_center.Prelude.{
  ℕ, suc, ◌+◌, ◌-◌, ◌<◌, String, ◌≡◌, refl, false, none, some, List, [], ◌∷◌, ◌==◌, eq_iff, eq_refl,
  arith, if◌then◌else◌, leb, length,
}
use unified_account_center.Cache.{Cache, Entry, live, lookup, without, get, incr, expire, allow}
use unified_account_center.Cache.Laws.{lookup-without}

abbrev counting : ℕ → ℕ → Entry ℕ
counting n end = record { value = n; expires = some end }

-- How many calls of `allow` at the given instants are let through.
unfoldable pub let_through : String → ℕ → ℕ → Cache ℕ → List ℕ → ℕ
let_through k limit window c [] = 0
let_through k limit window c (t ∷ ts) =
    let (passed, c') = allow t k limit window c in
    (if passed then 1 else 0) + let_through k limit window c' ts

-- All instants lie before the end of a window.
abbrev pub Before : ℕ → List ℕ → Type 0
Before end [] = Unit {0}
Before end (t ∷ ts) = (t < end) × Before end ts

-- The first hit of a window: nothing alive stands under the key.
allow_first :
    (now : ℕ) (k : String) (limit window : ℕ) (c : Cache ℕ)
    → get now k c ≡ none
    → allow now k limit window c ≡ (leb 1 limit, (k, counting 1 (now + window)) ∷ without k c)
unfolding allow incr expire get live
allow_first now k limit window c e = ground (arith, eq_refl k)

-- A later hit: the count goes up, and the end of the window stays.
allow_next :
    (now : ℕ) (k : String) (limit window : ℕ) (c : Cache ℕ) (n end : ℕ)
    → lookup k c ≡ some (counting (suc n) end)
    → now < end
    → allow now k limit window c
      ≡ (leb (suc (suc n)) limit, (k, counting (suc (suc n)) end) ∷ without k c)
unfolding allow incr expire live
allow_next now k limit window c n end e h = ground arith

let_through_open :
    (k : String) (limit window : ℕ) (ts : List ℕ) (c : Cache ℕ) (n end : ℕ)
    → lookup k c ≡ some (counting (suc n) end)
    → Before end ts
    → let_through k limit window c ts ≡ min (length ts) (limit - suc n)
unfolding let_through
let_through_open k limit window [] c n end e h = omega arith
let_through_open k limit window (t ∷ ts) c n end e h =
    let rest =
      let_through_open k limit window ts ((k, counting (suc (suc n)) end) ∷ without k c) (suc n) end
        (unfold lookup in ground (arith, eq_refl k)) h.1 in
    ground (arith, allow_next t k limit window c n end e h.0, rest)

-- In one window of `allow`, which starts at the first hit, exactly the first `limit` calls are let
-- through, whatever their instants.
pub let_through_window :
    (k : String) (limit window : ℕ) (c : Cache ℕ) (t : ℕ) (ts : List ℕ)
    → get t k c ≡ none
    → Before (t + window) ts
    → let_through k limit window c (t ∷ ts) ≡ min (length (t ∷ ts)) limit
unfolding let_through
let_through_window k limit window c t ts e h =
    let rest =
      let_through_open k limit window ts ((k, counting 1 (t + window)) ∷ without k c) 0 (t + window)
        (unfold lookup in ground (arith, eq_refl k)) h in
    ground (arith, allow_first t k limit window c e, rest)

lookup-expire :
    (now : ℕ) (k j : String) (window : ℕ) (c : Cache ℕ)
    → (k == j) ≡ false
    → lookup j (expire now k window c) ≡ lookup j c
unfolding lookup expire
lookup-expire now k j window [] h = refl
lookup-expire now k j window ((i, e) ∷ c) h =
    ground (arith, lookup-expire now k j window c h, eq_iff i k, eq_iff i j, eq_iff k j)

lookup-incr_ne :
    (now : ℕ) (k j : String) (c : Cache ℕ)
    → (k == j) ≡ false
    → lookup j (incr now k c).1 ≡ lookup j c
unfolding incr lookup
lookup-incr_ne now k j c h = ground (arith, lookup-without k j c)

-- A hit on one key leaves the count and the window of every other key as they were.
pub lookup-allow_ne :
    (now : ℕ) (k j : String) (limit window : ℕ) (c : Cache ℕ)
    → (k == j) ≡ false
    → lookup j (allow now k limit window c).1 ≡ lookup j c
unfolding allow
lookup-allow_ne now k j limit window c h =
    ground (arith, lookup-expire now k j window (incr now k c).1 h, lookup-incr_ne now k j c h)
