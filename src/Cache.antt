-- ===== src/Cache.antt =====
-- internal/pkg/redisx/redisx.go: the commands of Redis that the client uses, over the keys of one
-- prefix. A prefix has a cache of its own, so that the values under it have one type. Redis itself
-- is not under the repository: what is modelled is the documented effect of each command.
-- Instants and lifetimes are in seconds.
pub mod Laws
pub mod Window
use unified_account_center.Prelude.{
  ℕ, suc, ◌+◌, String, Bool, true, false, Option, none, some, List, [], ◌∷◌, ◌==◌, if◌then◌else◌,
  ltb, leb, nat_eq,
}

pub record Entry {ℓ} (V : Type ℓ) : Type ℓ where
  pub value : V
  pub expires : Option ℕ

abbrev pub Cache {ℓ} : Type ℓ → Type ℓ
Cache V = List (String × Entry V)

-- A key is gone from the instant at which it expires.
unfoldable pub live {ℓ} : {V : Type ℓ} → ℕ → Entry V → Bool
live now e = elim e.expires [ none ↦ true | some t ↦ ltb now t ]

module _ {ℓ} {V : Type ℓ} where
  unfoldable pub lookup : String → Cache V → Option (Entry V)
  lookup k [] = none
  lookup k ((j, e) ∷ c) = if j == k then some e else lookup k c

  unfoldable pub without : String → Cache V → Cache V
  without k [] = []
  without k ((j, e) ∷ c) = let rest = without k c in if j == k then rest else (j, e) ∷ rest

  abbrev pub alive : ℕ → Option (Entry V) → Option (Entry V)
  alive now none = none
  alive now (some e) = if live now e then some e else none

  abbrev pub value_of : Option (Entry V) → Option V
  value_of none = none
  value_of (some e) = some e.value

  -- GET, and GetJSON: `none` for redis.Nil.
  unfoldable pub get : ℕ → String → Cache V → Option V
  get now k c = value_of (alive now (lookup k c))

  -- EXISTS.
  unfoldable pub exists : ℕ → String → Cache V → Bool
  exists now k c = elim (get now k c) [ none ↦ false | some v ↦ true ]

  -- SET with a lifetime, and SetJSON.
  unfoldable pub put : ℕ → String → V → ℕ → Cache V → Cache V
  put now k v ttl c = (k, record { value = v; expires = some (now + ttl) }) ∷ without k c

  -- DEL.
  unfoldable pub del : String → Cache V → Cache V
  del k c = without k c

  -- GETDEL: read and delete in one step.
  unfoldable pub get_del : ℕ → String → Cache V → Option V × Cache V
  get_del now k c = (get now k c, without k c)

  -- SET NX with a lifetime: whether the key was set.
  unfoldable pub set_nx : ℕ → String → V → ℕ → Cache V → Bool × Cache V
  set_nx now k v ttl c = if exists now k c then (false, c) else (true, put now k v ttl c)

-- INCR: an expired or missing key counts from 0, and a live key keeps its lifetime.
abbrev next_count : Option (Entry ℕ) → Entry ℕ
next_count none = record { value = 1; expires = none }
next_count (some e) = record e { value = suc e.value }

unfoldable pub incr : ℕ → String → Cache ℕ → ℕ × Cache ℕ
incr now k c = let e = next_count (alive now (lookup k c)) in (e.value, (k, e) ∷ without k c)

-- PEXPIRE on a key that exists.
unfoldable pub expire : ℕ → String → ℕ → Cache ℕ → Cache ℕ
expire now k window [] = []
expire now k window ((j, e) ∷ c) =
    let rest = expire now k window c in
    if j == k then (j, record e { expires = some (now + window) }) ∷ c else (j, e) ∷ rest

-- `Allow`, the fixed-window limiter: the script increments, and starts the window at the first hit.
-- The waiting time that it also returns is not modelled: every caller drops it.
unfoldable pub allow : ℕ → String → ℕ → ℕ → Cache ℕ → Bool × Cache ℕ
allow now k limit window c =
    let (n, counted) = incr now k c in
    (leb n limit, if nat_eq n 1 then expire now k window counted else counted)
