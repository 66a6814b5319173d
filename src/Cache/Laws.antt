-- ===== src/Cache/Laws.antt =====
-- What a read sees after each write to a cache.
use unified_account_center.Prelude.{
  ℕ, ◌+◌, ◌≤◌, String, ◌≡◌, none, some, [], ◌∷◌, ◌==◌, eq_iff, arith, if◌then◌else◌, ltb,
}
use unified_account_center.Cache.{Cache, live, lookup, without, get, put, get_del}

module _ {ℓ} {V : Type ℓ} where
  pub lookup-without :
      (k j : String) (c : Cache V) → lookup j (without k c) ≡ (if k == j then none else lookup j c)
  unfolding lookup without
  lookup-without k j [] = ground arith
  lookup-without k j ((i, e) ∷ c) =
      ground (arith, lookup-without k j c, eq_iff i k, eq_iff i j, eq_iff k j)

  -- A key is read as it was last set, and only while it is alive; other keys do not change.
  pub get-put :
      (now t : ℕ) (k j : String) (v : V) (ttl : ℕ) (c : Cache V)
      → get t j (put now k v ttl c)
        ≡ (if k == j then (if ltb t (now + ttl) then some v else none) else get t j c)
  unfolding get put lookup live
  get-put now t k j v ttl c = ground (arith, lookup-without k j c)

  pub get-without :
      (t : ℕ) (k j : String) (c : Cache V)
      → get t j (without k c) ≡ (if k == j then none else get t j c)
  unfolding get
  get-without t k j c = ground (arith, lookup-without k j c)

  -- What is absent stays absent as time goes on.
  pub get-later : (t u : ℕ) (k : String) (c : Cache V) → t ≤ u → get t k c ≡ none → get u k c ≡ none
  unfolding get live
  get-later t u k c h e = ground arith

  -- A key that was consumed is absent, and every other key reads as before.
  pub get-get_del :
      (now t : ℕ) (k j : String) (c : Cache V)
      → get t j (get_del now k c).1 ≡ (if k == j then none else get t j c)
  unfolding get_del
  get-get_del now t k j c = get-without t k j c
