-- ===== src/Repo/Redis/Taken.antt =====
-- What `GetDelJSON` of internal/pkg/redisx/redisx.go leaves behind, whichever of its commands fail.
use unified_account_center.Prelude.{
  String, ◌≡◌, refl, sym, ap, ◌∙◌, ◌⊎◌, inl, inr, Bool, true, false, Option, List, [], ◌∷◌,
}
use unified_account_center.Errors.{ok, Result}
use unified_account_center.World.{World}
use unified_account_center.Cache.{Cache, get, without}
use unified_account_center.Cache
use unified_account_center.Exec.{
  trial, ignore, modify, query, command, when, taken_over, pure, fall_back,
}
use unified_account_center.Exec.Inversion.{facing, bind_ok, query_ok, pure_ok}
use unified_account_center.Repo.Redis.{drop_key, get_then_del, get_del_json}

module _ {V : Type 0} (read : World → Cache V) (write : World → Cache V → World) where
  -- The key is deleted, or nothing is changed but the faults ahead.
  abbrev pub Left : String → World → World → Type 0
  Left key w v =
      (fs : List Bool) × ((v ≡ write (facing w fs) (without key (read (facing w fs))))
        ⊎ (v ≡ facing w fs))

  drop_key-Left :
      (key : String) (b : Bool) (w v : World)
      → drop_key read write key b w ≡ (ok tt, v)
      → Left key w v
  unfolding drop_key when ignore modify command pure Cache.del
  drop_key-Left key false w v h = (w.faults, inr (cc))
  drop_key-Left key true w v h = by_faults w.faults refl (ap (λ r. r.1) h)
    where
      by_faults :
          (fs : List Bool)
          → w.faults ≡ fs
          → (trial fs (λ x. (tt, write x (without key (read x)))) w).1 ≡ v
          → Left key w v
      by_faults [] e k = (w.faults, inl (sym k))
      by_faults (true ∷ fs) e k = (fs, inr (sym k))
      by_faults (false ∷ fs) e k = (fs, inl (sym k))

  ok_pair :
      {A : Type 0} {a b : A} {u x : World}
      → ◌≡◌ {A = Result A × World} (ok a, u) (ok b, x)
      → ◌≡◌ {A = A × World} (a, u) (b, x)
  ok_pair h = cc

  -- The value is what the key held, and its key is deleted or stays.
  pub get_del_json-Left :
      (key : String) (w v : World) (o : Option V)
      → ((fs : List Bool) → read (facing w fs) ≡ read w)
      → get_del_json read write key w ≡ (ok o, v)
      → (o ≡ get w.now key (read w)) × Left key w v
  unfolding get_del_json get_then_del fall_back command query Cache.get_del
  get_del_json-Left key w v o same h = by_faults w.faults refl h
    where
      at_end :
          (u : World)
          → v ≡ u
          → {hs : List Bool}
          → (u ≡ write (facing w hs) (without key (read (facing w hs)))) ⊎ (u ≡ facing w hs)
          → (v ≡ write (facing w hs) (without key (read (facing w hs)))) ⊎ (v ≡ facing w hs)
      at_end u e (inl d) = inl (e ∙ d)
      at_end u e (inr d) = inr (e ∙ d)

      by_faults :
          (fs : List Bool)
          → w.faults ≡ fs
          → taken_over
              (get_then_del read write key)
              (trial fs (λ x. (get x.now key (read x), write x (without key (read x)))) w)
            ≡ (ok o, v)
          → (o ≡ get w.now key (read w)) × Left key w v
      by_faults [] e k = (sym (ap (λ r. r.0) (ok_pair k)), (w.faults, inl (sym (ap (λ r. r.1) k))))
      by_faults (false ∷ fs) e k = (
        sym (ap (λ r. r.0) (ok_pair k)) ∙ ap (get w.now key) (same fs),
        (fs, inl (sym (ap (λ r. r.1) k))),
      )
      by_faults (true ∷ fs) e k =
          let (gs, k1) = query_ok _ _ (facing w fs) k in
          let (_, u, d, k2) = bind_ok _ _ _ k1 in
          let (value, after) = pure_ok _ o u v k2 in
          let (hs, left) = drop_key-Left key _ (facing w gs) u d in
          (value ∙ ap (get w.now key) (same gs), (hs, at_end u after left))
