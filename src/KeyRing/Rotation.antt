-- ===== src/KeyRing/Rotation.antt =====
-- internal/pkg/jwtutil/jwtutil.go: which tokens verify as the keys change.
use unified_account_center.Prelude.{
  ◌+◌, ◌≡◌, refl, ap, sym, subst, ◌∙◌, eq_iff, eq_refl, String, Bool, true, false, not, ◌||◌, ◌==◌,
  Option, none, some, List, [], is_empty, is_some, not-true, Bool-cases, inl, inr, if◌then◌else◌,
  arith,
}
use Prim.Native.String.{◌++◌, len}
use text.Mathlib.TextPositions.{len-append}
use mathlib.Core.Option.{some-injective, map}
use mathlib.Core.Bool.{true≢false}
use unified_account_center.Prelude.Rows.{find_by}
use unified_account_center.KeyRing.{
  rs256, is_rs256, Manager, by_rsa, by_hmac, Jwk, entry, new_rsa, set_previous, signed_by,
  or_public, with_previous, clear_previous, rotate, sign_claims, key_func, jwks,
}

kid_or-is_empty :
    (kid default : String)
    → is_empty default ≡ false
    → is_empty (if is_empty kid then default else kid) ≡ false
kid_or-is_empty kid default h = elim (Bool-cases (is_empty kid)) [
  | inl e ↦ rw e h
  | inr e ↦ ap (λ b. is_empty (if b then default else kid)) e ∙ e
]

other_way : (s t : String) → (s == t) ≡ false → (t == s) ≡ false
other_way s t h = elim (Bool-cases (t == s)) [
  | inl e ↦
      let same : s ≡ t = sym ((eq_iff t s).0 e) in
      absurd (true≢false (sym (rw same (eq_refl t)) ∙ h))
  | inr e ↦ e
]

rsa_kid : (s : String) → is_empty ("rsa-" ++ s) ≡ false
rsa_kid s = elim (Bool-cases (is_empty ("rsa-" ++ s))) [
  | inl e ↦
      let none_left : len ("rsa-" ++ s) ≡ 0 = ap len ((eq_iff ("rsa-" ++ s) "").0 e) in
      let whole : len ("rsa-" ++ s) ≡ 4 + len s = len-append "rsa-" s in absurd (omega arith)
  | inr e ↦ e
]

if_some :
    {A : Type 0} (c : Bool) (x : A) {y : A}
    → (if c then some x else none) ≡ some y
    → (c ≡ true) × (x ≡ y)
if_some true x {y} e = (refl, some-injective x y e)
if_some false x e = absurd (cc)

if_none :
    {A : Type 0} (c : Bool) (x : A) {y : A}
    → (if c then none else some x) ≡ some y
    → (c ≡ false) × (x ≡ y)
if_none true x e = absurd (cc)
if_none false x {y} e = (refl, some-injective x y e)

signed_by_own :
    {K : Type 0} (own : String) (o : Option K) (kid : String) (k : K)
    → signed_by own o ≡ some (by_rsa kid k)
    → (own ≡ kid) × (o ≡ some k)
signed_by_own own none kid k e = absurd (cc)
signed_by_own own (some x) kid k e = (ground arith, ground arith)

module _ {K P : Type 0} (public_of : K → P) where
  -- The public key belongs to the private one, a manager of RSA keys has no secret, and the kids are
  -- set and differ where there is a previous key.
  abbrev Matching : Option K → Option P → Type 0
  Matching none p = p ≡ none
  Matching (some k) p = p ≡ some (public_of k)

  pub record IsRing (m : Manager K P) : Type 0 where
    pub rsa : m.alg ≡ rs256
    pub no_secret : m.secret ≡ ""
    pub pair : Matching m.private_key m.public_key
    pub named : is_empty m.kid ≡ false
    pub distinct : (m.kid == m.prev_kid) ≡ false
    pub cleared : (not (is_empty m.prev_kid) || not (is_some m.prev_public)) ≡ true

  -- One change of the keys; a refused one leaves them.
  pub data Change : Manager K P → Manager K P → Type 0 where
    rotates :
        (seconds : String) (key : Option K) (kid : String) (m m' : Manager K P)
        → rotate public_of seconds key kid m ≡ some m'
        → Change m m'
    sets :
        (p : Option P) (kid : String) (k : Option K) (m m' : Manager K P)
        → set_previous public_of p kid k m ≡ some m'
        → Change m m'
    clears : (m : Manager K P) → Change m (clear_previous m)

  pub new_rsa-IsRing : (key : K) (kid : String) → IsRing (new_rsa public_of key kid)
  unfolding new_rsa
  new_rsa-IsRing key kid =
      let set = kid_or-is_empty kid "rsa-1" refl in
      record {
        rsa = refl;
        no_secret = refl;
        pair = refl;
        named = set;
        distinct = set;
        cleared = refl;
      }

  rotate-IsRing :
      (seconds : String) (key : Option K) (kid : String) (m m' : Manager K P)
      → rotate public_of seconds key kid m ≡ some m'
      → IsRing m
      → IsRing m'
  unfolding rotate
  rotate-IsRing seconds none kid m m' e r = absurd (cc)
  rotate-IsRing seconds (some key) kid m m' e r =
      let new_kid = if is_empty kid then "rsa-" ++ seconds else kid in
      let (ok_, same) = if_some _ _ e in
      let guards : (is_some m.private_key ≡ true)
          × (is_some m.public_key ≡ true)
          × (not (new_kid == m.kid) ≡ true) =
        ground arith in
      subst IsRing same (record {
        rsa = r.rsa;
        no_secret = r.no_secret;
        pair = refl;
        named = kid_or-is_empty kid ("rsa-" ++ seconds) (rsa_kid seconds);
        distinct = not-true _ guards.2;
        cleared = rw r.named refl;
      })

  set_previous-IsRing :
      (p : Option P) (kid : String) (k : Option K) (m m' : Manager K P)
      → set_previous public_of p kid k m ≡ some m'
      → IsRing m
      → IsRing m'
  unfolding set_previous
  set_previous-IsRing p kid k m m' e r =
      let rsa : is_rs256 m.alg ≡ true = ap is_rs256 r.rsa in
      by_public _ (
        ap (λ c. if c then with_previous (or_public public_of p k) kid k m else none) (sym rsa) ∙ e)
    where
      by_public : (o : Option P) → with_previous o kid k m ≡ some m' → IsRing m'
      by_public none e1 = absurd (cc)
      by_public (some q) e1 =
          let (free, same) = if_none _ _ e1 in
          let (set, differs) : (is_empty kid ≡ false) × ((kid == m.kid) ≡ false) = ground arith in
          subst IsRing same (record {
            rsa = r.rsa;
            no_secret = r.no_secret;
            pair = r.pair;
            named = r.named;
            distinct = other_way kid m.kid differs;
            cleared = rw set refl;
          })

  clear_previous-IsRing : (m : Manager K P) → IsRing m → IsRing (clear_previous m)
  unfolding clear_previous
  clear_previous-IsRing m r = record {
    rsa = r.rsa;
    no_secret = r.no_secret;
    pair = r.pair;
    named = r.named;
    distinct = r.named;
    cleared = refl;
  }

  -- The keys stay a ring, whatever changes them.
  pub Change-IsRing : {m m' : Manager K P} → Change m m' → IsRing m → IsRing m'
  Change-IsRing (rotates seconds key kid m m' e) r = rotate-IsRing seconds key kid m m' e r
  Change-IsRing (sets p kid k m m' e) r = set_previous-IsRing p kid k m m' e r
  Change-IsRing (clears m) r = clear_previous-IsRing m r

  public_of_pair :
      {p : Option P} {k : K} (o : Option K) → o ≡ some k → Matching o p → p ≡ some (public_of k)
  public_of_pair none e h = absurd (cc)
  public_of_pair (some x) e h = h ∙ ap (λ o. map public_of o) e

  -- A token signed before the keys are rotated verifies after it, by the key that signed it.
  pub key_func-rotate :
      (seconds : String) (key : Option K) (new_kid : String) (m m' : Manager K P) (kid : String)
      (k : K)
      → IsRing m
      → sign_claims m ≡ some (by_rsa kid k)
      → rotate public_of seconds key new_kid m ≡ some m'
      → key_func kid m' ≡ some (public_of k)
  unfolding sign_claims rotate key_func
  key_func-rotate seconds none new_kid m m' kid k r signed e = absurd (cc)
  key_func-rotate seconds (some key) new_kid m m' kid k r signed e =
      let fresh = if is_empty new_kid then "rsa-" ++ seconds else new_kid in
      let (ok_, same) = if_some _ _ e in
      let guards : (is_some m.private_key ≡ true)
          × (is_some m.public_key ≡ true)
          × (not (fresh == m.kid) ≡ true) =
        ground arith in
      let differs : (m.kid == fresh) ≡ false = other_way fresh m.kid (not-true _ guards.2) in
      let rsa : is_rs256 m.alg ≡ true = ap is_rs256 r.rsa in
      let (own, private) = signed_by_own m.kid m.private_key kid k (
        ap (λ c. if c then signed_by m.kid m.private_key else some (by_hmac m.secret)) (sym rsa)
        ∙ signed) in
      let apart : (kid == fresh) ≡ false = ap (λ x. x == fresh) (sym own) ∙ differs in
      let mine : (kid == m.kid) ≡ true = rw own (eq_refl kid) in
      let public : m.public_key ≡ some (public_of k) =
        public_of_pair m.private_key private r.pair in
      let named : is_empty kid ≡ false = ap is_empty (sym own) ∙ r.named in
      subst (λ x. key_func kid x ≡ some (public_of k)) same (rw (named, apart, mine) public)

  find_by-previous :
      (encode : P → String) (kid prev : String) (q : Option P)
      → (not (is_empty prev) || not (is_some q)) ≡ true
      → map
          (λ j. j.material)
          (find_by (λ j. kid == j.kid) (if is_empty prev then [] else entry encode q prev []))
        ≡ map encode (if kid == prev then q else none)
  unfolding find_by
  find_by-previous encode kid prev none h = either (is_empty prev) (kid == prev)
    where
      either :
          (a b : Bool)
          → map {A = Jwk} (λ j. j.material) (find_by (λ j. kid == j.kid) (if a then [] else []))
            ≡ map encode (if b then none else none)
      either true true = refl
      either true false = refl
      either false true = refl
      either false false = refl
  find_by-previous encode kid prev (some x) h =
      let set : is_empty prev ≡ false = ground arith in rw set (either (kid == prev))
    where
      either :
          (b : Bool)
          → map {A = Jwk}
              (λ j. j.material)
              (if b then some (record { kid = prev; material = encode x }) else none)
            ≡ map encode (if b then some x else none)
      either true = refl
      either false = refl

  -- The set of keys that is published holds, under each kid, the key by which a token with that kid in
  -- its header verifies, and no key for a kid by which none does.
  pub find_by-jwks :
      (encode : P → String) (m : Manager K P) (kid : String)
      → IsRing m
      → is_empty kid ≡ false
      → map (λ j. j.material) (find_by (λ j. kid == j.kid) (jwks encode m))
        ≡ map encode (key_func kid m)
  unfolding jwks key_func find_by
  find_by-jwks encode m kid r named =
      rw (r.rsa, named)
        (current m.public_key (find_by-previous encode kid m.prev_kid m.prev_public r.cleared))
    where
      rest : List Jwk
      rest = if is_empty m.prev_kid then [] else entry encode m.prev_public m.prev_kid []

      current :
          (p : Option P)
          → map (λ j. j.material) (find_by (λ j. kid == j.kid) rest)
            ≡ map encode (if kid == m.prev_kid then m.prev_public else none)
          → map (λ j. j.material) (find_by (λ j. kid == j.kid) (entry encode p m.kid rest))
            ≡ map encode
                (if kid == m.kid then p else if kid == m.prev_kid then m.prev_public else none)
      current none before = elim (Bool-cases (kid == m.kid)) [
        | inl e ↦
            let other : (kid == m.prev_kid) ≡ false =
              ap (λ x. x == m.prev_kid) ((eq_iff kid m.kid).0 e) ∙ r.distinct in
            rw e (before ∙ ap (λ c. map encode (if c then m.prev_public else none)) other)
        | inr e ↦ rw e before
      ]
      current (some p) before = elim (Bool-cases (kid == m.kid)) [
        | inl e ↦ rw e refl
        | inr e ↦ rw e before
      ]
