-- ===== src/KeyRing.antt =====
-- internal/pkg/jwtutil/jwtutil.go: the keys that sign and verify tokens. An RSA key is a parameter, as
-- are its public part and the encoding of that part; `none` stands for nil and for an error, whose
-- text is not modelled. A manager exists: the tests against a nil one are left out.
pub mod Rotation
use Prim.Native.String.{◌++◌}
use unified_account_center.Prelude.{
  String, Bool, true, false, not, ◌&&◌, ◌||◌, ◌==◌, Option, none, some, List, [], ◌∷◌, is_empty,
  is_some, if◌then◌else◌,
}

pub data Alg : Type 0 where
  hs256 rs256 : Alg

abbrev pub is_rs256 : Alg → Bool
is_rs256 hs256 = false
is_rs256 rs256 = true

-- `Manager`.
pub record Manager (K P : Type 0) : Type 0 where
  pub alg : Alg
  pub secret : String
  pub private_key : Option K
  pub public_key : Option P
  pub kid : String
  pub prev_private : Option K
  pub prev_public : Option P
  pub prev_kid : String

-- What signed a token, and the header by which its key is found again.
pub data Signature (K : Type 0) : Type 0 where
  by_rsa : String → K → Signature K
  by_hmac : String → Signature K

-- `JWK`, its modulus and exponent in one text.
pub record Jwk : Type 0 where
  pub kid : String
  pub material : String

-- `Status`.
pub record Status : Type 0 where
  pub alg : Alg
  pub current_kid : String
  pub previous_kid : String
  pub dual_key : Bool

abbrev pub signed_by : {K : Type 0} → String → Option K → Option (Signature K)
signed_by kid none = none
signed_by kid (some k) = some (by_rsa kid k)

-- The entry of a key, before the others.
abbrev pub entry : {P : Type 0} → (P → String) → Option P → String → List Jwk → List Jwk
entry encode none kid rest = rest
entry encode (some p) kid rest = record { kid = kid; material = encode p } ∷ rest

module _ {K P : Type 0} where
  -- `NewHMACManager`.
  unfoldable pub new_hmac : String → Manager K P
  new_hmac secret = record {
    alg = hs256;
    secret = secret;
    private_key = none;
    public_key = none;
    kid = "hmac";
    prev_private = none;
    prev_public = none;
    prev_kid = "";
  }

  -- `NewRSAManager`.
  unfoldable pub new_rsa : (K → P) → K → String → Manager K P
  new_rsa public_of key kid = record {
    alg = rs256;
    secret = "";
    private_key = some key;
    public_key = some (public_of key);
    kid = if is_empty kid then "rsa-1" else kid;
    prev_private = none;
    prev_public = none;
    prev_kid = "";
  }

  abbrev pub or_public : (K → P) → Option P → Option K → Option P
  or_public public_of (some p) private = some p
  or_public public_of none none = none
  or_public public_of none (some k) = some (public_of k)

  abbrev pub with_previous : Option P → String → Option K → Manager K P → Option (Manager K P)
  with_previous none kid private m = none
  with_previous (some p) kid private m =
      if is_empty kid || kid == m.kid
      then none
      else some (record m { prev_public = some p; prev_private = private; prev_kid = kid })

  -- `SetPreviousRSA`.
  unfoldable pub set_previous :
      (K → P) → Option P → String → Option K → Manager K P → Option (Manager K P)
  set_previous public_of public kid private m =
      if is_rs256 m.alg
      then with_previous (or_public public_of public private) kid private m
      else none

  -- `ClearPreviousRSA`.
  unfoldable pub clear_previous : Manager K P → Manager K P
  clear_previous m = record m { prev_private = none; prev_public = none; prev_kid = "" }

  -- `RotateRSA`; `seconds` is the time in digits, for a kid where none is given.
  unfoldable pub rotate : (K → P) → String → Option K → String → Manager K P → Option (Manager K P)
  rotate public_of seconds none new_kid m = none
  rotate public_of seconds (some key) new_kid m =
      let kid = if is_empty new_kid then "rsa-" ++ seconds else new_kid in
      if is_rs256 m.alg && is_some m.private_key && is_some m.public_key && not (kid == m.kid)
      then some (record m {
        prev_private = m.private_key;
        prev_public = m.public_key;
        prev_kid = m.kid;
        private_key = some key;
        public_key = some (public_of key);
        kid = kid;
      })
      else none

  -- `Status`.
  unfoldable pub status : Manager K P → Status
  status m = record {
    alg = m.alg;
    current_kid = m.kid;
    previous_kid = m.prev_kid;
    dual_key = is_rs256 m.alg && is_some m.prev_public && not (is_empty m.prev_kid);
  }

  -- `signClaims`.
  unfoldable pub sign_claims : Manager K P → Option (Signature K)
  sign_claims m = if is_rs256 m.alg then signed_by m.kid m.private_key else some (by_hmac m.secret)

  -- `keyFuncRSA`.
  unfoldable pub key_func : String → Manager K P → Option P
  key_func kid m =
      if is_empty kid || kid == m.kid
      then m.public_key
      else if kid == m.prev_kid
      then m.prev_public
      else none

  -- The secret under which `ParseAccess` and `ParseIDToken` verify a token signed by HMAC.
  unfoldable pub hmac_secret : Manager K P → Option String
  hmac_secret m = if is_empty m.secret then none else some m.secret

  -- `JWKS`.
  unfoldable pub jwks : (P → String) → Manager K P → List Jwk
  jwks encode m =
      if is_rs256 m.alg
      then entry encode m.public_key m.kid
          (if is_empty m.prev_kid then [] else entry encode m.prev_public m.prev_kid [])
      else []
