-- ===== src/MockRelay/Auth.antt =====
-- mockrelay/server/auth.go: the two validators of a token and the choice between them.
use aztunnel.Common.{
  ℕ, ◌+◌, Bool, true, false, not, ◌&&◌, ◌||◌, if◌then◌else◌, leb, ◌==◌, Option, none, some, List,
  [], ◌∷◌, ◌++◌, ℤ, pos, negsuc,
}
use aztunnel.Common.Text.{Bytes, codes, bytes_eq, decimal, strip_prefix, split}
use aztunnel.Common.Assoc.{lookup}
use aztunnel.Relay.Sas.{Library, unix, newline, sas_prefix}
use aztunnel.MockRelay.Delay.{DelayProfile}

-- The fields of `Config` that the validators read.
pub record AuthConfig : Type 0 where
  pub sas_key_name : Bytes
  pub sas_key : Bytes
  pub skip_auth : Bool

-- The errors of the validators; `nil` is `none`.
pub data AuthError : Type 0 where
  missing_token wrong_prefix bad_query missing_field wrong_skn bad_se expired signature_mismatch :
      AuthError
  malformed_jwt bad_payload bad_claims missing_exp : AuthError

-- `signSAS`
unfoldable pub sign_sas : Library → (encoded_uri : Bytes) → (expiry : ℕ) → (key : Bytes) → Bytes
sign_sas lib encoded_uri expiry key =
    lib.base64 (lib.hmac key (encoded_uri ++ newline ++ decimal expiry))

-- `vals.Get`: the first value, or the empty string.
abbrev or_empty : Option Bytes → Bytes
or_empty none = []
or_empty (some v) = v

unfoldable pub get : Bytes → List (Bytes × Bytes) → Bytes
get key vals = or_empty (lookup key vals)

abbrev is_empty : Bytes → Bool
is_empty s = bytes_eq s []

abbrev check_signature :
    Library → AuthConfig → (now : ℕ) → (sr sig : Bytes) → Option ℤ → Option AuthError
check_signature lib cfg now sr sig none = some bad_se
check_signature lib cfg now sr sig (some (negsuc n)) = some expired
check_signature lib cfg now sr sig (some (pos se)) =
    if leb se (unix now)
    then some expired
    else (if bytes_eq (sign_sas lib (lib.query_escape (lib.to_lower sr)) se cfg.sas_key) sig
        then none
        else some signature_mismatch)

abbrev check_fields :
    Library → AuthConfig → (now : ℕ) → Option (List (Bytes × Bytes)) → Option AuthError
check_fields lib cfg now none = some bad_query
check_fields lib cfg now (some vals) =
    let sr = get (codes "sr") vals in
    let sig = get (codes "sig") vals in
    let se = get (codes "se") vals in
    let skn = get (codes "skn") vals in
    if is_empty sr || is_empty sig || is_empty se || is_empty skn
    then some missing_field
    else (if not (bytes_eq skn cfg.sas_key_name)
        then some wrong_skn
        else check_signature lib cfg now sr sig (lib.parse_int se))

abbrev check_query : Library → AuthConfig → (now : ℕ) → Option Bytes → Option AuthError
check_query lib cfg now none = some wrong_prefix
check_query lib cfg now (some query) = check_fields lib cfg now (lib.parse_query query)

-- `validateSAS` on the value of sb-hc-token, at a time.
unfoldable pub validate_sas : Library → AuthConfig → (now : ℕ) → (token : Bytes) → Option AuthError
unfolding sign_sas get
validate_sas lib cfg now token =
    if cfg.skip_auth
    then none
    else (if is_empty token
        then some missing_token
        else check_query lib cfg now (strip_prefix sas_prefix token))

-- The library's part in a bearer token: base64 for URLs without padding, and the JSON of the claims.
pub record TokenLibrary : Type 0 where
  pub hmac : Bytes → Bytes → Bytes
  pub raw_encode : Bytes → Bytes
  pub raw_decode : Bytes → Option Bytes
  pub marshal_claims : ℕ → Bytes
  pub unmarshal_claims : Bytes → Option ℤ

abbrev pub dot : ℕ
dot = b'.'

-- `signHS256`
unfoldable pub sign_hs256 : TokenLibrary → (signing_input key : Bytes) → Bytes
sign_hs256 lib signing_input key = lib.raw_encode (lib.hmac key signing_input)

abbrev check_claims : (now : ℕ) → Option ℤ → Option AuthError
check_claims now none = some bad_claims
check_claims now (some (negsuc n)) = some expired
check_claims now (some (pos exp)) =
    if exp == 0 then some missing_exp else if leb exp (unix now) then some expired else none

abbrev check_payload : TokenLibrary → (now : ℕ) → Option Bytes → Option AuthError
check_payload lib now none = some bad_payload
check_payload lib now (some json) = check_claims now (lib.unmarshal_claims json)

abbrev check_parts : TokenLibrary → AuthConfig → (now : ℕ) → List Bytes → Option AuthError
check_parts lib cfg now (header ∷ payload ∷ signature ∷ []) =
    if bytes_eq (sign_hs256 lib (header ++ dot ∷ payload) cfg.sas_key) signature
    then check_payload lib now (lib.raw_decode payload)
    else some signature_mismatch
check_parts lib cfg now _ = some malformed_jwt

-- `validateBearer`
unfoldable pub validate_bearer :
    TokenLibrary → AuthConfig → (now : ℕ) → (token : Bytes) → Option AuthError
unfolding sign_hs256
validate_bearer lib cfg now token =
    if cfg.skip_auth
    then none
    else if is_empty token
    then some missing_token
    else check_parts lib cfg now (split dot token)

abbrev pub jwt_header : Bytes
jwt_header = codes "{\"alg\":\"HS256\",\"typ\":\"JWT\"}"

-- `MintFakeBearerToken`, at a time; `marshal_claims` writes `exp` beside the fixed audience.
unfoldable pub mint_fake_bearer_token : TokenLibrary → (now : ℕ) → (key : Bytes) → (ttl : ℕ) → Bytes
mint_fake_bearer_token lib now key ttl =
    let signing_input =
      lib.raw_encode jwt_header ++ dot ∷ lib.raw_encode (lib.marshal_claims (unix (now + ttl))) in
    signing_input ++ dot ∷ sign_hs256 lib signing_input key

pub data AuthMethod : Type 0 where
  auth_sas auth_entra : AuthMethod

abbrev is_none : Option Bytes → Bool
is_none none = true
is_none (some s) = false

abbrev three_parts : List Bytes → Bool
three_parts (a ∷ b ∷ c ∷ []) = not (is_empty a) && not (is_empty b) && not (is_empty c)
three_parts _ = false

-- `looksLikeJWT`
unfoldable pub looks_like_jwt : Bytes → Bool
looks_like_jwt tok =
    if is_none (strip_prefix (codes "eyJ") tok) then false else three_parts (split dot tok)

-- `authKind`
unfoldable pub auth_kind : Bytes → AuthMethod
unfolding looks_like_jwt
auth_kind tok =
    if not (is_none (strip_prefix sas_prefix tok))
    then auth_sas
    else if looks_like_jwt tok
    then auth_entra
    else auth_sas

-- `authCost`
unfoldable pub auth_cost : DelayProfile ℕ → Bytes → ℕ
auth_cost p tok = elim (auth_kind tok) [
  | auth_entra ↦ p.entra_validate
  | auth_sas ↦ p.auth_internal
]

-- `validateToken`
unfoldable pub validate_token :
    Library → TokenLibrary → AuthConfig → (now : ℕ) → (token : Bytes) → Option AuthError
validate_token lib jwt cfg now token = elim (auth_kind token) [
  | auth_entra ↦ validate_bearer jwt cfg now token
  | auth_sas ↦ validate_sas lib cfg now token
]
