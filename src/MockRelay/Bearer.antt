-- ===== src/MockRelay/Bearer.antt =====
-- mockrelay/server/auth.go: the fake bearer token and its validator.
use aztunnel.Common.{
  ℕ, ◌+◌, ◌≡◌, refl, ◌∙◌, false, if◌then◌else◌, leb, ◌==◌, none, some, [], ◌∷◌, ◌++◌, arith, ap,
  pos, append_assoc,
}
use aztunnel.Common.Text.{
  Bytes, codes, bytes_eq, strip_prefix, strip_prefix-append, split, split-append, split-Lacks,
  Lacks,
}
use aztunnel.Relay.Sas.{Library, unix, sas_prefix}
use aztunnel.MockRelay.Auth.{
  AuthConfig, expired, signature_mismatch, missing_exp, auth_entra, TokenLibrary, validate_bearer,
  mint_fake_bearer_token, auth_kind, validate_token, sign_hs256, dot, jwt_header, looks_like_jwt,
}

not_nil : (c : ℕ) (s : Bytes) → bytes_eq (c ∷ s) [] ≡ false
unfolding bytes_eq
not_nil c s = refl

split_three :
    (a b c : Bytes)
    → Lacks dot a
    → Lacks dot b
    → Lacks dot c
    → split dot ((a ++ dot ∷ b) ++ dot ∷ c) ≡ a ∷ b ∷ c ∷ []
split_three a b c la lb lc =
    ap (split dot) (append_assoc a (dot ∷ b) (dot ∷ c))
    ∙ split-append dot a (b ++ dot ∷ c) la
    ∙ ap (◌∷◌ a) (split-append dot b c lb ∙ ap (◌∷◌ b) (split-Lacks dot c lc))

-- A token in three parts that starts as the base64 of a JSON object does.
three_parts_kind :
    (token a b c rest : Bytes)
    → token ≡ codes "eyJ" ++ rest
    → split dot token ≡ a ∷ b ∷ c ∷ []
    → bytes_eq a [] ≡ false
    → bytes_eq b [] ≡ false
    → bytes_eq c [] ≡ false
    → auth_kind token ≡ auth_entra
unfolding auth_kind looks_like_jwt strip_prefix
three_parts_kind token a b c rest start parts ha hb hc =
    let not_sas : strip_prefix sas_prefix token ≡ none =
      ap (strip_prefix sas_prefix) start ∙ refl in
    let json : strip_prefix (codes "eyJ") token ≡ some rest =
      ap (strip_prefix (codes "eyJ")) start ∙ strip_prefix-append (codes "eyJ") rest in
    rw (not_sas, json, parts, ha, hb, hc) refl

-- `validateBearer` on three parts, signed with some key.
validate_bearer_parts :
    (jwt : TokenLibrary) (cfg : AuthConfig) (now exp : ℕ)
    (token header payload signature claims : Bytes)
    → cfg.skip_auth ≡ false
    → bytes_eq token [] ≡ false
    → split dot token ≡ header ∷ payload ∷ signature ∷ []
    → jwt.raw_decode payload ≡ some claims
    → jwt.unmarshal_claims claims ≡ some (pos exp)
    → validate_bearer jwt cfg now token ≡ (
        if bytes_eq (sign_hs256 jwt (header ++ dot ∷ payload) cfg.sas_key) signature
        then (if exp == 0
            then some missing_exp
            else if leb exp (unix now)
            then some expired
            else none)
        else some signature_mismatch)
unfolding validate_bearer
validate_bearer_parts jwt cfg now exp token header payload signature claims on some_token parts
      decoded read =
    rw (on, some_token, parts, decoded, read) refl

validate_token_entra :
    (lib : Library) (jwt : TokenLibrary) (cfg : AuthConfig) (now : ℕ) (token : Bytes)
    → auth_kind token ≡ auth_entra
    → validate_token lib jwt cfg now token ≡ validate_bearer jwt cfg now token
unfolding validate_token
validate_token_entra lib jwt cfg now token kind = ground (arith, kind)

-- A fake bearer token minted with a key at a time `made`.
module _ (lib : Library) (jwt : TokenLibrary) (cfg : AuthConfig) (made now ttl : ℕ)
    (key rest : Bytes) where
  abbrev pub expiry : ℕ
  expiry = unix (made + ttl)

  abbrev pub payload : Bytes
  payload = jwt.raw_encode (jwt.marshal_claims (unix (made + ttl)))

  abbrev pub header : Bytes
  header = jwt.raw_encode jwt_header

  abbrev pub signature : Bytes
  signature = sign_hs256 jwt (header ++ dot ∷ payload) key

  -- The mint's token is a bearer token to the mock, whatever its key: it is accepted while the clock is before the
  -- expiry that it was minted with, refused as expired from then on, and refused by its signature where that of the
  -- mock's key differs. This takes of the encodings that base64 for URLs has no dot and is not empty, that it and
  -- the JSON of the claims are read back, and that the encoded header starts with "eyJ".
  pub validate_token-mint_fake_bearer_token :
      header ≡ codes "eyJ" ++ rest
      → Lacks dot header
      → Lacks dot payload
      → Lacks dot signature
      → bytes_eq payload [] ≡ false
      → bytes_eq signature [] ≡ false
      → jwt.raw_decode payload ≡ some (jwt.marshal_claims expiry)
      → jwt.unmarshal_claims (jwt.marshal_claims expiry) ≡ some (pos expiry)
      → cfg.skip_auth ≡ false
      → validate_token lib jwt cfg now (mint_fake_bearer_token jwt made key ttl) ≡ (
          if bytes_eq (sign_hs256 jwt (header ++ dot ∷ payload) cfg.sas_key) signature
          then (if expiry == 0
              then some missing_exp
              else if leb expiry (unix now)
              then some expired
              else none)
          else some signature_mismatch)
  unfolding mint_fake_bearer_token
  validate_token-mint_fake_bearer_token json lh lp ls has_payload has_signature decoded read on =
      let token = (header ++ dot ∷ payload) ++ dot ∷ signature in
      let parts : split dot token ≡ header ∷ payload ∷ signature ∷ [] =
        split_three header payload signature lh lp ls in
      let has_header : bytes_eq header [] ≡ false = ap (λ h. bytes_eq h []) json ∙ not_nil _ _ in
      let start : token ≡ codes "eyJ" ++ (rest ++ dot ∷ payload) ++ dot ∷ signature =
        ap (λ h. (h ++ dot ∷ payload) ++ dot ∷ signature) json in
      let filled : bytes_eq token [] ≡ false = ap (λ t. bytes_eq t []) start ∙ not_nil _ _ in
      validate_token_entra lib jwt cfg now token (
        three_parts_kind token header payload signature ((rest ++ dot ∷ payload) ++ dot ∷ signature)
          start parts has_header has_payload has_signature)
      ∙ validate_bearer_parts jwt cfg now expiry token header payload signature
          (jwt.marshal_claims expiry) on filled parts decoded read
