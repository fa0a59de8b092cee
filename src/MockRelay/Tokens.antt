-- ===== src/MockRelay/Tokens.antt =====
-- internal/relay/auth.go and mockrelay/server/auth.go: the tokens that the clients make and the mock's
-- validators.
use aztunnel.Common.{
  ℕ, ◌+◌, ◌≡◌, refl, ◌∙◌, sym, append_assoc, true, List, ◌++◌, false, not, if◌then◌else◌, leb, none,
  some, [], ◌∷◌, arith, ap, pos,
}
use aztunnel.Common.Text.{Bytes, codes, bytes_eq, decimal, strip_prefix, strip_prefix-append}
use aztunnel.Common.Query.{
  encode_query, is_unreserved, unreserved, QueryLaws, decimal-unreserved, encode_query-plain,
}
use aztunnel.Common.Assoc.{lookup}
use aztunnel.Relay.Sas.{Library, unix, sas_prefix, sas_fields, sign, generate_sas_token}
use aztunnel.MockRelay.Auth.{
  AuthConfig, expired, wrong_skn, signature_mismatch, auth_sas, TokenLibrary, validate_sas,
  auth_kind, validate_token, sign_sas, get,
}

validate_token_sas :
    (lib : Library) (jwt : TokenLibrary) (cfg : AuthConfig) (now : ℕ) (token : Bytes)
    → auth_kind token ≡ auth_sas
    → validate_token lib jwt cfg now token ≡ validate_sas lib cfg now token
unfolding validate_token
validate_token_sas lib jwt cfg now token kind = ground (arith, kind)

token_not_empty :
    (token query : Bytes) → strip_prefix sas_prefix token ≡ some query → bytes_eq token [] ≡ false
unfolding strip_prefix bytes_eq
token_not_empty [] query h = absurd (ground arith)
token_not_empty (c ∷ token) query h = refl

-- A token whose query has the four fields.
validate_sas_fields :
    (lib : Library) (cfg : AuthConfig) (now : ℕ) (token query sr sig name : Bytes) (exp : ℕ)
    → strip_prefix sas_prefix token ≡ some query
    → lib.parse_query query
      ≡ some (
          (codes "sr", sr)
          ∷ (codes "sig", sig)
          ∷ (codes "se", decimal exp)
          ∷ (codes "skn", name)
          ∷ [])
    → lib.parse_int (decimal exp) ≡ some (pos exp)
    → cfg.skip_auth ≡ false
    → bytes_eq sr [] ≡ false
    → bytes_eq sig [] ≡ false
    → bytes_eq (decimal exp) [] ≡ false
    → bytes_eq name [] ≡ false
    → validate_sas lib cfg now token ≡ (
        if not (bytes_eq name cfg.sas_key_name)
        then some wrong_skn
        else (if leb exp (unix now)
            then some expired
            else (if bytes_eq (sign lib (lib.query_escape (lib.to_lower sr)) exp cfg.sas_key) sig
                then none
                else some signature_mismatch)))
unfolding validate_sas sign_sas sign get lookup bytes_eq
validate_sas_fields lib cfg now token query sr sig name exp stripped parsed digits on has_sr has_sig
      has_se has_name =
    rw
      (
        on,
        token_not_empty token query stripped,
        stripped,
        parsed,
        has_sr,
        has_sig,
        has_se,
        has_name,
        digits,
      )
      refl

-- The four pairs of a token's query.
abbrev token_pairs : (sr sig : Bytes) → (exp : ℕ) → (name : Bytes) → List (Bytes × Bytes)
token_pairs sr sig exp name =
    (codes "sr", sr) ∷ (codes "sig", sig) ∷ (codes "se", decimal exp) ∷ (codes "skn", name) ∷ []

-- What `GenerateSASToken` writes behind its prefix is a query in the documented form.
sas_fields-encode_query :
    (lib : Library) (sr : Bytes) (exp : ℕ) (name key : Bytes)
    → ((s : Bytes) → unreserved s ≡ true → lib.query_escape s ≡ s)
    → sas_fields lib (lib.query_escape sr) exp name key
      ≡ encode_query lib.query_escape
          (token_pairs sr (sign lib (lib.query_escape sr) exp key) exp name)
unfolding sas_fields encode_query unreserved is_unreserved
sas_fields-encode_query lib sr exp name key leaves =
    let esc = lib.query_escape in
    let sig = sign lib (esc sr) exp key in
    let last : Bytes × Bytes = (codes "skn", name) in
    let third : Bytes × Bytes = (codes "se", decimal exp) in
    let second : Bytes × Bytes = (codes "sig", sig) in
    let a =
      encode_query-plain esc (codes "sr") sr second (third ∷ last ∷ [])
        (leaves (codes "sr") refl) in
    let b =
      encode_query-plain esc (codes "sig") sig third (last ∷ []) (leaves (codes "sig") refl) in
    let c = encode_query-plain esc (codes "se") (decimal exp) last [] (leaves (codes "se") refl) in
    let d = leaves (codes "skn") refl in
    let e = leaves (decimal exp) (decimal-unreserved exp) in
    let d' = ap (λ k. k ++ b'=' ∷ esc name) d in
    let c' =
      c
      ∙ ap (λ v. codes "se=" ++ (v ++ b'&' ∷ encode_query esc (last ∷ []))) e
      ∙ ap (λ t. codes "se=" ++ (decimal exp ++ b'&' ∷ t)) d' in
    let b' = b ∙ ap (λ t. codes "sig=" ++ (esc sig ++ b'&' ∷ t)) c' in
    let nested : sas_fields lib (esc sr) exp name key
        ≡ codes "sr="
          ++ (esc sr
              ++ (codes "&sig="
                  ++ (esc sig ++ (codes "&se=" ++ (decimal exp ++ (codes "&skn=" ++ esc name)))))) =
      simp append_assoc refl in
    nested ∙ sym (a ∙ ap (λ t. codes "sr=" ++ (esc sr ++ b'&' ∷ t)) b')

-- What the mock does with a token that a client made for a resource, with its own name and key, at a time `made`.
module _ (lib : Library) (jwt : TokenLibrary) (cfg : AuthConfig) (made now : ℕ)
    (resource name key : Bytes) (expiry : ℕ) where
  abbrev pub exp : ℕ
  exp = unix (made + expiry)

  abbrev pub sr : Bytes
  sr = lib.to_lower resource

  abbrev pub sig : Bytes
  sig = sign lib (lib.query_escape sr) exp key

  stripped_token :
      strip_prefix sas_prefix (generate_sas_token lib made resource name key expiry)
      ≡ some (sas_fields lib (lib.query_escape sr) exp name key)
  unfolding generate_sas_token
  stripped_token =
      strip_prefix-append sas_prefix (sas_fields lib (lib.query_escape sr) exp name key)

  generated_kind : auth_kind (generate_sas_token lib made resource name key expiry) ≡ auth_sas
  unfolding auth_kind
  generated_kind = rw (stripped_token) refl

  -- A token that a client generates is validated by the mock as a SAS token: refused where the key name is not the
  -- mock's, refused as expired from its expiry on, refused where the mock's key gives another signature, and
  -- accepted otherwise. This takes of the library that a query in its documented form is read back and the
  -- expiry is parsed into its number, that lower case is stable, and that no field is empty.
  pub validate_token-generate_sas_token :
      QueryLaws lib.query_escape lib.parse_query
      → lib.parse_int (decimal exp) ≡ some (pos exp)
      → lib.to_lower sr ≡ sr
      → cfg.skip_auth ≡ false
      → bytes_eq sr [] ≡ false
      → bytes_eq sig [] ≡ false
      → bytes_eq (decimal exp) [] ≡ false
      → bytes_eq name [] ≡ false
      → validate_token lib jwt cfg now (generate_sas_token lib made resource name key expiry) ≡ (
          if not (bytes_eq name cfg.sas_key_name)
          then some wrong_skn
          else (if leb exp (unix now)
              then some expired
              else (if bytes_eq (sign lib (lib.query_escape sr) exp cfg.sas_key) sig
                  then none
                  else some signature_mismatch)))
  validate_token-generate_sas_token laws digits lower on has_sr has_sig has_se has_name =
      let query =
        ap (λ q. lib.parse_query q) (sas_fields-encode_query lib sr exp name key laws.leaves)
        ∙ laws.reads_back (token_pairs sr sig exp name) in
      let token = generate_sas_token lib made resource name key expiry in
      let stripped : strip_prefix sas_prefix token
          ≡ some (sas_fields lib (lib.query_escape sr) exp name key) =
        stripped_token in
      validate_token_sas lib jwt cfg now token generated_kind
      ∙ validate_sas_fields lib cfg now token (sas_fields lib (lib.query_escape sr) exp name key) sr
          sig name exp stripped query digits on has_sr has_sig has_se has_name
      ∙ ap
          (λ s.
            if not (bytes_eq name cfg.sas_key_name)
            then some wrong_skn
            else (if leb exp (unix now)
                then some expired
                else (if bytes_eq (sign lib (lib.query_escape s) exp cfg.sas_key) sig
                    then none
                    else some signature_mismatch)))
          lower
