-- ===== src/Relay/Sas.antt =====
-- internal/relay/auth.go: `GenerateSASToken`, `sign` and the address of a resource, with
-- `SASTokenProvider.GetToken`. The hash, the encodings and the case folding of Go's library are parameters.
use aztunnel.Common.{ℕ, ◌+◌, ◌*◌, ◌/◌, if◌then◌else◌, List, [], ◌∷◌, ◌++◌, Option, ℤ}
use aztunnel.Common.Text.{Bytes, codes, bytes_eq, decimal}

-- `hmac key text` is HMAC-SHA256 and `base64` the standard encoding; `query_escape` is `url.QueryEscape`,
-- `parse_query` is `url.ParseQuery`, and
-- `parse_int` is `strconv.ParseInt` to the base 10.
pub record Library : Type 0 where
  pub hmac : Bytes → Bytes → Bytes
  pub base64 : Bytes → Bytes
  pub to_lower : Bytes → Bytes
  pub query_escape : Bytes → Bytes
  pub parse_query : Bytes → Option (List (Bytes × Bytes))
  pub parse_int : Bytes → Option ℤ

-- `time.Time.Unix`, of a time in nanoseconds.
abbrev pub unix : ℕ → ℕ
unix t = t / 1000000000

-- `tokenExpiry` of control.go.
abbrev pub token_expiry : ℕ
token_expiry = 60 * 60 * 1000000000

-- `EndpointToHTTPS` and `EndpointToWSS`
unfoldable pub endpoint_to_https : Bytes → Bytes
endpoint_to_https endpoint = codes "https://" ++ endpoint

unfoldable pub endpoint_to_wss : Bytes → Bytes
endpoint_to_wss endpoint = codes "wss://" ++ endpoint

-- `ResourceURI`
unfoldable pub resource_uri : (fqdn entity_path : Bytes) → Bytes
resource_uri fqdn entity_path =
    let base = endpoint_to_https fqdn in
    if bytes_eq entity_path [] then base else base ++ codes "/" ++ entity_path

abbrev pub newline : Bytes
newline = 10 ∷ []

-- `sign`
unfoldable pub sign : Library → (uri : Bytes) → (expiry : ℕ) → (key : Bytes) → Bytes
sign lib uri expiry key = lib.base64 (lib.hmac key (uri ++ newline ++ decimal expiry))

abbrev pub sas_prefix : Bytes
sas_prefix = codes "SharedAccessSignature "

-- The fields of a token, behind its prefix.
unfoldable pub sas_fields : Library → (uri : Bytes) → (exp : ℕ) → (key_name key : Bytes) → Bytes
sas_fields lib uri exp key_name key =
    codes "sr="
    ++ uri
    ++ codes "&sig="
    ++ lib.query_escape (sign lib uri exp key)
    ++ codes "&se="
    ++ decimal exp
    ++ codes "&skn="
    ++ lib.query_escape key_name

-- `GenerateSASToken`, at a time; it returns no error.
unfoldable pub generate_sas_token :
    Library → (now : ℕ) → (resource_uri key_name key : Bytes) → (expiry : ℕ) → Bytes
generate_sas_token lib now resource_uri key_name key expiry =
    sas_prefix
    ++ sas_fields lib (lib.query_escape (lib.to_lower resource_uri)) (unix (now + expiry)) key_name
        key

-- `SASTokenProvider.GetToken`
unfoldable pub get_sas_token : Library → (now : ℕ) → (key_name key resource_uri : Bytes) → Bytes
get_sas_token lib now key_name key resource_uri =
    generate_sas_token lib now resource_uri key_name key token_expiry
