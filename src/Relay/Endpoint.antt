-- ===== src/Relay/Endpoint.antt =====
-- internal/relay/endpoint.go: `ParseRelay`. `url.Parse`, `strings.TrimSpace` and `strconv.Atoi` are parameters.
use aztunnel.Common.{
  ℕ, ◌≡◌, refl, Bool, true, false, not, ◌&&◌, ◌||◌, if◌then◌else◌, leb, Option, none, some, [], ◌∷◌,
  ◌++◌, arith, subst, sym, ◌⊎◌, inl, inr,
}
use aztunnel.Common.Text.{Bytes, codes, bytes_eq, contains}
use aztunnel.Common.Search.{find}

-- What the code reads of a parsed address. `host_ends_in_colon` is `strings.HasSuffix(u.Host, ":")`.
pub record Uri : Type 0 where
  pub scheme : Bytes
  pub host : Bytes
  pub hostname : Bytes
  pub port : Bytes
  pub host_ends_in_colon : Bool
  pub has_user : Bool
  pub raw_query : Bytes
  pub force_query : Bool
  pub fragment : Bytes
  pub path : Bytes

pub record UriLibrary : Type 0 where
  pub trim_space : Bytes → Bytes
  pub to_lower : Bytes → Bytes
  pub parse : Bytes → Option Uri
  pub atoi : Bytes → Option ℕ

abbrev is_empty : Bytes → Bool
is_empty s = bytes_eq s []

abbrev is_some : Option (Bytes × Bytes) → Bool
is_some none = false
is_some (some p) = true

abbrev in_range : Option ℕ → Bool
in_range none = false
in_range (some n) = leb 1 n && leb n 65535

unfoldable pub is_tls_scheme : Bytes → Bool
is_tls_scheme s = bytes_eq s (codes "sb") || bytes_eq s (codes "https") || bytes_eq s (codes "wss")

-- A host without a dot and a colon is the bare name of a namespace.
unfoldable pub with_suffix : (default_suffix host : Bytes) → Bytes
with_suffix default_suffix host =
    if contains b'.' host || contains b':' host then host else host ++ default_suffix

abbrev canonical_host : Bytes → Uri → Bytes
canonical_host scheme u =
    if bytes_eq u.port (codes "443")
      && (bytes_eq scheme (codes "https") || bytes_eq scheme (codes "wss"))
    then u.hostname
    else u.host

abbrev parse_uri : UriLibrary → (input default_suffix : Bytes) → Option Uri → Bytes
parse_uri lib input default_suffix none = []
parse_uri lib input default_suffix (some u) =
    let scheme = lib.to_lower u.scheme in
    if is_empty u.host
    then []
    else if not (is_tls_scheme scheme)
    then []
    else if u.has_user
        || not (is_empty u.raw_query)
        || u.force_query
        || not (is_empty u.fragment)
        || contains b'#' input
    then []
    else if not (is_empty u.path) && not (bytes_eq u.path (codes "/"))
    then []
    else if u.host_ends_in_colon
    then []
    else if not (is_empty u.port) && not (in_range (lib.atoi u.port))
    then []
    else with_suffix default_suffix (canonical_host scheme u)

-- What follows the trimming, so that no space stands at an end.
unfoldable pub parse_trimmed : UriLibrary → (input default_suffix : Bytes) → Bytes
unfolding with_suffix
parse_trimmed lib input default_suffix =
    if is_empty input
    then []
    else if is_some (find (codes "://") input)
    then parse_uri lib input default_suffix (lib.parse input)
    else if contains b':' input
    then []
    else if contains b'.' input
    then input
    else input ++ default_suffix

-- `ParseRelay`; the empty text is the refusal.
unfoldable pub parse_relay : UriLibrary → (input default_suffix : Bytes) → Bytes
unfolding parse_trimmed
parse_relay lib input default_suffix = parse_trimmed lib (lib.trim_space input) default_suffix

contains-append : (b : ℕ) (xs ys : Bytes) → contains b (xs ++ ys) ≡ (contains b xs || contains b ys)
unfolding contains
contains-append b [] ys = refl
contains-append b (x ∷ xs) ys = ground (arith, contains-append b xs ys)

-- The refusal, or a host with a dot or a port.
abbrev pub IsQualified : Bytes → Type 0
IsQualified h = (h ≡ []) ⊎ ((contains b'.' h || contains b':' h) ≡ true)

with_suffix-IsQualified :
    (default_suffix host : Bytes)
    → contains b'.' default_suffix ≡ true
    → IsQualified (with_suffix default_suffix host)
unfolding with_suffix
with_suffix-IsQualified default_suffix host dot =
    inr (ground (arith, dot, contains-append b'.' host default_suffix))

-- The two ends of the parsing of an address.
parse_uri_ends :
    (lib : UriLibrary) (input default_suffix : Bytes) (u : Uri)
    → (parse_uri lib input default_suffix (some u) ≡ [])
      ⊎ (parse_uri lib input default_suffix (some u)
          ≡ with_suffix default_suffix (canonical_host (lib.to_lower u.scheme) u))
parse_uri_ends lib input default_suffix u = ground arith

parse_uri-IsQualified :
    (lib : UriLibrary) (input default_suffix : Bytes) (o : Option Uri)
    → contains b'.' default_suffix ≡ true
    → IsQualified (parse_uri lib input default_suffix o)
parse_uri-IsQualified lib input default_suffix none dot = inl refl
parse_uri-IsQualified lib input default_suffix (some u) dot =
    let q = with_suffix-IsQualified default_suffix (canonical_host (lib.to_lower u.scheme) u) dot in
    elim (parse_uri_ends lib input default_suffix u) [
      | inl refused ↦ inl refused
      | inr hosted ↦ subst IsQualified (sym hosted) q
    ]

-- Whatever is given as the relay, the result is the refusal or a qualified host, one with a dot or a port: the bare name
-- of a namespace never gets through without the suffix. The suffix has a dot.
pub parse_relay-IsQualified :
    (lib : UriLibrary) (input default_suffix : Bytes)
    → contains b'.' default_suffix ≡ true
    → IsQualified (parse_relay lib input default_suffix)
unfolding parse_relay parse_trimmed
parse_relay-IsQualified lib input default_suffix dot =
    let s = lib.trim_space input in
    let parsed = parse_uri-IsQualified lib s default_suffix (lib.parse s) dot in
    ground (arith, dot, parsed, contains-append b'.' s default_suffix)
