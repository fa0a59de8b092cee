-- ===== src/MockRelay/Routes.antt =====
-- mockrelay/server: the routing of a request (`handleHC` of server.go, `parseEntity` of util.go), the address
-- that is minted for a rendezvous (`rendezvousURL` and `publicSchemeHost` of rendezvous.go) and the check of the
-- public one (`validatePublicURL`). `net/url` is a parameter.
use aztunnel.Common.{ℕ, Bool, not, ◌&&◌, ◌||◌, if◌then◌else◌, Option, none, some, List, [], ◌++◌}
use aztunnel.MockRelay.Auth.{get}
use aztunnel.Common.Text.{Bytes, codes, bytes_eq, cut, strip_prefix}

-- The parts of a parsed address that the code reads. `port` is `none` where `strconv.ParseUint` of a port that
-- is not empty fails or gives 0.
pub record Url : Type 0 where
  pub scheme : Bytes
  pub host : Bytes
  pub has_user : Bool
  pub host_ends_in_colon : Bool
  pub port_ok : Bool
  pub path : Bytes
  pub raw_query : Bytes
  pub fragment : Bytes

-- `query` is `URL.Query` of the raw query: the pairs that can be read, in their order.
pub record UrlLibrary : Type 0 where
  pub parse : Bytes → Option Url
  pub to_lower : Bytes → Bytes
  pub path_escape : Bytes → Bytes
  pub path_unescape : Bytes → Option Bytes
  pub query_escape : Bytes → Bytes
  pub query : Bytes → List (Bytes × Bytes)

abbrev pub slash : ℕ
slash = b'/'

abbrev pub hc_prefix : Bytes
hc_prefix = codes "/$hc/"

-- The errors of `parseEntity`, or the entity.
pub data Entity : Type 0 where
  entity_name : Bytes → Entity
  bad_prefix bad_escape empty_entity : Entity

abbrev named : Option Bytes → Entity
named none = bad_escape
named (some e) = if bytes_eq e [] then empty_entity else entity_name e

abbrev up_to_slash : Bytes → Option (Bytes × Bytes) → Bytes
up_to_slash rest none = rest
up_to_slash rest (some (before, after)) = before

abbrev parse_rest : UrlLibrary → Option Bytes → Entity
parse_rest lib none = bad_prefix
parse_rest lib (some rest) = named (lib.path_unescape (up_to_slash rest (cut slash rest)))

-- `parseEntity`
unfoldable pub parse_entity : UrlLibrary → (escaped_path : Bytes) → Entity
parse_entity lib escaped_path = parse_rest lib (strip_prefix hc_prefix escaped_path)

-- The handler that takes the request, or the status that answers it.
pub data Route : Type 0 where
  to_listen to_connect : Bytes → Route
  to_accept : (entity id : Bytes) → Route
  refused : ℕ → Route

abbrev route_action : (action id : Bytes) → Entity → Route
route_action action id (entity_name e) =
    if bytes_eq action (codes "listen")
    then to_listen e
    else (if bytes_eq action (codes "connect")
        then to_connect e
        else (if bytes_eq action (codes "accept")
            then (if bytes_eq id [] then refused 400 else to_accept e id)
            else refused 400))
route_action action id _ = refused 400

-- `handleHC`, on the escaped path and the raw query of the request.
unfoldable pub handle_hc : UrlLibrary → (escaped_path raw_query : Bytes) → Route
unfolding parse_entity get
handle_hc lib escaped_path raw_query =
    let values = lib.query raw_query in
    route_action (get (codes "sb-hc-action") values) (get (codes "id") values)
      (parse_entity lib escaped_path)

-- The fields of the request that `publicSchemeHost` reads.
pub record Inbound : Type 0 where
  pub host : Bytes
  pub tls : Bool

abbrev of_parsed : UrlLibrary → Option Url → Option (Bytes × Bytes)
of_parsed lib none = none
of_parsed lib (some u) = some (lib.to_lower u.scheme, u.host)

-- `publicSchemeHost`; `none` is an error.
unfoldable pub public_scheme_host :
    UrlLibrary → (public_url : Bytes) → Inbound → Option (Bytes × Bytes)
public_scheme_host lib public_url r =
    if not (bytes_eq public_url [])
    then of_parsed lib (lib.parse public_url)
    else (if bytes_eq r.host []
        then none
        else some ((if r.tls then codes "https" else codes "http"), r.host))

-- The scheme of a websocket, as the `switch` in `rendezvousURL` has it.
unfoldable pub ws_scheme : Bytes → Bytes
ws_scheme scheme =
    if bytes_eq scheme (codes "http")
    then codes "ws"
    else if bytes_eq scheme (codes "https")
    then codes "wss"
    else scheme

-- The parts of the minted address. `url.URL.String` puts them together.
pub record Minted : Type 0 where
  pub scheme : Bytes
  pub host : Bytes
  pub path : Bytes
  pub raw_path : Bytes
  pub raw_query : Bytes

abbrev mint : UrlLibrary → (entity id : Bytes) → Option (Bytes × Bytes) → Option Minted
mint lib entity id none = none
mint lib entity id (some (scheme, host)) = some (record {
  scheme = ws_scheme scheme;
  host = host;
  path = hc_prefix ++ entity;
  raw_path = hc_prefix ++ lib.path_escape entity;
  raw_query = codes "sb-hc-action=accept&id=" ++ lib.query_escape id;
})

-- `rendezvousURL`
unfoldable pub rendezvous_url :
    UrlLibrary → (public_url : Bytes) → Inbound → (entity id : Bytes) → Option Minted
unfolding public_scheme_host
rendezvous_url lib public_url r entity id = mint lib entity id (public_scheme_host lib public_url r)

pub data PublicUrlError : Type 0 where
  bad_url bad_scheme missing_host userinfo empty_port bad_port has_path has_query has_fragment :
      PublicUrlError

unfoldable pub is_scheme : Bytes → Bool
is_scheme s =
    bytes_eq s (codes "http")
    || bytes_eq s (codes "https")
    || bytes_eq s (codes "ws")
    || bytes_eq s (codes "wss")

abbrev pub check_url : UrlLibrary → Option Url → Option PublicUrlError
check_url lib none = some bad_url
check_url lib (some u) =
    if not (is_scheme (lib.to_lower u.scheme))
    then some bad_scheme
    else if bytes_eq u.host []
    then some missing_host
    else if u.has_user
    then some userinfo
    else if u.host_ends_in_colon
    then some empty_port
    else if not u.port_ok
    then some bad_port
    else if not (bytes_eq u.path []) && not (bytes_eq u.path (codes "/"))
    then some has_path
    else if not (bytes_eq u.raw_query [])
    then some has_query
    else if not (bytes_eq u.fragment [])
    then some has_fragment
    else none

-- `validatePublicURL`
unfoldable pub validate_public_url : UrlLibrary → Bytes → Option PublicUrlError
validate_public_url lib s = check_url lib (lib.parse s)
