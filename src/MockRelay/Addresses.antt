-- ===== src/MockRelay/Addresses.antt =====
-- mockrelay/server: the address that `rendezvousURL` mints leads back to the handler that it is meant for.
use aztunnel.Common.{
  ◌≡◌, refl, ap, ◌∙◌, Option, List, ◌∷◌, true, false, none, some, [], ◌++◌, arith, ◌⊎◌, inl, inr,
  Option-cases, subst,
}
use aztunnel.Common.Query.{encode_query, is_unreserved, unreserved, QueryLaws}
use aztunnel.Common.Assoc.{lookup}
use aztunnel.MockRelay.Auth.{get}
use aztunnel.Common.Text.{
  Bytes, codes, bytes_eq, eq_of_bytes_eq, cut-Lacks, strip_prefix-append, Lacks,
}
use aztunnel.MockRelay.Routes.{
  Url, UrlLibrary, slash, hc_prefix, entity_name, parse_entity, to_accept, handle_hc, Inbound,
  public_scheme_host, ws_scheme, Minted, rendezvous_url, validate_public_url, is_scheme, check_url,
}

parse_entity-escaped :
    (lib : UrlLibrary) (escaped name : Bytes)
    → Lacks slash escaped
    → lib.path_unescape escaped ≡ some name
    → bytes_eq name [] ≡ false
    → parse_entity lib (hc_prefix ++ escaped) ≡ entity_name name
unfolding parse_entity
parse_entity-escaped lib escaped name no_slash back filled =
    rw (strip_prefix-append hc_prefix escaped, cut-Lacks slash escaped no_slash, back, filled) refl

-- The two pairs of the minted query.
abbrev accept_pairs : (id : Bytes) → List (Bytes × Bytes)
accept_pairs id = (codes "sb-hc-action", codes "accept") ∷ (codes "id", id) ∷ []

minted_query :
    (escape : Bytes → Bytes) (id : Bytes)
    → ((s : Bytes) → unreserved s ≡ true → escape s ≡ s)
    → codes "sb-hc-action=accept&id=" ++ escape id ≡ encode_query escape (accept_pairs id)
unfolding encode_query unreserved is_unreserved
minted_query escape id leaves =
    rw (leaves (codes "sb-hc-action") refl, leaves (codes "accept") refl, leaves (codes "id") refl)
      refl

or_none : Option (List (Bytes × Bytes)) → List (Bytes × Bytes)
or_none none = []
or_none (some ps) = ps

handle_hc-accept :
    (lib : UrlLibrary) (escaped raw_query entity id : Bytes)
    → parse_entity lib (hc_prefix ++ escaped) ≡ entity_name entity
    → lib.query raw_query ≡ accept_pairs id
    → bytes_eq id [] ≡ false
    → handle_hc lib (hc_prefix ++ escaped) raw_query ≡ to_accept entity id
unfolding handle_hc get lookup bytes_eq
handle_hc-accept lib escaped raw_query entity id parsed pairs has_id =
    rw (pairs, parsed, has_id) refl

-- The address minted for an entity and an id, dialled as it is written, path and query, goes to the accept handler
-- with this entity and this id, also where the entity has a slash in its name. This takes of the escaping of a path
-- that it leaves no slash and is read back, and of the library's queries that their documented form is read back.
pub rendezvous_url-handle_hc :
    (lib : UrlLibrary) (public_url entity id : Bytes) (r : Inbound) (u : Minted)
    → QueryLaws lib.query_escape (λ s. some (lib.query s))
    → Lacks slash (lib.path_escape entity)
    → lib.path_unescape (lib.path_escape entity) ≡ some entity
    → bytes_eq entity [] ≡ false
    → bytes_eq id [] ≡ false
    → rendezvous_url lib public_url r entity id ≡ some u
    → (handle_hc lib u.raw_path u.raw_query ≡ to_accept entity id) × (u.path ≡ hc_prefix ++ entity)
unfolding rendezvous_url or_none
rendezvous_url-handle_hc lib public_url entity id r u laws no_slash back filled has_id minted =
    let parsed = parse_entity-escaped lib (lib.path_escape entity) entity no_slash back filled in
    let pairs : lib.query (codes "sb-hc-action=accept&id=" ++ lib.query_escape id)
        ≡ accept_pairs id =
      ap (λ q. lib.query q) (minted_query lib.query_escape id laws.leaves)
      ∙ ap or_none (laws.reads_back (accept_pairs id)) in
    let routed =
      handle_hc-accept lib (lib.path_escape entity)
        (codes "sb-hc-action=accept&id=" ++ lib.query_escape id) entity id parsed pairs has_id in
    elim (Option-cases (public_scheme_host lib public_url r)) [
      | inl none_there ↦ absurd (ground (arith, none_there, minted))
      | inr (p, there) ↦ ground (arith, there, minted, routed)
    ]

ws_scheme-is_scheme :
    (s : Bytes) → is_scheme s ≡ true → (ws_scheme s ≡ codes "ws") ⊎ (ws_scheme s ≡ codes "wss")
unfolding is_scheme ws_scheme
ws_scheme-is_scheme s h = ground (
  arith,
  h,
  eq_of_bytes_eq s (codes "ws"),
  eq_of_bytes_eq s (codes "wss"),
  eq_of_bytes_eq s (codes "http"),
  eq_of_bytes_eq s (codes "https"),
)

valid_url :
    (lib : UrlLibrary) (u : Url)
    → check_url lib (some u) ≡ none
    → (is_scheme (lib.to_lower u.scheme) ≡ true) × (bytes_eq u.host [] ≡ false)
valid_url lib u h = ground arith

-- With a public address that passed the check, an address is minted for every request, under a
-- websocket scheme.
pub rendezvous_url-validate_public_url :
    (lib : UrlLibrary) (public_url entity id : Bytes) (r : Inbound)
    → bytes_eq public_url [] ≡ false
    → validate_public_url lib public_url ≡ none
    → (u : Minted) × (rendezvous_url lib public_url r entity id ≡ some u)
      × ((u.scheme ≡ codes "ws") ⊎ (u.scheme ≡ codes "wss"))
      × (bytes_eq u.host [] ≡ false)
unfolding validate_public_url rendezvous_url public_scheme_host is_scheme
rendezvous_url-validate_public_url lib public_url entity id r configured valid =
    elim (Option-cases (lib.parse public_url)) [
      | inl none_there ↦ absurd (ground (arith, none_there, valid))
      | inr (p, there) ↦
          let (scheme, host) = valid_url lib p (subst (λ o. check_url lib o ≡ none) there valid) in
          (
            record {
              scheme = ws_scheme (lib.to_lower p.scheme);
              host = p.host;
              path = hc_prefix ++ entity;
              raw_path = hc_prefix ++ lib.path_escape entity;
              raw_query = codes "sb-hc-action=accept&id=" ++ lib.query_escape id;
            },
            rw (configured, there) refl,
            ws_scheme-is_scheme (lib.to_lower p.scheme) scheme,
            host,
          )
    ]
