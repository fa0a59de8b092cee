-- ===== src/Command.antt =====
-- cmd/aztunnel/main.go: what the commands take from flags and from the environment. The environment is a function
-- from the name of a variable, empty where it is not set.
use aztunnel.Common.{
  ℕ, ◌≡◌, Bool, true, false, not, ◌&&◌, ◌||◌, if◌then◌else◌, Option, none, some, [], arith, ℤ, pos,
  negsuc, subst,
}
use aztunnel.Common.Text.{Bytes, codes, bytes_eq, contains}
use aztunnel.GoError.{Err}
use aztunnel.Relay.Endpoint.{UriLibrary, parse_relay, IsQualified, parse_relay-IsQualified}

abbrev pub Environment : Type 0
Environment = Bytes → Bytes

-- The first of the two that is not empty.
unfoldable pub or_else : Bytes → Bytes → Bytes
or_else s t = if bytes_eq s [] then t else s

-- `AuthFlags`, without the name of the hybrid connection.
pub record AuthFlags : Type 0 where
  pub relay : Bytes
  pub namespace_alias : Bytes
  pub relay_suffix : Bytes
  pub relay_insecure_tls : Bool

-- `DefaultRelaySuffix`
abbrev pub default_relay_suffix : Bytes
default_relay_suffix = codes ".servicebus.windows.net"

-- The token provider that is chosen; its label is `ProviderSAS` or `ProviderEntra`.
pub data Provider : Type 0 where
  sas : (key_name key : Bytes) → Provider
  entra : Provider

pub data AuthFailure : Type 0 where
  no_relay : AuthFailure
  bad_relay : Bytes → AuthFailure
  no_credential : Err → AuthFailure

pub data Auth : Type 0 where
  resolved : (endpoint : Bytes) → (insecure : Bool) → Provider → Auth
  refused : AuthFailure → Auth

unfoldable pub relay_name : AuthFlags → Environment → Bytes
unfolding or_else
relay_name f env = or_else f.relay (or_else f.namespace_alias (env (codes "AZTUNNEL_RELAY_NAME")))

unfoldable pub relay_suffix_of : AuthFlags → Environment → Bytes
unfolding or_else
relay_suffix_of f env =
    or_else f.relay_suffix (or_else (env (codes "AZTUNNEL_RELAY_SUFFIX")) default_relay_suffix)

abbrev insecure_of : AuthFlags → Environment → Bool
insecure_of f env =
    f.relay_insecure_tls || bytes_eq (env (codes "AZTUNNEL_RELAY_INSECURE_TLS")) (codes "1")

-- Whether both variables of a SAS key are set.
abbrev pub has_sas : Environment → Bool
has_sas env =
    not (bytes_eq (env (codes "AZTUNNEL_KEY_NAME")) [])
    && not (bytes_eq (env (codes "AZTUNNEL_KEY")) [])

-- The credential of azidentity is made only here; `cred` is the error of it.
abbrev with_entra : (endpoint : Bytes) → Bool → Option Err → Auth
with_entra endpoint insecure none = resolved endpoint insecure entra
with_entra endpoint insecure (some e) = refused (no_credential e)

-- `resolveAuth`
unfoldable pub resolve_auth : UriLibrary → Environment → (cred : Option Err) → AuthFlags → Auth
resolve_auth lib env cred f =
    let ns = relay_name f env in
    let endpoint = parse_relay lib ns (relay_suffix_of f env) in
    let insecure = insecure_of f env in
    if bytes_eq ns []
    then refused no_relay
    else if bytes_eq endpoint []
    then refused (bad_relay ns)
    else if has_sas env
    then resolved endpoint insecure
        (sas (env (codes "AZTUNNEL_KEY_NAME")) (env (codes "AZTUNNEL_KEY")))
    else with_entra endpoint insecure cred

-- `resolveHyco` and `resolveResourceID`: a flag, or a variable; `none` is the error that neither is set.
unfoldable pub required : (flag variable : Bytes) → Option Bytes
required flag variable =
    if not (bytes_eq flag [])
    then some flag
    else if bytes_eq variable []
    then none
    else some variable

unfoldable pub resolve_hyco : Environment → (flag : Bytes) → Option Bytes
unfolding required
resolve_hyco env flag = required flag (env (codes "AZTUNNEL_HYCO_NAME"))

unfoldable pub resolve_resource_id : Environment → (flag : Bytes) → Option Bytes
unfolding required
resolve_resource_id env flag = required flag (env (codes "AZTUNNEL_ARC_RESOURCE_ID"))

-- What `resolveMetrics` comes to: no metrics, an error, or a server with a cap on the targets.
pub data MetricsChoice : Type 0 where
  no_metrics bad_max_targets : MetricsChoice
  no_listen : Err → MetricsChoice
  serving : (max_targets : ℕ) → MetricsChoice

abbrev listen_metrics : Option Err → ℤ → MetricsChoice
listen_metrics listen (negsuc n) = bad_max_targets
listen_metrics none (pos n) = serving n
listen_metrics (some e) (pos n) = no_listen e

-- `resolveMetrics`, with the error of the listening on an address.
unfoldable pub resolve_metrics :
    Environment → (listen : Bytes → Option Err) → (flag : Bytes) → (max_targets : ℤ) → MetricsChoice
unfolding or_else
resolve_metrics env listen flag max_targets =
    let addr = or_else flag (env (codes "AZTUNNEL_METRICS_ADDR")) in
    if bytes_eq addr [] then no_metrics else listen_metrics (listen addr) max_targets

-- An endpoint that is resolved is what the names parse to, and not empty.
resolved-parse_relay :
    (lib : UriLibrary) (env : Environment) (cred : Option Err) (f : AuthFlags) (endpoint : Bytes)
    (insecure : Bool) (p : Provider)
    → resolve_auth lib env cred f ≡ resolved endpoint insecure p
    → (parse_relay lib (relay_name f env) (relay_suffix_of f env) ≡ endpoint)
      × (bytes_eq endpoint [] ≡ false)
unfolding resolve_auth
resolved-parse_relay lib env none f endpoint insecure p h = ground arith
resolved-parse_relay lib env (some e) f endpoint insecure p h = ground arith

-- The endpoint that the commands dial and sign is never empty and never a bare namespace, for a suffix with a dot.
pub resolve_auth-IsQualified :
    (lib : UriLibrary) (env : Environment) (cred : Option Err) (f : AuthFlags) (endpoint : Bytes)
    (insecure : Bool) (p : Provider)
    → contains b'.' (relay_suffix_of f env) ≡ true
    → resolve_auth lib env cred f ≡ resolved endpoint insecure p
    → IsQualified endpoint × (bytes_eq endpoint [] ≡ false)
resolve_auth-IsQualified lib env cred f endpoint insecure p dot h =
    let r = resolved-parse_relay lib env cred f endpoint insecure p h in
    (
      subst IsQualified r.0
          (parse_relay-IsQualified lib (relay_name f env) (relay_suffix_of f env) dot),
      r.1,
    )
