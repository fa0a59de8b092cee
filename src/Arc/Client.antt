-- ===== src/Arc/Client.antt =====
-- internal/arc/arc.go: `EnsureHybridConnectivity`, `GetRelayCredentials` and the two kinds of request under them. The
-- pipeline of azcore answers a request; it is a parameter, and the requests that were made are returned.
use aztunnel.Common.{ℕ, ◌||◌, if◌then◌else◌, leb, ◌==◌, Option, none, some, List, [], ◌∷◌, ◌++◌}
use aztunnel.Common.Text.{Bytes, codes, bytes_eq, decimal}
use aztunnel.GoError.{Err}

-- `RelayInfo`
pub record RelayInfo : Type 0 where
  pub namespace_name : Bytes
  pub namespace_name_suffix : Bytes
  pub hybrid_connection_name : Bytes
  pub access_key : Bytes
  pub expires_on : ℕ
  pub service_configuration_token : Bytes

-- `RelayInfo.Endpoint`
unfoldable pub endpoint : RelayInfo → Bytes
endpoint r = r.namespace_name ++ codes "." ++ r.namespace_name_suffix

pub data Method : Type 0 where
  put post : Method

pub record Request : Type 0 where
  pub method : Method
  pub url : Bytes
  pub body : Bytes

-- A response, or the error of the pipeline before there is one.
pub data Reply : Type 0 where
  response : (status : ℕ) → (body : Bytes) → Reply
  no_response : Err → Reply

-- `quote` is `%q` of fmt, `join_paths` that of azcore, and `unmarshal` reads the JSON of the credentials.
pub record Service : Type 0 where
  pub arm_endpoint : Bytes
  pub join_paths : Bytes → Bytes → Bytes
  pub quote : Bytes → Bytes
  pub unmarshal : Bytes → Option RelayInfo
  pub answer : Request → Reply

pub data ArcError : Type 0 where
  arm_error : (status : ℕ) → (body : Bytes) → ArcError
  pipeline_error : Err → ArcError
  bad_json incomplete : ArcError

pub data ArcResult (A : Type 0) : Type 0 where
  ok : A → ArcResult A
  failed : ArcError → ArcResult A

abbrev checked : Reply → ArcResult Bytes
checked (no_response e) = failed (pipeline_error e)
checked (response status body) = if leb 400 status then failed (arm_error status body) else ok body

-- `armPUT`; the body of a success is not read.
unfoldable pub arm_put : Service → (url body : Bytes) → Option ArcError
arm_put s url body = elim (checked (s.answer (record { method = put; url = url; body = body }))) [
  | ok b ↦ none
  | failed e ↦ some e
]

-- `armPOST`
unfoldable pub arm_post : Service → (url body : Bytes) → ArcResult Bytes
arm_post s url body = checked (s.answer (record { method = post; url = url; body = body }))

abbrev pub api_version : Bytes
api_version = codes "2023-03-15"

abbrev or_default_service : Bytes → Bytes
or_default_service name = if bytes_eq name [] then codes "SSH" else name

abbrev pub or_default_port : ℕ → ℕ
or_default_port port = if port == 0 then 22 else port

abbrev pub endpoint_body : Bytes
endpoint_body = codes "{\"properties\": {\"type\": \"default\"}}"

unfoldable pub endpoint_url : Service → (resource_id : Bytes) → Bytes
endpoint_url s resource_id =
    s.join_paths s.arm_endpoint
      (resource_id ++ codes "/providers/Microsoft.HybridConnectivity/endpoints/default")
    ++ codes "?api-version="
    ++ api_version

unfoldable pub service_config_url : Service → (resource_id service : Bytes) → Bytes
service_config_url s resource_id service =
    s.join_paths s.arm_endpoint (
      resource_id
      ++ codes "/providers/Microsoft.HybridConnectivity/endpoints/default/serviceConfigurations/"
      ++ service)
    ++ codes "?api-version="
    ++ api_version

unfoldable pub service_body : Service → (service : Bytes) → (port : ℕ) → Bytes
service_body s service port =
    codes "{\"properties\": {\"serviceName\": "
    ++ s.quote service
    ++ codes ", \"port\": "
    ++ decimal port
    ++ codes "}}"

abbrev put_request : (url body : Bytes) → Request
put_request url body = record { method = put; url = url; body = body }

abbrev then_configure :
    Option ArcError → Request → Request → Option ArcError → List Request × Option ArcError
then_configure (some e) r1 r2 next = (r1 ∷ [], some e)
then_configure none r1 r2 next = (r1 ∷ r2 ∷ [], next)

-- `EnsureHybridConnectivity`: the requests that it made, and the error, if any.
unfoldable pub ensure_hybrid_connectivity :
    Service → (resource_id service : Bytes) → (port : ℕ) → List Request × Option ArcError
ensure_hybrid_connectivity s resource_id service port =
    let name = or_default_service service in
    let url = service_config_url s resource_id name in
    let body = service_body s name (or_default_port port) in
    then_configure (arm_put s (endpoint_url s resource_id) endpoint_body)
      (put_request (endpoint_url s resource_id) endpoint_body) (put_request url body)
      (arm_put s url body)

unfoldable pub credentials_url : Service → (resource_id : Bytes) → Bytes
credentials_url s resource_id =
    s.join_paths s.arm_endpoint (
      resource_id
      ++ codes "/providers/Microsoft.HybridConnectivity/endpoints/default/listCredentials")
    ++ codes "?expiresin="
    ++ decimal 10800
    ++ codes "&api-version="
    ++ api_version

abbrev complete : RelayInfo → ArcResult RelayInfo
complete r =
    if bytes_eq r.namespace_name [] || bytes_eq r.hybrid_connection_name []
    then failed incomplete
    else ok r

abbrev parsed : Option RelayInfo → ArcResult RelayInfo
parsed none = failed bad_json
parsed (some r) = complete r

abbrev read_credentials : Service → ArcResult Bytes → ArcResult RelayInfo
read_credentials s (failed e) = failed e
read_credentials s (ok body) = parsed (s.unmarshal body)

-- `GetRelayCredentials`
unfoldable pub get_relay_credentials : Service → (resource_id service : Bytes) → ArcResult RelayInfo
get_relay_credentials s resource_id service = read_credentials s (
    arm_post s (credentials_url s resource_id)
      (codes "{\"serviceName\": " ++ s.quote (or_default_service service) ++ codes "}"))

-- The three headers of the upgrade in `Dial` and `DialWithOptions`.
unfoldable pub dial_headers : RelayInfo → (port : ℕ) → List (Bytes × Bytes)
dial_headers r port =
    (codes "Servicebusauthorization", r.access_key)
    ∷ (codes "Service-Configuration-Token", r.service_configuration_token)
    ∷ (codes "Microsoft-Guestgateway-Target", codes "localhost:" ++ decimal (or_default_port port))
    ∷ []

-- The address that is dialled, with the random id.
unfoldable pub connect_url : RelayInfo → (id : Bytes) → Bytes
unfolding endpoint
connect_url r id =
    codes "wss://"
    ++ endpoint r
    ++ codes "/$hc/"
    ++ r.hybrid_connection_name
    ++ codes "?sb-hc-action=connect&sb-hc-id="
    ++ id
