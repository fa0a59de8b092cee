-- ===== src/Arc/Credentials.antt =====
-- internal/arc/arc.go: what the requests to the API come to.
use aztunnel.Common.{◌≡◌, false, [], arith}
use aztunnel.Common.Text.{Bytes, bytes_eq}
use aztunnel.Arc.Client.{RelayInfo, Service, ok, arm_post, get_relay_credentials}

-- Credentials are returned only from an answer below 400 whose JSON names a namespace and a hybrid connection.
pub get_relay_credentials-ok :
    (s : Service) (resource_id service : Bytes) (r : RelayInfo)
    → get_relay_credentials s resource_id service ≡ ok r
    → (bytes_eq r.namespace_name [] ≡ false) × (bytes_eq r.hybrid_connection_name [] ≡ false)
unfolding get_relay_credentials arm_post
get_relay_credentials-ok s resource_id service r h = ground (arith, h)
