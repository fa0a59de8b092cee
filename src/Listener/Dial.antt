-- ===== src/Listener/Dial.antt =====
-- internal/listener/listener.go: `classifyDialError`, and its agreement with the `DialReason` of
-- internal/metrics/metrics.go.
use aztunnel.Common.{Bool, Option, none, some, [], ◌≡◌, ◌↔◌, arith, if◌then◌else◌}
use aztunnel.Common.Text.{Bytes}
use aztunnel.GoError.{
  Err, is, is_deadline, is_errno, econnrefused, ehostunreach, enetunreach, find_layer, as_dns_error,
  is_net_timeout,
}
use aztunnel.Protocol.{
  code_connection_refused, code_host_unreachable, code_network_unreachable, code_timeout,
  code_dns_not_found, code_dns_timeout,
}
use aztunnel.Metrics.{dial_failed, dial_timeout, dns_not_found, dns_timeout, dial_reason}

-- The values of `ConnectResponse.Code`.
pub data Code : Type 0 where
  timeout dns_timeout_code dns_not_found_code refused host_unreachable network_unreachable : Code
  unclassified : Code

unfoldable pub code_text : Code → Bytes
code_text timeout = code_timeout
code_text dns_timeout_code = code_dns_timeout
code_text dns_not_found_code = code_dns_not_found
code_text refused = code_connection_refused
code_text host_unreachable = code_host_unreachable
code_text network_unreachable = code_network_unreachable
code_text unclassified = []

-- The tests behind the one for a DNS error.
classify_other : Err → Code
classify_other e =
    if is_net_timeout e
    then timeout
    else if is (is_errno econnrefused) e
    then refused
    else if is (is_errno ehostunreach) e
    then host_unreachable
    else if is (is_errno enetunreach) e
    then network_unreachable
    else unclassified

abbrev dns_or_other : Option Bool → Code → Code
dns_or_other (some is_timeout) other = if is_timeout then dns_timeout_code else dns_not_found_code
dns_or_other none other = other

-- The branches of `classifyDialError` on a non-nil error.
unfoldable pub dial_code : Err → Code
unfolding classify_other
dial_code e =
    if is is_deadline e
    then timeout
    else dns_or_other (find_layer as_dns_error e) (classify_other e)

-- `classifyDialError`
unfoldable pub classify_dial_error : Option Err → Bytes
classify_dial_error none = []
classify_dial_error (some e) = code_text (dial_code e)

-- The code sent to the sender and the reason counted by the listener tell the same story: the error
-- of a dial is counted as a timeout, as a DNS timeout and as a DNS failure exactly when it is sent
-- under the code of that kind.
pub dial_code-dial_reason :
    (e : Err)
    → ((dial_code e ≡ timeout) ↔ (dial_reason e dial_failed ≡ dial_timeout))
      × ((dial_code e ≡ dns_timeout_code) ↔ (dial_reason e dial_failed ≡ dns_timeout))
      × ((dial_code e ≡ dns_not_found_code) ↔ (dial_reason e dial_failed ≡ dns_not_found))
unfolding dial_code dial_reason
dial_code-dial_reason e = (
  ((λ h. ground arith), (λ h. ground arith)),
  ((λ h. ground arith), (λ h. ground arith)),
  ((λ h. ground arith), (λ h. ground arith)),
)
