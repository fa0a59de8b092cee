-- ===== src/Metrics.antt =====
-- internal/metrics/metrics.go: the reason labels of failed connections. Targets is `SanitizeTarget`, with
-- its bound in Cardinality; Connections is `ConnectionOpened` and `Done`.
pub mod Targets
pub mod Cardinality
pub mod Connections
use aztunnel.Common.{Bool, true, false, Option, none, some, if◌then◌else◌}
use aztunnel.GoError.{Err, is, is_deadline, find_layer, as_dns_error, is_net_timeout}

-- The `Reason…` constants.
pub data Reason : Type 0 where
  dial_failed dial_timeout relay_failed auth_failed envelope_error allowlist_rejected : Reason
  dns_not_found dns_timeout : Reason

abbrev is_dial_failed : Reason → Bool
is_dial_failed dial_failed = true
is_dial_failed _ = false

abbrev timeout_or : Reason → Bool → Reason
timeout_or fallback timed_out = if timed_out then dial_timeout else fallback

abbrev dns_or : Option Bool → Reason → Reason
dns_or (some is_timeout) other = if is_timeout then dns_timeout else dns_not_found
dns_or none other = other

-- `DialReason`
unfoldable pub dial_reason : Err → Reason → Reason
dial_reason e fallback =
    if is is_deadline e
    then dial_timeout
    else if is_dial_failed fallback
    then dns_or (find_layer as_dns_error e) (timeout_or fallback (is_net_timeout e))
    else timeout_or fallback (is_net_timeout e)
