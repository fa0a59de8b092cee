-- ===== src/Causes.antt =====
-- internal/bridgecause/causes.go: the label under which the end of a bridge is logged.
use aztunnel.Common.{Option, none, some, if◌then◌else◌}
use aztunnel.Common.Text.{Bytes, codes}
use aztunnel.GoError.{
  Cause, peer_close, local_close, user_cancel, renew_failure, control_error, timeout, unknown, Err,
  is, is_canceled, is_deadline, is_cause,
}

-- The switch of `Name`, on a non-nil error.
unfoldable pub classify : Err → Cause
classify e =
    if is (is_cause peer_close) e
    then peer_close
    else if is (is_cause local_close) e
    then local_close
    else if is (is_cause user_cancel) e
    then user_cancel
    else if is (is_cause renew_failure) e
    then renew_failure
    else if is (is_cause control_error) e
    then control_error
    else if is (is_cause timeout) e
    then timeout
    else if is is_deadline e
    then timeout
    else if is is_canceled e
    then user_cancel
    else unknown

unfoldable pub label : Cause → Bytes
label peer_close = codes "peer_close"
label local_close = codes "local_close"
label user_cancel = codes "user_cancel"
label renew_failure = codes "renew_failure"
label control_error = codes "control_error"
label timeout = codes "timeout"
label unknown = codes "unknown"

-- `Name`
unfoldable pub name : Option Err → Bytes
name none = label unknown
name (some e) = label (classify e)
