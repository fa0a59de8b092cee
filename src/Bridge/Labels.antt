-- ===== src/Bridge/Labels.antt =====
-- internal/relay/bridge.go and internal/bridgecause/causes.go: the label that a pump's exit leads to.
use aztunnel.Common.{Bool, true, false, Option, none, some, ◌≡◌, ◌≢◌, ◌⊎◌, arith}
use aztunnel.GoError.{
  Err, peer_close, local_close, unknown, is, is_canceled, is_deadline, find_layer, as_close_error,
  is_net_timeout,
}
use aztunnel.Causes.{classify}
use aztunnel.Bridge.Classify.{Op, ws_read, ws_write, cause_from_pump_exit}

-- The operations on the WebSocket.
abbrev pub is_ws : Op → Bool
is_ws ws_read = true
is_ws ws_write = true
is_ws _ = false

-- A pump's exit never ends under the label "unknown".
pub classify-cause_from_pump_exit :
    (op : Op) (r : Option Err) → classify (cause_from_pump_exit op r) ≢ unknown
unfolding classify cause_from_pump_exit is
classify-cause_from_pump_exit ws_read none = ground arith
classify-cause_from_pump_exit _ none = ground arith
classify-cause_from_pump_exit op (some e) = ground arith

-- An exit that is neither a cancellation nor a timeout and carries no close frame is the peer's
-- exactly when the operation is one on the WebSocket, and the local side's otherwise.
pub side_of_exit :
    (op : Op) (e : Err)
    → is is_canceled e ≡ false
    → is is_deadline e ≡ false
    → is_net_timeout e ≡ false
    → find_layer as_close_error e ≡ none
    → ((is_ws op ≡ true) × (classify (cause_from_pump_exit op (some e)) ≡ peer_close))
      ⊎ ((is_ws op ≡ false) × (classify (cause_from_pump_exit op (some e)) ≡ local_close))
unfolding classify cause_from_pump_exit is
side_of_exit op e nc nd nt cl = ground arith
