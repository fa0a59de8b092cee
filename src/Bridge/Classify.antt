-- ===== src/Bridge/Classify.antt =====
-- internal/relay/bridge.go: how the error that ends a pump is filtered and classified.
use aztunnel.Common.{ℕ, Bool, true, false, Option, none, some, ◌==◌, ◌||◌, if◌then◌else◌}
use aztunnel.GoError.{
  Err, leaf, cause, peer_close, local_close, timeout, is, find_layer, is_eof, is_unexpected_eof,
  as_close_error, is_context_end, is_net_timeout,
}

-- The operation on which a pump exits: the `op` of `pumpResult`.
pub data Op : Type 0 where
  ws_read ws_write tcp_read tcp_write : Op

-- `isInducedCancellation`
unfoldable pub is_induced_cancellation : Option Err → Bool
is_induced_cancellation none = false
is_induced_cancellation (some e) =
    if is_context_end e then true else if is_net_timeout e then true else false

abbrev by_side : Op → Err
by_side ws_read = leaf (cause peer_close)
by_side ws_write = leaf (cause peer_close)
by_side tcp_read = leaf (cause local_close)
by_side tcp_write = leaf (cause local_close)

abbrev clean_exit : Op → Err
clean_exit ws_read = leaf (cause peer_close)
clean_exit _ = leaf (cause local_close)

abbrev or_close_error : Option ℕ → Op → Err
or_close_error (some code) op = leaf (cause peer_close)
or_close_error none op = by_side op

-- `causeFromPumpExit`
unfoldable pub cause_from_pump_exit : Op → Option Err → Err
cause_from_pump_exit op none = clean_exit op
cause_from_pump_exit op (some e) =
    if is_context_end e
    then e
    else if is_net_timeout e
    then leaf (cause timeout)
    else or_close_error (find_layer as_close_error e) op

-- `websocket.StatusNormalClosure`
abbrev pub status_normal_closure : ℕ
status_normal_closure = 1000

abbrev is_normal_code : Option ℕ → Bool
is_normal_code none = false
is_normal_code (some code) = code == status_normal_closure

-- `ignoreNormalClose`, which the pump calls on a non-nil error.
unfoldable pub ignore_normal_close : Err → Option Err
ignore_normal_close e = if is_normal_code (find_layer as_close_error e) then none else some e

-- `ignoreEOF`
unfoldable pub ignore_eof : Err → Option Err
ignore_eof e = if is is_eof e || is is_unexpected_eof e then none else some e

-- `WSCloseCode`; the pair `(0, false)` is `none`.
unfoldable pub ws_close_code : Option Err → Option ℕ
ws_close_code none = none
ws_close_code (some e) = find_layer as_close_error e
