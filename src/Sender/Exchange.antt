-- ===== src/Sender/Exchange.antt =====
-- internal/sender/portforward.go: `sendEnvelopeAndCheck`, `connectRejected`, `logAccept` and
-- `logRejection`; internal/sender/dial_budget.go; and `InstrumentedDial` and `TrackedBridge` of
-- internal/metrics/metrics.go as the sender calls them.
use aztunnel.Common.{
  ◌≡◌, arith, ℤ, pos, negsuc, ℕ, zero, suc, ◌*◌, Bool, Option, none, some, List, [], ◌∷◌, ◌++◌,
  if◌then◌else◌,
}
use aztunnel.Common.Text.{Bytes, codes, bytes_eq}
use aztunnel.GoError.{Err, leaf, wrap, text, rejected, ConnectRejected, find_layer, as_rejected}
use aztunnel.Protocol.{ConnectResponse, Codec, Decoded, decoded, malformed, current_version}
use aztunnel.Metrics.{relay_failed, dial_reason}
use aztunnel.Tunnel.{
  Effect, send, dial_relay, observe_dial, count_error, log, Read, got, failed, info, warn, sender,
  measured,
}

abbrev pub second : ℕ
second = 1000000000

-- A `time.Duration` in nanoseconds.
abbrev pub Duration : Type 0
Duration = ℤ

abbrev pub default_dial_budget : ℕ
default_dial_budget = 30 * second

-- `dialBudget`
unfoldable pub dial_budget : Duration → ℕ
dial_budget (pos zero) = default_dial_budget
dial_budget (pos (suc n)) = suc n
dial_budget (negsuc n) = default_dial_budget

-- `(*connectRejected).Error`
unfoldable pub rejection_text : ConnectRejected → Bytes
rejection_text r =
    if bytes_eq r.code []
    then codes "connection rejected: " ++ r.message
    else codes "connection rejected (" ++ (r.code ++ (codes "): " ++ r.message))

-- The fields that `PortForwardConfig`, `SOCKS5Config` and `ConnectConfig` share. `metrics` says
-- whether `Metrics` is not nil.
pub record Config : Type 0 where
  pub tcp_keep_alive : ℕ
  pub dial_budget : Duration
  pub metrics : Bool

-- The outside of one connection: the error of the relay dial, the error of a write on the WebSocket,
-- what the read of the response gives, and the error of the bridge.
pub record World : Type 0 where
  pub relay_dial : Option Err
  pub write : Bytes → Option Err
  pub response_read : Read
  pub bridge_err : Option Err

-- What a function returns beside its effects.
pub record Exchanged : Type 0 where
  pub effects : List Effect
  pub listener_id : Bytes
  pub err : Option Err

-- `fmt.Errorf("…: %w", err)`
abbrev pub wrapped : Bytes → Err → Option Err
wrapped why e = some (wrap (text why) e)

-- The answer of the listener.
abbrev check_response : List Effect → ConnectResponse → Exchanged
check_response es resp = record {
  effects = es;
  listener_id = resp.listener_id;
  err =
      if resp.accepted
      then none
      else some (
          leaf (
            rejected
              (record { message = resp.error; code = resp.code; listener_id = resp.listener_id })));
}

abbrev parse_response : List Effect → Decoded ConnectResponse → Exchanged
parse_response es (malformed e) = record {
  effects = es;
  listener_id = [];
  err = wrapped (codes "parse response") e;
}
parse_response es (decoded resp) = check_response es resp

abbrev read_response : Codec → List Effect → Read → Exchanged
read_response codec es (failed e) = record {
  effects = es;
  listener_id = [];
  err = wrapped (codes "read response") e;
}
read_response codec es (got bs) = parse_response es (codec.unmarshal_response bs)

abbrev after_envelope : Codec → World → List Effect → Option Err → Exchanged
after_envelope codec w es (some e) = record {
  effects = es;
  listener_id = [];
  err = wrapped (codes "send envelope") e;
}
after_envelope codec w es none = read_response codec es w.response_read

-- The message that `sendEnvelopeAndCheck` writes.
unfoldable pub envelope : Codec → Bytes → Bytes → Bytes
envelope codec target bridge_id =
    codec.marshal_envelope
      (record { version = current_version; target = target; metadata = []; bridge_id = bridge_id })

-- `sendEnvelopeAndCheck`
unfoldable pub send_envelope_and_check : Codec → World → Bytes → Bytes → Exchanged
unfolding envelope
send_envelope_and_check codec w target bridge_id =
    let message = envelope codec target bridge_id in
    after_envelope codec w (send message ∷ []) (w.write message)

-- `logAccept`
abbrev pub log_accept : Effect
log_accept = log info (codes "listener accepted connection")

abbrev rejection_message : Option ConnectRejected → Bytes
rejection_message (some r) = codes "listener refused connection"
rejection_message none = codes "envelope exchange failed"

-- `logRejection`
unfoldable pub log_rejection : Err → Effect
log_rejection e = log warn (rejection_message (find_layer as_rejected e))

-- `InstrumentedDial`, with the error of `DialWithRetry`.
unfoldable pub instrumented_dial : Config → Option Err → List Effect
unfolding dial_budget
instrumented_dial cfg none =
    dial_relay (dial_budget cfg.dial_budget) ∷ measured cfg.metrics (observe_dial sender) []
instrumented_dial cfg (some e) =
    dial_relay (dial_budget cfg.dial_budget)
    ∷ measured cfg.metrics (observe_dial sender)
        (measured cfg.metrics (count_error sender (dial_reason e relay_failed)) [])

-- The exchange writes one message, whatever comes of it.
pub effects-send_envelope_and_check :
    (codec : Codec) (w : World) (target bridge_id : Bytes)
    → (send_envelope_and_check codec w target bridge_id).effects
      ≡ send (envelope codec target bridge_id) ∷ []
unfolding send_envelope_and_check
effects-send_envelope_and_check codec w target bridge_id = ground arith
