-- ===== src/Listener/Connection.antt =====
-- internal/listener/listener.go: `applyDefaults`, `handleConnection` and `sendResponse`. What the
-- outside answers is a `World`.
use aztunnel.Common.{
  ℕ, ◌*◌, Bool, true, false, not, Option, none, some, List, [], ◌∷◌, ◌==◌, if◌then◌else◌,
}
use aztunnel.Common.Text.{Bytes, codes, bytes_eq}
use aztunnel.GoError.{Err}
use aztunnel.Protocol.{ConnectEnvelope, Codec, Decoded, decoded, malformed, current_version}
use aztunnel.Metrics.{envelope_error, allowlist_rejected, dial_failed, dial_reason}
use aztunnel.Tunnel.{
  Effect, send, dial_target, observe_dial, count_error, bridge, close_target, log, Read, got,
  failed, debug, info, warn, listener, measured, set_keep_alive,
}
use aztunnel.Listener.Allow.{Resolver, is_allowed}
use aztunnel.Listener.Dial.{classify_dial_error}

-- The fields of `Config` that the handler reads. `metrics` says whether `Metrics` is not nil; times
-- are in nanoseconds.
pub record Config : Type 0 where
  pub allow_list : List Bytes
  pub connect_timeout : ℕ
  pub tcp_keep_alive : ℕ
  pub listener_id : Bytes
  pub metrics : Bool

abbrev pub second : ℕ
second = 1000000000

-- `applyDefaults`; the fresh id of `idgen.NewListenerID` is an argument.
unfoldable pub apply_defaults : Bytes → Config → Config
apply_defaults fresh cfg = record cfg {
  connect_timeout = if cfg.connect_timeout == 0 then 30 * second else cfg.connect_timeout;
  tcp_keep_alive = if cfg.tcp_keep_alive == 0 then 30 * second else cfg.tcp_keep_alive;
  listener_id = if bytes_eq cfg.listener_id [] then fresh else cfg.listener_id;
}

-- The outside of one connection: what the first read gives, the error of a dial, and the error of a
-- write; and package net.
pub record World : Type 0 where
  pub first_read : Read
  pub dial : Bytes → Option Err
  pub write : Bytes → Option Err
  pub net : Resolver

module _ (codec : Codec) (cfg : Config) (w : World) where
  -- The message of `sendResponseWithCode`; `sendResponse` has the empty code.
  unfoldable pub response : Bool → Bytes → Bytes → Bytes
  response accepted error code = codec.marshal_response (record {
    version = current_version;
    accepted = accepted;
    error = error;
    code = code;
    listener_id = cfg.listener_id;
  })

  -- Behind the success response.
  after_response : Bytes → Option Err → List Effect
  after_response target (some e) = log warn (codes "failed to send response") ∷ close_target ∷ []
  after_response target none =
      bridge listener target ∷ log debug (codes "bridge ended") ∷ close_target ∷ []

  -- Behind the dial of the target.
  after_dial : Bytes → Option Err → List Effect
  unfolding response after_response
  after_dial target (some e) =
      log warn (codes "dial target failed")
      ∷ send (response false (codes "connection failed") (classify_dial_error (some e)))
      ∷ measured cfg.metrics (count_error listener (dial_reason e dial_failed)) []
  after_dial target none =
      set_keep_alive cfg.tcp_keep_alive
        (send (response true [] []) ∷ after_response target (w.write (response true [] [])))

  dial_it : Bytes → List Effect
  unfolding after_dial
  dial_it target =
      dial_target target
      ∷ measured cfg.metrics (observe_dial listener) (after_dial target (w.dial target))

  -- A refusal without a code, counted under a reason.
  refuse : Bytes → Effect → List Effect
  unfolding response
  refuse error counted = send (response false error []) ∷ measured cfg.metrics counted []

  -- `len(cfg.AllowList) > 0 && !isAllowed(env.Target, cfg.AllowList)`
  unfoldable pub is_rejected : Bytes → List Bytes → Bool
  is_rejected target [] = false
  is_rejected target (e ∷ es) = not (is_allowed w.net target (e ∷ es))

  requested : Bytes → List Effect
  unfolding is_rejected refuse dial_it
  requested target =
      log info (codes "connection requested")
      ∷ (if is_rejected target cfg.allow_list
          then log warn (codes "target not allowed")
            ∷ refuse (codes "target not allowed") (count_error listener allowlist_rejected)
          else dial_it target)

  with_envelope : Decoded ConnectEnvelope → List Effect
  unfolding requested refuse
  with_envelope (malformed e) =
      log warn (codes "invalid envelope")
      ∷ refuse (codes "invalid envelope") (count_error listener envelope_error)
  with_envelope (decoded env) =
      if not (env.version == current_version)
      then log warn (codes "unsupported protocol version")
        ∷ refuse (codes "unsupported protocol version") (count_error listener envelope_error)
      else if bytes_eq env.target []
      then refuse (codes "missing target") (count_error listener envelope_error)
      else requested env.target

  with_read : Read → List Effect
  unfolding with_envelope
  with_read (failed e) =
      log warn (codes "failed to read envelope")
      ∷ measured cfg.metrics (count_error listener envelope_error) []
  with_read (got bs) = with_envelope (codec.unmarshal_envelope bs)

  -- `handleConnection`
  unfoldable pub handle_connection : List Effect
  unfolding with_read
  handle_connection = with_read w.first_read
