-- ===== src/Sender/Modes.antt =====
-- internal/sender/portforward.go: `forwardConnection`; internal/sender/connect.go: `Connect`.
use aztunnel.Common.{Option, none, some, List, [], ◌∷◌, ◌++◌}
use aztunnel.Common.Text.{Bytes, codes}
use aztunnel.GoError.{Err}
use aztunnel.Protocol.{Codec}
use aztunnel.Metrics.{envelope_error}
use aztunnel.Tunnel.{
  Effect, count_error, bridge, close_relay, log, debug, info, warn, sender, measured,
  set_keep_alive,
}
use aztunnel.Sender.Exchange.{
  Config, World, Exchanged, send_envelope_and_check, log_accept, log_rejection, instrumented_dial,
}

pub record Outcome : Type 0 where
  pub effects : List Effect
  pub err : Option Err

abbrev pub prepend : List Effect → Outcome → Outcome
prepend es o = record { effects = es ++ o.effects; err = o.err }

-- The log line of a bridge that has ended; `Connect` logs at one level only.
abbrev pub bridge_ended : Bytes → Option Err → Effect
bridge_ended complaint none = log debug (codes "bridge ended")
bridge_ended complaint (some e) = log warn complaint

module _ (codec : Codec) (cfg : Config) (w : World) (target bridge_id : Bytes) where
  -- Behind the exchange; the deferred `ws.CloseNow` comes last.
  forward_exchanged : Exchanged → Option Err → Outcome
  forward_exchanged x (some e) = record {
    effects =
        x.effects
        ++ log_rejection e
          ∷ measured cfg.metrics (count_error sender envelope_error) (close_relay ∷ []);
    err = some e;
  }
  forward_exchanged x none = record {
    effects =
        x.effects
        ++ log_accept
          ∷ bridge sender target
          ∷ bridge_ended (codes "forward failed") w.bridge_err
          ∷ close_relay
          ∷ [];
    err = w.bridge_err;
  }

  forward_dialled : Option Err → Outcome
  unfolding forward_exchanged
  forward_dialled (some e) = record {
    effects = log warn (codes "forward failed") ∷ [];
    err = some e;
  }
  forward_dialled none =
      let x = send_envelope_and_check codec w target bridge_id in forward_exchanged x x.err

  -- `forwardConnection`
  unfoldable pub forward_connection : Outcome
  unfolding forward_dialled
  forward_connection =
      prepend
        (set_keep_alive cfg.tcp_keep_alive
          (log info (codes "connection requested") ∷ instrumented_dial cfg w.relay_dial))
        (forward_dialled w.relay_dial)

  connect_exchanged : Exchanged → Option Err → Outcome
  connect_exchanged x (some e) = record {
    effects =
        x.effects
        ++ log_rejection e
          ∷ measured cfg.metrics (count_error sender envelope_error) (close_relay ∷ []);
    err = some e;
  }
  connect_exchanged x none = record {
    effects =
        x.effects
        ++ log_accept ∷ bridge sender target ∷ log debug (codes "bridge ended") ∷ close_relay ∷ [];
    err = w.bridge_err;
  }

  connect_dialled : Option Err → Outcome
  unfolding connect_exchanged
  connect_dialled (some e) = record { effects = []; err = some e }
  connect_dialled none =
      let x = send_envelope_and_check codec w target bridge_id in connect_exchanged x x.err

  -- `Connect`
  unfoldable pub connect : Outcome
  unfolding connect_dialled
  connect =
      prepend (log info (codes "connection requested") ∷ instrumented_dial cfg w.relay_dial)
        (connect_dialled w.relay_dial)
