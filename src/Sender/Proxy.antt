-- ===== src/Sender/Proxy.antt =====
-- internal/sender/socks5proxy.go: `handleSOCKS5` and `socks5RepForError`.
use aztunnel.Common.{ℕ, ◌*◌, Option, none, some, List, [], ◌∷◌, ◌++◌, if◌then◌else◌, ◌||◌}
use aztunnel.Common.Text.{Bytes, codes, bytes_eq}
use aztunnel.GoError.{Err, ConnectRejected, find_layer, as_rejected}
use aztunnel.Protocol.{
  Codec, code_connection_refused, code_network_unreachable, code_host_unreachable, code_timeout,
}
use aztunnel.Metrics.{envelope_error}
use aztunnel.Tunnel.{
  Effect, count_error, bridge, close_relay, log, info, warn, sender, measured, set_keep_alive,
  read_deadline, clear_deadline,
}
use aztunnel.Socks5.{
  Conn, Failure, Result, ok, err, TcpAddr, handshake, send_reply, rep_success, rep_general_failure,
  rep_network_unreachable, rep_host_unreachable, rep_connection_refused,
}
use aztunnel.Sender.Exchange.{
  Config, World, Exchanged, second, send_envelope_and_check, log_accept, log_rejection,
  instrumented_dial,
}
use aztunnel.Sender.Modes.{bridge_ended}

-- The `switch` over `ce.Code`.
abbrev rep_for_code : Bytes → ℕ
rep_for_code code =
    if bytes_eq code code_connection_refused
    then rep_connection_refused
    else if bytes_eq code code_network_unreachable
    then rep_network_unreachable
    else if bytes_eq code code_host_unreachable || bytes_eq code code_timeout
    then rep_host_unreachable
    else rep_host_unreachable

abbrev rep_for_rejection : Option ConnectRejected → ℕ
rep_for_rejection (some r) = rep_for_code r.code
rep_for_rejection none = rep_host_unreachable

-- `socks5RepForError`
unfoldable pub rep_for_error : Err → ℕ
rep_for_error e = rep_for_rejection (find_layer as_rejected e)

-- The errors that `handleSOCKS5` returns.
pub data ProxyError : Type 0 where
  bad_handshake : Failure → ProxyError
  relay : Err → ProxyError

-- The client's connection afterwards, the other effects, and the error returned.
pub record Proxied : Type 0 where
  pub conn : Conn
  pub effects : List Effect
  pub err : Option ProxyError

abbrev relay_error : Option Err → Option ProxyError
relay_error none = none
relay_error (some e) = some (relay e)

-- `_ = socks5.SendReply(conn, rep, addr)`
abbrev replied : ℕ → Option TcpAddr → Conn → Conn
replied rep addr c = (send_reply rep addr c).1

-- `local_addr` is `conn.LocalAddr()`, if it is a `*net.TCPAddr`.
module _ (ip_string : Bytes → Bytes) (codec : Codec) (cfg : Config) (w : World) (bridge_id : Bytes)
    (local_addr : Option TcpAddr) where
  proxy_exchanged : Bytes → Conn → Exchanged → Option Err → Proxied
  proxy_exchanged target c x (some e) = record {
    conn = replied (rep_for_error e) none c;
    effects =
        x.effects
        ++ log_rejection e
          ∷ measured cfg.metrics (count_error sender envelope_error) (close_relay ∷ []);
    err = some (relay e);
  }
  proxy_exchanged target c x none = record {
    conn = replied rep_success local_addr c;
    effects =
        x.effects
        ++ log_accept
          ∷ bridge sender target
          ∷ bridge_ended (codes "socks5 failed") w.bridge_err
          ∷ close_relay
          ∷ [];
    err = relay_error w.bridge_err;
  }

  proxy_dialled : Bytes → Conn → Option Err → Proxied
  unfolding proxy_exchanged
  proxy_dialled target c (some e) = record {
    conn = replied rep_general_failure none c;
    effects = log warn (codes "socks5 failed") ∷ [];
    err = some (relay e);
  }
  proxy_dialled target c none =
      let x = send_envelope_and_check codec w target bridge_id in proxy_exchanged target c x x.err

  abbrev pub ahead : List Effect → Proxied → Proxied
  ahead es p = record p { effects = es ++ p.effects }

  proxy_handshaken : Result Bytes → Conn → Proxied
  unfolding proxy_dialled
  proxy_handshaken (err f) c = record {
    conn = replied rep_general_failure none c;
    effects = log warn (codes "socks5 failed") ∷ [];
    err = some (bad_handshake f);
  }
  proxy_handshaken (ok target) c =
      ahead
        (clear_deadline
          ∷ log info (codes "connection requested")
          ∷ instrumented_dial cfg w.relay_dial)
        (proxy_dialled target c w.relay_dial)

  -- `handleSOCKS5`
  unfoldable pub handle_socks5 : Conn → Proxied
  unfolding proxy_handshaken
  handle_socks5 c =
      let (result, c') = handshake ip_string c in
      ahead (set_keep_alive cfg.tcp_keep_alive (read_deadline (30 * second) ∷ []))
        (proxy_handshaken result c')
