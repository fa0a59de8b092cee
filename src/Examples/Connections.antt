-- ===== src/Examples/Connections.antt =====
-- Runs of the connection handlers of internal/listener and internal/sender, alone and together.
use aztunnel.Common.{
  ℕ, suc, ◌+◌, ◌≤◌, pos, Bool, true, false, Option, none, some, List, [], ◌∷◌, ◌++◌, ◌≡◌, refl, ◌≢◌,
  ◌⊎◌, inl, inr, arith, if◌then◌else◌, ◌==◌,
}
use aztunnel.Common.Text.{Bytes, codes, cut}
use aztunnel.GoError.{Err, leaf, wrap, errno, net_error, eof, econnrefused}
use aztunnel.Protocol.{Codec, Decoded, decoded, malformed, ConnectEnvelope, ConnectResponse}
use aztunnel.Tunnel.{got, count_if, is_bridge, dialled}
use aztunnel.Listener.Connection.{response, is_rejected, handle_connection}
use aztunnel.Listener.Outcome.{Admitted, handle_connection_dials_only}
use aztunnel.Sender.Exchange.{envelope, send_envelope_and_check}
use aztunnel.Examples.Targets.{names_only}

-- A codec that keeps what the examples need: the target of an envelope; and of a response the flag,
-- the error text and the code, with a zero byte between them.
abbrev flag : Bool → ℕ
flag true = 1
flag false = 0

abbrev response_of : ℕ → Option (Bytes × Bytes) → Decoded ConnectResponse
response_of n none = malformed (leaf eof)
response_of n (some (error, code)) =
    decoded
      (record { version = 1; accepted = n == 1; error = error; code = code; listener_id = [] })

abbrev read_response : Bytes → Decoded ConnectResponse
read_response [] = malformed (leaf eof)
read_response (n ∷ bs) = response_of n (cut 0 bs)

abbrev pub small_codec : Codec
small_codec = record {
  marshal_envelope = λ env. env.target;
  unmarshal_envelope =
      λ bs. decoded (record { version = 1; target = bs; metadata = []; bridge_id = [] });
  marshal_response = λ resp. flag resp.accepted ∷ (resp.error ++ 0 ∷ resp.code);
  unmarshal_response = read_response;
}

abbrev pub target : Bytes
target = codes "a:80"

abbrev pub refused_dial : Err
refused_dial = wrap (net_error false) (leaf (errno econnrefused))

abbrev pub listener_config : List Bytes → aztunnel.Listener.Connection.Config
listener_config allow_list = record {
  allow_list = allow_list;
  connect_timeout = 1000;
  tcp_keep_alive = 1000;
  listener_id = [];
  metrics = true;
}

abbrev pub listener_world : Option Err → aztunnel.Listener.Connection.World
listener_world dial_err = record {
  first_read = got target;
  dial = λ t. dial_err;
  write = λ bs. none;
  net = names_only;
}

abbrev pub sender_config : aztunnel.Sender.Exchange.Config
sender_config = record { tcp_keep_alive = 1000; dial_budget = pos 5; metrics = true }

abbrev pub sender_world : Bytes → aztunnel.Sender.Exchange.World
sender_world answered = record {
  relay_dial = none;
  write = λ bs. none;
  response_read = got answered;
  bridge_err = none;
}

handle_connection_dials_only_example :
    (dialled (handle_connection small_codec (listener_config []) (listener_world none)) ≡ [])
    ⊎ ((bs : Bytes) × (env : ConnectEnvelope) × ((listener_world none).first_read ≡ got bs)
        × (small_codec.unmarshal_envelope bs ≡ decoded env)
        × Admitted small_codec (listener_config []) (listener_world none) env
        × (dialled (handle_connection small_codec (listener_config []) (listener_world none))
            ≡ env.target ∷ []))
handle_connection_dials_only_example =
    handle_connection_dials_only small_codec (listener_config []) (listener_world none)

bridged-somewhere :
    count_if is_bridge (handle_connection small_codec (listener_config []) (listener_world none))
    ≢ 0
unfolding handle_connection aztunnel.Common.Text.bytes_eq
bridged-somewhere = omega arith
