-- ===== src/Examples/Ends.antt =====
-- Runs of the handlers of internal/sender, alone and against the listener's.
use aztunnel.Common.{
  ℕ, suc, ◌+◌, ◌≤◌, pos, Bool, true, false, Option, none, some, List, [], ◌∷◌, ◌++◌, ◌≡◌, refl, ◌≢◌,
  ◌⊎◌, inl, inr, arith, if◌then◌else◌, ◌==◌,
}
use aztunnel.Common.Text.{Bytes, codes, cut}
use aztunnel.GoError.{Err, leaf, wrap, errno, net_error, eof, text, econnrefused}
use aztunnel.Tunnel.{count_if, is_send, is_bridge, is_count_error, dialled}
use aztunnel.Socks5.{reply, rep_success, rep_general_failure, unsupported_command}
use aztunnel.Socks5.Refuse.{answer}
use aztunnel.Listener.Connection.{response, is_rejected, handle_connection}
use aztunnel.Listener.Dial.{dial_code, classify_dial_error}
use aztunnel.Sender.Exchange.{envelope, send_envelope_and_check}
use aztunnel.Sender.Modes.{forward_connection}
use aztunnel.Sender.Outcome.{forward_connection_outcome}
use aztunnel.Sender.Proxy.{handle_socks5, bad_handshake, rep_for_error}
use aztunnel.Sender.Replies.{handle_socks5_replies, handle_socks5_refuses}
use aztunnel.Sender.EndToEnd.{
  Carried, IsReadable, refusal, rep_of_code, end_to_end_accepted, end_to_end_dial_failed,
}
use aztunnel.Examples.Handshakes.{
  ip_string, client, client_behind, client-accepted, binder, binder-refused,
}
use aztunnel.Examples.Connections.{
  small_codec, target, refused_dial, listener_config, listener_world, sender_config, sender_world,
}

-- What the listener answers in the three cases.
abbrev accepting : Bytes
accepting = 1 ∷ 0 ∷ []

abbrev refusing : Bytes
refusing = 0 ∷ (codes "connection failed" ++ 0 ∷ codes "connection_refused")

abbrev forbidding : Bytes
forbidding = 0 ∷ (codes "target not allowed" ++ 0 ∷ [])

accepted-Carried :
    Carried small_codec
      (listener_config [])
      (listener_world none)
      (sender_world accepting)
      target
      []
      accepting
unfolding envelope handle_connection aztunnel.Common.Text.bytes_eq
accepted-Carried = record {
  written = refl;
  delivered = refl;
  readable = refl;
  answered = refl;
  received = refl;
}

refused-Carried :
    Carried small_codec
      (listener_config [])
      (listener_world (some refused_dial))
      (sender_world refusing)
      target
      []
      refusing
unfolding envelope handle_connection aztunnel.Common.Text.bytes_eq classify_dial_error
    aztunnel.Listener.Dial.code_text dial_code aztunnel.GoError.is aztunnel.GoError.find_layer
    aztunnel.GoError.is_net_timeout
refused-Carried = record {
  written = refl;
  delivered = refl;
  readable = refl;
  answered = refl;
  received = refl;
}

forbidden-Carried :
    Carried small_codec
      (listener_config (codes "b:80" ∷ []))
      (listener_world none)
      (sender_world forbidding)
      target
      []
      forbidding
unfolding envelope handle_connection aztunnel.Common.Text.bytes_eq
    aztunnel.Listener.Allow.is_allowed aztunnel.Listener.HostPort.split_host_port
    aztunnel.Common.Text.cut_last aztunnel.Common.Text.contains aztunnel.Listener.Allow.any_allows
    aztunnel.Listener.Allow.entry_allows aztunnel.Listener.HostPort.split_allow_entry
forbidden-Carried = record {
  written = refl;
  delivered = refl;
  readable = refl;
  answered = refl;
  received = refl;
}

target-named : target ≢ []
target-named = ground arith

all-permitted : is_rejected small_codec (listener_config []) (listener_world none) target [] ≡ false
unfolding is_rejected
all-permitted = refl

all-permitted_refused :
    is_rejected small_codec (listener_config []) (listener_world (some refused_dial)) target []
    ≡ false
unfolding is_rejected
all-permitted_refused = refl

target-forbidden :
    is_rejected small_codec
      (listener_config (codes "b:80" ∷ []))
      (listener_world none)
      target
      (codes "b:80" ∷ [])
    ≡ true
unfolding is_rejected aztunnel.Listener.Allow.is_allowed aztunnel.Listener.HostPort.split_host_port
    aztunnel.Common.Text.cut_last aztunnel.Common.Text.contains aztunnel.Listener.Allow.any_allows
    aztunnel.Listener.Allow.entry_allows aztunnel.Common.Text.bytes_eq
    aztunnel.Listener.HostPort.split_allow_entry
target-forbidden = refl

accepting-IsReadable :
    IsReadable small_codec
      (listener_config [])
      (listener_world none)
      (sender_world accepting)
      target
      []
      true
      []
      []
unfolding response cut
accepting-IsReadable = refl

accepting-written :
    (listener_world none).write
      (response small_codec (listener_config []) (listener_world none) true [] [])
    ≡ none
accepting-written = refl

end_to_end_accepted_example :
    ((send_envelope_and_check small_codec (sender_world accepting) target []).err ≡ none)
    × (dialled (handle_connection small_codec (listener_config []) (listener_world none))
        ≡ target ∷ [])
    × (count_if is_bridge (handle_connection small_codec (listener_config []) (listener_world none))
        ≡ 1)
end_to_end_accepted_example =
    end_to_end_accepted small_codec (listener_config []) (listener_world none)
      (sender_world accepting) target [] accepted-Carried accepting-IsReadable target-named
      all-permitted refl accepting-written

refusing-IsReadable :
    IsReadable small_codec
      (listener_config [])
      (listener_world (some refused_dial))
      (sender_world refusing)
      target
      []
      false
      (codes "connection failed")
      (classify_dial_error (some refused_dial))
unfolding response classify_dial_error cut
refusing-IsReadable = refl

end_to_end_dial_failed_example :
    let r = refusal (codes "connection failed") (classify_dial_error (some refused_dial)) [] in
    ((send_envelope_and_check small_codec (sender_world refusing) target []).err ≡ some r)
    × (rep_for_error r ≡ rep_of_code (dial_code refused_dial))
    × (count_if is_bridge
          (handle_connection small_codec (listener_config []) (listener_world (some refused_dial)))
        ≡ 0)
end_to_end_dial_failed_example =
    end_to_end_dial_failed small_codec (listener_config []) (listener_world (some refused_dial))
      (sender_world refusing) target [] refused_dial refused-Carried refusing-IsReadable
      target-named all-permitted_refused refl

forbidding-IsReadable :
    IsReadable small_codec
      (listener_config (codes "b:80" ∷ []))
      (listener_world none)
      (sender_world forbidding)
      target
      []
      false
      (codes "target not allowed")
      []
unfolding response cut
forbidding-IsReadable = refl

handle_socks5_replies_example :
    let w = sender_world accepting in
    let p = handle_socks5 ip_string small_codec sender_config w [] none client in
    ((p.conn.output ≡ client_behind.output ++ reply rep_success none)
      × (w.relay_dial ≡ none)
      × ((send_envelope_and_check small_codec w target []).err ≡ none)
      × (count_if is_bridge p.effects ≡ 1))
    ⊎ ((rep : ℕ) × (rep ≢ rep_success)
        × (p.conn.output ≡ client_behind.output ++ reply rep none)
        × (p.err ≢ none)
        × (count_if is_bridge p.effects ≡ 0))
handle_socks5_replies_example =
    handle_socks5_replies ip_string small_codec sender_config (sender_world accepting) [] none
      client client-accepted (omega arith)

handle_socks5_refuses_example :
    let p =
      handle_socks5 ip_string small_codec sender_config (sender_world accepting) [] none binder in
    (p.conn.output
      ≡ binder.output ++ (answer (unsupported_command 2) ++ reply rep_general_failure none))
    × (p.err ≡ some (bad_handshake (unsupported_command 2)))
handle_socks5_refuses_example =
    handle_socks5_refuses ip_string small_codec sender_config (sender_world accepting) [] none
      binder binder-refused (omega arith) (omega arith)

forward_connection_outcome_example :
    let w = sender_world refusing in
    let f = forward_connection small_codec sender_config w target [] in
    let x = send_envelope_and_check small_codec w target [] in
    ((e : Err) × (w.relay_dial ≡ some e)
      × (f.err ≡ some e)
      × (count_if is_send f.effects ≡ 0)
      × (count_if is_bridge f.effects ≡ 0)
      × (count_if is_count_error f.effects ≡ (if true then 1 else 0)))
    ⊎ (((e : Err) × (w.relay_dial ≡ none)
          × (x.err ≡ some e)
          × (f.err ≡ some e)
          × (count_if is_send f.effects ≡ 1)
          × (count_if is_bridge f.effects ≡ 0)
          × (count_if is_count_error f.effects ≡ (if true then 1 else 0)))
        ⊎ ((w.relay_dial ≡ none)
            × (x.err ≡ none)
            × (f.err ≡ w.bridge_err)
            × (count_if is_send f.effects ≡ 1)
            × (count_if is_bridge f.effects ≡ 1)
            × (count_if is_count_error f.effects ≡ 0)))
forward_connection_outcome_example =
    forward_connection_outcome small_codec sender_config (sender_world refusing) target []
