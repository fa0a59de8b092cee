-- ===== src/Sender/EndToEnd.antt =====
-- The two ends of a tunnel together: `sendEnvelopeAndCheck` of internal/sender against
-- `handleConnection` of internal/listener, and the SOCKS5 reply that comes of it.
use aztunnel.Common.{ℕ, Bool, true, false, none, some, List, [], ◌∷◌, ◌≡◌, refl, ◌≢◌, arith}
use aztunnel.Common.Text.{Bytes, codes, bytes_eq, eq_of_bytes_eq}
use aztunnel.GoError.{Err, leaf, rejected, find_layer}
use aztunnel.Protocol.{Codec, decoded, current_version}
use aztunnel.Tunnel.{Effect, send, got, count_if, is_bridge, dialled}
use aztunnel.Socks5.{rep_connection_refused, rep_host_unreachable, rep_network_unreachable}
use aztunnel.Listener.Dial.{
  Code, timeout, dns_timeout_code, dns_not_found_code, refused, host_unreachable,
  network_unreachable, unclassified, code_text, dial_code, classify_dial_error,
}
use aztunnel.Listener.Connection.{response, is_rejected, handle_connection}
use aztunnel.Sender.Exchange.{envelope, send_envelope_and_check}
use aztunnel.Sender.Proxy.{rep_for_error}

-- The messages that a list of effects sends.
abbrev pub sent : List Effect → List Bytes
sent [] = []
sent (send bs ∷ es) = bs ∷ sent es
sent (_ ∷ es) = sent es

-- The reply of RFC 1928 for the kind of failure that the listener saw.
abbrev pub rep_of_code : Code → ℕ
rep_of_code refused = rep_connection_refused
rep_of_code network_unreachable = rep_network_unreachable
rep_of_code _ = rep_host_unreachable

-- The error that the sender makes of a refusal.
abbrev pub refusal : Bytes → Bytes → Bytes → Err
refusal error code id = leaf (rejected (record { message = error; code = code; listener_id = id }))

rep_for_error-refusal :
    (error : Bytes) (c : Code) (id : Bytes)
    → rep_for_error (refusal error (code_text c) id) ≡ rep_of_code c
unfolding rep_for_error code_text find_layer bytes_eq
rep_for_error-refusal error timeout id = refl
rep_for_error-refusal error dns_timeout_code id = refl
rep_for_error-refusal error dns_not_found_code id = refl
rep_for_error-refusal error refused id = refl
rep_for_error-refusal error host_unreachable id = refl
rep_for_error-refusal error network_unreachable id = refl
rep_for_error-refusal error unclassified id = refl

module _ (codec : Codec) (cfg : aztunnel.Listener.Connection.Config)
    (lw : aztunnel.Listener.Connection.World) (sw : aztunnel.Sender.Exchange.World)
    (target bridge_id : Bytes) where
  -- The rendezvous carries what the two ends write: the listener reads the envelope, the sender reads
  -- what the listener sent, the sender's write succeeds, and encoding/json reads the envelope back.
  pub record Carried (answer : Bytes) : Type 0 where
    pub written : sw.write (envelope codec target bridge_id) ≡ none
    pub delivered : lw.first_read ≡ got (envelope codec target bridge_id)
    pub readable :
        codec.unmarshal_envelope (envelope codec target bridge_id)
        ≡ decoded (record {
          version = current_version;
          target = target;
          metadata = [];
          bridge_id = bridge_id;
        })
    pub answered : sent (handle_connection codec cfg lw) ≡ answer ∷ []
    pub received : sw.response_read ≡ got answer

  -- What encoding/json makes of a response of this listener.
  abbrev pub IsReadable : Bool → Bytes → Bytes → Type 0
  IsReadable accepted error code =
      codec.unmarshal_response (response codec cfg lw accepted error code)
      ≡ decoded (record {
        version = current_version;
        accepted = accepted;
        error = error;
        code = code;
        listener_id = cfg.listener_id;
      })

  -- Where the rendezvous carries the messages of both ends and encoding/json reads them back: a named
  -- target that the allowlist permits and the listener dials with success, writing its response, is
  -- accepted at the sender without an error; it is the one target dialled, and the listener runs one
  -- bridge.
  pub end_to_end_accepted :
      {answer : Bytes}
      → Carried answer
      → IsReadable true [] []
      → target ≢ []
      → is_rejected codec cfg lw target cfg.allow_list ≡ false
      → lw.dial target ≡ none
      → lw.write (response codec cfg lw true [] []) ≡ none
      → ((send_envelope_and_check codec sw target bridge_id).err ≡ none)
        × (dialled (handle_connection codec cfg lw) ≡ target ∷ [])
        × (count_if is_bridge (handle_connection codec cfg lw) ≡ 1)
  unfolding handle_connection send_envelope_and_check
  end_to_end_accepted {answer} c r named allowed dial wr = (
    ground (
      arith,
      eq_of_bytes_eq target [],
      c.written,
      c.delivered,
      c.readable,
      c.answered,
      c.received,
    ),
    ground (
      arith,
      eq_of_bytes_eq target [],
      c.written,
      c.delivered,
      c.readable,
      c.answered,
      c.received,
    ),
    ground (
      arith,
      eq_of_bytes_eq target [],
      c.written,
      c.delivered,
      c.readable,
      c.answered,
      c.received,
    ),
  )

  -- Where the rendezvous carries the messages of both ends and encoding/json reads them back: a named
  -- target that the allowlist permits and the listener fails to dial is refused at the sender under the
  -- code of the failure, nothing is bridged, and the reply for a SOCKS5 client is 05 for a refused
  -- connection, 03 for an unreachable network and 04 for all else.
  pub end_to_end_dial_failed :
      {answer : Bytes}
      → (e : Err) → Carried answer
      → IsReadable false (codes "connection failed") (classify_dial_error (some e))
      → target ≢ []
      → is_rejected codec cfg lw target cfg.allow_list ≡ false
      → lw.dial target ≡ some e
      → let r =
          refusal (codes "connection failed") (classify_dial_error (some e)) cfg.listener_id in
        ((send_envelope_and_check codec sw target bridge_id).err ≡ some r)
        × (rep_for_error r ≡ rep_of_code (dial_code e))
        × (count_if is_bridge (handle_connection codec cfg lw) ≡ 0)
  unfolding handle_connection send_envelope_and_check classify_dial_error
  end_to_end_dial_failed {answer} e c r named allowed dial = (
    ground (
      arith,
      eq_of_bytes_eq target [],
      c.written,
      c.delivered,
      c.readable,
      c.answered,
      c.received,
    ),
    rep_for_error-refusal (codes "connection failed") (dial_code e) cfg.listener_id,
    ground (
      arith,
      eq_of_bytes_eq target [],
      c.written,
      c.delivered,
      c.readable,
      c.answered,
      c.received,
    ),
  )

  -- Where the rendezvous carries the messages of both ends and encoding/json reads them back: a named
  -- target that the allowlist does not permit is refused at the sender without a code, the reply for a
  -- SOCKS5 client is 04, and the listener dials nothing.
  pub end_to_end_disallowed :
      {answer : Bytes}
      → Carried answer
      → IsReadable false (codes "target not allowed") []
      → target ≢ []
      → is_rejected codec cfg lw target cfg.allow_list ≡ true
      → let r = refusal (codes "target not allowed") [] cfg.listener_id in
        ((send_envelope_and_check codec sw target bridge_id).err ≡ some r)
        × (rep_for_error r ≡ rep_host_unreachable)
        × (dialled (handle_connection codec cfg lw) ≡ [])
  unfolding handle_connection send_envelope_and_check code_text
  end_to_end_disallowed {answer} c r named forbidden = (
    ground (
      arith,
      eq_of_bytes_eq target [],
      c.written,
      c.delivered,
      c.readable,
      c.answered,
      c.received,
    ),
    rep_for_error-refusal (codes "target not allowed") unclassified cfg.listener_id,
    ground (
      arith,
      eq_of_bytes_eq target [],
      c.written,
      c.delivered,
      c.readable,
      c.answered,
      c.received,
    ),
  )
