-- ===== src/Sender/Replies.antt =====
-- What the SOCKS5 client of internal/sender/socks5proxy.go is told.
use aztunnel.Common.{
  ℕ, ◌≤◌, Option, none, some, ◌++◌, ◌≡◌, ◌≢◌, ◌⊎◌, inl, inr, append_assoc, arith, Option-cases,
}
use aztunnel.Common.Text.{Bytes}
use aztunnel.GoError.{Err}
use aztunnel.Protocol.{Codec}
use aztunnel.Tunnel.{count_if, is_bridge}
use aztunnel.Socks5.{
  Conn, Failure, ok, err, TcpAddr, handshake, send_reply, reply, write, rep_success,
  rep_general_failure,
}
use aztunnel.Socks5.Refuse.{answer, handshake-err}
use aztunnel.Sender.Exchange.{
  Config, World, send_envelope_and_check, instrumented_dial, effects-send_envelope_and_check,
  log_rejection,
}
use aztunnel.Sender.Proxy.{bad_handshake, handle_socks5, rep_for_error}

send_reply_kept :
    (rep : ℕ) (addr : Option TcpAddr) (c : Conn)
    → 1 ≤ c.writes_left
    → (send_reply rep addr c).1.output ≡ c.output ++ reply rep addr
unfolding send_reply write
send_reply_kept rep addr c w = ground arith

-- `socks5RepForError` never answers with success.
pub rep_for_error-ne-success : (e : Err) → rep_for_error e ≢ rep_success
unfolding rep_for_error
rep_for_error-ne-success e = ground arith

module _ (ip_string : Bytes → Bytes) (codec : Codec) (cfg : Config) (w : World) (bridge_id : Bytes)
    (local_addr : Option TcpAddr) where
  -- Behind a successful handshake, on a connection that takes a further write, the client is sent
  -- exactly one reply. It reports success, with
  -- the local address, exactly when the relay was dialled, the listener accepted and the connection
  -- is bridged; any other reply goes with no bridge and an error.
  pub handle_socks5_replies :
      (c : Conn) {target : Bytes} {c' : Conn}
      → handshake ip_string c ≡ (ok target, c')
      → 1 ≤ c'.writes_left
      → let p = handle_socks5 ip_string codec cfg w bridge_id local_addr c in
        ((p.conn.output ≡ c'.output ++ reply rep_success local_addr)
          × (w.relay_dial ≡ none)
          × ((send_envelope_and_check codec w target bridge_id).err ≡ none)
          × (count_if is_bridge p.effects ≡ 1))
        ⊎ ((rep : ℕ) × (rep ≢ rep_success)
            × (p.conn.output ≡ c'.output ++ reply rep none)
            × (p.err ≢ none)
            × (count_if is_bridge p.effects ≡ 0))
  unfolding handle_socks5 instrumented_dial log_rejection
  handle_socks5_replies c {target} {c'} h left =
      let x = send_envelope_and_check codec w target bridge_id in
      let sent = effects-send_envelope_and_check codec w target bridge_id in
      let general = send_reply_kept rep_general_failure none c' left in
      let success = send_reply_kept rep_success local_addr c' left in
      elim (Option-cases w.relay_dial) [
        | inr (e, d) ↦ inr (
          rep_general_failure,
          (λ q. omega arith),
          ground (arith, h, d, general),
          ground (arith, h, d),
          ground (arith, h, d),
        )
        | inl d ↦ elim (Option-cases x.err) [
          | inl accepted ↦ inl (ground (arith, success), d, accepted, ground (arith, sent))
          | inr (e, refused) ↦ inr (
            rep_for_error e,
            rep_for_error-ne-success e,
            ground (arith, send_reply_kept (rep_for_error e) none c' left),
            ground arith,
            ground (arith, sent),
          )
        ]
      ]

  -- A client whose handshake fails, on a connection that takes two writes and behind the handshake
  -- one more, is sent the answer of the handshake and then a general-failure reply, also where that
  -- answer held a reply already; and the error returned is the handshake's.
  pub handle_socks5_refuses :
      (c : Conn) {f : Failure} {c' : Conn}
      → handshake ip_string c ≡ (err f, c')
      → 2 ≤ c.writes_left
      → 1 ≤ c'.writes_left
      → let p = handle_socks5 ip_string codec cfg w bridge_id local_addr c in
        (p.conn.output ≡ c.output ++ (answer f ++ reply rep_general_failure none))
        × (p.err ≡ some (bad_handshake f))
  unfolding handle_socks5
  handle_socks5_refuses c {f} {c'} h first left = (
    ground (
      arith,
      handshake-err ip_string c h first,
      send_reply_kept rep_general_failure none c' left,
      append_assoc c.output (answer f) (reply rep_general_failure none),
    ),
    ground arith,
  )
