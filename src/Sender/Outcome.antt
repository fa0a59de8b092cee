-- ===== src/Sender/Outcome.antt =====
-- What `forwardConnection` and `Connect` of internal/sender do, on every branch.
use aztunnel.Common.{
  if◌then◌else◌, pos, negsuc, ℕ, suc, zero, ◌≤◌, none, some, ◌≡◌, ◌⊎◌, inl, inr, arith,
  Option-cases,
}
use aztunnel.Common.Text.{Bytes}
use aztunnel.GoError.{Err}
use aztunnel.Protocol.{Codec}
use aztunnel.Tunnel.{count_if, is_bridge, is_count_error, is_send}
use aztunnel.Sender.Exchange.{
  Config, World, Duration, dial_budget, send_envelope_and_check, instrumented_dial,
  effects-send_envelope_and_check, log_rejection,
}
use aztunnel.Sender.Modes.{forward_connection, connect}

-- The budget of the relay dial is never 0, and a positive duration is taken as it is.
pub dial_budget_lem :
    (d : Duration) → (1 ≤ dial_budget d) × ((n : ℕ) → d ≡ pos (suc n) → dial_budget d ≡ suc n)
unfolding dial_budget
dial_budget_lem (pos zero) = (ground arith, λ n h. ground arith)
dial_budget_lem (pos (suc m)) = (ground arith, λ n h. ground arith)
dial_budget_lem (negsuc m) = (ground arith, λ n h. ground arith)

module _ (codec : Codec) (cfg : Config) (w : World) (target bridge_id : Bytes) where
  -- A forwarded connection ends in one of three ways. The relay dial fails: nothing is sent or
  -- bridged, and its error is returned. The exchange fails: one message was sent, nothing is bridged,
  -- and the error of the exchange is returned. Or it succeeds: one message was sent, one bridge is
  -- run, and its error is returned. With metrics, an error is counted in the first two cases, once,
  -- and not in the third.
  pub forward_connection_outcome :
      let f = forward_connection codec cfg w target bridge_id in
      let x = send_envelope_and_check codec w target bridge_id in
      ((e : Err) × (w.relay_dial ≡ some e)
        × (f.err ≡ some e)
        × (count_if is_send f.effects ≡ 0)
        × (count_if is_bridge f.effects ≡ 0)
        × (count_if is_count_error f.effects ≡ (if cfg.metrics then 1 else 0)))
      ⊎ (((e : Err) × (w.relay_dial ≡ none)
            × (x.err ≡ some e)
            × (f.err ≡ some e)
            × (count_if is_send f.effects ≡ 1)
            × (count_if is_bridge f.effects ≡ 0)
            × (count_if is_count_error f.effects ≡ (if cfg.metrics then 1 else 0)))
          ⊎ ((w.relay_dial ≡ none)
              × (x.err ≡ none)
              × (f.err ≡ w.bridge_err)
              × (count_if is_send f.effects ≡ 1)
              × (count_if is_bridge f.effects ≡ 1)
              × (count_if is_count_error f.effects ≡ 0)))
  unfolding forward_connection instrumented_dial log_rejection
  forward_connection_outcome =
      let sent = effects-send_envelope_and_check codec w target bridge_id in
      elim (Option-cases w.relay_dial) [
        | inr (e, d) ↦ inl (e, d, ground arith, ground arith, ground arith, ground arith)
        | inl d ↦ elim (Option-cases (send_envelope_and_check codec w target bridge_id).err) [
          | inr (e, x) ↦ inr (
              inl (
                e,
                d,
                x,
                ground arith,
                ground (arith, sent),
                ground (arith, sent),
                ground (arith, sent),
              ))
          | inl x ↦ inr (
              inr (
                d,
                x,
                ground arith,
                ground (arith, sent),
                ground (arith, sent),
                ground (arith, sent),
              ))
        ]
      ]

  -- `Connect` on standard input and output does with one stream what the port forward does with one
  -- connection: it returns the same error, and sends, bridges and counts as often.
  pub connect-forward_connection :
      let f = forward_connection codec cfg w target bridge_id in
      let c = connect codec cfg w target bridge_id in
      (c.err ≡ f.err)
      × (count_if is_send c.effects ≡ count_if is_send f.effects)
      × (count_if is_bridge c.effects ≡ count_if is_bridge f.effects)
      × (count_if is_count_error c.effects ≡ count_if is_count_error f.effects)
  unfolding forward_connection connect instrumented_dial log_rejection
  connect-forward_connection =
      let sent = effects-send_envelope_and_check codec w target bridge_id in
      elim (Option-cases w.relay_dial) [
        | inr (e, d) ↦ (ground arith, ground arith, ground arith, ground arith)
        | inl d ↦ elim (Option-cases (send_envelope_and_check codec w target bridge_id).err) [
          | inr (e, x) ↦
              (ground arith, ground (arith, sent), ground (arith, sent), ground (arith, sent))
          | inl x ↦ (ground arith, ground (arith, sent), ground (arith, sent), ground (arith, sent))
        ]
      ]
