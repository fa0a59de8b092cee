-- ===== src/Listener/Outcome.antt =====
-- What `handleConnection` of internal/listener/listener.go does, on every branch.
use aztunnel.Common.{
  true, false, none, List, [], ◌∷◌, ◌≡◌, refl, ◌≢◌, ◌⊎◌, inl, inr, arith, ◌==◌, Bool-cases,
  Option-cases,
}
use aztunnel.Common.Text.{Bytes, bytes_eq, bytes_eq_refl, eq_of_bytes_eq}
use aztunnel.GoError.{Err}
use aztunnel.Protocol.{ConnectEnvelope, Codec, decoded, Decoded-cases, current_version}
use aztunnel.Tunnel.{got, failed, Read-cases, count_if, is_send, is_bridge, is_count_error, dialled}
use aztunnel.Listener.Allow.{is_allowed}
use aztunnel.Listener.Connection.{Config, World, response, is_rejected, handle_connection}

module _ (codec : Codec) (cfg : Config) (w : World) where
  -- The request that a sender must have made for its target to be dialled.
  pub record Admitted (env : ConnectEnvelope) : Type 0 where
    pub version : env.version ≡ current_version
    pub named : env.target ≢ []
    pub permitted : (cfg.allow_list ≡ []) ⊎ (is_allowed w.net env.target cfg.allow_list ≡ true)

  not_rejected :
      (target : Bytes) (entries : List Bytes)
      → is_rejected codec cfg w target entries ≡ false
      → (entries ≡ []) ⊎ (is_allowed w.net target entries ≡ true)
  unfolding is_rejected
  not_rejected target [] h = inl refl
  not_rejected target (e ∷ es) h = inr (ground arith)

  -- A target is dialled only for a decoded envelope of the current version that names it, and only
  -- if the allowlist is empty or allows it; and then it is the only target dialled.
  pub handle_connection_dials_only :
      (dialled (handle_connection codec cfg w) ≡ [])
      ⊎ ((bs : Bytes) × (env : ConnectEnvelope) × (w.first_read ≡ got bs)
          × (codec.unmarshal_envelope bs ≡ decoded env)
          × Admitted env
          × (dialled (handle_connection codec cfg w) ≡ env.target ∷ []))
  unfolding handle_connection
  handle_connection_dials_only = elim (Read-cases w.first_read) [
    | inl (e, r) ↦ inl (ground arith)
    | inr (bs, r) ↦ elim (Decoded-cases (codec.unmarshal_envelope bs)) [
      | inl (e, d) ↦ inl (ground arith)
      | inr (env, d) ↦ elim (Bool-cases (env.version == current_version)) [
        | inr old ↦ inl (ground arith)
        | inl current ↦ elim (Bool-cases (bytes_eq env.target [])) [
          | inl empty ↦ inl (ground arith)
          | inr named ↦ elim (Bool-cases (is_rejected codec cfg w env.target cfg.allow_list)) [
            | inl rejected ↦ inl (ground arith)
            | inr allowed ↦ inr (
              bs,
              env,
              r,
              d,
              record {
                version = ground arith;
                named = ground (arith, bytes_eq_refl env.target);
                permitted = not_rejected env.target cfg.allow_list allowed;
              },
              ground arith,
            )
          ]
        ]
      ]
    ]
  ]

  pub handle_connection_dials :
      (bs : Bytes) (env : ConnectEnvelope)
      → w.first_read ≡ got bs
      → codec.unmarshal_envelope bs ≡ decoded env
      → Admitted env
      → dialled (handle_connection codec cfg w) ≡ env.target ∷ []
  unfolding handle_connection
  handle_connection_dials bs env r d a = ground (arith, eq_of_bytes_eq env.target [])

  -- Exactly one response is sent if the first message could be read, and none if not.
  pub handle_connection_responds :
      ((e : Err) × (w.first_read ≡ failed e)
        × (count_if is_send (handle_connection codec cfg w) ≡ 0))
      ⊎ ((bs : Bytes) × (w.first_read ≡ got bs)
          × (count_if is_send (handle_connection codec cfg w) ≡ 1))
  unfolding handle_connection
  handle_connection_responds = elim (Read-cases w.first_read) [
    | inl (e, r) ↦ inl (e, r, ground arith)
    | inr (bs, r) ↦ inr (bs, r, ground arith)
  ]

  -- Data is bridged exactly when a target was dialled, the dial succeeded and the positive response
  -- could be written; and then no error is counted.
  pub handle_connection_bridges :
      (t : Bytes)
      → dialled (handle_connection codec cfg w) ≡ t ∷ []
      → w.dial t ≡ none
      → w.write (response codec cfg w true [] []) ≡ none
      → (count_if is_bridge (handle_connection codec cfg w) ≡ 1)
        × (count_if is_count_error (handle_connection codec cfg w) ≡ 0)
  unfolding handle_connection
  handle_connection_bridges t h d wr = ground arith

  -- Without a dial that succeeded and a positive response that was written, nothing is bridged.
  pub handle_connection_bridges_only :
      count_if is_bridge (handle_connection codec cfg w) ≢ 0
      → (t : Bytes) × (dialled (handle_connection codec cfg w) ≡ t ∷ [])
        × (w.dial t ≡ none)
        × (w.write (response codec cfg w true [] []) ≡ none)
  unfolding handle_connection
  handle_connection_bridges_only h = elim handle_connection_dials_only [
    | inl none_dialled ↦ absurd (ground arith)
    | inr (bs, env, r, d, a, one_dialled) ↦ (env.target, one_dialled, ground arith, ground arith)
  ]

  -- With metrics, one error is counted for a connection, unless its target was dialled with success;
  -- then none is, even if the response could not be written.
  pub handle_connection_counts :
      cfg.metrics ≡ true
      → (count_if is_count_error (handle_connection codec cfg w) ≡ 1)
        ⊎ ((count_if is_count_error (handle_connection codec cfg w) ≡ 0)
            × ((t : Bytes) × (dialled (handle_connection codec cfg w) ≡ t ∷ [])
                × (w.dial t ≡ none)))
  unfolding handle_connection
  handle_connection_counts m = elim handle_connection_dials_only [
    | inl none_dialled ↦ inl (ground arith)
    | inr (bs, env, r, d, a, one_dialled) ↦ elim (Option-cases (w.dial env.target)) [
      | inl reached ↦ inr (ground arith, (env.target, one_dialled, reached))
      | inr (e, unreached) ↦ inl (ground arith)
    ]
  ]
