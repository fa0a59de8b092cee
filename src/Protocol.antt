-- ===== src/Protocol.antt =====
-- internal/protocol/envelope.go: the two messages of the envelope exchange and the failure codes.
-- encoding/json is not part of the repository: `Codec` is what the two sides use of it.
use aztunnel.Common.{refl, ◌⊎◌, inl, inr, ℕ, Bool, List, ◌≡◌}
use aztunnel.Common.Text.{Bytes, codes}
use aztunnel.GoError.{Err}

pub record ConnectEnvelope : Type 0 where
  pub version : ℕ
  pub target : Bytes
  pub metadata : List (Bytes × Bytes)
  pub bridge_id : Bytes

pub record ConnectResponse : Type 0 where
  pub version : ℕ
  pub accepted : Bool  -- `OK`
  pub error : Bytes
  pub code : Bytes
  pub listener_id : Bytes

abbrev pub current_version : ℕ
current_version = 1

-- The `Code…` constants.
abbrev pub code_connection_refused : Bytes
code_connection_refused = codes "connection_refused"

abbrev pub code_host_unreachable : Bytes
code_host_unreachable = codes "host_unreachable"

abbrev pub code_network_unreachable : Bytes
code_network_unreachable = codes "network_unreachable"

abbrev pub code_timeout : Bytes
code_timeout = codes "timeout"

abbrev pub code_dns_not_found : Bytes
code_dns_not_found = codes "dns_not_found"

abbrev pub code_dns_timeout : Bytes
code_dns_timeout = codes "dns_timeout"

-- A value, or the error of `json.Unmarshal`.
pub data Decoded {ℓ} (A : Type ℓ) : Type ℓ where
  decoded : A → Decoded A
  malformed : Err → Decoded A

-- `json.Marshal` and `json.Unmarshal` at the two message types. What is documented of them, that a
-- message is read back as it was written, is a hypothesis of the theorems that need it.
pub record Codec : Type 0 where
  pub marshal_envelope : ConnectEnvelope → Bytes
  pub unmarshal_envelope : Bytes → Decoded ConnectEnvelope
  pub marshal_response : ConnectResponse → Bytes
  pub unmarshal_response : Bytes → Decoded ConnectResponse

pub Decoded-cases {ℓ} :
    {A : Type ℓ} (d : Decoded A) → ((e : Err) × (d ≡ malformed e)) ⊎ ((a : A) × (d ≡ decoded a))
Decoded-cases (malformed e) = inl (e, refl)
Decoded-cases (decoded a) = inr (a, refl)
