-- ===== src/MockRelay/Delay.antt =====
-- mockrelay/server/delay_profile.go: the synthetic delays of the mock relay. A duration is a number of
-- nanoseconds, signed in the profile that a caller passes; the bound 2 ^ 63 of a sum is left out.
use aztunnel.Common.{
  ◌↔◌, ◌||◌, ℕ, ◌+◌, ◌*◌, ◌≡◌, Bool, true, false, Option, none, some, List, [], ◌∷◌, arith, ℤ, pos,
  negsuc, ltb, if◌then◌else◌,
}
use aztunnel.Common.Text.{Bytes, codes}
use aztunnel.Common.Assoc.{lookup}

pub record DelayProfile {ℓ} (D : Type ℓ) : Type ℓ where
  pub s_latency : D
  pub l_latency : D
  pub dns_lookup : D
  pub auth_internal : D
  pub entra_validate : D
  pub match_make_internal : D
  pub token_acquire : D

abbrev pub hops_handshake : ℕ
hops_handshake = 4

abbrev pub hops_ws_get : ℕ
hops_ws_get = 1

abbrev pub hops_response : ℕ
hops_response = 1

abbrev pub hops_accept_frame : ℕ
hops_accept_frame = 1

abbrev pub millisecond : ℕ
millisecond = 1000000

abbrev pub max_of : ℕ → ℕ → ℕ
max_of a b = if ltb a b then b else a

-- `DelayProfileZero`
abbrev pub delay_profile_zero : DelayProfile ℕ
delay_profile_zero = record {
  s_latency = 0;
  l_latency = 0;
  dns_lookup = 0;
  auth_internal = 0;
  entra_validate = 0;
  match_make_internal = 0;
  token_acquire = 0;
}

-- `DelayProfileDefault`
abbrev pub delay_profile_default : DelayProfile ℕ
delay_profile_default = record {
  s_latency = 30 * millisecond;
  l_latency = 30 * millisecond;
  dns_lookup = 40 * millisecond;
  auth_internal = 10 * millisecond;
  entra_validate = 150 * millisecond;
  match_make_internal = 50 * millisecond;
  token_acquire = 450 * millisecond;
}

abbrev pub placement_near : ℕ
placement_near = 5 * millisecond

abbrev pub placement_mid : ℕ
placement_mid = 35 * millisecond

abbrev pub placement_far : ℕ
placement_far = 90 * millisecond

-- `placementProfile`
unfoldable pub placement_profile : (sender listener : ℕ) → DelayProfile ℕ
placement_profile sender listener = record {
  s_latency = sender;
  l_latency = listener;
  dns_lookup = delay_profile_default.dns_lookup;
  auth_internal = delay_profile_default.auth_internal;
  entra_validate = delay_profile_default.entra_validate;
  match_make_internal = delay_profile_default.match_make_internal;
  token_acquire = 0;
}

-- `registry`
unfoldable pub registry : List (Bytes × DelayProfile ℕ)
registry =
    (codes "zero", delay_profile_zero)
    ∷ (codes "default", delay_profile_default)
    ∷ (codes "nn", placement_profile placement_near placement_near)
    ∷ (codes "nm", placement_profile placement_near placement_mid)
    ∷ (codes "nf", placement_profile placement_near placement_far)
    ∷ (codes "mn", placement_profile placement_mid placement_near)
    ∷ (codes "mm", placement_profile placement_mid placement_mid)
    ∷ (codes "mf", placement_profile placement_mid placement_far)
    ∷ (codes "fn", placement_profile placement_far placement_near)
    ∷ (codes "fm", placement_profile placement_far placement_mid)
    ∷ (codes "ff", placement_profile placement_far placement_far)
    ∷ []

-- `PlacementGridProfileNames`
unfoldable pub placement_grid_profile_names : List Bytes
placement_grid_profile_names =
    codes "nn"
    ∷ codes "nm"
    ∷ codes "nf"
    ∷ codes "mn"
    ∷ codes "mm"
    ∷ codes "mf"
    ∷ codes "fn"
    ∷ codes "fm"
    ∷ codes "ff"
    ∷ []

-- `ProfileByName`; `none` is the error.
unfoldable pub profile_by_name : Bytes → Option (DelayProfile ℕ)
unfolding registry
profile_by_name name = lookup name registry

-- `PredictedRendezvousFor`
unfoldable pub predicted_rendezvous_for : Bool → DelayProfile ℕ → ℕ
predicted_rendezvous_for entra p =
    let auth_cost = if entra then p.entra_validate else p.auth_internal in
    2 * p.dns_lookup
    + (hops_handshake + hops_ws_get) * p.s_latency
    + (hops_handshake + hops_ws_get + hops_accept_frame) * p.l_latency
    + hops_response * max_of p.s_latency p.l_latency
    + auth_cost
    + p.match_make_internal

-- `PredictedRendezvous`
unfoldable pub predicted_rendezvous : DelayProfile ℕ → ℕ
predicted_rendezvous p = predicted_rendezvous_for false p

-- `PredictedBridgeEcho`
unfoldable pub predicted_bridge_echo : DelayProfile ℕ → ℕ
predicted_bridge_echo p = 2 * (p.s_latency + p.l_latency)

abbrev is_negative : ℤ → Bool
is_negative (pos n) = false
is_negative (negsuc n) = true

-- The loop of `validate`: the first negative field, by its name.
unfoldable pub first_negative : List (Bytes × ℤ) → Option Bytes
first_negative [] = none
first_negative ((name, d) ∷ fields) =
    let rest = first_negative fields in if is_negative d then some name else rest

-- `DelayProfile.validate`; `some` is the error, with the name of the field.
unfoldable pub validate : DelayProfile ℤ → Option Bytes
unfolding first_negative
validate p = first_negative (
    (codes "SLatency", p.s_latency)
    ∷ (codes "LLatency", p.l_latency)
    ∷ (codes "DNSLookup", p.dns_lookup)
    ∷ (codes "AuthInternal", p.auth_internal)
    ∷ (codes "EntraValidate", p.entra_validate)
    ∷ (codes "MatchMakeInternal", p.match_make_internal)
    ∷ (codes "TokenAcquire", p.token_acquire)
    ∷ [])

-- How long `sleepContext` sleeps when nothing cancels it.
unfoldable pub sleep_time : ℤ → ℕ
sleep_time (pos n) = n
sleep_time (negsuc n) = 0

-- The profile with the two lanes exchanged.
abbrev pub transpose : DelayProfile ℕ → DelayProfile ℕ
transpose p = record p { s_latency = p.l_latency; l_latency = p.s_latency }

abbrev pub some_negative : DelayProfile ℤ → Bool
some_negative p =
    is_negative p.s_latency
    || is_negative p.l_latency
    || is_negative p.dns_lookup
    || is_negative p.auth_internal
    || is_negative p.entra_validate
    || is_negative p.match_make_internal
    || is_negative p.token_acquire

-- `validate` accepts exactly the profiles in which no field is negative.
pub validate-none : (p : DelayProfile ℤ) → (validate p ≡ none) ↔ (some_negative p ≡ false)
unfolding validate first_negative
validate-none p = ground arith

-- The listener's lane carries one hop more, the accept frame: exchanging the lanes changes the predicted
-- rendezvous by the difference of their latencies, on either auth path, and leaves the predicted echo.
pub predicted_rendezvous_for-transpose :
    (entra : Bool) (p : DelayProfile ℕ)
    → (predicted_rendezvous_for entra (transpose p) + p.l_latency
        ≡ predicted_rendezvous_for entra p + p.s_latency)
      × (predicted_bridge_echo (transpose p) ≡ predicted_bridge_echo p)
unfolding predicted_rendezvous_for predicted_bridge_echo
predicted_rendezvous_for-transpose entra p = (ground arith, omega arith)
