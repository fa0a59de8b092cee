-- ===== src/Relay/Opening.antt =====
-- What `control_ended` of internal/relay/control.go reports of a session that does not come up.
use aztunnel.Common.{ℕ, Option, none, some, ◌≡◌, refl, ◌≢◌, ◌⊎◌, inl, inr, arith, Bool-cases}
use aztunnel.GoError.{Err}
use aztunnel.Relay.Control.{
  Opening, no_token, no_dial, opened, opening_reason, dial_auth_failed, context_cancelled,
  token_fetch_failed, auth_failed, dial_failed, classify_control_end_reason,
}

-- The reason for a failure to come up, under a context that lives on.
abbrev pub Fails : Opening → aztunnel.Relay.Control.Reason → Type 0
Fails o why =
    ((e : Err) × (o ≡ no_token e) × (why ≡ token_fetch_failed))
    ⊎ ((status : Option ℕ) × (e : Err) × (o ≡ no_dial status e)
        × (((status ≡ some 401) × (why ≡ auth_failed))
            ⊎ (((status ≡ some 403) × (why ≡ auth_failed))
                ⊎ ((status ≢ some 401) × (status ≢ some 403) × (why ≡ dial_failed)))))

status_of_failure :
    (status : Option ℕ) (e : Err)
    → Fails (no_dial status e) (opening_reason none (no_dial status e))
unfolding opening_reason
status_of_failure none e = inr (none, e, refl, inr (inr (ground arith, ground arith, refl)))
status_of_failure (some n) e = elim (Bool-cases (dial_auth_failed (some n))) [
  | inr other ↦ inr (some n, e, refl, inr (inr (ground arith, ground arith, ground arith)))
  | inl auth ↦ inr (some n, e, refl, ground arith)
]

-- A session that does not come up is reported as cancelled where the caller's context has ended;
-- otherwise the reason is the fetch of the token, an authentication that failed, which is a dial
-- answered with 401 or 403, or any other failure of the dial.
pub opening_reason_lem :
    (outer : Option Err) (o : Opening)
    → o ≢ opened
    → ((outer ≢ none) × (opening_reason outer o ≡ context_cancelled))
      ⊎ ((outer ≡ none) × Fails o (opening_reason outer o))
unfolding opening_reason classify_control_end_reason
opening_reason_lem outer opened h = absurd (h refl)
opening_reason_lem (some c) (no_token e) h = inl (ground arith, ground arith)
opening_reason_lem (some c) (no_dial status e) h = inl (ground arith, ground arith)
opening_reason_lem none (no_token e) h = inr (refl, inl (e, refl, ground arith))
opening_reason_lem none (no_dial status e) h = inr (refl, status_of_failure status e)
