-- ===== src/Relay/Dial.antt =====
-- internal/relay/dial.go: `IsRetryableStatus` and `DialWithRetry`. What the credential, the network
-- and the context answer in each round of the loop is a `Round`.
use aztunnel.Common.{
  ℕ, zero, suc, ◌*◌, min, Bool, false, ◌||◌, Option, none, some, List, [], ◌∷◌, ◌++◌, ◌≡◌, refl,
  ◌↔◌, ◌⊎◌, inl, inr, arith, ◌==◌, if◌then◌else◌, length, All, Option-cases,
}
use aztunnel.Common.Text.{codes}
use aztunnel.GoError.{Err, wrap, text}

abbrev second : ℕ
second = 1000000000

-- `retryInitial`, `retryMax` and `retryMultiplier`
abbrev pub retry_initial : ℕ
retry_initial = 1 * second

abbrev pub retry_max : ℕ
retry_max = 5 * second

abbrev pub retry_multiplier : ℕ
retry_multiplier = 2

-- `IsRetryableStatus`
abbrev pub is_retryable_status : ℕ → Bool
is_retryable_status code = code == 404 || code == 503

-- `websocket.Dial`: a connection, or its error, redacted, with the status of the response if there
-- is one.
pub data Dialled : Type 0 where
  connected : Dialled
  refused : Option ℕ → Err → Dialled

-- One round: the error of `GetToken`, the dial, and the error of the context at the `select`, if it
-- ends before the delay does.
pub record Round : Type 0 where
  pub token : Option Err
  pub dial : Dialled
  pub ctx_err : Option Err

-- How the loop stands: returned, with the error, or in a further round, with the delay it has then.
pub data Progress : Type 0 where
  returned : Option Err → Progress
  at_delay : ℕ → Progress

-- The delays slept through, and how the loop stands.
pub record Dialling : Type 0 where
  pub slept : List ℕ
  pub progress : Progress

abbrev stop : Option Err → Dialling
stop e = record { slept = []; progress = returned e }

abbrev sleep : ℕ → Dialling → Dialling
sleep d r = record { slept = d ∷ r.slept; progress = r.progress }

abbrev retryable : Option ℕ → Bool
retryable none = false
retryable (some code) = is_retryable_status code

-- What a round decides: the error to return, or to go on.
pub data Decision : Type 0 where
  finish : Option Err → Decision
  go_on : Decision

abbrev dial_decision : Dialled → Option Err → Decision
dial_decision connected ctx_err = finish none
dial_decision (refused status e) ctx_err =
    if retryable status
    then (elim ctx_err [
      | some c ↦ finish (some (wrap (text (codes "dial relay")) c))
      | none ↦ go_on
    ])
    else finish (some (wrap (text (codes "dial relay")) e))

unfoldable pub decide : Round → Decision
decide r = elim r.token [
  | some e ↦ finish (some (wrap (text (codes "get token")) e))
  | none ↦ dial_decision r.dial r.ctx_err
]

-- `DialWithRetry` from a delay, as far as the rounds go.
unfoldable pub dial_from : ℕ → List Round → Dialling
dial_from delay [] = record { slept = []; progress = at_delay delay }
dial_from delay (r ∷ rs) =
    let rest = dial_from (min (delay * retry_multiplier) retry_max) rs in
    elim (decide r) [ finish e ↦ stop e | go_on ↦ sleep delay rest ]

-- `DialWithRetry`
unfoldable pub dial_with_retry : List Round → Dialling
unfolding dial_from
dial_with_retry rs = dial_from retry_initial rs

-- The n-th delay: 1 s, 2 s, 4 s, and 5 s from then on.
abbrev pub nth_delay : ℕ → ℕ
nth_delay zero = 1 * second
nth_delay (suc zero) = 2 * second
nth_delay (suc (suc zero)) = 4 * second
nth_delay (suc (suc (suc n))) = 5 * second

-- A round after which the loop goes on: no listener was ready.
abbrev pub IsRetried : Round → Type 0
IsRetried r =
    (r.token ≡ none)
    × (r.ctx_err ≡ none)
    × ((code : ℕ) × (e : Err) × (r.dial ≡ refused (some code) e) × ((code ≡ 404) ⊎ (code ≡ 503)))

abbrev pub delays_from : ℕ → ℕ → List ℕ
delays_from k zero = []
delays_from k (suc n) = nth_delay k ∷ delays_from (suc k) n

next_delay : (k : ℕ) → min (nth_delay k * retry_multiplier) retry_max ≡ nth_delay (suc k)
next_delay zero = refl
next_delay (suc zero) = refl
next_delay (suc (suc zero)) = refl
next_delay (suc (suc (suc n))) = refl

dial_iff :
    (r : Round) (d : Dialled)
    → r.token ≡ none
    → r.dial ≡ d
    → ((decide r ≡ go_on) ↔ IsRetried r)
      × ((decide r ≡ finish none) ↔ ((r.token ≡ none) × (r.dial ≡ connected)))
unfolding decide
dial_iff r connected t d = (
  ((λ h. absurd (ground arith)), λ (t', c, (code, e, d', is_code)). absurd (ground arith)),
  ((λ h. (t, d)), λ h. ground arith),
)
dial_iff r (refused none e) t d = (
  ((λ h. absurd (ground arith)), λ (t', c, (code, e', d', is_code)). absurd (ground arith)),
  ((λ h. absurd (ground arith)), λ h. absurd (ground arith)),
)
dial_iff r (refused (some code) e) t d = (
  (
    (λ h. (t, ground arith, (code, e, d, ground arith))),
    λ (t', c, (code', e', d', is_code)). ground arith,
  ),
  ((λ h. absurd (ground arith)), λ h. absurd (ground arith)),
)

-- A round is retried exactly when the token was there, the relay answered the dial with status 404
-- or 503, and the context outlived the delay. The loop returns without an error exactly in a round
-- that connects.
pub decide_iff :
    (r : Round)
    → ((decide r ≡ go_on) ↔ IsRetried r)
      × ((decide r ≡ finish none) ↔ ((r.token ≡ none) × (r.dial ≡ connected)))
unfolding decide
decide_iff r = elim (Option-cases r.token) [
  | inr (e, t) ↦ (
    ((λ h. absurd (ground arith)), λ (t', c, (code, e', d', is_code)). absurd (ground arith)),
    ((λ h. absurd (ground arith)), λ (t', d). absurd (ground arith)),
  )
  | inl t ↦ dial_iff r r.dial t refl
]

dial_from_lem :
    (k : ℕ) (rs : List Round) (r : Round) (rest : List Round) (e : Option Err)
    → All IsRetried rs
    → decide r ≡ finish e
    → dial_from (nth_delay k) (rs ++ r ∷ rest)
      ≡ record { slept = delays_from k (length rs); progress = returned e }
unfolding dial_from
dial_from_lem k [] r rest e _ h = ground arith
dial_from_lem k (r' ∷ rs) r rest e (retried, all) h =
    let (retry, success) = decide_iff r' in
    ground (arith, next_delay k, retry.1 retried, dial_from_lem (suc k) rs r rest e all h)

-- The whole loop: rounds that are retried, however many, and then one that is not. It returns what
-- that round decides, and has slept behind the retried rounds 1 s, 2 s, 4 s and from then on 5 s.
pub dial_with_retry_lem :
    (rs : List Round) (r : Round) (rest : List Round) (e : Option Err)
    → All IsRetried rs
    → decide r ≡ finish e
    → dial_with_retry (rs ++ r ∷ rest)
      ≡ record { slept = delays_from 0 (length rs); progress = returned e }
unfolding dial_with_retry
dial_with_retry_lem rs r rest e all h = dial_from_lem 0 rs r rest e all h
