-- ===== src/Relay/Renew.antt =====
-- internal/relay/control.go: `renewOnce`. What the credential, the connection and the context answer
-- in each attempt is an `Attempt`.
use aztunnel.Common.{
  ℕ, zero, suc, ◌*◌, ◌-◌, ◌≤◌, Bool, true, false, ◌||◌, Option, none, some, List, [], ◌∷◌, ◌≡◌, ◌⊎◌,
  inl, inr, arith, ltb, if◌then◌else◌, Bool-cases, Option-cases,
}
use aztunnel.GoError.{Err, is, is_canceled, is_deadline}

-- `maxRenewRetries`
abbrev pub max_renew_retries : ℕ
max_renew_retries = 3

-- The `RenewFailed…` constants that `renewOnce` uses.
pub data RenewFailed : Type 0 where
  connection_lost context_cancelled token_fetch_failed : RenewFailed

-- One attempt: the error of the context at the `select`, if it ends before the delay does; the
-- result of `GetToken`; and the error of the write.
pub record Attempt : Type 0 where
  pub ctx_err : Option Err
  pub token : Option Err
  pub write : Option Err

-- The events logged, with the number of the attempt, and the delays, in seconds.
pub data Line : Type 0 where
  renew_attempted renew_ok : ℕ → Line
  renew_failed : ℕ → RenewFailed → Option Err → Line
  slept : ℕ → Line

pub record Renewal : Type 0 where
  pub lines : List Line
  pub err : Option Err

abbrev log_line : Line → Renewal → Renewal
log_line l r = record { lines = l ∷ r.lines; err = r.err }

abbrev fail : ℕ → RenewFailed → Option Err → Renewal
fail attempt code e = record { lines = renew_failed attempt code e ∷ []; err = e }

-- Behind the loop: the code of the last error.
abbrev pub exhausted_code : Option Err → RenewFailed
exhausted_code none = token_fetch_failed
exhausted_code (some e) =
    if is is_canceled e || is is_deadline e then context_cancelled else token_fetch_failed

-- Behind `GetToken`; `again` is the rest of the loop with the last error.
abbrev try_token : ℕ → Attempt → (Option Err → Renewal) → Renewal
try_token attempt a again = elim a.token [
  | some e ↦ again (some e)
  | none ↦ elim a.write [
    | some e ↦ fail attempt connection_lost (some e)
    | none ↦ record { lines = renew_ok attempt ∷ []; err = none }
  ]
]

-- One run of the loop's body. `left` counts the attempts that may follow.
abbrev one_attempt : ℕ → Attempt → (Option Err → Renewal) → Renewal
one_attempt attempt a again =
    let tried = log_line (renew_attempted attempt) (try_token attempt a again) in
    if ltb 1 attempt
    then (elim a.ctx_err [
      | some e ↦ fail (attempt - 1) context_cancelled (some e)
      | none ↦ log_line (slept ((attempt - 1) * 5)) tried
    ])
    else tried

-- The loop with the attempts made so far and the last error. `world n` answers the n-th attempt.
unfoldable pub renew_from : (ℕ → Attempt) → (left made : ℕ) → Option Err → Renewal
renew_from world zero made last = fail made (exhausted_code last) last
renew_from world (suc left) made last =
    one_attempt (suc made) (world (suc made)) (renew_from world left (suc made))

-- `renewOnce`
unfoldable pub renew_once : (ℕ → Attempt) → Renewal
unfolding renew_from
renew_once world = renew_from world max_renew_retries 0 none

abbrev pub is_attempt : Line → Bool
is_attempt (renew_attempted n) = true
is_attempt _ = false

abbrev pub is_terminal : Line → Bool
is_terminal (renew_ok n) = true
is_terminal (renew_failed n code e) = true
is_terminal _ = false

-- The lines for which the test holds, counted.
abbrev pub count_lines : (Line → Bool) → List Line → ℕ
count_lines test [] = 0
count_lines test (l ∷ ls) = let rest = count_lines test ls in if test l then suc rest else rest

-- The last line.
abbrev pub last_line : Line → List Line → Line
last_line l [] = l
last_line l (l' ∷ ls) = last_line l' ls

-- A renewal makes one to three attempts and ends with its one terminal line.
pub renew_once_events :
    (world : ℕ → Attempt)
    → let r = renew_once world in
      (count_lines is_terminal r.lines ≡ 1)
      × (1 ≤ count_lines is_attempt r.lines)
      × (count_lines is_attempt r.lines ≤ max_renew_retries)
      × (is_terminal (last_line (slept 0) r.lines) ≡ true)
unfolding renew_once
renew_once_events world = (ground arith, ground arith, ground arith, ground arith)

-- Why a renewal failed at an attempt: the code and the error logged are those of a write that failed,
-- of a context that ended in the delay before the next attempt, or of the last fetch of a token.
abbrev pub Explains : (ℕ → Attempt) → ℕ → RenewFailed → Err → Type 0
Explains world n connection_lost e = ((world n).token ≡ none) × ((world n).write ≡ some e)
Explains world n context_cancelled e =
    ((world (suc n)).ctx_err ≡ some e)
    ⊎ ((n ≡ max_renew_retries)
        × ((world n).token ≡ some e)
        × (exhausted_code (some e) ≡ context_cancelled))
Explains world n token_fetch_failed e =
    (n ≡ max_renew_retries)
    × ((world n).token ≡ some e)
    × (exhausted_code (some e) ≡ token_fetch_failed)

abbrev pub Succeeds : (ℕ → Attempt) → Renewal → Type 0
Succeeds world r =
    (n : ℕ) × (r.err ≡ none)
    × (last_line (slept 0) r.lines ≡ renew_ok n)
    × ((world n).token ≡ none)
    × ((world n).write ≡ none)

abbrev pub Fails : (ℕ → Attempt) → Renewal → Type 0
Fails world r =
    (n : ℕ) × (code : RenewFailed) × (e : Err) × (r.err ≡ some e)
    × (last_line (slept 0) r.lines ≡ renew_failed n code (some e))
    × Explains world n code e

exhausted :
    (world : ℕ → Attempt) (e : Err)
    → (world 3).token ≡ some e
    → Explains world 3 (exhausted_code (some e)) e
exhausted world e h = elim (Bool-cases (is is_canceled e || is is_deadline e)) [
  | inl ended ↦ ground (arith, h)
  | inr other ↦ ground (arith, h)
]

-- A renewal succeeds, with the line `renew_ok`, at an attempt whose token was fetched and written, or
-- fails with an error and a code that explain the line `renew_failed`.
pub renew_once_result :
    (world : ℕ → Attempt) → Succeeds world (renew_once world) ⊎ Fails world (renew_once world)
unfolding renew_once
renew_once_result world = elim (Option-cases (world 1).token) [
  | inl t1 ↦ elim (Option-cases (world 1).write) [
    | inl w1 ↦ inl (1, ground arith, ground arith, t1, w1)
    | inr (e, w1) ↦ inr (1, connection_lost, e, ground arith, ground arith, (t1, w1))
  ]
  | inr (e1, t1) ↦ elim (Option-cases (world 2).ctx_err) [
    | inr (e, c2) ↦ inr (1, context_cancelled, e, ground arith, ground arith, inl c2)
    | inl c2 ↦ elim (Option-cases (world 2).token) [
      | inl t2 ↦ elim (Option-cases (world 2).write) [
        | inl w2 ↦ inl (2, ground arith, ground arith, t2, w2)
        | inr (e, w2) ↦ inr (2, connection_lost, e, ground arith, ground arith, (t2, w2))
      ]
      | inr (e2, t2) ↦ elim (Option-cases (world 3).ctx_err) [
        | inr (e, c3) ↦ inr (2, context_cancelled, e, ground arith, ground arith, inl c3)
        | inl c3 ↦ elim (Option-cases (world 3).token) [
          | inl t3 ↦ elim (Option-cases (world 3).write) [
            | inl w3 ↦ inl (3, ground arith, ground arith, t3, w3)
            | inr (e, w3) ↦ inr (3, connection_lost, e, ground arith, ground arith, (t3, w3))
          ]
          | inr (e3, t3) ↦
              inr
                (3, exhausted_code (some e3), e3, ground arith, ground arith, exhausted world e3 t3)
        ]
      ]
    ]
  ]
]
