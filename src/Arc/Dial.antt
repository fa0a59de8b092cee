-- ===== src/Arc/Dial.antt =====
-- internal/arc/arc.go: `DialWithOptions`, its retry loop and its progress log. What an attempt comes to, and when,
-- is in the list of attempts; durations are nanoseconds since the start.
use aztunnel.Common.{
  ℕ, suc, ◌+◌, ◌*◌, Bool, true, false, not, ◌&&◌, if◌then◌else◌, leb, ◌==◌, Option, none, some,
  List, [], ◌∷◌, ◌++◌, min,
}
use aztunnel.GoError.{Err}
use aztunnel.Relay.Dial.{is_retryable_status}

abbrev pub second : ℕ
second = 1000000000

abbrev pub retry_initial : ℕ
retry_initial = 1 * second

abbrev pub retry_max : ℕ
retry_max = 5 * second

abbrev pub retry_multiplier : ℕ
retry_multiplier = 2

abbrev pub progress_log_period : ℕ
progress_log_period = 15 * second

abbrev pub progress_log_quiet_delay : ℕ
progress_log_quiet_delay = 30 * second

-- What `websocket.Dial` gives: an error comes with the status of the response, if there was one.
pub data Attempted : Type 0 where
  connected : Attempted
  refused : Err → Option ℕ → Attempted

-- An attempt ends `at` a time; `over_dial` and `over_wait` are the error of the context behind the dial and in the
-- wait, if it is over by then.
pub record Attempt : Type 0 where
  pub outcome : Attempted
  pub at : ℕ
  pub over_dial : Option Err
  pub over_wait : Option Err

pub data DialEffect : Type 0 where
  info_waiting : (status : ℕ) → DialEffect
  info_still_waiting : (elapsed attempts : ℕ) → DialEffect
  info_connected : (attempts last_status : ℕ) → DialEffect
  debug_connected : (attempts : ℕ) → DialEffect
  debug_retry : (status attempt delay : ℕ) → DialEffect
  warn_failed : Err → DialEffect
  wait_for : ℕ → DialEffect

-- The result: `still` while the attempts of the list are used up. `gave_up` is `giveUpErr`.
pub data DialEnd : Type 0 where
  dialled : DialEnd
  gave_up : (attempts elapsed last_status : ℕ) → Err → DialEnd
  failed_dial : Err → DialEnd
  still : DialEnd

-- The variables of the loop; `last_log` is `none` for the zero time.
pub record Dialling : Type 0 where
  pub delay : ℕ
  pub attempts : ℕ
  pub last_status : ℕ
  pub last_log : Option ℕ
  pub progress_logged : Bool

abbrev pub first : Dialling
first = record {
  delay = retry_initial;
  attempts = 0;
  last_status = 0;
  last_log = none;
  progress_logged = false;
}

-- `time.Since(lastProgressLog) >= progressLogPeriod`
abbrev period_over : ℕ → Option ℕ → Bool
period_over now none = true
period_over now (some t) = leb (t + progress_log_period) now

abbrev noted : ℕ → Dialling → Dialling
noted now d = record d { last_log = some now; progress_logged = true }

-- The progress log of a retry.
unfoldable pub progress :
    (explain : Bool) → (now status : ℕ) → Dialling → List DialEffect × Dialling
progress explain now status d =
    if explain
    then (if d.attempts == 1
        then (info_waiting status ∷ [], noted now d)
        else (if period_over now d.last_log
            then (info_still_waiting now d.attempts ∷ [], noted now d)
            else ([], d)))
    else (if leb progress_log_quiet_delay now && period_over now d.last_log
        then (info_still_waiting now d.attempts ∷ [], noted now d)
        else ([], d))

abbrev ahead : List DialEffect → List DialEffect × DialEnd → List DialEffect × DialEnd
ahead es (more, e) = (es ++ more, e)

-- The end of a round: the wait, or the end of the context, and the next delay.
abbrev wait_round : Attempt → Dialling → (List DialEffect × DialEnd) → List DialEffect × DialEnd
wait_round a d next = elim a.over_wait [
  | some e ↦ ([], gave_up d.attempts a.at d.last_status e)
  | none ↦ ahead (wait_for d.delay ∷ []) next
]

abbrev pub doubled : Dialling → Dialling
doubled d = record d { delay = min (d.delay * retry_multiplier) retry_max }

abbrev pub is_retryable : Option ℕ → Bool
is_retryable none = false
is_retryable (some status) = is_retryable_status status

abbrev pub status_or_zero : Option ℕ → ℕ
status_or_zero none = 0
status_or_zero (some status) = status

-- What the loop knows in a round that will be retried.
abbrev pub counted : Dialling → Dialling
counted d = record d { attempts = suc d.attempts }

abbrev pub retried : Bool → Attempt → ℕ → Dialling → List DialEffect × Dialling
retried explain a status d =
    progress explain a.at status (record (counted d) { last_status = status })

-- The loop of `DialWithOptions`.
unfoldable pub dial_loop : (explain : Bool) → List Attempt → Dialling → List DialEffect × DialEnd
unfolding progress
dial_loop explain [] d = ([], still)
dial_loop explain (a ∷ later) d =
    let rest = dial_loop explain later in
    elim a.outcome [
      | connected ↦
          if d.progress_logged
          then (info_connected (suc d.attempts) d.last_status ∷ [], dialled)
          else (debug_connected (suc d.attempts) ∷ [], dialled)
      | refused e status ↦ elim a.over_dial [
        | some over ↦ ([], gave_up (suc d.attempts) a.at d.last_status over)
        | none ↦
            if not (is_retryable status)
            then (warn_failed e ∷ [], failed_dial e)
            else let (logs, d') = retried explain a (status_or_zero status) d in
              ahead (debug_retry (status_or_zero status) (suc d.attempts) d.delay ∷ logs)
                (wait_round a d' (rest (doubled d')))
      ]
    ]
