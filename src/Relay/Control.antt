-- ===== src/Relay/Control.antt =====
-- internal/relay/control.go: `runControlLoop` with `renewLoop`, `pingLoop`, `handleAccept` and
-- `loopState`. A session is a state machine: the operations of the control channel and the
-- scheduler are the events. Each goroutine that fails first reads the state of the context, then
-- stamps the reason, then cancels the context, in steps of their own.
use aztunnel.Common.{
  ℤ, ℕ, suc, ◌-◌, Bool, true, false, ◌||◌, Option, none, some, List, [], ◌∷◌, ◌≡◌, ◌==◌, ltb,
  if◌then◌else◌,
}
use aztunnel.Common.Text.{Bytes, codes}
use aztunnel.GoError.{
  Err, leaf, wrap, text, cause, control_error, renew_failure, is, is_canceled, is_deadline,
}
use aztunnel.Protocol.{Decoded, decoded}
use aztunnel.Relay.Semaphore.{ConnSemaphore, new_conn_semaphore, try_acquire, release}

-- The `ControlEnded…` constants.
pub data Reason : Type 0 where
  dial_failed token_fetch_failed auth_failed read_failed context_cancelled : Reason
  renew_failed ping_failed : Reason

-- `endResult`
abbrev pub EndResult : Type 0
EndResult = Reason × Option Err

-- `setEnd`: the first writer wins.
unfoldable pub set_end : EndResult → Option EndResult → Option EndResult
set_end r none = some r
set_end r (some first) = some first

-- `classifyControlEndReason`
unfoldable pub classify_control_end_reason : (loop_err outer_ctx_err : Option Err) → Reason
classify_control_end_reason loop_err (some c) = context_cancelled
classify_control_end_reason none none = context_cancelled
classify_control_end_reason (some e) none =
    if is is_canceled e || is is_deadline e then context_cancelled else read_failed

-- `dialAuthFailed`, on the status of the response if there is one.
unfoldable pub dial_auth_failed : Option ℕ → Bool
dial_auth_failed none = false
dial_auth_failed (some status) = (status == 401) || (status == 403)

-- The deferred `control_ended`: the reason and the error of the line.
abbrev pub reported : Option EndResult → (err outer_ctx_err : Option Err) → EndResult
reported none err outer = (classify_control_end_reason err outer, err)
reported (some (r, none)) err outer = (r, err)
reported (some (r, some e)) err outer = (r, some e)

-- The first part of `runControlLoop`: the token and the dial.
pub data Opening : Type 0 where
  no_token : Err → Opening
  no_dial : Option ℕ → Err → Opening
  opened : Opening

-- The end that is stamped, and the error returned. `outer` is the error of the context.
unfoldable pub opening_end : Option Err → Opening → Option EndResult × Option Err
unfolding dial_auth_failed
opening_end outer (no_token e) = (
  (elim outer [ none ↦ some (token_fetch_failed, none) | some c ↦ none ]),
  some (wrap (text (codes "get token")) e),
)
opening_end outer (no_dial status e) = (
  (elim outer [
    | some c ↦ none
    | none ↦ if dial_auth_failed status then some (auth_failed, none) else some (dial_failed, none)
  ]),
  some (wrap (text (codes "dial control")) e),
)
opening_end outer opened = (none, none)

-- The reason of `control_ended` where the session does not come up.
unfoldable pub opening_reason : Option Err → Opening → Reason
unfolding opening_end
opening_reason outer o = let (end, err) = opening_end outer o in (reported end err outer).0

-- What `handleAccept` logs last: `accept_ok`, with a call of the handler, or `accept_dropped`.
pub data Accepted : Type 0 where
  accept_ok accept_dial_failed accept_auth_failed : Accepted

-- `handleAccept`, with the error of the rendezvous dial and the status of its response.
unfoldable pub handle_accept : Option (Option ℕ × Err) → Accepted
unfolding dial_auth_failed
handle_accept none = accept_ok
handle_accept (some (status, e)) =
    if dial_auth_failed status then accept_auth_failed else accept_dial_failed

-- The read loop, `renewLoop` and `pingLoop`.
pub data Thread : Type 0 where
  reader renewer pinger : Thread

-- In its loop; about to stamp its error; about to cancel the context; ended, with its error if it
-- failed.
pub data Phase : Type 0 where
  looping : Phase
  failing : Err → Phase
  cancelling : Err → Phase
  done : Option Err → Phase

-- `outer` is the error of the context of the caller, `ctx` the cause of `loopCtx`. Of the accepts
-- the numbers are kept: all, those dropped for want of a permit, those in flight, those over.
pub record Session : Type 0 where
  pub outer : Option Err
  pub ctx : Option Err
  pub end : Option EndResult
  pub read_loop : Phase
  pub renew_loop : Phase
  pub ping_loop : Phase
  pub sem : ConnSemaphore
  pub attempted : ℕ
  pub dropped : ℕ
  pub in_flight : ℕ
  pub over : ℕ

-- What happens next.
--   outer_done: the caller's context ends, with its error and its cause;
--   message: `ws.Read` gives a message: malformed, or with the address of an `accept` if it has one.
--     The flag is the choice of the `select` in `tryAcquire`;
--   accept_done: a `handleAccept` returns and its permit is released;
--   fails: the operation of a goroutine fails, and it looks at the context;
--   stamps, cancels: the goroutine calls `setEnd`, and then the cancel function;
--   leaves: `renewLoop` or `pingLoop` sees the end of the context at its `select`.
pub data Event : Type 0 where
  outer_done : Err → Err → Event
  message : Decoded (Option Bytes) → Bool → Event
  accept_done : Event
  fails : Thread → Err → Event
  stamps cancels leaves : Thread → Event

abbrev first_of : Option Err → Err → Option Err
first_of none e = some e
first_of (some c) e = some c

abbrev pub is_done : Option Err → Bool
is_done none = false
is_done (some c) = true

abbrev pub phase : Thread → Session → Phase
phase reader s = s.read_loop
phase renewer s = s.renew_loop
phase pinger s = s.ping_loop

abbrev set_phase : Thread → Phase → Session → Session
set_phase reader p s = record s { read_loop = p }
set_phase renewer p s = record s { renew_loop = p }
set_phase pinger p s = record s { ping_loop = p }

abbrev pub reason_of : Thread → Reason
reason_of reader = read_failed
reason_of renewer = renew_failed
reason_of pinger = ping_failed

-- The sentinel with which a goroutine cancels `loopCtx`.
abbrev pub cancel_cause : Thread → Err
cancel_cause renewer = leaf (cause renew_failure)
cancel_cause _ = leaf (cause control_error)

-- Behind a failure under a context that has ended, `pingLoop` returns; the others still cancel.
abbrev failed_late : Thread → Err → Phase
failed_late pinger e = done none
failed_late _ e = cancelling e

abbrev fail_in : Thread → Err → Phase → Session → Session
fail_in t e looping s = set_phase t (if is_done s.ctx then failed_late t e else failing e) s
fail_in t e _ s = s

abbrev stamp_in : Thread → Phase → Session → Session
stamp_in t (failing e) s =
    set_phase t (cancelling e) (record s { end = set_end (reason_of t, some e) s.end })
stamp_in t _ s = s

abbrev cancel_in : Thread → Phase → Session → Session
cancel_in t (cancelling e) s =
    set_phase t (done (some e)) (record s { ctx = first_of s.ctx (cancel_cause t) })
cancel_in t _ s = s

abbrev leave_in : Thread → Phase → Session → Session
leave_in reader _ s = s
leave_in t looping s = if is_done s.ctx then set_phase t (done none) s else s
leave_in t _ s = s

abbrev accept : Bool × ConnSemaphore → Session → Session
accept (true, sem) s = record s {
  sem = sem;
  attempted = suc s.attempted;
  in_flight = suc s.in_flight;
}
accept (false, sem) s = record s { attempted = suc s.attempted; dropped = suc s.dropped }

abbrev read_message : Phase → Decoded (Option Bytes) → Bool → Session → Session
read_message looping (decoded (some addr)) prefers_send s =
    accept (try_acquire (is_done s.ctx) prefers_send s.sem) s
read_message _ _ prefers_send s = s

unfoldable pub step : Session → Event → Session
unfolding set_end try_acquire release
step s (outer_done e why) = elim s.outer [
  | some c ↦ s
  | none ↦ record s { outer = some e; ctx = first_of s.ctx why }
]
step s (message m prefers_send) = read_message s.read_loop m prefers_send s
step s accept_done =
    if ltb 0 s.in_flight
    then record s { sem = release s.sem; in_flight = s.in_flight - 1; over = suc s.over }
    else s
step s (fails t e) = fail_in t e (phase t s) s
step s (stamps t) = stamp_in t (phase t s) s
step s (cancels t) = cancel_in t (phase t s) s
step s (leaves t) = leave_in t (phase t s) s

unfoldable pub run : Session → List Event → Session
unfolding step
run s [] = s
run s (ev ∷ evs) = run (step s ev) evs

-- The session once the dial has succeeded.
unfoldable pub start : ℤ → Session
start max_connections = record {
  outer = none;
  ctx = none;
  end = none;
  read_loop = looping;
  renew_loop = looping;
  ping_loop = looping;
  sem = new_conn_semaphore max_connections;
  attempted = 0;
  dropped = 0;
  in_flight = 0;
  over = 0;
}

-- `wg.Wait` lets `runControlLoop` return: the read loop has failed, and all goroutines have ended.
pub record Finished (s : Session) (err : Err) : Type 0 where
  pub read_done : s.read_loop ≡ done (some err)
  pub renew_done : (e : Option Err) × (s.renew_loop ≡ done e)
  pub ping_done : (e : Option Err) × (s.ping_loop ≡ done e)
  pub accepts_done : s.in_flight ≡ 0

-- What the deferred `control_ended` reports of a session whose read loop failed with the error.
unfoldable pub control_ended : Session → Err → EndResult
control_ended s err = reported s.end (some (wrap (text (codes "read control")) err)) s.outer
