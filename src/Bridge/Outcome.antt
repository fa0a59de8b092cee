-- ===== src/Bridge/Outcome.antt =====
-- What `Bridge` of internal/relay/bridge.go returns, over every schedule.
use aztunnel.Common.{
  true, false, Option, none, some, List, [], ◌∷◌, ◌++◌, ◌≡◌, refl, ap, subst, ◌∙◌, ◌⊎◌, inl, inr,
  arith, All,
}
use aztunnel.GoError.{Err}
use aztunnel.Causes.{name}
use aztunnel.Bridge.Classify.{is_induced_cancellation, cause_from_pump_exit}
use aztunnel.Bridge.Machine.{
  PumpResult, BridgeResult, Side, from_ws, from_tcp, Main, selecting, returned, Bridge, Event,
  parent_cancel, reader_fails, frame, chunk, receive, ping_exit, result_of, step, run, start,
}
use aztunnel.Bridge.First.{
  Receipt, note, first_received, FirstReports, Leads, step-Leads, run-Leads, start-Leads,
}
use aztunnel.Bridge.Invariant.{Joined, Inv, Returned, start-Inv, step-Inv, run-Inv}

-- If `Bridge` has returned, every goroutine has ended, and the two values returned are those of one of the pumps.
pub run-Returned :
    (evs : List Event) {r : BridgeResult} {e : Option Err}
    → (run start evs).main ≡ returned r e
    → Returned (run start evs) r e
run-Returned evs h = ground (arith, run-Inv start evs start-Inv)

-- If `Bridge` has returned, after any schedule, both pumps and the ping loop have ended and the
-- context is cancelled, and the two values returned are those of the pump that main received from first, which
-- `first_received` reads off the schedule: the first receive from a channel that has a result.
pub run-FirstReports :
    (evs : List Event) {r : BridgeResult} {e : Option Err}
    → (run start evs).main ≡ returned r e
    → Joined (run start evs) × FirstReports (first_received none start evs) (run start evs) r e
run-FirstReports evs h =
    let led = run-Leads none start evs start-Inv start-Leads in
    ((run-Returned evs h).0, subst (Leads (first_received none start evs) (run start evs)) h led)

-- The result carries at most one per-direction error, that error is no induced cancellation, and it
-- is the primary error. A primary error that is no induced cancellation is always reported.
pub result_errors :
    (evs : List Event) {r : BridgeResult} {e : Option Err}
    → (run start evs).main ≡ returned r e
    → ((r.tcp_to_ws_err ≡ none) ⊎ (r.ws_to_tcp_err ≡ none))
      × (is_induced_cancellation r.tcp_to_ws_err ≡ false)
      × (is_induced_cancellation r.ws_to_tcp_err ≡ false)
      × (((is_induced_cancellation e ≡ true) × (r.tcp_to_ws_err ≡ none) × (r.ws_to_tcp_err ≡ none))
          ⊎ ((is_induced_cancellation e ≡ false) × ((r.tcp_to_ws_err ≡ e) ⊎ (r.ws_to_tcp_err ≡ e))))
unfolding result_of is_induced_cancellation
result_errors evs {r} {e} h = ground (arith, run-Returned evs h)

-- The event is no cancellation by the parent.
abbrev pub IsQuiet : Event → Type 0
IsQuiet (parent_cancel e) = ⊥
IsQuiet _ = Unit

-- What the label and the primary error are for a pump that was received from first.
abbrev pub EndsWith : PumpResult → BridgeResult → Option Err → Type 0
EndsWith p r e = (r.end_cause ≡ name (some (cause_from_pump_exit p.op p.err))) × (e ≡ p.err)

-- Without a cancellation by the parent, the cause is the one that main stamped at its first receive.
abbrev Stamped : Receipt → Bridge → Type 0
Stamped none b = b.ctx ≡ none
Stamped (some (side, p)) b = b.ctx ≡ some (cause_from_pump_exit p.op p.err)

step-Stamped :
    (first : Receipt) (b : Bridge) (ev : Event)
    → IsQuiet ev
    → Leads first b b.main
    → Stamped first b
    → Stamped (note first b ev) (step b ev)
unfolding step
step-Stamped first b (parent_cancel e) q l s = absurd q
step-Stamped none b (reader_fails e) q l s = ground arith
step-Stamped none b (frame n e) q l s = ground arith
step-Stamped none b (chunk n r w) q l s = ground arith
step-Stamped none b (receive from_ws) q l s = ground arith
step-Stamped none b (receive from_tcp) q l s = ground arith
step-Stamped none b ping_exit q l s = ground arith
step-Stamped (some first) b (reader_fails e) q l s = ground arith
step-Stamped (some first) b (frame n e) q l s = ground arith
step-Stamped (some first) b (chunk n r w) q l s = ground arith
step-Stamped (some first) b (receive from_ws) q l s = ground arith
step-Stamped (some first) b (receive from_tcp) q l s = ground arith
step-Stamped (some first) b ping_exit q l s = ground arith

run-Stamped :
    (first : Receipt) (b : Bridge) (evs : List Event)
    → All IsQuiet evs
    → Inv b
    → Leads first b b.main
    → Stamped first b
    → Stamped (first_received first b evs) (run b evs)
unfolding run first_received
run-Stamped first b [] q v l s = s
run-Stamped first b (ev ∷ evs) q v l s =
    run-Stamped (note first b ev) (step b ev) evs q.1 (step-Inv b ev v) (step-Leads first b ev v l)
      (step-Stamped first b ev q.0 l s)

start-Stamped : Stamped none start
unfolding start
start-Stamped = refl

first_ends :
    (first : Receipt) (b : Bridge) (r : BridgeResult) (e : Option Err)
    → Stamped first b
    → FirstReports first b r e
    → (side : Side) × (p : PumpResult) × (first ≡ some (side, p)) × EndsWith p r e
unfolding result_of
first_ends first b r e s (inl (p, here, (there, result, err))) = (
  from_ws,
  p,
  here,
  (ap (λ x. x.end_cause) result ∙ ap name (subst (λ o. Stamped o b) here s), err),
)
first_ends first b r e s (inr (p, here, (there, result, err))) = (
  from_tcp,
  p,
  here,
  (ap (λ x. x.end_cause) result ∙ ap name (subst (λ o. Stamped o b) here s), err),
)

-- If the parent context is not cancelled, then when `Bridge` has returned main has received from a pump, and the end
-- cause is the label of the exit of the pump that it received from first, by the schedule, and the primary error is
-- that pump's.
pub first_exit_names_cause :
    (evs : List Event) {r : BridgeResult} {e : Option Err}
    → All IsQuiet evs
    → (run start evs).main ≡ returned r e
    → (side : Side) × (p : PumpResult) × (first_received none start evs ≡ some (side, p))
      × EndsWith p r e
first_exit_names_cause evs {r} {e} q h =
    let s = run-Stamped none start evs q start-Inv start-Leads start-Stamped in
    first_ends (first_received none start evs) (run start evs) r e s (run-FirstReports evs h).1

-- What a cancelled context keeps: its cause, and the label of a result that is returned.
abbrev Caused : Err → Bridge → Main → Type 0
Caused c b (returned r e) = (b.ctx ≡ some c) × (r.end_cause ≡ name (some c))
Caused c b _ = b.ctx ≡ some c

step-Caused :
    (c : Err) (b : Bridge) (ev : Event) → Caused c b b.main → Caused c (step b ev) (step b ev).main
unfolding step
step-Caused c b (parent_cancel e) s = ground arith
step-Caused c b (reader_fails e) s = ground arith
step-Caused c b (frame n e) s = ground arith
step-Caused c b (chunk n r w) s = ground arith
step-Caused c b (receive from_ws) s = ground arith
step-Caused c b (receive from_tcp) s = ground arith
step-Caused c b ping_exit s = ground arith

run-Caused :
    (c : Err) (b : Bridge) (evs : List Event)
    → Caused c b b.main
    → Caused c (run b evs) (run b evs).main
unfolding run
run-Caused c b [] s = s
run-Caused c b (ev ∷ evs) s = run-Caused c (step b ev) evs (step-Caused c b ev s)

pub run-append : (b : Bridge) (evs fs : List Event) → run b (evs ++ fs) ≡ run (run b evs) fs
unfolding run
run-append b [] fs = refl
run-append b (ev ∷ evs) fs = run-append (step b ev) evs fs

cancel-Caused :
    (c : Err) (b : Bridge)
    → b.main ≡ selecting
    → b.ctx ≡ none
    → Caused c (step b (parent_cancel c)) (step b (parent_cancel c)).main
unfolding step
cancel-Caused c b m s = ground arith

-- If the parent context is cancelled with the cause `c` while main still waits for its first pump,
-- and no cancellation came before, the end cause is the label of `c`, whatever the pumps do.
pub parent_cancel_wins :
    (evs fs : List Event) (c : Err) {r : BridgeResult} {e : Option Err}
    → All IsQuiet evs
    → (run start evs).main ≡ selecting
    → (run start (evs ++ parent_cancel c ∷ fs)).main ≡ returned r e
    → r.end_cause ≡ name (some c)
unfolding run
parent_cancel_wins evs fs c q m h =
    let led = run-Leads none start evs start-Inv start-Leads in
    let nothing = subst (Leads (first_received none start evs) (run start evs)) m led in
    let stamped = run-Stamped none start evs q start-Inv start-Leads start-Stamped in
    let quiet = subst (λ o. Stamped o (run start evs)) nothing stamped in
    let b = run start evs in
    let caused = run-Caused c (step b (parent_cancel c)) fs (cancel-Caused c b m quiet) in
    ground (arith, caused, run-append start evs (parent_cancel c ∷ fs))
