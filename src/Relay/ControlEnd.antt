-- ===== src/Relay/ControlEnd.antt =====
-- What holds of the control session of internal/relay/control.go under every schedule of the end
-- it stamps, and what `control_ended` reports.
use aztunnel.Common.{
  ℤ, true, false, Option, none, some, List, [], ◌∷◌, ◌≡◌, refl, ◌≢◌, ◌⊎◌, inl, inr, subst, arith,
  Option-cases,
}
use aztunnel.Common.Text.{codes}
use aztunnel.GoError.{Err, wrap, text}
use aztunnel.Relay.Control.{
  Reason, read_failed, renew_failed, ping_failed, context_cancelled, EndResult,
  classify_control_end_reason, Thread, reader, renewer, pinger, Phase, looping, failing, cancelling,
  done, Session, Event, outer_done, message, accept_done, fails, stamps, cancels, leaves, phase,
  reason_of, step, run, start, Finished, control_ended,
}

-- The error of a goroutine that has failed.
abbrev pub failure : Phase → Option Err
failure (cancelling e) = some e
failure (done e) = e
failure _ = none

-- The stamp is that of a goroutine that has failed, with its reason and its error.
abbrev pub Owned : Option EndResult → Session → Type 0
Owned none s = Unit
Owned (some (read_failed, e)) s = (failure s.read_loop ≡ e) × (e ≢ none)
Owned (some (renew_failed, e)) s = (failure s.renew_loop ≡ e) × (e ≢ none)
Owned (some (ping_failed, e)) s = (failure s.ping_loop ≡ e) × (e ≢ none)
Owned (some (_, e)) s = true ≡ false

-- Why the context can have ended.
abbrev pub Excused : Session → Type 0
Excused s = (s.outer ≢ none) ⊎ (s.end ≢ none)

abbrev pub AtPhase : Phase → Session → Type 0
AtPhase (cancelling e) s = Excused s
AtPhase (done e) s = s.ctx ≢ none
AtPhase _ s = Unit

abbrev pub Ends : Session → Type 0
Ends s =
    Owned s.end s
    × (s.ctx ≢ none → Excused s)
    × AtPhase s.read_loop s
    × AtPhase s.renew_loop s
    × AtPhase s.ping_loop s

step-Ends : (s : Session) (ev : Event) → Ends s → Ends (step s ev)
unfolding step
step-Ends s (outer_done e why) v = ground arith
step-Ends s (message m prefers) v = ground arith
step-Ends s accept_done v = ground arith
step-Ends s (fails reader e) v = ground arith
step-Ends s (fails renewer e) v = ground arith
step-Ends s (fails pinger e) v = ground arith
step-Ends s (stamps reader) v = ground arith
step-Ends s (stamps renewer) v = ground arith
step-Ends s (stamps pinger) v = ground arith
step-Ends s (cancels reader) v = ground arith
step-Ends s (cancels renewer) v = ground arith
step-Ends s (cancels pinger) v = ground arith
step-Ends s (leaves reader) v = ground arith
step-Ends s (leaves renewer) v = ground arith
step-Ends s (leaves pinger) v = ground arith

run-Ends : (s : Session) (evs : List Event) → Ends s → Ends (run s evs)
unfolding run
run-Ends s [] v = v
run-Ends s (ev ∷ evs) v = run-Ends (step s ev) evs (step-Ends s ev v)

start-Ends : (max : ℤ) → Ends (start max)
unfolding start
start-Ends max = ground arith

-- A stamp of a state in which `Ends` holds, with its goroutine.
owner :
    (s : Session) (r : Reason) (e : Option Err)
    → Owned (some (r, e)) s
    → (t : Thread) × (r ≡ reason_of t) × (failure (phase t s) ≡ e) × (e ≢ none)
owner s read_failed e (f, x) = (reader, refl, f, x)
owner s renew_failed e (f, x) = (renewer, refl, f, x)
owner s ping_failed e (f, x) = (pinger, refl, f, x)
owner s Reason.dial_failed e o = absurd (ground arith)
owner s Reason.token_fetch_failed e o = absurd (ground arith)
owner s Reason.auth_failed e o = absurd (ground arith)
owner s context_cancelled e o = absurd (ground arith)

-- A session that came up and has finished while the caller's context lives on reports the failure
-- of one of its three goroutines, the reason and the error both of that one.
pub control_ended_names :
    (max : ℤ) (evs : List Event) (err : Err)
    → Finished (run (start max) evs) err
    → (run (start max) evs).outer ≡ none
    → (t : Thread) × (e : Err) × (control_ended (run (start max) evs) err ≡ (reason_of t, some e))
      × (failure (phase t (run (start max) evs)) ≡ some e)
unfolding control_ended
control_ended_names max evs err f alive =
    let s = run (start max) evs in
    let (owned, excused, at_reader, at_renewer, at_pinger) =
      run-Ends (start max) evs (start-Ends max) in
    elim (Option-cases s.end) [
      | inl unstamped ↦ absurd (ground (arith, f.read_done, at_reader, excused, alive, unstamped))
      | inr ((r, e), stamped) ↦
          let (t, named, failed, some_error) = owner s r e (subst (λ o. Owned o s) stamped owned) in
          elim (Option-cases e) [
            | inl no_error ↦ absurd (some_error no_error)
            | inr (e', is_error) ↦ (t, e', ground arith, ground arith)
          ]
    ]

step-end : (s : Session) (ev : Event) (r : EndResult) → s.end ≡ some r → (step s ev).end ≡ some r
unfolding step
step-end s (outer_done e why) r h = ground arith
step-end s (message m prefers) r h = ground arith
step-end s accept_done r h = ground arith
step-end s (fails reader e) r h = ground arith
step-end s (fails renewer e) r h = ground arith
step-end s (fails pinger e) r h = ground arith
step-end s (stamps reader) r h = ground arith
step-end s (stamps renewer) r h = ground arith
step-end s (stamps pinger) r h = ground arith
step-end s (cancels reader) r h = ground arith
step-end s (cancels renewer) r h = ground arith
step-end s (cancels pinger) r h = ground arith
step-end s (leaves reader) r h = ground arith
step-end s (leaves renewer) r h = ground arith
step-end s (leaves pinger) r h = ground arith

-- The first stamp stays, with its error, whatever fails afterwards and also if the caller's context
-- ends; and `control_ended` reports it.
pub first_stamp_stays :
    (s : Session) (evs : List Event) (r : Reason) (e err : Err)
    → s.end ≡ some (r, some e)
    → ((run s evs).end ≡ some (r, some e)) × (control_ended (run s evs) err ≡ (r, some e))
unfolding run control_ended
first_stamp_stays s [] r e err h = (h, ground arith)
first_stamp_stays s (ev ∷ evs) r e err h =
    first_stamp_stays (step s ev) evs r e err (step-end s ev (r, some e) h)

abbrev pub IsLoopingOrLate : Phase → Type 0
IsLoopingOrLate (failing e) = true ≡ false
IsLoopingOrLate _ = Unit

-- The caller's context has ended, and nothing is stamped or about to be.
abbrev pub Quiet : Session → Type 0
Quiet s =
    (s.end ≡ none)
    × (s.outer ≢ none)
    × (s.ctx ≢ none)
    × IsLoopingOrLate s.read_loop
    × IsLoopingOrLate s.renew_loop
    × IsLoopingOrLate s.ping_loop

step-Quiet : (s : Session) (ev : Event) → Quiet s → Quiet (step s ev)
unfolding step
step-Quiet s (outer_done e why) v = ground arith
step-Quiet s (message m prefers) v = ground arith
step-Quiet s accept_done v = ground arith
step-Quiet s (fails reader e) v = ground arith
step-Quiet s (fails renewer e) v = ground arith
step-Quiet s (fails pinger e) v = ground arith
step-Quiet s (stamps reader) v = ground arith
step-Quiet s (stamps renewer) v = ground arith
step-Quiet s (stamps pinger) v = ground arith
step-Quiet s (cancels reader) v = ground arith
step-Quiet s (cancels renewer) v = ground arith
step-Quiet s (cancels pinger) v = ground arith
step-Quiet s (leaves reader) v = ground arith
step-Quiet s (leaves renewer) v = ground arith
step-Quiet s (leaves pinger) v = ground arith

run-Quiet : (s : Session) (evs : List Event) → Quiet s → Quiet (run s evs)
unfolding run
run-Quiet s [] v = v
run-Quiet s (ev ∷ evs) v = run-Quiet (step s ev) evs (step-Quiet s ev v)

-- A session whose three goroutines are still in their loops when the caller's context ends reports
-- `context_cancelled`, whatever comes afterwards.
pub graceful_end :
    (s : Session) (e why : Err) (evs : List Event) (err : Err)
    → s.end ≡ none
    → s.outer ≡ none
    → ((t : Thread) → phase t s ≡ looping)
    → control_ended (run s (outer_done e why ∷ evs)) err
      ≡ (context_cancelled, some (wrap (text (codes "read control")) err))
unfolding run step control_ended classify_control_end_reason
graceful_end s e why evs err unstamped alive loops =
    let quiet =
      run-Quiet (step s (outer_done e why)) evs
        (ground (arith, loops reader, loops renewer, loops pinger)) in
    ground (arith, quiet)
