-- ===== src/Relay/ControlProgress.antt =====
-- That the control session of internal/relay/control.go can always come to its end: `wg.Wait` does
-- not block for ever, once the handlers return.
use aztunnel.Common.{
  ℕ, zero, suc, true, false, Option, none, some, List, [], ◌∷◌, ◌++◌, ◌≡◌, refl, ◌≢◌, ℤ, sym, subst,
  ◌∙◌, arith,
}
use aztunnel.GoError.{Err}
use aztunnel.Relay.Control.{
  Thread, reader, renewer, pinger, Phase, looping, failing, cancelling, done, Session, Event,
  accept_done, fails, stamps, cancels, leaves, is_done, step, run, start, Finished,
}

-- A goroutine whose operation fails: it stamps its error and cancels the context, whatever it was about.
abbrev pub ending : Thread → Err → List Event
ending t e = fails t e ∷ stamps t ∷ cancels t ∷ []

-- A goroutine that finishes what it was about, or leaves at its `select`. No operation of its own fails.
abbrev pub quits : Thread → List Event
quits t = stamps t ∷ cancels t ∷ leaves t ∷ []

abbrev pub releases : ℕ → List Event
releases zero = []
releases (suc n) = accept_done ∷ releases n

-- One goroutine fails; the read of the control channel returns an error; the others see the end of the context; the
-- handlers return.
abbrev pub finale : Thread → (e read_err : Err) → ℕ → List Event
finale t e read_err n =
    ending t e ++ (ending reader read_err ++ (quits renewer ++ (quits pinger ++ releases n)))

pub run-append : (s : Session) (xs ys : List Event) → run s (xs ++ ys) ≡ run (run s xs) ys
unfolding run
run-append s [] ys = refl
run-append s (x ∷ xs) ys = run-append (step s x) xs ys

-- A phase that the goroutine has left for good.
abbrev pub IsOver : Phase → Type 0
IsOver (done e) = Unit
IsOver _ = true ≡ false

run-releases :
    (n : ℕ) (s : Session)
    → s.in_flight ≡ n
    → ((run s (releases n)).in_flight ≡ 0)
      × ((run s (releases n)).read_loop ≡ s.read_loop)
      × ((run s (releases n)).renew_loop ≡ s.renew_loop)
      × ((run s (releases n)).ping_loop ≡ s.ping_loop)
unfolding run step
run-releases zero s h = (h, refl, refl, refl)
run-releases (suc n) s h = ground (arith, run-releases n (step s accept_done))

-- The read loop never ends without an error.
step-reader :
    (s : Session) (ev : Event) → s.read_loop ≢ done none → (step s ev).read_loop ≢ done none
unfolding step
step-reader s (Event.outer_done e why) v = ground arith
step-reader s (Event.message m prefers) v = ground arith
step-reader s accept_done v = ground arith
step-reader s (fails reader e) v = ground arith
step-reader s (fails renewer e) v = ground arith
step-reader s (fails pinger e) v = ground arith
step-reader s (stamps reader) v = ground arith
step-reader s (stamps renewer) v = ground arith
step-reader s (stamps pinger) v = ground arith
step-reader s (cancels reader) v = ground arith
step-reader s (cancels renewer) v = ground arith
step-reader s (cancels pinger) v = ground arith
step-reader s (leaves reader) v = ground arith
step-reader s (leaves renewer) v = ground arith
step-reader s (leaves pinger) v = ground arith

run-reader :
    (s : Session) (evs : List Event) → s.read_loop ≢ done none → (run s evs).read_loop ≢ done none
unfolding run
run-reader s [] v = v
run-reader s (ev ∷ evs) v = run-reader (step s ev) evs (step-reader s ev v)

-- A goroutine ends only behind the end of the context.
abbrev Stops : Phase → Session → Type 0
Stops (done o) s = is_done s.ctx ≡ true
Stops _ s = Unit

abbrev AllStop : Session → Type 0
AllStop s = Stops s.read_loop s × Stops s.renew_loop s × Stops s.ping_loop s

step-AllStop : (s : Session) (ev : Event) → AllStop s → AllStop (step s ev)
unfolding step
step-AllStop s (Event.outer_done e why) v = ground arith
step-AllStop s (Event.message m prefers) v = ground arith
step-AllStop s accept_done v = ground arith
step-AllStop s (fails reader e) v = ground arith
step-AllStop s (fails renewer e) v = ground arith
step-AllStop s (fails pinger e) v = ground arith
step-AllStop s (stamps reader) v = ground arith
step-AllStop s (stamps renewer) v = ground arith
step-AllStop s (stamps pinger) v = ground arith
step-AllStop s (cancels reader) v = ground arith
step-AllStop s (cancels renewer) v = ground arith
step-AllStop s (cancels pinger) v = ground arith
step-AllStop s (leaves reader) v = ground arith
step-AllStop s (leaves renewer) v = ground arith
step-AllStop s (leaves pinger) v = ground arith

run-AllStop : (s : Session) (evs : List Event) → AllStop s → AllStop (run s evs)
unfolding run
run-AllStop s [] v = v
run-AllStop s (ev ∷ evs) v = run-AllStop (step s ev) evs (step-AllStop s ev v)

start-AllStop : (max : ℤ) → AllStop (start max)
unfolding start
start-AllStop max = ground arith

-- The failure of any goroutine ends the context.
ending-is_done :
    (t : Thread) (s : Session) (e : Err) → AllStop s → is_done (run s (ending t e)).ctx ≡ true
unfolding run step
ending-is_done reader s e v = ground arith
ending-is_done renewer s e v = ground arith
ending-is_done pinger s e v = ground arith

-- Under a context that has ended, the read loop ends with its read, and the others end.
IsOver-lem :
    (s : Session) (e : Err)
    → is_done s.ctx ≡ true
    → IsOver (run s (ending reader e)).read_loop
      × IsOver (run s (quits renewer)).renew_loop
      × IsOver (run s (quits pinger)).ping_loop
unfolding run step
IsOver-lem s e v = (ground arith, ground arith, ground arith)

-- What the end of one goroutine leaves alone.
ending-in_flight :
    (t : Thread) (s : Session) (e : Err) → (run s (ending t e)).in_flight ≡ s.in_flight
unfolding run step
ending-in_flight reader s e = ground arith
ending-in_flight renewer s e = ground arith
ending-in_flight pinger s e = ground arith

keeps_lem :
    (s : Session) (e : Err)
    → is_done s.ctx ≡ true
    → (is_done (run s (ending reader e)).ctx ≡ true)
      × (is_done (run s (quits renewer)).ctx ≡ true)
      × ((run s (quits renewer)).read_loop ≡ s.read_loop)
      × ((run s (quits renewer)).in_flight ≡ s.in_flight)
      × ((run s (quits pinger)).read_loop ≡ s.read_loop)
      × ((run s (quits pinger)).renew_loop ≡ s.renew_loop)
      × ((run s (quits pinger)).in_flight ≡ s.in_flight)
unfolding run step
keeps_lem s e v = (
  ground arith,
  ground arith,
  ground arith,
  ground arith,
  ground arith,
  ground arith,
  ground arith,
)

Phase-over : (p : Phase) → IsOver p → (o : Option Err) × (p ≡ done o)
Phase-over (done o) h = (o, refl)
Phase-over looping h = absurd (ground arith)
Phase-over (failing e) h = absurd (ground arith)
Phase-over (cancelling e) h = absurd (ground arith)

over_with_error : (p : Phase) → IsOver p → p ≢ done none → (e : Err) × (p ≡ done (some e))
over_with_error (done none) h ne = absurd (ne refl)
over_with_error (done (some e)) h ne = (e, refl)
over_with_error looping h ne = absurd (ground arith)
over_with_error (failing e) h ne = absurd (ground arith)
over_with_error (cancelling e) h ne = absurd (ground arith)

start-reader : (max : ℤ) → (start max).read_loop ≢ done none
unfolding start
start-reader max = ground arith

finish_lem :
    (s4 : Session)
    → IsOver s4.read_loop
    → s4.read_loop ≢ done none
    → IsOver s4.renew_loop
    → IsOver s4.ping_loop
    → s4.in_flight ≡ 0
    → (err : Err) × Finished s4 err
finish_lem s4 r with_error n p none_left =
    let (err, failed) = over_with_error s4.read_loop r with_error in
    (
      err,
      record {
        read_done = failed;
        renew_done = Phase-over s4.renew_loop n;
        ping_done = Phase-over s4.ping_loop p;
        accepts_done = none_left;
      },
    )

-- From every state that a session reaches, the failure of any one of its goroutines ends the context, and behind it
-- `runControlLoop` can return: the read of the control channel returns an error, the two other goroutines finish what
-- they were about or see the end of the context, with no failure of their own, and the handlers in flight return.
pub session_can_finish :
    (max : ℤ) (evs : List Event) (t : Thread) (e read_err : Err)
    → (is_done (run (run (start max) evs) (ending t e)).ctx ≡ true)
      × ((err : Err) × Finished
            (run (run (start max) evs) (finale t e read_err (run (start max) evs).in_flight))
            err)
session_can_finish max evs t e read_err =
    let s = run (start max) evs in
    let s1 = run s (ending t e) in
    let s2 = run s1 (ending reader read_err) in
    let s3 = run s2 (quits renewer) in
    let s4 = run s3 (quits pinger) in
    let s5 = run s4 (releases s.in_flight) in
    let ended1 = ending-is_done t s e (run-AllStop (start max) evs (start-AllStop max)) in
    let (ended2, x1, x2, x3, x4, x5, x6) = keeps_lem s1 read_err ended1 in
    let (y1, ended3, k1, k2, y4, y5, y6) = keeps_lem s2 read_err ended2 in
    let (z1, z2, z3, z4, k3, k4, k5) = keeps_lem s3 read_err ended3 in
    let flying = ending-in_flight reader s1 read_err ∙ ending-in_flight t s e in
    let (o1, u1, u2) = IsOver-lem s1 read_err ended1 in
    let (v1, o2, v2) = IsOver-lem s2 read_err ended2 in
    let (w1, w2, o3) = IsOver-lem s3 read_err ended3 in
    let (left, r, n, p) = run-releases s.in_flight s4 (k5 ∙ (k2 ∙ flying)) in
    let same : run s (finale t e read_err s.in_flight) ≡ s5 =
      run-append s (ending t e)
        (ending reader read_err ++ (quits renewer ++ (quits pinger ++ releases s.in_flight)))
      ∙ (run-append s1 (ending reader read_err)
            (quits renewer ++ (quits pinger ++ releases s.in_flight))
          ∙ (run-append s2 (quits renewer) (quits pinger ++ releases s.in_flight)
              ∙ run-append s3 (quits pinger) (releases s.in_flight))) in
    let reader_failed = run-reader s4 (releases s.in_flight) (
      run-reader s3 (quits pinger) (
        run-reader s2 (quits renewer) (
          run-reader s1 (ending reader read_err)
            (run-reader s (ending t e) (run-reader (start max) evs (start-reader max)))))) in
    let (err, f) =
      finish_lem s5 (subst IsOver (sym (r ∙ (k3 ∙ k1))) o1) reader_failed
        (subst IsOver (sym (n ∙ k4)) o2) (subst IsOver (sym p) o3) left in
    (ended1, (err, subst (λ x. Finished x err) (sym same) f))
