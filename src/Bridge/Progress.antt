-- ===== src/Bridge/Progress.antt =====
-- From every state that a schedule reaches, `Bridge` of internal/relay/bridge.go can come to its `return`.
use aztunnel.Common.{Option, none, some, List, [], ◌∷◌, ◌++◌, ◌≡◌, refl, ◌∙◌, ap, arith}
use aztunnel.GoError.{Err}
use aztunnel.Bridge.Machine.{
  BridgeResult, from_ws, from_tcp, Main, selecting, draining, joining, returned, Bridge, Event,
  reader_fails, chunk, receive, ping_exit, step, run, start,
}
use aztunnel.Bridge.Invariant.{Inv, start-Inv, run-Inv}
use aztunnel.Bridge.Outcome.{run-append}

-- Both connections fail, main is scheduled at each of its receives, and then the ping loop is.
abbrev pub finale : Err → List Event
finale e =
    reader_fails e ∷ chunk 0 (some e) none ∷ receive from_ws ∷ receive from_tcp ∷ ping_exit ∷ []

abbrev HasReturned : Main → Type 0
HasReturned (returned r e) = Unit {0}
HasReturned _ = ⊥

pub returned_of :
    (m : Main) → HasReturned m → (r : BridgeResult) × (e : Option Err) × (m ≡ returned r e)
returned_of selecting h = absurd h
returned_of (draining s p) h = absurd h
returned_of (joining s p) h = absurd h
returned_of (returned r e) h = (r, e, refl)

finale-HasReturned : (b : Bridge) (e : Err) → Inv b → HasReturned (run b (finale e)).main
unfolding run step
finale-HasReturned b e v = ground arith

-- No schedule deadlocks the bridge: from every state it has reached, it returns once both
-- connections fail with some error `e` and each goroutine is scheduled.
pub run-finale :
    (evs : List Event) (e : Err)
    → (r : BridgeResult) × (p : Option Err) × ((run start (evs ++ finale e)).main ≡ returned r p)
run-finale evs e =
    let b = run start evs in
    let (r, p, h) =
      returned_of (run b (finale e)).main (finale-HasReturned b e (run-Inv start evs start-Inv)) in
    (r, p, ap (λ (s : Bridge). s.main) (run-append start evs (finale e)) ∙ h)
