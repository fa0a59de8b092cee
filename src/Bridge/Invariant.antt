-- ===== src/Bridge/Invariant.antt =====
-- What holds of the bridge of internal/relay/bridge.go in every state that a schedule reaches.
use aztunnel.Common.{true, false, Option, none, some, List, [], ◌∷◌, ◌≡◌, refl, ◌≢◌, ◌⊎◌, arith}
use aztunnel.GoError.{Err}
use aztunnel.Bridge.Machine.{
  PumpResult, BridgeResult, Side, from_ws, from_tcp, Main, selecting, draining, joining, returned,
  Bridge, Event, parent_cancel, reader_fails, frame, chunk, receive, ping_exit, result_of, step,
  run, start,
}

-- The channel of a side, as main sees it.
abbrev pub pump_of : Side → Bridge → Option PumpResult
pump_of from_ws b = b.ws_pump
pump_of from_tcp b = b.tcp_pump

abbrev pub other : Side → Side
other from_ws = from_tcp
other from_tcp = from_ws

-- The two values of the `return` are those of the pump on this side.
abbrev pub Reports : Side → PumpResult → Bridge → BridgeResult → Option Err → Type 0
Reports side first b r e =
    (pump_of side b ≡ some first) × (r ≡ result_of side first b) × (e ≡ first.err)

-- Every goroutine has ended.
pub record Joined (b : Bridge) : Type 0 where
  pub ws_done : b.ws_pump ≢ none
  pub tcp_done : b.tcp_pump ≢ none
  pub ping_done : b.pinging ≡ false
  pub ended : b.ctx ≢ none

abbrev pub Returned : Bridge → BridgeResult → Option Err → Type 0
Returned b r e =
    Joined b
    × (((p : PumpResult) × Reports from_ws p b r e) ⊎ ((p : PumpResult) × Reports from_tcp p b r e))

abbrev pub AtMain : Bridge → Main → Type 0
AtMain b selecting = b.read_deadline_set ≡ false
AtMain b (draining side p) =
    (pump_of side b ≡ some p) × (b.ctx ≢ none) × (b.read_deadline_set ≡ true)
AtMain b (joining side p) =
    (pump_of side b ≡ some p)
    × (pump_of (other side) b ≢ none)
    × (b.ctx ≢ none)
    × (b.pinging ≡ true)
AtMain b (returned r e) = Returned b r e

abbrev pub Inv : Bridge → Type 0
Inv b = AtMain b b.main

pub start-Inv : Inv start
unfolding start
start-Inv = refl

pub step-Inv : (b : Bridge) (ev : Event) → Inv b → Inv (step b ev)
unfolding step
step-Inv b (parent_cancel e) v = ground arith
step-Inv b (reader_fails e) v = ground arith
step-Inv b (frame n e) v = ground arith
step-Inv b (chunk n r w) v = ground arith
step-Inv b (receive from_ws) v = ground arith
step-Inv b (receive from_tcp) v = ground arith
step-Inv b ping_exit v = ground arith

pub run-Inv : (b : Bridge) (evs : List Event) → Inv b → Inv (run b evs)
unfolding run
run-Inv b [] v = v
run-Inv b (ev ∷ evs) v = run-Inv (step b ev) evs (step-Inv b ev v)
