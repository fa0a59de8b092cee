-- ===== src/Bridge/First.antt =====
-- internal/relay/bridge.go: which pump the main goroutine received from first, read off the schedule.
use aztunnel.Common.{Option, none, some, List, [], ◌∷◌, ◌≡◌, refl, ◌⊎◌, arith}
use aztunnel.GoError.{Err}
use aztunnel.Bridge.Machine.{
  PumpResult, BridgeResult, Side, from_ws, from_tcp, Main, selecting, draining, joining, returned,
  Bridge, Event, parent_cancel, reader_fails, frame, chunk, receive, ping_exit, step, run, start,
}
use aztunnel.Bridge.Invariant.{pump_of, Reports, Inv, step-Inv}

abbrev pub Receipt : Type 0
Receipt = Option (Side × PumpResult)

-- A receive from a channel that has a result.
abbrev received : Side → Option PumpResult → Receipt
received side none = none
received side (some p) = some (side, p)

abbrev pub note : Receipt → Bridge → Event → Receipt
note (some first) b ev = some first
note none b (receive side) = received side (pump_of side b)
note none b _ = none

-- The first receive of a schedule that does not block.
unfoldable pub first_received : Receipt → Bridge → List Event → Receipt
first_received first b [] = first
first_received first b (ev ∷ evs) = first_received (note first b ev) (step b ev) evs

-- The result is that of the pump received from first.
abbrev pub FirstReports : Receipt → Bridge → BridgeResult → Option Err → Type 0
FirstReports first b r e =
    ((p : PumpResult) × (first ≡ some (from_ws, p)) × Reports from_ws p b r e)
    ⊎ ((p : PumpResult) × (first ≡ some (from_tcp, p)) × Reports from_tcp p b r e)

-- Where main stands, it holds the first receipt.
abbrev pub Leads : Receipt → Bridge → Main → Type 0
Leads first b selecting = first ≡ none
Leads first b (draining side p) = first ≡ some (side, p)
Leads first b (joining side p) = first ≡ some (side, p)
Leads first b (returned r e) = FirstReports first b r e

pub step-Leads :
    (first : Receipt) (b : Bridge) (ev : Event)
    → Inv b
    → Leads first b b.main
    → Leads (note first b ev) (step b ev) (step b ev).main
unfolding step
step-Leads none b (parent_cancel e) v l = ground arith
step-Leads none b (reader_fails e) v l = ground arith
step-Leads none b (frame n e) v l = ground arith
step-Leads none b (chunk n r w) v l = ground arith
step-Leads none b (receive from_ws) v l = ground arith
step-Leads none b (receive from_tcp) v l = ground arith
step-Leads none b ping_exit v l = ground arith
step-Leads (some first) b (parent_cancel e) v l = ground arith
step-Leads (some first) b (reader_fails e) v l = ground arith
step-Leads (some first) b (frame n e) v l = ground arith
step-Leads (some first) b (chunk n r w) v l = ground arith
step-Leads (some first) b (receive from_ws) v l = ground arith
step-Leads (some first) b (receive from_tcp) v l = ground arith
step-Leads (some first) b ping_exit v l = ground arith

pub run-Leads :
    (first : Receipt) (b : Bridge) (evs : List Event)
    → Inv b
    → Leads first b b.main
    → Leads (first_received first b evs) (run b evs) (run b evs).main
unfolding run first_received
run-Leads first b [] v l = l
run-Leads first b (ev ∷ evs) v l =
    run-Leads (note first b ev) (step b ev) evs (step-Inv b ev v) (step-Leads first b ev v l)

pub start-Leads : Leads none start start.main
unfolding start
start-Leads = refl
