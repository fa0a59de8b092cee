-- ===== src/MockRelay/Duplex.antt =====
-- mockrelay/server/bridge_ws.go: what both copies of `bridgeWS` keep while it cancels and closes around them.
use aztunnel.Common.{
  ℕ, ◌+◌, refl, Bool, true, false, Option, none, some, List, [], ◌∷◌, arith, if◌then◌else◌,
}
use aztunnel.GoError.{Err}
use aztunnel.MockRelay.Delay.{DelayProfile}
use aztunnel.MockRelay.Pipeline.{Pipe, PipeEvent, pipe_step, or_else}
use aztunnel.MockRelay.Flow.{Budgeted, InOrder, pipe_round-Budgeted, pipe_round-InOrder}
use aztunnel.MockRelay.Flow
use aztunnel.MockRelay.BridgeWs.{
  Waiter, for_first, closing_a, closing_b, for_second, returned, BridgeWs, start, BridgeEvent,
  in_ab, in_ba, ab_returns, ba_returns, context_ends, proceed, copy_returns, send_ab, send_ba,
  receive_first, receive_second, wait, bridge_step, bridge_ws, cancel_copy,
}

abbrev pub Both {ℓ} : (Pipe → Type ℓ) → BridgeWs → Type ℓ
Both P b = P b.ab × P b.ba

-- What a step of a pipe keeps, and the cancel of its context, both pipes keep in every run.
module _ {ℓ} (P : Pipe → Type ℓ) (budget : ℕ)
    (round_keeps : (delay : ℕ) (e : PipeEvent) (p : Pipe)
      → P p
      → P (or_else (pipe_step budget delay e p) p))
    (cancel_keeps : (p : Pipe) → P p → P (cancel_copy p)) where
  send_ab_keeps : (o : Option Err) (b : BridgeWs) → Both P b → Both P (send_ab o b)
  send_ab_keeps none b (x, y) = (x, y)
  send_ab_keeps (some e) b (x, y) = (cancel_keeps b.ab x, y)

  send_ba_keeps : (o : Option Err) (b : BridgeWs) → Both P b → Both P (send_ba o b)
  send_ba_keeps none b (x, y) = (x, y)
  send_ba_keeps (some e) b (x, y) = (x, cancel_keeps b.ba y)

  first_keeps : (es : List Err) (b : BridgeWs) → Both P b → Both P (receive_first es b)
  first_keeps [] b k = k
  first_keeps (e ∷ es) b k = k

  second_keeps :
      (e : Err) (es : List Err) (b : BridgeWs) → Both P b → Both P (receive_second e es b)
  second_keeps e [] b k = k
  second_keeps e (e' ∷ es) b k = k

  wait_keeps : (w : Waiter) (b : BridgeWs) → Both P b → Both P (wait w b)
  unfolding wait
  wait_keeps for_first b k = first_keeps b.errc b k
  wait_keeps (closing_a e) b k = k
  wait_keeps (closing_b e) b k = k
  wait_keeps (for_second e) b k = second_keeps e b.errc b k
  wait_keeps (returned r) b k = k

  branch_keeps : (t : Bool) (b b' : BridgeWs) → Both P b → Both P b' → Both P (if t then b else b')
  branch_keeps true b b' k k' = k
  branch_keeps false b b' k k' = k'

  bridge_step_keeps :
      (d : DelayProfile ℕ) (e : BridgeEvent) (b : BridgeWs)
      → Both P b
      → Both P (bridge_step budget d e b)
  unfolding bridge_step
  bridge_step_keeps d (in_ab e) b (x, y) = (round_keeps (d.s_latency + d.l_latency) e b.ab x, y)
  bridge_step_keeps d (in_ba e) b (x, y) = (x, round_keeps (d.l_latency + d.s_latency) e b.ba y)
  bridge_step_keeps d (ab_returns timed_out) b k =
      let o = copy_returns b.live timed_out b.ab.reader b.ab.writer in
      branch_keeps b.ab_sent b (send_ab o b) k (send_ab_keeps o b k)
  bridge_step_keeps d (ba_returns timed_out) b k =
      let o = copy_returns b.live timed_out b.ba.reader b.ba.writer in
      branch_keeps b.ba_sent b (send_ba o b) k (send_ba_keeps o b k)
  bridge_step_keeps d context_ends b k = k
  bridge_step_keeps d proceed b k = wait_keeps b.waiter b k

  bridge_ws_keeps :
      (d : DelayProfile ℕ) (es : List BridgeEvent) (b : BridgeWs)
      → Both P b
      → Both P (bridge_ws budget d es b)
  unfolding bridge_ws
  bridge_ws_keeps d [] b k = k
  bridge_ws_keeps d (e ∷ es) b k =
      bridge_ws_keeps d es (bridge_step budget d e b) (bridge_step_keeps d e b k)

-- However the copies, the cancels and the closing interleave, in both directions the messages read from the source are
-- at every moment, in order, those written to the destination, then the writer's, those of the queue, and the reader's.
pub bridge_ws-InOrder :
    (budget : ℕ) (d : DelayProfile ℕ) (es : List BridgeEvent)
    → Both InOrder (bridge_ws budget d es start)
unfolding Flow.frames
bridge_ws-InOrder budget d es =
    bridge_ws_keeps InOrder budget (pipe_round-InOrder budget) (λ p k. k) d es start (refl, refl)

-- Each direction has its own budget, and stays within it.
pub bridge_ws-Budgeted :
    (budget : ℕ) (d : DelayProfile ℕ) (es : List BridgeEvent)
    → Both (Budgeted budget) (bridge_ws budget d es start)
bridge_ws-Budgeted budget d es =
    bridge_ws_keeps (Budgeted budget) budget (pipe_round-Budgeted budget)
      (λ p k. record { accounted = k.accounted; bounded = k.bounded }) d es start
      (ground arith, ground arith)
