-- ===== src/MockRelay/BridgeWs.antt =====
-- mockrelay/server/bridge_ws.go: `bridgeWS`, which runs two copies, cancels and closes both sockets after the first
-- of them returns, and waits for the other.
use aztunnel.Common.{
  ℕ, ◌+◌, Bool, true, false, if◌then◌else◌, Option, none, some, List, [], ◌∷◌, ◌++◌,
}
use aztunnel.GoError.{Err}
use aztunnel.MockRelay.Delay.{DelayProfile}
use aztunnel.MockRelay.Pipeline.{
  Reader, read_done, Writer, write_done, Pipe, PipeEvent, pipe_step, or_else, copy_result,
  fold_close_err,
}
use aztunnel.MockRelay.Pipeline

-- The goroutine of `bridgeWS`: it waits for the first error, closes the two sockets, waits for the second.
pub data Waiter : Type 0 where
  for_first : Waiter
  closing_a closing_b for_second : (first : Err) → Waiter
  returned : Option Err → Waiter

-- `errc` is the channel, `sent` all that was ever sent on it. `live` is whether the context is still live.
pub record BridgeWs : Type 0 where
  pub ab : Pipe
  pub ba : Pipe
  pub ab_sent : Bool
  pub ba_sent : Bool
  pub errc : List Err
  pub sent : List Err
  pub live : Bool
  pub a_closed : Bool
  pub b_closed : Bool
  pub waiter : Waiter

abbrev pub start : BridgeWs
start = record {
  ab = Pipeline.start;
  ba = Pipeline.start;
  ab_sent = false;
  ba_sent = false;
  errc = [];
  sent = [];
  live = true;
  a_closed = false;
  b_closed = false;
  waiter = for_first;
}

-- A step of a copy's goroutines, the return of a copy, with whether its drain timer fired, the end of the caller's
-- context, or a step of `bridgeWS` itself.
pub data BridgeEvent : Type 0 where
  in_ab in_ba : PipeEvent → BridgeEvent
  ab_returns ba_returns : (timed_out : Bool) → BridgeEvent
  context_ends proceed : BridgeEvent

-- What the select of `pipelinedCopy` has, `none` while it waits.
unfoldable pub drained : (timed_out : Bool) → Writer → Option (Option (Option Err))
drained true w = some none
drained false (write_done e dropped) = some (some e)
drained false w = none

abbrev copy_error : (live : Bool) → Err → Option (Option (Option Err)) → Option Err
copy_error live read_err none = none
copy_error live read_err (some d) = some (copy_result read_err live d)

-- The error that a copy returns, if it can return.
unfoldable pub copy_returns : (live timed_out : Bool) → Reader → Writer → Option Err
copy_returns live timed_out (read_done e dropped) w = copy_error live e (drained timed_out w)
copy_returns live timed_out r w = none

-- The deferred cancel of `pipelinedCopy`.
abbrev pub cancel_copy : Pipe → Pipe
cancel_copy p = record p { canceled_copy = true }

abbrev pub send_ab : Option Err → BridgeWs → BridgeWs
send_ab none b = b
send_ab (some e) b = record b {
  ab = cancel_copy b.ab;
  ab_sent = true;
  errc = b.errc ++ (e ∷ []);
  sent = b.sent ++ (e ∷ []);
}

abbrev pub send_ba : Option Err → BridgeWs → BridgeWs
send_ba none b = b
send_ba (some e) b = record b {
  ba = cancel_copy b.ba;
  ba_sent = true;
  errc = b.errc ++ (e ∷ []);
  sent = b.sent ++ (e ∷ []);
}

-- Receiving the first error, then `cancel`.
abbrev pub receive_first : List Err → BridgeWs → BridgeWs
receive_first [] b = b
receive_first (e ∷ es) b = record b { errc = es; live = false; waiter = closing_a e }

abbrev pub receive_second : (first : Err) → List Err → BridgeWs → BridgeWs
receive_second first [] b = b
receive_second first (e ∷ es) b = record b {
  errc = es;
  waiter = returned (fold_close_err (some first));
}

unfoldable pub wait : Waiter → BridgeWs → BridgeWs
wait for_first b = receive_first b.errc b
wait (closing_a e) b = record b { a_closed = true; waiter = closing_b e }
wait (closing_b e) b = record b { b_closed = true; waiter = for_second e }
wait (for_second e) b = receive_second e b.errc b
wait (returned r) b = b

unfoldable pub bridge_step : (budget : ℕ) → DelayProfile ℕ → BridgeEvent → BridgeWs → BridgeWs
unfolding wait
bridge_step budget d (in_ab e) b = record b {
  ab = or_else (pipe_step budget (d.s_latency + d.l_latency) e b.ab) b.ab;
}
bridge_step budget d (in_ba e) b = record b {
  ba = or_else (pipe_step budget (d.l_latency + d.s_latency) e b.ba) b.ba;
}
bridge_step budget d (ab_returns timed_out) b =
    if b.ab_sent then b else send_ab (copy_returns b.live timed_out b.ab.reader b.ab.writer) b
bridge_step budget d (ba_returns timed_out) b =
    if b.ba_sent then b else send_ba (copy_returns b.live timed_out b.ba.reader b.ba.writer) b
bridge_step budget d context_ends b = record b { live = false }
bridge_step budget d proceed b = wait b.waiter b

-- A run of `bridgeWS`; an event that nobody waits for is passed over.
unfoldable pub bridge_ws : (budget : ℕ) → DelayProfile ℕ → List BridgeEvent → BridgeWs → BridgeWs
unfolding bridge_step
bridge_ws budget d [] b = b
bridge_ws budget d (e ∷ es) b = bridge_ws budget d es (bridge_step budget d e b)
