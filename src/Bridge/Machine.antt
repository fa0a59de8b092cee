-- ===== src/Bridge/Machine.antt =====
-- internal/relay/bridge.go: `Bridge` with its two pumps, its ping loop and its main goroutine. The
-- operations of the two connections and the scheduler are the events; a schedule is a list of them.
use aztunnel.Common.{
  ℕ, ◌+◌, ◌%◌, ◌^◌, Bool, true, false, Option, none, some, List, [], ◌∷◌, ltb, if◌then◌else◌,
}
use aztunnel.Common.Text.{Bytes}
use aztunnel.GoError.{Err}
use aztunnel.Causes.{name}
use aztunnel.Bridge.Classify.{
  Op, ws_read, ws_write, tcp_read, tcp_write, is_induced_cancellation, cause_from_pump_exit,
  ignore_normal_close, ignore_eof,
}

-- `pumpResult`
pub record PumpResult : Type 0 where
  pub op : Op
  pub err : Option Err

-- `BridgeStats`: two `atomic.Int64`, as bit patterns of 64 bits.
pub record BridgeStats : Type 0 where
  pub tcp_to_ws : ℕ
  pub ws_to_tcp : ℕ

-- `BridgeResult`
pub record BridgeResult : Type 0 where
  pub stats : BridgeStats
  pub tcp_to_ws_err : Option Err
  pub ws_to_tcp_err : Option Err
  pub end_cause : Bytes

pub data Side : Type 0 where
  from_ws from_tcp : Side

-- Where the main goroutine stands: at the `select`, at the receive from the other channel, at
-- `<-pingDone`, or behind the `return` with both of its values.
pub data Main : Type 0 where
  selecting : Main
  draining : Side → PumpResult → Main
  joining : Side → PumpResult → Main
  returned : BridgeResult → Option Err → Main

-- A pump is running (`none`), or it has put its result in its one-slot channel. `ctx` is the cause
-- of the context, if it is cancelled.
pub record Bridge : Type 0 where
  pub ctx : Option Err
  pub ws_pump : Option PumpResult
  pub tcp_pump : Option PumpResult
  pub stats : BridgeStats
  pub read_deadline_set : Bool
  pub pinging : Bool
  pub main : Main

-- What happens next.
--   parent_cancel: the parent context is cancelled, with this cause;
--   reader_fails, frame: `ws.Reader` fails, or gives a message of which `io.Copy` wrote `n` bytes
--     and ended with the error;
--   chunk: `tcp.Read` gives `n` bytes and an error, and `ws.Write`, if it is called, this result;
--   receive: the main goroutine receives from the channel of that side;
--   ping_exit: the ping loop sees the end of the context.
pub data Event : Type 0 where
  parent_cancel : Err → Event
  reader_fails : Err → Event
  frame : ℕ → Option Err → Event
  chunk : ℕ → Option Err → Option Err → Event
  receive : Side → Event
  ping_exit : Event

abbrev pub add64 : ℕ → ℕ → ℕ
add64 a b = (a + b) % 2 ^ 64

-- `cancel(cause)`: the first one wins.
abbrev pub cancel : Option Err → Err → Option Err
cancel none e = some e
cancel (some d) e = some d

-- One round of `wsToTCP`, on the pump's own state.
unfoldable pub ws_round : Option PumpResult → ℕ → Event → Option PumpResult × ℕ
ws_round (some r) count ev = (some r, count)
ws_round none count (reader_fails e) =
    (some (record { op = ws_read; err = ignore_normal_close e }), count)
ws_round none count (frame n none) = (none, add64 count n)
ws_round none count (frame n (some e)) =
    (some (record { op = tcp_write; err = some e }), add64 count n)
ws_round none count _ = (none, count)

-- What `tcpToWS` does with the error of `tcp.Read`.
abbrev after_chunk : Option Err → Option PumpResult
after_chunk none = none
after_chunk (some e) = some (record { op = tcp_read; err = ignore_eof e })

abbrev send_chunk : ℕ → ℕ → Option Err → Option Err → Option PumpResult × ℕ
send_chunk count n rerr (some werr) = (some (record { op = ws_write; err = some werr }), count)
send_chunk count n rerr none = (after_chunk rerr, add64 count n)

-- One round of `tcpToWS`.
unfoldable pub tcp_round : Option PumpResult → ℕ → Event → Option PumpResult × ℕ
tcp_round (some r) count ev = (some r, count)
tcp_round none count (chunk n rerr werr) =
    if ltb 0 n then send_chunk count n rerr werr else (after_chunk rerr, count)
tcp_round none count _ = (none, count)

-- A per-direction error of the result.
abbrev pub keep_error : Option Err → Option Err
keep_error e = if is_induced_cancellation e then none else e

-- The code behind `<-pingDone`.
unfoldable pub result_of : Side → PumpResult → Bridge → BridgeResult
result_of from_ws first b = record {
  stats = b.stats;
  tcp_to_ws_err = keep_error none;
  ws_to_tcp_err = keep_error first.err;
  end_cause = name b.ctx;
}
result_of from_tcp first b = record {
  stats = b.stats;
  tcp_to_ws_err = keep_error first.err;
  ws_to_tcp_err = keep_error none;
  end_cause = name b.ctx;
}

-- The first receive: stamp the cause, and expire the read deadline.
unfoldable pub stamp : Bridge → Side → PumpResult → Bridge
stamp b side r = record b {
  ctx = cancel b.ctx (cause_from_pump_exit r.op r.err);
  read_deadline_set = true;
  main = draining side r;
}

-- Main returns once the ping loop has ended.
abbrev pub join : Side → PumpResult → Bridge → Bool → Bridge
join side first b true = record b { main = joining side first }
join side first b false = record b { main = returned (result_of side first b) first.err }

-- A receive of main from a channel, which blocks while the channel is empty.
unfoldable pub receive_from : Main → Side → Bridge → Option PumpResult → Bridge
unfolding stamp result_of
receive_from m side b none = b
receive_from selecting side b (some r) = stamp b side r
receive_from (draining from_ws first) from_tcp b (some r) = join from_ws first b b.pinging
receive_from (draining from_tcp first) from_ws b (some r) = join from_tcp first b b.pinging
receive_from _ side b (some r) = b

slot : Side → Bridge → Option PumpResult
slot from_ws b = b.ws_pump
slot from_tcp b = b.tcp_pump

-- The ping loop ends only behind a cancelled context, and wakes a main that joins it.
unfoldable pub stop_ping : Option Err → Main → Bridge → Bridge
unfolding result_of
stop_ping none m b = b
stop_ping (some _) (joining side first) b = record b {
  pinging = false;
  main = returned (result_of side first b) first.err;
}
stop_ping (some _) m b = record b { pinging = false }

ws_event : Bridge → Event → Bridge
unfolding ws_round
ws_event b ev =
    let (pump, count) = ws_round b.ws_pump b.stats.ws_to_tcp ev in
    record b { ws_pump = pump; stats = record { tcp_to_ws = b.stats.tcp_to_ws; ws_to_tcp = count } }

tcp_event : Bridge → Event → Bridge
unfolding tcp_round
tcp_event b ev =
    let (pump, count) = tcp_round b.tcp_pump b.stats.tcp_to_ws ev in
    record b {
      tcp_pump = pump;
      stats = record { tcp_to_ws = count; ws_to_tcp = b.stats.ws_to_tcp };
    }

unfoldable pub step : Bridge → Event → Bridge
unfolding ws_event tcp_event receive_from slot stop_ping
step b (parent_cancel e) = record b { ctx = cancel b.ctx e }
step b (reader_fails e) = ws_event b (reader_fails e)
step b (frame n e) = ws_event b (frame n e)
step b (chunk n r w) = tcp_event b (chunk n r w)
step b (receive side) = receive_from b.main side b (slot side b)
step b ping_exit = stop_ping b.ctx b.main b

unfoldable pub run : Bridge → List Event → Bridge
run b [] = b
run b (ev ∷ evs) = run (step b ev) evs

-- The state behind the three `go` statements.
unfoldable pub start : Bridge
start = record {
  ctx = none;
  ws_pump = none;
  tcp_pump = none;
  stats = record { tcp_to_ws = 0; ws_to_tcp = 0 };
  read_deadline_set = false;
  pinging = true;
  main = selecting;
}
