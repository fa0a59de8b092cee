-- ===== src/Bridge/Bytes.antt =====
-- The byte counters of internal/relay/bridge.go, over every schedule.
use aztunnel.Common.{
  ℕ, zero, suc, ◌+◌, ◌%◌, ◌^◌, ◌<◌, Option, none, some, List, [], ◌∷◌, ◌≡◌, refl, ◌≢◌, ◌∙◌, arith,
}
use aztunnel.GoError.{Err}
use aztunnel.Bridge.Machine.{
  BridgeResult, Bridge, Event, parent_cancel, reader_fails, frame, chunk, receive, ping_exit,
  from_ws, from_tcp, returned, result_of, step, run, start,
}
use aztunnel.Bridge.Outcome.{run-Returned}

-- The bytes written to the TCP side by the frames up to the first failure.
pub copied : List Event → ℕ
copied [] = 0
copied (reader_fails e ∷ evs) = 0
copied (frame n (some e) ∷ evs) = n
copied (frame n none ∷ evs) = n + copied evs
copied (_ ∷ evs) = copied evs

-- The bytes written to the WebSocket by the chunks up to the first failure.
abbrev sent_until : ℕ → Option Err → Option Err → ℕ → ℕ
sent_until zero none werr rest = rest
sent_until zero (some e) werr rest = 0
sent_until (suc n) rerr (some e) rest = 0
sent_until (suc n) none none rest = suc n + rest
sent_until (suc n) (some e) none rest = suc n

pub sent : List Event → ℕ
sent [] = 0
sent (chunk n rerr werr ∷ evs) = sent_until n rerr werr (sent evs)
sent (_ ∷ evs) = sent evs

step-ws_stopped :
    (b : Bridge) (ev : Event)
    → b.ws_pump ≢ none
    → ((step b ev).ws_pump ≢ none) × ((step b ev).stats.ws_to_tcp ≡ b.stats.ws_to_tcp)
unfolding step
step-ws_stopped b (receive from_ws) h = ground arith
step-ws_stopped b (receive from_tcp) h = ground arith
step-ws_stopped b _ h = ground arith

-- A pump that has exited counts no more.
run-ws_stopped :
    (b : Bridge) (evs : List Event)
    → b.ws_pump ≢ none
    → (run b evs).stats.ws_to_tcp ≡ b.stats.ws_to_tcp
unfolding run
run-ws_stopped b [] h = refl
run-ws_stopped b (ev ∷ evs) h =
    let (still, same) = step-ws_stopped b ev h in run-ws_stopped (step b ev) evs still ∙ same

step-tcp_stopped :
    (b : Bridge) (ev : Event)
    → b.tcp_pump ≢ none
    → ((step b ev).tcp_pump ≢ none) × ((step b ev).stats.tcp_to_ws ≡ b.stats.tcp_to_ws)
unfolding step
step-tcp_stopped b (receive from_ws) h = ground arith
step-tcp_stopped b (receive from_tcp) h = ground arith
step-tcp_stopped b _ h = ground arith

run-tcp_stopped :
    (b : Bridge) (evs : List Event)
    → b.tcp_pump ≢ none
    → (run b evs).stats.tcp_to_ws ≡ b.stats.tcp_to_ws
unfolding run
run-tcp_stopped b [] h = refl
run-tcp_stopped b (ev ∷ evs) h =
    let (still, same) = step-tcp_stopped b ev h in run-tcp_stopped (step b ev) evs still ∙ same

-- The count of `wsToTCP` over the rest of a schedule.
run-copied :
    (b : Bridge) (evs : List Event)
    → b.ws_pump ≡ none
    → b.stats.ws_to_tcp < 2 ^ 64
    → (run b evs).stats.ws_to_tcp ≡ (b.stats.ws_to_tcp + copied evs) % 2 ^ 64
unfolding run copied step
run-copied b [] h l = omega arith
run-copied b (reader_fails e ∷ evs) h l =
    ground (arith, run-ws_stopped (step b (reader_fails e)) evs)
run-copied b (frame n (some e) ∷ evs) h l =
    ground (arith, run-ws_stopped (step b (frame n (some e))) evs)
run-copied b (frame n none ∷ evs) h l = ground (arith, run-copied (step b (frame n none)) evs)
run-copied b (parent_cancel e ∷ evs) h l = ground (arith, run-copied (step b (parent_cancel e)) evs)
run-copied b (chunk n r w ∷ evs) h l = ground (arith, run-copied (step b (chunk n r w)) evs)
run-copied b (receive from_ws ∷ evs) h l = ground (arith, run-copied (step b (receive from_ws)) evs)
run-copied b (receive from_tcp ∷ evs) h l =
    ground (arith, run-copied (step b (receive from_tcp)) evs)
run-copied b (ping_exit ∷ evs) h l = ground (arith, run-copied (step b ping_exit) evs)

-- The count of `tcpToWS` over the rest of a schedule.
run-sent :
    (b : Bridge) (evs : List Event)
    → b.tcp_pump ≡ none
    → b.stats.tcp_to_ws < 2 ^ 64
    → (run b evs).stats.tcp_to_ws ≡ (b.stats.tcp_to_ws + sent evs) % 2 ^ 64
unfolding run sent step
run-sent b [] h l = omega arith
run-sent b (chunk zero none w ∷ evs) h l = ground (arith, run-sent (step b (chunk zero none w)) evs)
run-sent b (chunk zero (some e) w ∷ evs) h l =
    ground (arith, run-tcp_stopped (step b (chunk zero (some e) w)) evs)
run-sent b (chunk (suc n) r (some e) ∷ evs) h l =
    ground (arith, run-tcp_stopped (step b (chunk (suc n) r (some e))) evs)
run-sent b (chunk (suc n) none none ∷ evs) h l =
    ground (arith, run-sent (step b (chunk (suc n) none none)) evs)
run-sent b (chunk (suc n) (some e) none ∷ evs) h l =
    ground (arith, run-tcp_stopped (step b (chunk (suc n) (some e) none)) evs)
run-sent b (reader_fails e ∷ evs) h l = ground (arith, run-sent (step b (reader_fails e)) evs)
run-sent b (frame n e ∷ evs) h l = ground (arith, run-sent (step b (frame n e)) evs)
run-sent b (parent_cancel e ∷ evs) h l = ground (arith, run-sent (step b (parent_cancel e)) evs)
run-sent b (receive from_ws ∷ evs) h l = ground (arith, run-sent (step b (receive from_ws)) evs)
run-sent b (receive from_tcp ∷ evs) h l = ground (arith, run-sent (step b (receive from_tcp)) evs)
run-sent b (ping_exit ∷ evs) h l = ground (arith, run-sent (step b ping_exit) evs)

-- Whatever the interleaving, the statistics that `Bridge` returns are the numbers of bytes written
-- in each direction up to the first failure of that direction, modulo 2^64.
pub returned_counts :
    (evs : List Event) {r : BridgeResult} {e : Option Err}
    → (run start evs).main ≡ returned r e
    → (r.stats.ws_to_tcp ≡ copied evs % 2 ^ 64) × (r.stats.tcp_to_ws ≡ sent evs % 2 ^ 64)
unfolding result_of
returned_counts evs h =
    let down : (run start evs).stats.ws_to_tcp ≡ (0 + copied evs) % 2 ^ 64 =
      unfold start in run-copied start evs refl (omega arith) in
    let up : (run start evs).stats.tcp_to_ws ≡ (0 + sent evs) % 2 ^ 64 =
      unfold start in run-sent start evs refl (omega arith) in
    ground (arith, run-Returned evs h, down, up)
