-- ===== src/MockRelay/Unblocked.antt =====
-- mockrelay/server/bridge_ws.go: `bridgeWS` can always come to its end.
use aztunnel.Common.{
  ℕ, zero, suc, ◌+◌, ◌-◌, ◌≡◌, ◌≤◌, refl, Bool, true, false, Option, none, some, List, [], ◌∷◌,
  arith, length, ap, ◌∙◌, if◌then◌else◌, subst,
}
use aztunnel.GoError.{Err}
use aztunnel.MockRelay.Delay.{DelayProfile}
use aztunnel.MockRelay.Pipeline.{
  Pipe, Reader, reading, acquiring, queueing, read_done, read_fails, pipe_step, or_else, or_writer,
  reader_step, writer_step,
}
use aztunnel.MockRelay.Flow.{is_done}
use aztunnel.MockRelay.BridgeWs.{
  Waiter, for_first, closing_a, closing_b, for_second, returned, BridgeWs, start, BridgeEvent,
  in_ab, in_ba, ab_returns, ba_returns, proceed, copy_returns, send_ab, send_ba, receive_first,
  receive_second, wait, bridge_step, bridge_ws, drained,
}
use aztunnel.MockRelay.Closings.{one, Sent, Closing, wait-Closing, bridge_ws-Closing}

abbrev AllSent : BridgeWs → Type 0
AllSent b = (b.ab_sent ≡ true) × (b.ba_sent ≡ true)

-- The steps that `bridgeWS` has to go.
abbrev togo : Waiter → ℕ
togo for_first = 4
togo (closing_a e) = 3
togo (closing_b e) = 2
togo (for_second e) = 1
togo (returned r) = 0

receive_first-togo :
    (es : List Err) (b : BridgeWs)
    → b.errc ≡ es
    → b.sent ≡ b.errc
    → length b.sent ≡ one b.ab_sent + one b.ba_sent
    → AllSent b
    → (togo (receive_first es b).waiter ≡ 3) × AllSent (receive_first es b)
receive_first-togo [] b front sent counted (x, y) = ground (arith, front, sent, counted, x, y)
receive_first-togo (e ∷ es) b front sent counted s = (refl, s)

receive_second-togo :
    (e : Err) (es : List Err) (b : BridgeWs)
    → b.errc ≡ es
    → b.sent ≡ e ∷ b.errc
    → length b.sent ≡ one b.ab_sent + one b.ba_sent
    → AllSent b
    → (togo (receive_second e es b).waiter ≡ 0) × AllSent (receive_second e es b)
receive_second-togo e [] b front sent counted (x, y) = ground (arith, front, sent, counted, x, y)
receive_second-togo e (e' ∷ es) b front sent counted s = (refl, s)

wait-togo :
    (w : Waiter) (b : BridgeWs)
    → b.waiter ≡ w
    → Closing b
    → AllSent b
    → (togo (wait w b).waiter ≡ togo w - 1) × AllSent (wait w b)
unfolding wait
wait-togo for_first b here c s =
    receive_first-togo b.errc b refl (subst (λ w. Sent w b) here c.stands) c.counted s
wait-togo (closing_a e) b here c s = (refl, s)
wait-togo (closing_b e) b here c s = (refl, s)
wait-togo (for_second e) b here c s =
    let (sent, live, a, b_is) = subst (λ w. Sent w b) here c.stands in
    receive_second-togo e b.errc b refl sent c.counted s
wait-togo (returned r) b here c s = (ap togo here, s)

abbrev pub IsReturned : Waiter → Type 0
IsReturned w = (r : Option Err) × (w ≡ returned r)

none_togo : (w : Waiter) → togo w ≡ 0 → IsReturned w
none_togo (returned r) k = (r, refl)
none_togo for_first k = ground (arith, k)
none_togo (closing_a e) k = ground (arith, k)
none_togo (closing_b e) k = ground (arith, k)
none_togo (for_second e) k = ground (arith, k)

unfoldable pub proceeds : ℕ → List BridgeEvent
proceeds zero = []
proceeds (suc n) = proceed ∷ proceeds n

run_togo :
    (budget : ℕ) (d : DelayProfile ℕ) (n : ℕ) (b : BridgeWs)
    → togo b.waiter ≤ n
    → Closing b
    → AllSent b
    → IsReturned (bridge_ws budget d (proceeds n) b).waiter
unfolding bridge_ws bridge_step proceeds
run_togo budget d zero b k c s = none_togo b.waiter (omega (arith, k))
run_togo budget d (suc n) b k c s =
    let (less, kept) = wait-togo b.waiter b refl c s in
    run_togo budget d n (wait b.waiter b) (omega (arith, less, k)) (wait-Closing b.waiter b refl c)
      kept

togo_bound : (w : Waiter) → togo w ≤ 4
togo_bound for_first = omega arith
togo_bound (closing_a e) = omega arith
togo_bound (closing_b e) = omega arith
togo_bound (for_second e) = omega arith
togo_bound (returned r) = omega arith

-- A reader whose read fails is over, whatever it was waiting for.
reader-done :
    (budget delay : ℕ) (e : Err) (r : Reader) (p : Pipe)
    → p.reader ≡ r
    → is_done
        (or_else
          (or_writer (reader_step budget delay (read_fails e) r p) (read_fails e) p)
          p).reader
      ≡ true
unfolding reader_step writer_step
reader-done budget delay e reading p here = refl
reader-done budget delay e (acquiring m) p here = refl
reader-done budget delay e (queueing f) p here = refl
reader-done budget delay e (read_done e' ds) p here = ap is_done here

-- A copy whose reader is over can return when its timer fires.
send_ab-done :
    (r : Reader) (b : BridgeWs)
    → is_done r ≡ true
    → (send_ab (copy_returns b.live true r b.ab.writer) b).ab_sent ≡ true
unfolding copy_returns drained
send_ab-done (read_done e ds) b k = refl
send_ab-done r b k = ground (arith, k)

send_ba-done :
    (r : Reader) (b : BridgeWs)
    → is_done r ≡ true
    → (send_ba (copy_returns b.live true r b.ba.writer) b).ba_sent ≡ true
unfolding copy_returns drained
send_ba-done (read_done e ds) b k = refl
send_ba-done r b k = ground (arith, k)

ab_returns-sent :
    (t : Bool) (b : BridgeWs)
    → b.ab_sent ≡ t
    → is_done b.ab.reader ≡ true
    → (if t then b else send_ab (copy_returns b.live true b.ab.reader b.ab.writer) b).ab_sent ≡ true
ab_returns-sent true b here k = here
ab_returns-sent false b here k = send_ab-done b.ab.reader b k

ba_returns-sent :
    (t : Bool) (b : BridgeWs)
    → b.ba_sent ≡ t
    → is_done b.ba.reader ≡ true
    → (if t then b else send_ba (copy_returns b.live true b.ba.reader b.ba.writer) b).ba_sent ≡ true
ba_returns-sent true b here k = here
ba_returns-sent false b here k = send_ba-done b.ba.reader b k

ab_returns-ba :
    (t : Bool) (o : Option Err) (b : BridgeWs) → (if t then b else send_ab o b).ba ≡ b.ba
ab_returns-ba true o b = refl
ab_returns-ba false none b = refl
ab_returns-ba false (some e) b = refl

ba_returns-ab_sent :
    (t : Bool) (o : Option Err) (b : BridgeWs) → (if t then b else send_ba o b).ab_sent ≡ b.ab_sent
ba_returns-ab_sent true o b = refl
ba_returns-ab_sent false none b = refl
ba_returns-ab_sent false (some e) b = refl

abbrev pub ends : Err → List BridgeEvent
ends e = in_ab (read_fails e) ∷ in_ba (read_fails e) ∷ ab_returns true ∷ ba_returns true ∷ []

ends-AllSent :
    (budget : ℕ) (d : DelayProfile ℕ) (e : Err) (b : BridgeWs)
    → AllSent (bridge_ws budget d (ends e) b)
unfolding bridge_ws bridge_step pipe_step
ends-AllSent budget d e b =
    let b1 = bridge_step budget d (in_ab (read_fails e)) b in
    let b2 = bridge_step budget d (in_ba (read_fails e)) b1 in
    let b3 = bridge_step budget d (ab_returns true) b2 in
    let ab_over = reader-done budget (d.s_latency + d.l_latency) e b.ab.reader b.ab refl in
    let ba_over = reader-done budget (d.l_latency + d.s_latency) e b.ba.reader b.ba refl in
    let o = copy_returns b2.live true b2.ab.reader b2.ab.writer in
    let o' = copy_returns b3.live true b3.ba.reader b3.ba.writer in
    (
      ba_returns-ab_sent b3.ba_sent o' b3 ∙ ab_returns-sent b2.ab_sent b2 refl ab_over,
      ba_returns-sent b3.ba_sent b3 refl
          (ap (λ p. is_done p.reader) (ab_returns-ba b2.ab_sent o b2) ∙ ba_over),
    )

-- After every run, once a read of each source fails and the timers of the copies fire, `bridgeWS` returns; nothing is
-- asked of the writers, which may hang.
pub bridge_ws_can_return :
    (budget : ℕ) (d : DelayProfile ℕ) (es : List BridgeEvent) (e : Err)
    → IsReturned
        (bridge_ws budget d
          (proceeds 4)
          (bridge_ws budget d (ends e) (bridge_ws budget d es start))).waiter
bridge_ws_can_return budget d es e =
    let b = bridge_ws budget d es start in
    let b' = bridge_ws budget d (ends e) b in
    run_togo budget d 4 b' (togo_bound b'.waiter)
      (bridge_ws-Closing budget d (ends e) b
        (bridge_ws-Closing budget d es start (record { stands = refl; counted = refl })))
      (ends-AllSent budget d e b)
