-- ===== src/Relay/Permits.antt =====
-- What holds of the control session of internal/relay/control.go under every schedule of its
-- permits: the limit on connections.
use aztunnel.Common.{
  ℤ, pos, negsuc, ℕ, zero, suc, ◌+◌, ◌≤◌, Option, none, some, List, [], ◌∷◌, ◌≡◌, refl, arith,
}
use aztunnel.Relay.Semaphore.{new_conn_semaphore}
use aztunnel.Relay.Control.{
  reader, renewer, pinger, Session, Event, outer_done, message, accept_done, fails, stamps, cancels,
  leaves, step, run, start,
}

-- The permits: what is held is what is in flight, within the capacity, and every accept is dropped,
-- in flight or over.
abbrev pub Within : Option ℕ → ℕ → ℕ → Type 0
Within none held n = Unit
Within (some c) held n = (held ≡ n) × (n ≤ c)

abbrev pub Permits : Session → Type 0
Permits s =
    Within s.sem.capacity s.sem.held s.in_flight
    × (s.attempted ≡ s.dropped + (s.in_flight + s.over))

step-Permits : (s : Session) (ev : Event) → Permits s → Permits (step s ev)
unfolding step
step-Permits s (outer_done e why) v = ground arith
step-Permits s (message m prefers) v = ground arith
step-Permits s accept_done v = ground arith
step-Permits s (fails reader e) v = ground arith
step-Permits s (fails renewer e) v = ground arith
step-Permits s (fails pinger e) v = ground arith
step-Permits s (stamps reader) v = ground arith
step-Permits s (stamps renewer) v = ground arith
step-Permits s (stamps pinger) v = ground arith
step-Permits s (cancels reader) v = ground arith
step-Permits s (cancels renewer) v = ground arith
step-Permits s (cancels pinger) v = ground arith
step-Permits s (leaves reader) v = ground arith
step-Permits s (leaves renewer) v = ground arith
step-Permits s (leaves pinger) v = ground arith

run-Permits : (s : Session) (evs : List Event) → Permits s → Permits (run s evs)
unfolding run
run-Permits s [] v = v
run-Permits s (ev ∷ evs) v = run-Permits (step s ev) evs (step-Permits s ev v)

start-Permits : (max : ℤ) → Permits (start max)
unfolding start new_conn_semaphore
start-Permits (pos zero) = ground arith
start-Permits (pos (suc n)) = ground arith
start-Permits (negsuc n) = ground arith

step-capacity : (s : Session) (ev : Event) → (step s ev).sem.capacity ≡ s.sem.capacity
unfolding step
step-capacity s (outer_done e why) = ground arith
step-capacity s (message m prefers) = ground arith
step-capacity s accept_done = ground arith
step-capacity s (fails reader e) = ground arith
step-capacity s (fails renewer e) = ground arith
step-capacity s (fails pinger e) = ground arith
step-capacity s (stamps reader) = ground arith
step-capacity s (stamps renewer) = ground arith
step-capacity s (stamps pinger) = ground arith
step-capacity s (cancels reader) = ground arith
step-capacity s (cancels renewer) = ground arith
step-capacity s (cancels pinger) = ground arith
step-capacity s (leaves reader) = ground arith
step-capacity s (leaves renewer) = ground arith
step-capacity s (leaves pinger) = ground arith

run-capacity : (s : Session) (evs : List Event) → (run s evs).sem.capacity ≡ s.sem.capacity
unfolding run
run-capacity s [] = refl
run-capacity s (ev ∷ evs) = ground (arith, run-capacity (step s ev) evs, step-capacity s ev)

-- With a positive `MaxConnections`, never more accepts than that are in flight, whatever happens in
-- whatever order, and every accept is dropped, in flight or over.
pub in_flight_bound :
    (n : ℕ) (evs : List Event)
    → let s = run (start (pos (suc n))) evs in
      (s.in_flight ≤ suc n) × (s.attempted ≡ s.dropped + (s.in_flight + s.over))
unfolding start new_conn_semaphore
in_flight_bound n evs =
    let (within, counted) = run-Permits (start (pos (suc n))) evs (start-Permits (pos (suc n))) in
    (ground (arith, within, run-capacity (start (pos (suc n))) evs), counted)
