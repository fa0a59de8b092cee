-- ===== src/Examples/Sessions.antt =====
-- Runs of the control session, the token cache and the retry loops of internal/relay.
use aztunnel.Common.{
  get_at, ℕ, ◌+◌, ◌*◌, ◌≤◌, pos, Bool, true, false, Option, none, some, List, [], ◌∷◌, ◌++◌, ◌≡◌,
  refl, ◌≢◌, ◌⊎◌, inl, zero, suc,
}
use aztunnel.Common.Text.{Bytes, codes}
use aztunnel.GoError.{Err, leaf, net_error, canceled}
use aztunnel.Protocol.{decoded}
use aztunnel.Relay.Control.{
  is_done, ping_failed, Thread, reader, renewer, pinger, looping, Event, message, accept_done,
  fails, stamps, cancels, leaves, phase, reason_of, step, run, start, Finished, control_ended,
}
use aztunnel.Relay.Permits.{in_flight_bound}
use aztunnel.Relay.ControlEnd.{control_ended_names, failure}
use aztunnel.Relay.ControlProgress.{session_can_finish, ending, finale}
use aztunnel.Relay.Token.{
  fetching, Fetched, fetch_done, arrive, look, waiting, is_closed, new_provider,
}
use aztunnel.Relay.SingleFlight.{single_flight, count_fetching, in_flight}
use aztunnel.Relay.Waiters.{waiters_wake}
use aztunnel.Relay.Dial.{
  Round, Dialled, connected, refused, dial_with_retry, dial_with_retry_lem, decide, finish,
  returned,
}
use aztunnel.Relay.Serve.{
  both, listen_and_serve, sleeps-listen_and_serve, is_up-listen_and_serve, is_up, sleeps, due,
}
use aztunnel.Relay.Renew.{Attempt}

abbrev broken : Err
broken = leaf (net_error false)

-- Two accepts on one permit, and then a ping that fails and the read loop that follows it.
abbrev ping_run : List Event
ping_run =
    message (decoded (some (codes "wss://relay/1"))) true
    ∷ message (decoded (some (codes "wss://relay/2"))) true
    ∷ fails pinger broken
    ∷ stamps pinger
    ∷ cancels pinger
    ∷ fails reader (leaf canceled)
    ∷ leaves renewer
    ∷ accept_done
    ∷ cancels reader
    ∷ []

in_flight_bound_example :
    ((run (start (pos 1)) ping_run).in_flight ≤ 1)
    × ((run (start (pos 1)) ping_run).attempted
        ≡ (run (start (pos 1)) ping_run).dropped
          + ((run (start (pos 1)) ping_run).in_flight + (run (start (pos 1)) ping_run).over))
in_flight_bound_example = in_flight_bound 0 ping_run

ping_run-Finished : Finished (run (start (pos 1)) ping_run) (leaf canceled)
unfolding run start step aztunnel.Relay.Semaphore.new_conn_semaphore
ping_run-Finished = record {
  read_done = refl;
  renew_done = (none, refl);
  ping_done = (some broken, refl);
  accepts_done = refl;
}

ping_run-outer : (run (start (pos 1)) ping_run).outer ≡ none
unfolding run start step aztunnel.Relay.Semaphore.new_conn_semaphore
ping_run-outer = refl

control_ended_names_example :
    (t : Thread) × (e : Err) × (control_ended (run (start (pos 1)) ping_run) (leaf canceled)
      ≡ (reason_of t, some e))
    × (failure (phase t (run (start (pos 1)) ping_run)) ≡ some e)
control_ended_names_example =
    control_ended_names (pos 1) ping_run (leaf canceled) ping_run-Finished ping_run-outer

abbrev one_accept : List Event
one_accept = message (decoded (some (codes "wss://relay/1"))) true ∷ []

-- The renewal fails while a handler is in flight.
session_can_finish_example :
    (is_done (run (run (start (pos 1)) one_accept) (ending renewer broken)).ctx ≡ true)
    × ((err : Err) × Finished
          (run
            (run (start (pos 1)) one_accept)
            (finale renewer broken (leaf canceled) (run (start (pos 1)) one_accept).in_flight))
          err)
session_can_finish_example = session_can_finish (pos 1) one_accept renewer broken (leaf canceled)

-- A ping that has stamped its failure, and a renewal that fails behind it.
abbrev stamped_run : List Event
stamped_run = fails pinger broken ∷ fails renewer (leaf canceled) ∷ stamps pinger ∷ []

stamped_run-end : (run (start (pos 1)) stamped_run).end ≡ some (ping_failed, some broken)
unfolding run start step
stamped_run-end = refl

start-phase : (t : Thread) → phase t (start (pos 1)) ≡ looping
unfolding start
start-phase reader = refl
start-phase renewer = refl
start-phase pinger = refl

start-end : (start (pos 1)).end ≡ none
unfolding start
start-end = refl

start-outer : (start (pos 1)).outer ≡ none
unfolding start
start-outer = refl

-- Two callers of `GetToken`, of which the second waits for the first.
abbrev two_callers : List aztunnel.Relay.Token.Event
two_callers = arrive ∷ arrive ∷ look 0 10 ∷ look 1 11 ∷ []

single_flight_example :
    (count_fetching (aztunnel.Relay.Token.run new_provider two_callers).callers
      ≡ in_flight (aztunnel.Relay.Token.run new_provider two_callers).refreshing)
    × (count_fetching (aztunnel.Relay.Token.run new_provider two_callers).callers ≤ 1)
single_flight_example = single_flight two_callers

second-waits :
    get_at 1 (aztunnel.Relay.Token.run new_provider two_callers).callers ≡ some (waiting 0)
unfolding aztunnel.Relay.Token.run new_provider aztunnel.Relay.Token.step
    aztunnel.Common.Text.bytes_eq
second-waits = refl

waiters_wake_example :
    let p = aztunnel.Relay.Token.run new_provider two_callers in
    (is_closed 0 p ≡ true)
    ⊎ ((j : ℕ) × (get_at j p.callers ≡ some (fetching 0))
        × ((r : Fetched) → is_closed 0 (aztunnel.Relay.Token.step p (fetch_done j r)) ≡ true))
waiters_wake_example = waiters_wake two_callers 1 0 second-waits

-- A relay without a listener, twice, and then with one.
abbrev no_listener : Round
no_listener = record { token = none; dial = refused (some 404) broken; ctx_err = none }

abbrev ready : Round
ready = record { token = none; dial = connected; ctx_err = none }

no_listener-IsRetried : aztunnel.Relay.Dial.IsRetried no_listener
no_listener-IsRetried = (refl, refl, (404, broken, refl, inl refl))

ready-finishes : decide ready ≡ finish none
unfolding decide
ready-finishes = refl

dial_with_retry_lem_example :
    dial_with_retry (no_listener ∷ no_listener ∷ ready ∷ [])
    ≡ record { slept = 1000000000 ∷ 2000000000 ∷ []; progress = returned none }
dial_with_retry_lem_example =
    dial_with_retry_lem (no_listener ∷ no_listener ∷ []) ready [] none
      (no_listener-IsRetried, (no_listener-IsRetried, tt)) ready-finishes

abbrev short_session : aztunnel.Relay.Serve.Run
short_session = record { connected = true; lasted = 5; ctx_err = none; delay_err = none }

abbrev long_session : aztunnel.Relay.Serve.Run
long_session = record { connected = true; lasted = 40000000000; ctx_err = none; delay_err = none }

sleeps-listen_and_serve_example :
    (sleeps (listen_and_serve both (short_session ∷ short_session ∷ long_session ∷ [])).calls
      ≡ 1000000000 ∷ 2000000000 ∷ 1000000000 ∷ [])
    × ((listen_and_serve both (short_session ∷ short_session ∷ long_session ∷ [])).err ≡ none)
sleeps-listen_and_serve_example =
    sleeps-listen_and_serve both (short_session ∷ short_session ∷ long_session ∷ [])
      ((refl, refl), ((refl, refl), ((refl, refl), tt)))

-- The first fetch of a token fails, the second does not.
abbrev second_attempt_works : ℕ → Attempt
second_attempt_works (suc (suc n)) = record { ctx_err = none; token = none; write = none }
second_attempt_works _ = record { ctx_err = none; token = some broken; write = none }
