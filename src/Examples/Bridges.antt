-- ===== src/Examples/Bridges.antt =====
-- Schedules of `Bridge` of internal/relay/bridge.go.
use aztunnel.Common.{true, false, Option, none, some, List, [], ◌∷◌, ◌≡◌, refl, ◌⊎◌, ◌%◌, ◌^◌}
use aztunnel.Common.Text.{codes}
use aztunnel.GoError.{Err, leaf, net_error, cause, user_cancel, unknown, is}
use aztunnel.Causes.{name, classify}
use aztunnel.Bridge.Classify.{ws_read, tcp_read, cause_from_pump_exit, is_induced_cancellation}
use aztunnel.Bridge.Machine.{
  Side, PumpResult, BridgeResult, selecting, Event, returned, parent_cancel, frame, chunk,
  reader_fails, receive, from_ws, from_tcp, ping_exit, run, step, start,
}
use aztunnel.Bridge.Invariant.{Joined}
use aztunnel.Bridge.First.{first_received, FirstReports}
use aztunnel.Bridge.Outcome.{run-FirstReports, result_errors, first_exit_names_cause, EndsWith}
use aztunnel.Bridge.Bytes.{returned_counts, copied, sent}
use aztunnel.Bridge.Progress.{run-finale, finale}

abbrev broken : Err
broken = leaf (net_error false)

-- Three bytes down, five up, and then the local side closes.
abbrev local_close_run : List Event
local_close_run =
    frame 3 none
    ∷ chunk 5 none none
    ∷ chunk 0 (some broken) none
    ∷ receive from_tcp
    ∷ reader_fails broken
    ∷ receive from_ws
    ∷ ping_exit
    ∷ []

abbrev local_close_result : BridgeResult
local_close_result = record {
  stats = record { tcp_to_ws = 5; ws_to_tcp = 3 };
  tcp_to_ws_err = some broken;
  ws_to_tcp_err = none;
  end_cause = codes "local_close";
}

local_close_run-returns :
    (run start local_close_run).main ≡ returned local_close_result (some broken)
unfolding run start step name cause_from_pump_exit is is_induced_cancellation aztunnel.Causes.label
    aztunnel.Bridge.Classify.ignore_eof aztunnel.Bridge.Classify.ignore_normal_close
    aztunnel.GoError.find_layer aztunnel.GoError.is_net_timeout classify
local_close_run-returns = refl

run-FirstReports_example :
    Joined (run start local_close_run)
    × FirstReports
        (first_received none start local_close_run)
        (run start local_close_run)
        local_close_result
        (some broken)
run-FirstReports_example = run-FirstReports local_close_run local_close_run-returns

returned_counts_example :
    (3 ≡ copied local_close_run % 2 ^ 64) × (5 ≡ sent local_close_run % 2 ^ 64)
returned_counts_example = returned_counts local_close_run local_close_run-returns

result_errors_example :
    let r = local_close_result in
    ((r.tcp_to_ws_err ≡ none) ⊎ (r.ws_to_tcp_err ≡ none))
    × (is_induced_cancellation r.tcp_to_ws_err ≡ false)
    × (is_induced_cancellation r.ws_to_tcp_err ≡ false)
    × (((is_induced_cancellation (some broken) ≡ true)
          × (r.tcp_to_ws_err ≡ none)
          × (r.ws_to_tcp_err ≡ none))
        ⊎ ((is_induced_cancellation (some broken) ≡ false)
            × ((r.tcp_to_ws_err ≡ some broken) ⊎ (r.ws_to_tcp_err ≡ some broken))))
result_errors_example = result_errors local_close_run local_close_run-returns

first_exit_names_cause_example :
    (side : Side) × (p : PumpResult) × (first_received none start local_close_run ≡ some (side, p))
    × EndsWith p local_close_result (some broken)
first_exit_names_cause_example =
    first_exit_names_cause local_close_run (tt, (tt, (tt, (tt, (tt, (tt, (tt, tt)))))))
      local_close_run-returns

-- The user interrupts a bridge on which a frame has come.
abbrev interrupted : Err
interrupted = leaf (cause user_cancel)

abbrev interrupted_run : List Event
interrupted_run = frame 3 none ∷ (parent_cancel interrupted ∷ finale broken)

abbrev interrupted_result : BridgeResult
interrupted_result = record {
  stats = record { tcp_to_ws = 0; ws_to_tcp = 3 };
  tcp_to_ws_err = none;
  ws_to_tcp_err = some broken;
  end_cause = codes "user_cancel";
}

interrupted_run-returns :
    (run start interrupted_run).main ≡ returned interrupted_result (some broken)
unfolding run start step name cause_from_pump_exit is is_induced_cancellation aztunnel.Causes.label
    aztunnel.Bridge.Classify.ignore_eof aztunnel.Bridge.Classify.ignore_normal_close
    aztunnel.GoError.find_layer aztunnel.GoError.is_net_timeout classify
interrupted_run-returns = refl

one_frame-selects : (run start (frame 3 none ∷ [])).main ≡ selecting
unfolding run start step
one_frame-selects = refl

run-finale_example :
    (r : BridgeResult) × (p : Option Err) × ((run start (frame 3 none ∷ finale broken)).main
      ≡ returned r p)
run-finale_example = run-finale (frame 3 none ∷ []) broken
