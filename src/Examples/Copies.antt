-- ===== src/Examples/Copies.antt =====
-- Runs of `bridgeWS` of the mock relay.
use aztunnel.Common.{◌≡◌, refl, true, false, none, List, [], ◌∷◌}
use aztunnel.GoError.{leaf, eof, canceled, is, find_layer}
use aztunnel.MockRelay.Delay.{delay_profile_default}
use aztunnel.MockRelay.Pipeline.{
  text_message, read_message, read_fails, acquire, enqueue, dequeue, wake, write_returns, pipe_step,
  reader_step, writer_step, copy_result, fold_close_err, bridge_frame_weight,
}
use aztunnel.MockRelay.Flow.{InOrder}
use aztunnel.MockRelay.BridgeWs.{
  start, BridgeEvent, in_ab, in_ba, ab_returns, ba_returns, proceed, bridge_ws, bridge_step, wait,
  copy_returns, drained, returned,
}
use aztunnel.MockRelay.Closings.{Returned, bridge_ws-Returned}
use aztunnel.MockRelay.Duplex.{Both, bridge_ws-InOrder}
use aztunnel.MockRelay.Unblocked.{IsReturned, ends, proceeds, bridge_ws_can_return}

-- The sender's message reaches the listener; the sender closes, and the other copy is canceled.
abbrev closed_by_sender : List BridgeEvent
closed_by_sender =
    in_ab (read_message (record { typ = text_message; data_bytes = 1 ∷ 2 ∷ [] }))
    ∷ in_ab (acquire 0)
    ∷ in_ab enqueue
    ∷ in_ab dequeue
    ∷ in_ab wake
    ∷ in_ab (write_returns none)
    ∷ in_ab (read_fails (leaf eof))
    ∷ in_ab dequeue
    ∷ ab_returns false
    ∷ proceed
    ∷ proceed
    ∷ proceed
    ∷ in_ba (read_fails (leaf canceled))
    ∷ ba_returns true
    ∷ proceed
    ∷ []

closed_by_sender-returns :
    (bridge_ws 60 delay_profile_default closed_by_sender start).waiter ≡ returned none
unfolding bridge_ws bridge_step wait pipe_step reader_step writer_step copy_returns drained
    copy_result fold_close_err bridge_frame_weight is find_layer
closed_by_sender-returns = refl

bridge_ws-Returned_example :
    Returned none (bridge_ws 60 delay_profile_default closed_by_sender start)
bridge_ws-Returned_example =
    bridge_ws-Returned 60 delay_profile_default closed_by_sender none closed_by_sender-returns

bridge_ws-InOrder_example : Both InOrder (bridge_ws 60 delay_profile_default closed_by_sender start)
bridge_ws-InOrder_example = bridge_ws-InOrder 60 delay_profile_default closed_by_sender

-- The writer of the first copy never ends.
abbrev hanging : List BridgeEvent
hanging =
    in_ab (read_message (record { typ = text_message; data_bytes = 1 ∷ 2 ∷ [] }))
    ∷ in_ab (acquire 0)
    ∷ in_ab enqueue
    ∷ in_ab dequeue
    ∷ in_ab wake
    ∷ []

bridge_ws_can_return_example :
    IsReturned
      (bridge_ws 60 delay_profile_default (proceeds 4) (
        bridge_ws 60 delay_profile_default
          (ends (leaf eof))
          (bridge_ws 60 delay_profile_default hanging start))).waiter
bridge_ws_can_return_example = bridge_ws_can_return 60 delay_profile_default hanging (leaf eof)
