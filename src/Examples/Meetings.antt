-- ===== src/Examples/Meetings.antt =====
-- Runs of a rendezvous of the mock relay, mockrelay/server/rendezvous.go, and of its hub.
use aztunnel.Common.{
  ℕ, ◌+◌, ◌*◌, ◌≤◌, ◌≡◌, ◌≢◌, refl, true, false, none, some, List, [], ◌∷◌, ◌++◌, ◌%◌, arith,
  length, take, drop, All, ◌⊎◌, if◌then◌else◌,
}
use aztunnel.Common.Text.{Bytes, codes}
use aztunnel.Common.Assoc.{lookup}
use aztunnel.MockRelay.Hub.{EntityState, Hub, entity}
use aztunnel.MockRelay.Robin.{turns, turns-rotation}
use aztunnel.MockRelay.Traffic.{
  Call, add_listener, add_waiting, take_waiting, reserve, free, after_calls,
}
use aztunnel.MockRelay.Slots.{
  only, all_alone, after_calls-all_alone, waiting, one_if_some, registered, handed_out,
  handed_out-registered,
}
use aztunnel.MockRelay.Rendezvous.{
  PendingRendezvous, close_listener, signal_done, remove_entry, release_slot, returned, bridging,
  holding, left, open_ws, closed_ws, Accept, Rendezvous, go, deadline, yes, reserve as reserve_slot,
  found, slept, upgraded, over, Event, sender, listener, steps,
}
use aztunnel.MockRelay.Taking.{takers}
use aztunnel.MockRelay.Handover.{begin, steps_no_panic, steps-returned, steps-left, steps-bridging}
use aztunnel.MockRelay.Endings.{work, all_listeners}
use aztunnel.MockRelay.Unstuck.{HasLeft, CanStep, steps-ends}

-- The connect is admitted, writes its accept frame, and the accept comes.
abbrev meeting : List Event
meeting =
    sender go
    ∷ sender go
    ∷ sender yes
    ∷ sender (reserve_slot 2)
    ∷ sender yes
    ∷ sender go
    ∷ sender (found 1)
    ∷ sender yes
    ∷ listener 0 slept
    ∷ sender go
    ∷ sender go
    ∷ sender yes
    ∷ listener 0 slept
    ∷ listener 0 (upgraded 0)
    ∷ []

-- The deadline fires behind the claim, before the connect has seen it.
abbrev late : List Event
late =
    meeting
    ++ (sender deadline ∷ sender go ∷ sender go ∷ sender go ∷ sender go ∷ listener 0 over ∷ [])

abbrev after_late : Rendezvous
after_late = record {
  pending = record {
    once = true;
    listener_ws = some 0;
    ready = 1;
    paired = 1;
    bridge_done = 1;
    sender_took = 0;
  };
  waiting = false;
  slots = 1;
  others = 1;
  deferred = [];
  connect = returned;
  sender_ws = closed_ws;
  answers = 101 ∷ [];
  accepts = record { at = left; ws = closed_ws; answers = 101 ∷ [] } ∷ [];
}

late-run : steps late (begin 1 1) ≡ some after_late
unfolding steps begin aztunnel.MockRelay.Rendezvous.step aztunnel.MockRelay.Rendezvous.connect_step
    aztunnel.MockRelay.Rendezvous.accept_step aztunnel.MockRelay.Rendezvous.run_deferred
    aztunnel.MockRelay.Rendezvous.after_upgrade aztunnel.MockRelay.Rendezvous.claim
late-run = refl

abbrev in_bridge : Rendezvous
in_bridge = record {
  pending = record {
    once = true;
    listener_ws = some 0;
    ready = 1;
    paired = 1;
    bridge_done = 0;
    sender_took = 1;
  };
  waiting = false;
  slots = 2;
  others = 1;
  deferred = close_listener 0 ∷ signal_done ∷ remove_entry ∷ release_slot ∷ [];
  connect = bridging 0;
  sender_ws = open_ws;
  answers = 101 ∷ [];
  accepts = record { at = holding; ws = open_ws; answers = 101 ∷ [] } ∷ [];
}

bridge-run : steps (meeting ++ (sender go ∷ [])) (begin 1 1) ≡ some in_bridge
unfolding steps begin aztunnel.MockRelay.Rendezvous.step aztunnel.MockRelay.Rendezvous.connect_step
    aztunnel.MockRelay.Rendezvous.accept_step aztunnel.MockRelay.Rendezvous.run_deferred
    aztunnel.MockRelay.Rendezvous.after_upgrade aztunnel.MockRelay.Rendezvous.claim
bridge-run = refl

steps_no_panic_example :
    (after_late.pending.ready ≤ 1)
    × (after_late.pending.paired ≤ 1)
    × (after_late.pending.bridge_done ≤ 1)
    × (after_late.pending.sender_took ≤ 1)
steps_no_panic_example = steps_no_panic late 1 1 after_late late-run

steps-returned_example :
    (after_late.slots ≡ after_late.others)
    × (after_late.waiting ≡ false)
    × (after_late.sender_ws ≢ open_ws)
steps-returned_example = steps-returned late 1 1 after_late late-run refl

steps-left_example : closed_ws ≢ open_ws
steps-left_example =
    steps-left late 1 1 after_late late-run 0
      (record { at = left; ws = closed_ws; answers = 101 ∷ [] }) refl refl refl

abbrev holder : Accept
holder = record { at = holding; ws = open_ws; answers = 101 ∷ [] }

steps-bridging_example :
    (in_bridge.answers ≡ 101 ∷ [])
    × (holder.answers ≡ 101 ∷ [])
    × (in_bridge.pending.listener_ws ≡ some 0)
    × (in_bridge.pending.paired ≤ 1)
    × (takers [] (meeting ++ (sender go ∷ [])) (begin 1 1) ≡ 0 ∷ [])
steps-bridging_example =
    steps-bridging (meeting ++ (sender go ∷ [])) 1 1 in_bridge bridge-run 0 holder refl refl

steps-ends_example :
    (work late ≤ 20 + 4 * 1 + all_listeners late)
    × (((after_late.connect ≡ returned) × All HasLeft after_late.accepts) ⊎ CanStep after_late)
steps-ends_example = steps-ends late 1 1 after_late late-run

-- An entity with three listeners, the second one next.
abbrev three : EntityState
three = record { controls = 7 ∷ 8 ∷ 9 ∷ []; next_idx = 1; pending = []; inflight = 0 }

abbrev hub_of_three : Hub
hub_of_three = (codes "db", three) ∷ []

turns-rotation_example :
    turns (codes "db") 3 hub_of_three
    ≡ drop (1 % 3) (7 ∷ 8 ∷ 9 ∷ []) ++ take (1 % 3) (7 ∷ 8 ∷ 9 ∷ [])
unfolding lookup aztunnel.Common.Text.bytes_eq
turns-rotation_example = turns-rotation (codes "db") hub_of_three three refl

abbrev two_entities : List Call
two_entities =
    add_listener (codes "db") 7
    ∷ reserve (codes "web")
    ∷ add_waiting (codes "db") (codes "a1") 3
    ∷ take_waiting (codes "db") (codes "a1")
    ∷ take_waiting (codes "db") (codes "a1")
    ∷ free (codes "web")
    ∷ []

after_calls-all_alone_example :
    entity (codes "db") (after_calls 2 two_entities [])
    ≡ all_alone 2 (only (codes "db") two_entities) (entity (codes "db") [])
after_calls-all_alone_example = after_calls-all_alone 2 (codes "db") two_entities []

handed_out-registered_example :
    handed_out 2 (codes "db") (codes "a1") two_entities []
      + one_if_some (waiting (codes "db") (codes "a1") (after_calls 2 two_entities []))
    ≤ registered (codes "db") (codes "a1") two_entities
      + one_if_some (waiting (codes "db") (codes "a1") [])
handed_out-registered_example = handed_out-registered 2 (codes "db") (codes "a1") two_entities []
