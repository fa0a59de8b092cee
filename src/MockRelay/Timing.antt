-- ===== src/MockRelay/Timing.antt =====
-- mockrelay/server: the sleeps of handleConnect and handleAccept (rendezvous.go) and of `writeAccept`
-- (control.go), against what `PredictedRendezvousFor` of delay_profile.go promises.
use aztunnel.Common.{
  ℕ, zero, suc, ◌+◌, ◌*◌, ◌≡◌, refl, Bool, true, Option, none, some, List, [], ◌∷◌, arith,
  if◌then◌else◌,
}
use aztunnel.MockRelay.Delay.{
  DelayProfile, hops_handshake, hops_ws_get, hops_response, hops_accept_frame, max_of,
  predicted_rendezvous_for,
}
use aztunnel.MockRelay.Rendezvous.{
  ConnectAt, entering, authorizing, matching, writing, responding, refusing, AcceptAt, arriving,
  unknown_id, answering, Rendezvous, ConnectEvent, go, yes, no, reserve, found, connect_step,
  signal_done, remove_entry, release_slot,
}
use aztunnel.MockRelay.Handover.{begin}

-- How long the connect sleeps at a place before it goes on; `entra` is the shape of its token.
unfoldable pub connect_sleep : DelayProfile ℕ → Bool → ConnectAt → ℕ
connect_sleep p entra entering =
    p.dns_lookup + hops_handshake * p.s_latency + hops_ws_get * p.s_latency
connect_sleep p entra authorizing = if entra then p.entra_validate else p.auth_internal
connect_sleep p entra matching = p.match_make_internal
connect_sleep p entra (writing n) = hops_accept_frame * p.l_latency
connect_sleep p entra responding = hops_response * p.s_latency
connect_sleep p entra (refusing status) = hops_response * p.s_latency
connect_sleep p entra _ = 0

unfoldable pub accept_sleep : DelayProfile ℕ → AcceptAt → ℕ
accept_sleep p arriving = p.dns_lookup + hops_handshake * p.l_latency + hops_ws_get * p.l_latency
accept_sleep p unknown_id = hops_response * p.l_latency
accept_sleep p answering = hops_response * p.l_latency
accept_sleep p _ = 0

abbrev later : (Rendezvous → ℕ) → Option Rendezvous → ℕ
later f none = 0
later f (some r) = f r

-- What the connect sleeps along a run of its own steps.
unfoldable pub connect_time : DelayProfile ℕ → Bool → List ConnectEvent → Rendezvous → ℕ
connect_time p entra [] r = 0
connect_time p entra (e ∷ es) r =
    connect_sleep p entra r.connect + later (connect_time p entra es) (connect_step e r.connect r)

-- The listeners of a snapshot that fail, up to the one that takes the accept frame.
unfoldable pub tries : ℕ → List ConnectEvent
tries zero = yes ∷ []
tries (suc k) = no ∷ tries k

-- The connect is admitted, finds k + 1 listeners, and the last of them takes the frame.
unfoldable pub admitted : ℕ → List ConnectEvent
admitted k = go ∷ go ∷ yes ∷ reserve 0 ∷ yes ∷ go ∷ found (suc k) ∷ tries k

tries_time :
    (p : DelayProfile ℕ) (entra : Bool) (k : ℕ) (r : Rendezvous)
    → r.connect ≡ writing (suc k)
    → connect_time p entra (tries k) r ≡ p.l_latency + k * p.l_latency
unfolding connect_time connect_step tries connect_sleep
tries_time p entra zero r here = rw (here) (omega arith)
tries_time p entra (suc k) r here =
    ground (arith, here, tries_time p entra k (record r { connect = writing (suc k) }) refl)

abbrev first_try : (others n k : ℕ) → Rendezvous
first_try others n k = record (begin others n) {
  waiting = true;
  slots = suc others;
  deferred = signal_done ∷ remove_entry ∷ release_slot ∷ [];
  connect = writing (suc k);
}

-- The sleeps of the connect until an accept frame is written, those of the accept that follows the frame, and
-- the longer one of the two response legs, which run at the same time, are the predicted rendezvous on
-- either auth path, and one more listener latency for each listener that fails before.
pub connect_time-predicted_rendezvous_for :
    (p : DelayProfile ℕ) (entra : Bool) (others n k : ℕ)
    → connect_time p entra (admitted k) (begin others n)
        + accept_sleep p arriving
        + max_of (connect_sleep p entra responding) (accept_sleep p answering)
      ≡ predicted_rendezvous_for entra p + k * p.l_latency
unfolding connect_time connect_step admitted begin connect_sleep accept_sleep
    predicted_rendezvous_for
connect_time-predicted_rendezvous_for p entra others n k =
    ground (arith, tries_time p entra k (first_try others n k) refl)
