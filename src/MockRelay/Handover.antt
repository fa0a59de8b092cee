-- ===== src/MockRelay/Handover.antt =====
-- mockrelay/server/rendezvous.go: what every interleaving of a connect with its accepts comes to.
use aztunnel.Common.{
  ℕ, zero, suc, ◌≤◌, ◌≡◌, ◌≢◌, false, none, some, List, [], ◌∷◌, arith, get_at, Option-cases, inl,
  inr, subst, refl, ==_iff,
}
use aztunnel.MockRelay.Rendezvous.{
  entering, bridging, returned, arriving, left, absent, open_ws, Accept, Rendezvous, Event, steps,
}
use aztunnel.MockRelay.Pairing.{Counts, OnSome, steps_keep, step-Counts}
use aztunnel.MockRelay.Taking.{Taken, takers, steps-Taken, only_taker}
use aztunnel.MockRelay.Ownership.{Follows, Follows-Owned, step-Follows}

abbrev pub arrivals : ℕ → List Accept
arrivals zero = []
arrivals (suc n) = record { at = arriving; ws = absent; answers = [] } ∷ arrivals n

-- A connect arrives while other connects hold `others` slots; `n` accepts with its id will come.
unfoldable pub begin : (others n : ℕ) → Rendezvous
begin others n = record {
  pending = record {
    once = false;
    listener_ws = none;
    ready = 0;
    paired = 0;
    bridge_done = 0;
    sender_took = 0;
  };
  waiting = false;
  slots = others;
  others = others;
  deferred = [];
  connect = entering;
  sender_ws = absent;
  answers = [];
  accepts = arrivals n;
}

pub begin-Counts : (others n : ℕ) → Counts (begin others n)
unfolding begin
begin-Counts others n = ground arith

arrived :
    (i n : ℕ) (a : Accept)
    → get_at i (arrivals n) ≡ some a
    → a ≡ record { at = arriving; ws = absent; answers = [] }
arrived i zero a h = absurd (ground arith)
arrived zero (suc n) a h = ground arith
arrived (suc i) (suc n) a h = arrived i n a h

begin-Follows : (i others n : ℕ) → Follows i (begin others n)
unfolding begin
begin-Follows i others n = elim (Option-cases (get_at i (arrivals n))) [
  | inl none_there ↦ rw (none_there) tt
  | inr (a, there) ↦ ground (arith, there, arrived i n a there)
]

begin-Taken : (i others n : ℕ) → Taken i [] (begin others n)
unfolding begin
begin-Taken i others n = elim (Option-cases (get_at i (arrivals n))) [
  | inl none_there ↦ record {
    all_paired = refl;
    entered = ground (arith, none_there);
    claimed = ground arith;
  }
  | inr (a, there) ↦ record {
    all_paired = refl;
    entered = ground (arith, there, arrived i n a there);
    claimed = ground arith;
  }
]

module _ (es : List Event) (others n : ℕ) (r : Rendezvous)
    (run : steps es (begin others n) ≡ some r) where
  kept {ℓ} : (P : Rendezvous → Type ℓ) → OnSome P (steps es (begin others n)) → P r
  kept P p = subst (OnSome P) run p

  pub reached-Counts : Counts r
  reached-Counts =
      kept Counts (steps_keep Counts step-Counts es (begin others n) (begin-Counts others n))

  pub reached-Follows : (i : ℕ) → Follows i r
  reached-Follows i =
      kept (Follows i)
        (steps_keep (Follows i) (step-Follows i) es (begin others n) (begin-Follows i others n))

  pub reached-Taken : (i : ℕ) → Taken i (takers [] es (begin others n)) r
  reached-Taken i =
      subst (OnSome (Taken i (takers [] es (begin others n)))) run
        (steps-Taken i es [] (begin others n) (begin-Taken i others n))

  -- However a connect and the accepts that present its id interleave, none of the four channels of the pending
  -- rendezvous is closed twice, which would be a panic, and at most one accept is ever paired.
  pub steps_no_panic :
      (r.pending.ready ≤ 1)
      × (r.pending.paired ≤ 1)
      × (r.pending.bridge_done ≤ 1)
      × (r.pending.sender_took ≤ 1)
  steps_no_panic =
      let c = reached-Counts in
      ground (arith, c.ready_once, c.paired_once, c.done_once, c.took_once)

  -- When the connect has returned, on whichever path, the slot it reserved is free again, the hub has no entry
  -- under its id, and the sender's connection is not open.
  pub steps-returned :
      r.connect ≡ returned → (r.slots ≡ r.others) × (r.waiting ≡ false) × (r.sender_ws ≢ open_ws)
  steps-returned done =
      let c = reached-Counts in
      ground (arith, done, c.slots_held, c.returned_done, c.entry_removed, c.sender_closed)

  -- When the connect and an accept have returned, the accept's connection is not open: whoever of the two owned
  -- it has closed it, also when the sender gave up in the moment of the claim.
  pub steps-left :
      (i : ℕ) (a : Accept)
      → get_at i r.accepts ≡ some a
      → r.connect ≡ returned
      → a.at ≡ left
      → a.ws ≢ open_ws
  steps-left i a there done gone =
      let c = reached-Counts in
      let o = Follows-Owned i a r there (reached-Follows i) in
      ground (arith, done, gone, c.returned_done, o.kept, o.taken)

  -- A connect that bridges has told its sender 101 and nothing else, and the connection it bridges to is that of
  -- an accept that told its listener 101, and that is the one accept of the whole run that found the entry in the hub.
  pub steps-bridging :
      (i : ℕ) (a : Accept)
      → get_at i r.accepts ≡ some a
      → r.connect ≡ bridging i
      → (r.answers ≡ 101 ∷ [])
        × (a.answers ≡ 101 ∷ [])
        × (r.pending.listener_ws ≡ some i)
        × (r.pending.paired ≤ 1)
        × (takers [] es (begin others n) ≡ i ∷ [])
  steps-bridging i a there here =
      let c = reached-Counts in
      let o = Follows-Owned i a r there (reached-Follows i) in
      let claimed : r.pending.listener_ws ≡ some i = ground (arith, here, c.bridged) in
      let once : r.pending.paired ≤ 1 = ground (arith, c.paired_once) in
      (
        ground (arith, here, c.bridged),
        ground (arith, claimed, o.upgraded_first, ==_iff i i),
        claimed,
        once,
        only_taker i (takers [] es (begin others n)) r (reached-Taken i) claimed once,
      )
