-- ===== src/MockRelay/Unstuck.antt =====
-- mockrelay/server/rendezvous.go: no handler of a rendezvous is stuck.
use aztunnel.Common.{
  ℕ, zero, suc, ◌+◌, ◌*◌, ◌≤◌, ◌≡◌, refl, Bool, true, false, Option, none, some, List, [], ◌∷◌,
  arith, total, get_at, ◌⊎◌, inl, inr, subst, ap, ◌∙◌, All,
}
use aztunnel.MockRelay.Rendezvous.{
  claim, abort, Deferred, signal_done, remove_entry, release_slot, close_listener, run_deferred,
  ConnectAt, entering, authorizing, checking, reserving, minting, matching, looking_up, writing,
  awaiting_paired, responding, upgrading, awaiting_ready, bridging, refusing, unwinding, returned,
  AcceptAt, arriving, unknown_id, answering, accepting, closing, holding, left, Accept, Rendezvous,
  ConnectEvent, go, gone, deadline, yes, no, reserve, found, connect_step, AcceptEvent, slept,
  cancelled, failed, over, after_upgrade, accept_step, Event, sender, listener, other_reserves,
  other_releases, step, steps, put_back, handle,
}
use aztunnel.MockRelay.Pairing.{bit, signals, Counts, OnSome, OnShared, steps_keep, step-Counts}
use aztunnel.MockRelay.Ownership.{Follows-Owned}
use aztunnel.MockRelay.Taking.{takers, claimed_paired}
use aztunnel.MockRelay.Handover.{begin, begin-Counts, reached-Follows, reached-Taken}
use aztunnel.MockRelay.Endings.{work, all_listeners, steps-work}

abbrev is_blank : ConnectAt → ℕ
is_blank (writing zero) = 1
is_blank _ = 0

-- Whoever found the entry will be told the end of the bridge, or has been told; and a connect that writes has
-- somebody to write to.
record Signalled (r : Rendezvous) : Type 0 where
  pub told : bit r.waiting + r.pending.paired ≤ total signals r.deferred + r.pending.bridge_done
  pub writes : is_blank r.connect ≡ 0

List-cases :
    (ds : List Deferred) → (ds ≡ []) ⊎ ((d : Deferred) × (ds' : List Deferred) × (ds ≡ d ∷ ds'))
List-cases [] = inl refl
List-cases (d ∷ ds) = inr (d, ds, refl)

run_deferred-Signalled :
    (d : Deferred) (ds : List Deferred) (r : Rendezvous)
    → r.deferred ≡ d ∷ ds
    → Signalled r
    → Signalled (run_deferred d (record r { deferred = ds }))
unfolding run_deferred
run_deferred-Signalled (close_listener i) ds r due s = ground (arith, due, s.told, s.writes)
run_deferred-Signalled signal_done ds r due s = ground (arith, due, s.told, s.writes)
run_deferred-Signalled remove_entry ds r due s = ground (arith, due, s.told, s.writes)
run_deferred-Signalled release_slot ds r due s = ground (arith, due, s.told, s.writes)

connect_step-Signalled :
    (e : ConnectEvent) (at : ConnectAt) (r : Rendezvous)
    → r.connect ≡ at
    → Counts r
    → Signalled r
    → OnSome Signalled (connect_step e at r)
unfolding connect_step
connect_step-Signalled go unwinding r here c s = elim (List-cases r.deferred) [
  | inl empty ↦ ground (arith, empty, s.told, s.writes)
  | inr (d, ds, due) ↦ rw (due) (run_deferred-Signalled d ds r due s)
]
connect_step-Signalled e at r here c s = ground (arith, here, c.paired_once, s.told, s.writes)

accept_step-Signalled :
    (e : AcceptEvent) (i : ℕ) (at : AcceptAt) (a : Accept) (r : Rendezvous)
    → Signalled r
    → OnShared (λ b. Signalled) (accept_step e i at a r)
unfolding accept_step after_upgrade claim abort
accept_step-Signalled e i at a r s = ground (arith, s.told, s.writes)

put_back-Signalled :
    (i : ℕ) (o : Option (Accept × Rendezvous))
    → OnShared (λ b. Signalled) o
    → OnSome Signalled (put_back i o)
put_back-Signalled i none s = tt
put_back-Signalled i (some (b, r)) s = record { told = s.told; writes = s.writes }

handle-Signalled :
    (e : AcceptEvent) (i : ℕ) (o : Option Accept) (r : Rendezvous)
    → Signalled r
    → OnSome Signalled (handle e i o r)
handle-Signalled e i none r s = tt
handle-Signalled e i (some a) r s =
    put_back-Signalled i (accept_step e i a.at a r) (accept_step-Signalled e i a.at a r s)

step-Signalled : (e : Event) (r : Rendezvous) → Counts r → Signalled r → OnSome Signalled (step e r)
unfolding step
step-Signalled (sender e) r c s = connect_step-Signalled e r.connect r refl c s
step-Signalled (listener i e) r c s = handle-Signalled e i (get_at i r.accepts) r s
step-Signalled (other_reserves max) r c s = ground (arith, s.told, s.writes)
step-Signalled other_releases r c s = ground (arith, s.told, s.writes)

abbrev is_some : Option Rendezvous → Bool
is_some none = false
is_some (some r) = true

-- Not the end of a request's context.
abbrev pub is_patient : Event → Bool
is_patient (sender gone) = false
is_patient (listener i cancelled) = false
is_patient e = true

some_of : (o : Option Rendezvous) → is_some o ≡ true → (r : Rendezvous) × (o ≡ some r)
some_of none h = absurd (ground (arith, h))
some_of (some r) h = (r, refl)

go_unwinding : (r : Rendezvous) → is_some (connect_step go unwinding r) ≡ true
unfolding connect_step
go_unwinding r = elim (List-cases r.deferred) [
  | inl empty ↦ ground (arith, empty)
  | inr (d, ds, due) ↦ rw (due) refl
]

connect_goes :
    (at : ConnectAt) (r : Rendezvous)
    → is_blank at ≡ 0
    → (at ≡ returned)
      ⊎ ((e : ConnectEvent) × (is_some (connect_step e at r) ≡ true)
          × (is_patient (sender e) ≡ true)
          × (all_listeners (sender e ∷ []) ≡ 0))
unfolding connect_step all_listeners
connect_goes entering r full = inr (go, refl, refl, refl)
connect_goes authorizing r full = inr (go, refl, refl, refl)
connect_goes checking r full = inr (no, refl, refl, refl)
connect_goes reserving r full = inr (reserve 0, refl, refl, refl)
connect_goes minting r full = inr (no, refl, refl, refl)
connect_goes matching r full = inr (go, refl, refl, refl)
connect_goes looking_up r full = inr (found 0, refl, refl, refl)
connect_goes (writing zero) r full = absurd (ground (arith, full))
connect_goes (writing (suc n)) r full = inr (yes, refl, refl, refl)
connect_goes awaiting_paired r full = inr (deadline, refl, refl, refl)
connect_goes responding r full = inr (deadline, refl, refl, refl)
connect_goes upgrading r full = inr (no, refl, refl, refl)
connect_goes awaiting_ready r full = inr (deadline, refl, refl, refl)
connect_goes (bridging i) r full = inr (go, refl, refl, refl)
connect_goes (refusing status) r full = inr (go, refl, refl, refl)
connect_goes unwinding r full = inr (go, go_unwinding r, refl, refl)
connect_goes returned r full = inl refl

abbrev is_held : AcceptAt → ℕ
is_held holding = 1
is_held _ = 0

abbrev is_over : AcceptAt → Bool
is_over left = true
is_over _ = false

over_cases : (at : AcceptAt) → (at ≡ left) ⊎ (is_over at ≡ false)
over_cases arriving = inr refl
over_cases unknown_id = inr refl
over_cases answering = inr refl
over_cases accepting = inr refl
over_cases closing = inr refl
over_cases holding = inr refl
over_cases left = inl refl

abbrev pub HasLeft : Accept → Type 0
HasLeft a = a.at ≡ left

-- All accepts have left, or one has not.
first_busy :
    (xs : List Accept)
    → All HasLeft xs ⊎ ((i : ℕ) × (a : Accept) × (get_at i xs ≡ some a) × (is_over a.at ≡ false))
first_busy [] = inl tt
first_busy (a ∷ xs) = elim (over_cases a.at) [
  | inr busy ↦ inr (0, a, refl, busy)
  | inl gone_now ↦ elim (first_busy xs) [
    | inl rest ↦ inl (gone_now, rest)
    | inr (i, b, there, busy) ↦ inr (suc i, b, there, busy)
  ]
]

accept_goes :
    (i : ℕ) (at : AcceptAt) (a : Accept) (r : Rendezvous)
    → is_over at ≡ false
    → is_held at ≤ r.pending.bridge_done
    → (e : AcceptEvent) × (is_some (put_back i (accept_step e i at a r)) ≡ true)
      × (is_patient (listener i e) ≡ true)
unfolding accept_step
accept_goes i arriving a r busy told = (slept, ground arith, refl)
accept_goes i unknown_id a r busy told = (slept, refl, refl)
accept_goes i answering a r busy told = (slept, refl, refl)
accept_goes i accepting a r busy told = (failed, refl, refl)
accept_goes i closing a r busy told = (over, refl, refl)
accept_goes i holding a r busy told = (over, ground (arith, told), refl)
accept_goes i left a r busy told = absurd (ground (arith, busy))

abbrev Kept : Rendezvous → Type 0
Kept r = Counts r × Signalled r

both : (o : Option Rendezvous) → OnSome Counts o → OnSome Signalled o → OnSome Kept o
both none c s = tt
both (some r) c s = (c, s)

begin-Signalled : (others n : ℕ) → Signalled (begin others n)
unfolding begin
begin-Signalled others n = ground arith

-- A step of a handler that waits for no caller to give up, and brings no further listener.
abbrev pub CanStep : Rendezvous → Type 0
CanStep r =
    (e : Event) × (r' : Rendezvous) × (step e r ≡ some r')
    × (is_patient e ≡ true)
    × (work (e ∷ []) ≡ 1)
    × (all_listeners (e ∷ []) ≡ 0)

connect-CanStep :
    (r : Rendezvous) (e : ConnectEvent)
    → is_some (connect_step e r.connect r) ≡ true
    → is_patient (sender e) ≡ true
    → all_listeners (sender e ∷ []) ≡ 0
    → CanStep r
unfolding step work
connect-CanStep r e goes patient none_more =
    let (r', moved) = some_of (connect_step e r.connect r) goes in
    (sender e, r', moved, patient, refl, none_more)

accept-CanStep :
    (r : Rendezvous) (i : ℕ) (a : Accept) (e : AcceptEvent)
    → get_at i r.accepts ≡ some a
    → is_some (put_back i (accept_step e i a.at a r)) ≡ true
    → is_patient (listener i e) ≡ true
    → CanStep r
unfolding step work all_listeners
accept-CanStep r i a e there goes patient =
    let (r', moved) = some_of (put_back i (accept_step e i a.at a r)) goes in
    (listener i e, r', ap (λ o. handle e i o r) there ∙ moved, patient, refl, refl)

-- The handlers of a rendezvous end. In any interleaving with `n` accepts, the connect and the accepts together take at
-- most 20 + 4 n steps, and one more for each listener of the snapshot; and as long as one of them has not returned, some
-- handler can take a step, for an answer or a timer that it waits for, or for what another handler has done, and not
-- for the end of a request's context, nor with a further listener.
pub steps-ends :
    (es : List Event) (others n : ℕ) (r : Rendezvous)
    → steps es (begin others n) ≡ some r
    → (work es ≤ 20 + 4 * n + all_listeners es)
      × (((r.connect ≡ returned) × All HasLeft r.accepts) ⊎ CanStep r)
steps-ends es others n r run =
    let keep : (e : Event) (r : Rendezvous) → Kept r → OnSome Kept (step e r) =
      λ e r (c, s). both (step e r) (step-Counts e r c) (step-Signalled e r c s) in
    let (c, s) = subst (OnSome Kept) run (
      steps_keep Kept keep es (begin others n) (begin-Counts others n, begin-Signalled others n)) in
    (
      steps-work es others n r run,
      elim (connect_goes r.connect r s.writes) [
        | inr (e, goes, patient, none_more) ↦ inr (connect-CanStep r e goes patient none_more)
        | inl done ↦ elim (first_busy r.accepts) [
          | inl all_left ↦ inl (done, all_left)
          | inr (i, a, there, busy) ↦
              let o = Follows-Owned i a r there (reached-Follows es others n r run i) in
              let paired =
                claimed_paired i (takers [] es (begin others n)) r
                  (reached-Taken es others n r run i) in
              let told : is_held a.at ≤ r.pending.bridge_done =
                ground (arith, done, c.returned_done, s.told, paired, o.held) in
              let (e, goes, patient) = accept_goes i a.at a r busy told in
              inr (accept-CanStep r i a e there goes patient)
        ]
      ],
    )
