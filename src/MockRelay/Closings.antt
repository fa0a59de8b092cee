-- ===== src/MockRelay/Closings.antt =====
-- mockrelay/server/bridge_ws.go: what `bridgeWS` returns and when, and what its two copies keep.
use aztunnel.Common.{
  ℕ, ◌+◌, ◌≡◌, refl, Bool, true, false, Option, none, some, List, [], ◌∷◌, ◌++◌, arith, length, ◌⊎◌,
  inl, inr, ap, ◌∙◌, ◌≤◌, if◌then◌else◌, Bool-cases, subst, sym, length-append,
}
use aztunnel.GoError.{Err}
use aztunnel.MockRelay.Delay.{DelayProfile}
use aztunnel.MockRelay.Pipeline.{fold_close_err}
use aztunnel.MockRelay.BridgeWs.{
  Waiter, for_first, closing_a, closing_b, for_second, returned, BridgeWs, start, BridgeEvent,
  in_ab, in_ba, ab_returns, ba_returns, context_ends, proceed, copy_returns, send_ab, send_ba,
  receive_first, receive_second, wait, bridge_step, bridge_ws,
}

abbrev pub one : Bool → ℕ
one true = 1
one false = 0

-- What was sent, by where `bridgeWS` stands; the first that was sent decides its result.
abbrev pub Sent : Waiter → BridgeWs → Type 0
Sent for_first b = b.sent ≡ b.errc
Sent (closing_a e) b = (b.sent ≡ e ∷ b.errc) × (b.live ≡ false)
Sent (closing_b e) b = (b.sent ≡ e ∷ b.errc) × (b.live ≡ false) × (b.a_closed ≡ true)
Sent (for_second e) b =
    (b.sent ≡ e ∷ b.errc) × (b.live ≡ false) × (b.a_closed ≡ true) × (b.b_closed ≡ true)
Sent (returned r) b =
    ((first : Err) × (second : Err) × (b.sent ≡ first ∷ second ∷ b.errc)
      × (r ≡ fold_close_err (some first)))
    × (b.live ≡ false)
    × (b.a_closed ≡ true)
    × (b.b_closed ≡ true)

-- Each copy sends once.
pub record Closing (b : BridgeWs) : Type 0 where
  pub stands : Sent b.waiter b
  pub counted : length b.sent ≡ one b.ab_sent + one b.ba_sent

receive_first-Closing :
    (es : List Err) (b : BridgeWs)
    → b.errc ≡ es
    → b.waiter ≡ for_first
    → Closing b
    → Closing (receive_first es b)
receive_first-Closing [] b front here c = c
receive_first-Closing (e ∷ es) b front here c =
    let sent = subst (λ w. Sent w b) here c.stands in
    record { stands = (sent ∙ front, refl); counted = c.counted }

receive_second-Closing :
    (e : Err) (es : List Err) (b : BridgeWs)
    → b.errc ≡ es
    → b.waiter ≡ for_second e
    → Closing b
    → Closing (receive_second e es b)
receive_second-Closing e [] b front here c = c
receive_second-Closing e (e' ∷ es) b front here c =
    let (sent, live, a, b_is) = subst (λ w. Sent w b) here c.stands in
    record {
      stands = ((e, e', sent ∙ ap (λ x. e ∷ x) front, refl), live, a, b_is);
      counted = c.counted;
    }

pub wait-Closing : (w : Waiter) (b : BridgeWs) → b.waiter ≡ w → Closing b → Closing (wait w b)
unfolding wait
wait-Closing for_first b here c = receive_first-Closing b.errc b refl here c
wait-Closing (closing_a e) b here c =
    let (sent, live) = subst (λ w. Sent w b) here c.stands in
    record { stands = (sent, live, refl); counted = c.counted }
wait-Closing (closing_b e) b here c =
    let (sent, live, a) = subst (λ w. Sent w b) here c.stands in
    record { stands = (sent, live, a, refl); counted = c.counted }
wait-Closing (for_second e) b here c = receive_second-Closing e b.errc b refl here c
wait-Closing (returned r) b here c = c

-- A further error on the channel.
send-Sent :
    (w : Waiter) (b b' : BridgeWs) (e : Err)
    → b'.sent ≡ b.sent ++ (e ∷ [])
    → b'.errc ≡ b.errc ++ (e ∷ [])
    → b'.live ≡ b.live
    → b'.a_closed ≡ b.a_closed
    → b'.b_closed ≡ b.b_closed
    → Sent w b
    → Sent w b'
send-Sent for_first b b' e s c l x y k = ground (arith, s, c, k)
send-Sent (closing_a f) b b' e s c l x y k = ground (arith, s, c, l, k)
send-Sent (closing_b f) b b' e s c l x y k = ground (arith, s, c, l, x, k)
send-Sent (for_second f) b b' e s c l x y k = ground (arith, s, c, l, x, y, k)
send-Sent (returned r) b b' e s c l x y ((first, second, k, r_is), live, a, b_is) = (
  (first, second, s ∙ ap (λ z. z ++ (e ∷ [])) k ∙ ap (λ z. first ∷ second ∷ z) (sym c), r_is),
  l ∙ live,
  x ∙ a,
  y ∙ b_is,
)

send_ab-Closing :
    (o : Option Err) (b : BridgeWs) → b.ab_sent ≡ false → Closing b → Closing (send_ab o b)
send_ab-Closing none b fresh c = c
send_ab-Closing (some e) b fresh c = record {
  stands = send-Sent b.waiter b (send_ab (some e) b) e refl refl refl refl refl c.stands;
  counted = ground (arith, fresh, c.counted, length-append b.sent (e ∷ []));
}

send_ba-Closing :
    (o : Option Err) (b : BridgeWs) → b.ba_sent ≡ false → Closing b → Closing (send_ba o b)
send_ba-Closing none b fresh c = c
send_ba-Closing (some e) b fresh c = record {
  stands = send-Sent b.waiter b (send_ba (some e) b) e refl refl refl refl refl c.stands;
  counted = ground (arith, fresh, c.counted, length-append b.sent (e ∷ []));
}

if-Closing :
    (t : Bool) (b b' : BridgeWs)
    → Closing b
    → (t ≡ false → Closing b')
    → Closing (if t then b else b')
if-Closing true b b' c other = c
if-Closing false b b' c other = other refl

-- Of the state, only these fields matter.
same-Closing :
    (w : Waiter) (b b' : BridgeWs)
    → b.waiter ≡ w
    → b'.waiter ≡ w
    → b'.sent ≡ b.sent
    → b'.errc ≡ b.errc
    → (b'.live ≡ b.live) ⊎ (b'.live ≡ false)
    → b'.a_closed ≡ b.a_closed
    → b'.b_closed ≡ b.b_closed
    → Sent w b
    → Sent w b'
same-Closing for_first b b' here here' s e l x y k = ground (arith, s, e, k)
same-Closing (closing_a f) b b' here here' s e l x y k = ground (arith, s, e, l, k)
same-Closing (closing_b f) b b' here here' s e l x y k = ground (arith, s, e, l, x, k)
same-Closing (for_second f) b b' here here' s e l x y k = ground (arith, s, e, l, x, y, k)
same-Closing (returned r) b b' here here' s e l x y ((first, second, k, r_is), live, a, b_is) = (
  (first, second, s ∙ k ∙ ap (λ z. first ∷ second ∷ z) (sym e), r_is),
  ground (arith, l, live),
  x ∙ a,
  y ∙ b_is,
)

pub bridge_step-Closing :
    (budget : ℕ) (d : DelayProfile ℕ) (e : BridgeEvent) (b : BridgeWs)
    → Closing b
    → Closing (bridge_step budget d e b)
unfolding bridge_step
bridge_step-Closing budget d (in_ab e) b c = record {
  stands =
      same-Closing b.waiter b (bridge_step budget d (in_ab e) b) refl refl refl refl (inl refl) refl
        refl c.stands;
  counted = c.counted;
}
bridge_step-Closing budget d (in_ba e) b c = record {
  stands =
      same-Closing b.waiter b (bridge_step budget d (in_ba e) b) refl refl refl refl (inl refl) refl
        refl c.stands;
  counted = c.counted;
}
bridge_step-Closing budget d (ab_returns timed_out) b c =
    let o = copy_returns b.live timed_out b.ab.reader b.ab.writer in
    if-Closing b.ab_sent b (send_ab o b) c (λ fresh. send_ab-Closing o b fresh c)
bridge_step-Closing budget d (ba_returns timed_out) b c =
    let o = copy_returns b.live timed_out b.ba.reader b.ba.writer in
    if-Closing b.ba_sent b (send_ba o b) c (λ fresh. send_ba-Closing o b fresh c)
bridge_step-Closing budget d context_ends b c = record {
  stands =
      same-Closing b.waiter b (bridge_step budget d context_ends b) refl refl refl refl (inr refl)
        refl refl c.stands;
  counted = c.counted;
}
bridge_step-Closing budget d proceed b c = wait-Closing b.waiter b refl c

pub bridge_ws-Closing :
    (budget : ℕ) (d : DelayProfile ℕ) (es : List BridgeEvent) (b : BridgeWs)
    → Closing b
    → Closing (bridge_ws budget d es b)
unfolding bridge_ws
bridge_ws-Closing budget d [] b c = c
bridge_ws-Closing budget d (e ∷ es) b c =
    bridge_ws-Closing budget d es (bridge_step budget d e b) (bridge_step-Closing budget d e b c)

two_sent :
    (b : BridgeWs) (first second : Err)
    → b.sent ≡ first ∷ second ∷ b.errc
    → length b.sent ≡ one b.ab_sent + one b.ba_sent
    → (b.ab_sent ≡ true) × (b.ba_sent ≡ true)
two_sent b first second k counted = elim (Bool-cases b.ab_sent) [
  | inl x ↦ elim (Bool-cases b.ba_sent) [
    | inl y ↦ (x, y)
    | inr y ↦ ground (arith, x, y, k, counted)
  ]
  | inr x ↦ elim (Bool-cases b.ba_sent) [
    | inl y ↦ ground (arith, x, y, k, counted)
    | inr y ↦ ground (arith, x, y, k, counted)
  ]
]

-- What `bridgeWS` returned: of the two errors that were sent, one by each copy, the first, folded.
pub record Returned (r : Option Err) (b : BridgeWs) : Type 0 where
  pub first : Err
  pub second : Err
  pub sent_both : b.sent ≡ first ∷ second ∷ []
  pub folded : r ≡ fold_close_err (some first)
  pub ended : (b.ab_sent ≡ true) × (b.ba_sent ≡ true)
  pub closed : (b.live ≡ false) × (b.a_closed ≡ true) × (b.b_closed ≡ true)

one_bound : (t : Bool) → one t ≤ 1
one_bound true = omega arith
one_bound false = omega arith

no_third :
    (b : BridgeWs) (first second : Err) (es : List Err)
    → b.sent ≡ first ∷ second ∷ es
    → length b.sent ≡ one b.ab_sent + one b.ba_sent
    → es ≡ []
no_third b first second [] k counted = refl
no_third b first second (e ∷ es) k counted =
    ground (arith, k, counted, one_bound b.ab_sent, one_bound b.ba_sent)

Closing-Returned :
    (b : BridgeWs) (r : Option Err) → b.waiter ≡ returned r → Closing b → Returned r b
Closing-Returned b r here c =
    let ((first, second, k, folded), live, a, b_is) = subst (λ w. Sent w b) here c.stands in
    record {
      first = first;
      second = second;
      sent_both = k ∙ ap (λ es. first ∷ second ∷ es) (no_third b first second b.errc k c.counted);
      folded = folded;
      ended = two_sent b first second k c.counted;
      closed = (live, a, b_is);
    }

-- When `bridgeWS` has returned, each copy has returned exactly one error, its result is the first of the two, a clean
-- close folded into none, and the context is canceled and both sockets are closed.
pub bridge_ws-Returned :
    (budget : ℕ) (d : DelayProfile ℕ) (es : List BridgeEvent) (r : Option Err)
    → (bridge_ws budget d es start).waiter ≡ returned r
    → Returned r (bridge_ws budget d es start)
bridge_ws-Returned budget d es r here =
    Closing-Returned (bridge_ws budget d es start) r here
      (bridge_ws-Closing budget d es start (record { stands = refl; counted = refl }))
