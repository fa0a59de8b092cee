-- ===== src/Relay/Waiters.antt =====
-- internal/relay/auth.go: the callers of `EntraTokenProvider` that wait for the refresh of another.
use aztunnel.Common.{
  suc, get_at, total, total-set_at, total-append, ℕ, Bool, true, false, Option, none, some, List,
  [], ◌∷◌, ◌≡◌, refl, ◌≢◌, ◌⊎◌, inl, inr, arith, Option-cases, Bool-cases, ◌==◌, ==_iff,
}
use aztunnel.Common.Text.{codes}
use aztunnel.GoError.{wrap, text}
use aztunnel.Relay.Token.{
  AccessToken, Fetched, fetched, failed, panicked, Caller, at_top, waiting, fetching, got_token,
  got_error, unwound, Provider, Event, arrive, look, wake, give_up, fetch_done, is_closed, step,
  run, new_provider,
}
use aztunnel.Relay.SingleFlight.{Caller-cases, Fetching-cases}

abbrev bit : Bool → ℕ
bit true = 1
bit false = 0

-- Whether a caller is in the credential with the channel, or waits for it.
abbrev flies : ℕ → Caller → ℕ
flies ch (fetching c) = bit (c == ch)
flies ch _ = 0

abbrev waits : ℕ → Caller → ℕ
waits ch (waiting c) = bit (c == ch)
waits ch _ = 0

abbrev marked : ℕ → Option ℕ → ℕ
marked ch none = 0
marked ch (some c) = bit (c == ch)

-- The channel in the field is that of the one caller in the credential.
abbrev Flying : ℕ → Provider → Type 0
Flying ch p = total (flies ch) p.callers ≡ marked ch p.refreshing

-- A channel that somebody waits for is closed, or it is the one in the field.
abbrev Awaited : ℕ → Provider → Type 0
Awaited ch p =
    (is_closed ch p ≡ true) ⊎ (marked ch p.refreshing ≡ 1) ⊎ (total (waits ch) p.callers ≡ 0)

record Waiters (p : Provider) : Type 0 where
  pub flying : (ch : ℕ) → Flying ch p
  pub awaited : (ch : ℕ) → Awaited ch p

-- The channel of a caller in the credential is the one in the field.
refreshing_is :
    (p : Provider) (i c : ℕ)
    → get_at i p.callers ≡ some (fetching c)
    → Flying c p
    → p.refreshing ≡ some c
refreshing_is p i c w v = elim (Option-cases p.refreshing) [
  | inl idle ↦ absurd (
      ground (arith, idle, v, ==_iff c c, total-set_at (flies c) i (fetching c) at_top p.callers w))
  | inr (d, busy) ↦ ground (
    arith,
    busy,
    v,
    ==_iff c c,
    ==_iff d c,
    total-set_at (flies c) i (fetching c) at_top p.callers w,
  )
]

ended-Flying :
    (r : Fetched) (p : Provider) (i c ch : ℕ)
    → get_at i p.callers ≡ some (fetching c)
    → p.refreshing ≡ some c
    → Flying ch p
    → Flying ch (step p (fetch_done i r))
unfolding step
ended-Flying (fetched tk) p i c ch w busy v =
    ground
      (arith, w, busy, v, total-set_at (flies ch) i (fetching c) (got_token tk.token) p.callers)
ended-Flying (failed e) p i c ch w busy v = ground (
  arith,
  w,
  busy,
  v,
  total-set_at (flies ch) i (fetching c) (got_error (wrap (text (codes "acquire Entra token")) e))
      p.callers,
)
ended-Flying panicked p i c ch w busy v =
    ground (arith, w, busy, v, total-set_at (flies ch) i (fetching c) unwound p.callers)

step-Flying : (p : Provider) (ev : Event) (ch : ℕ) → ((c : ℕ) → Flying c p) → Flying ch (step p ev)
unfolding step
step-Flying p arrive ch v = ground (arith, v ch, total-append (flies ch) p.callers (at_top ∷ []))
step-Flying p (look i now) ch v = elim (Option-cases p.refreshing) [
  | inl idle ↦ ground (
    arith,
    v ch,
    total-set_at (flies ch) i at_top (got_token p.cached.token) p.callers,
    total-set_at (flies ch) i at_top (fetching p.made) p.callers,
  )
  | inr (c, busy) ↦ ground (
    arith,
    v ch,
    total-set_at (flies ch) i at_top (got_token p.cached.token) p.callers,
    total-set_at (flies ch) i at_top (waiting c) p.callers,
  )
]
step-Flying p (wake i) ch v = elim (Caller-cases (get_at i p.callers)) [
  | inl other ↦ ground (arith, other, v ch)
  | inr (c, w) ↦ ground (arith, w, v ch, total-set_at (flies ch) i (waiting c) at_top p.callers)
]
step-Flying p (give_up i e) ch v = elim (Caller-cases (get_at i p.callers)) [
  | inl other ↦ ground (arith, other, v ch)
  | inr (c, w) ↦
      ground (arith, w, v ch, total-set_at (flies ch) i (waiting c) (got_error e) p.callers)
]
step-Flying p (fetch_done i r) ch v = elim (Fetching-cases (get_at i p.callers)) [
  | inl other ↦ ground (arith, other, v ch)
  | inr (c, w) ↦ ended-Flying r p i c ch w (refreshing_is p i c w (v c)) (v ch)
]

-- The end of a fetch: its channel is closed, and the cache changes only with success.
pub fetch_done_lem :
    (p : Provider) (i ch : ℕ) (r : Fetched)
    → get_at i p.callers ≡ some (fetching ch)
    → let q = step p (fetch_done i r) in
      (is_closed ch q ≡ true)
      × ((q.cached ≡ p.cached) ⊎ ((tk : AccessToken) × (r ≡ fetched tk) × (q.cached ≡ tk)))
unfolding step
fetch_done_lem p i ch (fetched tk) h =
    (ground (arith, h, ==_iff ch ch), inr (tk, refl, ground arith))
fetch_done_lem p i ch (failed e) h = (ground (arith, h, ==_iff ch ch), inl (ground arith))
fetch_done_lem p i ch panicked h = (ground (arith, h, ==_iff ch ch), inl (ground arith))

ended-Awaited :
    (r : Fetched) (p : Provider) (i c ch : ℕ)
    → get_at i p.callers ≡ some (fetching c)
    → p.refreshing ≡ some c
    → Awaited ch p
    → Awaited ch (step p (fetch_done i r))
unfolding step
ended-Awaited (fetched tk) p i c ch w busy v =
    ground
      (arith, w, busy, v, total-set_at (waits ch) i (fetching c) (got_token tk.token) p.callers)
ended-Awaited (failed e) p i c ch w busy v = ground (
  arith,
  w,
  busy,
  v,
  total-set_at (waits ch) i (fetching c) (got_error (wrap (text (codes "acquire Entra token")) e))
      p.callers,
)
ended-Awaited panicked p i c ch w busy v =
    ground (arith, w, busy, v, total-set_at (waits ch) i (fetching c) unwound p.callers)

step-Awaited : (p : Provider) (ev : Event) (ch : ℕ) → Waiters p → Awaited ch (step p ev)
unfolding step
step-Awaited p arrive ch v =
    ground (arith, v.awaited ch, total-append (waits ch) p.callers (at_top ∷ []))
step-Awaited p (look i now) ch v = elim (Option-cases p.refreshing) [
  | inl idle ↦ ground (
    arith,
    v.awaited ch,
    total-set_at (waits ch) i at_top (got_token p.cached.token) p.callers,
    total-set_at (waits ch) i at_top (fetching p.made) p.callers,
  )
  | inr (c, busy) ↦ ground (
    arith,
    v.awaited ch,
    total-set_at (waits ch) i at_top (got_token p.cached.token) p.callers,
    total-set_at (waits ch) i at_top (waiting c) p.callers,
  )
]
step-Awaited p (wake i) ch v = elim (Caller-cases (get_at i p.callers)) [
  | inl other ↦ ground (arith, other, v.awaited ch)
  | inr (c, w) ↦
      ground (arith, w, v.awaited ch, total-set_at (waits ch) i (waiting c) at_top p.callers)
]
step-Awaited p (give_up i e) ch v = elim (Caller-cases (get_at i p.callers)) [
  | inl other ↦ ground (arith, other, v.awaited ch)
  | inr (c, w) ↦
      ground (arith, w, v.awaited ch, total-set_at (waits ch) i (waiting c) (got_error e) p.callers)
]
step-Awaited p (fetch_done i r) ch v = elim (Fetching-cases (get_at i p.callers)) [
  | inl other ↦ ground (arith, other, v.awaited ch)
  | inr (c, w) ↦ ended-Awaited r p i c ch w (refreshing_is p i c w (v.flying c)) (v.awaited ch)
]

run-Waiters : (p : Provider) (evs : List Event) → Waiters p → Waiters (run p evs)
unfolding run
run-Waiters p [] v = v
run-Waiters p (ev ∷ evs) v =
    run-Waiters (step p ev) evs (record {
      flying = λ ch. step-Flying p ev ch v.flying;
      awaited = λ ch. step-Awaited p ev ch v;
    })

new_provider-Waiters : Waiters new_provider
unfolding new_provider
new_provider-Waiters = record { flying = λ ch. refl; awaited = λ ch. inr (inr refl) }

-- A caller that the count counts.
flying_caller :
    (ch : ℕ) (cs : List Caller)
    → total (flies ch) cs ≢ 0
    → (i : ℕ) × (get_at i cs ≡ some (fetching ch))
flying_caller ch [] h = absurd (h refl)
flying_caller ch (fetching c ∷ cs) h = elim (Bool-cases (c == ch)) [
  | inl same ↦ (0, ground (arith, ==_iff c ch, same))
  | inr other ↦ let (i, e) = flying_caller ch cs (ground (arith, h, other)) in (suc i, e)
]
flying_caller ch (at_top ∷ cs) h =
    let (i, e) = flying_caller ch cs (ground (arith, h)) in (suc i, e)
flying_caller ch (waiting c ∷ cs) h =
    let (i, e) = flying_caller ch cs (ground (arith, h)) in (suc i, e)
flying_caller ch (got_token t ∷ cs) h =
    let (i, e) = flying_caller ch cs (ground (arith, h)) in (suc i, e)
flying_caller ch (got_error e' ∷ cs) h =
    let (i, e) = flying_caller ch cs (ground (arith, h)) in (suc i, e)
flying_caller ch (unwound ∷ cs) h =
    let (i, e) = flying_caller ch cs (ground (arith, h)) in (suc i, e)

-- No caller is left waiting for a refresh that nobody runs: the channel that a waiting caller selects on has been
-- closed, or some caller is in the credential with that channel, and however that ends, with a token, an error or a
-- panic, the channel is closed then.
pub waiters_wake :
    (evs : List Event) (i ch : ℕ)
    → get_at i (run new_provider evs).callers ≡ some (waiting ch)
    → (is_closed ch (run new_provider evs) ≡ true)
      ⊎ ((j : ℕ) × (get_at j (run new_provider evs).callers ≡ some (fetching ch))
          × ((r : Fetched) → is_closed ch (step (run new_provider evs) (fetch_done j r)) ≡ true))
waiters_wake evs i ch w =
    let p = run new_provider evs in
    let v = run-Waiters new_provider evs new_provider-Waiters in
    let counted = total-set_at (waits ch) i (waiting ch) at_top p.callers w in
    elim (Bool-cases (is_closed ch p)) [
      | inl closed ↦ inl closed
      | inr open_still ↦
          let (j, h) =
            flying_caller ch p.callers
              (ground (arith, v.flying ch, v.awaited ch, open_still, counted, ==_iff ch ch)) in
          inr (j, h, λ r. (fetch_done_lem p j ch r h).0)
    ]
