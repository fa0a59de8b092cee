-- ===== src/Relay/SingleFlight.antt =====
-- What holds of `EntraTokenProvider` of internal/relay/auth.go under every schedule of its callers.
use aztunnel.Common.{
  get_at, get_at-set_at, total, total-set_at, ℕ, ◌≤◌, Bool, true, false, Option, none, some, List,
  [], ◌∷◌, ◌++◌, ◌≡◌, refl, ◌≢◌, ◌⊎◌, inl, inr, arith, Option-cases, Bool-cases,
}
use aztunnel.Common.Text.{Bytes, codes, bytes_eq_refl}
use aztunnel.GoError.{wrap, text}
use aztunnel.Relay.Token.{
  token_fresh, Fetched, fetched, failed, panicked, Caller, at_top, waiting, fetching, got_token,
  got_error, unwound, Provider, Event, arrive, look, wake, give_up, fetch_done, step, run,
  new_provider,
}

-- The callers in the credential, counted.
abbrev weight : Caller → ℕ
weight (fetching ch) = 1
weight _ = 0

abbrev pub count_fetching : List Caller → ℕ
count_fetching cs = total weight cs

abbrev pub in_flight : Option ℕ → ℕ
in_flight none = 0
in_flight (some ch) = 1

count_fetching-arrive :
    (cs : List Caller) → count_fetching (cs ++ (at_top ∷ [])) ≡ count_fetching cs
count_fetching-arrive [] = refl
count_fetching-arrive (c ∷ cs) = ground (arith, count_fetching-arrive cs)

abbrev pub is_waiting : Option Caller → Bool
is_waiting (some (waiting ch)) = true
is_waiting _ = false

pub Caller-cases :
    (o : Option Caller) → (is_waiting o ≡ false) ⊎ ((ch : ℕ) × (o ≡ some (waiting ch)))
Caller-cases (some (waiting ch)) = inr (ch, refl)
Caller-cases (some at_top) = inl refl
Caller-cases (some (fetching ch)) = inl refl
Caller-cases (some (got_token t)) = inl refl
Caller-cases (some (got_error e)) = inl refl
Caller-cases (some unwound) = inl refl
Caller-cases none = inl refl

abbrev pub is_fetching : Option Caller → Bool
is_fetching (some (fetching ch)) = true
is_fetching _ = false

pub Fetching-cases :
    (o : Option Caller) → (is_fetching o ≡ false) ⊎ ((ch : ℕ) × (o ≡ some (fetching ch)))
Fetching-cases (some (fetching ch)) = inr (ch, refl)
Fetching-cases (some at_top) = inl refl
Fetching-cases (some (waiting ch)) = inl refl
Fetching-cases (some (got_token t)) = inl refl
Fetching-cases (some (got_error e)) = inl refl
Fetching-cases (some unwound) = inl refl
Fetching-cases none = inl refl

abbrev pub Single : Provider → Type 0
Single p = count_fetching p.callers ≡ in_flight p.refreshing

ended-Single :
    (r : Fetched) (p : Provider) (i ch : ℕ)
    → get_at i p.callers ≡ some (fetching ch)
    → Single p
    → Single (step p (fetch_done i r))
unfolding step
ended-Single (fetched tk) p i ch w v =
    ground (arith, w, v, total-set_at weight i (fetching ch) (got_token tk.token) p.callers)
ended-Single (failed e) p i ch w v = ground (
  arith,
  w,
  v,
  total-set_at weight i (fetching ch) (got_error (wrap (text (codes "acquire Entra token")) e))
      p.callers,
)
ended-Single panicked p i ch w v =
    ground (arith, w, v, total-set_at weight i (fetching ch) unwound p.callers)

step-Single : (p : Provider) (ev : Event) → Single p → Single (step p ev)
unfolding step
step-Single p arrive v = ground (arith, count_fetching-arrive p.callers)
step-Single p (look i now) v = elim (Option-cases p.refreshing) [
  | inl idle ↦ ground (
    arith,
    total-set_at weight i at_top (got_token p.cached.token) p.callers,
    total-set_at weight i at_top (fetching p.made) p.callers,
  )
  | inr (ch, busy) ↦ ground (
    arith,
    total-set_at weight i at_top (got_token p.cached.token) p.callers,
    total-set_at weight i at_top (waiting ch) p.callers,
  )
]
step-Single p (wake i) v = elim (Caller-cases (get_at i p.callers)) [
  | inl other ↦ ground (arith, other)
  | inr (ch, w) ↦ ground (arith, w, total-set_at weight i (waiting ch) at_top p.callers)
]
step-Single p (give_up i e) v = elim (Caller-cases (get_at i p.callers)) [
  | inl other ↦ ground (arith, other)
  | inr (ch, w) ↦ ground (arith, w, total-set_at weight i (waiting ch) (got_error e) p.callers)
]
step-Single p (fetch_done i r) v = elim (Fetching-cases (get_at i p.callers)) [
  | inl other ↦ ground (arith, other)
  | inr (ch, w) ↦ ended-Single r p i ch w v
]

run-Single : (p : Provider) (evs : List Event) → Single p → Single (run p evs)
unfolding run
run-Single p [] v = v
run-Single p (ev ∷ evs) v = run-Single (step p ev) evs (step-Single p ev v)

new_provider-Single : Single new_provider
unfolding new_provider
new_provider-Single = refl

-- However many callers there are, at most one of them is in the credential at any time: one while a
-- refresh is marked as in flight, and none otherwise.
pub single_flight :
    (evs : List Event)
    → let p = run new_provider evs in
      (count_fetching p.callers ≡ in_flight p.refreshing) × (count_fetching p.callers ≤ 1)
single_flight evs =
    let v = run-Single new_provider evs new_provider-Single in (v, ground (arith, v))

-- A caller that looks at the cache is handed a token only if it is fresh at that time.
pub look-token_fresh :
    (p : Provider) (i now : ℕ) (tk : Bytes)
    → get_at i p.callers ≡ some at_top
    → get_at i (step p (look i now)).callers ≡ some (got_token tk)
    → (token_fresh now p.cached ≡ true) × (tk ≡ p.cached.token) × (tk ≢ [])
unfolding step token_fresh
look-token_fresh p i now tk h served =
    let is_token = get_at-set_at i at_top (got_token p.cached.token) p.callers h in
    let is_fetching = get_at-set_at i at_top (fetching p.made) p.callers h in
    elim (Bool-cases (token_fresh now p.cached)) [
      | inl fresh ↦ (fresh, ground (arith, is_token), ground (arith, is_token, bytes_eq_refl tk))
      | inr stale ↦ elim (Option-cases p.refreshing) [
        | inl idle ↦ absurd (ground (arith, is_fetching, stale))
        | inr (ch, busy) ↦
            absurd (ground (arith, stale, get_at-set_at i at_top (waiting ch) p.callers h))
      ]
    ]
