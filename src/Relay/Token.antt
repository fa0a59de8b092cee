-- ===== src/Relay/Token.antt =====
-- internal/relay/auth.go: `EntraTokenProvider.GetToken`, `refreshOnce` and `tokenFresh`. The callers
-- share the cache and the refresh in flight; a schedule is a list of events. The credential of
-- azcore is not part of the repository: what it answers is in the event.
use aztunnel.Common.{
  get_at, set_at, ℕ, suc, ◌+◌, ◌*◌, Bool, false, Option, none, some, List, [], ◌∷◌, ◌++◌, ◌==◌,
  ◌||◌, ltb, if◌then◌else◌,
}
use aztunnel.Common.Text.{Bytes, codes, bytes_eq}
use aztunnel.GoError.{Err, wrap, text}

-- `entraRefreshSkew`, in nanoseconds.
abbrev pub entra_refresh_skew : ℕ
entra_refresh_skew = 5 * 60 * 1000000000

-- `azcore.AccessToken`, its times in nanoseconds; a zero `RefreshOn` is `none`.
pub record AccessToken : Type 0 where
  pub token : Bytes
  pub expires_on : ℕ
  pub refresh_on : Option ℕ

-- `tokenFresh`, at a time.
unfoldable pub token_fresh : ℕ → AccessToken → Bool
token_fresh now tk = if bytes_eq tk.token [] then false else elim tk.refresh_on [
  | some t ↦ ltb now t
  | none ↦ ltb (now + entra_refresh_skew) tk.expires_on
]

-- What `GetToken` of the credential does.
pub data Fetched : Type 0 where
  fetched : AccessToken → Fetched
  failed : Err → Fetched
  panicked : Fetched

-- A call of `GetToken`: at the top of the loop, at the `select` on the channel with that number, in
-- the credential with the channel that it made, or over: returned, or left by a panic.
pub data Caller : Type 0 where
  at_top : Caller
  waiting : ℕ → Caller
  fetching : ℕ → Caller
  got_token : Bytes → Caller
  got_error : Err → Caller
  unwound : Caller

-- `EntraTokenProvider`, and its callers. The channels are numbered as they are made; `refreshing` is
-- the one in the field, `closed` are those on which `close` was called.
pub record Provider : Type 0 where
  pub cached : AccessToken
  pub refreshing : Option ℕ
  pub made : ℕ
  pub closed : List ℕ
  pub callers : List Caller

-- What happens next, to the caller at an index.
--   arrive: a further call of `GetToken`;
--   look: it takes the mutex at the top of the loop, at a time;
--   wake: its channel is closed;
--   give_up: its context ends first;
--   fetch_done: the credential is done, and the deferred function of `refreshOnce` runs.
pub data Event : Type 0 where
  arrive : Event
  look : ℕ → ℕ → Event
  wake : ℕ → Event
  give_up : ℕ → Err → Event
  fetch_done : ℕ → Fetched → Event

abbrev goes : ℕ → Caller → Provider → Provider
goes i c p = record p { callers = set_at i c p.callers }

-- The section under the mutex.
abbrev looked : ℕ → ℕ → Provider → Provider
looked i now p =
    if token_fresh now p.cached then goes i (got_token p.cached.token) p else elim p.refreshing [
      | some ch ↦ goes i (waiting ch) p
      | none ↦ goes i (fetching p.made) (record p { refreshing = some p.made; made = suc p.made })
    ]

-- Whether `close` was called on a channel.
abbrev pub closed_in : ℕ → List ℕ → Bool
closed_in ch [] = false
closed_in ch (c ∷ cs) = c == ch || closed_in ch cs

abbrev pub is_closed : ℕ → Provider → Bool
is_closed ch p = closed_in ch p.closed

-- `close(ch)`
abbrev close_channel : ℕ → Provider → Provider
close_channel ch p = record p { closed = ch ∷ p.closed }

-- The deferred function of `refreshOnce` and the return behind it.
abbrev ended : ℕ → ℕ → Fetched → Provider → Provider
ended i ch (fetched tk) p =
    goes i (got_token tk.token) (close_channel ch (record p { cached = tk; refreshing = none }))
ended i ch (failed e) p =
    goes i (got_error (wrap (text (codes "acquire Entra token")) e))
      (close_channel ch (record p { refreshing = none }))
ended i ch panicked p = goes i unwound (close_channel ch (record p { refreshing = none }))

abbrev look_as : Option Caller → ℕ → ℕ → Provider → Provider
look_as (some at_top) i now p = looked i now p
look_as _ i now p = p

abbrev wake_as : Option Caller → ℕ → Provider → Provider
wake_as (some (waiting ch)) i p = if is_closed ch p then goes i at_top p else p
wake_as _ i p = p

abbrev give_up_as : Option Caller → ℕ → Err → Provider → Provider
give_up_as (some (waiting ch)) i e p = goes i (got_error e) p
give_up_as _ i e p = p

abbrev fetch_done_as : Option Caller → ℕ → Fetched → Provider → Provider
fetch_done_as (some (fetching ch)) i r p = ended i ch r p
fetch_done_as _ i r p = p

unfoldable pub step : Provider → Event → Provider
unfolding token_fresh
step p arrive = record p { callers = p.callers ++ (at_top ∷ []) }
step p (look i now) = look_as (get_at i p.callers) i now p
step p (wake i) = wake_as (get_at i p.callers) i p
step p (give_up i e) = give_up_as (get_at i p.callers) i e p
step p (fetch_done i r) = fetch_done_as (get_at i p.callers) i r p

unfoldable pub run : Provider → List Event → Provider
unfolding step
run p [] = p
run p (ev ∷ evs) = run (step p ev) evs

-- `NewEntraTokenProviderWithCredential`
unfoldable pub new_provider : Provider
new_provider = record {
  cached = record { token = []; expires_on = 0; refresh_on = none };
  refreshing = none;
  made = 0;
  closed = [];
  callers = [];
}
