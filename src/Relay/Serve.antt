-- ===== src/Relay/Serve.antt =====
-- internal/relay/control.go: `ListenAndServe`, the loop around the control sessions. What becomes of
-- each session and of the delay behind it is a `Run`.
use aztunnel.Common.{
  ℕ, suc, ◌*◌, ◌^◌, min, Bool, true, false, ◌&&◌, Option, none, some, List, [], ◌∷◌, ◌++◌, ◌≡◌,
  refl, inl, inr, arith, ltb, if◌then◌else◌, All, Bool-cases,
}
use aztunnel.GoError.{Err}

abbrev pub second : ℕ
second = 1000000000

-- `reconnectMin`, `reconnectMax` and `reconnectReset`
abbrev pub reconnect_min : ℕ
reconnect_min = 1 * second

abbrev pub reconnect_max : ℕ
reconnect_max = 30 * second

abbrev pub reconnect_reset : ℕ
reconnect_reset = 2

-- One `runControlLoop`: whether it connected, how long it lasted, `ctx.Err()` behind it, and the
-- error of the context if it ends before the delay does.
pub record Run : Type 0 where
  pub connected : Bool
  pub lasted : ℕ
  pub ctx_err : Option Err
  pub delay_err : Option Err

-- Which of the optional callbacks are there.
pub record Callbacks : Type 0 where
  pub has_on_connect : Bool
  pub has_on_disconnect : Bool

pub data Call : Type 0 where
  on_connect on_disconnect : Call
  disconnected : ℕ → Call  -- the warning, with the delay
  slept : ℕ → Call

-- The calls, and the error returned, or none if the loop goes on.
pub record Serving : Type 0 where
  pub calls : List Call
  pub err : Option Err

abbrev before : List Call → Serving → Serving
before cs s = record { calls = cs ++ s.calls; err = s.err }

abbrev call_if : Bool → Call → List Call
call_if true c = c ∷ []
call_if false c = []

abbrev after_delay : ℕ → Option Err → Serving → Serving
after_delay delay (some e) rest = record { calls = []; err = some e }
after_delay delay none rest = before (slept delay ∷ []) rest

-- Behind a session under a context that lives on, with the delay in force.
abbrev retry : Callbacks → Run → ℕ → Serving → Serving
retry cb r delay rest =
    before (disconnected delay ∷ call_if (r.connected && cb.has_on_disconnect) on_disconnect)
      (after_delay delay r.delay_err rest)

-- The delay in force behind a session.
abbrev pub reset : Run → ℕ → ℕ
reset r delay = if ltb reconnect_max r.lasted then reconnect_min else delay

unfoldable pub serve_from : Callbacks → ℕ → List Run → Serving
serve_from cb delay [] = record { calls = []; err = none }
serve_from cb delay (r ∷ rs) =
    let rest = serve_from cb (min (reset r delay * reconnect_reset) reconnect_max) rs in
    before (call_if (r.connected && cb.has_on_connect) on_connect) (elim r.ctx_err [
      | some e ↦ record {
        calls = call_if (r.connected && cb.has_on_disconnect) on_disconnect;
        err = some e;
      }
      | none ↦ retry cb r (reset r delay) rest
    ])

-- `ListenAndServe`, as far as the sessions go.
unfoldable pub listen_and_serve : Callbacks → List Run → Serving
unfolding serve_from
listen_and_serve cb rs = serve_from cb reconnect_min rs

-- Whether the last callback was `OnConnect`, if the callbacks alternate.
abbrev pub is_up : Bool → List Call → Option Bool
is_up up [] = some up
is_up false (on_connect ∷ cs) = is_up true cs
is_up true (on_connect ∷ cs) = none
is_up true (on_disconnect ∷ cs) = is_up false cs
is_up false (on_disconnect ∷ cs) = none
is_up up (disconnected d ∷ cs) = is_up up cs
is_up up (slept d ∷ cs) = is_up up cs

abbrev pub both : Callbacks
both = record { has_on_connect = true; has_on_disconnect = true }

is_up-serve_from :
    (delay : ℕ) (rs : List Run) → is_up false (serve_from both delay rs).calls ≡ some false
unfolding serve_from
is_up-serve_from delay [] = refl
is_up-serve_from delay (r ∷ rs) =
    ground (arith, is_up-serve_from (min (reset r delay * reconnect_reset) reconnect_max) rs)

-- `OnConnect` and `OnDisconnect` alternate, beginning with `OnConnect`, and no session that connected
-- is left without its `OnDisconnect`, also where the context ends.
pub is_up-listen_and_serve :
    (rs : List Run) → is_up false (listen_and_serve both rs).calls ≡ some false
unfolding listen_and_serve
is_up-listen_and_serve rs = is_up-serve_from reconnect_min rs

-- The delays slept through.
abbrev pub sleeps : List Call → List ℕ
sleeps [] = []
sleeps (slept d ∷ cs) = d ∷ sleeps cs
sleeps (_ ∷ cs) = sleeps cs

-- The delay behind the k-th short session in a row, from 0: 1 s doubled k times, at most 30 s.
abbrev pub backoff : ℕ → ℕ
backoff k = min (2 ^ k * second) reconnect_max

-- The delays that are due; `k` counts the sessions since the last that lasted more than 30 s.
abbrev pub due : ℕ → List Run → List ℕ
due k [] = []
due k (r ∷ rs) = let j = if ltb reconnect_max r.lasted then 0 else k in backoff j ∷ due (suc j) rs

abbrev pub Lives : Run → Type 0
Lives r = (r.ctx_err ≡ none) × (r.delay_err ≡ none)

double : (k : ℕ) → min (backoff k * reconnect_reset) reconnect_max ≡ backoff (suc k)
double k = omega arith

sleeps-serve_from :
    (cb : Callbacks) (k : ℕ) (rs : List Run)
    → All Lives rs
    → (sleeps (serve_from cb (backoff k) rs).calls ≡ due k rs)
      × ((serve_from cb (backoff k) rs).err ≡ none)
unfolding serve_from
sleeps-serve_from cb k [] all = (refl, refl)
sleeps-serve_from cb k (r ∷ rs) ((alive, undisturbed), all) =
    elim (Bool-cases (ltb reconnect_max r.lasted)) [
      | inl long ↦
          let (slept_due, goes_on) = sleeps-serve_from cb 1 rs all in
          (ground (arith, double 0, slept_due), ground (arith, double 0, goes_on))
      | inr short ↦
          let (slept_due, goes_on) = sleeps-serve_from cb (suc k) rs all in
          (ground (arith, double k, slept_due), ground (arith, double k, goes_on))
    ]

-- While the context lives, the loop goes on, and sleeps behind each session for 1 s doubled once for
-- each session before it since the last that lasted more than 30 s, at most 30 s.
pub sleeps-listen_and_serve :
    (cb : Callbacks) (rs : List Run)
    → All Lives rs
    → (sleeps (listen_and_serve cb rs).calls ≡ due 0 rs) × ((listen_and_serve cb rs).err ≡ none)
unfolding listen_and_serve
sleeps-listen_and_serve cb rs all = sleeps-serve_from cb 0 rs all
