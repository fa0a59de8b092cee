-- ===== src/Metrics/Targets.antt =====
-- internal/metrics/metrics.go: `SanitizeTarget`, with its callers in parallel. `targets` is a
-- `sync.Map` and `targetCount` an atomic counter; each access of these is a step of its own.
use aztunnel.Common.{
  ℕ, suc, ◌-◌, Bool, true, false, Option, some, List, [], ◌∷◌, ◌++◌, ◌==◌, leb, if◌then◌else◌,
  get_at, set_at,
}
use aztunnel.Common.Text.{Bytes, codes, bytes_eq}

-- `OverflowTarget`
abbrev pub overflow_target : Bytes
overflow_target = codes "__other__"

-- Whether `targets` holds the target.
unfoldable pub is_known : Bytes → List Bytes → Bool
is_known t [] = false
is_known t (u ∷ us) = let rest = is_known t us in if bytes_eq t u then true else rest

-- A call with a target: about to load it; about to read the counter; about to look again, at the
-- cap; about to swap the counter it read; about to store the target in its slot; about to give the
-- slot back; returned, with its label.
pub data Caller : Type 0 where
  loading reading rechecking storing undoing : Bytes → Caller
  reserving : Bytes → ℕ → Caller
  returned : Bytes → Caller

-- `Metrics`, with a positive `MaxTargets`, and the calls.
pub record Guard : Type 0 where
  pub max_targets : ℕ
  pub targets : List Bytes
  pub target_count : ℕ
  pub callers : List Caller

-- A further call, or the next step of the call at an index.
pub data Event : Type 0 where
  call : Bytes → Event
  goes_on : ℕ → Event

abbrev moves : ℕ → Caller → Guard → Guard
moves i c g = record g { callers = set_at i c g.callers }

-- The next access of a call.
abbrev access : Option Caller → ℕ → Guard → Guard
access (some (loading t)) i g = moves i (if is_known t g.targets then returned t else reading t) g
access (some (reading t)) i g =
    moves i (if leb g.max_targets g.target_count then rechecking t else reserving t g.target_count)
      g
access (some (rechecking t)) i g =
    moves i (returned (if is_known t g.targets then t else overflow_target)) g
access (some (reserving t cur)) i g =
    if g.target_count == cur
    then moves i (storing t) (record g { target_count = suc cur })
    else moves i (loading t) g
access (some (storing t)) i g =
    if is_known t g.targets
    then moves i (undoing t) g
    else moves i (returned t) (record g { targets = t ∷ g.targets })
access (some (undoing t)) i g =
    moves i (returned t) (record g { target_count = g.target_count - 1 })
access _ i g = g

unfoldable pub step : Guard → Event → Guard
step g (call t) = record g { callers = g.callers ++ (loading t ∷ []) }
step g (goes_on i) = access (get_at i g.callers) i g

unfoldable pub run : Guard → List Event → Guard
unfolding step
run g [] = g
run g (ev ∷ evs) = run (step g ev) evs

-- `New`
unfoldable pub start : ℕ → Guard
start max = record { max_targets = max; targets = []; target_count = 0; callers = [] }
