-- ===== src/Examples/Labels.antt =====
-- Calls of `SanitizeTarget` of internal/metrics/metrics.go that race for one slot.
use aztunnel.Common.{◌≤◌, some, List, [], ◌∷◌, ◌≡◌, refl, true, ◌⊎◌, get_at, length}
use aztunnel.Common.Text.{codes}
use aztunnel.Metrics.Targets.{
  overflow_target, is_known, returned, Event, call, goes_on, step, run, start,
}
use aztunnel.Metrics.Cardinality.{sanitize_target_bound}

-- Both calls find their target unknown; the first takes the slot, the second sees the cap.
abbrev race : List Event
race =
    call (codes "a:1")
    ∷ call (codes "b:2")
    ∷ goes_on 0
    ∷ goes_on 1
    ∷ goes_on 0
    ∷ goes_on 1
    ∷ goes_on 0
    ∷ goes_on 1
    ∷ goes_on 0
    ∷ goes_on 1
    ∷ goes_on 1
    ∷ goes_on 1
    ∷ []

second-overflows : get_at 1 (run (start 1) race).callers ≡ some (returned overflow_target)
unfolding run start step is_known aztunnel.Common.Text.bytes_eq
second-overflows = refl

sanitize_target_bound_example :
    (length (run (start 1) race).targets ≤ 1)
    × ((overflow_target ≡ overflow_target)
        ⊎ (is_known overflow_target (run (start 1) race).targets ≡ true))
sanitize_target_bound_example = sanitize_target_bound 0 race 1 overflow_target second-overflows
