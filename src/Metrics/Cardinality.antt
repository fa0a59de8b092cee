-- ===== src/Metrics/Cardinality.antt =====
-- The bound that `SanitizeTarget` of internal/metrics/metrics.go keeps under every schedule.
use aztunnel.Common.{
  ℕ, suc, ◌+◌, ◌-◌, ◌≤◌, true, some, List, [], ◌∷◌, ◌≡◌, refl, ◌∙◌, ◌⊎◌, inl, inr, arith, leb, ◌==◌,
  if◌then◌else◌, get_at, set_at, total, total-set_at, total-append, length, All, All-append,
  All-set_at, All-get_at, All-map, Option-cases, Bool-cases,
}
use aztunnel.Common.Text.{Bytes, bytes_eq_refl}
use aztunnel.Metrics.Targets.{
  overflow_target, is_known, Caller, loading, reading, rechecking, reserving, storing, undoing,
  returned, Guard, Event, call, goes_on, step, run, start,
}

-- The slots that a call holds beside the targets stored.
abbrev pub slots : Caller → ℕ
slots (storing t) = 1
slots (undoing t) = 1
slots _ = 0

-- A call swaps only a counter that it read below the cap.
abbrev pub Below : ℕ → Caller → Type 0
Below max (reserving t cur) = suc cur ≤ max
Below max _ = Unit

abbrev pub Counted : Guard → Type 0
Counted g =
    (g.target_count ≡ length g.targets + total slots g.callers)
    × (g.target_count ≤ g.max_targets)
    × All (Below g.max_targets) g.callers

-- A step of one call, with what it makes of the targets and of the counter.
change-Counted :
    (g : Guard) (i : ℕ) (c c' : Caller) (us : List Bytes) (n : ℕ)
    → get_at i g.callers ≡ some c
    → Counted g
    → n + (slots c + length g.targets) ≡ g.target_count + (slots c' + length us)
    → n ≤ g.max_targets
    → Below g.max_targets c'
    → Counted (record g { targets = us; target_count = n; callers = set_at i c' g.callers })
change-Counted g i c c' us n h (count, cap, below) balance le below' = (
  omega (arith, total-set_at slots i c c' g.callers h, balance, count),
  le,
  All-set_at (Below g.max_targets) i c' g.callers below below',
)

access-Counted :
    (g : Guard) (i : ℕ) (c : Caller)
    → get_at i g.callers ≡ some c
    → Counted g
    → Counted (step g (goes_on i))
unfolding step
access-Counted g i (loading t) h v = elim (Bool-cases (is_known t g.targets)) [
  | inl k ↦
      rw (h, step, k)
        (change-Counted g i (loading t) (returned t) g.targets g.target_count h v refl v.1 tt)
  | inr k ↦
      rw (h, step, k)
        (change-Counted g i (loading t) (reading t) g.targets g.target_count h v refl v.1 tt)
]
access-Counted g i (reading t) h v = elim (Bool-cases (leb g.max_targets g.target_count)) [
  | inl k ↦
      rw (h, step, k)
        (change-Counted g i (reading t) (rechecking t) g.targets g.target_count h v refl v.1 tt)
  | inr k ↦
      rw (h, step, k)
        (change-Counted g i (reading t) (reserving t g.target_count) g.targets g.target_count h v
          refl v.1 (ground arith))
]
access-Counted g i (rechecking t) h v =
    rw (h, step)
      (change-Counted g i (rechecking t)
        (returned (if is_known t g.targets then t else overflow_target)) g.targets g.target_count h
        v refl v.1 tt)
access-Counted g i (reserving t cur) h v = elim (Bool-cases (g.target_count == cur)) [
  | inl k ↦
      rw (h, step, k)
        (change-Counted g i (reserving t cur) (storing t) g.targets (suc cur) h v (ground arith)
          (All-get_at (Below g.max_targets) i (reserving t cur) g.callers v.2 h) tt)
  | inr k ↦
      rw (h, step, k)
        (change-Counted g i (reserving t cur) (loading t) g.targets g.target_count h v refl v.1 tt)
]
access-Counted g i (storing t) h v = elim (Bool-cases (is_known t g.targets)) [
  | inl k ↦
      rw (h, step, k)
        (change-Counted g i (storing t) (undoing t) g.targets g.target_count h v refl v.1 tt)
  | inr k ↦
      rw (h, step, k)
        (change-Counted g i (storing t) (returned t) (t ∷ g.targets) g.target_count h v
          (omega arith) v.1 tt)
]
access-Counted g i (undoing t) h v =
    let held = total-set_at slots i (undoing t) (returned t) g.callers h in
    rw (h, step)
      (change-Counted g i (undoing t) (returned t) g.targets (g.target_count - 1) h v
        (omega (arith, held, v.0)) (omega (arith, v.1)) tt)
access-Counted g i (returned t) h v = rw (h, step) v

step-Counted : (g : Guard) (ev : Event) → Counted g → Counted (step g ev)
unfolding step
step-Counted g (call t) (n, m, b) = (
  omega (arith, n, total-append slots g.callers (loading t ∷ [])),
  m,
  All-append (Below g.max_targets) g.callers (loading t ∷ []) b (tt, tt),
)
step-Counted g (goes_on i) v = elim (Option-cases (get_at i g.callers)) [
  | inl gone ↦ rw (gone, step) v
  | inr (c, h) ↦ access-Counted g i c h v
]

run-Counted : (g : Guard) (evs : List Event) → Counted g → Counted (run g evs)
unfolding run
run-Counted g [] v = v
run-Counted g (ev ∷ evs) v = run-Counted (step g ev) evs (step-Counted g ev v)

-- The labels handed out: the overflow label, or a target that is stored.
abbrev pub Labelled : List Bytes → Caller → Type 0
Labelled us (returned l) = (l ≡ overflow_target) ⊎ (is_known l us ≡ true)
Labelled us (undoing t) = is_known t us ≡ true
Labelled us _ = Unit

Labelled-grows : (t : Bytes) (us : List Bytes) (c : Caller) → Labelled us c → Labelled (t ∷ us) c
unfolding is_known
Labelled-grows t us (returned l) (inl o) = inl o
Labelled-grows t us (returned l) (inr k) = inr (ground arith)
Labelled-grows t us (undoing u) k = ground arith
Labelled-grows t us (loading u) k = tt
Labelled-grows t us (reading u) k = tt
Labelled-grows t us (rechecking u) k = tt
Labelled-grows t us (storing u) k = tt
Labelled-grows t us (reserving u n) k = tt

known_at_head : (t : Bytes) (us : List Bytes) → is_known t (t ∷ us) ≡ true
unfolding is_known
known_at_head t us = ground (arith, bytes_eq_refl t)

abbrev pub Labels : Guard → Type 0
Labels g = All (Labelled g.targets) g.callers

access-Labels :
    (g : Guard) (i : ℕ) (c : Caller)
    → get_at i g.callers ≡ some c
    → Labels g
    → Labels (step g (goes_on i))
unfolding step
access-Labels g i (loading t) h v = elim (Bool-cases (is_known t g.targets)) [
  | inl k ↦ rw (h, step, k) (All-set_at (Labelled g.targets) i (returned t) g.callers v (inr k))
  | inr k ↦ rw (h, step, k) (All-set_at (Labelled g.targets) i (reading t) g.callers v tt)
]
access-Labels g i (reading t) h v = elim (Bool-cases (leb g.max_targets g.target_count)) [
  | inl k ↦ rw (h, step, k) (All-set_at (Labelled g.targets) i (rechecking t) g.callers v tt)
  | inr k ↦
      rw (h, step, k)
        (All-set_at (Labelled g.targets) i (reserving t g.target_count) g.callers v tt)
]
access-Labels g i (rechecking t) h v = elim (Bool-cases (is_known t g.targets)) [
  | inl k ↦ rw (h, step, k) (All-set_at (Labelled g.targets) i (returned t) g.callers v (inr k))
  | inr k ↦
      rw (h, step, k)
        (All-set_at (Labelled g.targets) i (returned overflow_target) g.callers v (inl refl))
]
access-Labels g i (reserving t cur) h v = elim (Bool-cases (g.target_count == cur)) [
  | inl k ↦ rw (h, step, k) (All-set_at (Labelled g.targets) i (storing t) g.callers v tt)
  | inr k ↦ rw (h, step, k) (All-set_at (Labelled g.targets) i (loading t) g.callers v tt)
]
access-Labels g i (storing t) h v = elim (Bool-cases (is_known t g.targets)) [
  | inl k ↦ rw (h, step, k) (All-set_at (Labelled g.targets) i (undoing t) g.callers v k)
  | inr k ↦
      let grown =
        All-map (Labelled g.targets) (Labelled (t ∷ g.targets)) (Labelled-grows t g.targets)
          g.callers v in
      rw (h, step, k)
        (All-set_at (Labelled (t ∷ g.targets)) i (returned t) g.callers grown
          (inr (known_at_head t g.targets)))
]
access-Labels g i (undoing t) h v =
    rw (h, step)
      (All-set_at (Labelled g.targets) i (returned t) g.callers v
        (inr (All-get_at (Labelled g.targets) i (undoing t) g.callers v h)))
access-Labels g i (returned t) h v = rw (h, step) v

step-Labels : (g : Guard) (ev : Event) → Labels g → Labels (step g ev)
unfolding step
step-Labels g (call t) v = All-append (Labelled g.targets) g.callers (loading t ∷ []) v (tt, tt)
step-Labels g (goes_on i) v = elim (Option-cases (get_at i g.callers)) [
  | inl gone ↦ rw (gone, step) v
  | inr (c, h) ↦ access-Labels g i c h v
]

run-Labels : (g : Guard) (evs : List Event) → Labels g → Labels (run g evs)
unfolding run
run-Labels g [] v = v
run-Labels g (ev ∷ evs) v = run-Labels (step g ev) evs (step-Labels g ev v)

step-max_targets : (g : Guard) (ev : Event) → (step g ev).max_targets ≡ g.max_targets
unfolding step
step-max_targets g (call t) = refl
step-max_targets g (goes_on i) = ground arith

run-max_targets : (g : Guard) (evs : List Event) → (run g evs).max_targets ≡ g.max_targets
unfolding run
run-max_targets g [] = refl
run-max_targets g (ev ∷ evs) = run-max_targets (step g ev) evs ∙ step-max_targets g ev

-- With a positive `MaxTargets`, however the calls interleave, no more than that many targets are
-- ever stored, and a call that has returned has handed out the overflow label or one of these.
pub sanitize_target_bound :
    (n : ℕ) (evs : List Event) (i : ℕ) (l : Bytes)
    → get_at i (run (start (suc n)) evs).callers ≡ some (returned l)
    → (length (run (start (suc n)) evs).targets ≤ suc n)
      × ((l ≡ overflow_target) ⊎ (is_known l (run (start (suc n)) evs).targets ≡ true))
sanitize_target_bound n evs i l h =
    let g = run (start (suc n)) evs in
    let capacity : g.max_targets ≡ suc n = unfold start in run-max_targets (start (suc n)) evs in
    let (count, cap, below) =
      run-Counted (start (suc n)) evs (unfold start in (refl, omega arith, tt)) in
    (
      omega (arith, count, cap, capacity),
      All-get_at (Labelled g.targets) i (returned l) g.callers
          (run-Labels (start (suc n)) evs (unfold start in tt)) h,
    )
