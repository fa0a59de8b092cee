-- ===== src/Arc/Waits.antt =====
-- internal/arc/arc.go: the waits of `DialWithOptions` between its attempts, what its error counts, and when it is
-- silent.
use native.Mathlib.Nat.{two-pow-succ}
use aztunnel.Common.{
  ap, ◌∙◌, ℕ, zero, suc, ◌+◌, ◌*◌, ◌^◌, ◌<◌, ◌≡◌, refl, Bool, false, Option, some, List, [], ◌∷◌,
  ◌++◌, arith, length, total, total-append, get_at, min, ◌⊎◌, inl, inr, All, Option-cases,
  Bool-cases,
}
use aztunnel.GoError.{Err}
use aztunnel.Arc.Dial.{
  second, retry_max, progress_log_quiet_delay, Attempted, connected, refused, Attempt, DialEffect,
  info_waiting, info_still_waiting, info_connected, debug_connected, debug_retry, warn_failed,
  wait_for, DialEnd, gave_up, Dialling, first, progress, counted, retried, dial_loop, is_retryable,
  status_or_zero, doubled,
}

-- The durations of the waits, in their order.
unfoldable pub waits : List DialEffect → List ℕ
waits [] = []
waits (wait_for d ∷ es) = d ∷ waits es
waits (info_waiting s ∷ es) = waits es
waits (info_still_waiting t n ∷ es) = waits es
waits (info_connected n s ∷ es) = waits es
waits (debug_connected n ∷ es) = waits es
waits (debug_retry s n d ∷ es) = waits es
waits (warn_failed e ∷ es) = waits es

abbrev pub retry_delay : ℕ → ℕ
retry_delay k = min (second * 2 ^ k) retry_max

retry_delay-suc : (k : ℕ) → min (retry_delay k * 2) retry_max ≡ retry_delay (suc k)
retry_delay-suc k = omega (arith, two-pow-succ k)

progress_kept :
    (explain : Bool) (now status : ℕ) (d : Dialling)
    → ((progress explain now status d).1.delay ≡ d.delay)
      × ((progress explain now status d).1.attempts ≡ d.attempts)
      × ((progress explain now status d).1.last_status ≡ d.last_status)
      × (waits (progress explain now status d).0 ≡ [])
unfolding progress waits
progress_kept explain now status d = ground arith

waits-append : (xs ys : List DialEffect) → waits xs ≡ [] → waits (xs ++ ys) ≡ waits ys
unfolding waits
waits-append [] ys h = refl
waits-append (info_waiting s ∷ xs) ys h = waits-append xs ys h
waits-append (info_still_waiting t n ∷ xs) ys h = waits-append xs ys h
waits-append (info_connected n s ∷ xs) ys h = waits-append xs ys h
waits-append (debug_connected n ∷ xs) ys h = waits-append xs ys h
waits-append (debug_retry s n d ∷ xs) ys h = waits-append xs ys h
waits-append (warn_failed e ∷ xs) ys h = waits-append xs ys h
waits-append (wait_for d ∷ xs) ys h = absurd (ground arith)

-- An error that gives up counts so many attempts.
abbrev pub CountsTo : ℕ → DialEnd → Type 0
CountsTo n (gave_up m t last e) = m ≡ n
CountsTo n _ = Unit

abbrev Last : Bool → Attempt → List Attempt → Dialling → Type 0
Last explain a later d =
    (waits (dial_loop explain (a ∷ later) d).0 ≡ [])
    × CountsTo (suc d.attempts) (dial_loop explain (a ∷ later) d).1

abbrev GoesOn : Bool → Attempt → List Attempt → Dialling → Dialling → Type 0
GoesOn explain a later d d' =
    (d'.delay ≡ min (d.delay * 2) retry_max)
    × (d'.attempts ≡ suc d.attempts)
    × (waits (dial_loop explain (a ∷ later) d).0 ≡ d.delay ∷ waits (dial_loop explain later d').0)
    × ((dial_loop explain (a ∷ later) d).1 ≡ (dial_loop explain later d').1)

Attempted-cases :
    (o : Attempted) → (o ≡ connected) ⊎ ((e : Err) × (status : Option ℕ) × (o ≡ refused e status))
Attempted-cases connected = inl refl
Attempted-cases (refused e status) = inr (e, status, refl)

-- A round is the last one, or waits for the delay and goes on with the doubled one.
round :
    (explain : Bool) (a : Attempt) (later : List Attempt) (d : Dialling)
    → Last explain a later d ⊎ ((d' : Dialling) × GoesOn explain a later d d')
unfolding dial_loop waits
round explain a later d = elim (Attempted-cases a.outcome) [
  | inl made ↦ inl (ground (arith, made))
  | inr (e, status, bad) ↦ elim (Option-cases a.over_dial) [
    | inr (over, gone) ↦ inl (ground (arith, bad, gone))
    | inl live ↦ elim (Bool-cases (is_retryable status)) [
      | inr final ↦ inl (ground (arith, bad, live, final))
      | inl again ↦
          let code = status_or_zero status in
          let p = progress_kept explain a.at code (record (counted d) { last_status = code }) in
          let d' = doubled (retried explain a code d).1 in
          let logs = (retried explain a code d).0 in
          elim (Option-cases a.over_wait) [
            | inr (over, gone) ↦
                inl (ground (arith, bad, live, again, gone, p, waits-append logs [] p.3))
            | inl waiting ↦ inr (
              d',
              ground (
                arith,
                bad,
                live,
                again,
                waiting,
                p,
                waits-append logs (wait_for d.delay ∷ (dial_loop explain later d').0) p.3,
              ),
            )
          ]
    ]
  ]
]

waits_from :
    (explain : Bool) (attempts : List Attempt) (d : Dialling) (k i w : ℕ)
    → d.delay ≡ retry_delay k
    → get_at i (waits (dial_loop explain attempts d).0) ≡ some w
    → w ≡ retry_delay (k + i)
unfolding dial_loop waits
waits_from explain [] d k i w begun h = absurd (ground arith)
waits_from explain (a ∷ later) d k zero w begun h = elim (round explain a later d) [
  | inl l ↦ absurd (ground (arith, l, h))
  | inr (d', g) ↦
      let same : w ≡ d.delay = ground (arith, g, h) in
      let none_more : k ≡ k + 0 = omega arith in same ∙ begun ∙ ap retry_delay none_more
]
waits_from explain (a ∷ later) d k (suc i) w begun h = elim (round explain a later d) [
  | inl l ↦ absurd (ground (arith, l, h))
  | inr (d', g) ↦
      let next : d'.delay ≡ retry_delay (suc k) =
        g.0 ∙ ap (λ n. min (n * 2) retry_max) begun ∙ retry_delay-suc k in
      let shift : suc k + i ≡ k + suc i = omega arith in
      waits_from explain later d' (suc k) i w next (ground (arith, g, h)) ∙ ap retry_delay shift
]

-- The waits between the attempts double from one second and stop at five: the wait behind the k-th retry is the
-- smaller of 2 ^ k seconds and 5.
pub dial_loop-retry_delay :
    (explain : Bool) (attempts : List Attempt) (k w : ℕ)
    → get_at k (waits (dial_loop explain attempts first).0) ≡ some w
    → w ≡ min (second * 2 ^ k) retry_max
dial_loop-retry_delay explain attempts k w h =
    let from_zero : 0 + k ≡ k = omega arith in
    waits_from explain attempts first 0 k w refl h ∙ ap retry_delay from_zero

counts_from :
    (explain : Bool) (attempts : List Attempt) (d : Dialling)
    → CountsTo
        (suc (d.attempts + length (waits (dial_loop explain attempts d).0)))
        (dial_loop explain attempts d).1
unfolding dial_loop
counts_from explain [] d = tt
counts_from explain (a ∷ later) d = elim (round explain a later d) [
  | inl l ↦ ground (arith, l)
  | inr (d', g) ↦ ground (arith, g, counts_from explain later d')
]

-- The error that gives up names the number of dials that were made: one more than there were waits.
pub dial_loop-gave_up :
    (explain : Bool) (attempts : List Attempt) (n elapsed last : ℕ) (e : Err)
    → (dial_loop explain attempts first).1 ≡ gave_up n elapsed last e
    → n ≡ suc (length (waits (dial_loop explain attempts first).0))
dial_loop-gave_up explain attempts n elapsed last e h =
    ground (arith, counts_from explain attempts first, h)

abbrev pub infos : DialEffect → ℕ
infos (info_waiting s) = 1
infos (info_still_waiting t n) = 1
infos (info_connected n s) = 1
infos _ = 0

abbrev pub IsEarly : Attempt → Type 0
IsEarly a = a.at < progress_log_quiet_delay

progress_quiet :
    (now status : ℕ) (d : Dialling)
    → now < progress_log_quiet_delay
    → (total infos (progress false now status d).0 ≡ 0)
      × ((progress false now status d).1.progress_logged ≡ d.progress_logged)
unfolding progress
progress_quiet now status d early = ground arith

quiet_from :
    (attempts : List Attempt) (d : Dialling)
    → All IsEarly attempts
    → d.progress_logged ≡ false
    → total infos (dial_loop false attempts d).0 ≡ 0
unfolding dial_loop
quiet_from [] d early silent = refl
quiet_from (a ∷ later) d (now, early) silent = elim (Attempted-cases a.outcome) [
  | inl made ↦ ground (arith, made, silent)
  | inr (e, status, bad) ↦
      let code = status_or_zero status in
      let d' = doubled (retried false a code d).1 in
      let logs = (retried false a code d).0 in
      let rest = (dial_loop false later d').0 in
      let q = progress_quiet a.at code (record (counted d) { last_status = code }) now in
      let more : total infos rest ≡ 0 = quiet_from later d' early (ground (arith, q, silent)) in
      ground (
        arith,
        bad,
        q,
        more,
        total-append infos logs [],
        total-append infos logs (wait_for d.delay ∷ rest),
        (progress_kept false a.at code (record (counted d) { last_status = code })).0,
      )
]

-- Without `ExplainSetup`, a dial whose attempts all end within the quiet delay logs nothing at the level of
-- information, not even that it succeeds.
pub dial_loop-IsEarly :
    (attempts : List Attempt)
    → All IsEarly attempts
    → total infos (dial_loop false attempts first).0 ≡ 0
dial_loop-IsEarly attempts early = quiet_from attempts first early refl
