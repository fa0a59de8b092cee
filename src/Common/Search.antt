-- ===== src/Common/Search.antt =====
-- `strings.Index` and `strings.IndexAny` as cuts of a text.
use aztunnel.Common.Tests.{if◌then◌else◌}
use Prim.Native.Nat.{ℕ, ◌+◌, ◌≤◌}
use mathlib.Core.Path.{◌≡◌}
use mathlib.Core.Logic.{inl, inr}
use mathlib.Core.Option.{Option, none, some}
use mathlib.Core.List.{[], ◌∷◌, ◌++◌}
use native.Mathlib.Omega.{arith}
use aztunnel.Common.Tests.{Option-cases}
use aztunnel.Common.Lists.{length}
use aztunnel.Common.Text.{Bytes, strip_prefix, contains}

abbrev after_byte : ℕ → Option (Bytes × Bytes) → Option (Bytes × Bytes)
after_byte c none = none
after_byte c (some (before, after)) = some (c ∷ before, after)

abbrev or_later : Option Bytes → Option (Bytes × Bytes) → Option (Bytes × Bytes)
or_later (some after) later = some ([], after)
or_later none later = later

-- What stands before the first occurrence of a marker, and what behind it.
unfoldable pub find : (marker s : Bytes) → Option (Bytes × Bytes)
find marker [] = or_later (strip_prefix marker []) none
find marker (c ∷ s) = or_later (strip_prefix marker (c ∷ s)) (after_byte c (find marker s))

-- The text from the first of the delimiters on, nothing where there is none.
unfoldable pub from_any : (delimiters s : Bytes) → Bytes
from_any delimiters [] = []
from_any delimiters (c ∷ s) = if contains c delimiters then c ∷ s else from_any delimiters s

pub length-from_any : (delimiters s : Bytes) → length (from_any delimiters s) ≤ length s
unfolding from_any
length-from_any delimiters [] = omega arith
length-from_any delimiters (c ∷ s) = ground (arith, length-from_any delimiters s)

length-strip_prefix : (p s r : Bytes) → strip_prefix p s ≡ some r → length s ≡ length p + length r
unfolding strip_prefix
length-strip_prefix [] s r h = ground (arith, h)
length-strip_prefix (c ∷ p) [] r h = absurd (ground (arith, h))
length-strip_prefix (c ∷ p) (x ∷ s) r h = ground (arith, h, length-strip_prefix p s r)

pub length-find :
    (marker s before after : Bytes)
    → find marker s ≡ some (before, after)
    → length s ≡ length before + length marker + length after
unfolding find
length-find marker [] before after h = elim (Option-cases (strip_prefix marker [])) [
  | inl not_here ↦ absurd (ground (arith, not_here, h))
  | inr (r, here) ↦ ground (arith, here, h, length-strip_prefix marker [] r here)
]
length-find marker (c ∷ s) before after h = elim (Option-cases (strip_prefix marker (c ∷ s))) [
  | inr (r, here) ↦ ground (arith, here, h, length-strip_prefix marker (c ∷ s) r here)
  | inl not_here ↦ elim (Option-cases (find marker s)) [
    | inl nowhere ↦ absurd (ground (arith, not_here, nowhere, h))
    | inr ((b, a), later) ↦ ground (arith, not_here, later, h, length-find marker s b a later)
  ]
]

strip_prefix_more :
    (p s r t : Bytes) → strip_prefix p s ≡ some r → strip_prefix p (s ++ t) ≡ some (r ++ t)
unfolding strip_prefix
strip_prefix_more [] s r t h = ground (arith, h)
strip_prefix_more (c ∷ p) [] r t h = absurd (ground (arith, h))
strip_prefix_more (c ∷ p) (x ∷ s) r t h = ground (arith, h, strip_prefix_more p s r t)

strip_prefix-none :
    (p s t : Bytes) → strip_prefix p s ≡ none → length p ≤ length s → strip_prefix p (s ++ t) ≡ none
unfolding strip_prefix
strip_prefix-none [] s t h long = absurd (ground (arith, h))
strip_prefix-none (c ∷ p) [] t h long = absurd (omega arith)
strip_prefix-none (c ∷ p) (x ∷ s) t h long = ground (arith, h, long, strip_prefix-none p s t)

-- A marker whose first occurrence ends a text is found there also when the text goes on.
pub find-append :
    (marker s before t : Bytes)
    → find marker s ≡ some (before, [])
    → find marker (s ++ t) ≡ some (before, t)
unfolding find strip_prefix
find-append [] [] before [] h = ground (arith, h)
find-append [] [] before (x ∷ t) h = ground (arith, h)
find-append (m ∷ marker) [] before t h = absurd (ground (arith, h))
find-append marker (c ∷ s) before t h = elim (Option-cases (strip_prefix marker (c ∷ s))) [
  | inr (r, here) ↦ ground (arith, here, h, strip_prefix_more marker (c ∷ s) r t here)
  | inl not_here ↦ elim (Option-cases (find marker s)) [
    | inl nowhere ↦ absurd (ground (arith, not_here, nowhere, h))
    | inr ((b, a), later) ↦ ground (
      arith,
      not_here,
      later,
      h,
      find-append marker s b t,
      length-find marker s b a later,
      strip_prefix-none marker (c ∷ s) t not_here,
    )
  ]
]
