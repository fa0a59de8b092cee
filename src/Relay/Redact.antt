-- ===== src/Relay/Redact.antt =====
-- internal/relay/auth.go: `sanitizeErr`, and the same loop in `redactURL` of mockrelay/server/util.go.
use aztunnel.Common.{
  ℕ, zero, suc, ◌+◌, ◌≤◌, ◌<◌, ◌≡◌, refl, ◌∙◌, sym, ap, true, false, Option, none, some, [], ◌∷◌,
  ◌++◌, arith, length, append_assoc, length-append, All, Option-cases, inl, inr,
}
use aztunnel.Common.Text.{Bytes, codes, contains}
use aztunnel.Common.Search.{find, from_any, length-from_any, length-find, find-append}

abbrev pub marker : Bytes
marker = codes "sb-hc-token="

abbrev pub redacted : Bytes
redacted = codes "REDACTED"

abbrev pub replace_value : Bytes → Option (Bytes × Bytes) → (Bytes → Bytes) → Bytes → Bytes
replace_value s none next rest = s
replace_value s (some (before, after)) next rest = before ++ (marker ++ (redacted ++ next rest))

abbrev pub rest_of : (delimiters : Bytes) → Option (Bytes × Bytes) → Bytes
rest_of delimiters none = []
rest_of delimiters (some (before, after)) = from_any delimiters after

-- The loop: what stands behind a value is searched again. Each round shortens the text.
unfoldable pub redact_loop : (fuel : ℕ) → (delimiters s : Bytes) → Bytes
redact_loop zero delimiters s = s
redact_loop (suc f) delimiters s =
    let found = find marker s in
    replace_value s found (redact_loop f delimiters) (rest_of delimiters found)

unfoldable pub redact : (delimiters s : Bytes) → Bytes
redact delimiters s = redact_loop (suc (length s)) delimiters s

-- The text of the error that `sanitizeErr` returns.
unfoldable pub sanitize_err : Bytes → Bytes
sanitize_err s = redact (codes "\" &") s

-- `redactURL` of the mock.
unfoldable pub redact_url : Bytes → Bytes
redact_url s = redact (codes "& ") s

-- More fuel than the text is long changes nothing.
redact_loop_fuel :
    (f g : ℕ) (delimiters s : Bytes)
    → length s < f
    → length s < g
    → redact_loop f delimiters s ≡ redact_loop g delimiters s
unfolding redact_loop
redact_loop_fuel zero g delimiters s hf hg = absurd (omega arith)
redact_loop_fuel (suc f) zero delimiters s hf hg = absurd (omega arith)
redact_loop_fuel (suc f) (suc g) delimiters s hf hg = elim (Option-cases (find marker s)) [
  | inl nowhere ↦ rw (nowhere) refl
  | inr ((before, after), found) ↦
      let rest = from_any delimiters after in
      let shorter : length rest + 12 ≤ length s =
        omega (arith, length-find marker s before after found, length-from_any delimiters after) in
      rw (found) (
        ap (λ r. before ++ (marker ++ (redacted ++ r)))
          (redact_loop_fuel f g delimiters rest (omega (arith, shorter)) (omega (arith, shorter))))
]

-- What stands in a value: no delimiter.
abbrev pub Undelimited : (delimiters : Bytes) → Bytes → Type 0
Undelimited delimiters = All (λ c. contains c delimiters ≡ false)

-- What follows a value: nothing, or a delimiter.
abbrev pub Delimited : (delimiters : Bytes) → Bytes → Type 0
Delimited delimiters [] = Unit
Delimited delimiters (c ∷ s) = contains c delimiters ≡ true

from_any-append :
    (delimiters value rest : Bytes)
    → Undelimited delimiters value
    → Delimited delimiters rest
    → from_any delimiters (value ++ rest) ≡ rest
unfolding from_any
from_any-append delimiters [] [] hv hr = refl
from_any-append delimiters [] (c ∷ rest) hv hr = ground (arith, hr)
from_any-append delimiters (c ∷ value) rest (hc, hv) hr =
    ground (arith, hc, from_any-append delimiters value rest hv hr)

-- A text whose first token ends behind `before`: the token is replaced, whatever it is, and what follows it is
-- redacted in its turn. So two texts that differ in their tokens alone become the same, and no part of a
-- token is left. The condition on `before` says that no marker stands before this one.
pub redact-append :
    (delimiters before value rest : Bytes)
    → find marker (before ++ marker) ≡ some (before, [])
    → Undelimited delimiters value
    → Delimited delimiters rest
    → redact delimiters (before ++ (marker ++ (value ++ rest)))
      ≡ before ++ (marker ++ (redacted ++ redact delimiters rest))
unfolding redact redact_loop
redact-append delimiters before value rest first hv hr =
    let t = value ++ rest in
    let s = before ++ (marker ++ t) in
    let found : find marker s ≡ some (before, t) =
      ap (find marker) (sym (append_assoc before marker t))
      ∙ find-append marker (before ++ marker) before t first in
    let end = from_any-append delimiters value rest hv hr in
    let shorter : length rest + 12 ≤ length s =
      omega (arith, length-find marker s before t found, length-append value rest) in
    rw (found, end)
      (ap (λ r. before ++ (marker ++ (redacted ++ r)))
        (redact_loop_fuel (length s) (suc (length rest)) delimiters rest (omega (arith, shorter))
          (omega arith)))
