-- ===== src/Common/Text.antt =====
-- Go strings and byte slices: lists of bytes. `codes` gives the bytes of an ASCII literal.
use Prim.Native.Nat.{ℕ, zero, suc, ◌+◌, ◌/◌, ◌%◌, ◌<◌}
use Prim.Native.Char.{code}
use Prim.Native.String.{String}
use mathlib.Core.Path.{◌≡◌, refl}
use mathlib.Core.Logic.{◌≢◌, ◌⊎◌, inl, inr}
use mathlib.Core.Bool.{Bool, true, false, ◌&&◌}
use mathlib.Core.List.{List, [], ◌∷◌, ◌++◌}
use mathlib.Core.Option.{Option, none, some}
use native.Mathlib.Omega.{arith}
use aztunnel.Common.Tests.{◌==◌, ltb, if◌then◌else◌, Bool-cases, Option-cases}
use aztunnel.Common.Lists.{All}

abbrev pub Bytes : Type 0
Bytes = List ℕ

abbrev pub codes : String → Bytes
codes String.[] = []
codes (String.◌∷◌ c s) = code c ∷ codes s

-- `==` of two strings.
unfoldable pub bytes_eq : Bytes → Bytes → Bool
bytes_eq [] [] = true
bytes_eq [] (y ∷ ys) = false
bytes_eq (x ∷ xs) [] = false
bytes_eq (x ∷ xs) (y ∷ ys) = x == y && bytes_eq xs ys

pub bytes_eq_refl : (xs : Bytes) → bytes_eq xs xs ≡ true
unfolding bytes_eq
bytes_eq_refl [] = refl
bytes_eq_refl (x ∷ xs) = ground (arith, bytes_eq_refl xs)

pub eq_of_bytes_eq : (xs ys : Bytes) → bytes_eq xs ys ≡ true → xs ≡ ys
unfolding bytes_eq
eq_of_bytes_eq [] [] h = refl
eq_of_bytes_eq [] (y ∷ ys) h = cc
eq_of_bytes_eq (x ∷ xs) [] h = cc
eq_of_bytes_eq (x ∷ xs) (y ∷ ys) h = ground (arith, eq_of_bytes_eq xs ys)

-- The byte does not stand in the text.
abbrev pub Lacks : ℕ → Bytes → Type 0
Lacks b = All (λ c. c ≢ b)

-- `strings.IndexByte` as a cut: what stands before the first `b`, and what stands behind it.
unfoldable pub cut : ℕ → Bytes → Option (Bytes × Bytes)
cut b [] = none
cut b (c ∷ s) =
    let rest = cut b s in
    if c == b then some ([], s) else elim rest [ none ↦ none | some (l, r) ↦ some (c ∷ l, r) ]

-- The same at the last `b`.
unfoldable pub cut_last : ℕ → Bytes → Option (Bytes × Bytes)
cut_last b [] = none
cut_last b (c ∷ s) = elim (cut_last b s) [
  | none ↦ if c == b then some ([], s) else none
  | some (l, r) ↦ some (c ∷ l, r)
]

unfoldable pub contains : ℕ → Bytes → Bool
contains b [] = false
contains b (c ∷ s) = if c == b then true else contains b s

-- `strconv.Itoa` on a number that is not negative. Each round drops a digit, so a fuel above the
-- number is enough.
unfoldable pub digits : ℕ → ℕ → Bytes → Bytes
digits zero n out = out
digits (suc f) n out =
    let rest = digits f (n / 10) ((b'0' + n % 10) ∷ out) in
    if ltb n 10 then (b'0' + n) ∷ out else rest

unfoldable pub decimal : ℕ → Bytes
unfolding digits
decimal n = digits (suc n) n []

-- No byte but a decimal digit stands in a number.
digits-Lacks :
    (b f n : ℕ) (out : Bytes) → (b < b'0') ⊎ (b'9' < b) → Lacks b out → Lacks b (digits f n out)
unfolding digits
digits-Lacks b zero n out h l = l
digits-Lacks b (suc f) n out h l =
    let rest = digits-Lacks b f (n / 10) ((b'0' + n % 10) ∷ out) h in
    elim (Bool-cases (ltb n 10)) [
      | inl small ↦ rw small (ground arith)
      | inr large ↦ rw large (rest (ground arith))
    ]

pub decimal-Lacks : (b n : ℕ) → (b < b'0') ⊎ (b'9' < b) → Lacks b (decimal n)
unfolding decimal
decimal-Lacks b n h = digits-Lacks b (suc n) n [] h tt

-- What `cut` and `cut_last` find.
pub cut-append : (b : ℕ) (l r : Bytes) → Lacks b l → cut b (l ++ b ∷ r) ≡ some (l, r)
unfolding cut
cut-append b [] r h = ground arith
cut-append b (c ∷ l) r h = ground (arith, cut-append b l r)

pub cut-Lacks : (b : ℕ) (s : Bytes) → Lacks b s → cut b s ≡ none
unfolding cut
cut-Lacks b [] h = refl
cut-Lacks b (c ∷ s) h = ground (arith, cut-Lacks b s)

pub cut_last-Lacks : (b : ℕ) (s : Bytes) → Lacks b s → cut_last b s ≡ none
unfolding cut_last
cut_last-Lacks b [] h = refl
cut_last-Lacks b (c ∷ s) h = ground (arith, cut_last-Lacks b s)

pub cut_last-append : (b : ℕ) (l r : Bytes) → Lacks b r → cut_last b (l ++ b ∷ r) ≡ some (l, r)
unfolding cut_last
cut_last-append b [] r h = ground (arith, cut_last-Lacks b r)
cut_last-append b (c ∷ l) r h = ground (arith, cut_last-append b l r)

pub Lacks-cut_last : (b : ℕ) (s : Bytes) → cut_last b s ≡ none → Lacks b s
unfolding cut_last
Lacks-cut_last b [] e = tt
Lacks-cut_last b (c ∷ s) e = elim (Option-cases (cut_last b s)) [
  | inl n ↦ ground (arith, Lacks-cut_last b s n)
  | inr (lr, h) ↦ absurd (ground arith)
]

pub cut_last-some :
    (b : ℕ) (s l r : Bytes) → cut_last b s ≡ some (l, r) → (s ≡ l ++ b ∷ r) × Lacks b r
unfolding cut_last
cut_last-some b [] l r e = cc
cut_last-some b (c ∷ s) l r e = elim (Option-cases (cut_last b s)) [
  | inl n ↦ ground (arith, Lacks-cut_last b s n)
  | inr ((l', r'), h) ↦ ground (arith, cut_last-some b s l' r' h)
]

pub contains-Lacks : (b : ℕ) (s : Bytes) → contains b s ≡ false → Lacks b s
unfolding contains
contains-Lacks b [] h = tt
contains-Lacks b (c ∷ s) h = ground (arith, contains-Lacks b s)

pub Lacks-contains : (b : ℕ) (s : Bytes) → Lacks b s → contains b s ≡ false
unfolding contains
Lacks-contains b [] h = refl
Lacks-contains b (c ∷ s) h = ground (arith, Lacks-contains b s)

-- `strings.HasPrefix` with what stands behind the prefix.
unfoldable pub strip_prefix : Bytes → Bytes → Option Bytes
strip_prefix [] s = some s
strip_prefix (p ∷ ps) [] = none
strip_prefix (p ∷ ps) (c ∷ s) = if p == c then strip_prefix ps s else none

pub strip_prefix-append : (p s : Bytes) → strip_prefix p (p ++ s) ≡ some s
unfolding strip_prefix
strip_prefix-append [] s = refl
strip_prefix-append (c ∷ p) s = ground (arith, strip_prefix-append p s)

-- `strings.Split` at a byte: never empty.
abbrev first_part : ℕ → List Bytes → List Bytes
first_part c [] = (c ∷ []) ∷ []
first_part c (p ∷ ps) = (c ∷ p) ∷ ps

unfoldable pub split : ℕ → Bytes → List Bytes
split b [] = [] ∷ []
split b (c ∷ s) = let rest = split b s in if c == b then [] ∷ rest else first_part c rest

pub split-Lacks : (b : ℕ) (s : Bytes) → Lacks b s → split b s ≡ s ∷ []
unfolding split
split-Lacks b [] h = refl
split-Lacks b (c ∷ s) h = ground (arith, split-Lacks b s)

pub split-append : (b : ℕ) (l r : Bytes) → Lacks b l → split b (l ++ b ∷ r) ≡ l ∷ split b r
unfolding split
split-append b [] r h = ground arith
split-append b (c ∷ l) r h = ground (arith, split-append b l r)
