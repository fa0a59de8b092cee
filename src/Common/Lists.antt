-- ===== src/Common/Lists.antt =====
-- Lists measured and cut by native numbers, and a predicate on all elements.
use Prim.Native.Nat.{ℕ, zero, suc, ◌+◌, ◌-◌, min}
use mathlib.Core.Path.{◌≡◌, refl, ap, subst}
use mathlib.Core.List.{List, [], ◌∷◌, ◌++◌}
use mathlib.Core.Option.{Option, none, some}
use native.Mathlib.Omega.{arith}

module _ {ℓ} {A : Type ℓ} where
  abbrev pub length : List A → ℕ
  length [] = 0
  length (x ∷ xs) = suc (length xs)

  abbrev pub take : ℕ → List A → List A
  take zero xs = []
  take (suc n) [] = []
  take (suc n) (x ∷ xs) = x ∷ take n xs

  abbrev pub drop : ℕ → List A → List A
  drop zero xs = xs
  drop (suc n) [] = []
  drop (suc n) (x ∷ xs) = drop n xs

  pub length-append : (xs ys : List A) → length (xs ++ ys) ≡ length xs + length ys
  length-append [] ys = omega arith
  length-append (x ∷ xs) ys = omega (arith, length-append xs ys)

  pub take-append-drop : (n : ℕ) (xs : List A) → take n xs ++ drop n xs ≡ xs
  take-append-drop zero xs = refl
  take-append-drop (suc n) [] = refl
  take-append-drop (suc n) (x ∷ xs) = rw (take-append-drop n xs)

  pub length-drop : (n : ℕ) (xs : List A) → length (drop n xs) ≡ length xs - n
  length-drop zero xs = omega arith
  length-drop (suc n) [] = omega arith
  length-drop (suc n) (x ∷ xs) = omega (arith, length-drop n xs)

  pub length-take : (n : ℕ) (xs : List A) → length (take n xs) ≡ min n (length xs)
  length-take zero xs = omega arith
  length-take (suc n) [] = omega arith
  length-take (suc n) (x ∷ xs) = omega (arith, length-take n xs)

  pub take-append_self : (xs ys : List A) → take (length xs) (xs ++ ys) ≡ xs
  take-append_self [] ys = refl
  take-append_self (x ∷ xs) ys = ap (◌∷◌ x) (take-append_self xs ys)

  pub drop-append_self : (xs ys : List A) → drop (length xs) (xs ++ ys) ≡ ys
  drop-append_self [] ys = refl
  drop-append_self (x ∷ xs) ys = drop-append_self xs ys

module _ {ℓ κ} {A : Type ℓ} (P : A → Type κ) where
  abbrev pub All : List A → Type κ
  All [] = Unit
  All (x ∷ xs) = P x × All xs

  pub All-append : (xs ys : List A) → All xs → All ys → All (xs ++ ys)
  All-append [] ys _ hy = hy
  All-append (x ∷ xs) ys (px, hx) hy = (px, All-append xs ys hx hy)

-- The element at an index, the list with another one there, and sums over a list.
module _ {ℓ} {A : Type ℓ} where
  abbrev pub get_at : ℕ → List A → Option A
  get_at n [] = none
  get_at zero (x ∷ xs) = some x
  get_at (suc n) (x ∷ xs) = get_at n xs

  abbrev value_or : A → Option A → A
  value_or y none = y
  value_or y (some x) = x

  abbrev pub set_at : ℕ → A → List A → List A
  set_at n y [] = []
  set_at zero y (x ∷ xs) = y ∷ xs
  set_at (suc n) y (x ∷ xs) = x ∷ set_at n y xs

  abbrev pub total : (A → ℕ) → List A → ℕ
  total w [] = 0
  total w (x ∷ xs) = w x + total w xs

  pub get_at-set_at :
      (n : ℕ) (x y : A) (xs : List A) → get_at n xs ≡ some x → get_at n (set_at n y xs) ≡ some y
  get_at-set_at n x y [] h = absurd (ground arith)
  get_at-set_at zero x y (z ∷ xs) h = refl
  get_at-set_at (suc n) x y (z ∷ xs) h = get_at-set_at n x y xs h

  pub total-set_at :
      (w : A → ℕ) (n : ℕ) (x y : A) (xs : List A)
      → get_at n xs ≡ some x
      → total w (set_at n y xs) + w x ≡ total w xs + w y
  total-set_at w n x y [] h = absurd (ground arith)
  total-set_at w zero x y (z ∷ xs) h = ground (arith, h)
  total-set_at w (suc n) x y (z ∷ xs) h = ground (arith, total-set_at w n x y xs h)

  pub total-append : (w : A → ℕ) (xs ys : List A) → total w (xs ++ ys) ≡ total w xs + total w ys
  total-append w [] ys = omega arith
  total-append w (x ∷ xs) ys = omega (arith, total-append w xs ys)

module _ {ℓ κ} {A : Type ℓ} (P : A → Type κ) where
  pub All-set_at : (n : ℕ) (y : A) (xs : List A) → All P xs → P y → All P (set_at n y xs)
  All-set_at n y [] all p = tt
  All-set_at zero y (x ∷ xs) (px, all) p = (p, all)
  All-set_at (suc n) y (x ∷ xs) (px, all) p = (px, All-set_at n y xs all p)

  pub All-get_at : (n : ℕ) (x : A) (xs : List A) → All P xs → get_at n xs ≡ some x → P x
  All-get_at n x [] all h = absurd (ground arith)
  All-get_at zero x (y ∷ xs) (py, all) h = subst P (ap (value_or y) h) py
  All-get_at (suc n) x (y ∷ xs) (py, all) h = All-get_at n x xs all h

module _ {ℓ κ κ'} {A : Type ℓ} (P : A → Type κ) (Q : A → Type κ') where
  pub All-map : ((x : A) → P x → Q x) → (xs : List A) → All P xs → All Q xs
  All-map f [] all = tt
  All-map f (x ∷ xs) (px, all) = (f x px, All-map f xs all)
