-- ===== src/Common/Query.antt =====
-- The documented form of a query, net/url: `url.Values.Encode` without its sorting, and what `url.QueryEscape` and the
-- parsers of a query are relied on for.
use Prim.Native.Nat.{ℕ, zero, suc, ◌+◌, ◌/◌, ◌%◌}
use mathlib.Core.Path.{◌≡◌, refl}
use mathlib.Core.Logic.{inl, inr}
use mathlib.Core.Bool.{Bool, true, ◌&&◌, ◌||◌}
use mathlib.Core.List.{List, [], ◌∷◌, ◌++◌, append_assoc}
use mathlib.Core.Option.{Option, some}
use native.Mathlib.Omega.{arith}
use aztunnel.Common.Tests.{◌==◌, leb, ltb, Bool-cases}
use aztunnel.Common.Text.{Bytes, decimal, digits}

abbrev pub encode_pair : (Bytes → Bytes) → Bytes × Bytes → Bytes
encode_pair escape (key, value) = escape key ++ b'=' ∷ escape value

-- The pairs, joined by `&`.
unfoldable pub encode_query : (Bytes → Bytes) → List (Bytes × Bytes) → Bytes
encode_query escape [] = []
encode_query escape (p ∷ []) = encode_pair escape p
encode_query escape (p ∷ q ∷ ps) = encode_pair escape p ++ b'&' ∷ encode_query escape (q ∷ ps)

abbrev in_range : (low high c : ℕ) → Bool
in_range low high c = leb low c && leb c high

-- A byte that `url.QueryEscape` leaves as it is.
unfoldable pub is_unreserved : ℕ → Bool
is_unreserved c =
    in_range b'0' b'9' c
    || in_range b'A' b'Z' c
    || in_range b'a' b'z' c
    || c == b'-'
    || c == b'_'
    || c == b'.'
    || c == b'~'

unfoldable pub unreserved : Bytes → Bool
unreserved [] = true
unreserved (c ∷ s) = is_unreserved c && unreserved s

-- What the code relies on: a query that is written in the documented form is read back, and a text without special
-- bytes is not changed.
pub record QueryLaws (escape : Bytes → Bytes) (parse : Bytes → Option (List (Bytes × Bytes)))
    : Type 0 where
  pub reads_back : (ps : List (Bytes × Bytes)) → parse (encode_query escape ps) ≡ some ps
  pub leaves : (s : Bytes) → unreserved s ≡ true → escape s ≡ s

digits-unreserved :
    (f n : ℕ) (out : Bytes) → unreserved out ≡ true → unreserved (digits f n out) ≡ true
unfolding digits unreserved is_unreserved
digits-unreserved zero n out h = h
digits-unreserved (suc f) n out h =
    let rest = digits-unreserved f (n / 10) ((b'0' + n % 10) ∷ out) in
    elim (Bool-cases (ltb n 10)) [
      | inl small ↦ rw small (ground (arith, h, small))
      | inr large ↦ rw large (rest (ground (arith, h)))
    ]

pub decimal-unreserved : (n : ℕ) → unreserved (decimal n) ≡ true
unfolding decimal unreserved
decimal-unreserved n = digits-unreserved (suc n) n [] refl

-- A first pair with a plain key.
pub encode_query-plain :
    (escape : Bytes → Bytes) (key value : Bytes) (q : Bytes × Bytes) (ps : List (Bytes × Bytes))
    → escape key ≡ key
    → encode_query escape ((key, value) ∷ q ∷ ps)
      ≡ key ++ b'=' ∷ (escape value ++ b'&' ∷ encode_query escape (q ∷ ps))
unfolding encode_query
encode_query-plain escape key value q ps plain =
    rw (plain) (append_assoc key (b'=' ∷ escape value) (b'&' ∷ encode_query escape (q ∷ ps)))
