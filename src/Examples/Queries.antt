-- ===== src/Examples/Queries.antt =====
-- A form of queries that satisfies what the code relies on: a special byte is escaped as two, the second above all bytes.
use aztunnel.Common.{
  ℕ, ◌+◌, ◌-◌, ◌≤◌, true, false, Option, none, some, List, [], ◌∷◌, ◌++◌, ◌≡◌, ◌≢◌, refl, ap, ◌∙◌,
  sym, arith, if◌then◌else◌, Bool-cases, inl, inr, ◌==◌,
}
use aztunnel.Common.Text.{Bytes, cut, split, cut-append, split-append, split-Lacks, Lacks}
use aztunnel.Common.Query.{encode_pair, encode_query, is_unreserved, unreserved, QueryLaws}

-- The escape byte is `%`.
unfoldable pub escape : Bytes → Bytes
escape [] = []
escape (c ∷ s) =
    let rest = escape s in if is_unreserved c then c ∷ rest else b'%' ∷ (256 + c) ∷ rest

unfoldable pub unescape : Bytes → Bytes
unescape [] = []
unescape (c ∷ []) = c ∷ []
unescape (c ∷ d ∷ s) =
    let short = unescape (d ∷ s) in
    let long = unescape s in if c == b'%' then (d - 256) ∷ long else c ∷ short

abbrev pair : Option (Bytes × Bytes) → List (Bytes × Bytes) → List (Bytes × Bytes)
pair none ps = ps
pair (some (key, value)) ps = (unescape key, unescape value) ∷ ps

-- A part without `=` is passed over.
unfoldable pub pairs : List Bytes → List (Bytes × Bytes)
pairs [] = []
pairs (part ∷ parts) = pair (cut b'=' part) (pairs parts)

unfoldable pub parse : Bytes → List (Bytes × Bytes)
unfolding pairs
parse s = pairs (split b'&' s)

escape-Lacks :
    (b : ℕ) (s : Bytes) → is_unreserved b ≡ false → b ≤ 255 → b ≢ b'%' → Lacks b (escape s)
unfolding escape
escape-Lacks b [] reserved byte other = tt
escape-Lacks b (c ∷ s) reserved byte other = elim (Bool-cases (is_unreserved c)) [
  | inl plain ↦ rw (plain) (
    (λ same. absurd (ground (arith, plain, reserved, ap is_unreserved same))),
    escape-Lacks b s reserved byte other,
  )
  | inr special ↦
      rw (special)
        ((λ same. other (sym same)), (ground arith, escape-Lacks b s reserved byte other))
]

plain_not_percent : (c : ℕ) → is_unreserved c ≡ true → c ≢ b'%'
unfolding is_unreserved
plain_not_percent c h = ground arith

unescape-cons : (c : ℕ) (s : Bytes) → c ≢ b'%' → unescape (c ∷ s) ≡ c ∷ unescape s
unfolding unescape
unescape-cons c [] h = refl
unescape-cons c (d ∷ s) h = ground (arith, h)

unescape-percent : (c : ℕ) (s : Bytes) → unescape (b'%' ∷ (256 + c) ∷ s) ≡ c ∷ unescape s
unfolding unescape
unescape-percent c s = ap (λ n. n ∷ unescape s) (omega arith)

unescape-escape : (s : Bytes) → unescape (escape s) ≡ s
unfolding escape
unescape-escape [] = unfold unescape in refl
unescape-escape (c ∷ s) = elim (Bool-cases (is_unreserved c)) [
  | inl plain ↦
      rw (plain) (
        unescape-cons c (escape s) (plain_not_percent c plain)
        ∙ ap (λ t. c ∷ t) (unescape-escape s))
  | inr special ↦ rw (special) (unescape-percent c (escape s) ∙ ap (λ t. c ∷ t) (unescape-escape s))
]

escape-unreserved : (s : Bytes) → unreserved s ≡ true → escape s ≡ s
unfolding escape unreserved
escape-unreserved [] h = refl
escape-unreserved (c ∷ s) h = ground (arith, h, escape-unreserved s)

Lacks-append : (b : ℕ) (s t : Bytes) → Lacks b s → Lacks b t → Lacks b (s ++ t)
Lacks-append b [] t hs ht = ht
Lacks-append b (c ∷ s) t (h, hs) ht = (h, Lacks-append b s t hs ht)

encode_pair-Lacks : (key value : Bytes) → Lacks b'&' (encode_pair escape (key, value))
unfolding is_unreserved
encode_pair-Lacks key value =
    let lacks : (s : Bytes) → Lacks b'&' (escape s) =
      λ s. escape-Lacks b'&' s refl (omega arith) (omega arith) in
    Lacks-append b'&' (escape key) (b'=' ∷ escape value) (lacks key) (omega arith, lacks value)

pair-encode_pair :
    (key value : Bytes) (ps : List (Bytes × Bytes))
    → pair (cut b'=' (encode_pair escape (key, value))) ps ≡ (key, value) ∷ ps
pair-encode_pair key value ps =
    let lacks : Lacks b'=' (escape key) =
      unfold is_unreserved in escape-Lacks b'=' key refl (omega arith) (omega arith) in
    rw
      (
        cut-append b'=' (escape key) (escape value) lacks,
        unescape-escape key,
        unescape-escape value,
      )
      refl

parse-encode_query : (ps : List (Bytes × Bytes)) → parse (encode_query escape ps) ≡ ps
unfolding parse encode_query
parse-encode_query [] = unfold split in unfold cut in refl
parse-encode_query ((key, value) ∷ []) =
    rw (split-Lacks b'&' (encode_pair escape (key, value)) (encode_pair-Lacks key value))
      (pair-encode_pair key value [])
parse-encode_query ((key, value) ∷ q ∷ ps) =
    let rest = parse-encode_query (q ∷ ps) in
    rw
      (split-append b'&' (encode_pair escape (key, value)) (encode_query escape (q ∷ ps))
        (encode_pair-Lacks key value))
      (pair-encode_pair key value (parse (encode_query escape (q ∷ ps)))
        ∙ ap (λ t. (key, value) ∷ t) rest)

pub escape-QueryLaws : QueryLaws escape (λ s. some (parse s))
escape-QueryLaws = record {
  reads_back = λ ps. ap some (parse-encode_query ps);
  leaves = escape-unreserved;
}
