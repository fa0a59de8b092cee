-- ===== src/Listener/HostPort.antt =====
-- `net.SplitHostPort`, which internal/listener/listener.go takes a target apart with, and the
-- `splitAllowEntry` of that file.
use aztunnel.Common.{
  ℕ, zero, suc, ◌+◌, ◌≤◌, ◌<◌, Bool, false, Option, none, some, [], ◌∷◌, ◌++◌, ◌≡◌, refl, ◌≢◌, inl,
  inr, arith, length, take, drop, take-append_self, length-append, not, ◌==◌, ◌||◌, if◌then◌else◌,
  Bool-cases, Option-cases, All-append, append_assoc,
}
use aztunnel.Common.Text.{
  Bytes, Lacks, cut, cut_last, contains, cut-append, cut_last-append, cut_last-some, Lacks-cut_last,
  Lacks-contains, contains-Lacks,
}
use native.Mathlib.Nat.{zero-add, suc-add, add-suc}
use aztunnel.Socks5.{at, join_host_port}

-- The first byte is `[`.
abbrev is_bracketed : Bytes → Bool
is_bracketed [] = false
is_bracketed (c ∷ s) = c == b'['

-- `s` begins with `[`; the first `]` and the last colon, in front of `port`, must be neighbours.
abbrev split_bracketed : Bytes → Bytes → Bytes → Option (Bytes × Bytes) → Option (Bytes × Bytes)
split_bracketed s front port none = none
split_bracketed s front port (some (pre, [])) = none
split_bracketed s front port (some (pre, c ∷ post)) =
    if not (suc (length pre) == length front)
    then none
    else if contains b'[' (drop 1 s) || contains b']' (c ∷ post)
    then none
    else some (drop 1 pre, port)

abbrev split_plain : Bytes → Bytes → Bytes → Option (Bytes × Bytes)
split_plain s front port =
    if contains b':' front
    then none
    else if contains b'[' s || contains b']' s
    then none
    else some (front, port)

abbrev split_at_colon : Bytes → Option (Bytes × Bytes) → Option (Bytes × Bytes)
split_at_colon s none = none
split_at_colon s (some (front, port)) =
    if is_bracketed s then split_bracketed s front port (cut b']' s) else split_plain s front port

-- `net.SplitHostPort`, of whose error the program only sees that there is one.
unfoldable pub split_host_port : Bytes → Option (Bytes × Bytes)
split_host_port s = split_at_colon s (cut_last b':' s)

-- `for i := len(entry) - 1; i >= 0; i--`, with `i + 1` rounds left.
last_colon : Bytes → ℕ → Option ℕ
last_colon entry zero = none
last_colon entry (suc i) =
    let rest = last_colon entry i in if at i entry == b':' then some i else rest

abbrev split_entry_at : Bytes → Option ℕ → Option (Bytes × Bytes)
split_entry_at entry none = none
split_entry_at entry (some i) = some (take i entry, drop (i + 1) entry)

-- `splitAllowEntry`
unfoldable pub split_allow_entry : Bytes → Option (Bytes × Bytes)
unfolding last_colon
split_allow_entry entry = split_entry_at entry (last_colon entry (length entry))

at-append : (l r : Bytes) (j : ℕ) → at (length l + j) (l ++ r) ≡ at j r
at-append [] r j = rw zero-add
at-append (x ∷ l) r j = rw suc-add (at-append l r j)

at-Lacks : (b j : ℕ) (r : Bytes) → Lacks b r → j < length r → at j r ≢ b
at-Lacks b j [] h l = elim l [ ]
at-Lacks b zero (c ∷ r) h l = h.0
at-Lacks b (suc j) (c ∷ r) h l = at-Lacks b j r h.1 (omega arith)

-- A scan over the end of a text without colons goes on in front of it.
last_colon-skip :
    (l r : Bytes) (k : ℕ)
    → k ≤ length r
    → Lacks b':' r
    → last_colon (l ++ b':' ∷ r) (suc (length l + k)) ≡ some (length l)
unfolding last_colon
last_colon-skip l r zero h lack = ground (arith, at-append l (b':' ∷ r) 0)
last_colon-skip l r (suc k) h lack = rw add-suc (
    ground (
      arith,
      at-append l (b':' ∷ r) (suc k),
      at-Lacks b':' k r lack,
      last_colon-skip l r k (omega arith) lack,
    ))

last_colon-none : (s : Bytes) (n : ℕ) → n ≤ length s → Lacks b':' s → last_colon s n ≡ none
unfolding last_colon
last_colon-none s zero h lack = refl
last_colon-none s (suc n) h lack =
    ground (arith, at-Lacks b':' n s lack, last_colon-none s n (omega arith) lack)

drop_behind : (l r : Bytes) (c : ℕ) → drop (length l + 1) (l ++ c ∷ r) ≡ r
drop_behind [] r c = refl
drop_behind (x ∷ l) r c = rw suc-add (drop_behind l r c)

split_behind : (l r : Bytes) → Lacks b':' r → split_allow_entry (l ++ b':' ∷ r) ≡ some (l, r)
unfolding split_allow_entry
split_behind l r lack =
    let size : length (l ++ b':' ∷ r) ≡ suc (length l + length r) =
      omega (arith, length-append l (b':' ∷ r)) in
    rw (
      size,
      last_colon-skip l r (length r) (omega arith) lack,
      take-append_self l (b':' ∷ r),
      drop_behind l r b':',
    )

-- The backward scan of `splitAllowEntry` finds what a cut at the last colon finds: it fails exactly
-- on a text without a colon, and otherwise splits at the last one.
pub split_allow_entry-cut_last : (entry : Bytes) → split_allow_entry entry ≡ cut_last b':' entry
unfolding split_allow_entry
split_allow_entry-cut_last entry = elim (Option-cases (cut_last b':' entry)) [
  | inl n ↦ rw (
    n,
    split_allow_entry,
    last_colon-none entry (length entry) (omega arith) (Lacks-cut_last b':' entry n),
  )
  | inr ((l, r), h) ↦
      let (whole, lack) = cut_last-some b':' entry l r h in rw (h, whole, split_behind l r lack)
]

Lacks-drop : (b n : ℕ) (s : Bytes) → Lacks b s → Lacks b (drop n s)
Lacks-drop b zero s h = h
Lacks-drop b (suc n) [] h = tt
Lacks-drop b (suc n) (c ∷ s) h = Lacks-drop b n s h.1

not-is_bracketed :
    (host rest : Bytes) → Lacks b'[' host → is_bracketed (host ++ b':' ∷ rest) ≡ false
not-is_bracketed [] rest h = refl
not-is_bracketed (c ∷ host) rest h = ground arith

split-plain :
    (host port : Bytes)
    → Lacks b':' host
    → Lacks b'[' host
    → Lacks b']' host
    → Lacks b':' port
    → Lacks b'[' port
    → Lacks b']' port
    → split_host_port (host ++ b':' ∷ port) ≡ some (host, port)
unfolding split_host_port
split-plain host port h0 h1 h2 p0 p1 p2 =
    let s : Bytes = host ++ b':' ∷ port in
    rw (
      cut_last-append b':' host port p0,
      not-is_bracketed host port h1,
      Lacks-contains b':' host h0,
      Lacks-contains b'[' s (All-append _ host (b':' ∷ port) h1 ((λ e. omega arith), p1)),
      Lacks-contains b']' s (All-append _ host (b':' ∷ port) h2 ((λ e. omega arith), p2)),
    )

split-bracketed :
    (host port : Bytes)
    → Lacks b'[' host
    → Lacks b']' host
    → Lacks b':' port
    → Lacks b'[' port
    → Lacks b']' port
    → split_host_port (b'[' ∷ (host ++ b']' ∷ b':' ∷ port)) ≡ some (host, port)
unfolding split_host_port
split-bracketed host port h1 h2 p0 p1 p2 =
    let s : Bytes = b'[' ∷ (host ++ b']' ∷ b':' ∷ port) in
    let front : Bytes = b'[' ∷ (host ++ b']' ∷ []) in
    let colon : cut_last b':' s ≡ some (front, port) =
      rw (← append_assoc host (b']' ∷ []) (b':' ∷ port)) (cut_last-append b':' front port p0) in
    let bracket : cut b']' s ≡ some (b'[' ∷ host, b':' ∷ port) =
      cut-append b']' (b'[' ∷ host) (b':' ∷ port) ((λ e. omega arith), h2) in
    let inner : contains b'[' (host ++ b']' ∷ b':' ∷ port) ≡ false =
      Lacks-contains b'[' _
        (All-append _ host _ h1 ((λ e. omega arith), ((λ e. omega arith), p1))) in
    let behind : contains b']' (b':' ∷ port) ≡ false =
      Lacks-contains b']' _ ((λ e. omega arith), p2) in
    rw (colon, bracket) (ground (arith, inner, behind, length-append host (b']' ∷ [])))

-- A host without brackets and a port without colons and brackets, joined as the SOCKS5 proxy joins
-- them, are split by the listener into the same two parts.
pub split_host_port-join_host_port :
    (host port : Bytes)
    → Lacks b'[' host
    → Lacks b']' host
    → Lacks b':' port
    → Lacks b'[' port
    → Lacks b']' port
    → split_host_port (join_host_port host port) ≡ some (host, port)
unfolding join_host_port
split_host_port-join_host_port host port h1 h2 p0 p1 p2 = elim (Bool-cases (contains b':' host)) [
  | inl colons ↦ rw (colons, join_host_port) (split-bracketed host port h1 h2 p0 p1 p2)
  | inr plain ↦
      rw (plain, join_host_port)
        (split-plain host port (contains-Lacks b':' host plain) h1 h2 p0 p1 p2)
]
