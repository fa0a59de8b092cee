-- ===== src/MockRelay/Robin.antt =====
-- mockrelay/server/server.go: the order in which `snapshotControls` hands out an entity's listeners.
use native.Mathlib.Nat.{mod-lt, mod-mod, mod_self, suc-mod, mod-eq_of_lt}
use aztunnel.Common.{
  ℕ, zero, suc, ◌+◌, ◌-◌, ◌%◌, ◌≤◌, ◌<◌, ◌≡◌, refl, sym, ap, ◌∙◌, Option, none, some, List, [], ◌∷◌,
  ◌++◌, arith, length, get_at, take, drop, append_assoc, length-drop, ◌⊎◌, inl, inr,
}
use aztunnel.Common.Text.{Bytes, bytes_eq_refl}
use aztunnel.Common.Assoc.{lookup, insert, lookup-insert}
use aztunnel.MockRelay.Hub.{EntityState, Hub, collect, prepend, snapshot_controls}

-- Only the remainder of the cursor counts.
collect-mod : (cs : List ℕ) (idx n left : ℕ) → collect cs (idx % n) n left ≡ collect cs idx n left
unfolding collect
collect-mod cs idx n zero = refl
collect-mod cs idx n (suc left) = ground (
  arith,
  mod-mod idx n,
  collect-mod cs (suc idx) n left,
  suc-mod idx n,
  collect-mod cs (suc (idx % n)) n left,
)

-- At an index that the slice has, the loop goes on.
get_at-drop :
    (j : ℕ) (xs ys : List ℕ) → j < length xs → prepend (get_at j xs) ys ≡ take 1 (drop j xs) ++ ys
get_at-drop j [] ys h = absurd (omega arith)
get_at-drop zero (x ∷ xs) ys h = refl
get_at-drop (suc j) (x ∷ xs) ys h = get_at-drop j xs ys (omega arith)

take_one :
    (j : ℕ) (left : ℕ) (xs : List ℕ)
    → j < length xs
    → take 1 (drop j xs) ++ take left (drop (suc j) xs) ≡ take (suc left) (drop j xs)
take_one j left [] h = absurd (omega arith)
take_one zero left (x ∷ xs) h = refl
take_one (suc j) left (x ∷ xs) h = take_one j left xs (omega arith)

-- As long as the cursor does not pass the end, the loop copies a piece of the slice.
collect-take :
    (cs : List ℕ) (j left : ℕ)
    → j + left ≤ length cs
    → collect cs j (length cs) left ≡ take left (drop j cs)
unfolding collect
collect-take cs j zero h = refl
collect-take cs j (suc left) h =
    rw
      (
        mod-eq_of_lt {n = j} {m = length cs} (omega arith),
        collect-take cs (suc j) left (omega arith),
      )
      (get_at-drop j cs (take left (drop (suc j) cs)) (omega arith)
        ∙ take_one j left cs (omega arith))

collect-add :
    (cs : List ℕ) (idx a b : ℕ)
    → idx + a ≤ length cs
    → collect cs idx (length cs) (a + b)
      ≡ take a (drop idx cs) ++ collect cs (idx + a) (length cs) b
unfolding collect
collect-add cs idx zero b h =
    let same : idx ≡ idx + 0 = omega arith in
    let left : 0 + b ≡ b = omega arith in
    ap (λ m. collect cs idx (length cs) m) left ∙ ap (λ i. collect cs i (length cs) b) same
collect-add cs idx (suc a) b h =
    let n = length cs in
    let later : collect cs (suc idx + a) n b ≡ collect cs (idx + suc a) n b =
      ap (λ i. collect cs i n b) (omega arith) in
    let left : suc a + b ≡ suc (a + b) = omega arith in
    ap (λ m. collect cs idx n m) left
    ∙ rw
        (
          mod-eq_of_lt {n = idx} {m = n} (omega arith),
          collect-add cs (suc idx) a b (omega arith),
          later,
        )
        (get_at-drop idx cs (take a (drop (suc idx) cs) ++ collect cs (idx + suc a) n b)
            (omega arith)
          ∙ sym (
              append_assoc (take 1 (drop idx cs)) (take a (drop (suc idx) cs))
                (collect cs (idx + suc a) n b))
          ∙ ap (λ xs. xs ++ collect cs (idx + suc a) n b) (take_one idx a cs (omega arith)))

take_all : (m : ℕ) (xs : List ℕ) → length xs ≤ m → take m xs ≡ xs
take_all zero [] h = refl
take_all zero (x ∷ xs) h = absurd (omega arith)
take_all (suc m) [] h = refl
take_all (suc m) (x ∷ xs) h = ap (◌∷◌ x) (take_all m xs (omega arith))

-- A whole round from an index inside the slice is the slice, rotated.
rotation :
    (cs : List ℕ) (j : ℕ)
    → j < length cs
    → collect cs j (length cs) (length cs) ≡ drop j cs ++ take j cs
rotation cs j h =
    let n = length cs in
    let whole : collect cs j n n ≡ collect cs j n ((n - j) + j) =
      ap (λ m. collect cs j n m) (omega arith) in
    let wrapped : collect cs (j + (n - j)) n j ≡ take j cs =
      ap (λ i. collect cs i n j) (omega arith)
      ∙ sym (collect-mod cs n n j)
      ∙ ap (λ i. collect cs i n j) (mod_self n)
      ∙ collect-take cs 0 j (omega arith) in
    let kept : take (n - j) (drop j cs) ≡ drop j cs =
      take_all (n - j) (drop j cs) (omega (arith, length-drop j cs)) in
    whole ∙ collect-add cs j (n - j) j (omega arith) ∙ rw (wrapped, kept) refl

drop_nil : (j : ℕ) → drop {A = ℕ} j [] ++ take j [] ≡ []
drop_nil zero = refl
drop_nil (suc j) = refl

-- `snapshotControls` from any cursor.
pub collect-rotation :
    (cs : List ℕ) (idx : ℕ)
    → collect cs idx (length cs) (length cs)
      ≡ drop (idx % length cs) cs ++ take (idx % length cs) cs
unfolding collect
collect-rotation [] idx = sym (drop_nil (idx % 0))
collect-rotation (c ∷ cs) idx =
    let n = length (c ∷ cs) in
    sym (collect-mod (c ∷ cs) idx n n)
    ∙ rotation (c ∷ cs) (idx % n) (mod-lt idx {m = n} (omega arith))

-- The first listener of each of the next `k` snapshots: the one to which `handleConnect` writes first.
unfoldable pub turns : Bytes → ℕ → Hub → List ℕ
turns name zero h = []
turns name (suc k) h =
    let (order, h') = snapshot_controls name h in prepend (get_at 0 order) (turns name k h')

List-cases : (cs : List ℕ) → (cs ≡ []) ⊎ ((m : ℕ) × (length cs ≡ suc m))
List-cases [] = inl refl
List-cases (c ∷ cs) = inr (length cs, refl)

get_at-prepend : (o : Option ℕ) (xs : List ℕ) → get_at 0 (prepend o xs) ≡ o
get_at-prepend none xs = refl
get_at-prepend (some x) xs = refl

-- An entity with listeners hands out a round of them, and its cursor moves on.
snapshot_controls-found :
    (name : Bytes) (h : Hub) (e : EntityState) (m : ℕ)
    → lookup name h ≡ some e
    → length e.controls ≡ suc m
    → snapshot_controls name h ≡ (
      collect e.controls e.next_idx (length e.controls) (length e.controls),
      insert name (record e { next_idx = suc e.next_idx % length e.controls }) h,
    )
unfolding snapshot_controls
snapshot_controls-found name h e m found some_left = ground (arith, found, some_left)

snapshot_controls-none :
    (name : Bytes) (h : Hub) (e : EntityState)
    → lookup name h ≡ some e
    → e.controls ≡ []
    → snapshot_controls name h ≡ ([], h)
unfolding snapshot_controls
snapshot_controls-none name h e found empty = ground (arith, found, empty)

-- A turn goes to the listener under the cursor.
turns-step :
    (name : Bytes) (k m : ℕ) (h : Hub) (e : EntityState)
    → lookup name h ≡ some e
    → length e.controls ≡ suc m
    → turns name (suc k) h
      ≡ prepend (get_at (e.next_idx % length e.controls) e.controls) (
          turns name k (insert name (record e { next_idx = suc e.next_idx % length e.controls }) h))
unfolding turns collect
turns-step name k m h e found some_left =
    let n = length e.controls in
    let round = collect e.controls e.next_idx n n in
    let first : get_at 0 round ≡ get_at (e.next_idx % n) e.controls = rw (some_left) (
      get_at-prepend (get_at (e.next_idx % suc m) e.controls)
        (collect e.controls (suc e.next_idx) (suc m) m)) in
    rw (snapshot_controls-found name h e m found some_left, first) refl

turns-collect :
    (name : Bytes) (k : ℕ) (h : Hub) (e : EntityState)
    → lookup name h ≡ some e
    → turns name k h ≡ collect e.controls e.next_idx (length e.controls) k
unfolding turns collect
turns-collect name zero h e found = refl
turns-collect name (suc k) h e found = elim (List-cases e.controls) [
  | inl empty ↦ rw (snapshot_controls-none name h e found empty, empty) refl
  | inr (m, some_left) ↦
      let n = length e.controls in
      let e' = record e { next_idx = suc e.next_idx % n } in
      let found' : lookup name (insert name e' h) ≡ some e' =
        ground (arith, lookup-insert name name e' h, bytes_eq_refl name) in
      turns-step name k m h e found some_left
      ∙ ap (λ rest. prepend (get_at (e.next_idx % n) e.controls) rest)
          (turns-collect name k (insert name e' h) e' found'
            ∙ collect-mod e.controls (suc e.next_idx) n k)
]

-- With no listener coming or going, the next connects of an entity with n listeners turn first to each
-- of the n once, in the order of the slice from the cursor on: each snapshot takes one, and none is skipped.
pub turns-rotation :
    (name : Bytes) (h : Hub) (e : EntityState)
    → lookup name h ≡ some e
    → turns name (length e.controls) h
      ≡ drop (e.next_idx % length e.controls) e.controls
        ++ take (e.next_idx % length e.controls) e.controls
turns-rotation name h e found =
    turns-collect name (length e.controls) h e found ∙ collect-rotation e.controls e.next_idx
