-- ===== src/Heap/Insert.antt =====
-- What `free` does to the free list, as a list of blocks.
use mathlib.Core.Path.{subst}
use lunaria_os.Base.{
  ℕ, ◌+◌, ◌≤◌, ◌<◌, ◌≡◌, refl, List, [], ◌∷◌, false, ◌&&◌, ◌||◌, in_range, ltb, ◌==◌, if◌then◌else◌,
  arith, Bool-cases, inl, inr,
}
use lunaria_os.Heap.Blocks.{Block, IsSpaced, in_blocks}

-- a block in front of a list, as one block with the first if they touch
unfoldable pub join : Block → List Block → List Block
join (a, s) [] = (a, s) ∷ []
join (a, s) ((b, t) ∷ bs) = if a + s == b then (a, s + t) ∷ bs else (a, s) ∷ (b, t) ∷ bs

-- a block at its place in address order
unfoldable pub insert : Block → List Block → List Block
insert (b, s) [] = (b, s) ∷ []
insert (b, s) ((a, t) ∷ bs) =
    let rest = insert (b, s) bs in if ltb a b then join (a, t) rest else join (b, s) ((a, t) ∷ bs)

-- As `IsSpaced`, but the first block may touch `lo`.
abbrev pub IsLoose : ℕ → ℕ → List Block → Type 0
IsLoose lo hi [] = lo ≤ hi
IsLoose lo hi ((a, s) ∷ bs) = (lo ≤ a) × (8 ≤ s) × IsSpaced (a + s) hi bs

pub IsLoose-of : (lo hi : ℕ) (bs : List Block) → IsSpaced lo hi bs → IsLoose lo hi bs
IsLoose-of lo hi [] h = h
IsLoose-of lo hi ((a, s) ∷ bs) h = (omega (arith, h.0), h.1, h.2)

-- no byte of the block is in the list
abbrev pub IsApart : Block → List Block → Type 0
IsApart (b, s) bs = (x : ℕ) → (in_range b (b + s) x && in_blocks x bs) ≡ false

pub IsApart-tail :
    (b s a t : ℕ) (bs : List Block) → IsApart (b, s) ((a, t) ∷ bs) → IsApart (b, s) bs
IsApart-tail b s a t bs h x = ground (arith, h x)

-- A block that is apart from another and above it starts behind it, and one below ends before it.
pub after_apart :
    (b s a t : ℕ) (bs : List Block) → 8 ≤ s → a < b → IsApart (b, s) ((a, t) ∷ bs) → a + t ≤ b
after_apart b s a t bs s8 lt h = ground (arith, h b)

pub before_apart :
    (b s a t : ℕ) (bs : List Block) → 8 ≤ t → b ≤ a → IsApart (b, s) ((a, t) ∷ bs) → b + s ≤ a
before_apart b s a t bs t8 le h = ground (arith, h a)

-- Nothing is joined to a block that does not touch.
pub join_apart :
    (a s hi : ℕ) (bs : List Block) → IsSpaced (a + s) hi bs → join (a, s) bs ≡ (a, s) ∷ bs
unfolding join
join_apart a s hi [] h = refl
join_apart a s hi ((b, t) ∷ bs) h = ground (arith, h.0)

pub join-IsSpaced :
    (lo a s hi : ℕ) (bs : List Block)
    → lo < a
    → 8 ≤ s
    → IsLoose (a + s) hi bs
    → IsSpaced lo hi (join (a, s) bs)
unfolding join
join-IsSpaced lo a s hi [] lt s8 h = (lt, s8, h)
join-IsSpaced lo a s hi ((b, t) ∷ bs) lt s8 h = elim (Bool-cases (a + s == b)) [
  | inl e ↦
      let eq : (a, s + t) ∷ bs ≡ join (a, s) ((b, t) ∷ bs) = ground (arith, e) in
      subst (IsSpaced lo hi) eq
        (lt, omega (arith, s8), subst (λ (m : ℕ). IsSpaced m hi bs) (ground (arith, e)) h.2)
  | inr e ↦
      let eq : (a, s) ∷ (b, t) ∷ bs ≡ join (a, s) ((b, t) ∷ bs) = ground (arith, e) in
      subst (IsSpaced lo hi) eq (lt, s8, (ground (arith, e, h.0), h.1, h.2))
]

pub join-IsLoose :
    (lo a s hi : ℕ) (bs : List Block)
    → lo ≤ a
    → 8 ≤ s
    → IsLoose (a + s) hi bs
    → IsLoose lo hi (join (a, s) bs)
unfolding join
join-IsLoose lo a s hi [] le s8 h = (le, s8, h)
join-IsLoose lo a s hi ((b, t) ∷ bs) le s8 h = elim (Bool-cases (a + s == b)) [
  | inl e ↦
      let eq : (a, s + t) ∷ bs ≡ join (a, s) ((b, t) ∷ bs) = ground (arith, e) in
      subst (IsLoose lo hi) eq
        (le, omega (arith, s8), subst (λ (m : ℕ). IsSpaced m hi bs) (ground (arith, e)) h.2)
  | inr e ↦
      let eq : (a, s) ∷ (b, t) ∷ bs ≡ join (a, s) ((b, t) ∷ bs) = ground (arith, e) in
      subst (IsLoose lo hi) eq (le, s8, (ground (arith, e, h.0), h.1, h.2))
]

pub insert-IsLoose :
    (lo b s hi : ℕ) (bs : List Block)
    → lo ≤ b
    → 8 ≤ s
    → b + s ≤ hi
    → IsSpaced lo hi bs
    → IsApart (b, s) bs
    → IsLoose lo hi (insert (b, s) bs)
unfolding insert
insert-IsLoose lo b s hi [] le s8 fits h apart = (le, s8, fits)
insert-IsLoose lo b s hi ((a, t) ∷ bs) le s8 fits h apart = elim (Bool-cases (ltb a b)) [
  | inl e ↦
      let eq : join (a, t) (insert (b, s) bs) ≡ insert (b, s) ((a, t) ∷ bs) = ground (arith, e) in
      subst (IsLoose lo hi) eq (
        join-IsLoose lo a t hi (insert (b, s) bs) (omega (arith, h.0)) h.1 (
          insert-IsLoose (a + t) b s hi bs (after_apart b s a t bs s8 (ground (arith, e)) apart) s8
            fits h.2 (IsApart-tail b s a t bs apart)))
  | inr e ↦
      let eq : join (b, s) ((a, t) ∷ bs) ≡ insert (b, s) ((a, t) ∷ bs) = ground (arith, e) in
      subst (IsLoose lo hi) eq (
        join-IsLoose lo b s hi ((a, t) ∷ bs) le s8
          (before_apart b s a t bs h.1 (ground (arith, e)) apart, h.1, h.2))
]

-- The list with a new block is in order too, and no two of its blocks touch.
pub insert-IsSpaced :
    (lo b s hi : ℕ) (bs : List Block)
    → lo < b
    → 8 ≤ s
    → b + s ≤ hi
    → IsSpaced lo hi bs
    → IsApart (b, s) bs
    → IsSpaced lo hi (insert (b, s) bs)
unfolding insert
insert-IsSpaced lo b s hi [] lt s8 fits h apart = (lt, s8, fits)
insert-IsSpaced lo b s hi ((a, t) ∷ bs) lt s8 fits h apart = elim (Bool-cases (ltb a b)) [
  | inl e ↦
      let eq : join (a, t) (insert (b, s) bs) ≡ insert (b, s) ((a, t) ∷ bs) = ground (arith, e) in
      subst (IsSpaced lo hi) eq (
        join-IsSpaced lo a t hi (insert (b, s) bs) h.0 h.1 (
          insert-IsLoose (a + t) b s hi bs (after_apart b s a t bs s8 (ground (arith, e)) apart) s8
            fits h.2 (IsApart-tail b s a t bs apart)))
  | inr e ↦
      let eq : join (b, s) ((a, t) ∷ bs) ≡ insert (b, s) ((a, t) ∷ bs) = ground (arith, e) in
      subst (IsSpaced lo hi) eq (
        join-IsSpaced lo b s hi ((a, t) ∷ bs) lt s8
          (before_apart b s a t bs h.1 (ground (arith, e)) apart, h.1, h.2))
]

in_blocks-join :
    (x a s : ℕ) (bs : List Block)
    → in_blocks x (join (a, s) bs) ≡ in_range a (a + s) x || in_blocks x bs
unfolding join
in_blocks-join x a s [] = refl
in_blocks-join x a s ((b, t) ∷ bs) = ground arith

-- Its bytes are those of the list and of the block.
pub in_blocks-insert :
    (x b s : ℕ) (bs : List Block)
    → in_blocks x (insert (b, s) bs) ≡ in_range b (b + s) x || in_blocks x bs
unfolding insert
in_blocks-insert x b s [] = refl
in_blocks-insert x b s ((a, t) ∷ bs) = ground (
  arith,
  in_blocks-join x a t (insert (b, s) bs),
  in_blocks-join x b s ((a, t) ∷ bs),
  in_blocks-insert x b s bs,
)
