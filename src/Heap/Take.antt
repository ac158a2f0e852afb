-- ===== src/Heap/Take.antt =====
-- What `malloc` takes from the free list: the first block that fits, or its front.
use mathlib.Core.Path.{subst}
use lunaria_os.Base.{
  ℕ, ◌+◌, ◌-◌, ◌≤◌, ◌<◌, ◌≡◌, refl, List, [], ◌∷◌, Bool, true, false, ◌&&◌, ◌||◌, Option, none,
  some, in_range, length, ltb, leb, if◌then◌else◌, arith, Bool-cases, inl, inr,
}
use lunaria_os.Heap.Blocks.{
  Block, IsSpaced, in_blocks, IsSpaced-le, IsSpaced-lower, in_blocks-below,
}

-- an answer for the blocks behind the first, as one for them all
abbrev pub behind_block : Block → Option (Block × List Block) → Option (Block × List Block)
behind_block b none = none
behind_block b (some (taken, left)) = some (taken, b ∷ left)

-- the block that a request gets, and the list that is left
unfoldable pub first_fit : ℕ → List Block → Option (Block × List Block)
first_fit need [] = none
first_fit need ((a, s) ∷ bs) =
    let later = behind_block (a, s) (first_fit need bs) in
    if leb (need + 16) s
    then some ((a, need), (a + need, s - need) ∷ bs)
    else if leb need s
    then some ((a, s), bs)
    else later

-- A request that no block fits.
unfoldable pub fits_none : ℕ → List Block → Bool
fits_none need [] = true
fits_none need ((a, s) ∷ bs) = ltb s need && fits_none need bs

-- What a taken block is: big enough, out of the list, and the list keeps its order.
pub record IsTaken (need lo hi : ℕ) (bs : List Block) (b : Block) (left : List Block) : Type 0 where
  pub enough : need ≤ b.1
  pub count : length left ≤ length bs
  pub above : lo < b.0
  pub inside : b.0 + b.1 ≤ hi
  pub spaced : IsSpaced lo hi left
  pub apart : (x : ℕ) → (in_range b.0 (b.0 + b.1) x && in_blocks x left) ≡ false
  pub same : (x : ℕ) → in_blocks x bs ≡ in_range b.0 (b.0 + b.1) x || in_blocks x left

-- The front of a block, a whole block, and a block behind another.
split-IsTaken :
    (need lo hi a s : ℕ) (bs : List Block)
    → 8 ≤ need
    → need + 16 ≤ s
    → IsSpaced lo hi ((a, s) ∷ bs)
    → IsTaken need lo hi ((a, s) ∷ bs) (a, need) ((a + need, s - need) ∷ bs)
split-IsTaken need lo hi a s bs n8 le h = record {
  enough = omega arith;
  count = omega arith;
  above = h.0;
  inside = omega (arith, le, IsSpaced-le (a + s) hi bs h.2);
  spaced = (
    omega (arith, h.0, n8),
    omega (arith, le),
    IsSpaced-lower (a + s) (a + need + (s - need)) hi bs (omega (arith, le)) h.2,
  );
  apart = λ x. ground (arith, le, behind x);
  same = λ x. ground (arith, le, n8);
}
  where
    behind : (x : ℕ) → (ltb x (a + s) && in_blocks x bs) ≡ false
    behind x = elim (Bool-cases (ltb x (a + s))) [
      | inl e ↦ ground (arith, e, in_blocks-below (a + s) hi x bs (ground (arith, e)) h.2)
      | inr e ↦ ground (arith, e)
    ]

whole-IsTaken :
    (need lo hi a s : ℕ) (bs : List Block)
    → need ≤ s
    → IsSpaced lo hi ((a, s) ∷ bs)
    → IsTaken need lo hi ((a, s) ∷ bs) (a, s) bs
whole-IsTaken need lo hi a s bs le h = record {
  enough = le;
  count = omega arith;
  above = h.0;
  inside = IsSpaced-le (a + s) hi bs h.2;
  spaced = IsSpaced-lower (a + s) lo hi bs (omega (arith, h.0)) h.2;
  apart = λ x. behind x;
  same = λ x. refl;
}
  where
    behind : (x : ℕ) → (in_range a (a + s) x && in_blocks x bs) ≡ false
    behind x = elim (Bool-cases (ltb x (a + s))) [
      | inl e ↦ ground (arith, e, in_blocks-below (a + s) hi x bs (ground (arith, e)) h.2)
      | inr e ↦ ground (arith, e)
    ]

later-IsTaken :
    (need lo hi a s : ℕ) (bs : List Block) (b : Block) (left : List Block)
    → IsSpaced lo hi ((a, s) ∷ bs)
    → IsTaken need (a + s) hi bs b left
    → IsTaken need lo hi ((a, s) ∷ bs) b ((a, s) ∷ left)
later-IsTaken need lo hi a s bs b left h t = record {
  enough = t.enough;
  count = omega (arith, t.count);
  above = omega (arith, h.0, t.above);
  inside = t.inside;
  spaced = (h.0, h.1, t.spaced);
  apart = λ x. ground (arith, t.apart x, t.above);
  same = λ x. ground (arith, t.same x);
}

-- What the search answers: no block fits, or the first that does is taken.
abbrev pub IsAnswer : ℕ → ℕ → ℕ → List Block → Option (Block × List Block) → Type 0
IsAnswer need lo hi bs none = fits_none need bs ≡ true
IsAnswer need lo hi bs (some (b, left)) = IsTaken need lo hi bs b left

later-IsAnswer :
    (need lo hi a s : ℕ) (bs : List Block) (o : Option (Block × List Block))
    → s < need
    → IsSpaced lo hi ((a, s) ∷ bs)
    → IsAnswer need (a + s) hi bs o
    → IsAnswer need lo hi ((a, s) ∷ bs) (behind_block (a, s) o)
unfolding fits_none
later-IsAnswer need lo hi a s bs none lt h t = ground (arith, lt, t)
later-IsAnswer need lo hi a s bs (some (b, left)) lt h t =
    later-IsTaken need lo hi a s bs b left h t

pub first_fit-IsAnswer :
    (need lo hi : ℕ) (bs : List Block)
    → 8 ≤ need
    → IsSpaced lo hi bs
    → IsAnswer need lo hi bs (first_fit need bs)
unfolding first_fit fits_none
first_fit-IsAnswer need lo hi [] n8 h = refl
first_fit-IsAnswer need lo hi ((a, s) ∷ bs) n8 h = elim (Bool-cases (leb (need + 16) s)) [
  | inl e ↦
      let eq : some ((a, need), (a + need, s - need) ∷ bs) ≡ first_fit need ((a, s) ∷ bs) =
        ground (arith, e) in
      subst (IsAnswer need lo hi ((a, s) ∷ bs)) eq
        (split-IsTaken need lo hi a s bs n8 (ground (arith, e)) h)
  | inr e ↦ elim (Bool-cases (leb need s)) [
    | inl e' ↦
        let eq : some ((a, s), bs) ≡ first_fit need ((a, s) ∷ bs) = ground (arith, e, e') in
        subst (IsAnswer need lo hi ((a, s) ∷ bs)) eq
          (whole-IsTaken need lo hi a s bs (ground (arith, e')) h)
    | inr e' ↦
        let eq : behind_block (a, s) (first_fit need bs) ≡ first_fit need ((a, s) ∷ bs) =
          ground (arith, e, e') in
        subst (IsAnswer need lo hi ((a, s) ∷ bs)) eq (
          later-IsAnswer need lo hi a s bs (first_fit need bs) (ground (arith, e')) h
            (first_fit-IsAnswer need (a + s) hi bs n8 h.2))
  ]
]
