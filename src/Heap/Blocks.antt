-- ===== src/Heap/Blocks.antt =====
-- A free list as a list of blocks, each an address and a size: the chain of headers that stands for
-- it, its order, and the set of its bytes.
use mathlib.Core.Path.{subst}
use lunaria_os.Heap.{Heap, usable}
use lunaria_os.Base.{
  inr, inl, Bool-cases, sym, ◌∙◌, ℕ, ◌+◌, ◌*◌, ◌^◌, ◌≤◌, ◌<◌, ◌≡◌, refl, List, [], ◌∷◌, Bool, true,
  false, ◌||◌, Bytes, in_range, length, arith,
}

-- an address and a size in bytes, header included
abbrev pub Block : Type 0
Block = ℕ × ℕ

-- the headers from the address `p` on are those of the blocks
abbrev pub IsChain : Bytes → ℕ → List Block → Type 0
IsChain words p [] = p ≡ 0
IsChain words p ((a, s) ∷ bs) = (p ≡ a) × (words a ≡ s) × IsChain words (words (a + 4)) bs

-- The blocks are in address order above `lo` and up to `hi`, each with room for a header, and no two of
-- them touch.
abbrev pub IsSpaced : ℕ → ℕ → List Block → Type 0
IsSpaced lo hi [] = lo ≤ hi
IsSpaced lo hi ((a, s) ∷ bs) = (lo < a) × (8 ≤ s) × IsSpaced (a + s) hi bs

-- whether an address lies in a block
abbrev pub in_blocks : ℕ → List Block → Bool
in_blocks x [] = false
in_blocks x ((a, s) ∷ bs) = in_range a (a + s) x || in_blocks x bs

pub IsSpaced-le : (lo hi : ℕ) (bs : List Block) → IsSpaced lo hi bs → lo ≤ hi
IsSpaced-le lo hi [] h = h
IsSpaced-le lo hi ((a, s) ∷ bs) h = omega (arith, h, IsSpaced-le (a + s) hi bs h.2)

pub IsSpaced-lower :
    (lo lo' hi : ℕ) (bs : List Block) → lo' ≤ lo → IsSpaced lo hi bs → IsSpaced lo' hi bs
IsSpaced-lower lo lo' hi [] le h = omega (arith, le, h)
IsSpaced-lower lo lo' hi ((a, s) ∷ bs) le h = (omega (arith, le, h.0), h.1, h.2)

pub IsSpaced-higher :
    (lo hi hi' : ℕ) (bs : List Block) → hi ≤ hi' → IsSpaced lo hi bs → IsSpaced lo hi' bs
IsSpaced-higher lo hi hi' [] le h = omega (arith, le, h)
IsSpaced-higher lo hi hi' ((a, s) ∷ bs) le h = (h.0, h.1, IsSpaced-higher (a + s) hi hi' bs le h.2)

-- Addresses at or below `lo`, and from `hi` on, are in no block.
pub in_blocks-below :
    (lo hi x : ℕ) (bs : List Block) → x ≤ lo → IsSpaced lo hi bs → in_blocks x bs ≡ false
in_blocks-below lo hi x [] le h = refl
in_blocks-below lo hi x ((a, s) ∷ bs) le h =
    ground (arith, le, h.0, h.1, in_blocks-below (a + s) hi x bs (omega (arith, le, h.0)) h.2)

-- the number of blocks, by the room that they need
pub length-IsSpaced : (lo hi : ℕ) (bs : List Block) → IsSpaced lo hi bs → lo + length bs * 8 ≤ hi
length-IsSpaced lo hi [] h = omega (arith, h)
length-IsSpaced lo hi ((a, s) ∷ bs) h = omega (arith, h.0, h.1, length-IsSpaced (a + s) hi bs h.2)

-- Memories that agree on the blocks have the same chain.
pub IsChain-agree :
    (words words' : Bytes) (p lo hi : ℕ) (bs : List Block)
    → ((x : ℕ) → in_blocks x bs ≡ true → words' x ≡ words x)
    → IsSpaced lo hi bs
    → IsChain words p bs
    → IsChain words' p bs
IsChain-agree words words' p lo hi [] same h c = c
IsChain-agree words words' p lo hi ((a, s) ∷ bs) same h c = (
  c.0,
  same a (ground (arith, h.1)) ∙ c.1,
  subst (λ (q : ℕ). IsChain words' q bs) (sym (same (a + 4) (ground (arith, h.1))))
      (IsChain-agree words words' (words (a + 4)) (a + s) hi bs (λ x e. same x (ground (arith, e)))
        h.2 c.2),
)

-- An address in a block is above `lo`.
pub in_blocks-above :
    (lo hi x : ℕ) (bs : List Block) → in_blocks x bs ≡ true → IsSpaced lo hi bs → lo < x
in_blocks-above lo hi x [] e h = cc
in_blocks-above lo hi x ((a, s) ∷ bs) e h = elim (Bool-cases (in_range a (a + s) x)) [
  | inl here ↦ ground (arith, here, h.0)
  | inr there ↦ omega (arith, h.0, in_blocks-above (a + s) hi x bs (ground (arith, e, there)) h.2)
]

-- The same chain in a memory that agrees above `lo`.
pub IsChain_moved :
    (words words' : Bytes) (p p' lo hi : ℕ) (bs : List Block)
    → IsChain words p bs
    → IsSpaced lo hi bs
    → p' ≡ p
    → ((x : ℕ) → lo < x → words' x ≡ words x)
    → IsChain words' p' bs
IsChain_moved words words' p p' lo hi bs c h e same =
    subst (λ (q : ℕ). IsChain words' q bs) (sym e)
      (IsChain-agree words words' p lo hi bs (λ x e'. same x (in_blocks-above lo hi x bs e' h)) h c)

-- and below `hi`
pub in_blocks-lt :
    (lo hi x : ℕ) (bs : List Block) → in_blocks x bs ≡ true → IsSpaced lo hi bs → x < hi
in_blocks-lt lo hi x [] e h = cc
in_blocks-lt lo hi x ((a, s) ∷ bs) e h = elim (Bool-cases (in_range a (a + s) x)) [
  | inl here ↦ ground (arith, here, IsSpaced-le (a + s) hi bs h.2)
  | inr there ↦ in_blocks-lt (a + s) hi x bs (ground (arith, e, there)) h.2
]

-- The free list of a usable heap is `bs`, all below `hi`.
pub record IsHeap (h : Heap) (hi : ℕ) (bs : List Block) : Type 0 where
  pub chain : IsChain h.words h.freelist bs
  pub spaced : IsSpaced 0 hi bs
  pub small : hi < 2 ^ 32
  pub ready : h.state ≡ usable
