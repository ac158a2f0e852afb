-- ===== src/Heap/Carve.antt =====
-- The loop of `malloc` over the headers does what `first_fit` does to the list of blocks.
use lunaria_os.Base.{some, ◌+◌, ◌<◌, ◌≢◌, ◌==◌, ◌≡◌, ◌≤◌, List, Option, if◌then◌else◌, ℕ}
use lunaria_os.Base.{
  ℕ, zero, suc, ◌+◌, ◌-◌, ◌^◌, ◌≤◌, ◌<◌, ◌≡◌, ◌≢◌, sym, ◌∙◌, List, [], ◌∷◌, true, ◌||◌, Option,
  none, some, length, leb, ◌==◌, if◌then◌else◌, arith, Bool-cases, inl, inr,
}
use mathlib.Core.Path.{subst}
use lunaria_os.Heap.{Heap, find_fit, carve}
use lunaria_os.Heap.Blocks.{Block, IsChain, IsSpaced, IsSpaced-le, IsChain_moved}
use lunaria_os.Heap.Take.{first_fit, behind_block}

-- the link to a list that comes after the block `prev`, or at the head
abbrev pub link : Heap → ℕ → ℕ
link h prev = if prev == 0 then h.freelist else h.words (prev + 4)

-- What `carve` does behind `prev` and above `lo`: `b` is taken and `left` is linked.
pub record IsCarved (h h' : Heap) (prev lo : ℕ) (b : Block) (left : List Block) : Type 0 where
  pub linked : IsChain h'.words (link h' prev) left
  pub sized : h'.words b.0 ≡ b.1
  pub below : (x : ℕ) → x ≤ lo → x ≢ prev + 4 → h'.words x ≡ h.words x
  pub head : prev ≢ 0 → h'.freelist ≡ h.freelist

-- What the search answers, for an answer of `first_fit`.
abbrev pub Finds : Heap → ℕ → ℕ → ℕ → Option (Block × List Block) → Option (ℕ × ℕ) → Type 0
Finds h need prev lo none r = (q : ℕ) × (r ≡ some (q, 0))
Finds h need prev lo (some (b, left)) r =
    (q : ℕ) × (r ≡ some (q, b.0)) × IsCarved h (carve h need q b.0) prev lo b left

carve_split-IsCarved :
    (h : Heap) (need prev lo hi a s : ℕ) (bs : List Block)
    → 8 ≤ need
    → need + 16 ≤ s
    → hi < 2 ^ 32
    → (prev == 0 || leb (prev + 8) lo) ≡ true
    → IsSpaced lo hi ((a, s) ∷ bs)
    → h.words a ≡ s
    → IsChain h.words (h.words (a + 4)) bs
    → IsCarved h (carve h need prev a) prev lo (a, need) ((a + need, s - need) ∷ bs)
unfolding carve
carve_split-IsCarved h need prev lo hi a s bs n8 le small before sp sized c = record {
  linked = (
    ground (arith, fits),
    ground (arith, fits, sp.0),
    IsChain_moved h.words (carve h need prev a).words (h.words (a + 4)) _ (a + s) hi bs c sp.2
        (ground (arith, fits, sp.0)) (λ x above. ground (arith, fits, sp.0, above)),
  );
  sized = ground (arith, fits, sp.0);
  below = λ x at ne. ground (arith, fits, sp.0, at, ne);
  head = λ ne. ground (arith, fits, ne);
}
  where
    fits : (need + 16 ≤ s) × (a + s < 2 ^ 32)
    fits = (le, omega (arith, small, IsSpaced-le (a + s) hi bs sp.2))

carve_whole-IsCarved :
    (h : Heap) (need prev lo hi a s : ℕ) (bs : List Block)
    → need ≤ s
    → s < need + 16
    → hi < 2 ^ 32
    → (prev == 0 || leb (prev + 8) lo) ≡ true
    → IsSpaced lo hi ((a, s) ∷ bs)
    → h.words a ≡ s
    → IsChain h.words (h.words (a + 4)) bs
    → need + 16 < 2 ^ 32
    → IsCarved h (carve h need prev a) prev lo (a, s) bs
unfolding carve
carve_whole-IsCarved h need prev lo hi a s bs le lt small before sp sized c n32 = record {
  linked =
      IsChain_moved h.words (carve h need prev a).words (h.words (a + 4)) _ (a + s) hi bs c sp.2
        (ground (arith, sized, lt)) (λ x above. ground (arith, lt, sp.0, above, sized));
  sized = ground (arith, sp.0, sized, lt);
  below = λ x at ne. ground (arith, lt, sp.0, at, ne, sized);
  head = λ ne. ground (arith, ne, sized, lt);
}

-- What is taken behind the block `(a, s)` is taken behind `prev`.
later-IsCarved :
    (h h' : Heap) (prev lo a s : ℕ) (b : Block) (left : List Block)
    → (prev == 0 || leb (prev + 8) lo) ≡ true
    → lo < a
    → 8 ≤ s
    → link h prev ≡ a
    → h.words a ≡ s
    → IsCarved h h' a (a + s) b left
    → IsCarved h h' prev lo b ((a, s) ∷ left)
later-IsCarved h h' prev lo a s b left before above s8 linked sized t = record {
  linked = (
    ground (arith, linked, t.below (prev + 4), t.head (omega arith)),
    ground (arith, t.below a, sized),
    subst (λ (q : ℕ). IsChain h'.words q left) (ground arith) t.linked,
  );
  sized = t.sized;
  below = λ x at ne. t.below x (omega (arith, at, above)) (omega (arith, at, above));
  head = λ ne. t.head (omega (arith, above));
}

later-Finds :
    (h : Heap) (need prev lo a s : ℕ) (o : Option (Block × List Block)) (r : Option (ℕ × ℕ))
    → (prev == 0 || leb (prev + 8) lo) ≡ true
    → lo < a
    → 8 ≤ s
    → link h prev ≡ a
    → h.words a ≡ s
    → Finds h need a (a + s) o r
    → Finds h need prev lo (behind_block (a, s) o) r
later-Finds h need prev lo a s none r before above s8 linked sized t = t
later-Finds h need prev lo a s (some (b, left)) r before above s8 linked sized t = (
  t.0,
  t.1,
  later-IsCarved h (carve h need t.0 b.0) prev lo a s b left before above s8 linked sized t.2,
)

-- The search, for a list that comes behind `prev` and above `lo`.
pub find_fit-Finds :
    (f : ℕ) (h : Heap) (need prev p lo hi : ℕ) (bs : List Block)
    → 8 ≤ need
    → need + 16 < 2 ^ 32
    → hi < 2 ^ 32
    → (prev == 0 || leb (prev + 8) lo) ≡ true
    → IsSpaced lo hi bs
    → link h prev ≡ p
    → IsChain h.words p bs
    → length bs < f
    → Finds h need prev lo (first_fit need bs) (find_fit f h.words need prev p)
unfolding find_fit first_fit
find_fit-Finds zero h need prev p lo hi bs n8 n32 small before sp l c fuel =
    absurd (omega (arith, fuel))
find_fit-Finds (suc f) h need prev p lo hi [] n8 n32 small before sp l c fuel =
    (prev, ground (arith, c))
find_fit-Finds (suc f) h need prev p lo hi ((a, s) ∷ bs) n8 n32 small before sp l c fuel =
    subst
      (λ (q : ℕ).
        Finds h need prev lo (first_fit need ((a, s) ∷ bs)) (find_fit (suc f) h.words need prev q))
      (sym c.0)
      (elim (Bool-cases (leb (need + 16) s)) [
        | inl e ↦
            let eq : some ((a, need), (a + need, s - need) ∷ bs) ≡ first_fit need ((a, s) ∷ bs) =
              ground (arith, e) in
            subst
              (λ (o : Option (Block × List Block)).
                Finds h need prev lo o (find_fit (suc f) h.words need prev a))
              eq
              (
                prev,
                ground (arith, e, c.1, sp.0),
                carve_split-IsCarved h need prev lo hi a s bs n8 (ground (arith, e)) small before sp
                    c.1 c.2,
              )
        | inr e ↦ elim (Bool-cases (leb need s)) [
          | inl e' ↦
              let eq : some ((a, s), bs) ≡ first_fit need ((a, s) ∷ bs) = ground (arith, e, e') in
              subst
                (λ (o : Option (Block × List Block)).
                  Finds h need prev lo o (find_fit (suc f) h.words need prev a))
                eq
                (
                  prev,
                  ground (arith, e', c.1, sp.0),
                  carve_whole-IsCarved h need prev lo hi a s bs (ground (arith, e'))
                      (ground (arith, e)) small before sp c.1 c.2 n32,
                )
          | inr e' ↦
              let eq : behind_block (a, s) (first_fit need bs) ≡ first_fit need ((a, s) ∷ bs) =
                ground (arith, e, e') in
              let step : find_fit f h.words need a (h.words (a + 4))
                  ≡ find_fit (suc f) h.words need prev a =
                ground (arith, e', c.1, sp.0) in
              subst
                (λ (o : Option (Block × List Block)).
                  Finds h need prev lo o (find_fit (suc f) h.words need prev a))
                eq
                (subst (Finds h need prev lo (behind_block (a, s) (first_fit need bs))) step (
                  later-Finds h need prev lo a s (first_fit need bs) _ before sp.0 sp.1 (l ∙ c.0)
                    c.1
                    (find_fit-Finds f h need a (h.words (a + 4)) (a + s) hi bs n8 n32 small
                      (ground (arith, sp.1)) sp.2 (ground (arith, sp.0)) c.2
                      (omega (arith, fuel)))))
        ]
      ])
