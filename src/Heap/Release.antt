-- ===== src/Heap/Release.antt =====
-- The loop of `free` over the headers, with the merges, does what `insert` does to the list of blocks.
use mathlib.Core.Path.{subst}
use lunaria_os.Base.{
  ℕ, zero, suc, ◌+◌, ◌^◌, ◌≤◌, ◌<◌, ◌≡◌, refl, sym, ap, ◌∙◌, List, [], ◌∷◌, Option, some, length,
  ltb, arith, Bool-cases, inl, inr,
}
use lunaria_os.Heap.{Heap, find_place, link_block, free}
use lunaria_os.Heap.Blocks.{Block, IsChain, IsSpaced, IsHeap}
use lunaria_os.Heap.Insert.{
  join, insert, IsApart, IsApart-tail, after_apart, before_apart, join_apart, join-IsSpaced,
  insert-IsLoose, insert-IsSpaced,
}
use lunaria_os.Heap.Merge.{IsReleased, link_behind-IsReleased, link_first-IsChain}

-- The loop goes on behind the block `a`, and the list behind it gets the new block.
step-IsReleased :
    (h h' : Heap) (a t a' t' hi : ℕ) (bs bs' : List Block)
    → 8 ≤ t
    → h.words a ≡ t
    → h.words (a + 4) ≡ a'
    → a + t < a'
    → IsSpaced (a + t) hi bs'
    → IsReleased h h' a' bs'
    → IsReleased h h' a (join (a, t) bs')
step-IsReleased h h' a t a' t' hi bs bs' t8 sized next lt sp r = record {
  chain = subst (IsChain h'.words a) (sym (join_apart a t hi bs' sp)) (
    refl,
    r.below a (omega (arith, lt)) ∙ sized,
    subst (λ (q : ℕ). IsChain h'.words q bs') (sym (r.below (a + 4) (omega (arith, lt)) ∙ next))
        r.chain,
  );
  below = λ x at. r.below x (omega (arith, at, lt));
  head = r.head;
}

-- Where the loop stops for a block `b` after the block `a`, and what `free` then does.
abbrev Places : ℕ → Heap → ℕ → ℕ → ℕ → ℕ → List Block → Type 0
Places f h b s a t bs =
    (q : ℕ) × (c : ℕ) × (find_place f h.words b a (h.words (a + 4)) ≡ some (q, c))
    × IsReleased h (link_block h b q c) a (join (a, t) (insert (b, s) bs))

find_place-Places :
    (f : ℕ) (h : Heap) (b s a t hi : ℕ) (bs : List Block)
    → 0 < a
    → 8 ≤ t
    → a + t ≤ b
    → 8 ≤ s
    → b + s ≤ hi
    → hi < 2 ^ 32
    → h.words a ≡ t
    → h.words b ≡ s
    → IsSpaced (a + t) hi bs
    → IsApart (b, s) bs
    → IsChain h.words (h.words (a + 4)) bs
    → length bs < f
    → Places f h b s a t bs
unfolding find_place insert join
find_place-Places zero h b s a t hi bs pos t8 le s8 fits small wa wb sp apart c fuel =
    absurd (omega (arith, fuel))
find_place-Places (suc f) h b s a t hi [] pos t8 le s8 fits small wa wb sp apart c fuel = (
  a,
  h.words (a + 4),
  ground (arith, c),
  link_behind-IsReleased h a t b s (h.words (a + 4)) hi [] pos t8 le s8 small wa wb fits c,
)
find_place-Places (suc f) h b s a t hi ((a', t') ∷ bs) pos t8 le s8 fits small wa wb sp apart c
      fuel =
    elim (Bool-cases (ltb a' b)) [
      | inl e ↦
          let behind = after_apart b s a' t' bs s8 (ground (arith, e)) apart in
          let (q, next, found, r) =
            find_place-Places f h b s a' t' hi bs (omega (arith, sp.0)) sp.1 behind s8 fits small
              c.1 wb sp.2 (IsApart-tail b s a' t' bs apart) c.2 (omega (arith, fuel)) in
          let rest = join (a', t') (insert (b, s) bs) in
          let eq : rest ≡ insert (b, s) ((a', t') ∷ bs) = ground (arith, e) in
          (
            q,
            next,
            ground (
              arith,
              found,
              e,
              c.0,
              sp.0,
              ap (λ (p : ℕ). find_place f h.words b p (h.words (p + 4))) c.0,
            ),
            subst (λ (bs' : List Block). IsReleased h (link_block h b q next) a (join (a, t) bs'))
                eq
                (step-IsReleased h (link_block h b q next) a t a' t' hi bs rest t8 wa c.0 sp.0
                  (join-IsSpaced (a + t) a' t' hi (insert (b, s) bs) sp.0 sp.1 (
                    insert-IsLoose (a' + t') b s hi bs behind s8 fits sp.2
                      (IsApart-tail b s a' t' bs apart)))
                  r),
          )
      | inr e ↦
          let eq : join (b, s) ((a', t') ∷ bs) ≡ insert (b, s) ((a', t') ∷ bs) =
            ground (arith, e) in
          (
            a,
            h.words (a + 4),
            ground (arith, e, c.0),
            subst
                (λ (bs' : List Block).
                  IsReleased h (link_block h b a (h.words (a + 4))) a (join (a, t) bs'))
                eq
                (link_behind-IsReleased h a t b s (h.words (a + 4)) hi ((a', t') ∷ bs) pos t8 le s8
                  small wa wb (before_apart b s a' t' bs sp.1 (ground (arith, e)) apart, sp.1, sp.2)
                  c),
          )
    ]

-- `free` of the block at `b`: `h'` has the list with the block.
abbrev pub Frees : Heap → ℕ → ℕ → ℕ → List Block → Option Heap → Type 0
Frees h hi b s bs r =
    (h' : Heap) × (r ≡ some h')
    × IsHeap h' hi (insert (b, s) bs)
    × (h'.payload ≡ h.payload)
    × (h'.vm ≡ h.vm)
    × (h'.heap_brk ≡ h.heap_brk)

link_block_kept :
    (h : Heap) (b q c : ℕ)
    → ((link_block h b q c).state ≡ h.state)
      × ((link_block h b q c).payload ≡ h.payload)
      × ((link_block h b q c).vm ≡ h.vm)
      × ((link_block h b q c).heap_brk ≡ h.heap_brk)
unfolding link_block
link_block_kept h b q c = ground arith

linked-Frees :
    (f : ℕ) (h : Heap) (b s q c hi : ℕ) (bs : List Block)
    → 0 < b
    → 8 ≤ s
    → b + s ≤ hi
    → IsHeap h hi bs
    → IsApart (b, s) bs
    → find_place f h.words b 0 h.freelist ≡ some (q, c)
    → IsChain (link_block h b q c).words (link_block h b q c).freelist (insert (b, s) bs)
    → Frees h hi b s bs (free f h (b + 8))
unfolding free
linked-Frees f h b s q c hi bs pos s8 fits w apart found chain =
    let kept = link_block_kept h b q c in
    (
      link_block h b q c,
      ground (arith, found),
      record {
        chain = chain;
        spaced = insert-IsSpaced 0 b s hi bs pos s8 fits w.spaced apart;
        small = w.small;
        ready = kept.0 ∙ w.ready;
      },
      kept.1,
      kept.2,
      kept.3,
    )

-- `free` of the payload of a block at `b`, of `s` bytes with its header, that lies below `hi` and has
-- no free byte, with a round of fuel for each free block and one more: the loop ends, the block
-- takes its place in address order, and it becomes one with a free block that ends where it begins
-- and with one that begins where it ends. The free list stays in order with no two blocks that touch,
-- and payload bytes, break and address space are as before.
pub free-Frees :
    (f : ℕ) (h : Heap) (b s hi : ℕ) (bs : List Block)
    → 0 < b
    → 8 ≤ s
    → b + s ≤ hi
    → h.words b ≡ s
    → IsHeap h hi bs
    → IsApart (b, s) bs
    → length bs < f
    → Frees h hi b s bs (free f h (b + 8))
unfolding find_place insert join
free-Frees zero h b s hi bs pos s8 fits wb w apart fuel = absurd (omega (arith, fuel))
free-Frees (suc f) h b s hi [] pos s8 fits wb w apart fuel =
    linked-Frees (suc f) h b s 0 h.freelist hi [] pos s8 fits w apart (ground (arith, w.chain))
      (link_first-IsChain h b s h.freelist hi [] s8 w.small wb fits w.chain)
free-Frees (suc f) h b s hi ((a, t) ∷ bs) pos s8 fits wb w apart fuel =
    elim (Bool-cases (ltb a b)) [
      | inl e ↦
          let (q, c, found, r) =
            find_place-Places f h b s a t hi bs w.spaced.0 w.spaced.1
              (after_apart b s a t bs s8 (ground (arith, e)) apart) s8 fits w.small w.chain.1 wb
              w.spaced.2 (IsApart-tail b s a t bs apart) w.chain.2 (omega (arith, fuel)) in
          let eq : join (a, t) (insert (b, s) bs) ≡ insert (b, s) ((a, t) ∷ bs) =
            ground (arith, e) in
          linked-Frees (suc f) h b s q c hi ((a, t) ∷ bs) pos s8 fits w apart
            (ground (
              arith,
              found,
              e,
              w.chain.0,
              w.spaced.0,
              ap (λ (p : ℕ). find_place f h.words b p (h.words (p + 4))) w.chain.0,
            ))
            (subst (λ (p : ℕ). IsChain (link_block h b q c).words p (insert (b, s) ((a, t) ∷ bs)))
              (sym (r.head ∙ w.chain.0)) (subst (IsChain (link_block h b q c).words a) eq r.chain))
      | inr e ↦
          let eq : join (b, s) ((a, t) ∷ bs) ≡ insert (b, s) ((a, t) ∷ bs) = ground (arith, e) in
          linked-Frees (suc f) h b s 0 h.freelist hi ((a, t) ∷ bs) pos s8 fits w apart
            (ground (arith, e, w.chain.0))
            (subst
              (IsChain (link_block h b 0 h.freelist).words (link_block h b 0 h.freelist).freelist)
              eq
              (link_first-IsChain h b s h.freelist hi ((a, t) ∷ bs) s8 w.small wb
                (
                  before_apart b s a t bs w.spaced.1 (ground (arith, e)) apart,
                  w.spaced.1,
                  w.spaced.2,
                )
                w.chain))
    ]
