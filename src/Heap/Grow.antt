-- ===== src/Heap/Grow.antt =====
-- What `morecore` does to the free list: the new bytes come at its end.
use mathlib.Core.Path.{subst}
use lunaria_os.Base.{
  ℕ, zero, suc, ◌+◌, ◌^◌, ◌≤◌, ◌<◌, ◌≡◌, refl, sym, ap, ◌∙◌, List, [], ◌∷◌, true, false, some,
  Bytes, write, length, ◌==◌, if◌then◌else◌, arith, Bool-cases, inl, inr,
}
use lunaria_os.Heap.{Heap, last_block, append_block, grown}
use lunaria_os.Heap.Blocks.{
  Block, IsChain, IsSpaced, IsSpaced-le, IsSpaced-higher, IsChain-agree, in_blocks-lt, IsHeap,
}
use lunaria_os.Heap.Take.{fits_none}

-- The list with `req` bytes from `b` on: they join the last block if that ends there.
unfoldable pub add_last : ℕ → ℕ → List Block → List Block
add_last b req [] = (b, req) ∷ []
add_last b req ((a, s) ∷ []) = if a + s == b then (a, s + req) ∷ [] else (a, s) ∷ (b, req) ∷ []
add_last b req (x ∷ y ∷ ys) = x ∷ add_last b req (y ∷ ys)

pub add_last-IsSpaced :
    (lo b req : ℕ) (bs : List Block)
    → 8 ≤ req
    → lo < b
    → IsSpaced lo b bs
    → IsSpaced lo (b + req) (add_last b req bs)
unfolding add_last
add_last-IsSpaced lo b req [] r8 lt h = (lt, r8, omega arith)
add_last-IsSpaced lo b req ((a, s) ∷ []) r8 lt h = elim (Bool-cases (a + s == b)) [
  | inl e ↦
      let eq : (a, s + req) ∷ [] ≡ add_last b req ((a, s) ∷ []) = ground (arith, e) in
      subst (IsSpaced lo (b + req)) eq (h.0, omega (arith, h.1), ground (arith, e))
  | inr e ↦
      let eq : (a, s) ∷ (b, req) ∷ [] ≡ add_last b req ((a, s) ∷ []) = ground (arith, e) in
      subst (IsSpaced lo (b + req)) eq (h.0, h.1, (ground (arith, e, h.2), r8, omega arith))
]
add_last-IsSpaced lo b req ((a, s) ∷ (a', s') ∷ ys) r8 lt h = (
  h.0,
  h.1,
  add_last-IsSpaced (a + s) b req ((a', s') ∷ ys) r8
      (omega (arith, h.2.0, h.2.1, IsSpaced-le (a' + s') b ys h.2.2)) h.2,
)

-- A request of at most `req` bytes fits then.
pub fits_none-add_last :
    (need b req : ℕ) (bs : List Block) → need ≤ req → fits_none need (add_last b req bs) ≡ false
unfolding add_last fits_none
fits_none-add_last need b req [] le = ground arith
fits_none-add_last need b req ((a, s) ∷ []) le = ground arith
fits_none-add_last need b req ((a, s) ∷ y ∷ ys) le =
    ground (arith, fits_none-add_last need b req (y ∷ ys) le)

-- What `append_block` does to the list whose last block is `q`, above `lo`.
pub record IsAppended (h : Heap) (b req lo p q : ℕ) (bs : List Block) : Type 0 where
  pub linked : IsChain (append_block h b q).words p (add_last b req bs)
  pub below : (x : ℕ) → x ≤ lo → (append_block h b q).words x ≡ h.words x

append_one-IsAppended :
    (h : Heap) (b req lo a s : ℕ)
    → h.words b ≡ req
    → h.words (b + 4) ≡ 0
    → b + req < 2 ^ 32
    → IsSpaced lo b ((a, s) ∷ [])
    → h.words a ≡ s
    → h.words (a + 4) ≡ 0
    → IsAppended h b req lo a a ((a, s) ∷ [])
unfolding add_last append_block
append_one-IsAppended h b req lo a s wb wn small sp sized end = elim (Bool-cases (a + s == b)) [
  | inl e ↦ record {
    linked =
        let eq : (a, s + req) ∷ [] ≡ add_last b req ((a, s) ∷ []) = ground (arith, e) in
        subst (IsChain (append_block h b a).words a) eq
          (refl, ground (arith, e, sized, wb, sp.2), ground (arith, e, sized, end, sp.2));
    below = λ x at. ground (arith, sp.0, at);
  }
  | inr e ↦ record {
    linked =
        let eq : (a, s) ∷ (b, req) ∷ [] ≡ add_last b req ((a, s) ∷ []) = ground (arith, e) in
        subst (IsChain (append_block h b a).words a) eq (
          refl,
          ground (arith, e, sized, sp.2),
          (
            ground (arith, e, sized, sp.2),
            ground (arith, e, wb, sp.1, sp.2),
            ground (arith, e, wn, sp.1, sp.2),
          ),
        );
    below = λ x at. ground (arith, sp.0, at);
  }
]

later-IsAppended :
    (h : Heap) (b req lo p a s q : ℕ) (x : Block) (ys : List Block)
    → lo < a
    → 8 ≤ s
    → p ≡ a
    → h.words a ≡ s
    → IsAppended h b req (a + s) (h.words (a + 4)) q (x ∷ ys)
    → IsAppended h b req lo p q ((a, s) ∷ x ∷ ys)
unfolding add_last
later-IsAppended h b req lo p a s q x ys above s8 at sized t = record {
  linked = (
    at,
    t.below a (omega arith) ∙ sized,
    subst (λ (w : ℕ). IsChain (append_block h b q).words w (add_last b req (x ∷ ys)))
        (sym (t.below (a + 4) (omega arith))) t.linked,
  );
  below = λ y le. t.below y (omega (arith, le, above));
}

-- `morecore` finds the last block of the list and puts the new one, already at `b`, behind it.
pub last_block-IsAppended :
    (f : ℕ) (h : Heap) (b req lo p : ℕ) (x : Block) (bs : List Block)
    → h.words b ≡ req
    → h.words (b + 4) ≡ 0
    → b + req < 2 ^ 32
    → IsSpaced lo b (x ∷ bs)
    → IsChain h.words p (x ∷ bs)
    → length bs < f
    → (q : ℕ) × (last_block f h.words p ≡ some q) × IsAppended h b req lo p q (x ∷ bs)
unfolding last_block
last_block-IsAppended zero h b req lo p x bs wb wn small sp c fuel = absurd (omega (arith, fuel))
last_block-IsAppended (suc f) h b req lo p (a, s) [] wb wn small sp c fuel =
    subst
      (λ (r : ℕ).
        (q : ℕ) × (last_block (suc f) h.words r ≡ some q) × IsAppended h b req lo r q ((a, s) ∷ []))
      (sym c.0)
      (a, ground (arith, c.2), append_one-IsAppended h b req lo a s wb wn small sp c.1 c.2)
last_block-IsAppended (suc f) h b req lo p (a, s) (y ∷ ys) wb wn small sp c fuel =
    let (q, found, t) =
      last_block-IsAppended f h b req (a + s) (h.words (a + 4)) y ys wb wn small sp.2 c.2
        (omega (arith, fuel)) in
    (
      q,
      ground (arith, found, c.0, c.2.0, sp.2.0, ap (λ (r : ℕ). h.words (r + 4)) c.0),
      later-IsAppended h b req lo p a s q y ys sp.0 sp.1 c.0 c.1 t,
    )

-- What a heap is after it has grown by `req` bytes.
pub record IsGrown (h h' : Heap) (req : ℕ) (bs : List Block) : Type 0 where
  pub heap : IsHeap h' (h.heap_brk + req) (add_last h.heap_brk req bs)
  pub brk : h'.heap_brk ≡ h.heap_brk + req
  pub process : h'.vm ≡ h.vm
  pub bytes : h'.payload ≡ h.payload

-- the header of the new block does not touch the list
new_block-IsChain :
    (h : Heap) (b req hi : ℕ) (bs : List Block)
    → IsHeap h hi bs
    → hi ≤ b
    → IsChain (write (write h.words b req) (b + 4) 0) h.freelist bs
new_block-IsChain h b req hi bs w le =
    IsChain-agree h.words (write (write h.words b req) (b + 4) 0) h.freelist 0 hi bs
      (λ x e. ground (arith, in_blocks-lt 0 hi x bs e w.spaced)) w.spaced w.chain

-- the heap with the header of the new block
abbrev with_block : Heap → ℕ → Heap
with_block h req = record h {
  heap_brk = h.heap_brk + req;
  words = write (write h.words h.heap_brk req) (h.heap_brk + 4) 0;
}

new_head-IsChain :
    (words : Bytes) (b req : ℕ)
    → IsChain (write (write words b req) (b + 4) 0) b (add_last b req [])
unfolding add_last
new_head-IsChain words b req = (refl, ground arith, ground arith)

append_block_kept :
    (h : Heap) (b q : ℕ)
    → ((append_block h b q).freelist ≡ h.freelist)
      × ((append_block h b q).state ≡ h.state)
      × ((append_block h b q).heap_brk ≡ h.heap_brk)
      × ((append_block h b q).vm ≡ h.vm)
      × ((append_block h b q).payload ≡ h.payload)
unfolding append_block
append_block_kept h b q = (refl, refl, refl, refl, refl)

module _ (f : ℕ) (h : Heap) (req hi : ℕ) (le : hi ≤ h.heap_brk) (pos : 0 < h.heap_brk)
    (small : h.heap_brk + req < 2 ^ 32) (r8 : 8 ≤ req) where
  grown_first :
      IsHeap h hi []
      → (h' : Heap) × (grown f (h, h.heap_brk + req) req ≡ some (h', true)) × IsGrown h h' req []
  unfolding grown
  grown_first w = (
    record (with_block h req) { freelist = h.heap_brk },
    ground (arith, w.chain),
    record {
      heap = record {
        chain = new_head-IsChain h.words h.heap_brk req;
        spaced = add_last-IsSpaced 0 h.heap_brk req [] r8 pos (omega arith);
        small = small;
        ready = w.ready;
      };
      brk = refl;
      process = refl;
      bytes = refl;
    },
  )

  grown_onto :
      (x : Block) (bs : List Block) (q : ℕ)
      → IsHeap h hi (x ∷ bs)
      → last_block f (with_block h req).words h.freelist ≡ some q
      → IsAppended (with_block h req) h.heap_brk req 0 h.freelist q (x ∷ bs)
      → (h' : Heap) × (grown f (h, h.heap_brk + req) req ≡ some (h', true))
        × IsGrown h h' req (x ∷ bs)
  unfolding grown
  grown_onto x bs q w found t =
      let kept = append_block_kept (with_block h req) h.heap_brk q in
      (
        append_block (with_block h req) h.heap_brk q,
        ground (arith, found, w.chain.0, w.spaced.0),
        record {
          heap = record {
            chain =
                subst
                  (λ (p : ℕ).
                    IsChain (append_block (with_block h req) h.heap_brk q).words p
                      (add_last h.heap_brk req (x ∷ bs)))
                  (sym kept.0) t.linked;
            spaced =
                add_last-IsSpaced 0 h.heap_brk req (x ∷ bs) r8 pos
                  (IsSpaced-higher 0 hi h.heap_brk (x ∷ bs) le w.spaced);
            small = small;
            ready = kept.1 ∙ w.ready;
          };
          brk = kept.2;
          process = kept.3;
          bytes = kept.4;
        },
      )

  pub grown-IsGrown :
      (bs : List Block)
      → IsHeap h hi bs
      → length bs ≤ f
      → (h' : Heap) × (grown f (h, h.heap_brk + req) req ≡ some (h', true)) × IsGrown h h' req bs
  grown-IsGrown [] w fuel = grown_first w
  grown-IsGrown (x ∷ bs) w fuel =
      let placed =
        last_block-IsAppended f (with_block h req) h.heap_brk req 0 h.freelist x bs (ground arith)
          (ground arith) small (IsSpaced-higher 0 hi h.heap_brk (x ∷ bs) le w.spaced)
          (new_block-IsChain h h.heap_brk req hi (x ∷ bs) w le) (omega (arith, fuel)) in
      grown_onto x bs placed.0 w placed.1 placed.2
