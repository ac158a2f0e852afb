-- ===== src/Heap/Restore.antt =====
-- `free` of what `malloc` gave.
use mathlib.Core.Path.{subst}
use lunaria_os.Base.{
  ℕ, ◌+◌, ◌-◌, ◌^◌, ◌≤◌, ◌<◌, ◌≡◌, ◌≢◌, refl, sym, ◌∙◌, List, [], ◌∷◌, Bool, Option, none, some,
  length, leb, arith, Bool-cases, inl, inr,
}
use lunaria_os.Heap.{Heap, malloc, free, align8, request}
use lunaria_os.Heap.Blocks.{Block, IsSpaced, IsHeap, in_blocks, in_blocks-below}
use lunaria_os.Heap.Take.{first_fit, IsTaken}
use lunaria_os.Heap.Insert.{insert, insert-IsSpaced, in_blocks-insert}
use lunaria_os.Heap.Malloc.{Gives, IsServed, malloc-IsServed'}
use lunaria_os.Heap.Release.{free-Frees}
use lunaria_os.Frames.{user_stack}

-- the first address of one list is not below the first of another with the same bytes
first_le :
    (lo hi a s a' s' : ℕ) (bs bs' : List Block)
    → ((x : ℕ) → in_blocks x ((a, s) ∷ bs) ≡ in_blocks x ((a', s') ∷ bs'))
    → IsSpaced lo hi ((a, s) ∷ bs)
    → IsSpaced lo hi ((a', s') ∷ bs')
    → a' ≤ a
first_le lo hi a s a' s' bs bs' same h h' = elim (Bool-cases (leb a' a)) [
  | inl e ↦ ground (arith, e)
  | inr e ↦
      absurd (
        ground (arith, e, same a, h.1, in_blocks-below (a' + s') hi a bs' (ground (arith, e)) h'.2))
]

-- With the same first address, the first blocks have the same end.
end_le :
    (lo hi a s s' : ℕ) (bs bs' : List Block)
    → ((x : ℕ) → in_blocks x ((a, s) ∷ bs) ≡ in_blocks x ((a, s') ∷ bs'))
    → IsSpaced lo hi ((a, s) ∷ bs)
    → IsSpaced lo hi ((a, s') ∷ bs')
    → s' ≤ s
end_le lo hi a s s' bs bs' same h h' = elim (Bool-cases (leb s' s)) [
  | inl e ↦ ground (arith, e)
  | inr e ↦
      absurd
        (ground (arith, e, same (a + s), in_blocks-below (a + s) hi (a + s) bs (omega arith) h.2))
]

tail_same :
    (lo hi a s x : ℕ) (bs bs' : List Block)
    → in_blocks x ((a, s) ∷ bs) ≡ in_blocks x ((a, s) ∷ bs')
    → IsSpaced (a + s) hi bs
    → IsSpaced (a + s) hi bs'
    → in_blocks x bs ≡ in_blocks x bs'
tail_same lo hi a s x bs bs' same h h' = elim (Bool-cases (leb x (a + s))) [
  | inl e ↦
      in_blocks-below (a + s) hi x bs (ground (arith, e)) h
      ∙ sym (in_blocks-below (a + s) hi x bs' (ground (arith, e)) h')
  | inr e ↦ ground (arith, e, same)
]

-- What is behind equal first blocks.
record IsTail (hi a s s' : ℕ) (bs bs' : List Block) : Type 0 where
  size : s ≡ s'
  spaced : IsSpaced (a + s) hi bs'
  same : (x : ℕ) → in_blocks x bs ≡ in_blocks x bs'

IsTail-same :
    (lo hi a s s' : ℕ) (bs bs' : List Block)
    → ((x : ℕ) → in_blocks x ((a, s) ∷ bs) ≡ in_blocks x ((a, s') ∷ bs'))
    → IsSpaced lo hi ((a, s) ∷ bs)
    → IsSpaced lo hi ((a, s') ∷ bs')
    → IsTail hi a s s' bs bs'
IsTail-same lo hi a s s' bs bs' same h h' =
    let eq : s' ≡ s = omega (
      arith,
      end_le lo hi a s s' bs bs' same h h',
      end_le lo hi a s' s bs' bs (λ x. sym (same x)) h' h,
    ) in
    let spaced' = subst (λ (t : ℕ). IsSpaced (a + t) hi bs') eq h'.2 in
    record {
      size = sym eq;
      spaced = spaced';
      same = λ x. tail_same lo hi a s x bs bs' (ground (arith, eq, same x)) h.2 spaced';
    }

-- Lists in order whose blocks do not touch are equal if they have the same bytes.
pub IsSpaced-unique :
    (lo hi : ℕ) (bs bs' : List Block)
    → ((x : ℕ) → in_blocks x bs ≡ in_blocks x bs')
    → IsSpaced lo hi bs
    → IsSpaced lo hi bs'
    → bs ≡ bs'
IsSpaced-unique lo hi [] [] same h h' = refl
IsSpaced-unique lo hi [] ((a, s) ∷ bs') same h h' = absurd (ground (arith, same a, h'.1))
IsSpaced-unique lo hi ((a, s) ∷ bs) [] same h h' = absurd (ground (arith, same a, h.1))
IsSpaced-unique lo hi ((a, s) ∷ bs) ((a', s') ∷ bs') same h h' =
    let eq : a' ≡ a = omega (
      arith,
      first_le lo hi a s a' s' bs bs' same h h',
      first_le lo hi a' s' a s bs' bs (λ x. sym (same x)) h' h,
    ) in
    let t =
      IsTail-same lo hi a s s' bs bs' (λ x. ground (arith, eq, same x)) h
        (ground (arith, eq, h'.0), h'.1, subst (λ (b : ℕ). IsSpaced (b + s') hi bs') eq h'.2) in
    ground (arith, eq, t.size, IsSpaced-unique (a + s) hi bs bs' t.same h.2 t.spaced)

-- Putting back what was taken gives the list that it was taken from.
insert-IsTaken :
    (need hi : ℕ) (bs : List Block) (b : Block) (left : List Block)
    → 8 ≤ need
    → IsSpaced 0 hi bs
    → IsTaken need 0 hi bs b left
    → insert b left ≡ bs
insert-IsTaken need hi bs b left n8 h t =
    IsSpaced-unique 0 hi (insert b left) bs (λ x. in_blocks-insert x b.0 b.1 left ∙ sym (t.same x))
      (insert-IsSpaced 0 b.0 b.1 hi left t.above (omega (arith, n8, t.enough)) t.inside t.spaced
        t.apart)
      h

-- a heap with the free list `bs`, and the payload bytes, break and address space of `h`
abbrev pub Restored : Heap → ℕ → List Block → Option Heap → Type 0
Restored h hi bs r =
    (h2 : Heap) × (r ≡ some h2)
    × IsHeap h2 hi bs
    × (h2.payload ≡ h.payload)
    × (h2.vm ≡ h.vm)
    × (h2.heap_brk ≡ h.heap_brk)

given-Restored :
    (f : ℕ) (h : Heap) (need hi : ℕ) (bs : List Block) (t : Block × List Block)
    (r : Option (Heap × ℕ))
    → 8 ≤ need
    → length bs + 1 < f
    → IsSpaced 0 hi bs
    → Gives h.payload h.vm h.heap_brk need hi bs t r
    → (h1 : Heap) × (p : ℕ) × (r ≡ some (h1, p)) × Restored h hi bs (free f h1 p)
given-Restored f h need hi bs (b, left) r n8 fuel sp given =
    let (h1, eq, w, taken, sized, bytes, process, brk) = given in
    let freed =
      free-Frees f h1 b.0 b.1 hi left taken.above (omega (arith, n8, taken.enough)) taken.inside
        sized w taken.apart (omega (arith, fuel, taken.count)) in
    (
      h1,
      b.0 + 8,
      eq,
      (
        freed.0,
        freed.1,
        subst (IsHeap freed.0 hi) (insert-IsTaken need hi bs b left n8 sp taken) freed.2,
        freed.3 ∙ bytes,
        freed.4 ∙ process,
        freed.5 ∙ brk,
      ),
    )

served-Restored :
    (f : ℕ) (h : Heap) (need req hi : ℕ) (bs : List Block) (o : Option (Block × List Block))
    (room : Bool) (r : Option (Heap × ℕ))
    → 8 ≤ need
    → length bs + 1 < f
    → IsSpaced 0 hi bs
    → o ≢ none
    → IsServed h need req hi bs o room r
    → (h1 : Heap) × (p : ℕ) × (r ≡ some (h1, p)) × Restored h hi bs (free f h1 p)
served-Restored f h need req hi bs none room r n8 fuel sp some_fits served = absurd (some_fits refl)
served-Restored f h need req hi bs (some t) room r n8 fuel sp some_fits served =
    given-Restored f h need hi bs t r n8 fuel sp served

-- `free` takes back what `malloc` gave: where a free block fits the request, `malloc` answers a
-- payload whose `free` gives the free list that was there before, split and merged blocks included, with the
-- payload bytes, the break and the address space of before.
pub free-malloc :
    (start f : ℕ) (h : Heap) (size hi : ℕ) (bs : List Block)
    → size < 2 ^ 32 - 8192
    → length bs + 1 < f
    → IsHeap h hi bs
    → hi ≤ h.heap_brk
    → 0 < h.heap_brk
    → h.vm.brk ≡ h.heap_brk
    → h.heap_brk ≤ user_stack
    → first_fit (align8 size + 8) bs ≢ none
    → (h1 : Heap) × (p : ℕ) × (malloc start f h size ≡ some (h1, p))
      × Restored h hi bs (free f h1 p)
free-malloc start f h size hi bs lt fuel w le pos same below fits =
    let need = align8 size + 8 in
    served-Restored f h need (request need) hi bs (first_fit need bs)
      (leb (h.heap_brk + request need) user_stack) (malloc start f h size) (omega arith) fuel
      w.spaced fits (malloc-IsServed' start f h size hi bs lt fuel w le pos same below)
