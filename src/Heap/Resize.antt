-- ===== src/Heap/Resize.antt =====
-- `realloc`, `strdup` and `strndup`, which build on `malloc` and `free`.
use lunaria_os.Base.{
  ℕ, ◌+◌, ◌-◌, ◌%◌, ◌^◌, ◌≤◌, ◌<◌, ◌≡◌, refl, ap, List, Option, none, some, Bytes, write, each,
  length, leb, ◌==◌, if◌then◌else◌, arith,
}
use lunaria_os.Str.{strlen, strnlen}
use lunaria_os.Heap.{Heap, malloc, free, align8}
use lunaria_os.Heap.Blocks.{Block, IsChain-agree, IsHeap}
use lunaria_os.Heap.Insert.{insert, IsApart}
use lunaria_os.Heap.Release.{free-Frees}
use lunaria_os.Heap.Size.{align8_lem}

-- `memcpy(p, src, n)` into the payload, for a text `src`
abbrev pub store_text : Heap → ℕ → Bytes → ℕ → Heap
store_text h p src n = record h { payload = each (λ x old. src (x - p)) n p h.payload }

-- the end of `realloc`, with the answer `n` of `malloc`
unfoldable pub moved_block : ℕ → ℕ → ℕ → Option (Heap × ℕ) → Option (Heap × ℕ)
moved_block f ptr payload none = none
moved_block f ptr payload (some (h, n)) =
    let done : Option (Heap × ℕ) =
      elim (free f (store_text h n (λ i. h.payload (ptr + i)) payload) ptr) [
        | none ↦ none
        | some h' ↦ some (h', n)
      ] in
    if n == 0 then some (h, 0) else done

-- the middle of `realloc`: the block `b` keeps `need` bytes, and what is left of it is freed
unfoldable pub split_block : ℕ → Heap → ℕ → ℕ → ℕ → ℕ → Option (Heap × ℕ)
split_block f h ptr b need rest =
    let w1 = write h.words rest ((h.words b + 2 ^ 32 - need) % 2 ^ 32) in
    elim (free f (record h { words = write w1 b need }) (rest + 8)) [
      | none ↦ none
      | some h' ↦ some (h', ptr)
    ]

unfoldable pub shrunk : ℕ → Heap → ℕ → ℕ → ℕ → Option (Heap × ℕ)
shrunk f h ptr b need =
    if leb ((need + 16) % 2 ^ 32) (h.words b)
    then split_block f h ptr b need ((b + need) % 2 ^ 32)
    else some (h, ptr)

unfoldable pub realloc : ℕ → ℕ → Heap → ℕ → ℕ → Option (Heap × ℕ)
realloc start f h ptr size =
    let payload = (h.words (ptr - 8) + 2 ^ 32 - 8) % 2 ^ 32 in
    let dropped : Option (Heap × ℕ) = elim (free f h ptr) [
      | none ↦ none
      | some h' ↦ some (h', 0)
    ] in
    if ptr == 0
    then malloc start f h size
    else if size == 0
    then dropped
    else if leb size payload
    then shrunk f h ptr (ptr - 8) ((align8 size + 8) % 2 ^ 32)
    else moved_block f ptr payload (malloc start f h size)

-- `if (p) memcpy(p, s, n); return p;`
unfoldable pub with_text : Bytes → ℕ → Option (Heap × ℕ) → Option (Heap × ℕ)
with_text s n none = none
with_text s n (some (h, p)) = if p == 0 then some (h, p) else some (store_text h p s n, p)

-- `g` is the fuel of `strlen`.
unfoldable pub strdup : ℕ → ℕ → ℕ → Heap → Bytes → Option (Heap × ℕ)
strdup start f g h s = elim (strlen g s) [
  | none ↦ none
  | some n ↦ with_text s ((n + 1) % 2 ^ 32) (malloc start f h ((n + 1) % 2 ^ 32))
]

unfoldable pub strndup : ℕ → ℕ → Heap → Bytes → ℕ → Option (Heap × ℕ)
strndup start f h s n =
    let len = strnlen s n in
    with_text (λ i. if i == len then 0 else s i) (len + 1) (malloc start f h ((len + 1) % 2 ^ 32))

-- the header of what is left of a block, and its new size
abbrev split_words : Heap → ℕ → ℕ → ℕ → Bytes
split_words h b rest need = write (write h.words rest ((h.words b + 2 ^ 32 - need) % 2 ^ 32)) b need

split_block_lem :
    (f : ℕ) (h h' : Heap) (ptr b need : ℕ)
    → free f (record h { words = split_words h b (b + need) need }) (b + need + 8) ≡ some h'
    → split_block f h ptr b need (b + need) ≡ some (h', ptr)
unfolding split_block
split_block_lem f h h' ptr b need e = ground (arith, e)

realloc-split_block :
    (start f : ℕ) (h h' : Heap) (b s size need : ℕ)
    → 0 < size
    → need ≡ align8 size + 8
    → size < 2 ^ 32 - 8
    → need + 16 ≤ s
    → b + s < 2 ^ 32
    → h.words b ≡ s
    → split_block f h (b + 8) b need (b + need) ≡ some (h', b + 8)
    → realloc start f h (b + 8) size ≡ some (h', b + 8)
unfolding realloc shrunk
realloc-split_block start f h h' b s size need pos en lt le fits wb e = ground (
  arith,
  align8_lem size,
  back b,
  ap h.words (back b),
  wrap need (omega (arith, le, fits)),
  wrap (b + need) (omega (arith, le, fits)),
  en,
  wb,
  e,
  ap (λ (n : ℕ). n % 2 ^ 32) en,
)
  where
    back : (b : ℕ) → b + 8 - 8 ≡ b
    back b = omega arith

    wrap : (n : ℕ) → n < 2 ^ 32 → n % 2 ^ 32 ≡ n
    wrap n lt = omega arith

-- `realloc` of a block of `s` bytes, header included, to a size that leaves sixteen bytes of it or
-- more: the payload stays where it is with its bytes, and what is left of the block is freed: it goes into the free list, as
-- one block with a free block that it touches.
pub realloc_shrink :
    (start f : ℕ) (h : Heap) (b s size hi : ℕ) (bs : List Block)
    → 0 < b
    → 0 < size
    → align8 size + 24 ≤ s
    → size < 2 ^ 32 - 8
    → b + s ≤ hi
    → h.words b ≡ s
    → IsHeap h hi bs
    → IsApart (b, s) bs
    → length bs < f
    → (h' : Heap) × (realloc start f h (b + 8) size ≡ some (h', b + 8))
      × IsHeap h' hi (insert (b + (align8 size + 8), s - (align8 size + 8)) bs)
      × (h'.payload ≡ h.payload)
realloc_shrink start f h b s size hi bs pos size_pos le lt fits wb w apart fuel =
    let need = align8 size + 8 in
    let h1 : Heap = record h { words = split_words h b (b + need) need } in
    let small : need + 16 < 2 ^ 32 = omega (arith, le, fits, w.small) in
    let freed =
      free-Frees f h1 (b + need) (s - need) hi bs (omega (arith, pos)) (omega (arith, le))
        (omega (arith, le, fits)) (ground (arith, wb, le, fits, w.small))
        (record {
          chain =
              IsChain-agree h.words (split_words h b (b + need) need) h.freelist 0 hi bs
                (λ x e. ground (arith, e, apart x, le)) w.spaced w.chain;
          spaced = w.spaced;
          small = w.small;
          ready = w.ready;
        })
        (λ x. ground (arith, apart x, le)) fuel in
    (
      freed.0,
      realloc-split_block start f h freed.0 b s size need size_pos refl lt (omega (arith, le))
          (omega (arith, fits, w.small)) wb (split_block_lem f h freed.0 (b + 8) b need freed.1),
      freed.2,
      freed.3,
    )
