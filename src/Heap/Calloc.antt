-- ===== src/Heap/Calloc.antt =====
-- `calloc`: what it answers, and the bytes that it clears.
use mathlib.Core.Path.{subst}
use lunaria_os.Base.{
  false, true, Bool, each_lem, ℕ, ◌+◌, ◌*◌, ◌/◌, ◌%◌, ◌^◌, ◌≤◌, ◌<◌, ◌≡◌, ◌≢◌, refl, sym, ap, ◌∙◌,
  not, ◌&&◌, Option, none, some, each, ltb, leb, ◌==◌, if◌then◌else◌, arith, Bool-cases, inl, inr,
}
use native.Mathlib.Nat.{div-eq_of_eq-mul_right, div-mul-le_self, mul_comm, zero-mul}
use lunaria_os.Heap.{Heap, malloc}

-- whether some of the `n` bytes from `p` on belong to the word at `a`
abbrev pub touches : ℕ → ℕ → ℕ → Bool
touches p n a = ltb p (a + 4) && ltb a (p + n)

-- the word `old` at `a` after the clearing of `n` bytes from `p` on, byte by byte
abbrev pub cleared_word : ℕ → ℕ → ℕ → ℕ → ℕ
cleared_word p n a old =
    let byte : ℕ → ℕ =
      λ i. if leb p (a + i) && ltb (a + i) (p + n) then 0 else old / 2 ^ (8 * i) % 2 ^ 8 in
    if touches p n a then byte 0 + byte 1 * 2 ^ 8 + byte 2 * 2 ^ 16 + byte 3 * 2 ^ 24 else old

-- `if (p) memset(p, 0, total); return p;`, which runs over the headers behind the block where there is no room
-- for that many bytes
unfoldable pub cleared : ℕ → Option (Heap × ℕ) → Option (Heap × ℕ)
cleared total none = none
cleared total (some (h, p)) =
    if p == 0
    then some (h, p)
    else some (
      record h {
        payload = each (λ x old. 0) total p h.payload;
        words = λ a. cleared_word p total a (h.words a);
      },
      p,
    )

unfoldable pub calloc : ℕ → ℕ → Heap → ℕ → ℕ → Option (Heap × ℕ)
calloc start f h count size =
    let total = count * size % 2 ^ 32 in
    if not (count == 0) && not (total / count == size)
    then some (h, 0)
    else cleared total (malloc start f h total)

fits_word :
    (count size : ℕ) → 0 < count → count * size < 2 ^ 32 → count * size % 2 ^ 32 / count ≡ size
fits_word count size pos lt =
    ap (λ (t : ℕ). t / count) (fits (count * size) lt) ∙ div-eq_of_eq-mul_right pos refl
  where
    fits : (t : ℕ) → t < 2 ^ 32 → t % 2 ^ 32 ≡ t
    fits t lt = omega arith

wraps : (count size : ℕ) → 0 < count → 2 ^ 32 ≤ count * size → count * size % 2 ^ 32 / count ≢ size
wraps count size pos le e =
    below (count * size) le
      (subst (λ (q : ℕ). q * count ≤ count * size % 2 ^ 32) e
        (div-mul-le_self (count * size % 2 ^ 32) count))
      (mul_comm size count)
  where
    below : (t : ℕ) → 2 ^ 32 ≤ t → size * count ≤ t % 2 ^ 32 → size * count ≡ t → ⊥
    below t le h e' = omega arith

-- `r` is the answer of `malloc`, `r'` the same with the `n` bytes of the payload zero. Of the headers only a word with one
-- of these bytes can change: there is none where the block has room for `n` bytes.
abbrev pub IsZeroed : ℕ → Option (Heap × ℕ) → Option (Heap × ℕ) → Type 0
IsZeroed n none r' = r' ≡ none
IsZeroed n (some (h, p)) r' =
    (h' : Heap) × (r' ≡ some (h', p))
    × (h' ≡ record h { payload = h'.payload; words = h'.words })
    × ((a : ℕ) → h'.words a ≡ (if touches p n a then h'.words a else h.words a))
    × ((j : ℕ)
        → h'.payload j ≡ (if (ltb 0 p && (leb p j && ltb j (p + n))) then 0 else h.payload j))

cleared-IsZeroed : (n : ℕ) (r : Option (Heap × ℕ)) → IsZeroed n r (cleared n r)
unfolding cleared
cleared-IsZeroed n none = refl
cleared-IsZeroed n (some (h, p)) = elim (Bool-cases (p == 0)) [
  | inl e ↦ rw e (h, refl, refl, (λ a. same (touches p n a) (h.words a)), λ j. ground (arith, e))
  | inr e ↦ rw e (
    record h {
      payload = each (λ x old. 0) n p h.payload;
      words = λ a. cleared_word p n a (h.words a);
    },
    refl,
    refl,
    (λ a. kept (touches p n a) _ (h.words a)),
    λ j. ground (arith, e, each_lem (λ x old. 0) n p h.payload j),
  )
]
  where
    same : (b : Bool) (x : ℕ) → x ≡ (if b then x else x)
    same true x = refl
    same false x = refl

    kept : (b : Bool) (x y : ℕ) → (if b then x else y) ≡ (if b then (if b then x else y) else y)
    kept true x y = refl
    kept false x y = refl

calloc_cases :
    (start f : ℕ) (h : Heap) (count size : ℕ)
    → count < 2 ^ 32
    → size < 2 ^ 32
    → calloc start f h count size ≡ (
        if ltb (count * size) (2 ^ 32)
        then cleared (count * size) (malloc start f h (count * size))
        else some (h, 0))
unfolding calloc
calloc_cases start f h count size c s = elim (Bool-cases (count == 0)) [
  | inl none_at_all ↦
      let nothing : count * size ≡ 0 =
        ap (λ (c : ℕ). c * size) (ground (arith, none_at_all)) ∙ zero-mul size in
      ground (
        arith,
        none_at_all,
        nothing,
        ap (λ (t : ℕ). cleared t (malloc start f h t))
            (ap (λ (t : ℕ). t % 2 ^ 32) nothing ∙ sym nothing),
      )
  | inr some_count ↦ elim (Bool-cases (ltb (count * size) (2 ^ 32))) [
    | inl e ↦ ground (
      arith,
      e,
      some_count,
      fits_word count size,
      ap (λ (t : ℕ). cleared t (malloc start f h t)) (fits (count * size) (ground (arith, e))),
    )
    | inr e ↦ ground (arith, e, some_count, wraps count size)
  ]
]
  where
    fits : (t : ℕ) → t < 2 ^ 32 → t % 2 ^ 32 ≡ t
    fits t lt = omega arith

-- the answer of `calloc` where the product has 32 bits, and where it has more
abbrev pub IsCalloc : Bool → ℕ → Heap → Option (Heap × ℕ) → Option (Heap × ℕ) → Type 0
IsCalloc true n h r r' = IsZeroed n r r'
IsCalloc false n h r r' = r' ≡ some (h, 0)

branch-IsCalloc :
    (b : Bool) (n : ℕ) (h : Heap) (r : Option (Heap × ℕ))
    → IsCalloc b n h r (if b then cleared n r else some (h, 0))
branch-IsCalloc true n h r = cleared-IsZeroed n r
branch-IsCalloc false n h r = refl

-- `calloc` for every two 32-bit arguments: if their product has 32 bits, the answer is that of `malloc`
-- for the product, with the bytes of the payload zero, as many as the product says, and no other change (where
-- the product is so large that the block that `malloc` gives is too short, headers behind it are cleared too);
-- otherwise it is the null pointer and the heap is unchanged.
pub calloc_lem :
    (start f : ℕ) (h : Heap) (count size : ℕ)
    → count < 2 ^ 32
    → size < 2 ^ 32
    → IsCalloc
        (ltb (count * size) (2 ^ 32))
        (count * size)
        h
        (malloc start f h (count * size))
        (calloc start f h count size)
calloc_lem start f h count size c s =
    let n = count * size in
    let r = malloc start f h n in
    subst (IsCalloc (ltb n (2 ^ 32)) n h r) (sym (calloc_cases start f h count size c s))
      (branch-IsCalloc (ltb n (2 ^ 32)) n h r)
