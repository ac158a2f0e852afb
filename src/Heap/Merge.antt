-- ===== src/Heap/Merge.antt =====
-- The end of `free`, where a block is linked and merged: over the headers it does what `join` does
-- to the list of blocks.
use mathlib.Core.Path.{subst}
use lunaria_os.Base.{
  ℕ, ◌+◌, ◌^◌, ◌≤◌, ◌<◌, ◌≡◌, ◌≢◌, refl, sym, ◌∙◌, List, [], ◌∷◌, Bool, true, false, ◌||◌, Bytes,
  write, leb, ◌==◌, if◌then◌else◌, arith, Bool-cases, inl, inr,
}
use lunaria_os.Heap.{Heap, merged, link_block, set_link}
use lunaria_os.Heap.Blocks.{Block, IsChain, IsSpaced-le, IsChain_moved}
use lunaria_os.Heap.Insert.{join, IsLoose, join-IsLoose}

-- A chain of blocks at or above `lo` is kept by writes below it.
IsChain_loose :
    (words words' : Bytes) (p p' lo hi : ℕ) (bs : List Block)
    → IsChain words p bs
    → IsLoose lo hi bs
    → p' ≡ p
    → ((x : ℕ) → lo ≤ x → words' x ≡ words x)
    → IsChain words' p' bs
IsChain_loose words words' p p' lo hi [] c h e same = e ∙ c
IsChain_loose words words' p p' lo hi ((a, s) ∷ bs) c h e same = (
  e ∙ c.0,
  same a h.0 ∙ c.1,
  IsChain_moved words words' (words (a + 4)) (words' (a + 4)) (a + s) hi bs c.2 h.2
      (same (a + 4) (omega (arith, h.0))) (λ x above. same x (omega (arith, h.0, above))),
)

-- The words below a block are kept, and the block with its next is joined.
pub merged-below : (words : Bytes) (a p x : ℕ) → x < a → merged words a p x ≡ words x
unfolding merged
merged-below words a p x lt = ground arith

merged_pair-IsChain :
    (words : Bytes) (a t b u hi : ℕ) (bs : List Block)
    → 8 ≤ t
    → hi < 2 ^ 32
    → words a ≡ t
    → words (a + 4) ≡ b
    → words b ≡ u
    → IsLoose (a + t) hi ((b, u) ∷ bs)
    → IsChain words (words (b + 4)) bs
    → IsChain (merged words a b) a (join (a, t) ((b, u) ∷ bs))
unfolding merged join
merged_pair-IsChain words a t b u hi bs t8 small sized next sized' sp c =
    let fits = IsSpaced-le (b + u) hi bs sp.2 in
    let w' = merged words a b in
    elim (Bool-cases (a + t == b)) [
      | inl e ↦
          let eq : (a, t + u) ∷ bs ≡ join (a, t) ((b, u) ∷ bs) = ground (arith, e) in
          subst (IsChain w' a) eq (
            refl,
            ground (arith, e, fits, sized, sized'),
            IsChain_moved words w' (words (b + 4)) (w' (a + 4)) (b + u) hi bs c sp.2
                (ground (arith, e, fits, sized, sized'))
                (λ x above. ground (arith, e, fits, sized, sized', above)),
          )
      | inr e ↦
          let eq : (a, t) ∷ (b, u) ∷ bs ≡ join (a, t) ((b, u) ∷ bs) = ground (arith, e) in
          subst (IsChain w' a) eq (
            refl,
            ground (arith, e, fits, sized, sp.0, sp.1),
            (
              ground (arith, e, fits, sized, next, sp.0, sp.1),
              ground (arith, e, fits, sized, sized', sp.0, sp.1),
              IsChain_moved words w' (words (b + 4)) (w' (b + 4)) (b + u) hi bs c sp.2
                  (ground (arith, e, fits, sized, sp.0, sp.1))
                  (λ x above. ground (arith, e, fits, sized, above, sp.0, sp.1)),
            ),
          )
    ]

pub merged-IsChain :
    (words : Bytes) (a t p hi : ℕ) (bs : List Block)
    → 8 ≤ t
    → hi < 2 ^ 32
    → words a ≡ t
    → words (a + 4) ≡ p
    → IsLoose (a + t) hi bs
    → IsChain words p bs
    → IsChain (merged words a p) a (join (a, t) bs)
unfolding join merged
merged-IsChain words a t p hi [] t8 small sized next sp c =
    (refl, ground (arith, c, sized, sp), ground (arith, c, next, sp))
merged-IsChain words a t p hi ((b, u) ∷ bs) t8 small sized next sp c =
    subst (λ (q : ℕ). IsChain (merged words a q) a (join (a, t) ((b, u) ∷ bs))) (sym c.0)
      (merged_pair-IsChain words a t b u hi bs t8 small sized (next ∙ c.0) c.1 sp c.2)

-- With no block after it there is nothing to join.
merged_next-IsChain :
    (words : Bytes) (a t p hi : ℕ) (bs : List Block)
    → 8 ≤ t
    → hi < 2 ^ 32
    → words a ≡ t
    → words (a + 4) ≡ p
    → IsLoose (a + t) hi bs
    → IsChain words p bs
    → IsChain (if p == 0 then words else merged words a p) a (join (a, t) bs)
unfolding join
merged_next-IsChain words a t p hi [] t8 small sized next sp c =
    (refl, ground (arith, c, sized), ground (arith, c, next))
merged_next-IsChain words a t p hi ((b, u) ∷ bs) t8 small sized next sp c =
    subst
      (λ (g : Bool). IsChain (if g then words else merged words a p) a (join (a, t) ((b, u) ∷ bs)))
      {x = false} (ground (arith, c.0, sp.0))
      (merged-IsChain words a t p hi ((b, u) ∷ bs) t8 small sized next sp c)

-- The words after the block `b` is linked between `prev` and `c`.
abbrev linked : Heap → ℕ → ℕ → ℕ → Bytes
linked h b prev c = (set_link (record h { words = write h.words (b + 4) c }) prev b).words

abbrev with_next : Heap → ℕ → ℕ → ℕ → Bytes
with_next h b prev c = if c == 0 then linked h b prev c else merged (linked h b prev c) b c

with_next-below :
    (h : Heap) (b prev c x : ℕ) → x < b → x ≢ prev + 4 → with_next h b prev c x ≡ h.words x
with_next-below h b prev c x lt ne = ground (arith, merged-below (linked h b prev c) b c x lt)

with_next-link :
    (h : Heap) (b prev c : ℕ) → 0 < prev → prev + 8 ≤ b → with_next h b prev c (prev + 4) ≡ b
with_next-link h b prev c pos le =
    ground (arith, merged-below (linked h b prev c) b c (prev + 4) (omega (arith, le)))

-- The block `b` joins the one that follows.
with_next-IsChain :
    (h : Heap) (b s prev c hi : ℕ) (bs : List Block)
    → (prev == 0 || leb (prev + 8) b) ≡ true
    → 8 ≤ s
    → hi < 2 ^ 32
    → h.words b ≡ s
    → IsLoose (b + s) hi bs
    → IsChain h.words c bs
    → IsChain (with_next h b prev c) b (join (b, s) bs)
with_next-IsChain h b s prev c hi bs before s8 small sized sp chain =
    merged_next-IsChain (linked h b prev c) b s c hi bs s8 small (ground (arith, before, sized))
      (ground (arith, before)) sp
      (IsChain_loose h.words (linked h b prev c) c c (b + s) hi bs chain sp refl
        (λ x above. ground (arith, above, before, s8)))

-- What `free` does behind the block `a` of the list.
pub record IsReleased (h h' : Heap) (a : ℕ) (bs : List Block) : Type 0 where
  pub chain : IsChain h'.words a bs
  pub below : (x : ℕ) → x < a → h'.words x ≡ h.words x
  pub head : h'.freelist ≡ h.freelist

pub link_behind-IsReleased :
    (h : Heap) (a t b s c hi : ℕ) (bs : List Block)
    → 0 < a
    → 8 ≤ t
    → a + t ≤ b
    → 8 ≤ s
    → hi < 2 ^ 32
    → h.words a ≡ t
    → h.words b ≡ s
    → IsLoose (b + s) hi bs
    → IsChain h.words c bs
    → IsReleased h (link_block h b a c) a (join (a, t) (join (b, s) bs))
unfolding link_block
link_behind-IsReleased h a t b s c hi bs pos t8 le s8 small sized sized' sp chain = record {
  chain =
      subst
        (λ (g : Bool).
          IsChain (if g then with_next h b a c else merged (with_next h b a c) a b) a
            (join (a, t) (join (b, s) bs)))
        {x = false} (ground (arith, pos))
        (merged-IsChain (with_next h b a c) a t b hi (join (b, s) bs) t8 small
          (with_next-below h b a c a (omega (arith, le)) (omega arith) ∙ sized)
          (with_next-link h b a c pos (omega (arith, le))) (join-IsLoose (a + t) b s hi bs le s8 sp)
          (with_next-IsChain h b s a c hi bs (ground (arith, le, t8)) s8 small sized' sp chain));
  below = λ x lt. ground (
    arith,
    pos,
    merged-below (with_next h b a c) a b x lt,
    with_next-below h b a c x (omega (arith, le, lt)) (omega (arith, lt)),
  );
  head = ground (arith, pos);
}

-- The first block of the list, with no block before it.
pub link_first-IsChain :
    (h : Heap) (b s c hi : ℕ) (bs : List Block)
    → 8 ≤ s
    → hi < 2 ^ 32
    → h.words b ≡ s
    → IsLoose (b + s) hi bs
    → IsChain h.words c bs
    → IsChain (link_block h b 0 c).words (link_block h b 0 c).freelist (join (b, s) bs)
unfolding link_block
link_first-IsChain h b s c hi bs s8 small sized sp chain =
    with_next-IsChain h b s 0 c hi bs refl s8 small sized sp chain
