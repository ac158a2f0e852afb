-- ===== src/Str/Search.antt =====
-- `memchr` and `memcmp` look at every byte up to the first that decides.
use lunaria_os.Base.{
  ◌∙◌, ℕ, zero, suc, ◌+◌, ◌%◌, ◌≡◌, ap, Bool, true, not, ◌&&◌, Option, none, some, Bytes, in_range,
  ◌==◌, if◌then◌else◌, arith, inl, inr, Bool-cases,
}
use lunaria_os.Str.{memchr_from, memchr}

-- What the answer of a search for a byte in the places from `lo` to `hi` says of a place `j`.
unfoldable pub is_answer : Bytes → ℕ → ℕ → ℕ → ℕ → Option ℕ → Bool
is_answer p c lo hi j none = not (in_range lo hi j && (p j == c))
is_answer p c lo hi j (some k) =
    in_range lo hi k && (p k == c) && not (in_range lo k j && (p j == c))

-- One more byte in front.
is_answer_grow :
    (p : Bytes) (c i n j : ℕ) (o : Option ℕ)
    → is_answer p c (i + 1) (i + 1 + n) j o ≡ true
    → is_answer p c i (i + suc n) j (if p i == c then some i else o) ≡ true
unfolding is_answer
is_answer_grow p c i n j none h = elim (Bool-cases (p i == c)) [
  | inl e ↦ ground (arith, e, h, ap p (at i))
  | inr e ↦ ground (arith, e, h, ap p (at i))
]
  where
    at : (i : ℕ) → j ≡ (if j == i then i else j)
    at i = ground arith
is_answer_grow p c i n j (some k) h = elim (Bool-cases (p i == c)) [
  | inl e ↦ ground (arith, e, h, ap p (at i))
  | inr e ↦ ground (arith, e, h, ap p (at i))
]
  where
    at : (i : ℕ) → j ≡ (if j == i then i else j)
    at i = ground arith

memchr_from_lem :
    (p : Bytes) (c i n j : ℕ) → is_answer p (c % 256) i (i + n) j (memchr_from p c i n) ≡ true
unfolding is_answer memchr_from
memchr_from_lem p c i zero j = ground arith
memchr_from_lem p c i (suc n) j =
    is_answer_grow p (c % 256) i n j (memchr_from p c (i + 1) n) (memchr_from_lem p c (i + 1) n j)

-- `memchr` answers the first place below `n` with the byte `c`, taken modulo 256, and a null pointer
-- exactly if there is none.
pub memchr_lem : (p : Bytes) (c n j : ℕ) → is_answer p (c % 256) 0 n j (memchr p c n) ≡ true
unfolding memchr
memchr_lem p c n j =
    ap (λ (hi : ℕ). is_answer p (c % 256) 0 hi j (memchr_from p c 0 n)) (start n)
    ∙ memchr_from_lem p c 0 n j
  where
    start : (n : ℕ) → n ≡ 0 + n
    start n = omega arith
