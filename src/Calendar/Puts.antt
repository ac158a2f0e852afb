-- ===== src/Calendar/Puts.antt =====
-- Bytes put one behind the other in memory, without regard to its end.
use lunaria_os.Base.{
  ℕ, zero, suc, ◌+◌, ◌-◌, ◌≤◌, ◌<◌, ◌≡◌, ◌⊎◌, refl, ap, ◌∙◌, ltb→lt, true, false, ltb, arith, inl,
  List, [], ◌∷◌, ◌++◌, get_or, length, take, Bytes, write,
}

abbrev pub put_all : List ℕ → Bytes × ℕ → Bytes × ℕ
put_all [] r = r
put_all (c ∷ cs) r = put_all cs (write r.0 r.1 c, r.1 + 1)

pub put_all-append :
    (xs ys : List ℕ) (r : Bytes × ℕ) → put_all (xs ++ ys) r ≡ put_all ys (put_all xs r)
put_all-append [] ys r = refl
put_all-append (x ∷ xs) ys r = put_all-append xs ys (write r.0 r.1 x, r.1 + 1)

pub put_all_end : (xs : List ℕ) (r : Bytes × ℕ) → (put_all xs r).1 ≡ r.1 + length xs
put_all_end [] r = omega arith
put_all_end (x ∷ xs) r = omega (arith, put_all_end xs (write r.0 r.1 x, r.1 + 1))

pub take_nothing : (k : ℕ) → take {A = ℕ} k [] ≡ []
take_nothing zero = refl
take_nothing (suc k) = refl

pub take-append :
    (k : ℕ) (xs ys : List ℕ) → take k (xs ++ ys) ≡ take k xs ++ take (k - length (take k xs)) ys
take-append zero xs ys = refl
take-append (suc k) [] ys = ap (λ (t : ℕ). take t ys) all
  where
    all : suc k ≡ suc k - 0
    all = omega arith
take-append (suc k) (x ∷ xs) ys =
    ap (λ (t : List ℕ). x ∷ t) (take-append k xs ys)
    ∙ ap (λ (t : ℕ). x ∷ (take k xs ++ take t ys)) less
  where
    less : k - length (take k xs) ≡ suc k - suc (length (take k xs))
    less = omega arith

-- what fits while there is room for one more byte, and when there is none
pub take_one :
    (max n c : ℕ) (cs : List ℕ)
    → ltb (n + 1) max ≡ true
    → take (max - 1 - n) (c ∷ cs) ≡ c ∷ take (max - 1 - (n + 1)) cs
take_one max n c cs e = ap (λ (t : ℕ). take t (c ∷ cs)) (left max n (ltb→lt _ _ e))
  where
    left : (max n : ℕ) → n + 1 < max → max - 1 - n ≡ suc (max - 1 - (n + 1))
    left max n h = omega (arith, h)

pub take_full : (max n : ℕ) (xs : List ℕ) → ltb (n + 1) max ≡ false → [] ≡ take (max - 1 - n) xs
take_full max n xs e = ap (λ (t : ℕ). take t xs) (left max n e)
  where
    left : (max n : ℕ) → ltb (n + 1) max ≡ false → 0 ≡ max - 1 - n
    left max n e = ground (arith, e)

pub put_all_same :
    (xs : List ℕ) (r : Bytes × ℕ) (j : ℕ)
    → (j < r.1) ⊎ (r.1 + length xs ≤ j)
    → (put_all xs r).0 j ≡ r.0 j
put_all_same [] r j out = refl
put_all_same (x ∷ xs) r j out =
    put_all_same xs (write r.0 r.1 x, r.1 + 1) j (ground (arith, out)) ∙ ground (arith, out)

pub put_all_byte :
    (xs : List ℕ) (s : Bytes) (n i : ℕ)
    → i < length xs
    → (put_all xs (s, n)).0 (n + i) ≡ get_or xs i 0
put_all_byte [] s n i lt = absurd (none_left i lt)
  where
    none_left : (i : ℕ) → i < 0 → ⊥
    none_left i h = omega (arith, h)
put_all_byte (x ∷ xs) s n zero lt =
    put_all_same xs (write s n x, n + 1) (n + 0) (inl (omega arith)) ∙ ground arith
put_all_byte (x ∷ xs) s n (suc i) lt =
    ap (put_all xs (write s n x, n + 1)).0 (next n i)
    ∙ put_all_byte xs (write s n x) (n + 1) i (omega (arith, lt))
  where
    next : (n i : ℕ) → n + suc i ≡ n + 1 + i
    next n i = omega arith

pub take_byte :
    (k : ℕ) (xs : List ℕ) (i : ℕ) → i < length (take k xs) → get_or (take k xs) i 0 ≡ get_or xs i 0
take_byte zero xs i lt = absurd (none_left i lt)
  where
    none_left : (i : ℕ) → i < 0 → ⊥
    none_left i h = omega (arith, h)
take_byte (suc k) [] i lt = refl
take_byte (suc k) (x ∷ xs) zero lt = refl
take_byte (suc k) (x ∷ xs) (suc i) lt = take_byte k xs i (omega (arith, lt))
