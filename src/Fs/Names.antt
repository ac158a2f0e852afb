-- ===== src/Fs/Names.antt =====
-- Names in directory entries.
use mathlib.Core.Path.{ap₂}
use lunaria_os.Base.{
  refl, ap, arith, ◌≡◌, ◌≤◌, ℕ, ◌+◌, List, [], ◌∷◌, Bool, true, not, ◌&&◌, Bytes, get_or, length,
  ◌==◌,
}
use lunaria_os.Fs.{same_name}

pub same_name_lem :
    (f : Bytes) (i : ℕ) (cs : List ℕ)
    → ((j : ℕ) → j ≤ length cs → f (i + j) ≡ get_or cs j 0)
    → same_name f i cs ≡ true
unfolding same_name
same_name_lem f i [] h = ground (arith, h 0 (omega arith))
same_name_lem f i (c ∷ cs) h = ground (
  arith,
  h 0 (omega arith),
  same_name_lem f (i + 1) cs (λ j le. ground (arith, h (j + 1) (omega arith), ap f (shift i j))),
)
  where
    shift : (i j : ℕ) → i + 1 + j ≡ i + (j + 1)
    shift i j = omega arith

pub same_name-cong :
    (f g : Bytes) (i : ℕ) (cs : List ℕ)
    → ((j : ℕ) → j ≤ i + length cs → f j ≡ g j)
    → same_name f i cs ≡ same_name g i cs
unfolding same_name
same_name-cong f g i [] h = ground (arith, h i (omega arith))
same_name-cong f g i (c ∷ cs) h =
    ground (arith, h i (omega arith), same_name-cong f g (i + 1) cs (λ j le. h j (omega arith)))

-- whether a list of bytes is what a C string can hold
abbrev pub is_text : List ℕ → Bool
is_text [] = true
is_text (c ∷ cs) = not (c == 0) && is_text cs

-- An entry has one name.
pub same_name_unique :
    (f : Bytes) (i : ℕ) (cs ds : List ℕ)
    → is_text cs ≡ true
    → is_text ds ≡ true
    → same_name f i cs ≡ true
    → same_name f i ds ≡ true
    → cs ≡ ds
unfolding same_name
same_name_unique f i [] [] tc td c d = refl
same_name_unique f i [] (y ∷ ds) tc td c d = absurd (ground (arith, tc, td, c, d))
same_name_unique f i (x ∷ cs) [] tc td c d = absurd (ground (arith, tc, td, c, d))
same_name_unique f i (x ∷ cs) (y ∷ ds) tc td c d =
    ap₂ (λ (h : ℕ) (t : List ℕ). h ∷ t) (ground (arith, c, d))
      (same_name_unique f (i + 1) cs ds (ground (arith, tc)) (ground (arith, td))
        (ground (arith, c)) (ground (arith, d)))
