-- ===== src/Shell/Words.antt =====
-- The words of a line: what `parse_line` makes of words with a space between each two.
use lunaria_os.Base.{
  ℕ, zero, suc, ◌≡◌, refl, ap, List, [], ◌∷◌, ◌++◌, Bool, true, not, ◌&&◌, take, ◌==◌, arith,
}
use lunaria_os.Fs.Update.{is_empty}
use lunaria_os.Shell.{word, after_word, parse_words, parse_line}

-- no space and at least one byte
abbrev pub spaceless : List ℕ → Bool
spaceless [] = true
spaceless (c ∷ cs) = not (c == 32) && spaceless cs

abbrev pub all_words : List (List ℕ) → Bool
all_words [] = true
all_words (w ∷ ws) = not (is_empty w) && spaceless w && all_words ws

-- the words with a space between each two
abbrev pub joined : List (List ℕ) → List ℕ
joined [] = []
joined (w ∷ []) = w
joined (w ∷ x ∷ ws) = w ++ 32 ∷ joined (x ∷ ws)

word-spaceless : (w : List ℕ) → spaceless w ≡ true → word w ≡ w
word-spaceless [] h = refl
word-spaceless (c ∷ cs) h = ground (arith, h, word-spaceless cs)

word-append : (w rest : List ℕ) → spaceless w ≡ true → word (w ++ 32 ∷ rest) ≡ w
word-append [] rest h = refl
word-append (c ∷ cs) rest h = ground (arith, h, word-append cs rest)

after_word-append : (w rest : List ℕ) → spaceless w ≡ true → after_word (w ++ 32 ∷ rest) ≡ rest
after_word-append [] rest h = refl
after_word-append (c ∷ cs) rest h = ground (arith, h, after_word-append cs rest)

after_word-spaceless : (w : List ℕ) → spaceless w ≡ true → after_word w ≡ []
after_word-spaceless [] h = refl
after_word-spaceless (c ∷ cs) h = ground (arith, h, after_word-spaceless cs)

parse_words-nil : (n : ℕ) → parse_words n [] ≡ []
unfolding parse_words
parse_words-nil zero = refl
parse_words-nil (suc n) = refl

take-nil : (n : ℕ) → take {A = List ℕ} n [] ≡ []
take-nil zero = refl
take-nil (suc n) = refl

parse_words-joined :
    (n : ℕ) (ws : List (List ℕ)) → all_words ws ≡ true → parse_words n (joined ws) ≡ take n ws
unfolding parse_words
parse_words-joined zero ws h = refl
parse_words-joined (suc n) [] h = refl
parse_words-joined (suc n) ([] ∷ ws) h = cc
parse_words-joined (suc n) ((c ∷ cs) ∷ []) h = ground (
  arith,
  h,
  word-spaceless (c ∷ cs),
  after_word-spaceless (c ∷ cs),
  ap (parse_words n) (after_word-spaceless (c ∷ cs) (ground (arith, h))),
  parse_words-nil n,
  take-nil n,
)
parse_words-joined (suc n) ((c ∷ cs) ∷ x ∷ ws) h = ground (
  arith,
  h,
  word-append (c ∷ cs) (joined (x ∷ ws)),
  after_word-append (c ∷ cs) (joined (x ∷ ws)),
  ap (parse_words n) (after_word-append (c ∷ cs) (joined (x ∷ ws)) (ground (arith, h))),
  parse_words-joined n (x ∷ ws),
)

-- A line of words without spaces, one space between each two, is parsed into the first sixteen of them.
pub parse_line-joined :
    (ws : List (List ℕ)) → all_words ws ≡ true → parse_line (joined ws) ≡ take 16 ws
unfolding parse_line
parse_line-joined ws h = parse_words-joined 16 ws h
