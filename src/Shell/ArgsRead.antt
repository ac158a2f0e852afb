-- ===== src/Shell/ArgsRead.antt =====
-- What a program finds on its stack: the arguments that `build_user_args` put there.
use mathlib.Core.Path.{subst}
use lunaria_os.Base.{
  ℕ, ◌+◌, ◌-◌, ◌*◌, ◌/◌, ◌%◌, ◌^◌, ◌≤◌, ◌<◌, ◌≡◌, refl, sym, ap, ◌∙◌, List, [], ◌∷◌, ◌++◌, Bool,
  true, ◌&&◌, ◌||◌, Bytes, write, length, take, length-take, bit_and, ltb, leb, arith,
}
use lunaria_os.Base.Bits.{and_high, and_ones}
use lunaria_os.Fs.{word_at}
use lunaria_os.Frames.{user_stack}
use lunaria_os.Shell.Content.{weight}
use lunaria_os.Shell.Args.{
  put_string, put_strings, put_word, put_words, put_block, put_pointers, build_user_args,
}

-- a text with its zero at an address
abbrev pub IsString : Bytes → ℕ → List ℕ → Type 0
IsString m p [] = m p ≡ 0
IsString m p (c ∷ cs) = (m p ≡ c) × IsString m (p + 1) cs

put_string_frame :
    (w : List ℕ) (a : ℕ) (m : Bytes) (j : ℕ)
    → (ltb j a || ltb (a + length w) j) ≡ true
    → put_string w a m j ≡ m j
unfolding put_string
put_string_frame [] a m j out = ground (arith, out)
put_string_frame (c ∷ cs) a m j out =
    ground (arith, out, put_string_frame cs (a + 1) (write m a c) j)

put_string-IsString : (w : List ℕ) (a : ℕ) (m : Bytes) → IsString (put_string w a m) a w
unfolding put_string
put_string-IsString [] a m = ground arith
put_string-IsString (c ∷ cs) a m = (
  ground (arith, put_string_frame cs (a + 1) (write m a c) a),
  put_string-IsString cs (a + 1) (write m a c),
)

-- A text is kept by writes below it.
IsString-kept :
    (m m' : Bytes) (p lo : ℕ) (w : List ℕ)
    → lo ≤ p
    → ((j : ℕ) → lo ≤ j → m' j ≡ m j)
    → IsString m p w
    → IsString m' p w
IsString-kept m m' p lo [] le same s = same p le ∙ s
IsString-kept m m' p lo (c ∷ cs) le same s =
    (same p le ∙ s.0, IsString-kept m m' (p + 1) lo cs (omega (arith, le)) same s.1)

-- The texts `ws` are at the addresses, all from `lo` on and below 2^32.
abbrev IsTexts : Bytes → ℕ → List ℕ → List (List ℕ) → Type 0
IsTexts m lo [] [] = Unit {0}
IsTexts m lo (p ∷ ps) (w ∷ ws) = (lo ≤ p) × (p < 2 ^ 32) × IsString m p w × IsTexts m lo ps ws
IsTexts m lo ps ws = ⊥

IsTexts-kept :
    (m m' : Bytes) (lo : ℕ) (ps : List ℕ) (ws : List (List ℕ))
    → ((j : ℕ) → lo ≤ j → m' j ≡ m j)
    → IsTexts m lo ps ws
    → IsTexts m' lo ps ws
IsTexts-kept m m' lo [] [] same s = tt
IsTexts-kept m m' lo [] (w ∷ ws) same s = s
IsTexts-kept m m' lo (p ∷ ps) [] same s = s
IsTexts-kept m m' lo (p ∷ ps) (w ∷ ws) same s =
    (s.0, s.1, IsString-kept m m' p lo w s.0 same s.2, IsTexts-kept m m' lo ps ws same s.3)

-- The first loop puts all texts between the new stack pointer and the old, and keeps what is above.
record IsPlaced (ws : List (List ℕ)) (sp : ℕ) (m : Bytes) (r : ℕ × Bytes × List ℕ) : Type 0 where
  texts : IsTexts r.1 r.0 r.2 ws
  bottom : r.0 + weight ws ≡ sp
  above : (j : ℕ) → sp ≤ j → r.1 j ≡ m j

put_strings-IsPlaced :
    (ws : List (List ℕ)) (sp : ℕ) (m : Bytes)
    → weight ws ≤ sp
    → sp < 2 ^ 32
    → IsPlaced ws sp m (put_strings ws sp m)
unfolding put_strings
put_strings-IsPlaced [] sp m le lt = record {
  texts = tt;
  bottom = omega arith;
  above = λ j h. refl;
}
put_strings-IsPlaced (w ∷ ws) sp m le lt =
    let a = sp - (length w + 1) in
    let r = put_strings-IsPlaced ws a (put_string w a m) (omega (arith, le)) (omega (arith, lt)) in
    record {
      texts = (
        omega (arith, r.bottom),
        omega (arith, lt),
        IsString-kept (put_string w a m) (put_strings ws a (put_string w a m)).1 a a w (omega arith)
            r.above (put_string-IsString w a m),
        r.texts,
      );
      bottom = omega (arith, r.bottom, le);
      above =
          λ j h. r.above j (omega (arith, h)) ∙ put_string_frame w a m j (ground (arith, h, le));
    }

-- the words at an address and behind it
abbrev pub IsWords : Bytes → ℕ → List ℕ → Type 0
IsWords m a [] = Unit {0}
IsWords m a (v ∷ vs) = (word_at m a ≡ v) × IsWords m (a + 4) vs

abbrev small : List ℕ → Bool
small [] = true
small (v ∷ vs) = ltb v (2 ^ 32) && small vs

put_words_frame :
    (vs : List ℕ) (a : ℕ) (m : Bytes) (j : ℕ)
    → (ltb j a || leb (a + length vs * 4) j) ≡ true
    → put_words vs a m j ≡ m j
unfolding put_words
put_words_frame [] a m j out = refl
put_words_frame (v ∷ vs) a m j out =
    ground (arith, out, put_words_frame vs (a + 4) (put_word m a v) j)

put_words-IsWords :
    (vs : List ℕ) (a : ℕ) (m : Bytes) → small vs ≡ true → IsWords (put_words vs a m) a vs
unfolding put_words
put_words-IsWords [] a m h = tt
put_words-IsWords (v ∷ vs) a m h = (
  ground (
    arith,
    h,
    put_words_frame vs (a + 4) (put_word m a v) a,
    put_words_frame vs (a + 4) (put_word m a v) (a + 1),
    put_words_frame vs (a + 4) (put_word m a v) (a + 2),
    put_words_frame vs (a + 4) (put_word m a v) (a + 3),
  ),
  put_words-IsWords vs (a + 4) (put_word m a v) (ground (arith, h)),
)

IsWords-kept :
    (m m' : Bytes) (a : ℕ) (vs : List ℕ)
    → ((j : ℕ) → a ≤ j → j < a + length vs * 4 → m' j ≡ m j)
    → IsWords m a vs
    → IsWords m' a vs
IsWords-kept m m' a [] same s = tt
IsWords-kept m m' a (v ∷ vs) same s = (
  omega (arith, s.0, same a, same (a + 1), same (a + 2), same (a + 3)),
  IsWords-kept m m' (a + 4) vs (λ j h h'. same j (omega (arith, h)) (omega (arith, h'))) s.1,
)

-- `argv` from an address on: a pointer to each text, and the null pointer
abbrev pub IsArgv : Bytes → ℕ → List (List ℕ) → Type 0
IsArgv m a [] = word_at m a ≡ 0
IsArgv m a (w ∷ ws) = IsString m (word_at m a) w × IsArgv m (a + 4) ws

IsArgv-of :
    (m : Bytes) (a lo : ℕ) (ps : List ℕ) (ws : List (List ℕ))
    → IsTexts m lo ps ws
    → IsWords m a (ps ++ 0 ∷ [])
    → IsArgv m a ws
IsArgv-of m a lo [] [] t w = w.0
IsArgv-of m a lo [] (x ∷ ws) t w = elim t [ ]
IsArgv-of m a lo (p ∷ ps) [] t w = elim t [ ]
IsArgv-of m a lo (p ∷ ps) (x ∷ ws) t w =
    (subst (λ (q : ℕ). IsString m q x) (sym w.0) t.2, IsArgv-of m (a + 4) lo ps ws t.3 w.1)

texts_small :
    (m : Bytes) (lo : ℕ) (ps : List ℕ) (ws : List (List ℕ))
    → IsTexts m lo ps ws
    → small (ps ++ 0 ∷ []) ≡ true
texts_small m lo [] ws t = refl
texts_small m lo (p ∷ ps) [] t = elim t [ ]
texts_small m lo (p ∷ ps) (x ∷ ws) t = ground (arith, t.1, texts_small m lo ps ws t.3)

texts_length :
    (m : Bytes) (lo : ℕ) (ps : List ℕ) (ws : List (List ℕ))
    → IsTexts m lo ps ws
    → length (ps ++ 0 ∷ []) ≡ length ws + 1
texts_length m lo [] [] t = refl
texts_length m lo [] (x ∷ ws) t = elim t [ ]
texts_length m lo (p ∷ ps) [] t = elim t [ ]
texts_length m lo (p ∷ ps) (x ∷ ws) t = omega (arith, texts_length m lo ps ws t.3)

align_lem : (n : ℕ) → n < 2 ^ 32 → bit_and n (2 ^ 32 - 4) ≡ n / 4 * 4
align_lem n lt = omega (arith, and_high 2 (2 ^ 30 - 1) n, and_ones 30 (n / 4))

-- the frame of `_start(int argc, char **argv)`, and the end of the environment
pub record IsEntry (m : Bytes) (ws : List (List ℕ)) (esp : ℕ) (m' : Bytes) : Type 0 where
  pub aligned : esp % 4 ≡ 0
  pub below : esp ≤ user_stack
  pub argc : word_at m' (esp + 4) ≡ length ws
  pub argv : IsArgv m' (word_at m' (esp + 8)) ws
  pub envp : word_at m' (esp + 12) ≡ 0
  pub above : (j : ℕ) → user_stack ≤ j → m' j ≡ m j

put_block-IsEntry :
    (m m1 : Bytes) (ws : List (List ℕ)) (ptrs : List ℕ) (lo a : ℕ)
    → IsTexts m1 lo ptrs ws
    → ((j : ℕ) → user_stack ≤ j → m1 j ≡ m j)
    → a % 4 ≡ 0
    → 16 ≤ a
    → a + (length ws + 1) * 4 ≤ lo
    → lo ≤ user_stack
    → IsEntry m ws (put_block (length ws) a m1 ptrs).0 (put_block (length ws) a m1 ptrs).1
unfolding put_block
put_block-IsEntry m m1 ws ptrs lo a texts top aligned low fits below =
    let n = length ws in
    let size = texts_length m1 lo ptrs ws texts in
    let m2 = put_words (ptrs ++ 0 ∷ []) a m1 in
    let m3 = put_words (0 ∷ []) (a - 4) m2 in
    let m4 = put_words (0 ∷ n ∷ a ∷ []) (a - 4 - 12) m3 in
    let frame3 : (j : ℕ) → a - 4 ≤ j → m4 j ≡ m3 j =
      λ j h. put_words_frame (0 ∷ n ∷ a ∷ []) (a - 4 - 12) m3 j (ground (arith, h, low)) in
    let frame2 : (j : ℕ) → a ≤ j → m4 j ≡ m2 j = λ j h.
      frame3 j (omega (arith, h))
      ∙ put_words_frame (0 ∷ []) (a - 4) m2 j (ground (arith, h, low)) in
    let frame1 : (j : ℕ) → lo ≤ j → m4 j ≡ m1 j = λ j h.
      frame2 j (omega (arith, h, fits))
      ∙ put_words_frame (ptrs ++ 0 ∷ []) a m1 j (ground (arith, h, fits, size)) in
    let entry = put_words-IsWords (0 ∷ n ∷ a ∷ []) (a - 4 - 12) m3 (ground (arith, fits, below)) in
    record {
      aligned = omega (arith, aligned, low);
      below = omega (arith, fits, below);
      argc = entry.1.0;
      argv =
          subst (λ (q : ℕ). IsArgv m4 q ws)
            (sym (ap (word_at m4) (at_eight (a - 4 - 12)) ∙ entry.1.1.0))
            (IsArgv-of m4 a lo ptrs ws (IsTexts-kept m1 m4 lo ptrs ws frame1 texts) (
              IsWords-kept m2 m4 a (ptrs ++ 0 ∷ []) (λ j h h'. frame2 j h)
                (put_words-IsWords (ptrs ++ 0 ∷ []) a m1 (texts_small m1 lo ptrs ws texts))));
      envp =
          ap (word_at m4) (at_twelve a low)
          ∙ (IsWords-kept m3 m4 (a - 4) (0 ∷ []) (λ j h h'. frame3 j h)
              (put_words-IsWords (0 ∷ []) (a - 4) m2 refl)).0;
      above = λ j h. frame1 j (omega (arith, h, below)) ∙ top j h;
    }
  where
    at_eight : (e : ℕ) → e + 8 ≡ e + 4 + 4
    at_eight e = omega arith

    at_twelve : (a : ℕ) → 16 ≤ a → a - 4 - 12 + 12 ≡ a - 4
    at_twelve a low = omega (arith, low)

-- For words of less than a million bytes in all, each with its zero: a program that starts at the stack pointer that
-- `build_user_args` answers finds there, as the C entry `_start(argc, argv)` reads them, the number of the
-- words, at most sixteen, and `argv` with a pointer to each of the words, unchanged and ended by
-- a zero, and the null pointer behind them; an empty environment follows the frame, the stack pointer is a multiple of four
-- below the top of the stack, and no byte from the top on is written.
pub build_user_args-IsEntry :
    (argv : List (List ℕ)) (m : Bytes)
    → weight (take 16 argv) < 1000000
    → IsEntry m (take 16 argv) (build_user_args argv m).0 (build_user_args argv m).1
unfolding build_user_args put_pointers
build_user_args-IsEntry argv m lt =
    let ws = take 16 argv in
    let placed = put_strings-IsPlaced ws user_stack m (omega (arith, lt)) (omega arith) in
    let r = put_strings ws user_stack m in
    let low = align_lem r.0 in
    put_block-IsEntry m r.1 ws r.2 r.0 (bit_and r.0 (2 ^ 32 - 4) - (length ws + 1) * 4) placed.texts
      placed.above
      (omega (arith, low (omega (arith, placed.bottom)), length-take 16 argv, placed.bottom, lt))
      (omega (arith, low (omega (arith, placed.bottom)), length-take 16 argv, placed.bottom, lt))
      (omega (arith, low (omega (arith, placed.bottom)), length-take 16 argv, placed.bottom, lt))
      (omega (arith, placed.bottom))
