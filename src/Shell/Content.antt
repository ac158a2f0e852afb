-- ===== src/Shell/Content.antt =====
-- What a redirection writes fits its buffer.
use lunaria_os.Base.{
  ℕ, zero, suc, ◌+◌, ◌≤◌, ◌<◌, ◌≡◌, refl, ap, List, [], ◌∷◌, Bool, true, false, ◌&&◌, Option, none,
  some, length, length-append, ltb, if◌then◌else◌, arith, Bool-cases, inl, inr,
}
use lunaria_os.Fs.Update.{is_empty}
use lunaria_os.Shell.{
  skip_spaces, word, after_word, parse_words, parse_line, unescape, escape, spaced_words,
  redirected, split_at_arrow, Command, write_file, find_command, names, redirect, execute,
  execute_words, same_text,
}

-- the bytes of words, each with a byte behind it
abbrev pub weight : List (List ℕ) → ℕ
weight [] = 0
weight (w ∷ ws) = length w + 1 + weight ws

skip_spaces-le : (cs : List ℕ) → length (skip_spaces cs) ≤ length cs
skip_spaces-le [] = omega arith
skip_spaces-le (c ∷ cs) = ground (arith, skip_spaces-le cs)

-- a text and a byte behind it, if it is not empty
abbrev room : List ℕ → ℕ
room [] = 0
room (c ∷ cs) = length cs + 2

word_and_after : (cs : List ℕ) → length (word cs) + room (after_word cs) ≤ length cs
word_and_after [] = omega arith
word_and_after (c ∷ []) = ground arith
word_and_after (c ∷ d ∷ cs) = ground (arith, word_and_after (d ∷ cs))

room-le : (cs : List ℕ) → room (skip_spaces cs) ≤ room cs
room-le [] = omega arith
room-le (c ∷ []) = ground arith
room-le (c ∷ d ∷ cs) = ground (arith, room-le (d ∷ cs))

parse_words-weight : (n : ℕ) (line : List ℕ) → weight (parse_words n line) ≤ room line
unfolding parse_words
parse_words-weight zero line = omega arith
parse_words-weight (suc n) line = elim (Bool-cases (is_empty (skip_spaces line))) [
  | inl e ↦ ground (arith, e)
  | inr e ↦ ground (
    arith,
    e,
    room-le line,
    some_room (skip_spaces line) e,
    word_and_after (skip_spaces line),
    parse_words-weight n (after_word (skip_spaces line)),
  )
]
  where
    some_room : (cs : List ℕ) → is_empty cs ≡ false → room cs ≡ length cs + 1
    some_room [] e = cc
    some_room (c ∷ cs) e = omega arith

escape-le : (c : ℕ) → length (escape c) ≤ 2
escape-le c = ground arith

unescape-le : (w : List ℕ) → length (unescape w) ≤ length w
unfolding unescape
unescape-le [] = omega arith
unescape-le (c ∷ []) = omega arith
unescape-le (c ∷ d ∷ cs) = ground (
  arith,
  unescape-le (d ∷ cs),
  unescape-le cs,
  escape-le d,
  length-append (escape d) (unescape cs),
)

spaced_words-le : (ws : List (List ℕ)) → length (spaced_words ws) ≤ weight ws
unfolding spaced_words
spaced_words-le [] = omega arith
spaced_words-le (w ∷ ws) =
    omega (arith, unescape-le w, spaced_words-le ws, length-append (unescape w) (spaced_words ws))

redirected-le : (ws : List (List ℕ)) → length (redirected ws) ≤ weight ws
unfolding redirected
redirected-le [] = omega arith
redirected-le (w ∷ ws) =
    omega (arith, unescape-le w, spaced_words-le ws, length-append (unescape w) (spaced_words ws))

-- what is left and right of the arrow
abbrev parts : Option (List (List ℕ) × List (List ℕ)) → ℕ
parts none = 0
parts (some (before, after)) = weight before + weight after + 2

same_text-length : (xs ys : List ℕ) → same_text xs ys ≡ true → length xs ≡ length ys
same_text-length [] [] e = refl
same_text-length [] (y ∷ ys) e = cc
same_text-length (x ∷ xs) [] e = cc
same_text-length (x ∷ xs) (y ∷ ys) e = ground (arith, e, same_text-length xs ys)

-- one word more on the left
abbrev with_word :
    List ℕ → Option (List (List ℕ) × List (List ℕ)) → Option (List (List ℕ) × List (List ℕ))
with_word w none = none
with_word w (some (before, after)) = some (w ∷ before, after)

with_word-parts :
    (w : List ℕ) (o : Option (List (List ℕ) × List (List ℕ)))
    → parts (with_word w o) ≤ length w + 1 + parts o
with_word-parts w none = omega arith
with_word-parts w (some (before, after)) = omega arith

split_at_arrow-parts : (ws : List (List ℕ)) → parts (split_at_arrow ws) ≤ weight ws
unfolding split_at_arrow
split_at_arrow-parts [] = omega arith
split_at_arrow-parts (w ∷ ws) = elim (Bool-cases (same_text w (62 ∷ []))) [
  | inl e ↦ ground (
    arith,
    same_text-length w (62 ∷ []) e,
    ap (λ (b : Bool). parts (if b then some ([], ws) else with_word w (split_at_arrow ws))) e,
  )
  | inr e ↦ ground (
    arith,
    with_word-parts w (split_at_arrow ws),
    split_at_arrow-parts ws,
    ap (λ (b : Bool). parts (if b then some ([], ws) else with_word w (split_at_arrow ws))) e,
  )
]

-- The text and the name of a file fit a buffer of 128 bytes, each with its zero.
abbrev pub fits : Command → Bool
fits (write_file name text) = ltb (length text) 128 && ltb (length name) 128
fits call = true

redirect_fits :
    (before after : List (List ℕ))
    → weight before + weight after < 128
    → fits (redirect before after) ≡ true
unfolding redirect
redirect_fits before [] lt = refl
redirect_fits before (name ∷ after) lt = ground (arith, redirected-le before)

find_command_fits :
    (cs : List (List ℕ)) (i : ℕ) (argv : List (List ℕ)) (name : List ℕ)
    → fits (find_command cs i argv name) ≡ true
unfolding find_command
find_command_fits [] i argv name = refl
find_command_fits (c ∷ cs) i argv name = elim (Bool-cases (same_text name c)) [
  | inl e ↦ ground (arith, e)
  | inr e ↦ ground (arith, e, find_command_fits cs (i + 1) argv name)
]

-- what `execute` makes of the words, for what `split_at_arrow` answers
abbrev choice : List (List ℕ) → List ℕ → Option (List (List ℕ) × List (List ℕ)) → Command
choice argv w none = find_command names 0 argv w
choice argv w (some (before, after)) = redirect before after

choice_fits :
    (argv : List (List ℕ)) (w : List ℕ) (o : Option (List (List ℕ) × List (List ℕ)))
    → parts o < 130
    → fits (choice argv w o) ≡ true
choice_fits argv w none lt = find_command_fits names 0 argv w
choice_fits argv w (some (before, after)) lt = redirect_fits before after (omega (arith, lt))

execute_words_fits : (ws : List (List ℕ)) → weight ws < 130 → fits (execute_words ws) ≡ true
unfolding execute_words
execute_words_fits [] lt = refl
execute_words_fits (w ∷ ws) lt =
    choice_fits (w ∷ ws) w (split_at_arrow ws) (omega (arith, split_at_arrow-parts ws, lt))

-- A line of the shell has at most 127 bytes. For each such line, what `execute` writes to a file has at most
-- 127 bytes, with the escapes replaced: it fits the buffer `redirected` with its zero.
pub execute_fits : (line : List ℕ) → length line < 128 → fits (execute line) ≡ true
unfolding execute parse_line
execute_fits line lt =
    execute_words_fits (parse_words 16 line)
      (ground (arith, parse_words-weight 16 line, room_bound line))
  where
    room_bound : (cs : List ℕ) → room cs ≤ length cs + 1
    room_bound [] = omega arith
    room_bound (c ∷ cs) = omega arith
