-- ===== src/Shell/Typed.antt =====
-- What is typed at the prompt is the line that is executed.
use lunaria_os.Base.{
  ℕ, zero, suc, ◌+◌, ◌<◌, ◌≡◌, refl, sym, ap, ◌∙◌, List, [], ◌∷◌, ◌++◌, append_assoc, append-nil,
  Bool, true, ◌&&◌, Bytes, write, length, length-append, leb, arith,
}
use mathlib.Core.Path.{subst}
use lunaria_os.Terminal.{Terminal, term_putchar, white}
use lunaria_os.Wm.{Wm, wm_current}
use lunaria_os.Shell.Prompt.{
  shell_key, Turn, after, turn_of, line_key, typed_line, text_of, set_current,
}
use lunaria_os.Shell.Lines.{SameLine, putchar-SameLine}

-- the bytes from `i` on are those of the text
abbrev pub IsPrefix : Bytes → ℕ → List ℕ → Type 0
IsPrefix b i [] = Unit {0}
IsPrefix b i (c ∷ cs) = (b i ≡ c) × IsPrefix b (i + 1) cs

abbrev pub printable : List ℕ → Bool
printable [] = true
printable (c ∷ cs) = leb 32 c && leb c 126 && printable cs

-- the line with another byte
IsPrefix-snoc :
    (b : Bytes) (i c : ℕ) (s : List ℕ)
    → IsPrefix b i s
    → IsPrefix (write b (i + length s) c) i (s ++ c ∷ [])
IsPrefix-snoc b i c [] h = (ground arith, tt)
IsPrefix-snoc b i c (d ∷ s) h = (
  ground (arith, h.0),
  subst (λ (n : ℕ). IsPrefix (write b n c) (i + 1) (s ++ c ∷ [])) (omega arith)
      (IsPrefix-snoc b (i + 1) c s h.1),
)

-- The line with its zero is read as the text.
text_of-IsPrefix :
    (n : ℕ) (b : Bytes) (i : ℕ) (s : List ℕ)
    → length s < n
    → printable s ≡ true
    → IsPrefix b i s
    → text_of n (write b (i + length s) 0) i ≡ s
text_of-IsPrefix zero b i s lt p h = absurd (omega (arith, lt))
text_of-IsPrefix (suc n) b i [] lt p h = ground arith
text_of-IsPrefix (suc n) b i (c ∷ s) lt p h = ground (
  arith,
  p,
  h.0,
  text_of-IsPrefix n b (i + 1) s (omega (arith, lt)) (ground (arith, p)) h.1,
  ap (λ (k : ℕ). text_of n (write b k 0) (i + 1)) (shifted i (length s)),
)
  where
    shifted : (i k : ℕ) → i + suc k ≡ i + 1 + k
    shifted i k = omega arith

-- the current terminal has the line `s`
record HasLine (t : Terminal) (s : List ℕ) : Type 0 where
  len : t.len ≡ length s
  text : IsPrefix t.buf 0 s

SameLine-HasLine : (t t' : Terminal) (s : List ℕ) → SameLine t t' → HasLine t s → HasLine t' s
SameLine-HasLine t t' s same h = record {
  len = same.len ∙ h.len;
  text = subst (λ (b : Bytes). IsPrefix b 0 s) (sym same.buf) h.text;
}

line_key-HasLine :
    (t : Terminal) (c : ℕ) (s : List ℕ)
    → (leb 32 c && leb c 126) ≡ true
    → length s < 127
    → HasLine t s
    → HasLine (line_key t c) (s ++ c ∷ [])
unfolding line_key
line_key-HasLine t c s p lt h =
    let t1 : Terminal = record t { buf = write t.buf t.len c; len = t.len + 1 } in
    let typed : HasLine t1 (s ++ c ∷ []) = record {
      len = omega (arith, h.len, length-append s (c ∷ []));
      text =
          subst (λ (n : ℕ). IsPrefix (write t.buf n c) 0 (s ++ c ∷ [])) (omega (arith, h.len))
            (IsPrefix-snoc t.buf 0 c s h.text);
    } in
    let eq : term_putchar t1 c white ≡ line_key t c = ground (arith, p, lt, h.len) in
    subst (λ (u : Terminal). HasLine u (s ++ c ∷ [])) eq
      (SameLine-HasLine t1 _ (s ++ c ∷ []) (putchar-SameLine t1 c white) typed)

-- The keys of a text, one by one, without a modifier.
pub type_keys : List ℕ → Wm → Wm
type_keys [] w = w
type_keys (c ∷ cs) w = type_keys cs (after (shell_key w 0 c))

current-turn_of : (w : Wm) (c : ℕ) → wm_current (after (turn_of w c)) ≡ line_key (wm_current w) c
unfolding wm_current
current-turn_of w c = ground arith

shell_key-HasLine :
    (w : Wm) (c : ℕ) (s : List ℕ)
    → (leb 32 c && leb c 126) ≡ true
    → length s < 127
    → HasLine (wm_current w) s
    → HasLine (wm_current (after (shell_key w 0 c))) (s ++ c ∷ [])
unfolding shell_key
shell_key-HasLine w c s p lt h =
    subst (λ (t : Terminal). HasLine t (s ++ c ∷ [])) (sym (current-turn_of w c))
      (line_key-HasLine (wm_current w) c s p lt h)

type_keys-HasLine :
    (w : Wm) (s0 s : List ℕ)
    → printable s ≡ true
    → length s0 + length s < 128
    → HasLine (wm_current w) s0
    → HasLine (wm_current (type_keys s w)) (s0 ++ s)
unfolding type_keys
type_keys-HasLine w s0 [] p lt h = subst (HasLine (wm_current w)) (sym (append-nil s0)) h
type_keys-HasLine w s0 (c ∷ s) p lt h =
    subst (HasLine (wm_current (type_keys s (after (shell_key w 0 c)))))
      (append_assoc s0 (c ∷ []) s)
      (type_keys-HasLine (after (shell_key w 0 c)) (s0 ++ c ∷ []) s (ground (arith, p))
        (omega (arith, lt, length-append s0 (c ∷ [])))
        (shell_key-HasLine w c s0 (ground (arith, p)) (omega (arith, lt)) h))

entered-typed_line :
    (t : Terminal) (s : List ℕ)
    → printable s ≡ true
    → length s < 128
    → HasLine t s
    → typed_line (line_key t 10) ≡ s
unfolding line_key
entered-typed_line t s p lt h =
    let t' = term_putchar t 10 white in
    let same = putchar-SameLine t 10 white in
    ap (λ (n : ℕ). text_of 128 (write t'.buf n 0) 0) (same.len ∙ h.len)
    ∙ ap (λ (b : Bytes). text_of 128 (write b (length s) 0) 0) same.buf
    ∙ ap (λ (n : ℕ). text_of 128 (write t.buf n 0) 0) (omega arith)
    ∙ text_of-IsPrefix 128 t.buf 0 s lt p h.text

-- At an empty line, the keys of a text of at most 127 printable bytes and then Enter, without a modifier:
-- the shell executes the text.
pub shell_key-type_keys :
    (w : Wm) (s : List ℕ)
    → printable s ≡ true
    → length s < 128
    → (wm_current w).len ≡ 0
    → (w' : Wm) × (shell_key (type_keys s w) 0 10 ≡ Turn.run_line w')
      × (typed_line (wm_current w') ≡ s)
unfolding shell_key
shell_key-type_keys w s p lt empty =
    let w1 = type_keys s w in
    let h = type_keys-HasLine w [] s p (omega (arith, lt)) (record { len = empty; text = tt }) in
    (
      set_current w1 (line_key (wm_current w1) 10),
      refl,
      ap typed_line (current-turn_of w1 10) ∙ entered-typed_line (wm_current w1) s p lt h,
    )
