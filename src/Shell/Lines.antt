-- ===== src/Shell/Lines.antt =====
-- The line stays in its buffer, and what is typed is what is executed.
use mathlib.Core.Path.{subst}
use lunaria_os.Base.{
  sym, Bool-cases, inl, inr, ==_iff, ℕ, ◌+◌, ◌-◌, ◌≤◌, ◌<◌, ◌≡◌, refl, ap, ◌∙◌, List, [], ◌∷◌, Bool,
  true, false, ◌&&◌, Option, none, some, Bytes, write, ltb, leb, ◌==◌, if◌then◌else◌, arith,
  if_keeps, bit_and,
}
use lunaria_os.Base.Int.{pos}
use lunaria_os.Keyboard.{mod_ctrl}
use lunaria_os.Terminal.{
  Terminal, term_putchar, term_backspace, term_print_color, white, term_scroll, place,
}
use lunaria_os.Wm.{Wm, wm_current, wm_switch}
use lunaria_os.Shell.Prompt.{
  shell_key, Turn, after, turn_of, line_key, switch_workspace, give_prompt, workspace_of,
  prompt_text, cyan, end_line, start_line, set_current, show,
}

-- the line that a terminal has
pub record SameLine (t t' : Terminal) : Type 0 where
  pub buf : t'.buf ≡ t.buf
  pub len : t'.len ≡ t.len

SameLine-trans : (t t' t'' : Terminal) → SameLine t t' → SameLine t' t'' → SameLine t t''
SameLine-trans t t' t'' s s' = record { buf = s'.buf ∙ s.buf; len = s'.len ∙ s.len }

if-SameLine :
    (g : Bool) (t x y : Terminal) → SameLine t x → SameLine t y → SameLine t (if g then x else y)
if-SameLine true t x y h h' = h
if-SameLine false t x y h h' = h'

-- Printing leaves the line alone.
pub putchar-SameLine : (t : Terminal) (c color : ℕ) → SameLine t (term_putchar t c color)
unfolding term_putchar place term_scroll
putchar-SameLine t c color = record { buf = ground arith; len = ground arith }

backspace-SameLine : (t : Terminal) → SameLine t (term_backspace t)
unfolding term_backspace
backspace-SameLine t = record { buf = ground arith; len = ground arith }

print-SameLine : (t : Terminal) (s : List ℕ) (color : ℕ) → SameLine t (term_print_color t s color)
unfolding term_print_color
print-SameLine t [] color = record { buf = refl; len = refl }
print-SameLine t (c ∷ s) color =
    if-SameLine (c == 0) t t _ (record { buf = refl; len = refl })
      (SameLine-trans t (term_putchar t c color) _ (putchar-SameLine t c color)
        (print-SameLine (term_putchar t c color) s color))

-- A line of at most 127 bytes, so that its final zero has a place in the buffer of 128, and with no zero and no
-- control character. The bytes at and behind `buf[128]`, which are not the buffer's, are those of `o`.
pub record IsLine (o : Bytes) (t : Terminal) : Type 0 where
  pub fits : t.len ≤ 127
  pub inside : (j : ℕ) → 128 ≤ j → t.buf j ≡ o j
  pub printable : (j : ℕ) → j < t.len → (leb 32 (t.buf j) && leb (t.buf j) 126) ≡ true

SameLine-IsLine : (o : Bytes) (t t' : Terminal) → SameLine t t' → IsLine o t → IsLine o t'
SameLine-IsLine o t t' s l = record {
  fits = omega (arith, s.len, l.fits);
  printable = λ j lt.
      ap (λ (b : Bytes). leb 32 (b j) && leb (b j) 126) s.buf
      ∙ l.printable j (omega (arith, lt, s.len));
  inside = λ j out. ap (λ (b : Bytes). b j) s.buf ∙ l.inside j out;
}

-- the zero behind the line is no part of it
ended-IsLine :
    (o : Bytes) (t : Terminal) → IsLine o t → IsLine o (record t { buf = write t.buf t.len 0 })
ended-IsLine o t l = record {
  fits = l.fits;
  inside = λ j out. ground (arith, out, l.fits, l.inside j out);
  printable = λ j lt. ground (arith, lt, l.printable j);
}

line_key-IsLine : (o : Bytes) (t : Terminal) (c : ℕ) → IsLine o t → IsLine o (line_key t c)
unfolding line_key
line_key-IsLine o t c l =
    if_keeps (IsLine o) (c == 10) _ _
      (λ h.
        ended-IsLine o (term_putchar t 10 white)
          (SameLine-IsLine o t _ (putchar-SameLine t 10 white) l))
      λ h1.
        if_keeps (IsLine o) (c == 8) _ _
          (λ h.
            if_keeps (IsLine o) (ltb 0 t.len) _ t
              (λ h'.
                SameLine-IsLine o (record t { len = t.len - 1 }) _
                  (backspace-SameLine (record t { len = t.len - 1 }))
                  (record {
                    fits = omega (arith, l.fits);
                    inside = l.inside;
                    printable = λ j lt. l.printable j (omega (arith, lt));
                  }))
              (λ h'. l))
          λ h2.
            if_keeps (IsLine o) (leb 32 c && leb c 126) _ t
              (λ h.
                if_keeps (IsLine o) (ltb t.len 127) _ t
                  (λ h'.
                    SameLine-IsLine o (record t { buf = write t.buf t.len c; len = t.len + 1 }) _
                      (putchar-SameLine (record t { buf = write t.buf t.len c; len = t.len + 1 }) c
                        white)
                      (record {
                        fits = ground (arith, h');
                        inside = λ j out. ground (arith, h', out, l.inside j out);
                        printable = λ j lt. ground (arith, h, lt, l.printable j);
                      }))
                  (λ h'. l))
              (λ h. l)

give_prompt-IsLine : (o : Bytes) (t : Terminal) → IsLine o t → IsLine o (give_prompt t)
unfolding give_prompt
give_prompt-IsLine o t l =
    if_keeps (IsLine o) (t.prompt == 0) _ t
      (λ h. SameLine-IsLine o t _ (shown-SameLine (print-SameLine t prompt_text cyan)) l) (λ h. l)
  where
    shown-SameLine :
        SameLine t (term_print_color t prompt_text cyan)
        → SameLine t (record (term_print_color t prompt_text cyan) { prompt = 1 })
    shown-SameLine s = record { buf = s.buf; len = s.len }

-- Each of the ten terminals has such a line, and the current one is one of them.
pub record AreLines (o : ℕ → Bytes) (w : Wm) : Type 0 where
  pub current : w.current_term < 10
  pub lines : (i : ℕ) → i < 10 → IsLine (o i) (w.terms i)

set_current-AreLines :
    (o : ℕ → Bytes) (w : Wm) (t : Terminal)
    → IsLine (o w.current_term) t
    → AreLines o w
    → AreLines o (show (set_current w t))
set_current-AreLines o w t l a = record {
  current = a.current;
  lines = λ i lt. elim (Bool-cases (i == w.current_term)) [
    | inl e ↦ rw e (subst (λ (k : ℕ). IsLine (o k) t) (sym ((==_iff i w.current_term).0 e)) l)
    | inr e ↦ rw e (a.lines i lt)
  ];
}

shown_prompt-AreLines :
    (o : ℕ → Bytes) (w : Wm)
    → AreLines o w
    → AreLines o (show (set_current w (give_prompt (wm_current w))))
unfolding wm_current
shown_prompt-AreLines o w a =
    set_current-AreLines o w (give_prompt (w.terms w.current_term))
      (give_prompt-IsLine (o w.current_term) (w.terms w.current_term)
        (a.lines w.current_term a.current))
      a

wm_switch-AreLines :
    (o : ℕ → Bytes) (w : Wm) (idx : ℕ) → AreLines o w → AreLines o (wm_switch w (pos idx))
unfolding wm_switch
wm_switch-AreLines o w idx a =
    if_keeps (AreLines o) (leb 10 idx) w _ (λ h. a)
      (λ h. record { current = ground (arith, h); lines = a.lines })

turn_of-AreLines :
    (o : ℕ → Bytes) (w : Wm) (c : ℕ) → AreLines o w → AreLines o (after (turn_of w c))
unfolding wm_current
turn_of-AreLines o w c a =
    let l =
      line_key-IsLine (o w.current_term) (w.terms w.current_term) c
        (a.lines w.current_term a.current) in
    let s = set_current-AreLines o w (line_key (w.terms w.current_term) c) l a in
    if_keeps (λ (t : Turn). AreLines o (after t)) (c == 10) _ _
      (λ h. record { current = s.current; lines = s.lines }) (λ h. s)

-- a key for a workspace or for the line
abbrev turn : Wm → ℕ → Option ℕ → Turn
turn w c none = turn_of w c
turn w c (some idx) = Turn.wait (switch_workspace idx w)

turn-AreLines :
    (o : ℕ → Bytes) (w : Wm) (c : ℕ) (chosen : Option ℕ)
    → AreLines o w
    → AreLines o (after (turn w c chosen))
unfolding switch_workspace
turn-AreLines o w c none a = turn_of-AreLines o w c a
turn-AreLines o w c (some idx) a =
    shown_prompt-AreLines o (wm_switch w (pos idx)) (wm_switch-AreLines o w idx a)

shell_key-AreLines :
    (o : ℕ → Bytes) (w : Wm) (mods c : ℕ) → AreLines o w → AreLines o (after (shell_key w mods c))
unfolding shell_key
shell_key-AreLines o w mods c a =
    turn-AreLines o w c (if bit_and mods mod_ctrl == 0 then none else workspace_of c) a

end_line-AreLines : (o : ℕ → Bytes) (w : Wm) → AreLines o w → AreLines o (end_line w)
unfolding end_line wm_current
end_line-AreLines o w a =
    set_current-AreLines o w (record (wm_current w) { len = 0; prompt = 0 })
      (record {
        fits = omega arith;
        inside = (a.lines w.current_term a.current).inside;
        printable = λ j lt. absurd (omega (arith, lt));
      })
      a

start_line-AreLines : (o : ℕ → Bytes) (w : Wm) → AreLines o w → AreLines o (start_line w)
unfolding start_line
start_line-AreLines o w a =
    if_keeps (AreLines o) ((wm_current w).prompt == 0) _ w (λ h. shown_prompt-AreLines o w a)
      (λ h. a)

-- Each key, with whatever modifiers, and what the shell does before and after a line, keep the line of
-- each of the ten terminals at 127 printable bytes or less, and store nothing, the final zero of a line included, at or
-- behind the end of its buffer of 128 bytes.
pub turns-AreLines :
    (o : ℕ → Bytes) (w : Wm) (mods c : ℕ)
    → AreLines o w
    → AreLines o (after (shell_key w mods c)) × AreLines o (end_line w) × AreLines o (start_line w)
turns-AreLines o w mods c a =
    (shell_key-AreLines o w mods c a, end_line-AreLines o w a, start_line-AreLines o w a)
