-- ===== src/Terminal/Scroll.antt =====
-- The terminal as a teletype: the characters on the screen by their position, row by row.
use lunaria_os.Base.{refl, ℕ, ◌+◌, ◌*◌, ◌<◌, ◌≡◌, ◌≢◌, arith, ltb, ◌==◌, if◌then◌else◌}
use lunaria_os.Terminal.{Terminal, term_scroll, place, term_putchar, term_backspace, scroll_up}
use lunaria_os.Terminal.Loops.{scroll_up_lem, blank_lem}
use lunaria_os.Terminal.Cursor.{IsOnScreen}

-- the character and the attribute at a position
abbrev pub char_at : Terminal → ℕ → ℕ
char_at t p = t.cells (p * 2)

abbrev pub attr_at : Terminal → ℕ → ℕ
attr_at t p = t.cells (p * 2 + 1)

-- the caret's position
abbrev pub caret : Terminal → ℕ
caret t = t.cursor_y * 80 + t.cursor_x

-- Scrolling moves each row up by one and leaves a blank last row in the terminal's colour.
pub record IsScrolled (t u : Terminal) (p : ℕ) : Type 0 where
  pub column : u.cursor_x ≡ t.cursor_x
  pub row : u.cursor_y ≡ 24
  pub chars : char_at u p ≡ (if ltb p 1920 then char_at t (p + 80) else 32)
  pub attrs : attr_at u p ≡ (if ltb p 1920 then attr_at t (p + 80) else t.color)

pub term_scroll_lem : (t : Terminal) (p : ℕ) → p < 2000 → IsScrolled t (term_scroll t) p
unfolding term_scroll
term_scroll_lem t p h = record {
  column = refl;
  row = refl;
  chars = ground (
    arith,
    blank_lem t.color 80 1920 (scroll_up 3840 0 t.cells) (p * 2),
    scroll_up_lem 3840 0 t.cells (p * 2),
  );
  attrs = ground (
    arith,
    blank_lem t.color 80 1920 (scroll_up 3840 0 t.cells) (p * 2 + 1),
    scroll_up_lem 3840 0 t.cells (p * 2 + 1),
  );
}

-- The screen after the character `c` at the position `at`, and where the caret goes.
abbrev pub typed : Terminal → ℕ → ℕ → ℕ
typed t c p = if p == caret t then c else char_at t p

abbrev pub inked : Terminal → ℕ → ℕ → ℕ
inked t color p = if p == caret t then color else attr_at t p

pub record IsTyped (t : Terminal) (c color : ℕ) (u : Terminal) (p : ℕ) : Type 0 where
  pub moved : caret u ≡ (if caret t == 1999 then 1920 else caret t + 1)
  pub chars :
      char_at u p
      ≡ (if caret t == 1999 then (if ltb p 1920 then typed t c (p + 80) else 32) else typed t c p)
  pub attrs : attr_at u p ≡ (
      if caret t == 1999
      then (if ltb p 1920 then inked t color (p + 80) else t.color)
      else inked t color p)

pub record IsPlaced (t : Terminal) (c color : ℕ) (u : Terminal) (p : ℕ) : Type 0 where
  pub moved : caret u ≡ caret t + 1
  pub low : u.cursor_x < 80
  pub same : u.color ≡ t.color
  pub chars : char_at u p ≡ typed t c p
  pub attrs : attr_at u p ≡ inked t color p

pub place_lem :
    (t : Terminal) (c color p : ℕ) → IsOnScreen t → c ≢ 10 → IsPlaced t c color (place t c color) p
unfolding place
place_lem t c color p v h = record {
  moved = ground arith;
  low = ground arith;
  same = ground arith;
  chars = ground arith;
  attrs = ground arith;
}

-- Typing a byte other than a newline with the caret on the screen: the byte and its attribute land
-- under the caret, the caret goes on by one position, and past the last position the screen scrolls.
pub term_putchar_lem :
    (t : Terminal) (c color p : ℕ)
    → IsOnScreen t
    → c ≢ 10
    → p < 2000
    → IsTyped t c color (term_putchar t c color) p
unfolding term_putchar
term_putchar_lem t c color p v h hp =
    let u = place t c color in
    let here = place_lem t c color p v h in
    let below = place_lem t c color (p + 80) v h in
    let scrolled = term_scroll_lem u p hp in
    record { moved = ground arith; chars = ground arith; attrs = ground arith }

-- Backspace after a byte that did not scroll the screen takes the caret back and leaves a blank
-- under it, and changes no other character.
pub backspace-putchar :
    (t : Terminal) (c color p : ℕ)
    → IsOnScreen t
    → c ≢ 10
    → caret t ≢ 1999
    → let u = term_backspace (term_putchar t c color) in
      (caret u ≡ caret t) × (char_at u p ≡ (if p == caret t then 32 else char_at t p))
unfolding term_backspace term_putchar place
backspace-putchar t c color p v h hc = (ground arith, ground arith)
