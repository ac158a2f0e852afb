-- ===== src/Editor/Keys.antt =====
-- The keys of the editor, and what holds of the editor after each.
use lunaria_os.Base.{
  ℕ, ◌+◌, ◌-◌, ◌%◌, ◌≤◌, ◌<◌, ◌≡◌, refl, List, [], ◌∷◌, Bool, true, false, ◌&&◌, Option, none, some,
  Bytes, write, length, ltb, leb, ◌==◌, if◌then◌else◌, arith, if_keeps,
}
use lunaria_os.Base.Int.{ℤ, pos, negsuc}
use lunaria_os.Fs.{Fs, fs_read, fs_file}
use lunaria_os.Fs.Update.{fs_write, is_empty}
use lunaria_os.Editor.{
  Editor, nothing, cmd_max, tab_w, line_begin, line_end, col_of, pos_for_col, do_insert,
  do_backspace,
}
use lunaria_os.Editor.Lines.{line_begin-le, line_end_bounds, pos_for_col_bounds}
use lunaria_os.Editor.Command.{
  run_command, run_text, load_into, text_read, opened, save_file, save_done, edit_file, quit_if,
  argument, with_argument, same_text,
}

unfoldable pub edit_key : Editor → ℕ → Editor
edit_key e k =
    if k == 0x1b
    then record e { cmd_mode = true; cmd_len = 0; cmd = write e.cmd 0 0 }
    else if k == 0xe2
    then (if ltb 0 e.pos then record e { pos = e.pos - 1 } else e)
    else if k == 0xe3
    then (if ltb e.pos e.len then record e { pos = e.pos + 1 } else e)
    else if k == 0xe0
    then (let lb = line_begin e.buf e.pos in
        if ltb 0 lb
        then record e { pos = pos_for_col e (line_begin e.buf (lb - 1)) (col_of e.buf e.pos) }
        else e)
    else if k == 0xe1
    then (let end = line_end e e.pos in
        if ltb end e.len
        then record e { pos = pos_for_col e (end + 1) (col_of e.buf e.pos) }
        else e)
    else if k == 8
    then do_backspace e
    else if k == 9
    then do_insert e 32 (tab_w - col_of e.buf e.pos % tab_w)
    else if k == 10
    then do_insert e 10 1
    else if leb 32 k && leb k 126
    then do_insert e k 1
    else e

unfoldable pub cmd_key : Bytes → Editor → ℕ → Editor
cmd_key stack e k =
    if k == 0x1b
    then record e { cmd_mode = false }
    else if k == 10
    then run_command stack (record e { cmd_mode = false })
    else if k == 8
    then (if ltb 0 e.cmd_len
        then record e { cmd_len = e.cmd_len - 1; cmd = write e.cmd (e.cmd_len - 1) 0 }
        else record e { cmd_mode = false })
    else if leb 32 k && leb k 126 && ltb e.cmd_len cmd_max
    then record e {
      cmd_len = e.cmd_len + 1;
      cmd = write (write e.cmd e.cmd_len k) (e.cmd_len + 1) 0;
    }
    else e

-- The loop of `_start` from the key on.
unfoldable pub handle_key : Bytes → Editor → ℕ → Editor
handle_key stack e k =
    if e.cmd_mode
    then cmd_key stack (record e { msg = nothing }) k
    else edit_key (record e { msg = nothing }) k

-- The cursor is in the text, the text with a zero behind it in its buffer, and the command is a text of
-- at most 50 bytes that ends inside its buffer.
pub record IsSafe (e : Editor) : Type 0 where
  pub inside : e.pos ≤ e.len
  pub fits : e.len < 65536
  pub command : e.cmd_len ≤ 50
  pub ends : e.cmd e.cmd_len ≡ 0

do_insert-IsSafe : (e : Editor) (c n : ℕ) → IsSafe e → IsSafe (do_insert e c n)
unfolding do_insert
do_insert-IsSafe e c n s = ground arith

do_backspace-IsSafe : (e : Editor) → IsSafe e → IsSafe (do_backspace e)
unfolding do_backspace
do_backspace-IsSafe e s = ground arith

moved-IsSafe : (e : Editor) (p : ℕ) → p ≤ e.len → IsSafe e → IsSafe (record e { pos = p })
moved-IsSafe e p le s = record { inside = le; fits = s.fits; command = s.command; ends = s.ends }

up-IsSafe :
    (e : Editor) (target : ℕ)
    → IsSafe e
    → IsSafe
        (record e { pos = pos_for_col e (line_begin e.buf (line_begin e.buf e.pos - 1)) target })
up-IsSafe e target s =
    let start = line_begin e.buf (line_begin e.buf e.pos - 1) in
    let start-le : start ≤ e.len = omega (
      arith,
      s.inside,
      line_begin-le e.buf e.pos,
      line_begin-le e.buf (line_begin e.buf e.pos - 1),
    ) in
    moved-IsSafe e (pos_for_col e start target)
      (omega (arith, pos_for_col_bounds e start target start-le, line_end_bounds e start start-le))
      s

down-IsSafe :
    (e : Editor) (target : ℕ)
    → line_end e e.pos < e.len
    → IsSafe e
    → IsSafe (record e { pos = pos_for_col e (line_end e e.pos + 1) target })
down-IsSafe e target lt s =
    let start = line_end e e.pos + 1 in
    moved-IsSafe e (pos_for_col e start target)
      (omega (
        arith,
        lt,
        pos_for_col_bounds e start target (omega (arith, lt)),
        line_end_bounds e start (omega (arith, lt)),
      ))
      s

edit_key-IsSafe : (e : Editor) (k : ℕ) → IsSafe e → IsSafe (edit_key e k)
unfolding edit_key
edit_key-IsSafe e k s =
    if_keeps IsSafe (k == 0x1b) _ _
      (λ h. record { inside = s.inside; fits = s.fits; command = omega arith; ends = refl })
      λ h1.
        if_keeps IsSafe (k == 0xe2) _ _
          (λ h.
            if_keeps IsSafe (ltb 0 e.pos) _ e
              (λ h'. moved-IsSafe e (e.pos - 1) (omega (arith, s.inside)) s) (λ h'. s))
          λ h2.
            if_keeps IsSafe (k == 0xe3) _ _
              (λ h.
                if_keeps IsSafe (ltb e.pos e.len) _ e
                  (λ h'. moved-IsSafe e (e.pos + 1) (ground (arith, h')) s) (λ h'. s))
              λ h3.
                if_keeps IsSafe (k == 0xe0) _ _
                  (λ h.
                    if_keeps IsSafe (ltb 0 (line_begin e.buf e.pos)) _ e
                      (λ h'. up-IsSafe e (col_of e.buf e.pos) s) (λ h'. s))
                  λ h4.
                    if_keeps IsSafe (k == 0xe1) _ _
                      (λ h.
                        if_keeps IsSafe (ltb (line_end e e.pos) e.len) _ e
                          (λ h'. down-IsSafe e (col_of e.buf e.pos) (ground (arith, h')) s)
                          (λ h'. s))
                      λ h5.
                        if_keeps IsSafe (k == 8) _ _ (λ h. do_backspace-IsSafe e s)
                          λ h6.
                            if_keeps IsSafe (k == 9) _ _
                              (λ h. do_insert-IsSafe e 32 (tab_w - col_of e.buf e.pos % tab_w) s)
                              λ h7.
                                if_keeps IsSafe (k == 10) _ _ (λ h. do_insert-IsSafe e 10 1 s)
                                  λ h8.
                                    if_keeps IsSafe (leb 32 k && leb k 126) _ e
                                      (λ h. do_insert-IsSafe e k 1 s) (λ h. s)

-- A file that is read fits the buffer.
abbrev fits : ℕ → Bytes × ℤ → Bool
fits max (out, negsuc n) = true
fits max (out, pos n) = leb n max

fs_read_fits :
    (fs : Fs) (name : List ℕ) (buf : Bytes) (max : ℕ) → fits max (fs_read fs name buf max) ≡ true
unfolding fs_read
fs_read_fits fs name buf max = ground arith

opened-IsSafe :
    (e : Editor) (name : List ℕ) (o : Bytes × ℤ)
    → fits 65535 o ≡ true
    → IsSafe e
    → IsSafe (opened (text_read e name o))
unfolding opened text_read
opened-IsSafe e name (out, negsuc n) h s = ground arith
opened-IsSafe e name (out, pos n) h s = ground arith

save_done-IsSafe :
    (e : Editor) (name : List ℕ) (r : Fs × Bool) → IsSafe e → IsSafe (save_done e name r).0
unfolding save_done
save_done-IsSafe e name (fs, true) s = ground arith
save_done-IsSafe e name (fs, false) s = ground arith

save_file-IsSafe :
    (stack : Bytes) (e : Editor) (name : List ℕ) → IsSafe e → IsSafe (save_file stack e name).0
unfolding save_file
save_file-IsSafe stack e name s =
    ground (arith, save_done-IsSafe e name (fs_write stack e.fs name fs_file e.buf e.len))

edit_file-IsSafe : (e : Editor) (name : List ℕ) → IsSafe e → IsSafe (edit_file e name)
unfolding edit_file load_into
edit_file-IsSafe e name s =
    if_keeps IsSafe e.dirty _ _ (λ h. ground arith)
      λ h.
        if_keeps IsSafe (leb 23 (length name)) _ _ (λ h'. ground arith)
          (λ h'.
            opened-IsSafe e name (fs_read e.fs name e.buf 65535)
              (fs_read_fits e.fs name e.buf 65535) s)

quit_if-IsSafe : (r : Editor × Bool) → IsSafe r.0 → IsSafe (quit_if r)
quit_if-IsSafe (e, true) s = ground arith
quit_if-IsSafe (e, false) s = s

with_argument-IsSafe :
    (stack : Bytes) (e : Editor) (a b : Option (List ℕ))
    → IsSafe e
    → IsSafe (with_argument stack e a b)
unfolding with_argument
with_argument-IsSafe stack e (some name) b s = edit_file-IsSafe e name s
with_argument-IsSafe stack e none (some name) s = save_file-IsSafe stack e name s
with_argument-IsSafe stack e none none s = ground arith

run_text-IsSafe : (stack : Bytes) (e : Editor) (c : List ℕ) → IsSafe e → IsSafe (run_text stack e c)
unfolding run_text
run_text-IsSafe stack e c s =
    if_keeps IsSafe (is_empty c) e _ (λ h. s)
      λ h1.
        if_keeps IsSafe (same_text c (b'q' ∷ [])) _ _
          (λ h. if_keeps IsSafe e.dirty _ _ (λ h'. ground arith) (λ h'. ground arith))
          λ h2.
            if_keeps IsSafe (same_text c (b'q' ∷ b'!' ∷ [])) _ _ (λ h. ground arith)
              λ h3.
                if_keeps IsSafe (same_text c (b'w' ∷ [])) _ _
                  (λ h. save_file-IsSafe stack e e.fname s)
                  λ h4.
                    if_keeps IsSafe (same_text c (b'w' ∷ b'q' ∷ [])) _ _
                      (λ h.
                        quit_if-IsSafe (save_file stack e e.fname)
                          (save_file-IsSafe stack e e.fname s))
                      λ h5.
                        if_keeps IsSafe (same_text c (b'n' ∷ [])) _ _
                          (λ h.
                            if_keeps IsSafe e.dirty _ _ (λ h'. ground arith) (λ h'. ground arith))
                          λ h6. with_argument-IsSafe stack e (argument b'e' c) (argument b'w' c) s

cmd_key-IsSafe : (stack : Bytes) (e : Editor) (k : ℕ) → IsSafe e → IsSafe (cmd_key stack e k)
unfolding cmd_key run_command
cmd_key-IsSafe stack e k s =
    if_keeps IsSafe (k == 0x1b) _ _ (λ h. ground arith)
      λ h1.
        if_keeps IsSafe (k == 10) _ _
          (λ h.
            run_text-IsSafe stack (record e { cmd_mode = false }) _
              (record { inside = s.inside; fits = s.fits; command = s.command; ends = s.ends }))
          λ h2.
            if_keeps IsSafe (k == 8) _ _
              (λ h. if_keeps IsSafe (ltb 0 e.cmd_len) _ _ (λ h'. ground arith) (λ h'. ground arith))
              λ h3.
                if_keeps IsSafe (leb 32 k && leb k 126 && ltb e.cmd_len cmd_max) _ e
                  (λ h. ground (arith, h)) (λ h. s)

-- Each key, in the text and on the command line, with the commands that it runs and for every disk,
-- keeps the cursor in the text, the text in its buffer and the command in its.
pub handle_key-IsSafe :
    (stack : Bytes) (e : Editor) (k : ℕ) → IsSafe e → IsSafe (handle_key stack e k)
unfolding handle_key
handle_key-IsSafe stack e k s =
    let clean : IsSafe (record e { msg = nothing }) = record {
      inside = s.inside;
      fits = s.fits;
      command = s.command;
      ends = s.ends;
    } in
    if_keeps IsSafe e.cmd_mode _ _ (λ h. cmd_key-IsSafe stack (record e { msg = nothing }) k clean)
      λ h. edit_key-IsSafe (record e { msg = nothing }) k clean
