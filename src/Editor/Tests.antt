-- ===== src/Editor/Tests.antt =====
-- The editor on a text of two lines, "ab" and "c", and an empty disk.
use lunaria_os.Base.{
  ◌≡◌, refl, [], ◌∷◌, true, false, some, get_or, ltb, arith, Bool-cases, inl, inr,
}
use lunaria_os.Base.Table.{holds_under, holds_under_lem}
use lunaria_os.Fs.{Fs, entry_at, same_name}
use lunaria_os.Fs.Put.{IsSound}
use lunaria_os.Fs.Scan.{lies}
use lunaria_os.Fs.Update.{has_slash}
use lunaria_os.Editor.{
  Editor, nothing, scroll_fix, do_insert, line_begin, line_end_in, columns, col_of, walk,
  pos_for_col,
}
use lunaria_os.Editor.Edits.{SameText, erase, erase-do_insert}
use lunaria_os.Editor.View.{IsShown, scroll_fix-IsShown}
use lunaria_os.Editor.Command.{load_into, save_file, run_text}
use lunaria_os.Editor.Keys.{IsSafe, handle_key, edit_key, handle_key-IsSafe}
use lunaria_os.Editor.Files.{IsLoaded, load_into-save_file}

abbrev empty_disk : Fs
empty_disk = record {
  disk = λ a j. 0;
  faulty = λ a. false;
  dir_lba = 2;
  dir_sectors = 1;
  data_lba = 3;
}

lies_table : holds_under 16 (λ k. lies empty_disk 3 k) ≡ true
unfolding holds_under entry_at
lies_table = refl

empty_disk-IsSound : IsSound empty_disk 3
empty_disk-IsSound = record {
  works = λ a. refl;
  directory = omega arith;
  data_area = omega arith;
  files = λ k. elim (Bool-cases (ltb k 16)) [
    | inl e ↦ holds_under_lem 16 (λ k. lies empty_disk 3 k) k lies_table (ground (arith, e))
    | inr e ↦ ground (arith, e)
  ];
}

-- The cursor is behind the "b", and the view begins past the text.
abbrev two_lines : Editor
two_lines = record {
  buf = λ j. get_or (b'a' ∷ b'b' ∷ 10 ∷ b'c' ∷ []) j 0;
  len = 4;
  pos = 2;
  top = 9;
  offx = 200;
  dirty = false;
  cmd_mode = false;
  cmd_len = 0;
  quit = false;
  cmd = λ j. 0;
  fname = [];
  msg = nothing;
  fs = empty_disk;
}

two_lines-IsSafe : IsSafe two_lines
two_lines-IsSafe = record {
  inside = omega arith;
  fits = omega arith;
  command = omega arith;
  ends = refl;
}

scroll_fix-IsShown_example :
    (e' : Editor) × (scroll_fix 10 two_lines ≡ some e') × IsShown two_lines e'
scroll_fix-IsShown_example =
    scroll_fix-IsShown 10 two_lines (omega arith) (omega arith) (omega arith)

erase-do_insert_example : SameText two_lines (erase 4 (do_insert two_lines 32 4))
erase-do_insert_example = erase-do_insert two_lines 32 4 (omega arith) (omega arith)

handle_key-IsSafe_example : IsSafe (handle_key (λ j. 0) two_lines 0xe1)
handle_key-IsSafe_example = handle_key-IsSafe (λ j. 0) two_lines 0xe1 two_lines-IsSafe

-- Down goes to the end of the shorter line, and up to the column from which it came.
down_key : (edit_key two_lines 0xe1).pos ≡ 4
unfolding edit_key line_begin line_end_in columns col_of walk pos_for_col
down_key = refl

up_key : (edit_key (record two_lines { pos = 4 }) 0xe0).pos ≡ 1
unfolding edit_key line_begin line_end_in columns col_of walk pos_for_col
up_key = refl

modified_stays : (run_text (λ j. 0) (record two_lines { dirty = true }) (b'q' ∷ [])).quit ≡ false
unfolding run_text
modified_stays = refl

load_into-save_file_example :
    (e1 : Editor) × (e2 : Editor) × (save_file (λ j. 0) two_lines (b'a' ∷ []) ≡ (e1, true))
    × (load_into e1 (b'a' ∷ []) ≡ (e2, some 4))
    × IsLoaded two_lines e2 (b'a' ∷ [])
unfolding entry_at same_name has_slash
load_into-save_file_example =
    load_into-save_file (λ j. 0) two_lines (b'a' ∷ []) 3 1 two_lines-IsSafe empty_disk-IsSound
      (record {
        named = λ e. omega (arith, e);
        short = omega arith;
        small = omega arith;
        room = omega arith;
      })
      refl refl refl
