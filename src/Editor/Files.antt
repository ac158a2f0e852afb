-- ===== src/Editor/Files.antt =====
-- What is saved is what is loaded.
use lunaria_os.Base.{ℕ, ◌<◌, ◌≡◌, refl, ap, List, true, false, some, Bytes, length, arith}
use lunaria_os.Fs.{Fs, fs_file}
use lunaria_os.Fs.Update.{fs_write, has_slash, is_empty}
use lunaria_os.Fs.Put.{IsSound, IsFile}
use lunaria_os.Fs.Write.{takes, fs_read-fs_write}
use lunaria_os.Editor.{Editor, saved}
use lunaria_os.Editor.Command.{load_into, text_read, save_file, save_done}
use lunaria_os.Editor.Keys.{IsSafe}

-- the editor after the text was loaded from the file
pub record IsLoaded (e e' : Editor) (name : List ℕ) : Type 0 where
  pub len : e'.len ≡ e.len
  pub text : (j : ℕ) → j < e.len → e'.buf j ≡ e.buf j
  pub at_start : (e'.pos ≡ 0) × (e'.top ≡ 0) × (e'.offx ≡ 0)
  pub clean : e'.dirty ≡ false
  pub named : e'.fname ≡ name

save_file_lem :
    (stack : Bytes) (e : Editor) (name : List ℕ) (fs' : Fs)
    → is_empty name ≡ false
    → length name < 23
    → fs_write stack e.fs name fs_file e.buf e.len ≡ (fs', true)
    → save_file stack e name
      ≡ (record e { fs = fs'; fname = name; dirty = false; msg = saved name e.len }, true)
unfolding save_file save_done
save_file_lem stack e name fs' some_name short eq =
    ground (arith, some_name, short, ap (save_done e name) eq)

-- `:w name` and then `:e name`, for a text in its buffer, a name of 1 to 22 bytes without a slash, a
-- working disk whose files lie between the directory and `limit`, room for the text behind that and
-- a slot that is free or the file's: saving succeeds, and loading gives the text, with the view and the
-- cursor at its start, unmodified and under that name.
pub load_into-save_file :
    (stack : Bytes) (e : Editor) (name : List ℕ) (limit k : ℕ)
    → IsSafe e
    → IsSound e.fs limit
    → IsFile name e.len limit
    → is_empty name ≡ false
    → has_slash name ≡ false
    → takes e.fs name k ≡ true
    → (e1 : Editor) × (e2 : Editor) × (save_file stack e name ≡ (e1, true))
      × (load_into e1 name ≡ (e2, some e.len))
      × IsLoaded e e2 name
unfolding load_into text_read
load_into-save_file stack e name limit k s so f some_name top free =
    let (fs', out, written, read, bytes) =
      fs_read-fs_write stack e.fs name fs_file e.buf e.len limit k 65535 e.buf so f top free
        (omega (arith, s.fits)) (omega (arith, s.fits)) in
    (
      record e { fs = fs'; fname = name; dirty = false; msg = saved name e.len },
      record e {
        fs = fs';
        fname = name;
        dirty = false;
        msg = saved name e.len;
        buf = out;
        pos = 0;
        top = 0;
        offx = 0;
      },
      save_file_lem stack e name fs' some_name f.short written,
      ap
          (text_read (record e { fs = fs'; fname = name; dirty = false; msg = saved name e.len })
            name)
          read,
      record {
        len = refl;
        text = λ j lt. ground (arith, lt, bytes j);
        at_start = (refl, refl, refl);
        clean = refl;
        named = refl;
      },
    )
