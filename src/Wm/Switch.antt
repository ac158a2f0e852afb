-- ===== src/Wm/Switch.antt =====
-- Start-up and switching of terminals.
use lunaria_os.Base.{
  inr, inl, Bool-cases, refl, ℕ, zero, suc, ◌+◌, ◌<◌, ◌≡◌, arith, in_range, if◌then◌else◌,
}
use lunaria_os.Base.Int.{ℤ, pos, negsuc}
use lunaria_os.Terminal.{Terminal, white, term_clear}
use lunaria_os.Terminal.Cursor.{IsOnScreen}
use lunaria_os.Wm.{Wm, set_term, init_terms, wm_init, wm_switch}
use lunaria_os.Wm.Blit.{InSync, wm_blit-InSync}

-- All carets are on their screens, and the byte `j` of the screen is that of the terminal on show.
pub record IsInStep (w : Wm) (j : ℕ) : Type 0 where
  pub carets : (i : ℕ) → IsOnScreen (w.terms i)
  pub same : InSync (w.terms w.current_term) w.vga j

-- what `wm_init` makes of a terminal
abbrev pub ready : Terminal → Terminal
ready t = term_clear (record t { color = white; len = 0; prompt = 0 })

init_terms_lem :
    (n i : ℕ) (w : Wm) (k : ℕ)
    → (init_terms n i w).terms k ≡ (if in_range i (i + n) k then ready (w.terms k) else w.terms k)
unfolding init_terms
init_terms_lem zero i w k = ground arith
init_terms_lem (suc n) i w k =
    ground (arith, init_terms_lem n (i + 1) (set_term w i (ready (w.terms i))) k)

ready-IsOnScreen : (t : Terminal) → IsOnScreen (ready t)
unfolding term_clear
ready-IsOnScreen t = omega arith

init_terms-IsOnScreen :
    (n i : ℕ) (w : Wm) (k : ℕ) → IsOnScreen (w.terms k) → IsOnScreen ((init_terms n i w).terms k)
init_terms-IsOnScreen n i w k v = elim (Bool-cases (in_range i (i + n) k)) [
  | inl e ↦ rw (init_terms_lem n i w k, e) (ready-IsOnScreen (w.terms k))
  | inr e ↦ rw (init_terms_lem n i w k, e) v
]

-- After `wm_init` every caret is on its screen and the screen shows the first terminal, if the
-- carets are on their screens before, as in zeroed memory.
pub wm_init-IsInStep :
    (w : Wm) (j : ℕ)
    → ((i : ℕ) → IsOnScreen (w.terms i))
    → j < 4000
    → IsInStep (wm_init w) j × ((wm_init w).current_term ≡ 0)
unfolding wm_init
wm_init-IsInStep w j v h = (
  record {
    carets = λ i. init_terms-IsOnScreen 10 0 w i (v i);
    same =
        wm_blit-InSync ((init_terms 10 0 w).terms 0) w.vga j (init_terms-IsOnScreen 10 0 w 0 (v 0))
          h;
  },
  refl,
)

-- Switching to any index keeps the screen in step; an index out of range changes nothing.
pub wm_switch-IsInStep :
    (w : Wm) (idx : ℤ) (j : ℕ) → IsInStep w j → j < 4000 → IsInStep (wm_switch w idx) j
unfolding wm_switch
wm_switch-IsInStep w (negsuc idx) j v h = v
wm_switch-IsInStep w (pos idx) j v h = record {
  carets = λ i. ground (arith, v.carets i);
  same = ground (arith, wm_blit-InSync (w.terms idx) w.vga j (v.carets idx) h);
}
