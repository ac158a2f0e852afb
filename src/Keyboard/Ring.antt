-- ===== src/Keyboard/Ring.antt =====
-- The scancode ring is a queue of at most 255 bytes, oldest first; a full ring drops the newest.
use mathlib.Core.Path.{ap₂}
use lunaria_os.Base.{
  false, ◌∙◌, ap, ℕ, zero, suc, ◌+◌, ◌-◌, ◌%◌, ◌<◌, ◌≡◌, refl, List, [], ◌∷◌, ◌++◌, none, some,
  arith, Bytes, write, length, Bool-cases, ◌==◌, if◌then◌else◌, inl, inr,
}
use lunaria_os.Keyboard.{
  Kbd, keyboard_handler, decode, break_extended, break_plain, make_extended, make_plain, kbd_getc,
  flush_loop, kbd_flush,
}

pub record IsRing (k : Kbd) : Type 0 where
  pub head_in : k.head < 256
  pub tail_in : k.tail < 256

-- the `n` bytes from index `t` on, going round at 256
unfoldable pub window : Bytes → ℕ → ℕ → List ℕ
window m t zero = []
window m t (suc n) = m t ∷ window m ((t + 1) % 256) n

abbrev pub count : Kbd → ℕ
count k = (k.head + 256 - k.tail) % 256

-- the scancodes that wait, oldest first
abbrev pub contents : Kbd → List ℕ
contents k = window k.buffer k.tail (count k)

pub length-window : (m : Bytes) (t n : ℕ) → length (window m t n) ≡ n
unfolding window
length-window m t zero = refl
length-window m t (suc n) = omega (arith, length-window m ((t + 1) % 256) n)

-- A write just past a window of less than 256 bytes extends it by that byte.
window-write :
    (m : Bytes) (v n t i : ℕ)
    → t < 256
    → n < 256
    → i ≡ (t + n) % 256
    → window (write m i v) t (suc n) ≡ window m t n ++ v ∷ []
unfolding window
window-write m v zero t i ht hn e = ground arith
window-write m v (suc n) t i ht hn e =
    ap₂ ◌∷◌ (ground arith)
      (window-write m v n ((t + 1) % 256) i (omega arith) (omega arith) (omega arith))

-- An interrupt puts its scancode at the end of the queue; if 255 scancodes wait it is dropped. The
-- indices stay inside the buffer.
pub keyboard_handler_lem :
    (k : Kbd) (sc : ℕ)
    → IsRing k
    → let k' = keyboard_handler k sc in
      IsRing k'
      × (contents k' ≡ (if length (contents k) == 255 then contents k else contents k ++ sc ∷ []))
unfolding keyboard_handler
keyboard_handler_lem k sc v =
    let size = length-window k.buffer k.tail (count k) in
    elim (Bool-cases (count k == 255)) [
      | inl full ↦ (ground arith, ground arith)
      | inr room ↦ (
        ground arith,
        (let grow : ((k.head + 1) % 256 + 256 - k.tail) % 256 ≡ suc (count k) = ground arith in
            ground (
              arith,
              grow,
              ap (window (write k.buffer k.head sc) k.tail) grow,
              window-write k.buffer sc (count k) k.tail k.head,
            )),
      )
    ]

-- the ring's own fields are not touched by decoding
record SameRing (k k' : Kbd) : Type 0 where
  buffer : k'.buffer ≡ k.buffer
  head : k'.head ≡ k.head
  tail : k'.tail ≡ k.tail

decode-SameRing : (k : Kbd) (sc : ℕ) → SameRing k (decode k sc).0
unfolding decode break_extended break_plain make_extended make_plain
decode-SameRing k sc = record { buffer = ground arith; head = ground arith; tail = ground arith }

-- the ring without its oldest scancode
abbrev pub consume : Kbd → Kbd
consume k = record k { tail = (k.tail + 1) % 256 }

contents_of_SameRing : {k k' : Kbd} → SameRing k k' → contents k' ≡ contents k
contents_of_SameRing s = rw (s.buffer, s.head, s.tail)

-- Reading an empty ring waits. Otherwise the oldest scancode is taken out and decoded, and the rest
-- stays in order.
pub kbd_getc-nil : (k : Kbd) → IsRing k → contents k ≡ [] → kbd_getc k ≡ none
unfolding kbd_getc window
kbd_getc-nil k v h = ground (arith, length-window k.buffer k.tail (count k))

window-eq-cons :
    (m : Bytes) (t n sc : ℕ) (rest : List ℕ)
    → window m t n ≡ sc ∷ rest
    → (0 < n) × (m t ≡ sc) × (window m ((t + 1) % 256) (n - 1) ≡ rest)
unfolding window
window-eq-cons m t zero sc rest h = absurd (omega (arith, ap length h))
window-eq-cons m t (suc n) sc rest h =
    let less : suc n - 1 ≡ n = omega arith in (omega arith, ground arith, rw less (ground arith))

pub kbd_getc-cons :
    (k : Kbd) (sc : ℕ) (rest : List ℕ)
    → IsRing k
    → contents k ≡ sc ∷ rest
    → let out = decode (consume k) sc in
      (kbd_getc k ≡ some out) × IsRing out.0 × (contents out.0 ≡ rest)
unfolding kbd_getc
kbd_getc-cons k sc rest v h =
    let (some_left, first, others) = window-eq-cons k.buffer k.tail (count k) sc rest h in
    let same = decode-SameRing (consume k) sc in
    let fewer : count (consume k) ≡ count k - 1 = omega arith in
    (
      ground arith,
      omega (arith, same.head, same.tail),
      contents_of_SameRing same ∙ ap (window k.buffer ((k.tail + 1) % 256)) fewer ∙ others,
    )

-- `kbd_flush` ends, empties the ring and forgets a pending prefix; the modifiers stay.
flush_loop_lem :
    (f : ℕ) (k : Kbd)
    → IsRing k
    → count k < f
    → (k' : Kbd) × (flush_loop f k ≡ some k')
      × (k'.tail ≡ k.head)
      × (k'.head ≡ k.head)
      × (k'.modifiers ≡ k.modifiers)
unfolding flush_loop
flush_loop_lem zero k v h = absurd (omega arith)
flush_loop_lem (suc f) k v h = elim (Bool-cases (k.head == k.tail)) [
  | inl same ↦ (k, rw same refl, ground arith, refl, refl)
  | inr more ↦ rw more (flush_loop_lem f (consume k) (ground arith) (ground arith))
]

pub kbd_flush_lem :
    (k : Kbd)
    → IsRing k
    → (k' : Kbd) × (kbd_flush k ≡ some k')
      × IsRing k'
      × (contents k' ≡ [])
      × (k'.extended ≡ false)
      × (k'.modifiers ≡ k.modifiers)
unfolding kbd_flush window
kbd_flush_lem k v =
    let (u, done, tail, head, mods) = flush_loop_lem 256 k v (omega arith) in
    let empty : (u.head + 256 - u.tail) % 256 ≡ 0 = omega (arith, v.head_in) in
    (
      record u { extended = false },
      rw done refl,
      ground arith,
      ground (arith, ap (window u.buffer u.tail) empty),
      refl,
      mods,
    )
