-- ===== src/Keyboard/Decode.antt =====
-- The decoder against an abstract keyboard: four modifier keys that are down or up, caps lock, and
-- whether the prefix 0xe0 was the last byte.
use lunaria_os.Base.{
  ◌∙◌, ltb→lt, inr, inl, Bool-cases, ℕ, ◌+◌, ◌-◌, ◌*◌, ◌%◌, ◌^◌, ◌<◌, ◌≤◌, ◌≡◌, refl, Bool, true,
  false, not, ◌&&◌, ◌||◌, Option, none, some, arith, bit_and, bit_or, get_or, ltb, leb, ◌==◌,
  if◌then◌else◌,
}
use lunaria_os.Base.Table.{holds_under, holds_under_lem}
use lunaria_os.Keyboard.{
  Kbd, decode, break_extended, break_plain, make_extended, make_plain, key_char, scancodes,
  scancodes_shift, mod_shift, differ,
}

pub data Modifier : Type 0 where
  shift ctrl alt super : Modifier

pub record Held : Type 0 where
  pub shift_down : Bool
  pub ctrl_down : Bool
  pub alt_down : Bool
  pub super_down : Bool
  pub caps : Bool
  pub prefixed : Bool

-- the modifier that a key is, behind the prefix or not; the two shift keys count as one
unfoldable pub modifier_of : Bool → ℕ → Option Modifier
modifier_of true key =
    if key == 0x1d
    then some ctrl
    else if key == 0x38
    then some alt
    else if key == 0x5b || key == 0x5c
    then some super
    else none
modifier_of false key =
    if key == 0x2a || key == 0x36
    then some shift
    else if key == 0x1d
    then some ctrl
    else if key == 0x38
    then some alt
    else none

unfoldable pub hold : Held → Option Modifier → Bool → Held
hold h none down = h
hold h (some shift) down = record h { shift_down = down }
hold h (some ctrl) down = record h { ctrl_down = down }
hold h (some alt) down = record h { alt_down = down }
hold h (some super) down = record h { super_down = down }

-- One key that goes down or up: it uses up the prefix, and caps lock turns over when its key goes
-- down.
unfoldable pub move : Held → ℕ → Bool → Held
move h key down =
    let moved = hold (record h { prefixed = false }) (modifier_of h.prefixed key) down in
    if not h.prefixed && (down && (key == 0x3a))
    then record moved { caps = not moved.caps }
    else moved

-- One byte from the controller: the prefix, or a key with the high bit set if it goes up.
unfoldable pub step : Held → ℕ → Held
step h sc = if sc == 0xe0 then record h { prefixed = true } else move h (sc % 0x80) (ltb sc 0x80)

abbrev pub bit : Bool → ℕ
bit true = 1
bit false = 0

abbrev pub mask : Held → ℕ
mask h = bit h.shift_down + bit h.ctrl_down * 2 + bit h.alt_down * 4 + bit h.super_down * 8

-- the bit of a modifier
abbrev pub mod_bit : Modifier → ℕ
mod_bit shift = 1
mod_bit ctrl = 2
mod_bit alt = 4
mod_bit super = 8

press_bit : (h : Held) (m : Modifier) → bit_or (mask h) (mod_bit m) ≡ mask (hold h (some m) true)
unfolding hold
press_bit h m = ground arith

release_bit :
    (h : Held) (m : Modifier)
    → bit_and (mask h) (2 ^ 32 - 1 - mod_bit m) ≡ mask (hold h (some m) false)
unfolding hold
release_bit h m = ground arith

-- the driver's variables stand for the keyboard `h`
pub record Shows (k : Kbd) (h : Held) : Type 0 where
  pub mods : k.modifiers ≡ mask h
  pub caps : k.caps_lock ≡ h.caps
  pub prefix : k.extended ≡ h.prefixed

leb_of_ltb : (a b : ℕ) → ltb a b ≡ true → leb b a ≡ false
leb_of_ltb a b h = ground arith

leb_of_not_ltb : (a b : ℕ) → ltb a b ≡ false → leb b a ≡ true
leb_of_not_ltb a b h = ground arith

mod_low : (sc : ℕ) → sc < 128 → sc % 128 ≡ sc
mod_low sc h = omega arith

mod_high : (sc : ℕ) → 128 ≤ sc → sc < 256 → sc % 128 ≡ sc - 128
mod_high sc h lt = omega arith

module _ (k : Kbd) (h : Held) (same : k.modifiers ≡ mask h) where
  break_extended_mods :
      (key : ℕ) → (break_extended k key).modifiers ≡ mask (hold h (modifier_of true key) false)
  unfolding break_extended modifier_of hold
  break_extended_mods key =
      ground (arith, release_bit h ctrl, release_bit h alt, release_bit h super)

  break_plain_mods :
      (key : ℕ) → (break_plain k key).modifiers ≡ mask (hold h (modifier_of false key) false)
  unfolding break_plain modifier_of hold
  break_plain_mods key = ground (arith, release_bit h shift, release_bit h ctrl, release_bit h alt)

  make_extended_mods :
      (key : ℕ) → (make_extended k key).0.modifiers ≡ mask (hold h (modifier_of true key) true)
  unfolding make_extended modifier_of hold
  make_extended_mods key = ground (arith, press_bit h ctrl, press_bit h alt, press_bit h super)

  make_plain_mods :
      (key : ℕ) → (make_plain k key).0.modifiers ≡ mask (hold h (modifier_of false key) true)
  unfolding make_plain modifier_of hold
  make_plain_mods key = ground (arith, press_bit h shift, press_bit h ctrl, press_bit h alt)

hold_caps : (h : Held) (m : Option Modifier) (down : Bool) → (hold h m down).caps ≡ h.caps
unfolding hold
hold_caps h m down = ground arith

hold_prefix : (h : Held) (m : Option Modifier) (down : Bool) → (hold h m down).prefixed ≡ h.prefixed
unfolding hold
hold_prefix h m down = ground arith

module _ (k : Kbd) (h : Held) (key : ℕ) (s : Shows k h) where
  abbrev free : Held
  free = record h { prefixed = false }

  break_extended_caps : (break_extended (record k { extended = false }) key).caps_lock ≡ k.caps_lock
  unfolding break_extended
  break_extended_caps = ground arith

  break_extended_prefix : (break_extended (record k { extended = false }) key).extended ≡ false
  unfolding break_extended
  break_extended_prefix = ground arith

  break_extended-Shows :
      h.prefixed ≡ true
      → Shows (break_extended (record k { extended = false }) key) (move h key false)
  unfolding move
  break_extended-Shows p = record {
    mods = rw p (
        ground (
          arith,
          break_extended_mods (record k { extended = false }) (record h { prefixed = false }) s.mods
              key,
        ));
    caps = rw p (ground (arith, break_extended_caps, hold_caps free (modifier_of true key) false));
    prefix =
        rw p (ground (arith, break_extended_prefix, hold_prefix free (modifier_of true key) false));
  }

  break_plain_caps : (break_plain k key).caps_lock ≡ k.caps_lock
  unfolding break_plain
  break_plain_caps = ground arith

  break_plain_prefix : (break_plain k key).extended ≡ k.extended
  unfolding break_plain
  break_plain_prefix = ground arith

  break_plain-Shows : h.prefixed ≡ false → Shows (break_plain k key) (move h key false)
  unfolding move
  break_plain-Shows p = record {
    mods = rw p (ground (arith, break_plain_mods k (record h { prefixed = false }) s.mods key));
    caps = rw p (ground (arith, break_plain_caps, hold_caps free (modifier_of false key) false));
    prefix =
        rw p (ground (arith, break_plain_prefix, hold_prefix free (modifier_of false key) false));
  }

  make_extended_caps : (make_extended (record k { extended = false }) key).0.caps_lock ≡ k.caps_lock
  unfolding make_extended
  make_extended_caps = ground arith

  make_extended_prefix : (make_extended (record k { extended = false }) key).0.extended ≡ false
  unfolding make_extended
  make_extended_prefix = ground arith

  make_extended-Shows :
      h.prefixed ≡ true
      → Shows (make_extended (record k { extended = false }) key).0 (move h key true)
  unfolding move
  make_extended-Shows p = record {
    mods = rw p (
        ground (
          arith,
          make_extended_mods (record k { extended = false }) (record h { prefixed = false }) s.mods
              key,
        ));
    caps = rw p (ground (arith, make_extended_caps, hold_caps free (modifier_of true key) true));
    prefix =
        rw p (ground (arith, make_extended_prefix, hold_prefix free (modifier_of true key) true));
  }

  make_plain_caps :
      (make_plain k key).0.caps_lock ≡ (if key == 0x3a then not k.caps_lock else k.caps_lock)
  unfolding make_plain
  make_plain_caps = ground arith

  make_plain_prefix : (make_plain k key).0.extended ≡ k.extended
  unfolding make_plain
  make_plain_prefix = ground arith

  make_plain-Shows : h.prefixed ≡ false → Shows (make_plain k key).0 (move h key true)
  unfolding move
  make_plain-Shows p = record {
    mods = rw p (ground (arith, make_plain_mods k (record h { prefixed = false }) s.mods key));
    caps = rw p (ground (arith, make_plain_caps, hold_caps free (modifier_of false key) true));
    prefix =
        rw p (ground (arith, make_plain_prefix, hold_prefix free (modifier_of false key) true));
  }

-- Decoding any byte keeps the driver's variables in step with the abstract keyboard: each modifier
-- bit is set exactly while its key is down.
pub decode-Shows :
    (k : Kbd) (h : Held) (sc : ℕ) → Shows k h → sc < 256 → Shows (decode k sc).0 (step h sc)
unfolding decode step
decode-Shows k h sc s lt = elim (Bool-cases (sc == 0xe0)) [
  | inl e ↦ rw e (record { mods = s.mods; caps = s.caps; prefix = refl })
  | inr e ↦ rw e (elim (Bool-cases (ltb sc 0x80)) [
    | inl down ↦
        rw (mod_low sc (ltb→lt _ _ down), down, leb_of_ltb sc 0x80 down)
          (elim (Bool-cases h.prefixed) [
            | inl p ↦ simp (s.prefix ∙ p) (make_extended-Shows k h sc s p)
            | inr p ↦ simp (s.prefix ∙ p) (make_plain-Shows k h sc s p)
          ])
    | inr up ↦
        rw (mod_high sc (ground arith) lt, up, leb_of_not_ltb sc 0x80 up)
          (elim (Bool-cases h.prefixed) [
            | inl p ↦ simp (s.prefix ∙ p) (break_extended-Shows k h (sc - 0x80) s p)
            | inr p ↦ simp (s.prefix ∙ p) (break_plain-Shows k h (sc - 0x80) s p)
          ])
  ])
]

-- The shifted table has the capital of each letter of the plain table.
letter_table :
    holds_under 128 (λ sc.
      not (leb 97 (get_or scancodes sc 0) && leb (get_or scancodes sc 0) 122)
      || (get_or scancodes_shift sc 0 + 32 == get_or scancodes sc 0))
    ≡ true
unfolding holds_under
letter_table = refl

-- Modifier keys and caps lock have no letter.
plain_table :
    holds_under 128 (λ sc.
      not (sc == 0x2a || sc == 0x36 || sc == 0x1d || sc == 0x38 || sc == 0x3a)
      || (get_or scancodes sc 0 == 0))
    ≡ true
unfolding holds_under
plain_table = refl

shift_bit : (h : Held) → bit_and (mask h) mod_shift ≡ bit h.shift_down
shift_bit h = ground arith

-- A letter key without prefix gives the capital exactly when one of shift and caps lock is on, and
-- the small letter otherwise; it changes no modifier.
pub decode-letter :
    (k : Kbd) (h : Held) (sc : ℕ)
    → Shows k h
    → h.prefixed ≡ false
    → sc < 128
    → 97 ≤ get_or scancodes sc 0
    → get_or scancodes sc 0 ≤ 122
    → (decode k sc).1
      ≡ (if differ h.shift_down h.caps then get_or scancodes sc 0 - 32 else get_or scancodes sc 0)
unfolding decode make_plain key_char
decode-letter k h sc s e lt lo hi = ground (
  arith,
  holds_under_lem 128 _ sc letter_table lt,
  holds_under_lem 128 _ sc plain_table lt,
  shift_bit h,
)
