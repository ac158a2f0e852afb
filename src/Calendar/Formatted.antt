-- ===== src/Calendar/Formatted.antt =====
-- `strftime` writes as much of the expanded format as fits.
use mathlib.Core.Path.{subst}
use lunaria_os.Base.{
  ℕ, min, ◌+◌, ◌-◌, ◌≤◌, ◌<◌, ◌≡◌, refl, sym, ap, ◌∙◌, Bool, true, false, not, some, ltb, leb, ◌==◌,
  if◌then◌else◌, arith, Bool-cases, inl, inr, List, [], ◌∷◌, ◌++◌, get_or, length, take,
  length-take, Bytes, write,
}
use lunaria_os.Base.Int.{pos}
use lunaria_os.Calendar.{Tm}
use lunaria_os.Calendar.Names.{conversions, stands_for, inserted_lem}
use lunaria_os.Calendar.Puts.{
  put_all, put_all-append, put_all_end, take_nothing, take-append, take_one, take_full,
  put_all_same, put_all_byte, take_byte,
}
use lunaria_os.Calendar.Format.{inserted, terminated, insert_text, format_loop, strftime}

-- the text that a format stands for, with all of its insertions, where `ins` says what stands for a byte behind
-- a percent sign
abbrev pub expand : (ℕ → List ℕ) → List ℕ → List ℕ
expand ins [] = []
expand ins (c ∷ []) = c ∷ []
expand ins (c ∷ k ∷ cs) =
    let plain = expand ins (k ∷ cs) in
    let escaped = expand ins cs in if c == b'%' then ins k ++ escaped else c ∷ plain

-- no percent sign with nothing behind it
abbrev pub is_format : List ℕ → Bool
is_format [] = true
is_format (c ∷ []) = not (c == b'%')
is_format (c ∷ k ∷ cs) =
    let plain = is_format (k ∷ cs) in
    let escaped = is_format cs in if c == b'%' then escaped else plain

insert_text_lem :
    (max : ℕ) (xs : List ℕ) (r : Bytes × ℕ)
    → insert_text max xs r ≡ put_all (take (max - 1 - r.1) xs) r
unfolding insert_text
insert_text_lem max [] r = ap (λ (t : List ℕ). put_all t r) (sym (take_nothing (max - 1 - r.1)))
insert_text_lem max (c ∷ cs) r = elim (Bool-cases (ltb (r.1 + 1) max)) [
  | inl e ↦ rw e (
      insert_text_lem max cs (write r.0 r.1 c, r.1 + 1)
      ∙ ap (λ (t : List ℕ). put_all t r) (sym (take_one max r.1 c cs e)))
  | inr e ↦ rw e (ap (λ (t : List ℕ). put_all t r) (take_full max r.1 (c ∷ cs) e))
]

-- The rest of the format is put behind what was inserted.
insert_text-then :
    (max : ℕ) (xs ys : List ℕ) (r : Bytes × ℕ)
    → put_all (take (max - 1 - (insert_text max xs r).1) ys) (insert_text max xs r)
      ≡ put_all (take (max - 1 - r.1) (xs ++ ys)) r
insert_text-then max xs ys r =
    let k = max - 1 - r.1 in
    ap (λ (t : Bytes × ℕ). put_all (take (max - 1 - t.1) ys) t) (insert_text_lem max xs r)
    ∙ ap (λ (t : ℕ). put_all (take t ys) (put_all (take k xs) r))
        (omega (arith, put_all_end (take k xs) r))
    ∙ sym (put_all-append (take k xs) (take (k - length (take k xs)) ys) r)
    ∙ ap (λ (t : List ℕ). put_all t r) (sym (take-append k xs ys))

not-true : (b : Bool) → not b ≡ true → b ≡ false
not-true true e = sym e
not-true false e = refl

format_loop_lem :
    (tm : Tm) (ins : ℕ → List ℕ) (max : ℕ) (fmt : List ℕ) (r : Bytes × ℕ)
    → ((k : ℕ) → inserted tm k ≡ some (ins k))
    → is_format fmt ≡ true
    → format_loop tm max fmt r ≡ some (put_all (take (max - 1 - r.1) (expand ins fmt)) r)
unfolding format_loop
format_loop_lem tm ins max [] r all ok =
    ap (λ (t : List ℕ). some (put_all t r)) (sym (take_nothing (max - 1 - r.1)))
format_loop_lem tm ins max (c ∷ []) r all ok = elim (Bool-cases (ltb (r.1 + 1) max)) [
  | inl e ↦
      rw (e, not-true (c == b'%') ok)
        (ap (λ (t : List ℕ). some (put_all t r))
          (sym (
            take_one max r.1 c [] e
            ∙ ap (λ (t : List ℕ). c ∷ t) (take_nothing (max - 1 - (r.1 + 1))))))
  | inr e ↦ rw e (ap (λ (t : List ℕ). some (put_all t r)) (take_full max r.1 (c ∷ []) e))
]
format_loop_lem tm ins max (c ∷ k ∷ cs) r all ok = elim (Bool-cases (ltb (r.1 + 1) max)) [
  | inl e ↦ elim (Bool-cases (c == b'%')) [
    | inl p ↦
        rw (e, p, all k)
          (format_loop_lem tm ins max cs (insert_text max (ins k) r) all
              (subst (λ (b : Bool). (if b then is_format cs else is_format (k ∷ cs)) ≡ true) p ok)
            ∙ ap some (insert_text-then max (ins k) (expand ins cs) r))
    | inr p ↦
        rw (e, p)
          (format_loop_lem tm ins max (k ∷ cs) (write r.0 r.1 c, r.1 + 1) all
              (subst (λ (b : Bool). (if b then is_format cs else is_format (k ∷ cs)) ≡ true) p ok)
            ∙ ap (λ (t : List ℕ). some (put_all t r))
                (sym (take_one max r.1 c (expand ins (k ∷ cs)) e)))
  ]
  | inr e ↦
      rw e (ap (λ (t : List ℕ). some (put_all t r)) (take_full max r.1 (expand ins (c ∷ k ∷ cs)) e))
]

-- A buffer of `max` bytes holds as much of `xs` as it has room for, and a zero behind it; the memory behind
-- the buffer stays.
pub record IsCut (xs : List ℕ) (max : ℕ) (s : Bytes) (r : Bytes × ℕ) : Type 0 where
  pub size : r.1 ≡ min (max - 1) (length xs)
  pub bytes : (i : ℕ) → i < r.1 → r.0 i ≡ get_or xs i 0
  pub stop : r.0 r.1 ≡ 0
  pub same : (j : ℕ) → max ≤ j → r.0 j ≡ s j

terminated_lem : (max : ℕ) (r : Bytes × ℕ) → 1 ≤ max → terminated max r ≡ (write r.0 r.1 0, r.1)
terminated_lem max r le = rw (leb_of max le) refl
  where
    leb_of : (max : ℕ) → 1 ≤ max → leb 1 max ≡ true
    leb_of max le = ground (arith, le)

put_all-IsCut :
    (xs : List ℕ) (max : ℕ) (s : Bytes)
    → 1 ≤ max
    → IsCut xs max s (terminated max (put_all (take (max - 1) xs) (s, 0)))
put_all-IsCut xs max s le =
    let kept = take (max - 1) xs in
    let r = put_all kept (s, 0) in
    let end : r.1 ≡ length kept = omega (arith, put_all_end kept (s, 0)) in
    let count = length-take (max - 1) xs in
    subst (IsCut xs max s) (sym (terminated_lem max r le)) (record {
      size = end ∙ count;
      bytes = λ i lt.
          before r.0 r.1 i lt
          ∙ put_all_byte kept s 0 i (omega (arith, lt, end))
          ∙ take_byte (max - 1) xs i (omega (arith, lt, end));
      stop = at_end r.0 r.1;
      same = λ j out.
          behind r.0 r.1 j (omega (arith, out, end, count, le))
          ∙ put_all_same kept (s, 0) j (inr (omega (arith, out, count)));
    })
  where
    before : (m : Bytes) (n i : ℕ) → i < n → write m n 0 i ≡ m (0 + i)
    before m n i lt = ground (arith, lt)

    at_end : (m : Bytes) (n : ℕ) → write m n 0 n ≡ 0
    at_end m n = ground arith

    behind : (m : Bytes) (n j : ℕ) → n < j → write m n 0 j ≡ m j
    behind m n j lt = ground (arith, lt)

strftime_end :
    (s : Bytes) (max : ℕ) (fmt : List ℕ) (tm : Tm) (r : Bytes × ℕ)
    → format_loop tm max fmt (s, 0) ≡ some r
    → strftime s max fmt tm ≡ some (terminated max r)
unfolding strftime
strftime_end s max fmt tm r e = rw (e, strftime)

-- For a buffer of one byte or more, a time whose month and weekday are not negative, and a format in which something
-- follows each percent sign that begins a conversion: `strftime` ends with the text that the format stands for, each
-- conversion replaced by the name or the number that it stands for, cut to the max - 1 bytes that fit, and a zero behind
-- it; it answers the length of that and stores nothing behind the buffer.
pub strftime-IsCut :
    (s : Bytes) (max : ℕ) (fmt : List ℕ) (tm : Tm) (m w : ℕ)
    → 1 ≤ max
    → is_format fmt ≡ true
    → tm.mon ≡ pos m
    → tm.wday ≡ pos w
    → (r : Bytes × ℕ) × (strftime s max fmt tm ≡ some r)
      × IsCut (expand (stands_for (conversions tm m w)) fmt) max s r
strftime-IsCut s max fmt tm m w le ok em ew =
    let ins = stands_for (conversions tm m w) in
    (
      terminated max (put_all (take (max - 1) (expand ins fmt)) (s, 0)),
      strftime_end s max fmt tm _ (
          format_loop_lem tm ins max fmt (s, 0) (λ k. inserted_lem tm m w k em ew) ok
          ∙ ap (λ (t : ℕ). some (put_all (take t (expand ins fmt)) (s, 0))) (whole max)),
      put_all-IsCut (expand ins fmt) max s le,
    )
  where
    whole : (max : ℕ) → max - 1 - 0 ≡ max - 1
    whole max = omega arith
