-- ===== src/Pit/Time.antt =====
-- How long `pit_sleep` waits, and the divisor.
use lunaria_os.Base.{ℕ, zero, suc, ◌+◌, ◌*◌, ◌/◌, ◌%◌, ◌^◌, ◌<◌, ◌≡◌, ◌∙◌, ap, ltb, arith}
use lunaria_os.Pit.{Pit, pit_handler, sleep_target, is_sleeping, after_interrupts}

ticks_after : (n : ℕ) (p : Pit) → p.ticks + n < 2 ^ 32 → (after_interrupts n p).ticks ≡ p.ticks + n
unfolding after_interrupts pit_handler
ticks_after zero p h = omega arith
ticks_after (suc n) p h = ticks_after n (pit_handler p) (omega (arith, h)) ∙ omega (arith, h)

-- The two products of the code add up to one.
split_product : (hz ms : ℕ) → hz * ms / 1000 ≡ hz / 1000 * ms + hz % 1000 * ms / 1000
split_product hz ms = omega (arith, ap (λ (t : ℕ). t * ms) (parts hz))
  where
    parts : (hz : ℕ) → hz ≡ hz / 1000 * 1000 + hz % 1000
    parts hz = omega arith

sleep_target_lem :
    (p : Pit) (ms : ℕ)
    → p.pit_hz % 1000 * ms < 2 ^ 32
    → p.ticks + p.pit_hz * ms / 1000 < 2 ^ 32
    → sleep_target p ms ≡ p.ticks + p.pit_hz * ms / 1000
unfolding sleep_target
sleep_target_lem p ms h h' =
    omega (arith, split_product p.pit_hz ms, h, h', ap (λ (t : ℕ). t * ms) (parts p.pit_hz))
  where
    parts : (hz : ℕ) → hz ≡ hz / 1000 * 1000 + hz % 1000
    parts hz = omega arith

-- Unless the product of `hz % 1000` with `ms` or the tick counter wraps, `pit_sleep` goes on halting after `n` interrupts
-- exactly if `n` is below the `hz * ms / 1000` ticks of the time asked for.
pub pit_sleep_lem :
    (p : Pit) (ms n : ℕ)
    → p.pit_hz % 1000 * ms < 2 ^ 32
    → p.ticks + p.pit_hz * ms / 1000 < 2 ^ 32
    → p.ticks + n < 2 ^ 32
    → is_sleeping (after_interrupts n p) (sleep_target p ms) ≡ ltb n (p.pit_hz * ms / 1000)
unfolding is_sleeping
pit_sleep_lem p ms n h h' hn = ground (arith, ticks_after n p hn, sleep_target_lem p ms h h')
