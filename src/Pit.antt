-- ===== src/Pit.antt =====
-- The timer of src/drivers/pit.c: the divisor that `pit_init` writes to channel 0, and the ticks that
-- the interrupt counts. `pit_sleep` halts until the ticks reach `sleep_target`.
pub mod Time
mod Tests
use lunaria_os.Base.{ℕ, zero, suc, ◌+◌, ◌-◌, ◌*◌, ◌/◌, ◌%◌, ◌^◌, bit_and, Bool, ltb}

pub record Pit : Type 0 where
  pub ticks : ℕ
  pub pit_hz : ℕ

-- the state, and the two bytes that go to the channel, low byte first
unfoldable pub pit_init : Pit → ℕ → Pit × ℕ × ℕ
pit_init p hz =
    let divisor = 1193182 / hz in
    (record p { pit_hz = hz }, bit_and divisor 0xff, bit_and (divisor / 2 ^ 8) 0xff)

unfoldable pub pit_handler : Pit → Pit
pit_handler p = record p { ticks = (p.ticks + 1) % 2 ^ 32 }

pub pit_ticks : Pit → ℕ
pit_ticks p = p.ticks

pub pit_uptime_sec : Pit → ℕ
pit_uptime_sec p = p.ticks / p.pit_hz

unfoldable pub sleep_target : Pit → ℕ → ℕ
sleep_target p ms =
    let add = p.pit_hz / 1000 * ms % 2 ^ 32 in
    let rem = p.pit_hz % 1000 * ms % 2 ^ 32 in (p.ticks + add + rem / 1000) % 2 ^ 32

-- the test of the loop in `pit_sleep`
unfoldable pub is_sleeping : Pit → ℕ → Bool
is_sleeping p target = ltb p.ticks target

-- the state after a number of interrupts
unfoldable pub after_interrupts : ℕ → Pit → Pit
after_interrupts zero p = p
after_interrupts (suc n) p = after_interrupts n (pit_handler p)
