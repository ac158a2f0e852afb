-- ===== src/Heap/Size.antt =====
-- How `malloc` and `morecore` round a size up.
use lunaria_os.Base.{ℕ, ◌+◌, ◌-◌, ◌*◌, ◌/◌, ◌%◌, ◌^◌, ◌≤◌, ◌≡◌, arith, ltb, if◌then◌else◌}
use lunaria_os.Base.Bits.{and_high, and_ones}
use lunaria_os.Heap.{align8, request}

pub align8_lem : (n : ℕ) → align8 n ≡ (n + 7) % 2 ^ 32 / 8 * 8
unfolding align8
align8_lem n =
    omega (arith, and_high 3 (2 ^ 29 - 1) ((n + 7) % 2 ^ 32), and_ones 29 ((n + 7) % 2 ^ 32 / 8))

pub request_lem :
    (need : ℕ)
    → need ≤ 2 ^ 32 - 4096
    → (need ≤ request need) × (4096 ≤ request need) × (request need ≤ 2 ^ 32 - 4096)
unfolding request
request_lem need h =
    let req = if ltb 4096 need then need else 4096 in
    ground (
      arith,
      and_high 12 (2 ^ 20 - 1) ((req + 4095) % 2 ^ 32),
      and_ones 20 ((req + 4095) % 2 ^ 32 / 4096),
    )

pub request_round :
    (need : ℕ)
    → request need ≡ ((if ltb 4096 need then need else 4096) + 4095) % 2 ^ 32 / 4096 * 4096
unfolding request
request_round need =
    let req = if ltb 4096 need then need else 4096 in
    omega (
      arith,
      and_high 12 (2 ^ 20 - 1) ((req + 4095) % 2 ^ 32),
      and_ones 20 ((req + 4095) % 2 ^ 32 / 4096),
    )
