-- ===== src/Pit/Tests.antt =====
-- Half a second at 100 Hz is fifty ticks.
use lunaria_os.Base.{◌≡◌, true, arith}
use lunaria_os.Pit.{Pit, sleep_target, is_sleeping, after_interrupts}
use lunaria_os.Pit.Time.{pit_sleep_lem}

abbrev at_100_hz : Pit
at_100_hz = record { ticks = 7; pit_hz = 100 }

pit_sleep_lem_example :
    is_sleeping (after_interrupts 49 at_100_hz) (sleep_target at_100_hz 500) ≡ true
pit_sleep_lem_example = pit_sleep_lem at_100_hz 500 49 (omega arith) (omega arith) (omega arith)
