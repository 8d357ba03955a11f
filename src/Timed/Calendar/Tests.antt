-- ===== src/Timed/Calendar/Tests.antt =====
-- A leap day in the calendar of kernel/core/timed.c.
use os.Prelude.{◌≡◌, refl, arith}
use os.Timed.{to_epoch, from_epoch}
use os.Timed.Calendar.{to_epoch-from_epoch}

to_epoch-from_epoch_example : to_epoch (from_epoch 1709210096) ≡ 1709210096
to_epoch-from_epoch_example = to_epoch-from_epoch 1709210096 (omega arith)

leap_day :
    from_epoch 1709210096
    ≡ record { year = 2024; month = 2; day = 29; hour = 12; minute = 34; second = 56 }
unfolding from_epoch os.Timed.year_loop os.Timed.month_loop os.Timed.year_days os.Timed.month_days
leap_day = refl
