-- ===== src/Rtc/Tests.antt =====
-- The clock of kernel/drivers/rtc/rtc.c at a quarter to midnight, in decimal digits and with a 12-hour
-- clock.
use os.Prelude.{◌+◌, ◌-◌, ◌≡◌, ◌<◌, arith, refl, [], ◌∷◌, some, true}
use os.Ports.{input, output, Hardware}
use os.Rtc.{RtcTime, rtc_read}
use os.Rtc.Encode.{Answers, encode_time, registers, rtc_read-encode}

abbrev late : RtcTime
late = record { year = 2026; month = 7; day = 31; hour = 23; minute = 45; second = 9 }

-- A clock gives the register whose index was written last.
abbrev clock : Hardware
clock [] port = 0
clock (input p v ∷ t) port = 0
clock (output p v ∷ t) port = registers 0 (encode_time 0 late) (v - 0x80)

clock-Answers : Answers clock (registers 0 (encode_time 0 late))
clock-Answers t index =
    let same : 0x80 + index - 0x80 ≡ index = omega arith in
    let small : registers 0 (encode_time 0 late) index < 256 = ground arith in
    rw same (omega (arith, small))

rtc_read-encode_example : (rtc_read clock []).1 ≡ some (late, true)
rtc_read-encode_example = rtc_read-encode clock 0 late [] refl clock-Answers
