-- ===== src/Rtc.antt =====
-- The real-time clock, kernel/drivers/rtc/rtc.c. A function takes the accesses to the ports so far and
-- gives its result with the accesses after it.
pub mod Encode
pub mod Stable
mod Tests
use os.Prelude.{
  ℕ, zero, suc, ◌+◌, ◌*◌, ◌/◌, ◌%◌, ◌^◌, List, [], ◌∷◌, Option, none, some, Bool, true, false, not,
  ◌&&◌, ◌||◌, if◌then◌else◌, ltb, leb, ◌==◌,
}
use os.Ports.{Access, input, output, Trace, Hardware, byte_at, has_bit, clear_bit}

-- `cmos_time_t`
pub record CmosTime : Type 0 where
  pub second : ℕ
  pub minute : ℕ
  pub hour : ℕ
  pub day : ℕ
  pub month : ℕ
  pub year : ℕ
  pub century : ℕ

-- `rtc_time_t`
pub record RtcTime : Type 0 where
  pub year : ℕ
  pub month : ℕ
  pub day : ℕ
  pub hour : ℕ
  pub minute : ℕ
  pub second : ℕ

abbrev pub same : CmosTime → CmosTime → Bool
same a b =
    (a.second == b.second)
    && (a.minute == b.minute)
    && (a.hour == b.hour)
    && (a.day == b.day)
    && (a.month == b.month)
    && (a.year == b.year)
    && (a.century == b.century)

-- `(uint8_t)((value & 0x0f) + 10u * (value >> 4))`
unfoldable pub from_bcd : ℕ → ℕ
from_bcd value = (value % 16 + 10 * (value / 16)) % 2 ^ 8

-- A register's number: decimal digits, unless bit 2 of the status says that it is binary.
abbrev pub number : ℕ → ℕ → ℕ
number status value = if not (has_bit status 2) then from_bcd value else value

abbrev pub decimal : ℕ → CmosTime → CmosTime
decimal status b = record {
  second = number status b.second;
  minute = number status b.minute;
  hour = number status b.hour;
  day = number status b.day;
  month = number status b.month;
  year = number status b.year;
  century = number status b.century;
}

-- The hour of the day, unless bit 1 of the status says that the register has it.
abbrev pub hour_of_day : ℕ → Bool → ℕ → ℕ
hour_of_day status pm hour =
    let later = if pm && ltb hour 12 then (hour + 12) % 2 ^ 8 else hour in
    let midnight = if not pm && (later == 12) then 0 else later in
    if not (has_bit status 1) then midnight else hour

abbrev pub full_century : ℕ → ℕ
full_century century = if ltb century 19 || ltb 99 century then 20 else century

-- The part of `rtc_read` behind the reads: what it stores.
unfoldable pub convert : ℕ → CmosTime → RtcTime
convert status b =
    let pm = has_bit b.hour 7 in
    let c = decimal status (record b { hour = clear_bit b.hour 7 }) in
    record {
      year = (full_century c.century * 100 + c.year) % 2 ^ 16;
      month = c.month;
      day = c.day;
      hour = hour_of_day status pm c.hour;
      minute = c.minute;
      second = c.second;
    }

-- The value that `rtc_read` returns.
abbrev pub in_range : RtcTime → Bool
in_range t =
    leb 2000 t.year
    && leb t.year 9999
    && leb 1 t.month
    && leb t.month 12
    && leb 1 t.day
    && leb t.day 31
    && leb t.hour 23
    && leb t.minute 59
    && leb t.second 59

-- The last part of `rtc_read`, with what the loop gives and the status: what it stores and returns, or
-- `none` where it returns 0 and stores nothing.
abbrev pub finish : Trace × Option CmosTime → Trace × ℕ → Trace × Option (RtcTime × Bool)
finish (t, none) read = (t, none)
finish (t, some b) (t', status) = (t', some (convert status b, in_range (convert status b)))

module _ (hw : Hardware) where
  -- The value, and the accesses after the read.
  unfoldable cmos_read : ℕ → Trace → Trace × ℕ
  cmos_read index t =
      let asked = output 0x70 (0x80 + index) ∷ t in
      let value = byte_at hw 0x71 asked in (output 0x70 0 ∷ input 0x71 value ∷ asked, value)

  -- The rounds that are left.
  unfoldable wait_update_from : ℕ → Trace → Trace × Bool
  wait_update_from zero t = (t, false)
  wait_update_from (suc n) t =
      let (t', status) = cmos_read 0x0a t in
      let rest = wait_update_from n t' in if not (has_bit status 7) then (t', true) else rest

  unfoldable wait_update_complete : Trace → Trace × Bool
  wait_update_complete t = wait_update_from 100000 t

  unfoldable snapshot : Trace → Trace × CmosTime
  snapshot t =
      let (t0, second) = cmos_read 0x00 t in
      let (t1, minute) = cmos_read 0x02 t0 in
      let (t2, hour) = cmos_read 0x04 t1 in
      let (t3, day) = cmos_read 0x07 t2 in
      let (t4, month) = cmos_read 0x08 t3 in
      let (t5, year) = cmos_read 0x09 t4 in
      let (t6, century) = cmos_read 0x32 t5 in
      (
        t6,
        record {
          second = second;
          minute = minute;
          hour = hour;
          day = day;
          month = month;
          year = year;
          century = century;
        },
      )

  -- The loop, with the tries that are left, at least one of which is to come.
  unfoldable settle : ℕ → CmosTime → Trace → Trace × Option CmosTime
  settle zero a t = (t, none)
  settle (suc n) a t =
      let (t', complete) = wait_update_complete t in
      let (t'', b) = snapshot t' in
      let rest = settle n b t'' in
      if not complete then (t', none) else if same a b then (t'', some b) else rest

  -- The pointer `t` of the code is not null.
  unfoldable rtc_read : Trace → Trace × Option (RtcTime × Bool)
  rtc_read t =
      let (t0, complete) = wait_update_complete t in
      let (t1, a) = snapshot t0 in
      let settled = settle 8 a t1 in
      let done = finish settled (cmos_read 0x0b settled.0) in
      if not complete then (t0, none) else done
