-- ===== src/Rtc/Encode.antt =====
-- `rtc_read` of kernel/drivers/rtc/rtc.c on a clock that holds a time in any of the four formats of its
-- registers.
use os.Prelude.{
  ℕ, suc, ◌+◌, ◌-◌, ◌*◌, ◌/◌, ◌%◌, ◌≤◌, ◌<◌, ◌≡◌, ap, ◌∙◌, ◌∷◌, some, true, false, not,
  if◌then◌else◌, leb, ◌==◌, arith, inl, inr, Bool-cases,
}
use os.Ports.{output, Trace, Hardware, byte_at, has_bit, clear_bit}
use os.Rtc.{
  CmosTime, RtcTime, same, from_bcd, number, hour_of_day, convert, in_range, cmos_read,
  wait_update_from, wait_update_complete, snapshot, settle, rtc_read,
}

abbrev to_bcd : ℕ → ℕ
to_bcd n = n / 10 * 16 + n % 10

-- What a register holds for a number.
abbrev pub encode : ℕ → ℕ → ℕ
encode status n = if not (has_bit status 2) then to_bcd n else n

abbrev hour_12 : ℕ → ℕ
hour_12 h = if h % 12 == 0 then 12 else h % 12

-- What the register of the hours holds: with the 12-hour clock, bit 7 is set from noon on.
abbrev pub encode_hour : ℕ → ℕ → ℕ
encode_hour status h =
    if not (has_bit status 1)
    then encode status (hour_12 h) + (if leb 12 h then 128 else 0)
    else encode status h

abbrev pub encode_time : ℕ → RtcTime → CmosTime
encode_time status t = record {
  second = encode status t.second;
  minute = encode status t.minute;
  hour = encode_hour status t.hour;
  day = encode status t.day;
  month = encode status t.month;
  year = encode status (t.year % 100);
  century = encode status (t.year / 100);
}

number-encode : (status n : ℕ) → n < 100 → number status (encode status n) ≡ n
unfolding from_bcd
number-encode status n h = elim (Bool-cases (has_bit status 2)) [
  | inl e ↦ rw e
  | inr e ↦ rw e (omega arith)
]

encode_small : (status n : ℕ) → n < 25 → encode status n < 64
encode_small status n h = ground arith

hour_of_day-encode :
    (status h : ℕ)
    → h < 24
    → hour_of_day status
        (has_bit (encode_hour status h) 7)
        (number status (clear_bit (encode_hour status h) 7))
      ≡ h
hour_of_day-encode status h lt = elim (Bool-cases (has_bit status 1)) [
  | inl e ↦
      let small = encode_small status h (omega arith) in
      let top : has_bit (encode status h) 7 ≡ false = ground arith in
      let back = number-encode status h (omega arith) in rw (e, top, back)
  | inr e ↦
      let twelve : hour_12 h ≤ 12 = ground arith in
      let small = encode_small status (hour_12 h) (omega (arith, twelve)) in
      let back = number-encode status (hour_12 h) (omega (arith, twelve)) in
      elim (Bool-cases (leb 12 h)) [
        | inl l ↦
            let top : has_bit (encode status (hour_12 h) + 128) 7 ≡ true = ground arith in
            let low : encode status (hour_12 h) + 128 - 128 ≡ encode status (hour_12 h) =
              omega arith in
            rw (e, l, top, low, back) (ground arith)
        | inr l ↦
            let top : has_bit (encode status (hour_12 h) + 0) 7 ≡ false = ground arith in
            let low : encode status (hour_12 h) + 0 ≡ encode status (hour_12 h) = omega arith in
            rw (e, l, top, low, back) (ground arith)
      ]
]

-- The fields of a time that `rtc_read` accepts.
in_range-parts :
    (t : RtcTime)
    → in_range t ≡ true
    → (2000 ≤ t.year)
      × (t.year ≤ 9999)
      × (t.month ≤ 12)
      × (t.day ≤ 31)
      × (t.hour ≤ 23)
      × (t.minute ≤ 59)
      × (t.second ≤ 59)
in_range-parts t e = ground (arith, e)

convert-encode :
    (status : ℕ) (t : RtcTime) → in_range t ≡ true → convert status (encode_time status t) ≡ t
unfolding convert
convert-encode status t e =
    let p = in_range-parts t e in
    let year = number-encode status (t.year % 100) (omega arith) in
    let century = number-encode status (t.year / 100) (omega (arith, p)) in
    let month = number-encode status t.month (omega (arith, p)) in
    let day = number-encode status t.day (omega (arith, p)) in
    let minute = number-encode status t.minute (omega (arith, p)) in
    let second = number-encode status t.second (omega (arith, p)) in
    let hour = hour_of_day-encode status t.hour (omega (arith, p)) in
    rw (month, day, minute, second, hour, year, century) (ground (arith, p))

-- The hardware gives the registers `regs`: the byte read directly behind the write of an index.
abbrev pub Answers : Hardware → (ℕ → ℕ) → Type 0
Answers hw regs =
    (t : Trace) (index : ℕ) → byte_at hw 0x71 (output 0x70 (0x80 + index) ∷ t) ≡ regs index

-- The registers of a clock with a status and a time.
abbrev pub registers : ℕ → CmosTime → ℕ → ℕ
registers status c index =
    if index == 0x00
    then c.second
    else if index == 0x02
    then c.minute
    else if index == 0x04
    then c.hour
    else if index == 0x07
    then c.day
    else if index == 0x08
    then c.month
    else if index == 0x09
    then c.year
    else if index == 0x32
    then c.century
    else if index == 0x0b
    then status
    else 0

module _ (hw : Hardware) (status : ℕ) (c : CmosTime)
    (answers : Answers hw (registers status c)) where
  cmos_read-value : (index : ℕ) (t : Trace) → (cmos_read hw index t).1 ≡ registers status c index
  unfolding cmos_read
  cmos_read-value index t = answers t index

  wait_update_from_ends : (n : ℕ) (t : Trace) → (wait_update_from hw (suc n) t).1 ≡ true
  unfolding wait_update_from
  wait_update_from_ends n t = rw (cmos_read-value 0x0a t)

  wait_update_ends : (t : Trace) → (wait_update_complete hw t).1 ≡ true
  unfolding wait_update_complete
  wait_update_ends t = wait_update_from_ends 99999 t

  snapshot-value : (t : Trace) → (snapshot hw t).1 ≡ c
  unfolding snapshot
  snapshot-value t =
      let t0 = (cmos_read hw 0x00 t).0 in
      let t1 = (cmos_read hw 0x02 t0).0 in
      let t2 = (cmos_read hw 0x04 t1).0 in
      let t3 = (cmos_read hw 0x07 t2).0 in
      let t4 = (cmos_read hw 0x08 t3).0 in
      let t5 = (cmos_read hw 0x09 t4).0 in
      rw (
        cmos_read-value 0x00 t,
        cmos_read-value 0x02 t0,
        cmos_read-value 0x04 t1,
        cmos_read-value 0x07 t2,
        cmos_read-value 0x08 t3,
        cmos_read-value 0x09 t4,
        cmos_read-value 0x32 t5,
      )

  same_self : same c c ≡ true
  same_self = ground arith

  settle-value : (n : ℕ) (t : Trace) → (settle hw (suc n) c t).1 ≡ some c
  unfolding settle
  settle-value n t =
      let b = snapshot-value (wait_update_complete hw t).0 in rw (wait_update_ends t, b, same_self)

  rtc_read-value :
      (t : Trace) → (rtc_read hw t).1 ≡ some (convert status c, in_range (convert status c))
  unfolding rtc_read
  rtc_read-value t =
      let t0 = (wait_update_complete hw t).0 in
      let t1 = (snapshot hw t0).0 in
      rw (
        wait_update_ends t,
        snapshot-value t0,
        settle-value 7 t1,
        cmos_read-value 0x0b (settle hw 8 c t1).0,
      )

-- On a clock that holds a valid time between the years 2000 and 9999, in binary or decimal digits and
-- with a 12-hour or a 24-hour clock as its status says, `rtc_read` stores that time and returns 1.
pub rtc_read-encode :
    (hw : Hardware) (status : ℕ) (time : RtcTime) (t : Trace)
    → in_range time ≡ true
    → Answers hw (registers status (encode_time status time))
    → (rtc_read hw t).1 ≡ some (time, true)
rtc_read-encode hw status time t valid answers =
    let back = convert-encode status time valid in
    rtc_read-value hw status (encode_time status time) answers t
    ∙ ap (λ r. some (r, in_range r)) back
    ∙ ap (λ b. some (time, b)) valid
