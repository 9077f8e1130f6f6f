-- ===== src/Clock/Rtc.antt =====
-- The time of day that `rtc_get_seconds` answers.
use so_tpe.Common.{ℕ, ◌+◌, ◌*◌, ◌/◌, ◌%◌, ◌<◌, ◌≡◌, ap, ◌∙◌, arith}
use so_tpe.Clock.{Cmos, bcd_to_binary, rtc_seconds, rtc_minutes, rtc_hours, rtc_get_seconds}

-- a number below 100, as the clock's registers hold it: the tens in the upper half of the byte
abbrev pub bcd : ℕ → ℕ
bcd n = n / 10 * 16 + n % 10

bcd_to_binary-bcd : (n : ℕ) → n < 100 → bcd_to_binary (bcd n) ≡ n
bcd_to_binary-bcd n small = omega arith

-- While the clock's registers hold, in binary-coded decimal, an hour below 24, a minute below 60 and a
-- second below 60, `rtc_get_seconds` answers the seconds since midnight, less than 86400.
pub rtc_get_seconds-day :
    (hours minutes seconds : ℕ) (a b c : Cmos)
    → hours < 24
    → minutes < 60
    → seconds < 60
    → a rtc_seconds ≡ bcd seconds
    → b rtc_minutes ≡ bcd minutes
    → c rtc_hours ≡ bcd hours
    → (rtc_get_seconds a b c ≡ hours * 3600 + minutes * 60 + seconds)
      × (rtc_get_seconds a b c < 86400)
unfolding rtc_get_seconds
rtc_get_seconds-day hours minutes seconds a b c h m s ea eb ec =
    let x : bcd_to_binary (a rtc_seconds) ≡ seconds =
      ap bcd_to_binary ea ∙ bcd_to_binary-bcd seconds (omega arith) in
    let y : bcd_to_binary (b rtc_minutes) ≡ minutes =
      ap bcd_to_binary eb ∙ bcd_to_binary-bcd minutes (omega arith) in
    let z : bcd_to_binary (c rtc_hours) ≡ hours =
      ap bcd_to_binary ec ∙ bcd_to_binary-bcd hours (omega arith) in
    rw x (rw y (rw z (omega arith, omega arith)))
