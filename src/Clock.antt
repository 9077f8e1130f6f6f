-- ===== src/Clock.antt =====
-- Kernel/drivers/rtc.c, Kernel/idt/time.c, and `sys_sleep` of Kernel/idt/syscalls.c.
pub mod Rtc
pub mod Sleep
use so_tpe.Common.{
  ℕ, zero, suc, ◌+◌, ◌-◌, ◌*◌, ◌/◌, ◌%◌, Bool, true, false, Option, none, some, leb, ltb,
  if◌then◌else◌, u32,
}

-- The CMOS's answer to `outb(CMOS_ADDRESS, reg); inb(CMOS_DATA)`, for the register `reg`.
abbrev pub Cmos : Type 0
Cmos = ℕ → ℕ

abbrev pub rtc_seconds : ℕ
rtc_seconds = 0

abbrev pub rtc_minutes : ℕ
rtc_minutes = 2

abbrev pub rtc_hours : ℕ
rtc_hours = 4

-- an uint8_t
abbrev pub bcd_to_binary : ℕ → ℕ
bcd_to_binary bcd = (bcd / 16 * 10 + bcd % 16) % 256

pub record Time : Type 0 where
  pub hours : ℕ
  pub minutes : ℕ
  pub seconds : ℕ

-- The three registers are read one after the other, from the CMOS as it is at each read.
abbrev pub rtc_get_time : Cmos → Cmos → Cmos → Time
rtc_get_time a b c = record {
  hours = bcd_to_binary (c rtc_hours);
  minutes = bcd_to_binary (b rtc_minutes);
  seconds = bcd_to_binary (a rtc_seconds);
}

unfoldable pub rtc_get_seconds : Cmos → Cmos → Cmos → ℕ
rtc_get_seconds a b c =
    let t = rtc_get_time a b c in u32 (t.seconds + t.minutes * 60 + t.hours * 3600)

-- the static counter of time.c, an unsigned long
abbrev pub timer_handler : ℕ → ℕ
timer_handler ticks = (ticks + 1) % 18446744073709551616

-- an int, by its bit pattern
abbrev pub ticks_elapsed : ℕ → ℕ
ticks_elapsed ticks = u32 ticks

abbrev pub seconds_elapsed : ℕ → ℕ
seconds_elapsed ticks = u32 (ticks / 18)

-- `while (rtc_get_seconds() < target)`, where `clock` is what the calls of `rtc_get_seconds` answer
-- in turn and the next call is number `n`: the number of the last call
unfoldable pub await : ℕ → (ℕ → ℕ) → ℕ → ℕ → Option ℕ
await zero clock target n = none
await (suc fuel) clock target n =
    let rest = await fuel clock target (n + 1) in if ltb (clock n) target then rest else some n

-- `while (rtc_get_seconds() >= start || rtc_get_seconds() < target)`
unfoldable pub await_midnight : ℕ → (ℕ → ℕ) → ℕ → ℕ → ℕ → Option ℕ
await_midnight zero clock start target n = none
await_midnight (suc fuel) clock start target n =
    let after_one = await_midnight fuel clock start target (n + 1) in
    let after_two = await_midnight fuel clock start target (n + 2) in
    if leb start (clock n)
    then after_one
    else if ltb (clock (n + 1)) target
    then after_two
    else some (n + 1)

-- the time that `sys_sleep` waits for, of a start and a number of seconds
abbrev pub target_of : ℕ → ℕ → ℕ
target_of start seconds =
    let target = u32 (start + u32 seconds) in if leb 86400 target then target - 86400 else target

-- `sys_sleep`: the number of the call of `rtc_get_seconds` behind which it returns, or fuel that ran out
unfoldable pub sys_sleep : ℕ → (ℕ → ℕ) → ℕ → Option ℕ
sys_sleep fuel clock seconds =
    let start = clock 0 in
    let target = target_of start seconds in
    if ltb start target then await fuel clock target 1 else await_midnight fuel clock start target 1
