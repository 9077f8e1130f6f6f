-- ===== src/Clock/Sleep.antt =====
-- The return of `sys_sleep`.
use so_tpe.Common.{
  ℕ, zero, suc, ◌+◌, ◌≤◌, ◌<◌, ◌≡◌, ◌≢◌, refl, ap, true, false, Option, none, some, arith, leb, ltb,
  ◌==◌, Bool-cases, inl, inr, ◌⊎◌,
}
use so_tpe.Clock.{await, await_midnight, target_of, sys_sleep}

-- The first call from `n` on whose answer reaches the target ends the loop.
pub record Reached (clock : ℕ → ℕ) (target n : ℕ) (answer : Option ℕ) : Type 0 where
  pub call : ℕ
  pub returned : answer ≡ some call
  pub later : n ≤ call
  pub reached : target ≤ clock call
  pub before : (j : ℕ) → n ≤ j → j < call → clock j < target

await-Reached :
    (fuel : ℕ) (clock : ℕ → ℕ) (target n m : ℕ)
    → n ≤ m
    → m < n + fuel
    → target ≤ clock m
    → Reached clock target n (await fuel clock target n)
unfolding await
await-Reached zero clock target n m le lt there = absurd (omega arith)
await-Reached (suc fuel) clock target n m le lt there = elim (Bool-cases (ltb (clock n) target)) [
  | inl z ↦
      let other : n ≢ m = λ e. ground (arith, ap clock e) in
      let r : Reached clock target (n + 1) (await fuel clock target (n + 1)) =
        await-Reached fuel clock target (n + 1) m (ground arith) (omega arith) there in
      rw z (record {
        call = r.call;
        returned = r.returned;
        later = omega (arith, r.later);
        reached = r.reached;
        before = λ j a b. first j a (ground arith) (λ b'. r.before j b' b);
      })
  | inr z ↦ rw z (record {
    call = n;
    returned = refl;
    later = omega arith;
    reached = ground arith;
    before = λ j a b. absurd (omega arith);
  })
]
  where
    first : (j : ℕ) → n ≤ j → clock n < target → (n + 1 ≤ j → clock j < target) → clock j < target
    first j a here next = elim (Bool-cases (n == j)) [
      | inl e ↦ let same : n ≡ j = ground arith in ground (arith, ap clock same)
      | inr e ↦ next (ground arith)
    ]

-- `sys_sleep` of at least one second that ends on the day it starts on returns, with as much fuel as
-- there are calls of `rtc_get_seconds` up to some call that answers the start and the seconds or more,
-- and what it returns behind is the first such call.
pub sys_sleep-returns :
    (clock : ℕ → ℕ) (seconds m : ℕ)
    → 0 < seconds
    → clock 0 + seconds < 86400
    → 0 < m
    → clock 0 + seconds ≤ clock m
    → Reached clock (clock 0 + seconds) 1 (sys_sleep m clock seconds)
unfolding sys_sleep
sys_sleep-returns clock seconds m some_time today real there =
    let target : target_of (clock 0) seconds ≡ clock 0 + seconds = ground arith in
    let later : ltb (clock 0) (clock 0 + seconds) ≡ true = ground arith in
    rw target
      (rw later (await-Reached m clock (clock 0 + seconds) 1 m (omega arith) (omega arith) there))

midnight-endless :
    (fuel : ℕ) (clock : ℕ → ℕ) (start target n : ℕ)
    → ((j : ℕ) → start ≤ clock j)
    → await_midnight fuel clock start target n ≡ none
unfolding await_midnight
midnight-endless zero clock start target n same = refl
midnight-endless (suc fuel) clock start target n same =
    let z : leb start (clock n) ≡ true = ground (arith, same n) in
    rw z (midnight-endless fuel clock start target (n + 1) same)

await-endless :
    (fuel : ℕ) (clock : ℕ → ℕ) (target n : ℕ)
    → ((j : ℕ) → clock j < target)
    → await fuel clock target n ≡ none
unfolding await
await-endless zero clock target n below = refl
await-endless (suc fuel) clock target n below =
    let z : ltb (clock n) target ≡ true = ground (arith, below n) in
    rw z (await-endless fuel clock target (n + 1) below)

starts-late : (start : ℕ) → start < 86400 → ltb start (target_of start 0) ≡ false
starts-late start a = ground arith

aims-high :
    (start seconds : ℕ)
    → start < 86400
    → 172800 ≤ start + seconds
    → start + seconds < 4294967296
    → ltb start (target_of start seconds) ≡ true
aims-high start seconds a b c = ground arith

never-reached :
    (start seconds t : ℕ)
    → t < 86400
    → start < 86400
    → 172800 ≤ start + seconds
    → start + seconds < 4294967296
    → t < target_of start seconds
never-reached start seconds t x a b c = ground arith

-- Where all answers of the clock are below 86400, `sys_sleep` of zero seconds does not return on any
-- fuel while the clock answers the start or more, that is until midnight; nor does a sleep whose start
-- and seconds make 172800 or more, in 32 bits, ever return.
pub sys_sleep-endless :
    (fuel : ℕ) (clock : ℕ → ℕ) (seconds : ℕ)
    → ((j : ℕ) → clock j < 86400)
    → ((seconds ≡ 0) × ((j : ℕ) → clock 0 ≤ clock j))
      ⊎ ((172800 ≤ clock 0 + seconds) × (clock 0 + seconds < 4294967296))
    → sys_sleep fuel clock seconds ≡ none
unfolding sys_sleep
sys_sleep-endless fuel clock seconds day (inl (z, same)) = rw z (
    rw (starts-late (clock 0) (day 0))
      (midnight-endless fuel clock (clock 0) (target_of (clock 0) 0) 1 same))
sys_sleep-endless fuel clock seconds day (inr (long, short)) =
    rw (aims-high (clock 0) seconds (day 0) long short) (
      await-endless fuel clock (target_of (clock 0) seconds) 1
        (λ j. never-reached (clock 0) seconds (clock j) (day j) (day 0) long short))
