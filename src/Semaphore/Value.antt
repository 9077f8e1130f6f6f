-- ===== src/Semaphore/Value.antt =====
-- A semaphore's value goes down only where it is positive and the mutex is held.
use so_tpe.Common.{ℕ, ◌-◌, ◌<◌, ◌≡◌, true, some}
use so_tpe.State.{mm_alloc}
use so_tpe.Scheduler.Peers.{Peers}
use so_tpe.Semaphore.{
  Semaphore, World, Outcome, done, refused, stale, out_of_fuel, semaphore_at, acquire_mutex,
  release_mutex, wait_value,
}

-- From a state where the mutex is asked for, with what others do while the caller waits for it, to
-- the state where the caller has it and does not find the value 0; each time that it does, it sleeps
-- and asks for the mutex again.
pub data Waits (peers : Peers) (others : World → World) (id block : ℕ)
    : World → World → Type 0 where
  locks :
      (fuel : ℕ) (w b : World)
      → acquire_mutex peers others fuel id block w ≡ (done, b)
      → Waits peers others id block w b
  sleeps :
      (fuel : ℕ) (w w' woken b : World) (s : Semaphore)
      → acquire_mutex peers others fuel id block w ≡ (done, w')
      → w'.semaphores id ≡ some s
      → s.value ≡ 0
      → (wait_value peers others id s (mm_alloc w'.kernel) w').0 ≡ some woken
      → Waits peers others id block woken b
      → Waits peers others id block w b

-- What a `sem_wait` from `start` that returned 0 did last, to a semaphore `s` of a state `before` that
-- it came to.
pub record Decremented (peers : Peers) (others : World → World) (id block : ℕ) (start w : World)
    : Type 0 where
  pub before : World
  pub reached : Waits peers others id block start before
  pub semaphore : Semaphore
  pub present : before.semaphores id ≡ some semaphore
  pub held : semaphore.mutex ≡ true
  pub positive : 0 < semaphore.value
  pub released :
      w ≡ release_mutex peers others id (record semaphore { value = semaphore.value - 1 }) before

module _ (peers : Peers) (others : World → World) where
  -- if the result is 0
  abbrev Ended : ℕ → ℕ → World → Outcome × World → Type 0
  Ended id block start (done, w) = Decremented peers others id block start w
  Ended id block start (refused, w) = Unit
  Ended id block start (stale, w) = Unit
  Ended id block start (out_of_fuel, w) = Unit

  abbrev pub Passed : ℕ → World → Outcome × World → Type 0
  Passed id start (done, w) =
      (s : Semaphore) × (semaphore_at id start ≡ some s)
      × Decremented peers others id s.block start w
  Passed id start (refused, w) = Unit
  Passed id start (stale, w) = Unit
  Passed id start (out_of_fuel, w) = Unit
