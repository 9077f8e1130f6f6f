-- ===== src/Semaphore/Mutex.antt =====
-- The mutex of a semaphore is taken only where it is free.
use so_tpe.Common.{
  ℕ, zero, suc, ◌≡◌, refl, true, false, some, arith, ◌==◌, Bool-cases, Option-cases, inl, inr,
}
use so_tpe.State.{mm_alloc}
use so_tpe.Scheduler.Peers.{Peers}
use so_tpe.Semaphore.{
  Semaphore, World, Outcome, done, refused, stale, out_of_fuel, put_semaphore, wait_mutex,
  acquire_mutex,
}

-- The caller has the mutex, and took it in a state `w'` in which nobody had it.
pub record Took (id block : ℕ) (w : World) : Type 0 where
  pub before : World
  pub semaphore : Semaphore
  pub present : before.semaphores id ≡ some semaphore
  pub same : semaphore.block ≡ block
  pub free : semaphore.mutex ≡ false
  pub locked : w ≡ put_semaphore id (some (record semaphore { mutex = true })) before

abbrev pub Acquired : ℕ → ℕ → Outcome × World → Type 0
Acquired id block (done, w) = Took id block w
Acquired id block (refused, w) = ⊥
Acquired id block (stale, w) = Unit
Acquired id block (out_of_fuel, w) = Unit

module _ (peers : Peers) (others : World → World) where
  -- Whatever other processes do while it sleeps, `acquire_mutex` returns only with the mutex taken
  -- from a state in which it was free, of the same semaphore; else it still waits when the fuel ends,
  -- or the semaphore is gone and the code reads a freed block.
  pub acquire_mutex-Acquired :
      (fuel id block : ℕ) (w : World)
      → Acquired id block (acquire_mutex peers others fuel id block w)
  unfolding acquire_mutex
  acquire_mutex-Acquired zero id block w = tt
  acquire_mutex-Acquired (suc fuel) id block w = elim (Option-cases (w.semaphores id)) [
    | inl e ↦ rw (e, acquire_mutex) tt
    | inr (s, e) ↦
        rw (e, acquire_mutex)
          (elim (Bool-cases (s.block == block)) [
            | inr h ↦ rw h tt
            | inl h ↦ rw h (elim (Bool-cases s.mutex) [
              | inl m ↦ rw m (
                  acquire_mutex-Acquired fuel id block
                    (wait_mutex peers others id s (mm_alloc w.kernel) w))
              | inr m ↦ rw m (record {
                before = w;
                semaphore = s;
                present = e;
                same = ground arith;
                free = m;
                locked = refl;
              })
            ])
          ])
  ]
