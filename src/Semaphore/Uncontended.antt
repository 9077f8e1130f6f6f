-- ===== src/Semaphore/Uncontended.antt =====
-- `sem_post` and `sem_wait` where nobody holds the mutex of the semaphore.
use so_tpe.Common.{
  ℕ, suc, ◌+◌, ◌-◌, ◌<◌, ◌≡◌, refl, ap, sym, ◌∙◌, true, false, some, [], ◌∷◌, arith, leb, ltb, ◌==◌,
  u32,
}
use so_tpe.State.{is_ready, Entry, Queue, mm_free}
use so_tpe.Scheduler.Peers.{Peers}
use so_tpe.Scheduler.Table.{set_status}
use so_tpe.Semaphore.{
  Semaphore, World, put_semaphore, put_kernel, done, max_semaphores, semaphore_at, resume,
  acquire_mutex, release_mutex, up_locked, up_after, sem_post, down_loop, sem_wait,
}

-- The semaphore `s` is at `id`, and nobody holds its mutex or waits for it.
pub record IsIdle (id : ℕ) (s : Semaphore) (w : World) : Type 0 where
  pub in_range : id < max_semaphores
  pub here : w.semaphores id ≡ some s
  pub unlocked : s.mutex ≡ false
  pub nobody : s.mutex_queue ≡ []

semaphore_at-here :
    (id : ℕ) (s : Semaphore) (w : World) → IsIdle id s w → semaphore_at id w ≡ some s
semaphore_at-here id s w i =
    let inside : leb max_semaphores id ≡ false = ground (arith, i.in_range) in rw (inside, i.here)

abbrev locked : ℕ → Semaphore → World → World
locked id s w = put_semaphore id (some (record s { mutex = true })) w

module _ (peers : Peers) (others : World → World) where
  acquire_mutex-free :
      (fuel id : ℕ) (s : Semaphore) (w : World)
      → IsIdle id s w
      → acquire_mutex peers others (suc fuel) id s.block w ≡ (done, locked id s w)
  unfolding acquire_mutex
  acquire_mutex-free fuel id s w i =
      let same : (s.block == s.block) ≡ true = ground arith in
      rw (i.here, acquire_mutex) (rw same (rw i.unlocked))

  release_mutex-nobody :
      (id : ℕ) (s : Semaphore) (w : World)
      → s.mutex_queue ≡ []
      → release_mutex peers others id s w ≡ put_semaphore id (some (record s { mutex = false })) w
  unfolding release_mutex resume
  release_mutex-nobody id s w e = rw (e, release_mutex)

  up_locked-wakes :
      (id : ℕ) (s : Semaphore) (e : Entry) (q : Queue) (w : World)
      → s.value < 4294967295
      → s.semaphore_queue ≡ e ∷ q
      → 0 < e.pid
      → up_locked peers others id s w ≡ (
        done,
        release_mutex peers others id
            (record s { value = s.value + 1; semaphore_queue = q })
            (put_kernel (set_status peers e.pid is_ready (mm_free e.node w.kernel)).1 w),
      )
  unfolding up_locked resume
  up_locked-wakes id s e q w v waiting positive =
      let size : u32 (s.value + 1) ≡ s.value + 1 = omega arith in
      let counted : (s.value + 1 == 0) ≡ false = ground arith in
      let wake : ltb 0 e.pid ≡ true = ground arith in
      rw (size, up_locked) (rw (counted, waiting) (rw wake))

  -- what `sem_post` does once it has the mutex
  sem_post-locked :
      (fuel id : ℕ) (s : Semaphore) (w : World)
      → IsIdle id s w
      → sem_post peers others (suc fuel) id w
        ≡ up_locked peers others id (record s { mutex = true }) (locked id s w)
  unfolding sem_post up_after
  sem_post-locked fuel id s w i =
      let stored : (locked id s w).semaphores id ≡ some (record s { mutex = true }) =
        ground arith in
      rw (semaphore_at-here id s w i, sem_post)
        (rw (acquire_mutex-free fuel id s w i) (rw (stored, up_after)))

  -- `sem_post` on a semaphore that nobody has locked, with a process that waits at it and a value
  -- that is not the last of a 32-bit word: it returns 0, adds one to the value, frees the node of the
  -- process that has waited longest and makes it ready, leaves the others in order, and releases the
  -- mutex.
  pub sem_post-wakes :
      (fuel id : ℕ) (s : Semaphore) (e : Entry) (q : Queue) (w : World)
      → IsIdle id s w
      → s.value < 4294967295
      → s.semaphore_queue ≡ e ∷ q
      → 0 < e.pid
      → let r = sem_post peers others (suc fuel) id w in
        (r.0 ≡ done)
        × (r.1.semaphores id
            ≡ some (record s { value = s.value + 1; semaphore_queue = q; mutex = false }))
        × (r.1.kernel ≡ (set_status peers e.pid is_ready (mm_free e.node w.kernel)).1)
  sem_post-wakes fuel id s e q w i v waiting positive =
      let runs =
        sem_post-locked fuel id s w i
        ∙ up_locked-wakes id (record s { mutex = true }) e q (locked id s w) v waiting positive
        ∙ ap (λ w'. (done, w')) (release_mutex-nobody id _ _ i.nobody) in
      rw runs (refl, ground arith, refl)

  up_locked-counts :
      (id : ℕ) (s : Semaphore) (w : World)
      → s.value < 4294967295
      → s.semaphore_queue ≡ []
      → up_locked peers others id s w
        ≡ (done, release_mutex peers others id (record s { value = s.value + 1 }) w)
  unfolding up_locked resume
  up_locked-counts id s w v nobody =
      let size : u32 (s.value + 1) ≡ s.value + 1 = omega arith in
      let counted : (s.value + 1 == 0) ≡ false = ground arith in
      rw (size, up_locked) (rw (counted, nobody))

  down_loop-takes :
      (fuel id : ℕ) (s : Semaphore) (w : World)
      → w.semaphores id ≡ some s
      → 0 < s.value
      → down_loop peers others (suc fuel) id s.block (done, w)
        ≡ (done, release_mutex peers others id (record s { value = s.value - 1 }) w)
  unfolding down_loop
  down_loop-takes fuel id s w here positive =
      let some_left : (s.value == 0) ≡ false = ground arith in rw (here, down_loop) (rw some_left)

  pub sem_wait-runs :
      (fuel id : ℕ) (s : Semaphore) (w : World)
      → IsIdle id s w
      → 0 < s.value
      → sem_wait peers others (suc fuel) id w ≡ (
        done,
        put_semaphore id (some (record s { value = s.value - 1; mutex = false })) (locked id s w),
      )
  unfolding sem_wait
  sem_wait-runs fuel id s w i positive =
      let stored : (locked id s w).semaphores id ≡ some (record s { mutex = true }) =
        ground arith in
      rw (semaphore_at-here id s w i, sem_wait)
        (rw (acquire_mutex-free fuel id s w i) (
          down_loop-takes fuel id (record s { mutex = true }) (locked id s w) stored positive
          ∙ ap (λ w'. (done, w')) (release_mutex-nobody id _ _ i.nobody)))

  -- `sem_post` and then `sem_wait`, on a semaphore that nobody has locked and nobody waits at, whose
  -- value is not the last of a 32-bit word: both return 0, and the semaphore and the kernel are as
  -- they were before.
  pub sem_wait-sem_post :
      (fuel id : ℕ) (s : Semaphore) (w : World)
      → IsIdle id s w
      → s.value < 4294967295
      → s.semaphore_queue ≡ []
      → let posted = sem_post peers others (suc fuel) id w in
        let waited = sem_wait peers others (suc fuel) id posted.1 in
        (posted.0 ≡ done)
        × (waited.0 ≡ done)
        × (waited.1.semaphores id ≡ some s)
        × (waited.1.kernel ≡ w.kernel)
  sem_wait-sem_post fuel id s w i v nobody =
      let s' : Semaphore = record s { value = s.value + 1; mutex = false } in
      let w' : World = put_semaphore id (some s') (locked id s w) in
      let post : sem_post peers others (suc fuel) id w ≡ (done, w') =
        sem_post-locked fuel id s w i
        ∙ up_locked-counts id (record s { mutex = true }) (locked id s w) v nobody
        ∙ ap (λ w'. (done, w')) (release_mutex-nobody id _ _ i.nobody) in
      let idle : IsIdle id s' w' = record {
        in_range = i.in_range;
        here = ground arith;
        unlocked = refl;
        nobody = i.nobody;
      } in
      rw post (
        rw (sem_wait-runs fuel id s' w' idle (omega arith))
          (refl, refl, (ground arith) ∙ restored, refl))
    where
      restored : some (record s { value = s.value + 1 - 1; mutex = false }) ≡ some s
      restored =
          let value : s.value + 1 - 1 ≡ s.value = omega arith in rw (value, sym i.unlocked) refl
