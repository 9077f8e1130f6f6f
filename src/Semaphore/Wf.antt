-- ===== src/Semaphore/Wf.antt =====
-- The process table and the queues of the scheduler through the calls on semaphores.
use so_tpe.Common.{
  ℕ, zero, suc, ◌+◌, refl, arith, Option, none, some, [], ◌∷◌, ◌==◌, u32, Bool-cases, Option-cases,
  inl, inr,
}
use so_tpe.State.{is_ready, is_blocked, Queue, Kernel, mm_alloc, mm_alloc_cases, mm_free}
use so_tpe.Scheduler.Peers.{Peers}
use so_tpe.Scheduler.Wf.{IsWf}
use so_tpe.Scheduler.Wf.Moves.{PeerLaws, frame}
use so_tpe.Scheduler.Wf.Operations.{set_status-IsWf}
use so_tpe.Scheduler.Wf.Switches.{give_up_quantum-IsWf}
use so_tpe.Semaphore.{
  World, Semaphore, Outcome, done, refused, stale, out_of_fuel, is_free, with_lists, with_structure,
  create_semaphore, sem_init, semaphore_at, free_nodes, free_semaphore, sem_destroy,
  process_is_alive, sleep, resume, wait_mutex, acquire_mutex, release_mutex, up_locked, up_after,
  sem_post, wait_value, down_loop, sem_wait,
}

abbrev pub WorldIsWf : World → Type 0
WorldIsWf w = IsWf w.kernel

pub mm_alloc-IsWf : (k : Kernel) → IsWf k → IsWf (mm_alloc k).1
mm_alloc-IsWf k w = elim (mm_alloc_cases k) [
  | inl (gs, e) ↦ rw e (frame _ _ _ _ refl refl (omega arith) (λ r. refl) w)
  | inr (gs, e) ↦ rw e (frame _ _ _ _ refl refl (omega arith) (λ r. refl) w)
]

pub mm_free-IsWf : (b : ℕ) (k : Kernel) → IsWf k → IsWf (mm_free b k)
mm_free-IsWf b k w = frame _ _ _ _ refl refl (omega arith) (λ r. refl) w

with_lists-IsWf :
    (id initial b q : ℕ) (r : Option ℕ × Kernel) (w : World)
    → IsWf r.1
    → WorldIsWf (with_lists id initial b q r w).1
unfolding with_lists
with_lists-IsWf id initial b q (none, k) w h = mm_free-IsWf b _ (mm_free-IsWf q k h)
with_lists-IsWf id initial b q (some m, k) w h = h

with_structure-IsWf :
    (id initial b : ℕ) (r : Option ℕ × Kernel) (w : World)
    → IsWf r.1
    → WorldIsWf (with_structure id initial b r w).1
unfolding with_structure
with_structure-IsWf id initial b (none, k) w h = mm_free-IsWf b k h
with_structure-IsWf id initial b (some q, k) w h =
    with_lists-IsWf id initial b q (mm_alloc k) w (mm_alloc-IsWf k h)

create_semaphore-IsWf :
    (id initial : ℕ) (r : Option ℕ × Kernel) (w : World)
    → IsWf r.1
    → WorldIsWf (create_semaphore id initial r w).1
unfolding create_semaphore
create_semaphore-IsWf id initial (none, k) w h = h
create_semaphore-IsWf id initial (some b, k) w h =
    with_structure-IsWf id initial b (mm_alloc k) w (mm_alloc-IsWf k h)

pub sem_init-IsWf : (id initial : ℕ) (w : World) → WorldIsWf w → WorldIsWf (sem_init id initial w).1
unfolding sem_init
sem_init-IsWf id initial w h = elim (Bool-cases (is_free id w)) [
  | inl e ↦ rw e (create_semaphore-IsWf id initial (mm_alloc w.kernel) w (mm_alloc-IsWf w.kernel h))
  | inr e ↦ rw e h
]

free_nodes-IsWf : (q : Queue) (k : Kernel) → IsWf k → IsWf (free_nodes q k)
unfolding free_nodes
free_nodes-IsWf [] k h = h
free_nodes-IsWf (e ∷ q) k h = free_nodes-IsWf q _ (mm_free-IsWf e.node k h)

pub sem_destroy-IsWf : (id : ℕ) (w : World) → WorldIsWf w → WorldIsWf (sem_destroy id w).1
unfolding sem_destroy free_semaphore
sem_destroy-IsWf id w h = elim (Option-cases (semaphore_at id w)) [
  | inl e ↦ rw (e, sem_destroy) h
  | inr (s, e) ↦
      rw (e, sem_destroy)
        (mm_free-IsWf s.block _ (
          mm_free-IsWf s.mutex_block _ (
            free_nodes-IsWf s.mutex_queue _
              (mm_free-IsWf s.queue_block _ (free_nodes-IsWf s.semaphore_queue w.kernel h)))))
]

-- What runs while a caller waits keeps the table.
abbrev pub OthersLaw : (World → World) → Type 0
OthersLaw others = (w : World) → WorldIsWf w → WorldIsWf (others w)

module _ (peers : Peers) (laws : PeerLaws peers) (others : World → World)
    (keeps : OthersLaw others) where
  sleep-IsWf : (w : World) → WorldIsWf w → WorldIsWf (sleep peers others w)
  unfolding sleep
  sleep-IsWf w h = keeps _ (
      give_up_quantum-IsWf peers laws _
        (set_status-IsWf peers laws w.kernel.current_pid is_blocked w.kernel h))

  resume-IsWf : (q : Queue) (k : Kernel) → IsWf k → IsWf (resume peers others q k).1
  unfolding resume
  resume-IsWf [] k h = h
  resume-IsWf (e ∷ q) k h =
      let freed = mm_free-IsWf e.node k h in
      elim (Bool-cases (process_is_alive e.pid)) [
        | inl alive ↦ rw alive (set_status-IsWf peers laws e.pid is_ready _ freed)
        | inr dead ↦ rw dead (resume-IsWf q _ freed)
      ]

  release_mutex-IsWf :
      (id : ℕ) (s : Semaphore) (w : World)
      → WorldIsWf w
      → WorldIsWf (release_mutex peers others id s w)
  unfolding release_mutex
  release_mutex-IsWf id s w h = resume-IsWf s.mutex_queue w.kernel h

  wait_mutex-IsWf :
      (id : ℕ) (s : Semaphore) (r : Option ℕ × Kernel) (w : World)
      → IsWf r.1
      → WorldIsWf (wait_mutex peers others id s r w)
  unfolding wait_mutex
  wait_mutex-IsWf id s (none, k) w h = h
  wait_mutex-IsWf id s (some n, k) w h = sleep-IsWf _ h

  acquire_mutex-IsWf :
      (fuel id block : ℕ) (w : World)
      → WorldIsWf w
      → WorldIsWf (acquire_mutex peers others fuel id block w).1
  unfolding acquire_mutex
  acquire_mutex-IsWf zero id block w h = h
  acquire_mutex-IsWf (suc fuel) id block w h = elim (Option-cases (w.semaphores id)) [
    | inl e ↦ rw (e, acquire_mutex) h
    | inr (s, e) ↦ elim (Bool-cases (s.block == block)) [
      | inr other ↦ rw (e, other, acquire_mutex) h
      | inl same ↦ elim (Bool-cases s.mutex) [
        | inr free ↦ rw (e, same, free, acquire_mutex) h
        | inl held ↦
            rw (e, same, held, acquire_mutex)
              (acquire_mutex-IsWf fuel id block _
                (wait_mutex-IsWf id s (mm_alloc w.kernel) w (mm_alloc-IsWf w.kernel h)))
      ]
    ]
  ]

  up_locked-IsWf :
      (id : ℕ) (s : Semaphore) (w : World)
      → WorldIsWf w
      → WorldIsWf (up_locked peers others id s w).1
  unfolding up_locked
  up_locked-IsWf id s w h = elim (Bool-cases (u32 (s.value + 1) == 0)) [
    | inl e ↦ rw e (release_mutex-IsWf id _ w h)
    | inr e ↦ rw e (release_mutex-IsWf id _ _ (resume-IsWf s.semaphore_queue w.kernel h))
  ]

  up_after-IsWf :
      (id block : ℕ) (r : Outcome × World)
      → WorldIsWf r.1
      → WorldIsWf (up_after peers others id block r).1
  unfolding up_after
  up_after-IsWf id block (done, w) h = elim (Option-cases (w.semaphores id)) [
    | inl e ↦ rw (e, up_after) h
    | inr (s, e) ↦ rw (e, up_after) (up_locked-IsWf id s w h)
  ]
  up_after-IsWf id block (refused, w) h = h
  up_after-IsWf id block (stale, w) h = h
  up_after-IsWf id block (out_of_fuel, w) h = h

  pub sem_post-IsWf :
      (fuel id : ℕ) (w : World) → WorldIsWf w → WorldIsWf (sem_post peers others fuel id w).1
  unfolding sem_post
  sem_post-IsWf fuel id w h = elim (Option-cases (semaphore_at id w)) [
    | inl e ↦ rw (e, sem_post) h
    | inr (s, e) ↦
        rw (e, sem_post) (up_after-IsWf id s.block _ (acquire_mutex-IsWf fuel id s.block w h))
  ]

  -- where the wait went on, and where it had no memory for the node
  abbrev WaitedIsWf : Option World × World → Type 0
  WaitedIsWf (none, w) = WorldIsWf w
  WaitedIsWf (some w', w) = WorldIsWf w'

  wait_value-IsWf :
      (id : ℕ) (s : Semaphore) (r : Option ℕ × Kernel) (w : World)
      → IsWf r.1
      → WaitedIsWf (wait_value peers others id s r w)
  unfolding wait_value
  wait_value-IsWf id s (none, k) w h = release_mutex-IsWf id s _ h
  wait_value-IsWf id s (some n, k) w h = keeps _ (
      give_up_quantum-IsWf peers laws _
        (release_mutex-IsWf id _ _ (set_status-IsWf peers laws k.current_pid is_blocked k h)))

  after_wait :
      (next : World → Outcome × World) (r : Option World × World)
      → WaitedIsWf r
      → ((w' : World) → WorldIsWf w' → WorldIsWf (next w').1)
      → WorldIsWf
          (elim r.0 as (λ x. Outcome × World) [ none ↦ (refused, r.1) | some w' ↦ next w' ]).1
  after_wait next (none, w) h go_on = h
  after_wait next (some w', w) h go_on = go_on w' h

  down_loop-IsWf :
      (fuel id block : ℕ) (r : Outcome × World)
      → WorldIsWf r.1
      → WorldIsWf (down_loop peers others fuel id block r).1
  unfolding down_loop
  down_loop-IsWf zero id block r h = h
  down_loop-IsWf (suc fuel) id block (refused, w) h = h
  down_loop-IsWf (suc fuel) id block (stale, w) h = h
  down_loop-IsWf (suc fuel) id block (out_of_fuel, w) h = h
  down_loop-IsWf (suc fuel) id block (done, w) h = elim (Option-cases (w.semaphores id)) [
    | inl e ↦ rw (e, down_loop) h
    | inr (s, e) ↦ elim (Bool-cases (s.value == 0)) [
      | inr some_left ↦ rw (e, some_left, down_loop) (release_mutex-IsWf id _ w h)
      | inl none_left ↦
          rw (e, none_left, down_loop)
            (after_wait
              (λ w'.
                down_loop peers others fuel id block (acquire_mutex peers others fuel id block w'))
              (wait_value peers others id s (mm_alloc w.kernel) w)
              (wait_value-IsWf id s (mm_alloc w.kernel) w (mm_alloc-IsWf w.kernel h))
              (λ w' h'. down_loop-IsWf fuel id block _ (acquire_mutex-IsWf fuel id block w' h')))
    ]
  ]

  pub sem_wait-IsWf :
      (fuel id : ℕ) (w : World) → WorldIsWf w → WorldIsWf (sem_wait peers others fuel id w).1
  unfolding sem_wait
  sem_wait-IsWf fuel id w h = elim (Option-cases (semaphore_at id w)) [
    | inl e ↦ rw (e, sem_wait) h
    | inr (s, e) ↦
        rw (e, sem_wait) (down_loop-IsWf fuel id s.block _ (acquire_mutex-IsWf fuel id s.block w h))
  ]
