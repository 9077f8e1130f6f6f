-- ===== src/Semaphore.antt =====
-- Kernel/semaphores/semaphores.c. The scheduler is the one of `Scheduler`; what other processes do
-- while a caller waits is the function `others`.
pub mod Uncontended
pub mod Mutex
pub mod Value
pub mod Wf
use so_tpe.Common.{
  ℕ, zero, suc, ◌+◌, ◌-◌, Bool, true, false, not, ◌||◌, Option, none, some, List, [], ◌∷◌, leb, ltb,
  ◌==◌, if◌then◌else◌, u32, update,
}
use so_tpe.State.{
  Status, is_ready, is_blocked, Entry, Queue, Kernel, mm_alloc, mm_free, list_append,
}
use so_tpe.Scheduler.Peers.{Peers}
use so_tpe.Keyboard.{Keyboard}
use so_tpe.Scheduler.Table.{set_status}
use so_tpe.Scheduler.Dispatch.{give_up_quantum}

abbrev pub max_semaphores : ℕ
max_semaphores = 4096

-- `Semaphore`, with the blocks of the structure and of its two lists
pub record Semaphore : Type 0 where
  pub block : ℕ
  pub queue_block : ℕ
  pub mutex_block : ℕ
  pub value : ℕ
  pub mutex : Bool
  pub semaphore_queue : Queue
  pub mutex_queue : Queue

-- the kernel with its semaphores and the keyboard, which change while a caller waits
pub record World : Type 0 where
  pub kernel : Kernel
  pub semaphores : ℕ → Option Semaphore
  pub keyboard : Keyboard

abbrev pub put_semaphore : ℕ → Option Semaphore → World → World
put_semaphore id s w = record w { semaphores = update w.semaphores id s }

abbrev pub put_kernel : Kernel → World → World
put_kernel k w = record w { kernel = k }

unfoldable pub semaphore_manager_init : World → World
semaphore_manager_init w = record w { semaphores = λ i. none }

-- 0, -1, a read through the pointer to a semaphore that was destroyed, or fuel that ran out
pub data Outcome : Type 0 where
  done : Outcome
  refused : Outcome
  stale : Outcome
  out_of_fuel : Outcome

-- an id that `sem_init` refuses: out of range, or in use
abbrev pub is_free : ℕ → World → Bool
is_free id w = elim (w.semaphores id) [ none ↦ not (leb max_semaphores id) | some s ↦ false ]

-- `create_semaphore` behind the allocation of the structure and of the first list
unfoldable pub with_lists : ℕ → ℕ → ℕ → ℕ → Option ℕ × Kernel → World → Outcome × World
with_lists id initial b q (none, k) w = (refused, put_kernel (mm_free b (mm_free q k)) w)
with_lists id initial b q (some m, k) w = (
  done,
  put_semaphore id
      (some (record {
        block = b;
        queue_block = q;
        mutex_block = m;
        value = initial;
        mutex = false;
        semaphore_queue = [];
        mutex_queue = [];
      }))
      (put_kernel k w),
)

unfoldable pub with_structure : ℕ → ℕ → ℕ → Option ℕ × Kernel → World → Outcome × World
with_structure id initial b (none, k) w = (refused, put_kernel (mm_free b k) w)
with_structure id initial b (some q, k) w = with_lists id initial b q (mm_alloc k) w

unfoldable pub create_semaphore : ℕ → ℕ → Option ℕ × Kernel → World → Outcome × World
create_semaphore id initial (none, k) w = (refused, put_kernel k w)
create_semaphore id initial (some b, k) w = with_structure id initial b (mm_alloc k) w

-- The pointer to the id is not NULL.
unfoldable pub sem_init : ℕ → ℕ → World → Outcome × World
sem_init id initial w =
    if is_free id w then create_semaphore id initial (mm_alloc w.kernel) w else (refused, w)

abbrev pub semaphore_at : ℕ → World → Option Semaphore
semaphore_at id w = if leb max_semaphores id then none else w.semaphores id

unfoldable pub sem_open : ℕ → World → Outcome
sem_open id w = elim (semaphore_at id w) [ none ↦ refused | some s ↦ done ]

unfoldable pub sem_close : ℕ → World → Outcome
sem_close id w = elim (semaphore_at id w) [ none ↦ refused | some s ↦ done ]

unfoldable pub free_nodes : Queue → Kernel → Kernel
free_nodes [] k = k
free_nodes (e ∷ q) k = free_nodes q (mm_free e.node k)

unfoldable pub free_semaphore : Semaphore → Kernel → Kernel
free_semaphore s k = mm_free s.block (
    mm_free s.mutex_block
      (free_nodes s.mutex_queue (mm_free s.queue_block (free_nodes s.semaphore_queue k))))

unfoldable pub sem_destroy : ℕ → World → Outcome × World
sem_destroy id w = elim (semaphore_at id w) [
  | none ↦ (refused, w)
  | some s ↦ (done, put_semaphore id none (put_kernel (free_semaphore s w.kernel) w))
]

abbrev pub process_is_alive : ℕ → Bool
process_is_alive pid = ltb 0 pid

module _ (peers : Peers) (others : World → World) where
  -- `set_status(pid, BLOCKED); yield()`
  unfoldable pub sleep : World → World
  sleep w = others (
      put_kernel
        (give_up_quantum peers (set_status peers w.kernel.current_pid is_blocked w.kernel).1) w)

  -- `resume_first_available_process`: the queue that is left
  unfoldable pub resume : Queue → Kernel → Queue × Kernel
  resume [] k = ([], k)
  resume (e ∷ q) k =
      let rest = resume q (mm_free e.node k) in
      if process_is_alive e.pid
      then (q, (set_status peers e.pid is_ready (mm_free e.node k)).1)
      else rest

  -- the caller goes to the end of the queue of the mutex and waits, if there is memory for its node
  unfoldable pub wait_mutex : ℕ → Semaphore → Option ℕ × Kernel → World → World
  wait_mutex id s (none, k) w = put_kernel k w
  wait_mutex id s (some n, k) w = sleep (
      put_semaphore id (some (record s { mutex_queue = list_append n k.current_pid s.mutex_queue }))
        (put_kernel k w))

  -- `acquire_mutex`, on the semaphore in `block` at `id`
  unfoldable pub acquire_mutex : ℕ → ℕ → ℕ → World → Outcome × World
  acquire_mutex zero id block w = (out_of_fuel, w)
  acquire_mutex (suc fuel) id block w = elim (w.semaphores id) [
    | none ↦ (stale, w)
    | some s ↦ elim (s.block == block) [
      | false ↦ (stale, w)
      | true ↦ elim s.mutex [
        | false ↦ (done, put_semaphore id (some (record s { mutex = true })) w)
        | true ↦ acquire_mutex fuel id block (wait_mutex id s (mm_alloc w.kernel) w)
      ]
    ]
  ]

  unfoldable pub release_mutex : ℕ → Semaphore → World → World
  release_mutex id s w =
      let (q, k) = resume s.mutex_queue w.kernel in
      put_semaphore id (some (record s { mutex_queue = q; mutex = false })) (put_kernel k w)

  -- `up` behind `acquire_mutex`
  unfoldable pub up_locked : ℕ → Semaphore → World → Outcome × World
  up_locked id s w =
      let s' = record s { value = u32 (s.value + 1) } in
      if s'.value == 0
      then (refused, release_mutex id s' w)
      else (let (q, k) = resume s'.semaphore_queue w.kernel in
          (done, release_mutex id (record s' { semaphore_queue = q }) (put_kernel k w)))

  unfoldable pub up_after : ℕ → ℕ → Outcome × World → Outcome × World
  up_after id block (done, w) = elim (w.semaphores id) [
    | none ↦ (stale, w)
    | some s ↦ up_locked id s w
  ]
  up_after id block (o, w) = (o, w)

  unfoldable pub sem_post : ℕ → ℕ → World → Outcome × World
  sem_post fuel id w = elim (semaphore_at id w) [
    | none ↦ (refused, w)
    | some s ↦ up_after id s.block (acquire_mutex fuel id s.block w)
  ]

  -- the caller goes to the end of the queue of the semaphore, releases the mutex and waits
  unfoldable pub wait_value : ℕ → Semaphore → Option ℕ × Kernel → World → Option World × World
  wait_value id s (none, k) w = (none, release_mutex id s (put_kernel k w))
  wait_value id s (some n, k) w =
      let pid = k.current_pid in
      let s' = record s { semaphore_queue = list_append n pid s.semaphore_queue } in
      let w' = put_kernel (set_status peers pid is_blocked k).1 w in
      let w'' = release_mutex id s' w' in
      (some (others (put_kernel (give_up_quantum peers w''.kernel) w'')), w'')

  -- the loop of `down`, with the mutex held
  unfoldable pub down_loop : ℕ → ℕ → ℕ → Outcome × World → Outcome × World
  down_loop zero id block (o, w) = (out_of_fuel, w)
  down_loop (suc fuel) id block (refused, w) = (refused, w)
  down_loop (suc fuel) id block (stale, w) = (stale, w)
  down_loop (suc fuel) id block (out_of_fuel, w) = (out_of_fuel, w)
  down_loop (suc fuel) id block (done, w) = elim (w.semaphores id) [
    | none ↦ (stale, w)
    | some s ↦ elim (s.value == 0) [
      | false ↦ (done, release_mutex id (record s { value = s.value - 1 }) w)
      | true ↦
          (let (woken, failed) = wait_value id s (mm_alloc w.kernel) w in
            elim woken [
              | none ↦ (refused, failed)
              | some w' ↦ down_loop fuel id block (acquire_mutex fuel id block w')
            ])
    ]
  ]

  unfoldable pub sem_wait : ℕ → ℕ → World → Outcome × World
  sem_wait fuel id w = elim (semaphore_at id w) [
    | none ↦ (refused, w)
    | some s ↦ down_loop fuel id s.block (acquire_mutex fuel id s.block w)
  ]
