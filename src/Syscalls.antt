-- ===== src/Syscalls.antt =====
-- Kernel/idt/syscalls.c: the system calls on processes, semaphores and pipes, and those on memory. A
-- call gets its arguments as 64-bit numbers and cuts them to the types of the functions it calls.
pub mod Files
pub mod Memory
pub mod Reachable
pub mod Keys
pub mod Pipeline
pub mod Output
use so_tpe.Common.{
  ℕ, ◌+◌, ◌-◌, ◌*◌, ◌%◌, Bool, true, false, Option, none, some, List, [], length, leb, ltb, ◌==◌,
  if◌then◌else◌, u16, u32,
}
use so_tpe.State.{
  Status, is_ready, is_running, is_blocked, is_zombie, Kernel, num_priorities, mm_alloc, mm_free,
}
use so_tpe.Scheduler.Peers.{Peers}
use so_tpe.Scheduler.Table.{set_priority, set_status}
use so_tpe.Scheduler.Dispatch.{get_pid, yield}
use so_tpe.Scheduler.Lifecycle
use so_tpe.Scheduler.Lifecycle.{Created, create_process}
use so_tpe.Scheduler.Exit.{Waited, not_child, dangling, returned, kill_process, waitpid}
use so_tpe.Pipe.Manager.{Got, no_pipe, pipe_id, endless, pipe_get, pipe_open}
use so_tpe.Pipe.Close.{with_pipes, pipe_close}
use so_tpe.Semaphore
use so_tpe.Semaphore.{
  World, put_kernel, Outcome, sem_init, sem_open, sem_close, sem_destroy, sem_wait, sem_post,
}
use so_tpe.Console.{Console}
use so_tpe.Clock.{ticks_elapsed}
use so_tpe.Scheduler.Info.{ProcessInfo, get_process_info}

-- All the state that a system call reads or changes.
pub record Machine : Type 0 where
  pub world : World
  pub console : Console

abbrev pub kernel_of : Machine → Kernel
kernel_of m = m.world.kernel

abbrev pub set_kernel : Kernel → Machine → Machine
set_kernel k m = record m { world = put_kernel k m.world }

-- What the caller gets in RAX, an access through a pointer to
-- something that was freed, or a loop that did not end on its fuel.
pub data Answer : Type 0 where
  answer : ℕ → Answer
  fault : Answer
  unended : Answer

-- -1 as an uint64_t
abbrev pub minus_one64 : ℕ
minus_one64 = 18446744073709551615

-- 0, or -1
abbrev pub zero_or_minus_one : Bool → Answer
zero_or_minus_one true = answer 0
zero_or_minus_one false = answer minus_one64

-- the cast of an int32_t to an uint64_t
abbrev pub sign_extend32 : ℕ → ℕ
sign_extend32 n = if ltb n 2147483648 then n else n + 18446744069414584320

abbrev pub status_code : Status → ℕ
status_code is_ready = 0
status_code is_running = 1
status_code is_blocked = 2
status_code is_zombie = 3

abbrev pub of_outcome : Outcome → Answer
of_outcome Semaphore.done = answer 0
of_outcome Semaphore.refused = answer minus_one64
of_outcome Semaphore.stale = fault
of_outcome Semaphore.out_of_fuel = unended

abbrev pub of_created : Created → Answer
of_created (Lifecycle.created pid) = answer pid
of_created Lifecycle.refused = answer minus_one64
of_created Lifecycle.stuck = unended

abbrev pub of_waited : Waited → Answer
of_waited not_child = answer minus_one64
of_waited dangling = fault
of_waited (returned n) = answer (sign_extend32 n)

abbrev pub of_got : Got → Answer
of_got no_pipe = answer minus_one64
of_got (pipe_id n) = answer n
of_got endless = unended

-- a call that gives an answer and a new kernel
abbrev pub on_kernel : Answer → Kernel → Machine → Answer × Machine
on_kernel a k m = (a, set_kernel k m)

-- `peers` are the pipes' callees, `others` what other processes do while the caller waits at a
-- semaphore, and `fuel` bounds the rounds of a loop that waits.
module _ (peers : Peers) (others : World → World) (fuel : ℕ) where
  -- the kernel's own calls go to its pipes
  abbrev pub calls : Peers
  calls = with_pipes peers fuel

  unfoldable pub sys_create_process : ℕ → List ℕ → Bool → Machine → Answer × Machine
  sys_create_process priority fds has_args m =
      if leb num_priorities priority
      then (answer minus_one64, m)
      else (let (started, k) = create_process calls priority fds false has_args (kernel_of m) in
          on_kernel (of_created started) k m)

  unfoldable pub sys_kill_process : ℕ → ℕ → Machine → Answer × Machine
  sys_kill_process pid retval m =
      let (killed, k) = kill_process calls (u16 pid) (u32 retval) (kernel_of m) in
      on_kernel (zero_or_minus_one killed) k m

  abbrev pub sys_get_pid : Machine → Answer
  sys_get_pid m = answer (get_pid (kernel_of m))

  unfoldable pub sys_yield : Machine → Answer × Machine
  sys_yield m = on_kernel (answer 0) (yield calls (kernel_of m)) m

  unfoldable pub sys_set_priority : ℕ → ℕ → Machine → Answer × Machine
  sys_set_priority pid priority m =
      if leb num_priorities priority
      then (answer minus_one64, m)
      else (let (set, k) = set_priority calls (u16 pid) (priority % 256) (kernel_of m) in
          on_kernel (elim set [ none ↦ answer minus_one64 | some p ↦ answer p ]) k m)

  -- `sys_block` and `sys_unblock`, by the new status
  unfoldable pub change : Status → ℕ → Machine → Answer × Machine
  change st pid m =
      let (set, k) = set_status calls (u16 pid) st (kernel_of m) in
      on_kernel (if set then answer (status_code st) else answer minus_one64) k m

  abbrev pub sys_block : ℕ → Machine → Answer × Machine
  sys_block pid m = change is_blocked pid m

  abbrev pub sys_unblock : ℕ → Machine → Answer × Machine
  sys_unblock pid m = change is_ready pid m

  unfoldable pub sys_sem_init : ℕ → ℕ → Machine → Answer × Machine
  sys_sem_init id initial m =
      let (o, w) = sem_init (u16 id) (u32 initial) m.world in (of_outcome o, record m { world = w })

  abbrev pub sys_sem_open : ℕ → Machine → Answer
  sys_sem_open id m = of_outcome (sem_open (u16 id) m.world)

  abbrev pub sys_sem_close : ℕ → Machine → Answer
  sys_sem_close id m = of_outcome (sem_close (u16 id) m.world)

  unfoldable pub sys_sem_destroy : ℕ → Machine → Answer × Machine
  sys_sem_destroy id m =
      let (o, w) = sem_destroy (u16 id) m.world in (of_outcome o, record m { world = w })

  unfoldable pub sys_sem_wait : ℕ → Machine → Answer × Machine
  sys_sem_wait id m =
      let (o, w) = sem_wait calls others fuel (u16 id) m.world in
      (of_outcome o, record m { world = w })

  unfoldable pub sys_sem_post : ℕ → Machine → Answer × Machine
  sys_sem_post id m =
      let (o, w) = sem_post calls others fuel (u16 id) m.world in
      (of_outcome o, record m { world = w })

  unfoldable pub sys_waitpid : ℕ → Machine → Answer × Machine
  sys_waitpid pid m =
      let (w, k) = waitpid calls (u16 pid) (kernel_of m) in on_kernel (of_waited w) k m

  unfoldable pub sys_pipe_open : ℕ → ℕ → Machine → Answer × Machine
  sys_pipe_open id mode m =
      let (opened, k) =
        pipe_open peers (get_pid (kernel_of m)) (u16 id) (mode % 256) (kernel_of m) in
      on_kernel (zero_or_minus_one opened) k m

  unfoldable pub sys_pipe_close : ℕ → Machine → Answer × Machine
  sys_pipe_close id m =
      let (closed, k) = pipe_close peers fuel (get_pid (kernel_of m)) (u16 id) (kernel_of m) in
      on_kernel (zero_or_minus_one closed) k m

unfoldable pub sys_pipe_get : Machine → Answer × Machine
sys_pipe_get m = let (got, k) = pipe_get (kernel_of m) in on_kernel (of_got got) k m

-- the cast of an int, of the ticks that time.c counts
abbrev pub sys_get_ticks : ℕ → Answer
sys_get_ticks ticks = answer (sign_extend32 (ticks_elapsed ticks))

-- with the array that is filled
unfoldable pub sys_get_process_info : (ℕ → List ℕ) → ℕ → Machine → Answer × List ProcessInfo
sys_get_process_info names max_count m =
    elim (get_process_info names (u32 max_count) (kernel_of m)) [
      | none ↦ (answer minus_one64, [])
      | some infos ↦ (answer (length infos), infos)
    ]
