-- ===== src/Syscalls/Reachable.antt =====
-- The process table and the queues through any sequence of system calls and keys.
use so_tpe.Common.{
  ℕ, zero, suc, ◌%◌, refl, Bool, true, false, List, [], ◌∷◌, ◌++◌, arith, leb, ◌==◌, if◌then◌else◌,
  u16, u32, Bool-cases, Option-cases, inl, inr,
}
use so_tpe.State.{is_ready, is_blocked, num_priorities, is_pipe_fd}
use so_tpe.Scheduler.Peers.{Peers}
use so_tpe.Scheduler.Dispatch.{get_pid}
use so_tpe.Scheduler.Wf.{IsWf}
use so_tpe.Scheduler.Wf.Moves.{PeerLaws, frame}
use so_tpe.Scheduler.Wf.Operations.{set_status-IsWf, set_priority-IsWf}
use so_tpe.Scheduler.Wf.Switches.{yield-IsWf}
use so_tpe.Pipe.Wf.{pipe_open-IsWf, pipe_close-IsWf, with_pipes-PeerLaws}
use so_tpe.Pipe.ReadWf.{pipe_read-IsWf, pipe_write-IsWf, pipe_get-IsWf}
use so_tpe.Semaphore.{World}
use so_tpe.Semaphore.Wf.{
  WorldIsWf, OthersLaw, mm_alloc-IsWf, sem_init-IsWf, sem_destroy-IsWf, sem_wait-IsWf,
  sem_post-IsWf,
}
use so_tpe.Input.{Key, key, no_semaphore, unended_wait, keyboard_interrupt}
use so_tpe.Input.Wf.{KeyIsWf, await_char-IsWf, keyboard_interrupt-IsWf}
use so_tpe.Pipe.Close.{with_pipes}
use so_tpe.Console.{Screen}
use so_tpe.Syscalls.{
  Machine, Answer, kernel_of, sys_yield, sys_set_priority, change, sys_block, sys_unblock,
  sys_pipe_open, sys_pipe_close, sys_pipe_get, sys_sem_init, sys_sem_destroy, sys_sem_wait,
  sys_sem_post,
}
use so_tpe.Syscalls.Files.{
  actual_fd, stdin, stdout, stderr, dev_null, after_key, read_keys, read_from, sys_read, write_to,
  sys_write, sys_clear_text_buffer_wrapper,
}
use so_tpe.Syscalls.Memory.{sys_malloc, sys_free}

-- The steps of a machine: a system call of the process that runs, but for those that create, end or
-- await a process, or a byte of the keyboard.
pub data Step (peers : Peers) (others : World → World) (screen : Screen) (fuel : ℕ)
    : Machine → Machine → Type 0 where
  reads :
      (fd count : ℕ) (m : Machine)
      → Step peers others screen fuel m (sys_read peers others fuel fd count m).2
  writes :
      (fd : ℕ) (bytes : List ℕ) (m : Machine)
      → Step peers others screen fuel m (sys_write peers screen fuel fd bytes m).2
  clears : (m : Machine) → Step peers others screen fuel m (sys_clear_text_buffer_wrapper m).2
  yields : (m : Machine) → Step peers others screen fuel m (sys_yield peers others fuel m).1
  sets_priority :
      (pid p : ℕ) (m : Machine)
      → Step peers others screen fuel m (sys_set_priority peers others fuel pid p m).1
  blocks :
      (pid : ℕ) (m : Machine)
      → Step peers others screen fuel m (sys_block peers others fuel pid m).1
  unblocks :
      (pid : ℕ) (m : Machine)
      → Step peers others screen fuel m (sys_unblock peers others fuel pid m).1
  opens_pipe :
      (id mode : ℕ) (m : Machine)
      → Step peers others screen fuel m (sys_pipe_open peers others fuel id mode m).1
  closes_pipe :
      (id : ℕ) (m : Machine)
      → Step peers others screen fuel m (sys_pipe_close peers others fuel id m).1
  gets_pipe : (m : Machine) → Step peers others screen fuel m (sys_pipe_get m).1
  allocates : (m : Machine) → Step peers others screen fuel m (sys_malloc m).1
  frees : (block : ℕ) (m : Machine) → Step peers others screen fuel m (sys_free block m).1
  inits_semaphore :
      (id initial : ℕ) (m : Machine)
      → Step peers others screen fuel m (sys_sem_init peers others fuel id initial m).1
  destroys_semaphore :
      (id : ℕ) (m : Machine)
      → Step peers others screen fuel m (sys_sem_destroy peers others fuel id m).1
  waits_for :
      (id : ℕ) (m : Machine)
      → Step peers others screen fuel m (sys_sem_wait peers others fuel id m).1
  posts :
      (id : ℕ) (m : Machine)
      → Step peers others screen fuel m (sys_sem_post peers others fuel id m).1
  types :
      (raw : ℕ) (m : Machine)
      → Step peers others screen fuel m
          (record m { world = keyboard_interrupt (with_pipes peers fuel) others fuel raw m.world })

-- any number of steps
pub data Reaches (peers : Peers) (others : World → World) (screen : Screen) (fuel : ℕ)
    : Machine → Machine → Type 0 where
  here : (m : Machine) → Reaches peers others screen fuel m m
  then_step :
      (a b c : Machine)
      → Reaches peers others screen fuel a b
      → Step peers others screen fuel b c
      → Reaches peers others screen fuel a c

module _ (peers : Peers) (laws : PeerLaws peers) (others : World → World) (keeps : OthersLaw others)
    (screen : Screen) (fuel : ℕ) where
  -- a choice by a test among the results of a call
  if-kernel :
      {A : Type 0} {B : Type 0} (b : Bool) (r r' : A × B × Machine)
      → IsWf (kernel_of r.2)
      → IsWf (kernel_of r'.2)
      → IsWf (kernel_of (if b then r else r').2)
  if-kernel true r r' w w' = w
  if-kernel false r r' w w' = w'

  after_key-IsWf :
      (next : List ℕ → World → Answer × List ℕ × World) (got : List ℕ) (r : Key)
      → KeyIsWf r
      → ((got' : List ℕ) (w : World) → WorldIsWf w → WorldIsWf (next got' w).2)
      → WorldIsWf (after_key next got r).2
  unfolding after_key
  after_key-IsWf next got (key c w) h go_on = elim (Bool-cases (c == 255)) [
    | inl e ↦ rw e h
    | inr e ↦ rw e (go_on (got ++ (c ∷ [])) w h)
  ]
  after_key-IsWf next got (no_semaphore w) h go_on = h
  after_key-IsWf next got (unended_wait w) h go_on = h

  read_keys-IsWf :
      (count : ℕ) (got : List ℕ) (w : World)
      → WorldIsWf w
      → WorldIsWf (read_keys peers others fuel count got w).2
  unfolding read_keys
  read_keys-IsWf zero got w h = h
  read_keys-IsWf (suc count) got w h =
      after_key-IsWf (read_keys peers others fuel count) got _
        (await_char-IsWf _ (with_pipes-PeerLaws peers laws fuel) others keeps fuel w h)
        (λ got' w' h'. read_keys-IsWf count got' w' h')

  sys_read-IsWf :
      (fd count : ℕ) (m : Machine)
      → IsWf (kernel_of m)
      → IsWf (kernel_of (sys_read peers others fuel fd count m).2)
  unfolding sys_read read_from
  sys_read-IsWf fd count m w = elim (Option-cases (actual_fd peers fd (kernel_of m))) [
    | inl e ↦ rw (e, sys_read) w
    | inr (a, e) ↦
        rw (e, sys_read)
          (if-kernel (is_pipe_fd a) _ _ (pipe_read-IsWf peers laws fuel a count (kernel_of m) w) (
            if-kernel (a == dev_null) _ _ w
              (if-kernel (a == stdin) _ _ (read_keys-IsWf count [] m.world w) w)))
  ]

  sys_write-IsWf :
      (fd : ℕ) (bytes : List ℕ) (m : Machine)
      → IsWf (kernel_of m)
      → IsWf (kernel_of (sys_write peers screen fuel fd bytes m).2)
  unfolding sys_write write_to
  sys_write-IsWf fd bytes m w = elim (Option-cases (actual_fd peers fd (kernel_of m))) [
    | inl e ↦ rw (e, sys_write) w
    | inr (a, e) ↦
        rw (e, sys_write)
          (if-kernel (is_pipe_fd a) _ _ (pipe_write-IsWf peers laws fuel _ a bytes (kernel_of m) w)
            (if-kernel (a == dev_null) _ _ w
              (if-kernel (a == stdout) _ _ w (if-kernel (a == stderr) _ _ w w))))
  ]

  sys_set_priority-IsWf :
      (pid p : ℕ) (m : Machine)
      → IsWf (kernel_of m)
      → IsWf (kernel_of (sys_set_priority peers others fuel pid p m).1)
  unfolding sys_set_priority
  sys_set_priority-IsWf pid p m w = elim (Bool-cases (leb num_priorities p)) [
    | inl e ↦ rw e w
    | inr e ↦ rw e (
        set_priority-IsWf _ (with_pipes-PeerLaws peers laws fuel) (u16 pid) (p % 256) (kernel_of m)
          w)
  ]

  sys_malloc-IsWf : (m : Machine) → IsWf (kernel_of m) → IsWf (kernel_of (sys_malloc m).1)
  unfolding sys_malloc
  sys_malloc-IsWf m w = mm_alloc-IsWf (kernel_of m) w

  Step-IsWf :
      (a b : Machine) → IsWf (kernel_of a) → Step peers others screen fuel a b → IsWf (kernel_of b)
  unfolding sys_yield change sys_pipe_open sys_pipe_close sys_pipe_get sys_free sys_sem_init
      sys_sem_destroy sys_sem_wait sys_sem_post
  Step-IsWf a b w (reads fd count m) = sys_read-IsWf fd count m w
  Step-IsWf a b w (writes fd bytes m) = sys_write-IsWf fd bytes m w
  Step-IsWf a b w (clears m) = w
  Step-IsWf a b w (yields m) = yield-IsWf _ (with_pipes-PeerLaws peers laws fuel) (kernel_of m) w
  Step-IsWf a b w (sets_priority pid p m) = sys_set_priority-IsWf pid p m w
  Step-IsWf a b w (blocks pid m) =
      set_status-IsWf _ (with_pipes-PeerLaws peers laws fuel) (u16 pid) is_blocked (kernel_of m) w
  Step-IsWf a b w (unblocks pid m) =
      set_status-IsWf _ (with_pipes-PeerLaws peers laws fuel) (u16 pid) is_ready (kernel_of m) w
  Step-IsWf a b w (opens_pipe id mode m) =
      pipe_open-IsWf peers laws (get_pid (kernel_of m)) (u16 id) (mode % 256) (kernel_of m) w
  Step-IsWf a b w (closes_pipe id m) =
      pipe_close-IsWf peers laws fuel (get_pid (kernel_of m)) (u16 id) (kernel_of m) w
  Step-IsWf a b w (gets_pipe m) = pipe_get-IsWf (kernel_of m) w
  Step-IsWf a b w (allocates m) = sys_malloc-IsWf m w
  Step-IsWf a b w (frees block m) = frame _ _ _ _ refl refl (omega arith) (λ r. refl) w
  Step-IsWf a b w (inits_semaphore id initial m) = sem_init-IsWf (u16 id) (u32 initial) m.world w
  Step-IsWf a b w (destroys_semaphore id m) = sem_destroy-IsWf (u16 id) m.world w
  Step-IsWf a b w (waits_for id m) =
      sem_wait-IsWf _ (with_pipes-PeerLaws peers laws fuel) others keeps fuel (u16 id) m.world w
  Step-IsWf a b w (posts id m) =
      sem_post-IsWf _ (with_pipes-PeerLaws peers laws fuel) others keeps fuel (u16 id) m.world w
  Step-IsWf a b w (types raw m) =
      keyboard_interrupt-IsWf _ (with_pipes-PeerLaws peers laws fuel) others keeps fuel raw m.world
        w

  -- From a machine with a consistent process table and queues, every sequence of system calls that
  -- neither create, end nor await a process and of keys, with the posts of the keyboard's semaphore
  -- and the requests to end the process in the foreground, leads to such a machine, if what runs while
  -- a caller waits, for the processor or for a semaphore, and the pipes of a process that is discarded
  -- keep the table and the queues consistent.
  pub Reaches-IsWf :
      (a b : Machine)
      → IsWf (kernel_of a)
      → Reaches peers others screen fuel a b
      → IsWf (kernel_of b)
  Reaches-IsWf a b w (here m) = w
  Reaches-IsWf a b w (then_step x y z before last) = Step-IsWf y z (Reaches-IsWf x y w before) last
