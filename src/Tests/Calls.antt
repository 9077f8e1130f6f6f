-- ===== src/Tests/Calls.antt =====
-- System calls of a process that reads the keyboard, writes to the console and to a pipe.
use so_tpe.Common.{
  ℕ, ◌≡◌, refl, false, none, some, List, ◌==◌, if◌then◌else◌, [], ◌∷◌, ◌++◌, inl, arith,
}
use mathlib.Core.List.{map}
use so_tpe.State.{is_running, Pipe, Slot, Kernel}
use so_tpe.Scheduler.Wf.{IsWf}
use so_tpe.Semaphore.{Semaphore, World}
use so_tpe.Keyboard.Contents.{contents}
use so_tpe.Input.{kbd_semaphore, keyboard_interrupt}
use so_tpe.Pipe.Close.{with_pipes}
use so_tpe.Pipe.Fifo
use so_tpe.Pipe.Manager.{get_pipe_index_by_id, put_pipe}
use so_tpe.Console.Text.{text}
use so_tpe.Console.Echo.{Left}
use so_tpe.Console.Write.{cell}
use so_tpe.Syscalls.{Machine, kernel_of, set_kernel, answer, sys_block, sys_sem_init, sys_sem_wait}
use so_tpe.Syscalls.Files.{sys_read, sys_write}
use so_tpe.Syscalls.Keys.{Line, sys_read-Line}
use so_tpe.Syscalls.Output.{sys_write-appends, sys_write-null}
use so_tpe.Syscalls.Pipeline.{sys_read-sys_write}
use so_tpe.Syscalls.Reachable.{
  here, then_step, writes, blocks, types, inits_semaphore, waits_for, Reaches-IsWf,
}
use so_tpe.Tests.Processes.{alone, alone-PeerLaws, kernel, kernel-IsWf, process}
use so_tpe.Tests.Devices.{keyboard, keyboard-IsValid}
use so_tpe.Tests.Screen.{screen, console, console-IsValid}
use so_tpe.Tests.Pipes.{pipe, pipe-IsValid}

abbrev others : World → World
others w = w

-- the semaphore of the keyboard, with its one character
abbrev keys : Semaphore
keys = record {
  block = 10;
  queue_block = 11;
  mutex_block = 12;
  value = 1;
  mutex = false;
  semaphore_queue = [];
  mutex_queue = [];
}

abbrev machine_of : Kernel → Machine
machine_of k = record {
  world = record {
    kernel = k;
    semaphores = λ i. if i == kbd_semaphore then some keys else none;
    keyboard = keyboard;
  };
  console = console;
}

abbrev machine : Machine
machine = machine_of kernel

-- a process with the descriptors `fds`
abbrev caller : ℕ → List ℕ → Slot
caller pid fds = record {
  node = 3;
  block = 4;
  process = record (process pid 2 is_running) { file_descriptors = fds };
}

abbrev shell : Slot
shell = record { node = 3; block = 4; process = process 1 2 is_running }

sys_read-Line_example :
    let (a, bytes, m) = sys_read alone others 5 0 1 machine in
    Line 1 (contents keyboard) [] keys machine.world (a, bytes, m.world)
    × (m.console ≡ machine.console)
sys_read-Line_example =
    sys_read-Line alone others 4 0 1 shell keys machine refl (omega arith) refl
      (record {
        idle = record { in_range = omega arith; here = refl; unlocked = refl; nobody = refl };
        counted = refl;
        valid = keyboard-IsValid;
      })
      refl

sys_write-appends_example :
    let (a, drawn, m) = sys_write alone screen 5 1 (70 ∷ 71 ∷ []) machine in
    (a ≡ answer 2)
    × Left (text console ++ map (cell 0xFFFFFF) (70 ∷ 71 ∷ [])) m.console
    × (m.world ≡ machine.world)
sys_write-appends_example =
    sys_write-appends alone screen 5 1 1 (70 ∷ 71 ∷ []) shell machine refl (omega arith) refl
      (inl refl) console-IsValid (omega arith, (omega arith, tt)) (omega arith)

-- a caller whose output leads nowhere
abbrev silent : Machine
silent = machine_of (record kernel { processes = λ i. some (caller 1 (0 ∷ 65535 ∷ 2 ∷ [])) })

sys_write-null_example :
    (sys_write alone screen 5 1 (70 ∷ []) silent ≡ (answer 0, [], silent))
    × (sys_write alone screen 5 65535 (70 ∷ []) silent ≡ (answer 1, [], silent))
sys_write-null_example =
    sys_write-null alone screen 5 1 (70 ∷ []) (caller 1 (0 ∷ 65535 ∷ 2 ∷ [])) silent refl
      (omega arith) refl

-- the writer of a pipe, and later its reader
abbrev writing : Machine
writing =
    machine_of
      (record kernel { processes = λ i. some (caller i (3 ∷ 3 ∷ 2 ∷ [])); pipes = λ i. some pipe })

abbrev reading : Machine
reading =
    set_kernel
      (record (kernel_of writing) {
        current_pid = 2;
        pipes = (kernel_of (sys_write alone screen 2 1 (7 ∷ 8 ∷ []) writing).2).pipes;
      })
      writing

sys_read-sys_write_example :
    ((sys_write alone screen 2 1 (7 ∷ 8 ∷ []) writing).0 ≡ answer 2)
    × (q : Pipe) × (sys_read alone others 2 0 3 reading
        ≡ (answer 3, 65 ∷ 7 ∷ 8 ∷ [], set_kernel (put_pipe 0 (some q) (kernel_of reading)) reading))
    × (Fifo.contents q ≡ [])
unfolding get_pipe_index_by_id
sys_read-sys_write_example =
    sys_read-sys_write alone others screen 0 1 0 3 0 7 (8 ∷ []) pipe writing reading
      (record {
        slot = caller 1 (3 ∷ 3 ∷ 2 ∷ []);
        current = refl;
        standard = omega arith;
        leads = refl;
        is_pipe = refl;
      })
      (record {
        slot = caller 2 (3 ∷ 3 ∷ 2 ∷ []);
        current = refl;
        standard = omega arith;
        leads = refl;
        is_pipe = refl;
      })
      refl refl refl refl pipe-IsValid (omega arith, tt) (omega arith, (omega arith, tt))
      (omega arith) refl (omega arith) refl

-- the machine after a block of the shell, a key, and a write
abbrev blocked_machine : Machine
blocked_machine = (sys_block alone others 5 1 machine).1

abbrev typed_machine : Machine
typed_machine = record blocked_machine {
  world = keyboard_interrupt (with_pipes alone 5) others 5 0x20 blocked_machine.world;
}

abbrev last_machine : Machine
last_machine = (sys_write alone screen 5 1 (70 ∷ []) typed_machine).2

-- and after a semaphore that is made and awaited
abbrev semaphore_machine : Machine
semaphore_machine = (sys_sem_init alone others 5 7 1 last_machine).1

abbrev waited_machine : Machine
waited_machine = (sys_sem_wait alone others 5 7 semaphore_machine).1

Reaches-IsWf_example : IsWf (kernel_of waited_machine)
Reaches-IsWf_example =
    Reaches-IsWf alone alone-PeerLaws others (λ w h. h) screen 5 machine waited_machine kernel-IsWf
      (then_step machine semaphore_machine waited_machine
        (then_step machine last_machine semaphore_machine
          (then_step machine typed_machine last_machine
            (then_step machine blocked_machine typed_machine
              (then_step machine machine blocked_machine (here machine) (blocks 1 machine))
              (types 0x20 blocked_machine))
            (writes 1 (70 ∷ []) typed_machine))
          (inits_semaphore 7 1 last_machine))
        (waits_for 7 semaphore_machine))
