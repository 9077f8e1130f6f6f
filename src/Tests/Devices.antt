-- ===== src/Tests/Devices.antt =====
-- The keyboard and a semaphore at concrete states.
use so_tpe.Common.{ℕ, ◌<◌, ◌≡◌, ◌↔◌, refl, true, false, none, some, [], ◌∷◌, arith}
use so_tpe.State.{is_ready, Queue, Kernel, mm_free}
use so_tpe.Scheduler.Peers.{Peers}
use so_tpe.Scheduler.Table.{set_status}
use so_tpe.Keyboard.{Keyboard, kill_foreground, keyboard_handler, get_char, get_char_blocking}
use so_tpe.Keyboard.Contents.{IsValid, Typed}
use so_tpe.Keyboard.Codes.{if_room, character}
use so_tpe.Keyboard.Typed.{keyboard_handler-Typed, keyboard_handler-kill}
use so_tpe.Keyboard.Desync.{get_char-desyncs}
use so_tpe.Semaphore.{Semaphore, World, done, sem_post, sem_wait}
use so_tpe.Semaphore.Uncontended.{IsIdle, sem_post-wakes, sem_wait-sem_post}

-- one waiting character, in the last place of the buffer, with ctrl down
abbrev pub keyboard : Keyboard
keyboard = record {
  buffer = λ i. 65;
  write_ptr = 0;
  read_ptr = 1023;
  count = 1;
  caps_lock = false;
  shift_pressed = false;
  ctrl_pressed = true;
  tokens = 1;
}

pub keyboard-IsValid : IsValid keyboard
keyboard-IsValid = record { read_in = omega arith; count_in = omega arith; write_at = refl }

keyboard_handler-Typed_example :
    Typed (if_room keyboard (character 0x20 keyboard)) keyboard (keyboard_handler 0x20 keyboard).0
keyboard_handler-Typed_example = keyboard_handler-Typed 0x20 keyboard (omega arith) keyboard-IsValid

keyboard_handler-kill_example :
    ((keyboard_handler 0x2E keyboard).1 ≡ kill_foreground)
    ↔ ((◌≡◌ {A = ℕ} 0x2E 0x2E) × (keyboard.ctrl_pressed ≡ true))
keyboard_handler-kill_example = keyboard_handler-kill 0x2E keyboard (omega arith)

get_char-desyncs_example :
    (c : ℕ) × (s' : Keyboard) × (get_char_blocking (get_char keyboard).1 ≡ some (c, s'))
    × (s'.count ≡ 18446744073709551615)
    × ((raw : ℕ) → raw < 256 → (keyboard_handler raw s').0.count ≡ s'.count)
get_char-desyncs_example = get_char-desyncs keyboard refl refl

abbrev alone : Peers
alone = record {
  pipe_open = λ pid fd mode k. k;
  pipe_close = λ pid fd k. k;
  switch = λ k. k;
  initialize_stack_frame = λ stack argv. stack;
}

abbrev kernel : Kernel
kernel = record {
  grants = [];
  next_block = 400;
  freed = [];
  processes = λ i. none;
  ready_queues = λ p. [];
  blocked_queue = [];
  current_pid = 1;
  next_unused_pid = 2;
  num_processes = 2;
  remaining_quantum = 1;
  initial_quantum = 16;
  kill_fg_flag = false;
  foreground_pid = 0;
  current_priority_level = 4;
  first_time = false;
  pipes = λ i. none;
  last_free_pipe = 0;
  qty_pipes = 0;
}

-- a semaphore of value 2 with the processes of a queue
abbrev semaphore : Queue → Semaphore
semaphore q = record {
  block = 10;
  queue_block = 11;
  mutex_block = 12;
  value = 2;
  mutex = false;
  semaphore_queue = q;
  mutex_queue = [];
}

abbrev world : Queue → World
world q = record { kernel = kernel; semaphores = λ i. some (semaphore q); keyboard = keyboard }

world-IsIdle : (q : Queue) → IsIdle 7 (semaphore q) (world q)
world-IsIdle q = record { in_range = omega arith; here = refl; unlocked = refl; nobody = refl }

abbrev two : Queue
two = record { node = 20; pid = 3 } ∷ record { node = 21; pid = 4 } ∷ []

sem_post-wakes_example :
    let r = sem_post alone (λ w. w) 1 7 (world two) in
    (r.0 ≡ done)
    × (r.1.semaphores 7
        ≡ some (record (semaphore two) {
          value = 3;
          semaphore_queue = record { node = 21; pid = 4 } ∷ [];
        }))
    × (r.1.kernel ≡ (set_status alone 3 is_ready (mm_free 20 kernel)).1)
sem_post-wakes_example =
    sem_post-wakes alone (λ w. w) 0 7 (semaphore two) (record { node = 20; pid = 3 })
      (record { node = 21; pid = 4 } ∷ []) (world two) (world-IsIdle two) (omega arith) refl
      (omega arith)

sem_wait-sem_post_example :
    let posted = sem_post alone (λ w. w) 1 7 (world []) in
    let waited = sem_wait alone (λ w. w) 1 7 posted.1 in
    (posted.0 ≡ done)
    × (waited.0 ≡ done)
    × (waited.1.semaphores 7 ≡ some (semaphore []))
    × (waited.1.kernel ≡ kernel)
sem_wait-sem_post_example =
    sem_wait-sem_post alone (λ w. w) 0 7 (semaphore []) (world []) (world-IsIdle []) (omega arith)
      refl
