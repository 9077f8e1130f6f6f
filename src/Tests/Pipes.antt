-- ===== src/Tests/Pipes.antt =====
-- A pipe that holds a byte in the last place of its buffer.
use so_tpe.Common.{ℕ, List, ◌≡◌, refl, false, Option, none, some, [], ◌∷◌, arith}
use so_tpe.State.{Pipe, Kernel}
use so_tpe.Scheduler.Peers.{Peers}
use so_tpe.Pipe.Manager.{get_pipe_index_by_id, put_pipe}
use so_tpe.Pipe.Transfer.{pipe_read, pipe_write, moved}
use so_tpe.Pipe.Fifo.{SameEnds, IsValid, contents}
use so_tpe.Pipe.Write.{pipe_write-fits}
use so_tpe.Pipe.Read.{pipe_read-takes}

abbrev alone : Peers
alone = record {
  pipe_open = λ pid fd mode k. k;
  pipe_close = λ pid fd k. k;
  switch = λ k. k;
  initialize_stack_frame = λ stack argv. stack;
}

-- no processes, and one pipe
abbrev kernel : Option Pipe → Kernel
kernel p = record {
  grants = [];
  next_block = 400;
  freed = [];
  processes = λ i. none;
  ready_queues = λ p. [];
  blocked_queue = [];
  current_pid = 1;
  next_unused_pid = 2;
  num_processes = 2;
  remaining_quantum = 1;
  initial_quantum = 16;
  kill_fg_flag = false;
  foreground_pid = 0;
  current_priority_level = 4;
  first_time = false;
  pipes = λ i. p;
  last_free_pipe = 0;
  qty_pipes = 1;
}

-- the byte 65, in the last place of the buffer
abbrev pub pipe : Pipe
pipe = record {
  block = 5;
  buffer = λ i. 65;
  start_position = 4095;
  current_size = 1;
  input_pid = 1;
  output_pid = 2;
  is_blocking = false;
}

abbrev ready : Kernel
ready = kernel (some pipe)

abbrev bytes : List ℕ
bytes = 7 ∷ 8 ∷ []

pub pipe-IsValid : IsValid pipe
pipe-IsValid = record { start_in = omega arith; size_in = omega arith }

pipe_write-fits_example :
    (q : Pipe) × (pipe_write alone 5 1 3 bytes ready ≡ (moved 2, put_pipe 0 (some q) ready))
    × (contents q ≡ 65 ∷ bytes)
    × IsValid q
    × SameEnds pipe q
unfolding get_pipe_index_by_id
pipe_write-fits_example =
    pipe_write-fits alone 3 1 3 0 7 (8 ∷ []) pipe ready refl refl refl pipe-IsValid
      (omega arith, (omega arith, tt)) (omega arith) refl (omega arith)

pipe_read-takes_example :
    (q : Pipe) × (pipe_read alone 5 3 1 (record ready { current_pid = 2 })
      ≡ (moved 1, 65 ∷ [], put_pipe 0 (some q) (record ready { current_pid = 2 })))
    × (contents q ≡ [])
    × IsValid q
unfolding get_pipe_index_by_id
pipe_read-takes_example =
    pipe_read-takes alone 3 3 0 0 pipe (record ready { current_pid = 2 }) refl refl refl
      pipe-IsValid (omega arith, tt) (omega arith) refl
