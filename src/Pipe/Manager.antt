-- ===== src/Pipe/Manager.antt =====
-- The pipes of the kernel: the functions of pipes/pipe.c.
use so_tpe.Common.{
  ℕ, zero, suc, ◌+◌, ◌-◌, ◌%◌, Bool, true, false, not, ◌&&◌, ◌||◌, Option, none, some, leb, ltb,
  ◌==◌, if◌then◌else◌, u16, update,
}
use so_tpe.State.{Kernel, Pipe, is_ready, built_in_descriptors, minus_one16, mm_alloc}
use so_tpe.Scheduler.Peers.{Peers}
use so_tpe.Scheduler.Table.{set_status}
use so_tpe.Scheduler.Lifecycle.{read_mode, write_mode}

abbrev pub max_pipes : ℕ
max_pipes = 4096

unfoldable pub pipe_manager_init : Kernel → Kernel
pipe_manager_init k = record k { last_free_pipe = 0; qty_pipes = 0; pipes = λ i. none }

-- `get_pipe_index_by_id`, on an id that is read as an int16_t; `none` is -1
unfoldable pub get_pipe_index_by_id : ℕ → Option ℕ
get_pipe_index_by_id id =
    if ltb id built_in_descriptors || leb (max_pipes + built_in_descriptors) id
    then none
    else some (id - built_in_descriptors)

unfoldable pub pipe_at : Option ℕ → Kernel → Option Pipe
pipe_at none k = none
pipe_at (some i) k = k.pipes i

unfoldable pub get_pipe_by_id : ℕ → Kernel → Option Pipe
unfolding pipe_at
get_pipe_by_id id k = pipe_at (get_pipe_index_by_id id) k

abbrev pub put_pipe : ℕ → Option Pipe → Kernel → Kernel
put_pipe i p k = record k { pipes = update k.pipes i p }

-- A write through the pointer to the pipe in `block`, which entry `i` held. If the entry holds it no
-- more, the write goes to a block that was freed.
unfoldable pub modify_pipe : ℕ → ℕ → (Pipe → Pipe) → Kernel → Kernel
modify_pipe i block f k = elim (k.pipes i) [
  | none ↦ k
  | some p ↦ if p.block == block then put_pipe i (some (f p)) k else k
]

unfoldable pub create_pipe : Option ℕ × Kernel → Option Pipe × Kernel
create_pipe (none, k) = (none, k)
create_pipe (some b, k) = (
  some (record {
    block = b;
    buffer = λ i. 0;
    start_position = 0;
    current_size = 0;
    input_pid = minus_one16;
    output_pid = minus_one16;
    is_blocking = false;
  }),
  k,
)

-- `while (pipes[n] != NULL) n = (n + 1) % MAX_PIPES`, on fuel
unfoldable pub next_free_pipe : ℕ → (ℕ → Option Pipe) → ℕ → Option ℕ
next_free_pipe zero t n = none
next_free_pipe (suc fuel) t n = elim (t n) [
  | none ↦ some n
  | some p ↦ next_free_pipe fuel t ((n + 1) % max_pipes)
]

-- -1, the id of the new pipe, or a search that does not end
pub data Got : Type 0 where
  no_pipe : Got
  pipe_id : ℕ → Got
  endless : Got

unfoldable pub install : ℕ → Option Pipe × Kernel → Got × Kernel
install n (none, k) = (no_pipe, record k { last_free_pipe = n })
install n (some p, k) = (
  pipe_id (n + built_in_descriptors),
  record (put_pipe n (some p) k) {
    qty_pipes = u16 (k.qty_pipes + 1);
    last_free_pipe = (n + 1) % max_pipes;
  },
)

unfoldable pub pipe_get : Kernel → Got × Kernel
pipe_get k =
    if leb max_pipes k.qty_pipes
    then (no_pipe, k)
    else elim (next_free_pipe (max_pipes + 1) k.pipes k.last_free_pipe) [
      | none ↦ (endless, k)
      | some n ↦ install n (create_pipe (mm_alloc k))
    ]

module _ (peers : Peers) where
  abbrev pub set_ready : ℕ → Kernel → Kernel
  set_ready pid k = (set_status peers pid is_ready k).1

  -- the peer of a pipe, if it waits, is made READY; `peer` is its pid
  unfoldable pub wake : ℕ → ℕ → ℕ → Kernel → Kernel
  wake i block peer k =
      modify_pipe i block (λ p. record p { is_blocking = false }) (set_ready peer k)

  unfoldable pub open_write : ℕ → ℕ → Pipe → Kernel → Bool × Kernel
  open_write pid i p k =
      if not (p.input_pid == minus_one16) && not (p.input_pid == pid)
      then (false, k)
      else (let k' = modify_pipe i p.block (λ q. record q { input_pid = pid }) k in
          (
            true,
            if not (p.output_pid == minus_one16) && p.is_blocking
                then wake i p.block p.output_pid k'
                else k',
          ))

  unfoldable pub open_read : ℕ → ℕ → Pipe → Kernel → Bool × Kernel
  open_read pid i p k =
      if not (p.output_pid == minus_one16) && not (p.output_pid == pid)
      then (false, k)
      else (let k' = modify_pipe i p.block (λ q. record q { output_pid = pid }) k in
          (
            true,
            if not (p.input_pid == minus_one16) && p.is_blocking
                then wake i p.block p.input_pid k'
                else k',
          ))

  unfoldable pub open_mode : ℕ → ℕ → ℕ → Pipe → Kernel → Bool × Kernel
  open_mode pid i mode p k =
      if mode == write_mode
      then open_write pid i p k
      else if mode == read_mode
      then open_read pid i p k
      else (false, k)

  -- a new pipe at entry `i`, then the opening
  unfoldable pub open_new : ℕ → ℕ → ℕ → Option Pipe × Kernel → Bool × Kernel
  open_new pid i mode (none, k) = (false, k)
  open_new pid i mode (some p, k) =
      open_mode pid i mode p (record (put_pipe i (some p) k) { qty_pipes = u16 (k.qty_pipes + 1) })

  unfoldable pub open_at : ℕ → ℕ → ℕ → Kernel → Bool × Kernel
  open_at pid i mode k = elim (k.pipes i) [
    | some p ↦ open_mode pid i mode p k
    | none ↦
        if leb max_pipes k.qty_pipes
        then (false, k)
        else open_new pid i mode (create_pipe (mm_alloc k))
  ]

  -- false stands for -1, true for 0
  unfoldable pub pipe_open : ℕ → ℕ → ℕ → Kernel → Bool × Kernel
  pipe_open pid id mode k = elim (get_pipe_index_by_id id) [
    | none ↦ (false, k)
    | some i ↦ open_at pid i mode k
  ]
