-- ===== src/Scheduler/Lifecycle.antt =====
-- The start of a process: `init_process` of process.c and `create_process` of scheduler.c.
use so_tpe.Common.{
  ℕ, zero, suc, ◌+◌, ◌-◌, ◌%◌, Bool, true, false, Option, none, some, List, [], ◌∷◌, leb, ◌==◌,
  if◌then◌else◌, u16,
}
use so_tpe.State.{
  is_ready, Process, Slot, Kernel, max_processes, idle_pid, num_priorities, is_pipe_fd, mm_alloc,
  mm_free, list_append,
}
use so_tpe.Scheduler.Peers.{Peers}
use so_tpe.Scheduler.Table.{ready_queue, read_queue, write_queue, put_slot, free_process}

-- READ and WRITE
abbrev pub read_mode : ℕ
read_mode = 0

abbrev pub write_mode : ℕ
write_mode = 1

-- `while (processes[n] != NULL) n = (n + 1) % MAX_PROCESSES`, on fuel
unfoldable pub next_unused : ℕ → (ℕ → Option Slot) → ℕ → Option ℕ
next_unused zero t n = none
next_unused (suc fuel) t n = elim (t n) [
  | none ↦ some n
  | some s ↦ next_unused fuel t (u16 ((n + 1) % max_processes))
]

-- -1, the pid of the new process, or a search for an unused pid that does not end
pub data Created : Type 0 where
  refused : Created
  created : ℕ → Created
  stuck : Created

module _ (peers : Peers) where
  unfoldable pub open_descriptors : ℕ → ℕ → List ℕ → Kernel → Kernel
  open_descriptors pid mode [] k = k
  open_descriptors pid mode (fd ∷ fds) k =
      open_descriptors pid write_mode fds
        (if is_pipe_fd fd then peers.pipe_open pid fd mode k else k)

  -- `init_process` behind its allocations
  unfoldable pub fill_process :
      ℕ → ℕ → ℕ → List ℕ → Bool → ℕ → ℕ → ℕ → Kernel → Option Process × Kernel
  fill_process pid parent priority fds unkillable stack name argv k = (
    some (record {
      pid = pid;
      parent_pid = parent;
      stack_base = stack;
      stack_pos = peers.initialize_stack_frame stack argv;
      argv = argv;
      name = name;
      priority = priority;
      status = is_ready;
      file_descriptors = fds;
      return_value = 0;
      unkillable = unkillable;
      quantum_consumed_count = 0;
      waiting_for_pid = 0;
      zombie_children = [];
    }),
    open_descriptors pid read_mode fds k,
  )

  -- `init_process` behind the allocation of the arguments
  unfoldable pub with_argv :
      ℕ → ℕ → ℕ → List ℕ → Bool → ℕ → ℕ → Option ℕ × Kernel → Option Process × Kernel
  with_argv pid parent priority fds unkillable stack name (none, k) =
      (none, mm_free stack (mm_free name k))
  with_argv pid parent priority fds unkillable stack name (some argv, k) =
      fill_process pid parent priority fds unkillable stack name argv k

  -- behind the allocation of the name; `has_args` tells an argument vector from NULL
  unfoldable pub with_name :
      ℕ → ℕ → ℕ → List ℕ → Bool → Bool → ℕ → Option ℕ × Kernel → Option Process × Kernel
  with_name pid parent priority fds unkillable has_args stack (none, k) = (none, mm_free stack k)
  with_name pid parent priority fds unkillable has_args stack (some name, k) =
      if has_args
      then with_argv pid parent priority fds unkillable stack name (mm_alloc k)
      else fill_process pid parent priority fds unkillable stack name 0 k

  -- behind the allocation of the stack
  unfoldable pub with_stack :
      ℕ → ℕ → ℕ → List ℕ → Bool → Bool → Option ℕ × Kernel → Option Process × Kernel
  with_stack pid parent priority fds unkillable has_args (none, k) = (none, k)
  with_stack pid parent priority fds unkillable has_args (some stack, k) =
      with_name pid parent priority fds unkillable has_args stack (mm_alloc k)

  -- The strings of the arguments and the name are not modelled.
  unfoldable pub init_process : ℕ → ℕ → ℕ → List ℕ → Bool → Bool → Kernel → Option Process × Kernel
  init_process pid parent priority fds unkillable has_args k =
      with_stack pid parent priority fds unkillable has_args (mm_alloc k)

  -- the end of `create_process`: the search for the next pid
  unfoldable pub count_in : ℕ → Bool × Kernel → Created × Kernel
  count_in pid (false, k) = (refused, k)
  count_in pid (true, k) = elim (next_unused (max_processes + 1) k.processes k.next_unused_pid) [
    | none ↦ (stuck, k)
    | some n ↦
        (created pid, record k { next_unused_pid = n; num_processes = u16 (k.num_processes + 1) })
  ]

  -- the node of a new process: in its ready queue, or in none if it is the idle process
  unfoldable pub enlist : ℕ → Process → Option ℕ × Kernel → Bool × Kernel
  enlist block p (none, k) = (false, mm_free block (free_process peers p k))
  enlist block p (some n, k) =
      let k' = put_slot p.pid (some (record { node = n; block = block; process = p })) k in
      (
        true,
        if p.pid == idle_pid
            then k'
            else write_queue (ready_queue p.priority)
                (list_append n p.pid (read_queue (ready_queue p.priority) k)) k',
      )

  -- behind `init_process`
  unfoldable pub with_process : ℕ → Option Process × Kernel → Created × Kernel
  with_process block (none, k) = (refused, mm_free block k)
  with_process block (some p, k) = count_in p.pid (enlist block p (mm_alloc k))

  -- behind the allocation of the process
  unfoldable pub with_block : ℕ → List ℕ → Bool → Bool → Option ℕ × Kernel → Created × Kernel
  with_block priority fds unkillable has_args (none, k) = (refused, k)
  with_block priority fds unkillable has_args (some b, k) = with_process b (
      init_process k.next_unused_pid k.current_pid
        (if leb num_priorities priority then num_priorities - 1 else priority) fds unkillable
        has_args k)

  unfoldable pub create_process : ℕ → List ℕ → Bool → Bool → Kernel → Created × Kernel
  create_process priority fds unkillable has_args k =
      if leb max_processes k.num_processes
      then (refused, k)
      else with_block priority fds unkillable has_args (mm_alloc k)
