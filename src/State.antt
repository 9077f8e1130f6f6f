-- ===== src/State.antt =====
-- The kernel's data: Kernel/include/process.h, scheduler.h, list.h, pipe.h and globals.h.
-- All static variables of the kernel are the fields of one record, `Kernel`.
use so_tpe.Common.{
  ℕ, ◌+◌, Bool, true, false, Option, none, some, List, [], ◌∷◌, ◌++◌, leb, ltb, ◌==◌, ◌&&◌,
  if◌then◌else◌, ◌≡◌, refl, ◌⊎◌, inl, inr,
}

-- `ProcessStatus`
pub data Status : Type 0 where
  is_ready is_running is_blocked is_zombie : Status

abbrev pub is_runnable : Status → Bool
is_runnable is_ready = true
is_runnable is_running = true
is_runnable _ = false

abbrev pub is_status_zombie : Status → Bool
is_status_zombie is_zombie = true
is_status_zombie _ = false

abbrev pub is_status_blocked : Status → Bool
is_status_blocked is_blocked = true
is_status_blocked _ = false

abbrev pub is_status_running : Status → Bool
is_status_running is_running = true
is_status_running _ = false

-- A `Node` of a list of processes: the block that holds it, and the pid of the process that its
-- `data` points to.
pub record Entry : Type 0 where
  pub node : ℕ
  pub pid : ℕ

-- A `List`, from head to tail, without the links and the size that lib/list.c keeps.
abbrev pub Queue : Type 0
Queue = List Entry

-- `Process`. An int16_t or int32_t is its bit pattern, so a descriptor of -1 is 65535. Pointers
-- are blocks of the heap, 0 being NULL.
pub record Process : Type 0 where
  pub pid : ℕ
  pub parent_pid : ℕ
  pub stack_base : ℕ
  pub stack_pos : ℕ
  pub argv : ℕ
  pub name : ℕ
  pub priority : ℕ
  pub status : Status
  pub file_descriptors : List ℕ
  pub return_value : ℕ
  pub unkillable : Bool
  pub quantum_consumed_count : ℕ
  pub waiting_for_pid : ℕ
  pub zombie_children : Queue

-- What `processes[pid]` leads to: the block of its `Node`, and the block and the contents of the
-- `Process` that the node's `data` points to.
pub record Slot : Type 0 where
  pub node : ℕ
  pub block : ℕ
  pub process : Process

-- `Pipe`, with the block that holds it. The two pids are int16_t bit patterns; `buffer` is read at indices below `PIPE_SIZE`.
pub record Pipe : Type 0 where
  pub block : ℕ
  pub buffer : ℕ → ℕ
  pub start_position : ℕ
  pub current_size : ℕ
  pub input_pid : ℕ
  pub output_pid : ℕ
  pub is_blocking : Bool

-- The allocator as its callers see it: `grants` are the answers that the coming calls of `mm_alloc`
-- will get (false, and every call past the end, is NULL), each block is new, `freed` lists the
-- blocks handed to `mm_free`, the last first.
pub record Kernel : Type 0 where
  pub grants : List Bool
  pub next_block : ℕ
  pub freed : List ℕ
  pub processes : ℕ → Option Slot
  pub ready_queues : ℕ → Queue
  pub blocked_queue : Queue
  pub current_pid : ℕ
  pub next_unused_pid : ℕ
  pub num_processes : ℕ
  pub remaining_quantum : ℕ
  pub initial_quantum : ℕ
  pub kill_fg_flag : Bool
  pub foreground_pid : ℕ
  pub current_priority_level : ℕ
  pub first_time : Bool
  pub pipes : ℕ → Option Pipe
  pub last_free_pipe : ℕ
  pub qty_pipes : ℕ

abbrev pub max_processes : ℕ
max_processes = 20

abbrev pub idle_pid : ℕ
idle_pid = 0

abbrev pub num_priorities : ℕ
num_priorities = 5

abbrev pub aging_threshold : ℕ
aging_threshold = 10

abbrev pub built_in_descriptors : ℕ
built_in_descriptors = 3

-- -1 as an int16_t
abbrev pub minus_one16 : ℕ
minus_one16 = 65535

-- `fd >= BUILT_IN_DESCRIPTORS` on an int16_t
abbrev pub is_pipe_fd : ℕ → Bool
is_pipe_fd fd = leb built_in_descriptors fd && ltb fd 32768

take_grant : List Bool → Kernel → Option ℕ × Kernel
take_grant [] k = (none, k)
take_grant (false ∷ gs) k = (none, record k { grants = gs })
take_grant (true ∷ gs) k =
    (some (k.next_block + 1), record k { grants = gs; next_block = k.next_block + 1 })

-- `mm_alloc`, for any of its two implementations
unfoldable pub mm_alloc : Kernel → Option ℕ × Kernel
unfolding take_grant
mm_alloc k = take_grant k.grants k

-- `mm_free`, which ignores NULL
abbrev pub mm_free : ℕ → Kernel → Kernel
mm_free b k = record k { freed = if b == 0 then k.freed else b ∷ k.freed }

-- lib/list.c, on the sequence of a list's nodes. `list_remove` of a node that is not in it leaves it,
-- where the code would set the head and the tail by the node's own links.
abbrev pub list_remove : ℕ → Queue → Queue
list_remove n [] = []
list_remove n (e ∷ q) = if e.node == n then q else e ∷ list_remove n q

abbrev pub list_append : ℕ → ℕ → Queue → Queue
list_append n pid q = q ++ (record { node = n; pid = pid } ∷ [])

abbrev pub list_prepend : ℕ → ℕ → Queue → Queue
list_prepend n pid q = record { node = n; pid = pid } ∷ q

-- The two outcomes of an allocation.
pub mm_alloc_cases :
    (k : Kernel)
    → ((gs : List Bool) × (mm_alloc k ≡ (none, record k { grants = gs })))
      ⊎ ((gs : List Bool) × (mm_alloc k
            ≡ (some (k.next_block + 1), record k { grants = gs; next_block = k.next_block + 1 })))
unfolding mm_alloc
mm_alloc_cases k = take_cases k.grants
  where
    take_cases :
        (l : List Bool)
        → ((gs : List Bool) × (take_grant l k ≡ (none, record k { grants = gs })))
          ⊎ ((gs : List Bool) × (take_grant l k ≡ (
            some (k.next_block + 1),
            record k { grants = gs; next_block = k.next_block + 1 },
          )))
    take_cases [] = inl (k.grants, refl)
    take_cases (false ∷ gs) = inl (gs, refl)
    take_cases (true ∷ gs) = inr (gs, refl)
