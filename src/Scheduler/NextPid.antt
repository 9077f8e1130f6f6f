-- ===== src/Scheduler/NextPid.antt =====
-- The search of `create_process` for the next unused pid.
use so_tpe.Common.{
  ℕ, zero, suc, ◌+◌, ◌-◌, ◌%◌, ◌<◌, ◌≡◌, refl, ◌≢◌, Bool, true, false, List, [], ◌∷◌, Option, none,
  some, arith, ap, ◌==◌, leb, if◌then◌else◌, inl, inr, Option-cases, u16, ◌∙◌,
}
use so_tpe.State.{
  Process, Slot, Kernel, is_ready, max_processes, num_priorities, mm_alloc, list_append,
}
use so_tpe.Scheduler.Lifecycle.{
  stuck, create_process, with_block, init_process, with_stack, with_name, fill_process,
  with_process, open_descriptors, enlist, count_in, next_unused,
}
use so_tpe.Scheduler.Peers.{Peers}
use so_tpe.Scheduler.Table.{ready_queue, read_queue, write_queue, put_slot}

-- With no unused pid in the table the loop never ends.
pub next_unused_hangs :
    (fuel n : ℕ) (t : ℕ → Option Slot)
    → n < max_processes
    → ((i : ℕ) → i < max_processes → t i ≢ none)
    → next_unused fuel t n ≡ none
unfolding next_unused
next_unused_hangs zero n t h full = refl
next_unused_hangs (suc fuel) n t h full = elim (Option-cases (t n)) [
  | inl e ↦ absurd (full n h e)
  | inr (s, e) ↦
      rw (e, next_unused)
        (next_unused_hangs fuel (u16 ((n + 1) % max_processes)) t (omega arith) full)
]

-- The distance to a pid, going up and round.
distance : ℕ → ℕ → ℕ
distance n j = (j + max_processes - n) % max_processes

next_unused_within :
    (fuel n j : ℕ) (t : ℕ → Option Slot)
    → n < max_processes
    → j < max_processes
    → t j ≡ none
    → distance n j < fuel
    → (m : ℕ) × (next_unused fuel t n ≡ some m) × (m < max_processes) × (t m ≡ none)
unfolding next_unused distance
next_unused_within zero n j t hn hj free near = absurd (omega arith)
next_unused_within (suc fuel) n j t hn hj free near = elim (Option-cases (t n)) [
  | inl e ↦ (n, rw (e, next_unused) refl, hn, e)
  | inr (s, e) ↦
      rw (e, next_unused)
        (next_unused_within fuel (u16 ((n + 1) % max_processes)) j t (omega arith) hj free
          (closer (apart n j s e free)))
]
  where
    apart : (n j : ℕ) (s : Slot) → t n ≡ some s → t j ≡ none → n ≢ j
    apart n j s e f = λ q. ground arith

    closer : n ≢ j → distance (u16 ((n + 1) % max_processes)) j < fuel
    closer ne = omega arith

-- If some pid in range is unused, the search from a pid in range ends within one round and finds an
-- unused one in range.
pub next_unused_finds :
    (n j : ℕ) (t : ℕ → Option Slot)
    → n < max_processes
    → j < max_processes
    → t j ≡ none
    → (m : ℕ) × (next_unused (max_processes + 1) t n ≡ some m) × (m < max_processes) × (t m ≡ none)
unfolding distance
next_unused_finds n j t hn hj free =
    next_unused_within (max_processes + 1) n j t hn hj free (omega arith)

-- the three descriptors of a process that uses no pipe
abbrev pub standard_fds : List ℕ
standard_fds = 0 ∷ 1 ∷ 2 ∷ []

module _ (peers : Peers) (priority : ℕ) (unkillable : Bool) (k : Kernel) (gs : List Bool) where
  -- the state in which the next four allocations succeed
  abbrev granted : Kernel
  granted = record k { grants = true ∷ true ∷ true ∷ true ∷ gs }

  abbrev clamped : ℕ
  clamped = if leb num_priorities priority then num_priorities - 1 else priority

  -- the new process, and the state that `init_process` leaves
  abbrev fresh : Process
  fresh = record {
    pid = k.next_unused_pid;
    parent_pid = k.current_pid;
    stack_base = k.next_block + 1 + 1;
    stack_pos = peers.initialize_stack_frame (k.next_block + 1 + 1) 0;
    argv = 0;
    name = k.next_block + 1 + 1 + 1;
    priority = clamped;
    status = is_ready;
    file_descriptors = standard_fds;
    return_value = 0;
    unkillable = unkillable;
    quantum_consumed_count = 0;
    waiting_for_pid = 0;
    zombie_children = [];
  }

  abbrev allocated : Kernel
  allocated = record k { grants = gs; next_block = k.next_block + 1 + 1 + 1 + 1 }

  abbrev enlisted : Kernel
  enlisted =
      write_queue (ready_queue clamped)
        (list_append (k.next_block + 1 + 1 + 1 + 1) k.next_unused_pid
          (read_queue (ready_queue clamped) allocated))
        (put_slot k.next_unused_pid
          (some (record {
            node = k.next_block + 1 + 1 + 1 + 1;
            block = k.next_block + 1;
            process = fresh;
          }))
          allocated)

  enlist-fresh :
      k.next_unused_pid ≢ 0
      → enlist peers (k.next_block + 1) fresh (some (k.next_block + 1 + 1 + 1 + 1), allocated)
        ≡ (true, enlisted)
  unfolding enlist
  enlist-fresh ne = let z : (k.next_unused_pid == 0) ≡ false = ground arith in rw z

  count_in_stuck :
      (k' : Kernel)
      → k'.next_unused_pid < max_processes
      → ((i : ℕ) → i < max_processes → k'.processes i ≢ none)
      → (count_in peers k.next_unused_pid (true, k')).0 ≡ stuck
  unfolding count_in
  count_in_stuck k' hp full =
      rw (next_unused_hangs (max_processes + 1) k'.next_unused_pid k'.processes hp full, count_in)

  with_block_stuck :
      k.next_unused_pid < max_processes
      → k.next_unused_pid ≢ 0
      → ((i : ℕ) → i < max_processes → i ≢ k.next_unused_pid → k.processes i ≢ none)
      → (with_block peers priority standard_fds unkillable false (mm_alloc granted)).0 ≡ stuck
  unfolding with_block init_process with_stack with_name fill_process with_process open_descriptors
      mm_alloc write_queue
  with_block_stuck hp ne full =
      ap (λ o. (count_in peers k.next_unused_pid o).0) (enlist-fresh ne)
      ∙ count_in_stuck enlisted hp (λ i hi e. ground (arith, full i))

  -- When `create_process` takes the last unused pid, not the idle process's, it does not return, though
  -- fewer than `MAX_PROCESSES` processes are counted and its allocations succeed: every other pid of
  -- the table is used, and the search for the next unused one finds none. The new process has the
  -- standard descriptors and no arguments.
  pub create_process_hangs :
      k.num_processes < max_processes
      → k.next_unused_pid < max_processes
      → k.next_unused_pid ≢ 0
      → ((i : ℕ) → i < max_processes → i ≢ k.next_unused_pid → k.processes i ≢ none)
      → (create_process peers priority standard_fds unkillable false granted).0 ≡ stuck
  unfolding create_process
  create_process_hangs room hp ne full =
      let less : leb max_processes k.num_processes ≡ false = ground arith in
      rw (less, create_process) (with_block_stuck hp ne full)
