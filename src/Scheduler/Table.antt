-- ===== src/Scheduler/Table.antt =====
-- The process table and its queues: `set_priority` and `set_status` of scheduler.c, and
-- `free_process` of process.c. A result of -1 is `none`.
use so_tpe.Common.{
  ℕ, ◌+◌, ◌-◌, Bool, true, false, ◌||◌, Option, none, some, List, [], ◌∷◌, leb, ◌==◌, if◌then◌else◌,
  u16, update,
}
use so_tpe.State.{
  Status, is_ready, is_running, is_blocked, is_zombie, is_runnable, Queue, Process, Slot, Kernel,
  max_processes, idle_pid, num_priorities, is_pipe_fd, mm_alloc, mm_free, list_remove, list_append,
  list_prepend,
}
use so_tpe.Scheduler.Peers.{Peers}

-- A `List` of the scheduler: a ready queue, or the queue of the blocked.
pub data QueueId : Type 0 where
  ready_queue : ℕ → QueueId
  blocked : QueueId

unfoldable pub read_queue : QueueId → Kernel → Queue
read_queue (ready_queue p) k = k.ready_queues p
read_queue blocked k = k.blocked_queue

unfoldable pub write_queue : QueueId → Queue → Kernel → Kernel
write_queue (ready_queue p) q k = record k { ready_queues = update k.ready_queues p q }
write_queue blocked q k = record k { blocked_queue = q }

-- `list_remove` on a queue of the scheduler
unfoldable pub unlink : QueueId → ℕ → Kernel → Kernel
unfolding read_queue write_queue
unlink i n k = mm_free n (write_queue i (list_remove n (read_queue i k)) k)

abbrev pub put_slot : ℕ → Option Slot → Kernel → Kernel
put_slot pid s k = record k { processes = update k.processes pid s }

module _ (peers : Peers) where
  open peers use {pipe_close}

  unfoldable pub close_descriptors : ℕ → List ℕ → Kernel → Kernel
  close_descriptors pid [] k = k
  close_descriptors pid (fd ∷ fds) k =
      close_descriptors pid fds (if is_pipe_fd fd then pipe_close pid fd k else k)

  unfoldable pub free_process : Process → Kernel → Kernel
  unfolding close_descriptors
  free_process p k =
      mm_free p.argv
        (mm_free p.name (mm_free p.stack_base (close_descriptors p.pid p.file_descriptors k)))

  -- `processes[pid] = NULL; num_processes--; free_process(process); mm_free(process)`
  unfoldable pub discard : ℕ → Slot → Kernel → Kernel
  discard pid s k = mm_free s.block (
      free_process s.process
        (record (put_slot pid none k) { num_processes = u16 (k.num_processes + 65535) }))

  -- A new node for `pid`, which `place` puts into the queue, becomes the process's node. Without
  -- memory for it the process is discarded.
  unfoldable pub link_block :
      (ℕ → ℕ → Queue → Queue) → QueueId → ℕ → Slot → Option ℕ × Kernel → Bool × Kernel
  link_block place i pid s (none, k) = (false, discard pid s k)
  link_block place i pid s (some n, k) = (
    true,
    put_slot pid (some (record s { node = n })) (write_queue i (place n pid (read_queue i k)) k),
  )

  unfoldable pub link : (ℕ → ℕ → Queue → Queue) → QueueId → ℕ → Slot → Kernel → Bool × Kernel
  link place i pid s k = link_block place i pid s (mm_alloc k)

  -- From one queue to another, with the process's contents `p` from then on.
  unfoldable pub move_to :
      (ℕ → ℕ → Queue → Queue) → QueueId → QueueId → ℕ → Slot → Process → Kernel → Bool × Kernel
  move_to place from to pid s p k =
      link place to pid (record s { process = p }) (unlink from s.node k)

  abbrev pub answer : Bool → ℕ → Option ℕ
  answer true n = some n
  answer false n = none

  unfoldable pub change_priority : ℕ → ℕ → Slot → Kernel → Option ℕ × Kernel
  change_priority pid p s k =
      let pr = record (s.process) { priority = p } in
      if is_runnable s.process.status
      then (let (done, k') =
            move_to list_append (ready_queue s.process.priority) (ready_queue p) pid s pr k in
          (answer done p, k'))
      else (some p, put_slot pid (some (record s { process = pr })) k)

  unfoldable pub set_priority : ℕ → ℕ → Kernel → Option ℕ × Kernel
  unfolding change_priority
  set_priority pid p k = elim (k.processes pid) [
    | none ↦ (none, k)
    | some s ↦
        if leb max_processes pid || pid == idle_pid || leb num_priorities p
        then (none, k)
        else change_priority pid p s k
  ]

  -- `set_status(pid, BLOCKED)` on a READY or RUNNING process
  unfoldable pub block : ℕ → Slot → Kernel → Bool × Kernel
  block pid s k =
      move_to list_append (ready_queue s.process.priority) blocked pid s
        (record (s.process) {
          status = is_blocked;
          priority = s.process.priority - 1;
          quantum_consumed_count = 0;
        })
        k

  -- `set_status(pid, READY)` on a BLOCKED process
  unfoldable pub unblock : ℕ → Slot → Kernel → Bool × Kernel
  unblock pid s k =
      let (done, k') =
        move_to list_prepend blocked (ready_queue (num_priorities - 1)) pid s
          (record (s.process) { status = is_ready; priority = num_priorities - 1 }) k in
      (done, if done then record k' { remaining_quantum = 0 } else k')

  -- The cases of `set_status`, by the old status and the new one.
  unfoldable pub change_status : Status → Status → ℕ → Slot → Kernel → Bool × Kernel
  unfolding block unblock
  change_status _ is_running pid s k = (false, k)
  change_status _ is_zombie pid s k = (false, k)
  change_status is_zombie _ pid s k = (false, k)
  change_status is_ready is_ready pid s k = (true, k)
  change_status is_blocked is_blocked pid s k = (true, k)
  change_status is_ready is_blocked pid s k = block pid s k
  change_status is_running is_blocked pid s k = block pid s k
  change_status is_blocked is_ready pid s k = unblock pid s k
  change_status is_running is_ready pid s k = (
    true,
    put_slot pid (some (record s { process = record (s.process) { status = is_ready } })) k,
  )

  -- False stands for -1, true for the new status.
  unfoldable pub set_status : ℕ → Status → Kernel → Bool × Kernel
  unfolding change_status
  set_status pid st k = elim (k.processes pid) [
    | none ↦ (false, k)
    | some s ↦
        if leb max_processes pid || pid == idle_pid
        then (false, k)
        else change_status s.process.status st pid s k
  ]
