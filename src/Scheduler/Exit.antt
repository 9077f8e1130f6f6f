-- ===== src/Scheduler/Exit.antt =====
-- The end of a process: `kill_process`, `waitpid`, and the whole of `schedule`, which kills on
-- request, of scheduler.c; `get_process_fd` of process.c.
use so_tpe.Common.{
  ℕ, ◌+◌, Bool, true, false, not, ◌&&◌, ◌||◌, Option, none, some, List, [], ◌∷◌, leb, ◌==◌,
  if◌then◌else◌, head?, set, get_or,
}
use so_tpe.State.{
  is_ready, is_blocked, is_zombie, is_status_zombie, is_status_blocked, Queue, Process, Slot,
  Kernel, max_processes, idle_pid, minus_one16, is_pipe_fd, mm_alloc, mm_free, list_append,
}
use so_tpe.Scheduler.Peers.{Peers}
use so_tpe.Scheduler.Table.{QueueId, ready_queue, blocked, unlink, put_slot, discard, set_status}
use so_tpe.Scheduler.Dispatch.{modify_process, yield, tick}

-- -1, a child that is gone while its pointer is still read, or the child's return value
pub data Waited : Type 0 where
  not_child : Waited
  dangling : Waited
  returned : ℕ → Waited

-- The search of `waitpid` through `zombie_children`: what is left without the child's first node,
-- and that node, or NULL.
unfoldable pub remove_child : ℕ → Queue → Queue
remove_child pid [] = []
remove_child pid (e ∷ q) = if e.pid == pid then q else e ∷ remove_child pid q

unfoldable pub child_node : ℕ → Queue → ℕ
child_node pid [] = 0
child_node pid (e ∷ q) = if e.pid == pid then e.node else child_node pid q

-- the queue that `kill_process` unlinks the process's node from
abbrev pub home_queue : Process → QueueId
home_queue p = if is_status_blocked p.status then blocked else ready_queue p.priority

module _ (peers : Peers) where
  -- the zombie children of a process that is killed: their nodes go, and they
  unfoldable pub reap : Queue → Kernel → Kernel
  reap [] k = k
  reap (e ∷ q) k =
      let k' = mm_free e.node k in
      reap q (elim (k'.processes e.pid) [ none ↦ k' | some s ↦ discard peers e.pid s k' ])

  -- `pipe_close(pid, fd); file_descriptors[i] = -1`
  unfoldable pub drop_descriptors : ℕ → ℕ → List ℕ → Kernel → Kernel
  drop_descriptors pid i [] k = k
  drop_descriptors pid i (fd ∷ fds) k = drop_descriptors pid (i + 1) fds (
      if is_pipe_fd fd
      then modify_process pid
          (λ p. record p { file_descriptors = set p.file_descriptors i minus_one16 })
          (peers.pipe_close pid fd k)
      else k)

  abbrev pub discard_now : ℕ → Kernel → Kernel
  discard_now pid k = elim (k.processes pid) [ none ↦ k | some s ↦ discard peers pid s k ]

  -- The zombie is left to its parent, or goes; false if there is no memory for its node.
  unfoldable pub bequeath : ℕ → ℕ → Slot → Kernel → Bool × Kernel
  bequeath pid parent_pid parent k =
      let (node, k') = mm_alloc k in
      elim node [
        | none ↦ (false, discard_now pid k')
        | some n ↦
            (let k1 =
                modify_process parent_pid
                  (λ p. record p { zombie_children = list_append n pid p.zombie_children }) k' in
              let k2 : Kernel = elim (k1.processes pid) [
                | none ↦ k1
                | some s ↦ put_slot pid (some (record s { node = n })) k1
              ] in
              (
                true,
                if parent.process.waiting_for_pid == pid && is_status_blocked parent.process.status
                    then (set_status peers parent_pid is_ready k2).1
                    else k2,
              ))
      ]

  unfoldable pub leave_zombie : ℕ → ℕ → Kernel → Bool × Kernel
  leave_zombie pid parent_pid k = elim (k.processes parent_pid) [
    | none ↦ (true, discard_now pid k)
    | some parent ↦
        if leb max_processes parent_pid || is_status_zombie parent.process.status
        then (true, discard_now pid k)
        else bequeath pid parent_pid parent k
  ]

  -- `kill_process` behind its tests and up to the test of the current pid
  unfoldable pub bury : ℕ → ℕ → Slot → Kernel → Bool × Kernel
  bury pid retval s k =
      let k1 = reap s.process.zombie_children (unlink (home_queue s.process) s.node k) in
      let dead = record (s.process) {
        status = is_zombie;
        return_value = retval;
        zombie_children = [];
      } in
      let k2 = put_slot pid (some (record s { process = dead })) k1 in
      let k3 = drop_descriptors pid 0 s.process.file_descriptors k2 in
      let k4 = record k3 {
        foreground_pid = if pid == k3.foreground_pid then 0 else k3.foreground_pid;
      } in
      leave_zombie pid s.process.parent_pid k4

  -- false stands for -1, true for 0
  unfoldable pub kill_process : ℕ → ℕ → Kernel → Bool × Kernel
  kill_process pid retval k = elim (k.processes pid) [
    | none ↦ (false, k)
    | some s ↦
        if leb max_processes pid || is_status_zombie s.process.status || s.process.unkillable
        then (false, k)
        else (let (to_end, k') = bury pid retval s k in
            (true, if to_end && pid == k'.current_pid then yield peers k' else k'))
  ]

  unfoldable pub kill_current_process : ℕ → Kernel → Bool × Kernel
  kill_current_process retval k = kill_process k.current_pid retval k

  -- Ctrl-C reaches the current process if it reads the keyboard.
  unfoldable pub kill_foreground : Kernel → Kernel
  kill_foreground k = elim (k.processes k.current_pid) [
    | none ↦ k
    | some s ↦ elim (head? s.process.file_descriptors) [
      | none ↦ k
      | some fd ↦
          if not (k.current_pid == idle_pid) && fd == 0
          then (kill_current_process 4294967295 k).1
          else k
    ]
  ]

  unfoldable pub schedule : ℕ → Kernel → Option (ℕ × Kernel)
  schedule rsp k =
      tick peers rsp
        (if k.kill_fg_flag then kill_foreground (record k { kill_fg_flag = false }) else k)

  -- the end of `waitpid`, with the child in `block`: its slot goes
  unfoldable pub collect : ℕ → ℕ → ℕ → Kernel → Waited × Kernel
  collect pid block parent_pid k = elim (k.processes pid) [
    | none ↦ (dangling, k)
    | some child ↦
        if not (child.block == block)
        then (dangling, k)
        else (let k1 : Kernel = elim (k.processes parent_pid) [
          | none ↦ k
          | some parent ↦ mm_free (child_node pid parent.process.zombie_children) (
              modify_process parent_pid
                (λ p. record p { zombie_children = remove_child pid p.zombie_children }) k)
        ] in
            let k2 = discard peers pid child k1 in
            (
              returned child.process.return_value,
              record (modify_process parent_pid (λ p. record p { waiting_for_pid = 0 }) k2) {
                foreground_pid = 0;
              },
            ))
  ]

  unfoldable pub waitpid : ℕ → Kernel → Waited × Kernel
  waitpid pid k = elim (k.processes pid) [
    | none ↦ (not_child, k)
    | some child ↦
        if leb max_processes pid || not (child.process.parent_pid == k.current_pid)
        then (not_child, k)
        else (let parent_pid = k.current_pid in
            let k1 =
              record (modify_process parent_pid (λ p. record p { waiting_for_pid = pid }) k) {
                foreground_pid = pid;
              } in
            collect pid child.block parent_pid (
              if is_status_zombie child.process.status
              then k1
              else yield peers (set_status peers parent_pid is_blocked k1).1))
  ]

  -- `get_process_fd`; the index is a uint8_t
  unfoldable pub get_process_fd : ℕ → Kernel → ℕ
  get_process_fd i k = elim (k.processes k.current_pid) [
    | none ↦ minus_one16
    | some s ↦ if leb 3 i then minus_one16 else get_or s.process.file_descriptors i minus_one16
  ]
