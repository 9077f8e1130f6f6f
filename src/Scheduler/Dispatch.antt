-- ===== src/Scheduler/Dispatch.antt =====
-- The choice of the next process: `get_next_pid`, `yield` and `schedule` of scheduler.c.
use so_tpe.Common.{
  ℕ, zero, suc, ◌+◌, ◌-◌, ◌*◌, ◌%◌, ◌^◌, [], Bool, true, false, ◌&&◌, ◌||◌, Option, none, some, leb,
  ltb, ◌==◌, if◌then◌else◌, u8, u16, head?,
}
use so_tpe.State.{
  is_ready, is_running, is_status_running, Process, Slot, Kernel, idle_pid, max_processes,
  num_priorities, aging_threshold,
}
use so_tpe.Scheduler.Peers.{Peers}
use so_tpe.Scheduler.Table.{put_slot, set_priority}

unfoldable pub scheduler_init : Kernel → Kernel
scheduler_init k = record k {
  processes = λ i. none;
  ready_queues = λ i. [];
  blocked_queue = [];
  current_pid = 0;
  next_unused_pid = 0;
  num_processes = 0;
  remaining_quantum = 1;
  foreground_pid = 0;
  current_priority_level = num_priorities - 1;
}

-- `n > 0` on an int16_t
abbrev pub is_positive : ℕ → Bool
is_positive n = ltb 0 n && ltb n 32768

-- a write through the pointer to a process
abbrev pub modify_process : ℕ → (Process → Process) → Kernel → Kernel
modify_process pid f k = elim (k.processes pid) [
  | none ↦ k
  | some s ↦ put_slot pid (some (record s { process = f s.process })) k
]

-- `CALCULATE_QUANTUM`
abbrev pub calculate_quantum : ℕ → ℕ
calculate_quantum p = 4 * 2 ^ p

abbrev pub next_level : ℕ → ℕ
next_level lvl = u8 ((lvl + num_priorities - 1) % num_priorities)

-- the loop of `get_next_pid`, over the levels that are left
unfoldable pub find_ready : ℕ → Kernel → ℕ × Kernel
find_ready zero k = (idle_pid, k)
find_ready (suc n) k =
    let k' = record k { current_priority_level = next_level k.current_priority_level } in
    elim (head? (k.ready_queues k.current_priority_level)) [
      | none ↦ find_ready n k'
      | some e ↦ (e.pid, k')
    ]

unfoldable pub get_next_pid : Kernel → ℕ × Kernel
get_next_pid k = find_ready num_priorities k

abbrev pub get_pid : Kernel → ℕ
get_pid k = k.current_pid

unfoldable pub get_current_process : Kernel → Option Process
get_current_process k = elim (k.processes k.current_pid) [ none ↦ none | some s ↦ some s.process ]

unfoldable pub get_process_by_pid : ℕ → Kernel → Option Process
get_process_by_pid pid k =
    if leb max_processes pid
    then none
    else elim (k.processes pid) [ none ↦ none | some s ↦ some s.process ]

abbrev pub get_foreground_process_pid : Kernel → ℕ
get_foreground_process_pid k = k.foreground_pid

abbrev pub kill_foreground_process : Kernel → Kernel
kill_foreground_process k = record k { kill_fg_flag = true }

abbrev pub reset_quantum_count : Process → Process
reset_quantum_count p = record p { quantum_consumed_count = 0 }

-- the process that `get_next_pid` names takes the processor; a missing one is a NULL read
unfoldable pub take_over : ℕ × Kernel → Option (ℕ × Kernel)
take_over (pid, k) = elim (k.processes pid) [
  | none ↦ none
  | some s ↦ some (
    s.process.stack_pos,
    record (put_slot pid (some (record s { process = record (s.process) { status = is_running } }))
        k) {
          current_pid = pid;
          initial_quantum = calculate_quantum s.process.priority;
          remaining_quantum = calculate_quantum s.process.priority;
        },
  )
]

module _ (peers : Peers) where
  -- the current process goes down a level, unless it is on the lowest
  unfoldable pub demote : ℕ → Slot → Kernel → Kernel
  demote pid s k = modify_process pid reset_quantum_count (
      if ltb 0 s.process.priority then (set_priority peers pid (s.process.priority - 1) k).1 else k)

  unfoldable pub demote_current : Kernel → Kernel
  demote_current k = elim (k.processes k.current_pid) [
    | none ↦ k
    | some s ↦ if is_positive k.initial_quantum then demote k.current_pid s k else k
  ]

  -- `yield` up to the interrupt
  unfoldable pub give_up_quantum : Kernel → Kernel
  give_up_quantum k = record (demote_current k) { remaining_quantum = 0 }

  unfoldable pub yield : Kernel → Kernel
  yield k = peers.switch (give_up_quantum k)

  -- A process whose quantum has run out `aging_threshold` times goes up a level.
  unfoldable pub age : ℕ → Process → Kernel → Kernel
  age pid p k =
      let used = u16 (p.quantum_consumed_count + 1) in
      let k' = modify_process pid (λ q. record q { quantum_consumed_count = used }) k in
      if leb aging_threshold used && ltb p.priority (num_priorities - 1)
      then modify_process pid reset_quantum_count
          (set_priority peers pid (u8 (p.priority + 1)) k').1
      else (set_priority peers pid p.priority k').1

  -- the interrupted process, which is RUNNING, becomes READY and goes to the end of its queue
  unfoldable pub rotate : Process → Kernel → Kernel
  rotate p k =
      let k' = modify_process k.current_pid (λ q. record q { status = is_ready }) k in
      if k.remaining_quantum == 0 && is_positive k.initial_quantum
      then age k.current_pid p k'
      else (set_priority peers k.current_pid p.priority k').1

  -- the interrupted process leaves the processor
  unfoldable pub put_back : ℕ → Slot → Kernel → Kernel
  put_back rsp s k =
      let p = record (s.process) {
        stack_pos = if k.first_time then s.process.stack_pos else rsp;
      } in
      let k' = record (put_slot k.current_pid (some (record s { process = p })) k) {
        first_time = false;
      } in
      if is_status_running s.process.status then rotate p k' else k'

  unfoldable pub put_back_current : ℕ → Kernel → Kernel
  put_back_current rsp k = elim (k.processes k.current_pid) [ none ↦ k | some s ↦ put_back rsp s k ]

  -- `schedule`, behind the test of `kill_fg_flag`
  unfoldable pub tick : ℕ → Kernel → Option (ℕ × Kernel)
  tick rsp k =
      let k' = record k { remaining_quantum = u16 (k.remaining_quantum + 65535) } in
      if k'.num_processes == 0 || is_positive k'.remaining_quantum
      then some (rsp, k')
      else take_over (get_next_pid (put_back_current rsp k'))
