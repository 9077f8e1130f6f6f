-- ===== src/Tests/Processes.antt =====
-- The scheduler at a table of two processes: the idle process and a shell.
use so_tpe.Common.{
  ℕ, ◌+◌, List, take, ◌≡◌, refl, true, false, Option, none, some, [], ◌∷◌, arith, ◌==◌,
  if◌then◌else◌,
}
use so_tpe.State.{Status, is_ready, is_running, is_blocked, Process, Slot, Kernel, max_processes}
use so_tpe.Scheduler.Peers.{Peers}
use so_tpe.Scheduler.Table.{QueueId, ready_queue, blocked, read_queue, set_priority, set_status}
use so_tpe.Scheduler.Dispatch.{put_back_current}
use so_tpe.Scheduler.Lifecycle.{create_process, stuck}
use so_tpe.Scheduler.Exit.{schedule}
use so_tpe.Scheduler.NextPid.{create_process_hangs, standard_fds}
use so_tpe.Scheduler.Wf.{IsWf, count, expected}
use so_tpe.Scheduler.Wf.Moves.{PeerLaws}
use so_tpe.Scheduler.Wf.Create.{OpenLaws, create_process-IsWf}
use so_tpe.Scheduler.Wf.Operations.{set_priority-IsWf, set_status-IsWf}
use so_tpe.Scheduler.Wf.Choice.{schedule-Switched, Switched}
use so_tpe.Scheduler.Info.{
  ProcessInfo, get_process_info, processes_from, AllDescribe, get_process_info-take,
}
use so_tpe.Pipe.Close.{with_pipes}
use so_tpe.Pipe.Wf.{with_pipes-PeerLaws}

-- no pipes, and nothing runs meanwhile
abbrev pub alone : Peers
alone = record {
  pipe_open = λ pid fd mode k. k;
  pipe_close = λ pid fd k. k;
  switch = λ k. k;
  initialize_stack_frame = λ stack argv. stack;
}

pub alone-PeerLaws : PeerLaws alone
alone-PeerLaws = record {
  pipe_close-IsWf = λ pid fd k w. w;
  pipe_open-IsWf = λ pid fd mode k w. w;
  switch-IsWf = λ k w. w;
}

alone-OpenLaws : OpenLaws alone
alone-OpenLaws = record { pipe_open-unused = λ pid fd mode k i e. e }

abbrev peers : Peers
peers = with_pipes alone 10

peers-PeerLaws : PeerLaws peers
peers-PeerLaws = with_pipes-PeerLaws alone alone-PeerLaws 10

abbrev pub process : ℕ → ℕ → Status → Process
process pid priority status = record {
  pid = pid;
  parent_pid = 0;
  stack_base = 100 + pid;
  stack_pos = 200 + pid;
  argv = 0;
  name = 300 + pid;
  priority = priority;
  status = status;
  file_descriptors = 0 ∷ 1 ∷ 2 ∷ [];
  return_value = 0;
  unkillable = pid == 0;
  quantum_consumed_count = 0;
  waiting_for_pid = 0;
  zombie_children = [];
}

abbrev idle : Slot
idle = record { node = 1; block = 2; process = process 0 0 is_ready }

abbrev shell : Slot
shell = record { node = 3; block = 4; process = process 1 2 is_running }

abbrev table : ℕ → Option Slot
table i = if i == 0 then some idle else if i == 1 then some shell else none

abbrev pub kernel : Kernel
kernel = record {
  grants = true ∷ true ∷ true ∷ true ∷ true ∷ [];
  next_block = 400;
  freed = [];
  processes = table;
  ready_queues = λ p. if p == 2 then record { node = 3; pid = 1 } ∷ [] else [];
  blocked_queue = [];
  current_pid = 1;
  next_unused_pid = 2;
  num_processes = 2;
  remaining_quantum = 1;
  initial_quantum = 16;
  kill_fg_flag = false;
  foreground_pid = 0;
  current_priority_level = 4;
  first_time = false;
  pipes = λ i. none;
  last_free_pipe = 0;
  qty_pipes = 0;
}

pub kernel-IsWf : IsWf kernel
unfolding read_queue
kernel-IsWf = record {
  counted = λ i a pid. count_at i a pid;
  node_owner = λ i j s r p q e. ground arith;
  node_old = λ i s p. ground arith;
  pid_ok = λ i s p. ground arith;
}
  where
    count_at :
        (i : QueueId) (a pid : ℕ) → count a pid (read_queue i kernel) ≡ expected i a pid table
    count_at (ready_queue p) a pid = ground arith
    count_at blocked a pid = ground arith

set_priority-IsWf_example : IsWf (set_priority peers 1 4 kernel).1
set_priority-IsWf_example = set_priority-IsWf peers peers-PeerLaws 1 4 kernel kernel-IsWf

set_status-IsWf_example : IsWf (set_status peers 1 is_blocked kernel).1
set_status-IsWf_example = set_status-IsWf peers peers-PeerLaws 1 is_blocked kernel kernel-IsWf

schedule-Switched_example :
    Switched
      (put_back_current peers 7 (record kernel { remaining_quantum = 0 }))
      (schedule peers 7 kernel)
schedule-Switched_example =
    schedule-Switched peers peers-PeerLaws 7 kernel kernel-IsWf refl (omega arith) refl

create_process-IsWf_example : IsWf (create_process alone 3 standard_fds false true kernel).1
create_process-IsWf_example =
    create_process-IsWf alone alone-PeerLaws alone-OpenLaws 3 standard_fds false true kernel
      (omega arith) (record { wf = kernel-IsWf; unused = refl })

-- a table in which only the pid 19 is unused
abbrev crowded : Kernel
crowded = record kernel {
  processes = λ i. if i == 19 then none else some shell;
  next_unused_pid = 19;
  num_processes = 19;
}

create_process_hangs_example :
    (create_process alone 2 standard_fds false false
      (record crowded { grants = true ∷ true ∷ true ∷ true ∷ [] })).0
    ≡ stuck
create_process_hangs_example =
    create_process_hangs alone 2 false crowded [] (omega arith) (omega arith) (omega arith)
      (λ i hi ne. ground arith)

-- what the blocks of the names hold
abbrev names : ℕ → List ℕ
names block = 105 ∷ 110 ∷ 105 ∷ 116 ∷ 0 ∷ []

get_process_info-take_example :
    (l : List ProcessInfo) × (get_process_info names 5 kernel ≡ some l)
    × AllDescribe names kernel.foreground_pid (take 5 (processes_from max_processes 0 kernel)) l
get_process_info-take_example = get_process_info-take names 5 kernel (omega arith)
