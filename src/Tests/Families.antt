-- ===== src/Tests/Families.antt =====
-- A shell that waits for a child, which has ended or runs on.
use so_tpe.Common.{ℕ, ◌≡◌, refl, some, [], ◌∷◌, arith, ◌==◌, if◌then◌else◌}
use so_tpe.State.{Status, is_ready, is_blocked, is_zombie, Slot, Kernel, mm_alloc}
use so_tpe.Scheduler.Table.{
  QueueId, ready_queue, blocked, read_queue, set_status, set_priority, move_to, link, link_block,
  unlink,
}
use so_tpe.Scheduler.Dispatch.{yield, give_up_quantum, demote_current, demote}
use so_tpe.Scheduler.Exit.{child_node, waitpid}
use so_tpe.Scheduler.Wf.{IsWf, count, expected}
use so_tpe.Scheduler.Wf.Waiting.{awaiting}
use so_tpe.Scheduler.Wf.Stranded.{Stranded, waitpid-not-IsWf}
use so_tpe.Tests.Processes.{alone, alone-PeerLaws, process, kernel}

abbrev child_of_shell : Status → Slot
child_of_shell st = record {
  node = 5;
  block = 6;
  process = record (process 2 2 st) { parent_pid = 1; return_value = 9 };
}

-- the child has ended
abbrev zombie_kernel : Kernel
zombie_kernel = record kernel {
  processes = λ i. if i == 2 then some (child_of_shell is_zombie) else kernel.processes i;
}

-- the child is ready
abbrev live_kernel : Kernel
live_kernel = record kernel {
  processes = λ i. if i == 2 then some (child_of_shell is_ready) else kernel.processes i;
  ready_queues =
      λ p. if p == 2 then record { node = 3; pid = 1 } ∷ record { node = 5; pid = 2 } ∷ [] else [];
}

live_kernel-IsWf : IsWf live_kernel
unfolding read_queue
live_kernel-IsWf = record {
  counted = λ i a pid. count_at i a pid;
  node_owner = λ i j s r p q e. ground arith;
  node_old = λ i s p. ground arith;
  pid_ok = λ i s p. ground arith;
}
  where
    count_at :
        (i : QueueId) (a pid : ℕ)
        → count a pid (read_queue i live_kernel) ≡ expected i a pid live_kernel.processes
    count_at (ready_queue p) a pid = ground arith
    count_at blocked a pid = ground arith

waitpid-not-IsWf_example :
    Stranded 2 0
      (child_of_shell is_ready)
      (yield alone (set_status alone 1 is_blocked (awaiting 2 live_kernel)).1)
      (waitpid alone 2 live_kernel).1
unfolding yield give_up_quantum demote_current set_status move_to link link_block mm_alloc unlink
    demote set_priority child_node
waitpid-not-IsWf_example =
    waitpid-not-IsWf alone alone-PeerLaws 2 (child_of_shell is_ready) (child_of_shell is_ready)
      live_kernel live_kernel-IsWf refl refl (omega arith) refl refl refl (omega arith)
      (refl, (refl, (refl, tt)))
