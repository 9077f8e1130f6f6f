-- ===== src/Scheduler/Wf/Waiting.antt =====
-- `waitpid` of `Scheduler/Exit`: the child that it collects.
use so_tpe.Common.{ℕ, ◌≡◌, refl, arith, if◌then◌else◌, Bool-cases, inl, inr}
use so_tpe.State.{is_blocked, is_status_zombie, Slot, Kernel}
use so_tpe.Scheduler.Peers.{Peers}
use so_tpe.Scheduler.Table.{set_status}
use so_tpe.Scheduler.Dispatch.{modify_process, yield}
use so_tpe.Scheduler.Exit.{Waited, returned}
use so_tpe.Scheduler.Wf.{IsWf, Table}
use so_tpe.Scheduler.Wf.Moves.{PeerLaws, frame}
use so_tpe.Scheduler.Wf.Gone.{Gone}
use so_tpe.Scheduler.Wf.Operations.{set_status-IsWf}
use so_tpe.Scheduler.Wf.Switches.{modify_process-IsWf, yield-IsWf}

-- The child's value is returned, the child is gone, and the table and the queues are consistent without
-- it.
pub record Collected (pid node : ℕ) (s : Slot) (k : Kernel) (r : Waited × Kernel) : Type 0 where
  pub answer : r.0 ≡ returned s.process.return_value
  pub gone : Gone pid node s k r.1
  pub wf : IsWf r.1
  pub foreground : r.1.foreground_pid ≡ 0

-- the state in which a process waits for the child
abbrev pub awaiting : ℕ → Kernel → Kernel
awaiting pid k = record (modify_process k.current_pid (λ p. record p { waiting_for_pid = pid }) k) {
  foreground_pid = pid;
}

module _ (peers : Peers) (laws : PeerLaws peers) where
  -- the state in which the caller goes on: at once if the child is a zombie, and else after it was
  -- blocked and gave up the processor
  abbrev pub going_on : ℕ → Slot → Kernel → Kernel
  going_on pid child k =
      if is_status_zombie child.process.status
      then awaiting pid k
      else yield peers (set_status peers k.current_pid is_blocked (awaiting pid k)).1

  pub going_on-IsWf : (pid : ℕ) (child : Slot) (k : Kernel) → IsWf k → IsWf (going_on pid child k)
  going_on-IsWf pid child k w =
      let w1 : IsWf (awaiting pid k) =
        frame _ _ _ _ refl refl (omega arith) (λ r. refl)
          (modify_process-IsWf k.current_pid (λ p. record p { waiting_for_pid = pid }) k (λ p. refl)
            (λ p. refl) (λ p. refl) (λ p. refl) w) in
      elim (Bool-cases (is_status_zombie child.process.status)) [
        | inl dead ↦ rw dead w1
        | inr live ↦
            rw live
              (yield-IsWf peers laws _ (set_status-IsWf peers laws k.current_pid is_blocked _ w1))
      ]
