-- ===== src/Scheduler/Wf/Switches.antt =====
-- `yield` keeps the table consistent, and so does putting the interrupted process back.
use so_tpe.Common.{
  ℕ, ◌+◌, ◌-◌, ◌≡◌, refl, true, false, ◌&&◌, some, arith, ◌==◌, ltb, leb, Bool-cases, Option-cases,
  inl, inr, if◌then◌else◌, u16,
}
use so_tpe.State.{
  is_ready, is_runnable, is_status_blocked, is_status_running, Process, Slot, Kernel,
  num_priorities, aging_threshold,
}
use so_tpe.Scheduler.Peers.{Peers}
use so_tpe.Scheduler.Table.{ready_queue, blocked, put_slot, set_priority}
use so_tpe.Scheduler.Dispatch.{
  modify_process, reset_quantum_count, is_positive, give_up_quantum, yield, demote, demote_current,
  age, rotate, put_back, put_back_current,
}
use so_tpe.Scheduler.Wf.{IsWf}
use so_tpe.Scheduler.Wf.Moves.{PeerLaws, frame}
use so_tpe.Scheduler.Wf.Operations.{SameQueue, put_slot-IsWf, set_priority-IsWf}

-- A write to a process's field that the queues do not depend on.
pub modify_process-IsWf :
    (pid : ℕ) (f : Process → Process) (k : Kernel)
    → ((p : Process) → (f p).pid ≡ p.pid)
    → ((p : Process) → (f p).priority ≡ p.priority)
    → ((p : Process) → is_runnable (f p).status ≡ is_runnable p.status)
    → ((p : Process) → is_status_blocked (f p).status ≡ is_status_blocked p.status)
    → IsWf k
    → IsWf (modify_process pid f k)
modify_process-IsWf pid f k own prio run stop w = elim (Option-cases (k.processes pid)) [
  | inl e ↦ rw (e, modify_process) w
  | inr (s, e) ↦
      rw (e, modify_process)
        (put_slot-IsWf pid s (record s { process = f s.process }) k w e refl (own s.process)
          (omega (arith, prio s.process, w.pid_ok pid s e)) (same s))
]
  where
    same : (s : Slot) → SameQueue pid s (record s { process = f s.process })
    same s (ready_queue q) a = ground (arith, prio s.process, run s.process)
    same s blocked a = ground (arith, stop s.process)

module _ (peers : Peers) (laws : PeerLaws peers) where
  reset_quantum_count-IsWf :
      (pid : ℕ) (k : Kernel) → IsWf k → IsWf (modify_process pid reset_quantum_count k)
  reset_quantum_count-IsWf pid k w =
      modify_process-IsWf pid reset_quantum_count k (λ p. refl) (λ p. refl) (λ p. refl) (λ p. refl)
        w

  demote-IsWf : (pid : ℕ) (s : Slot) (k : Kernel) → IsWf k → IsWf (demote peers pid s k)
  unfolding demote
  demote-IsWf pid s k w =
      reset_quantum_count-IsWf pid
        (if ltb 0 s.process.priority
          then (set_priority peers pid (s.process.priority - 1) k).1
          else k)
        (elim (Bool-cases (ltb 0 s.process.priority)) [
          | inl e ↦ rw e (set_priority-IsWf peers laws pid (s.process.priority - 1) k w)
          | inr e ↦ rw e w
        ])

  demote_current-IsWf : (k : Kernel) → IsWf k → IsWf (demote_current peers k)
  unfolding demote_current
  demote_current-IsWf k w = elim (Option-cases (k.processes k.current_pid)) [
    | inl e ↦ rw (e, demote_current) w
    | inr (s, e) ↦
        rw (e, demote_current)
          (elim (Bool-cases (is_positive k.initial_quantum)) [
            | inl p ↦ rw p (demote-IsWf k.current_pid s k w)
            | inr p ↦ rw p w
          ])
  ]

  pub give_up_quantum-IsWf : (k : Kernel) → IsWf k → IsWf (give_up_quantum peers k)
  unfolding give_up_quantum
  give_up_quantum-IsWf k w =
      frame _ _ _ _ refl refl (omega arith) (λ r. refl) (demote_current-IsWf k w)

  -- `yield` keeps the table and the queues consistent, if the pipes and what runs meanwhile do.
  pub yield-IsWf : (k : Kernel) → IsWf k → IsWf (yield peers k)
  unfolding yield
  yield-IsWf k w = laws.switch-IsWf (give_up_quantum peers k) (give_up_quantum-IsWf k w)

  age-IsWf : (pid : ℕ) (p : Process) (k : Kernel) → IsWf k → IsWf (age peers pid p k)
  unfolding age
  age-IsWf pid p k w =
      elim (Bool-cases (leb aging_threshold used && ltb p.priority (num_priorities - 1))) [
        | inl e ↦
            rw e (reset_quantum_count-IsWf pid _ (set_priority-IsWf peers laws pid _ _ counted_use))
        | inr e ↦ rw e (set_priority-IsWf peers laws pid _ _ counted_use)
      ]
    where
      used : ℕ
      used = u16 (p.quantum_consumed_count + 1)

      counted_use : IsWf (modify_process pid (λ q. record q { quantum_consumed_count = used }) k)
      counted_use = modify_process-IsWf pid _ k (λ q. refl) (λ q. refl) (λ q. refl) (λ q. refl) w

  rotate-IsWf :
      (s : Slot) (p : Process) (k : Kernel)
      → IsWf k
      → k.processes k.current_pid ≡ some s
      → is_status_running s.process.status ≡ true
      → IsWf (rotate peers p k)
  unfolding rotate
  rotate-IsWf s p k w here run =
      elim (Bool-cases (k.remaining_quantum == 0 && is_positive k.initial_quantum)) [
        | inl e ↦ rw e (age-IsWf k.current_pid p _ ready)
        | inr e ↦ rw e (set_priority-IsWf peers laws k.current_pid p.priority _ ready)
      ]
    where
      still :
          SameQueue k.current_pid s
            (record s { process = record (s.process) { status = is_ready } })
      still (ready_queue q) a = ground arith
      still blocked a = ground arith

      ready : IsWf (modify_process k.current_pid (λ q. record q { status = is_ready }) k)
      ready =
          rw (here, modify_process)
            (put_slot-IsWf k.current_pid s
              (record s { process = record (s.process) { status = is_ready } }) k w here refl refl
              (omega (arith, w.pid_ok k.current_pid s here)) still)

  put_back-IsWf :
      (rsp : ℕ) (s : Slot) (k : Kernel)
      → IsWf k
      → k.processes k.current_pid ≡ some s
      → IsWf (put_back peers rsp s k)
  unfolding put_back
  put_back-IsWf rsp s k w here = elim (Bool-cases (is_status_running s.process.status)) [
    | inl e ↦ rw e (rotate-IsWf s' p k' stored (ground arith) e)
    | inr e ↦ rw e stored
  ]
    where
      p : Process
      p = record (s.process) { stack_pos = if k.first_time then s.process.stack_pos else rsp }

      s' : Slot
      s' = record s { process = p }

      k' : Kernel
      k' = record (put_slot k.current_pid (some s') k) { first_time = false }

      same : SameQueue k.current_pid s s'
      same (ready_queue q) a = refl
      same blocked a = refl

      stored : IsWf k'
      stored =
          frame _ _ _ _ refl refl (omega arith) (λ r. refl)
            (put_slot-IsWf k.current_pid s s' k w here refl refl
              (omega (arith, w.pid_ok k.current_pid s here)) same)

  pub put_back_current-IsWf : (rsp : ℕ) (k : Kernel) → IsWf k → IsWf (put_back_current peers rsp k)
  unfolding put_back_current
  put_back_current-IsWf rsp k w = elim (Option-cases (k.processes k.current_pid)) [
    | inl e ↦ rw (e, put_back_current) w
    | inr (s, e) ↦ rw (e, put_back_current) (put_back-IsWf rsp s k w e)
  ]
