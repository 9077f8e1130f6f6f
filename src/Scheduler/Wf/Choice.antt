-- ===== src/Scheduler/Wf/Choice.antt =====
-- `get_next_pid` and `schedule`: the process that is chosen is one that can run, and it runs.
use so_tpe.Common.{
  ℕ, zero, suc, ◌+◌, ◌*◌, ◌^◌, ◌≡◌, refl, ◌≢◌, true, false, Option, none, some, [], ◌∷◌, arith,
  ◌==◌, Option-cases, inl, inr, if◌then◌else◌, ◌||◌, ◌⊎◌, ap, ◌∙◌, sym, subst, u16,
}
use so_tpe.State.{is_running, is_runnable, Slot, Kernel, Queue, num_priorities, idle_pid}
use so_tpe.Scheduler.Peers.{Peers}
use so_tpe.Scheduler.Table.{ready_queue, blocked, put_slot, read_queue}
use so_tpe.Scheduler.Dispatch.{
  is_positive, put_back_current, take_over, tick, calculate_quantum, find_ready, get_next_pid,
  next_level,
}
use so_tpe.Scheduler.Exit.{schedule, kill_foreground}
use so_tpe.Scheduler.Wf.{IsWf}
use so_tpe.Scheduler.Wf.Moves.{PeerLaws, frame}
use so_tpe.Scheduler.Wf.Operations.{SameQueue, put_slot-IsWf}
use so_tpe.Scheduler.Wf.Switches.{put_back_current-IsWf}

-- What `get_next_pid` gives: the idle process, or one that stands in a ready queue.
record Picked (k : Kernel) (out : ℕ × Kernel) : Type 0 where
  wf : IsWf out.1
  table : (r : ℕ) → out.1.processes r ≡ k.processes r
  can_run :
      (out.0 ≡ idle_pid)
      ⊎ ((s : Slot) × (k.processes out.0 ≡ some s) × (is_runnable s.process.status ≡ true))

-- A process at the head of a ready queue can run.
head-runnable :
    (k : Kernel) (lvl a pid : ℕ) (q : Queue)
    → IsWf k
    → k.ready_queues lvl ≡ record { node = a; pid = pid } ∷ q
    → (s : Slot) × (k.processes pid ≡ some s) × (is_runnable s.process.status ≡ true)
unfolding read_queue
head-runnable k lvl a pid q w e = elim (Option-cases (k.processes pid)) [
  | inl none_here ↦ ground (arith, w.counted (ready_queue lvl) a pid)
  | inr (s, here) ↦ (s, here, ground (arith, w.counted (ready_queue lvl) a pid))
]

abbrev level_down : Kernel → Kernel
level_down k = record k { current_priority_level = next_level k.current_priority_level }

level_down-IsWf : (k : Kernel) → IsWf k → IsWf (level_down k)
level_down-IsWf k w = frame _ _ _ _ refl refl (omega arith) (λ r. refl) w

find_ready-Picked : (n : ℕ) (k : Kernel) → IsWf k → Picked k (find_ready n k)
unfolding find_ready
find_ready-Picked zero k w = record { wf = w; table = λ r. refl; can_run = inl refl }
find_ready-Picked (suc n) k w =
    at_level (k.ready_queues k.current_priority_level) refl
      (find_ready-Picked n (level_down k) (level_down-IsWf k w))
  where
    next : Kernel
    next = record k { current_priority_level = next_level k.current_priority_level }

    at_level :
        (q : Queue)
        → k.ready_queues k.current_priority_level ≡ q
        → Picked next (find_ready n next)
        → Picked k (find_ready (suc n) k)
    at_level [] e ih =
        rw (e, find_ready) (record { wf = ih.wf; table = ih.table; can_run = ih.can_run })
    at_level (h ∷ q) e ih =
        rw (e, find_ready)
          (record {
            wf = level_down-IsWf k w;
            table = λ r. refl;
            can_run = inr (head-runnable k k.current_priority_level h.node h.pid q w e);
          })

-- What a switch leaves: a consistent table, and the new current process running on a full quantum.
pub record TookOver (rsp : ℕ) (k : Kernel) : Type 0 where
  pub wf : IsWf k
  pub slot : Slot
  pub present : k.processes k.current_pid ≡ some slot
  pub runs : slot.process.status ≡ is_running
  pub stack : rsp ≡ slot.process.stack_pos
  pub quantum : k.remaining_quantum ≡ 4 * 2 ^ slot.process.priority

-- A switch out of the state `k` fails only where the idle process is missing.
abbrev pub Switched : Kernel → Option (ℕ × Kernel) → Type 0
Switched k none = k.processes idle_pid ≡ none
Switched k (some (rsp, k')) = TookOver rsp k'

abbrev started : ℕ → Slot → Kernel → Kernel
started pid s k =
    record (put_slot pid (some (record s { process = record (s.process) { status = is_running } }))
      k) {
        current_pid = pid;
        initial_quantum = calculate_quantum s.process.priority;
        remaining_quantum = calculate_quantum s.process.priority;
      }

started-TookOver :
    (pid : ℕ) (s : Slot) (k : Kernel)
    → IsWf k
    → k.processes pid ≡ some s
    → ((pid ≡ idle_pid) ⊎ (is_runnable s.process.status ≡ true))
    → TookOver s.process.stack_pos (started pid s k)
started-TookOver pid s k w here can = record {
  wf =
      frame _ _ _ _ refl refl (omega arith) (λ r. refl)
        (put_slot-IsWf pid s _ k w here refl refl (omega (arith, w.pid_ok pid s here)) still);
  slot = record s { process = record (s.process) { status = is_running } };
  present = ground arith;
  runs = refl;
  stack = refl;
  quantum = refl;
}
  where
    still : SameQueue pid s (record s { process = record (s.process) { status = is_running } })
    still (ready_queue q) a = ground arith
    still blocked a = ground arith

take_over-Switched : (k0 : Kernel) (out : ℕ × Kernel) → Picked k0 out → Switched k0 (take_over out)
unfolding take_over
take_over-Switched k0 (pid, k) w = elim (Option-cases (k.processes pid)) [
  | inl e ↦ rw (e, take_over) (missing e w.can_run)
  | inr (s, e) ↦ rw (e, take_over) (started-TookOver pid s k w.wf e (can s e w.can_run))
]
  where
    missing :
        k.processes pid ≡ none
        → ((pid ≡ idle_pid)
            ⊎ ((s : Slot) × (k0.processes pid ≡ some s) × (is_runnable s.process.status ≡ true)))
        → k0.processes idle_pid ≡ none
    missing e (inl i) = rw (← i) (sym (w.table pid) ∙ e)
    missing e (inr (s, here, r)) = ground (arith, w.table pid)

    can :
        (s : Slot)
        → k.processes pid ≡ some s
        → ((pid ≡ idle_pid)
            ⊎ ((s : Slot) × (k0.processes pid ≡ some s) × (is_runnable s.process.status ≡ true)))
        → ((pid ≡ idle_pid) ⊎ (is_runnable s.process.status ≡ true))
    can s e (inl i) = inl i
    can s e (inr (s', e', r)) = inr (ground (arith, w.table pid))

module _ (peers : Peers) (laws : PeerLaws peers) where
  tick-Switched :
      (rsp : ℕ) (k : Kernel)
      → IsWf k
      → k.num_processes ≢ 0
      → is_positive (u16 (k.remaining_quantum + 65535)) ≡ false
      → let k' = record k { remaining_quantum = u16 (k.remaining_quantum + 65535) } in
        Switched (put_back_current peers rsp k') (tick peers rsp k)
  unfolding tick
  tick-Switched rsp k w ne out =
      rw (over, tick) (take_over-Switched back (get_next_pid back) picked)
    where
      over : (k.num_processes == 0 || is_positive (u16 (k.remaining_quantum + 65535))) ≡ false
      over = ground arith

      k' : Kernel
      k' = record k { remaining_quantum = u16 (k.remaining_quantum + 65535) }

      back : Kernel
      back = put_back_current peers rsp k'

      picked : Picked back (get_next_pid back)
      picked =
          unfold get_next_pid in
          find_ready-Picked num_priorities back (
            put_back_current-IsWf peers laws rsp k'
              (frame _ _ _ _ refl refl (omega arith) (λ r. refl) w))

  schedule_quiet :
      (rsp : ℕ) (k : Kernel) → k.kill_fg_flag ≡ false → schedule peers rsp k ≡ tick peers rsp k
  unfolding schedule
  schedule_quiet rsp k quiet =
      ap
        (λ b.
          tick peers rsp
            (if b then kill_foreground peers (record k { kill_fg_flag = false }) else k))
        quiet

  -- With consistent table and queues, at least one process and no kill request pending, a tick that
  -- ends the quantum of the current process leaves them consistent, if the calls of the pipes do, and
  -- puts a process on the processor: the slot of the new current
  -- pid is RUNNING with a full quantum for its priority, and the stack position that is returned is
  -- its own. The NULL read that the code does not test for happens only where, once the interrupted
  -- process has been put back, the table has no idle process.
  pub schedule-Switched :
      (rsp : ℕ) (k : Kernel)
      → IsWf k
      → k.kill_fg_flag ≡ false
      → k.num_processes ≢ 0
      → is_positive (u16 (k.remaining_quantum + 65535)) ≡ false
      → let k' = record k { remaining_quantum = u16 (k.remaining_quantum + 65535) } in
        Switched (put_back_current peers rsp k') (schedule peers rsp k)
  schedule-Switched rsp k w quiet ne out =
      subst (Switched (put_back_current peers rsp _)) (sym (schedule_quiet rsp k quiet))
        (tick-Switched rsp k w ne out)
