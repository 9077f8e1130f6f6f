-- ===== src/Scheduler/Wf/Operations.antt =====
-- `set_priority` and `set_status` keep the table consistent.
use so_tpe.Common.{
  ℕ, ◌-◌, ◌<◌, ◌≡◌, refl, ◌≢◌, Bool, true, false, some, arith, ◌==◌, leb, Bool-cases, Option-cases,
  inl, inr, if◌then◌else◌, ◌||◌, ap, ◌∙◌,
}
use so_tpe.State.{
  Status, is_ready, is_running, is_blocked, is_zombie, is_runnable, Slot, Kernel, max_processes,
  num_priorities, idle_pid, list_append, list_prepend,
}
use so_tpe.Scheduler.Peers.{Peers}
use so_tpe.Scheduler.Table.{
  QueueId, ready_queue, blocked, read_queue, put_slot, move_to, set_priority, set_status, block,
  unblock, change_priority, change_status,
}
use so_tpe.Scheduler.Dispatch.{scheduler_init}
use so_tpe.Scheduler.Wf.{IsWf, count, expected, count-append, expected_slot}
use so_tpe.Scheduler.Wf.Moves.{PeerLaws, Places, read_queue-eq, move_to-IsWf, frame}

pub append-Places : Places list_append
append-Places a r n pid q = ground (arith, count-append a r n pid q)

pub prepend-Places : Places list_prepend
prepend-Places a r n pid q = ground arith

-- What a slot contributes to the queues.
abbrev pub SameQueue : ℕ → Slot → Slot → Type 0
SameQueue pid s s' =
    (i : QueueId) (a : ℕ)
    → (if pid == 0 then 0 else expected_slot i a (some s'))
      ≡ (if pid == 0 then 0 else expected_slot i a (some s))

-- A change that leaves the node, the pid, the queue and the bound on the priority.
pub put_slot-IsWf :
    (pid : ℕ) (s s' : Slot) (k : Kernel)
    → IsWf k
    → k.processes pid ≡ some s
    → s'.node ≡ s.node
    → s'.process.pid ≡ s.process.pid
    → s'.process.priority < num_priorities
    → SameQueue pid s s'
    → IsWf (put_slot pid (some s') k)
put_slot-IsWf pid s s' k w here node own low same_queue = record {
  counted = λ j a r.
      ap (count a r) (read_queue-eq j k _ refl refl)
      ∙ w.counted j a r
      ∙ ground (arith, same_queue j a);
  node_owner = λ x y u v p q e. ground (
    arith,
    w.node_owner x y u v,
    w.node_owner x y s v,
    w.node_owner x y u s,
    w.node_owner x y s s,
  );
  node_old = λ x u p. ground (arith, w.node_old x u, w.node_old x s);
  pid_ok = λ x u p. ground (arith, w.pid_ok x u, w.pid_ok x s);
}

module _ (peers : Peers) (laws : PeerLaws peers) where
  change_priority-IsWf :
      (pid p : ℕ) (s : Slot) (k : Kernel)
      → IsWf k
      → k.processes pid ≡ some s
      → pid ≢ 0
      → p < num_priorities
      → IsWf (change_priority peers pid p s k).1
  unfolding change_priority
  change_priority-IsWf pid p s k w here ne low = elim (Bool-cases (is_runnable s.process.status)) [
    | inl e ↦ rw e (
        move_to-IsWf peers laws list_append append-Places (ready_queue s.process.priority)
          (ready_queue p) pid s (record (s.process) { priority = p }) k w here ne (ground arith)
          (ground arith) refl low)
    | inr e ↦ rw e (
        put_slot-IsWf pid s (record s { process = record (s.process) { priority = p } }) k w here
          refl refl low (not_runnable p s e))
  ]
    where
      not_runnable :
          (p : ℕ) (s : Slot)
          → is_runnable s.process.status ≡ false
          → SameQueue pid s (record s { process = record (s.process) { priority = p } })
      not_runnable p s e (ready_queue q) a = ground arith
      not_runnable p s e blocked a = refl

  -- `set_priority` keeps the table and the queues consistent, whatever it answers, if the calls of the
  -- pipes that discard a process's descriptors do.
  pub set_priority-IsWf : (pid p : ℕ) (k : Kernel) → IsWf k → IsWf (set_priority peers pid p k).1
  unfolding set_priority
  set_priority-IsWf pid p k w = elim (Option-cases (k.processes pid)) [
    | inl e ↦ rw (e, set_priority) w
    | inr (s, e) ↦
        rw (e, set_priority)
          (elim (Bool-cases (leb max_processes pid || pid == idle_pid || leb num_priorities p)) [
            | inl g ↦ rw g w
            | inr g ↦ rw g (change_priority-IsWf pid p s k w e (ground arith) (ground arith))
          ])
  ]

  block-IsWf :
      (pid : ℕ) (s : Slot) (k : Kernel)
      → IsWf k
      → k.processes pid ≡ some s
      → pid ≢ 0
      → is_runnable s.process.status ≡ true
      → IsWf (block peers pid s k).1
  unfolding block
  block-IsWf pid s k w here ne run =
      move_to-IsWf peers laws list_append append-Places (ready_queue s.process.priority) blocked pid
        s _ k w here ne (ground arith) refl refl (omega (arith, w.pid_ok pid s here))

  unblock-IsWf :
      (pid : ℕ) (s : Slot) (k : Kernel)
      → IsWf k
      → k.processes pid ≡ some s
      → pid ≢ 0
      → s.process.status ≡ is_blocked
      → IsWf (unblock peers pid s k).1
  unfolding unblock
  unblock-IsWf pid s k w here ne st = after _ _ moved
    where
      moved :
          IsWf
            (move_to peers list_prepend blocked
              (ready_queue (num_priorities - 1))
              pid
              s
              (record (s.process) { status = is_ready; priority = num_priorities - 1 })
              k).1
      moved =
          move_to-IsWf peers laws list_prepend prepend-Places blocked
            (ready_queue (num_priorities - 1)) pid s _ k w here ne (rw st refl) refl refl
            (omega arith)

      after :
          (b : Bool) (k' : Kernel)
          → IsWf k'
          → IsWf (if b then record k' { remaining_quantum = 0 } else k')
      after true k' w' = frame _ _ _ _ refl refl (omega arith) (λ r. refl) w'
      after false k' w' = w'

  change_status-IsWf :
      (old st : Status) (pid : ℕ) (s : Slot) (k : Kernel)
      → IsWf k
      → k.processes pid ≡ some s
      → pid ≢ 0
      → s.process.status ≡ old
      → IsWf (change_status peers old st pid s k).1
  unfolding change_status
  change_status-IsWf is_ready is_running pid s k w here ne e = w
  change_status-IsWf is_running is_running pid s k w here ne e = w
  change_status-IsWf is_blocked is_running pid s k w here ne e = w
  change_status-IsWf is_zombie is_running pid s k w here ne e = w
  change_status-IsWf is_ready is_zombie pid s k w here ne e = w
  change_status-IsWf is_running is_zombie pid s k w here ne e = w
  change_status-IsWf is_blocked is_zombie pid s k w here ne e = w
  change_status-IsWf is_zombie _ pid s k w here ne e = w
  change_status-IsWf is_ready is_ready pid s k w here ne e = w
  change_status-IsWf is_blocked is_blocked pid s k w here ne e = w
  change_status-IsWf is_ready is_blocked pid s k w here ne e =
      block-IsWf pid s k w here ne (rw e refl)
  change_status-IsWf is_running is_blocked pid s k w here ne e =
      block-IsWf pid s k w here ne (rw e refl)
  change_status-IsWf is_blocked is_ready pid s k w here ne e = unblock-IsWf pid s k w here ne e
  change_status-IsWf is_running is_ready pid s k w here ne e =
      put_slot-IsWf pid s _ k w here refl refl (omega (arith, w.pid_ok pid s here)) still
    where
      still : SameQueue pid s (record s { process = record (s.process) { status = is_ready } })
      still (ready_queue q) a = ground arith
      still blocked a = ground arith

  -- `set_status` keeps the table and the queues consistent, whatever it answers, if the calls of the
  -- pipes that discard a process's descriptors do.
  pub set_status-IsWf :
      (pid : ℕ) (st : Status) (k : Kernel) → IsWf k → IsWf (set_status peers pid st k).1
  unfolding set_status
  set_status-IsWf pid st k w = elim (Option-cases (k.processes pid)) [
    | inl e ↦ rw (e, set_status) w
    | inr (s, e) ↦
        rw (e, set_status)
          (elim (Bool-cases (leb max_processes pid || pid == idle_pid)) [
            | inl g ↦ rw g w
            | inr g ↦ rw g (change_status-IsWf s.process.status st pid s k w e (ground arith) refl)
          ])
  ]

empty_queues :
    (i : QueueId) (a pid : ℕ) (k : Kernel)
    → count a pid (read_queue i (scheduler_init k)) ≡ expected i a pid (scheduler_init k).processes
unfolding scheduler_init read_queue
empty_queues (ready_queue p) a pid k = ground arith
empty_queues blocked a pid k = ground arith

-- `scheduler_init` leaves the process table and the queues consistent, whatever they held.
pub scheduler_init-IsWf : (k : Kernel) → IsWf (scheduler_init k)
unfolding scheduler_init
scheduler_init-IsWf k = record {
  counted = λ i a pid. empty_queues i a pid k;
  node_owner = λ i j s r p q e. ground arith;
  node_old = λ i s p. ground arith;
  pid_ok = λ i s p. ground arith;
}
