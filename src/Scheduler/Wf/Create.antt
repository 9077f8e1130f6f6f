-- ===== src/Scheduler/Wf/Create.antt =====
-- `create_process` keeps the table consistent.
use so_tpe.Common.{
  ℕ, ◌+◌, ◌-◌, ◌≤◌, ◌<◌, ◌≡◌, refl, ◌≢◌, Bool, true, false, Option, none, some, List, [], ◌∷◌,
  arith, ◌==◌, leb, Bool-cases, Option-cases, inl, inr, if◌then◌else◌, update, ap, subst, ◌∙◌, sym,
}
use so_tpe.State.{
  is_ready, Process, Slot, Kernel, max_processes, num_priorities, idle_pid, mm_alloc,
  mm_alloc_cases, is_pipe_fd, list_append,
}
use so_tpe.Scheduler.Peers.{Peers}
use so_tpe.Scheduler.Table.{QueueId, ready_queue, blocked, put_slot, read_queue, write_queue}
use so_tpe.Scheduler.Lifecycle.{
  open_descriptors, fill_process, with_argv, with_name, with_stack, with_process, with_block,
  init_process, enlist, count_in, create_process, read_mode, write_mode, next_unused,
}
use so_tpe.Scheduler.Wf.{IsWf, count}
use so_tpe.Scheduler.Wf.Moves.{
  PeerLaws, frame, free_process-IsWf, place-IsConsistent, read_queue-eq,
}
use so_tpe.Scheduler.Wf.Operations.{append-Places}

-- A consistent table in which the pid is not used.
pub record IsOpen (pid : ℕ) (k : Kernel) : Type 0 where
  pub wf : IsWf k
  pub unused : k.processes pid ≡ none

-- A process that is new: READY, with this pid and a priority that there is.
pub record IsNew (pid : ℕ) (p : Process) : Type 0 where
  pub own : p.pid ≡ pid
  pub low : p.priority < num_priorities
  pub ready : p.status ≡ is_ready

-- What a step of the creation leaves.
abbrev Made : ℕ → Option Process × Kernel → Type 0
Made pid (none, k) = IsOpen pid k
Made pid (some p, k) = IsOpen pid k × IsNew pid p

IsOpen-frame :
    (pid : ℕ) (k k' : Kernel)
    → k'.ready_queues ≡ k.ready_queues
    → k'.blocked_queue ≡ k.blocked_queue
    → k.next_block ≤ k'.next_block
    → k'.processes ≡ k.processes
    → IsOpen pid k
    → IsOpen pid k'
IsOpen-frame pid k k' eqr eqb le eqp o = record {
  wf = frame k k' _ _ eqr eqb le (λ r. ap (λ f. f r) eqp) o.wf;
  unused = ap (λ f. f pid) eqp ∙ o.unused;
}

-- An allocation in a consistent state is followed by one of two consistent states.
alloc_rule :
    (pid : ℕ) {R : Type 0} (f : Option ℕ × Kernel → R) (P : R → Type 0) (k : Kernel)
    → IsOpen pid k
    → ((k' : Kernel) → IsOpen pid k' → P (f (none, k')))
    → ((n : ℕ) (k' : Kernel) → IsOpen pid k' → P (f (some n, k')))
    → P (f (mm_alloc k))
alloc_rule pid f P k o fails works = elim (mm_alloc_cases k) [
  | inl (gs, e) ↦
      subst (λ r. P (f r)) (sym e) (fails _ (IsOpen-frame pid k _ refl refl (omega arith) refl o))
  | inr (gs, e) ↦
      subst (λ r. P (f r)) (sym e) (works _ _ (IsOpen-frame pid k _ refl refl (omega arith) refl o))
]

abbrev Result : Type 0
Result = Option Process × Kernel

-- The opening of a pipe gives no pid away.
pub record OpenLaws (peers : Peers) : Type 0 where
  pub pipe_open-unused :
      (pid fd mode : ℕ) (k : Kernel) (i : ℕ)
      → k.processes i ≡ none
      → (peers.pipe_open pid fd mode k).processes i ≡ none

module _ (peers : Peers) (laws : PeerLaws peers) (opens : OpenLaws peers) where
  open_descriptors-IsOpen :
      (pid mode : ℕ) (fds : List ℕ) (k : Kernel)
      → IsOpen pid k
      → IsOpen pid (open_descriptors peers pid mode fds k)
  unfolding open_descriptors
  open_descriptors-IsOpen pid mode [] k o = o
  open_descriptors-IsOpen pid mode (fd ∷ fds) k o =
      open_descriptors-IsOpen pid write_mode fds
        (if is_pipe_fd fd then peers.pipe_open pid fd mode k else k) step
    where
      step : IsOpen pid (if is_pipe_fd fd then peers.pipe_open pid fd mode k else k)
      step = elim (Bool-cases (is_pipe_fd fd)) [
        | inl e ↦ rw e (record {
          wf = laws.pipe_open-IsWf pid fd mode k o.wf;
          unused = opens.pipe_open-unused pid fd mode k pid o.unused;
        })
        | inr e ↦ rw e o
      ]

  fill_process-Made :
      (pid parent priority : ℕ) (fds : List ℕ) (unkillable : Bool) (stack name argv : ℕ)
      (k : Kernel)
      → priority < num_priorities
      → IsOpen pid k
      → Made pid (fill_process peers pid parent priority fds unkillable stack name argv k)
  unfolding fill_process
  fill_process-Made pid parent priority fds unkillable stack name argv k low o = (
    open_descriptors-IsOpen pid read_mode fds k o,
    record { own = refl; low = low; ready = refl },
  )

  module _ (pid parent priority : ℕ) (fds : List ℕ) (unkillable has_args : Bool)
      (low : priority < num_priorities) where
    with_argv-Made :
        (stack name : ℕ) (k : Kernel)
        → IsOpen pid k
        → Made pid (with_argv peers pid parent priority fds unkillable stack name (mm_alloc k))
    with_argv-Made stack name k o =
        alloc_rule pid (with_argv peers pid parent priority fds unkillable stack name) (Made pid) k
          o (λ k' o'. unfold with_argv in IsOpen-frame pid k' _ refl refl (omega arith) refl o')
          (λ n k' o'.
            unfold with_argv in
            fill_process-Made pid parent priority fds unkillable stack name n k' low o')

    with_name-Made :
        (stack : ℕ) (k : Kernel)
        → IsOpen pid k
        → Made pid (with_name peers pid parent priority fds unkillable has_args stack (mm_alloc k))
    unfolding with_name with_argv
    with_name-Made stack k o =
        alloc_rule pid (with_name peers pid parent priority fds unkillable has_args stack)
          (Made pid) k o
          (λ k' o'. unfold with_name in IsOpen-frame pid k' _ refl refl (omega arith) refl o') named
      where
        named :
            (n : ℕ) (k' : Kernel)
            → IsOpen pid k'
            → Made pid
                (with_name peers pid parent priority fds unkillable has_args stack (some n, k'))
        named n k' o' = elim (Bool-cases has_args) [
          | inl e ↦ rw (e, with_name) (with_argv-Made stack n k' o')
          | inr e ↦
              rw (e, with_name)
                (fill_process-Made pid parent priority fds unkillable stack n 0 k' low o')
        ]

    init_process-Made :
        (k : Kernel)
        → IsOpen pid k
        → Made pid (init_process peers pid parent priority fds unkillable has_args k)
    unfolding init_process
    init_process-Made k o =
        alloc_rule pid (with_stack peers pid parent priority fds unkillable has_args) (Made pid) k o
          (λ k' o'. unfold with_stack in o')
          (λ n k' o'. unfold with_stack in with_name-Made n k' o')

  count_in-IsWf : (pid : ℕ) (out : Bool × Kernel) → IsWf out.1 → IsWf (count_in peers pid out).1
  unfolding count_in
  count_in-IsWf pid (false, k) w = w
  count_in-IsWf pid (true, k) w =
      elim (Option-cases (next_unused (max_processes + 1) k.processes k.next_unused_pid)) [
        | inl e ↦ rw (e, count_in) w
        | inr (n, e) ↦ rw (e, count_in) (frame _ _ _ _ refl refl (omega arith) (λ r. refl) w)
      ]

  module _ (block : ℕ) (p : Process) (k : Kernel) (gs : List Bool) (hp : p.pid < max_processes)
      (o : IsOpen p.pid k) (new : IsNew p.pid p) where
    abbrev n : ℕ
    n = k.next_block + 1

    abbrev k1 : Kernel
    k1 = record k { grants = gs; next_block = k.next_block + 1 }

    abbrev slot : Slot
    slot = record { node = k.next_block + 1; block = block; process = p }

    abbrev k2 : Kernel
    k2 = put_slot p.pid (some slot) k1

    abbrev k3 : Kernel
    k3 =
        write_queue (ready_queue p.priority)
          (list_append n p.pid (read_queue (ready_queue p.priority) k1)) k2

    read-k3 :
        (j : QueueId)
        → read_queue j k3
          ≡ read_queue j (
              write_queue
                (ready_queue p.priority)
                (list_append n p.pid (read_queue (ready_queue p.priority) k))
                k)
    unfolding read_queue write_queue
    read-k3 (ready_queue q) = refl
    read-k3 blocked = refl

    -- a new process other than the idle process
    queued-IsWf : p.pid ≢ 0 → IsWf k3
    unfolding write_queue
    queued-IsWf ne =
        frame k3 _ (update k.processes p.pid (some slot)) _ refl refl (omega arith) (λ r. refl)
          (place-IsConsistent list_append append-Places (ready_queue p.priority) p.pid n slot k
            k.processes o.wf o.unused ne (rw new.ready (ground arith)) refl (omega arith)
            (refl, hp, new.low) k3 (omega arith) read-k3)

    -- the idle process
    idle-IsWf : p.pid ≡ 0 → IsWf k2
    idle-IsWf z = record {
      counted = λ j a r.
          ap (count a r) (read_queue-eq j k k2 refl refl) ∙ o.wf.counted j a r ∙ ground arith;
      node_owner = λ x y s' r e f q.
          ground (arith, o.wf.node_owner x y s' r, o.wf.node_old x s', o.wf.node_old y r);
      node_old = λ x s' e. ground (arith, o.wf.node_old x s');
      pid_ok = λ x s' e. ground (arith, o.wf.pid_ok x s');
    }

  enlist-IsWf :
      (block : ℕ) (p : Process) (k : Kernel)
      → p.pid < max_processes
      → IsOpen p.pid k
      → IsNew p.pid p
      → IsWf (enlist peers block p (mm_alloc k)).1
  unfolding enlist
  enlist-IsWf block p k hp o new = elim (mm_alloc_cases k) [
    | inl (gs, e) ↦
        rw (e, enlist)
          (frame _ _ _ _ refl refl (omega arith) (λ r. refl)
            (free_process-IsWf peers laws p (record k { grants = gs })
              (frame _ _ _ _ refl refl (omega arith) (λ r. refl) o.wf)))
    | inr (gs, e) ↦
        rw (e, enlist)
          (elim (Bool-cases (p.pid == idle_pid)) [
            | inl z ↦ rw z (idle-IsWf block p k gs hp o new (ground arith))
            | inr z ↦ rw z (queued-IsWf block p k gs hp o new (ground arith))
          ])
  ]

  with_process-IsWf :
      (block pid : ℕ) (r : Option Process × Kernel)
      → pid < max_processes
      → Made pid r
      → IsWf (with_process peers block r).1
  unfolding with_process
  with_process-IsWf block pid (none, k) hp made =
      frame _ _ _ _ refl refl (omega arith) (λ r. refl) made.wf
  with_process-IsWf block pid (some p, k) hp made =
      count_in-IsWf p.pid (enlist peers block p (mm_alloc k)) (
        enlist-IsWf block p k (omega (arith, made.1.own))
          (subst (λ i. IsOpen i k) (sym made.1.own) made.0)
          (subst (λ i. IsNew i p) (sym made.1.own) made.1))

  -- `create_process` keeps the table and the queues consistent, whether it creates the process, runs
  -- out of memory at any of its allocations, or is refused, if the pid that it is about to give is in
  -- range and unused and the calls of the pipes keep the table, and that pid unused.
  pub create_process-IsWf :
      (priority : ℕ) (fds : List ℕ) (unkillable has_args : Bool) (k : Kernel)
      → k.next_unused_pid < max_processes
      → IsOpen k.next_unused_pid k
      → IsWf (create_process peers priority fds unkillable has_args k).1
  unfolding create_process with_block
  create_process-IsWf priority fds unkillable has_args k hp o =
      elim (Bool-cases (leb max_processes k.num_processes)) [
        | inl e ↦ rw (e, create_process) o.wf
        | inr e ↦
            rw (e, create_process)
              (elim (mm_alloc_cases k) [
                | inl (gs, a) ↦
                    rw (a, with_block) (frame _ _ _ _ refl refl (omega arith) (λ r. refl) o.wf)
                | inr (gs, a) ↦
                    rw (a, with_block)
                      (with_process-IsWf _ k.next_unused_pid _ hp (
                        init_process-Made k.next_unused_pid k.current_pid clamped fds unkillable
                          has_args (ground arith)
                          (record k { grants = gs; next_block = k.next_block + 1 })
                          (IsOpen-frame k.next_unused_pid k _ refl refl (omega arith) refl o)))
              ])
      ]
    where
      clamped : ℕ
      clamped = if leb num_priorities priority then num_priorities - 1 else priority
