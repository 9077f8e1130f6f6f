-- ===== src/Scheduler/Wf/Moves.antt =====
-- Allocation, freeing, and the moves of a process between queues keep the table consistent.
use so_tpe.Common.{
  ℕ, ◌+◌, ◌≤◌, ◌<◌, ◌≡◌, refl, ◌≢◌, Bool, true, false, ◌&&◌, none, some, List, [], ◌∷◌, arith, ◌==◌,
  Bool-cases, inl, inr, if◌then◌else◌, update, ap, ◌⊎◌, ◌∙◌, sym,
}
use so_tpe.State.{
  Queue, Process, Slot, Kernel, max_processes, num_priorities, is_pipe_fd, mm_alloc_cases,
}
use so_tpe.Scheduler.Peers.{Peers}
use so_tpe.Scheduler.Table.{
  QueueId, ready_queue, blocked, read_queue, write_queue, unlink, put_slot, close_descriptors,
  free_process, discard, link, link_block, move_to,
}
use so_tpe.Scheduler.Wf.{
  Table, IsConsistent, IsWf, count, expected, belongs, same, same→eq, read-write, belongs_once,
  unlink-IsConsistent, processes-unlink,
}

-- What the other components keep of the table.
pub record PeerLaws (peers : Peers) : Type 0 where
  pub pipe_close-IsWf : (pid fd : ℕ) (k : Kernel) → IsWf k → IsWf (peers.pipe_close pid fd k)
  pub pipe_open-IsWf :
      (pid fd mode : ℕ) (k : Kernel) → IsWf k → IsWf (peers.pipe_open pid fd mode k)
  pub switch-IsWf : (k : Kernel) → IsWf k → IsWf (peers.switch k)

pub read_queue-eq :
    (j : QueueId) (k k' : Kernel)
    → k'.ready_queues ≡ k.ready_queues
    → k'.blocked_queue ≡ k.blocked_queue
    → read_queue j k' ≡ read_queue j k
unfolding read_queue
read_queue-eq (ready_queue p) k k' eqr eqb = ap (λ f. f p) eqr
read_queue-eq blocked k k' eqr eqb = eqb

expected-eq :
    (j : QueueId) (a r : ℕ) (t t' : Table) → t' r ≡ t r → expected j a r t' ≡ expected j a r t
expected-eq j a r t t' e = ground arith

-- Consistency speaks of the queues, of the blocks handed out and of the table alone.
pub frame :
    (k k' : Kernel) (t t' : Table)
    → k'.ready_queues ≡ k.ready_queues
    → k'.blocked_queue ≡ k.blocked_queue
    → k.next_block ≤ k'.next_block
    → ((r : ℕ) → t' r ≡ t r)
    → IsConsistent k t
    → IsConsistent k' t'
frame k k' t t' eqr eqb le same_t c = record {
  counted = λ j a r.
      ap (count a r) (read_queue-eq j k k' eqr eqb)
      ∙ c.counted j a r
      ∙ sym (expected-eq j a r t t' (same_t r));
  node_owner = λ x y s r p q e. c.node_owner x y s r (sym (same_t x) ∙ p) (sym (same_t y) ∙ q) e;
  node_old = λ x s p. omega (arith, c.node_old x s (sym (same_t x) ∙ p));
  pid_ok = λ x s p. c.pid_ok x s (sym (same_t x) ∙ p);
}

module _ (peers : Peers) (laws : PeerLaws peers) where
  close_descriptors-IsWf :
      (pid : ℕ) (fds : List ℕ) (k : Kernel) → IsWf k → IsWf (close_descriptors peers pid fds k)
  unfolding close_descriptors
  close_descriptors-IsWf pid [] k w = w
  close_descriptors-IsWf pid (fd ∷ fds) k w = close_descriptors-IsWf pid fds _ step
    where
      step : IsWf (if is_pipe_fd fd then peers.pipe_close pid fd k else k)
      step = elim (Bool-cases (is_pipe_fd fd)) [
        | inl e ↦ rw e (laws.pipe_close-IsWf pid fd k w)
        | inr e ↦ rw e w
      ]

  pub free_process-IsWf : (p : Process) (k : Kernel) → IsWf k → IsWf (free_process peers p k)
  unfolding free_process
  free_process-IsWf p k w =
      frame _ _ _ _ refl refl (omega arith) (λ r. refl)
        (close_descriptors-IsWf p.pid p.file_descriptors k w)

  -- A process that stands in no queue any more is discarded.
  pub discard-IsWf :
      (pid : ℕ) (s : Slot) (k : Kernel)
      → IsConsistent k (update k.processes pid none)
      → IsWf (discard peers pid s k)
  unfolding discard
  discard-IsWf pid s k c =
      frame _ _ _ _ refl refl (omega arith) (λ r. refl)
        (free_process-IsWf s.process _ (frame _ _ _ _ refl refl (omega arith) (λ r. refl) c))

-- The queue operation puts one new node in, and leaves all others.
abbrev pub Places : (ℕ → ℕ → Queue → Queue) → Type 0
Places place =
    (a r n pid : ℕ) (q : Queue)
    → count a r (place n pid q) ≡ count a r q + (if n == a && r == pid then 1 else 0)

processes-write :
    (i : QueueId) (q : Queue) (k : Kernel) → (write_queue i q k).processes ≡ k.processes
unfolding write_queue
processes-write (ready_queue p) q k = refl
processes-write blocked q k = refl

next_block-write :
    (i : QueueId) (q : Queue) (k : Kernel) → (write_queue i q k).next_block ≡ k.next_block
unfolding write_queue
next_block-write (ready_queue p) q k = refl
next_block-write blocked q k = refl

module _ (place : ℕ → ℕ → Queue → Queue) (places : Places place) (i : QueueId) (pid n : ℕ)
    (s : Slot) (k : Kernel) (t : Table) (c : IsConsistent k t) (gone : t pid ≡ none) (ne : pid ≢ 0)
    (b : belongs i s.process ≡ true) (new : s.node ≡ n) where
  count-place :
      (j : QueueId) (a r : ℕ)
      → count a r (read_queue j (write_queue i (place n pid (read_queue i k)) k))
        ≡ expected j a r (update t pid (some s))
  count-place j a r = rw read-write (elim (Bool-cases (same i j)) [
    | inl e ↦
        rw e (places a r n pid (read_queue i k) ∙ ground (arith, c.counted i a r, same→eq i j e))
    | inr e ↦ rw e (c.counted j a r ∙ ground (arith, belongs_once i j s.process b e))
  ])

  pub place-IsConsistent :
      k.next_block < n
      → (s.process.pid ≡ pid) × (pid < max_processes) × (s.process.priority < num_priorities)
      → (k' : Kernel) → n ≤ k'.next_block
      → ((j : QueueId)
          → read_queue j k' ≡ read_queue j (write_queue i (place n pid (read_queue i k)) k))
      → IsConsistent k' (update t pid (some s))
  place-IsConsistent fresh fine k' old eq = record {
    counted = λ j a r. ap (count a r) (eq j) ∙ count-place j a r;
    node_owner =
        λ x y s' r p q e. ground (arith, c.node_owner x y s' r, c.node_old x s', c.node_old y r);
    node_old = λ x s' p. ground (arith, c.node_old x s');
    pid_ok = λ x s' p. ground (arith, c.pid_ok x s');
  }

-- The state after a node of the next block went into the queue `i`.
abbrev linked : (ℕ → ℕ → Queue → Queue) → QueueId → ℕ → Slot → List Bool → Kernel → Kernel
linked place i pid s gs k =
    let k' = record k { grants = gs; next_block = k.next_block + 1 } in
    put_slot pid (some (record s { node = k.next_block + 1 }))
      (write_queue i (place (k.next_block + 1) pid (read_queue i k')) k')

read-linked :
    (place : ℕ → ℕ → Queue → Queue) (i : QueueId) (pid : ℕ) (s : Slot) (gs : List Bool) (k : Kernel)
    (j : QueueId)
    → read_queue j (linked place i pid s gs k)
      ≡ read_queue j (write_queue i (place (k.next_block + 1) pid (read_queue i k)) k)
unfolding read_queue write_queue
read-linked place (ready_queue a) pid s gs k (ready_queue b) = refl
read-linked place blocked pid s gs k blocked = refl
read-linked place (ready_queue a) pid s gs k blocked = refl
read-linked place blocked pid s gs k (ready_queue b) = refl

-- `link` discards the process, or puts its new node in.
pub link_cases :
    (peers : Peers) (place : ℕ → ℕ → Queue → Queue) (i : QueueId) (pid : ℕ) (s : Slot) (k : Kernel)
    → ((gs : List Bool) × (link peers place i pid s k
          ≡ (false, discard peers pid s (record k { grants = gs }))))
      ⊎ ((gs : List Bool) × (link peers place i pid s k ≡ (true, linked place i pid s gs k)))
unfolding link link_block
link_cases peers place i pid s k = elim (mm_alloc_cases k) [
  | inl (gs, e) ↦ inl (gs, ap (link_block peers place i pid s) e)
  | inr (gs, e) ↦ inr (gs, ap (link_block peers place i pid s) e)
]

module _ (peers : Peers) (laws : PeerLaws peers) (place : ℕ → ℕ → Queue → Queue)
    (places : Places place) (pid : ℕ) (s : Slot) (ne : pid ≢ 0) where
  linked-IsWf :
      (i : QueueId) (k : Kernel) (gs : List Bool)
      → belongs i s.process ≡ true
      → (s.process.pid ≡ pid) × (pid < max_processes) × (s.process.priority < num_priorities)
      → IsConsistent k (update k.processes pid none)
      → IsWf (linked place i pid s gs k)
  linked-IsWf i k gs b fine c =
      let n = k.next_block + 1 in
      let s' : Slot = record s { node = n } in
      frame (linked place i pid s gs k) _ (update (update k.processes pid none) pid (some s')) _
        refl refl (omega arith) (λ r. rw processes-write (ground arith))
        (place-IsConsistent place places i pid n s' k (update k.processes pid none) c (ground arith)
          ne b refl (omega arith) fine (linked place i pid s gs k)
          (rw next_block-write (omega arith)) (read-linked place i pid s gs k))

  -- A process that stands in no queue gets a node in the one that its contents ask for, or goes.
  pub link-IsWf :
      (i : QueueId) (k : Kernel)
      → belongs i s.process ≡ true
      → (s.process.pid ≡ pid) × (pid < max_processes) × (s.process.priority < num_priorities)
      → IsConsistent k (update k.processes pid none)
      → IsWf (link peers place i pid s k).1
  link-IsWf i k b fine c = elim (link_cases peers place i pid s k) [
    | inl (gs, e) ↦ rw e (
        discard-IsWf peers laws pid s (record k { grants = gs })
          (frame _ _ _ _ refl refl (omega arith) (λ r. refl) c))
    | inr (gs, e) ↦ rw e (linked-IsWf i k gs b fine c)
  ]

-- A runnable or blocked process that goes from its queue to the one that its new contents ask for.
pub move_to-IsWf :
    (peers : Peers) (laws : PeerLaws peers) (place : ℕ → ℕ → Queue → Queue) (places : Places place)
    (from to : QueueId) (pid : ℕ) (s : Slot) (p : Process) (k : Kernel)
    → IsWf k
    → k.processes pid ≡ some s
    → pid ≢ 0
    → belongs from s.process ≡ true
    → belongs to p ≡ true
    → p.pid ≡ s.process.pid
    → p.priority < num_priorities
    → IsWf (move_to peers place from to pid s p k).1
unfolding move_to
move_to-IsWf peers laws place places from to pid s p k w here ne bf bt own low =
    link-IsWf peers laws place places pid (record s { process = p }) ne to (unlink from s.node k) bt
      (ground (arith, w.pid_ok pid s here))
      (frame _ _ _ _ refl refl (omega arith)
        (λ r. ap (λ f. update f pid none r) (processes-unlink from s.node k))
        (unlink-IsConsistent from pid s k k.processes w here ne bf))
