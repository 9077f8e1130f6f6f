-- ===== src/Scheduler/Wf.antt =====
-- The consistency of the process table with the queues: what every operation of the scheduler
-- relies on when it unlinks a process's node from the queue that the status and the priority name.
pub mod Moves
pub mod Create
pub mod Operations
pub mod Switches
pub mod Choice
pub mod Gone
pub mod Waiting
pub mod Stranded
use so_tpe.Common.{
  ℕ, ◌+◌, ◌-◌, ◌≤◌, ◌<◌, ◌≡◌, refl, ◌≢◌, Bool, true, false, ◌&&◌, Option, none, some, List, [], ◌∷◌,
  ◌++◌, arith, ◌==◌, Bool-cases, Option-cases, inl, inr, ap, ◌∙◌, if◌then◌else◌, update,
}
use so_tpe.State.{
  is_runnable, is_status_blocked, Entry, Queue, Process, Slot, Kernel, max_processes,
  num_priorities, list_remove, list_append, list_prepend,
}
use so_tpe.Scheduler.Table.{QueueId, ready_queue, blocked, read_queue, write_queue, unlink}

abbrev pub Table : Type 0
Table = ℕ → Option Slot

-- how often a node of the block `a` for `pid` stands in a queue
abbrev pub count : ℕ → ℕ → Queue → ℕ
count a pid [] = 0
count a pid (e ∷ q) = (if e.node == a && e.pid == pid then 1 else 0) + count a pid q

-- whether the process belongs into the queue
abbrev pub belongs : QueueId → Process → Bool
belongs (ready_queue p) pr = is_runnable pr.status && pr.priority == p
belongs blocked pr = is_status_blocked pr.status

abbrev pub expected_slot : QueueId → ℕ → Option Slot → ℕ
expected_slot i a none = 0
expected_slot i a (some s) = if s.node == a && belongs i s.process then 1 else 0

-- the idle process stands in no queue
abbrev pub expected : QueueId → ℕ → ℕ → Table → ℕ
expected i a pid t = if pid == 0 then 0 else expected_slot i a (t pid)

-- The queues of `k` hold exactly one node for each runnable or blocked process of `t`, its own, in
-- the queue that its status and priority name, and nothing else.
pub record IsConsistent (k : Kernel) (t : Table) : Type 0 where
  pub counted : (i : QueueId) (a pid : ℕ) → count a pid (read_queue i k) ≡ expected i a pid t
  pub node_owner : (i j : ℕ) (s r : Slot) → t i ≡ some s → t j ≡ some r → s.node ≡ r.node → i ≡ j
  pub node_old : (i : ℕ) (s : Slot) → t i ≡ some s → s.node ≤ k.next_block
  pub pid_ok :
      (i : ℕ) (s : Slot)
      → t i ≡ some s
      → (s.process.pid ≡ i) × (i < max_processes) × (s.process.priority < num_priorities)

abbrev pub IsWf : Kernel → Type 0
IsWf k = IsConsistent k k.processes

pub count-append :
    (a pid n r : ℕ) (q : Queue)
    → count a pid (list_append n r q) ≡ count a pid q + (if n == a && r == pid then 1 else 0)
count-append a pid n r [] = ground arith
count-append a pid n r (e ∷ q) = ground (arith, count-append a pid n r q)

count_skip :
    (n r : ℕ) (e : Entry) (q : Queue) {c : ℕ}
    → (e.node == n) ≡ false
    → count n r (e ∷ q) ≡ c
    → count n r q ≡ c
count_skip n r e q other p = ground arith

-- To remove the node of a block that only one pid's nodes lie in removes exactly that node.
count-remove :
    (n pid a r : ℕ) (q : Queue)
    → ((r' : ℕ) → count n r' q ≡ (if r' == pid then 1 else 0))
    → count a r (list_remove n q) ≡ (if a == n then 0 else count a r q)
count-remove n pid a r [] h = ground arith
count-remove n pid a r (e ∷ q) h = elim (Bool-cases (e.node == n)) [
  | inl here ↦ ground (arith, h r, h e.pid, h pid)
  | inr other ↦ ground (arith, count-remove n pid a r q (λ r'. count_skip n r' e q other (h r')))
]

abbrev pub same : QueueId → QueueId → Bool
same (ready_queue p) (ready_queue q) = p == q
same blocked blocked = true
same _ _ = false

pub same→eq : (i j : QueueId) → same i j ≡ true → i ≡ j
same→eq (ready_queue p) (ready_queue q) h = ap ready_queue (ground arith)
same→eq blocked blocked h = refl
same→eq (ready_queue p) blocked h = cc
same→eq blocked (ready_queue q) h = cc

pub belongs_once :
    (i j : QueueId) (p : Process) → belongs i p ≡ true → same i j ≡ false → belongs j p ≡ false
belongs_once (ready_queue p) (ready_queue q) pr h d = ground arith
belongs_once blocked blocked pr h d = cc
belongs_once (ready_queue p) blocked pr h d = ground arith
belongs_once blocked (ready_queue q) pr h d = ground arith

pub read-write :
    (i j : QueueId) (q : Queue) (k : Kernel)
    → read_queue j (write_queue i q k) ≡ (if same i j then q else read_queue j k)
unfolding read_queue write_queue
read-write (ready_queue a) (ready_queue b) q k = ground arith
read-write blocked blocked q k = refl
read-write (ready_queue a) blocked q k = refl
read-write blocked (ready_queue b) q k = refl

read-unlink :
    (i j : QueueId) (n : ℕ) (k : Kernel)
    → read_queue j (unlink i n k)
      ≡ (if same i j then list_remove n (read_queue i k) else read_queue j k)
unfolding unlink read_queue write_queue
read-unlink (ready_queue a) (ready_queue b) n k = ground arith
read-unlink blocked blocked n k = refl
read-unlink (ready_queue a) blocked n k = refl
read-unlink blocked (ready_queue b) n k = refl

next_block-unlink : (i : QueueId) (n : ℕ) (k : Kernel) → (unlink i n k).next_block ≡ k.next_block
unfolding unlink write_queue
next_block-unlink (ready_queue p) n k = refl
next_block-unlink blocked n k = refl

pub processes-unlink : (i : QueueId) (n : ℕ) (k : Kernel) → (unlink i n k).processes ≡ k.processes
unfolding unlink write_queue
processes-unlink (ready_queue p) n k = refl
processes-unlink blocked n k = refl

module _ (i : QueueId) (pid : ℕ) (s : Slot) (k : Kernel) (t : Table) (c : IsConsistent k t)
    (here : t pid ≡ some s) (ne : pid ≢ 0) (b : belongs i s.process ≡ true) where
  -- Only the owner of a node has it in a queue.
  expected-own : (r : ℕ) → expected i s.node r t ≡ (if r == pid then 1 else 0)
  expected-own r = elim (Option-cases (t r)) [
    | inl e ↦ ground arith
    | inr (s', e) ↦ ground (arith, c.node_owner r pid s' s e here)
  ]

  expected-drop :
      (j : QueueId) (a r : ℕ)
      → (if same i j then (if a == s.node then 0 else expected j a r t) else expected j a r t)
        ≡ expected j a r (update t pid none)
  expected-drop j a r = elim (Bool-cases (same i j)) [
    | inl e ↦ ground (arith, same→eq i j e, expected-own r)
    | inr e ↦ ground (arith, belongs_once i j s.process b e)
  ]

  count-unlink :
      (j : QueueId) (a r : ℕ)
      → count a r (read_queue j (unlink i s.node k))
        ≡ (if same i j then (if a == s.node then 0 else expected j a r t) else expected j a r t)
  count-unlink j a r = rw read-unlink (elim (Bool-cases (same i j)) [
    | inl e ↦ rw e (
        count-remove s.node pid a r (read_queue i k) (λ r'. c.counted i s.node r' ∙ expected-own r')
        ∙ ground (arith, c.counted i a r, same→eq i j e))
    | inr e ↦ rw e (c.counted j a r)
  ])

  -- To unlink a process's node from its queue takes the process out of the table's view.
  pub unlink-IsConsistent : IsConsistent (unlink i s.node k) (update t pid none)
  unlink-IsConsistent = record {
    counted = λ j a r. count-unlink j a r ∙ expected-drop j a r;
    node_owner = λ x y s' r p q e. c.node_owner x y s' r (ground arith) (ground arith) e;
    node_old = λ x s' p. rw (next_block-unlink i s.node k) (c.node_old x s' (ground arith));
    pid_ok = λ x s' p. c.pid_ok x s' (ground arith);
  }
