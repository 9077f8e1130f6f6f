-- ===== src/Scheduler/Wf/Gone.antt =====
-- What `discard`, of process.c and scheduler.c, leaves of a process, and `waitpid` of the child that it
-- collects.
use so_tpe.Common.{
  ℕ, ◌+◌, ◌≡◌, ◌≢◌, refl, ap, subst, ◌∙◌, true, false, none, some, List, [], ◌∷◌, arith, ◌==◌,
  if◌then◌else◌, u16, Option-cases, inl, inr,
}
use so_tpe.State.{Slot, Process, Kernel, mm_free, is_pipe_fd}
use so_tpe.Scheduler.Peers.{Peers}
use so_tpe.Scheduler.Table.{discard, close_descriptors, free_process, put_slot}
use so_tpe.Scheduler.Dispatch.{modify_process}
use so_tpe.Scheduler.Exit.{collect, remove_child, child_node}

-- None of the descriptors is a pipe's.
abbrev pub NoPipes : List ℕ → Type 0
NoPipes [] = Unit
NoPipes (fd ∷ fds) = (is_pipe_fd fd ≡ false) × NoPipes fds

-- the freed blocks, with one more unless it is NULL
abbrev pub hand_back : ℕ → List ℕ → List ℕ
hand_back b bs = if b == 0 then bs else b ∷ bs

-- The process is out of the table and counted no more; its structure, its arguments, its name and its
-- stack are freed, and a node besides; the queues are as they were.
pub record Gone (pid node : ℕ) (s : Slot) (k k' : Kernel) : Type 0 where
  pub gone : k'.processes pid ≡ none
  pub fewer : k'.num_processes ≡ u16 (k.num_processes + 65535)
  pub freed :
      k'.freed
      ≡ hand_back s.block (
          hand_back s.process.argv
            (hand_back s.process.name (hand_back s.process.stack_base (hand_back node k.freed))))
  pub ready_queues : k'.ready_queues ≡ k.ready_queues
  pub blocked_queue : k'.blocked_queue ≡ k.blocked_queue

-- What an update of one process leaves alone.
record Kept (k k' : Kernel) : Type 0 where
  pub number : k'.num_processes ≡ k.num_processes
  pub freed : k'.freed ≡ k.freed
  pub ready_queues : k'.ready_queues ≡ k.ready_queues
  pub blocked_queue : k'.blocked_queue ≡ k.blocked_queue

modify_process-Kept :
    (pid : ℕ) (f : Process → Process) (k : Kernel) → Kept k (modify_process pid f k)
modify_process-Kept pid f k = elim (Option-cases (k.processes pid)) [
  | inl e ↦
      rw (e, modify_process)
        (record { number = refl; freed = refl; ready_queues = refl; blocked_queue = refl })
  | inr (s, e) ↦
      rw (e, modify_process)
        (record { number = refl; freed = refl; ready_queues = refl; blocked_queue = refl })
]

pub modify_process-other :
    (pid : ℕ) (f : Process → Process) (k : Kernel) (i : ℕ)
    → i ≢ pid
    → (modify_process pid f k).processes i ≡ k.processes i
modify_process-other pid f k i ne = elim (Option-cases (k.processes pid)) [
  | inl e ↦ rw (e, modify_process) refl
  | inr (s, e) ↦ let other : (i == pid) ≡ false = ground arith in rw (e, modify_process, other) refl
]

close_descriptors-NoPipes :
    (peers : Peers) (pid : ℕ) (fds : List ℕ) (k : Kernel)
    → NoPipes fds
    → close_descriptors peers pid fds k ≡ k
unfolding close_descriptors
close_descriptors-NoPipes peers pid [] k h = refl
close_descriptors-NoPipes peers pid (fd ∷ fds) k (h, hs) =
    rw h (close_descriptors-NoPipes peers pid fds k hs)

discard-Gone :
    (peers : Peers) (pid : ℕ) (s : Slot) (k : Kernel)
    → NoPipes s.process.file_descriptors
    → Gone pid 0 s k (discard peers pid s k)
unfolding discard free_process
discard-Gone peers pid s k plain =
    let k' : Kernel = record (put_slot pid none k) {
      num_processes = u16 (k.num_processes + 65535);
    } in
    let here : (pid == pid) ≡ true = ground arith in
    rw (close_descriptors-NoPipes peers s.process.pid s.process.file_descriptors k' plain) (record {
      gone = rw here refl;
      fewer = refl;
      freed = refl;
      ready_queues = refl;
      blocked_queue = refl;
    })

-- the node of the child among its parent's zombies, or NULL
abbrev pub zombie_node : ℕ → ℕ → Kernel → ℕ
zombie_node pid parent_pid k = elim (k.processes parent_pid) [
  | none ↦ 0
  | some parent ↦ child_node pid parent.process.zombie_children
]

module _ (peers : Peers) (pid parent_pid : ℕ) (s : Slot) (k : Kernel) (ne : pid ≢ parent_pid)
    (plain : NoPipes s.process.file_descriptors) where
  after-Gone :
      (node : ℕ) (k1 : Kernel)
      → Kept k (record k1 { freed = k.freed })
      → k1.freed ≡ hand_back node k.freed
      → Gone pid node s k
          (record (modify_process parent_pid
            (λ p. record p { waiting_for_pid = 0 })
            (discard peers pid s k1)) { foreground_pid = 0 })
  after-Gone node k1 kept freed =
      let d = discard-Gone peers pid s k1 plain in
      let f : Process → Process = λ p. record p { waiting_for_pid = 0 } in
      let m = modify_process-Kept parent_pid f (discard peers pid s k1) in
      record {
        gone = modify_process-other parent_pid f (discard peers pid s k1) pid ne ∙ d.gone;
        fewer = m.number ∙ d.fewer ∙ ap (λ n. u16 (n + 65535)) kept.number;
        freed =
            m.freed
            ∙ d.freed
            ∙ ap
                (λ l. hand_back s.block (
                  hand_back s.process.argv
                    (hand_back s.process.name (hand_back s.process.stack_base l))))
                freed;
        ready_queues = m.ready_queues ∙ d.ready_queues ∙ kept.ready_queues;
        blocked_queue = m.blocked_queue ∙ d.blocked_queue ∙ kept.blocked_queue;
      }

  freed-node : (n n' : ℕ) (k' : Kernel) → n ≡ n' → Gone pid n s k k' → Gone pid n' s k k'
  freed-node n n' k' e = subst (λ x. Gone pid x s k k') e

  pub collect-Gone :
      k.processes pid ≡ some s
      → Gone pid (zombie_node pid parent_pid k) s k (collect peers pid s.block parent_pid k).1
  unfolding collect
  collect-Gone at =
      let same : (s.block == s.block) ≡ true = ground arith in
      let g : Process → Process =
        λ p. record p { zombie_children = remove_child pid p.zombie_children } in
      elim (Option-cases (k.processes parent_pid)) [
        | inl e ↦
            let z : 0 ≡ zombie_node pid parent_pid k = rw (e, zombie_node) refl in
            rw (at, same, e, collect)
              (freed-node _ _ _ z (
                after-Gone 0 k
                  (record {
                    number = refl;
                    freed = refl;
                    ready_queues = refl;
                    blocked_queue = refl;
                  })
                  refl))
        | inr (parent, e) ↦
            let node = child_node pid parent.process.zombie_children in
            let kept = modify_process-Kept parent_pid g k in
            let z : node ≡ zombie_node pid parent_pid k = rw (e, zombie_node) refl in
            rw (at, same, e, collect)
              (freed-node _ _ _ z (
                after-Gone node (mm_free node (modify_process parent_pid g k))
                  (record {
                    number = kept.number;
                    freed = refl;
                    ready_queues = kept.ready_queues;
                    blocked_queue = kept.blocked_queue;
                  })
                  (ap (hand_back node) kept.freed)))
      ]
