-- ===== src/Scheduler/Wf/Stranded.antt =====
-- `waitpid` of `Scheduler/Exit` where the caller goes on before the child has ended.
use so_tpe.Common.{ℕ, ◌≡◌, ◌≢◌, ap, subst, ◌∙◌, true, false, some, arith, leb, ◌==◌}
use so_tpe.State.{Slot, Kernel, max_processes, is_runnable}
use so_tpe.Scheduler.Peers.{Peers}
use so_tpe.Scheduler.Table.{QueueId, ready_queue, read_queue}
use so_tpe.Scheduler.Exit.{collect, waitpid}
use so_tpe.Scheduler.Wf.{IsWf, count}
use so_tpe.Scheduler.Wf.Moves.{PeerLaws}
use so_tpe.Scheduler.Wf.Gone.{NoPipes, Gone, zombie_node, collect-Gone}
use so_tpe.Scheduler.Wf.Waiting.{going_on, going_on-IsWf}

-- The process, which was in the slot `s`, is out of the table and freed, while its node is still in the
-- ready queue of its priority; the table and the queues are not consistent.
pub record Stranded (pid node : ℕ) (s : Slot) (k k' : Kernel) : Type 0 where
  pub gone : Gone pid node s k k'
  pub queued : count s.node pid (read_queue (ready_queue s.process.priority) k') ≡ 1
  pub broken : ¬ IsWf k'

Gone-Stranded :
    (pid node : ℕ) (s : Slot) (k k' : Kernel)
    → IsWf k
    → pid ≢ 0
    → k.processes pid ≡ some s
    → is_runnable s.process.status ≡ true
    → Gone pid node s k k'
    → Stranded pid node s k k'
unfolding read_queue
Gone-Stranded pid node s k k' w ne at runs d =
    let q : QueueId = ready_queue s.process.priority in
    let before = w.counted q s.node pid in
    let same : read_queue q k' ≡ read_queue q k = ap (λ f. f s.process.priority) d.ready_queues in
    let one : count s.node pid (read_queue q k) ≡ 1 = ground (arith, before, at, runs) in
    let still : count s.node pid (read_queue q k') ≡ 1 = ap (count s.node pid) same ∙ one in
    record {
      gone = d;
      queued = still;
      broken = λ w'.
          (let after = w'.counted q s.node pid in
            let nothing : count s.node pid (read_queue q k') ≡ 0 = ground (arith, after, d.gone) in
            absurd (ground (arith, nothing, still)));
    }

-- `waitpid` does not test that the child has ended when the caller goes on. If another process has
-- unblocked the caller while the child, whose descriptors are no pipes, was still runnable, `waitpid`
-- takes the child out of the table and frees its structure, its arguments, its name and its stack,
-- while its node stays in its ready queue; the table and the queues are not consistent then.
pub waitpid-not-IsWf :
    (peers : Peers) (laws : PeerLaws peers) (pid : ℕ) (child running : Slot) (k : Kernel)
    → IsWf k
    → k.processes pid ≡ some child
    → child.process.parent_pid ≡ k.current_pid
    → pid ≢ k.current_pid
    → (going_on peers laws pid child k).processes pid ≡ some running
    → running.block ≡ child.block
    → is_runnable running.process.status ≡ true
    → pid ≢ 0
    → NoPipes running.process.file_descriptors
    → let k' = going_on peers laws pid child k in
      Stranded pid (zombie_node pid k.current_pid k') running k' (waitpid peers pid k).1
unfolding waitpid
waitpid-not-IsWf peers laws pid child running k w at mine ne later block runs some_pid plain =
    let inside : leb max_processes pid ≡ false = ground (arith, w.pid_ok pid child at) in
    let own : (child.process.parent_pid == k.current_pid) ≡ true = ground (arith, mine) in
    let k' = going_on peers laws pid child k in
    let d = collect-Gone peers pid k.current_pid running k' ne plain later in
    let bad =
      Gone-Stranded pid (zombie_node pid k.current_pid k') running k' _
        (going_on-IsWf peers laws pid child k w) some_pid later runs d in
    rw (at, inside, own, waitpid)
      (subst
        (λ b.
          Stranded pid (zombie_node pid k.current_pid k') running k'
            (collect peers pid b k.current_pid k').1)
        block bad)
