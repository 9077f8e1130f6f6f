-- ===== src/Pipe/Wf.antt =====
-- The pipes keep the process table consistent: the laws that the scheduler asks of them.
use so_tpe.Common.{
  ℕ, zero, suc, ◌≡◌, refl, Bool, true, false, not, ◌&&◌, ◌||◌, some, List, [], ◌∷◌, arith, ap,
  subst, sym, length, ltb, ◌==◌, leb, Bool-cases, Option-cases, inl, inr, if◌then◌else◌,
}
use so_tpe.State.{Kernel, Pipe, is_ready, is_blocked, minus_one16, mm_alloc, mm_alloc_cases}
use so_tpe.Scheduler.Peers.{Peers}
use so_tpe.Scheduler.Wf.{IsWf}
use so_tpe.Scheduler.Wf.Moves.{PeerLaws, frame}
use so_tpe.Scheduler.Wf.Operations.{set_status-IsWf}
use so_tpe.Scheduler.Wf.Switches.{yield-IsWf}
use so_tpe.Pipe.Buffer.{pipe_size, eof_marker, buffer_position, Filled, fill}
use so_tpe.Pipe.Manager.{
  max_pipes, get_pipe_index_by_id, put_pipe, modify_pipe, create_pipe, wake, open_write, open_read,
  open_mode, open_new, open_at, pipe_open,
}
use so_tpe.Pipe.Transfer.{Transfer, wait, write_round, write_on, write_step, write_loop, write_at}
use so_tpe.Pipe.Close.{wake_peer, close_writer, close_reader, close_at, pipe_close, with_pipes}

-- A state that differs in the pipes and the freed blocks alone.
pub pipes-IsWf :
    (k k' : Kernel)
    → k'.ready_queues ≡ k.ready_queues
    → k'.blocked_queue ≡ k.blocked_queue
    → k'.next_block ≡ k.next_block
    → k'.processes ≡ k.processes
    → IsWf k
    → IsWf k'
pipes-IsWf k k' eqr eqb eqn eqp w = frame k k' _ _ eqr eqb (omega arith) (λ r. ap (λ f. f r) eqp) w

pub modify_pipe-IsWf :
    (i block : ℕ) (f : Pipe → Pipe) (k : Kernel) → IsWf k → IsWf (modify_pipe i block f k)
unfolding modify_pipe
modify_pipe-IsWf i block f k w = elim (Option-cases (k.pipes i)) [
  | inl e ↦ rw (e, modify_pipe) w
  | inr (p, e) ↦
      rw (e, modify_pipe)
        (elim (Bool-cases (p.block == block)) [
          | inl t ↦ rw t (pipes-IsWf k _ refl refl refl refl w)
          | inr t ↦ rw t w
        ])
]

-- A state chosen by a test.
pub if-IsWf : (b : Bool) (k k' : Kernel) → IsWf k → IsWf k' → IsWf (if b then k else k')
if-IsWf true k k' w w' = w
if-IsWf false k k' w w' = w'

-- The same for an operation that also answers.
pub if_pair-IsWf :
    {A : Type 0} (b : Bool) (r r' : A × Kernel)
    → IsWf r.1
    → IsWf r'.1
    → IsWf (if b then r else r').1
if_pair-IsWf true r r' w w' = w
if_pair-IsWf false r r' w w' = w'

module _ (peers : Peers) (laws : PeerLaws peers) where
  pub wake-IsWf : (i block peer : ℕ) (k : Kernel) → IsWf k → IsWf (wake peers i block peer k)
  unfolding wake
  wake-IsWf i block peer k w =
      modify_pipe-IsWf i block _ _ (set_status-IsWf peers laws peer is_ready k w)

  pub wait-IsWf : (i block pid : ℕ) (k : Kernel) → IsWf k → IsWf (wait peers i block pid k)
  unfolding wait
  wait-IsWf i block pid k w =
      yield-IsWf peers laws _
        (set_status-IsWf peers laws pid is_blocked _ (modify_pipe-IsWf i block _ k w))

  open_write-IsWf :
      (pid i : ℕ) (p : Pipe) (k : Kernel) → IsWf k → IsWf (open_write peers pid i p k).1
  unfolding open_write
  open_write-IsWf pid i p k w =
      if_pair-IsWf (not (p.input_pid == minus_one16) && not (p.input_pid == pid)) _ _ w (
        if-IsWf (not (p.output_pid == minus_one16) && p.is_blocking) _ _
          (wake-IsWf i p.block p.output_pid _ opened) opened)
    where
      opened : IsWf (modify_pipe i p.block (λ q. record q { input_pid = pid }) k)
      opened = modify_pipe-IsWf i p.block _ k w

  open_read-IsWf : (pid i : ℕ) (p : Pipe) (k : Kernel) → IsWf k → IsWf (open_read peers pid i p k).1
  unfolding open_read
  open_read-IsWf pid i p k w =
      if_pair-IsWf (not (p.output_pid == minus_one16) && not (p.output_pid == pid)) _ _ w (
        if-IsWf (not (p.input_pid == minus_one16) && p.is_blocking) _ _
          (wake-IsWf i p.block p.input_pid _ opened) opened)
    where
      opened : IsWf (modify_pipe i p.block (λ q. record q { output_pid = pid }) k)
      opened = modify_pipe-IsWf i p.block _ k w

  open_mode-IsWf :
      (pid i mode : ℕ) (p : Pipe) (k : Kernel) → IsWf k → IsWf (open_mode peers pid i mode p k).1
  unfolding open_mode
  open_mode-IsWf pid i mode p k w =
      if_pair-IsWf (mode == 1) _ _ (open_write-IsWf pid i p k w)
        (if_pair-IsWf (mode == 0) _ _ (open_read-IsWf pid i p k w) w)

  open_new-IsWf :
      (pid i mode : ℕ) (k : Kernel)
      → IsWf k
      → IsWf (open_new peers pid i mode (create_pipe (mm_alloc k))).1
  open_new-IsWf pid i mode k w = elim (mm_alloc_cases k) [
    | inl (gs, e) ↦
        subst (λ o. IsWf (open_new peers pid i mode (create_pipe o)).1) (sym e)
          (unfold open_new create_pipe in pipes-IsWf k _ refl refl refl refl w)
    | inr (gs, e) ↦
        subst (λ o. IsWf (open_new peers pid i mode (create_pipe o)).1) (sym e)
          (unfold open_new create_pipe in
            open_mode-IsWf pid i mode _ _ (frame k _ _ _ refl refl (omega arith) (λ r. refl) w))
  ]

  open_at-IsWf : (pid i mode : ℕ) (k : Kernel) → IsWf k → IsWf (open_at peers pid i mode k).1
  unfolding open_at
  open_at-IsWf pid i mode k w = elim (Option-cases (k.pipes i)) [
    | inl e ↦
        rw (e, open_at)
          (if_pair-IsWf (leb max_pipes k.qty_pipes) (false, k) _ w (open_new-IsWf pid i mode k w))
    | inr (p, e) ↦ rw (e, open_at) (open_mode-IsWf pid i mode p k w)
  ]

  -- `pipe_open` keeps the process table and the queues consistent, whatever it answers, if the pipes
  -- of a process that is discarded do.
  pub pipe_open-IsWf :
      (pid id mode : ℕ) (k : Kernel) → IsWf k → IsWf (pipe_open peers pid id mode k).1
  unfolding pipe_open
  pipe_open-IsWf pid id mode k w = elim (Option-cases (get_pipe_index_by_id id)) [
    | inl e ↦ rw (e, pipe_open) w
    | inr (i, e) ↦ rw (e, pipe_open) (open_at-IsWf pid i mode k w)
  ]

  write_round-IsWf :
      (i : ℕ) (p : Pipe) (f : Filled) (k : Kernel) → IsWf k → IsWf (write_round peers i p f k)
  unfolding write_round
  write_round-IsWf i p f k w =
      if-IsWf p.is_blocking _ _ (wake-IsWf i p.block p.output_pid _ stored) stored
    where
      stored : IsWf (put_pipe i (some f.pipe) k)
      stored = pipes-IsWf k _ refl refl refl refl w

  module _ (next : List ℕ → ℕ → Kernel → Transfer × Kernel)
      (keeps : (cs : List ℕ) (n : ℕ) (k : Kernel) → IsWf k → IsWf (next cs n k).1) where
    write_on-IsWf :
        (i block : ℕ) (cs : List ℕ) (n : ℕ) (k : Kernel)
        → IsWf k
        → IsWf (write_on peers next i block cs n k).1
    unfolding write_on
    write_on-IsWf i block cs n k w = elim (Option-cases (k.pipes i)) [
      | inl e ↦ rw (e, write_on) w
      | inr (q, e) ↦
          rw (e, write_on)
            (if_pair-IsWf (q.block == block) _ _
              (keeps (fill cs n q).rest (fill cs n q).written _
                (write_round-IsWf i q (fill cs n q) k w))
              w)
    ]

    write_step-IsWf :
        (pid i block : ℕ) (cs : List ℕ) (n : ℕ) (k : Kernel)
        → IsWf k
        → IsWf (write_step peers next pid i block cs n k).1
    unfolding write_step
    write_step-IsWf pid i block [] n k w = w
    write_step-IsWf pid i block (c ∷ cs) n k w = elim (Option-cases (k.pipes i)) [
      | inl e ↦ rw (e, write_step) w
      | inr (p, e) ↦
          rw (e, write_step)
            (if_pair-IsWf (not (p.block == block)) _ _ w (
              if_pair-IsWf (p.buffer (buffer_position p) == eof_marker) _ _ w (
                write_on-IsWf i block (c ∷ cs) n _
                  (if-IsWf (leb pipe_size p.current_size) _ _ (wait-IsWf i block pid k w) w))))
    ]

  write_loop-IsWf :
      (fuel pid i block : ℕ) (cs : List ℕ) (n : ℕ) (k : Kernel)
      → IsWf k
      → IsWf (write_loop peers fuel pid i block cs n k).1
  unfolding write_loop
  write_loop-IsWf zero pid i block cs n k w = w
  write_loop-IsWf (suc fuel) pid i block cs n k w =
      write_step-IsWf (write_loop peers fuel pid i block)
        (λ cs' n' k' w'. write_loop-IsWf fuel pid i block cs' n' k' w') pid i block cs n k w

  pub write_at-IsWf :
      (fuel pid i : ℕ) (cs : List ℕ) (k : Kernel) → IsWf k → IsWf (write_at peers fuel pid i cs k).1
  unfolding write_at
  write_at-IsWf fuel pid i cs k w = elim (Option-cases (k.pipes i)) [
    | inl e ↦ rw (e, write_at) w
    | inr (p, e) ↦
        rw (e, write_at)
          (if_pair-IsWf (not (p.input_pid == pid) || length cs == 0) _ _ w
            (write_loop-IsWf fuel pid i p.block cs 0 k w))
  ]

  wake_peer-IsWf :
      (i : ℕ) (p : Pipe) (peer : ℕ) (k : Kernel) → IsWf k → IsWf (wake_peer peers i p peer k)
  unfolding wake_peer
  wake_peer-IsWf i p peer k w =
      if-IsWf (p.is_blocking && not (peer == minus_one16)) _ _ (wake-IsWf i p.block peer k w) w

  close_writer-IsWf :
      (fuel pid i : ℕ) (p : Pipe) (k : Kernel) → IsWf k → IsWf (close_writer peers fuel pid i p k)
  unfolding close_writer
  close_writer-IsWf fuel pid i p k w = elim (Option-cases (marked.pipes i)) [
    | inl e ↦ rw (e, close_writer) kept
    | inr (q, e) ↦
        rw (e, close_writer)
          (if-IsWf (q.block == p.block) _ _ (wake_peer-IsWf i q q.output_pid marked kept) kept)
  ]
    where
      marked : Kernel
      marked =
          modify_pipe i p.block (λ q. record q { input_pid = minus_one16 })
            (write_at peers fuel pid i (eof_marker ∷ []) k).1

      kept : IsWf marked
      kept = modify_pipe-IsWf i p.block _ _ (write_at-IsWf fuel pid i (eof_marker ∷ []) k w)

  close_reader-IsWf : (i : ℕ) (p : Pipe) (k : Kernel) → IsWf k → IsWf (close_reader peers i p k)
  unfolding close_reader
  close_reader-IsWf i p k w =
      pipes-IsWf _ _ refl refl refl refl
        (wake_peer-IsWf i p p.input_pid _ (modify_pipe-IsWf i p.block _ k w))

  close_at-IsWf : (fuel pid i : ℕ) (k : Kernel) → IsWf k → IsWf (close_at peers fuel pid i k).1
  unfolding close_at
  close_at-IsWf fuel pid i k w = elim (Option-cases (k.pipes i)) [
    | inl e ↦ rw (e, close_at) w
    | inr (p, e) ↦
        rw (e, close_at)
          (if_pair-IsWf (ltb p.input_pid 32768 && pid == p.input_pid) _ _
            (close_writer-IsWf fuel pid i p k w)
            (if_pair-IsWf (ltb p.output_pid 32768 && pid == p.output_pid) _ _
              (close_reader-IsWf i p k w) w))
  ]

  -- `pipe_close` keeps the process table and the queues consistent, whatever it answers and
  -- however long its write of the end-of-file mark waits, if what runs meanwhile and the pipes of a
  -- process that is discarded do.
  pub pipe_close-IsWf :
      (fuel pid id : ℕ) (k : Kernel) → IsWf k → IsWf (pipe_close peers fuel pid id k).1
  unfolding pipe_close
  pipe_close-IsWf fuel pid id k w = elim (Option-cases (get_pipe_index_by_id id)) [
    | inl e ↦ rw (e, pipe_close) w
    | inr (i, e) ↦ rw (e, pipe_close) (close_at-IsWf fuel pid i k w)
  ]

  -- The pipes, over components that keep the table, keep it.
  pub with_pipes-PeerLaws : (fuel : ℕ) → PeerLaws (with_pipes peers fuel)
  with_pipes-PeerLaws fuel = record {
    pipe_close-IsWf = λ pid fd k w. pipe_close-IsWf fuel pid fd k w;
    pipe_open-IsWf = λ pid fd mode k w. pipe_open-IsWf pid fd mode k w;
    switch-IsWf = laws.switch-IsWf;
  }
