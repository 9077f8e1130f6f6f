-- ===== src/Pipe/Close.antt =====
-- `pipe_close` of pipes/pipe.c, and the pipes as the scheduler sees them.
use so_tpe.Common.{
  ℕ, ◌+◌, Bool, true, false, not, ◌&&◌, none, some, [], ◌∷◌, ltb, ◌==◌, if◌then◌else◌, u16,
}
use so_tpe.State.{Kernel, Pipe, minus_one16, mm_free}
use so_tpe.Scheduler.Peers.{Peers}
use so_tpe.Pipe.Buffer.{eof_marker}
use so_tpe.Pipe.Manager.{get_pipe_index_by_id, put_pipe, modify_pipe, wake, pipe_open}
use so_tpe.Pipe.Transfer.{write_at}

module _ (peers : Peers) where
  -- the other end of the pipe is made READY, if it waits; what it is, `p` says
  unfoldable pub wake_peer : ℕ → Pipe → ℕ → Kernel → Kernel
  wake_peer i p peer k =
      if p.is_blocking && not (peer == minus_one16) then wake peers i p.block peer k else k

  -- the writer goes: an end-of-file mark, and the reader is woken
  unfoldable pub close_writer : ℕ → ℕ → ℕ → Pipe → Kernel → Kernel
  close_writer fuel pid i p k =
      let k' =
        modify_pipe i p.block (λ q. record q { input_pid = minus_one16 })
          (write_at peers fuel pid i (eof_marker ∷ []) k).1 in
      elim (k'.pipes i) [
        | none ↦ k'
        | some q ↦ if q.block == p.block then wake_peer i q q.output_pid k' else k'
      ]

  -- the reader goes: the writer is woken, and the pipe is freed
  unfoldable pub close_reader : ℕ → Pipe → Kernel → Kernel
  close_reader i p k =
      let k1 = modify_pipe i p.block (λ q. record q { output_pid = minus_one16 }) k in
      let k2 = mm_free p.block (wake_peer i p p.input_pid k1) in
      record (put_pipe i none k2) { qty_pipes = u16 (k2.qty_pipes + 65535) }

  -- `pid == x` for a uint16_t and an int16_t
  abbrev pub is_pid : ℕ → ℕ → Bool
  is_pid pid x = ltb x 32768 && pid == x

  unfoldable pub close_at : ℕ → ℕ → ℕ → Kernel → Bool × Kernel
  close_at fuel pid i k = elim (k.pipes i) [
    | none ↦ (false, k)
    | some p ↦
        if is_pid pid p.input_pid
        then (true, close_writer fuel pid i p k)
        else if is_pid pid p.output_pid
        then (true, close_reader i p k)
        else (false, k)
  ]

  -- false stands for -1, true for 0
  unfoldable pub pipe_close : ℕ → ℕ → ℕ → Kernel → Bool × Kernel
  pipe_close fuel pid id k = elim (get_pipe_index_by_id id) [
    | none ↦ (false, k)
    | some i ↦ close_at fuel pid i k
  ]

  -- the pipes as the scheduler calls them; `fuel` bounds the rounds of a blocked `pipe_write`
  abbrev pub with_pipes : ℕ → Peers
  with_pipes fuel = record {
    pipe_open = λ pid fd mode k. (pipe_open peers pid fd mode k).1;
    pipe_close = λ pid fd k. (pipe_close fuel pid fd k).1;
    switch = peers.switch;
    initialize_stack_frame = peers.initialize_stack_frame;
  }
