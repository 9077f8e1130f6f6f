-- ===== src/Pipe/Transfer.antt =====
-- `pipe_write` and `pipe_read` of pipes/pipe.c, with what a blocked caller waits for.
use so_tpe.Common.{
  ℕ, zero, suc, ◌-◌, true, not, ◌&&◌, ◌||◌, none, some, List, [], ◌∷◌, ◌++◌, leb, ◌==◌,
  if◌then◌else◌, length,
}
use so_tpe.State.{Kernel, Pipe, is_blocked, minus_one16}
use so_tpe.Scheduler.Peers.{Peers}
use so_tpe.Scheduler.Table.{set_status}
use so_tpe.Scheduler.Dispatch.{yield}
use so_tpe.Pipe.Buffer.{
  pipe_size, eof_marker, buffer_position, Filled, fill, Drained, drain, has_data,
}
use so_tpe.Pipe.Manager.{get_pipe_index_by_id, put_pipe, modify_pipe, wake}

-- -1, a number of bytes, a read through a pointer to a freed pipe, or fuel that ran out
pub data Transfer : Type 0 where
  failed : Transfer
  moved : ℕ → Transfer
  stale : Transfer
  out_of_fuel : Transfer

module _ (peers : Peers) where
  -- the caller waits: `isBlocking = 1; set_status(pid, BLOCKED); yield()`
  unfoldable pub wait : ℕ → ℕ → ℕ → Kernel → Kernel
  wait i block pid k =
      yield peers
        (set_status peers pid is_blocked
          (modify_pipe i block (λ p. record p { is_blocking = true }) k)).1

  -- a round of `pipe_write` behind its wait, on the pipe `p` of entry `i`
  unfoldable pub write_round : ℕ → Pipe → Filled → Kernel → Kernel
  write_round i p f k =
      let k' = put_pipe i (some f.pipe) k in
      if p.is_blocking then wake peers i p.block p.output_pid k' else k'

  -- the rest of `pipe_write` once the caller has waited, if it had to
  unfoldable pub write_on :
      (List ℕ → ℕ → Kernel → Transfer × Kernel) → ℕ → ℕ → List ℕ → ℕ → Kernel → Transfer × Kernel
  write_on next i block cs n k = elim (k.pipes i) [
    | none ↦ (failed, k)
    | some q ↦
        if q.block == block
        then (let f = fill cs n q in next f.rest f.written (write_round i q f k))
        else (failed, k)
  ]

  unfoldable pub write_step :
      (List ℕ → ℕ → Kernel → Transfer × Kernel)
      → ℕ
      → ℕ
      → ℕ
      → List ℕ
      → ℕ
      → Kernel
      → Transfer × Kernel
  write_step next pid i block [] n k = (moved n, k)
  write_step next pid i block (c ∷ cs) n k = elim (k.pipes i) [
    | none ↦ (stale, k)
    | some p ↦
        if not (p.block == block)
        then (stale, k)
        else if p.buffer (buffer_position p) == eof_marker
        then (moved n, k)
        else write_on next i block (c ∷ cs) n
            (if leb pipe_size p.current_size then wait i block pid k else k)
  ]

  -- the outer loop of `pipe_write`, for the pipe in `block` at entry `i`
  unfoldable pub write_loop : ℕ → ℕ → ℕ → ℕ → List ℕ → ℕ → Kernel → Transfer × Kernel
  write_loop zero pid i block cs n k = (out_of_fuel, k)
  write_loop (suc fuel) pid i block cs n k =
      write_step (write_loop fuel pid i block) pid i block cs n k

  unfoldable pub write_at : ℕ → ℕ → ℕ → List ℕ → Kernel → Transfer × Kernel
  write_at fuel pid i cs k = elim (k.pipes i) [
    | none ↦ (failed, k)
    | some p ↦
        if not (p.input_pid == pid) || length cs == 0
        then (failed, k)
        else write_loop fuel pid i p.block cs 0 k
  ]

  unfoldable pub pipe_write : ℕ → ℕ → ℕ → List ℕ → Kernel → Transfer × Kernel
  pipe_write fuel pid id cs k = elim (get_pipe_index_by_id id) [
    | none ↦ (failed, k)
    | some i ↦ write_at fuel pid i cs k
  ]

  -- what `pipe_read` gives its caller
  abbrev pub Read : Type 0
  Read = Transfer × List ℕ × Kernel

  -- `while (inputPid == -1 && currentSize == 0 && buffer[startPosition] != EOF_MARKER)`
  unfoldable pub await_writer : ℕ → ℕ → ℕ → Kernel → Transfer × Kernel
  await_writer zero i block k = (out_of_fuel, k)
  await_writer (suc fuel) i block k =
      let waited = wait i block k.current_pid k in
      let rest = await_writer fuel i block waited in
      elim (k.pipes i) [
        | none ↦ (failed, k)
        | some p ↦
            if not (p.block == block)
            then (failed, k)
            else if p.input_pid == minus_one16 && not (has_data p)
            then rest
            else (moved 0, k)
      ]

  -- a round of `pipe_read` behind its wait: the pipe that `drain` left, and the writer woken
  unfoldable pub read_round : ℕ → Pipe → Drained → Kernel → Kernel
  read_round i p d k =
      let k' = put_pipe i (some d.pipe) k in
      if p.is_blocking then wake peers i p.block p.input_pid k' else k'

  unfoldable pub read_on : (ℕ → List ℕ → Kernel → Read) → ℕ → ℕ → ℕ → List ℕ → Kernel → Read
  read_on next i block n got k = elim (k.pipes i) [
    | none ↦ (stale, got, k)
    | some q ↦
        if not (q.block == block)
        then (stale, got, k)
        else (let d = drain n q in
            let k' = read_round i q d k in
            if d.eof_read
            then (moved (length (got ++ d.bytes)), got ++ d.bytes, k')
            else next (n - length d.bytes) (got ++ d.bytes) k')
  ]

  unfoldable pub read_step : (ℕ → List ℕ → Kernel → Read) → ℕ → ℕ → ℕ → List ℕ → Kernel → Read
  read_step next i block zero got k = (moved (length got), got, k)
  read_step next i block (suc n) got k = elim (k.pipes i) [
    | none ↦ (stale, got, k)
    | some p ↦
        if not (p.block == block)
        then (stale, got, k)
        else read_on next i block (suc n) got
            (if has_data p then k else wait i block k.current_pid k)
  ]

  -- the outer loop of `pipe_read`, with the bytes still wanted and those that were read
  unfoldable pub read_loop : ℕ → ℕ → ℕ → ℕ → List ℕ → Kernel → Read
  read_loop zero i block n got k = (out_of_fuel, got, k)
  read_loop (suc fuel) i block n got k = read_step (read_loop fuel i block) i block n got k

  unfoldable pub read_after : ℕ → ℕ → ℕ → ℕ → Transfer × Kernel → Read
  read_after fuel i block n (moved m, k) = read_loop fuel i block n [] k
  read_after fuel i block n (failed, k) = (failed, [], k)
  read_after fuel i block n (stale, k) = (stale, [], k)
  read_after fuel i block n (out_of_fuel, k) = (out_of_fuel, [], k)

  unfoldable pub read_at : ℕ → ℕ → ℕ → Kernel → Read
  read_at fuel i n k = elim (k.pipes i) [
    | none ↦ (failed, [], k)
    | some p ↦
        if not (p.output_pid == k.current_pid) || n == 0
        then (failed, [], k)
        else read_after fuel i p.block n (await_writer fuel i p.block k)
  ]

  unfoldable pub pipe_read : ℕ → ℕ → ℕ → Kernel → Read
  pipe_read fuel id n k = elim (get_pipe_index_by_id id) [
    | none ↦ (failed, [], k)
    | some i ↦ read_at fuel i n k
  ]
