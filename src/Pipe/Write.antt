-- ===== src/Pipe/Write.antt =====
-- `pipe_write` where the pipe has room for all the bytes.
use so_tpe.Common.{
  ℕ, suc, ◌-◌, ◌≤◌, ◌≡◌, ◌≢◌, ap, ◌∙◌, true, false, not, ◌||◌, some, List, [], ◌∷◌, ◌++◌, arith,
  length, ◌==◌, leb,
}
use so_tpe.State.{Kernel, Pipe}
use so_tpe.Scheduler.Peers.{Peers}
use so_tpe.Pipe.Buffer.{pipe_size, eof_marker, buffer_position, Filled, fill}
use so_tpe.Pipe.Manager.{get_pipe_index_by_id, put_pipe}
use so_tpe.Pipe.Transfer.{
  moved, write_round, write_on, write_step, write_loop, write_at, pipe_write,
}
use so_tpe.Pipe.Fifo.{IsValid, IsPlain, Appended, SameEnds, fill-SameEnds, contents, fill-Appended}
use so_tpe.Pipe.RoundTrip.{drop_fits, contents-fill}

module _ (peers : Peers) (fuel pid i : ℕ) (c : ℕ) (cs : List ℕ) (p : Pipe) (k : Kernel)
    (here : k.pipes i ≡ some p) (v : IsValid p) (plain : IsPlain (c ∷ cs))
    (fits : length (c ∷ cs) ≤ pipe_size - p.current_size) (idle : p.is_blocking ≡ false)
    (no_mark : p.buffer (buffer_position p) ≢ eof_marker) where
  filled : Filled
  filled = fill (c ∷ cs) 0 p

  took : Appended (contents p) (c ∷ cs) (pipe_size - p.current_size) 0 (fill (c ∷ cs) 0 p)
  took = fill-Appended (c ∷ cs) 0 p v plain

  abbrev after : Kernel
  after = put_pipe i (some (fill (c ∷ cs) 0 p).pipe) k

  round : write_round peers i p (fill (c ∷ cs) 0 p) k ≡ after
  unfolding write_round
  round = rw idle

  rest_empty : (fill (c ∷ cs) 0 p).rest ≡ []
  rest_empty = took.rest ∙ drop_fits (pipe_size - p.current_size) (c ∷ cs) fits

  all_written : (fill (c ∷ cs) 0 p).written ≡ length (c ∷ cs)
  all_written =
      omega (arith, took.count, ap length (drop_fits (pipe_size - p.current_size) (c ∷ cs) fits))

  second_round :
      write_step peers
        (write_loop peers fuel pid i p.block)
        pid
        i
        p.block
        (fill (c ∷ cs) 0 p).rest
        (fill (c ∷ cs) 0 p).written
        after
      ≡ (moved (length (c ∷ cs)), after)
  unfolding write_step
  second_round = rw (rest_empty, all_written)

  on_moves :
      write_on peers (write_loop peers (suc fuel) pid i p.block) i p.block (c ∷ cs) 0 k
      ≡ (moved (length (c ∷ cs)), after)
  unfolding write_on write_loop
  on_moves =
      let same : (p.block == p.block) ≡ true = ground arith in
      rw (here, write_on)
        (rw same (
          ap
            (write_step peers (write_loop peers fuel pid i p.block) pid i p.block
              (fill (c ∷ cs) 0 p).rest (fill (c ∷ cs) 0 p).written)
            round
          ∙ second_round))

  loop_moves :
      write_loop peers (suc (suc fuel)) pid i p.block (c ∷ cs) 0 k
      ≡ (moved (length (c ∷ cs)), after)
  unfolding write_loop write_step
  loop_moves =
      let same : (p.block == p.block) ≡ true = ground arith in
      let unmarked : (p.buffer (buffer_position p) == eof_marker) ≡ false = ground arith in
      let room : leb pipe_size p.current_size ≡ false = ground arith in
      rw (here, write_step) (rw (same, unmarked, room) on_moves)

-- A write of bytes that the pipe has room for, none of them an end-of-file mark, by the process
-- that has the pipe open for writing, while nobody waits at the pipe and the place of the next byte
-- holds no mark: `pipe_write` returns their number at once, without blocking, appends them to the
-- pipe's contents in order, leaves the ends of the pipe as they are, and changes nothing else of the
-- kernel.
pub pipe_write-fits :
    (peers : Peers) (fuel pid id i : ℕ) (c : ℕ) (cs : List ℕ) (p : Pipe) (k : Kernel)
    → get_pipe_index_by_id id ≡ some i
    → k.pipes i ≡ some p
    → p.input_pid ≡ pid
    → IsValid p
    → IsPlain (c ∷ cs)
    → length (c ∷ cs) ≤ pipe_size - p.current_size
    → p.is_blocking ≡ false
    → p.buffer (buffer_position p) ≢ eof_marker
    → (q : Pipe) × (pipe_write peers (suc (suc fuel)) pid id (c ∷ cs) k
        ≡ (moved (length (c ∷ cs)), put_pipe i (some q) k))
      × (contents q ≡ contents p ++ (c ∷ cs))
      × IsValid q
      × SameEnds p q
unfolding pipe_write write_at
pipe_write-fits peers fuel pid id i c cs p k at here writer v plain fits idle no_mark = (
  (fill (c ∷ cs) 0 p).pipe,
  rw (at, pipe_write)
      (rw (here, write_at)
        (rw allowed (loop_moves peers fuel pid i c cs p k here v plain fits idle no_mark))),
  contents-fill (c ∷ cs) p v plain fits,
  (fill-Appended (c ∷ cs) 0 p v plain).valid,
  fill-SameEnds (c ∷ cs) 0 p,
)
  where
    allowed : (not (p.input_pid == pid) || length (c ∷ cs) == 0) ≡ false
    allowed = ground arith
