-- ===== src/Pipe/ReadWf.antt =====
-- `pipe_read`, `pipe_write` and `pipe_get`, and the process table.
use so_tpe.Common.{
  ℕ, zero, suc, ◌+◌, refl, Bool, true, false, not, ◌&&◌, ◌||◌, some, List, [], arith, subst, sym,
  leb, ◌==◌, Option-cases, inl, inr, if◌then◌else◌,
}
use so_tpe.State.{Kernel, Pipe, minus_one16, mm_alloc, mm_alloc_cases}
use so_tpe.Scheduler.Peers.{Peers}
use so_tpe.Scheduler.Wf.{IsWf}
use so_tpe.Scheduler.Wf.Moves.{PeerLaws, frame}
use so_tpe.Pipe.Buffer.{Drained, drain, has_data}
use so_tpe.Pipe.Manager.{
  max_pipes, get_pipe_index_by_id, put_pipe, create_pipe, next_free_pipe, install, pipe_get,
}
use so_tpe.Pipe.Transfer.{
  Transfer, failed, moved, await_writer, read_round, read_on, read_step, read_loop, read_after,
  read_at, pipe_read, pipe_write,
}
use so_tpe.Pipe.Wf.{pipes-IsWf, if-IsWf, if_pair-IsWf, wake-IsWf, wait-IsWf, write_at-IsWf}

if_read-IsWf :
    (b : Bool) (r r' : Transfer × List ℕ × Kernel)
    → IsWf r.2
    → IsWf r'.2
    → IsWf (if b then r else r').2
if_read-IsWf true r r' w w' = w
if_read-IsWf false r r' w w' = w'

module _ (peers : Peers) (laws : PeerLaws peers) where
  await_writer-IsWf :
      (fuel i block : ℕ) (k : Kernel) → IsWf k → IsWf (await_writer peers fuel i block k).1
  unfolding await_writer
  await_writer-IsWf zero i block k w = w
  await_writer-IsWf (suc fuel) i block k w = elim (Option-cases (k.pipes i)) [
    | inl e ↦ rw (e, await_writer) w
    | inr (p, e) ↦
        rw (e, await_writer)
          (if_pair-IsWf (not (p.block == block)) _ _ w (
            if_pair-IsWf (p.input_pid == minus_one16 && not (has_data p)) _ _
              (await_writer-IsWf fuel i block _ (wait-IsWf peers laws i block k.current_pid k w))
              w))
  ]

  read_round-IsWf :
      (i : ℕ) (p : Pipe) (d : Drained) (k : Kernel) → IsWf k → IsWf (read_round peers i p d k)
  unfolding read_round
  read_round-IsWf i p d k w =
      if-IsWf p.is_blocking _ _ (wake-IsWf peers laws i p.block p.input_pid _ stored) stored
    where
      stored : IsWf (put_pipe i (some d.pipe) k)
      stored = pipes-IsWf k _ refl refl refl refl w

  module _ (next : ℕ → List ℕ → Kernel → Transfer × List ℕ × Kernel)
      (keeps : (n : ℕ) (got : List ℕ) (k : Kernel) → IsWf k → IsWf (next n got k).2) where
    read_on-IsWf :
        (i block n : ℕ) (got : List ℕ) (k : Kernel)
        → IsWf k
        → IsWf (read_on peers next i block n got k).2
    unfolding read_on
    read_on-IsWf i block n got k w = elim (Option-cases (k.pipes i)) [
      | inl e ↦ rw (e, read_on) w
      | inr (q, e) ↦
          let kept : IsWf (read_round peers i q (drain n q) k) =
            read_round-IsWf i q (drain n q) k w in
          rw (e, read_on)
            (if_read-IsWf (not (q.block == block)) _ _ w
              (if_read-IsWf (drain n q).eof_read _ _ kept (keeps _ _ _ kept)))
    ]

    read_step-IsWf :
        (i block n : ℕ) (got : List ℕ) (k : Kernel)
        → IsWf k
        → IsWf (read_step peers next i block n got k).2
    unfolding read_step
    read_step-IsWf i block zero got k w = w
    read_step-IsWf i block (suc n) got k w = elim (Option-cases (k.pipes i)) [
      | inl e ↦ rw (e, read_step) w
      | inr (p, e) ↦
          rw (e, read_step)
            (if_read-IsWf (not (p.block == block)) _ _ w (
              read_on-IsWf i block (suc n) got _
                (if-IsWf (has_data p) _ _ w (wait-IsWf peers laws i block k.current_pid k w))))
    ]

  read_loop-IsWf :
      (fuel i block n : ℕ) (got : List ℕ) (k : Kernel)
      → IsWf k
      → IsWf (read_loop peers fuel i block n got k).2
  unfolding read_loop
  read_loop-IsWf zero i block n got k w = w
  read_loop-IsWf (suc fuel) i block n got k w =
      read_step-IsWf (read_loop peers fuel i block)
        (λ n' got' k' w'. read_loop-IsWf fuel i block n' got' k' w') i block n got k w

  read_after-IsWf :
      (fuel i block n : ℕ) (r : Transfer × Kernel)
      → IsWf r.1
      → IsWf (read_after peers fuel i block n r).2
  unfolding read_after
  read_after-IsWf fuel i block n (moved m, k) w = read_loop-IsWf fuel i block n [] k w
  read_after-IsWf fuel i block n (failed, k) w = w
  read_after-IsWf fuel i block n (Transfer.stale, k) w = w
  read_after-IsWf fuel i block n (Transfer.out_of_fuel, k) w = w

  read_at-IsWf : (fuel i n : ℕ) (k : Kernel) → IsWf k → IsWf (read_at peers fuel i n k).2
  unfolding read_at
  read_at-IsWf fuel i n k w = elim (Option-cases (k.pipes i)) [
    | inl e ↦ rw (e, read_at) w
    | inr (p, e) ↦
        rw (e, read_at)
          (if_read-IsWf (not (p.output_pid == k.current_pid) || n == 0) _ _ w
            (read_after-IsWf fuel i p.block n _ (await_writer-IsWf fuel i p.block k w)))
  ]

  pub pipe_read-IsWf : (fuel id n : ℕ) (k : Kernel) → IsWf k → IsWf (pipe_read peers fuel id n k).2
  unfolding pipe_read
  pipe_read-IsWf fuel id n k w = elim (Option-cases (get_pipe_index_by_id id)) [
    | inl e ↦ rw (e, pipe_read) w
    | inr (i, e) ↦ rw (e, pipe_read) (read_at-IsWf fuel i n k w)
  ]

  pub pipe_write-IsWf :
      (fuel pid id : ℕ) (cs : List ℕ) (k : Kernel)
      → IsWf k
      → IsWf (pipe_write peers fuel pid id cs k).1
  unfolding pipe_write
  pipe_write-IsWf fuel pid id cs k w = elim (Option-cases (get_pipe_index_by_id id)) [
    | inl e ↦ rw (e, pipe_write) w
    | inr (i, e) ↦ rw (e, pipe_write) (write_at-IsWf peers laws fuel pid i cs k w)
  ]

install-IsWf : (n : ℕ) (k : Kernel) → IsWf k → IsWf (install n (create_pipe (mm_alloc k))).1
install-IsWf n k w = elim (mm_alloc_cases k) [
  | inl (gs, e) ↦
      subst (λ o. IsWf (install n (create_pipe o)).1) (sym e)
        (unfold install create_pipe in pipes-IsWf k _ refl refl refl refl w)
  | inr (gs, e) ↦
      subst (λ o. IsWf (install n (create_pipe o)).1) (sym e)
        (unfold install create_pipe in frame k _ _ _ refl refl (omega arith) (λ r. refl) w)
]

pub pipe_get-IsWf : (k : Kernel) → IsWf k → IsWf (pipe_get k).1
unfolding pipe_get
pipe_get-IsWf k w = elim (Option-cases (next_free_pipe (max_pipes + 1) k.pipes k.last_free_pipe)) [
  | inl e ↦ rw (e, pipe_get) (if_pair-IsWf (leb max_pipes k.qty_pipes) _ _ w w)
  | inr (n, e) ↦
      rw (e, pipe_get) (if_pair-IsWf (leb max_pipes k.qty_pipes) _ _ w (install-IsWf n k w))
]
