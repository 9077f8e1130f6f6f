-- ===== src/Pipe/Read.antt =====
-- `pipe_read` where the pipe holds all the bytes that are wanted.
use so_tpe.Common.{
  ℕ, zero, suc, ◌-◌, ◌≤◌, ◌≡◌, refl, ap, ◌∙◌, true, false, not, ◌||◌, ◌&&◌, some, List, [], ◌∷◌,
  arith, length, ◌==◌, take, drop,
}
use so_tpe.State.{Kernel, Pipe, minus_one16}
use so_tpe.Scheduler.Peers.{Peers}
use so_tpe.Pipe.Buffer.{Drained, drain, has_data}
use so_tpe.Pipe.Manager.{get_pipe_index_by_id, put_pipe}
use so_tpe.Pipe.Transfer.{
  moved, await_writer, read_round, read_on, read_step, read_loop, read_after, read_at, pipe_read,
}
use so_tpe.Pipe.Fifo.{IsValid, IsPlain, Taken, contents, drain-Taken}
use so_tpe.Pipe.RoundTrip.{contents-length}

length-take {ℓ} : {A : Type ℓ} (n : ℕ) (xs : List A) → n ≤ length xs → length (take n xs) ≡ n
length-take zero xs h = refl
length-take (suc n) [] h = absurd (omega arith)
length-take (suc n) (x ∷ xs) h = ground (arith, length-take n xs)

module _ (peers : Peers) (fuel i m : ℕ) (p : Pipe) (k : Kernel) (here : k.pipes i ≡ some p)
    (v : IsValid p) (plain : IsPlain (contents p)) (enough : suc m ≤ p.current_size)
    (idle : p.is_blocking ≡ false) where
  abbrev d : Drained
  d = drain (suc m) p

  taken : Taken (contents p) (suc m) d
  taken = drain-Taken (suc m) p v enough plain

  all_read : length d.bytes ≡ suc m
  all_read =
      ap length taken.bytes
      ∙ length-take (suc m) (contents p) (omega (arith, contents-length p, enough))

  holds : has_data p ≡ true
  holds = ground (arith, enough)

  abbrev after : Kernel
  after = put_pipe i (some d.pipe) k

  read_round-idle : read_round peers i p d k ≡ after
  unfolding read_round
  read_round-idle = rw idle

  await_writer-returns : await_writer peers (suc fuel) i p.block k ≡ (moved 0, k)
  unfolding await_writer
  await_writer-returns =
      let same : (p.block == p.block) ≡ true = ground arith in
      let no_wait : (p.input_pid == minus_one16 && not (has_data p)) ≡ false =
        ground (arith, holds) in
      rw (here, await_writer) (rw same (rw no_wait))

  read_on-moves :
      read_on peers (read_loop peers (suc fuel) i p.block) i p.block (suc m) [] k
      ≡ (moved (suc m), d.bytes, after)
  unfolding read_on read_loop read_step
  read_on-moves =
      let same : (p.block == p.block) ≡ true = ground arith in
      let wanted : suc m - length d.bytes ≡ 0 = omega (arith, all_read) in
      rw (here, read_on) (rw same (rw read_round-idle (rw taken.more (rw (wanted, all_read) refl))))

  read_loop-moves :
      read_loop peers (suc (suc fuel)) i p.block (suc m) [] k ≡ (moved (suc m), d.bytes, after)
  unfolding read_loop read_step
  read_loop-moves =
      let same : (p.block == p.block) ≡ true = ground arith in
      rw (here, read_step) (rw (same, holds) read_on-moves)

-- A read of at most as many bytes as the pipe holds, one at least, from a pipe without an end-of-file
-- mark, by the process that has it open for reading, while nobody waits at the pipe: `pipe_read` gives that many bytes, the
-- oldest of the pipe in order, leaves the others, and changes nothing else of the kernel.
pub pipe_read-takes :
    (peers : Peers) (fuel id i m : ℕ) (p : Pipe) (k : Kernel)
    → get_pipe_index_by_id id ≡ some i
    → k.pipes i ≡ some p
    → p.output_pid ≡ k.current_pid
    → IsValid p
    → IsPlain (contents p)
    → suc m ≤ p.current_size
    → p.is_blocking ≡ false
    → (q : Pipe) × (pipe_read peers (suc (suc fuel)) id (suc m) k
        ≡ (moved (suc m), take (suc m) (contents p), put_pipe i (some q) k))
      × (contents q ≡ drop (suc m) (contents p))
      × IsValid q
unfolding pipe_read read_at read_after
pipe_read-takes peers fuel id i m p k at here reader v plain enough idle =
    let t : Taken (contents p) (suc m) (drain (suc m) p) = drain-Taken (suc m) p v enough plain in
    (
      (drain (suc m) p).pipe,
      rw (at, pipe_read)
          (rw (here, read_at)
            (rw allowed (
              rw (await_writer-returns peers (suc fuel) i m p k here v plain enough idle) (
                read_loop-moves peers fuel i m p k here v plain enough idle
                ∙ ap (λ bs. (moved (suc m), bs, put_pipe i (some (drain (suc m) p).pipe) k))
                    t.bytes)))),
      t.left,
      t.valid,
    )
  where
    allowed : (not (p.output_pid == k.current_pid) || suc m == 0) ≡ false
    allowed = ground arith
