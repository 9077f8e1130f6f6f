-- ===== src/Pipe/Channel.antt =====
-- A pipe between two processes: `pipe_write` and then `pipe_read`.
use so_tpe.Common.{
  ℕ, suc, ◌-◌, ◌≤◌, ◌≡◌, ◌≢◌, refl, ap, sym, ◌∙◌, subst, false, some, List, [], ◌∷◌, ◌++◌, arith,
  length, take, drop,
}
use so_tpe.State.{Kernel, Pipe}
use so_tpe.Scheduler.Peers.{Peers}
use so_tpe.Pipe.Buffer.{pipe_size, eof_marker, buffer_position}
use so_tpe.Pipe.Manager.{get_pipe_index_by_id, put_pipe}
use so_tpe.Pipe.Transfer.{moved, pipe_read, pipe_write}
use so_tpe.Pipe.Fifo.{IsValid, IsPlain, contents}
use so_tpe.Pipe.RoundTrip.{contents-length, IsPlain-append, take_all, drop_fits}
use so_tpe.Pipe.Write.{pipe_write-fits}
use so_tpe.Pipe.Read.{pipe_read-takes}

-- A read of everything that a pipe holds.
read_all :
    (peers : Peers) (fuel id i : ℕ) (bs : List ℕ) (p : Pipe) (k : Kernel)
    → get_pipe_index_by_id id ≡ some i
    → k.pipes i ≡ some p
    → p.output_pid ≡ k.current_pid
    → IsValid p
    → p.is_blocking ≡ false
    → contents p ≡ bs
    → IsPlain bs
    → bs ≢ []
    → (q : Pipe) × (pipe_read peers (suc (suc fuel)) id (length bs) k
        ≡ (moved (length bs), bs, put_pipe i (some q) k))
      × (contents q ≡ [])
read_all peers fuel id i [] p k at here reader v idle holds plain ne = absurd (ne refl)
read_all peers fuel id i (b ∷ bs) p k at here reader v idle holds plain ne =
    let size : suc (length bs) ≡ p.current_size = ap length (sym holds) ∙ contents-length p in
    let (q, run, left, fine) =
      pipe_read-takes peers fuel id i (length bs) p k at here reader v
        (subst IsPlain (sym holds) plain) (omega arith) idle in
    (
      q,
      run
          ∙ ap (λ l. (moved (length (b ∷ bs)), l, put_pipe i (some q) k))
              (ap (take (length (b ∷ bs))) holds
                ∙ take_all (length (b ∷ bs)) (b ∷ bs) (omega arith)),
      left ∙ ap (drop (length (b ∷ bs))) holds ∙ drop_fits (length (b ∷ bs)) (b ∷ bs) (omega arith),
    )

-- One process writes bytes that the pipe has room for, and later the process at the other end, when
-- it runs and nobody else has used the pipe meanwhile, reads as many bytes as the pipe holds: the
-- read gives what the pipe held before the write and then the written bytes, all in order, and the
-- pipe is empty. No end-of-file mark is among the bytes or at the place of the next one, and nobody
-- waits at the pipe.
pub pipe_read-pipe_write :
    (peers : Peers) (fuel pid id i c : ℕ) (cs : List ℕ) (p : Pipe) (k later : Kernel)
    → get_pipe_index_by_id id ≡ some i
    → k.pipes i ≡ some p
    → p.input_pid ≡ pid
    → IsValid p
    → IsPlain (contents p)
    → IsPlain (c ∷ cs)
    → length (c ∷ cs) ≤ pipe_size - p.current_size
    → p.is_blocking ≡ false
    → p.buffer (buffer_position p) ≢ eof_marker
    → later.pipes i ≡ (pipe_write peers (suc (suc fuel)) pid id (c ∷ cs) k).1.pipes i
    → p.output_pid ≡ later.current_pid
    → let bs = contents p ++ (c ∷ cs) in
      (q : Pipe) × (pipe_read peers (suc (suc fuel)) id (length bs) later
        ≡ (moved (length bs), bs, put_pipe i (some q) later))
      × (contents q ≡ [])
pipe_read-pipe_write peers fuel pid id i c cs p k later at here writer v old plain fits idle no_mark
      same reader =
    let (q, run, holds, fine, ends) =
      pipe_write-fits peers fuel pid id i c cs p k at here writer v plain fits idle no_mark in
    let stored : (put_pipe i (some q) k).pipes i ≡ some q = ground arith in
    let now : later.pipes i ≡ some q = same ∙ ap (λ r. r.1.pipes i) run ∙ stored in
    read_all peers fuel id i (contents p ++ (c ∷ cs)) q later at now (ends.output_pid ∙ reader) fine
      (ends.is_blocking ∙ idle) holds (IsPlain-append (contents p) (c ∷ cs) old plain)
      (not_empty (contents p))
  where
    not_empty : (xs : List ℕ) → xs ++ (c ∷ cs) ≢ []
    not_empty [] = λ e. ground arith
    not_empty (x ∷ xs) = λ e. ground arith
