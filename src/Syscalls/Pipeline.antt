-- ===== src/Syscalls/Pipeline.antt =====
-- Two processes joined by a pipe, through `sys_write` and `sys_read`.
use so_tpe.Common.{
  ℕ, suc, ◌-◌, ◌≤◌, ◌<◌, ◌≡◌, ◌≢◌, ap, sym, ◌∙◌, true, false, some, List, [], ◌∷◌, ◌++◌, arith,
  length, get_or,
}
use so_tpe.State.{Kernel, Slot, Pipe, minus_one16, is_pipe_fd}
use so_tpe.Scheduler.Peers.{Peers}
use so_tpe.Pipe.Buffer.{pipe_size, eof_marker, buffer_position}
use so_tpe.Pipe.Manager.{get_pipe_index_by_id, put_pipe}
use so_tpe.Pipe.Transfer.{moved, pipe_read, pipe_write}
use so_tpe.Pipe.Fifo.{IsValid, IsPlain, contents}
use so_tpe.Pipe.Write.{pipe_write-fits}
use so_tpe.Pipe.Channel.{pipe_read-pipe_write}
use so_tpe.Semaphore.{World}
use so_tpe.Console.{Screen}
use so_tpe.Syscalls.{Machine, kernel_of, set_kernel, answer}
use so_tpe.Syscalls.Files.{actual_fd, read_from, write_to, sys_read, sys_write}
use so_tpe.Syscalls.Keys.{actual_fd-own}

-- A process whose descriptor leads to a pipe, by the table of the kernel.
pub record Uses (fd id : ℕ) (k : Kernel) : Type 0 where
  pub slot : Slot
  pub current : k.processes k.current_pid ≡ some slot
  pub standard : fd < 3
  pub leads : get_or slot.process.file_descriptors fd minus_one16 ≡ id
  pub is_pipe : is_pipe_fd id ≡ true

Uses-actual :
    (peers : Peers) (fd id : ℕ) (k : Kernel) → Uses fd id k → actual_fd peers fd k ≡ some id
Uses-actual peers fd id k u =
    actual_fd-own peers fd id u.slot k u.current u.standard u.leads
      (λ z. ground (arith, ap is_pipe_fd z, u.is_pipe))

-- `sys_write` and `sys_read` through a descriptor that leads to a pipe are the pipe's.
module _ (peers : Peers) (others : World → World) (screen : Screen) (fuel : ℕ) where
  sys_write-pipe :
      (fd id n : ℕ) (bytes : List ℕ) (k : Kernel) (m : Machine)
      → Uses fd id (kernel_of m)
      → pipe_write peers fuel (kernel_of m).current_pid id bytes (kernel_of m) ≡ (moved n, k)
      → sys_write peers screen fuel fd bytes m ≡ (answer n, [], set_kernel k m)
  unfolding sys_write write_to
  sys_write-pipe fd id n bytes k m u run =
      rw (Uses-actual peers fd id (kernel_of m) u, sys_write) (rw u.is_pipe (rw run))

  sys_read-pipe :
      (fd id n count : ℕ) (bytes : List ℕ) (k : Kernel) (m : Machine)
      → Uses fd id (kernel_of m)
      → pipe_read peers fuel id count (kernel_of m) ≡ (moved n, bytes, k)
      → sys_read peers others fuel fd count m ≡ (answer n, bytes, set_kernel k m)
  unfolding sys_read read_from
  sys_read-pipe fd id n count bytes k m u run =
      rw (Uses-actual peers fd id (kernel_of m) u, sys_read) (rw u.is_pipe (rw run))

-- A process whose descriptor leads to a pipe that it has open for writing writes bytes that the pipe
-- has room for, and gets their number; later a process whose descriptor leads to the pipe and that has
-- it open for reading, with nobody else having used the pipe meanwhile, reads as many bytes as the
-- pipe holds: it gets what the pipe held before and then the written bytes, all in order, and the pipe
-- is empty. No end-of-file mark is among the bytes or at the place of the next one, and nobody waits
-- at the pipe.
pub sys_read-sys_write :
    (peers : Peers) (others : World → World) (screen : Screen) (fuel out in_fd id i c : ℕ)
    (cs : List ℕ) (p : Pipe) (m later : Machine)
    → Uses out id (kernel_of m)
    → Uses in_fd id (kernel_of later)
    → get_pipe_index_by_id id ≡ some i
    → (kernel_of m).pipes i ≡ some p
    → p.input_pid ≡ (kernel_of m).current_pid
    → p.output_pid ≡ (kernel_of later).current_pid
    → IsValid p
    → IsPlain (contents p)
    → IsPlain (c ∷ cs)
    → length (c ∷ cs) ≤ pipe_size - p.current_size
    → p.is_blocking ≡ false
    → p.buffer (buffer_position p) ≢ eof_marker
    → (kernel_of later).pipes i
      ≡ (kernel_of (sys_write peers screen (suc (suc fuel)) out (c ∷ cs) m).2).pipes i
    → let bs = contents p ++ (c ∷ cs) in
      ((sys_write peers screen (suc (suc fuel)) out (c ∷ cs) m).0 ≡ answer (length (c ∷ cs)))
      × (q : Pipe) × (sys_read peers others (suc (suc fuel)) in_fd (length bs) later
          ≡ (answer (length bs), bs, set_kernel (put_pipe i (some q) (kernel_of later)) later))
      × (contents q ≡ [])
sys_read-sys_write peers others screen fuel out in_fd id i c cs p m later writes reads at here
      writer reader v old plain fits idle no_mark same =
    let k = kernel_of m in
    let (q, run, holds, fine, ends) =
      pipe_write-fits peers fuel k.current_pid id i c cs p k at here writer v plain fits idle
        no_mark in
    let written =
      sys_write-pipe peers others screen (suc (suc fuel)) out id (length (c ∷ cs)) (c ∷ cs) _ m
        writes run in
    let (q', run', empty) =
      pipe_read-pipe_write peers fuel k.current_pid id i c cs p k (kernel_of later) at here writer v
        old plain fits idle no_mark
        (same ∙ ap (λ r. (kernel_of r.2).pipes i) written ∙ sym (ap (λ r. r.1.pipes i) run))
        reader in
    let bs = contents p ++ (c ∷ cs) in
    (
      ap (λ r. r.0) written,
      q',
      sys_read-pipe peers others screen (suc (suc fuel)) in_fd id (length bs) (length bs) bs _ later
          reads run',
      empty,
    )
