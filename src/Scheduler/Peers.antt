-- ===== src/Scheduler/Peers.antt =====
-- What the scheduler and the process table call outside of themselves.
use so_tpe.Common.{ℕ}
use so_tpe.State.{Kernel}

-- `pipe_open` and `pipe_close` of pipes/pipe.c, `int $0x20` of `yield`, which returns when the
-- caller runs again, and the assembly routine `_initialize_stack_frame`, from the block of the
-- stack and the block of the arguments to the first stack position.
pub record Peers : Type 0 where
  pub pipe_open : ℕ → ℕ → ℕ → Kernel → Kernel
  pub pipe_close : ℕ → ℕ → Kernel → Kernel
  pub switch : Kernel → Kernel
  pub initialize_stack_frame : ℕ → ℕ → ℕ
