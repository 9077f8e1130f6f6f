-- ===== src/Syscalls/Files.antt =====
-- `sys_read` and `sys_write`, and `sys_clear_text_buffer_wrapper`.
use so_tpe.Common.{
  ℕ, zero, suc, ◌%◌, ◌&&◌, Option, none, some, List, [], ◌∷◌, ◌++◌, ltb, leb, ◌==◌, if◌then◌else◌,
  length, u16,
}
use so_tpe.State.{Kernel, minus_one16, is_pipe_fd}
use so_tpe.Scheduler.Peers.{Peers}
use so_tpe.Scheduler.Dispatch.{get_pid}
use so_tpe.Scheduler.Exit.{get_process_fd}
use so_tpe.Pipe.Transfer.{Transfer, failed, moved, pipe_read, pipe_write}
use so_tpe.Input.{Key, key, no_semaphore, unended_wait, await_char}
use so_tpe.Semaphore.{World}
use so_tpe.Pipe.Close.{with_pipes}
use so_tpe.Console.{Screen}
use so_tpe.Console.Render.{Draw}
use so_tpe.Console.Write.{console_write, console_clear}
use so_tpe.Syscalls.{Machine, kernel_of, set_kernel, Answer, answer, fault, unended, minus_one64}

abbrev pub stdin : ℕ
stdin = 0

abbrev pub stdout : ℕ
stdout = 1

abbrev pub stderr : ℕ
stderr = 2

-- DEV_NULL, -1 as an int16_t
abbrev pub dev_null : ℕ
dev_null = 65535

abbrev pub of_transfer : Transfer → Answer
of_transfer failed = answer minus_one64
of_transfer (moved n) = answer n
of_transfer Transfer.stale = fault
of_transfer Transfer.out_of_fuel = unended

-- a turn of that loop, on the character that it gets, and the turns that follow
unfoldable pub after_key :
    (List ℕ → World → Answer × List ℕ × World) → List ℕ → Key → Answer × List ℕ × World
after_key next got (key c w) =
    let rest = next (got ++ (c ∷ [])) w in
    if c == 255 then (answer (length (got ++ (c ∷ []))), got ++ (c ∷ []), w) else rest
after_key next got (no_semaphore w) = (fault, got, w)
after_key next got (unended_wait w) = (unended, got, w)

module _ (peers : Peers) where
  -- `actual_fd`, or the return behind the test of -1
  unfoldable pub actual_fd : ℕ → Kernel → Option ℕ
  actual_fd fd k =
      let own = get_process_fd peers (fd % 256) k in
      if own == minus_one16 && ltb fd 3 then none else some (if leb 3 fd then u16 fd else own)

module _ (peers : Peers) (others : World → World) (fuel : ℕ) where
  -- The loop of `sys_read` on the keyboard: the bytes that it stores. It ends behind a byte of 255.
  unfoldable pub read_keys : ℕ → List ℕ → World → Answer × List ℕ × World
  read_keys zero got w = (answer (length got), got, w)
  read_keys (suc count) got w =
      after_key (read_keys count) got (await_char (with_pipes peers fuel) others fuel w)

  -- `sys_read` behind the look-up of the descriptor
  unfoldable pub read_from : ℕ → ℕ → Machine → Answer × List ℕ × Machine
  read_from fd count m =
      if is_pipe_fd fd
      then (let (t, bytes, k) = pipe_read peers fuel fd count (kernel_of m) in
          (of_transfer t, bytes, set_kernel k m))
      else if fd == dev_null
      then (answer 0, [], m)
      else if fd == stdin
      then (let (a, bytes, w) = read_keys count [] m.world in (a, bytes, record m { world = w }))
      else (answer 0, [], m)

  -- the answer, and the bytes that are stored in the caller's buffer
  unfoldable pub sys_read : ℕ → ℕ → Machine → Answer × List ℕ × Machine
  sys_read fd count m = elim (actual_fd peers fd (kernel_of m)) [
    | none ↦ (answer 0, [], m)
    | some actual ↦ read_from actual count m
  ]

module _ (peers : Peers) (screen : Screen) (fuel : ℕ) where
  -- `sys_write` behind the look-up of the descriptor, with what is drawn
  unfoldable pub write_to : ℕ → List ℕ → Machine → Answer × List Draw × Machine
  write_to fd bytes m =
      if is_pipe_fd fd
      then (let (t, k) = pipe_write peers fuel (get_pid (kernel_of m)) fd bytes (kernel_of m) in
          (of_transfer t, [], set_kernel k m))
      else if fd == dev_null
      then (answer (length bytes), [], m)
      else if fd == stdout
      then (let (s, drawn) = console_write screen 0xFFFFFF bytes m.console in
          (answer (length bytes), drawn, record m { console = s }))
      else if fd == stderr
      then (let (s, drawn) = console_write screen 0xFF0000 bytes m.console in
          (answer (length bytes), drawn, record m { console = s }))
      else (answer 0, [], m)

  unfoldable pub sys_write : ℕ → List ℕ → Machine → Answer × List Draw × Machine
  sys_write fd bytes m = elim (actual_fd peers fd (kernel_of m)) [
    | none ↦ (answer 0, [], m)
    | some actual ↦ write_to actual bytes m
  ]

abbrev pub sys_clear_text_buffer_wrapper : Machine → Answer × List Draw × Machine
sys_clear_text_buffer_wrapper m =
    let (s, drawn) = console_clear m.console in (answer 0, drawn, record m { console = s })
