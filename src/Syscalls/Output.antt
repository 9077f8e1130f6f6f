-- ===== src/Syscalls/Output.antt =====
-- A `sys_write` to the console, and to a descriptor that leads nowhere.
use so_tpe.Common.{
  ℕ, ◌+◌, ◌%◌, ◌<◌, ◌≡◌, refl, ◌∙◌, ◌⊎◌, inl, inr, true, false, some, none, List, [], ◌++◌, arith,
  leb, ltb, ◌==◌, if◌then◌else◌, length, get_or, Bool-cases,
}
use mathlib.Core.List.{map}
use so_tpe.State.{Kernel, Slot, minus_one16}
use so_tpe.Scheduler.Peers.{Peers}
use so_tpe.Scheduler.Exit.{get_process_fd}
use so_tpe.Console.{Screen, console_buffer_size}
use so_tpe.Console.Text.{text, IsValid}
use so_tpe.Console.Echo.{HasNoBackspace, Left, console_write-appends}
use so_tpe.Console.Write.{cell}
use so_tpe.Syscalls.{Machine, kernel_of, answer}
use so_tpe.Syscalls.Files.{actual_fd, stdout, stderr, write_to, sys_write}
use so_tpe.Syscalls.Keys.{actual_fd-own}

-- white for the output, red for errors
abbrev pub color_of : ℕ → ℕ
color_of own = if own == stdout then 0xFFFFFF else 0xFF0000

-- `sys_write` by a process whose descriptor is the output or the error output, of bytes without
-- backspaces that the console's buffer has room for: it answers their number and appends them to the
-- console's text, in white or in red; nothing but the console changes.
pub sys_write-appends :
    (peers : Peers) (screen : Screen) (fuel fd own : ℕ) (bytes : List ℕ) (s : Slot) (m : Machine)
    → (kernel_of m).processes (kernel_of m).current_pid ≡ some s
    → fd < 3
    → get_or s.process.file_descriptors fd minus_one16 ≡ own
    → (own ≡ stdout) ⊎ (own ≡ stderr)
    → IsValid m.console
    → HasNoBackspace bytes
    → m.console.buffer_length + length bytes < console_buffer_size
    → let (a, drawn, m') = sys_write peers screen fuel fd bytes m in
      (a ≡ answer (length bytes))
      × Left (text m.console ++ map (cell (color_of own)) bytes) m'.console
      × (m'.world ≡ m.world)
unfolding sys_write write_to
sys_write-appends peers screen fuel fd own bytes s m here small e (inl w) v plain room = rw w (
    rw (actual_fd-own peers fd stdout s (kernel_of m) here small (e ∙ w) (ground arith), sys_write)
      (refl, console_write-appends screen 0xFFFFFF bytes m.console v plain room, refl))
sys_write-appends peers screen fuel fd own bytes s m here small e (inr w) v plain room = rw w (
    rw (actual_fd-own peers fd stderr s (kernel_of m) here small (e ∙ w) (ground arith), sys_write)
      (refl, console_write-appends screen 0xFF0000 bytes m.console v plain room, refl))

module _ (peers : Peers) (fd : ℕ) (s : Slot) (k : Kernel) where
  actual_fd-none :
      k.processes k.current_pid ≡ some s
      → fd < 3
      → get_or s.process.file_descriptors fd minus_one16 ≡ minus_one16
      → actual_fd peers fd k ≡ none
  unfolding actual_fd get_process_fd
  actual_fd-none here small e =
      let low : fd % 256 ≡ fd = omega arith in
      let inside : leb 3 fd ≡ false = ground arith in
      let below : ltb fd 3 ≡ true = ground arith in
      let found : get_process_fd peers (fd % 256) k ≡ minus_one16 =
        rw low (rw (here, get_process_fd) (rw inside e)) in
      rw (found, actual_fd) (rw below)

  actual_fd-number : actual_fd peers 65535 k ≡ some 65535
  unfolding actual_fd
  actual_fd-number =
      let high : ltb 65535 3 ≡ false = ground arith in
      elim (Bool-cases (get_process_fd peers 255 k == minus_one16)) [ inl z ↦ rw z | inr z ↦ rw z ]

-- A process whose descriptor is `DEV_NULL` gets 0 for a write through it, while the descriptor 65535,
-- `DEV_NULL` as a number, answers the number of bytes; neither changes anything.
pub sys_write-null :
    (peers : Peers) (screen : Screen) (fuel fd : ℕ) (bytes : List ℕ) (s : Slot) (m : Machine)
    → (kernel_of m).processes (kernel_of m).current_pid ≡ some s
    → fd < 3
    → get_or s.process.file_descriptors fd minus_one16 ≡ minus_one16
    → (sys_write peers screen fuel fd bytes m ≡ (answer 0, [], m))
      × (sys_write peers screen fuel 65535 bytes m ≡ (answer (length bytes), [], m))
unfolding sys_write write_to
sys_write-null peers screen fuel fd bytes s m here small e = (
  rw (actual_fd-none peers fd s (kernel_of m) here small e, sys_write),
  rw (actual_fd-number peers fd s (kernel_of m), sys_write),
)
