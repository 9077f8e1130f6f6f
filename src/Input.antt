-- ===== src/Input.antt =====
-- Kernel/drivers/keyboardDriver.c with its semaphore, which is one of the semaphores of the kernel: the
-- interrupt of a key, which posts it, and the call that waits for a character.
pub mod Ready
pub mod Wf
use so_tpe.Common.{ℕ, ◌-◌, ◌==◌, if◌then◌else◌}
use so_tpe.Scheduler.Peers.{Peers}
use so_tpe.Scheduler.Dispatch.{kill_foreground_process}
use so_tpe.Keyboard.{Keyboard, Signal, quiet, kill_foreground, keyboard_handler, extract_char}
use so_tpe.Semaphore.{
  World, put_kernel, Outcome, done, refused, stale, out_of_fuel, sem_init, sem_post, sem_wait,
}

-- the id of `kbd_semaphore`
abbrev pub kbd_semaphore : ℕ
kbd_semaphore = 0

abbrev pub init_keyboard : World → World
init_keyboard w = (sem_init kbd_semaphore 0 w).1

abbrev pub set_keyboard : Keyboard → World → World
set_keyboard s w = record w { keyboard = s }

-- the call of `kill_foreground_process`, or none
abbrev pub obey : Signal → World → World
obey quiet w = w
obey kill_foreground w = put_kernel (kill_foreground_process w.kernel) w

-- The character, a semaphore that was destroyed while the caller waited for it, or a wait that did
-- not end on its fuel.
pub data Key : Type 0 where
  key : ℕ → World → Key
  no_semaphore : World → Key
  unended_wait : World → Key

-- `extract_char` behind the `sem_wait`, whose result is not tested
unfoldable pub take_char : Outcome × World → Key
take_char (done, w) =
    let (c, s) = extract_char (record (w.keyboard) { tokens = w.keyboard.tokens - 1 }) in
    key c (set_keyboard s w)
take_char (refused, w) = let (c, s) = extract_char w.keyboard in key c (set_keyboard s w)
take_char (stale, w) = no_semaphore w
take_char (out_of_fuel, w) = unended_wait w

module _ (peers : Peers) (others : World → World) (fuel : ℕ) where
  -- `keyboard_handler` with the `sem_post` of `insert_char`, of which `Keyboard` counts the tokens
  unfoldable pub keyboard_interrupt : ℕ → World → World
  keyboard_interrupt raw w =
      let (s, signal) = keyboard_handler raw w.keyboard in
      let typed = set_keyboard s w in
      let posted = (sem_post peers others fuel kbd_semaphore typed).1 in
      obey signal (if s.tokens == w.keyboard.tokens then typed else posted)

  -- `getCharBlocking`
  unfoldable pub await_char : World → Key
  await_char w = take_char (sem_wait peers others fuel kbd_semaphore w)
