-- ===== src/Input/Wf.antt =====
-- The process table and the queues of the scheduler through the keys and the wait for a character.
use so_tpe.Common.{ℕ, refl, arith, Bool-cases, ◌==◌, inl, inr}
use so_tpe.Scheduler.Peers.{Peers}
use so_tpe.Scheduler.Wf.Moves.{PeerLaws, frame}
use so_tpe.Keyboard.{Signal, quiet, kill_foreground, keyboard_handler}
use so_tpe.Semaphore.{World, Outcome, done, refused, stale, out_of_fuel}
use so_tpe.Semaphore.Wf.{WorldIsWf, OthersLaw, sem_post-IsWf, sem_wait-IsWf}
use so_tpe.Input.{
  Key, key, no_semaphore, unended_wait, kbd_semaphore, set_keyboard, obey, take_char,
  keyboard_interrupt, await_char,
}

abbrev pub KeyIsWf : Key → Type 0
KeyIsWf (key c w) = WorldIsWf w
KeyIsWf (no_semaphore w) = WorldIsWf w
KeyIsWf (unended_wait w) = WorldIsWf w

take_char-IsWf : (r : Outcome × World) → WorldIsWf r.1 → KeyIsWf (take_char r)
unfolding take_char
take_char-IsWf (done, w) h = h
take_char-IsWf (refused, w) h = h
take_char-IsWf (stale, w) h = h
take_char-IsWf (out_of_fuel, w) h = h

obey-IsWf : (signal : Signal) (w : World) → WorldIsWf w → WorldIsWf (obey signal w)
obey-IsWf quiet w h = h
obey-IsWf kill_foreground w h = frame _ _ _ _ refl refl (omega arith) (λ r. refl) h

module _ (peers : Peers) (laws : PeerLaws peers) (others : World → World) (keeps : OthersLaw others)
    (fuel : ℕ) where
  pub await_char-IsWf : (w : World) → WorldIsWf w → KeyIsWf (await_char peers others fuel w)
  unfolding await_char
  await_char-IsWf w h =
      take_char-IsWf _ (sem_wait-IsWf peers laws others keeps fuel kbd_semaphore w h)

  pub keyboard_interrupt-IsWf :
      (raw : ℕ) (w : World) → WorldIsWf w → WorldIsWf (keyboard_interrupt peers others fuel raw w)
  unfolding keyboard_interrupt
  keyboard_interrupt-IsWf raw w h =
      let (s, signal) = keyboard_handler raw w.keyboard in
      elim (Bool-cases (s.tokens == w.keyboard.tokens)) [
        | inl e ↦ rw e (obey-IsWf signal (set_keyboard s w) h)
        | inr e ↦ rw e (
            obey-IsWf signal _
              (sem_post-IsWf peers laws others keeps fuel kbd_semaphore (set_keyboard s w) h))
      ]
