-- ===== src/Input/Ready.antt =====
-- The call that waits for a character, where the semaphore of the keyboard is free and its value is
-- the number of the characters.
use so_tpe.Common.{ℕ, suc, ◌-◌, ◌<◌, ◌≡◌, ◌≢◌, refl, false, ◌∷◌, arith}
use so_tpe.Scheduler.Peers.{Peers}
use so_tpe.Semaphore.{Semaphore, World}
use so_tpe.Semaphore.Uncontended.{IsIdle, sem_wait-runs}
use so_tpe.Keyboard.Contents.{contents, IsValid, extract_char-Taken}
use so_tpe.Input.{Key, key, kbd_semaphore, take_char, await_char}

-- The semaphore of the keyboard is `s`, which nobody holds, and counts the characters.
pub record IsReady (s : Semaphore) (w : World) : Type 0 where
  pub idle : IsIdle kbd_semaphore s w
  pub counted : s.value ≡ w.keyboard.count
  pub valid : IsValid w.keyboard

abbrev pub taken_from : Semaphore → Semaphore
taken_from s = record s { value = s.value - 1; mutex = false }

-- `getCharBlocking` takes the oldest character and one from the semaphore's value.
pub record Took (s : Semaphore) (w : World) (r : Key) : Type 0 where
  pub char : ℕ
  pub after : World
  pub run : r ≡ key char after
  pub front : contents w.keyboard ≡ char ∷ contents after.keyboard
  pub ready : IsReady (taken_from s) after
  pub kernel : after.kernel ≡ w.kernel
  pub others : (j : ℕ) → j ≢ kbd_semaphore → after.semaphores j ≡ w.semaphores j

pub await_char-Took :
    (peers : Peers) (others : World → World) (fuel : ℕ) (s : Semaphore) (w : World)
    → IsReady s w
    → 0 < s.value
    → Took s w (await_char peers others (suc fuel) w)
unfolding await_char take_char
await_char-Took peers others fuel s w r positive =
    let some_left : w.keyboard.count ≢ 0 = ground (arith, r.counted) in
    let (front, valid, fewer) =
      extract_char-Taken (record (w.keyboard) { tokens = w.keyboard.tokens - 1 })
        (record {
          read_in = r.valid.read_in;
          count_in = r.valid.count_in;
          write_at = r.valid.write_at;
        })
        some_left in
    rw (sem_wait-runs peers others fuel kbd_semaphore s w r.idle positive) (record {
      char = _;
      after = _;
      run = refl;
      front = front;
      ready = record {
        idle = record {
          in_range = r.idle.in_range;
          here = refl;
          unlocked = refl;
          nobody = r.idle.nobody;
        };
        counted = omega (arith, r.counted, fewer, positive);
        valid = valid;
      };
      kernel = refl;
      others = λ j ne. ground (arith, ne);
    })
