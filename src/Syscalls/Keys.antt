-- ===== src/Syscalls/Keys.antt =====
-- A `sys_read` of the keyboard.
use so_tpe.Common.{
  ℕ, zero, suc, ◌-◌, ◌%◌, ◌<◌, ◌≡◌, ◌≢◌, refl, ap, sym, ◌∙◌, Bool, true, false, ◌||◌, some, List,
  [], ◌∷◌, ◌++◌, arith, leb, ◌==◌, if◌then◌else◌, length, get_or, window, Bool-cases, inl, inr,
}
use mathlib.Core.List.{append-nil, append_assoc}
use so_tpe.State.{Kernel, Slot, minus_one16}
use so_tpe.Scheduler.Peers.{Peers}
use so_tpe.Scheduler.Exit.{get_process_fd}
use so_tpe.Pipe.Close.{with_pipes}
use so_tpe.Semaphore.{Semaphore, World}
use so_tpe.Keyboard.{buffer_size}
use so_tpe.Keyboard.Contents.{contents, IsValid}
use so_tpe.Input.{key, kbd_semaphore}
use so_tpe.Input.Ready.{IsReady, taken_from, await_char-Took}
use so_tpe.Syscalls.{Machine, kernel_of, Answer, answer}
use so_tpe.Syscalls.Files.{actual_fd, stdin, after_key, read_keys, read_from, sys_read}

-- what a read of `count` bytes takes from the waiting characters: at most as many, and none behind
-- the first end of file, a byte of 255
abbrev pub line : ℕ → List ℕ → List ℕ
line zero cs = []
line (suc count) [] = []
line (suc count) (c ∷ cs) = c ∷ (if c == 255 then [] else line count cs)

-- whether the waiting characters are enough for it
abbrev pub is_enough : ℕ → List ℕ → Bool
is_enough zero cs = true
is_enough (suc count) [] = false
is_enough (suc count) (c ∷ cs) = c == 255 || is_enough count cs

-- a read that had stored the bytes `got`, from the waiting characters `cs` of the world `start`
pub record Line (count : ℕ) (cs got : List ℕ) (s : Semaphore) (start : World)
    (r : Answer × List ℕ × World) : Type 0 where
  pub bytes : r.1 ≡ got ++ line count cs
  pub left : cs ≡ line count cs ++ contents r.2.keyboard
  pub answered : r.0 ≡ answer (length r.1)
  pub valid : IsValid r.2.keyboard
  pub waited :
      r.2.semaphores kbd_semaphore ≡ some (record s { value = s.value - length (line count cs) })
  pub counted : s.value - length (line count cs) ≡ r.2.keyboard.count
  pub others : (j : ℕ) → j ≢ kbd_semaphore → r.2.semaphores j ≡ start.semaphores j
  pub kernel : r.2.kernel ≡ start.kernel

-- the value of the semaphore where a read of no bytes is enough, or of some
has_key :
    (count n : ℕ) (s : Semaphore) (w : World)
    → IsReady s w
    → is_enough (suc count) (contents w.keyboard) ≡ true
    → 0 < s.value
has_key count n s w r enough = elim (Bool-cases (s.value == 0)) [
  | inr some_left ↦ ground (arith, some_left)
  | inl z ↦
      let nothing : w.keyboard.count ≡ 0 = ground (arith, r.counted, z) in
      let empty : is_enough (suc count) (contents w.keyboard) ≡ false =
        ap (λ n. is_enough (suc count) (window buffer_size w.keyboard.buffer w.keyboard.read_ptr n))
          nothing in
      absurd (ground (arith, empty, enough))
]

module _ (peers : Peers) (others : World → World) (fuel : ℕ) where
  -- the turn that takes the character `c`, and the turns that follow
  turn :
      (count : ℕ) (got : List ℕ) (s : Semaphore) (w : World) (c : ℕ) (after : World)
      → IsReady (taken_from s) after
      → s.mutex ≡ false
      → 0 < s.value
      → after.kernel ≡ w.kernel
      → ((j : ℕ) → j ≢ kbd_semaphore → after.semaphores j ≡ w.semaphores j)
      → is_enough (suc count) (c ∷ contents after.keyboard) ≡ true
      → ((got' : List ℕ)
          → is_enough count (contents after.keyboard) ≡ true
          → Line count
              (contents after.keyboard)
              got'
              (taken_from s)
              after
              (read_keys peers others (suc fuel) count got' after))
      → Line
          (suc count)
          (c ∷ contents after.keyboard)
          got
          s
          w
          (after_key (read_keys peers others (suc fuel) count) got (key c after))
  unfolding after_key
  turn count got s w c after ready unlocked positive kernel frame enough ih =
      elim (Bool-cases (c == 255)) [
        | inl f ↦ rw f (record {
          bytes = rw f refl;
          left = rw f refl;
          answered = refl;
          valid = ready.valid;
          waited = ready.idle.here ∙ rw (f, sym unlocked) refl;
          counted = rw f ready.counted;
          others = frame;
          kernel = kernel;
        })
        | inr f ↦
            let l = ih (got ++ (c ∷ [])) (sym (rw f refl) ∙ enough) in
            let n = length (line count (contents after.keyboard)) in
            let value : s.value - 1 - n ≡ s.value - suc n = omega arith in
            rw f (record {
              bytes =
                  rw f (l.bytes ∙ append_assoc got (c ∷ []) (line count (contents after.keyboard)));
              left = rw f (ap (λ r. c ∷ r) l.left);
              answered = l.answered;
              valid = l.valid;
              waited = l.waited ∙ rw (f, value, sym unlocked) refl;
              counted = rw f (sym value ∙ l.counted);
              others = λ j ne. l.others j ne ∙ frame j ne;
              kernel = l.kernel ∙ kernel;
            })
      ]

  read_keys-Line :
      (count : ℕ) (got : List ℕ) (s : Semaphore) (w : World)
      → IsReady s w
      → is_enough count (contents w.keyboard) ≡ true
      → Line count (contents w.keyboard) got s w (read_keys peers others (suc fuel) count got w)
  unfolding read_keys
  read_keys-Line zero got s w r enough = record {
    bytes = sym (append-nil got);
    left = refl;
    answered = refl;
    valid = r.valid;
    waited = r.idle.here ∙ (let same : s.value - 0 ≡ s.value = omega arith in rw same refl);
    counted = omega (arith, r.counted);
    others = λ j ne. refl;
    kernel = refl;
  }
  read_keys-Line (suc count) got s w r enough =
      let positive : 0 < s.value = has_key count 0 s w r enough in
      let t = await_char-Took (with_pipes peers (suc fuel)) others fuel s w r positive in
      rw (t.run, read_keys)
        (rw t.front (
          turn count got s w t.char t.after t.ready r.idle.unlocked positive t.kernel t.others
            (ap (is_enough (suc count)) (sym t.front) ∙ enough)
            (λ got' more. read_keys-Line count got' (taken_from s) t.after t.ready more)))

-- The descriptor that a process has in its table, where it is not -1.
pub actual_fd-own :
    (peers : Peers) (fd own : ℕ) (s : Slot) (k : Kernel)
    → k.processes k.current_pid ≡ some s
    → fd < 3
    → get_or s.process.file_descriptors fd minus_one16 ≡ own
    → own ≢ minus_one16
    → actual_fd peers fd k ≡ some own
unfolding actual_fd get_process_fd
actual_fd-own peers fd own s k here small e ne =
    let low : fd % 256 ≡ fd = omega arith in
    let inside : leb 3 fd ≡ false = ground arith in
    let other : (own == minus_one16) ≡ false = ground arith in
    let found : get_process_fd peers (fd % 256) k ≡ own =
      rw low (rw (here, get_process_fd) (rw inside e)) in
    rw (found, actual_fd) (rw other (rw inside))

-- `sys_read` by a process whose descriptor is the keyboard, where nobody holds the semaphore of the
-- keyboard or waits for its mutex, the semaphore counts the waiting characters, and these are as many
-- as are asked for or have an end of file among them: it stores the waiting characters, in order, as
-- many as are asked for and none behind the first end of file, and answers their number; what it
-- stored is what the keyboard no longer holds, and the semaphore counts the rest. No other
-- semaphore, the process table or the console changes, and the caller does not wait.
pub sys_read-Line :
    (peers : Peers) (others : World → World) (fuel fd count : ℕ) (slot : Slot) (s : Semaphore)
    (m : Machine)
    → (kernel_of m).processes (kernel_of m).current_pid ≡ some slot
    → fd < 3
    → get_or slot.process.file_descriptors fd minus_one16 ≡ stdin
    → IsReady s m.world
    → is_enough count (contents m.world.keyboard) ≡ true
    → let (a, bytes, m') = sys_read peers others (suc fuel) fd count m in
      Line count (contents m.world.keyboard) [] s m.world (a, bytes, m'.world)
      × (m'.console ≡ m.console)
unfolding sys_read read_from
sys_read-Line peers others fuel fd count slot s m here small own r enough =
    rw (actual_fd-own peers fd stdin slot (kernel_of m) here small own (ground arith), sys_read)
      (read_keys-Line peers others fuel count [] s m.world r enough, refl)
