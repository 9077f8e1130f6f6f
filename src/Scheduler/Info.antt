-- ===== src/Scheduler/Info.antt =====
-- `get_process_info` of process.c. The text of a process's name is a function of the name's block.
use so_tpe.Common.{
  ℕ, zero, suc, ◌+◌, ◌≡◌, refl, ap, Bool, true, false, ◌↔◌, ◌++◌, Option, none, some, List, [], ◌∷◌,
  arith, ◌==◌, if◌then◌else◌, take, ◌<◌, Option-cases, Bool-cases, inl, inr,
}
use so_tpe.State.{Status, Process, Kernel, max_processes}
use so_tpe.Scheduler.Dispatch.{get_process_by_pid, get_foreground_process_pid}

-- `ProcessInfo`
pub record ProcessInfo : Type 0 where
  pub pid : ℕ
  pub parent_pid : ℕ
  pub name : List ℕ
  pub priority : ℕ
  pub status : Status
  pub stack_base : ℕ
  pub stack_pos : ℕ
  pub is_foreground : Bool

-- `for (j = 0; j < 63 && name[j] != '\0'; j++)`, with how many bytes may still be copied, then the 0
unfoldable pub copy_name : ℕ → List ℕ → List ℕ
copy_name zero name = 0 ∷ []
copy_name (suc left) [] = 0 ∷ []
copy_name (suc left) (c ∷ name) =
    let rest = copy_name left name in if c == 0 then 0 ∷ [] else c ∷ rest

abbrev pub info_of : (ℕ → List ℕ) → ℕ → Process → ProcessInfo
info_of names foreground p = record {
  pid = p.pid;
  parent_pid = p.parent_pid;
  name = copy_name 63 (names p.name);
  priority = p.priority;
  status = p.status;
  stack_base = p.stack_base;
  stack_pos = p.stack_pos;
  is_foreground = p.pid == foreground;
}

-- the loop, from the pid `i` on, with `pids` still to see and room for `room` entries
unfoldable pub info_loop : ℕ → (ℕ → List ℕ) → ℕ → ℕ → Kernel → List ProcessInfo
info_loop zero names i room k = []
info_loop (suc pids) names i zero k = []
info_loop (suc pids) names i (suc room) k =
    let skipped = info_loop pids names (i + 1) (suc room) k in
    let rest = info_loop pids names (i + 1) room k in
    elim (get_process_by_pid i k) [
      | none ↦ skipped
      | some p ↦ info_of names (get_foreground_process_pid k) p ∷ rest
    ]

-- the entries of the array, whose number is the answer; `none` is -1. The array is not NULL.
unfoldable pub get_process_info : (ℕ → List ℕ) → ℕ → Kernel → Option (List ProcessInfo)
get_process_info names max_count k =
    if max_count == 0 then none else some (info_loop max_processes names 0 max_count k)

-- the processes of a number of pids from `i` on, in order
unfoldable pub processes_from : ℕ → ℕ → Kernel → List Process
processes_from zero i k = []
processes_from (suc pids) i k = elim (get_process_by_pid i k) [
  | none ↦ processes_from pids (i + 1) k
  | some p ↦ p ∷ processes_from pids (i + 1) k
]

-- the text up to its first 0, the end of a string
abbrev pub until_nul : List ℕ → List ℕ
until_nul [] = []
until_nul (c ∷ t) = if c == 0 then [] else c ∷ until_nul t

-- The entry tells of the process, with at most 63 bytes of its name and a 0 behind them.
pub record Describes (names : ℕ → List ℕ) (foreground : ℕ) (p : Process) (i : ProcessInfo)
    : Type 0 where
  pub pid : i.pid ≡ p.pid
  pub parent_pid : i.parent_pid ≡ p.parent_pid
  pub priority : i.priority ≡ p.priority
  pub status : i.status ≡ p.status
  pub stack_base : i.stack_base ≡ p.stack_base
  pub stack_pos : i.stack_pos ≡ p.stack_pos
  pub in_foreground : (i.is_foreground ≡ true) ↔ (p.pid ≡ foreground)
  pub name : i.name ≡ take 63 (until_nul (names p.name)) ++ (0 ∷ [])

-- The entries tell of the processes one by one.
pub data AllDescribe (names : ℕ → List ℕ) (foreground : ℕ)
    : List Process → List ProcessInfo → Type 0 where
  none_left : AllDescribe names foreground [] []
  next :
      (p : Process) (i : ProcessInfo) (ps : List Process) (is : List ProcessInfo)
      → Describes names foreground p i
      → AllDescribe names foreground ps is
      → AllDescribe names foreground (p ∷ ps) (i ∷ is)

copy_name-take :
    (left : ℕ) (name : List ℕ) → copy_name left name ≡ take left (until_nul name) ++ (0 ∷ [])
unfolding copy_name
copy_name-take zero name = refl
copy_name-take (suc left) [] = refl
copy_name-take (suc left) (c ∷ name) = elim (Bool-cases (c == 0)) [
  | inl e ↦ rw e refl
  | inr e ↦ rw e (ap (λ r. c ∷ r) (copy_name-take left name))
]

info_of-Describes :
    (names : ℕ → List ℕ) (foreground : ℕ) (p : Process)
    → Describes names foreground p (info_of names foreground p)
info_of-Describes names foreground p = record {
  pid = refl;
  parent_pid = refl;
  priority = refl;
  status = refl;
  stack_base = refl;
  stack_pos = refl;
  in_foreground = (λ e. ground (arith, e), λ e. ground (arith, e));
  name = copy_name-take 63 (names p.name);
}

info_loop-AllDescribe :
    (names : ℕ → List ℕ) (pids i room : ℕ) (k : Kernel)
    → AllDescribe names k.foreground_pid
        (take room (processes_from pids i k))
        (info_loop pids names i room k)
unfolding info_loop processes_from
info_loop-AllDescribe names zero i zero k = none_left
info_loop-AllDescribe names zero i (suc room) k = none_left
info_loop-AllDescribe names (suc pids) i zero k = none_left
info_loop-AllDescribe names (suc pids) i (suc room) k =
    elim (Option-cases (get_process_by_pid i k)) [
      | inl e ↦
          rw (e, info_loop, processes_from) (info_loop-AllDescribe names pids (i + 1) (suc room) k)
      | inr (p, e) ↦
          rw (e, info_loop, processes_from)
            (next p _ _ _ (info_of-Describes names k.foreground_pid p)
              (info_loop-AllDescribe names pids (i + 1) room k))
    ]

-- With room for one entry at least, `get_process_info` fills entries for the processes of the table in
-- the order of their pids, as many as there is room for. Each entry has the pid, the parent's pid, the
-- priority, the status and the stack of its process, whether it is the one in the foreground, and its
-- name up to the end of the string, at most 63 bytes and the closing 0.
pub get_process_info-take :
    (names : ℕ → List ℕ) (max_count : ℕ) (k : Kernel)
    → 0 < max_count
    → (l : List ProcessInfo) × (get_process_info names max_count k ≡ some l)
      × AllDescribe names k.foreground_pid (take max_count (processes_from max_processes 0 k)) l
unfolding get_process_info
get_process_info-take names max_count k some_room =
    let room : (max_count == 0) ≡ false = ground arith in
    (_, rw room refl, info_loop-AllDescribe names max_processes 0 max_count k)
