-- ===== src/Syscalls/Memory.antt =====
-- `sys_malloc`, `sys_free` and `sys_mem_state`.
use so_tpe.Common.{ℕ, zero, suc, Bool, Option, none, some, List, [], ◌∷◌, ◌==◌, if◌then◌else◌}
use so_tpe.State.{mm_alloc, mm_free}
use so_tpe.Console.{sub64}
use so_tpe.Syscalls.{Machine, kernel_of, set_kernel, Answer, answer}

-- the allocator's answer; 0 for NULL
unfoldable pub sys_malloc : Machine → Answer × Machine
sys_malloc m =
    let (b, k) = mm_alloc (kernel_of m) in
    (elim b [ none ↦ answer 0 | some n ↦ answer n ], set_kernel k m)

unfoldable pub sys_free : ℕ → Machine → Answer × Machine
sys_free block m = (answer 0, set_kernel (mm_free block (kernel_of m)) m)

-- `while (i < 31 && name[i] != '\0')`, with the number of bytes that may still be copied, then the 0
abbrev pub copy_name : ℕ → List ℕ → List ℕ
copy_name zero name = 0 ∷ []
copy_name (suc left) [] = 0 ∷ []
copy_name (suc left) (c ∷ name) = if c == 0 then 0 ∷ [] else c ∷ copy_name left name

-- what `sys_mem_state` stores through its four pointers, none where a pointer is NULL
pub record Stored : Type 0 where
  pub total : Option ℕ
  pub free : Option ℕ
  pub used : Option ℕ
  pub name : Option (List ℕ)

abbrev pub stored : {A : Type 0} → Bool → A → Option A
stored p a = if p then some a else none

-- from the answers of `mm_get_stats` and `mm_get_name`, and which of the pointers are not NULL
unfoldable pub sys_mem_state : ℕ → ℕ → List ℕ → Bool → Bool → Bool → Bool → Stored
sys_mem_state total free name total_ptr free_ptr used_ptr name_ptr = record {
  total = stored total_ptr total;
  free = stored free_ptr free;
  used = stored used_ptr (sub64 total free);
  name = stored name_ptr (copy_name 31 name);
}
