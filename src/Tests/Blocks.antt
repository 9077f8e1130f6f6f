-- ===== src/Tests/Blocks.antt =====
-- A free list of the sentinel, at 500, and a block of ten units.
use so_tpe.Common.{refl, [], ◌∷◌, ◌==◌, if◌then◌else◌, arith}
use so_tpe.Memory.{Heap, mm_alloc, mm_free, units_needed}
use so_tpe.Memory.FirstFit.{Found, mm_alloc-Found}
use so_tpe.Memory.Release.{Released, mm_free-Released}

abbrev heap : Heap
heap = record {
  blocks = λ a.
      if a == 500
      then record { next = 1000; block_size = 0 }
      else if a == 1000
      then record { next = 500; block_size = 10 }
      else record { next = 0; block_size = 3 };
  free_list = 500;
  total_memory = 208;
  free_memory = 160;
}

mm_alloc-Found_example : Found (units_needed 20) heap (1000 ∷ 500 ∷ []) (mm_alloc 5 20 heap)
mm_alloc-Found_example =
    mm_alloc-Found 5 20 (1000 ∷ []) heap (omega arith) (omega arith) (omega arith)
      (refl, omega arith, refl) (omega arith)

mm_free-Released_example : Released 1010 heap (mm_free 5 1011 heap)
mm_free-Released_example =
    mm_free-Released 5 1011 (1000 ∷ []) heap (omega arith) (omega arith) (omega arith, tt)
      (refl, omega arith, refl) (omega arith)
