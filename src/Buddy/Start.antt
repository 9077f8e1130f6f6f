-- ===== src/Buddy/Start.antt =====
-- `mm_init`: the memory is added block by block.
use so_tpe.Common.{
  ℕ, zero, suc, ◌+◌, ◌-◌, ◌/◌, ◌%◌, ◌^◌, ◌≤◌, ◌<◌, ◌≡◌, inl, inr, refl, ap, sym, subst, ◌∙◌, true,
  false, ◌&&◌, arith, ltb, leb, ◌==◌, Bool-cases, min,
}
use so_tpe.Buddy.{
  Page, Zone, base_frame, max_order, frame_to_page, buddy_free_pages, largest_order, add_blocks,
  empty_zone, mm_init,
}
use so_tpe.Buddy.Powers.{Aligned, Aligned-zero, Aligned-mod, pow_pos}
use so_tpe.Buddy.Blocks.{Used, IsWf}
use so_tpe.Buddy.Weight.{free_pages}
use so_tpe.Buddy.Merge.{Merged, buddy_free_pages-Merged}

-- The order is that of a block that may start at the frame and is not larger than what is left.
record Largest (f nr m o : ℕ) : Type 0 where
  pub small : o ≤ m
  pub aligned : Aligned o f
  pub fits : 2 ^ o ≤ nr

largest_order-Largest : (m f nr : ℕ) → 0 < nr → Largest f nr m (largest_order m f nr)
unfolding largest_order
largest_order-Largest zero f nr some_pages = record {
  small = omega arith;
  aligned = Aligned-zero f;
  fits = omega arith;
}
largest_order-Largest (suc m) f nr some_pages =
    let below = largest_order-Largest m f nr some_pages in
    elim (Bool-cases (f % 2 ^ suc m == 0 && leb (2 ^ suc m) nr)) [
      | inl e ↦ rw e (record {
        small = omega arith;
        aligned = Aligned-mod (suc m) f (ground arith);
        fits = ground arith;
      })
      | inr e ↦ rw e (record {
        small = omega (arith, below.small);
        aligned = below.aligned;
        fits = below.fits;
      })
    ]

-- The zone between two turns, where the first `k` pages have been added.
record Filled (k : ℕ) (z : Zone) : Type 0 where
  pub wf : IsWf z
  pub free : free_pages z ≡ k
  pub above : (i : ℕ) → k ≤ i → i < z.total_pages → (z.pages i).is_free ≡ false

-- the zone is full, and otherwise what it was
pub record Added (z z' : Zone) : Type 0 where
  pub wf : IsWf z'
  pub free : free_pages z' ≡ z.total_pages
  pub total : z'.total_pages ≡ z.total_pages
  pub base : z'.heap_base ≡ z.heap_base

module _ (k o : ℕ) (z : Zone) (l : Largest (base_frame z + k) (z.total_pages - k) max_order o)
    (c : Filled k z) where
  next_block : Used z k o
  next_block = (
    record { aligned = l.aligned; inside = omega (arith, l.fits, pow_pos o) },
    λ i (le, lt). c.above i le (omega (arith, l.fits, pow_pos o)),
  )

  freed : Merged k o z (buddy_free_pages k o z)
  freed = buddy_free_pages-Merged k o z c.wf next_block l.small

  freed-Filled : Filled (k + 2 ^ o) (buddy_free_pages k o z)
  freed-Filled = record {
    wf = freed.wf;
    free = omega (arith, freed.free, c.free);
    above = λ i le inside.
        let f = c.above i (omega (arith, pow_pos o)) (omega (arith, freed.total)) in
        ap (λ x. x.is_free) (freed.outside i f (λ (le', lt). absurd (omega arith))) ∙ f;
  }

-- the turns that follow, as those of the fuller zone
chain-Added :
    (k o : ℕ) (z z' : Zone) (m : Merged k o z (buddy_free_pages k o z))
    → Added (buddy_free_pages k o z) z'
    → Added z z'
chain-Added k o z z' m a = record {
  wf = a.wf;
  free = a.free ∙ m.total;
  total = a.total ∙ m.total;
  base = a.base ∙ m.base;
}

add_blocks-Added :
    (fuel k nr f : ℕ) (z : Zone)
    → nr ≤ fuel
    → nr ≡ z.total_pages - k
    → k ≤ z.total_pages
    → f ≡ base_frame z + k
    → Filled k z
    → Added z (add_blocks fuel f nr z)
unfolding add_blocks
add_blocks-Added zero k nr f z enough e le ef c = record {
  wf = c.wf;
  free = omega (arith, c.free);
  total = refl;
  base = refl;
}
add_blocks-Added (suc fuel) k nr f z enough e le ef c = elim (Bool-cases (nr == 0)) [
  | inl done ↦
      let none_left : nr ≡ 0 = ground arith in
      rw (done, add_blocks)
        (record { wf = c.wf; free = omega (arith, c.free); total = refl; base = refl })
  | inr more ↦
      let o = largest_order max_order f nr in
      let at : frame_to_page z f ≡ k = omega arith in
      let found = largest_order-Largest max_order f nr (ground arith) in
      let l : Largest (base_frame z + k) (z.total_pages - k) max_order o =
        subst (λ x. Largest x (z.total_pages - k) max_order o) ef
          (subst (λ x. Largest f x max_order o) e found) in
      let m = freed k o z l c in
      let base = ap (λ x. x / 4096) m.base in
      let pos = pow_pos o in
      let fits = found.fits in
      rw (more, add_blocks, at)
        (chain-Added k o z _ m (
          add_blocks-Added fuel (k + 2 ^ o) (nr - 2 ^ o) (f + 2 ^ o) (buddy_free_pages k o z)
            (omega arith) (omega (arith, m.total)) (omega (arith, m.total)) (omega (arith, base))
            (freed-Filled k o z l c)))
]

module _ (start num : ℕ) (old : ℕ → Page) where
  not_free : (i : ℕ) → i < num → ((empty_zone start num old).pages i).is_free ≡ false
  unfolding empty_zone
  not_free i inside = ground arith

  frame_of :
      (i : ℕ) → i < num → ((empty_zone start num old).pages i).frame_number ≡ start / 4096 + i
  unfolding empty_zone
  frame_of i inside = let e : ltb i num ≡ true = ground arith in rw e refl

  empty_zone-Filled : Filled 0 (empty_zone start num old)
  unfolding empty_zone
  empty_zone-Filled = record {
    wf = record {
      frames = frame_of;
      blocks = λ p o listed. absurd (omega arith);
      once = λ p o. omega arith;
      covered = λ i inside free. absurd (ground (arith, not_free i inside));
      counted = λ o. refl;
    };
    free = refl;
    above = λ i le inside. not_free i inside;
  }

-- `mm_init` of any start and size and whatever stood in `buddy_pages`: all of the pages that there are,
-- at most 2048, are in the lists, in a zone that is well formed.
pub record Started (start size : ℕ) (z : Zone) : Type 0 where
  pub wf : IsWf z
  pub total : z.total_pages ≡ min (size / 4096) 2048
  pub free : free_pages z ≡ z.total_pages
  pub base : z.heap_base ≡ start

pub mm_init-Started :
    (start size : ℕ) (old : ℕ → Page) → Started start size (mm_init start size old)
unfolding mm_init empty_zone
mm_init-Started start size old =
    let num = min (size / 4096) 2048 in
    let a =
      add_blocks-Added num 0 num (start / 4096) (empty_zone start num old) (omega arith)
        (omega arith) (omega arith) (omega arith) (empty_zone-Filled start num old) in
    record { wf = a.wf; total = a.total; free = a.free ∙ sym a.total; base = a.base }
