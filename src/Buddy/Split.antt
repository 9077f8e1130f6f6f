-- ===== src/Buddy/Split.antt =====
-- The inner loop of `buddy_alloc_pages`: the upper half of a block goes back, until the order is right.
use so_tpe.Common.{ℕ, zero, suc, ◌+◌, ◌^◌, ◌≤◌, ◌<◌, ◌≡◌, refl, ap, sym, subst, ◌∙◌, arith}
use so_tpe.Buddy.{
  Zone, base_frame, max_order, split, add_to_free_list, frame_to_page, page_to_frame_number,
}
use so_tpe.Buddy.Powers.{Aligned, Aligned-half, pow_pos}
use so_tpe.Buddy.Blocks.{In, Used, IsWf}
use so_tpe.Buddy.Moves.{add-not-In}
use so_tpe.Buddy.Adding.{add-IsWf}
use so_tpe.Buddy.Weight.{free_pages, add-free_pages}
use native.Mathlib.Nat.{two-pow-succ, add-suc}

-- The lower block of the order is left of the one of `n` orders above; the rest of it is free, and
-- nothing outside has changed.
pub record Halved (n p o : ℕ) (z z' : Zone) : Type 0 where
  pub wf : IsWf z'
  pub used : Used z' p o
  pub outside : (i : ℕ) → ¬ In p (o + n) i → z'.pages i ≡ z.pages i
  pub total : z'.total_pages ≡ z.total_pages
  pub base : z'.heap_base ≡ z.heap_base
  pub free : free_pages z' + 2 ^ o ≡ free_pages z + 2 ^ (o + n)

-- The halves of a block whose pages are used.
Used-half : (z : Zone) (p o : ℕ) → Used z p (suc o) → Used z p o × Used z (p + 2 ^ o) o
Used-half z p o (fits, pages) =
    let d : 2 ^ suc o ≡ 2 ^ o + 2 ^ o = two-pow-succ o in
    let (low, high) = Aligned-half o (base_frame z + p) fits.aligned in
    let e : base_frame z + p + 2 ^ o ≡ base_frame z + (p + 2 ^ o) = omega arith in
    let inside = fits.inside in
    (
      (record { aligned = low; inside = omega arith }, λ i (le, lt). pages i (le, omega arith)),
      (
        record { aligned = subst (Aligned o) e high; inside = omega arith },
        λ i (le, lt). pages i (omega arith, omega arith),
      ),
    )

-- A block goes back whose upper half is `p'`, beside the lower one, which stays used.
Used-beside : (z : Zone) (p o : ℕ) → Used z p o → Used (add_to_free_list (p + 2 ^ o) o z) p o
unfolding add_to_free_list
Used-beside z p o (fits, pages) = (
  record { aligned = fits.aligned; inside = fits.inside },
  λ i (le, lt).
      ap (λ x. x.is_free) (add-not-In z (p + 2 ^ o) o i (λ (le', lt'). absurd (omega arith)))
      ∙ pages i (le, lt),
)

module _ (z : Zone) (p o n : ℕ) (w : IsWf z) where
  buddy_page : p < z.total_pages → (b : ℕ) → frame_to_page z (page_to_frame_number z p + b) ≡ p + b
  buddy_page inside b = omega (arith, w.frames p inside)

  -- One turn and those that follow it.
  Halved-step :
      (z' : Zone)
      → o + n < max_order
      → Halved n p o (add_to_free_list (p + 2 ^ (o + n)) (o + n) z) z'
      → Halved (suc n) p o z z'
  unfolding add_to_free_list
  Halved-step z' le h =
      let d : 2 ^ (o + suc n) ≡ 2 ^ (o + n) + 2 ^ (o + n) =
        ap (λ x. 2 ^ x) (add-suc o n) ∙ two-pow-succ (o + n) in
      let buddy = p + 2 ^ (o + n) in
      record {
        wf = h.wf;
        used = h.used;
        outside = λ i out.
            h.outside i (λ (le', lt'). out (le', omega arith))
            ∙ add-not-In z buddy (o + n) i (λ (le', lt'). out (omega arith, omega arith));
        total = h.total;
        base = h.base;
        free =
            let f = add-free_pages buddy (o + n) z (omega arith) in
            let g = h.free in omega (arith, f, g, d);
      }

pub split-Halved :
    (n p o : ℕ) (z : Zone)
    → IsWf z
    → Used z p (o + n)
    → o + n ≤ max_order
    → Halved n p o z (split n p o z)
unfolding split
split-Halved zero p o z w used le =
    let e : o + 0 ≡ o = omega arith in
    record {
      wf = w;
      used = subst (Used z p) e used;
      outside = λ i out. refl;
      total = refl;
      base = refl;
      free = ap (λ x. free_pages z + 2 ^ x) (sym e);
    }
split-Halved (suc n) p o z w used le =
    let (low, high) = Used-half z p (o + n) (subst (Used z p) (add-suc o n) used) in
    let inside = low.0.inside in
    let at = buddy_page z p o n w (omega (arith, pow_pos (o + n))) (2 ^ (o + n)) in
    let z1 = add_to_free_list (p + 2 ^ (o + n)) (o + n) z in
    rw at (
      Halved-step z p o n w (split n p o z1) (omega arith)
        (split-Halved n p o z1 (add-IsWf z _ _ w high) (Used-beside z p (o + n) low) (omega arith)))
