-- ===== src/Buddy/Sound.antt =====
-- What any calls of the allocator leave, and the statistics then.
use so_tpe.Common.{
  ℕ, zero, suc, ◌+◌, ◌-◌, ◌*◌, ◌^◌, ◌≤◌, ◌<◌, ◌≡◌, inl, inr, refl, ap, sym, subst, ◌∙◌, none, some,
  List, [], ◌∷◌, ◌++◌, arith, length,
}
use so_tpe.Buddy.{
  Zone, Page, max_order, order_of, mm_init, mm_alloc, mm_free, mm_get_stats, free_pages_below, u64,
}
use so_tpe.Buddy.Powers.{pow_pos}
use so_tpe.Buddy.Blocks.{IsWf}
use so_tpe.Buddy.Weight.{pages_below}
use so_tpe.Buddy.Take.{Taken}
use so_tpe.Buddy.Merge.{Merged}
use so_tpe.Buddy.Start.{mm_init-Started}
use so_tpe.Buddy.Calls.{mm_alloc-Given, mm_free-Merged}
use so_tpe.Buddy.Runs.{
  Holding, Runs, pages_held, Sound, AllOwned-used, AllOwned-apart, fresh-AllApart, pick,
}
use native.Mathlib.Nat.{mul-le-mul_left}
use mathlib.Core.Option.{none-ne-some, some-injective}

module _ {start size : ℕ} where
  mm_init-Sound : (old : ℕ → Page) → Sound start size (mm_init start size old) []
  mm_init-Sound old =
      let s = mm_init-Started start size old in
      record {
        wf = s.wf;
        base = s.base;
        total = s.total;
        owned = tt;
        none_lost = omega (arith, s.free);
      }

  Taken-Sound :
      (page o : ℕ) (z z' : Zone) (held : List Holding)
      → Sound start size z held
      → o ≤ max_order
      → Taken page o z z'
      → Sound start size z' (record { page = page; order = o } ∷ held)
  Taken-Sound page o z z' held s le t =
      let g : Holding = record { page = page; order = o } in
      record {
        wf = t.wf;
        base = t.base ∙ s.base;
        total = t.total ∙ s.total;
        owned = (
          record { small = le; used = t.used; order = t.order },
          fresh-AllApart z g held t.was_free s.owned,
          AllOwned-used z z' t.base t.total held t.outside s.owned,
        );
        none_lost = omega (arith, t.free, s.none_lost, t.total);
      }

  mm_alloc-Sound :
      (n page : ℕ) (z z' : Zone) (held : List Holding)
      → Sound start size z held
      → n + 4095 < 4294967296
      → mm_alloc n z ≡ (some (start + page * 4096), z')
      → Sound start size z' (record { page = page; order = order_of n } ∷ held)
  mm_alloc-Sound n page z z' held s small e = elim (mm_alloc-Given n z s.wf small) [
    | inl (why, nothing) ↦ absurd (none-ne-some _ (sym (ap (λ x. x.0) nothing) ∙ ap (λ x. x.0) e))
    | inr g ↦
        let a : z.heap_base + g.page * 4096 ≡ start + page * 4096 =
          some-injective _ _ (sym g.answer ∙ ap (λ x. x.0) e) in
        let same : g.page ≡ page = omega (arith, s.base) in
        let t = subst (λ x. Taken x (order_of n) z (mm_alloc n z).1) same g.taken in
        Taken-Sound page (order_of n) z z' held s g.small
          (subst (λ x. Taken page (order_of n) z x) (ap (λ x. x.1) e) t)
  ]

  mm_alloc-none-Sound :
      (n : ℕ) (z z' : Zone) (held : List Holding)
      → Sound start size z held
      → n + 4095 < 4294967296
      → mm_alloc n z ≡ (none, z')
      → Sound start size z' held
  mm_alloc-none-Sound n z z' held s small e = elim (mm_alloc-Given n z s.wf small) [
    | inl (why, nothing) ↦
        subst (λ x. Sound start size x held) (sym (ap (λ x. x.1) nothing) ∙ ap (λ x. x.1) e) s
    | inr g ↦ absurd (none-ne-some _ (sym (ap (λ x. x.0) e) ∙ g.answer))
  ]

  mm_free-Sound :
      (z : Zone) (before : List Holding) (h : Holding) (after : List Holding)
      → 0 < start
      → Sound start size z (before ++ (h ∷ after))
      → Sound start size (mm_free (start + h.page * 4096) z) (before ++ after)
  mm_free-Sound z before h after placed s =
      let p = pick z before h after s.owned in
      let m =
        subst (λ b. Merged h.page h.order z (mm_free (b + h.page * 4096) z)) s.base
          (mm_free-Merged h.page h.order z s.wf (omega (arith, s.base)) p.own) in
      record {
        wf = m.wf;
        base = m.base ∙ s.base;
        total = m.total ∙ s.total;
        owned = AllOwned-apart z _ m.base m.total h (before ++ after) m.outside p.apart p.rest;
        none_lost = omega (arith, m.free, s.none_lost, m.total, p.sum);
      }

-- After `mm_init` of a memory that starts above address 0, and any calls of `mm_alloc`, of sizes at least
-- 4096 below 2^32, and of `mm_free`, of blocks that are held, the zone is well formed; the blocks that are
-- held lie within it, each aligned to its size and with no page free, and no two of them share a page;
-- and the pages of the lists and those of the held blocks together are all of the pages. So once every
-- block is given back, all of the memory is free again.
pub Runs-Sound :
    (start size : ℕ) (old : ℕ → Page) (z : Zone) (held : List Holding)
    → 0 < start
    → Runs start size old z held
    → Sound start size z held
Runs-Sound start size old _ _ placed Runs.starts = mm_init-Sound old
Runs-Sound start size old _ _ placed (Runs.allocates n page z z' hs r small e) =
    mm_alloc-Sound n page z z' hs (Runs-Sound start size old z hs placed r) small e
Runs-Sound start size old _ _ placed (Runs.fails n z z' hs r small e) =
    mm_alloc-none-Sound n z z' hs (Runs-Sound start size old z hs placed r) small e
Runs-Sound start size old _ _ placed (Runs.frees z before h after r) =
    mm_free-Sound z before h after placed (Runs-Sound start size old z _ placed r)

times_le : (a b : ℕ) → 1 ≤ b → a ≤ a * b
times_le a b pos = subst (λ x. x ≤ a * b) (omega arith) (mul-le-mul_left {m = 1} {n = b} a pos)

-- The counts are those of the lists, as long as nothing wraps around.
free_pages_below_lem :
    (n : ℕ) (z : Zone) → IsWf z → pages_below n z ≤ 2048 → free_pages_below n z ≡ pages_below n z
free_pages_below_lem zero z w small = refl
free_pages_below_lem (suc n) z w small =
    let rest = free_pages_below_lem n z w (omega arith) in
    let count : z.free_block_count n ≡ length (z.free_lists n) =
      omega (arith, w.counted n, times_le (length (z.free_lists n)) (2 ^ n) (pow_pos n)) in
    rw (count, rest) (omega arith)

-- `mm_get_stats` after such calls: all of the memory's whole pages, and those that are not held, in bytes.
pub mm_get_stats-Runs :
    (start size : ℕ) (old : ℕ → Page) (z : Zone) (held : List Holding)
    → 0 < start
    → Runs start size old z held
    → mm_get_stats z ≡ (z.total_pages * 4096, (z.total_pages - pages_held held) * 4096)
mm_get_stats-Runs start size old z held placed r =
    let s = Runs-Sound start size old z held placed r in
    let free = free_pages_below_lem (max_order + 1) z s.wf (omega (arith, s.none_lost, s.total)) in
    let total : u64 (z.total_pages * 4096) ≡ z.total_pages * 4096 = omega (arith, s.total) in
    let left : u64 (free_pages_below (max_order + 1) z * 4096)
        ≡ (z.total_pages - pages_held held) * 4096 =
      omega (arith, free, s.none_lost, s.total) in
    rw (total, left) refl
