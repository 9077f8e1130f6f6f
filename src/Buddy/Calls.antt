-- ===== src/Buddy/Calls.antt =====
-- `mm_alloc` and `mm_free` of a zone that is well formed.
use so_tpe.Common.{
  ℕ, zero, suc, ◌+◌, ◌-◌, ◌*◌, ◌/◌, ◌^◌, ◌≤◌, ◌<◌, ◌≡◌, ◌⊎◌, inl, inr, refl, ap, subst, Option,
  none, some, false, ◌&&◌, ◌||◌, arith, ltb, ltb→lt, leb, ◌==◌, Bool-cases,
}
use so_tpe.Buddy.{Zone, max_order, order_from, order_of, pages_needed, mm_alloc, mm_free, address}
use so_tpe.Buddy.Powers.{pow_pos}
use so_tpe.Buddy.Blocks.{Used, IsWf}
use so_tpe.Buddy.Take.{Taken, NoneFrom, First, buddy_alloc_pages-Answer}
use so_tpe.Buddy.Merge.{Merged, buddy_free_pages-Merged}

-- The order is the least one whose blocks have the pages, or past the largest.
pub record Least (pages o : ℕ) : Type 0 where
  pub enough : o ≤ max_order → pages ≤ 2 ^ o
  pub least : (r : ℕ) → r < o → 2 ^ r < pages

order_from-Least :
    (left o pages : ℕ)
    → o + left ≡ max_order + 1
    → ((r : ℕ) → r < o → 2 ^ r < pages)
    → Least pages (order_from left o pages)
unfolding order_from
order_from-Least zero o pages e below = record {
  enough = λ le. absurd (omega arith);
  least = below;
}
order_from-Least (suc left) o pages e below =
    elim (Bool-cases (ltb (2 ^ o) pages && leb o max_order)) [
      | inr stop ↦ rw (stop, order_from) (record { enough = λ le. ground arith; least = below })
      | inl go ↦
          rw (go, order_from)
            (order_from-Least left (o + 1) pages (omega arith) (λ r lt. elim (Bool-cases (r == o)) [
              | inl same ↦
                  let e' : o ≡ r = ground arith in subst (λ x. 2 ^ x < pages) e' (ground arith)
              | inr less ↦ below r (ground arith)
            ]))
    ]

pub order_of-Least : (size : ℕ) → Least (pages_needed size) (order_of size)
order_of-Least size =
    order_from-Least (max_order + 1) 0 (pages_needed size) (omega arith)
      (λ r lt. absurd (omega arith))

-- `mm_alloc` gives NULL and changes nothing: for no bytes, for more pages than the largest block has,
-- or where no list of a large enough order has a block.
abbrev pub Refused : ℕ → Zone → Option ℕ × Zone → Type 0
Refused size z r =
    ((size ≡ 0)
      ⊎ ((max_order < order_of size) ⊎ NoneFrom (order_of size) (max_order + 1 - order_of size) z))
    × (r ≡ (none, z))

-- `mm_alloc` gives the address of a block's first page. The block has the least order whose blocks hold
-- the bytes, and is taken from the zone.
pub record Given (size : ℕ) (z : Zone) (r : Option ℕ × Zone) : Type 0 where
  pub page : ℕ
  pub answer : r.0 ≡ some (z.heap_base + page * 4096)
  pub small : order_of size ≤ max_order
  pub enough : size ≤ 2 ^ order_of size * 4096
  pub least : (o : ℕ) → o < order_of size → 2 ^ o * 4096 < size
  pub taken : Taken page (order_of size) z r.1

enough_bytes :
    (size o : ℕ)
    → 0 < size
    → size + 4095 < 4294967296
    → pages_needed size ≤ 2 ^ o
    → size ≤ 2 ^ o * 4096
enough_bytes size o some_bytes small le = omega arith

least_bytes :
    (size o : ℕ) → 2 ^ o < pages_needed size → size + 4095 < 4294967296 → 2 ^ o * 4096 < size
least_bytes size o lt small = omega arith

module _ (size : ℕ) (z : Zone) (w : IsWf z) (small : size + 4095 < 4294967296) where
  First-Given :
      (p : Option ℕ) (z' : Zone)
      → 0 < size
      → order_of size ≤ max_order
      → First (order_of size) z (p, z')
      → Given size z (elim p [ none ↦ (none, z') | some x ↦ (some (address z' x), z') ])
  First-Given p z' some_bytes le f =
      let l = order_of-Least size in
      let frame =
        f.taken.wf.frames f.page (omega (arith, f.taken.used.0.inside, pow_pos (order_of size))) in
      let at : address z' f.page ≡ z.heap_base + f.page * 4096 =
        omega (arith, frame, f.taken.base) in
      rw f.answer (record {
        page = f.page;
        answer = ap some at;
        small = le;
        enough = enough_bytes size (order_of size) some_bytes small (l.enough le);
        least = λ o lt. least_bytes size o (l.least o lt) small;
        taken = f.taken;
      })

  -- On a well-formed zone and a size that is at least 4096 below 2^32, `mm_alloc` either gives NULL and
  -- changes nothing, for the size 0, for a size that needs more pages than the largest block has, or
  -- where no list of the order or a larger one has a block; or it gives the address of a block of the
  -- least order whose blocks hold the bytes. The pages of that block were free and are used now, the
  -- pages that were used before are as they were, the zone is well formed again, and its free pages have
  -- gone down by those of the block.
  pub mm_alloc-Given : Refused size z (mm_alloc size z) ⊎ Given size z (mm_alloc size z)
  unfolding mm_alloc
  mm_alloc-Given = elim (Bool-cases (size == 0)) [
    | inl empty ↦ rw empty (inl (inl (ground arith), refl))
    | inr bytes ↦ elim (Bool-cases (ltb max_order (order_of size))) [
      | inl large ↦ rw (bytes, large) (inl (inr (inl (ltb→lt _ _ large)), refl))
      | inr le ↦
          rw (bytes, le)
            (elim (buddy_alloc_pages-Answer (order_of size) z w (ground arith)) [
              | inl (empty, e) ↦ rw e (inl (inr (inr empty), ap (λ x. (none, x.1)) e))
              | inr f ↦ inr (First-Given _ _ (ground arith) (ground arith) f)
            ])
    ]
  ]

-- a block that has been given out, by its first page and its order
pub record Owned (z : Zone) (page o : ℕ) : Type 0 where
  pub small : o ≤ max_order
  pub used : Used z page o
  pub order : (z.pages page).order ≡ o

-- `mm_free` of the address of a block that was given out
pub mm_free-Merged :
    (p o : ℕ) (z : Zone)
    → IsWf z
    → 0 < z.heap_base
    → Owned z p o
    → Merged p o z (mm_free (z.heap_base + p * 4096) z)
unfolding mm_free
mm_free-Merged p o z w placed own =
    let inside : p < z.total_pages = omega (arith, own.used.0.inside, pow_pos o) in
    let ptr = z.heap_base + p * 4096 in
    let page : (ptr - z.heap_base) / 4096 ≡ p = omega arith in
    let real : (ptr == 0) ≡ false = ground arith in
    let within : (ltb ptr z.heap_base || leb (z.heap_base + z.total_pages * 4096) ptr) ≡ false =
      ground (arith, inside) in
    let used = own.used.1 p (omega arith, omega (arith, pow_pos o)) in
    let there : leb z.total_pages p ≡ false = ground (arith, inside) in
    rw (real, within, page, there, used, own.order)
      (buddy_free_pages-Merged p o z w own.used own.small)
