-- ===== src/Memory/Release.antt =====
-- The search of `mm_free` through the free list.
use so_tpe.Common.{
  ℕ, zero, suc, ◌+◌, ◌-◌, ◌*◌, ◌≤◌, ◌<◌, ◌≡◌, ◌≢◌, ◌⊎◌, refl, ap, sym, ◌∙◌, true, false, ◌||◌,
  Option, some, List, [], ◌∷◌, arith, length, ltb, ◌==◌, u32, Bool-cases, inl, inr,
}
use so_tpe.Memory.{
  Heap, next_of, size_of, units_to_bytes, is_between, is_outside, place, join_next, join_previous,
  mm_free,
}
use so_tpe.Memory.FirstFit.{Chain}
use so_tpe.Memory.Joined.{Joined, join_next-Grown, join_previous-Joined, fits-apart, Joined-counted}

-- None of the blocks is `b`.
abbrev pub IsApart : ℕ → List ℕ → Type 0
IsApart b [] = Unit
IsApart b (x ∷ xs) = (x ≢ b) × IsApart b xs

-- A block of the list that the freed block comes behind, between it and the next one, or past the
-- highest address or before the lowest.
pub record Placed (b : ℕ) (h : Heap) (r : Option ℕ) : Type 0 where
  pub current : ℕ
  pub stops : r ≡ some current
  pub fits :
      (is_between b current (next_of current h) || is_outside b current (next_of current h)) ≡ true

-- where a search that has not ended may be, on the way to `last`
abbrev Ahead : ℕ → ℕ → ℕ → Type 0
Ahead b p last = ((p < b) × ((last ≤ p) ⊎ (b < last))) ⊎ ((b < p) × (b < last) × (last ≤ p))

-- it ends at the last step at the latest,
ends-here : (b p last : ℕ) → Ahead b p last → (is_between b p last || is_outside b p last) ≡ true
ends-here b p last (inl (below, inl back)) = ground arith
ends-here b p last (inl (below, inr over)) = ground arith
ends-here b p last (inr (above, over, back)) = ground arith

-- and a step that does not end it leads on.
goes-on :
    (b p y last : ℕ)
    → y ≢ b
    → (is_between b p y || is_outside b p y) ≡ false
    → Ahead b p last
    → Ahead b y last
goes-on b p y last other e (inl (below, inl back)) = inl (ground arith, inl (ground arith))
goes-on b p y last other e (inl (below, inr over)) = inl (ground arith, inr over)
goes-on b p y last other e (inr (above, over, back)) = elim (Bool-cases (ltb y b)) [
  | inl low ↦ inl (ground arith, inr over)
  | inr high ↦ inr (ground arith, over, ground arith)
]

Ahead-start : (b x : ℕ) → x ≢ b → Ahead b x x
Ahead-start b x other = elim (Bool-cases (ltb x b)) [
  | inl low ↦ inl (ground arith, inl (omega arith))
  | inr high ↦ inr (ground arith, ground arith, omega arith)
]

place-Placed :
    (fuel b p last : ℕ) (bs : List ℕ) (h : Heap)
    → length bs < fuel
    → Chain h p bs last
    → IsApart b bs
    → Ahead b p last
    → Placed b h (place fuel b p h)
unfolding place
place-Placed zero b p last bs h more chain apart a = absurd (omega arith)
place-Placed (suc fuel) b p last [] h more chain apart a =
    let e : (is_between b p (next_of p h) || is_outside b p (next_of p h)) ≡ true =
      ap (λ y. is_between b p y || is_outside b p y) chain ∙ ends-here b p last a in
    rw e (record { current = p; stops = refl; fits = e })
place-Placed (suc fuel) b p last (y ∷ bs) h more (at, ne, chain) apart a =
    elim (Bool-cases (is_between b p (next_of p h) || is_outside b p (next_of p h))) [
      | inl e ↦ rw e (record { current = p; stops = refl; fits = e })
      | inr e ↦
          let step : (is_between b p y || is_outside b p y) ≡ false =
            ap (λ z. is_between b p z || is_outside b p z) (sym at) ∙ e in
          rw e (
            rw at (
              place-Placed fuel b y last bs h (omega arith) chain apart.1
                (goes-on b p y last apart.0 step a)))
    ]

-- What `mm_free` leaves: the freed block behind one that it lies behind by the addresses, joined to
-- its neighbours, and its bytes counted.
pub record Released (b : ℕ) (h : Heap) (r : Option Heap) : Type 0 where
  pub after : Heap
  pub returned : r ≡ some after
  pub current : ℕ
  pub fits :
      (is_between b current (next_of current h) || is_outside b current (next_of current h)) ≡ true
  pub joined : Joined b current h after
  pub free : after.free_memory ≡ u32 (h.free_memory + size_of b h * 16)

join_next-free : (b c : ℕ) (h : Heap) → (join_next b c h).free_memory ≡ h.free_memory
unfolding join_next
join_next-free b c h = ground arith

join_previous-free : (b c : ℕ) (h : Heap) → (join_previous b c h).free_memory ≡ h.free_memory
unfolding join_previous
join_previous-free b c h = ground arith

-- On a free list that leads from `freeList` through the blocks `bs` back to it, whatever their order,
-- `mm_free` of a block that is none of them ends, on one step for each block of the list. The block is
-- put behind one that lies below it while the next lies above it, or behind one from which the
-- addresses do not rise, if it lies above that one or below the next. It takes in the next block, if
-- it ends where that one starts, and is taken in by the one before, if that one ends where it starts;
-- the block that it becomes leads on, and the list starts there; no other block changes; and
-- `freeMemory` goes up by the block's bytes, in a 32-bit word.
pub mm_free-Released :
    (fuel ptr : ℕ) (bs : List ℕ) (h : Heap)
    → 0 < ptr
    → h.free_list ≢ ptr - 1
    → IsApart (ptr - 1) bs
    → Chain h h.free_list bs h.free_list
    → length bs < fuel
    → Released (ptr - 1) h (mm_free fuel ptr h)
unfolding mm_free
mm_free-Released fuel ptr bs h some_ptr ne apart chain more =
    let b = ptr - 1 in
    let h' : Heap = record h { free_memory = u32 (h.free_memory + units_to_bytes (size_of b h)) } in
    let p : Placed b h' (place fuel b h.free_list h') =
      place-Placed fuel b h.free_list h.free_list bs h' more chain apart
        (Ahead-start b h.free_list ne) in
    let real : (ptr == 0) ≡ false = ground arith in
    rw real (
      rw p.stops (record {
        after = join_previous b p.current (join_next b p.current h');
        returned = refl;
        current = p.current;
        fits = p.fits;
        joined =
            let (apart, apart') = fits-apart b p.current (next_of p.current h) p.fits in
            Joined-counted b p.current _ h _
              (join_previous-Joined b p.current h' _ apart (join_next-Grown b p.current h' apart'));
        free = join_previous-free b p.current _ ∙ join_next-free b p.current h' ∙ counted;
      }))
  where
    counted :
        u32 (h.free_memory + units_to_bytes (size_of (ptr - 1) h))
        ≡ u32 (h.free_memory + size_of (ptr - 1) h * 16)
    counted = omega arith
