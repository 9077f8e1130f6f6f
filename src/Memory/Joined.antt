-- ===== src/Memory/Joined.antt =====
-- The two joins of `mm_free` with the blocks around the freed one.
use so_tpe.Common.{
  ℕ, ◌+◌, ◌≡◌, ◌≢◌, refl, ap, ◌∙◌, Bool, true, false, ◌||◌, arith, ◌==◌, u32, if◌then◌else◌,
  Bool-cases, inl, inr,
}
use so_tpe.Memory.{Heap, next_of, size_of, is_between, is_outside, join_next, join_previous}

-- whether the freed block and the next one, or the one before, are neighbours; the block that it
-- becomes part of, its units with those of the next, and the block behind it
module _ (b current : ℕ) (h : Heap) where
  abbrev pub meets_next : Bool
  meets_next = b + size_of b h == next_of current h

  abbrev pub meets_previous : Bool
  meets_previous = current + size_of current h == b

  abbrev pub whole : ℕ
  whole = if meets_previous then current else b

  abbrev pub grown : ℕ
  grown = if meets_next then u32 (size_of b h + size_of (next_of current h) h) else size_of b h

  abbrev pub follower : ℕ
  follower = if meets_next then next_of (next_of current h) h else next_of current h

-- The blocks of `after` are those of `h` with `b` behind `current`: joined to the next block if it
-- ends where that one starts, and to `current` if that one ends where it starts. The list starts at
-- the block that it has become.
pub record Joined (b current : ℕ) (h after : Heap) : Type 0 where
  pub starts : after.free_list ≡ whole b current h
  pub leads : next_of (whole b current h) after ≡ follower b current h
  pub size : size_of (whole b current h) after ≡ (
      if meets_previous b current h
      then u32 (size_of current h + grown b current h)
      else grown b current h)
  pub led_to :
      meets_previous b current h ≡ false
      → (next_of current after ≡ b) × (size_of current after ≡ size_of current h)
  pub others : (x : ℕ) → x ≢ b → x ≢ current → after.blocks x ≡ h.blocks x

-- the first join
pub record Grown (b current : ℕ) (h after : Heap) : Type 0 where
  pub leads : next_of b after ≡ follower b current h
  pub size : size_of b after ≡ grown b current h
  pub others : (x : ℕ) → x ≢ b → after.blocks x ≡ h.blocks x

pub join_next-Grown :
    (b current : ℕ) (h : Heap) → next_of current h ≢ b → Grown b current h (join_next b current h)
unfolding join_next
join_next-Grown b current h ne =
    let same : (b == b) ≡ true = ground arith in
    let other : (next_of current h == b) ≡ false = ground arith in
    elim (Bool-cases (meets_next b current h)) [
      | inl n ↦ rw n (record {
        leads = ground (arith, n);
        size = ground (arith, n);
        others = λ x apart. let e : (x == b) ≡ false = ground arith in rw e refl;
      })
      | inr n ↦ rw n (record {
        leads = ground (arith, n);
        size = ground (arith, n);
        others = λ x apart. let e : (x == b) ≡ false = ground arith in rw e refl;
      })
    ]

pub join_previous-Joined :
    (b current : ℕ) (h h' : Heap)
    → current ≢ b
    → Grown b current h h'
    → Joined b current h (join_previous b current h')
unfolding join_previous
join_previous-Joined b current h h' ne g =
    let same_b : (b == b) ≡ true = ground arith in
    let same : (current == current) ≡ true = ground arith in
    let other : (current == b) ≡ false = ground arith in
    let other' : (b == current) ≡ false = ground arith in
    let kept : h'.blocks current ≡ h.blocks current = g.others current ne in
    elim (Bool-cases (meets_previous b current h)) [
      | inl p ↦ rw (ap (λ m. current + m.block_size == b) kept ∙ p) (record {
        starts = ground (arith, p);
        leads = ground (arith, p, g.leads);
        size = ground (arith, p, g.size, kept);
        led_to = λ z. absurd (ground (arith, p, z));
        others = λ x apart apart'.
            let e : (x == current) ≡ false = ground arith in rw e (g.others x apart);
      })
      | inr p ↦ rw (ap (λ m. current + m.block_size == b) kept ∙ p) (record {
        starts = ground (arith, p);
        leads = ground (arith, p, g.leads);
        size = ground (arith, p, g.size);
        led_to = λ z. (ground arith, ground (arith, kept));
        others = λ x apart apart'.
            let e : (x == current) ≡ false = ground arith in rw e (g.others x apart);
      })
    ]

-- counting the bytes leaves the blocks
pub Joined-counted :
    (b current free : ℕ) (h after : Heap)
    → Joined b current (record h { free_memory = free }) after
    → Joined b current h after
Joined-counted b current free h after j = record {
  starts = j.starts;
  leads = j.leads;
  size = j.size;
  led_to = j.led_to;
  others = j.others;
}

-- the place is not the freed block, and neither is the next
pub fits-apart : (b x y : ℕ) → (is_between b x y || is_outside b x y) ≡ true → (x ≢ b) × (y ≢ b)
fits-apart b x y e = (λ z. ground (arith, e, z), λ z. ground (arith, e, z))
