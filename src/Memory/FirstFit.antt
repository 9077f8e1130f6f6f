-- ===== src/Memory/FirstFit.antt =====
-- The search of `mm_alloc` through the free list, and the block that it gives.
use so_tpe.Common.{
  ℕ, zero, suc, ◌+◌, ◌-◌, ◌*◌, ◌≤◌, ◌<◌, ◌≡◌, ◌≢◌, ◌⊎◌, refl, ap, true, false, List, [], ◌∷◌, ◌++◌,
  arith, length, leb, ◌==◌, Bool-cases, inl, inr,
}
use so_tpe.Memory.{
  Heap, next_of, size_of, Allocated, null, pointer, carve, take_block, search, units_needed,
  mm_alloc,
}

-- The list leads from the block `p` through the blocks `bs` to `last`, which is none of them.
abbrev pub Chain : Heap → ℕ → List ℕ → ℕ → Type 0
Chain h p [] last = next_of p h ≡ last
Chain h p (b ∷ bs) last = (next_of p h ≡ b) × (b ≢ last) × Chain h b bs last

-- Every block is smaller than the request.
abbrev pub AllSmaller : ℕ → Heap → List ℕ → Type 0
AllSmaller units h [] = Unit
AllSmaller units h (b ∷ bs) = (size_of b h < units) × AllSmaller units h bs

-- The first of the blocks `bs` that has the units, behind the smaller ones `before`, gave its last
-- units to the block at `at`.
pub record Carved (units : ℕ) (h : Heap) (bs : List ℕ) (r : Allocated × Heap) : Type 0 where
  pub before : List ℕ
  pub chosen : ℕ
  pub after : List ℕ
  pub order : bs ≡ before ++ (chosen ∷ after)
  pub smaller : AllSmaller units h before
  pub enough : units ≤ size_of chosen h
  pub at : ℕ
  pub answer : r.0 ≡ pointer (at + 1)
  pub end : at + units ≡ chosen + size_of chosen h
  pub header : size_of at r.1 ≡ units
  pub left : chosen ≢ at → size_of chosen r.1 + units ≡ size_of chosen h
  pub free : r.1.free_memory + units * 16 ≡ h.free_memory

abbrev pub Found : ℕ → Heap → List ℕ → Allocated × Heap → Type 0
Found units h bs r = (AllSmaller units h bs × (r ≡ (null, h))) ⊎ Carved units h bs r

module _ (units : ℕ) (h : Heap) (some_units : 0 < units) (known : h.free_memory < 4294967296)
    (held : units * 16 ≤ h.free_memory) where
  take_block-Carved :
      (p c : ℕ) (rest : List ℕ)
      → units ≤ size_of c h
      → Carved units h (c ∷ rest) (take_block units p c h)
  unfolding take_block carve
  take_block-Carved p c rest enough = elim (Bool-cases (size_of c h == units)) [
    | inl e ↦ rw e (record {
      before = [];
      chosen = c;
      after = rest;
      order = refl;
      smaller = tt;
      enough = enough;
      at = c;
      answer = refl;
      end = ground arith;
      header = ground arith;
      left = λ ne. absurd (ne refl);
      free = omega arith;
    })
    | inr e ↦ rw e (record {
      before = [];
      chosen = c;
      after = rest;
      order = refl;
      smaller = tt;
      enough = enough;
      at = c + (size_of c h - units);
      answer = ap (λ n. pointer (c + n + 1)) (ground arith);
      end = omega arith;
      header = ground arith;
      left = λ ne. ground arith;
      free = omega arith;
    })
  ]

  later-Found :
      (c : ℕ) (bs : List ℕ) (r : Allocated × Heap)
      → size_of c h < units
      → Found units h bs r
      → Found units h (c ∷ bs) r
  later-Found c bs r small (inl (all, e)) = inl ((small, all), e)
  later-Found c bs r small (inr f) = inr (record {
    before = c ∷ f.before;
    chosen = f.chosen;
    after = f.after;
    order = ap (λ l. c ∷ l) f.order;
    smaller = (small, f.smaller);
    enough = f.enough;
    at = f.at;
    answer = f.answer;
    end = f.end;
    header = f.header;
    left = f.left;
    free = f.free;
  })

  search-Found :
      (fuel p : ℕ) (bs : List ℕ)
      → length bs < fuel
      → Chain h p bs h.free_list
      → Found units h (bs ++ (h.free_list ∷ [])) (search fuel units p (next_of p h) h)
  unfolding search
  search-Found zero p bs more chain = absurd (omega arith)
  search-Found (suc fuel) p [] more chain =
      let last : (h.free_list == h.free_list) ≡ true = ground arith in
      rw chain (elim (Bool-cases (leb units (size_of h.free_list h))) [
        | inl e ↦ rw e (inr (take_block-Carved p h.free_list [] (ground arith)))
        | inr e ↦ rw e (rw last (inl ((ground arith, tt), refl)))
      ])
  search-Found (suc fuel) p (b ∷ bs) more (at, ne, chain) =
      let other : (b == h.free_list) ≡ false = ground arith in
      rw at (elim (Bool-cases (leb units (size_of b h))) [
        | inl e ↦ rw e (inr (take_block-Carved p b (bs ++ (h.free_list ∷ [])) (ground arith)))
        | inr e ↦ rw e (
            rw other (
              later-Found b (bs ++ (h.free_list ∷ [])) _ (ground arith)
                (search-Found fuel b bs (omega arith) chain)))
      ])

-- The free list leads from `freeList` through the blocks `bs` back to it, and `freeMemory` counts at
-- least the units that a request needs. `mm_alloc` of one byte or more ends then on one step for each
-- block of the list. Either every block is smaller than the request, and the answer is NULL and nothing
-- changes; or the first block from the one behind `freeList` on that is large enough gives its last
-- units, and keeps the others if any are left: the pointer leads behind the header, which holds the
-- number of units, and `freeMemory` goes down by their bytes.
pub mm_alloc-Found :
    (fuel size : ℕ) (bs : List ℕ) (h : Heap)
    → 0 < size
    → h.free_memory < 4294967296
    → units_needed size * 16 ≤ h.free_memory
    → Chain h h.free_list bs h.free_list
    → length bs < fuel
    → Found (units_needed size) h (bs ++ (h.free_list ∷ [])) (mm_alloc fuel size h)
unfolding mm_alloc
mm_alloc-Found fuel size bs h some_size known held chain more =
    let asked : (size == 0) ≡ false = ground arith in
    rw asked
      (search-Found (units_needed size) h (ground arith) known held fuel h.free_list bs more chain)
