-- ===== src/Buddy/Merge.antt =====
-- `buddy_free_pages`: a block is joined to its buddy as long as that is free, and listed.
use so_tpe.Common.{
  ℕ, zero, suc, ◌+◌, ◌-◌, ◌/◌, ◌^◌, ◌≤◌, ◌<◌, ◌≡◌, ◌⊎◌, inl, inr, refl, ap, sym, subst, ◌∙◌, true,
  false, arith, ltb, Bool-cases,
}
use so_tpe.Buddy.{
  Zone, base_frame, max_order, merge, can_merge, get_buddy_frame_number, frame_to_page,
  buddy_free_pages, add_to_free_list, del_from_free_list,
}
use so_tpe.Buddy.Powers.{
  Aligned, Aligned-half, Aligned-unique, get_buddy_frame_number-IsBuddy, pow_pos,
}
use so_tpe.Buddy.Blocks.{occurrences, In, Used, IsWf}
use so_tpe.Buddy.Moves.{del-not-In, add-not-In, del-IsWf, del-Used}
use so_tpe.Buddy.Adding.{add-IsWf}
use so_tpe.Buddy.Weight.{free_pages, add-free_pages, del-free_pages, del-zone}
use native.Mathlib.Nat.{two-pow-succ}

-- The pages of the block are free and counted; and the pages that were used before and are none of the
-- block's are as they were.
pub record Merged (p o : ℕ) (z z' : Zone) : Type 0 where
  pub wf : IsWf z'
  pub outside : (i : ℕ) → (z.pages i).is_free ≡ false → ¬ In p o i → z'.pages i ≡ z.pages i
  pub total : z'.total_pages ≡ z.total_pages
  pub base : z'.heap_base ≡ z.heap_base
  pub free : free_pages z' ≡ free_pages z + 2 ^ o

module _ (z : Zone) (w : IsWf z) where
  -- The page of a free block of the order that its own number aligns is the block's first.
  listed_head :
      (q o : ℕ)
      → Aligned o (base_frame z + q)
      → q < z.total_pages
      → (z.pages q).is_free ≡ true
      → (z.pages q).order ≡ o
      → 0 < occurrences q (z.free_lists o)
  listed_head q o al inside free e =
      let c = w.covered q inside free in
      let there = subst (λ r. 0 < occurrences c.head (z.free_lists r)) e c.listed in
      let (le, lt) : In c.head o q = subst (λ r. In c.head r q) e c.member in
      let fits = (w.blocks c.head o there).0 in
      let same =
        Aligned-unique o (base_frame z + c.head) (base_frame z + q) fits.aligned al (omega arith)
          (omega arith) in
      let e' : c.head ≡ q = omega arith in subst (λ x. 0 < occurrences x (z.free_lists o)) e' there

  merge-end : (p o : ℕ) → Used z p o → o ≤ max_order → Merged p o z (add_to_free_list p o z)
  unfolding add_to_free_list
  merge-end p o used le = record {
    wf = add-IsWf z p o w used;
    outside = λ i free out. add-not-In z p o i out;
    total = refl;
    base = refl;
    free = add-free_pages p o z le;
  }

  -- One turn, which takes the free buddy `b` off its list, and those that follow it, for the block of the
  -- next order at `p'`.
  module _ (p b o : ℕ) (used : Used z p o) (listed : 0 < occurrences b (z.free_lists o)) where
    not_free : (i : ℕ) → (z.pages i).is_free ≡ false → ¬ In b o i
    not_free i f at = ground (arith, ((w.blocks b o listed).1 i at).0)

    Merged-step :
        (p' : ℕ) (z' : Zone)
        → o < max_order
        → ((i : ℕ) → In p' (suc o) i → In p o i ⊎ In b o i)
        → Merged p' (suc o) (del_from_free_list b o z) z'
        → Merged p o z z'
    Merged-step p' z' le parts h = record {
      wf = h.wf;
      outside = λ i f out.
          let same = del-not-In z b o i (not_free i f) in
          h.outside i (ap (λ x. x.is_free) same ∙ f)
            (λ at. elim (parts i at) [ inl mine ↦ out mine | inr his ↦ not_free i f his ])
          ∙ same;
      total = h.total ∙ (del-zone b o z).0;
      base = h.base ∙ (del-zone b o z).1;
      free =
          let f = del-free_pages b o z w listed (omega arith) in
          omega (arith, f, h.free, two-pow-succ o);
    }

    still_used : (i : ℕ) → In p o i → ((del_from_free_list b o z).pages i).is_free ≡ false
    still_used i at =
        ap (λ x. x.is_free) (del-not-In z b o i (not_free i (used.1 i at))) ∙ used.1 i at

-- Two blocks that are beside each other, the lower of which the next order aligns.
Used-double :
    (z : Zone) (l u o : ℕ)
    → u ≡ l + 2 ^ o
    → Aligned (suc o) (base_frame z + l)
    → ((i : ℕ) → In l o i → (z.pages i).is_free ≡ false)
    → ((i : ℕ) → In u o i → (z.pages i).is_free ≡ false)
    → u + 2 ^ o ≤ z.total_pages
    → Used z l (suc o) × ((i : ℕ) → In l (suc o) i → In l o i ⊎ In u o i)
Used-double z l u o e al low high inside =
    let d : 2 ^ suc o ≡ 2 ^ o + 2 ^ o = two-pow-succ o in
    let parts : (i : ℕ) → In l (suc o) i → In l o i ⊎ In u o i = λ i (le, lt).
      elim (Bool-cases (ltb i u)) [
        | inl below ↦ inl (le, ground arith)
        | inr above ↦ inr (ground arith, omega arith)
      ] in
    (
      (
        record { aligned = al; inside = omega arith },
        λ i at. elim (parts i at) [ inl x ↦ low i x | inr x ↦ high i x ],
      ),
      parts,
    )

swap : {A B : Type 0} → A ⊎ B → B ⊎ A
swap (inl a) = inr a
swap (inr b) = inl b

-- What `buddy_free_pages` has found out of the buddy where it does not stop.
record Buddy (f o : ℕ) (z : Zone) : Type 0 where
  is_above : base_frame z ≤ f
  is_below : f < base_frame z + z.total_pages
  is_free : (z.pages (frame_to_page z f)).is_free ≡ true
  same_order : (z.pages (frame_to_page z f)).order ≡ o

can_merge-Buddy : (f o : ℕ) (z : Zone) → can_merge f o z ≡ true → Buddy f o z
can_merge-Buddy f o z e = record {
  is_above = ground arith;
  is_below = ground arith;
  is_free = ground arith;
  same_order = ground arith;
}

module _ (z : Zone) (w : IsWf z) (p o : ℕ) (used : Used z p o) (le : o < max_order) where
  low-Merged :
      (f : ℕ) (z' : Zone)
      → Buddy f o z
      → (base_frame z + p ≡ f + 2 ^ o) × Aligned (suc o) f
      → (IsWf (del_from_free_list (frame_to_page z f) o z)
          → Used (del_from_free_list (frame_to_page z f) o z) (frame_to_page z f) (suc o)
          → Merged (frame_to_page z f) (suc o) (del_from_free_list (frame_to_page z f) o z) z')
      → Merged p o z z'
  unfolding del_from_free_list
  low-Merged f z' b (e, al) next =
      let q = frame_to_page z f in
      let at : f ≡ base_frame z + q = omega (arith, b.is_above) in
      let below : q < z.total_pages = omega (arith, b.is_above, b.is_below) in
      let al' = subst (Aligned (suc o)) at al in
      let listed =
        listed_head z w q o (Aligned-half o (base_frame z + q) al').0 below b.is_free
          b.same_order in
      let gone = del-Used z q o w listed in
      let (joined, parts) =
        Used-double (del_from_free_list q o z) q p o (omega (arith, e, at)) al' gone.1
          (still_used z w p q o used listed) used.0.inside in
      Merged-step z w p q o used listed q z' le (λ i x. swap (parts i x))
        (next (del-IsWf z q o w listed) joined)

  high-Merged :
      (f : ℕ) (z' : Zone)
      → Buddy f o z
      → (f ≡ base_frame z + p + 2 ^ o) × Aligned (suc o) (base_frame z + p)
      → (IsWf (del_from_free_list (frame_to_page z f) o z)
          → Used (del_from_free_list (frame_to_page z f) o z) p (suc o)
          → Merged p (suc o) (del_from_free_list (frame_to_page z f) o z) z')
      → Merged p o z z'
  unfolding del_from_free_list
  high-Merged f z' b (e, al) next =
      let q = frame_to_page z f in
      let at : f ≡ base_frame z + q = omega (arith, b.is_above) in
      let below : q < z.total_pages = omega (arith, b.is_above, b.is_below) in
      let beside : base_frame z + p + 2 ^ o ≡ base_frame z + q = sym e ∙ at in
      let al' = subst (Aligned o) beside (Aligned-half o (base_frame z + p) al).1 in
      let listed = listed_head z w q o al' below b.is_free b.same_order in
      let gone = del-Used z q o w listed in
      let (joined, parts) =
        Used-double (del_from_free_list q o z) p q o (omega (arith, beside)) al
          (still_used z w p q o used listed) gone.1 gone.0.inside in
      Merged-step z w p q o used listed p z' le parts (next (del-IsWf z q o w listed) joined)

pub merge-Merged :
    (n p o f : ℕ) (z : Zone)
    → IsWf z
    → Used z p o
    → o + n ≡ max_order
    → f ≡ base_frame z + p
    → Merged p o z (merge n f p o z)
unfolding merge
merge-Merged zero p o f z w used e ef = merge-end z w p o used (omega arith)
merge-Merged (suc n) p o f z w used e ef =
    let g = get_buddy_frame_number f o in
    let b = frame_to_page z g in
    let z1 = del_from_free_list b o z in
    let base = ap (λ x. x / 4096) (del-zone b o z).1 in
    let le : o < max_order = omega arith in
    let s : o + 1 ≡ suc o = omega arith in
    elim (Bool-cases (can_merge g o z)) [
      | inr stop ↦ rw stop (merge-end z w p o used (omega arith))
      | inl go ↦
          let buddy = can_merge-Buddy g o z go in
          rw go
            (elim (get_buddy_frame_number-IsBuddy o f (subst (Aligned o) (sym ef) used.0.aligned)) [
              | inl (eg, al) ↦
                  let lower : ltb g f ≡ false = ground (arith, eg) in
                  rw lower (
                    high-Merged z w p o used le g _ buddy
                      (eg ∙ ap (λ x. x + 2 ^ o) ef, subst (Aligned (suc o)) ef al)
                      (λ w1.
                        subst (λ r. Used z1 p r → Merged p r z1 (merge n f p (o + 1) z1)) s
                          (λ u.
                            merge-Merged n p (o + 1) f z1 w1 u (omega arith)
                              (ef ∙ ap (λ x. x + p) (sym base)))))
              | inr (eg, al) ↦
                  let lower : ltb g f ≡ true = ground (arith, eg, pow_pos o) in
                  rw lower (
                    low-Merged z w p o used le g _ buddy (sym ef ∙ eg, al)
                      (λ w1.
                        subst (λ r. Used z1 b r → Merged b r z1 (merge n g b (o + 1) z1)) s
                          (λ u.
                            merge-Merged n b (o + 1) g z1 w1 u (omega arith)
                              (omega (arith, buddy.is_above, base)))))
            ])
    ]

-- `buddy_free_pages` of a block whose pages are used lists them.
pub buddy_free_pages-Merged :
    (p o : ℕ) (z : Zone)
    → IsWf z
    → Used z p o
    → o ≤ max_order
    → Merged p o z (buddy_free_pages p o z)
unfolding buddy_free_pages
buddy_free_pages-Merged p o z w used le =
    merge-Merged (max_order - o) p o _ z w used (omega arith)
      (w.frames p (omega (arith, used.0.inside, pow_pos o)))
