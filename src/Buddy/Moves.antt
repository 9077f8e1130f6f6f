-- ===== src/Buddy/Moves.antt =====
-- The two moves of a block, onto the list of its order and off it.
use so_tpe.Common.{
  ℕ, ◌+◌, ◌^◌, ◌<◌, ◌≡◌, ◌≢◌, ◌⊎◌, inl, inr, refl, ap, sym, subst, ◌∙◌, true, false, length, arith,
  ltb, leb, ◌==◌, Bool-cases,
}
use so_tpe.Buddy.{Zone, base_frame, u64, add_to_free_list, del_from_free_list}
use so_tpe.Buddy.Powers.{Aligned-unique, pow_pos}
use so_tpe.Buddy.Blocks.{
  occurrences, In, Fits, Used, Free, Covered, IsWf, occurrences-erase, length-erase, in_range,
  mark_used_lem, mark_free_lem,
}

pub In-cases : (p o i : ℕ) → In p o i ⊎ (¬ In p o i)
In-cases p o i = elim (Bool-cases (in_range p (2 ^ o) i)) [
  | inl e ↦ inl (ground arith, ground arith)
  | inr e ↦ inr (λ (le, lt). ground arith)
]

outside_range : (p o i : ℕ) → ¬ In p o i → in_range p (2 ^ o) i ≡ false
outside_range p o i out = elim (Bool-cases (in_range p (2 ^ o) i)) [
  | inl e ↦ absurd (out (ground arith, ground arith))
  | inr e ↦ e
]

-- Two blocks of an order that share a page are the same.
pub same_block : (z : Zone) (p q o i : ℕ) → Fits z p o → Fits z q o → In p o i → In q o i → p ≡ q
same_block z p q o i f g (pl, pu) (ql, qu) = elim (Bool-cases (leb p q)) [
  | inl le ↦
      let e =
        Aligned-unique o (base_frame z + p) (base_frame z + q) f.aligned g.aligned (ground arith)
          (ground arith) in
      omega arith
  | inr gt ↦
      let e =
        Aligned-unique o (base_frame z + q) (base_frame z + p) g.aligned f.aligned (ground arith)
          (ground arith) in
      omega arith
]

module _ (z : Zone) (p o : ℕ) where
  pub del-In :
      (i : ℕ)
      → In p o i
      → (del_from_free_list p o z).pages i ≡ record (z.pages i) { is_free = false }
  unfolding del_from_free_list
  del-In i (le, lt) =
      let e : in_range p (2 ^ o) i ≡ true = ground arith in
      mark_used_lem (2 ^ o) p i z.pages ∙ rw e refl

  pub del-not-In : (i : ℕ) → ¬ In p o i → (del_from_free_list p o z).pages i ≡ z.pages i
  unfolding del_from_free_list
  del-not-In i out = mark_used_lem (2 ^ o) p i z.pages ∙ rw (outside_range p o i out) refl

  pub add-In :
      (i : ℕ)
      → In p o i
      → (add_to_free_list p o z).pages i ≡ record (z.pages i) { order = o; is_free = true }
  unfolding add_to_free_list
  add-In i (le, lt) =
      let e : in_range p (2 ^ o) i ≡ true = ground arith in
      mark_free_lem o (2 ^ o) p i z.pages ∙ rw e refl

  pub add-not-In : (i : ℕ) → ¬ In p o i → (add_to_free_list p o z).pages i ≡ z.pages i
  unfolding add_to_free_list
  add-not-In i out = mark_free_lem o (2 ^ o) p i z.pages ∙ rw (outside_range p o i out) refl

  del-frame : (i : ℕ) → ((del_from_free_list p o z).pages i).frame_number ≡ (z.pages i).frame_number
  del-frame i = elim (In-cases p o i) [
    | inl here ↦ ap (λ x. x.frame_number) (del-In i here)
    | inr out ↦ ap (λ x. x.frame_number) (del-not-In i out)
  ]

  pub add-frame :
      (i : ℕ) → ((add_to_free_list p o z).pages i).frame_number ≡ (z.pages i).frame_number
  add-frame i = elim (In-cases p o i) [
    | inl here ↦ ap (λ x. x.frame_number) (add-In i here)
    | inr out ↦ ap (λ x. x.frame_number) (add-not-In i out)
  ]

  -- A block of the list leaves it: its pages are not free then.
  module _ (w : IsWf z) (listed : 0 < occurrences p (z.free_lists o)) where
    pub block : Free z p o
    block = w.blocks p o listed

    -- the page of another block is none of this one's
    other : (q r i : ℕ) → q ≢ p → 0 < occurrences q (z.free_lists r) → In q r i → ¬ In p o i
    other q r i ne there at here =
        let b = w.blocks q r there in
        let e : r ≡ o = sym (b.1 i at).1 ∙ (block.1 i here).1 in
        ne (same_block z q p o i (subst (Fits z q) e b.0) block.0 (subst (λ x. In q x i) e at) here)

    still :
        (q r : ℕ)
        → 0 < occurrences q ((del_from_free_list p o z).free_lists r)
        → (q ≢ p) × (0 < occurrences q (z.free_lists r))
    unfolding del_from_free_list
    still q r h =
        let e = occurrences-erase q p (z.free_lists r) in ((λ same. ground arith), ground arith)

    pub del-Used : Used (del_from_free_list p o z) p o
    unfolding del_from_free_list
    del-Used = (
      record { aligned = block.0.aligned; inside = block.0.inside },
      λ i at. ap (λ x. x.is_free) (del-In i at),
    )

    del-Free :
        (q r : ℕ)
        → 0 < occurrences q ((del_from_free_list p o z).free_lists r)
        → Free (del_from_free_list p o z) q r
    unfolding del_from_free_list
    del-Free q r h =
        let (ne, there) = still q r h in
        let (fits, pages) = w.blocks q r there in
        (
          record { aligned = fits.aligned; inside = fits.inside },
          λ i at.
              let e = del-not-In i (other q r i ne there at) in
              (ap (λ x. x.is_free) e ∙ (pages i at).0, ap (λ x. x.order) e ∙ (pages i at).1),
        )

    -- the block's pages stand in no other list
    pub alone : (r : ℕ) → 0 < occurrences p (z.free_lists r) → r ≡ o
    alone r there =
        let here : In p o p = (omega arith, omega (arith, pow_pos o)) in
        let here' : In p r p = (omega arith, omega (arith, pow_pos r)) in
        sym ((w.blocks p r there).1 p here').1 ∙ (block.1 p here).1

    order_is : (i : ℕ) (c : Covered z i) → c.head ≡ p → (z.pages i).order ≡ o
    order_is i c same =
        let r = (z.pages i).order in
        alone r (subst (λ x. 0 < occurrences x (z.free_lists r)) same c.listed)

    kept :
        (q r : ℕ)
        → q ≢ p
        → 0 < occurrences q (z.free_lists r)
        → 0 < occurrences q ((del_from_free_list p o z).free_lists r)
    unfolding del_from_free_list
    kept q r ne there = ground (arith, occurrences-erase q p (z.free_lists r))

    del-counted :
        (r : ℕ)
        → (del_from_free_list p o z).free_block_count r
          ≡ u64 (length ((del_from_free_list p o z).free_lists r))
    unfolding del_from_free_list
    del-counted r = elim (Bool-cases (r == o)) [
      | inl same ↦
          let e : r ≡ o = ground arith in
          rw (same, e)
            (ground (arith, length-erase p (z.free_lists o), w.once p o, w.counted o, listed))
      | inr differs ↦
          let none_there : occurrences p (z.free_lists r) ≡ 0 =
            elim (Bool-cases (ltb 0 (occurrences p (z.free_lists r)))) [
              | inl some ↦ absurd (ground (arith, alone r (ground arith)))
              | inr empty ↦ ground arith
            ] in
          rw differs (w.counted r ∙ ap u64 (omega (arith, length-erase p (z.free_lists r))))
    ]

    del-Covered :
        (i : ℕ)
        → i < z.total_pages
        → ((del_from_free_list p o z).pages i).is_free ≡ true
        → Covered (del_from_free_list p o z) i
    unfolding del_from_free_list
    del-Covered i inside free = elim (In-cases p o i) [
      | inl here ↦ absurd (ground (arith, del-In i here))
      | inr out ↦
          let e = del-not-In i out in
          let c = w.covered i inside (sym (ap (λ x. x.is_free) e) ∙ free) in
          let apart : c.head ≢ p = λ same. out (
            subst (λ x. In x o i) same (subst (λ x. In c.head x i) (order_is i c same) c.member)) in
          record {
            head = c.head;
            listed =
                subst (λ r. 0 < occurrences c.head ((del_from_free_list p o z).free_lists r))
                  (sym (ap (λ x. x.order) e)) (kept c.head (z.pages i).order apart c.listed);
            member = subst (λ x. In c.head x i) (sym (ap (λ x. x.order) e)) c.member;
          }
    ]

    pub del-IsWf : IsWf (del_from_free_list p o z)
    unfolding del_from_free_list
    del-IsWf = record {
      frames = λ i inside. del-frame i ∙ w.frames i inside;
      blocks = del-Free;
      once = λ q r. grind (arith, occurrences-erase q p (z.free_lists r), w.once q r);
      covered = del-Covered;
      counted = del-counted;
    }
