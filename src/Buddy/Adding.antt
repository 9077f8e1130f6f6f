-- ===== src/Buddy/Adding.antt =====
-- A block onto the list of its order.
use so_tpe.Common.{
  ℕ, ◌+◌, ◌≤◌, ◌<◌, ◌≡◌, inl, inr, ap, sym, subst, ◌∙◌, true, length, arith, ltb, ltb→lt,
  Bool-cases,
}
use so_tpe.Buddy.{Zone, base_frame, u64, add_to_free_list}
use so_tpe.Buddy.Powers.{pow_pos}
use so_tpe.Buddy.Blocks.{occurrences, In, Used, Free, Covered, IsWf}
use so_tpe.Buddy.Moves.{In-cases, add-In, add-not-In, add-frame}

module _ (z : Zone) (p o : ℕ) (w : IsWf z) (used : Used z p o) where
  -- no page of a block of the lists is one of the block that comes
  apart : (q r i : ℕ) → 0 < occurrences q (z.free_lists r) → In q r i → ¬ In p o i
  apart q r i there at here = absurd (ground (arith, (w.blocks q r there).1 i at, used.1 i here))

  absent : (r : ℕ) → occurrences p (z.free_lists r) ≡ 0
  absent r = elim (Bool-cases (ltb 0 (occurrences p (z.free_lists r)))) [
    | inl some_there ↦ absurd (
        apart p r p (ground arith) (omega arith, omega (arith, pow_pos r))
          (omega arith, omega (arith, pow_pos o)))
    | inr empty ↦ ground arith
  ]

  add-Free :
      (q r : ℕ)
      → 0 < occurrences q ((add_to_free_list p o z).free_lists r)
      → Free (add_to_free_list p o z) q r
  unfolding add_to_free_list
  add-Free q r h = elim (Bool-cases (ltb 0 (occurrences q (z.free_lists r)))) [
    | inl e ↦
        let there = ltb→lt 0 (occurrences q (z.free_lists r)) e in
        let (fits, pages) = w.blocks q r there in
        (
          record { aligned = fits.aligned; inside = fits.inside },
          λ i at.
              let e' = add-not-In z p o i (apart q r i there at) in
              (ap (λ x. x.is_free) e' ∙ (pages i at).0, ap (λ x. x.order) e' ∙ (pages i at).1),
        )
    | inr e ↦
        let eo : r ≡ o = ground arith in
        let ep : q ≡ p = ground arith in
        rw (eo, ep)
          (
            record { aligned = used.0.aligned; inside = used.0.inside },
            λ i at.
                (ap (λ x. x.is_free) (add-In z p o i at), ap (λ x. x.order) (add-In z p o i at)),
          )
  ]

  more :
      (q r : ℕ)
      → 0 < occurrences q (z.free_lists r)
      → 0 < occurrences q ((add_to_free_list p o z).free_lists r)
  unfolding add_to_free_list
  more q r there = ground arith

  here_now : 0 < occurrences p ((add_to_free_list p o z).free_lists o)
  unfolding add_to_free_list
  here_now = ground arith

  add-Covered :
      (i : ℕ)
      → i < z.total_pages
      → ((add_to_free_list p o z).pages i).is_free ≡ true
      → Covered (add_to_free_list p o z) i
  add-Covered i inside free = elim (In-cases p o i) [
    | inl at ↦
        let e : o ≡ ((add_to_free_list p o z).pages i).order =
          sym (ap (λ x. x.order) (add-In z p o i at)) in
        record {
          head = p;
          listed =
              subst (λ r. 0 < occurrences p ((add_to_free_list p o z).free_lists r)) e here_now;
          member = subst (λ r. In p r i) e at;
        }
    | inr out ↦
        let e = add-not-In z p o i out in
        let c = w.covered i inside (sym (ap (λ x. x.is_free) e) ∙ free) in
        let eo = sym (ap (λ x. x.order) e) in
        record {
          head = c.head;
          listed =
              subst (λ r. 0 < occurrences c.head ((add_to_free_list p o z).free_lists r)) eo
                (more c.head (z.pages i).order c.listed);
          member = subst (λ r. In c.head r i) eo c.member;
        }
  ]

  add-counted :
      (r : ℕ)
      → (add_to_free_list p o z).free_block_count r
        ≡ u64 (length ((add_to_free_list p o z).free_lists r))
  unfolding add_to_free_list
  add-counted r = ground (arith, w.counted r, w.counted o)

  add-once : (q r : ℕ) → occurrences q ((add_to_free_list p o z).free_lists r) ≤ 1
  unfolding add_to_free_list
  add-once q r = ground (arith, w.once q r, absent r)

  add-frames :
      (i : ℕ)
      → i < z.total_pages
      → ((add_to_free_list p o z).pages i).frame_number ≡ base_frame z + i
  add-frames i inside = add-frame z p o i ∙ w.frames i inside

  pub add-IsWf : IsWf (add_to_free_list p o z)
  unfolding add_to_free_list
  add-IsWf = record {
    frames = add-frames;
    blocks = add-Free;
    once = add-once;
    covered = add-Covered;
    counted = add-counted;
  }
