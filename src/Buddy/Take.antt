-- ===== src/Buddy/Take.antt =====
-- `buddy_alloc_pages`: the list that the block is taken from, and the order that is written into it.
use so_tpe.Common.{
  ℕ, zero, suc, ◌+◌, ◌-◌, ◌^◌, ◌≤◌, ◌<◌, ◌≡◌, ◌≢◌, ◌⊎◌, inl, inr, refl, ap, sym, subst, ◌∙◌, Option,
  none, some, List, [], ◌∷◌, true, false, arith, ◌==◌, Bool-cases,
}
use so_tpe.Buddy.{
  Zone, max_order, del_from_free_list, set_order, take_first, first_list, buddy_alloc_pages,
}
use so_tpe.Buddy.Powers.{pow_pos}
use so_tpe.Buddy.Blocks.{occurrences, In, Used, Free, Covered, IsWf}
use so_tpe.Buddy.Moves.{del-not-In, del-IsWf, del-Used, block}
use so_tpe.Buddy.Weight.{free_pages, del-free_pages, del-zone}
use so_tpe.Buddy.Split.{Halved, split-Halved}
use native.Mathlib.Nat.{pow-le-pow_right}

module _ (z : Zone) (p o : ℕ) (w : IsWf z) (used : (z.pages p).is_free ≡ false) where
  abbrev z' : Zone
  z' = set_order p o z

  same_free : (i : ℕ) → (z'.pages i).is_free ≡ (z.pages i).is_free
  same_free i = ground arith

  same_frame : (i : ℕ) → (z'.pages i).frame_number ≡ (z.pages i).frame_number
  same_frame i = ground arith

  same_page : (i : ℕ) → (z.pages i).is_free ≡ true → z'.pages i ≡ z.pages i
  same_page i f = elim (Bool-cases (i == p)) [
    | inl e ↦ absurd (ground (arith, f, used))
    | inr e ↦ rw e refl
  ]

  set_order-Free : (q r : ℕ) → 0 < occurrences q (z.free_lists r) → Free z' q r
  set_order-Free q r there =
      let (fits, pages) = w.blocks q r there in
      (
        record { aligned = fits.aligned; inside = fits.inside },
        λ i at.
            let e = same_page i (pages i at).0 in
            (ap (λ x. x.is_free) e ∙ (pages i at).0, ap (λ x. x.order) e ∙ (pages i at).1),
      )

  set_order-Covered : (i : ℕ) → i < z.total_pages → (z'.pages i).is_free ≡ true → Covered z' i
  set_order-Covered i inside f =
      let f' = sym (same_free i) ∙ f in
      let e = sym (ap (λ x. x.order) (same_page i f')) in
      let c = w.covered i inside f' in
      record {
        head = c.head;
        listed = subst (λ r. 0 < occurrences c.head (z.free_lists r)) e c.listed;
        member = subst (λ r. In c.head r i) e c.member;
      }

  -- The order of a page that is not free may change.
  pub set_order-IsWf : IsWf z'
  set_order-IsWf = record {
    frames = λ i inside. same_frame i ∙ w.frames i inside;
    blocks = set_order-Free;
    once = w.once;
    covered = set_order-Covered;
    counted = w.counted;
  }

-- A block of the order is taken: its pages were free and are used now, and its first one has the order;
-- the pages that were used before are as they were.
pub record Taken (p o : ℕ) (z z' : Zone) : Type 0 where
  pub wf : IsWf z'
  pub used : Used z' p o
  pub order : (z'.pages p).order ≡ o
  pub was_free : (i : ℕ) → In p o i → (z.pages i).is_free ≡ true
  pub outside : (i : ℕ) → (z.pages i).is_free ≡ false → z'.pages i ≡ z.pages i
  pub total : z'.total_pages ≡ z.total_pages
  pub base : z'.heap_base ≡ z.heap_base
  pub free : free_pages z' + 2 ^ o ≡ free_pages z

module _ (p n o : ℕ) (z : Zone) (w : IsWf z) (listed : 0 < occurrences p (z.free_lists (o + n)))
    (le : o + n ≤ max_order) where
  taken : Free z p (o + n)
  taken = block z p (o + n) w listed

  larger : 2 ^ o ≤ 2 ^ (o + n)
  larger = pow-le-pow_right {n = 2} (omega arith) {i = o} {j = o + n} (omega arith)

  Halved-Taken :
      (z2 : Zone)
      → Halved n p o (del_from_free_list p (o + n) z) z2
      → Taken p o z (set_order p o z2)
  Halved-Taken z2 h =
      let mine = h.used.1 p (omega arith, omega (arith, pow_pos o)) in
      record {
        wf = set_order-IsWf z2 p o h.wf mine;
        used = (
          record { aligned = h.used.0.aligned; inside = h.used.0.inside },
          λ i at. same_free z2 p o h.wf mine i ∙ h.used.1 i at,
        );
        order = ground arith;
        was_free = λ i (le', lt). (taken.1 i (le', omega (arith, larger))).0;
        outside = λ i f.
            let out : ¬ In p (o + n) i = λ at. ground (arith, (taken.1 i at).0) in
            let e = h.outside i out ∙ del-not-In z p (o + n) i out in
            let here : In p (o + n) p = (omega arith, omega (arith, pow_pos (o + n))) in
            let ne : i ≢ p = λ same. out (subst (λ x. In p (o + n) x) (sym same) here) in
            let apart : (i == p) ≡ false = ground arith in rw apart e;
        total = h.total ∙ (del-zone p (o + n) z).0;
        base = h.base ∙ (del-zone p (o + n) z).1;
        free = omega (arith, h.free, del-free_pages p (o + n) z w listed le);
      }

  take_first-Taken : Taken p o z (take_first p n o z)
  unfolding take_first
  take_first-Taken = Halved-Taken _ (
      split-Halved n p o (del_from_free_list p (o + n) z) (del-IsWf z p (o + n) w listed)
        (del-Used z p (o + n) w listed) le)

-- The lists of the orders from `order` on, below `order + n`, are empty.
abbrev pub NoneFrom : ℕ → ℕ → Zone → Type 0
NoneFrom o n z = (r : ℕ) → o ≤ r → r < o + n → z.free_lists r ≡ []

-- The first block of the first list that has one, from the order on.
pub record First (o : ℕ) (z : Zone) (r : Option ℕ × Zone) : Type 0 where
  pub page : ℕ
  pub above : ℕ
  pub rest : List ℕ
  pub none_below : NoneFrom o above z
  pub first : z.free_lists (o + above) ≡ page ∷ rest
  pub answer : r.0 ≡ some page
  pub taken : Taken page o z r.1

abbrev pub Answer : ℕ → Zone → Option ℕ × Zone → Type 0
Answer o z r = (NoneFrom o (max_order + 1 - o) z × (r ≡ (none, z))) ⊎ First o z r

list-cases : (xs : List ℕ) → (xs ≡ []) ⊎ ((x : ℕ) × (rest : List ℕ) × (xs ≡ x ∷ rest))
list-cases [] = inl refl
list-cases (x ∷ xs) = inr (x, xs, refl)

NoneFrom-more :
    (o n : ℕ) (z : Zone) → NoneFrom o n z → z.free_lists (o + n) ≡ [] → NoneFrom o (n + 1) z
NoneFrom-more o n z empty here r le lt = elim (Bool-cases (r == o + n)) [
  | inl e ↦ let e' : o + n ≡ r = ground arith in subst (λ x. z.free_lists x ≡ []) e' here
  | inr e ↦ empty r le (ground arith)
]

first_list-Answer :
    (left n o : ℕ) (z : Zone)
    → IsWf z
    → o + n + left ≡ max_order + 1
    → NoneFrom o n z
    → Answer o z (first_list left n o z)
unfolding first_list
first_list-Answer zero n o z w e empty = inl ((λ r le lt. empty r le (omega arith)), refl)
first_list-Answer (suc left) n o z w e empty = elim (list-cases (z.free_lists (o + n))) [
  | inl none_here ↦
      rw (none_here, first_list)
        (first_list-Answer left (n + 1) o z w (omega arith) (NoneFrom-more o n z empty none_here))
  | inr (p, rest, first) ↦
      let listed : 0 < occurrences p (z.free_lists (o + n)) =
        subst (λ xs. 0 < occurrences p xs) (sym first) (ground arith) in
      rw (first, first_list)
        (inr (record {
          page = p;
          above = n;
          rest = rest;
          none_below = empty;
          first = first;
          answer = refl;
          taken = take_first-Taken p n o z w listed (omega arith);
        }))
]

-- `buddy_alloc_pages`
pub buddy_alloc_pages-Answer :
    (o : ℕ) (z : Zone) → IsWf z → o ≤ max_order → Answer o z (buddy_alloc_pages o z)
unfolding buddy_alloc_pages
buddy_alloc_pages-Answer o z w le =
    first_list-Answer (max_order + 1 - o) 0 o z w (omega arith) (λ r low high. absurd (omega arith))
