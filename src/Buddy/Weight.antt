-- ===== src/Buddy/Weight.antt =====
-- The number of the pages in the blocks of the lists.
use so_tpe.Common.{
  ℕ, zero, suc, ◌+◌, ◌*◌, ◌^◌, ◌≤◌, ◌<◌, ◌≡◌, inl, inr, refl, ap, sym, subst, ◌∙◌, true, false,
  length, ◌≢◌, arith, ltb, ltb→lt, ◌==◌, if◌then◌else◌, Bool-cases,
}
use so_tpe.Buddy.{Zone, max_order, add_to_free_list, del_from_free_list}
use so_tpe.Buddy.Blocks.{occurrences, IsWf, length-erase}
use so_tpe.Buddy.Moves.{alone}

-- the pages of the lists of the orders below `n`
abbrev pub pages_below : ℕ → Zone → ℕ
pages_below zero z = 0
pages_below (suc n) z = pages_below n z + length (z.free_lists n) * 2 ^ n

abbrev pub free_pages : Zone → ℕ
free_pages z = pages_below (max_order + 1) z

-- A list is longer by one than another, of blocks of the order `o`, or as long.
abbrev LongerAt : ℕ → Zone → Zone → Type 0
LongerAt o z z' =
    (n : ℕ) → length (z'.free_lists n) ≡ length (z.free_lists n) + (if n == o then 1 else 0)

LongerAt-pages_below :
    (n o : ℕ) (z z' : Zone)
    → LongerAt o z z'
    → pages_below n z' ≡ pages_below n z + (if ltb o n then 2 ^ o else 0)
LongerAt-pages_below zero o z z' h = ground arith
LongerAt-pages_below (suc n) o z z' h =
    let rest = LongerAt-pages_below n o z z' h in
    elim (Bool-cases (n == o)) [
      | inl same ↦
          let e : n ≡ o = ground arith in
          let l : length (z'.free_lists n) ≡ length (z.free_lists n) + 1 = ground (arith, h n) in
          let before : ltb o n ≡ false = ground arith in
          let after : ltb o (suc n) ≡ true = ground arith in
          let p : 2 ^ n ≡ 2 ^ o = ap (λ x. 2 ^ x) e in
          let m : length (z'.free_lists n) * 2 ^ n ≡ (length (z.free_lists n) + 1) * 2 ^ n =
            ap (λ x. x * 2 ^ n) l in
          let rest' : pages_below n z' ≡ pages_below n z + 0 = rest ∙ rw before refl in
          rw after (omega arith)
      | inr differs ↦
          let l : length (z'.free_lists n) ≡ length (z.free_lists n) = ground (arith, h n) in
          let m : length (z'.free_lists n) * 2 ^ n ≡ length (z.free_lists n) * 2 ^ n =
            ap (λ x. x * 2 ^ n) l in
          let later : ltb o (suc n) ≡ ltb o n = ground arith in rw later (omega arith)
    ]

add-LongerAt : (p o : ℕ) (z : Zone) → LongerAt o z (add_to_free_list p o z)
unfolding add_to_free_list
add-LongerAt p o z n = ground arith

del-LongerAt :
    (p o : ℕ) (z : Zone)
    → IsWf z
    → 0 < occurrences p (z.free_lists o)
    → LongerAt o (del_from_free_list p o z) z
unfolding del_from_free_list
del-LongerAt p o z w listed n = elim (Bool-cases (ltb 0 (occurrences p (z.free_lists n)))) [
  | inl some_there ↦
      let e : n ≡ o =
        alone z p o w listed n (ltb→lt 0 (occurrences p (z.free_lists n)) some_there) in
      ground (arith, length-erase p (z.free_lists n), w.once p n)
  | inr empty ↦
      let e : n ≢ o = λ same.
        let here = subst (λ r. 0 < occurrences p (z.free_lists r)) (sym same) listed in
        absurd (ground arith) in
      ground (arith, length-erase p (z.free_lists n))
]

pub add-free_pages :
    (p o : ℕ) (z : Zone)
    → o ≤ max_order
    → free_pages (add_to_free_list p o z) ≡ free_pages z + 2 ^ o
add-free_pages p o z le =
    ground (arith, LongerAt-pages_below (max_order + 1) o z _ (add-LongerAt p o z))

pub del-free_pages :
    (p o : ℕ) (z : Zone)
    → IsWf z
    → 0 < occurrences p (z.free_lists o)
    → o ≤ max_order
    → free_pages (del_from_free_list p o z) + 2 ^ o ≡ free_pages z
del-free_pages p o z w listed le =
    ground (arith, LongerAt-pages_below (max_order + 1) o _ z (del-LongerAt p o z w listed))

pub del-zone :
    (b o : ℕ) (z : Zone)
    → ((del_from_free_list b o z).total_pages ≡ z.total_pages)
      × ((del_from_free_list b o z).heap_base ≡ z.heap_base)
unfolding del_from_free_list
del-zone b o z = (refl, refl)
