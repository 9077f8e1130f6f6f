-- ===== src/Lists/Iterate.antt =====
-- The answers of a linked list's iterator.
use so_tpe.Common.{
  ℕ, zero, suc, ◌≡◌, ap, Bool, true, false, Option, none, some, List, [], ◌∷◌, arith, ◌==◌, length,
}
use so_tpe.State.{Queue}
use so_tpe.Lists.{Store, list_begin, list_has_next, list_next}
use so_tpe.Lists.Linked.{Linked, Represents}

-- what a number of calls tell: for each, `list_has_next` before it and the answer of `list_next`
abbrev pub answers : ℕ → Store → List (Bool × Option ℕ)
answers zero s = []
answers (suc calls) s = (list_has_next s.list, (list_next s).0) ∷ answers calls (list_next s).1

-- every item of a queue in order, then NULL
abbrev pub items : Queue → List (Bool × Option ℕ)
items [] = (false, none) ∷ []
items (e ∷ q) = (true, some e.pid) ∷ items q

answers-items :
    (s : Store) (p last : ℕ) (q : Queue)
    → Linked s.heap p s.list.iterator last q
    → answers (suc (length q)) s ≡ items q
unfolding list_next
answers-items s p last [] (end, stop) = rw end
answers-items s p last (e ∷ q) (at, real, item, back, rest) =
    let there : (s.list.iterator == 0) ≡ false = ground arith in
    rw there (
      rw at (
        rw item (
          ap (λ r. (true, some e.pid) ∷ r)
            (answers-items (record s { list = record (s.list) { iterator = (s.heap e.node).next } })
              e.node last q rest))))

-- After `list_begin`, as many calls of `list_next` as the list has items give these items in order,
-- with `list_has_next` true before each, and one more call gives NULL, with `list_has_next` false.
pub list_begin-items :
    (s : Store) (q : Queue)
    → Represents s q
    → answers (suc (length q)) (record s { list = list_begin s.list }) ≡ items q
list_begin-items s q r =
    answers-items (record s { list = list_begin s.list }) 0 s.list.tail q r.linked
