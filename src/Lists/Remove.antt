-- ===== src/Lists/Remove.antt =====
-- The links of a list after `list_remove`.
use so_tpe.Common.{
  ℕ, ◌+◌, ◌≤◌, ◌≡◌, ◌≢◌, inl, inr, refl, ap, sym, subst, ◌∙◌, true, false, none, some, [], ◌∷◌,
  arith, ◌==◌, length, if◌then◌else◌, Bool-cases,
}
use so_tpe.State
use so_tpe.State.{Entry, Queue}
use so_tpe.Lists.{Heap, Store, relink, list_remove}
use so_tpe.Lists.Linked.{has, Linked, IsDistinct, Represents, frame, last-has, not-has-zero}
use so_tpe.Lists.Around.{
  prev-ne, next-has, relink-item, relink-next, relink-prev, relink-other, redirected, unmoved,
  last-next, first-back,
}

module _ (n : ℕ) (h : Heap) where
  -- the queue behind the node, once the node is gone
  behind :
      (p t : ℕ) (q : Queue)
      → n ≢ 0
      → n ≢ p
      → (h n).prev ≡ p
      → has p q ≡ false
      → has n q ≡ false
      → IsDistinct q
      → Linked h n (h n).next t q
      → Linked (relink n h) p (h n).next (if t == n then p else t) q
  behind p t [] real apart before out gone d (end, stop) = (end, ground arith)
  behind p t (e ∷ q) real apart before out gone d (at, ne, it, back, rest) =
      let inner : has t (e ∷ q) ≡ true = last-has h n (h n).next t e q (at, ne, it, back, rest) in
      let other : (t == n) ≡ false = ground (arith, λ (z : t ≡ n). ap (λ a. has a (e ∷ q)) z) in
      let far : (h n).prev ≢ n = λ z. apart (sym z ∙ before) in
      rw other (
        at,
        ne,
        relink-item n h e.node ∙ it,
        relink-prev n h e.node far ∙ ground arith,
        subst (λ x. Linked (relink n h) e.node x t q)
            (sym (relink-next n h e.node far ∙ ground arith))
            (frame h (relink n h) e.node (h e.node).next t q
              (λ a m.
                relink-other n h a (λ z. ground (arith, ap (λ x. has x q) (z ∙ before), m, out))
                  (λ z. ground (arith, ap (λ x. has x q) (z ∙ at), m, d.0)))
              rest),
      )

  remove-Linked :
      (p first t : ℕ) (q : Queue)
      → n ≢ 0
      → n ≢ p
      → has p q ≡ false
      → IsDistinct q
      → has n q ≡ true
      → Linked h p first t q
      → Linked
          (relink n h)
          p
          (if first == n then (h n).next else first)
          (if t == n then (h n).prev else t)
          (State.list_remove n q)
  remove-Linked p first t [] real apart out d m l = absurd (cc)
  remove-Linked p first t (e ∷ q) real apart out d m (at, ne, it, back, rest) =
      elim (Bool-cases (e.node == n)) [
        | inl z ↦
            let w : e.node ≡ n = ground arith in
            let b : (h n).prev ≡ p = ap (λ a. (h a).prev) (sym w) ∙ back in
            let r : Linked (relink n h) p (h n).next (if t == n then p else t) q =
              behind p t q real apart b (ground arith) (ap (λ a. has a q) (sym w) ∙ d.0) d.1
                (subst (λ a. Linked h a (h a).next t q) w rest) in
            let f : (first == n) ≡ true = ground arith in rw f (rw z (rw b r))
        | inr z ↦
            let m' : has n q ≡ true = ground arith in
            let r : Linked (relink n h) e.node
                (if (h e.node).next == n then (h n).next else (h e.node).next)
                (if t == n then (h n).prev else t) (State.list_remove n q) =
              remove-Linked e.node (h e.node).next t q real (ground arith) d.0 d.1 m' rest in
            let f : (first == n) ≡ false = ground arith in
            let far : (h n).prev ≢ n =
              prev-ne n h p first t (e ∷ q) out d m (at, ne, it, back, rest) in
            rw f (
              rw z (
                at,
                ne,
                relink-item n h e.node ∙ it,
                relink-prev n h e.node far
                    ∙ unmoved n h e.node q z (next-has n h e.node (h e.node).next t q m' rest) d.0
                    ∙ back,
                subst
                    (λ x.
                      Linked (relink n h) e.node x (if t == n then (h n).prev else t)
                        (State.list_remove n q))
                    (sym (relink-next n h e.node far ∙ redirected n h e t q ne d.0 m' rest)) r,
              ))
      ]

-- the item of a node of the queue
abbrev pub item_of : ℕ → Queue → ℕ
item_of n [] = 0
item_of n (e ∷ q) = if e.node == n then e.pid else item_of n q

item_of-Linked :
    (n : ℕ) (h : Heap) (p first t : ℕ) (q : Queue)
    → has n q ≡ true
    → Linked h p first t q
    → (h n).item ≡ item_of n q
item_of-Linked n h p first t [] m l = absurd (cc)
item_of-Linked n h p first t (e ∷ q) m (at, ne, it, back, rest) = elim (Bool-cases (e.node == n)) [
  | inl z ↦ let w : e.node ≡ n = ground arith in rw z (ap (λ a. (h a).item) (sym w) ∙ it)
  | inr z ↦ rw z (item_of-Linked n h e.node (h e.node).next t q (ground arith) rest)
]

length-remove : (n : ℕ) (q : Queue) → has n q ≡ true → length (State.list_remove n q) + 1 ≡ length q
length-remove n [] m = absurd (cc)
length-remove n (e ∷ q) m = ground (arith, length-remove n q)

remove-has : (n a : ℕ) (q : Queue) → has a q ≡ false → has a (State.list_remove n q) ≡ false
remove-has n a [] m = refl
remove-has n a (e ∷ q) m = ground (arith, remove-has n a q)

remove-IsDistinct : (n : ℕ) (q : Queue) → IsDistinct q → IsDistinct (State.list_remove n q)
remove-IsDistinct n [] d = tt
remove-IsDistinct n (e ∷ q) d = elim (Bool-cases (e.node == n)) [
  | inl z ↦ rw z d.1
  | inr z ↦ rw z (remove-has n e.node q d.0, remove-IsDistinct n q d.1)
]

-- `list_remove` of a node of the list gives that node's item, and the list then stands for the queue
-- without the node, its size by one less; of NULL it gives NULL and changes nothing.
pub list_remove-Represents :
    (n : ℕ) (s : Store) (q : Queue)
    → has n q ≡ true
    → length q ≤ 4294967295
    → Represents s q
    → ((list_remove n s).0 ≡ some (item_of n q))
      × Represents (list_remove n s).1 (State.list_remove n q)
      × (list_remove 0 s ≡ (none, s))
unfolding list_remove
list_remove-Represents n s q m short r =
    let real : n ≢ 0 = λ z.
      ground
        (arith, ap (λ a. has a q) z, m, not-has-zero s.heap 0 s.list.head s.list.tail q r.linked) in
    let some_node : (n == 0) ≡ false = ground arith in
    rw some_node (
      ap some (item_of-Linked n s.heap 0 s.list.head s.list.tail q m r.linked),
      record {
        linked = rw (first-back n s.heap s.list.head s.list.tail q m r.linked) (
            rw (last-next n s.heap 0 s.list.head s.list.tail q m r.distinct r.linked) (
              remove-Linked n s.heap 0 s.list.head s.list.tail q real real
                (not-has-zero s.heap 0 s.list.head s.list.tail q r.linked) r.distinct m r.linked));
        size = omega (arith, r.size, length-remove n q m);
        distinct = remove-IsDistinct n q r.distinct;
      },
      refl,
    )
