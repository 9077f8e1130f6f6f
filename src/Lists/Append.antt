-- ===== src/Lists/Append.antt =====
-- The links of a list after `list_append` and `list_prepend`.
use so_tpe.Common.{
  ℕ, ◌<◌, ◌≡◌, ◌≢◌, refl, ap, sym, subst, true, false, none, some, [], ◌∷◌, arith, ◌==◌, length,
  length-append, if◌then◌else◌, update,
}
use so_tpe.State
use so_tpe.State.{Entry, Queue}
use so_tpe.Lists.{Node, Heap, Store, set_next, set_prev, list_append, list_prepend}
use so_tpe.Lists.Linked.{
  has, Linked, IsDistinct, Represents, frame, last-has, not-has-zero, first-ne-zero,
}

-- the heap that `list_append` leaves
abbrev appended : ℕ → ℕ → ℕ → Heap → Heap
appended n item t h =
    let h' = update h n (record { item = item; prev = t; next = 0 }) in
    if t == 0 then h' else set_next t n h'

-- the link from a node to the rest of the queue, with the new node behind it
next-appended :
    (n item : ℕ) (h : Heap) (t : ℕ) (e : Entry) (q : Queue)
    → n ≢ e.node
    → e.node ≢ 0
    → has e.node q ≡ false
    → Linked h e.node (h e.node).next t q
    → (appended n item t h e.node).next ≡ (if (h e.node).next == 0 then n else (h e.node).next)
next-appended n item h t e [] apart ne out (end, stop) = ground arith
next-appended n item h t e (f ∷ q) apart ne out l =
    let inner : has t (f ∷ q) ≡ true = last-has h e.node (h e.node).next t f q l in
    let real : (h e.node).next ≢ 0 = first-ne-zero h e.node (h e.node).next t f q l in
    let other : t ≢ e.node = λ z. ground (arith, ap (λ a. has a (f ∷ q)) z, inner, out) in
    ground arith

append-Linked :
    (n item : ℕ) (h : Heap) (p first t : ℕ) (q : Queue)
    → n ≢ 0
    → n ≢ p
    → has n q ≡ false
    → has p q ≡ false
    → IsDistinct q
    → Linked h p first t q
    → Linked
        (appended n item t h)
        p
        (if first == 0 then n else first)
        n
        (State.list_append n item q)
append-Linked n item h p first t [] real apart new outside d (end, stop) =
    (ground arith, real, ground arith, ground arith, (ground arith, refl))
append-Linked n item h p first t (e ∷ q) real apart new outside d (at, ne, it, back, rest) =
    let inner : Linked (appended n item t h) e.node
        (if (h e.node).next == 0 then n else (h e.node).next) n (State.list_append n item q) =
      append-Linked n item h e.node (h e.node).next t q real (ground arith) (ground arith) d.0 d.1
        rest in
    (
      ground arith,
      ne,
      ground arith,
      ground arith,
      subst (λ x. Linked (appended n item t h) e.node x n (State.list_append n item q))
          (sym (next-appended n item h t e q (ground arith) ne d.0 rest)) inner,
    )

append-IsDistinct :
    (n item : ℕ) (q : Queue)
    → has n q ≡ false
    → IsDistinct q
    → IsDistinct (State.list_append n item q)
append-IsDistinct n item [] new d = (refl, tt)
append-IsDistinct n item (e ∷ q) new d =
    (not-has (ground arith) q d.0, append-IsDistinct n item q (ground arith) d.1)
  where
    not-has :
        e.node ≢ n
        → (r : Queue) → has e.node r ≡ false
        → has e.node (State.list_append n item r) ≡ false
    not-has ne [] h = ground arith
    not-has ne (f ∷ r) h = ground (arith, not-has ne r)

-- `list_append`, given a block for the new node that is none of the list's, gives that node, and the
-- list then stands for the queue with the item at its end; without a block it gives NULL and changes
-- nothing.
pub list_append-Represents :
    (n item : ℕ) (s : Store) (q : Queue)
    → n ≢ 0
    → has n q ≡ false
    → length q < 4294967295
    → Represents s q
    → ((list_append (some n) item s).0 ≡ some n)
      × Represents (list_append (some n) item s).1 (State.list_append n item q)
      × (list_append none item s ≡ (none, s))
unfolding list_append
list_append-Represents n item s q real new short r = (
  refl,
  record {
    linked =
        append-Linked n item s.heap 0 s.list.head s.list.tail q real real new
          (not-has-zero s.heap 0 s.list.head s.list.tail q r.linked) r.distinct r.linked;
    size = omega (arith, r.size, length-append q (record { node = n; pid = item } ∷ []));
    distinct = append-IsDistinct n item q new r.distinct;
  },
  refl,
)

-- the heap that `list_prepend` leaves
abbrev prepended : ℕ → ℕ → ℕ → Heap → Heap
prepended n item first h =
    let h' = update h n (record { item = item; prev = 0; next = first }) in
    if first == 0 then h' else set_prev first n h'

prepend-Linked :
    (n item : ℕ) (h : Heap) (first t : ℕ) (q : Queue)
    → n ≢ 0
    → has n q ≡ false
    → IsDistinct q
    → Linked h 0 first t q
    → Linked (prepended n item first h) n first (if t == 0 then n else t) q
prepend-Linked n item h first t [] real new d (end, stop) = (end, ground arith)
prepend-Linked n item h first t (e ∷ q) real new d (at, ne, it, back, rest) =
    let inner : has t (e ∷ q) ≡ true = last-has h 0 first t e q (at, ne, it, back, rest) in
    let outer : has 0 (e ∷ q) ≡ false = not-has-zero h 0 first t (e ∷ q) (at, ne, it, back, rest) in
    let some_tail : (t == 0) ≡ false = ground (arith, λ (z : t ≡ 0). ap (λ a. has a (e ∷ q)) z) in
    let same : (prepended n item first h e.node).next ≡ (h e.node).next = ground arith in
    rw some_tail (
      at,
      ne,
      ground arith,
      ground arith,
      subst (λ x. Linked (prepended n item first h) e.node x t q) (sym same)
          (frame h (prepended n item first h) e.node (h e.node).next t q
            (λ a m.
              spared a (λ z. ground (arith, ap (λ x. has x q) z, m, new))
                (λ z. ground (arith, ap (λ x. has x q) z, m, d.0)))
            rest),
    )
  where
    spared : (a : ℕ) → a ≢ n → a ≢ e.node → prepended n item first h a ≡ h a
    spared a apart other = ground arith

first-ne :
    (n : ℕ) (h : Heap) (p first t : ℕ) (q : Queue)
    → n ≢ 0
    → has n q ≡ false
    → Linked h p first t q
    → first ≢ n
first-ne n h p first t [] real new (end, stop) = ground arith
first-ne n h p first t (e ∷ q) real new (at, ne, it, back, rest) = ground arith

prepended-node :
    (n item first : ℕ) (h : Heap)
    → first ≢ n
    → prepended n item first h n ≡ record { item = item; prev = 0; next = first }
prepended-node n item first h apart = ground arith

-- `list_prepend`, given a block for the new node that is none of the list's, gives that node, and the
-- list then stands for the queue with the item at its front; without a block it gives NULL and changes
-- nothing.
pub list_prepend-Represents :
    (n item : ℕ) (s : Store) (q : Queue)
    → n ≢ 0
    → has n q ≡ false
    → length q < 4294967295
    → Represents s q
    → ((list_prepend (some n) item s).0 ≡ some n)
      × Represents (list_prepend (some n) item s).1 (State.list_prepend n item q)
      × (list_prepend none item s ≡ (none, s))
unfolding list_prepend
list_prepend-Represents n item s q real new short r =
    let node : prepended n item s.list.head s.heap n
        ≡ record { item = item; prev = 0; next = s.list.head } =
      prepended-node n item s.list.head s.heap
        (first-ne n s.heap 0 s.list.head s.list.tail q real new r.linked) in
    (
      refl,
      record {
        linked = (
          refl,
          real,
          ap (λ (x : Node). x.item) node,
          ap (λ (x : Node). x.prev) node,
          subst
              (λ (x : Node).
                Linked (prepended n item s.list.head s.heap) n x.next
                  (if s.list.tail == 0 then n else s.list.tail) q)
              (sym node)
              (prepend-Linked n item s.heap s.list.head s.list.tail q real new r.distinct r.linked),
        );
        size = omega (arith, r.size);
        distinct = (new, r.distinct);
      },
      refl,
    )
