-- ===== src/Lists/Linked.antt =====
-- What a linked list on the heap stands for: a queue of nodes and items.
use so_tpe.Common.{
  ℕ, ◌≡◌, ◌≢◌, refl, ap, sym, subst, ◌∙◌, Bool, true, false, ◌||◌, [], ◌∷◌, arith, ◌==◌, length,
}
use so_tpe.State.{Entry, Queue}
use so_tpe.Lists.{Node, Heap, Store}

abbrev pub has : ℕ → Queue → Bool
has a [] = false
has a (e ∷ q) = a == e.node || has a q

-- From the node `first`, whose `prev` is `p`, the pointers lead both ways through the nodes of the
-- queue to `last`, which is `p` for an empty queue.
abbrev pub Linked : Heap → ℕ → ℕ → ℕ → Queue → Type 0
Linked h p first last [] = (first ≡ 0) × (last ≡ p)
Linked h p first last (e ∷ q) =
    (first ≡ e.node)
    × (e.node ≢ 0)
    × ((h e.node).item ≡ e.pid)
    × ((h e.node).prev ≡ p)
    × Linked h e.node (h e.node).next last q

abbrev pub IsDistinct : Queue → Type 0
IsDistinct [] = Unit
IsDistinct (e ∷ q) = (has e.node q ≡ false) × IsDistinct q

pub record Represents (s : Store) (q : Queue) : Type 0 where
  pub linked : Linked s.heap 0 s.list.head s.list.tail q
  pub size : s.list.size ≡ length q
  pub distinct : IsDistinct q

-- A queue's nodes are all that its links depend on.
pub frame :
    (h g : Heap) (p first last : ℕ) (q : Queue)
    → ((a : ℕ) → has a q ≡ true → g a ≡ h a)
    → Linked h p first last q
    → Linked g p first last q
frame h g p first last [] same l = l
frame h g p first last (e ∷ q) same (at, real, item, back, rest) =
    let here : g e.node ≡ h e.node = same e.node (ground arith) in
    (
      at,
      real,
      ap (λ (x : Node). x.item) here ∙ item,
      ap (λ (x : Node). x.prev) here ∙ back,
      subst (λ (x : Node). Linked g e.node x.next last q) (sym here)
          (frame h g e.node (h e.node).next last q (λ a m. same a (ground arith)) rest),
    )

-- the last node is one of the queue
pub last-has :
    (h : Heap) (p first last : ℕ) (e : Entry) (q : Queue)
    → Linked h p first last (e ∷ q)
    → has last (e ∷ q) ≡ true
last-has h p first last e [] (at, real, item, back, rest) = ground (arith, rest.1)
last-has h p first last e (f ∷ q) (at, real, item, back, rest) =
    ground (arith, last-has h e.node (h e.node).next last f q rest)

pub not-has-zero :
    (h : Heap) (p first last : ℕ) (q : Queue) → Linked h p first last q → has 0 q ≡ false
not-has-zero h p first last [] l = refl
not-has-zero h p first last (e ∷ q) (at, real, item, back, rest) =
    ground (arith, not-has-zero h e.node (h e.node).next last q rest)

-- The first node is NULL only for an empty queue.
pub first-ne-zero :
    (h : Heap) (p first last : ℕ) (e : Entry) (q : Queue)
    → Linked h p first last (e ∷ q)
    → first ≢ 0
first-ne-zero h p first last e q (at, real, item, back, rest) = λ z. real (sym at ∙ z)
