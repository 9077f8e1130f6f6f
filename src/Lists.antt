-- ===== src/Lists.antt =====
-- Kernel/lib/list.c: the doubly linked list on a heap of nodes, with its iterator. A node is the
-- number of its block, 0 is NULL; `size` is an int, by its bit pattern.
pub mod Linked
pub mod Append
pub mod Around
pub mod Remove
pub mod Iterate
use so_tpe.Common.{ℕ, ◌+◌, Bool, true, false, Option, none, some, ◌==◌, if◌then◌else◌, u32, update}

-- `Node`
pub record Node : Type 0 where
  pub item : ℕ
  pub prev : ℕ
  pub next : ℕ

abbrev pub Heap : Type 0
Heap = ℕ → Node

-- `List`
pub record LinkedList : Type 0 where
  pub head : ℕ
  pub tail : ℕ
  pub iterator : ℕ
  pub size : ℕ

pub record Store : Type 0 where
  pub list : LinkedList
  pub heap : Heap

abbrev pub set_next : ℕ → ℕ → Heap → Heap
set_next a n h = update h a (record (h a) { next = n })

abbrev pub set_prev : ℕ → ℕ → Heap → Heap
set_prev a n h = update h a (record (h a) { prev = n })

abbrev pub list_init : LinkedList
list_init = record { head = 0; tail = 0; iterator = 0; size = 0 }

-- `list_append`, from the answer of `mm_alloc`; `none` is NULL
unfoldable pub list_append : Option ℕ → ℕ → Store → Option ℕ × Store
list_append none item s = (none, s)
list_append (some n) item s =
    let l = s.list in
    let h = update s.heap n (record { item = item; prev = l.tail; next = 0 }) in
    (
      some n,
      record {
        heap = if l.tail == 0 then h else set_next l.tail n h;
        list = record l {
          tail = n;
          head = if l.head == 0 then n else l.head;
          size = u32 (l.size + 1);
        };
      },
    )

unfoldable pub list_prepend : Option ℕ → ℕ → Store → Option ℕ × Store
list_prepend none item s = (none, s)
list_prepend (some n) item s =
    let l = s.list in
    let h = update s.heap n (record { item = item; prev = 0; next = l.head }) in
    (
      some n,
      record {
        heap = if l.head == 0 then h else set_prev l.head n h;
        list = record l {
          head = n;
          tail = if l.tail == 0 then n else l.tail;
          size = u32 (l.size + 1);
        };
      },
    )

-- the writes of `list_remove` to the nodes around `n`
unfoldable pub relink : ℕ → Heap → Heap
relink n h =
    let h' = if (h n).prev == 0 then h else set_next (h n).prev (h n).next h in
    if (h' n).next == 0 then h' else set_prev (h' n).next (h' n).prev h'

-- `list_remove`: the item of the node, which its caller's `mm_free` releases
unfoldable pub list_remove : ℕ → Store → Option ℕ × Store
list_remove n s =
    let l = s.list in
    if n == 0 then (none, s) else (
      some (s.heap n).item,
      record {
        heap = relink n s.heap;
        list = record l {
          head = if (s.heap n).prev == 0 then (s.heap n).next else l.head;
          tail = if (s.heap n).next == 0 then (s.heap n).prev else l.tail;
          size = u32 (l.size + 4294967295);
        };
      },
    )

abbrev pub list_get_first : LinkedList → ℕ
list_get_first l = l.head

abbrev pub list_is_empty : LinkedList → Bool
list_is_empty l = l.head == 0

abbrev pub list_begin : LinkedList → LinkedList
list_begin l = record l { iterator = l.head }

abbrev pub list_has_next : LinkedList → Bool
list_has_next l = if l.iterator == 0 then false else true

unfoldable pub list_next : Store → Option ℕ × Store
list_next s = if s.list.iterator == 0 then (none, s) else (
  some (s.heap s.list.iterator).item,
  record s { list = record (s.list) { iterator = (s.heap s.list.iterator).next } },
)
