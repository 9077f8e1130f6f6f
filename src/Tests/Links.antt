-- ===== src/Tests/Links.antt =====
-- A linked list of one node.
use so_tpe.Common.{◌≡◌, refl, none, some, [], ◌∷◌, arith}
use so_tpe.State
use so_tpe.State.{Queue}
use so_tpe.Lists.{Store, list_append, list_prepend, list_remove}
use so_tpe.Lists.Linked.{Represents}
use so_tpe.Lists.Append.{list_append-Represents, list_prepend-Represents}
use so_tpe.Lists.Remove.{list_remove-Represents}

abbrev one_node : Store
one_node = record {
  list = record { head = 7; tail = 7; iterator = 0; size = 1 };
  heap = λ a. record { item = 40; prev = 0; next = 0 };
}

abbrev queue : Queue
queue = record { node = 7; pid = 40 } ∷ []

one_node-Represents : Represents one_node queue
one_node-Represents = record {
  linked = (refl, omega arith, refl, refl, (refl, refl));
  size = refl;
  distinct = (refl, tt);
}

list_append-Represents_example :
    ((list_append (some 9) 41 one_node).0 ≡ some 9)
    × Represents (list_append (some 9) 41 one_node).1 (State.list_append 9 41 queue)
    × (list_append none 41 one_node ≡ (none, one_node))
list_append-Represents_example =
    list_append-Represents 9 41 one_node queue (omega arith) refl (omega arith) one_node-Represents

list_prepend-Represents_example :
    ((list_prepend (some 9) 41 one_node).0 ≡ some 9)
    × Represents (list_prepend (some 9) 41 one_node).1 (State.list_prepend 9 41 queue)
    × (list_prepend none 41 one_node ≡ (none, one_node))
list_prepend-Represents_example =
    list_prepend-Represents 9 41 one_node queue (omega arith) refl (omega arith) one_node-Represents

list_remove-Represents_example :
    ((list_remove 7 one_node).0 ≡ some 40)
    × Represents (list_remove 7 one_node).1 (State.list_remove 7 queue)
    × (list_remove 0 one_node ≡ (none, one_node))
list_remove-Represents_example =
    list_remove-Represents 7 one_node queue refl (omega arith) one_node-Represents
