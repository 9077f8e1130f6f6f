-- ===== src/Tests/Buddies.antt =====
-- The buddy allocator on three pages, of which the second and the third make up a block of two.
use so_tpe.Common.{ℕ, ◌≡◌, refl, some, List, [], ◌∷◌, false, ◌*◌, ◌-◌, ◌⊎◌, arith}
use so_tpe.Buddy.{
  Page, Zone, mm_init, mm_alloc, mm_free, mm_get_stats, empty_zone, add_blocks, buddy_free_pages,
  buddy_alloc_pages, largest_order, order_from, first_list, take_first, split, merge,
  add_to_free_list, del_from_free_list, mark_free, mark_used,
}
use so_tpe.Buddy.Runs.{Holding, Runs, pages_held, Sound}
use so_tpe.Buddy.Calls.{Given, Refused, mm_alloc-Given}
use so_tpe.Buddy.Sound.{Runs-Sound, mm_get_stats-Runs}
use so_tpe.Buddy.Start.{mm_init-Started}

abbrev unused_page : ℕ → Page
unused_page i = record { order = 0; is_free = false; frame_number = 0 }

abbrev three_pages : Zone
three_pages = mm_init 4096 12300 unused_page

abbrev one_block : List Holding
one_block = record { page = 1; order = 1 } ∷ []

two_pages_taken : Runs 4096 12300 unused_page (mm_alloc 5000 three_pages).1 one_block
unfolding mm_init mm_alloc empty_zone add_blocks buddy_free_pages buddy_alloc_pages largest_order
    order_from first_list take_first split merge add_to_free_list del_from_free_list mark_free
    mark_used
two_pages_taken = Runs.allocates 5000 1 three_pages _ [] Runs.starts (omega arith) refl

two_more_refused :
    Runs 4096 12300 unused_page (mm_alloc 5000 (mm_alloc 5000 three_pages).1).1 one_block
unfolding mm_init mm_alloc empty_zone add_blocks buddy_free_pages buddy_alloc_pages largest_order
    order_from first_list take_first split merge add_to_free_list del_from_free_list mark_free
    mark_used
two_more_refused = Runs.fails 5000 _ _ one_block two_pages_taken (omega arith) refl

abbrev freed_again : Zone
freed_again = mm_free 8192 (mm_alloc 5000 (mm_alloc 5000 three_pages).1).1

given_back : Runs 4096 12300 unused_page freed_again []
given_back = Runs.frees _ [] (record { page = 1; order = 1 }) [] two_more_refused

Runs-Sound_example : Sound 4096 12300 freed_again []
Runs-Sound_example = Runs-Sound 4096 12300 unused_page freed_again [] (omega arith) given_back

mm_get_stats-Runs_example : mm_get_stats (mm_alloc 5000 three_pages).1 ≡ (
  (mm_alloc 5000 three_pages).1.total_pages * 4096,
  ((mm_alloc 5000 three_pages).1.total_pages - pages_held one_block) * 4096,
)
mm_get_stats-Runs_example =
    mm_get_stats-Runs 4096 12300 unused_page _ one_block (omega arith) two_pages_taken

mm_alloc-Given_example :
    Refused 5000 three_pages (mm_alloc 5000 three_pages)
    ⊎ Given 5000 three_pages (mm_alloc 5000 three_pages)
mm_alloc-Given_example =
    mm_alloc-Given 5000 three_pages (mm_init-Started 4096 12300 unused_page).wf (omega arith)

stats_then : mm_get_stats freed_again ≡ (12288, 12288)
unfolding mm_init mm_alloc mm_free empty_zone add_blocks buddy_free_pages buddy_alloc_pages
    largest_order order_from first_list take_first split merge add_to_free_list del_from_free_list
    mark_free mark_used
stats_then = refl

wrapped : (mm_alloc 4294967295 three_pages).0 ≡ some 4096
unfolding mm_init mm_alloc mm_free empty_zone add_blocks buddy_free_pages buddy_alloc_pages
    largest_order order_from first_list take_first split merge add_to_free_list del_from_free_list
    mark_free mark_used
wrapped = refl
