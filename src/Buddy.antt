-- ===== src/Buddy.antt =====
-- Kernel/memory/buddyMemory.c: the allocator of blocks of 2^order pages, of a kernel that is built with
-- BUDDY. A page is named by its place in the array `buddy_pages`; a list of `free_list_node`s is the
-- sequence of its pages; and of the bits of `flags` there is only PAGE_FREE_FLAG.
pub mod Powers
pub mod Blocks
pub mod Moves
pub mod Adding
pub mod Weight
pub mod Split
pub mod Take
pub mod Merge
pub mod Start
pub mod Calls
pub mod Runs
pub mod Sound
use so_tpe.Common.{
  ℕ, zero, suc, ◌+◌, ◌-◌, ◌*◌, ◌/◌, ◌%◌, ◌^◌, Option, none, some, Bool, true, false, ◌&&◌, ◌||◌,
  List, [], ◌∷◌, leb, ltb, ◌==◌, if◌then◌else◌, u32, update, min,
}

abbrev pub u64 : ℕ → ℕ
u64 n = n % 18446744073709551616

abbrev pub max_order : ℕ
max_order = 10

pub record Page : Type 0 where
  pub order : ℕ
  pub is_free : Bool
  pub frame_number : ℕ

-- the zone, with the lists and the counts of its `free_area_t`s by their order
pub record Zone : Type 0 where
  pub free_lists : ℕ → List ℕ
  pub free_block_count : ℕ → ℕ
  pub total_pages : ℕ
  pub pages : ℕ → Page
  pub heap_base : ℕ

abbrev pub base_frame : Zone → ℕ
base_frame z = z.heap_base / 4096

-- the list without the page's node
abbrev pub erase : ℕ → List ℕ → List ℕ
erase page [] = []
erase page (p ∷ ps) = let rest = erase page ps in if p == page then rest else p ∷ rest

-- the node leaves the list that it is in, whichever that is
abbrev pub list_del : ℕ → (ℕ → List ℕ) → ℕ → List ℕ
list_del page lists order = erase page (lists order)

abbrev pub list_add : ℕ → ℕ → (ℕ → List ℕ) → ℕ → List ℕ
list_add page order lists = update lists order (page ∷ lists order)

abbrev pub frame_to_page : Zone → ℕ → ℕ
frame_to_page z frame_number = frame_number - base_frame z

abbrev pub page_to_frame_number : Zone → ℕ → ℕ
page_to_frame_number z page = (z.pages page).frame_number

-- The bit of the order is flipped.
abbrev pub get_buddy_frame_number : ℕ → ℕ → ℕ
get_buddy_frame_number frame_number order =
    if frame_number / 2 ^ order % 2 == 0 then frame_number + 2 ^ order else frame_number - 2 ^ order

-- the loops over the pages of a block, on the pages that are left
unfoldable pub mark_free : ℕ → ℕ → ℕ → (ℕ → Page) → ℕ → Page
mark_free order zero page pages = pages
mark_free order (suc n) page pages =
    mark_free order n (page + 1)
      (update pages page (record (pages page) { order = order; is_free = true }))

unfoldable pub mark_used : ℕ → ℕ → (ℕ → Page) → ℕ → Page
mark_used zero page pages = pages
mark_used (suc n) page pages =
    mark_used n (page + 1) (update pages page (record (pages page) { is_free = false }))

unfoldable pub add_to_free_list : ℕ → ℕ → Zone → Zone
add_to_free_list page order z = record z {
  free_lists = list_add page order z.free_lists;
  free_block_count = update z.free_block_count order (u64 (z.free_block_count order + 1));
  pages = mark_free order (2 ^ order) page z.pages;
}

unfoldable pub del_from_free_list : ℕ → ℕ → Zone → Zone
del_from_free_list page order z = record z {
  free_lists = list_del page z.free_lists;
  free_block_count =
      update z.free_block_count order (u64 (z.free_block_count order + 18446744073709551615));
  pages = mark_used (2 ^ order) page z.pages;
}

-- whether the frame is one of the zone and the head of a free block of the order, or may be
abbrev pub can_merge : ℕ → ℕ → Zone → Bool
can_merge buddy_frame order z =
    (leb (base_frame z) buddy_frame && ltb buddy_frame (base_frame z + z.total_pages))
    && ((z.pages (frame_to_page z buddy_frame)).is_free
        && (z.pages (frame_to_page z buddy_frame)).order == order)

-- the loop of `buddy_free_pages`, on the orders that are left to `max_order`
unfoldable pub merge : ℕ → ℕ → ℕ → ℕ → Zone → Zone
merge zero frame_number page order z = add_to_free_list page order z
merge (suc n) frame_number page order z =
    let buddy_frame = get_buddy_frame_number frame_number order in
    let buddy = frame_to_page z buddy_frame in
    let z' = del_from_free_list buddy order z in
    let low = merge n buddy_frame buddy (order + 1) z' in
    let high = merge n frame_number page (order + 1) z' in
    if can_merge buddy_frame order z
    then (if ltb buddy_frame frame_number then low else high)
    else add_to_free_list page order z

unfoldable pub buddy_free_pages : ℕ → ℕ → Zone → Zone
buddy_free_pages page order z = merge (max_order - order) (page_to_frame_number z page) page order z

-- the inner loop of `buddy_alloc_pages`, on the number `n` of orders above `order`
unfoldable pub split : ℕ → ℕ → ℕ → Zone → Zone
split zero page order z = z
split (suc n) page order z =
    let buddy = frame_to_page z (page_to_frame_number z page + 2 ^ (order + n)) in
    split n page order (add_to_free_list buddy (order + n) z)

abbrev pub set_order : ℕ → ℕ → Zone → Zone
set_order page order z = record z {
  pages = update z.pages page (record (z.pages page) { order = order });
}

-- the body of the outer loop, at the first page of a list that has one, and the loop itself, on the
-- orders that are left from `order + n` on
unfoldable pub take_first : ℕ → ℕ → ℕ → Zone → Zone
take_first page n order z =
    set_order page order (split n page order (del_from_free_list page (order + n) z))

unfoldable pub first_list : ℕ → ℕ → ℕ → Zone → Option ℕ × Zone
first_list zero n order z = (none, z)
first_list (suc left) n order z =
    let rest = first_list left (n + 1) order z in
    elim (z.free_lists (order + n)) [
      | [] ↦ rest
      | page ∷ _ ↦ (some page, take_first page n order z)
    ]

unfoldable pub buddy_alloc_pages : ℕ → Zone → Option ℕ × Zone
buddy_alloc_pages order z = first_list (max_order + 1 - order) 0 order z

-- the loop of `mm_alloc` that finds the order
unfoldable pub order_from : ℕ → ℕ → ℕ → ℕ
order_from zero order pages_needed = order
order_from (suc left) order pages_needed =
    let rest = order_from left (order + 1) pages_needed in
    if ltb (2 ^ order) pages_needed && leb order max_order then rest else order

abbrev pub pages_needed : ℕ → ℕ
pages_needed size = u32 (size + 4095) / 4096

abbrev pub order_of : ℕ → ℕ
order_of size = order_from (max_order + 1) 0 (pages_needed size)

-- the address of a page
abbrev pub address : Zone → ℕ → ℕ
address z page = z.heap_base + (page_to_frame_number z page - base_frame z) * 4096

-- `none` for NULL
unfoldable pub mm_alloc : ℕ → Zone → Option ℕ × Zone
mm_alloc size z =
    if size == 0 || ltb max_order (order_of size)
    then (none, z)
    else (let (page, z') = buddy_alloc_pages (order_of size) z in
        elim page [ none ↦ (none, z') | some p ↦ (some (address z' p), z') ])

unfoldable pub mm_free : ℕ → Zone → Zone
mm_free ptr z =
    let page = (ptr - z.heap_base) / 4096 in
    if ptr == 0
    then z
    else if ltb ptr z.heap_base || leb (z.heap_base + z.total_pages * 4096) ptr
    then z
    else if leb z.total_pages page || (z.pages page).is_free
    then z
    else buddy_free_pages page (z.pages page).order z

-- the sum of the loop of `mm_get_stats` over the orders below `n`
abbrev pub free_pages_below : ℕ → Zone → ℕ
free_pages_below zero z = 0
free_pages_below (suc n) z = u64 (free_pages_below n z + u64 (z.free_block_count n * 2 ^ n))

-- the total and the free bytes
abbrev pub mm_get_stats : Zone → ℕ × ℕ
mm_get_stats z = (u64 (z.total_pages * 4096), u64 (free_pages_below (max_order + 1) z * 4096))

-- the order of the largest block that may start at the frame, from `order` down
unfoldable pub largest_order : ℕ → ℕ → ℕ → ℕ
largest_order zero frame_number nr_pages = 0
largest_order (suc order) frame_number nr_pages =
    let below = largest_order order frame_number nr_pages in
    if frame_number % 2 ^ suc order == 0 && leb (2 ^ suc order) nr_pages then suc order else below

-- the loop of `buddy_add_memory`; each turn adds a page at least, so that `nr_pages` is enough fuel
unfoldable pub add_blocks : ℕ → ℕ → ℕ → Zone → Zone
add_blocks zero frame_number nr_pages z = z
add_blocks (suc fuel) frame_number nr_pages z =
    let order = largest_order max_order frame_number nr_pages in
    let z' = buddy_free_pages (frame_to_page z frame_number) order z in
    let rest = add_blocks fuel (frame_number + 2 ^ order) (nr_pages - 2 ^ order) z' in
    if nr_pages == 0 then z else rest

abbrev pub buddy_add_memory : ℕ → Zone → Zone
buddy_add_memory nr_pages z = add_blocks nr_pages (base_frame z) nr_pages z

-- the zone before its memory is added: its pages are not free, and the lists are empty
unfoldable pub empty_zone : ℕ → ℕ → (ℕ → Page) → Zone
empty_zone start num_pages buddy_pages = record {
  free_lists = λ order. [];
  free_block_count = λ order. 0;
  total_pages = num_pages;
  pages = λ i.
      if ltb i num_pages
      then record { order = 0; is_free = false; frame_number = start / 4096 + i }
      else buddy_pages i;
  heap_base = start;
}

unfoldable pub mm_init : ℕ → ℕ → (ℕ → Page) → Zone
mm_init start size buddy_pages =
    let num_pages = min (size / 4096) 2048 in
    buddy_add_memory num_pages (empty_zone start num_pages buddy_pages)
