-- ===== src/Memory.antt =====
-- Kernel/memory/firstFitMemory.c: the allocator on a circular list of free blocks. An address is a
-- number of units of a `MemBlock`, 16 bytes, to which all blocks are aligned; the sentinel has one too.
pub mod FirstFit
pub mod Joined
pub mod Release
use so_tpe.Common.{
  ℕ, zero, suc, ◌+◌, ◌-◌, ◌*◌, ◌/◌, Option, none, some, Bool, true, false, not, ◌&&◌, ◌||◌, leb,
  ltb, ◌==◌, if◌then◌else◌, u32, update,
}

-- the header of a block
pub record MemBlock : Type 0 where
  pub next : ℕ
  pub block_size : ℕ

-- the memory and the static variables
pub record Heap : Type 0 where
  pub blocks : ℕ → MemBlock
  pub free_list : ℕ
  pub total_memory : ℕ
  pub free_memory : ℕ

abbrev pub next_of : ℕ → Heap → ℕ
next_of b h = (h.blocks b).next

abbrev pub size_of : ℕ → Heap → ℕ
size_of b h = (h.blocks b).block_size

abbrev pub link_to : ℕ → ℕ → Heap → Heap
link_to b n h = record h { blocks = update h.blocks b (record (h.blocks b) { next = n }) }

abbrev pub resize : ℕ → ℕ → Heap → Heap
resize b n h = record h { blocks = update h.blocks b (record (h.blocks b) { block_size = n }) }

abbrev pub bytes_to_units : ℕ → ℕ
bytes_to_units bytes = u32 ((bytes + 16 - 1) / 16)

abbrev pub units_to_bytes : ℕ → ℕ
units_to_bytes units = u32 (units * 16)

abbrev pub min_block_units : ℕ
min_block_units = 2

-- from the sentinel's address, the start of the memory and its size in bytes
unfoldable pub mm_init : ℕ → ℕ → ℕ → Heap → Heap
mm_init sentinel start size h =
    let units = u32 (size / 16) in
    if ltb units min_block_units
    then h
    else (let h1 = resize start units h in
        let h2 = record h1 {
          total_memory = units_to_bytes units;
          free_memory = units_to_bytes units;
        } in
        let h3 = link_to start sentinel (resize sentinel 0 (link_to sentinel start h2)) in
        record h3 { free_list = sentinel })

-- NULL, a pointer, or a loop that did not end on its fuel
pub data Allocated : Type 0 where
  null : Allocated
  pointer : ℕ → Allocated
  endless : Allocated

-- the allocated block of the free block `current`, at its end, and the memory without it
unfoldable pub carve : ℕ → ℕ → ℕ → Heap → ℕ × Heap
carve units previous current h =
    if size_of current h == units
    then (current, link_to previous (next_of current h) h)
    else (let h' = resize current (size_of current h - units) h in
        let at = current + size_of current h' in (at, resize at units h'))

-- a block that is large enough is found: `freeList` and `freeMemory`, and the pointer behind the header
unfoldable pub take_block : ℕ → ℕ → ℕ → Heap → Allocated × Heap
take_block units previous current h =
    let (at, h') = carve units previous current h in
    (
      pointer (at + 1),
      record h' {
        free_list = previous;
        free_memory = u32 (h'.free_memory + 4294967296 - units_to_bytes units);
      },
    )

unfoldable pub search : ℕ → ℕ → ℕ → ℕ → Heap → Allocated × Heap
search zero units previous current h = (endless, h)
search (suc fuel) units previous current h =
    let rest = search fuel units current (next_of current h) h in
    if leb units (size_of current h)
    then take_block units previous current h
    else if current == h.free_list
    then (null, h)
    else rest

-- the units of a request, with the header
abbrev pub units_needed : ℕ → ℕ
units_needed size =
    if ltb (bytes_to_units size + 1) min_block_units
    then min_block_units
    else bytes_to_units size + 1

unfoldable pub mm_alloc : ℕ → ℕ → Heap → Allocated × Heap
mm_alloc fuel size h =
    if size == 0
    then (null, h)
    else search fuel (units_needed size) h.free_list (next_of h.free_list h) h

-- where the search of `mm_free` ends, from `current` on: the block that the freed one comes behind
abbrev pub is_between : ℕ → ℕ → ℕ → Bool
is_between b x y = ltb x b && ltb b y

-- the wrap-around of the addresses, with the freed block behind the last or before the first
abbrev pub is_outside : ℕ → ℕ → ℕ → Bool
is_outside b x y = leb y x && (ltb x b || ltb b y)

unfoldable pub place : ℕ → ℕ → ℕ → Heap → Option ℕ
place zero b current h = none
place (suc fuel) b current h =
    let rest = place fuel b (next_of current h) h in
    if is_between b current (next_of current h) || is_outside b current (next_of current h)
    then some current
    else rest

-- the freed block takes the next one in, or leads to it
unfoldable pub join_next : ℕ → ℕ → Heap → Heap
join_next b current h =
    let y = next_of current h in
    if b + size_of b h == y
    then (let h' = resize b (u32 (size_of b h + size_of y h)) h in link_to b (next_of y h') h')
    else link_to b y h

-- the block before takes the freed one in, or leads to it; and `freeList`
unfoldable pub join_previous : ℕ → ℕ → Heap → Heap
join_previous b current h =
    if current + size_of current h == b
    then (let h' = resize current (u32 (size_of current h + size_of b h)) h in
        record (link_to current (next_of b h') h') { free_list = current })
    else record (link_to current b h) { free_list = b }

-- `none` where the search does not end on its fuel
unfoldable pub mm_free : ℕ → ℕ → Heap → Option Heap
mm_free fuel ptr h =
    if ptr == 0
    then some h
    else (let b = ptr - 1 in
        let h' = record h { free_memory = u32 (h.free_memory + units_to_bytes (size_of b h)) } in
        elim (place fuel b h'.free_list h') [
          | none ↦ none
          | some current ↦ some (join_previous b current (join_next b current h'))
        ])

-- `mm_get_stats`, the total and the free memory
abbrev pub mm_get_stats : Heap → ℕ × ℕ
mm_get_stats h = (h.total_memory, h.free_memory)
