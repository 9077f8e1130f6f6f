-- ===== src/Buddy/Blocks.antt =====
-- What a zone is to be like between two calls, and the loops that mark the pages of a block.
use so_tpe.Common.{
  ℕ, zero, suc, ◌+◌, ◌^◌, ◌≤◌, ◌<◌, ◌≡◌, refl, ◌∙◌, Bool, true, false, ◌&&◌, List, [], ◌∷◌, length,
  arith, ltb, leb, ◌==◌, if◌then◌else◌,
}
use so_tpe.Buddy.{Page, Zone, base_frame, erase, mark_free, mark_used, u64}
use so_tpe.Buddy.Powers.{Aligned}

-- how often the page stands in the list
abbrev pub occurrences : ℕ → List ℕ → ℕ
occurrences page [] = 0
occurrences page (p ∷ ps) = (if p == page then 1 else 0) + occurrences page ps

-- The page is one of the block of 2^order pages from `page` on.
abbrev pub In : ℕ → ℕ → ℕ → Type 0
In page order i = (page ≤ i) × (i < page + 2 ^ order)

-- a place where a block may lie
pub record Fits (z : Zone) (page order : ℕ) : Type 0 where
  pub aligned : Aligned order (base_frame z + page)
  pub inside : page + 2 ^ order ≤ z.total_pages

-- No page of the block is free.
abbrev pub Used : Zone → ℕ → ℕ → Type 0
Used z page order = Fits z page order × ((i : ℕ) → In page order i → (z.pages i).is_free ≡ false)

abbrev pub Free : Zone → ℕ → ℕ → Type 0
Free z page order =
    Fits z page order
    × ((i : ℕ) → In page order i → ((z.pages i).is_free ≡ true) × ((z.pages i).order ≡ order))

-- a free block that the page belongs to
pub record Covered (z : Zone) (i : ℕ) : Type 0 where
  pub head : ℕ
  pub listed : 0 < occurrences head (z.free_lists (z.pages i).order)
  pub member : In head (z.pages i).order i

-- The lists hold the first pages of the free blocks, once each; the pages of the blocks, and no others,
-- are marked free, with the order of their block; and the counts are those of the lists.
pub record IsWf (z : Zone) : Type 0 where
  pub frames : (i : ℕ) → i < z.total_pages → (z.pages i).frame_number ≡ base_frame z + i
  pub blocks : (page order : ℕ) → 0 < occurrences page (z.free_lists order) → Free z page order
  pub once : (page order : ℕ) → occurrences page (z.free_lists order) ≤ 1
  pub covered : (i : ℕ) → i < z.total_pages → (z.pages i).is_free ≡ true → Covered z i
  pub counted : (order : ℕ) → z.free_block_count order ≡ u64 (length (z.free_lists order))

pub occurrences-erase :
    (q p : ℕ) (xs : List ℕ) → occurrences q (erase p xs) ≡ (if q == p then 0 else occurrences q xs)
occurrences-erase q p [] = ground arith
occurrences-erase q p (x ∷ xs) = ground (arith, occurrences-erase q p xs)

pub length-erase : (p : ℕ) (xs : List ℕ) → length (erase p xs) + occurrences p xs ≡ length xs
length-erase p [] = refl
length-erase p (x ∷ xs) = ground (arith, length-erase p xs)

abbrev pub in_range : ℕ → ℕ → ℕ → Bool
in_range page n i = leb page i && ltb i (page + n)

pub mark_used_lem :
    (n p i : ℕ) (f : ℕ → Page)
    → mark_used n p f i ≡ (if in_range p n i then record (f i) { is_free = false } else f i)
unfolding mark_used
mark_used_lem zero p i f = ground arith
mark_used_lem (suc n) p i f = mark_used_lem n (p + 1) i _ ∙ ground arith

pub mark_free_lem :
    (o n p i : ℕ) (f : ℕ → Page)
    → mark_free o n p f i
      ≡ (if in_range p n i then record (f i) { order = o; is_free = true } else f i)
unfolding mark_free
mark_free_lem o zero p i f = ground arith
mark_free_lem o (suc n) p i f = mark_free_lem o n (p + 1) i _ ∙ ground arith
