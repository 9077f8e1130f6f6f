-- ===== src/Buddy/Runs.antt =====
-- The zone and the blocks that are given out, through any calls of `mm_alloc` and `mm_free`.
use so_tpe.Common.{
  ℕ, ◌+◌, ◌*◌, ◌/◌, ◌^◌, ◌<◌, ◌≡◌, refl, ap, sym, subst, ◌∙◌, none, some, List, [], ◌∷◌, ◌++◌, true,
  false, arith, min,
}
use so_tpe.Buddy.{Zone, Page, order_of, mm_init, mm_alloc, mm_free}
use so_tpe.Buddy.Powers.{Aligned, pow_pos}
use so_tpe.Buddy.Blocks.{In, IsWf}
use so_tpe.Buddy.Weight.{free_pages}
use so_tpe.Buddy.Calls.{Owned}

-- a block that a caller holds, by its first page and its order
pub record Holding : Type 0 where
  pub page : ℕ
  pub order : ℕ

-- The zones that calls lead to, with what the callers hold then: `mm_alloc` of any size that does not
-- wrap around, and `mm_free` of any pointer that is held.
pub data Runs (start size : ℕ) (old : ℕ → Page) : Zone → List Holding → Type 0 where
  starts : Runs start size old (mm_init start size old) []
  allocates :
      (n page : ℕ) (z z' : Zone) (held : List Holding)
      → Runs start size old z held
      → n + 4095 < 4294967296
      → mm_alloc n z ≡ (some (start + page * 4096), z')
      → Runs start size old z' (record { page = page; order = order_of n } ∷ held)
  fails :
      (n : ℕ) (z z' : Zone) (held : List Holding)
      → Runs start size old z held
      → n + 4095 < 4294967296
      → mm_alloc n z ≡ (none, z')
      → Runs start size old z' held
  frees :
      (z : Zone) (before : List Holding) (h : Holding) (after : List Holding)
      → Runs start size old z (before ++ (h ∷ after))
      → Runs start size old (mm_free (start + h.page * 4096) z) (before ++ after)

-- No page is one of both blocks.
abbrev pub Apart : Holding → Holding → Type 0
Apart h g = (i : ℕ) → In h.page h.order i → ¬ In g.page g.order i

abbrev pub AllApart : Holding → List Holding → Type 0
AllApart h [] = Unit
AllApart h (g ∷ gs) = Apart h g × AllApart h gs

-- The blocks are given out, and no two of them share a page.
abbrev pub AllOwned : Zone → List Holding → Type 0
AllOwned z [] = Unit
AllOwned z (h ∷ hs) = Owned z h.page h.order × AllApart h hs × AllOwned z hs

abbrev pub pages_held : List Holding → ℕ
pages_held [] = 0
pages_held (h ∷ hs) = 2 ^ h.order + pages_held hs

pub record Sound (start size : ℕ) (z : Zone) (held : List Holding) : Type 0 where
  pub wf : IsWf z
  pub base : z.heap_base ≡ start
  pub total : z.total_pages ≡ min (size / 4096) 2048
  pub owned : AllOwned z held
  pub none_lost : free_pages z + pages_held held ≡ z.total_pages

module _ (z z' : Zone) (base : z'.heap_base ≡ z.heap_base)
    (total : z'.total_pages ≡ z.total_pages) where
  -- What holds of a block still holds where its pages have not changed.
  Owned-frame :
      (h : Holding)
      → ((i : ℕ) → In h.page h.order i → z'.pages i ≡ z.pages i)
      → Owned z h.page h.order
      → Owned z' h.page h.order
  Owned-frame h same own = record {
    small = own.small;
    used = (
      record {
        aligned = subst (λ b. Aligned h.order (b / 4096 + h.page)) (sym base) own.used.0.aligned;
        inside = omega (arith, own.used.0.inside);
      },
      λ i at. ap (λ x. x.is_free) (same i at) ∙ own.used.1 i at,
    );
    order =
        ap (λ x. x.order) (same h.page (omega arith, omega (arith, pow_pos h.order))) ∙ own.order;
  }

  -- `mm_alloc` leaves the used pages as they were,
  pub AllOwned-used :
      (held : List Holding)
      → ((i : ℕ) → (z.pages i).is_free ≡ false → z'.pages i ≡ z.pages i)
      → AllOwned z held
      → AllOwned z' held
  AllOwned-used [] same own = own
  AllOwned-used (h ∷ hs) same (own, apart, rest) =
      (Owned-frame h (λ i at. same i (own.used.1 i at)) own, apart, AllOwned-used hs same rest)

  -- and `mm_free` those that are none of its block.
  pub AllOwned-apart :
      (g : Holding) (held : List Holding)
      → ((i : ℕ) → (z.pages i).is_free ≡ false → ¬ In g.page g.order i → z'.pages i ≡ z.pages i)
      → AllApart g held
      → AllOwned z held
      → AllOwned z' held
  AllOwned-apart g [] same apart own = own
  AllOwned-apart g (h ∷ hs) same (far, fars) (own, apart, rest) = (
    Owned-frame h (λ i at. same i (own.used.1 i at) (λ here. far i here at)) own,
    apart,
    AllOwned-apart g hs same fars rest,
  )

-- A block that is taken from free pages is apart from those that are held.
pub fresh-AllApart :
    (z : Zone) (g : Holding) (held : List Holding)
    → ((i : ℕ) → In g.page g.order i → (z.pages i).is_free ≡ true)
    → AllOwned z held
    → AllApart g held
fresh-AllApart z g [] free own = tt
fresh-AllApart z g (h ∷ hs) free (own, apart, rest) = (
  λ i here there. ground (arith, free i here, own.used.1 i there),
  fresh-AllApart z g hs free rest,
)

-- The block in the middle, and the others.
pub record Picked (z : Zone) (g : Holding) (others all : List Holding) : Type 0 where
  pub own : Owned z g.page g.order
  pub apart : AllApart g others
  pub rest : AllOwned z others
  pub sum : pages_held all ≡ 2 ^ g.order + pages_held others

AllApart-drop :
    (h g : Holding) (before after : List Holding)
    → AllApart h (before ++ (g ∷ after))
    → Apart h g × AllApart h (before ++ after)
AllApart-drop h g [] after (far, fars) = (far, fars)
AllApart-drop h g (b ∷ before) after (far, fars) =
    let (x, y) = AllApart-drop h g before after fars in (x, (far, y))

pub pick :
    (z : Zone) (before : List Holding) (g : Holding) (after : List Holding)
    → AllOwned z (before ++ (g ∷ after))
    → Picked z g (before ++ after) (before ++ (g ∷ after))
pick z [] g after (own, apart, rest) = record { own = own; apart = apart; rest = rest; sum = refl }
pick z (b ∷ before) g after (own, apart, rest) =
    let p = pick z before g after rest in
    let (far, fars) = AllApart-drop b g before after apart in
    record {
      own = p.own;
      apart = (λ i here there. far i there here, p.apart);
      rest = (own, fars, p.rest);
      sum = omega (arith, p.sum);
    }
