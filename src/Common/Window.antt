-- ===== src/Common/Window.antt =====
-- The bytes of a circular buffer of `size` places, an array as a function of the index.
use Prim.Native.Nat.{ℕ, zero, suc, ◌+◌, ◌%◌, ◌<◌}
use mathlib.Core.Path.{◌≡◌, ap, ap₂, ◌∙◌}
use mathlib.Core.Logic.{◌≢◌}
use mathlib.Core.Bool.{true, false}
use mathlib.Core.List.{List, [], ◌∷◌, ◌++◌}
use native.Mathlib.Omega.{arith}
use native.Mathlib.Nat.{mod-add-mod, mod-eq_of_lt, add-zero}
use so_tpe.Common.Tests.{◌==◌, update}
use so_tpe.Common.Lists.{length}

module _ (size : ℕ) where
  -- the `n` bytes from index `s` on, going round at `size`
  abbrev pub window : (ℕ → ℕ) → ℕ → ℕ → List ℕ
  window b s zero = []
  window b s (suc n) = b s ∷ window b ((s + 1) % size) n

  pub length-window : (b : ℕ → ℕ) (s n : ℕ) → length (window b s n) ≡ n
  length-window b s zero = omega arith
  length-window b s (suc n) = ap suc (length-window b ((s + 1) % size) n)

  off : (s n : ℕ) → s < size → suc n < size → (s + suc n) % size ≢ s
  off s n hs hn = grind arith

  shift : (s n : ℕ) → (s + suc n) % size ≡ ((s + 1) % size + n) % size
  shift s n = rw mod-add-mod (ap (λ k. k % size) (omega arith))

  -- A write just past a window extends it.
  pub window-update :
      (b : ℕ → ℕ) (c s n i : ℕ)
      → s < size
      → n < size
      → i ≡ (s + n) % size
      → window (update b i c) s (suc n) ≡ window b s n ++ (c ∷ [])
  window-update b c s zero i hs hn e =
      let there : i ≡ s = e ∙ ap (λ k. k % size) (add-zero s) ∙ mod-eq_of_lt hs in
      let same : (s == i) ≡ true = ground arith in rw same
  window-update b c s (suc n) i hs hn e =
      let other : (s == i) ≡ false = ground (arith, off s n hs hn) in
      ap₂ ◌∷◌ (rw other)
        (window-update b c ((s + 1) % size) n i (omega arith) (omega arith) (e ∙ shift s n))
