-- ===== src/Lists/Around.antt =====
-- The nodes around a node of a linked list, and what `list_remove` writes to them.
use so_tpe.Common.{
  ℕ, ◌≡◌, ◌≢◌, ◌⊎◌, inl, inr, ap, sym, ◌∙◌, true, false, ◌&&◌, not, [], ◌∷◌, arith, ◌==◌,
  if◌then◌else◌, Bool-cases,
}
use so_tpe.State.{Entry, Queue}
use so_tpe.Lists.{Heap, relink}
use so_tpe.Lists.Linked.{has, Linked, IsDistinct, last-has, not-has-zero, first-ne-zero}

module _ (n : ℕ) (h : Heap) where
  -- the node before a node of the list is another node
  pub prev-ne :
      (p first t : ℕ) (q : Queue)
      → has p q ≡ false
      → IsDistinct q
      → has n q ≡ true
      → Linked h p first t q
      → (h n).prev ≢ n
  prev-ne p first t [] out d m l = absurd (cc)
  prev-ne p first t (e ∷ q) out d m (at, ne, it, back, rest) = elim (Bool-cases (n == e.node)) [
    | inl z ↦
        let w : n ≡ e.node = ground arith in
        let b : (h n).prev ≡ p = ap (λ a. (h a).prev) w ∙ back in ground arith
    | inr z ↦ prev-ne e.node (h e.node).next t q d.0 d.1 (ground arith) rest
  ]

  -- the node behind a node of the list is one of the list, or NULL
  pub next-has :
      (p first t : ℕ) (q : Queue)
      → has n q ≡ true
      → Linked h p first t q
      → ((h n).next ≡ 0) ⊎ (has (h n).next q ≡ true)
  next-has p first t [] m l = absurd (cc)
  next-has p first t (e ∷ []) m (at, ne, it, back, rest) =
      let w : n ≡ e.node = ground arith in inl (ap (λ a. (h a).next) w ∙ rest.0)
  next-has p first t (e ∷ f ∷ q) m (at, ne, it, back, rest) = elim (Bool-cases (n == e.node)) [
    | inl z ↦
        let w : n ≡ e.node = ground arith in
        let b : (h n).next ≡ f.node = ap (λ a. (h a).next) w ∙ rest.0 in inr (ground arith)
    | inr z ↦ elim (next-has e.node (h e.node).next t (f ∷ q) (ground arith) rest) [
      | inl e0 ↦ inl e0
      | inr e1 ↦ inr (ground arith)
    ]
  ]

  -- the node before a node that is not the first is one of the list
  prev-has :
      (p first t : ℕ) (q : Queue)
      → first ≢ n
      → has n q ≡ true
      → Linked h p first t q
      → has (h n).prev q ≡ true
  prev-has p first t [] other m l = absurd (cc)
  prev-has p first t (e ∷ []) other m (at, ne, it, back, rest) = absurd (ground arith)
  prev-has p first t (e ∷ f ∷ q) other m (at, ne, it, back, rest) =
      elim (Bool-cases ((h e.node).next == n)) [
        | inl z ↦
            let w : n ≡ f.node = ground arith in
            let b : (h n).prev ≡ e.node = ap (λ a. (h a).prev) w ∙ rest.3 in ground arith
        | inr z ↦ ground (arith, prev-has e.node (h e.node).next t (f ∷ q))
      ]

  -- the nodes around `n` after the removal
  pub relink-item : (a : ℕ) → (relink n h a).item ≡ (h a).item
  unfolding relink
  relink-item a = ground arith

  pub relink-next :
      (a : ℕ)
      → (h n).prev ≢ n
      → (relink n h a).next ≡ (if a == (h n).prev && not (a == 0) then (h n).next else (h a).next)
  unfolding relink
  relink-next a apart = ground arith

  pub relink-prev :
      (a : ℕ)
      → (h n).prev ≢ n
      → (relink n h a).prev ≡ (if a == (h n).next && not (a == 0) then (h n).prev else (h a).prev)
  unfolding relink
  relink-prev a apart = ground arith

  pub relink-other : (a : ℕ) → a ≢ (h n).prev → a ≢ (h n).next → relink n h a ≡ h a
  unfolding relink
  relink-other a u v = ground arith

  first-prev :
      (p first t : ℕ) (q : Queue)
      → first ≡ n
      → has n q ≡ true
      → Linked h p first t q
      → (h n).prev ≡ p
  first-prev p first t [] same m l = absurd (cc)
  first-prev p first t (e ∷ q) same m (at, ne, it, back, rest) =
      ap (λ a. (h a).prev) (sym same ∙ at) ∙ back

  -- A node of the queue that is not `n` gets another `next` only when `n` stands behind it.
  pub redirected :
      (e : Entry) (t : ℕ) (q : Queue)
      → e.node ≢ 0
      → has e.node q ≡ false
      → has n q ≡ true
      → Linked h e.node (h e.node).next t q
      → (if e.node == (h n).prev && not (e.node == 0) then (h n).next else (h e.node).next)
        ≡ (if (h e.node).next == n then (h n).next else (h e.node).next)
  redirected e t q ne out m l = elim (Bool-cases ((h e.node).next == n)) [
    | inl z ↦ ground (arith, first-prev e.node (h e.node).next t q (ground arith) m l)
    | inr z ↦
        let inner : has (h n).prev q ≡ true =
          prev-has e.node (h e.node).next t q (ground arith) m l in
        let other : e.node ≢ (h n).prev = λ w. ground (arith, ap (λ a. has a q) w, inner, out) in
        ground arith
  ]

  -- and none that stands before `n` gets another `prev`.
  pub unmoved :
      (a : ℕ) (q : Queue)
      → (a == n) ≡ false
      → ((h n).next ≡ 0) ⊎ (has (h n).next q ≡ true)
      → has a q ≡ false
      → (if a == (h n).next && not (a == 0) then (h n).prev else (h a).prev) ≡ (h a).prev
  unmoved a q z (inl e) out = ground arith
  unmoved a q z (inr m) out =
      let other : a ≢ (h n).next = λ w. ground (arith, ap (λ b. has b q) w, m, out) in ground arith

  -- `n` is the last node exactly when no node stands behind it.
  pub last-next :
      (p first t : ℕ) (q : Queue)
      → has n q ≡ true
      → IsDistinct q
      → Linked h p first t q
      → ((h n).next == 0) ≡ (t == n)
  last-next p first t [] m d l = absurd (cc)
  last-next p first t (e ∷ []) m d (at, ne, it, back, rest) =
      let w : n ≡ e.node = ground arith in
      let b : (h n).next ≡ 0 = ap (λ a. (h a).next) w ∙ rest.0 in ground (arith, rest.1)
  last-next p first t (e ∷ f ∷ q) m d (at, ne, it, back, rest) = elim (Bool-cases (n == e.node)) [
    | inl z ↦
        let w : n ≡ e.node = ground arith in
        let inner : has t (f ∷ q) ≡ true = last-has h e.node (h e.node).next t f q rest in
        let other : t ≢ n = λ u. ground (arith, ap (λ a. has a (f ∷ q)) (u ∙ w), inner, d.0) in
        let b : (h n).next ≢ 0 = λ u.
          first-ne-zero h e.node (h e.node).next t f q rest (ap (λ a. (h a).next) (sym w) ∙ u) in
        ground arith
    | inr z ↦ last-next e.node (h e.node).next t (f ∷ q) (ground arith) d.1 rest
  ]

  -- `n` is the first node exactly when no node stands before it.
  pub first-back :
      (first t : ℕ) (q : Queue)
      → has n q ≡ true
      → Linked h 0 first t q
      → ((h n).prev == 0) ≡ (first == n)
  first-back first t q m l = elim (Bool-cases (first == n)) [
    | inl z ↦ let b : (h n).prev ≡ 0 = first-prev 0 first t q (ground arith) m l in ground arith
    | inr z ↦
        let inner : has (h n).prev q ≡ true = prev-has 0 first t q (ground arith) m l in
        let b : (h n).prev ≢ 0 =
          λ u. ground (arith, ap (λ a. has a q) u, inner, not-has-zero h 0 first t q l) in
        ground arith
  ]
