-- ===== src/Libc/Tokens.antt =====
-- What `strtok` cuts out of a string.
use so_tpe.Common.{
  ℕ, ◌≡◌, ◌≢◌, refl, ap, Bool, true, false, Option, none, some, List, [], ◌∷◌, ◌++◌, arith,
  Bool-cases, inl, inr,
}
use so_tpe.Libc.{is_delim, skip_delims, take_token, token_from, strtok}

-- All the bytes are delimiters, or none of them is.
abbrev pub IsAll : Bool → List ℕ → List ℕ → Type 0
IsAll b ds [] = Unit
IsAll b ds (c ∷ s) = (is_delim ds c ≡ b) × IsAll b ds s

-- The string is a token and the end, or a token, one delimiter, and the string that is left.
abbrev pub Ends : List ℕ → List ℕ → List ℕ → Option (List ℕ) → Type 0
Ends ds s t none = s ≡ t
Ends ds s t (some r) = (d : ℕ) × (is_delim ds d ≡ true) × (s ≡ t ++ (d ∷ r))

-- What `strtok` makes of the string `s`: either `s` has only delimiters, and there is no token; or
-- `s` is some delimiters, then the token, which is not empty and has no delimiter, then the end, or
-- one delimiter and the string that is left for the next call.
abbrev pub Cut : List ℕ → List ℕ → Option (List ℕ) × Option (List ℕ) → Type 0
Cut ds s (none, last) = IsAll true ds s × (last ≡ none)
Cut ds s (some t, last) =
    (p : List ℕ) × (s' : List ℕ) × (s ≡ p ++ s')
    × IsAll true ds p
    × IsAll false ds t
    × (t ≢ [])
    × Ends ds s' t last

Ends-cons :
    (ds s t : List ℕ) (c : ℕ) (last : Option (List ℕ))
    → Ends ds s t last
    → Ends ds (c ∷ s) (c ∷ t) last
Ends-cons ds s t c none e = ap (λ l. c ∷ l) e
Ends-cons ds s t c (some r) (d, h, e) = (d, h, ap (λ l. c ∷ l) e)

take_token-Ends :
    (ds s : List ℕ)
    → IsAll false ds (take_token ds s).0 × Ends ds s (take_token ds s).0 (take_token ds s).1
unfolding take_token
take_token-Ends ds [] = (tt, refl)
take_token-Ends ds (c ∷ s) =
    let (clean, ends) = take_token-Ends ds s in
    elim (Bool-cases (is_delim ds c)) [
      | inl h ↦ rw (h, take_token) (tt, (c, h, refl))
      | inr h ↦ rw (h, take_token) ((h, clean), Ends-cons ds s _ c _ ends)
    ]

token-Cut : (ds s : List ℕ) (c : ℕ) → is_delim ds c ≡ false → Cut ds (c ∷ s) (token_from ds (c ∷ s))
unfolding token_from take_token
token-Cut ds s c h =
    let (clean, ends) = take_token-Ends ds s in
    rw (h, token_from)
      ([], c ∷ s, refl, tt, (h, clean), λ e. ground arith, Ends-cons ds s _ c _ ends)

Cut-cons :
    (ds s : List ℕ) (c : ℕ) (o : Option (List ℕ) × Option (List ℕ))
    → is_delim ds c ≡ true
    → Cut ds s o
    → Cut ds (c ∷ s) o
Cut-cons ds s c (none, last) h (all, e) = ((h, all), e)
Cut-cons ds s c (some t, last) h (p, s', e, all, clean, ne, ends) =
    (c ∷ p, s', ap (λ l. c ∷ l) e, (h, all), clean, ne, ends)

cut : (ds s : List ℕ) → Cut ds s (token_from ds (skip_delims ds s))
unfolding skip_delims token_from
cut ds [] = (tt, refl)
cut ds (c ∷ s) = elim (Bool-cases (is_delim ds c)) [
  | inl h ↦ rw (h, skip_delims) (Cut-cons ds s c _ h (cut ds s))
  | inr h ↦ rw (h, skip_delims) (token-Cut ds s c h)
]

-- A call of `strtok` on a string, or with NULL on what the last call left: it skips the delimiters
-- in front, and the token it gives is the longest piece without one, never empty; the delimiter
-- behind it is dropped and what follows is left for the next call. There is no token only where the
-- string has nothing but delimiters, and then nothing is left.
pub strtok-Cut :
    (ds s : List ℕ) (last : Option (List ℕ))
    → Cut ds s (strtok (some s) ds last) × Cut ds s (strtok none ds (some s))
unfolding strtok
strtok-Cut ds s last = (cut ds s, cut ds s)
