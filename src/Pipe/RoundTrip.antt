-- ===== src/Pipe/RoundTrip.antt =====
-- What is written to a pipe is what is read from it.
use so_tpe.Common.{
  ℕ, zero, suc, ◌-◌, ◌≤◌, ◌≡◌, refl, ap, sym, ◌∙◌, subst, List, [], ◌∷◌, ◌++◌, arith, length, take,
  drop, length-window,
}
use so_tpe.State.{Pipe}
use so_tpe.Pipe.Buffer.{pipe_size, fill, drain}
use so_tpe.Pipe.Fifo.{IsValid, IsPlain, Taken, contents, fill-Appended, drain-Taken}

pub take_all {ℓ} : {A : Type ℓ} (r : ℕ) (xs : List A) → length xs ≤ r → take r xs ≡ xs
take_all zero [] h = refl
take_all zero (x ∷ xs) h = absurd (omega arith)
take_all (suc r) [] h = refl
take_all (suc r) (x ∷ xs) h = ap (λ l. x ∷ l) (take_all r xs (omega arith))

pub drop_fits {ℓ} : {A : Type ℓ} (r : ℕ) (xs : List A) → length xs ≤ r → drop r xs ≡ []
drop_fits zero [] h = refl
drop_fits zero (x ∷ xs) h = absurd (omega arith)
drop_fits (suc r) [] h = refl
drop_fits (suc r) (x ∷ xs) h = drop_fits r xs (omega arith)

pub IsPlain-append : (xs ys : List ℕ) → IsPlain xs → IsPlain ys → IsPlain (xs ++ ys)
IsPlain-append [] ys px py = py
IsPlain-append (x ∷ xs) ys px py = (px.0, IsPlain-append xs ys px.1 py)

pub contents-length : (p : Pipe) → length (contents p) ≡ p.current_size
contents-length p = length-window pipe_size p.buffer p.start_position p.current_size

-- What a write leaves in the pipe, where all of it fits.
pub contents-fill :
    (cs : List ℕ) (p : Pipe)
    → IsValid p
    → IsPlain cs
    → length cs ≤ pipe_size - p.current_size
    → contents (fill cs 0 p).pipe ≡ contents p ++ cs
contents-fill cs p v plain fits =
    (fill-Appended cs 0 p v plain).bytes
    ∙ ap (λ l. contents p ++ l) (take_all (pipe_size - p.current_size) cs fits)

-- Bytes that a pipe has room for are read back as they were written, behind what the pipe held
-- before, in order, and the pipe is empty then, if no end-of-file mark is among them or among what the pipe held.
pub drain-fill :
    (cs : List ℕ) (p : Pipe)
    → IsValid p
    → IsPlain (contents p)
    → IsPlain cs
    → length cs ≤ pipe_size - p.current_size
    → let n = length (contents p ++ cs) in
      let d = drain n (fill cs 0 p).pipe in
      (d.bytes ≡ contents p ++ cs) × (contents d.pipe ≡ []) × IsValid d.pipe
drain-fill cs p v old plain fits =
    let q : Pipe = (fill cs 0 p).pipe in
    let n : ℕ = length (contents p ++ cs) in
    let holds : contents q ≡ contents p ++ cs = contents-fill cs p v plain fits in
    let size : length (contents p ++ cs) ≡ q.current_size =
      ap length (sym holds) ∙ contents-length q in
    let done : Taken (contents q) n (drain n q) =
      drain-Taken n q (fill-Appended cs 0 p v plain).valid (omega arith)
        (subst IsPlain (sym holds) (IsPlain-append (contents p) cs old plain)) in
    (
      done.bytes ∙ ap (take n) holds ∙ take_all n (contents p ++ cs) (omega arith),
      done.left ∙ ap (drop n) holds ∙ drop_fits n (contents p ++ cs) (omega arith),
      done.valid,
    )
