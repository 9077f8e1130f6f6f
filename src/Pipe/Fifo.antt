-- ===== src/Pipe/Fifo.antt =====
-- The buffer of a pipe is a queue of bytes: what `fill` and `drain` do to its contents.
use so_tpe.Common.{
  ℕ, zero, suc, ◌+◌, ◌-◌, ◌≤◌, ◌<◌, ◌≡◌, ◌≢◌, refl, ap, subst, sym, ◌∙◌, true, false, List, [], ◌∷◌,
  ◌++◌, arith, ltb, ◌==◌, u16, length, take, drop, Bool-cases, inl, inr, window, window-update,
}
use mathlib.Core.List.{append-nil, append_assoc}
use so_tpe.State.{Pipe}
use so_tpe.Pipe.Buffer.{
  pipe_size, eof_marker, buffer_position, push, advance, cons_byte, Filled, fill, Drained, drain,
  front, has_data,
}

-- the bytes that a pipe holds, the oldest first
abbrev pub contents : Pipe → List ℕ
contents p = window pipe_size p.buffer p.start_position p.current_size

-- No index leaves the buffer.
pub record IsValid (p : Pipe) : Type 0 where
  pub start_in : p.start_position < pipe_size
  pub size_in : p.current_size ≤ pipe_size

-- No byte is the end-of-file mark.
abbrev pub IsPlain : List ℕ → Type 0
IsPlain [] = Unit
IsPlain (c ∷ cs) = (c ≢ eof_marker) × IsPlain cs

store-IsValid : (c : ℕ) (p : Pipe) → IsValid p → p.current_size < pipe_size → IsValid (push c p)
store-IsValid c p v h = record { start_in = v.start_in; size_in = omega arith }

contents-store :
    (c : ℕ) (p : Pipe)
    → IsValid p
    → p.current_size < pipe_size
    → contents (push c p) ≡ contents p ++ (c ∷ [])
contents-store c p v h =
    let size : u16 (p.current_size + 1) ≡ suc p.current_size = omega arith in
    rw size (
      window-update pipe_size p.buffer c p.start_position p.current_size (buffer_position p)
        v.start_in h refl)

take-nil {ℓ} : {A : Type ℓ} (r : ℕ) → take {A = A} r [] ≡ []
take-nil zero = refl
take-nil (suc r) = refl

drop-nil {ℓ} : {A : Type ℓ} (r : ℕ) → drop {A = A} r [] ≡ []
drop-nil zero = refl
drop-nil (suc r) = refl

-- What a round of writing has done, on a pipe that holds `old` with `room` left.
pub record Appended (old cs : List ℕ) (room n : ℕ) (f : Filled) : Type 0 where
  pub valid : IsValid f.pipe
  pub bytes : contents f.pipe ≡ old ++ take room cs
  pub rest : f.rest ≡ drop room cs
  pub count : f.written + length (drop room cs) ≡ n + length cs

Appended-cons :
    (old cs : List ℕ) (c r room n : ℕ) (f : Filled)
    → room ≡ suc r
    → Appended (old ++ (c ∷ [])) cs r (n + 1) f
    → Appended old (c ∷ cs) room n f
Appended-cons old cs c r room n f e a = rw e (record {
  valid = a.valid;
  bytes = a.bytes ∙ append_assoc old (c ∷ []) (take r cs);
  rest = a.rest;
  count = omega (arith, a.count);
})

Appended-full :
    (cs : List ℕ) (room n : ℕ) (p : Pipe)
    → IsValid p
    → room ≡ 0
    → Appended (contents p) cs room n (record { pipe = p; rest = cs; written = n })
Appended-full cs room n p v e =
    rw e (record {
      valid = v;
      bytes = sym (append-nil (contents p));
      rest = refl;
      count = omega arith;
    })

-- The inner loop of `pipe_write` appends to the pipe as many of the bytes as there is room for, in
-- order, leaves the others, counts what it took, and keeps every index inside the buffer, if none
-- of the bytes is the end-of-file mark.
pub fill-Appended :
    (cs : List ℕ) (n : ℕ) (p : Pipe)
    → IsValid p
    → IsPlain cs
    → Appended (contents p) cs (pipe_size - p.current_size) n (fill cs n p)
unfolding fill
fill-Appended [] n p v plain = record {
  valid = v;
  bytes = sym (ap (λ l. contents p ++ l) (take-nil _) ∙ append-nil (contents p));
  rest = sym (drop-nil _);
  count = ap (λ (l : List ℕ). n + length l) (drop-nil _);
}
fill-Appended (c ∷ cs) n p v plain = elim (Bool-cases (ltb p.current_size pipe_size)) [
  | inl room ↦
      let other : (c == eof_marker) ≡ false = ground arith in
      let left : ℕ = pipe_size - u16 (p.current_size + 1) in
      rw (room, other, fill)
        (Appended-cons (contents p) cs c left (pipe_size - p.current_size) n _ (ground arith) (
          subst (λ l. Appended l cs left (n + 1) (fill cs (n + 1) (push c p)))
            (contents-store c p v (ground arith))
            (fill-Appended cs (n + 1) (push c p) (store-IsValid c p v (ground arith)) plain.1)))
  | inr full ↦
      rw (full, fill) (Appended-full (c ∷ cs) (pipe_size - p.current_size) n p v (ground arith))
]

-- The pipe is the same one, with the same ends and the same state of waiting.
pub record SameEnds (p q : Pipe) : Type 0 where
  pub block : q.block ≡ p.block
  pub input_pid : q.input_pid ≡ p.input_pid
  pub output_pid : q.output_pid ≡ p.output_pid
  pub is_blocking : q.is_blocking ≡ p.is_blocking

pub fill-SameEnds : (cs : List ℕ) (n : ℕ) (p : Pipe) → SameEnds p (fill cs n p).pipe
unfolding fill
fill-SameEnds [] n p = record {
  block = refl;
  input_pid = refl;
  output_pid = refl;
  is_blocking = refl;
}
fill-SameEnds (c ∷ cs) n p =
    let more = fill-SameEnds cs (n + 1) (push c p) in
    record {
      block = ground (arith, more.block);
      input_pid = ground (arith, more.input_pid);
      output_pid = ground (arith, more.output_pid);
      is_blocking = ground (arith, more.is_blocking);
    }

-- What a round of reading `n` bytes has done, on a pipe that held `old`.
pub record Taken (old : List ℕ) (n : ℕ) (d : Drained) : Type 0 where
  pub valid : IsValid d.pipe
  pub bytes : d.bytes ≡ take n old
  pub left : contents d.pipe ≡ drop n old
  pub more : d.eof_read ≡ false

-- `window` matches on `suc`, the code subtracts one.
contents-advance :
    (p : Pipe) → IsValid p → 0 < p.current_size → contents p ≡ front p ∷ contents (advance p)
contents-advance p v h =
    let size : p.current_size ≡ suc (u16 (p.current_size + 65535)) = omega arith in
    ap (window pipe_size p.buffer p.start_position) size

Taken-cons :
    (c n : ℕ) (old : List ℕ) (d : Drained) → Taken old n d → Taken (c ∷ old) (suc n) (cons_byte c d)
Taken-cons c n old d t = record {
  valid = t.valid;
  bytes = ap (λ l. c ∷ l) t.bytes;
  left = t.left;
  more = t.more;
}

-- The inner loop of `pipe_read` takes the oldest bytes of the pipe, in order, as many as are wanted,
-- leaves the others, and keeps every index inside the buffer, if the pipe holds that many and no
-- end-of-file mark among them.
pub drain-Taken :
    (n : ℕ) (p : Pipe)
    → IsValid p
    → n ≤ p.current_size
    → IsPlain (contents p)
    → Taken (contents p) n (drain n p)
unfolding drain
drain-Taken zero p v h plain = record { valid = v; bytes = refl; left = refl; more = refl }
drain-Taken (suc n) p v h plain =
    let shape : contents p ≡ front p ∷ contents (advance p) = contents-advance p v (omega arith) in
    let pl : IsPlain (front p ∷ contents (advance p)) = subst IsPlain shape plain in
    let some_data : has_data p ≡ true = ground arith in
    let other : (front p == eof_marker) ≡ false = ground (arith, pl.0) in
    rw (some_data, other, drain)
      (subst (λ l. Taken l (suc n) (cons_byte (front p) (drain n (advance p)))) (sym shape)
        (Taken-cons (front p) n (contents (advance p)) (drain n (advance p)) (
          drain-Taken n (advance p) (record { start_in = omega arith; size_in = omega arith })
            (omega arith) pl.1)))
