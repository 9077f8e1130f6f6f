-- ===== src/Pipe/Buffer.antt =====
-- The buffer of a pipe: the inner loops of `pipe_write` and `pipe_read` in pipes/pipe.c.
use so_tpe.Common.{
  ℕ, zero, suc, ◌+◌, ◌%◌, Bool, true, false, ◌||◌, List, [], ◌∷◌, ltb, ◌==◌, if◌then◌else◌, u16,
  update,
}
use so_tpe.State.{Pipe}

abbrev pub pipe_size : ℕ
pipe_size = 4096

-- EOF_MARKER, -1 as a char
abbrev pub eof_marker : ℕ
eof_marker = 255

-- `bufferPosition`
abbrev pub buffer_position : Pipe → ℕ
buffer_position p = (p.start_position + p.current_size) % pipe_size

abbrev pub store : ℕ → Pipe → Pipe
store c p = record p { buffer = update p.buffer (buffer_position p) c }

abbrev pub push : ℕ → Pipe → Pipe
push c p = record (store c p) { current_size = u16 (p.current_size + 1) }

abbrev pub advance : Pipe → Pipe
advance p = record p {
  current_size = u16 (p.current_size + 65535);
  start_position = (p.start_position + 1) % pipe_size;
}

-- What a round of `pipe_write` leaves: the pipe, the bytes left, and `writtenBytes`.
pub record Filled : Type 0 where
  pub pipe : Pipe
  pub rest : List ℕ
  pub written : ℕ

-- `while (currentSize < PIPE_SIZE && writtenBytes < len)`
unfoldable pub fill : List ℕ → ℕ → Pipe → Filled
fill [] n p = record { pipe = p; rest = []; written = n }
fill (c ∷ cs) n p =
    let more = fill cs (n + 1) (push c p) in
    if ltb p.current_size pipe_size
    then (if c == eof_marker then record { pipe = store c p; rest = cs; written = n + 1 } else more)
    else record { pipe = p; rest = c ∷ cs; written = n }

-- What a round of `pipe_read` leaves: the pipe, the bytes read, and `eofRead`.
pub record Drained : Type 0 where
  pub pipe : Pipe
  pub bytes : List ℕ
  pub eof_read : Bool

abbrev pub front : Pipe → ℕ
front p = p.buffer p.start_position

abbrev pub has_data : Pipe → Bool
has_data p = ltb 0 p.current_size || front p == eof_marker

abbrev pub cons_byte : ℕ → Drained → Drained
cons_byte c d = record d { bytes = c ∷ d.bytes }

-- `while ((currentSize > 0 || buffer[startPosition] == EOF_MARKER) && readBytes < len)`, with the
-- bytes that are still wanted
unfoldable pub drain : ℕ → Pipe → Drained
drain zero p = record { pipe = p; bytes = []; eof_read = false }
drain (suc n) p =
    let more = drain n (advance p) in
    if has_data p
    then (if front p == eof_marker
        then record { pipe = p; bytes = front p ∷ []; eof_read = true }
        else cons_byte (front p) more)
    else record { pipe = p; bytes = []; eof_read = false }
